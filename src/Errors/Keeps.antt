-- ===== src/Errors/Keeps.antt =====
-- Properties of the store that hold after an action, whether it returns or throws.
use cubeforge_api.Prelude.{◌≡◌, refl, arith, ap}
use cubeforge_api.Errors.{Exec, ◌>>=◌, asks, lift, Exec, Failure, err, ok, Result, continue}

module _ {S A B : Type 0} (P : S → Type 0) where
  pub keep-continue :
      (k : A → Exec S B) (r : Result A) (s : S)
      → ((e : Failure) → r ≡ err e → P s)
      → ((a : A) → r ≡ ok a → P (k a s).1)
      → P (continue r k s).1
  keep-continue k (ok a) s on_error on_value = on_value a refl
  keep-continue k (err e) s on_error on_value = on_error e refl

  -- After a step come the error, or the rest from the store that the step leaves.
  pub keep-bind :
      (m : Exec S A) (k : A → Exec S B) (s : S)
      → ((e : Failure) → (m s).0 ≡ err e → P (m s).1)
      → ((a : A) → (m s).0 ≡ ok a → P (k a (m s).1).1)
      → P ((m >>= k) s).1
  unfolding ◌>>=◌
  keep-bind m k s on_error on_value = keep-continue k (m s).0 (m s).1 on_error on_value

  -- A step that reads.
  pub keep-asks :
      (f : S → Result A) (k : A → Exec S B) (s : S)
      → P s
      → ((a : A) → f s ≡ ok a → P (k a s).1)
      → P ((asks f >>= k) s).1
  unfolding ◌>>=◌
  keep-asks f k s p on_value = keep-continue k (f s) s (λ e h. p) on_value

  -- A step that computes without the store.
  pub keep-lift :
      (r : Result A) (k : A → Exec S B) (s : S)
      → P s
      → ((a : A) → r ≡ ok a → P (k a s).1)
      → P ((lift r >>= k) s).1
  unfolding ◌>>=◌
  keep-lift r k s p on_value = keep-continue k r s (λ e h. p) on_value

-- What it takes for a sequence to return: the first step returns, and the rest returns after it.
pub record Returns {S A B : Type 0} (m : Exec S A) (k : A → Exec S B) (s : S) (b : B) : Type 0 where
  pub value : A
  pub first : (m s).0 ≡ ok value
  pub rest : (k value (m s).1).0 ≡ ok b
  pub same : ((m >>= k) s).1 ≡ (k value (m s).1).1

continue-ok :
    {S A B : Type 0} (m : Exec S A) (k : A → Exec S B) (s : S) (b : B) (r : Result A)
    → (m s).0 ≡ r
    → (continue r k (m s).1).0 ≡ ok b
    → (a : A) × (r ≡ ok a) × ((k a (m s).1).0 ≡ ok b) × ((continue r k (m s).1).1 ≡ (k a (m s).1).1)
continue-ok m k s b (ok a) e h = (a, refl, h, refl)
continue-ok m k s b (err f) e h = absurd (ground arith)

pub bind-ok :
    {S A B : Type 0} (m : Exec S A) (k : A → Exec S B) (s : S) (b : B)
    → ((m >>= k) s).0 ≡ ok b
    → Returns m k s b
unfolding ◌>>=◌
bind-ok m k s b h =
    let (a, e, f, g) = continue-ok m k s b (m s).0 refl h in
    record { value = a; first = e; rest = f; same = g }

-- After a first step that returns comes the rest.
pub bind-returns :
    {S A B : Type 0} (m : Exec S A) (k : A → Exec S B) (s : S) (a : A)
    → (m s).0 ≡ ok a
    → (m >>= k) s ≡ k a (m s).1
unfolding ◌>>=◌
bind-returns m k s a e = ap (λ r. continue r k (m s).1) e

outcome-continue :
    {S A B : Type 0} (Q : Result B × S → Type 0) (k : A → Exec S B) (r : Result A) (s : S)
    → ((e : Failure) → r ≡ err e → Q (err e, s))
    → ((a : A) → r ≡ ok a → Q (k a s))
    → Q (continue r k s)
outcome-continue Q k (ok a) s on_error on_value = on_value a refl
outcome-continue Q k (err e) s on_error on_value = on_error e refl

-- A property of the outcome and the store together.
pub outcome-bind :
    {S A B : Type 0} (Q : Result B × S → Type 0) (m : Exec S A) (k : A → Exec S B) (s : S)
    → ((e : Failure) → (m s).0 ≡ err e → Q (err e, (m s).1))
    → ((a : A) → (m s).0 ≡ ok a → Q (k a (m s).1))
    → Q ((m >>= k) s)
unfolding ◌>>=◌
outcome-bind Q m k s on_error on_value = outcome-continue Q k (m s).0 (m s).1 on_error on_value
