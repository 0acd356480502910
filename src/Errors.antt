-- ===== src/Errors.antt =====
-- src/domain/errors.ts, and what the use cases throw. A use case is an action on a store: it comes
-- back with its result or with what it threw, and with the store as it then is. The phrases that
-- travel beside an error into the log, `reason` and `cause`, decide nothing and are left out.
pub mod Keeps
use cubeforge_api.Prelude.{Bool, true, false, Text, List, ◌≡◌, ◌⊎◌, inl, inr, refl}
use cubeforge_api.Access.Role.{Role}

-- `DomainError`; a validation error names its field, and its prose detail is left out.
pub data DomainError : Type 0 where
  validation : Text → DomainError
  tenant_name_taken : DomainError
  already_a_member : DomainError
  invalid_role : List Role → DomainError
  last_administrator : DomainError
  not_found : DomainError
  forbidden : DomainError
  unanswerable : DomainError

-- `ExportFailureReason`
pub data ExportFailureReason : Type 0 where
  storage_unreachable storage_rejected database_unavailable write_failed : ExportFailureReason

-- `AnalyticsFailureReason`
pub data AnalyticsFailureReason : Type 0 where
  not_configured store_unreachable store_rejected model_unreachable model_rejected model_unreadable
        question_timed_out question_failed :
      AnalyticsFailureReason

-- A `DomainViolation`, an `ExportFailed`, an `AnalyticsUnavailable`, or any other `Error`.
pub data Failure : Type 0 where
  violation : DomainError → Failure
  export_failed : ExportFailureReason → Failure
  analytics_unavailable : AnalyticsFailureReason → Failure
  thrown : Failure

pub data Result {ℓ} (A : Type ℓ) : Type ℓ where
  ok : A → Result A
  err : Failure → Result A

abbrev pub Exec : Type 0 → Type 0 → Type 0
Exec S A = S → Result A × S

module _ {S A : Type 0} where
  abbrev pub pure : A → Exec S A
  pure a s = (ok a, s)

  abbrev pub throw : Failure → Exec S A
  throw e s = (err e, s)

  -- A computation that reads nothing and writes nothing.
  abbrev pub lift : Result A → Exec S A
  lift r s = (r, s)

  abbrev pub gets : (S → A) → Exec S A
  gets f s = (ok (f s), s)

  -- A read of the store that may throw.
  abbrev pub asks : (S → Result A) → Exec S A
  asks f s = (f s, s)

module _ {S A B : Type 0} where
  abbrev pub continue : Result A → (A → Exec S B) → Exec S B
  continue (ok a) f s = f a s
  continue (err e) f s = (err e, s)

  infixl 10 ◌>>=◌ ◌>>◌
  unfoldable pub ◌>>=◌ : Exec S A → (A → Exec S B) → Exec S B
  ◌>>=◌ m f s = let (r, s') = m s in continue r f s'

  abbrev pub ◌>>◌ : Exec S A → Exec S B → Exec S B
  m >> n = m >>= λ _. n

abbrev pub modify : {S : Type 0} → (S → S) → Exec S (Unit {0})
modify f s = (ok tt, f s)

abbrev pub guard : {S : Type 0} → Bool → Failure → Exec S (Unit {0})
guard true e s = (ok tt, s)
guard false e s = (err e, s)

pub Result-cases {ℓ} :
    {A : Type ℓ} (r : Result A) → ((a : A) × (r ≡ ok a)) ⊎ ((e : Failure) × (r ≡ err e))
Result-cases (ok a) = inl (a, refl)
Result-cases (err e) = inr (e, refl)

pub ok-injective {ℓ} : {A : Type ℓ} {a b : A} → ok a ≡ ok b → a ≡ b
ok-injective h = cc

pub Exec-cases :
    {W A : Type 0} (o : Result A × W)
    → ((a : A) × (w : W) × (o ≡ (ok a, w))) ⊎ ((e : Failure) × (w : W) × (o ≡ (err e, w)))
Exec-cases (ok a, w) = inl (a, w, refl)
Exec-cases (err e, w) = inr (e, w, refl)

pub err-injective {ℓ} : {A : Type ℓ} {e f : Failure} → ◌≡◌ {A = Result A} (err e) (err f) → e ≡ f
err-injective h = cc
