-- ===== src/Inventory/Store/Keys.antt =====
-- The keys of the tables: a tenant and a code, joined by a colon.
use cubeforge_api.Prelude.{ℕ, false, [], ◌∷◌, ◌++◌, Text, ◌≡◌, refl, arith, All, subst, nat_eq}

-- A text without a given separator.
abbrev pub Without : ℕ → Text → Type 0
Without c t = All (λ d. nat_eq c d ≡ false) t

separator_absurd : (c : ℕ) (a b : Text) → Without c (a ++ c ∷ b) → ⊥
separator_absurd c [] b h = ground arith
separator_absurd c (x ∷ a) b (p, h) = separator_absurd c a b h

-- A separator that stands in neither of the parts behind it tells the parts apart.
pub split_unique :
    (c : ℕ) (t u a b : Text)
    → Without c a
    → Without c b
    → t ++ c ∷ a ≡ u ++ c ∷ b
    → (t ≡ u) × (a ≡ b)
split_unique c [] [] a b ha hb e = (refl, cc)
split_unique c [] (x ∷ u) a b ha hb e = absurd (separator_absurd c u b (subst (Without c) (cc) ha))
split_unique c (x ∷ t) [] a b ha hb e = absurd (separator_absurd c t a (subst (Without c) (cc) hb))
split_unique c (x ∷ t) (y ∷ u) a b ha hb e =
    let (p, q) = split_unique c t u a b ha hb (cc) in (cc (p), q)
