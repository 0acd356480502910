-- ===== src/Inventory/Identifiers/Codes.antt =====
-- Which texts are codes: src/domain/inventory/identifiers.ts.
use cubeforge_api.Prelude.{
  ℕ, ◌≤◌, ◌<◌, true, false, [], ◌∷◌, Text, ◌≡◌, ◌≢◌, ◌↔◌, refl, arith, length, All, is_space,
  trim_end, trim, trim_start,
}
use cubeforge_api.Inventory.Identifiers.{
  is_supported, parse, is_code, all, value, length, false, nat_eq, ◌∷◌, longest, trim,
}

-- A code as the tenant's systems spell it.
pub record IsCode (t : Text) : Type 0 where
  pub not_blank : 0 < length t
  pub short : length t ≤ longest
  pub supported : All (λ c. is_supported c ≡ true) t

supported-not_space : (c : ℕ) → is_supported c ≡ true → is_space c ≡ false
unfolding is_supported is_space
supported-not_space c h = ground arith

trim_end-not_nil : (c : ℕ) (t : Text) → is_space c ≡ false → length (trim_end (c ∷ t)) ≢ 0
unfolding trim_end
trim_end-not_nil c t h = ground arith

trim-not_nil : (c : ℕ) (t : Text) → is_supported c ≡ true → nat_eq (length (trim (c ∷ t))) 0 ≡ false
unfolding trim
trim-not_nil c t h =
    let e = supported-not_space c h in rw (e, trim_start) (ground (arith, trim_end-not_nil c t e))

all-All : (t : Text) → all is_supported t ≡ true → All (λ c. is_supported c ≡ true) t
all-All [] h = tt
all-All (c ∷ t) h = (ground arith, all-All t (ground arith))

All-all : (t : Text) → All (λ c. is_supported c ≡ true) t → all is_supported t ≡ true
All-all [] h = refl
All-all (c ∷ t) (p, h) = ground (arith, All-all t h)

parse_sound : (t u : Text) → parse t ≡ value u → (u ≡ t) × IsCode t
unfolding parse is_code
parse_sound [] u h = absurd (ground arith)
parse_sound (c ∷ t) u h = (
  ground arith,
  record {
    not_blank = omega arith;
    short = ground arith;
    supported = all-All (c ∷ t) (ground arith);
  },
)

parse_complete : (t : Text) → IsCode t → parse t ≡ value t
unfolding parse is_code
parse_complete [] h = absurd (omega (arith, h.not_blank))
parse_complete (c ∷ t) h =
    ground (arith, trim-not_nil c t h.supported.0, All-all (c ∷ t) h.supported, h.short)

-- A text parses exactly if it has between 1 and 64 code units, all of them letters, digits, dots,
-- underscores or dashes; what comes out is the text itself, neither trimmed nor case-folded.
pub parse_iff : (t u : Text) → (parse t ≡ value u) ↔ ((u ≡ t) × IsCode t)
parse_iff t u = (parse_sound t u, λ h. rw h.0 (parse_complete t h.1))
