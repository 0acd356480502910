-- ===== src/Credential/Tokens/Lifetime.antt =====
-- A token from its issue to its verification: src/adapters/crypto/access-token-issuer.ts.
use cubeforge_api.Prelude.{
  ℕ, suc, nat_eq, length, ◌≡◌, ◌↔◌, ◌<ℤ◌, ◌+ℤ◌, ℤ, at, pos, some, none, [], ◌∷◌, Text, arith, refl,
  if◌then◌else◌, leb_ℤ, trim, trim_start, false,
}
use cubeforge_api.Credential.Tokens.{
  Crypto, Claims, issue_token, verify_token, floor_seconds, issuer, verified_subject, false,
}
use cubeforge_api.Credential.Session.{secret}
use cubeforge_api.Access.Identifiers.{tenant_id}
use cubeforge_api.Errors.{ok}

-- What is signed for a subject at a moment.
abbrev pub claims_at : Crypto → Text → ℤ → Claims
claims_at c subject issued = record {
  sub = subject;
  iss = issuer;
  iat = some (floor_seconds issued);
  exp = some (floor_seconds issued +ℤ pos c.lifetime_seconds);
}

secret_same : (t u : Text) → secret t ≡ ok u → t ≡ u
unfolding secret
secret_same t u h = ground (arith, h)

suc_not_zero : (n : ℕ) → nat_eq (suc n) 0 ≡ false
suc_not_zero n = ground arith

blank : tenant_id [] ≡ ok [] → ⊥
unfolding tenant_id trim trim_start
blank h = ground (arith, h)

verified :
    (c : Crypto) (subject : Text) (issued now : ℤ)
    → tenant_id subject ≡ ok subject
    → verified_subject (some (claims_at c subject issued)) (at now) ≡ (
        if leb_ℤ (floor_seconds issued +ℤ pos c.lifetime_seconds) (floor_seconds now)
        then ok none
        else ok (some subject))
unfolding verified_subject
verified c [] issued now h = absurd (blank h)
verified c (x ∷ xs) issued now h = rw (h, suc_not_zero (length xs)) refl

-- Where decoding gives back what was signed, a token that was issued to a subject that is not blank
-- is verified as that subject's exactly until its lifetime is over, in whole seconds.
pub issue-verify :
    (c : Crypto) (subject token : Text) (issued now : ℤ)
    → c.decode (c.sign (claims_at c subject issued)) ≡ some (claims_at c subject issued)
    → tenant_id subject ≡ ok subject
    → issue_token c subject (at issued) ≡ ok token
    → (verify_token c token (at now) ≡ ok (some subject))
      ↔ (floor_seconds now <ℤ floor_seconds issued +ℤ pos c.lifetime_seconds)
unfolding issue_token verify_token
issue-verify c subject token issued now decodes named h =
    let same = secret_same (c.sign (claims_at c subject issued)) token h in
    let found : c.decode token ≡ some (claims_at c subject issued) = rw (← same) decodes in
    rw (found, verified c subject issued now named) (λ e. ground (arith, e), λ e. ground (arith, e))
