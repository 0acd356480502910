-- ===== src/Inventory/Movement.antt =====
-- src/domain/inventory/movement.ts and rejection-reason.ts
pub mod Admissible
use cubeforge_api.Prelude.{
  Bool, true, false, ℕ, ltb, not, ◌&&◌, List, [], ◌∷◌, Text, lit, includes, ◌==◌, if◌then◌else◌,
  Date, is_invalid, before, Number, whole, not_whole, ℤ, pos, negsuc, abs,
}

pub record SubmittedMovement : Type 0 where
  pub external_id : Text
  pub sku : Text
  pub location : Text
  pub kind : Text
  pub quantity : Number
  pub occurred_at : Date

-- `StandaloneRefusal`, and the reasons that `RejectionReason` adds.
pub data RejectionReason : Type 0 where
  unknown_kind : RejectionReason
  quantity_zero : RejectionReason
  quantity_not_whole : RejectionReason
  quantity_out_of_range : RejectionReason
  quantity_sign_mismatch : RejectionReason
  occurred_in_future : RejectionReason
  occurred_not_a_moment : RejectionReason
  malformed_identifier : RejectionReason
  unknown_sku : RejectionReason
  unknown_location : RejectionReason
  duplicate_within_batch : RejectionReason

pub data Judgement : Type 0 where
  admissible : Judgement
  inadmissible : RejectionReason → Judgement

abbrev pub kinds : List Text
kinds = lit "receipt" ∷ lit "sale" ∷ lit "adjustment" ∷ []

abbrev pub largest : ℕ
largest = 2_147_483_647

-- `REQUIRED_SIGN`: 1, -1 or 0, for a kind that is one of `kinds`.
pub data Sign : Type 0 where
  plus minus zero : Sign

unfoldable pub required_sign : Text → Sign
required_sign kind =
    if kind == lit "receipt" then plus else if kind == lit "sale" then minus else Sign.zero

-- `Math.sign`
abbrev pub sign : ℤ → Sign
sign (pos ℕ.zero) = Sign.zero
sign (pos (ℕ.suc n)) = plus
sign (negsuc n) = minus

abbrev pub sign_eq : Sign → Sign → Bool
sign_eq plus plus = true
sign_eq minus minus = true
sign_eq Sign.zero Sign.zero = true
sign_eq _ _ = false

abbrev is_zero : ℤ → Bool
is_zero a = sign_eq (sign a) Sign.zero

-- The two checks of the moment.
unfoldable pub judge_moment : Date → Date → Judgement
judge_moment occurred now =
    if is_invalid occurred
    then inadmissible occurred_not_a_moment
    else if before now occurred
    then inadmissible occurred_in_future
    else admissible

-- The checks of a quantity that is whole, and what follows them.
unfoldable pub judge_quantity : Text → ℤ → Date → Date → Judgement
judge_quantity kind q occurred now =
    if is_zero q
    then inadmissible quantity_zero
    else if ltb largest (abs q)
    then inadmissible quantity_out_of_range
    else let required = required_sign kind in
      if not (sign_eq required Sign.zero) && not (sign_eq (sign q) required)
      then inadmissible quantity_sign_mismatch
      else judge_moment occurred now

unfoldable pub judge_number : Text → Number → Date → Date → Judgement
judge_number kind not_whole occurred now = inadmissible quantity_not_whole
judge_number kind (whole q) occurred now = judge_quantity kind q occurred now

unfoldable pub judge_movement : SubmittedMovement → Date → Judgement
judge_movement m now =
    if not (includes kinds m.kind)
    then inadmissible unknown_kind
    else judge_number m.kind m.quantity m.occurred_at now
