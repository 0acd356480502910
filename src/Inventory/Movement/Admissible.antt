-- ===== src/Inventory/Movement/Admissible.antt =====
-- Which movements pass the judgement that asks no database.
use cubeforge_api.Prelude.{
  ◌≤◌, ◌<◌, true, false, Text, ◌==◌, ◌≡◌, ◌≢◌, ◌↔◌, ◌⊎◌, inl, inr, refl, sym, ap, ◌∙◌, arith, Date,
  ◌<ℤ◌, at, before, includes, eq_iff, subst, invalid, Number, not_whole,
}
use cubeforge_api.Inventory.Movement.{
  SubmittedMovement, judge_movement, Date, admissible, lit, ℤ, whole, abs, largest, pos, before,
  required_sign, Sign, judge_quantity, judge_moment, includes, kinds, plus, minus, judge_number,
  Number,
}

-- What a movement must be, each rule by itself.
pub record IsAdmissible (m : SubmittedMovement) (now : Date) : Type 0 where
  pub kind_known : (m.kind ≡ lit "receipt") ⊎ (m.kind ≡ lit "sale") ⊎ (m.kind ≡ lit "adjustment")
  pub units : ℤ
  pub quantity_whole : m.quantity ≡ whole units
  pub not_zero : 0 < abs units
  pub in_range : abs units ≤ largest
  pub arrival : m.kind ≡ lit "receipt" → pos 0 <ℤ units
  pub removal : m.kind ≡ lit "sale" → units <ℤ pos 0
  pub moment : ℤ
  pub is_moment : m.occurred_at ≡ at moment
  pub not_future : before now (at moment) ≡ false

kinds_iff :
    (k : Text)
    → (includes kinds k ≡ true) ↔ ((k ≡ lit "receipt") ⊎ (k ≡ lit "sale") ⊎ (k ≡ lit "adjustment"))
unfolding includes
kinds_iff k = (
  λ h. ground (arith, eq_iff (lit "receipt") k, eq_iff (lit "sale") k, eq_iff (lit "adjustment") k),
  λ h. ground (arith, eq_iff (lit "receipt") k, eq_iff (lit "sale") k, eq_iff (lit "adjustment") k),
)

sign_receipt : required_sign (lit "receipt") ≡ plus
unfolding required_sign ◌==◌
sign_receipt = refl

sign_sale : required_sign (lit "sale") ≡ minus
unfolding required_sign ◌==◌
sign_sale = refl

sign_other : (k : Text) → k ≢ lit "receipt" → k ≢ lit "sale" → required_sign k ≡ Sign.zero
unfolding required_sign
sign_other k r s = ground (arith, eq_iff k (lit "receipt"), eq_iff k (lit "sale"))

-- What a required sign asks of a number of units.
abbrev Fits : Sign → ℤ → Type 0
Fits plus q = pos 0 <ℤ q
Fits minus q = q <ℤ pos 0
Fits Sign.zero q = Unit

quantity_sound :
    (kind : Text) (q : ℤ) (r : Sign) (occurred now : Date)
    → required_sign kind ≡ r
    → judge_quantity kind q occurred now ≡ admissible
    → (0 < abs q) × (abs q ≤ largest) × Fits r q × (judge_moment occurred now ≡ admissible)
unfolding judge_quantity
quantity_sound kind q plus occurred now e h = ground arith
quantity_sound kind q minus occurred now e h = ground arith
quantity_sound kind q Sign.zero occurred now e h = ground arith

quantity_complete :
    (kind : Text) (q : ℤ) (r : Sign) (occurred now : Date)
    → required_sign kind ≡ r
    → 0 < abs q
    → abs q ≤ largest
    → Fits r q
    → judge_quantity kind q occurred now ≡ judge_moment occurred now
unfolding judge_quantity
quantity_complete kind q plus occurred now e a b c = ground arith
quantity_complete kind q minus occurred now e a b c = ground arith
quantity_complete kind q Sign.zero occurred now e a b c = ground arith

moment_sound :
    (occurred now : Date)
    → judge_moment occurred now ≡ admissible
    → (t : ℤ) × (occurred ≡ at t) × (before now (at t) ≡ false)
unfolding judge_moment
moment_sound (at t) now h = (t, refl, ground arith)
moment_sound invalid now h = cc

-- The sign that the kind imposes, read off the kind.
sign_sound :
    (k : Text) (q : ℤ)
    → Fits (required_sign k) q
    → (k ≡ lit "receipt" → pos 0 <ℤ q) × (k ≡ lit "sale" → q <ℤ pos 0)
sign_sound k q h = (
  λ e. subst (λ r. Fits r q) (ap required_sign e ∙ sign_receipt) h,
  λ e. subst (λ r. Fits r q) (ap required_sign e ∙ sign_sale) h,
)

sign_complete :
    (k : Text) (q : ℤ)
    → (k ≡ lit "receipt") ⊎ (k ≡ lit "sale") ⊎ (k ≡ lit "adjustment")
    → (k ≡ lit "receipt" → pos 0 <ℤ q)
    → (k ≡ lit "sale" → q <ℤ pos 0)
    → Fits (required_sign k) q
sign_complete k q (inl e) a b =
    subst (λ r. Fits r q) (sym (ap required_sign e ∙ sign_receipt)) (a e)
sign_complete k q (inr (inl e)) a b =
    subst (λ r. Fits r q) (sym (ap required_sign e ∙ sign_sale)) (b e)
sign_complete k q (inr (inr e)) a b =
    subst (λ r. Fits r q) (sym (sign_other k (λ f. cc (e, f)) (λ f. cc (e, f)))) tt

number_sound :
    (kind : Text) (n : Number) (occurred now : Date)
    → judge_number kind n occurred now ≡ admissible
    → (q : ℤ) × (n ≡ whole q) × (judge_quantity kind q occurred now ≡ admissible)
unfolding judge_number
number_sound kind (whole q) occurred now h = (q, refl, h)
number_sound kind not_whole occurred now h = cc

judge_sound :
    (m : SubmittedMovement) (now : Date) → judge_movement m now ≡ admissible → IsAdmissible m now
unfolding judge_movement
judge_sound m now h =
    let known : includes kinds m.kind ≡ true = ground arith in
    let (q, is_whole, rest) = number_sound m.kind m.quantity m.occurred_at now (ground arith) in
    let (not_zero, in_range, fits, late) =
      quantity_sound m.kind q (required_sign m.kind) m.occurred_at now refl rest in
    let (t, is_moment, not_future) = moment_sound m.occurred_at now late in
    record {
      kind_known = (kinds_iff m.kind).0 known;
      units = q;
      quantity_whole = is_whole;
      not_zero = not_zero;
      in_range = in_range;
      arrival = (sign_sound m.kind q fits).0;
      removal = (sign_sound m.kind q fits).1;
      moment = t;
      is_moment = is_moment;
      not_future = not_future;
    }

judge_complete :
    (m : SubmittedMovement) (now : Date) → IsAdmissible m now → judge_movement m now ≡ admissible
unfolding judge_movement judge_number judge_moment
judge_complete m now h =
    rw ((kinds_iff m.kind).1 h.kind_known, h.quantity_whole, h.is_moment)
      (rw
        (quantity_complete m.kind h.units (required_sign m.kind) (at h.moment) now refl h.not_zero
          h.in_range (sign_complete m.kind h.units h.kind_known h.arrival h.removal))
        (rw h.not_future))

-- A movement is admissible exactly if its kind is one of the three; its quantity is a whole number
-- of units, not zero, within a signed 32-bit column, positive for a receipt and negative for a
-- sale; and it happened at a moment that is not in the future.
pub judge_movement_iff :
    (m : SubmittedMovement) (now : Date) → (judge_movement m now ≡ admissible) ↔ IsAdmissible m now
judge_movement_iff m now = (judge_sound m now, judge_complete m now)
