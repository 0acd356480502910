-- ===== src/Inventory/Record/Positions.antt =====
-- The steps of `RecordMovementsUseCase` write into the places of an array. Each is a map over a plan
-- that has one verdict to a row.
use cubeforge_api.Prelude.{
  ℕ, ◌+◌, Option, none, some, List, [], ◌∷◌, ◌++◌, append_assoc, append-nil, suc, Text, length,
  length-append, set, set-append, map, Date, ◌≡◌, refl, arith, ap, ◌∙◌,
}
use cubeforge_api.Inventory.Movement.{SubmittedMovement, RejectionReason}
use cubeforge_api.Inventory.Record.{
  SubmittedRow, MovementOutcome, rejected, Candidate, Verdict, decided, open_row, judge_row,
  see_row, Outcomes, write_verdict, drop_one, judge_loop, unknown_reference, drop_loop, settled,
  settle_loop, present,
}

-- The verdicts of the rows in turn.
abbrev pub verdicts : (Text → Date) → Date → List Text → List SubmittedRow → List Verdict
verdicts date_from now seen [] = []
verdicts date_from now seen (r ∷ rs) =
    judge_row date_from now seen r ∷ verdicts date_from now (see_row seen r) rs

abbrev pub slot : Verdict → Option MovementOutcome
slot (decided o) = some o
slot (open_row m) = none

abbrev pub slots : List Verdict → Outcomes
slots [] = []
slots (v ∷ vs) = slot v ∷ slots vs

abbrev pub opens : ℕ → List Verdict → List Candidate
opens i [] = []
opens i (decided o ∷ vs) = opens (i + 1) vs
opens i (open_row m ∷ vs) = record { position = i; movement = m } ∷ opens (i + 1) vs

abbrev pub blanks : List SubmittedRow → Outcomes
blanks [] = []
blanks (r ∷ rs) = none ∷ blanks rs

length-snoc : {A : Type 0} (xs : List A) (x : A) → length (xs ++ x ∷ []) ≡ length xs + 1
length-snoc xs x = omega (arith, length-append xs (x ∷ []))

-- A write at the end of a prefix, with the prefix that it leaves.
set-snoc :
    {A : Type 0} (pre : List A) (y v : A) (ys : List A) (i : ℕ)
    → i ≡ length pre
    → set (pre ++ y ∷ ys) i v ≡ (pre ++ v ∷ []) ++ ys
set-snoc pre y v ys i e = rw (e, append_assoc) (set-append pre y v ys)

opens-cons :
    (i : ℕ) (v : Verdict) (vs : List Verdict)
    → opens i (v ∷ vs) ≡ opens i (v ∷ []) ++ opens (i + 1) vs
opens-cons i (decided o) vs = refl
opens-cons i (open_row m) vs = refl

-- The two sides of a step, regrouped.
regroup :
    (pre ys : Outcomes) (y : Option MovementOutcome) (cs : List Candidate) (i : ℕ) (v : Verdict)
    (vs : List Verdict)
    → ◌≡◌ {A = Outcomes × List Candidate}
        ((pre ++ y ∷ []) ++ ys, (cs ++ opens i (v ∷ [])) ++ opens (i + 1) vs)
        (pre ++ y ∷ ys, cs ++ opens i (v ∷ vs))
regroup pre ys y cs i v vs = rw (opens-cons i v vs) (simp append_assoc)

write_verdict_lem :
    (v : Verdict) (pre ys : Outcomes) (cs : List Candidate) (i : ℕ)
    → i ≡ length pre
    → write_verdict v i (pre ++ none ∷ ys, cs)
      ≡ ((pre ++ slot v ∷ []) ++ ys, cs ++ opens i (v ∷ []))
write_verdict_lem (decided o) pre ys cs i e = cc (set-snoc pre none (some o) ys i e, append-nil cs)
write_verdict_lem (open_row m) pre ys cs i e = cc (append_assoc pre (none ∷ []) ys)

module _ (date_from : Text → Date) (now : Date) where
  pub judge_loop_lem :
      (rs : List SubmittedRow) (seen : List Text) (pre : Outcomes) (cs : List Candidate) (i : ℕ)
      → i ≡ length pre
      → judge_loop date_from now rs i seen (pre ++ blanks rs, cs) ≡ (
        pre ++ slots (verdicts date_from now seen rs),
        cs ++ opens i (verdicts date_from now seen rs),
      )
  unfolding judge_loop
  judge_loop_lem [] seen pre cs i e = cc (append-nil cs)
  judge_loop_lem (r ∷ rs) seen pre cs i e =
      let v = judge_row date_from now seen r in
      rw (write_verdict_lem v pre (blanks rs) cs i e) (
        judge_loop_lem rs (see_row seen r) (pre ++ slot v ∷ []) (cs ++ opens i (v ∷ [])) (i + 1)
          (omega (arith, length-snoc pre (slot v)))
        ∙ regroup pre _ (slot v) cs i v _)

-- What dropping unknown references makes of a verdict.
abbrev pub reject_if : Option RejectionReason → SubmittedMovement → Verdict
reject_if none m = open_row m
reject_if (some reason) m = decided (rejected (some m.external_id) reason)

module _ (skus places : List Text) where
  abbrev pub drop_verdict : Verdict → Verdict
  drop_verdict (decided o) = decided o
  drop_verdict (open_row m) = reject_if (unknown_reference skus places m) m

  drop_one_lem :
      (reason : Option RejectionReason) (m : SubmittedMovement) (pre ys : Outcomes)
      (cs : List Candidate) (i : ℕ)
      → i ≡ length pre
      → drop_one reason (record { position = i; movement = m }) (pre ++ none ∷ ys, cs)
        ≡ ((pre ++ slot (reject_if reason m) ∷ []) ++ ys, cs ++ opens i (reject_if reason m ∷ []))
  drop_one_lem none m pre ys cs i e = cc (append_assoc pre (none ∷ []) ys)
  drop_one_lem (some reason) m pre ys cs i e =
      cc (set-snoc pre none (some (rejected (some m.external_id) reason)) ys i e, append-nil cs)

  pub drop_loop_lem :
      (vs : List Verdict) (pre : Outcomes) (cs : List Candidate) (i : ℕ)
      → i ≡ length pre
      → drop_loop skus places (opens i vs) (pre ++ slots vs, cs)
        ≡ (pre ++ slots (map drop_verdict vs), cs ++ opens i (map drop_verdict vs))
  unfolding drop_loop
  drop_loop_lem [] pre cs i e = cc (append-nil cs)
  drop_loop_lem (decided o ∷ vs) pre cs i e = rw (← append_assoc pre (some o ∷ []) (slots vs)) (
      drop_loop_lem vs (pre ++ some o ∷ []) cs (i + 1) (omega (arith, length-snoc pre (some o)))
      ∙ ap (λ t. (t, cs ++ opens (i + 1) (map drop_verdict vs)))
          (append_assoc pre (some o ∷ []) (slots (map drop_verdict vs))))
  drop_loop_lem (open_row m ∷ vs) pre cs i e =
      let v = reject_if (unknown_reference skus places m) m in
      ap (drop_loop skus places (opens (i + 1) vs))
        (drop_one_lem (unknown_reference skus places m) m pre (slots vs) cs i e)
      ∙ (drop_loop_lem vs (pre ++ slot v ∷ []) (cs ++ opens i (v ∷ [])) (i + 1)
            (omega (arith, length-snoc pre (slot v)))
          ∙ regroup pre _ (slot v) cs i v _)

module _ (news : List Text) where
  abbrev pub settle_verdict : Verdict → MovementOutcome
  settle_verdict (decided o) = o
  settle_verdict (open_row m) = settled news m

  abbrev pub filled : List Verdict → Outcomes
  filled [] = []
  filled (v ∷ vs) = some (settle_verdict v) ∷ filled vs

  pub settle_loop_lem :
      (vs : List Verdict) (pre : Outcomes) (i : ℕ)
      → i ≡ length pre
      → settle_loop news (opens i vs) (pre ++ slots vs) ≡ pre ++ filled vs
  unfolding settle_loop
  settle_loop_lem [] pre i e = refl
  settle_loop_lem (decided o ∷ vs) pre i e =
      rw (← append_assoc pre (some o ∷ []) (slots vs), ← append_assoc pre (some o ∷ []) (filled vs))
        (settle_loop_lem vs (pre ++ some o ∷ []) (i + 1) (omega (arith, length-snoc pre (some o))))
  settle_loop_lem (open_row m ∷ vs) pre i e =
      let o = settled news m in
      ap (settle_loop news (opens (i + 1) vs)) (set-snoc pre none (some o) (slots vs) i e)
      ∙ (settle_loop_lem vs (pre ++ some o ∷ []) (i + 1) (omega (arith, length-snoc pre (some o)))
          ∙ append_assoc pre (some o ∷ []) (filled vs))

  pub present-filled : (vs : List Verdict) → present (filled vs) ≡ map settle_verdict vs
  unfolding present
  present-filled [] = refl
  present-filled (v ∷ vs) = ap (λ t. settle_verdict v ∷ t) (present-filled vs)

  pub length-filled : (vs : List Verdict) → length (filled vs) ≡ length (map settle_verdict vs)
  length-filled [] = refl
  length-filled (v ∷ vs) = ap suc (length-filled vs)
