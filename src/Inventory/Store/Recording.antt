-- ===== src/Inventory/Store/Recording.antt =====
-- What `InMemoryMovementRepository.record` does to the history.
use cubeforge_api.Prelude.{
  false, ℕ, some, List, [], ◌∷◌, ◌&&◌, ◌||◌, not, Text, ◌==◌, includes, add, includes-add, eq_iff,
  eq-append_left, map, Date, ◌≡◌, arith, Bool-cases, inl, inr, In, true, refl,
}
use cubeforge_api.Prelude.Dict.{Dict, get, has, put, get-put, has-put}
use cubeforge_api.Inventory.Movement.{SubmittedMovement}
use cubeforge_api.Inventory.Store.{RecordedMovement, key, record_loop, record_movements, Inventory}

-- Within one tenant two keys are one exactly if their codes are.
pub key_eq : (t a b : Text) → (key t a == key t b) ≡ (a == b)
unfolding ◌==◌
key_eq t a b = eq-append_left t (b':' ∷ a) (b':' ∷ b)

module _ (t : Text) (xid : ℕ) (moment : Date) where
  abbrev pub row : SubmittedMovement → RecordedMovement
  row m = record { submitted = m; tenant = t; recorded_at = moment; recorded_xid = xid }

  kept :
      (n : SubmittedMovement) (d : Dict RecordedMovement) (k : Text) (m : RecordedMovement)
      → has d (key t n.external_id) ≡ false
      → get d k ≡ some m
      → get (put d (key t n.external_id) (row n)) k ≡ some m
  unfolding has
  kept n d k m new h =
      ground (arith, get-put d (key t n.external_id) k (row n), eq_iff (key t n.external_id) k)

  -- A row that is there stays as it is.
  pub get-record_loop :
      (ms : List SubmittedMovement) (d : Dict RecordedMovement) (news : List Text) (k : Text)
      (m : RecordedMovement)
      → get d k ≡ some m
      → get (record_loop t xid moment ms d news).0 k ≡ some m
  unfolding record_loop
  get-record_loop [] d news k m h = h
  get-record_loop (n ∷ ms) d news k m h = elim (Bool-cases (has d (key t n.external_id))) [
    | inl old ↦ rw old (get-record_loop ms d news k m h)
    | inr new ↦ rw new (get-record_loop ms _ _ k m (kept n d k m new h))
  ]

  pub includes-record_loop :
      (ms : List SubmittedMovement) (d : Dict RecordedMovement) (news : List Text) (e : Text)
      → includes (record_loop t xid moment ms d news).1 e
        ≡ (includes news e || (includes (map (λ m. m.external_id) ms) e && not (has d (key t e))))
  unfolding record_loop includes
  includes-record_loop [] d news e = ground arith
  includes-record_loop (n ∷ ms) d news e = ground (
    arith,
    includes-record_loop ms d news e,
    includes-record_loop ms (put d (key t n.external_id) (row n)) (add news n.external_id) e,
    includes-add news n.external_id e,
    has-put d (key t n.external_id) (key t e) (row n),
    key_eq t n.external_id e,
    eq_iff n.external_id e,
  )

  -- Afterwards a tenant has what it had and what was submitted.
  pub has-record_loop :
      (ms : List SubmittedMovement) (d : Dict RecordedMovement) (news : List Text) (e : Text)
      → has (record_loop t xid moment ms d news).0 (key t e)
        ≡ (has d (key t e) || includes (map (λ m. m.external_id) ms) e)
  unfolding record_loop includes
  has-record_loop [] d news e = ground arith
  has-record_loop (n ∷ ms) d news e = ground (
    arith,
    has-record_loop ms d news e,
    has-record_loop ms (put d (key t n.external_id) (row n)) (add news n.external_id) e,
    has-put d (key t n.external_id) (key t e) (row n),
    key_eq t n.external_id e,
    eq_iff n.external_id e,
  )

  -- Where all of it is there already, nothing is written and nothing is new.
  pub record_loop_known :
      (ms : List SubmittedMovement) (d : Dict RecordedMovement) (news : List Text)
      → ((m : SubmittedMovement) → In m ms → has d (key t m.external_id) ≡ true)
      → record_loop t xid moment ms d news ≡ (d, news)
  unfolding record_loop
  record_loop_known [] d news h = refl
  record_loop_known (n ∷ ms) d news h =
      rw (h n (inl refl)) (record_loop_known ms d news (λ m i. h m (inr i)))

-- The movements table keeps every row, whoever records whatever.
pub get-record_movements :
    (t : Text) (ms : List SubmittedMovement) (s : Inventory) (k : Text) (m : RecordedMovement)
    → get s.movements k ≡ some m
    → get (record_movements t ms s).1.movements k ≡ some m
unfolding record_movements
get-record_movements t ms s k m h =
    get-record_loop t s.next_transaction s.recording_moment ms s.movements [] k m h
