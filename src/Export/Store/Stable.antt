-- ===== src/Export/Store/Stable.antt =====
-- A claimed window of in-memory-export-store.ts and what is recorded after the claim.
use cubeforge_api.Prelude.{
  ℕ, ◌≤◌, Bool, false, ◌&&◌, List, [], ◌∷◌, Text, ◌==◌, ◌≡◌, inl, inr, refl, ◌∙◌, arith, filter,
  Date, Bool-cases,
}
use cubeforge_api.Export.Window.{ExportWindow, covers}
use cubeforge_api.Export.Store.{
  window_movements, RecordedMovement, covers, put, get, Inventory, values, key,
}
use cubeforge_api.Inventory.Store.{RecordedMovement, record_loop, record_movements, Inventory, key}
use cubeforge_api.Prelude.Dict.{put, has, get, Dict, values}
use cubeforge_api.Inventory.Movement.{SubmittedMovement}
use cubeforge_api.Inventory.Store.Recording.{row}

module _ (t u : Text) (w : ExportWindow) (xid : ℕ) (moment : Date) (closed : w.to ≤ xid) where
  -- The filter of `window_movements`.
  abbrev inside : RecordedMovement → Bool
  inside m = m.tenant == t && covers w m.recorded_xid

  outside : (m : SubmittedMovement) → inside (row u xid moment m) ≡ false
  unfolding covers
  outside m = ground (arith, closed)

  values-put_new :
      (d : Dict RecordedMovement) (k : Text) (m : SubmittedMovement)
      → has d k ≡ false
      → filter inside (values (put d k (row u xid moment m))) ≡ filter inside (values d)
  unfolding put has get
  values-put_new [] k m h = ground (arith, outside m)
  values-put_new ((j, v) ∷ d) k m h = ground (arith, values-put_new d k m, outside m)

  inside-record_loop :
      (ms : List SubmittedMovement) (d : Dict RecordedMovement) (news : List Text)
      → filter inside (values (record_loop u xid moment ms d news).0) ≡ filter inside (values d)
  unfolding record_loop
  inside-record_loop [] d news = refl
  inside-record_loop (m ∷ ms) d news = elim (Bool-cases (has d (key u m.external_id))) [
    | inl old ↦ rw old (inside-record_loop ms d news)
    | inr new ↦ rw new (inside-record_loop ms _ _ ∙ values-put_new d _ m new)
  ]

-- A window that ends at or below the next transaction holds the same movements after any batch
-- is recorded, by this tenant or another.
pub window_movements-record_movements :
    (t u : Text) (w : ExportWindow) (ms : List SubmittedMovement) (s : Inventory)
    → w.to ≤ s.next_transaction
    → window_movements (record_movements u ms s).1 t w ≡ window_movements s t w
unfolding window_movements record_movements
window_movements-record_movements t u w ms s closed =
    inside-record_loop t u w s.next_transaction s.recording_moment closed ms s.movements []
