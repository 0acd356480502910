-- ===== src/Export/Cursor/Once.antt =====
-- The windows of successive exports of one tenant, under src/domain/export/cursor.ts.
use cubeforge_api.Prelude.{
  ℕ, suc, ◌≤◌, ◌<◌, ◌&&◌, List, [], ◌∷◌, if◌then◌else◌, ◌≡◌, arith, length, filter, leb, ltb,
}
use cubeforge_api.Export.Cursor.{
  ExportCursor, window_to, next_window, first, never_carried, started, window_from, ok, carry,
  carried, ltb,
}
use cubeforge_api.Export.Window.{ExportWindow, covers, window_from}
use cubeforge_api.Errors.{ok}

-- What a cursor has behind it.
abbrev pub reached : ExportCursor → ℕ
reached never_carried = first
reached (carried through) = through
reached (started w) = w.from

-- A tenant's cursor after any number of exports at any horizons, with the windows that were
-- confirmed: an export claims a window and dies, or it goes on and confirms it.
pub data Exports : ExportCursor → List ExportWindow → Type 0 where
  fresh : Exports never_carried []
  claimed :
      {c : ExportCursor} {ws : List ExportWindow} (h : ℕ) (w : ExportWindow)
      → Exports c ws
      → next_window c h ≡ ok (carry w)
      → Exports (started w) ws
  confirmed :
      {c : ExportCursor} {ws : List ExportWindow} (h : ℕ) (w : ExportWindow)
      → Exports c ws
      → next_window c h ≡ ok (carry w)
      → Exports (carried w.to) (w ∷ ws)

-- How often a transaction was carried.
abbrev pub times : List ExportWindow → ℕ → ℕ
times ws x = length (filter (λ w. covers w x) ws)

-- A window that is being carried is not empty.
abbrev IsProper : ExportCursor → Type 0
IsProper (started w) = w.from < w.to
IsProper _ = Unit

record Next (c : ExportCursor) (w : ExportWindow) : Type 0 where
  from : w.from ≡ reached c
  proper : w.from < w.to

window_to-Next :
    (c : ExportCursor) (h : ℕ) (w : ExportWindow)
    → window_to (reached c) h ≡ ok (carry w)
    → Next c w
unfolding window_to window_from
window_to-Next c h w e = record { from = ground arith; proper = ground arith }

next_window-Next :
    (c : ExportCursor) (h : ℕ) (w : ExportWindow)
    → IsProper c
    → next_window c h ≡ ok (carry w)
    → Next c w
unfolding next_window
next_window-Next never_carried h w p e = window_to-Next never_carried h w e
next_window-Next (carried a) h w p e = window_to-Next (carried a) h w e
next_window-Next (started v) h w p e = record { from = ground arith; proper = ground (arith, p) }

record Once (c : ExportCursor) (ws : List ExportWindow) : Type 0 where
  proper : IsProper c
  later : first ≤ reached c
  carried_once : (x : ℕ) → times ws x ≡ (if leb first x && ltb x (reached c) then 1 else 0)

times-next :
    (from x n : ℕ) (w : ExportWindow)
    → first ≤ from
    → w.from ≡ from
    → w.from < w.to
    → n ≡ (if leb first x && ltb x from then 1 else 0)
    → (if covers w x then suc n else n) ≡ (if leb first x && ltb x w.to then 1 else 0)
unfolding covers
times-next from x n w l f p e = ground arith

Exports-Once : {c : ExportCursor} {ws : List ExportWindow} → Exports c ws → Once c ws
Exports-Once fresh = record { proper = tt; later = omega arith; carried_once = λ x. ground arith }
Exports-Once (claimed {c} {ws} h w r e) =
    let o = Exports-Once r in
    let n = next_window-Next c h w o.proper e in
    record {
      proper = n.proper;
      later = ground (arith, n.from, o.later);
      carried_once = λ x. rw n.from (o.carried_once x);
    }
Exports-Once (confirmed {c} {ws} h w r e) =
    let o = Exports-Once r in
    let n = next_window-Next c h w o.proper e in
    record {
      proper = tt;
      later = omega (arith, n.from, n.proper, o.later);
      carried_once = λ x. ground (
        arith,
        times-next (reached c) x (times ws x) w o.later n.from n.proper (o.carried_once x),
      );
    }

-- Through any number of exports, at any horizons, that die after the claim or confirm, the
-- transactions from the first up to the point reached are each in exactly one confirmed window,
-- and no other is in any.
pub Exports-times :
    (c : ExportCursor) (ws : List ExportWindow) (x : ℕ)
    → Exports c ws
    → times ws x ≡ (if leb first x && ltb x (reached c) then 1 else 0)
Exports-times c ws x r = (Exports-Once r).carried_once x
