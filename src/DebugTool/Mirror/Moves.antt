-- ===== src/DebugTool/Mirror/Moves.antt =====
-- applets/DebugTool/DebugTool.c on the console of os3k/os3k.c: the screen and memory agree after DumpMoveCursor.
use betawise.Base.{
  ℕ, ◌+◌, ◌-◌, ◌^◌, ◌≡◌, inl, inr, refl, Bool, true, false, Bool-cases, u8, u16, u32, leb,
  if◌then◌else◌, is_negative16, extend8_16,
}
use mathlib.Core.Path.{subst}
use betawise.Os.{Font}
use betawise.Console.Terminal.{Terminal}
use betawise.DebugTool.Dump.{
  Mode, Machine, Viewer, dump_redraw_screen, dump_move_cursor, dump_set_cursor_cur,
}
use betawise.DebugTool.Frame.{Draws, Draws-screen, Draws-set_cursor_cur}
use betawise.DebugTool.Invariant.{IsSane, next-IsSane, previous-IsSane}
use betawise.DebugTool.Redraw.{PrintsHex}
use betawise.DebugTool.Mirror.{Mirrors, cursor-Mirrors, screen-Mirrors}

-- Drawing does not matter to whether the state is sane, and a draw's state was so before.
before_draw : (u : Viewer) {w : Viewer} → Draws u w → IsSane w → IsSane u
before_draw u d s =
    let s' = subst IsSane d s in
    record {
      in_view = assumption s'.in_view;
      rows = s'.rows;
      prev_fits = s'.prev_fits;
      bytes = s'.bytes;
    }

pub Mirrors-if :
    (m : Machine) (f : Font) (t : Terminal) (b : Bool) {x y : Viewer}
    → Mirrors m f t x
    → Mirrors m f t y
    → Mirrors m f t (if b then x else y)
Mirrors-if m f t true hx hy = hx
Mirrors-if m f t false hx hy = hy

module _ (m : Machine) (prints : PrintsHex m) {f : Font} {t : Terminal} where
  pub Mirrors-mode :
      {v : Viewer} (mode : Mode) → Mirrors m f t v → Mirrors m f t (record v { mode = mode })
  Mirrors-mode mode h = record {
    fits = record {
      neo = h.fits.neo;
      cols = h.fits.cols;
      rows = h.fits.rows;
      sized = h.fits.sized;
    };
    agrees = h.agrees;
  }

  -- A window elsewhere, drawn.
  pub moved_screen :
      {v : Viewer} (address cursor : ℕ)
      → let w = dump_redraw_screen m (record v { address = address; cursor = cursor }) in
        IsSane w → Mirrors m f t v → Mirrors m f t w
  moved_screen {v} address cursor s h =
      let u = record v { address = address; cursor = cursor } in
      screen-Mirrors m prints {v = u} (before_draw u (Draws-screen m u) s)
        (record { neo = h.fits.neo; cols = h.fits.cols; rows = h.fits.rows; sized = h.fits.sized })

  pub move-Mirrors :
      (c : ℕ) {v : Viewer}
      → IsSane (dump_move_cursor m c v)
      → Mirrors m f t v
      → Mirrors m f t (dump_move_cursor m c v)
  unfolding dump_move_cursor
  move-Mirrors c {v} s h =
      let g = extend8_16 c in
      elim (Bool-cases (is_negative16 g)) [
        | inl up ↦
            let e : dump_move_cursor m c v
                ≡ dump_redraw_screen m
                    (record v { address = u32 (v.address + 2 ^ 32 - 8); cursor = u16 (g + 8) }) =
              rw up refl in
            rw e (moved_screen {v = v} _ _ (subst IsSane e s) h)
        | inr low ↦ elim (Bool-cases (leb v.bytes_per_screen g)) [
          | inl down ↦
              let e : dump_move_cursor m c v
                  ≡ dump_redraw_screen m
                      (record v { address = u32 (v.address + 8); cursor = u16 (g + 2 ^ 16 - 8) }) =
                rw (low, down) refl in
              rw e (moved_screen {v = v} _ _ (subst IsSane e s) h)
          | inr inside ↦
              let u = record v { cursor = g } in
              let e : dump_move_cursor m c v ≡ dump_set_cursor_cur m u = rw (low, inside) refl in
              rw e (
                cursor-Mirrors m prints {v = u}
                  (before_draw u (Draws-set_cursor_cur m u) (subst IsSane e s))
                  (record {
                    fits = record {
                      neo = h.fits.neo;
                      cols = h.fits.cols;
                      rows = h.fits.rows;
                      sized = h.fits.sized;
                    };
                    agrees = h.agrees;
                  }))
        ]
      ]

  pub next-Mirrors :
      {v : Viewer}
      → IsSane v
      → Mirrors m f t v
      → Mirrors m f t (dump_move_cursor m (u8 (v.cursor + 1)) v)
  next-Mirrors {v} s h = move-Mirrors (u8 (v.cursor + 1)) (next-IsSane m s) h

  pub previous-Mirrors :
      {v : Viewer}
      → IsSane v
      → Mirrors m f t v
      → Mirrors m f t (dump_move_cursor m (u8 (v.cursor + 255)) v)
  previous-Mirrors {v} s h = move-Mirrors (u8 (v.cursor + 255)) (previous-IsSane m s) h
