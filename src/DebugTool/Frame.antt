-- ===== src/DebugTool/Frame.antt =====
-- applets/DebugTool/DebugTool.c: drawing changes nothing but the console.
use betawise.Base.{ℕ, zero, suc, ◌+◌, ◌≡◌, refl, ◌∙◌, ap, Option, u32}
use betawise.DebugTool.Dump.{
  Machine, Viewer, dump_set_cursor, dump_set_cursor_cur, dump_redraw_byte_hex,
  dump_redraw_byte_ascii, draw_bytes, dump_redraw_row, redraw_rows, dump_redraw_screen,
}

-- The viewer `w` is `v` but for its console.
abbrev pub Draws : Viewer → Viewer → Type 0
Draws v w = w ≡ record v { console = w.console }

pub Draws-trans : (u : Viewer) {v w : Viewer} → Draws u v → Draws v w → Draws u w
Draws-trans u {v} {w} p q = q ∙ ap (λ (x : Viewer). record x { console = w.console }) p

module _ (m : Machine) where
  pub Draws-set_cursor_cur : (v : Viewer) → Draws v (dump_set_cursor_cur m v)
  unfolding dump_set_cursor_cur dump_set_cursor
  Draws-set_cursor_cur v = refl

  pub Draws-byte_hex : (c : Option ℕ) (v : Viewer) → Draws v (dump_redraw_byte_hex m c v)
  unfolding dump_redraw_byte_hex
  Draws-byte_hex c v = refl

  pub Draws-byte_ascii : (c : Option ℕ) (v : Viewer) → Draws v (dump_redraw_byte_ascii m c v)
  unfolding dump_redraw_byte_ascii
  Draws-byte_ascii c v = refl

  pub Draws-bytes :
      (draw : Option ℕ → Viewer → Viewer)
      → ((c : Option ℕ) (v : Viewer) → Draws v (draw c v))
      → (left a : ℕ) (v : Viewer) → Draws v (draw_bytes m draw left a v)
  unfolding draw_bytes
  Draws-bytes draw h zero a v = refl
  Draws-bytes draw h (suc left) a v =
      Draws-trans v (h (v.memory a) v) (Draws-bytes draw h left (u32 (a + 1)) (draw (v.memory a) v))

  pub Draws-row : (row a : ℕ) (v : Viewer) → Draws v (dump_redraw_row m row a v)
  unfolding dump_redraw_row
  Draws-row row a v =
      Draws-trans v (Draws-bytes (dump_redraw_byte_hex m) Draws-byte_hex 8 a _)
        (Draws-bytes (dump_redraw_byte_ascii m) Draws-byte_ascii 8 a _)

  pub Draws-rows : (left row a : ℕ) (v : Viewer) → Draws v (redraw_rows m left row a v)
  unfolding redraw_rows
  Draws-rows zero row a v = refl
  Draws-rows (suc left) row a v =
      Draws-trans v (Draws-row row a v) (Draws-rows left (row + 1) (u32 (a + 8)) _)

  -- Redrawing the screen.
  pub Draws-screen : (v : Viewer) → Draws v (dump_redraw_screen m v)
  unfolding dump_redraw_screen
  Draws-screen v =
      Draws-trans v (Draws-rows v.rows_per_screen 1 v.address v) (Draws-set_cursor_cur _)
