-- ===== src/Console/Scroll.antt =====
-- os3k/os3k.c: the row that `SetCursor` clears when the screen scrolls.
use betawise.Base.{ℕ, ◌+◌, ◌≤◌, ◌≡◌, ◌↔◌, ◌⊎◌, arith, true, false, inl, inr, ltb, All}
use betawise.Os.{Os, Event, Font}
use betawise.Console.{
  Console, cursor_hide, set_cursor, set_screen_roll, set_cursor_font, place_cursor, cursor_x,
  cursor_y,
}
use betawise.Console.Terminal.{Terminal, IsSized}
use betawise.Console.Cursor.{
  set_cursor_with_font, cursor_x_cell, cursor_y_row, scroll_to-IsSized, roll_back_row,
  roll_forward_row,
}

-- A rectangle that is cleared lies wholly on an LCD of that size.
abbrev pub ClearsInside : ℕ → ℕ → Event → Type 0
ClearsInside width height (Event.raster_op x y w h rop) = (x + w ≤ width) × (y + h ≤ height)
ClearsInside width height _ = Unit

-- The cleared rectangle starts at the cursor and is as wide as the LCD.
clears_width :
    {f : Font} {t : Terminal} {c : Console} (col : ℕ)
    → IsSized f t c
    → 1 ≤ col
    → col ≤ t.cols + 1
    → (cursor_x f c.lcd_width col + c.lcd_width ≤ c.lcd_width) ↔ (col ≡ 1)
clears_width {f} {t} {c} col s h1 h2 =
    rw
      (cursor_x_cell f c.lcd_width t.cols col s.glyph_width s.width_eq s.cols_fit s.some_cols h1 h2)
      (ground (arith, s.some_cols))

-- It is a row of the grid, from top to bottom.
clears_height :
    {f : Font} {t : Terminal} {c : Console} (row : ℕ)
    → IsSized f t c
    → 1 ≤ row
    → row ≤ t.rows
    → cursor_y f c.lcd_height c.cur_lcd_roll row + f.height ≤ c.lcd_height
clears_height {f} {t} {c} row s h1 h2 =
    rw (s.height_eq, s.roll_eq, cursor_y_row f t.rows t.top row s.tall s.rows_fit s.top_in h1 h2)
      (elim s.tall [ inl h8 ↦ rw h8 (ground arith) | inr h16 ↦ rw h16 (ground arith) ])

place_cursor_clears :
    {f : Font} {t : Terminal} {c : Console} (row col mode : ℕ)
    → IsSized f t c
    → 1 ≤ row
    → row ≤ t.rows
    → 1 ≤ col
    → col ≤ t.cols + 1
    → All (ClearsInside c.lcd_width c.lcd_height) c.history
    → All (ClearsInside c.lcd_width c.lcd_height) (place_cursor f row col true mode c).history
      ↔ (col ≡ 1)
unfolding place_cursor
place_cursor_clears row col mode s h1 h2 h3 h4 a = (
  λ inside. (clears_width col s h3 h4).0 inside.1.0.0,
  λ first. (tt, (((clears_width col s h3 h4).1 first, clears_height row s h1 h2), a)),
)

-- `SetCursor` called with row 0 or the row below the last, and a column from 1 to one behind the last,
-- on a console sized for a grid: if every rectangle cleared before lies wholly on the LCD, then the one
-- that it clears does so exactly when the column is 1.
pub scroll_clears_iff :
    (os : Os) {f : Font} {t : Terminal} {c : Console} (row col mode : ℕ)
    → IsSized f t c
    → (row ≡ 0) ⊎ (row ≡ t.rows + 1)
    → 1 ≤ col
    → col ≤ t.cols + 1
    → All (ClearsInside c.lcd_width c.lcd_height) c.history
    → All (ClearsInside c.lcd_width c.lcd_height) (set_cursor os row col mode c).history ↔ (col ≡ 1)
unfolding set_cursor_font set_screen_roll
scroll_clears_iff os {f} {t} {c} row col mode s off h1 h2 a =
    rw (set_cursor_with_font os row col mode c s.font) (elim off [
      | inl above ↦
          let low : ltb row 1 ≡ true = ground arith in
          rw low (
            place_cursor_clears 1 col mode
              (scroll_to-IsSized _ _ (Event.set_cursor_mode cursor_hide) s (ground arith)
                (roll_back_row s))
              (omega arith) s.some_rows h1 h2 (tt, (tt, (tt, a))))
      | inr below ↦
          let low : ltb row 1 ≡ false = ground arith in
          let high : ltb c.max_row row ≡ true = ground (arith, s.rows_eq) in
          rw (low, high)
            (place_cursor_clears c.max_row col mode
              (scroll_to-IsSized _ _ (Event.set_cursor_mode cursor_hide) s (ground arith)
                (roll_forward_row s))
              (omega (arith, s.rows_eq)) (omega (arith, s.rows_eq)) h1 h2 (tt, (tt, (tt, a))))
    ])
