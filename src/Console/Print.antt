-- ===== src/Console/Print.antt =====
-- os3k/os3k.c: `fputc` and `fputs` on `stdout` do to the console what typing does to the terminal.
use betawise.Base.{
  ℕ, ◌+◌, ◌-◌, ◌≤◌, ◌≡◌, inl, inr, refl, arith, some, ◌∷◌, Bool-cases, true, false, ltb, ◌==◌,
  if◌then◌else◌, u8,
}
use betawise.Os.{Os, Event, History, Font}
use betawise.Console.{Console, call, set_cursor, cursor_hide, stdout}
use betawise.Console.Terminal.{Terminal, goto, type_glyph, type_byte, Shows}
use betawise.Console.Cursor.{set_cursor-Shows}
use betawise.Console.Stdio.{draw_glyph, print_glyph, ring, backspace, put_font, fputc}

-- What is shown does not depend on the calls made.
pub history-Shows :
    {f : Font} {t : Terminal} {c : Console} (h : History)
    → Shows f t c
    → Shows f t (record c { history = h })
history-Shows h s = record {
  sized = assumption;
  on_grid = s.on_grid;
  row_eq = s.row_eq;
  col_eq = s.col_eq;
  x_eq = s.x_eq;
  y_eq = s.y_eq;
}

pub ring-Shows :
    {f : Font} {t : Terminal} {c : Console} (mode : ℕ) → Shows f t c → Shows f t (ring mode c)
unfolding ring
ring-Shows mode s = history-Shows _ s

-- Drawing a glyph in a cell of the grid moves the cursor on by one cell, to column `n`.
pub draw_glyph-Shows :
    {f : Font} {t : Terminal} {c : Console} (b n : ℕ)
    → Shows f t c
    → n ≡ t.col + 1
    → n ≤ t.cols + 1
    → Shows f (record t { col = n }) (draw_glyph f b c)
unfolding draw_glyph
draw_glyph-Shows {f} {t} {c} b n s e h = record {
  sized = assumption;
  on_grid = omega arith;
  row_eq = s.row_eq;
  col_eq = next_col;
  x_eq = ground arith;
  y_eq = s.y_eq;
}
  where
    next_col : u8 (c.cur_col + 1) ≡ n
    next_col = omega (arith, s.col_eq, s.sized.cols_fit)

pub next_line-Shows :
    (os : Os) {f : Font} {t : Terminal} {c : Console} (mode : ℕ)
    → Shows f t c
    → Shows f (goto (t.row + 1) 1 t) (set_cursor os (u8 (c.cur_row + 1)) 1 mode c)
next_line-Shows os {f} {t} {c} mode s =
    set_cursor-Shows os (t.row + 1) 1 mode row_below refl s.sized (omega arith) (omega arith)
      (omega arith)
  where
    row_below : u8 (c.cur_row + 1) ≡ t.row + 1
    row_below = omega (arith, s.row_eq, s.sized.rows_fit)

-- At the right edge the row is left before the glyph is drawn.
print_glyph-Shows :
    (os : Os) {f : Font} {t : Terminal} {c : Console} (b mode : ℕ)
    → Shows f t c
    → Shows f (type_glyph t) (print_glyph os f b mode c)
unfolding type_glyph print_glyph
print_glyph-Shows os {f} {t} {c} b mode s = elim (Bool-cases (t.col == t.cols + 1)) [
  | inl full ↦
      let edge : (c.cursor.x + 1 == c.lcd_width) ≡ true =
        ground (arith, s.x_eq, s.sized.width_eq) in
      rw (full, edge)
        (history-Shows _ (
          draw_glyph-Shows b 2 (next_line-Shows os cursor_hide s) (ground arith)
            (ground (arith, s.sized.some_cols))))
  | inr room ↦
      let edge : (c.cursor.x + 1 == c.lcd_width) ≡ false =
        ground (arith, s.x_eq, s.sized.width_eq) in
      rw (room, edge)
        (history-Shows _ (
          draw_glyph-Shows b (t.col + 1)
            (history-Shows (Event.set_cursor_mode cursor_hide ∷ c.history) s) refl (ground arith)))
]

backspace-Shows :
    (os : Os) {f : Font} {t : Terminal} {c : Console} (mode : ℕ)
    → Shows f t c
    → Shows f
        (if ltb 1 t.col then goto t.row (t.col - 1) t else goto (t.row - 1) t.cols t)
        (backspace os mode c)
unfolding backspace
backspace-Shows os {f} {t} {c} mode s = elim (Bool-cases (ltb 1 t.col)) [
  | inl right ↦
      let right' : ltb 1 c.cur_col ≡ true = ground (arith, s.col_eq) in
      let left_of : u8 (c.cur_col + 255) ≡ t.col - 1 = ground (arith, s.col_eq, s.sized.cols_fit) in
      rw (right, right')
        (set_cursor-Shows os t.row (t.col - 1) mode s.row_eq left_of s.sized (omega arith)
          (ground arith) (omega arith))
  | inr first ↦
      let first' : ltb 1 c.cur_col ≡ false = ground (arith, s.col_eq) in
      let above : u8 (c.cur_row + 255) ≡ t.row - 1 = ground (arith, s.row_eq, s.sized.rows_fit) in
      rw (first, first')
        (set_cursor-Shows os (t.row - 1) t.cols mode above s.sized.cols_eq s.sized (omega arith)
          s.sized.some_cols (omega arith))
]

pub return-Shows :
    (os : Os) {f : Font} {t : Terminal} {c : Console} (mode : ℕ)
    → Shows f t c
    → Shows f (goto t.row 1 t) (set_cursor os c.cur_row 1 mode c)
return-Shows os {t} mode s =
    set_cursor-Shows os t.row 1 mode s.row_eq refl s.sized (omega arith) (omega arith) (omega arith)

-- The switch of `fputc`, byte by byte.
put_font-Shows :
    (os : Os) {f : Font} {t : Terminal} {c : Console} (b mode : ℕ)
    → Shows f t c
    → Shows f (type_byte b t) (put_font os f b mode c)
unfolding type_byte put_font
put_font-Shows os {f} {t} {c} b mode s = elim (Bool-cases (b == 7)) [
  | inl e ↦ rw e (ring-Shows mode s)
  | inr n7 ↦ elim (Bool-cases (b == 8)) [
    | inl e ↦ rw (n7, e) (backspace-Shows os mode s)
    | inr n8 ↦ elim (Bool-cases (b == 10)) [
      | inl e ↦ rw (n7, n8, e) (next_line-Shows os mode s)
      | inr n10 ↦ elim (Bool-cases (b == 13)) [
        | inl e ↦ rw (n7, n8, n10, e) (return-Shows os mode s)
        | inr n13 ↦ rw (n7, n8, n10, n13) (print_glyph-Shows os b mode s)
      ]
    ]
  ]
]

-- With a font, `fputc` on `stdout` returns the byte that it printed.
pub fputc_with_font :
    (os : Os) {f : Font} (b : ℕ) (c : Console)
    → c.cur_font ≡ some f
    → fputc os b stdout c ≡ (
      u8 b,
      put_font os f
          (u8 b)
          (os.cursor_mode (Event.get_cursor_mode ∷ c.history))
          (call Event.get_cursor_mode c),
    )
unfolding fputc
fputc_with_font os b c h = ground arith

-- On a console that shows a terminal, `fputc` of any number to `stdout` returns its low byte, and leaves
-- the console showing the terminal on which that byte has been typed, on every branch of the switch.
pub fputc-Shows :
    (os : Os) {f : Font} {t : Terminal} {c : Console} (b : ℕ)
    → Shows f t c
    → ((fputc os b stdout c).0 ≡ u8 b) × Shows f (type_byte (u8 b) t) (fputc os b stdout c).1
fputc-Shows os {c} b s =
    rw (fputc_with_font os b c s.sized.font)
      (refl, put_font-Shows os (u8 b) _ (history-Shows (Event.get_cursor_mode ∷ c.history) s))
