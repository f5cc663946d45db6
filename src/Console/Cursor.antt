-- ===== src/Console/Cursor.antt =====
-- os3k/os3k.c: `SetCursor` takes the console to the cell that the terminal goes to.
use betawise.Base.{
  ℕ, ◌+◌, ◌-◌, ◌*◌, ◌≤◌, ◌<◌, ◌≡◌, ◌⊎◌, inl, inr, refl, arith, some, Bool, Bool-cases, true, false,
  ltb, ◌==◌, if◌then◌else◌,
}
use mathlib.Core.Path.{subst}
use betawise.Os.{Os, Event, Font}
use betawise.Console.{
  Console, roll_back, roll_forward, cursor_x, cursor_y, place_cursor, set_cursor_font, set_cursor,
  call, scroll_to, set_screen_roll, cursor_hide,
}
use betawise.Console.Terminal.{Terminal, goto, IsSized, Shows}

-- `cursor_x` is the pixel column of a cell, and the last pixel behind the last cell.
pub cursor_x_cell :
    (f : Font) (width cols col : ℕ)
    → f.max_width ≡ 6
    → width ≡ 6 * cols
    → cols ≤ 254
    → 1 ≤ cols
    → 1 ≤ col
    → col ≤ cols + 1
    → cursor_x f width col ≡ (if col == cols + 1 then 6 * cols - 1 else 6 * (col - 1))
unfolding cursor_x
cursor_x_cell f width cols col fw w c1 c2 h1 h2 = rw fw (ground arith)

-- `cursor_y` is the first pixel line of a row, on an LCD that is rolled by `top` rows.
pub cursor_y_row :
    (f : Font) (rows top row : ℕ)
    → (f.height ≡ 8) ⊎ (f.height ≡ 16)
    → rows ≤ 254
    → top < rows
    → 1 ≤ row
    → row ≤ rows
    → cursor_y f (f.height * rows) (f.height * top) row
      ≡ f.height * (if ltb (row - 1 + top) rows then row - 1 + top else row - 1 + top - rows)
unfolding cursor_y
cursor_y_row f rows top row (inl h8) r1 t1 h1 h2 = rw h8 (ground arith)
cursor_y_row f rows top row (inr h16) r1 t1 h1 h2 = rw h16 (ground arith)

-- One row back and one row forward, around the end of the LCD.
pub roll_back_row :
    {f : Font} {t : Terminal} {c : Console}
    → IsSized f t c
    → roll_back f c ≡ f.height * (if t.top == 0 then t.rows - 1 else t.top - 1)
unfolding roll_back
roll_back_row s = elim s.tall [
  | inl h8 ↦ rw (s.roll_eq, s.height_eq, h8) (ground arith)
  | inr h16 ↦ rw (s.roll_eq, s.height_eq, h16) (ground arith)
]

pub roll_forward_row :
    {f : Font} {t : Terminal} {c : Console}
    → IsSized f t c
    → roll_forward f c ≡ f.height * (if t.top + 1 == t.rows then 0 else t.top + 1)
unfolding roll_forward
roll_forward_row s = elim s.tall [
  | inl h8 ↦ rw (s.roll_eq, s.height_eq, h8) (ground arith)
  | inr h16 ↦ rw (s.roll_eq, s.height_eq, h16) (ground arith)
]

-- `place_cursor` at a cell of the grid, on a console already rolled to the terminal.
pub place_cursor-Shows :
    {f : Font} {t : Terminal} {c : Console} (row col : ℕ) (clear : Bool) (mode : ℕ)
    → IsSized f t c
    → 1 ≤ row
    → row ≤ t.rows
    → 1 ≤ col
    → col ≤ t.cols + 1
    → Shows f (record t { row = row; col = col }) (place_cursor f row col clear mode c)
unfolding place_cursor
place_cursor-Shows {f} {t} {c} row col true mode s h1 h2 h3 h4 = record {
  sized = assumption;
  on_grid = omega arith;
  row_eq = refl;
  col_eq = refl;
  x_eq =
      cursor_x_cell f c.lcd_width t.cols col s.glyph_width s.width_eq s.cols_fit s.some_cols h3 h4;
  y_eq =
      rw (s.height_eq, s.roll_eq)
        (cursor_y_row f t.rows t.top row s.tall s.rows_fit s.top_in h1 h2);
}
place_cursor-Shows {f} {t} {c} row col _ mode s h1 h2 h3 h4 = record {
  sized = assumption;
  on_grid = omega arith;
  row_eq = refl;
  col_eq = refl;
  x_eq =
      cursor_x_cell f c.lcd_width t.cols col s.glyph_width s.width_eq s.cols_fit s.some_cols h3 h4;
  y_eq =
      rw (s.height_eq, s.roll_eq)
        (cursor_y_row f t.rows t.top row s.tall s.rows_fit s.top_in h1 h2);
}

-- A console rolled to another row of the grid.
pub scroll_to-IsSized :
    {f : Font} {t : Terminal} {c : Console} (top roll : ℕ) (e : Event)
    → IsSized f t c
    → top < t.rows
    → roll ≡ f.height * top
    → IsSized f (record t { top = top }) (scroll_to roll (call e c))
unfolding set_screen_roll
scroll_to-IsSized top roll e s h1 h2 = record {
  font = s.font;
  glyph_width = s.glyph_width;
  rows_eq = s.rows_eq;
  cols_eq = s.cols_eq;
  some_rows = s.some_rows;
  some_cols = s.some_cols;
  rows_fit = s.rows_fit;
  cols_fit = s.cols_fit;
  top_in = h1;
  width_eq = s.width_eq;
  tall = s.tall;
  height_eq = s.height_eq;
  roll_eq = h2;
}

call-IsSized :
    {f : Font} {t : Terminal} {c : Console} (e : Event) → IsSized f t c → IsSized f t (call e c)
call-IsSized e s = assumption

-- `SetCursor` with a row on the grid, or one row off it, shows the terminal after `goto`.
pub set_cursor_font-Shows :
    {f : Font} {t : Terminal} {c : Console} (row col mode : ℕ)
    → IsSized f t c
    → row ≤ t.rows + 1
    → 1 ≤ col
    → col ≤ t.cols + 1
    → Shows f (goto row col t) (set_cursor_font f row col mode c)
unfolding set_cursor_font
set_cursor_font-Shows {f} {t} {c} row col mode s h1 h2 h3 = elim (Bool-cases (ltb row 1)) [
  | inl above ↦ rw above (
      place_cursor-Shows 1 col true mode
        (scroll_to-IsSized _ _ hide s (ground arith) (roll_back_row s)) (omega arith) s.some_rows h2
        h3)
  | inr low ↦ elim (Bool-cases (ltb c.max_row row)) [
    | inl below ↦
        let below' : ltb t.rows row ≡ true = ground arith in
        rw (low, below, below')
          (subst
            (λ r.
              Shows f (record rolled { row = r; col = col })
                (place_cursor f c.max_row col true mode
                  (scroll_to (roll_forward f c) (call hide c))))
            s.rows_eq
            (place_cursor-Shows {t = rolled} c.max_row col true mode
              (scroll_to-IsSized _ _ hide s (ground arith) (roll_forward_row s)) (omega arith)
              (omega arith) h2 h3))
    | inr inside ↦
        let inside' : ltb t.rows row ≡ false = ground arith in
        rw (low, inside, inside')
          (place_cursor-Shows row col false mode (call-IsSized hide s) (ground arith) (ground arith)
            h2 h3)
  ]
]
  where
    hide : Event
    hide = Event.set_cursor_mode cursor_hide

    rolled : Terminal
    rolled = record t { top = if t.top + 1 == t.rows then 0 else t.top + 1 }

pub set_cursor_with_font :
    (os : Os) {f : Font} (row col mode : ℕ) (c : Console)
    → c.cur_font ≡ some f
    → set_cursor os row col mode c ≡ set_cursor_font f row col mode c
unfolding set_cursor
set_cursor_with_font os row col mode c h = ground arith

-- `SetCursor` on a console that has a font and is sized for a terminal's grid, wherever its cursor is,
-- called with a row that is at most one row outside the grid and a column from 1 to one behind the last:
-- it leaves the console showing the terminal that has gone there, scrolled by one row if it must.
pub set_cursor-Shows :
    (os : Os) {f : Font} {t : Terminal} {c : Console} (row col : ℕ) {row' col' : ℕ} (mode : ℕ)
    → row' ≡ row
    → col' ≡ col
    → IsSized f t c
    → row ≤ t.rows + 1
    → 1 ≤ col
    → col ≤ t.cols + 1
    → Shows f (goto row col t) (set_cursor os row' col' mode c)
set_cursor-Shows os {c} row col mode e1 e2 s h1 h2 h3 =
    rw (e1, e2, set_cursor_with_font os row col mode c s.font)
      (set_cursor_font-Shows row col mode s h1 h2 h3)
