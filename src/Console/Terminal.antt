-- ===== src/Console/Terminal.antt =====
-- What the console of os3k/os3k.c promises: a terminal with a cursor on a grid that scrolls by whole
-- rows. Nothing of the LCD shows but `top`, the grid row that stands at the LCD's first line.
use betawise.Base.{
  ℕ, ◌+◌, ◌-◌, ◌*◌, ◌≤◌, ◌<◌, ◌≡◌, ◌⊎◌, some, List, [], ◌∷◌, ltb, ◌==◌, if◌then◌else◌,
}
use betawise.Os.{Font}
use betawise.Console.{Console}

pub record Terminal : Type 0 where
  pub rows : ℕ
  pub cols : ℕ
  pub top : ℕ
  pub row : ℕ
  pub col : ℕ

-- The cursor is on the grid; the column behind the last one is the place where a full row waits.
pub record IsOnGrid (t : Terminal) : Type 0 where
  pub row_from : 1 ≤ t.row
  pub row_to : t.row ≤ t.rows
  pub col_from : 1 ≤ t.col
  pub col_to : t.col ≤ t.cols + 1

-- Go to a cell; the row above the first or below the last scrolls the grid by one row.
abbrev pub goto : ℕ → ℕ → Terminal → Terminal
goto row col t =
    if ltb row 1
    then record t { row = 1; col = col; top = if t.top == 0 then t.rows - 1 else t.top - 1 }
    else if ltb t.rows row
    then record t { row = t.rows; col = col; top = if t.top + 1 == t.rows then 0 else t.top + 1 }
    else record t { row = row; col = col }

-- A printed character takes the cell of the cursor, a full row being left first.
unfoldable pub type_glyph : Terminal → Terminal
type_glyph t =
    if t.col == t.cols + 1
    then record (goto (t.row + 1) 1 t) { col = 2 }
    else record t { col = t.col + 1 }

unfoldable pub type_byte : ℕ → Terminal → Terminal
unfolding type_glyph
type_byte c t =
    if c == 7
    then t
    else if c == 8
    then (if ltb 1 t.col then goto t.row (t.col - 1) t else goto (t.row - 1) t.cols t)
    else if c == 10
    then goto (t.row + 1) 1 t
    else if c == 13
    then goto t.row 1 t
    else type_glyph t

unfoldable pub type_text : List ℕ → Terminal → Terminal
type_text [] t = t
type_text (c ∷ str) t = if c == 0 then t else type_text str (type_byte c t)

-- The row of LCD lines, counted in text rows, where a row of the grid is drawn.
abbrev pub line_of : Terminal → ℕ
line_of t = let line = t.row - 1 + t.top in if ltb line t.rows then line else line - t.rows

-- The console has font `f` (6 pixels wide, 8 or 16 high), and its screen is the terminal's grid,
-- rolled to `top`.
pub record IsSized (f : Font) (t : Terminal) (c : Console) : Type 0 where
  pub font : c.cur_font ≡ some f
  pub glyph_width : f.max_width ≡ 6
  pub rows_eq : c.max_row ≡ t.rows
  pub cols_eq : c.max_col ≡ t.cols
  pub some_rows : 1 ≤ t.rows
  pub some_cols : 1 ≤ t.cols
  pub rows_fit : t.rows ≤ 254
  pub cols_fit : t.cols ≤ 254
  pub top_in : t.top < t.rows
  pub width_eq : c.lcd_width ≡ 6 * t.cols
  pub tall : (f.height ≡ 8) ⊎ (f.height ≡ 16)
  pub height_eq : c.lcd_height ≡ f.height * t.rows
  pub roll_eq : c.cur_lcd_roll ≡ f.height * t.top

-- The console's variables are the terminal's: its cursor's pixel position is that of its cell, and the roll is that of its
-- top. What the LCD holds and shows is not part of it.
pub record Shows (f : Font) (t : Terminal) (c : Console) : Type 0 where
  pub sized : IsSized f t c
  pub on_grid : IsOnGrid t
  pub row_eq : c.cur_row ≡ t.row
  pub col_eq : c.cur_col ≡ t.col
  pub x_eq : c.cursor.x ≡ (if t.col == t.cols + 1 then 6 * t.cols - 1 else 6 * (t.col - 1))
  pub y_eq : c.cursor.y ≡ f.height * line_of t
