-- ===== src/Console/Picture.antt =====
-- os3k/os3k.c: what stands in the LCD's memory, from the calls that draw.
use betawise.Base.{
  ℕ, ◌+◌, ◌-◌, ◌*◌, ◌≤◌, ◌<◌, ◌≡◌, ◌⊎◌, inl, inr, refl, arith, [], ◌∷◌, Bool, Bool-cases, false,
  ltb, leb, ◌==◌, ◌&&◌, if◌then◌else◌,
}
use betawise.Os.{
  History, Font, lcd_left, lcd_right, clear_screen, set_cursor_mode, get_cursor_mode,
  get_cursor_pos, raster_op, draw_bitmap, sleep_centimilliseconds,
}
use betawise.Console.{Console, rop_whiteness}
use betawise.Console.Terminal.{Terminal, line_of, Shows}
use betawise.Console.Stdio.{glyph_address, draw_glyph}

-- What a place of the size of a character holds: nothing, a character's bitmap, or something else.
pub data Cell : Type 0 where
  blank unknown : Cell
  glyph : ℕ → Cell

-- Whether a rectangle meets the character's place at (`x`, `y`), and whether it covers it.
abbrev pub meets : Font → ℕ → ℕ → ℕ → ℕ → ℕ → ℕ → Bool
meets f x y left top width height =
    ltb x (left + width)
    && ltb left (x + f.max_width)
    && (ltb y (top + height) && ltb top (y + f.height))

abbrev pub covers : Font → ℕ → ℕ → ℕ → ℕ → ℕ → ℕ → Bool
covers f x y left top width height =
    leb left x
    && leb (x + f.max_width) (left + width)
    && (leb top y && leb (y + f.height) (top + height))

-- The character's place whose first pixel is (`x`, `y`), after DrawBitmap and after a whitening RasterOp.
abbrev drawn : Font → ℕ → ℕ → ℕ → ℕ → ℕ → ℕ → ℕ → Cell → Cell
drawn f x y left top width height bitmap old =
    if x == left && y == top && (width == f.max_width && height == f.height)
    then glyph bitmap
    else if meets f x y left top width height
    then unknown
    else old

abbrev pub cleared : Font → ℕ → ℕ → ℕ → ℕ → ℕ → ℕ → ℕ → Cell → Cell
cleared f x y left top width height rop old =
    if covers f x y left top width height && rop == rop_whiteness
    then blank
    else if meets f x y left top width height
    then unknown
    else old

-- The place after the calls. ClearScreen clears too; of the other calls those that draw may have left anything.
unfoldable pub picture : Font → History → ℕ → ℕ → Cell
picture f [] x y = unknown
picture f (clear_screen ∷ h) x y = blank
picture f (draw_bitmap left top width height bitmap ∷ h) x y =
    drawn f x y left top width height bitmap (picture f h x y)
picture f (raster_op left top width height rop ∷ h) x y =
    cleared f x y left top width height rop (picture f h x y)
picture f (lcd_left v ∷ h) x y = picture f h x y
picture f (lcd_right v ∷ h) x y = picture f h x y
picture f (set_cursor_mode mode ∷ h) x y = picture f h x y
picture f (get_cursor_mode ∷ h) x y = picture f h x y
picture f (get_cursor_pos ∷ h) x y = picture f h x y
picture f (sleep_centimilliseconds n ∷ h) x y = picture f h x y
picture f (_ ∷ h) x y = unknown

-- The LCD's place of a cell of the terminal's grid.
abbrev pub cell_at : Font → Terminal → History → ℕ → ℕ → Cell
cell_at f t h row col = picture f h (6 * (col - 1)) (f.height * line_of (record t { row = row }))

-- Two places of the grid, `i` characters from the left and `a` lines from the top, and `j` and `b`.
same_place :
    (f : Font) (i j a b : ℕ)
    → (f.height ≡ 8) ⊎ (f.height ≡ 16)
    → (6 * i == 6 * j
        && f.height * a == f.height * b
        && (f.max_width == f.max_width && f.height == f.height))
      ≡ (a == b && i == j)
same_place f i j a b (inl h8) = rw h8 (ground arith)
same_place f i j a b (inr h16) = rw h16 (ground arith)

apart :
    (f : Font) (i j a b : ℕ)
    → f.max_width ≡ 6
    → (f.height ≡ 8) ⊎ (f.height ≡ 16)
    → (a == b && i == j) ≡ false
    → meets f (6 * i) (f.height * a) (6 * j) (f.height * b) f.max_width f.height ≡ false
apart f i j a b w (inl h8) n = rw (w, h8) (ground arith)
apart f i j a b w (inr h16) n = rw (w, h16) (ground arith)

-- Rows of the grid stand on lines of their own.
pub same_line :
    (t : Terminal) (row row' : ℕ)
    → t.top < t.rows
    → 1 ≤ row
    → row ≤ t.rows
    → 1 ≤ row'
    → row' ≤ t.rows
    → (line_of (record t { row = row }) == line_of (record t { row = row' })) ≡ (row == row')
same_line t row row' h h1 h2 h3 h4 = ground arith

draw_at :
    (f : Font) (i j a b bitmap : ℕ) (old : Cell)
    → f.max_width ≡ 6
    → (f.height ≡ 8) ⊎ (f.height ≡ 16)
    → drawn f (6 * i) (f.height * a) (6 * j) (f.height * b) f.max_width f.height bitmap old
      ≡ (if a == b && i == j then glyph bitmap else old)
draw_at f i j a b bitmap old w tall = elim (Bool-cases (a == b && i == j)) [
  | inl here ↦ rw (same_place f i j a b tall, here) refl
  | inr other ↦ rw (same_place f i j a b tall, other, apart f i j a b w tall other) refl
]

-- Drawing in the cell of the cursor changes that cell and no other.
pub draw_glyph-cell :
    {f : Font} {t : Terminal} {c : Console} (b row col : ℕ)
    → Shows f t c
    → t.col ≤ t.cols
    → 1 ≤ row
    → row ≤ t.rows
    → 1 ≤ col
    → col ≤ t.cols
    → cell_at f t (draw_glyph f b c).history row col ≡ (
        if row == t.row && col == t.col
        then glyph (glyph_address f b)
        else cell_at f t c.history row col)
unfolding draw_glyph picture
draw_glyph-cell {f} {t} {c} b row col s room h1 h2 h3 h4 =
    let x : c.cursor.x ≡ 6 * (t.col - 1) = ground (arith, s.x_eq) in
    let y : c.cursor.y ≡ f.height * line_of t = s.y_eq in
    let line = same_line t row t.row s.sized.top_in h1 h2 s.on_grid.row_from s.on_grid.row_to in
    let column : (col - 1 == t.col - 1) ≡ (col == t.col) = ground arith in
    rw
      (
        x,
        y,
        draw_at f (col - 1) (t.col - 1) (line_of (record t { row = row })) (line_of t)
            (glyph_address f b) _ s.sized.glyph_width s.sized.tall,
        line,
        column,
      )
      refl

-- A line of the LCD, from its left edge to its right, and the places of the grid.
covers_line :
    (f : Font) (cols i a b : ℕ)
    → f.max_width ≡ 6
    → (f.height ≡ 8) ⊎ (f.height ≡ 16)
    → i < cols
    → covers f (6 * i) (f.height * a) 0 (f.height * b) (6 * cols) f.height ≡ (a == b)
covers_line f cols i a b w (inl h8) inside = rw (w, h8) (ground arith)
covers_line f cols i a b w (inr h16) inside = rw (w, h16) (ground arith)

meets_line :
    (f : Font) (cols i a b : ℕ)
    → f.max_width ≡ 6
    → (f.height ≡ 8) ⊎ (f.height ≡ 16)
    → (a == b) ≡ false
    → meets f (6 * i) (f.height * a) 0 (f.height * b) (6 * cols) f.height ≡ false
meets_line f cols i a b w (inl h8) n = rw (w, h8) (ground arith)
meets_line f cols i a b w (inr h16) n = rw (w, h16) (ground arith)

pub clear_line :
    (f : Font) (cols i a b : ℕ) (old : Cell)
    → f.max_width ≡ 6
    → (f.height ≡ 8) ⊎ (f.height ≡ 16)
    → i < cols
    → cleared f (6 * i) (f.height * a) 0 (f.height * b) (6 * cols) f.height rop_whiteness old
      ≡ (if a == b then blank else old)
clear_line f cols i a b old w tall inside = elim (Bool-cases (a == b)) [
  | inl here ↦ rw (covers_line f cols i a b w tall inside, here) refl
  | inr other ↦
      rw (covers_line f cols i a b w tall inside, meets_line f cols i a b w tall other, other) refl
]

-- The grid rolled by one row: a row stands on the line of the row below it before.
abbrev pub rolled : Terminal → Terminal
rolled t = record t { top = if t.top + 1 == t.rows then 0 else t.top + 1 }

pub rolled_line :
    (t : Terminal) (row : ℕ)
    → t.top < t.rows
    → 1 ≤ row
    → row < t.rows
    → line_of (record (rolled t) { row = row }) ≡ line_of (record t { row = row + 1 })
rolled_line t row h h1 h2 = ground arith
