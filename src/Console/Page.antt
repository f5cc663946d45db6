-- ===== src/Console/Page.antt =====
-- os3k/os3k.c: the text on the screen, and `SetCursor` on it.
use betawise.Base.{
  ℕ, ◌+◌, ◌-◌, ◌*◌, ◌≤◌, ◌<◌, ◌≡◌, inl, inr, refl, arith, ◌∙◌, List, [], ◌∷◌, Bool-cases, true,
  false, ltb, ◌==◌, ◌&&◌, if◌then◌else◌, u8,
}
use mathlib.Core.Path.{subst}
use betawise.Os.{Os, Font}
use betawise.Console.{
  Console, set_cursor_font, set_cursor, place_cursor, set_screen_roll, rop_whiteness,
}
use betawise.Console.Terminal.{Terminal, goto, type_byte, line_of, IsSized, Shows}
use betawise.Console.Stdio.{glyph_address}
use betawise.Console.Cursor.{set_cursor_with_font, set_cursor-Shows}
use betawise.Console.Print.{next_line-Shows}
use betawise.Console.Picture.{
  Cell, blank, glyph, picture, cleared, cell_at, clear_line, rolled, rolled_line, same_line,
}

-- What stands in the cells of the terminal's grid, by row and column.
abbrev pub Page : Type 0
Page = ℕ → ℕ → Cell

-- A character in a cell.
abbrev pub put : Font → ℕ → Terminal → Page → Page
put f b t page row col =
    if row == t.row && col == t.col then glyph (glyph_address f b) else page row col

-- The page when the cursor goes to the row below: from the last row, the rows go up and a blank one follows.
abbrev pub below : Terminal → Page → Page
below t page row col =
    if t.row == t.rows then (if row == t.rows then blank else page (row + 1) col) else page row col

-- The page when a byte is typed that is no backspace.
unfoldable pub type_page : Font → ℕ → Terminal → Page → Page
type_page f b t page =
    if b == 7
    then page
    else if b == 10
    then below t page
    else if b == 13
    then page
    else if t.col == t.cols + 1
    then put f b (goto (t.row + 1) 1 t) (below t page)
    else put f b t page

unfoldable pub text_page : Font → List ℕ → Terminal → Page → Page
text_page f [] t page = page
text_page f (b ∷ str) t page =
    if b == 0 then page else text_page f str (type_byte b t) (type_page f b t page)

-- The LCD's memory holds the page.
abbrev pub HasCells : Font → Terminal → Page → Console → Type 0
HasCells f t page c =
    (row col : ℕ)
    → 1 ≤ row
    → row ≤ t.rows
    → 1 ≤ col
    → col ≤ t.cols
    → cell_at f t c.history row col ≡ page row col

-- The console shows the terminal, and the LCD's memory holds the page.
pub record Displays (f : Font) (t : Terminal) (page : Page) (c : Console) : Type 0 where
  pub shows : Shows f t c
  pub cells : HasCells f t page c

-- The calls of `SetCursor`, to a row of the grid and to the row below the last.
inside_calls :
    (f : Font) (row col mode : ℕ) (c : Console) (x y : ℕ)
    → 1 ≤ row
    → row ≤ c.max_row
    → picture f (set_cursor_font f row col mode c).history x y ≡ picture f c.history x y
unfolding set_cursor_font place_cursor picture
inside_calls f row col mode c x y h1 h2 = ground arith

below_calls :
    (f : Font) (row col mode : ℕ) (c : Console) (x y : ℕ)
    → 1 ≤ row
    → c.max_row < row
    → let r = set_cursor_font f row col mode c in
      picture f r.history x y
      ≡ cleared f x y r.cursor.x r.cursor.y c.lcd_width f.height rop_whiteness
          (picture f c.history x y)
unfolding set_cursor_font place_cursor set_screen_roll picture
below_calls f row col mode c x y h1 h2 =
    let low : ltb row 1 ≡ false = ground arith in
    let high : ltb c.max_row row ≡ true = ground arith in rw (low, high) refl

-- Going to a row of the grid changes no cell.
pub set_cursor-cells :
    (os : Os) {f : Font} {t : Terminal} {page : Page} {c : Console} (row col mode : ℕ)
    → 1 ≤ row
    → row ≤ t.rows
    → 1 ≤ col
    → col ≤ t.cols + 1
    → IsSized f t c
    → HasCells f t page c
    → Displays f (record t { row = row; col = col }) page (set_cursor os row col mode c)
set_cursor-cells os {f} {t} {page} {c} row col mode h1 h2 h3 h4 s cells =
    let within : goto row col t ≡ record t { row = row; col = col } = ground arith in
    record {
      shows =
          subst (λ (u : Terminal). Shows f u (set_cursor os row col mode c)) within
            (set_cursor-Shows os {t = t} row col mode refl refl s (omega arith) h3 (omega arith));
      cells = λ r k g1 g2 g3 g4.
          rw (set_cursor_with_font os row col mode c s.font) (
            inside_calls f row col mode c _ _ h1 (omega (arith, s.rows_eq))
            ∙ cells r k g1 g2 g3 g4);
    }

-- Going to the start of the row below the last.
pub scroll-cells :
    {f : Font} {t : Terminal} {page : Page} {c : Console} (mode : ℕ)
    → t.row ≡ t.rows
    → IsSized f t c
    → HasCells f t page c
    → Shows f
        (record (rolled t) { row = t.rows; col = 1 })
        (set_cursor_font f (t.rows + 1) 1 mode c)
    → HasCells f (rolled t) (below t page) (set_cursor_font f (t.rows + 1) 1 mode c)
scroll-cells {f} {t} {page} {c} mode last s cells shown row col h1 h2 h3 h4 =
    let r = set_cursor_font f (t.rows + 1) 1 mode c in
    let x : r.cursor.x ≡ 0 = ground (arith, shown.x_eq, s.some_cols) in
    let width = s.width_eq in
    let line = line_of (record (rolled t) { row = row }) in
    let line' = line_of (record (rolled t) { row = t.rows }) in
    let y : r.cursor.y ≡ f.height * line' = shown.y_eq in
    let same = same_line (rolled t) row t.rows shown.sized.top_in h1 h2 s.some_rows (omega arith) in
    let old = picture f c.history (6 * (col - 1)) (f.height * line) in
    let calls =
      below_calls f (t.rows + 1) 1 mode c (6 * (col - 1)) (f.height * line) (omega arith)
        (omega (arith, s.rows_eq)) in
    let at : picture f r.history (6 * (col - 1)) (f.height * line)
        ≡ (if row == t.rows then blank else old) =
      rw
        (
          calls,
          x,
          y,
          width,
          clear_line f t.cols (col - 1) line line' old s.glyph_width s.tall (omega arith),
          same,
        )
        refl in
    let here : (t.row == t.rows) ≡ true = ground arith in
    at
    ∙ rw here (elim (Bool-cases (row == t.rows)) [
      | inl low ↦ rw low refl
      | inr up ↦ rw up (
          rw (rolled_line t row s.top_in h1 (ground arith))
            (cells (row + 1) col (omega arith) (ground arith) h3 h4))
    ])

pub next_line-Displays :
    (os : Os) {f : Font} {t : Terminal} {page : Page} {c : Console} (mode : ℕ)
    → Displays f t page c
    → Displays f (goto (t.row + 1) 1 t) (below t page) (set_cursor os (u8 (c.cur_row + 1)) 1 mode c)
next_line-Displays os {f} {t} {page} {c} mode d =
    let s = d.shows in
    let shown = next_line-Shows os mode s in
    let row : u8 (c.cur_row + 1) ≡ t.row + 1 = omega (arith, s.row_eq, s.sized.rows_fit) in
    let up : ltb (t.row + 1) 1 ≡ false = ground arith in
    elim (Bool-cases (t.row == t.rows)) [
      | inl last ↦
          let down : ltb t.rows (t.row + 1) ≡ true = ground arith in
          let gone : goto (t.row + 1) 1 t ≡ record (rolled t) { row = t.rows; col = 1 } =
            rw (up, down) refl in
          let below' : u8 (c.cur_row + 1) ≡ t.rows + 1 = ground arith in
          let same : set_cursor os (u8 (c.cur_row + 1)) 1 mode c
              ≡ set_cursor_font f (t.rows + 1) 1 mode c =
            rw below' (set_cursor_with_font os (t.rows + 1) 1 mode c s.sized.font) in
          let shown' : Shows f (record (rolled t) { row = t.rows; col = 1 })
              (set_cursor_font f (t.rows + 1) 1 mode c) =
            subst (λ (x : Console). Shows f (record (rolled t) { row = t.rows; col = 1 }) x) same
              (subst (λ (x : Terminal). Shows f x (set_cursor os (u8 (c.cur_row + 1)) 1 mode c))
                gone shown) in
          rw (gone, same)
            (record {
              shows = shown';
              cells = scroll-cells {t = t} {page = page} mode (ground arith) s.sized d.cells shown';
            })
      | inr room ↦
          let down : ltb t.rows (t.row + 1) ≡ false = ground arith in
          let gone : goto (t.row + 1) 1 t ≡ record t { row = t.row + 1; col = 1 } =
            rw (up, down) refl in
          let d' =
            set_cursor-cells os {page = page} (t.row + 1) 1 mode (omega arith) (ground arith)
              (omega arith) (omega arith) s.sized d.cells in
          rw (gone, row)
            (record {
              shows = d'.shows;
              cells = λ r k h1 h2 h3 h4. d'.cells r k h1 h2 h3 h4 ∙ rw room refl;
            })
    ]
