-- ===== src/Console/Glass/Shown.antt =====
-- os3k/os3k.c: what the display shows, which starts at its start line: `SetCursor` and `fputs` on it.
use betawise.Base.{
  ℕ, ◌+◌, ◌-◌, ◌*◌, ◌/◌, ◌%◌, ◌≤◌, ◌<◌, ◌≡◌, ◌⊎◌, inl, inr, refl, sym, arith, ap, ◌∙◌, Option, none,
  some, Bool, true, false, Bool-cases, ltb, ◌==◌, if◌then◌else◌,
}
use mathlib.Core.Path.{subst}
use betawise.Os.{Os, Font}
use betawise.Console.{
  Console, set_cursor_font, set_cursor, place_cursor, set_screen_roll, rop_whiteness,
}
use betawise.Console.Terminal.{Terminal, goto, line_of, IsSized, Shows}
use betawise.Console.Cursor.{set_cursor_with_font, set_cursor_font-Shows}
use betawise.Console.Picture.{
  Cell, blank, unknown, picture, cleared, cell_at, clear_line, rolled, same_line,
}
use betawise.Console.Page.{Page, below, HasCells, Displays, set_cursor-cells, scroll-cells}
use betawise.Console.Glass.{start_left, start_right, IsRolled, set_cursor-IsRolled}

-- What the display shows in a row and a column of characters: each half of the LCD begins at its start line, after whose
-- line 63 comes line 0.
abbrev pub glass_at : Font → Console → ℕ → ℕ → Cell
glass_at f c row col =
    let x = 6 * (col - 1) in
    elim (if ltb x (c.lcd_width / 2) then start_left c.history else start_right c.history) [
      | none ↦ unknown
      | some line ↦ picture f c.history x ((f.height * (row - 1) + line) % 64)
    ]

-- The display shows the page.
abbrev pub Glass : Font → Terminal → Page → Console → Type 0
Glass f t page c =
    (row col : ℕ)
    → 1 ≤ row
    → row ≤ t.rows
    → 1 ≤ col
    → col ≤ t.cols
    → glass_at f c row col ≡ page row col

-- The display is the LCD's memory from the roll on, on an LCD of 64 lines.
started_line :
    (height rows top row : ℕ)
    → (height ≡ 8) ⊎ (height ≡ 16)
    → height * rows ≡ 64
    → top < rows
    → 1 ≤ row
    → row ≤ rows
    → (height * (row - 1) + height * top % 64) % 64
      ≡ height * (if ltb (row - 1 + top) rows then row - 1 + top else row - 1 + top - rows)
started_line height rows top row (inl h8) full h h1 h2 = rw h8 (ground arith)
started_line height rows top row (inr h16) full h h1 h2 = rw h16 (ground arith)

half_if :
    (b : Bool) {l r : Option ℕ} (n : ℕ) → l ≡ some n → r ≡ some n → (if b then l else r) ≡ some n
half_if true n hl hr = hl
half_if false n hl hr = hr

glass_at-cell_at :
    {f : Font} {t : Terminal} {c : Console} (row col : ℕ)
    → f.height * t.rows ≡ 64
    → IsSized f t c
    → IsRolled c
    → 1 ≤ row
    → row ≤ t.rows
    → glass_at f c row col ≡ cell_at f t c.history row col
glass_at-cell_at {f} {t} {c} row col full s r h1 h2 =
    let line = half_if (ltb (6 * (col - 1)) (c.lcd_width / 2)) _ r.left r.right in
    rw (line, glass_at)
      (ap (picture f c.history (6 * (col - 1))) (
        ap (λ (n : ℕ). (f.height * (row - 1) + n % 64) % 64) s.roll_eq
        ∙ started_line f.height t.rows t.top row s.tall full s.top_in h1 h2))

-- The page when the cursor goes to a row: from above the first row, the rows go down and a blank one comes before them; from
-- below the last, they go up and a blank one follows.
abbrev pub scrolled : ℕ → Terminal → Page → Page
scrolled to t page row col =
    if ltb to 1
    then (if row == 1 then blank else page (row - 1) col)
    else if ltb t.rows to
    then (if row == t.rows then blank else page (row + 1) col)
    else page row col

abbrev unrolled : Terminal → Terminal
unrolled t = record t { top = if t.top == 0 then t.rows - 1 else t.top - 1 }

above_calls :
    (f : Font) (mode : ℕ) (c : Console) (x y : ℕ)
    → let r = set_cursor_font f 0 1 mode c in
      picture f r.history x y
      ≡ cleared f x y r.cursor.x r.cursor.y c.lcd_width f.height rop_whiteness
          (picture f c.history x y)
unfolding set_cursor_font place_cursor set_screen_roll picture
above_calls f mode c x y = refl

unrolled_line :
    (t : Terminal) (row : ℕ)
    → t.top < t.rows
    → 1 < row
    → row ≤ t.rows
    → line_of (record (unrolled t) { row = row }) ≡ line_of (record t { row = row - 1 })
unrolled_line t row h h1 h2 = ground arith

-- Going to the row above the first.
above-cells :
    {f : Font} {t : Terminal} {page : Page} {c : Console} (mode : ℕ)
    → IsSized f t c
    → HasCells f t page c
    → Shows f (record (unrolled t) { row = 1; col = 1 }) (set_cursor_font f 0 1 mode c)
    → HasCells f
        (unrolled t)
        (λ r k. if r == 1 then blank else page (r - 1) k)
        (set_cursor_font f 0 1 mode c)
above-cells {f} {t} {page} {c} mode s cells shown row col h1 h2 h3 h4 =
    let r = set_cursor_font f 0 1 mode c in
    let x : r.cursor.x ≡ 0 = ground (arith, shown.x_eq, s.some_cols) in
    let line = line_of (record (unrolled t) { row = row }) in
    let line' = line_of (record (unrolled t) { row = 1 }) in
    let y : r.cursor.y ≡ f.height * line' = shown.y_eq in
    let same = same_line (unrolled t) row 1 shown.sized.top_in h1 h2 (omega arith) s.some_rows in
    let old = picture f c.history (6 * (col - 1)) (f.height * line) in
    let at : picture f r.history (6 * (col - 1)) (f.height * line)
        ≡ (if row == 1 then blank else old) =
      rw
        (
          above_calls f mode c (6 * (col - 1)) (f.height * line),
          x,
          y,
          s.width_eq,
          clear_line f t.cols (col - 1) line line' old s.glyph_width s.tall (omega arith),
          same,
        )
        refl in
    at ∙ elim (Bool-cases (row == 1)) [
      | inl first ↦ rw first refl
      | inr later ↦ rw later (
          rw (unrolled_line t row s.top_in (ground arith) h2)
            (cells (row - 1) col (ground arith) (omega arith) h3 h4))
    ]

module _ (os : Os) {f : Font} {t : Terminal} {page : Page} {c : Console} (mode : ℕ)
    (s : IsSized f t c) (cells : HasCells f t page c) where
  moved_above : Displays f (goto 0 1 t) (scrolled 0 t page) (set_cursor os 0 1 mode c)
  moved_above =
      let shown =
        set_cursor_font-Shows {t = t} {c = c} 0 1 mode s (omega arith) (omega arith)
          (omega arith) in
      rw (set_cursor_with_font os 0 1 mode c s.font) (record {
        shows = shown;
        cells = above-cells {t = t} {page = page} {c = c} mode s cells shown;
      })

  moved_below :
      Displays f
        (goto (t.rows + 1) 1 t)
        (scrolled (t.rows + 1) t page)
        (set_cursor os (t.rows + 1) 1 mode c)
  moved_below =
      let up : ltb (t.rows + 1) 1 ≡ false = ground arith in
      let down : ltb t.rows (t.rows + 1) ≡ true = ground arith in
      let here : (t.rows == t.rows) ≡ true = ground arith in
      let last : Terminal = record t { row = t.rows } in
      let gone : goto (t.rows + 1) 1 t ≡ record (rolled last) { row = t.rows; col = 1 } =
        rw (up, down) refl in
      let shown : Shows f (record (rolled last) { row = t.rows; col = 1 })
          (set_cursor_font f (t.rows + 1) 1 mode c) =
        subst (λ (u : Terminal). Shows f u (set_cursor_font f (t.rows + 1) 1 mode c)) gone
          (set_cursor_font-Shows {t = t} {c = c} (t.rows + 1) 1 mode s (omega arith) (omega arith)
            (omega arith)) in
      let sized : IsSized f last c = assumption s in
      let moved = scroll-cells {t = last} {page = page} {c = c} mode refl sized cells shown in
      rw (gone, set_cursor_with_font os (t.rows + 1) 1 mode c s.font)
        (record {
          shows = shown;
          cells = λ r k g1 g2 g3 g4. moved r k g1 g2 g3 g4 ∙ rw (here, up, down) refl;
        })

  moved_inside :
      (row col : ℕ)
      → 1 ≤ row
      → row ≤ t.rows
      → 1 ≤ col
      → col ≤ t.cols + 1
      → Displays f (goto row col t) (scrolled row t page) (set_cursor os row col mode c)
  moved_inside row col h1 h2 h3 h4 =
      let up : ltb row 1 ≡ false = ground arith in
      let down : ltb t.rows row ≡ false = ground arith in
      let gone : goto row col t ≡ record t { row = row; col = col } = rw (up, down) refl in
      let d = set_cursor-cells os {t = t} {page = page} {c = c} row col mode h1 h2 h3 h4 s cells in
      rw gone (record {
        shows = d.shows;
        cells = λ r k g1 g2 g3 g4. d.cells r k g1 g2 g3 g4 ∙ rw (up, down) refl;
      })

  -- `SetCursor` to a row of the grid, or to the first column of the row above or below it.
  moved_cells :
      (row col : ℕ)
      → row ≤ t.rows + 1
      → 1 ≤ col
      → col ≤ t.cols + 1
      → ((1 ≤ row) × (row ≤ t.rows)) ⊎ (col ≡ 1)
      → Displays f (goto row col t) (scrolled row t page) (set_cursor os row col mode c)
  moved_cells row col h1 h2 h3 (inl (g1, g2)) = moved_inside row col g1 g2 h2 h3
  moved_cells row col h1 h2 h3 (inr first) = elim (Bool-cases (ltb row 1)) [
    | inl above ↦
        let e : 0 ≡ row = ground arith in
        at_one col first (
          subst (λ (r : ℕ). Displays f (goto r 1 t) (scrolled r t page) (set_cursor os r 1 mode c))
            e moved_above)
    | inr low ↦ elim (Bool-cases (ltb t.rows row)) [
      | inl below ↦
          let e : t.rows + 1 ≡ row = ground arith in
          at_one col first (
            subst
              (λ (r : ℕ). Displays f (goto r 1 t) (scrolled r t page) (set_cursor os r 1 mode c)) e
              moved_below)
      | inr inside ↦ moved_inside row col (ground arith) (ground arith) h2 h3
    ]
  ]
    where
      at_one :
          (k : ℕ)
          → k ≡ 1
          → Displays f (goto row 1 t) (scrolled row t page) (set_cursor os row 1 mode c)
          → Displays f (goto row k t) (scrolled row t page) (set_cursor os row k mode c)
      at_one k e d =
          subst
            (λ (x : ℕ).
              Displays f (goto row x t) (scrolled row t page) (set_cursor os row x mode c))
            (sym e) d

-- The cursor stands at the terminal's, and the display shows the page and starts at the roll.
pub record OnGlass (f : Font) (t : Terminal) (page : Page) (c : Console) : Type 0 where
  pub shows : Shows f t c
  pub rolled_to : IsRolled c
  pub glass : Glass f t page c

pub Glass-HasCells :
    {f : Font} {t : Terminal} {page : Page} {c : Console}
    → f.height * t.rows ≡ 64
    → IsSized f t c
    → IsRolled c
    → Glass f t page c
    → HasCells f t page c
Glass-HasCells full s r g row col h1 h2 h3 h4 =
    sym (glass_at-cell_at row col full s r h1 h2) ∙ g row col h1 h2 h3 h4

pub OnGlass-Displays :
    {f : Font} {t : Terminal} {page : Page} {c : Console}
    → f.height * t.rows ≡ 64
    → Displays f t page c
    → IsRolled c
    → OnGlass f t page c
OnGlass-Displays full d r = record {
  shows = d.shows;
  rolled_to = r;
  glass = λ row col h1 h2 h3 h4.
      glass_at-cell_at row col full d.shows.sized r h1 h2 ∙ d.cells row col h1 h2 h3 h4;
}

goto_rows : (row col : ℕ) (t : Terminal) → (goto row col t).rows ≡ t.rows
goto_rows row col t = ground arith

-- `SetCursor` on a console with a font, which is sized for a grid on an LCD of 64 lines, starts the display at its roll, and
-- shows a page, wherever its cursor is: to a cell of the grid, or to the column behind the last, no character changes; to the
-- first column of the row above the grid, the display starts one row earlier, so that each row stands one row lower, and the
-- first is blank; to that of the row below, it starts one row later, and the last row is blank. The cursor's variables are
-- those of the cell that the terminal goes to.
pub set_cursor-OnGlass :
    (os : Os) {f : Font} {t : Terminal} {page : Page} {c : Console} (row col mode : ℕ)
    → f.height * t.rows ≡ 64
    → IsSized f t c
    → IsRolled c
    → Glass f t page c
    → row ≤ t.rows + 1
    → 1 ≤ col
    → col ≤ t.cols + 1
    → ((1 ≤ row) × (row ≤ t.rows)) ⊎ (col ≡ 1)
    → OnGlass f (goto row col t) (scrolled row t page) (set_cursor os row col mode c)
set_cursor-OnGlass os {f} {t} {page} {c} row col mode full s r g h1 h2 h3 at =
    let full' : f.height * (goto row col t).rows ≡ 64 =
      ap (λ n. f.height * n) (goto_rows row col t) ∙ full in
    OnGlass-Displays full' (moved_cells os mode s (Glass-HasCells full s r g) row col h1 h2 h3 at)
      (set_cursor-IsRolled os row col mode s.font r)
