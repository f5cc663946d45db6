-- ===== src/DebugTool/Shown.antt =====
-- applets/DebugTool/DebugTool.c on the console of os3k/os3k.c: the dump of a whole screen, cell by cell.
use betawise.Base.{
  ℕ, zero, suc, ◌+◌, ◌-◌, ◌*◌, ◌^◌, ◌≤◌, ◌<◌, ◌≡◌, inl, inr, refl, arith, ◌∙◌, ap, length, get_or,
  Option, true, false, Bool-cases, u8, u32, ltb, leb, ◌==◌, ◌&&◌,
}
use mathlib.Core.Path.{subst}
use betawise.Os.{Font}
use betawise.Console.{cursor_show}
use betawise.Console.Terminal.{Terminal, IsSized}
use betawise.Console.Stdio.{glyph_address}
use betawise.Console.Picture.{Cell, glyph, cell_at}
use betawise.Console.Page.{Page, HasCells, set_cursor-cells}
use betawise.Console.RowText.{write}
use betawise.DebugTool.Dump.{
  Machine, Viewer, dump_row, dump_col, dump_set_cursor, dump_set_cursor_cur, dump_redraw_row,
  redraw_rows, dump_redraw_screen,
}
use betawise.DebugTool.Frame.{Draws-rows, Draws-row}
use betawise.DebugTool.Cells.{dump_cell_on_screen}
use betawise.DebugTool.Invariant.{HoldsBytes}
use betawise.DebugTool.Redraw.{PrintsHex}
use betawise.DebugTool.Contents.{row_text, row_text-length, row-Displays}

-- The page after `left` rows from `row` on, which begin at address `a`.
abbrev rows_page : Font → Machine → (ℕ → Option ℕ) → ℕ → ℕ → ℕ → Page → Page
rows_page f m memory zero row a page = page
rows_page f m memory (suc left) row a page =
    rows_page f m memory left (row + 1) (u32 (a + 8)) (write f row 3 (row_text m memory a) page)

-- What a row of the dump shows in a column.
abbrev pub shown : Font → Machine → (ℕ → Option ℕ) → ℕ → ℕ → Cell
shown f m memory a col = glyph (glyph_address f (get_or (row_text m memory a) (col - 3) 0))

rows_above :
    (f : Font) (m : Machine) (memory : ℕ → Option ℕ) (left row a : ℕ) (page : Page) (r k : ℕ)
    → r < row
    → rows_page f m memory left row a page r k ≡ page r k
rows_above f m memory zero row a page r k h = refl
rows_above f m memory (suc left) row a page r k h =
    rows_above f m memory left (row + 1) (u32 (a + 8)) (write f row 3 (row_text m memory a) page) r
      k (omega arith)
    ∙ ground arith

module _ (m : Machine) (prints : PrintsHex m) (f : Font) where
  rows_page-shown :
      (memory : ℕ → Option ℕ) (left row a : ℕ) (page : Page) (r k : ℕ)
      → HoldsBytes memory
      → a < 2 ^ 32
      → row ≤ r
      → r < row + left
      → 3 ≤ k
      → k ≤ 43
      → rows_page f m memory left row a page r k ≡ shown f m memory (u32 (a + 8 * (r - row))) k
  rows_page-shown memory zero row a page r k bytes fits h1 h2 h3 h4 = absurd (omega arith)
  rows_page-shown memory (suc left) row a page r k bytes fits h1 h2 h3 h4 =
      let len = row_text-length m prints memory a bytes in
      let page' = write f row 3 (row_text m memory a) page in
      elim (Bool-cases (r == row)) [
        | inl here ↦
            let at : u32 (a + 8 * (r - row)) ≡ a = ground arith in
            let inside : (r == row && (leb 3 k && ltb k (3 + length (row_text m memory a))))
                ≡ true =
              ground arith in
            rows_above f m memory left (row + 1) (u32 (a + 8)) page' r k (ground arith)
            ∙ rw (inside, at) refl
        | inr further ↦
            let next : u32 (u32 (a + 8) + 8 * (r - (row + 1))) ≡ u32 (a + 8 * (r - row)) =
              ground arith in
            rows_page-shown memory left (row + 1) (u32 (a + 8)) page' r k bytes (omega arith)
              (ground arith) (omega arith) h3 h4
            ∙ ap (λ (x : ℕ). shown f m memory x k) next
      ]

  rows-Displays :
      (left row a : ℕ) (v : Viewer) (t : Terminal) (page : Page)
      → HoldsBytes v.memory
      → v.is_as3000 ≡ false
      → t.cols ≡ 44
      → 1 ≤ row
      → row + left ≤ t.rows + 1
      → IsSized f t v.console
      → HasCells f t page v.console
      → HasCells f t (rows_page f m v.memory left row a page) (redraw_rows m left row a v).console
        × IsSized f t (redraw_rows m left row a v).console
  unfolding redraw_rows
  rows-Displays zero row a v t page bytes neo cols h1 h2 s cells = (cells, s)
  rows-Displays (suc left) row a v t page bytes neo cols h1 h2 s cells =
      let w = dump_redraw_row m row a v in
      let d = Draws-row m row a v in
      let memory : w.memory ≡ v.memory = ap (λ (x : Viewer). x.memory) d in
      let page' = write f row 3 (row_text m v.memory a) page in
      let one = row-Displays m prints row a v t page bytes neo cols h1 (omega arith) s cells in
      let end = redraw_rows m left (row + 1) (u32 (a + 8)) w in
      let rest =
        rows-Displays left (row + 1) (u32 (a + 8)) w t page' (rw memory bytes)
          (ap (λ (x : Viewer). x.is_as3000) d ∙ neo) cols (omega arith) (omega arith)
          (assumption one.shows.sized) one.cells in
      (
        subst
            (λ (mem : ℕ → Option ℕ).
              HasCells f t (rows_page f m mem left (row + 1) (u32 (a + 8)) page') end.console)
            memory rest.0,
        rest.1,
      )

  -- Redrawing the dump on a NEO's console, sized for a grid of 44 columns with a row for each row of memory (at most 14), when
  -- the cursor is among them, memory reads as bytes, and sprintf makes printable text of 3 characters of a byte and of 9 of an
  -- address: whatever the LCD held, each row of the grid then holds, from column 3 to column 43, the characters of its address,
  -- of its eight bytes in hexadecimal (crosses where the bus fails), and of the same bytes as text.
  pub dump_redraw_screen-Displays :
      (v : Viewer) (t : Terminal) (row col : ℕ)
      → HoldsBytes v.memory
      → v.is_as3000 ≡ false
      → t.cols ≡ 44
      → v.rows_per_screen ≡ t.rows
      → t.rows ≤ 14
      → v.cursor < 8 * t.rows
      → v.address < 2 ^ 32
      → IsSized f t v.console
      → 1 ≤ row
      → row ≤ t.rows
      → 3 ≤ col
      → col ≤ 43
      → cell_at f t (dump_redraw_screen m v).console.history row col
        ≡ shown f m v.memory (u32 (v.address + 8 * (row - 1))) col
  unfolding dump_redraw_screen dump_set_cursor_cur dump_set_cursor
  dump_redraw_screen-Displays v t row col bytes neo cols rows few inside fits s h1 h2 h3 h4 =
      let page : Page = λ r k. cell_at f t v.console.history r k in
      let w = redraw_rows m v.rows_per_screen 1 v.address v in
      let d = Draws-rows m v.rows_per_screen 1 v.address v in
      let drawn =
        rows-Displays v.rows_per_screen 1 v.address v t page bytes neo cols (omega arith)
          (omega arith) s (λ r k g1 g2 g3 g4. refl) in
      let cell = dump_cell_on_screen false t.rows v.cursor v.mode (omega arith) inside in
      let cursor : u8 w.cursor ≡ v.cursor = ap (λ (x : Viewer). u8 x.cursor) d ∙ omega arith in
      let mode : w.mode ≡ v.mode = ap (λ (x : Viewer). x.mode) d in
      let kind : w.is_as3000 ≡ false = ap (λ (x : Viewer). x.is_as3000) d ∙ neo in
      let placed =
        set_cursor-cells m.os {t = t} (dump_row v.cursor) (dump_col false v.cursor v.mode)
          cursor_show cell.0 cell.1 cell.2 (omega (arith, cell.3)) drawn.1 drawn.0 in
      let held : cell_at f t (dump_redraw_screen m v).console.history row col
          ≡ rows_page f m v.memory v.rows_per_screen 1 v.address page row col =
        rw (cursor, mode, kind) (placed.cells row col h1 h2 (omega arith) (omega arith)) in
      held
      ∙ rows_page-shown v.memory v.rows_per_screen 1 v.address page row col bytes fits h1
          (omega arith) h3 h4
