-- ===== src/DebugTool/Redraw.antt =====
-- applets/DebugTool/DebugTool.c on the console of os3k/os3k.c: the dump on the NEO's screen.
use betawise.Base.{
  ℕ, zero, suc, ◌+◌, ◌*◌, ◌≤◌, ◌<◌, ◌≡◌, inl, inr, refl, arith, ◌∙◌, ap, [], ◌∷◌, length, Option,
  none, some, false, Option-cases, u8, u32, All,
}
use mathlib.Core.Path.{subst}
use betawise.Os.{Os, Font}
use betawise.Console.{Console, stdout, cursor_hide, cursor_show, set_cursor}
use betawise.Console.Terminal.{Terminal, goto, IsSized, Shows}
use betawise.Console.Cursor.{set_cursor-Shows}
use betawise.Console.Stdio.{fputs, puts, putchar}
use betawise.Console.Strings.{IsGlyph, fputc_in_row, fputs_in_row}
use betawise.DebugTool.Dump.{
  Machine, Viewer, dump_row, dump_col, dump_set_cursor, dump_set_cursor_cur, dump_redraw_byte_hex,
  byte_text, ascii_char, dump_redraw_byte_ascii, draw_bytes, dump_redraw_row, redraw_rows,
  dump_redraw_screen,
}
use betawise.DebugTool.Frame.{
  Draws, Draws-rows, Draws-row, Draws-bytes, Draws-byte_hex, Draws-byte_ascii,
}
use betawise.DebugTool.Cells.{dump_cell_on_screen}
use betawise.DebugTool.Invariant.{HoldsBytes}

-- What `sprintf` makes of a byte by `%02X ` and of an address by `%08X `: printable text of 3 and of 9
-- characters.
pub record PrintsHex (m : Machine) : Type 0 where
  pub of_byte : (c : ℕ) → c < 256 → All IsGlyph (m.hex_byte c) × (length (m.hex_byte c) ≡ 3)
  pub of_address : (a : ℕ) → All IsGlyph (m.hex_address a) × (length (m.hex_address a) ≡ 9)

-- The terminal with its cursor elsewhere.
abbrev pub at_cell : ℕ → ℕ → Terminal → Terminal
at_cell row col t = record t { row = row; col = col }

pub set_cursor_at :
    (os : Os) {f : Font} {t : Terminal} {c : Console} (row col mode : ℕ)
    → IsSized f t c
    → 1 ≤ row
    → row ≤ t.rows
    → 1 ≤ col
    → col ≤ t.cols
    → Shows f (at_cell row col t) (set_cursor os row col mode c)
set_cursor_at os {f} {t} {c} row col mode s h1 h2 h3 h4 =
    let within : goto row col t ≡ at_cell row col t = ground arith in
    subst (λ (u : Terminal). Shows f u (set_cursor os row col mode c)) within
      (set_cursor-Shows os {t = t} row col mode refl refl s (omega arith) h3 (omega arith))

-- A byte, or a bus error.
abbrev pub IsRead : Option ℕ → Type 0
IsRead none = Unit
IsRead (some b) = b < 256

pub HoldsBytes-IsRead : (memory : ℕ → Option ℕ) (a : ℕ) → HoldsBytes memory → IsRead (memory a)
HoldsBytes-IsRead memory a h = elim (Option-cases (memory a)) [
  | inl error ↦ rw error tt
  | inr (b, read) ↦ rw read (h a b read)
]

pub ascii_char-IsGlyph : (m : Machine) (o : Option ℕ) → IsRead o → IsGlyph (ascii_char m false o)
unfolding ascii_char
ascii_char-IsGlyph m none r = ground arith
ascii_char-IsGlyph m (some b) r = ground arith

module _ (m : Machine) (prints : PrintsHex m) {f : Font} where
  hex_in_row :
      (o : Option ℕ) (v : Viewer) (t : Terminal)
      → IsRead o
      → v.is_as3000 ≡ false
      → t.col + 3 ≤ t.cols + 1
      → Shows f t v.console
      → Shows f (record t { col = t.col + 3 }) (dump_redraw_byte_hex m o v).console
  unfolding dump_redraw_byte_hex byte_text puts
  hex_in_row none v t r neo h s =
      (fputs_in_row m.os (0xD7 ∷ 0xD7 ∷ b' ' ∷ []) {t = t} (ground arith) h s).1
  hex_in_row (some b) v t r neo h s =
      let printed = prints.of_byte b r in
      subst
        (λ (k : ℕ).
          Shows f (record t { col = t.col + k }) (dump_redraw_byte_hex m (some b) v).console)
        printed.1
        (fputs_in_row m.os (m.hex_byte b) {t = t} printed.0 (omega (arith, printed.1)) s).1

  ascii_in_row :
      (o : Option ℕ) (v : Viewer) (t : Terminal)
      → IsRead o
      → v.is_as3000 ≡ false
      → t.col + 1 ≤ t.cols + 1
      → Shows f t v.console
      → Shows f (record t { col = t.col + 1 }) (dump_redraw_byte_ascii m o v).console
  unfolding dump_redraw_byte_ascii putchar
  ascii_in_row o v t r neo h s =
      rw neo (
        fputc_in_row m.os (ascii_char m false o) {t = t} (ascii_char-IsGlyph m o r) (omega arith) s)

  -- `left` bytes in a row, each of which takes `width` columns.
  bytes_in_row :
      (draw : Option ℕ → Viewer → Viewer) (width : ℕ)
      → ((o : Option ℕ) (v : Viewer) → Draws v (draw o v))
      → ((o : Option ℕ) (v : Viewer) (t : Terminal)
          → IsRead o
          → v.is_as3000 ≡ false
          → t.col + width ≤ t.cols + 1
          → Shows f t v.console
          → Shows f (record t { col = t.col + width }) (draw o v).console)
      → (left a : ℕ) (v : Viewer) (t : Terminal) → HoldsBytes v.memory
      → v.is_as3000 ≡ false
      → t.col + left * width ≤ t.cols + 1
      → Shows f t v.console
      → Shows f (record t { col = t.col + left * width }) (draw_bytes m draw left a v).console
  unfolding draw_bytes
  bytes_in_row draw width draws step zero a v t bytes neo h s =
      subst (λ (k : ℕ). Shows f (record t { col = k }) v.console) (omega arith) s
  bytes_in_row draw width draws step (suc left) a v t bytes neo h s =
      let w = draw (v.memory a) v in
      let d = draws (v.memory a) v in
      let one = step (v.memory a) v t (HoldsBytes-IsRead v.memory a bytes) neo (grind arith) s in
      let memory : w.memory ≡ v.memory = ap (λ (x : Viewer). x.memory) d in
      subst
        (λ (k : ℕ). Shows f (record t { col = k }) (draw_bytes m draw left (u32 (a + 1)) w).console)
        (grind arith)
        (bytes_in_row draw width draws step left (u32 (a + 1)) w (record t { col = t.col + width })
          (rw memory bytes) (ap (λ (x : Viewer). x.is_as3000) d ∙ neo) (grind arith) one)

  -- A row of the dump, from column 3 to column 43.
  row_in_row :
      (row a : ℕ) (v : Viewer) (t : Terminal)
      → HoldsBytes v.memory
      → v.is_as3000 ≡ false
      → t.cols ≡ 44
      → 1 ≤ row
      → row ≤ t.rows
      → IsSized f t v.console
      → Shows f (at_cell row 44 t) (dump_redraw_row m row a v).console
  unfolding dump_redraw_row puts
  row_in_row row a v t bytes neo cols h1 h2 s =
      let label = prints.of_address a in
      let placed =
        set_cursor_at m.os {t = t} row 3 cursor_hide s h1 h2 (omega arith) (omega arith) in
      let console =
        (fputs m.os (m.hex_address a) stdout (set_cursor m.os row 3 cursor_hide v.console)).1 in
      let u = record v { is_as3000 = false; console = console } in
      let text : Shows f (at_cell row 12 t) u.console =
        subst (λ (k : ℕ). Shows f (at_cell row (3 + k) t) u.console) label.1
          (fputs_in_row m.os (m.hex_address a) {t = at_cell row 3 t} label.0
            (omega (arith, label.1)) placed).1 in
      let hex = dump_redraw_byte_hex m in
      let w = draw_bytes m hex 8 a u in
      let d : Draws u w = Draws-bytes m hex (Draws-byte_hex m) 8 a u in
      let memory : w.memory ≡ v.memory = ap (λ (x : Viewer). x.memory) d in
      let digits =
        bytes_in_row hex 3 (Draws-byte_hex m) hex_in_row 8 a u (at_cell row 12 t) bytes refl
          (omega arith) text in
      rw neo (
        bytes_in_row (dump_redraw_byte_ascii m) 1 (Draws-byte_ascii m) ascii_in_row 8 a w
          (at_cell row 36 t) (rw memory bytes) (ap (λ (x : Viewer). x.is_as3000) d) (omega arith)
          digits)

  rows_keep_size :
      (left row a : ℕ) (v : Viewer) (t : Terminal)
      → HoldsBytes v.memory
      → v.is_as3000 ≡ false
      → t.cols ≡ 44
      → 1 ≤ row
      → row + left ≤ t.rows + 1
      → IsSized f t v.console
      → IsSized f t (redraw_rows m left row a v).console
  unfolding redraw_rows
  rows_keep_size zero row a v t bytes neo cols h1 h2 s = s
  rows_keep_size (suc left) row a v t bytes neo cols h1 h2 s =
      let w = dump_redraw_row m row a v in
      let d = Draws-row m row a v in
      let memory : w.memory ≡ v.memory = ap (λ (x : Viewer). x.memory) d in
      let shown = row_in_row row a v t bytes neo cols h1 (omega arith) s in
      rows_keep_size left (row + 1) (u32 (a + 8)) w t (rw memory bytes)
        (ap (λ (x : Viewer). x.is_as3000) d ∙ neo) cols (omega arith) (omega arith)
        (assumption shown.sized)

  -- Redrawing the dump on a NEO's console, sized for a grid of 44 columns with a row for each row of
  -- memory (at most 14), when the cursor is among them, memory reads as bytes, and sprintf makes
  -- printable text of 3 characters of a byte and of 9 of an address: the console then shows the same
  -- grid, not scrolled, with its cursor on the digit or the character of the byte at the viewer's
  -- cursor.
  pub dump_redraw_screen-Shows :
      (v : Viewer) (t : Terminal)
      → HoldsBytes v.memory
      → v.is_as3000 ≡ false
      → t.cols ≡ 44
      → v.rows_per_screen ≡ t.rows
      → t.rows ≤ 14
      → v.cursor < 8 * t.rows
      → IsSized f t v.console
      → Shows f
          (at_cell (dump_row v.cursor) (dump_col false v.cursor v.mode) t)
          (dump_redraw_screen m v).console
  unfolding dump_redraw_screen dump_set_cursor_cur dump_set_cursor
  dump_redraw_screen-Shows v t bytes neo cols rows few inside s =
      let w = redraw_rows m v.rows_per_screen 1 v.address v in
      let d = Draws-rows m v.rows_per_screen 1 v.address v in
      let sized =
        rows_keep_size v.rows_per_screen 1 v.address v t bytes neo cols (omega arith) (omega arith)
          s in
      let cell = dump_cell_on_screen false t.rows v.cursor v.mode (omega arith) inside in
      let cursor : u8 w.cursor ≡ v.cursor = ap (λ (x : Viewer). u8 x.cursor) d ∙ omega arith in
      let mode : w.mode ≡ v.mode = ap (λ (x : Viewer). x.mode) d in
      let kind : w.is_as3000 ≡ false = ap (λ (x : Viewer). x.is_as3000) d ∙ neo in
      rw (cursor, mode, kind)
        (set_cursor_at m.os {t = t} (dump_row v.cursor) (dump_col false v.cursor v.mode) cursor_show
          sized cell.0 cell.1 cell.2 (omega (arith, cell.3)))
