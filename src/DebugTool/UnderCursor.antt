-- ===== src/DebugTool/UnderCursor.antt =====
-- applets/DebugTool/DebugTool.c on the console of os3k/os3k.c: what stands where the cursor of a byte goes.
use betawise.Base.{
  ℕ, zero, suc, ◌+◌, ◌-◌, ◌*◌, ◌/◌, ◌%◌, ◌^◌, ◌≤◌, ◌<◌, ◌≡◌, refl, arith, ◌∙◌, ap, List, [], ◌∷◌,
  ◌++◌, length, get_or, get_or-append_left, get_or-append_right, Option, false, u32,
}
use mathlib.Core.Path.{subst}
use betawise.Os.{Font}
use betawise.Console.Terminal.{Terminal, IsSized}
use betawise.Console.Stdio.{glyph_address}
use betawise.Console.Picture.{glyph, cell_at}
use betawise.DebugTool.Dump.{
  Mode, nibble_hi, nibble_lo, ascii, Machine, Viewer, dump_row, dump_col, byte_text, ascii_char,
  dump_redraw_screen,
}
use betawise.DebugTool.Cells.{cell_col, dump_cell_lem}
use betawise.DebugTool.Invariant.{HoldsBytes}
use betawise.DebugTool.Redraw.{PrintsHex, IsRead, HoldsBytes-IsRead}
use betawise.DebugTool.Contents.{bytes_text, bytes_text-length, byte_text-length, row_text}
use betawise.DebugTool.Shown.{dump_redraw_screen-Displays}

-- The digit or the character of a byte that the cursor is on in a mode.
abbrev pub char_of : Machine → Mode → Option ℕ → ℕ
char_of m nibble_hi o = get_or (byte_text m o) 0 0
char_of m nibble_lo o = get_or (byte_text m o) 1 0
char_of m ascii o = ascii_char m false o

bytes_text-at :
    (text : Option ℕ → List ℕ) (width : ℕ) (memory : ℕ → Option ℕ) (left a j k : ℕ)
    → ((o : Option ℕ) → IsRead o → length (text o) ≡ width)
    → HoldsBytes memory
    → a < 2 ^ 32
    → j < left
    → k < width
    → get_or (bytes_text text memory left a) (j * width + k) 0
      ≡ get_or (text (memory (u32 (a + j)))) k 0
bytes_text-at text width memory zero a j k h bytes fits h1 h2 = absurd (omega arith)
bytes_text-at text width memory (suc left) a zero k h bytes fits h1 h2 =
    let here : u32 (a + 0) ≡ a = omega arith in
    let len = h (memory a) (HoldsBytes-IsRead memory a bytes) in
    let first : 0 * width + k ≡ k = grind arith in
    rw (here, first)
      (get_or-append_left (text (memory a)) (bytes_text text memory left (u32 (a + 1))) k 0
        (omega arith))
bytes_text-at text width memory (suc left) a (suc j) k h bytes fits h1 h2 =
    let len = h (memory a) (HoldsBytes-IsRead memory a bytes) in
    let rest = bytes_text text memory left (u32 (a + 1)) in
    let index : suc j * width + k ≡ length (text (memory a)) + (j * width + k) = grind arith in
    let next : u32 (u32 (a + 1) + j) ≡ u32 (a + suc j) = omega arith in
    ap (λ (i : ℕ). get_or (text (memory a) ++ rest) i 0) index
    ∙ get_or-append_right (text (memory a)) rest (j * width + k) 0
    ∙ bytes_text-at text width memory left (u32 (a + 1)) j k h bytes (omega arith) (omega arith) h2
    ∙ ap (λ (x : ℕ). get_or (text (memory x)) k 0) next

cell_col_fits : (b : ℕ) (mode : Mode) → b < 8 → 12 + cell_col b mode ≤ 43
cell_col_fits b nibble_hi h = omega arith
cell_col_fits b nibble_lo h = omega arith
cell_col_fits b ascii h = omega arith

-- The three parts of a row, of 9, of 24 and of 8 characters.
hex_part :
    (label hex chars : List ℕ) (i : ℕ)
    → length label ≡ 9
    → i < length hex
    → get_or (label ++ (hex ++ chars)) (9 + i) 0 ≡ get_or hex i 0
hex_part label hex chars i nine h =
    subst (λ (n : ℕ). get_or (label ++ (hex ++ chars)) (n + i) 0 ≡ get_or hex i 0) nine
      (get_or-append_right label (hex ++ chars) i 0 ∙ get_or-append_left hex chars i 0 h)

text_part :
    (label hex chars : List ℕ) (i : ℕ)
    → length label ≡ 9
    → length hex ≡ 24
    → get_or (label ++ (hex ++ chars)) (9 + (24 + i)) 0 ≡ get_or chars i 0
text_part label hex chars i nine len =
    subst (λ (n : ℕ). get_or (label ++ (hex ++ chars)) (n + (24 + i)) 0 ≡ get_or chars i 0) nine
      (get_or-append_right label (hex ++ chars) (24 + i) 0
        ∙ subst (λ (n : ℕ). get_or (hex ++ chars) (n + i) 0 ≡ get_or chars i 0) len
            (get_or-append_right hex chars i 0))

module _ (m : Machine) (prints : PrintsHex m) where
  digit_in_row :
      (memory : ℕ → Option ℕ) (a b k : ℕ)
      → HoldsBytes memory
      → a < 2 ^ 32
      → b < 8
      → k < 3
      → get_or (row_text m memory a) (9 + (b * 3 + k)) 0
        ≡ get_or (byte_text m (memory (u32 (a + b)))) k 0
  digit_in_row memory a b k bytes fits h1 h2 =
      let hex = bytes_text (byte_text m) memory 8 a in
      let chars = bytes_text (λ o. ascii_char m false o ∷ []) memory 8 a in
      let len = bytes_text-length (byte_text m) 3 memory 8 a (byte_text-length m prints) bytes in
      hex_part (m.hex_address a) hex chars (b * 3 + k) (prints.of_address a).1 (omega (arith, len))
      ∙ bytes_text-at (byte_text m) 3 memory 8 a b k (byte_text-length m prints) bytes fits h1 h2

  -- The digit or the character of the `b`-th byte in its row.
  row_text-at :
      (memory : ℕ → Option ℕ) (a b : ℕ) (mode : Mode)
      → HoldsBytes memory
      → a < 2 ^ 32
      → b < 8
      → get_or (row_text m memory a) (9 + cell_col b mode) 0 ≡ char_of m mode (memory (u32 (a + b)))
  row_text-at memory a b nibble_hi bytes fits h =
      let index : 9 + 3 * b ≡ 9 + (b * 3 + 0) = omega arith in
      ap (λ (i : ℕ). get_or (row_text m memory a) i 0) index
      ∙ digit_in_row memory a b 0 bytes fits h (omega arith)
  row_text-at memory a b nibble_lo bytes fits h =
      let index : 9 + (3 * b + 1) ≡ 9 + (b * 3 + 1) = omega arith in
      ap (λ (i : ℕ). get_or (row_text m memory a) i 0) index
      ∙ digit_in_row memory a b 1 bytes fits h (omega arith)
  row_text-at memory a b ascii bytes fits h =
      let hex = bytes_text (byte_text m) memory 8 a in
      let text = λ (o : Option ℕ). ascii_char m false o ∷ [] in
      let chars = bytes_text text memory 8 a in
      let len = bytes_text-length (byte_text m) 3 memory 8 a (byte_text-length m prints) bytes in
      let index : b ≡ b * 1 + 0 = omega arith in
      text_part (m.hex_address a) hex chars b (prints.of_address a).1 len
      ∙ ap (λ (i : ℕ). get_or chars i 0) index
      ∙ bytes_text-at text 1 memory 8 a b 0 (λ o r. refl) bytes fits h (omega arith)

  -- Redrawing the dump on a NEO's console, sized for a grid of 44 columns with a row for each row of memory (at most 14), when
  -- the cursor is among them, memory reads as bytes, and sprintf makes printable text of 3 characters of a byte and of 9 of an
  -- address: the cell where DumpSetCursor puts the cursor for any offset on the screen, in each mode, then holds the digit or
  -- the character of the byte of memory that many bytes behind the window's address, a cross where the bus fails.
  pub dump_cell-Displays :
      (v : Viewer) (t : Terminal) (offset : ℕ) (mode : Mode) {f : Font}
      → HoldsBytes v.memory
      → v.is_as3000 ≡ false
      → t.cols ≡ 44
      → v.rows_per_screen ≡ t.rows
      → t.rows ≤ 14
      → v.cursor < 8 * t.rows
      → v.address < 2 ^ 32
      → IsSized f t v.console
      → offset < 8 * t.rows
      → cell_at f t
          (dump_redraw_screen m v).console.history
          (dump_row offset)
          (dump_col false offset mode)
        ≡ glyph (glyph_address f (char_of m mode (v.memory (u32 (v.address + offset)))))
  dump_cell-Displays v t offset mode {f} bytes neo cols rows few inside fits s h =
      let cell = dump_cell_lem false offset mode (omega arith) in
      let col = 12 + cell_col (offset % 8) mode in
      let at : u32 (u32 (v.address + 8 * (1 + offset / 8 - 1)) + offset % 8)
          ≡ u32 (v.address + offset) =
        omega arith in
      let column : col - 3 ≡ 9 + cell_col (offset % 8) mode = omega arith in
      rw (cell.0, cell.1)
        (dump_redraw_screen-Displays m prints f v t (1 + offset / 8) col bytes neo cols rows few
            inside fits s (omega arith) (omega arith) (omega arith)
            (cell_col_fits (offset % 8) mode (omega arith))
          ∙ ap
              (λ (i : ℕ). glyph (
                glyph_address f
                  (get_or (row_text m v.memory (u32 (v.address + 8 * (1 + offset / 8 - 1)))) i 0)))
              column
          ∙ ap (λ (c : ℕ). glyph (glyph_address f c))
              (row_text-at v.memory (u32 (v.address + 8 * (1 + offset / 8 - 1))) (offset % 8) mode
                  bytes (omega arith) (omega arith)
                ∙ ap (λ (x : ℕ). char_of m mode (v.memory x)) at))
