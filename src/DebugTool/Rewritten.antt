-- ===== src/DebugTool/Rewritten.antt =====
-- applets/DebugTool/DebugTool.c on the console of os3k/os3k.c: the cells of the dump when a byte is drawn anew.
use betawise.Base.{
  ℕ, ◌+◌, ◌-◌, ◌*◌, ◌/◌, ◌%◌, ◌<◌, ◌≡◌, ◌≢◌, refl, arith, List, [], ◌∷◌, length, get_or, false, ltb,
  leb, ◌==◌, ◌&&◌,
}
use betawise.Os.{Font}
use betawise.Console.Stdio.{glyph_address}
use betawise.Console.Picture.{glyph}
use betawise.Console.Page.{Page}
use betawise.Console.RowText.{write}
use betawise.DebugTool.Dump.{Mode, nibble_hi, nibble_lo, ascii, dump_row, dump_col}
use betawise.DebugTool.Cells.{cell_col, dump_cell_lem}

-- A byte's digits, and then its character, written where the cursor goes for them.
abbrev pub byte_page : Font → List ℕ → ℕ → ℕ → Page → Page
byte_page f digits char offset page =
    write f (dump_row offset) (dump_col false offset ascii) (char ∷ [])
      (write f (dump_row offset) (dump_col false offset nibble_hi) digits page)

-- What a mode's cursor is on, of a byte's digits and its character.
abbrev pub pick : Mode → List ℕ → ℕ → ℕ
pick nibble_hi digits char = get_or digits 0 0
pick nibble_lo digits char = get_or digits 1 0
pick ascii digits char = char

pub byte_page-at :
    (f : Font) (digits : List ℕ) (char offset : ℕ) (mode : Mode) (page : Page)
    → length digits ≡ 3
    → offset < 120
    → byte_page f digits char offset page (dump_row offset) (dump_col false offset mode)
      ≡ glyph (glyph_address f (pick mode digits char))
byte_page-at f digits char offset nibble_hi page len h =
    let a = dump_cell_lem false offset ascii h in
    let b = dump_cell_lem false offset nibble_hi h in
    let i : 12 + 3 * (offset % 8) - (12 + 3 * (offset % 8)) ≡ 0 = omega arith in
    rw (a.0, a.1, b.1) (rw i (ground (arith, len)))
byte_page-at f digits char offset nibble_lo page len h =
    let a = dump_cell_lem false offset ascii h in
    let b = dump_cell_lem false offset nibble_hi h in
    let c = dump_cell_lem false offset nibble_lo h in
    let i : 12 + (3 * (offset % 8) + 1) - (12 + 3 * (offset % 8)) ≡ 1 = omega arith in
    rw (a.0, a.1, b.1, c.1) (rw i (ground (arith, len)))
byte_page-at f digits char offset ascii page len h =
    let a = dump_cell_lem false offset ascii h in
    let b = dump_cell_lem false offset nibble_hi h in
    let i : 12 + (24 + offset % 8) - (12 + (24 + offset % 8)) ≡ 0 = omega arith in
    rw (a.0, a.1, b.1) (rw i (ground (arith, len)))

-- Neither part of another byte reaches the place.
apart :
    (cursor offset : ℕ) (mode : Mode) (n : ℕ)
    → n ≡ 3
    → offset ≢ cursor
    → let k = 12 + cell_col (offset % 8) mode in
      ((1 + offset / 8 == 1 + cursor / 8
          && (leb (12 + (24 + cursor % 8)) k && ltb k (12 + (24 + cursor % 8) + 1)))
        ≡ false)
      × ((1 + offset / 8 == 1 + cursor / 8
            && (leb (12 + 3 * (cursor % 8)) k && ltb k (12 + 3 * (cursor % 8) + n)))
          ≡ false)
apart cursor offset nibble_hi n e h = ground arith
apart cursor offset nibble_lo n e h = ground arith
apart cursor offset ascii n e h = ground arith

pub byte_page-other :
    (f : Font) (digits : List ℕ) (char cursor offset : ℕ) (mode : Mode) (page : Page)
    → length digits ≡ 3
    → cursor < 120
    → offset < 120
    → offset ≢ cursor
    → byte_page f digits char cursor page (dump_row offset) (dump_col false offset mode)
      ≡ page (dump_row offset) (dump_col false offset mode)
byte_page-other f digits char cursor offset mode page len h1 h2 n =
    let a = dump_cell_lem false cursor ascii h1 in
    let b = dump_cell_lem false cursor nibble_hi h1 in
    let c = dump_cell_lem false offset mode h2 in
    let no = apart cursor offset mode (length digits) len n in
    rw (a.0, a.1, b.1, c.0, c.1) (rw (no.0, no.1) refl)
