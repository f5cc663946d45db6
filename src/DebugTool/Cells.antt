-- ===== src/DebugTool/Cells.antt =====
-- applets/DebugTool/DebugTool.c: where `DumpSetCursor` puts the cursor.
use betawise.Base.{
  ℕ, ◌+◌, ◌*◌, ◌/◌, ◌%◌, ◌≤◌, ◌<◌, ◌≡◌, refl, arith, Bool, true, false, if◌then◌else◌,
}
use betawise.DebugTool.Dump.{Mode, nibble_hi, nibble_lo, ascii, dump_row, dump_col}

-- The columns of a screen row: 40 on the AlphaSmart 3000, 44 on the NEO.
abbrev pub screen_cols : Bool → ℕ
screen_cols is_as3000 = if is_as3000 then 40 else 44

-- Every byte of a screen of at most 15 rows has its cursor on the screen, in each mode.
pub dump_cell_on_screen :
    (is_as3000 : Bool) (rows offset : ℕ) (mode : Mode)
    → rows ≤ 15
    → offset < 8 * rows
    → (1 ≤ dump_row offset)
      × (dump_row offset ≤ rows)
      × (1 ≤ dump_col is_as3000 offset mode)
      × (dump_col is_as3000 offset mode ≤ screen_cols is_as3000)
unfolding dump_row dump_col
dump_cell_on_screen true rows offset nibble_hi h1 h2 = ground arith
dump_cell_on_screen true rows offset nibble_lo h1 h2 = ground arith
dump_cell_on_screen true rows offset ascii h1 h2 = ground arith
dump_cell_on_screen false rows offset nibble_hi h1 h2 = ground arith
dump_cell_on_screen false rows offset nibble_lo h1 h2 = ground arith
dump_cell_on_screen false rows offset ascii h1 h2 = ground arith

-- What stands at a column of the dump, counted from its first digit: two digits and a space for each of
-- eight bytes, then eight characters.
abbrev pub cell_col : ℕ → Mode → ℕ
cell_col byte nibble_hi = 3 * byte
cell_col byte nibble_lo = 3 * byte + 1
cell_col byte ascii = 24 + byte

pub dump_cell_lem :
    (is_as3000 : Bool) (offset : ℕ) (mode : Mode)
    → offset < 120
    → (dump_row offset ≡ 1 + offset / 8)
      × (dump_col is_as3000 offset mode
          ≡ (if is_as3000 then 9 else 12) + cell_col (offset % 8) mode)
unfolding dump_row dump_col
dump_cell_lem true offset nibble_hi h = ground arith
dump_cell_lem true offset nibble_lo h = ground arith
dump_cell_lem true offset ascii h = ground arith
dump_cell_lem false offset nibble_hi h = ground arith
dump_cell_lem false offset nibble_lo h = ground arith
dump_cell_lem false offset ascii h = ground arith

cell_col_injective :
    (b b' : ℕ) (mode mode' : Mode)
    → b < 8
    → b' < 8
    → cell_col b mode ≡ cell_col b' mode'
    → (b ≡ b') × (mode ≡ mode')
cell_col_injective b b' nibble_hi nibble_hi h h' e = (omega arith, refl)
cell_col_injective b b' nibble_hi nibble_lo h h' e = absurd (omega arith)
cell_col_injective b b' nibble_hi ascii h h' e = absurd (omega arith)
cell_col_injective b b' nibble_lo nibble_hi h h' e = absurd (omega arith)
cell_col_injective b b' nibble_lo nibble_lo h h' e = (omega arith, refl)
cell_col_injective b b' nibble_lo ascii h h' e = absurd (omega arith)
cell_col_injective b b' ascii nibble_hi h h' e = absurd (omega arith)
cell_col_injective b b' ascii nibble_lo h h' e = absurd (omega arith)
cell_col_injective b b' ascii ascii h h' e = (omega arith, refl)

-- Two cursors at one place of the screen, among the first 15 rows, are at one byte in one mode.
pub dump_cell_injective :
    (is_as3000 : Bool) (offset offset' : ℕ) (mode mode' : Mode)
    → offset < 120
    → offset' < 120
    → dump_row offset ≡ dump_row offset'
    → dump_col is_as3000 offset mode ≡ dump_col is_as3000 offset' mode'
    → (offset ≡ offset') × (mode ≡ mode')
dump_cell_injective is_as3000 offset offset' mode mode' h h' e1 e2 =
    let a = dump_cell_lem is_as3000 offset mode h in
    let b = dump_cell_lem is_as3000 offset' mode' h' in
    let same =
      cell_col_injective (offset % 8) (offset' % 8) mode mode' (omega arith) (omega arith)
        (omega (arith, a.1, b.1)) in
    (omega (arith, a.0, b.0, same.0), same.1)
