-- ===== src/DebugTool/Dump.antt =====
-- applets/DebugTool/DebugTool.c: the viewer's state, its cursor, and the drawing of memory.
use betawise.Base.{
  ℕ, zero, suc, ◌+◌, ◌-◌, ◌*◌, ◌/◌, ◌%◌, ◌^◌, bit_and, bit_or, List, [], ◌∷◌, Option, none, some,
  Bool, ◌&&◌, ltb, leb, ◌==◌, if◌then◌else◌, u8, u16, u32, is_negative8, is_negative16, extend8_16,
  extend16_32,
}
use betawise.Os.{Os, Event, History}
use betawise.Console.{Console, cursor_hide, cursor_show, call, set_cursor}
use betawise.Console.Stdio.{putchar, puts}
use betawise.DebugTool.Number.{Addresses}

abbrev pub bytes_per_row : ℕ
bytes_per_row = 8

-- `Mode_e`.
pub data Mode : Type 0 where
  nibble_hi nibble_lo ascii : Mode

-- The globals of the applet, memory as it can be read (`none` is a bus error), and the console.
pub record Viewer : Type 0 where
  pub address : ℕ
  pub prev_address : ℕ
  pub raw_sys_call : ℕ
  pub mode : Mode
  pub cursor : ℕ
  pub rows_per_screen : ℕ
  pub bytes_per_screen : ℕ
  pub is_as3000 : Bool
  pub buffers : List (List ℕ)
  pub memory : ℕ → Option ℕ
  pub console : Console

-- What a text box leaves: the key that ended it, the buffer, and the length of the text in it.
pub record TextReply : Type 0 where
  pub exit_key : ℕ
  pub buffer : List ℕ
  pub len : ℕ

-- What the applet uses of the ROM and the machine beside the console: `tolower`; the texts that
-- `sprintf` makes by the formats `%02X `, `%08X ` and `%-08.7X`; the two texts that `printf` prints
-- about a call; what a text box leaves, given its buffer, the length of the text and the greatest
-- length; the bytes that an uninitialised local buffer holds; the addresses of globals and of that
-- buffer; where memory can be written; and what the code at an address does when it is called.
pub record Machine : Type 0 where
  pub os : Os
  pub tolower : ℕ → ℕ
  pub hex_byte : ℕ → List ℕ
  pub hex_address : ℕ → List ℕ
  pub hex_address_seven : ℕ → List ℕ
  pub print_call : List ℕ → Console → Console
  pub print_result : ℕ → Console → Console
  pub text_box : History → List ℕ → ℕ → ℕ → TextReply
  pub stack_bytes : List ℕ
  pub addresses : Addresses
  pub writable : ℕ → Bool
  pub run_code : ℕ → List ℕ → Viewer → ℕ × Viewer

-- `g_pAddress + g_cursor`.
abbrev pub cursor_address : Viewer → ℕ
cursor_address v = u32 (v.address + extend16_32 v.cursor)

-- Division by 8 and its remainder on `char`, towards zero.
abbrev char_div8 : ℕ → ℕ
char_div8 c = if is_negative8 c then u8 (256 - (256 - c) / bytes_per_row) else c / bytes_per_row

abbrev char_mod8 : ℕ → ℕ
char_mod8 c = if is_negative8 c then u8 (256 - (256 - c) % bytes_per_row) else c % bytes_per_row

-- The row and the column of `DumpSetCursor`.
unfoldable pub dump_row : ℕ → ℕ
dump_row offset = u8 (1 + char_div8 offset)

unfoldable pub dump_col : Bool → ℕ → Mode → ℕ
dump_col is_as3000 offset mode =
    let col = char_mod8 offset in
    let in_mode : ℕ = elim mode [
      | ascii ↦ u8 (col + bytes_per_row * 3)
      | nibble_hi ↦ u8 (col * 3)
      | nibble_lo ↦ u8 (u8 (col * 3) + 1)
    ] in
    u8 (in_mode + (if is_as3000 then 9 else 12))

module _ (m : Machine) where
  abbrev pub on_console : (Console → Console) → Viewer → Viewer
  on_console f v = record v { console = f v.console }

  unfoldable pub dump_set_cursor : ℕ → Mode → ℕ → Viewer → Viewer
  dump_set_cursor offset mode cursor_mode v =
      on_console (set_cursor m.os (dump_row offset) (dump_col v.is_as3000 offset mode) cursor_mode)
        v

  unfoldable pub dump_set_cursor_cur : Viewer → Viewer
  dump_set_cursor_cur v = dump_set_cursor (u8 v.cursor) v.mode cursor_show v

  -- A byte, or a bus error, in hexadecimal: the two crosses and a space stand for an error.
  unfoldable pub byte_text : Option ℕ → List ℕ
  byte_text none = 0xD7 ∷ 0xD7 ∷ b' ' ∷ []
  byte_text (some c) = m.hex_byte c

  unfoldable pub dump_redraw_byte_hex : Option ℕ → Viewer → Viewer
  dump_redraw_byte_hex c v = on_console (λ s. (puts m.os (byte_text c) s).1) v

  -- The character for a byte: a cross for an error, a dot for a control code.
  unfoldable pub ascii_char : Bool → Option ℕ → ℕ
  ascii_char is_as3000 none = 0xD7
  ascii_char is_as3000 (some c) = if ltb c 0x20 then (if is_as3000 then 0x08 else 0xB7) else c

  unfoldable pub dump_redraw_byte_ascii : Option ℕ → Viewer → Viewer
  dump_redraw_byte_ascii c v =
      let char = ascii_char v.is_as3000 c in
      on_console
        (λ s. if v.is_as3000 then call (Event.put_char char) s else (putchar m.os char s).1) v

  -- A write; where memory cannot be written it changes nothing.
  abbrev pub store : ℕ → ℕ → (ℕ → Option ℕ) → ℕ → Option ℕ
  store p value memory a = if a == p && m.writable p then some value else memory a

  -- `value = (*p & mask) | value`, written unless the read failed and was needed.
  unfoldable pub dump_write : ℕ → ℕ → Viewer → Viewer
  dump_write value mask v =
      let p = cursor_address v in
      elim (v.memory p) [
        | none ↦ if mask == 0 then record v { memory = store p value v.memory } else v
        | some b ↦ record v { memory = store p (bit_or (bit_and b mask) value) v.memory }
      ]

  unfoldable pub dump_write_and_redraw_cur : ℕ → ℕ → Viewer → Viewer
  dump_write_and_redraw_cur value mask v =
      let written = dump_write value mask v in
      let c = written.memory (cursor_address written) in
      dump_redraw_byte_ascii c (
        dump_set_cursor (u8 v.cursor) ascii cursor_hide
          (dump_redraw_byte_hex c (dump_set_cursor (u8 v.cursor) nibble_hi cursor_hide written)))

  -- The bytes of a row, drawn one after the other by `draw`.
  unfoldable pub draw_bytes : (Option ℕ → Viewer → Viewer) → ℕ → ℕ → Viewer → Viewer
  draw_bytes draw zero a v = v
  draw_bytes draw (suc left) a v = draw_bytes draw left (u32 (a + 1)) (draw (v.memory a) v)

  unfoldable pub dump_redraw_row : ℕ → ℕ → Viewer → Viewer
  dump_redraw_row row a v =
      let placed = on_console (set_cursor m.os row (if v.is_as3000 then 1 else 3) cursor_hide) v in
      let labelled =
        on_console
          (λ s. (puts m.os (if v.is_as3000 then m.hex_address_seven a else m.hex_address a) s).1)
          placed in
      draw_bytes dump_redraw_byte_ascii bytes_per_row a
        (draw_bytes dump_redraw_byte_hex bytes_per_row a labelled)

  -- The loop over the rows, at row `row` with `left` rows to go, for up to 126 rows: with its counter it is `redraw_loop`.
  unfoldable pub redraw_rows : ℕ → ℕ → ℕ → Viewer → Viewer
  redraw_rows zero row a v = v
  redraw_rows (suc left) row a v =
      redraw_rows left (row + 1) (u32 (a + bytes_per_row)) (dump_redraw_row row a v)

  unfoldable pub dump_redraw_screen : Viewer → Viewer
  dump_redraw_screen v = dump_set_cursor_cur (redraw_rows v.rows_per_screen 1 v.address v)

  -- The argument is a `char`, and `g_cursor` a `short`.
  unfoldable pub dump_move_cursor : ℕ → Viewer → Viewer
  dump_move_cursor cursor v =
      let g = extend8_16 cursor in
      if is_negative16 g
      then dump_redraw_screen (record v {
        address = u32 (v.address + 2 ^ 32 - bytes_per_row);
        cursor = u16 (g + bytes_per_row);
      })
      else if leb v.bytes_per_screen g
      then dump_redraw_screen (record v {
        address = u32 (v.address + bytes_per_row);
        cursor = u16 (g + 2 ^ 16 - bytes_per_row);
      })
      else dump_set_cursor_cur (record v { cursor = g })

-- `DumpSetAddress`.
unfoldable pub dump_set_address : ℕ → Viewer → Viewer
dump_set_address addr v = record v {
  prev_address = cursor_address v;
  address = bit_and addr 0xFFFFFFF8;
  cursor = bit_and addr 7;
  mode = elim v.mode [ nibble_lo ↦ nibble_hi | other ↦ other ];
}
