-- ===== src/DebugTool/Messages.antt =====
-- applets/DebugTool/DebugTool.c: the applet's `ProcessMessage`, but for the two keys that run a prompt
-- or a dialog (Ctrl+G and Ctrl+I).
use betawise.Base.{
  set, ℕ, zero, suc, ◌+◌, ◌-◌, ◌*◌, ◌^◌, bit_and, bit_or, List, [], ◌∷◌, Option, none, some, ltb,
  ◌==◌, if◌then◌else◌, u8, u16, u32, ◌>>=◌,
}
use betawise.Keys.{
  key_mod_ctrl, key_mod_cmd, key_mod_leftshift, key_mod_rightshift, key_left, key_right, key_up,
  key_down, key_home, key_end, key_b, key_g, key_r, key_backspace, key_clear_file,
  sys_int_get_hw_level, sys_int_get_row_count,
}
use betawise.Os.{Event}
use betawise.Console.{call, clear_screen}
use betawise.Runtime.{call_sys_int}
use betawise.DebugTool.Number.{hex_char_to_nibble}
use betawise.DebugTool.Dump.{
  Mode, nibble_hi, nibble_lo, ascii, Machine, Viewer, cursor_address, bytes_per_row, on_console,
  store, dump_set_cursor_cur, dump_write_and_redraw_cur, dump_redraw_screen, dump_move_cursor,
  dump_set_address,
}

abbrev pub scratch_size : ℕ
scratch_size = 256

-- The loop that makes each dialog buffer a single space.
unfoldable pub blank_buffers : List (List ℕ) → List (List ℕ)
blank_buffers [] = []
blank_buffers (b ∷ bs) = set (set b 0 b' ') 1 0 ∷ blank_buffers bs

-- Four bytes from `a`, the highest first; a bus error on any of them is an error.
unfoldable pub read_long : (ℕ → Option ℕ) → ℕ → Option ℕ
read_long memory a = do
  b3 ← memory a
  b2 ← memory (u32 (a + 1))
  b1 ← memory (u32 (a + 2))
  b0 ← memory (u32 (a + 3))
  some (((b3 * 256 + b2) * 256 + b1) * 256 + b0)

module _ (m : Machine) where
  unfoldable pub on_init : Viewer → Viewer
  on_init v =
      let (answer, console) = call_sys_int m.os sys_int_get_hw_level v.console in
      record v {
        console = console;
        is_as3000 = ltb answer.1 2;
        address = 0;
        prev_address = 0;
        mode = nibble_hi;
        cursor = 0;
        buffers = blank_buffers v.buffers;
      }

  unfoldable pub on_setfocus : Viewer → Viewer
  on_setfocus v =
      let (answer, console) = call_sys_int m.os sys_int_get_row_count v.console in
      let rows = u8 answer.1 in
      dump_redraw_screen m (record v {
        console = clear_screen m.os console;
        rows_per_screen = rows;
        bytes_per_screen = u8 (bytes_per_row * rows);
      })

  -- A character at the cursor, by mode.
  unfoldable pub type_char : Mode → ℕ → Viewer → Viewer
  type_char nibble_hi param v = elim (hex_char_to_nibble (u8 param)) [
    | none ↦ v
    | some nibble ↦
        dump_set_cursor_cur m
          (record (dump_write_and_redraw_cur m (u8 (nibble * 16)) 0x0F v) { mode = nibble_lo })
  ]
  type_char nibble_lo param v = elim (hex_char_to_nibble (u8 param)) [
    | none ↦ v
    | some nibble ↦
        let written = record (dump_write_and_redraw_cur m nibble 0xF0 v) { mode = nibble_hi } in
        dump_move_cursor m (u8 (written.cursor + 1)) written
  ]
  type_char ascii param v =
      let written = dump_write_and_redraw_cur m (u8 param) 0x00 v in
      dump_move_cursor m (u8 (written.cursor + 1)) written

  -- MSG_CHAR.
  unfoldable pub on_char : ℕ → Viewer → Viewer
  on_char param v =
      if param == 9
      then dump_set_cursor_cur m (record v { mode = elim v.mode [ ascii ↦ nibble_hi | _ ↦ ascii ] })
      else if param == 13
      then v
      else type_char v.mode param v

  -- KEY_LEFT and KEY_RIGHT, by mode.
  unfoldable pub key_left_in : Mode → Viewer → Viewer
  key_left_in nibble_lo v = dump_set_cursor_cur m (record v { mode = nibble_hi })
  key_left_in nibble_hi v = dump_move_cursor m (u8 (v.cursor + 255)) (record v { mode = nibble_lo })
  key_left_in ascii v = dump_move_cursor m (u8 (v.cursor + 255)) v

  unfoldable pub key_right_in : Mode → Viewer → Viewer
  key_right_in nibble_hi v = dump_set_cursor_cur m (record v { mode = nibble_lo })
  key_right_in nibble_lo v = dump_move_cursor m (u8 (v.cursor + 1)) (record v { mode = nibble_hi })
  key_right_in ascii v = dump_move_cursor m (u8 (v.cursor + 1)) v

  -- Go to the address that stands in memory under the cursor.
  unfoldable pub follow_pointer : Viewer → Viewer
  follow_pointer v =
      if bit_and v.cursor 1 == 1
      then v
      else dump_redraw_screen m (elim (read_long v.memory (cursor_address v)) [
        | none ↦ v
        | some addr ↦ dump_set_address addr v
      ])

  -- `memset(g_scratch, 0, …)`, from the address `a` on.
  unfoldable pub clear_scratch : ℕ → ℕ → (ℕ → Option ℕ) → ℕ → Option ℕ
  clear_scratch zero a memory = memory
  clear_scratch (suc left) a memory = clear_scratch left (u32 (a + 1)) (store m a 0 memory)

  -- The cases of MSG_KEY that do not move the cursor by themselves, but for Ctrl+G and Ctrl+I.
  unfoldable pub on_other_key : ℕ → Viewer → Viewer
  on_other_key key v =
      if key == key_mod_ctrl + key_mod_leftshift + key_g
      then follow_pointer v
      else if key == key_mod_ctrl + key_mod_rightshift + key_g
      then follow_pointer v
      else if key == key_backspace
      then dump_redraw_screen m (dump_set_address v.prev_address v)
      else if key == key_mod_ctrl + key_r
      then dump_redraw_screen m v
      else if key == key_clear_file
      then dump_redraw_screen m
          (record v { memory = clear_scratch scratch_size m.addresses.scratch v.memory })
      else if key == key_mod_ctrl + key_mod_cmd + key_b
      then on_console m (call (Event.show_battery_percentage 0)) v
      else v

  -- MSG_KEY, on the key without caps lock, but for Ctrl+G and Ctrl+I.
  unfoldable pub on_plain_key : ℕ → Viewer → Viewer
  unfolding on_other_key
  on_plain_key key v =
      if key == key_left
      then key_left_in v.mode v
      else if key == key_right
      then key_right_in v.mode v
      else if key == key_up
      then dump_move_cursor m (u8 (v.cursor + 248)) v
      else if key == key_mod_ctrl + key_up
      then dump_redraw_screen m
          (record v { address = u32 (v.address + 2 ^ 32 - v.bytes_per_screen) })
      else if key == key_down
      then dump_move_cursor m (u8 (v.cursor + bytes_per_row)) v
      else if key == key_mod_ctrl + key_down
      then dump_redraw_screen m (record v { address = u32 (v.address + v.bytes_per_screen) })
      else if key == key_home
      then dump_move_cursor m (u8 (bit_and v.cursor 0xFFF8)) v
      else if key == key_mod_ctrl + key_home
      then dump_move_cursor m (u8 (bit_and v.cursor (u16 (2 ^ 16 - v.bytes_per_screen)))) v
      else if key == key_end
      then dump_move_cursor m (u8 (bit_or v.cursor 7)) v
      else if key == key_mod_ctrl + key_end
      then dump_move_cursor m (u8 (bit_or v.cursor (u16 (v.bytes_per_screen + 65535)))) v
      else on_other_key key v
