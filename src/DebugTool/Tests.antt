-- ===== src/DebugTool/Tests.antt =====
-- applets/DebugTool/DebugTool.c: the viewer's theorems at a concrete viewer, of 8 rows of memory.
use betawise.Base.{ℕ, ◌+◌, ◌-◌, ◌%◌, ◌^◌, ◌*◌, ◌≡◌, refl, arith, some, ◌==◌, if◌then◌else◌}
use betawise.Keys.{key_left, key_right, key_up, key_down, key_mod_ctrl}
use betawise.DebugTool.Samples.{machine, last_byte, last_byte-InView}
use betawise.DebugTool.Number.{hex_char_to_nibble}
use betawise.DebugTool.Dump.{nibble_hi, cursor_address, dump_move_cursor}
use betawise.DebugTool.Moves.{InView, MovedTo, dump_move_cursor-MovedTo}
use betawise.DebugTool.Messages.{on_char, on_plain_key}
use betawise.DebugTool.Navigation.{At, position, left_undoes_right}
use betawise.DebugTool.Rows.{AtAddress, vertical_keys}
use betawise.DebugTool.Typing.{type_hex_byte}

abbrev offset : ℕ
offset = 63

dump_move_cursor-MovedTo_example : MovedTo 72 last_byte (dump_move_cursor machine 64 last_byte)
dump_move_cursor-MovedTo_example =
    dump_move_cursor-MovedTo machine 72 {c = 64} {v = last_byte} refl (omega arith) last_byte-InView

left_undoes_right_example :
    At
      (position last_byte)
      last_byte
      (on_plain_key machine key_left (on_plain_key machine key_right last_byte))
left_undoes_right_example = left_undoes_right machine {v = last_byte} last_byte-InView

vertical_keys_example :
    AtAddress
      ((cursor_address last_byte + 2 ^ 32 - 8) % 2 ^ 32)
      last_byte
      (on_plain_key machine key_up last_byte)
    × AtAddress
        ((cursor_address last_byte + 8) % 2 ^ 32)
        last_byte
        (on_plain_key machine key_down last_byte)
    × AtAddress
        ((cursor_address last_byte + 2 ^ 32 - last_byte.bytes_per_screen) % 2 ^ 32)
        last_byte
        (on_plain_key machine (key_mod_ctrl + key_up) last_byte)
    × AtAddress
        ((cursor_address last_byte + last_byte.bytes_per_screen) % 2 ^ 32)
        last_byte
        (on_plain_key machine (key_mod_ctrl + key_down) last_byte)
vertical_keys_example = vertical_keys machine {v = last_byte} last_byte-InView

type_hex_byte_example :
    let w = on_char machine b'e' (on_char machine b'7' last_byte) in
    InView w
    × (w.mode ≡ nibble_hi)
    × (cursor_address w ≡ (cursor_address last_byte + 1) % 2 ^ 32)
    × ((a : ℕ)
        → w.memory a ≡ (if a == cursor_address last_byte then some (7 * 16 + 14) else some 0x5A))
unfolding hex_char_to_nibble
type_hex_byte_example =
    type_hex_byte machine b'7' b'e' 7 14 0x5A last_byte last_byte-InView refl refl refl refl refl
