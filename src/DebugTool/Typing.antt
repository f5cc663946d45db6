-- ===== src/DebugTool/Typing.antt =====
-- applets/DebugTool/DebugTool.c: typing into memory.
use betawise.Base.{
  ℕ, ◌+◌, ◌-◌, ◌*◌, ◌/◌, ◌%◌, ◌^◌, ◌<◌, ◌≡◌, refl, arith, ◌∙◌, ap, Option, none, some, true, u8,
  ◌==◌, bit_and, bit_or, replace_high, replace_low, if◌then◌else◌,
}
use mathlib.Core.Path.{subst}
use betawise.DebugTool.Number.{hex_char_to_nibble}
use betawise.DebugTool.Number.Digits.{hex_char_to_nibble_only}
use betawise.DebugTool.Dump.{
  Mode, nibble_hi, nibble_lo, Machine, Viewer, cursor_address, store, dump_write,
  dump_write_and_redraw_cur, dump_move_cursor, dump_set_cursor, dump_redraw_byte_hex,
  dump_redraw_byte_ascii, dump_set_cursor_cur,
}
use betawise.DebugTool.Frame.{Draws, Draws-trans, Draws-set_cursor_cur}
use betawise.DebugTool.Moves.{InView, InView-Draws, MovedTo, dump_move_cursor-MovedTo}
use betawise.DebugTool.Messages.{on_char, type_char}

-- The viewer with its memory and mode changed.
abbrev pub with_memory : (ℕ → Option ℕ) → Mode → Viewer → Viewer
with_memory memory mode v = record v { memory = memory; mode = mode }

-- A move from a viewer that is `u` but for its console.
pub MovedTo-from : {k : ℕ} (u : Viewer) {w x : Viewer} → Draws u w → MovedTo k w x → MovedTo k u x
MovedTo-from {k} u d h = record {
  in_view = h.in_view;
  goes = h.goes ∙ ap (λ (y : Viewer). (y.address + k + 2 ^ 32 - 8) % 2 ^ 32) d;
  same_mode = h.same_mode ∙ ap (λ (y : Viewer). y.mode) d;
  same_memory = h.same_memory ∙ ap (λ (y : Viewer). y.memory) d;
}

module _ (m : Machine) where
  pub Draws-write :
      (value mask : ℕ) (v : Viewer)
      → Draws (dump_write m value mask v) (dump_write_and_redraw_cur m value mask v)
  unfolding dump_write_and_redraw_cur dump_set_cursor dump_redraw_byte_hex dump_redraw_byte_ascii
  Draws-write value mask v = refl

  pub dump_write-none :
      (value mask : ℕ) (v : Viewer)
      → v.memory (cursor_address v) ≡ none
      → dump_write m value mask v
        ≡ (if mask == 0 then record v { memory = store m (cursor_address v) value v.memory } else v)
  unfolding dump_write
  dump_write-none value mask v e = ground arith

  pub dump_write-some :
      (value mask b : ℕ) (v : Viewer)
      → v.memory (cursor_address v) ≡ some b
      → dump_write m value mask v
        ≡ record v { memory = store m (cursor_address v) (bit_or (bit_and b mask) value) v.memory }
  unfolding dump_write
  dump_write-some value mask b v e = ground arith

  -- A write to a byte that can be read.
  write_reads :
      (value mask b : ℕ) (v : Viewer)
      → v.memory (cursor_address v) ≡ some b
      → Draws
          (record v {
            memory = store m (cursor_address v) (bit_or (bit_and b mask) value) v.memory;
          })
          (dump_write_and_redraw_cur m value mask v)
  write_reads value mask b v e =
      subst (λ u. Draws u (dump_write_and_redraw_cur m value mask v))
        (dump_write-some value mask b v e) (Draws-write value mask v)

  -- A write, a change of mode, and drawing the cursor.
  write_at :
      (value mask b byte : ℕ) (mode : Mode) (v : Viewer)
      → v.memory (cursor_address v) ≡ some b
      → bit_or (bit_and b mask) value ≡ byte
      → Draws
          (with_memory (store m (cursor_address v) byte v.memory) mode v)
          (record (dump_write_and_redraw_cur m value mask v) { mode = mode })
  write_at value mask b byte mode v e eb =
      subst
        (λ x.
          Draws (with_memory (store m (cursor_address v) x v.memory) mode v)
            (record (dump_write_and_redraw_cur m value mask v) { mode = mode }))
        eb (ap (λ (w : Viewer). record w { mode = mode }) (write_reads value mask b v e))

  -- A hexadecimal digit is neither of the two characters that `ProcessMessage` takes for itself.
  pub on_char_digit :
      (c d : ℕ) (mode : Mode) (v : Viewer)
      → hex_char_to_nibble (u8 c) ≡ some d
      → v.mode ≡ mode
      → on_char m c v ≡ type_char m mode c v
  unfolding on_char hex_char_to_nibble
  on_char_digit c d mode v ed em = ground arith

  -- A digit at the first nibble replaces it, and goes on to the second.
  type_first :
      (c d b : ℕ) (v : Viewer)
      → d < 16
      → v.mode ≡ nibble_hi
      → hex_char_to_nibble (u8 c) ≡ some d
      → v.memory (cursor_address v) ≡ some b
      → Draws
          (with_memory (store m (cursor_address v) (d * 16 + b % 16) v.memory) nibble_lo v)
          (on_char m c v)
  unfolding type_char
  type_first c d b v hd em ed eb =
      let w = record (dump_write_and_redraw_cur m (u8 (d * 16)) 0x0F v) { mode = nibble_lo } in
      let value : u8 (d * 16) ≡ d * 16 = omega arith in
      let byte = ap (λ (k : ℕ). bit_or (bit_and b 0x0F) k) value ∙ replace_high b d hd in
      let drawn : type_char m nibble_hi c v ≡ dump_set_cursor_cur m w = ground arith in
      rw (on_char_digit c d nibble_hi v ed em, drawn)
        (Draws-trans
          (with_memory (store m (cursor_address v) (d * 16 + b % 16) v.memory) nibble_lo v)
          (write_at (u8 (d * 16)) 0x0F b (d * 16 + b % 16) nibble_lo v eb byte)
          (Draws-set_cursor_cur m w))

  -- A digit at the second nibble replaces it, and goes on to the next byte.
  type_second :
      (c d b : ℕ) (v : Viewer)
      → d < 16
      → b < 256
      → InView v
      → v.mode ≡ nibble_lo
      → hex_char_to_nibble (u8 c) ≡ some d
      → v.memory (cursor_address v) ≡ some b
      → MovedTo
          (v.cursor + 9)
          (with_memory (store m (cursor_address v) (b / 16 * 16 + d) v.memory) nibble_hi v)
          (on_char m c v)
  unfolding type_char
  type_second c d b v hd hb s em ed eb =
      let u = with_memory (store m (cursor_address v) (b / 16 * 16 + d) v.memory) nibble_hi v in
      let w = record (dump_write_and_redraw_cur m d 0xF0 v) { mode = nibble_hi } in
      let drawn : type_char m nibble_lo c v ≡ dump_move_cursor m (u8 (w.cursor + 1)) w =
        ground arith in
      let written : Draws u w =
        write_at d 0xF0 b (b / 16 * 16 + d) nibble_hi v eb (replace_low b d hb hd) in
      let cursor_eq : w.cursor ≡ v.cursor = ap (λ (x : Viewer). x.cursor) written in
      let bytes_eq : w.bytes_per_screen ≡ v.bytes_per_screen =
        ap (λ (x : Viewer). x.bytes_per_screen) written in
      rw (on_char_digit c d nibble_lo v ed em, drawn)
        (MovedTo-from u written (
          dump_move_cursor-MovedTo m (v.cursor + 9) {v = w} (omega arith) (omega arith)
            (InView-Draws {v = u} written (assumption s))))

  store_here :
      (value : ℕ) (memory : ℕ → Option ℕ) (p : ℕ)
      → m.writable p ≡ true
      → store m p value memory p ≡ some value
  store_here value memory p e = ground arith

  -- A byte stored twice, the second time with `second`.
  stored_twice :
      (first second value : ℕ) (before between : ℕ → Option ℕ) (p a : ℕ)
      → m.writable p ≡ true
      → ((x : ℕ) → between x ≡ store m p first before x)
      → second ≡ value
      → store m p second between a ≡ (if a == p then some value else before a)
  stored_twice first second value before between p a e h es = let at_a = h a in ground arith

  pub goes :
      (v : Viewer)
      → InView v
      → (v.address + (v.cursor + 9) + 2 ^ 32 - 8) % 2 ^ 32 ≡ (cursor_address v + 1) % 2 ^ 32
  goes v s = ground arith

  -- Two hexadecimal digits typed at a byte of memory that can be read and written, with the cursor at
  -- its first nibble: the byte becomes the number that they spell, no other byte of memory changes, and
  -- the cursor goes to the first nibble of the next address (modulo 2 ^ 32), in view.
  pub type_hex_byte :
      (c1 c2 d1 d2 b : ℕ) (v : Viewer)
      → InView v
      → v.mode ≡ nibble_hi
      → v.memory (cursor_address v) ≡ some b
      → m.writable (cursor_address v) ≡ true
      → hex_char_to_nibble (u8 c1) ≡ some d1
      → hex_char_to_nibble (u8 c2) ≡ some d2
      → let w = on_char m c2 (on_char m c1 v) in
        InView w
        × (w.mode ≡ nibble_hi)
        × (cursor_address w ≡ (cursor_address v + 1) % 2 ^ 32)
        × ((a : ℕ)
            → w.memory a ≡ (if a == cursor_address v then some (d1 * 16 + d2) else v.memory a))
  type_hex_byte c1 c2 d1 d2 b v s em eb writable e1 e2 =
      let v1 = on_char m c1 v in
      let w = on_char m c2 v1 in
      let p = cursor_address v in
      let b1 : ℕ = d1 * 16 + b % 16 in
      let below1 = (hex_char_to_nibble_only (u8 c1) d1 e1).1 in
      let below2 = (hex_char_to_nibble_only (u8 c2) d2 e2).1 in
      let first : Draws (with_memory (store m p b1 v.memory) nibble_lo v) v1 =
        type_first c1 d1 b v below1 em e1 eb in
      let address : cursor_address v1 ≡ p = ap (λ (x : Viewer). cursor_address x) first in
      let memory : (a : ℕ) → v1.memory a ≡ store m p b1 v.memory a =
        λ a. ap (λ (x : Viewer). x.memory a) first in
      let read : v1.memory (cursor_address v1) ≡ some b1 =
        ap v1.memory address ∙ memory p ∙ store_here b1 v.memory p writable in
      let second =
        type_second c2 d2 b1 v1 below2 (omega arith)
          (InView-Draws {v = with_memory (store m p b1 v.memory) nibble_lo v} first (assumption s))
          (ap (λ (x : Viewer). x.mode) first) e2 read in
      let written : (a : ℕ)
          → w.memory a ≡ store m (cursor_address v1) (b1 / 16 * 16 + d2) v1.memory a =
        λ a. ap (λ (f : ℕ → Option ℕ). f a) second.same_memory in
      (
        second.in_view,
        second.same_mode,
        second.goes
            ∙ ap (λ (x : Viewer). (x.address + (x.cursor + 9) + 2 ^ 32 - 8) % 2 ^ 32) first
            ∙ goes v s,
        λ a.
            written a
            ∙ ap (λ (q : ℕ). store m q (b1 / 16 * 16 + d2) v1.memory a) address
            ∙ stored_twice b1 (b1 / 16 * 16 + d2) (d1 * 16 + d2) v.memory v1.memory p a writable
                memory (omega arith),
      )
