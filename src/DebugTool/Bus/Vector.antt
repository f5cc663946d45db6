-- ===== src/DebugTool/Bus/Vector.antt =====
-- applets/DebugTool/DebugTool.c: a byte typed on the bus error's vector.
use betawise.Base.{
  ℕ, ◌≡◌, inl, inr, refl, arith, Option, some, true, ◌==◌, ◌||◌, u8, bit_and, bit_or, bit_and_le,
  bit_or_lt_byte, ◌⊎◌, ◌<◌,
}
use betawise.Console.{cursor_hide}
use betawise.DebugTool.Dump.{
  nibble_hi, ascii, dump_set_cursor, dump_redraw_byte_hex, dump_redraw_byte_ascii, Machine, Viewer,
  cursor_address,
}
use betawise.DebugTool.Bus.{
  vector_byte, with_vector_byte, Bus, Cpu, in_vector, install_bus_error_handler,
  uninstall_bus_error_handler, read_byte, write_byte, write_and_redraw_on_bus,
}

read_vector :
    (cpu : Cpu) (a : ℕ) (memory : ℕ → Option ℕ) (b : Bus)
    → in_vector a ≡ true
    → read_byte cpu a memory b ≡ some (vector_byte b.vector a, b)
unfolding read_byte
read_vector cpu a memory b at = rw (at, read_byte) refl

write_vector :
    (cpu : Cpu) (m : Machine) (a value : ℕ) (v : Viewer) (b : Bus)
    → in_vector a ≡ true
    → write_byte cpu m a value v b
      ≡ some (v, record b { vector = with_vector_byte b.vector a value })
unfolding write_byte
write_vector cpu m a value v b at = rw at refl

-- A byte that has been written is read back.
byte_written :
    (vector a value : ℕ)
    → in_vector a ≡ true
    → value < 256
    → vector_byte (with_vector_byte vector a value) a ≡ value
byte_written vector a value at h =
    let places : (a ≡ 8) ⊎ (a ≡ 9) ⊎ (a ≡ 10) ⊎ (a ≡ 11) = ground arith in
    elim places [
      | inl e ↦ rw e (omega arith)
      | inr (inl e) ↦ rw e (omega arith)
      | inr (inr (inl e)) ↦ rw e (omega arith)
      | inr (inr (inr e)) ↦ rw e (omega arith)
    ]

-- A byte drawn at the cursor, in hexadecimal and as a character.
abbrev pub redrawn : Machine → ℕ → Viewer → Viewer
redrawn m c v =
    let hex =
      dump_redraw_byte_hex m (some c) (dump_set_cursor m (u8 v.cursor) nibble_hi cursor_hide v) in
    dump_redraw_byte_ascii m (some c) (dump_set_cursor m (u8 v.cursor) ascii cursor_hide hex)

redrawn_memory : (m : Machine) (c : ℕ) (v : Viewer) → (redrawn m c v).memory ≡ v.memory
unfolding dump_redraw_byte_ascii dump_redraw_byte_hex dump_set_cursor
redrawn_memory m c v = refl

-- With the cursor on a byte of the bus error's vector, at the addresses 8 to 11, and a byte as value:
-- `DumpWriteAndRedrawCur` draws at the cursor, in hexadecimal and as a character, the byte of the address of the viewer's own
-- handler there, under the mask, with the value in it, as if it had been written. But memory is what it was, and so is the
-- vector, which is put back after the write.
pub vector_written_lost :
    (cpu : Cpu) (m : Machine) (value mask : ℕ) (v : Viewer) (b : Bus)
    → in_vector (cursor_address v) ≡ true
    → value < 256
    → let own = vector_byte cpu.bus_error_handler_address (cursor_address v) in
      let w = redrawn m (bit_or (bit_and own mask) value) v in
      (b' : Bus) × (write_and_redraw_on_bus cpu m value mask v b ≡ some (w, b'))
      × (w.memory ≡ v.memory)
      × (b'.vector ≡ b.vector)
unfolding write_and_redraw_on_bus
vector_written_lost cpu m value mask v b at h =
    let p = cursor_address v in
    let ready : Bus = record (install_bus_error_handler cpu b) { bus_error = 0 } in
    let own = vector_byte ready.vector p in
    let value' = bit_or (bit_and own mask) value in
    let written : Bus = record ready { vector = with_vector_byte ready.vector p value' } in
    let either : (mask == 0 || true) ≡ true = ground arith in
    let small : value' < 256 =
      bit_or_lt_byte (bit_and own mask) value (omega (arith, bit_and_le own mask)) h in
    let back = byte_written ready.vector p value' at small in
    (
      uninstall_bus_error_handler written,
      rw
          (
            read_vector cpu p v.memory ready at,
            either,
            write_vector cpu m p value' v ready at,
            read_vector cpu p v.memory written at,
            back,
          )
          refl,
      redrawn_memory m _ v,
      refl,
    )
