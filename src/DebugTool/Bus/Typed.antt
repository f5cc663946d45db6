-- ===== src/DebugTool/Bus/Typed.antt =====
-- applets/DebugTool/DebugTool.c: with the bus error handler, a byte is written and an address is read as memory allows.
use betawise.Base.{
  ℕ, ◌≡◌, inl, inr, refl, arith, ◌∙◌, ap, Option, none, some, true, false, Option-cases, Bool-cases,
  ◌==◌, ◌||◌, if◌then◌else◌, bit_and, bit_or, bit_and-zero, zero-bit_or,
}
use mathlib.Core.Path.{fun_ext}
use betawise.DebugTool.Dump.{
  Machine, Viewer, cursor_address, store, dump_write, dump_write_and_redraw_cur,
}
use betawise.DebugTool.Mirror.Write.{dump_write_only}
use betawise.DebugTool.Typing.{dump_write-none, dump_write-some}
use betawise.DebugTool.Bus.{
  Bus, Cpu, in_vector, flagged, bus_error_handler, install_bus_error_handler,
  uninstall_bus_error_handler, write_byte, write_and_redraw_on_bus,
}
use betawise.DebugTool.Bus.Bytes.{IsInstalled, HasRead, read_byte_lem}

-- A write that fails changes nothing.
abbrev pub FailsUnwritable : Cpu → Machine → Type 0
FailsUnwritable cpu m = (a : ℕ) → cpu.write_fails a ≡ true → m.writable a ≡ false

module _ (cpu : Cpu) (m : Machine) (unwritable : FailsUnwritable cpu m) where
  store_lost :
      (p value : ℕ) (memory : ℕ → Option ℕ) → m.writable p ≡ false → store m p value memory ≡ memory
  store_lost p value memory e = fun_ext (λ a. ground arith)

  write_byte_lem :
      {prev : ℕ} (a value : ℕ) (v : Viewer) (b : Bus)
      → in_vector a ≡ false
      → IsInstalled cpu prev b
      → (b' : Bus) × (write_byte cpu m a value v b
          ≡ some (record v { memory = store m a value v.memory }, b'))
        × IsInstalled cpu prev b'
  unfolding write_byte
  write_byte_lem a value v b apart h = elim (Bool-cases (cpu.write_fails a)) [
    | inl fails ↦
        let runs : (b.vector == cpu.bus_error_handler_address) ≡ true = ground (arith, h) in
        (
          bus_error_handler b,
          rw (apart, fails, runs, store_lost a value v.memory (unwritable a fails)) refl,
          record { installed = h.installed; prev_kept = h.prev_kept },
        )
    | inr works ↦ (b, rw (apart, works) refl, h)
  ]

  -- The flag says whether a read failed.
  failed_flag : (c : ℕ) (b : Bus) → flagged c b ≡ none → (b.bus_error == 0) ≡ false
  failed_flag c b e = ground arith

  clear_flag :
      (c : ℕ) (b : Bus) (d : ℕ) → flagged c b ≡ some d → ((b.bus_error == 0) ≡ true) × (c ≡ d)
  clear_flag c b d e = ground arith

  plain_value : (c mask value : ℕ) → mask ≡ 0 → bit_or (bit_and c mask) value ≡ value
  plain_value c mask value e = rw (e, bit_and-zero c) (zero-bit_or value)

  -- The write of `DumpWriteAndRedrawCur`, after its first read.
  written_lem :
      {prev : ℕ} (value mask : ℕ) (v : Viewer) (b : Bus)
      → in_vector (cursor_address v) ≡ false
      → (r : HasRead cpu prev (cursor_address v) v.memory b)
      → (b' : Bus) × ((if mask == 0 || r.bus.bus_error == 0
            then write_byte cpu m (cursor_address v) (bit_or (bit_and r.byte mask) value) v r.bus
            else some (v, r.bus))
          ≡ some (dump_write m value mask v, b'))
        × IsInstalled cpu prev b'
  written_lem value mask v b apart r =
      let p = cursor_address v in
      let value' = bit_or (bit_and r.byte mask) value in
      let (b', writes, after) = write_byte_lem p value' v r.bus apart r.after in
      elim (Option-cases (v.memory p)) [
        | inl error ↦
            let failed = failed_flag r.byte r.bus (r.is_memory ∙ error) in
            let lost = dump_write-none m value mask v error in
            elim (Bool-cases (mask == 0)) [
              | inl none_kept ↦
                  let plain : value' ≡ value = plain_value r.byte mask value (ground arith) in
                  let same : dump_write m value mask v
                      ≡ record v { memory = store m p value' v.memory } =
                    rw (plain, lost, none_kept) refl in
                  (b', rw (none_kept, same) writes, after)
              | inr kept ↦
                  let same : dump_write m value mask v ≡ v = rw (lost, kept) refl in
                  (r.bus, rw (kept, failed, same) refl, r.after)
            ]
        | inr (c, there) ↦
            let (clear, byte) = clear_flag r.byte r.bus c (r.is_memory ∙ there) in
            let either : (mask == 0 || r.bus.bus_error == 0) ≡ true = ground arith in
            let same : dump_write m value mask v ≡ record v { memory = store m p value' v.memory } =
              rw byte (dump_write-some m value mask c v there) in
            (b', rw (either, same) writes, after)
      ]

  -- When `writable` is false where a write fails, and the cursor is not on the four bytes of the vector: with the bus error
  -- handler installed for its two reads and its write, `DumpWriteAndRedrawCur` comes to the same state and screen as
  -- `dump_write_and_redraw_cur`, which is told of each byte whether it can be read, whatever a failed read leaves in the
  -- register; and the vector is then what it was.
  pub write_and_redraw_on_bus_lem :
      (value mask : ℕ) (v : Viewer) (b : Bus)
      → in_vector (cursor_address v) ≡ false
      → (b' : Bus) × (write_and_redraw_on_bus cpu m value mask v b
          ≡ some (dump_write_and_redraw_cur m value mask v, b'))
        × (b'.vector ≡ b.vector)
  unfolding write_and_redraw_on_bus dump_write_and_redraw_cur
  write_and_redraw_on_bus_lem value mask v b apart =
      let p = cursor_address v in
      let ready : Bus = record (install_bus_error_handler cpu b) { bus_error = 0 } in
      let r =
        read_byte_lem cpu {prev = b.vector} p v.memory ready apart refl
          (record { installed = refl; prev_kept = refl }) in
      let (b2, writes, h2) = written_lem value mask v ready apart r in
      let w = dump_write m value mask v in
      let r' =
        read_byte_lem cpu {prev = b.vector} p w.memory (record b2 { bus_error = 0 }) apart refl
          (record { installed = h2.installed; prev_kept = h2.prev_kept }) in
      let stays : cursor_address w ≡ p = ap cursor_address (dump_write_only m value mask v) in
      (
        uninstall_bus_error_handler r'.bus,
        rw (r.read, writes, r'.read, r'.is_memory, stays) refl,
        r'.after.prev_kept,
      )
