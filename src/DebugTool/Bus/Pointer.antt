-- ===== src/DebugTool/Bus/Pointer.antt =====
-- applets/DebugTool/DebugTool.c: with the bus error handler, Ctrl+Shift+G reads an address as memory allows.
use betawise.Base.{
  ℕ, ◌+◌, ◌^◌, ◌≤◌, ◌<◌, ◌≡◌, inl, inr, refl, sym, arith, ap, Option, none, some, Bool, true, false,
  Option-cases, ◌==◌, if◌then◌else◌, u32, bit_and,
}
use betawise.DebugTool.Dump.{Machine, Viewer, cursor_address, dump_set_address, dump_redraw_screen}
use betawise.DebugTool.Messages.{read_long, follow_pointer}
use betawise.DebugTool.Bus.{
  Bus, Cpu, in_vector, on_bus, flagged, bus_error_handler, install_bus_error_handler,
  uninstall_bus_error_handler, read_long_on_bus, follow_on_bus,
}
use betawise.DebugTool.Bus.Bytes.{IsInstalled}

-- The four bytes above the vector.
long_above :
    (memory : ℕ → Option ℕ) (b : Bus) (p : ℕ)
    → 12 ≤ p
    → p < 2 ^ 32
    → read_long (on_bus memory b) p ≡ read_long memory p
unfolding read_long
long_above memory b p h1 h2 =
    let e0 : in_vector p ≡ false = ground arith in
    let e1 : in_vector (u32 (p + 1)) ≡ false = ground arith in
    let e2 : in_vector (u32 (p + 2)) ≡ false = ground arith in
    let e3 : in_vector (u32 (p + 3)) ≡ false = ground arith in rw (e0, e1, e2, e3) refl

read_long_lem :
    (cpu : Cpu) {prev : ℕ} (p : ℕ) (memory : ℕ → Option ℕ) (b : Bus)
    → 12 ≤ p
    → p < 2 ^ 32
    → b.bus_error ≡ 0
    → IsInstalled cpu prev b
    → (n : ℕ) × (b' : Bus) × (read_long_on_bus cpu p memory b ≡ some (n, b'))
      × (flagged n b' ≡ read_long memory p)
      × IsInstalled cpu prev b'
unfolding read_long_on_bus
read_long_lem cpu p memory b h1 h2 clear h =
    let long = long_above memory b p h1 h2 in
    elim (Option-cases (read_long memory p)) [
      | inl error ↦
          let runs : (b.vector == cpu.bus_error_handler_address) ≡ true = ground (arith, h) in
          (
            u32 (cpu.stale p),
            bus_error_handler b,
            rw (long, error, runs, read_long_on_bus) refl,
            sym error,
            record { installed = h.installed; prev_kept = h.prev_kept },
          )
      | inr (n, there) ↦ (n, b, rw (long, there, read_long_on_bus) refl, rw clear (sym there), h)
    ]

-- With the cursor on an even byte above the vector: with the bus error handler installed for its read, Ctrl+Shift+G comes to a
-- state whose screen it then redraws as `follow_pointer` does, whatever a failed read leaves in the register; and the vector
-- is then what it was.
pub follow_on_bus_lem :
    (cpu : Cpu) (m : Machine) (v : Viewer) (b : Bus)
    → bit_and v.cursor 1 ≡ 0
    → 12 ≤ cursor_address v
    → (w : Viewer) × (b' : Bus) × (follow_on_bus cpu v b ≡ some (w, b'))
      × (follow_pointer m v ≡ dump_redraw_screen m w)
      × (b'.vector ≡ b.vector)
unfolding follow_on_bus follow_pointer
follow_on_bus_lem cpu m v b even above =
    let ready : Bus = record (install_bus_error_handler cpu b) { bus_error = 0 } in
    let (n, b', read, is_memory, h) =
      read_long_lem cpu {prev = b.vector} (cursor_address v) v.memory ready above (omega arith) refl
        (record { installed = refl; prev_kept = refl }) in
    let is_even : (bit_and v.cursor 1 == 1) ≡ false = ground arith in
    (
      if b'.bus_error == 0 then dump_set_address n v else v,
      uninstall_bus_error_handler b',
      rw read refl,
      rw (is_even, sym is_memory) (ap (dump_redraw_screen m) (by_flag (b'.bus_error == 0) n v)),
      h.prev_kept,
    )
  where
    by_flag :
        (ok : Bool) (n : ℕ) (v : Viewer)
        → (elim (if ok then some n else none) [ none ↦ v | some addr ↦ dump_set_address addr v ])
          ≡ (if ok then dump_set_address n v else v)
    by_flag true n v = refl
    by_flag false n v = refl
