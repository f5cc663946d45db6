-- ===== src/DebugTool/Bus.antt =====
-- applets/DebugTool/DebugTool.c: the accesses to memory that may fail, with the bus error handler that is installed for them.
pub mod Bytes
pub mod Screen
pub mod Typed
pub mod Pointer
pub mod Vector
use betawise.Base.{
  is_negative8, true, false, ℕ, zero, suc, ◌+◌, ◌-◌, ◌*◌, ◌/◌, ◌%◌, ◌^◌, ◌==◌, ◌&&◌, ◌||◌, List, [],
  ◌∷◌, Option, none, some, Bool, leb, if◌then◌else◌, u8, u32, bit_and, bit_or, ◌>>=◌,
}
use betawise.Console.{cursor_hide, set_cursor}
use betawise.Console.Stdio.{puts}
use betawise.DebugTool.Dump.{
  Machine, Viewer, nibble_hi, ascii, bytes_per_row, cursor_address, store, on_console,
  dump_set_cursor, dump_set_cursor_cur, dump_redraw_byte_hex, dump_redraw_byte_ascii,
  dump_set_address,
}
use betawise.DebugTool.Messages.{read_long}

-- The vector of the bus error, `BUS_ERROR_HANDLER_PTR`, with `g_prevBusErrorHandler` and `g_busError`.
pub record Bus : Type 0 where
  pub vector : ℕ
  pub prev_bus_error_handler : ℕ
  pub bus_error : ℕ

-- The processor: the address of `BusErrorHandler`, what a read that failed leaves in the register, and whether a write fails.
pub record Cpu : Type 0 where
  pub bus_error_handler_address : ℕ
  pub stale : ℕ → ℕ
  pub write_fails : ℕ → Bool

abbrev pub bus_error_handler : Bus → Bus
bus_error_handler b = record b { bus_error = 1 }

abbrev pub uninstall_bus_error_handler : Bus → Bus
uninstall_bus_error_handler b = record b { vector = b.prev_bus_error_handler }

-- The four bytes at 8 are the vector's, the highest first.
abbrev pub in_vector : ℕ → Bool
in_vector a = leb 8 a && leb a 11

abbrev pub vector_byte : ℕ → ℕ → ℕ
vector_byte vector a = vector / 256 ^ (11 - a) % 256

abbrev pub with_vector_byte : ℕ → ℕ → ℕ → ℕ
with_vector_byte vector a value =
    let place = 256 ^ (11 - a) in
    vector / (256 * place) * (256 * place) + value * place + vector % place

-- What the bus has at an address.
abbrev pub on_bus : (ℕ → Option ℕ) → Bus → ℕ → Option ℕ
on_bus memory b a = if in_vector a then some (vector_byte b.vector a) else memory a

-- A byte that was read, or the error.
abbrev pub flagged : ℕ → Bus → Option ℕ
flagged c b = if b.bus_error == 0 then some c else none

module _ (cpu : Cpu) where
  abbrev pub install_bus_error_handler : Bus → Bus
  install_bus_error_handler b = record b {
    prev_bus_error_handler = b.vector;
    vector = cpu.bus_error_handler_address;
  }

  -- A bus error calls the handler of the vector. Of another handler than the viewer's it is not known that it returns.
  abbrev pub raise : ℕ → Bus → Option (ℕ × Bus)
  raise c b =
      if b.vector == cpu.bus_error_handler_address then some (c, bus_error_handler b) else none

  unfoldable pub read_byte : ℕ → (ℕ → Option ℕ) → Bus → Option (ℕ × Bus)
  read_byte a memory b = elim (on_bus memory b a) [
    | none ↦ raise (u8 (cpu.stale a)) b
    | some c ↦ some (c, b)
  ]

  unfoldable pub read_long_on_bus : ℕ → (ℕ → Option ℕ) → Bus → Option (ℕ × Bus)
  read_long_on_bus a memory b = elim (read_long (on_bus memory b) a) [
    | none ↦ raise (u32 (cpu.stale a)) b
    | some n ↦ some (n, b)
  ]

  -- The loop that reads a row, the `left` bytes from `a` on.
  unfoldable pub read_row : ℕ → ℕ → (ℕ → Option ℕ) → Bus → Option (List (Option ℕ) × Bus)
  read_row zero a memory b = some ([], b)
  read_row (suc left) a memory b = do
    (c, b1) ← read_byte a memory (record b { bus_error = 0 })
    (cs, b2) ← read_row left (u32 (a + 1)) memory b1
    some (flagged c b1 ∷ cs, b2)

  -- Ctrl+Shift+G on an even cursor, up to `DumpRedrawScreen`.
  unfoldable pub follow_on_bus : Viewer → Bus → Option (Viewer × Bus)
  follow_on_bus v b = do
    (n, b') ←
        read_long_on_bus (cursor_address v) v.memory
          (record (install_bus_error_handler b) { bus_error = 0 })
    some (if b'.bus_error == 0 then dump_set_address n v else v, uninstall_bus_error_handler b')

-- The loops that draw it.
unfoldable pub draw_row : (Option ℕ → Viewer → Viewer) → List (Option ℕ) → Viewer → Viewer
draw_row draw [] v = v
draw_row draw (c ∷ cs) v = draw_row draw cs (draw c v)

module _ (cpu : Cpu) (m : Machine) where
  unfoldable pub write_byte : ℕ → ℕ → Viewer → Bus → Option (Viewer × Bus)
  write_byte a value v b =
      let stored = record v { memory = store m a value v.memory } in
      if in_vector a
      then some (v, record b { vector = with_vector_byte b.vector a value })
      else if cpu.write_fails a
      then (if b.vector == cpu.bus_error_handler_address
          then some (v, bus_error_handler b)
          else none)
      else some (stored, b)

  -- `DumpWriteAndRedrawCur`.
  unfoldable pub write_and_redraw_on_bus : ℕ → ℕ → Viewer → Bus → Option (Viewer × Bus)
  unfolding read_byte write_byte
  write_and_redraw_on_bus value mask v b = do
    let p = cursor_address v
    (old, b1) ←
        read_byte cpu p v.memory (record (install_bus_error_handler cpu b) { bus_error = 0 })
    (w, b2) ←
        if mask == 0 || b1.bus_error == 0
        then write_byte p (bit_or (bit_and old mask) value) v b1
        else some (v, b1)
    (byte, b3) ← read_byte cpu p w.memory (record b2 { bus_error = 0 })
    let c = flagged byte b3
    let hex = dump_redraw_byte_hex m c (dump_set_cursor m (u8 v.cursor) nibble_hi cursor_hide w)
    some (
      dump_redraw_byte_ascii m c (dump_set_cursor m (u8 v.cursor) ascii cursor_hide hex),
      uninstall_bus_error_handler b3,
    )

  -- A row of `DumpRedrawScreen`.
  unfoldable pub redraw_row_on_bus : ℕ → ℕ → Viewer → Bus → Option (Viewer × Bus)
  redraw_row_on_bus row a v b = do
    let placed = on_console m (set_cursor m.os row (if v.is_as3000 then 1 else 3) cursor_hide) v
    let label = if v.is_as3000 then m.hex_address_seven a else m.hex_address a
    let labelled = on_console m (λ s. (puts m.os label s).1) placed
    (cs, b') ← read_row cpu bytes_per_row a labelled.memory b
    let hex = draw_row (dump_redraw_byte_hex m) cs labelled
    some (draw_row (dump_redraw_byte_ascii m) cs hex, b')

  -- The loop over the rows, whose counter is a `char`: one from 128 on is negative. The fuel is for the tests of its condition.
  unfoldable pub redraw_rows_on_bus : ℕ → ℕ → ℕ → Viewer → Bus → Option (Viewer × Bus)
  redraw_rows_on_bus zero row a v b = none
  redraw_rows_on_bus (suc fuel) row a v b = elim (is_negative8 row || leb row v.rows_per_screen) [
    | true ↦ do
      (w, b') ← redraw_row_on_bus row a v b
      redraw_rows_on_bus fuel (u8 (row + 1)) (u32 (a + bytes_per_row)) w b'
    | false ↦ some (v, b)
  ]

  -- `DumpRedrawScreen`.
  unfoldable pub redraw_screen_on_bus : ℕ → Viewer → Bus → Option (Viewer × Bus)
  redraw_screen_on_bus fuel v b = do
    (w, b') ← redraw_rows_on_bus fuel 1 v.address v (install_bus_error_handler cpu b)
    some (dump_set_cursor_cur m w, uninstall_bus_error_handler b')
