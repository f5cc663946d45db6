-- ===== src/DebugTool/Bus/Bytes.antt =====
-- applets/DebugTool/DebugTool.c: what is read with the bus error handler installed.
use betawise.Base.{
  ℕ, zero, suc, ◌+◌, ◌^◌, ◌≤◌, ◌≡◌, ◌≢◌, inl, inr, refl, sym, arith, List, [], ◌∷◌, Option, some,
  false, Option-cases, u8, u32,
}
use betawise.DebugTool.Bus.{Bus, Cpu, in_vector, flagged, bus_error_handler, read_byte, read_row}

-- The viewer's handler is installed, over `prev`.
pub record IsInstalled (cpu : Cpu) (prev : ℕ) (b : Bus) : Type 0 where
  pub installed : b.vector ≡ cpu.bus_error_handler_address
  pub prev_kept : b.prev_bus_error_handler ≡ prev

-- What a read brings.
pub record HasRead (cpu : Cpu) (prev a : ℕ) (memory : ℕ → Option ℕ) (b : Bus) : Type 0 where
  pub byte : ℕ
  pub bus : Bus
  pub read : read_byte cpu a memory b ≡ some (byte, bus)
  pub is_memory : flagged byte bus ≡ memory a
  pub after : IsInstalled cpu prev bus

pub read_byte_lem :
    (cpu : Cpu) {prev : ℕ} (a : ℕ) (memory : ℕ → Option ℕ) (b : Bus)
    → in_vector a ≡ false
    → b.bus_error ≡ 0
    → IsInstalled cpu prev b
    → HasRead cpu prev a memory b
unfolding read_byte
read_byte_lem cpu a memory b apart clear h = elim (Option-cases (memory a)) [
  | inl error ↦ record {
    byte = u8 (cpu.stale a);
    bus = bus_error_handler b;
    read = rw (apart, error, read_byte) (ground (arith, h));
    is_memory = sym error;
    after = record { installed = h.installed; prev_kept = h.prev_kept };
  }
  | inr (c, there) ↦ record {
    byte = c;
    bus = b;
    read = rw (apart, there, read_byte) refl;
    is_memory = rw clear (sym there);
    after = h;
  }
]

-- The bytes from `a` on.
abbrev pub bytes_at : ℕ → ℕ → (ℕ → Option ℕ) → List (Option ℕ)
bytes_at zero a memory = []
bytes_at (suc left) a memory = memory a ∷ bytes_at left (u32 (a + 1)) memory

-- They stand above the vector, and do not pass the end of memory.
abbrev pub Above : ℕ → ℕ → Type 0
Above left a = left ≢ 0 → (12 ≤ a) × (a + left ≤ 2 ^ 32)

next-Above : (left a : ℕ) → Above (suc left) a → Above left (u32 (a + 1))
next-Above left a h some_left = omega (arith, h (omega arith))

in_vector-false : (left a : ℕ) → Above (suc left) a → in_vector a ≡ false
in_vector-false left a h = let h' = h (omega arith) in ground arith

pub read_row_lem :
    (cpu : Cpu) {prev : ℕ} (left a : ℕ) (memory : ℕ → Option ℕ) (b : Bus)
    → Above left a
    → IsInstalled cpu prev b
    → (b' : Bus) × (read_row cpu left a memory b ≡ some (bytes_at left a memory, b'))
      × IsInstalled cpu prev b'
unfolding read_row
read_row_lem cpu zero a memory b above h = (b, refl, h)
read_row_lem cpu {prev} (suc left) a memory b above h =
    let clear : Bus = record b { bus_error = 0 } in
    let r =
      read_byte_lem cpu {prev = prev} a memory clear (in_vector-false left a above) refl
        (record { installed = h.installed; prev_kept = h.prev_kept }) in
    let (b', rest, after) =
      read_row_lem cpu left (u32 (a + 1)) memory r.bus (next-Above left a above) r.after in
    (b', rw (r.read, rest, r.is_memory) refl, after)
