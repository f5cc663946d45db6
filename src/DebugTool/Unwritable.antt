-- ===== src/DebugTool/Unwritable.antt =====
-- applets/DebugTool/DebugTool.c: typing at memory that cannot be read or cannot be written.
use betawise.Base.{
  ℕ, ◌+◌, ◌-◌, ◌*◌, ◌%◌, ◌^◌, ◌≡◌, ◌⊎◌, inl, inr, refl, arith, ◌∙◌, ap, Option, none, some, false,
  u8, ◌==◌,
}
use mathlib.Core.Path.{subst}
use betawise.DebugTool.Number.{hex_char_to_nibble}
use betawise.DebugTool.Dump.{
  Mode, nibble_hi, nibble_lo, Machine, Viewer, cursor_address, dump_write,
  dump_write_and_redraw_cur, dump_move_cursor, dump_set_cursor_cur,
}
use betawise.DebugTool.Frame.{Draws, Draws-trans, Draws-set_cursor_cur}
use betawise.DebugTool.Moves.{InView, InView-Draws, MovedTo, dump_move_cursor-MovedTo}
use betawise.DebugTool.Messages.{on_char, type_char}
use betawise.DebugTool.Typing.{Draws-write, on_char_digit, MovedTo-from, with_memory, goes}
use betawise.DebugTool.Mirror.Write.{dump_write_only}

-- The byte at the cursor is lost to a digit: a bus error on reading it, or memory that a write does not change.
abbrev pub IsLost : Machine → Viewer → Type 0
IsLost m v = (v.memory (cursor_address v) ≡ none) ⊎ (m.writable (cursor_address v) ≡ false)

module _ (m : Machine) where
  dump_write_lost :
      (value mask : ℕ) (v : Viewer) (a : ℕ)
      → (mask == 0) ≡ false
      → IsLost m v
      → (dump_write m value mask v).memory a ≡ v.memory a
  unfolding dump_write
  dump_write_lost value mask v a some_mask (inl error) = ground arith
  dump_write_lost value mask v a some_mask (inr locked) = ground arith

  write_any :
      (value mask : ℕ) (mode : Mode) (v : Viewer)
      → Draws
          (with_memory (dump_write m value mask v).memory mode v)
          (record (dump_write_and_redraw_cur m value mask v) { mode = mode })
  write_any value mask mode v =
      ap (λ (w : Viewer). record w { mode = mode })
        (subst (λ u. Draws u (dump_write_and_redraw_cur m value mask v))
          (dump_write_only m value mask v) (Draws-write m value mask v))

  -- A digit at the first nibble goes on to the second.
  first_lost :
      (c d : ℕ) (v : Viewer)
      → v.mode ≡ nibble_hi
      → hex_char_to_nibble (u8 c) ≡ some d
      → Draws (with_memory (dump_write m (u8 (d * 16)) 0x0F v).memory nibble_lo v) (on_char m c v)
  unfolding type_char
  first_lost c d v em ed =
      let w = record (dump_write_and_redraw_cur m (u8 (d * 16)) 0x0F v) { mode = nibble_lo } in
      let drawn : type_char m nibble_hi c v ≡ dump_set_cursor_cur m w = ground arith in
      rw (on_char_digit m c d nibble_hi v ed em, drawn)
        (Draws-trans (with_memory (dump_write m (u8 (d * 16)) 0x0F v).memory nibble_lo v)
          (write_any (u8 (d * 16)) 0x0F nibble_lo v) (Draws-set_cursor_cur m w))

  -- A digit at the second nibble goes on to the next byte.
  second_lost :
      (c d : ℕ) (v : Viewer)
      → InView v
      → v.mode ≡ nibble_lo
      → hex_char_to_nibble (u8 c) ≡ some d
      → MovedTo
          (v.cursor + 9)
          (with_memory (dump_write m d 0xF0 v).memory nibble_hi v)
          (on_char m c v)
  unfolding type_char
  second_lost c d v s em ed =
      let u = with_memory (dump_write m d 0xF0 v).memory nibble_hi v in
      let w = record (dump_write_and_redraw_cur m d 0xF0 v) { mode = nibble_hi } in
      let drawn : type_char m nibble_lo c v ≡ dump_move_cursor m (u8 (w.cursor + 1)) w =
        ground arith in
      let written : Draws u w = write_any d 0xF0 nibble_hi v in
      let cursor_eq : w.cursor ≡ v.cursor = ap (λ (x : Viewer). x.cursor) written in
      let bytes_eq : w.bytes_per_screen ≡ v.bytes_per_screen =
        ap (λ (x : Viewer). x.bytes_per_screen) written in
      rw (on_char_digit m c d nibble_lo v ed em, drawn)
        (MovedTo-from u written (
          dump_move_cursor-MovedTo m (v.cursor + 9) {v = w} (omega arith) (omega arith)
            (InView-Draws {v = u} written (assumption s))))

  IsLost-same :
      (v w : Viewer)
      → cursor_address w ≡ cursor_address v
      → ((a : ℕ) → w.memory a ≡ v.memory a)
      → IsLost m v
      → IsLost m w
  IsLost-same v w e same (inl error) = inl (ap w.memory e ∙ same (cursor_address v) ∙ error)
  IsLost-same v w e same (inr locked) = inr (ap m.writable e ∙ locked)

  -- Two hexadecimal digits typed at a byte that cannot be read (a bus error) or cannot be written, with the cursor at its
  -- first nibble: memory is what it was, at every address, and the cursor still goes on to the first nibble of the next
  -- address (modulo 2 ^ 32), in view.
  pub type_hex_lost :
      (c1 c2 d1 d2 : ℕ) (v : Viewer)
      → InView v
      → v.mode ≡ nibble_hi
      → IsLost m v
      → hex_char_to_nibble (u8 c1) ≡ some d1
      → hex_char_to_nibble (u8 c2) ≡ some d2
      → let w = on_char m c2 (on_char m c1 v) in
        InView w
        × (w.mode ≡ nibble_hi)
        × (cursor_address w ≡ (cursor_address v + 1) % 2 ^ 32)
        × ((a : ℕ) → w.memory a ≡ v.memory a)
  type_hex_lost c1 c2 d1 d2 v s em lost e1 e2 =
      let v1 = on_char m c1 v in
      let u = with_memory (dump_write m (u8 (d1 * 16)) 0x0F v).memory nibble_lo v in
      let first : Draws u v1 = first_lost c1 d1 v em e1 in
      let same1 : (a : ℕ) → v1.memory a ≡ v.memory a = λ a.
        ap (λ (x : Viewer). x.memory a) first ∙ dump_write_lost (u8 (d1 * 16)) 0x0F v a refl lost in
      let lost1 : IsLost m v1 =
        IsLost-same v v1 (ap (λ (x : Viewer). cursor_address x) first) same1 lost in
      let second =
        second_lost c2 d2 v1 (InView-Draws {v = u} first (assumption s))
          (ap (λ (x : Viewer). x.mode) first) e2 in
      (
        second.in_view,
        second.same_mode,
        second.goes
            ∙ ap (λ (x : Viewer). (x.address + (x.cursor + 9) + 2 ^ 32 - 8) % 2 ^ 32) first
            ∙ goes m v s,
        λ a.
            ap (λ (memory : ℕ → Option ℕ). memory a) second.same_memory
            ∙ dump_write_lost d2 0xF0 v1 a refl lost1
            ∙ same1 a,
      )
