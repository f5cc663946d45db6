-- ===== src/DebugTool/Mirror/Typed.antt =====
-- applets/DebugTool/DebugTool.c on the console of os3k/os3k.c: the screen and memory agree after every character.
use betawise.Base.{
  ℕ, ◌*◌, ◌<◌, inl, inr, arith, Option-cases, u8, bit_and, bit_and-zero, low_nibble, high_nibble,
  ◌==◌,
}
use betawise.Os.{Font}
use betawise.Console.Terminal.{Terminal}
use betawise.DebugTool.Number.{hex_char_to_nibble}
use betawise.DebugTool.Number.Digits.{hex_char_to_nibble_only}
use betawise.DebugTool.Dump.{
  Mode, nibble_hi, nibble_lo, ascii, Machine, Viewer, dump_write_and_redraw_cur,
}
use betawise.DebugTool.Messages.{type_char, on_char}
use betawise.DebugTool.Invariant.{IsSane, IsSane-mode, dump_write-IsSane, write-IsSane}
use betawise.DebugTool.Redraw.{PrintsHex}
use betawise.DebugTool.Mirror.{Mirrors, cursor-Mirrors}
use betawise.DebugTool.Mirror.Write.{write-Mirrors}
use betawise.DebugTool.Mirror.Moves.{Mirrors-if, Mirrors-mode, next-Mirrors}

module _ (m : Machine) (prints : PrintsHex m) {f : Font} {t : Terminal} where
  -- A write, a change of mode, and a move to the next byte.
  typed-Mirrors :
      (value mask : ℕ) (mode : Mode) {v : Viewer}
      → value < 256
      → ((b : ℕ) → b < 256 → bit_and b mask < 256)
      → IsSane v
      → Mirrors m f t v
      → let w = record (dump_write_and_redraw_cur m value mask v) { mode = mode } in
        IsSane w × Mirrors m f t w
  typed-Mirrors value mask mode {v} hv hm s h = (
    IsSane-mode m mode (write-IsSane m value mask {v = v} hv hm s),
    Mirrors-mode m prints mode
        (write-Mirrors m prints value mask {v = v} (dump_write-IsSane m value mask hv hm s) h),
  )

  type_char-Mirrors :
      (mode : Mode) (param : ℕ) {v : Viewer}
      → IsSane v
      → Mirrors m f t v
      → Mirrors m f t (type_char m mode param v)
  unfolding type_char
  type_char-Mirrors nibble_hi param {v} s h = elim (Option-cases (hex_char_to_nibble (u8 param))) [
    | inl other ↦ rw (other, type_char) h
    | inr (d, digit) ↦
        let typed =
          typed-Mirrors (u8 (d * 16)) 0x0F nibble_lo {v = v} (omega arith)
            (λ b h1. omega (arith, low_nibble b)) s h in
        rw (digit, type_char) (cursor-Mirrors m prints typed.0 typed.1)
  ]
  type_char-Mirrors nibble_lo param {v} s h = elim (Option-cases (hex_char_to_nibble (u8 param))) [
    | inl other ↦ rw (other, type_char) h
    | inr (d, digit) ↦
        let below = (hex_char_to_nibble_only (u8 param) d digit).1 in
        let typed =
          typed-Mirrors d 0xF0 nibble_hi {v = v} (omega arith)
            (λ b h1. omega (arith, high_nibble b h1)) s h in
        rw (digit, type_char) (next-Mirrors m prints typed.0 typed.1)
  ]
  type_char-Mirrors ascii param {v} s h =
      let byte : (b : ℕ) → b < 256 → bit_and b 0 < 256 = λ b h1. omega (arith, bit_and-zero b) in
      next-Mirrors m prints (write-IsSane m (u8 param) 0 {v = v} (omega arith) byte s) (
        write-Mirrors m prints (u8 param) 0 {v = v}
          (dump_write-IsSane m (u8 param) 0 (omega arith) byte s) h)

  pub on_char-Mirrors :
      (param : ℕ) {v : Viewer} → IsSane v → Mirrors m f t v → Mirrors m f t (on_char m param v)
  unfolding on_char
  on_char-Mirrors param {v} s h =
      Mirrors-if m f t (param == 9)
        (cursor-Mirrors m prints (IsSane-mode m _ s) (Mirrors-mode m prints _ h))
        (Mirrors-if m f t (param == 13) h (type_char-Mirrors v.mode param s h))
