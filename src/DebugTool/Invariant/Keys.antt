-- ===== src/DebugTool/Invariant/Keys.antt =====
-- applets/DebugTool/DebugTool.c: the invariant under characters, and under the keys that do not prompt.
use betawise.Base.{
  ℕ, zero, suc, ◌+◌, ◌*◌, ◌^◌, ◌<◌, ◌≡◌, inl, inr, refl, arith, Option, some, Option-cases, u8, u32,
  bit_and, ◌==◌, bit_and-zero, low_nibble, high_nibble,
}
use betawise.Keys.{
  key_left, key_right, key_up, key_down, key_home, key_end, key_mod_ctrl, key_mod_leftshift,
  key_mod_rightshift, key_mod_cmd, key_backspace, key_g, key_r, key_b, key_clear_file,
}
use betawise.DebugTool.Number.{hex_char_to_nibble}
use betawise.DebugTool.Number.Digits.{hex_char_to_nibble_only}
use betawise.DebugTool.Dump.{Mode, nibble_hi, nibble_lo, ascii, Machine, Viewer, cursor_address}
use betawise.DebugTool.Frame.{Draws-screen}
use betawise.DebugTool.Messages.{
  scratch_size, read_long, type_char, on_char, key_left_in, key_right_in, follow_pointer,
  clear_scratch, on_other_key, on_plain_key,
}
use betawise.DebugTool.Rows.{vertical_keys, row_ends, screen_ends}
use betawise.DebugTool.Invariant.{
  HoldsBytes, HoldsBytes-store, IsSane, IsSane-like, IsSane-Draws, IsSane-if, IsSane-mode,
  screen-IsSane, cursor-IsSane, write-IsSane, dump_move_cursor-IsLike, next-IsSane, previous-IsSane,
  IsLike-drawn, set_address-IsSane,
}

module _ (m : Machine) where
  type_char-IsSane :
      (mode : Mode) (param : ℕ) {v : Viewer} → IsSane v → IsSane (type_char m mode param v)
  unfolding type_char
  type_char-IsSane nibble_hi param {v} s = elim (Option-cases (hex_char_to_nibble (u8 param))) [
    | inl other ↦ rw (other, type_char) s
    | inr (d, digit) ↦
        rw (digit, type_char)
          (cursor-IsSane m (
            IsSane-mode m nibble_lo (
              write-IsSane m (u8 (d * 16)) 0x0F {v = v} (omega arith)
                (λ b h. omega (arith, low_nibble b)) s)))
  ]
  type_char-IsSane nibble_lo param {v} s = elim (Option-cases (hex_char_to_nibble (u8 param))) [
    | inl other ↦ rw (other, type_char) s
    | inr (d, digit) ↦
        let below = (hex_char_to_nibble_only (u8 param) d digit).1 in
        rw (digit, type_char)
          (next-IsSane m (
            IsSane-mode m nibble_hi (
              write-IsSane m d 0xF0 {v = v} (omega arith) (λ b h. omega (arith, high_nibble b h))
                s)))
  ]
  type_char-IsSane ascii param {v} s =
      next-IsSane m
        (write-IsSane m (u8 param) 0 {v = v} (omega arith) (λ b h. omega (arith, bit_and-zero b)) s)

  -- Every character keeps the viewer in view of its memory, whose bytes stay bytes.
  pub on_char-IsSane : (param : ℕ) {v : Viewer} → IsSane v → IsSane (on_char m param v)
  unfolding on_char
  on_char-IsSane param {v} s =
      IsSane-if (param == 9) (cursor-IsSane m (IsSane-mode m _ s))
        (IsSane-if (param == 13) s (type_char-IsSane v.mode param s))

  pub read_long-lt :
      (memory : ℕ → Option ℕ) (a n : ℕ)
      → HoldsBytes memory
      → read_long memory a ≡ some n
      → n < 2 ^ 32
  unfolding read_long
  read_long-lt memory a n h e = elim (Option-cases (memory a)) [
    | inl error ↦ ground arith
    | inr (b3, e3) ↦ elim (Option-cases (memory (u32 (a + 1)))) [
      | inl error ↦ ground arith
      | inr (b2, e2) ↦ elim (Option-cases (memory (u32 (a + 2)))) [
        | inl error ↦ ground arith
        | inr (b1, e1) ↦ elim (Option-cases (memory (u32 (a + 3)))) [
          | inl error ↦ ground arith
          | inr (b0, e0) ↦ ground (arith, h a b3 e3, h _ b2 e2, h _ b1 e1, h _ b0 e0)
        ]
      ]
    ]
  ]

  follow_pointer-IsSane : {v : Viewer} → IsSane v → IsSane (follow_pointer m v)
  unfolding follow_pointer
  follow_pointer-IsSane {v} s = IsSane-if (bit_and v.cursor 1 == 1) s (
      screen-IsSane m (elim (Option-cases (read_long v.memory (cursor_address v))) [
        | inl error ↦ rw error s
        | inr (n, read) ↦ rw read (set_address-IsSane n s (read_long-lt _ _ n s.bytes read))
      ]))

  pub clear_scratch-HoldsBytes :
      (left a : ℕ) (memory : ℕ → Option ℕ)
      → HoldsBytes memory
      → HoldsBytes (clear_scratch m left a memory)
  unfolding clear_scratch
  clear_scratch-HoldsBytes zero a memory h = h
  clear_scratch-HoldsBytes (suc left) a memory h =
      clear_scratch-HoldsBytes left (u32 (a + 1)) _ (HoldsBytes-store m a 0 (omega arith) h)

  left-IsSane :
      (mode : Mode) {v : Viewer} → v.mode ≡ mode → IsSane v → IsSane (key_left_in m mode v)
  unfolding key_left_in
  left-IsSane nibble_lo e s = cursor-IsSane m (IsSane-mode m nibble_hi s)
  left-IsSane nibble_hi {v} e s = previous-IsSane m (IsSane-mode m nibble_lo s)
  left-IsSane ascii {v} e s = previous-IsSane m s

  right-IsSane :
      (mode : Mode) {v : Viewer} → v.mode ≡ mode → IsSane v → IsSane (key_right_in m mode v)
  unfolding key_right_in
  right-IsSane nibble_hi e s = cursor-IsSane m (IsSane-mode m nibble_lo s)
  right-IsSane nibble_lo e s = next-IsSane m (IsSane-mode m nibble_hi s)
  right-IsSane ascii e s = next-IsSane m s

  pub cleared-IsSane :
      {v : Viewer}
      → IsSane v
      → IsSane (record v { memory = clear_scratch m scratch_size m.addresses.scratch v.memory })
  cleared-IsSane s = record {
    in_view = assumption s.in_view;
    rows = s.rows;
    prev_fits = s.prev_fits;
    bytes = clear_scratch-HoldsBytes scratch_size m.addresses.scratch _ s.bytes;
  }

  other_keys-IsSane : (key : ℕ) {v : Viewer} → IsSane v → IsSane (on_other_key m key v)
  unfolding on_other_key
  other_keys-IsSane key {v} s =
      IsSane-if (key == key_mod_ctrl + key_mod_leftshift + key_g) (follow_pointer-IsSane s) (
        IsSane-if (key == key_mod_ctrl + key_mod_rightshift + key_g) (follow_pointer-IsSane s) (
          IsSane-if (key == key_backspace)
            (screen-IsSane m (set_address-IsSane v.prev_address s s.prev_fits))
            (IsSane-if (key == key_mod_ctrl + key_r) (screen-IsSane m s) (
              IsSane-if (key == key_clear_file) (screen-IsSane m (cleared-IsSane s)) (
                IsSane-if (key == key_mod_ctrl + key_mod_cmd + key_b) (IsSane-Draws {v = v} refl s)
                  s)))))

  -- A key that does not prompt keeps it too.
  pub on_plain_key-IsSane : (key : ℕ) {v : Viewer} → IsSane v → IsSane (on_plain_key m key v)
  unfolding on_plain_key
  on_plain_key-IsSane key {v} s =
      let view = s.in_view in
      let vertical = vertical_keys m {v = v} view in
      let ends = row_ends m {v = v} view in
      let corners = screen_ends m {v = v} view s.rows in
      let moved = λ (c : ℕ). dump_move_cursor-IsLike m c v in
      let paged = λ (address : ℕ).
        IsLike-drawn address v.cursor v.mode v (Draws-screen m (record v { address = address })) in
      IsSane-if (key == key_left) (left-IsSane v.mode refl s) (
        IsSane-if (key == key_right) (right-IsSane v.mode refl s) (
          IsSane-if (key == key_up) (IsSane-like s (vertical.0).in_view (moved _)) (
            IsSane-if (key == key_mod_ctrl + key_up) (IsSane-like s (vertical.2).in_view (paged _))
              (IsSane-if (key == key_down) (IsSane-like s (vertical.1).in_view (moved _)) (
                IsSane-if (key == key_mod_ctrl + key_down)
                  (IsSane-like s (vertical.3).in_view (paged _))
                  (IsSane-if (key == key_home) (IsSane-like s (ends.0).in_view (moved _)) (
                    IsSane-if (key == key_mod_ctrl + key_home)
                      (IsSane-like s (corners.0).in_view (moved _))
                      (IsSane-if (key == key_end) (IsSane-like s (ends.1).in_view (moved _)) (
                        IsSane-if (key == key_mod_ctrl + key_end)
                          (IsSane-like s (corners.1).in_view (moved _))
                          (other_keys-IsSane key s))))))))))
