-- ===== src/DebugTool/Mirror/Keys.antt =====
-- applets/DebugTool/DebugTool.c on the console of os3k/os3k.c: the screen and memory agree after every
-- key but those that prompt and the one that shows the battery.
use betawise.Base.{ℕ, ◌+◌, ◌^◌, ◌<◌, ◌≡◌, inl, inr, false, Option-cases, bit_and, ◌==◌}
use betawise.Keys.{
  key_left, key_right, key_up, key_down, key_home, key_end, key_mod_ctrl, key_mod_leftshift,
  key_mod_rightshift, key_mod_cmd, key_backspace, key_g, key_r, key_b, key_clear_file,
}
use betawise.Os.{Font}
use betawise.Console.Terminal.{Terminal}
use betawise.DebugTool.Dump.{
  Mode, nibble_hi, nibble_lo, ascii, Machine, Viewer, cursor_address, dump_redraw_screen,
  dump_move_cursor, dump_set_address,
}
use betawise.DebugTool.Frame.{Draws-screen}
use betawise.DebugTool.Messages.{
  scratch_size, read_long, key_left_in, key_right_in, follow_pointer, clear_scratch, on_other_key,
  on_plain_key,
}
use betawise.DebugTool.Moves.{InView}
use betawise.DebugTool.Invariant.{
  IsSane, IsSane-like, IsLike-drawn, dump_move_cursor-IsLike, IsSane-mode, set_address-IsSane,
}
use betawise.DebugTool.Invariant.Keys.{read_long-lt, cleared-IsSane}
use betawise.DebugTool.Rows.{vertical_keys, row_ends, screen_ends}
use betawise.DebugTool.Redraw.{PrintsHex}
use betawise.DebugTool.Mirror.{Fits, Fits-set_address, Mirrors, cursor-Mirrors, screen-Mirrors}
use betawise.DebugTool.Mirror.Moves.{
  Mirrors-if, Mirrors-mode, moved_screen, move-Mirrors, next-Mirrors, previous-Mirrors,
}

module _ (m : Machine) (prints : PrintsHex m) {f : Font} {t : Terminal} where
  address-Mirrors :
      (addr : ℕ) {v : Viewer}
      → addr < 2 ^ 32
      → IsSane v
      → Fits f t v
      → Mirrors m f t (dump_redraw_screen m (dump_set_address addr v))
  address-Mirrors addr fits s h =
      screen-Mirrors m prints (set_address-IsSane addr s fits) (Fits-set_address addr h)

  follow_pointer-Mirrors :
      {v : Viewer} → IsSane v → Mirrors m f t v → Mirrors m f t (follow_pointer m v)
  unfolding follow_pointer
  follow_pointer-Mirrors {v} s h =
      Mirrors-if m f t (bit_and v.cursor 1 == 1) h
        (elim (Option-cases (read_long v.memory (cursor_address v))) [
          | inl error ↦ rw error (screen-Mirrors m prints s h.fits)
          | inr (n, read) ↦ rw read (address-Mirrors n (read_long-lt m _ _ n s.bytes read) s h.fits)
        ])

  -- The keys left and right.
  left-Mirrors :
      (mode : Mode) {v : Viewer} → IsSane v → Mirrors m f t v → Mirrors m f t (key_left_in m mode v)
  unfolding key_left_in
  left-Mirrors nibble_lo s h =
      cursor-Mirrors m prints (IsSane-mode m nibble_hi s) (Mirrors-mode m prints nibble_hi h)
  left-Mirrors nibble_hi s h =
      previous-Mirrors m prints (IsSane-mode m nibble_lo s) (Mirrors-mode m prints nibble_lo h)
  left-Mirrors ascii s h = previous-Mirrors m prints s h

  right-Mirrors :
      (mode : Mode) {v : Viewer}
      → IsSane v
      → Mirrors m f t v
      → Mirrors m f t (key_right_in m mode v)
  unfolding key_right_in
  right-Mirrors nibble_hi s h =
      cursor-Mirrors m prints (IsSane-mode m nibble_lo s) (Mirrors-mode m prints nibble_lo h)
  right-Mirrors nibble_lo s h =
      next-Mirrors m prints (IsSane-mode m nibble_hi s) (Mirrors-mode m prints nibble_hi h)
  right-Mirrors ascii s h = next-Mirrors m prints s h

  other_keys-Mirrors :
      (key : ℕ) {v : Viewer}
      → (key == key_mod_ctrl + key_mod_cmd + key_b) ≡ false
      → IsSane v
      → Mirrors m f t v
      → Mirrors m f t (on_other_key m key v)
  unfolding on_other_key
  other_keys-Mirrors key {v} quiet s h =
      let cleared = record v {
        memory = clear_scratch m scratch_size m.addresses.scratch v.memory;
      } in
      rw quiet (
        Mirrors-if m f t (key == key_mod_ctrl + key_mod_leftshift + key_g)
          (follow_pointer-Mirrors s h)
          (Mirrors-if m f t (key == key_mod_ctrl + key_mod_rightshift + key_g)
            (follow_pointer-Mirrors s h)
            (Mirrors-if m f t (key == key_backspace)
              (address-Mirrors v.prev_address s.prev_fits s h.fits)
              (Mirrors-if m f t (key == key_mod_ctrl + key_r) (screen-Mirrors m prints s h.fits) (
                Mirrors-if m f t (key == key_clear_file)
                  (screen-Mirrors m prints {v = cleared} (cleared-IsSane m s) (record {
                    neo = h.fits.neo;
                    cols = h.fits.cols;
                    rows = h.fits.rows;
                    sized = h.fits.sized;
                  }))
                  h)))))

  -- Every key that does not prompt, but for Ctrl+Cmd+B.
  pub on_plain_key-Mirrors :
      (key : ℕ) {v : Viewer}
      → (key == key_mod_ctrl + key_mod_cmd + key_b) ≡ false
      → IsSane v
      → Mirrors m f t v
      → Mirrors m f t (on_plain_key m key v)
  unfolding on_plain_key
  on_plain_key-Mirrors key {v} quiet s h =
      let view = s.in_view in
      let vertical = vertical_keys m {v = v} view in
      let ends = row_ends m {v = v} view in
      let corners = screen_ends m {v = v} view s.rows in
      let moved = λ (c : ℕ) (view' : InView (dump_move_cursor m c v)).
        move-Mirrors m prints c (IsSane-like s view' (dump_move_cursor-IsLike m c v)) h in
      let paged =
        λ (address : ℕ) (view' : InView (dump_redraw_screen m (record v { address = address }))).
          let u = record v { address = address } in
          moved_screen m prints address v.cursor
            (IsSane-like s view' (IsLike-drawn address v.cursor v.mode v (Draws-screen m u))) h in
      Mirrors-if m f t (key == key_left) (left-Mirrors v.mode s h) (
        Mirrors-if m f t (key == key_right) (right-Mirrors v.mode s h) (
          Mirrors-if m f t (key == key_up) (moved _ (vertical.0).in_view) (
            Mirrors-if m f t (key == key_mod_ctrl + key_up) (paged _ (vertical.2).in_view) (
              Mirrors-if m f t (key == key_down) (moved _ (vertical.1).in_view) (
                Mirrors-if m f t (key == key_mod_ctrl + key_down) (paged _ (vertical.3).in_view) (
                  Mirrors-if m f t (key == key_home) (moved _ (ends.0).in_view) (
                    Mirrors-if m f t (key == key_mod_ctrl + key_home) (moved _ (corners.0).in_view)
                      (Mirrors-if m f t (key == key_end) (moved _ (ends.1).in_view) (
                        Mirrors-if m f t (key == key_mod_ctrl + key_end)
                          (moved _ (corners.1).in_view) (other_keys-Mirrors key quiet s h))))))))))
