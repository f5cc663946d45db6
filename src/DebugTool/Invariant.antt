-- ===== src/DebugTool/Invariant.antt =====
-- applets/DebugTool/DebugTool.c: the invariant of the viewer, on the characters and the keys that do not
-- prompt.
pub mod Keys
pub mod Prompts
pub mod Calls
pub mod Session
pub mod Resting
use betawise.Base.{
  ℕ, zero, suc, ◌+◌, ◌-◌, ◌*◌, ◌/◌, ◌%◌, ◌^◌, ◌≤◌, ◌<◌, ◌≡◌, ◌⊎◌, inl, inr, refl, sym, arith, ◌∙◌,
  ap, Option, none, some, Bool, true, false, Bool-cases, Option-cases, if◌then◌else◌, u8, u16, u32,
  bit_and, bit_or, ◌==◌, ◌&&◌, ltb, leb, bit_and-zero, bit_or-zero, low_nibble, high_nibble,
  bit_or_lt_byte, is_negative16, extend8_16,
}
use mathlib.Core.Path.{subst}
use betawise.Keys.{
  key_left, key_right, key_up, key_down, key_home, key_end, key_mod_ctrl, key_mod_leftshift,
  key_mod_rightshift, key_mod_cmd, key_backspace, key_g, key_r, key_b, key_clear_file,
}
use betawise.DebugTool.Number.{hex_char_to_nibble}
use betawise.DebugTool.Dump.{
  Mode, nibble_hi, nibble_lo, ascii, Machine, Viewer, cursor_address, store, dump_write,
  dump_write_and_redraw_cur, dump_move_cursor, dump_set_cursor_cur, dump_redraw_screen,
  dump_set_address,
}
use betawise.DebugTool.Frame.{Draws, Draws-trans, Draws-screen, Draws-set_cursor_cur}
use betawise.DebugTool.Moves.{InView, InView-Draws, dump_move_cursor-MovedTo}
use betawise.DebugTool.Messages.{
  read_long, type_char, on_char, key_left_in, key_right_in, follow_pointer, clear_scratch,
  on_plain_key,
}
use betawise.DebugTool.Navigation.{key_left-At, key_right-At}
use betawise.DebugTool.Rows.{
  vertical_keys, row_ends, screen_ends, backspace_swaps, dump_set_address-InView,
}
use betawise.DebugTool.Typing.{Draws-write}

-- What can be read of memory is bytes.
abbrev pub HoldsBytes : (ℕ → Option ℕ) → Type 0
HoldsBytes memory = (a b : ℕ) → memory a ≡ some b → b < 256

-- The cursor is in view on a screen of 4 or of 8 rows, and memory holds bytes.
pub record IsSane (v : Viewer) : Type 0 where
  pub in_view : InView v
  pub rows : (v.rows_per_screen ≡ 4) ⊎ (v.rows_per_screen ≡ 8)
  pub prev_fits : v.prev_address < 2 ^ 32
  pub bytes : HoldsBytes v.memory

-- `w` has the screen's size, the remembered address and the memory of `v`.
pub record IsLike (v w : Viewer) : Type 0 where
  pub rows_eq : w.rows_per_screen ≡ v.rows_per_screen
  pub prev_eq : w.prev_address ≡ v.prev_address
  pub memory_eq : w.memory ≡ v.memory

pub IsSane-like : {v w : Viewer} → IsSane v → InView w → IsLike v w → IsSane w
IsSane-like {v} {w} s view l = record {
  in_view = view;
  rows = rw l.rows_eq s.rows;
  prev_fits = rw l.prev_eq s.prev_fits;
  bytes = rw l.memory_eq s.bytes;
}

-- Drawing after a change of the window, the cursor and the mode.
pub IsLike-drawn :
    (address cursor : ℕ) (mode : Mode) (v : Viewer) {w : Viewer}
    → Draws (record v { address = address; cursor = cursor; mode = mode }) w
    → IsLike v w
IsLike-drawn address cursor mode v d = record {
  rows_eq = ap (λ (x : Viewer). x.rows_per_screen) d;
  prev_eq = ap (λ (x : Viewer). x.prev_address) d;
  memory_eq = ap (λ (x : Viewer). x.memory) d;
}

pub IsSane-Draws : {v w : Viewer} → Draws v w → IsSane v → IsSane w
IsSane-Draws {v} d s =
    IsSane-like s (InView-Draws d s.in_view) (IsLike-drawn v.address v.cursor v.mode v d)

pub IsSane-if : (b : Bool) {x y : Viewer} → IsSane x → IsSane y → IsSane (if b then x else y)
IsSane-if true sx sy = sx
IsSane-if false sx sy = sy

pub HoldsBytes-store :
    (m : Machine) (p value : ℕ) {memory : ℕ → Option ℕ}
    → value < 256
    → HoldsBytes memory
    → HoldsBytes (store m p value memory)
HoldsBytes-store m p value h s a b e = ground (arith, s a b)

module _ (m : Machine) where
  pub dump_write-IsSane :
      (value mask : ℕ) {v : Viewer}
      → value < 256
      → ((b : ℕ) → b < 256 → bit_and b mask < 256)
      → IsSane v
      → IsSane (dump_write m value mask v)
  unfolding dump_write
  dump_write-IsSane value mask {v} hv hm s = elim (Option-cases (v.memory (cursor_address v))) [
    | inl error ↦
        let e : dump_write m value mask v ≡ (
            if mask == 0
            then record v { memory = store m (cursor_address v) value v.memory }
            else v) =
          ground arith in
        rw e (IsSane-if (mask == 0) (stored value hv) s)
    | inr (b, read) ↦
        let byte = bit_or (bit_and b mask) value in
        let e : dump_write m value mask v
            ≡ record v { memory = store m (cursor_address v) byte v.memory } =
          ground arith in
        rw e (
          stored byte
            (bit_or_lt_byte (bit_and b mask) value (hm b (s.bytes (cursor_address v) b read)) hv))
  ]
    where
      stored :
          (byte : ℕ)
          → byte < 256
          → IsSane (record v { memory = store m (cursor_address v) byte v.memory })
      stored byte h = record {
        in_view = assumption s.in_view;
        rows = s.rows;
        prev_fits = s.prev_fits;
        bytes = HoldsBytes-store m (cursor_address v) byte h s.bytes;
      }

  pub write-IsSane :
      (value mask : ℕ) {v : Viewer}
      → value < 256
      → ((b : ℕ) → b < 256 → bit_and b mask < 256)
      → IsSane v
      → IsSane (dump_write_and_redraw_cur m value mask v)
  write-IsSane value mask {v} hv hm s =
      IsSane-Draws {v = dump_write m value mask v} (Draws-write m value mask v)
        (dump_write-IsSane value mask hv hm s)

  -- The mode does not matter.
  pub IsSane-mode : {v : Viewer} (mode : Mode) → IsSane v → IsSane (record v { mode = mode })
  IsSane-mode mode s = record {
    in_view = assumption s.in_view;
    rows = s.rows;
    prev_fits = s.prev_fits;
    bytes = s.bytes;
  }

  pub cursor-IsSane : {v : Viewer} → IsSane v → IsSane (dump_set_cursor_cur m v)
  cursor-IsSane {v} s = IsSane-Draws {v = v} (Draws-set_cursor_cur m v) s

  pub screen-IsSane : {v : Viewer} → IsSane v → IsSane (dump_redraw_screen m v)
  screen-IsSane {v} s = IsSane-Draws {v = v} (Draws-screen m v) s

  pub dump_move_cursor-IsLike : (c : ℕ) (v : Viewer) → IsLike v (dump_move_cursor m c v)
  unfolding dump_move_cursor
  dump_move_cursor-IsLike c v = elim (Bool-cases (is_negative16 (extend8_16 c))) [
    | inl up ↦ rw up (IsLike-drawn _ _ v.mode v (Draws-screen m _))
    | inr low ↦ elim (Bool-cases (leb v.bytes_per_screen (extend8_16 c))) [
      | inl down ↦ rw (low, down) (IsLike-drawn _ _ v.mode v (Draws-screen m _))
      | inr inside ↦ rw (low, inside) (IsLike-drawn _ _ v.mode v (Draws-set_cursor_cur m _))
    ]
  ]

  move-IsSane :
      (k : ℕ) {c : ℕ} {v : Viewer}
      → c ≡ u8 (k + 248)
      → k < v.bytes_per_screen + 16
      → IsSane v
      → IsSane (dump_move_cursor m c v)
  move-IsSane k {c} {v} e h s =
      IsSane-like s (dump_move_cursor-MovedTo m k {v = v} e h s.in_view).in_view
        (dump_move_cursor-IsLike c v)

  -- To the next byte.
  pub next-IsSane : {v : Viewer} → IsSane v → IsSane (dump_move_cursor m (u8 (v.cursor + 1)) v)
  next-IsSane {v} s =
      let view = s.in_view in move-IsSane (v.cursor + 9) {v = v} (omega arith) (omega arith) s

  -- To the byte before.
  pub previous-IsSane :
      {v : Viewer} → IsSane v → IsSane (dump_move_cursor m (u8 (v.cursor + 255)) v)
  previous-IsSane {v} s =
      let view = s.in_view in move-IsSane (v.cursor + 7) {v = v} (omega arith) (omega arith) s

pub set_address-IsSane :
    (addr : ℕ) {v : Viewer} → IsSane v → addr < 2 ^ 32 → IsSane (dump_set_address addr v)
unfolding dump_set_address
set_address-IsSane addr {v} s h = record {
  in_view = (dump_set_address-InView addr s.in_view h).0;
  rows = s.rows;
  prev_fits = omega arith;
  bytes = s.bytes;
}
