-- ===== src/DebugTool/Rows.antt =====
-- applets/DebugTool/DebugTool.c: the keys that move by rows and screens, and to their ends.
use betawise.Base.{
  ℕ, ◌+◌, ◌-◌, ◌*◌, ◌/◌, ◌%◌, ◌^◌, ◌<◌, ◌≡◌, ◌⊎◌, inl, inr, refl, arith, ◌∙◌, ap, u8, u16, u32,
  bit_and, bit_or, clear_low_three, set_low_three, clear_low_five, clear_low_six, set_low_five,
  set_low_six, low_three_bits, clear_three_bits,
}
use betawise.Keys.{key_up, key_down, key_home, key_end, key_mod_ctrl, key_backspace}
use betawise.DebugTool.Dump.{Machine, Viewer, cursor_address, dump_redraw_screen, dump_set_address}
use betawise.DebugTool.Frame.{Draws, Draws-screen}
use betawise.DebugTool.Moves.{InView, InView-Draws, MovedTo, dump_move_cursor-MovedTo}
use betawise.DebugTool.Messages.{on_plain_key}

-- The viewer `w` is in view, its cursor at address `a`, in the mode and with the memory of `v`.
pub record AtAddress (a : ℕ) (v w : Viewer) : Type 0 where
  pub in_view : InView w
  pub address_eq : cursor_address w ≡ a
  pub same_mode : w.mode ≡ v.mode
  pub same_memory : w.memory ≡ v.memory

address_moved :
    (k : ℕ) {a : ℕ} {v w : Viewer}
    → MovedTo k v w
    → (v.address + k + 2 ^ 32 - 8) % 2 ^ 32 ≡ a
    → AtAddress a v w
address_moved k d e = record {
  in_view = d.in_view;
  address_eq = d.goes ∙ e;
  same_mode = d.same_mode;
  same_memory = d.same_memory;
}

address_drawn :
    {a : ℕ} {v w : Viewer} (u : Viewer)
    → Draws u w
    → InView u
    → cursor_address u ≡ a
    → u.mode ≡ v.mode
    → u.memory ≡ v.memory
    → AtAddress a v w
address_drawn u d s e mode memory = record {
  in_view = InView-Draws d s;
  address_eq = ap (λ (x : Viewer). cursor_address x) d ∙ e;
  same_mode = ap (λ (x : Viewer). x.mode) d ∙ mode;
  same_memory = ap (λ (x : Viewer). x.memory) d ∙ memory;
}

module _ (m : Machine) {v : Viewer} (s : InView v) where
  -- Up and down, in view: the cursor goes one row of memory back or on, and with Ctrl one screen, modulo
  -- the size of memory, a screen being 8 bytes for each of its rows; it stays in view, and neither the mode nor memory changes.
  pub vertical_keys :
      AtAddress ((cursor_address v + 2 ^ 32 - 8) % 2 ^ 32) v (on_plain_key m key_up v)
      × AtAddress ((cursor_address v + 8) % 2 ^ 32) v (on_plain_key m key_down v)
      × AtAddress
          ((cursor_address v + 2 ^ 32 - v.bytes_per_screen) % 2 ^ 32)
          v
          (on_plain_key m (key_mod_ctrl + key_up) v)
      × AtAddress
          ((cursor_address v + v.bytes_per_screen) % 2 ^ 32)
          v
          (on_plain_key m (key_mod_ctrl + key_down) v)
  unfolding on_plain_key
  vertical_keys = (
    address_moved v.cursor
        (dump_move_cursor-MovedTo m v.cursor {v = v} (omega arith) (omega arith) s) (ground arith),
    address_moved (v.cursor + 16)
        (dump_move_cursor-MovedTo m (v.cursor + 16) {v = v} (omega arith) (omega arith) s)
        (ground arith),
    address_drawn back (Draws-screen m back) (ground arith) (ground arith) refl refl,
    address_drawn on (Draws-screen m on) (ground arith) (ground arith) refl refl,
  )
    where
      back : Viewer
      back = record v { address = u32 (v.address + 2 ^ 32 - v.bytes_per_screen) }

      on : Viewer
      on = record v { address = u32 (v.address + v.bytes_per_screen) }

  -- Home and End, in view: the cursor goes to the first and to the last byte of its row of memory, stays
  -- in view, and neither the mode nor memory changes.
  pub row_ends :
      AtAddress (cursor_address v / 8 * 8) v (on_plain_key m key_home v)
      × AtAddress (cursor_address v / 8 * 8 + 7) v (on_plain_key m key_end v)
  unfolding on_plain_key
  row_ends = (
    address_moved (v.cursor / 8 * 8 + 8)
        (dump_move_cursor-MovedTo m (v.cursor / 8 * 8 + 8) {v = v}
          (omega (arith, clear_low_three v.cursor (omega arith))) (omega arith) s)
        (ground arith),
    address_moved (v.cursor / 8 * 8 + 15)
        (dump_move_cursor-MovedTo m (v.cursor / 8 * 8 + 15) {v = v}
          (omega (arith, set_low_three v.cursor (omega arith))) (omega arith) s)
        (ground arith),
  )

  -- Ctrl with Home and with End, in view on a screen of 4 or of 8 rows: the cursor goes to the first and
  -- to the last byte of the screen, stays in view, and neither the mode nor memory changes.
  pub screen_ends :
      (v.rows_per_screen ≡ 4) ⊎ (v.rows_per_screen ≡ 8)
      → AtAddress v.address v (on_plain_key m (key_mod_ctrl + key_home) v)
        × AtAddress
            ((v.address + v.bytes_per_screen - 1) % 2 ^ 32)
            v
            (on_plain_key m (key_mod_ctrl + key_end) v)
  unfolding on_plain_key
  screen_ends rows = (
    address_moved 8 (dump_move_cursor-MovedTo m 8 {v = v} (first rows) (omega arith) s)
        (omega arith),
    address_moved (v.bytes_per_screen + 7)
        (dump_move_cursor-MovedTo m (v.bytes_per_screen + 7) {v = v} (last rows) (omega arith) s)
        (omega arith),
  )
    where
      first :
          (v.rows_per_screen ≡ 4) ⊎ (v.rows_per_screen ≡ 8)
          → u8 (bit_and v.cursor (u16 (2 ^ 16 - v.bytes_per_screen))) ≡ u8 (8 + 248)
      first (inl four) =
          let bytes : v.bytes_per_screen ≡ 32 = omega arith in
          rw bytes (ap (λ (x : ℕ). u8 x) (clear_low_five v.cursor (omega arith)))
      first (inr eight) =
          let bytes : v.bytes_per_screen ≡ 64 = omega arith in
          rw bytes (ap (λ (x : ℕ). u8 x) (clear_low_six v.cursor (omega arith)))

      last :
          (v.rows_per_screen ≡ 4) ⊎ (v.rows_per_screen ≡ 8)
          → u8 (bit_or v.cursor (u16 (v.bytes_per_screen + 65535)))
            ≡ u8 (v.bytes_per_screen + 7 + 248)
      last (inl four) =
          let bytes : v.bytes_per_screen ≡ 32 = omega arith in
          rw bytes (ap (λ (x : ℕ). u8 x) (set_low_five v.cursor (omega arith)))
      last (inr eight) =
          let bytes : v.bytes_per_screen ≡ 64 = omega arith in
          rw bytes (ap (λ (x : ℕ). u8 x) (set_low_six v.cursor (omega arith)))

-- `DumpSetAddress` of any 32-bit address, in view: the cursor is at that address, in view, and the address
-- where it was is remembered.
pub dump_set_address-InView :
    (addr : ℕ) {v : Viewer}
    → InView v
    → addr < 2 ^ 32
    → InView (dump_set_address addr v)
      × (cursor_address (dump_set_address addr v) ≡ addr)
      × ((dump_set_address addr v).prev_address ≡ cursor_address v)
unfolding dump_set_address
dump_set_address-InView addr {v} s h = (
  record {
    some_rows = s.some_rows;
    rows_fit = s.rows_fit;
    bytes_eq = s.bytes_eq;
    cursor_in = omega (arith, low_three_bits addr);
    aligned = omega (arith, clear_three_bits addr h);
    in_memory = omega (arith, clear_three_bits addr h);
  },
  ground (arith, low_three_bits addr, clear_three_bits addr h),
  refl,
)

jump :
    (m : Machine) (addr : ℕ) {v : Viewer}
    → InView v
    → addr < 2 ^ 32
    → let w = dump_redraw_screen m (dump_set_address addr v) in
      InView w × (cursor_address w ≡ addr) × (w.prev_address ≡ cursor_address v)
jump m addr {v} s h =
    let u = dump_set_address addr v in
    let set = dump_set_address-InView addr s h in
    (
      InView-Draws (Draws-screen m u) set.0,
      ap (λ (x : Viewer). cursor_address x) (Draws-screen m u) ∙ set.1,
      ap (λ (x : Viewer). x.prev_address) (Draws-screen m u) ∙ set.2,
    )

-- Backspace, in view: the cursor goes to the remembered 32-bit address, in view, and the address where it
-- was is remembered instead; a second Backspace comes back to it.
pub backspace_swaps :
    (m : Machine) {v : Viewer}
    → InView v
    → v.prev_address < 2 ^ 32
    → let w = on_plain_key m key_backspace v in
      InView w
      × (cursor_address w ≡ v.prev_address)
      × (w.prev_address ≡ cursor_address v)
      × (cursor_address (on_plain_key m key_backspace w) ≡ cursor_address v)
unfolding on_plain_key
backspace_swaps m {v} s h =
    let there = jump m v.prev_address s h in
    let back =
      jump m (dump_redraw_screen m (dump_set_address v.prev_address v)).prev_address there.0
        (omega (arith, there.2)) in
    (there.0, there.1, there.2, back.1 ∙ there.2)
