-- ===== src/DebugTool/Navigation.antt =====
-- applets/DebugTool/DebugTool.c: what the movement keys do, on the whole of `ProcessMessage`'s switch.
use betawise.Base.{
  ℕ, ◌+◌, ◌-◌, ◌*◌, ◌%◌, ◌^◌, ◌≤◌, ◌<◌, ◌≡◌, refl, arith, ◌∙◌, ap, Bool, true, false,
}
use betawise.Keys.{key_left, key_right}
use betawise.DebugTool.Dump.{Mode, nibble_hi, nibble_lo, ascii, Machine, Viewer, cursor_address}
use betawise.DebugTool.Frame.{Draws, Draws-set_cursor_cur}
use betawise.DebugTool.Moves.{InView, InView-Draws, MovedTo, dump_move_cursor-MovedTo}
use betawise.DebugTool.Messages.{key_left_in, key_right_in, on_plain_key}

abbrev pub is_ascii : Mode → Bool
is_ascii ascii = true
is_ascii _ = false

-- The place of the cursor in memory, in nibbles, and the step of a key in them.
abbrev pub low_nibble_of : Mode → ℕ
low_nibble_of nibble_lo = 1
low_nibble_of _ = 0

abbrev pub position : Viewer → ℕ
position v = 2 * cursor_address v + low_nibble_of v.mode

abbrev pub step_of : Mode → ℕ
step_of ascii = 2
step_of _ = 1

-- The viewer `w` is in view, at nibble `p`, in the same half of the screen and with the same memory.
pub record At (p : ℕ) (v w : Viewer) : Type 0 where
  pub in_view : InView w
  pub position_eq : position w ≡ p
  pub same_half : is_ascii w.mode ≡ is_ascii v.mode
  pub same_memory : w.memory ≡ v.memory

-- From the viewer `u`, `v` with another mode, by a move or by drawing.
At-moved :
    (k : ℕ) {p : ℕ} {v u w : Viewer}
    → MovedTo k u w
    → 2 * ((u.address + k + 2 ^ 32 - 8) % 2 ^ 32) + low_nibble_of u.mode ≡ p
    → is_ascii u.mode ≡ is_ascii v.mode
    → u.memory ≡ v.memory
    → At p v w
At-moved k d e half memory = record {
  in_view = d.in_view;
  position_eq = rw (d.goes, d.same_mode) e;
  same_half = ap is_ascii d.same_mode ∙ half;
  same_memory = d.same_memory ∙ memory;
}

At-drawn :
    {p : ℕ} {v w : Viewer} (u : Viewer)
    → Draws u w
    → InView u
    → position u ≡ p
    → is_ascii u.mode ≡ is_ascii v.mode
    → u.memory ≡ v.memory
    → At p v w
At-drawn u d s e half memory = record {
  in_view = InView-Draws d s;
  position_eq = ap (λ (x : Viewer). position x) d ∙ e;
  same_half = ap (λ (x : Viewer). is_ascii x.mode) d ∙ half;
  same_memory = ap (λ (x : Viewer). x.memory) d ∙ memory;
}

module _ (m : Machine) where
  right_in :
      (mode : Mode) (v : Viewer)
      → v.mode ≡ mode
      → InView v
      → At ((position v + step_of v.mode) % 2 ^ 33) v (key_right_in m mode v)
  unfolding key_right_in
  right_in nibble_hi v e s =
      let u = record v { mode = nibble_lo } in
      At-drawn u (Draws-set_cursor_cur m u) (assumption s) (rw e (omega arith)) (rw e) refl
  right_in nibble_lo v e s =
      At-moved (v.cursor + 9)
        (dump_move_cursor-MovedTo m (v.cursor + 9) {v = record v { mode = nibble_hi }} (omega arith)
          (omega arith) (assumption s))
        (rw e (ground arith)) (rw e) refl
  right_in ascii v e s =
      At-moved (v.cursor + 9)
        (dump_move_cursor-MovedTo m (v.cursor + 9) {v = v} (omega arith) (omega arith) s)
        (rw e (ground arith)) refl refl

  left_in :
      (mode : Mode) (v : Viewer)
      → v.mode ≡ mode
      → InView v
      → At ((position v + 2 ^ 33 - step_of v.mode) % 2 ^ 33) v (key_left_in m mode v)
  unfolding key_left_in
  left_in nibble_lo v e s =
      let u = record v { mode = nibble_hi } in
      At-drawn u (Draws-set_cursor_cur m u) (assumption s) (rw e (omega arith)) (rw e) refl
  left_in nibble_hi v e s =
      At-moved (v.cursor + 7)
        (dump_move_cursor-MovedTo m (v.cursor + 7) {v = record v { mode = nibble_lo }} (omega arith)
          (omega arith) (assumption s))
        (rw e (ground arith)) (rw e) refl
  left_in ascii v e s =
      At-moved (v.cursor + 7)
        (dump_move_cursor-MovedTo m (v.cursor + 7) {v = v} (omega arith) (omega arith) s)
        (rw e (ground arith)) refl refl

  -- The right key, in view: one nibble on in the hexadecimal half of the screen, and one byte on in the
  -- text half, modulo the size of memory. The cursor stays in its half and in view, and memory as it is.
  pub key_right-At :
      {v : Viewer}
      → InView v
      → At ((position v + step_of v.mode) % 2 ^ 33) v (on_plain_key m key_right v)
  unfolding on_plain_key
  key_right-At {v} s = right_in v.mode v refl s

  -- The left key, in view: one nibble back in the hexadecimal half of the screen, and one byte back in the
  -- text half, modulo the size of memory. The cursor stays in its half and in view, and memory as it is.
  pub key_left-At :
      {v : Viewer}
      → InView v
      → At ((position v + 2 ^ 33 - step_of v.mode) % 2 ^ 33) v (on_plain_key m key_left v)
  unfolding on_plain_key
  key_left-At {v} s = left_in v.mode v refl s

  step_eq : (mode mode' : Mode) → is_ascii mode' ≡ is_ascii mode → step_of mode' ≡ step_of mode
  step_eq nibble_hi nibble_hi e = refl
  step_eq nibble_hi nibble_lo e = refl
  step_eq nibble_hi ascii e = cc
  step_eq nibble_lo nibble_hi e = refl
  step_eq nibble_lo nibble_lo e = refl
  step_eq nibble_lo ascii e = cc
  step_eq ascii nibble_hi e = cc
  step_eq ascii nibble_lo e = cc
  step_eq ascii ascii e = refl

  position-lt :
      (mode : Mode) (v : Viewer) → v.mode ≡ mode → (position v < 2 ^ 33) × (step_of v.mode ≤ 2)
  position-lt nibble_hi v e = rw e (omega arith)
  position-lt nibble_lo v e = rw e (omega arith)
  position-lt ascii v e = rw e (omega arith)

  -- In view, the left key after the right key: the cursor is back at its nibble, also across the end of
  -- memory, in its half of the screen and in view, with memory as it was.
  pub left_undoes_right :
      {v : Viewer}
      → InView v
      → At (position v) v (on_plain_key m key_left (on_plain_key m key_right v))
  left_undoes_right {v} s =
      let right = key_right-At s in
      let left = key_left-At right.in_view in
      record {
        in_view = left.in_view;
        position_eq = omega (
          arith,
          left.position_eq,
          right.position_eq,
          step_eq v.mode (on_plain_key m key_right v).mode right.same_half,
          position-lt v.mode v refl,
        );
        same_half = left.same_half ∙ right.same_half;
        same_memory = left.same_memory ∙ right.same_memory;
      }
