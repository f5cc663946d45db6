-- ===== src/DebugTool/Moves.antt =====
-- applets/DebugTool/DebugTool.c: moving the cursor. The window of memory on the screen follows it.
use betawise.Base.{
  ℕ, ◌+◌, ◌-◌, ◌*◌, ◌%◌, ◌^◌, ◌≤◌, ◌<◌, ◌≡◌, inl, inr, refl, arith, ◌∙◌, ap, true, false,
  Bool-cases, ltb, leb, u8, u16, u32, is_negative16, extend8_16,
}
use betawise.DebugTool.Dump.{Machine, Viewer, cursor_address, dump_move_cursor}
use betawise.DebugTool.Frame.{Draws, Draws-screen, Draws-set_cursor_cur}

-- The cursor is on the screen, and the window starts at a row of memory. There are at most 15 rows, so
-- that every offset one row around the screen is a `char`.
pub record InView (v : Viewer) : Type 0 where
  pub some_rows : 1 ≤ v.rows_per_screen
  pub rows_fit : v.rows_per_screen ≤ 14
  pub bytes_eq : v.bytes_per_screen ≡ 8 * v.rows_per_screen
  pub cursor_in : v.cursor < v.bytes_per_screen
  pub aligned : v.address % 8 ≡ 0
  pub in_memory : v.address < 2 ^ 32

-- Drawing does not matter to it.
pub InView-Draws : {v w : Viewer} → Draws v w → InView v → InView w
InView-Draws {v} {w} d s = rw d (assumption s)

-- What a move to offset `k - 8` from the window does to the state: `w` is the viewer after it.
pub record MovedTo (k : ℕ) (v w : Viewer) : Type 0 where
  pub in_view : InView w
  pub goes : cursor_address w ≡ (v.address + k + 2 ^ 32 - 8) % 2 ^ 32
  pub same_mode : w.mode ≡ v.mode
  pub same_memory : w.memory ≡ v.memory

MovedTo-Draws :
    {k : ℕ} {v w : Viewer} (v' : Viewer)
    → Draws v' w
    → InView v'
    → cursor_address v' ≡ (v.address + k + 2 ^ 32 - 8) % 2 ^ 32
    → v'.mode ≡ v.mode
    → v'.memory ≡ v.memory
    → MovedTo k v w
MovedTo-Draws v' d s goes mode memory = record {
  in_view = InView-Draws d s;
  goes = ap (λ (x : Viewer). cursor_address x) d ∙ goes;
  same_mode = ap (λ (x : Viewer). x.mode) d ∙ mode;
  same_memory = ap (λ (x : Viewer). x.memory) d ∙ memory;
}

-- `DumpMoveCursor`, in view, with the `char` of an offset of at most one row outside the screen: the
-- cursor then stands at the address of that offset (modulo 2 ^ 32), in view, the window having moved by a
-- row if it must. Neither the mode nor memory changes.
pub dump_move_cursor-MovedTo :
    (m : Machine) (k : ℕ) {c : ℕ} {v : Viewer}
    → c ≡ u8 (k + 248)
    → k < v.bytes_per_screen + 16
    → InView v
    → MovedTo k v (dump_move_cursor m c v)
unfolding dump_move_cursor
dump_move_cursor-MovedTo m k {c} {v} e h s = elim (Bool-cases (ltb k 8)) [
  | inl up ↦
      let at : c ≡ k + 248 = ground arith in
      let neg : is_negative16 (extend8_16 c) ≡ true = ground arith in
      rw neg (
        MovedTo-Draws {v = v} row_up (Draws-screen m row_up) (ground arith) (ground arith) refl
          refl)
  | inr low ↦
      let at : c + 8 ≡ k = ground arith in
      let neg : is_negative16 (extend8_16 c) ≡ false = ground arith in
      elim (Bool-cases (leb v.bytes_per_screen (extend8_16 c))) [
        | inl down ↦
            rw (neg, down)
              (MovedTo-Draws {v = v} row_down (Draws-screen m row_down) (ground arith)
                (ground arith) refl refl)
        | inr inside ↦
            rw (neg, inside)
              (MovedTo-Draws {v = v} stay (Draws-set_cursor_cur m stay) (ground arith)
                (ground arith) refl refl)
      ]
]
  where
    row_up : Viewer
    row_up = record v { address = u32 (v.address + 2 ^ 32 - 8); cursor = u16 (extend8_16 c + 8) }

    row_down : Viewer
    row_down = record v { address = u32 (v.address + 8); cursor = u16 (extend8_16 c + 2 ^ 16 - 8) }

    stay : Viewer
    stay = record v { cursor = extend8_16 c }
