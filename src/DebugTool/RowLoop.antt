-- ===== src/DebugTool/RowLoop.antt =====
-- applets/DebugTool/DebugTool.c: the loop of `DumpRedrawScreen` with its counter, a `char`.
use betawise.Base.{
  ℕ, zero, suc, ◌+◌, ◌≤◌, ◌<◌, ◌≡◌, ◌⊎◌, inl, inr, refl, arith, ap, Option, none, some, true, false,
  Bool-cases, leb, ◌||◌, if◌then◌else◌, u8, u32, is_negative8,
}
use betawise.DebugTool.Dump.{Machine, Viewer, bytes_per_row, dump_redraw_row, redraw_rows}
use betawise.DebugTool.Frame.{Draws-row}

module _ (m : Machine) where
  -- `for(char row = …; row <= g_rowsPerScreen; row++)`, with fuel for the tests of its condition. A `char` from 128 on is
  -- negative, and `SetCursor` takes it as the byte that it is.
  unfoldable pub redraw_loop : ℕ → ℕ → ℕ → Viewer → Option Viewer
  redraw_loop zero row a v = none
  redraw_loop (suc fuel) row a v =
      let rest =
        redraw_loop fuel (u8 (row + 1)) (u32 (a + bytes_per_row)) (dump_redraw_row m row a v) in
      if is_negative8 row || leb row v.rows_per_screen then rest else some v

  same_rows :
      (row a : ℕ) (v : Viewer) → (dump_redraw_row m row a v).rows_per_screen ≡ v.rows_per_screen
  same_rows row a v = ap (λ (x : Viewer). x.rows_per_screen) (Draws-row m row a v)

  loop_ends :
      (left fuel row a : ℕ) (v : Viewer)
      → row + left ≡ v.rows_per_screen + 1
      → 1 ≤ row
      → v.rows_per_screen ≤ 126
      → left < fuel
      → redraw_loop fuel row a v ≡ some (redraw_rows m left row a v)
  unfolding redraw_loop redraw_rows
  loop_ends left zero row a v e h1 h2 h3 = absurd (omega arith)
  loop_ends zero (suc fuel) row a v e h1 h2 h3 =
      let over : (is_negative8 row || leb row v.rows_per_screen) ≡ false = ground arith in
      rw over refl
  loop_ends (suc left) (suc fuel) row a v e h1 h2 h3 =
      let more : (is_negative8 row || leb row v.rows_per_screen) ≡ true = ground arith in
      let next : u8 (row + 1) ≡ row + 1 = omega arith in
      let same = same_rows row a v in
      rw (more, next)
        (loop_ends left fuel (row + 1) (u32 (a + bytes_per_row)) (dump_redraw_row m row a v)
          (omega (arith, same)) (omega arith) (omega (arith, same)) (omega arith))

  loop_goes_on :
      (fuel row a : ℕ) (v : Viewer)
      → row < 256
      → 127 ≤ v.rows_per_screen
      → redraw_loop fuel row a v ≡ none
  unfolding redraw_loop
  loop_goes_on zero row a v h1 h2 = refl
  loop_goes_on (suc fuel) row a v h1 h2 =
      let more : (is_negative8 row || leb row v.rows_per_screen) ≡ true = ground arith in
      let same = same_rows row a v in
      rw more (
        loop_goes_on fuel (u8 (row + 1)) (u32 (a + bytes_per_row)) (dump_redraw_row m row a v)
          (omega arith) (omega (arith, same)))

  -- The loop of `DumpRedrawScreen` from its first row on. On a screen of at most 126 rows it ends, with one test of its
  -- condition more than rows, and each row has been redrawn, in order, once. On one of 127 rows or more its counter is never
  -- above the rows, and it does not end, whatever the fuel.
  pub redraw_loop_lem :
      (more a : ℕ) (v : Viewer)
      → ((v.rows_per_screen ≤ 126)
          × (redraw_loop (v.rows_per_screen + 1 + more) 1 a v
              ≡ some (redraw_rows m v.rows_per_screen 1 a v)))
        ⊎ ((127 ≤ v.rows_per_screen) × (redraw_loop more 1 a v ≡ none))
  redraw_loop_lem more a v = elim (Bool-cases (leb v.rows_per_screen 126)) [
    | inl few ↦ inl (
      ground arith,
      loop_ends v.rows_per_screen _ 1 a v (omega arith) (omega arith) (ground arith) (omega arith),
    )
    | inr many ↦ inr (ground arith, loop_goes_on more 1 a v (omega arith) (ground arith))
  ]
