-- ===== src/DebugTool/Leaves.antt =====
-- applets/DebugTool/DebugTool.c: Ctrl+I, until the user leaves the dialog or makes the call.
use betawise.Base.{ℕ, zero, suc, ◌<◌, ◌≡◌, ◌≢◌, refl, arith, List, length, some}
use betawise.Console.{clear_screen}
use betawise.DebugTool.Dump.{Machine, Viewer, on_console, dump_redraw_screen}
use betawise.DebugTool.Dialog.{
  Round, left, again, called, unread, dialog_round, dialog_loop, call_dialog, buffer_count,
}
use betawise.DebugTool.AllRead.{AnswersIds, dialog_round-reads}
use betawise.DebugTool.Closed.{Calls}
use betawise.DebugTool.Closed.Dialog.{dialog_round-again}

-- Each of the buffers is there; a call cannot take one away.
abbrev pub HasBuffers : Viewer → Type 0
HasBuffers v = length v.buffers ≡ buffer_count

abbrev pub KeepsBuffers : Machine → Type 0
KeepsBuffers m =
    (f : ℕ) (args : List ℕ) (v : Viewer) → HasBuffers v → HasBuffers (m.run_code f args v).1

module _ (m : Machine) where
  -- After `n` rounds that go on comes one that does not: the user leaves, or a call is made.
  abbrev pub LeavesAfter : ℕ → ℕ → Viewer → Type 0
  LeavesAfter zero choice v = (c : ℕ) (u : Viewer) → dialog_round m choice v ≢ again c u
  LeavesAfter (suc n) choice v =
      (c : ℕ) × (u : Viewer) × (dialog_round m choice v ≡ again c u) × LeavesAfter n c u

  HasBuffers-Calls : KeepsBuffers m → Calls m HasBuffers
  HasBuffers-Calls keeps = record {
    closed = record {
      called = λ e v h. h;
      moving = λ e v h. h;
      buffered = λ buffers v same h. omega (arith, same, h);
      read = λ base array v h. h;
    };
    cleared = λ v h. h;
    call_printed = λ values v h. h;
    result_printed = λ value v h. h;
    runs = keeps;
  }

  last_round :
      (fuel choice : ℕ) (v : Viewer)
      → dialog_round m choice v ≢ unread
      → ((c : ℕ) (u : Viewer) → dialog_round m choice v ≢ again c u)
      → (w : Viewer) × (dialog_loop m (suc fuel) choice v ≡ some w)
  unfolding dialog_loop
  last_round fuel choice v reads ends = by_round (dialog_round m choice v) refl
    where
      by_round :
          (r : Round)
          → dialog_round m choice v ≡ r
          → (w : Viewer) × (dialog_loop m (suc fuel) choice v ≡ some w)
      by_round (left w) e = (w, ground arith)
      by_round (called f args w) e = (w, ground arith)
      by_round (again c u) e = absurd (ends c u e)
      by_round unread e = absurd (reads e)

  loop_on :
      (fuel choice c : ℕ) (v u w : Viewer)
      → dialog_round m choice v ≡ again c u
      → dialog_loop m fuel c u ≡ some w
      → dialog_loop m (suc fuel) choice v ≡ some w
  unfolding dialog_loop
  loop_on fuel choice c v u w e e' = ground arith

  loop_returns :
      AnswersIds m.os
      → KeepsBuffers m
      → (n fuel choice : ℕ) (v : Viewer) → HasBuffers v
      → LeavesAfter n choice v
      → n < fuel
      → (w : Viewer) × (dialog_loop m fuel choice v ≡ some w)
  loop_returns answers keeps n zero choice v seven h lt = absurd (omega arith)
  loop_returns answers keeps zero (suc fuel) choice v seven h lt =
      last_round fuel choice v (dialog_round-reads m answers choice v seven) h
  loop_returns answers keeps (suc n) (suc fuel) choice v seven (c, u, e, h) lt =
      let seven' = dialog_round-again m HasBuffers (HasBuffers-Calls keeps) choice v c u e seven in
      let (w, ends) = loop_returns answers keeps n fuel c u seven' h (omega arith) in
      (w, loop_on fuel choice c v u w e ends)

  -- Ctrl+I returns.
  pub call_dialog_returns :
      AnswersIds m.os
      → KeepsBuffers m
      → (n fuel : ℕ) (v : Viewer) → HasBuffers v
      → LeavesAfter n 1 (on_console m (clear_screen m.os) v)
      → n < fuel
      → (w : Viewer) × (call_dialog m fuel v ≡ some w)
  unfolding call_dialog
  call_dialog_returns answers keeps n fuel v seven h lt =
      let (u, ends) = loop_returns answers keeps n fuel 1 _ seven h lt in
      (dump_redraw_screen m u, ground arith)
