-- ===== src/DebugTool/Closed/Dialog.antt =====
-- applets/DebugTool/DebugTool.c: what Ctrl+I keeps, for any property of the state that its steps keep.
use betawise.Base.{
  ℕ, zero, suc, ◌+◌, ◌≡◌, inl, inr, refl, arith, List, [], ◌∷◌, Option, none, some, Bool, true,
  false, Bool-cases, if◌then◌else◌, u8, leb, ltb, is_negative8, bit_and, ◌==◌, drop, get_or, length,
  length-set,
}
use mathlib.Core.Path.{subst}
use betawise.Keys.{key_esc, key_enter, key_c}
use betawise.Console.{clear_screen}
use betawise.Os.{Event}
use betawise.DebugTool.Dump.{Machine, Viewer, on_console}
use betawise.DebugTool.Dialog.{
  Round, left, again, called, unread, on_call, call_args, add_items, run_dialog, first_invalid,
  call_function, call_with, call_all, edit_buffer, dialog_round, dialog_loop, buffer_count,
  input_address, marker_of, id_of, item_keys, call_all_text,
}
use betawise.DebugTool.Prompt.{c_string, read_number}
use betawise.DebugTool.Closed.{Calls, keeps-if, number_prompt-keeps}

-- The property of what comes out of a round.
abbrev After : (Viewer → Type 0) → Round → Type 0
After P (left w) = P w
After P (again choice w) = P w
After P (called f args w) = P w
After P unread = Unit

After-if :
    (P : Viewer → Type 0) (b : Bool) (x y : Round)
    → After P x
    → After P y
    → After P (if b then x else y)
After-if P true x y px py = px
After-if P false x y px py = py

module _ (m : Machine) (P : Viewer → Type 0) (calls : Calls m P) where
  add_items-keeps : (i : ℕ) (bs : List (List ℕ)) (v : Viewer) → P v → P (add_items m i bs v).1
  unfolding add_items
  add_items-keeps i [] v p = p
  add_items-keeps i (b ∷ bs) v p =
      let base = input_address m.addresses.dialog_buffers i in
      let read = read_number m base (drop 1 b) v in
      let item =
        Event.dialog_add_item (c_string b) (u8 (length (c_string b))) (marker_of read.0)
          (id_of read.0) (get_or item_keys i 0) in
      add_items-keeps (i + 1) bs (on_call m item read.1)
        (calls.closed.called item read.1 (calls.closed.read base (drop 1 b) v p))

  run_dialog-keeps : (choice : ℕ) (v : Viewer) → P v → P (run_dialog m choice v).2
  unfolding run_dialog
  run_dialog-keeps choice v p =
      let begun = calls.closed.called (Event.dialog_init 0 1 4 40) v p in
      let with_enter = calls.closed.called (Event.dialog_add_exit_key key_enter) _ begun in
      let with_escape = calls.closed.called (Event.dialog_add_exit_key key_esc) _ with_enter in
      let listed = add_items-keeps 0 v.buffers _ with_escape in
      let full =
        calls.closed.called (Event.dialog_add_item call_all_text 14 0x10 0 key_c) _ listed in
      let chosen = calls.closed.called (Event.dialog_set_choice choice) _ full in
      calls.closed.moving Event.dialog_run _ (calls.closed.moving Event.dialog_draw _ chosen)

  first_invalid-keeps : (more choice : ℕ) (v : Viewer) → P v → P (first_invalid m more choice v).1
  unfolding first_invalid
  first_invalid-keeps zero choice v p = p
  first_invalid-keeps (suc more) choice v p =
      let asked = on_call m (Event.dialog_get_item_id choice) v in
      let q = calls.closed.called (Event.dialog_get_item_id choice) v p in
      elim (Bool-cases (m.os.dialog_item_id asked.console.history == 0)) [
        | inl valid ↦ rw (valid, first_invalid) (first_invalid-keeps more (choice + 1) asked q)
        | inr invalid ↦ rw (invalid, first_invalid) q
      ]

  edit_buffer-keeps : (choice : ℕ) (v : Viewer) → P v → P (edit_buffer m choice v)
  unfolding edit_buffer
  edit_buffer-keeps choice v p = calls.closed.buffered _ _ (length-set _ _ _) (
      number_prompt-keeps m P calls.closed _ _ _ _ _ _
        (calls.closed.moving _ _ (calls.closed.called Event.get_cursor_pos v p)))

  call_function-keeps :
      (key f : ℕ) (args : List ℕ) (v : Viewer) → P v → P (call_function m key f args v)
  unfolding call_function
  call_function-keeps key f args v p =
      let printed = calls.call_printed (f ∷ args) _ (calls.cleared v p) in
      let returned = calls.runs f args _ printed in
      calls.closed.called Event.wait_for_key _ (
        calls.result_printed _ _ (
          keeps-if P (bit_and key 0x0C00 == 0) _ _ returned
            (calls.closed.called Event.wait_for_key _ returned)))

  call_with-keeps :
      (key : ℕ) (c : Option (ℕ × List ℕ)) (v : Viewer) → P v → After P (call_with m key c v)
  unfolding call_with
  call_with-keeps key none v p = tt
  call_with-keeps key (some (f, args)) v p = call_function-keeps key f args v p

  call_all-keeps :
      (key : ℕ) (numbers : List (Option ℕ)) (v : Viewer) → P v → After P (call_all m key numbers v)
  unfolding call_all
  call_all-keeps key numbers v p =
      let c = first_invalid m buffer_count 1 v in
      let q = first_invalid-keeps buffer_count 1 v p in
      After-if P (leb c.0 buffer_count) (again c.0 c.1) (call_with m key (call_args numbers) c.1) q
        (call_with-keeps key (call_args numbers) c.1 q)

  dialog_round-keeps : (choice : ℕ) (v : Viewer) → P v → After P (dialog_round m choice v)
  unfolding dialog_round
  dialog_round-keeps choice v p =
      let (numbers, key, run) = run_dialog m choice v in
      let asked = on_call m Event.dialog_get_choice run in
      let picked = u8 (m.os.dialog_choice asked.console.history) in
      let asked' = on_call m Event.dialog_get_choice asked in
      let choice' = u8 (m.os.dialog_choice asked'.console.history) in
      let all = call_all m key numbers asked in
      let edited = again choice' (edit_buffer m choice' asked') in
      let is_all = if is_negative8 picked then false else ltb buffer_count picked in
      let q = run_dialog-keeps choice v p in
      let q' = calls.closed.called Event.dialog_get_choice run q in
      After-if P (key == key_esc) (left run) (if is_all then all else edited) q (
        After-if P is_all all edited (call_all-keeps key numbers asked q')
          (edit_buffer-keeps choice' asked' (calls.closed.called Event.dialog_get_choice asked q')))

  pub dialog_round-again :
      (choice : ℕ) (v : Viewer) (c : ℕ) (u : Viewer)
      → dialog_round m choice v ≡ again c u
      → P v
      → P u
  dialog_round-again choice v c u e p = subst (After P) e (dialog_round-keeps choice v p)

  dialog_loop-keeps :
      (fuel choice : ℕ) (v w : Viewer) → dialog_loop m fuel choice v ≡ some w → P v → P w
  unfolding dialog_loop
  dialog_loop-keeps zero choice v w e p = cc
  dialog_loop-keeps (suc fuel) choice v w e p =
      after (dialog_round m choice v) refl (dialog_round-keeps choice v p)
        (λ c u. dialog_loop-keeps fuel c u w)
    where
      after :
          (r : Round)
          → dialog_round m choice v ≡ r
          → After P r
          → ((c : ℕ) (u : Viewer) → dialog_loop m fuel c u ≡ some w → P u → P w)
          → P w
      after (left u) er q rec = let e' : u ≡ w = ground arith in subst P e' q
      after (again c u) er q rec =
          let e' : dialog_loop m fuel c u ≡ some w = ground arith in rec c u e' q
      after (called f args u) er q rec = let e' : u ≡ w = ground arith in subst P e' q
      after unread er q rec = ground arith

  -- The loop of Ctrl+I, begun on a cleared screen, when it ends.
  pub dialog-keeps :
      (fuel : ℕ) (v w : Viewer)
      → dialog_loop m fuel 1 (on_console m (clear_screen m.os) v) ≡ some w
      → P v
      → P w
  dialog-keeps fuel v w e p = dialog_loop-keeps fuel 1 _ w e (calls.cleared v p)
