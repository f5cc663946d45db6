-- ===== src/DebugTool/Dialog.antt =====
-- applets/DebugTool/DebugTool.c: Ctrl+I, the dialog that calls a function with six arguments.
use betawise.Base.{
  ℕ, zero, suc, ◌+◌, ◌*◌, ◌==◌, ltb, leb, bit_and, List, [], ◌∷◌, Option, none, some, length, drop,
  get_or, set, true, false, if◌then◌else◌, u8, u32, is_negative8,
}
use betawise.Keys.{key_esc, key_enter, key_f, key_1, key_2, key_3, key_4, key_5, key_6, key_c}
use betawise.Os.{Event}
use betawise.Console.{call, call_moving, clear_screen, cursor_hide}
use betawise.DebugTool.Dump.{Machine, Viewer, on_console, dump_redraw_screen}
use betawise.DebugTool.Prompt.{c_string, hex_prefix, read_number, number_prompt}

-- BUFFER_COUNT, BUFFER_INPUT and BUFFER_SIZE.
abbrev pub buffer_count : ℕ
buffer_count = 7

abbrev pub buffer_input : ℕ
buffer_input = 13

abbrev pub buffer_size : ℕ
buffer_size = 16

-- "all f(1,2,...)", and "!".
abbrev pub call_all_text : List ℕ
call_all_text =
    b'a' ∷ b'l' ∷ b'l' ∷ b' ' ∷ b'f' ∷ b'(' ∷ b'1' ∷ b',' ∷ b'2' ∷ b',' ∷ b'.' ∷ b'.' ∷ b'.' ∷ b')'
    ∷ []

abbrev pub call_prefix : List ℕ
call_prefix = b'!' ∷ []

-- `keys`.
abbrev pub item_keys : List ℕ
item_keys = key_f ∷ key_4 ∷ key_1 ∷ key_5 ∷ key_2 ∷ key_6 ∷ key_3 ∷ []

-- The address of `g_buffer[i] + 1`.
abbrev pub input_address : ℕ → ℕ → ℕ
input_address buffers i = u32 (buffers + buffer_size * i + 1)

-- The id of an item: 0 if its number was read.
abbrev pub id_of : Option ℕ → ℕ
id_of (some n) = 0
id_of none = 1

abbrev pub marker_of : Option ℕ → ℕ
marker_of (some n) = b' '
marker_of none = 0xD7

-- The function and its six arguments, from the seven numbers; `none` stands for one that was not read.
abbrev pub call_args : List (Option ℕ) → Option (ℕ × List ℕ)
call_args (some s0 ∷ some s1 ∷ some s2 ∷ some s3 ∷ some s4 ∷ some s5 ∷ some s6 ∷ []) =
    some (s0, s2 ∷ s4 ∷ s6 ∷ s1 ∷ s3 ∷ s5 ∷ [])
call_args _ = none

-- How a round of the dialog's loop ends: with Escape; with the next round at a choice; with the call made;
-- with a call on a number that was not read.
pub data Round : Type 0 where
  left : Viewer → Round
  again : ℕ → Viewer → Round
  called : ℕ → List ℕ → Viewer → Round
  unread : Round

-- The bytes of an array with those from index `i` on replaced.
abbrev pub with_tail : List ℕ → List ℕ → List ℕ
with_tail [] tail = []
with_tail (b ∷ array) tail = b ∷ tail

module _ (m : Machine) where
  abbrev pub on_call : Event → Viewer → Viewer
  on_call e v = on_console m (call e) v

  -- The items for the buffers from the `i`-th on, with the numbers in them.
  unfoldable pub add_items : ℕ → List (List ℕ) → Viewer → List (Option ℕ) × Viewer
  add_items i [] v = ([], v)
  add_items i (b ∷ bs) v =
      let len = u8 (length (c_string b)) in
      let (n, read) = read_number m (input_address m.addresses.dialog_buffers i) (drop 1 b) v in
      let added =
        on_call
          (Event.dialog_add_item (c_string b) len (marker_of n) (id_of n) (get_or item_keys i 0))
          read in
      let (ns, w) = add_items (i + 1) bs added in (n ∷ ns, w)

  -- The dialog is made, drawn and run; the numbers in the buffers, and the key that ended it.
  unfoldable pub run_dialog : ℕ → Viewer → List (Option ℕ) × ℕ × Viewer
  unfolding add_items
  run_dialog choice v =
      let started =
        on_call (Event.dialog_add_exit_key key_esc) (
          on_call (Event.dialog_add_exit_key key_enter) (on_call (Event.dialog_init 0 1 4 40) v)) in
      let (numbers, listed) = add_items 0 v.buffers started in
      let full = on_call (Event.dialog_add_item call_all_text 14 0x10 0 key_c) listed in
      let drawn =
        on_console m (call_moving m.os Event.dialog_draw)
          (on_call (Event.dialog_set_choice choice) full) in
      let run = on_console m (call_moving m.os Event.dialog_run) drawn in
      (numbers, bit_and (m.os.dialog_key run.console.history) 0xFDFF, run)

  -- The loop over the ids: the first item that is not valid, or 8.
  unfoldable pub first_invalid : ℕ → ℕ → Viewer → ℕ × Viewer
  first_invalid zero choice v = (choice, v)
  first_invalid (suc more) choice v =
      let asked = on_call (Event.dialog_get_item_id choice) v in
      elim (m.os.dialog_item_id asked.console.history == 0) [
        | true ↦ first_invalid more (choice + 1) asked
        | false ↦ (choice, asked)
      ]

  -- The call, between the two texts about it; with Shift it waits for a key also before the second.
  unfoldable pub call_function : ℕ → ℕ → List ℕ → Viewer → Viewer
  call_function key f args v =
      let printed = on_console m (λ c. m.print_call (f ∷ args) (clear_screen m.os c)) v in
      let (result, returned) = m.run_code f args printed in
      let waited =
        if bit_and key 0x0C00 == 0 then returned else on_call Event.wait_for_key returned in
      on_call Event.wait_for_key (on_console m (m.print_result result) waited)

  unfoldable pub call_with : ℕ → Option (ℕ × List ℕ) → Viewer → Round
  unfolding call_function
  call_with key none v = unread
  call_with key (some (f, args)) v = called f args (call_function key f args v)

  -- The item "all": the call, unless an item is not valid, which becomes the choice.
  unfoldable pub call_all : ℕ → List (Option ℕ) → Viewer → Round
  unfolding first_invalid call_with
  call_all key numbers v =
      let (choice, asked) = first_invalid buffer_count 1 v in
      if leb choice buffer_count
      then again choice asked
      else call_with key (call_args numbers) asked

  -- Another item: its buffer is edited. `choice - 1` is an index, and no buffer has the index 255.
  unfoldable pub edit_buffer : ℕ → Viewer → Viewer
  edit_buffer choice v =
      let asked = on_call Event.get_cursor_pos v in
      let (row, col) = m.os.cursor_pos asked.console.history in
      let placed =
        on_console m (call_moving m.os (Event.set_cursor row (u8 (col + 6)) cursor_hide)) asked in
      let i = u8 (choice + 255) in
      let buffer = get_or placed.buffers i [] in
      let default_text =
        if (if is_negative8 choice then false else ltb 1 choice) then hex_prefix else call_prefix in
      let (result, tail, w) =
        number_prompt m [] (input_address m.addresses.dialog_buffers i) (drop 1 buffer) buffer_input
          default_text placed in
      record w { buffers = set w.buffers i (with_tail buffer tail) }

  unfoldable pub dialog_round : ℕ → Viewer → Round
  unfolding run_dialog call_all edit_buffer
  dialog_round choice v =
      let (numbers, key, run) = run_dialog choice v in
      if key == key_esc
      then left run
      else (let asked = on_call Event.dialog_get_choice run in
          let picked = u8 (m.os.dialog_choice asked.console.history) in
          if (if is_negative8 picked then false else ltb buffer_count picked)
          then call_all key numbers asked
          else (let asked' = on_call Event.dialog_get_choice asked in
              let choice' = u8 (m.os.dialog_choice asked'.console.history) in
              again choice' (edit_buffer choice' asked')))

  -- The loop, with fuel. `none` is no end, or a call on a number that was not read.
  unfoldable pub dialog_loop : ℕ → ℕ → Viewer → Option Viewer
  dialog_loop zero choice v = none
  dialog_loop (suc fuel) choice v = elim (dialog_round choice v) [
    | left w ↦ some w
    | again choice' w ↦ dialog_loop fuel choice' w
    | called f args w ↦ some w
    | unread ↦ none
  ]

  unfoldable pub call_dialog : ℕ → Viewer → Option Viewer
  call_dialog fuel v = elim (dialog_loop fuel 1 (on_console m (clear_screen m.os) v)) [
    | none ↦ none
    | some w ↦ some (dump_redraw_screen m w)
  ]
