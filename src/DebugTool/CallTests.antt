-- ===== src/DebugTool/CallTests.antt =====
-- applets/DebugTool/DebugTool.c: the theorems on Ctrl+I and on sessions with prompts, at the sample viewer.
use betawise.Base.{
  ℕ, ◌+◌, ◌≡◌, ◌≢◌, inr, refl, arith, ap, List, [], ◌∷◌, some, All, length, ltb, if◌then◌else◌,
  Bool, true, false,
}
use betawise.Keys.{msg_setfocus, msg_char, msg_key, key_down, key_enter, key_i, key_mod_ctrl}
use betawise.Os.{Os}
use betawise.Samples.{rom, font, terminal, screen-Shows, screen-Measures}
use betawise.Console.{Console, clear_screen, set_cursor, cursor_hide, set_cursor_font, place_cursor}
use betawise.Console.Terminal.{Terminal, goto}
use betawise.Console.Cursor.{set_cursor-Shows}
use betawise.DebugTool.Dump.{
  byte_text, ascii_char, dump_row, dump_col, dump_redraw_screen, dump_set_cursor_cur,
  dump_set_cursor, redraw_rows, dump_redraw_row, draw_bytes, dump_redraw_byte_ascii,
  dump_redraw_byte_hex, dump_write_and_redraw_cur, dump_write, dump_move_cursor, Machine, Viewer,
  on_console,
}
use betawise.DebugTool.Prompt.{number_prompt, ask_text}
use betawise.DebugTool.Number.{
  hex_char_to_nibble, number_from_string, scan, scan_decimal, scan_hex, finish,
}
use betawise.DebugTool.Dialog.{
  dialog_loop, call_function, Round, again, run_dialog, add_items, edit_buffer, call_all,
  first_invalid, call_with, dialog_round, call_dialog,
}
use betawise.DebugTool.AllRead.{AnswersIds}
use betawise.DebugTool.Leaves.{LeavesAfter}
use betawise.DebugTool.Invariant.{IsSane}
use betawise.Console.Stdio.{putchar, fputc, puts}
use betawise.DebugTool.Process.{handle, on_key}
use betawise.DebugTool.Messages.{on_char, type_char, on_setfocus, on_plain_key}
use betawise.Runtime.{call_sys_int, bw_process_message, prepare, choose_font}
use betawise.DebugTool.Invariant.Session.{session}
use betawise.DebugTool.Invariant.Prompts.{IsSane-beside}
use betawise.DebugTool.Redraw.{PrintsHex}
use betawise.DebugTool.Mirror.{Fits}
use betawise.DebugTool.Mirror.Calls.{
  CallsWell, SizedScrolled, rolled, MirrorsScrolled, call_dialog_returns-Mirrors,
}
use betawise.Runtime.Focus.{blank}
use betawise.DebugTool.Invariant.Resting.{IsResting}
use betawise.DebugTool.Mirror.Held.{IsHeld, held_session-Mirrors}
use betawise.DebugTool.Samples.{
  machine, last_byte, answer_id, answer_id-AnswersIds, seven_buffers, last_byte-IsSane,
  last_byte-HoldsBytes, ascii-LowersX,
}

-- The first item is edited, then the call is made.
abbrev user : Os
user = record rom {
  dialog_choice = λ h. if ltb (length h) 24 then 1 else 8;
  dialog_key = λ h. key_enter;
}

-- What a call prints scrolls the screen.
abbrev answering : Machine
answering = record machine {
  print_call = λ values. set_cursor rom 9 1 cursor_hide;
  print_result = λ value. set_cursor rom 9 1 cursor_hide;
  os = record user { dialog_item_id = answer_id };
}

answering-AnswersIds : AnswersIds answering.os
answering-AnswersIds = answer_id-AnswersIds user

goes_on : Round → Bool
goes_on (again c u) = true
goes_on _ = false

stops : (r : Round) → goes_on r ≡ false → (c : ℕ) (u : Viewer) → r ≢ again c u
unfolding goes_on
stops r h c u e = let on : goes_on r ≡ true = ap goes_on e in ground arith

makes_call :
    LeavesAfter answering 1 1 (on_console answering (clear_screen answering.os) seven_buffers)
unfolding dialog_round run_dialog add_items edit_buffer number_prompt ask_text number_from_string
    scan scan_decimal scan_hex finish clear_screen goes_on
makes_call = (1, _, refl, stops _ refl)

answering-PrintsHex : PrintsHex answering
answering-PrintsHex = record {
  of_byte = λ c h. (omega arith, refl);
  of_address = λ a. (omega arith, refl);
}

-- A grid of 8 rows of 44 characters.
abbrev grid : ℕ → ℕ → ℕ → Terminal
grid start row col = record { rows = 8; cols = 44; top = start; row = row; col = col }

-- Going to the row below the last scrolls the screen.
row_nine :
    (start row col : ℕ) (c : Console)
    → SizedScrolled font (grid start row col) c
    → SizedScrolled font (grid start row col) (set_cursor rom 9 1 cursor_hide c)
row_nine start row col c (top, s) =
    let t = rolled (grid start row col) top in
    let shows =
      set_cursor-Shows rom {t = t} {c = c} 9 1 cursor_hide refl refl s (omega arith) (omega arith)
        (omega arith) in
    let s' = shows.sized in ((goto 9 1 t).top, assumption s')

answering-CallsWell : (start row col : ℕ) → CallsWell answering font (grid start row col)
answering-CallsWell start row col = record {
  call_scrolls = λ values c s. row_nine start row col c s;
  result_scrolls = λ value c s. row_nine start row col c s;
  runs_well = λ address args v s h. (s, h);
}

seven_buffers-IsSane : IsSane seven_buffers
seven_buffers-IsSane =
    IsSane-beside last_byte.console last_byte.raw_sys_call seven_buffers.buffers last_byte-IsSane

seven_buffers-Fits : Fits font terminal seven_buffers
seven_buffers-Fits = record { neo = refl; cols = refl; rows = refl; sized = screen-Shows.sized }

call_dialog_returns-Mirrors_example :
    (w : Viewer) × (call_dialog answering 2 seven_buffers ≡ some w)
    × IsSane w
    × MirrorsScrolled answering font terminal w
call_dialog_returns-Mirrors_example =
    call_dialog_returns-Mirrors answering 1 2 seven_buffers {f = font} {t = terminal}
      answering-PrintsHex answering-AnswersIds (λ f args v h. h) (answering-CallsWell 7 8 45) refl
      makes_call (omega arith) seven_buffers-IsSane (7, seven_buffers-Fits)

abbrev later_messages : List (ℕ × ℕ)
later_messages = (msg_char, b'7') ∷ (msg_key, key_mod_ctrl + key_i) ∷ (msg_key, key_down) ∷ []

ended :
    (w : Viewer) × (session answering 2 ((msg_setfocus, 0) ∷ later_messages) seven_buffers ≡ some w)
unfolding handle call_dialog dialog_loop dialog_round on_char type_char on_setfocus
    dump_redraw_screen dump_set_cursor_cur dump_set_cursor redraw_rows call_sys_int dump_redraw_row
    draw_bytes dump_redraw_byte_ascii dump_redraw_byte_hex hex_char_to_nibble
    dump_write_and_redraw_cur dump_write dump_move_cursor on_key on_plain_key bw_process_message
    prepare choose_font run_dialog add_items edit_buffer number_prompt ask_text number_from_string
    scan scan_decimal scan_hex finish clear_screen call_all call_with first_invalid call_function
    set_cursor putchar fputc puts byte_text set_cursor_font place_cursor ascii_char dump_row
    dump_col
ended = (_, refl)

later-IsHeld : All IsHeld later_messages
later-IsHeld = ground arith

seven_buffers-IsResting : IsResting seven_buffers 8
seven_buffers-IsResting = record {
  aligned = refl;
  in_memory = omega arith;
  prev_fits = omega arith;
  cursor_in = omega arith;
  bytes = last_byte-HoldsBytes;
}

held_session-Mirrors_example : IsSane ended.0 × MirrorsScrolled answering font (blank 8 44) ended.0
unfolding choose_font
held_session-Mirrors_example =
    held_session-Mirrors answering 2 0 later_messages seven_buffers ended.0 {f = font}
      answering-PrintsHex ascii-LowersX (omega arith) (answering-CallsWell 0 1 1) refl refl refl
      screen-Measures (inr refl) seven_buffers-IsResting later-IsHeld ended.1
