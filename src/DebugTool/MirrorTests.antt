-- ===== src/DebugTool/MirrorTests.antt =====
-- applets/DebugTool/DebugTool.c on the console of os3k/os3k.c: the theorems on what the screen holds, at the sample viewer.
use betawise.Base.{
  ℕ, ◌-◌, ◌^◌, ◌≡◌, inl, inr, refl, arith, List, [], ◌∷◌, none, some, set, All, length, replicate,
  ltb, if◌then◌else◌,
}
use betawise.Keys.{msg_setfocus, msg_char, msg_key, key_down, key_clear_file, key_enter}
use betawise.Samples.{font, terminal, screen-Shows, screen-Measures}
use betawise.Console.Picture.{cell_at}
use betawise.Runtime.{choose_font}
use betawise.Runtime.Focus.{blank}
use betawise.DebugTool.Number.{hex_char_to_nibble, number_from_string, scan, scan_decimal, finish}
use betawise.DebugTool.Dump.{Machine, Viewer, nibble_hi, cursor_address, dump_redraw_screen}
use betawise.DebugTool.Messages.{on_char}
use betawise.DebugTool.Moves.{InView}
use betawise.DebugTool.Prompt.{go_to, ask_address, number_prompt, ask_text}
use betawise.DebugTool.GoTo.{AnswersAfter}
use betawise.DebugTool.Invariant.{IsSane}
use betawise.DebugTool.Invariant.Session.{session}
use betawise.DebugTool.Invariant.Resting.{IsResting}
use betawise.DebugTool.Redraw.{PrintsHex}
use betawise.DebugTool.Shown.{shown, dump_redraw_screen-Displays}
use betawise.DebugTool.Unwritable.{type_hex_lost}
use betawise.DebugTool.Mirror.{Fits, Mirrors}
use betawise.DebugTool.Mirror.Session.{IsQuiet, focused_session-Mirrors}
use betawise.DebugTool.Mirror.Prompts.{go_to_returns-Mirrors}
use betawise.DebugTool.Samples.{
  machine, last_byte, last_byte-IsSane, last_byte-HoldsBytes, last_byte-InView, ascii-LowersX,
  machine-PrintsHex,
}

-- Two digits are typed, the cursor goes down, and the scratch buffer is cleared.
abbrev messages : List (ℕ × ℕ)
messages =
    (msg_char, b'7') ∷ (msg_char, b'e') ∷ (msg_key, key_down) ∷ (msg_key, key_clear_file) ∷ []

messages_quiet : All IsQuiet messages
messages_quiet = ground arith

last_byte-IsResting : IsResting last_byte 8
last_byte-IsResting = record {
  aligned = refl;
  in_memory = omega arith;
  prev_fits = omega arith;
  cursor_in = omega arith;
  bytes = last_byte-HoldsBytes;
}

focused_session-Mirrors_example :
    (w : Viewer) × (session machine 1 ((msg_setfocus, 0) ∷ messages) last_byte ≡ some w)
    × IsSane w
    × Mirrors machine font (blank 8 44) w
unfolding choose_font
focused_session-Mirrors_example =
    focused_session-Mirrors machine 1 0 messages last_byte {f = font} machine-PrintsHex refl refl
      refl screen-Measures (inr refl) last_byte-IsResting messages_quiet

last_byte-Fits : Fits font terminal last_byte
last_byte-Fits = record { neo = refl; cols = refl; rows = refl; sized = screen-Shows.sized }

-- The user types "zz" first, and then "87".
abbrev two_texts : Machine
two_texts = record machine {
  text_box = λ h buffer len max. record {
    exit_key = key_enter;
    buffer =
        if ltb (length h) 5 then b'z' ∷ b'z' ∷ replicate 14 0 else b'8' ∷ b'7' ∷ replicate 14 0;
    len = 2;
  };
}

two_texts-PrintsHex : PrintsHex two_texts
two_texts-PrintsHex = record {
  of_byte = λ c h. (omega arith, refl);
  of_address = λ a. (omega arith, refl);
}

second_text : AnswersAfter two_texts 1 (some 87) (set two_texts.stack_bytes 0 0) last_byte
unfolding ask_address number_prompt ask_text number_from_string scan scan_decimal finish
second_text = (refl, refl, (refl, refl))

go_to_returns-Mirrors_example :
    (w : Viewer) × (go_to two_texts 2 last_byte ≡ some w)
    × (cursor_address w ≡ 87)
    × IsSane w
    × Mirrors two_texts font terminal w
go_to_returns-Mirrors_example =
    go_to_returns-Mirrors two_texts 1 2 (some 87) last_byte two_texts-PrintsHex ascii-LowersX
      (omega arith) second_text (omega arith) last_byte-IsSane last_byte-Fits

-- The last row, the second digit of its first byte.
dump_redraw_screen-Displays_example :
    cell_at font terminal (dump_redraw_screen machine last_byte).console.history 8 13
    ≡ shown font machine last_byte.memory (2 ^ 32 - 8) 13
dump_redraw_screen-Displays_example =
    dump_redraw_screen-Displays machine machine-PrintsHex font last_byte terminal 8 13
      last_byte-HoldsBytes refl refl refl (omega arith) (omega arith) (omega arith)
      screen-Shows.sized (omega arith) (omega arith) (omega arith) (omega arith)

-- The same viewer over memory that cannot be read.
abbrev no_bus : Viewer
no_bus = record last_byte { memory = λ a. none }

no_bus-InView : InView no_bus
no_bus-InView = let s = last_byte-InView in assumption s

type_hex_lost_example :
    let w = on_char machine b'e' (on_char machine b'7' no_bus) in
    InView w × (w.mode ≡ nibble_hi) × (cursor_address w ≡ 0) × ((a : ℕ) → w.memory a ≡ none)
unfolding hex_char_to_nibble
type_hex_lost_example =
    type_hex_lost machine b'7' b'e' 7 14 no_bus no_bus-InView refl (inl refl) refl refl
