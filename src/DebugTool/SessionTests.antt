-- ===== src/DebugTool/SessionTests.antt =====
-- applets/DebugTool/DebugTool.c under os3k/os3k.c: the session's and the prompts' theorems at the sample viewer.
use betawise.Base.{ℕ, ◌≤◌, ◌≡◌, ◌≢◌, ◌⊎◌, none, inr, refl, arith, List, [], ◌∷◌, some, All, false}
use betawise.Keys.{msg_setfocus, msg_char, msg_key, key_down}
use betawise.Console.{Console}
use betawise.Console.Terminal.{Shows}
use betawise.Samples.{rom, font, screen-Measures}
use betawise.Runtime.{choose_font}
use betawise.Runtime.Focus.{blank}
use betawise.DebugTool.Dump.{Machine, Viewer, nibble_hi, redraw_rows}
use betawise.DebugTool.Dialog.{unread, dialog_round}
use betawise.DebugTool.Process.{handle}
use betawise.DebugTool.Startup.{cursor_of, setfocus-cursor}
use betawise.DebugTool.RowLoop.{redraw_loop, redraw_loop_lem}
use betawise.DebugTool.UnderCursor.{char_of}
use betawise.Console.Stdio.{glyph_address}
use betawise.Console.Picture.{glyph, cell_at}
use betawise.DebugTool.AllRead.{AnswersIds, dialog_round-reads}
use betawise.DebugTool.Invariant.{IsSane}
use betawise.DebugTool.Invariant.Session.{IsLater, prompts, session-IsSane, session_completes}
use betawise.DebugTool.Invariant.Resting.{IsResting}
use betawise.DebugTool.Samples.{
  machine, last_byte, answer_id, answer_id-AnswersIds, seven_buffers, last_byte-IsSane,
  last_byte-HoldsBytes, ascii-LowersX, machine-PrintsHex,
}

-- Two digits are typed, then the cursor goes down.
abbrev messages : List (ℕ × ℕ)
messages = (msg_char, b'7') ∷ (msg_char, b'e') ∷ (msg_key, key_down) ∷ []

messages-later : All IsLater messages
messages-later = omega arith

messages_quiet : All (λ p. prompts p ≡ false) messages
messages_quiet = (refl, (refl, (refl, tt)))

session-IsSane_example :
    IsSane (session_completes machine 1 messages last_byte messages-later messages_quiet).0
session-IsSane_example =
    session-IsSane machine ascii-LowersX (omega arith) (λ f args v s. s) 1 messages messages-later
      last_byte-IsSane
      (session_completes machine 1 messages last_byte messages-later messages_quiet).1

last_byte-IsResting : IsResting last_byte 8
last_byte-IsResting = record {
  aligned = refl;
  in_memory = omega arith;
  prev_fits = omega arith;
  cursor_in = omega arith;
  bytes = last_byte-HoldsBytes;
}

-- A ROM that answers the ids of the items that were added.
abbrev answering : Machine
answering = record machine { os = record rom { dialog_item_id = answer_id } }

answering-AnswersIds : AnswersIds answering.os
answering-AnswersIds = answer_id-AnswersIds rom

dialog_round-reads_example : dialog_round answering 8 seven_buffers ≢ unread
dialog_round-reads_example = dialog_round-reads answering answering-AnswersIds 8 seven_buffers refl

setfocus-cursor_example :
    let t = cursor_of 63 last_byte.mode (blank 8 44) in
    (c : Console) × (w : Viewer) × (handle machine 1 msg_setfocus 0 last_byte ≡ some (c, w))
    × Shows font t c
    × (cell_at font t c.history 8 33
        ≡ glyph (glyph_address font (char_of machine nibble_hi (some 0x5A))))
unfolding choose_font
setfocus-cursor_example =
    setfocus-cursor machine 1 0 last_byte {f = font} machine-PrintsHex refl refl refl
      screen-Measures (inr refl) last_byte-IsResting

redraw_loop_lem_example :
    ((last_byte.rows_per_screen ≤ 126)
      × (redraw_loop machine 12 1 0x4000 last_byte
          ≡ some (redraw_rows machine 8 1 0x4000 last_byte)))
    ⊎ ((127 ≤ last_byte.rows_per_screen) × (redraw_loop machine 3 1 0x4000 last_byte ≡ none))
redraw_loop_lem_example = redraw_loop_lem machine 3 0x4000 last_byte
