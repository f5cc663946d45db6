-- ===== src/DebugTool/Prompt.antt =====
-- applets/DebugTool/DebugTool.c: `NumberPrompt`, and Ctrl+G, which asks for an address.
use betawise.Base.{
  ℕ, zero, suc, ◌-◌, ◌==◌, bit_and, List, [], ◌∷◌, Option, none, some, length, get_or, set, Bool,
  true, false, if◌then◌else◌, u8,
}
use betawise.Keys.{key_esc}
use betawise.Os.{Event}
use betawise.Console.{call_moving, cursor_hide}
use betawise.DebugTool.Number.{number_from_string}
use betawise.DebugTool.Dump.{
  Machine, Viewer, TextReply, on_console, dump_set_address, dump_redraw_screen,
}

-- The string in an array: the bytes before its NUL.
abbrev pub c_string : List ℕ → List ℕ
c_string [] = []
c_string (c ∷ s) = if c == 0 then [] else c ∷ c_string s

-- `strcpy` into an array; nothing is written behind its end.
abbrev pub string_copy : List ℕ → List ℕ → List ℕ
string_copy str [] = []
string_copy [] (b ∷ array) = 0 ∷ array
string_copy (c ∷ str) (b ∷ array) = c ∷ string_copy str array

-- The three results of `NumberPrompt`: -2, -1 and 0. The number itself is not used.
pub data Prompted : Type 0 where
  cancelled refused accepted : Prompted

abbrev pub prompted : Option ℕ → Prompted
prompted none = refused
prompted (some n) = accepted

abbrev pub is_cancelled : Prompted → Bool
is_cancelled cancelled = true
is_cancelled _ = false

-- "Go to address: " and "0x".
abbrev pub go_to_text : List ℕ
go_to_text =
    b'G' ∷ b'o' ∷ b' ' ∷ b't' ∷ b'o' ∷ b' ' ∷ b'a' ∷ b'd' ∷ b'd' ∷ b'r' ∷ b'e' ∷ b's' ∷ b's' ∷ b':'
    ∷ b' ' ∷ []

abbrev pub hex_prefix : List ℕ
hex_prefix = b'0' ∷ b'x' ∷ []

module _ (m : Machine) where
  -- `NumberFromString` on the string in an array at address `base`.
  abbrev pub read_number : ℕ → List ℕ → Viewer → Option ℕ × Viewer
  read_number base array v =
      let (n, raw) =
        number_from_string m.tolower m.addresses base (c_string array) v.raw_sys_call in
      (n, record v { raw_sys_call = raw })

  -- The text box over the array, with the default text if the array holds none.
  unfoldable pub ask_text : List ℕ → List ℕ → ℕ → List ℕ → Viewer → TextReply × Viewer
  ask_text prompt array max_len default_text v =
      let start = if get_or array 0 0 == 0 then string_copy default_text array else array in
      let len = u8 (length (c_string start)) in
      let shown = on_console m (call_moving m.os (Event.put_string_raw prompt)) v in
      let asked = on_console m (call_moving m.os (Event.text_box start len (max_len - 1))) shown in
      (m.text_box asked.console.history start len (max_len - 1), asked)

  -- `NumberPrompt` on an array at address `base`: result, array, state. A text that Escape leaves is not
  -- ended by a NUL.
  unfoldable pub number_prompt :
      List ℕ → ℕ → List ℕ → ℕ → List ℕ → Viewer → Prompted × List ℕ × Viewer
  unfolding ask_text
  number_prompt prompt base array max_len default_text v =
      let (reply, asked) = ask_text prompt array max_len default_text v in
      if bit_and (u8 reply.exit_key) 0xFDFF == key_esc
      then (cancelled, reply.buffer, asked)
      else (let ended = set reply.buffer (u8 reply.len) 0 in
          let (n, read) = read_number base ended asked in (prompted n, ended, read))

  -- The row is cleared and the prompt shown there.
  unfoldable pub ask_address : List ℕ → Viewer → Prompted × List ℕ × Viewer
  ask_address array v =
      let last = if v.is_as3000 then 40 else 41 in
      let cleared = on_console m (call_moving m.os (Event.clear_row_cols 4 1 last)) v in
      let placed = on_console m (call_moving m.os (Event.set_cursor 4 1 cursor_hide)) cleared in
      number_prompt go_to_text m.addresses.local_buffer array 16 hex_prefix placed

  -- The loop of Ctrl+G, with fuel: it ends when a text is accepted, or with Escape.
  unfoldable pub go_to_loop : ℕ → List ℕ → Viewer → Option Viewer
  go_to_loop zero array v = none
  go_to_loop (suc fuel) array v =
      let (result, array', w) = ask_address array v in
      elim (is_cancelled result) [
        | true ↦ some w
        | false ↦
            let (n, read) = read_number m.addresses.local_buffer array' w in
            elim n [
              | some address ↦ some (dump_set_address address read)
              | none ↦ go_to_loop fuel array' read
            ]
      ]

  unfoldable pub go_to : ℕ → Viewer → Option Viewer
  go_to fuel v = elim (go_to_loop fuel (set m.stack_bytes 0 0) v) [
    | none ↦ none
    | some w ↦ some (dump_redraw_screen m w)
  ]
