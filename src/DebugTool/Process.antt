-- ===== src/DebugTool/Process.antt =====
-- applets/DebugTool/DebugTool.c: the whole of `ProcessMessage`, and the applet under the runtime.
use betawise.Base.{ℕ, ◌+◌, ◌==◌, bit_and, Option, none, some, if◌then◌else◌}
use betawise.Keys.{key_g, key_i, key_mod_ctrl, msg_init, msg_setfocus, msg_char, msg_key}
use betawise.Console.{Console}
use betawise.Runtime.{bw_process_message}
use betawise.DebugTool.Dump.{Machine, Viewer}
use betawise.DebugTool.Messages.{on_init, on_setfocus, on_char, on_plain_key}
use betawise.DebugTool.Prompt.{go_to}
use betawise.DebugTool.Dialog.{call_dialog}

module _ (m : Machine) where
  -- MSG_KEY; 0xFFFFFDFF is `~KEY_MOD_CAPS_LOCK`.
  unfoldable pub on_key : ℕ → ℕ → Viewer → Option Viewer
  on_key fuel param v =
      let key = bit_and param 0xFFFFFDFF in
      if key == key_mod_ctrl + key_i
      then call_dialog m fuel v
      else if key == key_mod_ctrl + key_g
      then go_to m fuel v
      else some (on_plain_key m key v)

  -- `fuel` bounds the rounds of the two keys that wait for the user.
  unfoldable pub process_message : ℕ → ℕ → ℕ → Viewer → Option Viewer
  unfolding on_key
  process_message fuel message param v =
      if message == msg_init
      then some (on_init m v)
      else if message == msg_setfocus
      then some (on_setfocus m v)
      else if message == msg_char
      then some (on_char m param v)
      else if message == msg_key
      then on_key fuel param v
      else some v

  -- The applet under `BwProcessMessage`, which hands it the console.
  unfoldable pub as_applet : ℕ → ℕ → ℕ → Console → Viewer → Option (Console × Viewer)
  unfolding process_message
  as_applet fuel message param c v =
      elim (process_message fuel message param (record v { console = c })) [
        | none ↦ none
        | some w ↦ some (w.console, w)
      ]

  unfoldable pub handle : ℕ → ℕ → ℕ → Viewer → Option (Console × Viewer)
  unfolding as_applet bw_process_message
  handle fuel message param v = bw_process_message m.os (as_applet fuel) message param v.console v
