-- ===== src/Applets.antt =====
-- applets/HelloWorld/HelloWorld.c and the wrapper applets/EhBASIC/wrapper.c: two applets that draw when they get the focus.
mod Focus
mod Tests
use betawise.Base.{ℕ, List, [], ◌∷◌, Option, some, ◌==◌, if◌then◌else◌}
use betawise.Keys.{msg_init, msg_setfocus}
use betawise.Os.{Os, Event}
use betawise.Console.{Console, call, clear_screen, cursor_show}
use betawise.Runtime.{bw_process_message}
use betawise.Probes.Screen.{start_screen, put_centered}

abbrev hello_text : List ℕ
hello_text = b'h' ∷ b'e' ∷ b'l' ∷ b'l' ∷ b'o' ∷ b',' ∷ b' ' ∷ b'w' ∷ b'o' ∷ b'r' ∷ b'l' ∷ b'd' ∷ []

module _ {S : Type 0} (os : Os) where
  -- The applet has no state of its own: `S` is passed through.
  unfoldable pub hello_message : ℕ → ℕ → Console → S → Console × S
  hello_message message param c s =
      if message == msg_setfocus
      then (put_centered os 1 hello_text (start_screen os c), s)
      else (c, s)

  unfoldable pub hello_handle : ℕ → ℕ → Console → S → Option (Console × S)
  unfolding hello_message bw_process_message
  hello_handle message param c s =
      bw_process_message os (λ message param c s. some (hello_message message param c s)) message
        param c s

-- EhBASIC_Init and EhBASIC_Resume, which are assembly.
pub record Basic (S : Type 0) : Type 0 where
  pub init : Console → S → Console × S
  pub resume : Console → S → Console × S

module _ {S : Type 0} (os : Os) (basic : Basic S) where
  unfoldable pub basic_message : ℕ → ℕ → Console → S → Console × S
  basic_message message param c s =
      if message == msg_init
      then basic.init c s
      else if message == msg_setfocus
      then basic.resume (call (Event.set_cursor_mode cursor_show) (clear_screen os c)) s
      else (c, s)

  unfoldable pub basic_handle : ℕ → ℕ → Console → S → Option (Console × S)
  unfolding basic_message bw_process_message
  basic_handle message param c s =
      bw_process_message os (λ message param c s. some (basic_message message param c s)) message
        param c s
