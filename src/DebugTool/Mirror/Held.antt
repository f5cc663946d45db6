-- ===== src/DebugTool/Mirror/Held.antt =====
-- applets/DebugTool/DebugTool.c under os3k/os3k.c: the screen and memory agree while the viewer has the focus, the keys that
-- prompt included.
use betawise.Base.{
  ℕ, ◌+◌, ◌^◌, ◌<◌, ◌≡◌, ◌≢◌, ◌⊎◌, inl, inr, arith, List, [], ◌∷◌, some, false, Bool-cases,
  Option-cases, bit_and, ◌==◌, ◌&&◌, All,
}
use mathlib.Core.Path.{subst}
use betawise.Keys.{
  msg_init, msg_setfocus, msg_killfocus, msg_char, msg_key, key_mod_ctrl, key_mod_cmd, key_b, key_g,
  key_i,
}
use betawise.Os.{Event, Font}
use betawise.Console.{Console, call_moving}
use betawise.Console.Terminal.{Terminal}
use betawise.Runtime.{prepare, bw_process_message, choose_font}
use betawise.Runtime.Focus.{blank, Measures}
use betawise.DebugTool.Number.Reads.{LowersX}
use betawise.DebugTool.Dump.{Machine, Viewer}
use betawise.DebugTool.Messages.{on_char, on_plain_key}
use betawise.DebugTool.Prompt.{go_to}
use betawise.DebugTool.Dialog.{call_dialog}
use betawise.DebugTool.Process.{on_key, process_message, as_applet, handle}
use betawise.DebugTool.Invariant.{IsSane}
use betawise.DebugTool.Invariant.Session.{session}
use betawise.DebugTool.Invariant.Keys.{on_char-IsSane, on_plain_key-IsSane}
use betawise.DebugTool.Invariant.Prompts.{go_to-IsSane}
use betawise.DebugTool.Invariant.Resting.{IsResting}
use betawise.DebugTool.Redraw.{PrintsHex}
use betawise.DebugTool.Mirror.Typed.{on_char-Mirrors}
use betawise.DebugTool.Mirror.Keys.{on_plain_key-Mirrors}
use betawise.DebugTool.Mirror.Session.{setfocus-Mirrors}
use betawise.DebugTool.Mirror.Prompts.{go_to-Mirrors}
use betawise.DebugTool.Mirror.Calls.{MirrorsScrolled, CallsWell, rolled, call_dialog-Mirrors}

-- A message while the viewer has the focus that does not show the battery: none of MSG_INIT, MSG_SETFOCUS and MSG_KILLFOCUS,
-- nor the key Ctrl+Cmd+B.
abbrev pub IsHeld : ℕ × ℕ → Type 0
IsHeld (message, param) =
    (message ≢ msg_init)
    × (message ≢ msg_setfocus)
    × (message ≢ msg_killfocus)
    × ((message == msg_key && (bit_and param 0xFFFFFDFF == key_mod_ctrl + key_mod_cmd + key_b))
        ≡ false)

prepare_held :
    (m : Machine) (message param : ℕ) (c : Console)
    → IsHeld (message, param)
    → prepare m.os message c ≡ some c
unfolding prepare
prepare_held m message param c held = ground arith

module _ (m : Machine) (prints : PrintsHex m) (lowers : LowersX m.tolower)
    (raw_fits : m.addresses.raw_sys_call < 2 ^ 32) {f : Font} {t : Terminal}
    (well : CallsWell m f t) where
  -- Sane, and mirrored by the screen.
  abbrev Held : Viewer → Type 0
  Held v = IsSane v × MirrorsScrolled m f t v

  on_key-Held :
      (fuel param : ℕ) {v w : Viewer}
      → (bit_and param 0xFFFFFDFF == key_mod_ctrl + key_mod_cmd + key_b) ≡ false
      → on_key m fuel param v ≡ some w
      → Held v
      → Held w
  unfolding on_key
  on_key-Held fuel param {v} {w} battery e (s, (top, h)) =
      let key = bit_and param 0xFFFFFDFF in
      elim (Bool-cases (key == key_mod_ctrl + key_i)) [
        | inl dialog ↦
            let q : call_dialog m fuel v ≡ some w = ground arith in
            call_dialog-Mirrors m f t prints well fuel q s (top, h.fits)
        | inr other ↦ elim (Bool-cases (key == key_mod_ctrl + key_g)) [
          | inl prompt ↦
              let q : go_to m fuel v ≡ some w = ground arith in
              (
                go_to-IsSane m lowers raw_fits fuel q s,
                (top, go_to-Mirrors m f (rolled t top) prints lowers raw_fits fuel q s h.fits),
              )
          | inr plain ↦
              let q : on_plain_key m key v ≡ w = ground arith in
              subst Held q
                (on_plain_key-IsSane m key s, (top, on_plain_key-Mirrors m prints key battery s h))
        ]
      ]

  process_message-Held :
      (fuel message param : ℕ) {v w : Viewer}
      → IsHeld (message, param)
      → process_message m fuel message param v ≡ some w
      → Held v
      → Held w
  unfolding process_message
  process_message-Held fuel message param {v} {w} held e (s, (top, h)) =
      elim (Bool-cases (message == msg_char)) [
        | inl char ↦
            let q : on_char m param v ≡ w = ground arith in
            subst Held q (on_char-IsSane m param s, (top, on_char-Mirrors m prints param s h))
        | inr other ↦ elim (Bool-cases (message == msg_key)) [
          | inl pressed ↦
              let battery : (bit_and param 0xFFFFFDFF == key_mod_ctrl + key_mod_cmd + key_b)
                  ≡ false =
                ground arith in
              let q : on_key m fuel param v ≡ some w = ground arith in
              on_key-Held fuel param battery q (s, (top, h))
          | inr ignored ↦ let q : v ≡ w = ground arith in subst Held q (s, (top, h))
        ]
      ]

  -- Under the runtime, which does nothing of its own on such a message.
  handle_held :
      (fuel message param : ℕ) (v w : Viewer) (c : Console)
      → IsHeld (message, param)
      → handle m fuel message param v ≡ some (c, w)
      → process_message m fuel message param v ≡ some w
  unfolding handle as_applet bw_process_message
  handle_held fuel message param v w c held e =
      let ready = prepare_held m message param v.console held in
      elim (Option-cases (process_message m fuel message param v)) [
        | inl waits ↦ ground arith
        | inr (u, done) ↦ ground arith
      ]

  session-Held :
      (fuel : ℕ) (messages : List (ℕ × ℕ)) (v w : Viewer)
      → All IsHeld messages
      → session m fuel messages v ≡ some w
      → Held v
      → Held w
  session-Held fuel [] v w held e h = let q : v ≡ w = ground arith in subst Held q h
  session-Held fuel ((message, param) ∷ rest) v w held e h =
      elim (Option-cases (handle m fuel message param v)) [
        | inl waits ↦ ground arith
        | inr ((c, u), done) ↦
            let q : session m fuel rest u ≡ some w = ground arith in
            session-Held fuel rest u w held.1 q (
              process_message-Held fuel message param held.0
                (handle_held fuel message param v u c held.0 done) h)
      ]

-- MSG_SETFOCUS of the viewer on a NEO under the runtime, with a system font and a font then chosen that measures the LCD in
-- 44 columns and 4 or 8 rows, the window having been left at rest for them; then any messages but MSG_INIT, MSG_SETFOCUS,
-- MSG_KILLFOCUS and the key Ctrl+Cmd+B, Ctrl+G and Ctrl+I included. The assumptions are that sprintf makes printable text of 3
-- characters of a byte and of 9 of an address, that tolower makes an x of x and X only, that g_rawSysCall has a 32-bit address,
-- that what Ctrl+I prints may scroll the screen but leaves its font and size, and that the code it calls, in a sane state on
-- such a screen, leaves one. If the prompts end, so that the session does, its state is sane and the screen mirrors memory: where
-- the cursor goes for an offset on the screen, in any mode, stands the digit or the character of the byte of memory at that
-- offset from the window's address, a cross where the bus fails, and the screen is the measured one, scrolled or not.
pub held_session-Mirrors :
    (m : Machine) (fuel param : ℕ) (messages : List (ℕ × ℕ)) (v w : Viewer) {f g : Font} {rows : ℕ}
    → PrintsHex m
    → LowersX m.tolower
    → m.addresses.raw_sys_call < 2 ^ 32
    → CallsWell m f (blank rows 44)
    → v.is_as3000 ≡ false
    → v.console.cur_font ≡ some g
    → (choose_font m.os (call_moving m.os Event.clear_screen v.console)).cur_font ≡ some f
    → Measures f rows 44 v.console
    → (rows ≡ 4) ⊎ (rows ≡ 8)
    → IsResting v rows
    → All IsHeld messages
    → session m fuel ((msg_setfocus, param) ∷ messages) v ≡ some w
    → IsSane w × MirrorsScrolled m f (blank rows 44) w
held_session-Mirrors m fuel param messages v w {f} {g} {rows} prints lowers raw_fits well neo eg ef
      measures few rest held ends =
    let (start, focus, s, h) =
      setfocus-Mirrors m fuel param v {f = f} {g = g} {rows = rows} prints neo eg ef measures few
        rest in
    let q : session m fuel messages start ≡ some w = after_focus focus ends in
    session-Held m prints lowers raw_fits well fuel messages start w held q (s, (0, h))
  where
    after_focus :
        {u : Viewer}
        → handle m fuel msg_setfocus param v ≡ some (u.console, u)
        → session m fuel ((msg_setfocus, param) ∷ messages) v ≡ some w
        → session m fuel messages u ≡ some w
    after_focus {u} e e' = ground arith
