-- ===== src/DebugTool/Mirror/Session.antt =====
-- applets/DebugTool/DebugTool.c under os3k/os3k.c: the screen and memory agree, from MSG_SETFOCUS on.
use betawise.Base.{
  ℕ, ◌+◌, ◌≡◌, ◌≢◌, ◌⊎◌, inl, inr, Bool-cases, refl, arith, List, [], ◌∷◌, some, false, bit_and,
  ◌==◌, ◌&&◌, if◌then◌else◌, All,
}
use betawise.Keys.{
  msg_init, msg_setfocus, msg_killfocus, msg_char, msg_key, key_mod_ctrl, key_mod_cmd, key_b, key_g,
  key_i,
}
use betawise.Os.{Event, Font}
use betawise.Console.{call_moving, clear_screen}
use betawise.Console.Terminal.{Terminal}
use betawise.Runtime.{choose_font, prepare}
use betawise.Runtime.Focus.{blank, Measures, measured, measured-IsSized}
use betawise.DebugTool.Dump.{Machine, Viewer, dump_redraw_screen}
use betawise.DebugTool.Messages.{on_char, on_plain_key}
use betawise.DebugTool.Process.{on_key, process_message, handle}
use betawise.DebugTool.Invariant.{IsSane, IsSane-if, screen-IsSane}
use betawise.DebugTool.Invariant.Keys.{on_char-IsSane, on_plain_key-IsSane}
use betawise.DebugTool.Invariant.Session.{session, handle_through}
use betawise.DebugTool.Invariant.Resting.{IsResting, focused, focused-IsSane, setfocus_redraws}
use betawise.DebugTool.Redraw.{PrintsHex}
use betawise.DebugTool.Mirror.{Fits, Mirrors, screen-Mirrors}
use betawise.DebugTool.Mirror.Moves.{Mirrors-if}
use betawise.DebugTool.Mirror.Typed.{on_char-Mirrors}
use betawise.DebugTool.Mirror.Keys.{on_plain_key-Mirrors}

-- A message while the viewer has the focus, which neither prompts nor shows the battery: it is none of MSG_INIT, MSG_SETFOCUS
-- and MSG_KILLFOCUS, nor the keys Ctrl+I, Ctrl+G and Ctrl+Cmd+B.
abbrev pub IsQuiet : ℕ × ℕ → Type 0
IsQuiet (message, param) =
    (message ≢ msg_init)
    × (message ≢ msg_setfocus)
    × (message ≢ msg_killfocus)
    × ((message == msg_key && (bit_and param 0xFFFFFDFF == key_mod_ctrl + key_i)) ≡ false)
    × ((message == msg_key && (bit_and param 0xFFFFFDFF == key_mod_ctrl + key_g)) ≡ false)
    × ((message == msg_key && (bit_and param 0xFFFFFDFF == key_mod_ctrl + key_mod_cmd + key_b))
        ≡ false)

-- What the viewer does on it.
abbrev react : Machine → ℕ → ℕ → Viewer → Viewer
react m message param v =
    if message == msg_char
    then on_char m param v
    else if message == msg_key
    then on_plain_key m (bit_and param 0xFFFFFDFF) v
    else v

prepare_quiet :
    (m : Machine) (message param : ℕ) (v : Viewer)
    → IsQuiet (message, param)
    → prepare m.os message v.console ≡ some v.console
unfolding prepare
prepare_quiet m message param v quiet = ground arith

process_quiet :
    (m : Machine) (fuel message param : ℕ) (v : Viewer)
    → IsQuiet (message, param)
    → process_message m fuel message param v ≡ some (react m message param v)
unfolding process_message on_key
process_quiet m fuel message param v quiet = ground arith

handle_quiet :
    (m : Machine) (fuel message param : ℕ) (v : Viewer)
    → IsQuiet (message, param)
    → let w = react m message param v in handle m fuel message param v ≡ some (w.console, w)
handle_quiet m fuel message param v quiet =
    handle_through m fuel message param v (react m message param v) v.console
      (prepare_quiet m message param v quiet) (process_quiet m fuel message param v quiet)

through :
    (m : Machine) (fuel message param : ℕ) (rest : List (ℕ × ℕ)) (v u w : Viewer)
    → handle m fuel message param v ≡ some (u.console, u)
    → session m fuel rest u ≡ some w
    → session m fuel ((message, param) ∷ rest) v ≡ some w
through m fuel message param rest v u w e ends = rw (e, session) ends

react-IsSane :
    (m : Machine) (message param : ℕ) {v : Viewer} → IsSane v → IsSane (react m message param v)
react-IsSane m message param {v} s =
    IsSane-if (message == msg_char) (on_char-IsSane m param s)
      (IsSane-if (message == msg_key) (on_plain_key-IsSane m (bit_and param 0xFFFFFDFF) s) s)

module _ (m : Machine) (prints : PrintsHex m) {f : Font} {t : Terminal} where
  react-Mirrors :
      (message param : ℕ) {v : Viewer}
      → IsQuiet (message, param)
      → IsSane v
      → Mirrors m f t v
      → Mirrors m f t (react m message param v)
  react-Mirrors message param {v} quiet s h =
      let key = bit_and param 0xFFFFFDFF in
      Mirrors-if m f t (message == msg_char) (on_char-Mirrors m prints param s h)
        (elim (Bool-cases (message == msg_key)) [
          | inl pressed ↦
              let battery : (key == key_mod_ctrl + key_mod_cmd + key_b) ≡ false = ground arith in
              rw pressed (on_plain_key-Mirrors m prints key battery s h)
          | inr other ↦ rw other h
        ])

  session-Mirrors :
      (fuel : ℕ) (messages : List (ℕ × ℕ)) (v : Viewer)
      → All IsQuiet messages
      → IsSane v
      → Mirrors m f t v
      → (w : Viewer) × (session m fuel messages v ≡ some w) × IsSane w × Mirrors m f t w
  session-Mirrors fuel [] v quiet s h = (v, refl, s, h)
  session-Mirrors fuel ((message, param) ∷ rest) v quiet s h =
      let u = react m message param v in
      let (w, ends, s', h') =
        session-Mirrors fuel rest u quiet.1 (react-IsSane m message param s)
          (react-Mirrors message param quiet.0 s h) in
      (
        w,
        through m fuel message param rest v u w (handle_quiet m fuel message param v quiet.0) ends,
        s',
        h',
      )

-- MSG_SETFOCUS of the viewer on a NEO, where it shows the screen at rest.
pub setfocus-Mirrors :
    (m : Machine) (fuel param : ℕ) (v : Viewer) {f g : Font} {rows : ℕ}
    → PrintsHex m
    → v.is_as3000 ≡ false
    → v.console.cur_font ≡ some g
    → (choose_font m.os (call_moving m.os Event.clear_screen v.console)).cur_font ≡ some f
    → Measures f rows 44 v.console
    → (rows ≡ 4) ⊎ (rows ≡ 8)
    → IsResting v rows
    → (w : Viewer) × (handle m fuel msg_setfocus param v ≡ some (w.console, w))
      × IsSane w
      × Mirrors m f (blank rows 44) w
setfocus-Mirrors m fuel param v {f = f} {g = g} {rows = rows} prints neo eg ef measures few rest =
    let c = measured rows 44 (choose_font m.os (call_moving m.os Event.clear_screen v.console)) in
    let u = focused rows (clear_screen m.os c) v in
    let s = focused-IsSane rows (clear_screen m.os c) few rest in
    let fits : Fits f (blank rows 44) u = record {
      neo = neo;
      cols = refl;
      rows = refl;
      sized = (measured-IsSized m.os v.console ef measures).0;
    } in
    (
      dump_redraw_screen m u,
      setfocus_redraws m fuel param v eg ef measures few,
      screen-IsSane m s,
      screen-Mirrors m prints s fits,
    )

-- MSG_SETFOCUS of the viewer on a NEO under the runtime, with a system font and a font then chosen that measures the LCD in
-- 44 columns and 4 or 8 rows, the window having been left at rest for them, and sprintf making printable text of 3 characters
-- of a byte and of 9 of an address; then any messages but MSG_INIT, MSG_SETFOCUS, MSG_KILLFOCUS, and the keys Ctrl+I, Ctrl+G
-- and Ctrl+Cmd+B: the session completes, in a sane state in which the screen mirrors memory. That is, where the cursor goes
-- for an offset on the screen, in any mode, stands the digit or the character of the byte of memory at that offset from the
-- window's address, a cross where the bus fails.
pub focused_session-Mirrors :
    (m : Machine) (fuel param : ℕ) (messages : List (ℕ × ℕ)) (v : Viewer) {f g : Font} {rows : ℕ}
    → PrintsHex m
    → v.is_as3000 ≡ false
    → v.console.cur_font ≡ some g
    → (choose_font m.os (call_moving m.os Event.clear_screen v.console)).cur_font ≡ some f
    → Measures f rows 44 v.console
    → (rows ≡ 4) ⊎ (rows ≡ 8)
    → IsResting v rows
    → All IsQuiet messages
    → (w : Viewer) × (session m fuel ((msg_setfocus, param) ∷ messages) v ≡ some w)
      × IsSane w
      × Mirrors m f (blank rows 44) w
focused_session-Mirrors m fuel param messages v {f} {g} {rows} prints neo eg ef measures few rest
      quiet =
    let (start, focus, s, h) =
      setfocus-Mirrors m fuel param v {f = f} {g = g} {rows = rows} prints neo eg ef measures few
        rest in
    let (w, ends, s', h') = session-Mirrors m prints fuel messages start quiet s h in
    (w, through m fuel msg_setfocus param messages v start w focus ends, s', h')
