-- ===== src/DebugTool/Invariant/Session.antt =====
-- applets/DebugTool/DebugTool.c under os3k/os3k.c: the invariant from MSG_SETFOCUS on, over a session.
use betawise.Base.{
  ℕ, ◌+◌, ◌^◌, ◌<◌, ◌≡◌, ◌≢◌, inl, inr, refl, arith, List, [], ◌∷◌, Option, none, some, Bool, false,
  Bool-cases, Option-cases, if◌then◌else◌, bit_and, ◌==◌, ◌&&◌, ◌||◌, All,
}
use mathlib.Core.Path.{subst}
use betawise.Keys.{
  msg_init, msg_setfocus, msg_killfocus, msg_char, msg_key, key_mod_ctrl, key_g, key_i,
}
use betawise.Os.{Os}
use betawise.Console.{Console}
use betawise.Runtime.{prepare, on_killfocus, bw_process_message}
use betawise.DebugTool.Number.Reads.{LowersX}
use betawise.DebugTool.Dump.{Machine, Viewer}
use betawise.DebugTool.Messages.{on_char, on_plain_key}
use betawise.DebugTool.Prompt.{go_to}
use betawise.DebugTool.Dialog.{call_dialog}
use betawise.DebugTool.Process.{on_key, process_message, as_applet, handle}
use betawise.DebugTool.Invariant.{IsSane}
use betawise.DebugTool.Invariant.Keys.{on_char-IsSane, on_plain_key-IsSane}
use betawise.DebugTool.Invariant.Prompts.{IsSane-beside, go_to-IsSane}
use betawise.DebugTool.Invariant.Calls.{call_dialog-IsSane}

-- A session: messages with their parameters, one after the other.
abbrev pub session : Machine → ℕ → List (ℕ × ℕ) → Viewer → Option Viewer
session m fuel [] v = some v
session m fuel ((message, param) ∷ rest) v = elim (handle m fuel message param v) [
  | none ↦ none
  | some (c, w) ↦ session m fuel rest w
]

-- A message other than MSG_INIT and MSG_SETFOCUS.
abbrev pub IsLater : ℕ × ℕ → Type 0
IsLater (message, param) = (message ≢ msg_init) × (message ≢ msg_setfocus)

module _ (m : Machine) (lowers : LowersX m.tolower) (raw_fits : m.addresses.raw_sys_call < 2 ^ 32)
    (keeps : (f : ℕ) (args : List ℕ) (v : Viewer) → IsSane v → IsSane (m.run_code f args v).1) where
  on_key-IsSane :
      (fuel param : ℕ) {v w : Viewer} → on_key m fuel param v ≡ some w → IsSane v → IsSane w
  unfolding on_key
  on_key-IsSane fuel param {v} {w} e s =
      let key = bit_and param 0xFFFFFDFF in
      elim (Bool-cases (key == key_mod_ctrl + key_i)) [
        | inl dialog ↦
            let q : call_dialog m fuel v ≡ some w = ground arith in
            call_dialog-IsSane m keeps fuel q s
        | inr other ↦ elim (Bool-cases (key == key_mod_ctrl + key_g)) [
          | inl prompt ↦
              let q : go_to m fuel v ≡ some w = ground arith in
              go_to-IsSane m lowers raw_fits fuel q s
          | inr plain ↦
              let q : on_plain_key m key v ≡ w = ground arith in
              subst IsSane q (on_plain_key-IsSane m key s)
        ]
      ]

  process_message-IsSane :
      (fuel message param : ℕ) {v w : Viewer}
      → IsLater (message, param)
      → process_message m fuel message param v ≡ some w
      → IsSane v
      → IsSane w
  unfolding process_message
  process_message-IsSane fuel message param {v} {w} later e s =
      elim (Bool-cases (message == msg_char)) [
        | inl char ↦
            let q : on_char m param v ≡ w = ground arith in
            subst IsSane q (on_char-IsSane m param s)
        | inr other ↦ elim (Bool-cases (message == msg_key)) [
          | inl key ↦
              let q : on_key m fuel param v ≡ some w = ground arith in on_key-IsSane fuel param q s
          | inr ignored ↦ let q : v ≡ w = ground arith in subst IsSane q s
        ]
      ]

  handle-IsSane :
      (fuel message param : ℕ) {v w : Viewer} {c : Console}
      → IsLater (message, param)
      → handle m fuel message param v ≡ some (c, w)
      → IsSane v
      → IsSane w
  unfolding handle as_applet bw_process_message
  handle-IsSane fuel message param {v} {w} {c} later e s =
      elim (Option-cases (prepare m.os message v.console)) [
        | inl stuck ↦ ground arith
        | inr (c', ready) ↦
            let u = record v { console = c' } in
            elim (Option-cases (process_message m fuel message param u)) [
              | inl waits ↦ ground arith
              | inr (w', done) ↦
                  let q : w' ≡ w = ground arith in
                  subst IsSane q (
                    process_message-IsSane fuel message param {v = u} later done
                      (IsSane-beside c' v.raw_sys_call v.buffers s))
            ]
      ]

  -- A session of messages that holds neither MSG_INIT nor MSG_SETFOCUS, begun in a sane state, with a
  -- tolower that makes an x of x and X only, g_rawSysCall at a 32-bit address, and Ctrl+I calling only
  -- code that keeps the state sane: if it ends, its state is sane. That is, the cursor is in view on a
  -- screen of 4 or of 8 rows of memory, the remembered address has 32 bits, and what can be read of
  -- memory is bytes.
  pub session-IsSane :
      (fuel : ℕ) (messages : List (ℕ × ℕ)) {v w : Viewer}
      → All IsLater messages
      → IsSane v
      → session m fuel messages v ≡ some w
      → IsSane w
  session-IsSane fuel [] {v} {w} later s e = let q : v ≡ w = ground arith in subst IsSane q s
  session-IsSane fuel ((message, param) ∷ rest) {v} {w} later s e =
      elim (Option-cases (handle m fuel message param v)) [
        | inl waits ↦ ground arith
        | inr ((c, u), done) ↦
            let q : session m fuel rest u ≡ some w = ground arith in
            session-IsSane fuel rest later.1 (handle-IsSane fuel message param later.0 done s) q
      ]

-- The keys that wait for the user: Ctrl+I and Ctrl+G.
abbrev pub prompts : ℕ × ℕ → Bool
prompts (message, param) =
    let key = bit_and param 0xFFFFFDFF in
    message == msg_key && (key == key_mod_ctrl + key_i || key == key_mod_ctrl + key_g)

pub handle_through :
    (m : Machine) (fuel message param : ℕ) (v w : Viewer) (c : Console)
    → prepare m.os message v.console ≡ some c
    → process_message m fuel message param (record v { console = c }) ≡ some w
    → handle m fuel message param v ≡ some (w.console, w)
unfolding handle as_applet bw_process_message
handle_through m fuel message param v w c ready done = ground arith

-- What such a message leaves of the console and of the state.
after_prepare : (os : Os) → ℕ → Console → Console
after_prepare os message c = if message == msg_killfocus then on_killfocus os c else c

after_message : (m : Machine) → ℕ → ℕ → Viewer → Viewer
after_message m message param v =
    if message == msg_char
    then on_char m param v
    else if message == msg_key
    then on_plain_key m (bit_and param 0xFFFFFDFF) v
    else v

prepare_completes :
    (os : Os) (message param : ℕ) (c : Console)
    → IsLater (message, param)
    → prepare os message c ≡ some (after_prepare os message c)
unfolding prepare after_prepare
prepare_completes os message param c later = ground arith

process_message_completes :
    (m : Machine) (fuel message param : ℕ) (v : Viewer)
    → IsLater (message, param)
    → prompts (message, param) ≡ false
    → process_message m fuel message param v ≡ some (after_message m message param v)
unfolding process_message on_key after_message
process_message_completes m fuel message param v later waits = ground arith

handle_completes :
    (m : Machine) (fuel message param : ℕ) (v : Viewer)
    → IsLater (message, param)
    → prompts (message, param) ≡ false
    → (r : Console × Viewer) × (handle m fuel message param v ≡ some r)
handle_completes m fuel message param v later waits =
    let c = after_prepare m.os message v.console in
    let w = after_message m message param (record v { console = c }) in
    (
      (w.console, w),
      handle_through m fuel message param v w c
          (prepare_completes m.os message param v.console later)
          (process_message_completes m fuel message param _ later waits),
    )

-- A session of messages that are neither MSG_INIT nor MSG_SETFOCUS nor the keys Ctrl+I and Ctrl+G needs no fuel in the model, where
-- `dump_redraw_screen` ends; RowLoop says for how many rows the code's does.
pub session_completes :
    (m : Machine) (fuel : ℕ) (messages : List (ℕ × ℕ)) (v : Viewer)
    → All IsLater messages
    → All (λ p. prompts p ≡ false) messages
    → (w : Viewer) × (session m fuel messages v ≡ some w)
session_completes m fuel [] v later waits = (v, refl)
session_completes m fuel ((message, param) ∷ rest) v later waits =
    let ((c, u), done) = handle_completes m fuel message param v later.0 waits.0 in
    let (w, ends) = session_completes m fuel rest u later.1 waits.1 in (w, ground arith)
