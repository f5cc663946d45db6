-- ===== src/DebugTool/Closed.antt =====
-- applets/DebugTool/DebugTool.c: what the two prompts keep, for any property of the state that their steps keep.
pub mod Dialog
use betawise.Base.{
  ℕ, zero, suc, ◌^◌, ◌<◌, ◌≡◌, inl, inr, sym, arith, ◌∙◌, ap, List, some, Bool, true, false,
  Bool-cases, Option-cases, if◌then◌else◌, set, Option, none, bit_and, u8, ◌==◌, get_or, length,
}
use mathlib.Core.Path.{subst}
use betawise.Keys.{key_esc}
use betawise.Os.{Event}
use betawise.Console.{call, call_moving, clear_screen, cursor_hide}
use betawise.DebugTool.Dump.{Machine, Viewer, on_console, dump_set_address}
use betawise.DebugTool.Prompt.{
  Prompted, is_cancelled, cancelled, prompted, read_number, ask_text, number_prompt, ask_address,
  go_to_loop, c_string, string_copy,
}

-- A property that the steps of the prompts keep: the calls of the ROM, a change of the dialog's buffers, and reading a number,
-- which may write g_rawSysCall.
pub record Closed (m : Machine) (P : Viewer → Type 0) : Type 0 where
  pub called : (e : Event) (v : Viewer) → P v → P (on_console m (call e) v)
  pub moving : (e : Event) (v : Viewer) → P v → P (on_console m (call_moving m.os e) v)
  pub buffered :
      (buffers : List (List ℕ)) (v : Viewer)
      → length buffers ≡ length v.buffers
      → P v
      → P (record v { buffers = buffers })
  pub read : (base : ℕ) (array : List ℕ) (v : Viewer) → P v → P (read_number m base array v).1

-- So do going to a number that was read, and a call: clearing the screen, printing, and the code that is called.
abbrev pub GoesTo : Machine → (Viewer → Type 0) → Type 0
GoesTo m P =
    (base : ℕ) (array : List ℕ) (n : ℕ) (v : Viewer)
    → (read_number m base array v).0 ≡ some n
    → P v
    → P (dump_set_address n (read_number m base array v).1)

pub record Calls (m : Machine) (P : Viewer → Type 0) : Type 0 where
  pub closed : Closed m P
  pub cleared : (v : Viewer) → P v → P (on_console m (clear_screen m.os) v)
  pub call_printed : (values : List ℕ) (v : Viewer) → P v → P (on_console m (m.print_call values) v)
  pub result_printed : (value : ℕ) (v : Viewer) → P v → P (on_console m (m.print_result value) v)
  pub runs : (f : ℕ) (args : List ℕ) (v : Viewer) → P v → P (m.run_code f args v).1

pub keeps-if : (P : Viewer → Type 0) (b : Bool) (x y : Viewer) → P x → P y → P (if b then x else y)
keeps-if P true x y px py = px
keeps-if P false x y px py = py

prompted-if :
    (P : Viewer → Type 0) (b : Bool) (x y : Prompted × List ℕ × Viewer)
    → P x.2
    → P y.2
    → P (if b then x else y).2
prompted-if P true x y px py = px
prompted-if P false x y px py = py

module _ (m : Machine) (P : Viewer → Type 0) (closed : Closed m P) where
  pub number_prompt-keeps :
      (prompt : List ℕ) (base : ℕ) (array : List ℕ) (max_len : ℕ) (default_text : List ℕ)
      (v : Viewer)
      → P v
      → P (number_prompt m prompt base array max_len default_text v).2
  unfolding number_prompt
  number_prompt-keeps prompt base array max_len default_text v p =
      let asked = ask_text m prompt array max_len default_text v in
      let shown = closed.moving _ _ (closed.moving (Event.put_string_raw prompt) v p) in
      prompted-if P (bit_and (u8 asked.0.exit_key) 0xFDFF == key_esc)
        (cancelled, asked.0.buffer, asked.1) _ shown
        (closed.read base (set asked.0.buffer (u8 asked.0.len) 0) asked.1 shown)

  pub ask_address-keeps : (array : List ℕ) (v : Viewer) → P v → P (ask_address m array v).2
  unfolding ask_address
  ask_address-keeps array v p =
      number_prompt-keeps _ _ _ _ _ _
        (closed.moving (Event.set_cursor 4 1 cursor_hide) _ (closed.moving _ v p))

  -- The loop of Ctrl+G, when it ends.
  pub go_to_loop-keeps :
      (goes : GoesTo m P) (fuel : ℕ) (array : List ℕ) (v w : Viewer)
      → go_to_loop m fuel array v ≡ some w
      → P v
      → P w
  unfolding go_to_loop
  go_to_loop-keeps goes zero array v w e p = cc
  go_to_loop-keeps goes (suc fuel) array v w e p =
      let asked = ask_address m array v in
      let q' = ask_address-keeps array v p in
      let base = m.addresses.local_buffer in
      let read = read_number m base asked.1 asked.2 in
      elim (Bool-cases (is_cancelled asked.0)) [
        | inl escape ↦ let q : asked.2 ≡ w = ground arith in subst P q q'
        | inr answered ↦ elim (Option-cases read.0) [
          | inl wrong ↦
              let q : go_to_loop m fuel asked.1 read.1 ≡ some w = ground arith in
              go_to_loop-keeps goes fuel asked.1 read.1 w q (closed.read base asked.1 asked.2 q')
          | inr (n, number) ↦
              let q : dump_set_address n read.1 ≡ w = ground arith in
              subst P q (goes base asked.1 n asked.2 number q')
        ]
      ]
