-- ===== src/DebugTool/Invariant/Prompts.antt =====
-- applets/DebugTool/DebugTool.c: the invariant under Ctrl+G, which prompts for an address.
use betawise.Base.{ℕ, ◌^◌, ◌<◌, ◌≡◌, inl, inr, sym, arith, ◌∙◌, ap, List, some, Option-cases, set}
use mathlib.Core.Path.{subst}
use betawise.Console.{Console}
use betawise.DebugTool.Number.{Addresses, number_from_string}
use betawise.DebugTool.Number.Text.{Text, literal, plain, in_scratch, sys_call, meaning}
use betawise.DebugTool.Number.Reads.{LowersX, number_from_string-text}
use betawise.DebugTool.Number.Accepts.{number_from_string-only_text}
use betawise.DebugTool.Dump.{Machine, Viewer, dump_redraw_screen}
use betawise.DebugTool.Prompt.{number_prompt, ask_address, go_to_loop, go_to}
use betawise.DebugTool.Closed.{
  Closed, GoesTo, number_prompt-keeps, ask_address-keeps, go_to_loop-keeps,
}
use betawise.DebugTool.Invariant.{IsSane, screen-IsSane, set_address-IsSane}

-- The console, the word of the system call and the dialog's buffers do not matter.
pub IsSane-beside :
    {v : Viewer} (console : Console) (raw : ℕ) (buffers : List (List ℕ))
    → IsSane v
    → IsSane (record v { console = console; raw_sys_call = raw; buffers = buffers })
IsSane-beside console raw buffers s = record {
  in_view = assumption s.in_view;
  rows = s.rows;
  prev_fits = s.prev_fits;
  bytes = s.bytes;
}

meaning-lt :
    (a : Addresses) (base raw : ℕ) (t : Text) (n : ℕ)
    → a.raw_sys_call < 2 ^ 32
    → (meaning a base raw t).0 ≡ some n
    → n < 2 ^ 32
meaning-lt a base raw (literal s) n h e = ground arith
meaning-lt a base raw (plain k) n h e = ground arith
meaning-lt a base raw (in_scratch k) n h e = ground arith
meaning-lt a base raw (sys_call k) n h e = ground arith

-- Every number that is read is a 32-bit address.
pub number_from_string-lt :
    (tolower : ℕ → ℕ)
    → LowersX tolower
    → (a : Addresses) (base : ℕ) (s : List ℕ) (raw n : ℕ) → a.raw_sys_call < 2 ^ 32
    → (number_from_string tolower a base s raw).0 ≡ some n
    → n < 2 ^ 32
number_from_string-lt tolower lowers a base s raw n h e =
    let (t, is_text, spelt) = number_from_string-only_text tolower lowers a base s raw n e in
    meaning-lt a base raw t n h (
      ap (λ r. r.0)
        (sym (number_from_string-text tolower lowers a base raw t is_text)
          ∙ ap (λ (x : List ℕ). number_from_string tolower a base x raw) (sym spelt))
      ∙ e)

pub IsSane-Closed : (m : Machine) → Closed m IsSane
IsSane-Closed m = record {
  called = λ e v s. IsSane-beside _ v.raw_sys_call v.buffers s;
  moving = λ e v s. IsSane-beside _ v.raw_sys_call v.buffers s;
  buffered = λ buffers v same s. IsSane-beside v.console v.raw_sys_call buffers s;
  read = λ base array v s. IsSane-beside v.console _ v.buffers s;
}

module _ (m : Machine) where
  pub number_prompt-IsSane :
      (prompt : List ℕ) (base : ℕ) (array : List ℕ) (max_len : ℕ) (default_text : List ℕ)
      {v : Viewer}
      → IsSane v
      → IsSane (number_prompt m prompt base array max_len default_text v).2
  number_prompt-IsSane prompt base array max_len default_text {v} s =
      number_prompt-keeps m IsSane (IsSane-Closed m) prompt base array max_len default_text v s

  pub ask_address-IsSane :
      (array : List ℕ) {v : Viewer} → IsSane v → IsSane (ask_address m array v).2
  ask_address-IsSane array {v} s = ask_address-keeps m IsSane (IsSane-Closed m) array v s

module _ (m : Machine) (lowers : LowersX m.tolower)
    (raw_fits : m.addresses.raw_sys_call < 2 ^ 32) where
  pub IsSane-GoesTo : GoesTo m IsSane
  IsSane-GoesTo base array n v number s =
      set_address-IsSane n (IsSane-beside v.console _ v.buffers s)
        (number_from_string-lt m.tolower lowers m.addresses _ _ _ n raw_fits number)

  pub go_to_loop-IsSane :
      (fuel : ℕ) (array : List ℕ) (v w : Viewer)
      → go_to_loop m fuel array v ≡ some w
      → IsSane v
      → IsSane w
  go_to_loop-IsSane fuel array v w e s =
      go_to_loop-keeps m IsSane (IsSane-Closed m) IsSane-GoesTo fuel array v w e s

  -- Ctrl+G, when it ends.
  pub go_to-IsSane : (fuel : ℕ) {v w : Viewer} → go_to m fuel v ≡ some w → IsSane v → IsSane w
  unfolding go_to
  go_to-IsSane fuel {v} {w} e s =
      elim (Option-cases (go_to_loop m fuel (set m.stack_bytes 0 0) v)) [
        | inl waits ↦ ground arith
        | inr (u, gone) ↦
            let q : dump_redraw_screen m u ≡ w = ground arith in
            subst IsSane q (screen-IsSane m (go_to_loop-IsSane fuel _ v u gone s))
      ]
