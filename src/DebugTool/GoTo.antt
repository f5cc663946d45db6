-- ===== src/DebugTool/GoTo.antt =====
-- applets/DebugTool/DebugTool.c: Ctrl+G, until the user has answered.
use betawise.Base.{
  ℕ, zero, suc, ◌^◌, ◌<◌, ◌≡◌, inl, inr, refl, arith, ◌∙◌, ap, List, Option, none, some, true,
  false, set, ◌==◌, Bool-cases, bit_and, u8,
}
use betawise.Keys.{key_esc}
use betawise.DebugTool.Number.Reads.{LowersX}
use betawise.DebugTool.Dump.{Machine, Viewer, cursor_address, dump_set_address, dump_redraw_screen}
use betawise.DebugTool.Frame.{Draws-screen}
use betawise.DebugTool.Prompt.{
  ask_text, is_cancelled, read_number, number_prompt, ask_address, go_to_loop, go_to,
}
use betawise.DebugTool.Rows.{dump_set_address-InView}
use betawise.DebugTool.Invariant.{IsSane}
use betawise.DebugTool.Invariant.Prompts.{
  IsSane-beside, ask_address-IsSane, number_from_string-lt, go_to-IsSane,
}

module _ (m : Machine) where
  -- After `n` texts that are refused the user gives an answer: an address, or Escape (`none`).
  abbrev pub AnswersAfter : ℕ → Option ℕ → List ℕ → Viewer → Type 0
  AnswersAfter zero none array v = is_cancelled (ask_address m array v).0 ≡ true
  AnswersAfter zero (some address) array v =
      let (result, array', w) = ask_address m array v in
      (is_cancelled result ≡ false)
      × ((read_number m m.addresses.local_buffer array' w).0 ≡ some address)
  AnswersAfter (suc n) answer array v =
      let (result, array', w) = ask_address m array v in
      let (number, read) = read_number m m.addresses.local_buffer array' w in
      (is_cancelled result ≡ false) × (number ≡ none) × AnswersAfter n answer array' read

  -- Where the cursor is after the answer.
  abbrev pub answered_address : Option ℕ → Viewer → ℕ
  answered_address none v = cursor_address v
  answered_address (some address) v = address

  prompt_same_address :
      (prompt : List ℕ) (base : ℕ) (array : List ℕ) (max_len : ℕ) (default_text : List ℕ)
      (v : Viewer)
      → cursor_address (number_prompt m prompt base array max_len default_text v).2
        ≡ cursor_address v
  unfolding number_prompt
  prompt_same_address prompt base array max_len default_text v =
      let reply = (ask_text m prompt array max_len default_text v).0 in
      elim (Bool-cases (bit_and (u8 reply.exit_key) 0xFDFF == key_esc)) [
        | inl escape ↦ rw escape refl
        | inr other ↦ rw other refl
      ]

  asked_same_address :
      (array : List ℕ) (v : Viewer) → cursor_address (ask_address m array v).2 ≡ cursor_address v
  unfolding ask_address
  asked_same_address array v = prompt_same_address _ _ _ _ _ _

  answered_same_address :
      (answer : Option ℕ) (array : List ℕ) (v : Viewer)
      → answered_address answer
          (read_number m m.addresses.local_buffer
            (ask_address m array v).1
            (ask_address m array v).2).1
        ≡ answered_address answer v
  answered_same_address none array v = asked_same_address array v
  answered_same_address (some address) array v = refl

  go_to_lem :
      (fuel : ℕ) (v u : Viewer)
      → go_to_loop m fuel (set m.stack_bytes 0 0) v ≡ some u
      → go_to m fuel v ≡ some (dump_redraw_screen m u)
  unfolding go_to
  go_to_lem fuel v u e = ground arith

module _ (m : Machine) (lowers : LowersX m.tolower)
    (raw_fits : m.addresses.raw_sys_call < 2 ^ 32) where
  loop_returns :
      (n fuel : ℕ) (answer : Option ℕ) (array : List ℕ) (v : Viewer)
      → AnswersAfter m n answer array v
      → n < fuel
      → IsSane v
      → (w : Viewer) × (go_to_loop m fuel array v ≡ some w)
        × (cursor_address w ≡ answered_address m answer v)
  unfolding go_to_loop
  loop_returns n zero answer array v h lt s = absurd (omega arith)
  loop_returns zero (suc fuel) none array v h lt s =
      ((ask_address m array v).2, ground arith, asked_same_address m array v)
  loop_returns zero (suc fuel) (some address) array v h lt s =
      let asked = ask_address m array v in
      let read = read_number m m.addresses.local_buffer asked.1 asked.2 in
      let sane =
        IsSane-beside read.1.console read.1.raw_sys_call asked.2.buffers
          (ask_address-IsSane m array s) in
      let fits = number_from_string-lt m.tolower lowers m.addresses _ _ _ address raw_fits h.1 in
      (
        dump_set_address address read.1,
        ground arith,
        (dump_set_address-InView address sane.in_view fits).1,
      )
  loop_returns (suc n) (suc fuel) answer array v h lt s =
      let asked = ask_address m array v in
      let read = read_number m m.addresses.local_buffer asked.1 asked.2 in
      let sane =
        IsSane-beside read.1.console read.1.raw_sys_call asked.2.buffers
          (ask_address-IsSane m array s) in
      let (w, goes, at) = loop_returns n fuel answer asked.1 read.1 h.2 (omega arith) sane in
      (w, ground arith, at ∙ answered_same_address m answer array v)

  -- With a tolower that makes an x of x and X only and g_rawSysCall at a 32-bit address, Ctrl+G in a
  -- sane state returns when the user answers after any number of refused texts, with more fuel than
  -- those texts. The cursor is then at the address that was read or, after Escape, where it was, and the
  -- state is sane.
  pub go_to_returns :
      (n fuel : ℕ) (answer : Option ℕ) (v : Viewer)
      → AnswersAfter m n answer (set m.stack_bytes 0 0) v
      → n < fuel
      → IsSane v
      → (w : Viewer) × (go_to m fuel v ≡ some w)
        × (cursor_address w ≡ answered_address m answer v)
        × IsSane w
  go_to_returns n fuel answer v h lt s =
      let (u, goes, at) = loop_returns n fuel answer (set m.stack_bytes 0 0) v h lt s in
      let gone : go_to m fuel v ≡ some (dump_redraw_screen m u) = go_to_lem m fuel v u goes in
      (
        dump_redraw_screen m u,
        gone,
        ap cursor_address (Draws-screen m u) ∙ at,
        go_to-IsSane m lowers raw_fits fuel gone s,
      )
