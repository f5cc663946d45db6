-- ===== src/Probes/Folder/Session.antt =====
-- applets/FileSetFolderProbe/FileSetFolderProbe.c under os3k/os3k.c: sessions of the probe on a stock ROM.
use betawise.Base.{
  ℕ, ◌≤◌, ◌<◌, ◌≡◌, refl, arith, ◌∙◌, ap, inl, inr, some, List, Bool, true, false, Bool-cases,
  bit_and, ◌==◌, ◌&&◌, All,
}
use betawise.Keys.{msg_key, msg_setfocus}
use betawise.Os.{Os, Event, Font}
use betawise.Console.{Console, call_moving, clear_screen}
use betawise.Console.Terminal.{IsSized}
use betawise.Runtime.Focus.{blank, Measures}
use betawise.Runtime.{choose_font}
use betawise.Probes.Screen.{
  put_line-IsSized, start_screen-IsSized, IsLater, session, session_keeps, probe_keeps, probe_focus,
}
use betawise.Probes.Folder.{
  applet_id_alphaword, applet_id_alphaquiz, applet_id_calculator, Results, FileSystem, run_probe,
}
use betawise.Probes.Folder.Contract.{Documented, run_probe-passes}
use betawise.Probes.Folder.Screen.{
  Formats, draw_results, draw_idle_screen, is_run_key, process_message, handle,
}

-- The three stock applets: where the ROM finds them, and what the table says of them.
pub record Stock {S : Type 0} (fs : FileSystem S) (flags : ℕ → ℕ)
    (has_namespace lacks_one : ℕ → Bool) (word quiz calculator : ℕ) : Type 0 where
  pub finds_word : (s : S) → fs.applet_find_by_id applet_id_alphaword s ≡ word
  pub finds_quiz : (s : S) → fs.applet_find_by_id applet_id_alphaquiz s ≡ quiz
  pub finds_calculator : (s : S) → fs.applet_find_by_id applet_id_calculator s ≡ calculator
  pub some_word : 1 ≤ word
  pub some_quiz : 1 ≤ quiz
  pub some_calculator : 1 ≤ calculator
  pub calculator_in : calculator < 32
  pub word_namespace : has_namespace word ≡ true
  pub quiz_namespace : has_namespace quiz ≡ true
  pub calculator_none : lacks_one calculator ≡ true
  pub word_flag : (bit_and (flags word) 0x40 == 0) ≡ false
  pub quiz_flag : (bit_and (flags quiz) 0x40 == 0) ≡ true

-- Drawing the results on a console with four rows or more.
draw_results-IsSized :
    (os : Os) (formats : Formats) (r : Results) {f : Font} {rows cols : ℕ} {c : Console}
    → 4 ≤ rows
    → IsSized f (blank rows cols) c
    → IsSized f (blank rows cols) (draw_results os formats r c)
unfolding draw_results
draw_results-IsSized os formats r {f} {rows} {cols} {c} h s =
    let started = start_screen-IsSized os {rows = rows} {cols = cols} s in
    elim (Bool-cases (r.missing_mask == 0)) [
      | inl found ↦ rw found (
          put_line-IsSized os 4 _ (omega arith) h (
            put_line-IsSized os 3 _ (omega arith) (omega arith) (
              put_line-IsSized os 2 _ (omega arith) (omega arith)
                (put_line-IsSized os 1 _ (omega arith) (omega arith) started))))
      | inr missing ↦ rw missing (
          put_line-IsSized os 3 _ (omega arith) (omega arith)
            (put_line-IsSized os 2 _ (omega arith) (omega arith) (assumption started)))
    ]

-- A later message is the run of the probe, or changes nothing.
process_ran :
    {S : Type 0} (os : Os) (formats : Formats) (fs : FileSystem S) (message param : ℕ) (c : Console)
    (r : Results) (s : S)
    → IsLater (message, param)
    → message == msg_key && is_run_key param ≡ true
    → process_message os formats fs message param c (r, s)
      ≡ (draw_results os formats (run_probe fs s).0 c, run_probe fs s)
unfolding process_message
process_ran os formats fs message param c r s later runs = ground arith

process_kept :
    {S : Type 0} (os : Os) (formats : Formats) (fs : FileSystem S) (message param : ℕ) (c : Console)
    (r : Results) (s : S)
    → IsLater (message, param)
    → message == msg_key && is_run_key param ≡ false
    → process_message os formats fs message param c (r, s) ≡ (c, (r, s))
unfolding process_message
process_kept os formats fs message param c r s later other = ground arith

module _ {S : Type 0} {fs : FileSystem S} {folder : S → ℕ} {flags : ℕ → ℕ}
    {has_namespace lacks_one : ℕ → Bool} (d : Documented fs folder flags has_namespace lacks_one)
    {word quiz calculator : ℕ} (stock : Stock fs flags has_namespace lacks_one word quiz calculator)
    (os : Os) (formats : Formats) where
  -- No check has failed, and the folder `chosen` is still the chosen one.
  abbrev Passes : ℕ → Results × S → Type 0
  Passes chosen (r, s) = (r.failures ≡ 0) × (folder s ≡ chosen)

  run_probe-Passes :
      (chosen : ℕ) (s : S)
      → has_namespace chosen ≡ true
      → folder s ≡ chosen
      → Passes chosen (run_probe fs s)
  run_probe-Passes chosen s h e =
      let ran =
        run_probe-passes d s word quiz calculator (ap has_namespace e ∙ h) (stock.finds_word s)
          (stock.finds_quiz s) (stock.finds_calculator s) stock.some_word stock.some_quiz
          stock.some_calculator stock.calculator_in stock.word_namespace stock.quiz_namespace
          stock.calculator_none stock.word_flag stock.quiz_flag in
      (ran.1, ran.2 ∙ e)

  process_message-Passes :
      (chosen : ℕ) {f : Font} {rows cols : ℕ}
      → has_namespace chosen ≡ true
      → 4 ≤ rows
      → (message param : ℕ) (c : Console) (p : Results × S) → IsLater (message, param)
      → IsSized f (blank rows cols) c
      → Passes chosen p
      → IsSized f (blank rows cols) (process_message os formats fs message param c p).0
        × Passes chosen (process_message os formats fs message param c p).1
  process_message-Passes chosen {f} {rows} {cols} h few message param c (r, s) later sized passes =
      elim (Bool-cases (message == msg_key && is_run_key param)) [
        | inl runs ↦ rw (process_ran os formats fs message param c r s later runs) (
          draw_results-IsSized os formats (run_probe fs s).0 few sized,
          run_probe-Passes chosen s h passes.1,
        )
        | inr other ↦
            rw (process_kept os formats fs message param c r s later other) (sized, passes)
      ]

  -- The probe on a ROM that keeps the documented contract and has the three stock applets, on a screen of 4 rows or more that
  -- MSG_SETFOCUS has left, with no failed check and a folder chosen that can be chosen: a session of messages that are neither
  -- MSG_INIT nor MSG_SETFOCUS completes, however often it runs the probe, no check has failed, the same folder is chosen, and
  -- the screen has its size and is not scrolled.
  pub folder_session :
      {f : Font} {rows cols : ℕ} (messages : List (ℕ × ℕ)) (c : Console) (r : Results) (s : S)
      → All IsLater messages
      → has_namespace (folder s) ≡ true
      → 4 ≤ rows
      → IsSized f (blank rows cols) c
      → r.failures ≡ 0
      → (c' : Console) × (p : Results × S) × (session (handle os formats fs) messages c (r, s)
          ≡ some (c', p))
        × IsSized f (blank rows cols) c'
        × (p.0.failures ≡ 0)
        × (folder p.1 ≡ folder s)
  unfolding handle
  folder_session {f} {rows} {cols} messages c r s later h few sized none_failed =
      let (c', p, ends, kept) =
        session_keeps (handle os formats fs)
          (λ c p. IsSized f (blank rows cols) c × Passes (folder s) p)
          (probe_keeps os (process_message os formats fs) (Passes (folder s))
            (process_message-Passes (folder s) h few))
          messages c (r, s) later (sized, (none_failed, refl)) in
      (c', p, ends, kept.0, kept.1.0, kept.1.1)

idle-IsSized :
    (os : Os) (formats : Formats) {f : Font} {rows cols : ℕ} (c : Console)
    → IsSized f (blank rows cols) (clear_screen os c)
    → IsSized f (blank rows cols) (draw_idle_screen os formats c)
unfolding draw_idle_screen
idle-IsSized os formats c s = assumption s

focus_draws :
    {S : Type 0} (os : Os) (formats : Formats) (fs : FileSystem S) (param : ℕ) (p : Results × S)
    (c : Console)
    → process_message os formats fs msg_setfocus param c p ≡ (draw_idle_screen os formats c, p)
unfolding process_message
focus_draws os formats fs param (r, s) c = refl

-- MSG_SETFOCUS of the probe under the runtime, with a system font and a font then chosen that measures the LCD: it completes
-- without a run of the probe or a call of the file system, and the screen has the measured size and is not scrolled.
focus_leaves :
    {S : Type 0} (os : Os) (formats : Formats) (fs : FileSystem S) (param : ℕ) (c : Console)
    (p : Results × S) {f g : Font} {rows cols : ℕ}
    → c.cur_font ≡ some g
    → (choose_font os (call_moving os Event.clear_screen c)).cur_font ≡ some f
    → Measures f rows cols c
    → (c' : Console) × (handle os formats fs msg_setfocus param c p ≡ some (c', p))
      × IsSized f (blank rows cols) c'
unfolding handle
focus_leaves os formats fs param c p eg ef measures =
    probe_focus os (process_message os formats fs) (draw_idle_screen os formats) param c p
      (focus_draws os formats fs param p) (idle-IsSized os formats) eg ef measures
