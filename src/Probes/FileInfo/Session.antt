-- ===== src/Probes/FileInfo/Session.antt =====
-- applets/FileGetFileInfoProbe/FileGetFileInfoProbe.c under os3k/os3k.c: sessions of the probe.
use betawise.Base.{
  ℕ, ◌≤◌, ◌≡◌, ◌⊎◌, refl, arith, inl, inr, some, List, true, false, Bool-cases, ◌==◌, ◌&&◌, All,
}
use betawise.Keys.{msg_key}
use betawise.Os.{Os, Font}
use betawise.Console.{Console}
use betawise.Console.Terminal.{IsSized}
use betawise.Runtime.Focus.{blank}
use betawise.Probes.Screen.{
  put_line-IsSized, start_screen-IsSized, IsLater, session, session_keeps, probe_keeps,
}
use betawise.Probes.FileInfo.{Results, FileInfo, run_probe}
use betawise.Probes.FileInfo.Screen.{Formats, draw_results, is_run_key, process_message, handle}

-- Drawing the results on a console with four rows or more.
draw_results-IsSized :
    (os : Os) (formats : Formats) (r : Results) {f : Font} {rows cols : ℕ} {c : Console}
    → 4 ≤ rows
    → IsSized f (blank rows cols) c
    → IsSized f (blank rows cols) (draw_results os formats r c)
unfolding draw_results
draw_results-IsSized os formats r {f} {rows} {cols} {c} h s =
    put_line-IsSized os 4 _ (omega arith) h (
      put_line-IsSized os 3 _ (omega arith) (omega arith) (
        put_line-IsSized os 2 _ (omega arith) (omega arith) (
          put_line-IsSized os 1 _ (omega arith) (omega arith)
            (start_screen-IsSized os {rows = rows} {cols = cols} s))))

-- A later message is the run of the probe, or changes nothing.
process_ran :
    {S : Type 0} (os : Os) (formats : Formats) (info : FileInfo S) (message param : ℕ) (c : Console)
    (r : Results) (s : S)
    → IsLater (message, param)
    → message == msg_key && is_run_key param ≡ true
    → process_message os formats info message param c (r, s)
      ≡ (draw_results os formats (run_probe info s).0 c, run_probe info s)
unfolding process_message
process_ran os formats info message param c r s later runs = ground arith

process_kept :
    {S : Type 0} (os : Os) (formats : Formats) (info : FileInfo S) (message param : ℕ) (c : Console)
    (r : Results) (s : S)
    → IsLater (message, param)
    → message == msg_key && is_run_key param ≡ false
    → process_message os formats info message param c (r, s) ≡ (c, (r, s))
unfolding process_message
process_kept os formats info message param c r s later other = ground arith

module _ {S : Type 0} (info : FileInfo S) (os : Os) (formats : Formats) where
  -- The results are those from before, or those of a run of the probe in some state of the ROM, which is as the run has left it.
  abbrev AreResults : Results × S → Results × S → Type 0
  AreResults before p = (p ≡ before) ⊎ ((s : S) × (p ≡ run_probe info s))

  process_message-AreResults :
      {f : Font} {rows cols : ℕ} (before : Results × S)
      → 4 ≤ rows
      → (message param : ℕ) (c : Console) (p : Results × S) → IsLater (message, param)
      → IsSized f (blank rows cols) c
      → AreResults before p
      → IsSized f (blank rows cols) (process_message os formats info message param c p).0
        × AreResults before (process_message os formats info message param c p).1
  process_message-AreResults {f} {rows} {cols} before few message param c (r, s) later sized known =
      elim (Bool-cases (message == msg_key && is_run_key param)) [
        | inl runs ↦
            rw (process_ran os formats info message param c r s later runs)
              (draw_results-IsSized os formats (run_probe info s).0 few sized, inr (s, refl))
        | inr other ↦
            rw (process_kept os formats info message param c r s later other) (sized, known)
      ]

  -- The probe on any ROM, on a screen of 4 rows or more that MSG_SETFOCUS has left: a session of messages that are neither
  -- MSG_INIT nor MSG_SETFOCUS completes, whatever the ROM answers and however often it runs the probe; the screen has its size
  -- and is not scrolled; and the results and the ROM are as before the session, or as a run of the probe has left them.
  pub file_info_session :
      {f : Font} {rows cols : ℕ} (messages : List (ℕ × ℕ)) (c : Console) (r : Results) (s : S)
      → All IsLater messages
      → 4 ≤ rows
      → IsSized f (blank rows cols) c
      → (c' : Console) × (p : Results × S) × (session (handle os formats info) messages c (r, s)
          ≡ some (c', p))
        × IsSized f (blank rows cols) c'
        × ((p ≡ (r, s)) ⊎ ((s' : S) × (p ≡ run_probe info s')))
  unfolding handle
  file_info_session {f} {rows} {cols} messages c r s later few sized =
      let (c', p, ends, kept) =
        session_keeps (handle os formats info)
          (λ c p. IsSized f (blank rows cols) c × AreResults (r, s) p)
          (probe_keeps os (process_message os formats info) (AreResults (r, s))
            (process_message-AreResults (r, s) few))
          messages c (r, s) later (sized, inl refl) in
      (c', p, ends, kept.0, kept.1)
