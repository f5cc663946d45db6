-- ===== src/Probes/Folder/Tests.antt =====
-- applets/FileSetFolderProbe/FileSetFolderProbe.c: the probe on a ROM with AlphaWord at index 1, AlphaQuiz
-- at 2 and Calculator at 3, whose state is the chosen folder.
use betawise.Base.{
  ℕ, ◌+◌, ◌≡◌, List, [], ◌∷◌, All, refl, arith, some, Bool, ◌==◌, ◌||◌, if◌then◌else◌,
}
use betawise.Probes.Folder.{
  applet_id_alphaword, applet_id_alphaquiz, raw_no_file_namespace, raw_invalid_applet, Answer,
  FileSystem, Results, reset_results, run_probe,
}
use betawise.Keys.{msg_key, msg_killfocus, key_f, key_mod_cmd}
use betawise.Console.{Console}
use betawise.Console.Terminal.{IsSized}
use betawise.Runtime.Focus.{blank}
use betawise.Samples.{rom, font, fresh_screen, fresh_screen-IsSized}
use betawise.Probes.Screen.{IsLater, session}
use betawise.Probes.Folder.Screen.{Formats, handle}
use betawise.Probes.Folder.Session.{Stock, folder_session}
use betawise.Probes.Folder.Contract.{Documented, run_probe-passes}

abbrev stock_flags : ℕ → ℕ
stock_flags i = if i == 1 then 0xFF0000CE else 0xFF000090

abbrev stock_namespace : ℕ → Bool
stock_namespace i = (i == 1) || (i == 2)

abbrev stock_index : ℕ → ℕ
stock_index id = if id == applet_id_alphaword then 1 else if id == applet_id_alphaquiz then 2 else 3

abbrev stock_set_folder : ℕ → ℕ → Answer ℕ
stock_set_folder i folder =
    if stock_namespace i
    then record { result = folder; written = some (stock_flags i); after = i }
    else if i == 3
    then record { result = raw_no_file_namespace; written = some 0; after = folder }
    else record { result = raw_invalid_applet; written = some 0; after = folder }

abbrev stock : FileSystem ℕ
stock = record {
  applet_find_by_id = λ id folder. stock_index id;
  file_set_folder = stock_set_folder;
}

stock-Documented : Documented stock (λ folder. folder) stock_flags stock_namespace (λ i. i == 3)
stock-Documented = record {
  accepts = λ i s h. rw h (refl, refl, refl);
  refuses_empty = λ i s h. ground arith;
  refuses_range = λ i s h. ground arith;
  in_range = λ i h. ground arith;
}

run_probe-passes_example :
    ((run_probe stock 2).0.checks ≡ 14)
    × ((run_probe stock 2).0.failures ≡ 0)
    × ((run_probe stock 2).1 ≡ 2)
run_probe-passes_example =
    run_probe-passes stock-Documented 2 1 2 3 refl refl refl refl (omega arith) (omega arith)
      (omega arith) (omega arith) refl refl refl refl refl

stock-Stock : Stock stock stock_flags stock_namespace (λ i. i == 3) 1 2 3
stock-Stock = record {
  finds_word = λ s. refl;
  finds_quiz = λ s. refl;
  finds_calculator = λ s. refl;
  some_word = omega arith;
  some_quiz = omega arith;
  some_calculator = omega arith;
  calculator_in = omega arith;
  word_namespace = refl;
  quiz_namespace = refl;
  calculator_none = refl;
  word_flag = refl;
  quiz_flag = refl;
}

abbrev formats : Formats
formats = record {
  missing_line = λ mask. [];
  checks_line = λ failures checks. [];
  word_line = λ result flags. [];
  calculator_line = λ result flags. [];
  invalid_line = λ result flags. [];
}

-- The probe runs twice, and loses the focus.
abbrev messages : List (ℕ × ℕ)
messages = (msg_key, key_mod_cmd + key_f) ∷ (msg_key, key_mod_cmd + key_f) ∷ (msg_killfocus, 0) ∷ []

messages-later : All IsLater messages
messages-later = omega arith

folder_session_example :
    (c' : Console) × (p : Results × ℕ) × (session
        (handle rom formats stock)
        messages
        fresh_screen
        (reset_results, 2)
      ≡ some (c', p))
    × IsSized font (blank 8 44) c'
    × (p.0.failures ≡ 0)
    × (p.1 ≡ 2)
folder_session_example =
    folder_session stock-Documented stock-Stock rom formats messages fresh_screen reset_results 2
      messages-later refl (omega arith) fresh_screen-IsSized refl
