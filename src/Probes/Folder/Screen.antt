-- ===== src/Probes/Folder/Screen.antt =====
-- applets/FileSetFolderProbe/FileSetFolderProbe.c: what the probe draws, and its messages under the runtime.
use betawise.Base.{ℕ, List, [], ◌∷◌, Option, some, Bool, not, ◌==◌, ◌&&◌, bit_and, if◌then◌else◌}
use betawise.Keys.{msg_setfocus, msg_key, key_f, key_mod_cmd}
use betawise.Os.{Os}
use betawise.Console.{Console}
use betawise.Runtime.{bw_process_message}
use betawise.Probes.Folder.{Results, FileSystem, run_probe}
use betawise.Probes.Screen.{start_screen, put_line, put_centered}

-- What `sprintf` makes of its formats: "Missing stock app:%02x", "FSF %u/%u fail", "AW %ld f=%02lx",
-- "CAL %ld f=%08lx" and "BAD %ld f=%08lx".
pub record Formats : Type 0 where
  pub missing_line : ℕ → List ℕ
  pub checks_line : ℕ → ℕ → List ℕ
  pub word_line : ℕ → ℕ → List ℕ
  pub calculator_line : ℕ → ℕ → List ℕ
  pub invalid_line : ℕ → ℕ → List ℕ

abbrev title : List ℕ
title =
    b'F' ∷ b'i' ∷ b'l' ∷ b'e' ∷ b'S' ∷ b'e' ∷ b't' ∷ b'F' ∷ b'o' ∷ b'l' ∷ b'd' ∷ b'e' ∷ b'r' ∷ b' '
    ∷ b'p' ∷ b'r' ∷ b'o' ∷ b'b' ∷ b'e' ∷ []

abbrev need_text : List ℕ
need_text =
    b'N' ∷ b'e' ∷ b'e' ∷ b'd' ∷ b' ' ∷ b'A' ∷ b'W' ∷ b'/' ∷ b'A' ∷ b'Q' ∷ b'/' ∷ b'C' ∷ b'a' ∷ b'l'
    ∷ b'c' ∷ b'u' ∷ b'l' ∷ b'a' ∷ b't' ∷ b'o' ∷ b'r' ∷ []

abbrev run_text : List ℕ
run_text =
    b'C' ∷ b'm' ∷ b'd' ∷ b'+' ∷ b'F' ∷ b':' ∷ b' ' ∷ b'r' ∷ b'u' ∷ b'n' ∷ b' ' ∷ b't' ∷ b'e' ∷ b's'
    ∷ b't' ∷ b's' ∷ []

abbrev emulator_text : List ℕ
emulator_text =
    b'E' ∷ b'm' ∷ b'u' ∷ b'l' ∷ b'a' ∷ b't' ∷ b'o' ∷ b'r' ∷ b' ' ∷ b'f' ∷ b'i' ∷ b'r' ∷ b's' ∷ b't'
    ∷ []

module _ (os : Os) (formats : Formats) where
  open formats use {missing_line, checks_line, word_line, calculator_line, invalid_line}

  unfoldable pub draw_results : Results → Console → Console
  draw_results r c =
      let started = start_screen os c in
      if not (r.missing_mask == 0)
      then put_line os 3 need_text
          (put_line os 2 (missing_line r.missing_mask) (put_centered os 1 title started))
      else put_line os 4 (invalid_line r.invalid_result r.invalid_flags) (
          put_line os 3 (calculator_line r.no_files_result r.no_files_flags) (
            put_line os 2 (word_line r.alpha_word_result (bit_and r.alpha_word_flags 0xFF))
              (put_line os 1 (checks_line r.failures r.checks) started)))

  unfoldable pub draw_idle_screen : Console → Console
  draw_idle_screen c =
      put_centered os 4 emulator_text
        (put_centered os 2 run_text (put_centered os 1 title (start_screen os c)))

-- Command and F.
abbrev pub is_run_key : ℕ → Bool
is_run_key param = (bit_and param 0xFF == key_f) && not (bit_and param key_mod_cmd == 0)

module _ {S : Type 0} (os : Os) (formats : Formats) (fs : FileSystem S) where
  unfoldable pub process_message : ℕ → ℕ → Console → Results × S → Console × (Results × S)
  process_message message param c (r, s) =
      let (r', s') = run_probe fs s in
      if message == msg_setfocus
      then (draw_idle_screen os formats c, (r, s))
      else if message == msg_key && is_run_key param
      then (draw_results os formats r' c, (r', s'))
      else (c, (r, s))

  -- Under `BwProcessMessage`.
  unfoldable pub handle : ℕ → ℕ → Console → Results × S → Option (Console × (Results × S))
  unfolding process_message bw_process_message
  handle message param c p =
      bw_process_message os (λ message param c p. some (process_message message param c p)) message
        param c p
