-- ===== src/Probes/FileInfo/Screen.antt =====
-- applets/FileGetFileInfoProbe/FileGetFileInfoProbe.c: what the probe draws, and its messages under the runtime.
use betawise.Base.{ℕ, List, [], ◌∷◌, Option, some, Bool, not, ◌==◌, ◌&&◌, bit_and, if◌then◌else◌}
use betawise.Keys.{msg_setfocus, msg_key, key_i, key_mod_cmd}
use betawise.Os.{Os}
use betawise.Console.{Console}
use betawise.Runtime.{bw_process_message}
use betawise.Probes.FileInfo.{Results, FileInfo, run_probe}
use betawise.Probes.Screen.{start_screen, put_line, put_centered}

-- What `sprintf` makes of its formats: "FGFI %u/%u fail", "ptr %08lx/%08lx", "sz %lu max %lu" and
-- "cur %lu ub %08lx".
pub record Formats : Type 0 where
  pub checks_line : ℕ → ℕ → List ℕ
  pub storage_line : ℕ → ℕ → List ℕ
  pub size_line : ℕ → ℕ → List ℕ
  pub cursor_line : ℕ → ℕ → List ℕ

abbrev title : List ℕ
title =
    b'F' ∷ b'i' ∷ b'l' ∷ b'e' ∷ b'G' ∷ b'e' ∷ b't' ∷ b'F' ∷ b'i' ∷ b'l' ∷ b'e' ∷ b'I' ∷ b'n' ∷ b'f'
    ∷ b'o' ∷ b' ' ∷ b'p' ∷ b'r' ∷ b'o' ∷ b'b' ∷ b'e' ∷ []

abbrev run_text : List ℕ
run_text =
    b'C' ∷ b'm' ∷ b'd' ∷ b'+' ∷ b'I' ∷ b':' ∷ b' ' ∷ b'r' ∷ b'u' ∷ b'n' ∷ b' ' ∷ b't' ∷ b'e' ∷ b's'
    ∷ b't' ∷ b's' ∷ []

abbrev read_only_text : List ℕ
read_only_text =
    b'R' ∷ b'e' ∷ b'a' ∷ b'd' ∷ b'-' ∷ b'o' ∷ b'n' ∷ b'l' ∷ b'y' ∷ b' ' ∷ b'/' ∷ b' ' ∷ b'u' ∷ b'n'
    ∷ b'b' ∷ b'i' ∷ b'n' ∷ b'd' ∷ b's' ∷ []

module _ (os : Os) (formats : Formats) where
  open formats use {checks_line, storage_line, size_line, cursor_line}

  unfoldable pub draw_results : Results → Console → Console
  draw_results r c = put_line os 4 (cursor_line r.cursor r.unbind_return) (
      put_line os 3 (size_line r.current_size r.max_size) (
        put_line os 2 (storage_line r.returned_storage r.mirrored_storage)
          (put_line os 1 (checks_line r.failures r.checks) (start_screen os c))))

  unfoldable pub draw_idle_screen : Console → Console
  draw_idle_screen c =
      put_centered os 4 read_only_text
        (put_centered os 2 run_text (put_centered os 1 title (start_screen os c)))

-- Command and I.
abbrev pub is_run_key : ℕ → Bool
is_run_key param = (bit_and param 0xFF == key_i) && not (bit_and param key_mod_cmd == 0)

module _ {S : Type 0} (os : Os) (formats : Formats) (info : FileInfo S) where
  unfoldable pub process_message : ℕ → ℕ → Console → Results × S → Console × (Results × S)
  process_message message param c (r, s) =
      let (r', s') = run_probe info s in
      if message == msg_setfocus
      then (draw_idle_screen os formats c, (r, s))
      else if message == msg_key && is_run_key param
      then (draw_results os formats r' c, (r', s'))
      else (c, (r, s))

  -- Under `BwProcessMessage`.
  unfoldable pub handle : ℕ → ℕ → Console → Results × S → Option (Console × (Results × S))
  unfolding process_message bw_process_message
  handle message param c p =
      bw_process_message os (λ message param c p. some (process_message message param c p)) message
        param c p
