-- ===== src/Probes/FileInfo/Tests.antt =====
-- applets/FileGetFileInfoProbe/FileGetFileInfoProbe.c: the probe on a ROM with a clipboard of 100 bytes of 512.
use betawise.Base.{arith, List, [], ◌∷◌, All, ◌+◌, ◌≡◌, ◌≢◌, ◌≤◌, ◌↔◌, ◌⊎◌, ℕ, some}
use betawise.Probes.FileInfo.{
  file_token_clipboard, poison, local_after, Results, FileInfo, run_probe,
}
use betawise.Keys.{msg_key, msg_killfocus, key_i, key_mod_cmd}
use betawise.Console.{Console}
use betawise.Console.Terminal.{IsSized}
use betawise.Runtime.Focus.{blank}
use betawise.Samples.{rom, font, fresh_screen, fresh_screen-IsSized}
use betawise.Probes.Screen.{IsLater, session}
use betawise.Probes.FileInfo.Screen.{Formats, handle}
use betawise.Probes.FileInfo.Session.{file_info_session}
use betawise.Probes.FileInfo.Contract.{run_probe-passes_iff}

abbrev clipboard : FileInfo ℕ
clipboard = record {
  bind = λ token calls. record {
    base = 0x8000;
    storage = some 0x8000;
    size = some 100;
    max_size = some 512;
    cursor = some 7;
    after = calls + 1;
  };
  unbind = λ token calls. (0x8000, calls + 1);
}

run_probe-passes_iff_example :
    let a = clipboard.bind file_token_clipboard 0 in
    ((run_probe clipboard 0).0.failures ≡ 0) ↔ (
      ((a.base ≢ 0)
        × (local_after a.storage ≡ a.base)
        × (local_after a.size ≢ poison)
        × (local_after a.max_size ≢ poison)
        × (local_after a.cursor ≢ poison)
        × (local_after a.size ≤ local_after a.max_size)
        × (local_after a.cursor ≤ local_after a.max_size))
      × ((clipboard.unbind file_token_clipboard a.after).0 ≡ a.base))
run_probe-passes_iff_example = run_probe-passes_iff clipboard 0

abbrev formats : Formats
formats = record {
  checks_line = λ failures checks. [];
  storage_line = λ returned mirrored. [];
  size_line = λ size max. [];
  cursor_line = λ cursor unbound. [];
}

abbrev zeroed : Results
zeroed = record {
  returned_storage = 0;
  mirrored_storage = 0;
  unbind_return = 0;
  current_size = 0;
  max_size = 0;
  cursor = 0;
  checks = 0;
  failures = 0;
}

-- The probe runs twice, and loses the focus.
abbrev messages : List (ℕ × ℕ)
messages = (msg_key, key_mod_cmd + key_i) ∷ (msg_key, key_mod_cmd + key_i) ∷ (msg_killfocus, 0) ∷ []

messages-later : All IsLater messages
messages-later = omega arith

file_info_session_example :
    (c' : Console) × (p : Results × ℕ) × (session
        (handle rom formats clipboard)
        messages
        fresh_screen
        (zeroed, 0)
      ≡ some (c', p))
    × IsSized font (blank 8 44) c'
    × ((p ≡ (zeroed, 0)) ⊎ ((s' : ℕ) × (p ≡ run_probe clipboard s')))
file_info_session_example =
    file_info_session clipboard rom formats messages fresh_screen zeroed 0 messages-later
      (omega arith) fresh_screen-IsSized
