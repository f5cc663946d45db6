-- ===== src/Probes/Folder.antt =====
-- applets/FileSetFolderProbe/FileSetFolderProbe.c: the probe's run. The ROM's file system is a state
-- with two operations; an `int32_t` is its bit pattern.
pub mod Contract
pub mod Screen
pub mod Session
pub mod Tests
use betawise.Base.{
  ℕ, ◌+◌, ◌^◌, bit_and, bit_or, Option, none, some, Bool, true, false, not, ◌==◌, if◌then◌else◌, u8,
  u16, is_negative32,
}

abbrev pub applet_id_alphaword : ℕ
applet_id_alphaword = 0xA000

abbrev pub applet_id_alphaquiz : ℕ
applet_id_alphaquiz = 0xA001

abbrev pub applet_id_calculator : ℕ
applet_id_calculator = 0xA002

-- -7, -64 and -999.
abbrev pub raw_no_file_namespace : ℕ
raw_no_file_namespace = 0xFFFFFFF9

abbrev pub raw_invalid_applet : ℕ
raw_invalid_applet = 0xFFFFFFC0

abbrev pub unset_result : ℕ
unset_result = 0xFFFFFC19

-- The value that the flags have before a call.
abbrev pub poison : ℕ
poison = 0xDEADBEEF

-- `ProbeResults_t`.
pub record Results : Type 0 where
  pub alpha_word_index : ℕ
  pub alpha_quiz_index : ℕ
  pub calculator_index : ℕ
  pub missing_mask : ℕ
  pub alpha_word_result : ℕ
  pub alpha_word_restore_result : ℕ
  pub alpha_word_flags : ℕ
  pub alpha_quiz_result : ℕ
  pub alpha_quiz_restore_result : ℕ
  pub alpha_quiz_flags : ℕ
  pub no_files_result : ℕ
  pub no_files_restore_result : ℕ
  pub no_files_flags : ℕ
  pub invalid_result : ℕ
  pub invalid_restore_result : ℕ
  pub invalid_flags : ℕ
  pub checks : ℕ
  pub failures : ℕ

unfoldable pub check : Bool → Results → Results
check condition r =
    if condition
    then record r { checks = u16 (r.checks + 1) }
    else record r { checks = u16 (r.checks + 1); failures = u16 (r.failures + 1) }

abbrev pub reset_results : Results
reset_results = record {
  alpha_word_index = 0;
  alpha_quiz_index = 0;
  calculator_index = 0;
  missing_mask = 0;
  alpha_word_result = unset_result;
  alpha_word_restore_result = unset_result;
  alpha_word_flags = 0;
  alpha_quiz_result = unset_result;
  alpha_quiz_restore_result = unset_result;
  alpha_quiz_flags = 0;
  no_files_result = unset_result;
  no_files_restore_result = unset_result;
  no_files_flags = 0;
  invalid_result = unset_result;
  invalid_restore_result = unset_result;
  invalid_flags = 0;
  checks = 0;
  failures = 0;
}

-- What a call of FileSetFolder returns, what it writes through a pointer that is not null, and the
-- state that it leaves.
pub record Answer (S : Type 0) : Type 0 where
  pub result : ℕ
  pub written : Option ℕ
  pub after : S

-- The two operations of the ROM.
pub record FileSystem (S : Type 0) : Type 0 where
  pub applet_find_by_id : ℕ → S → ℕ
  pub file_set_folder : ℕ → S → Answer S

-- The flags after a call, if they were `old` before it.
abbrev pub flags_after : Option ℕ → ℕ → ℕ
flags_after none old = old
flags_after (some flags) old = flags

module _ {S : Type 0} (fs : FileSystem S) where
  open fs use {applet_find_by_id, file_set_folder}

  unfoldable pub run_alpha_word_case : Results → S → Results × S
  run_alpha_word_case r s =
      let a = file_set_folder r.alpha_word_index s in
      let flags = flags_after a.written poison in
      let r1 = record r { alpha_word_flags = flags; alpha_word_result = a.result } in
      let r2 = check (not (bit_and flags 0x40 == 0)) (check (not (is_negative32 a.result)) r1) in
      if is_negative32 a.result
      then (r2, a.after)
      else (let b = file_set_folder a.result a.after in
          (
            check (b.result == r.alpha_word_index)
                (record r2 { alpha_word_restore_result = b.result }),
            b.after,
          ))

  unfoldable pub run_alpha_quiz_case : Results → S → Results × S
  run_alpha_quiz_case r s =
      let a = file_set_folder r.alpha_quiz_index s in
      let flags = flags_after a.written poison in
      let r1 = record r { alpha_quiz_flags = flags; alpha_quiz_result = a.result } in
      let r2 = check (bit_and flags 0x40 == 0) (check (not (is_negative32 a.result)) r1) in
      if is_negative32 a.result
      then (r2, a.after)
      else (let b = file_set_folder a.result a.after in
          (
            check (b.result == r.alpha_quiz_index)
                (record r2 { alpha_quiz_restore_result = b.result }),
            b.after,
          ))

  unfoldable pub run_no_file_namespace_case : Results → S → Results × S
  run_no_file_namespace_case r s =
      let a = file_set_folder r.alpha_quiz_index s in
      let r1 = check (not (is_negative32 a.result)) r in
      if is_negative32 a.result
      then (r1, a.after)
      else (let b = file_set_folder r.calculator_index a.after in
          let flags = flags_after b.written poison in
          let r2 = record r1 { no_files_flags = flags; no_files_result = b.result } in
          let r3 = check (flags == 0) (check (b.result == raw_no_file_namespace) r2) in
          let c = file_set_folder a.result b.after in
          (
            check (c.result == r.alpha_quiz_index)
                (record r3 { no_files_restore_result = c.result }),
            c.after,
          ))

  unfoldable pub run_invalid_index_case : Results → S → Results × S
  run_invalid_index_case r s =
      let a = file_set_folder r.alpha_quiz_index s in
      let r1 = check (not (is_negative32 a.result)) r in
      if is_negative32 a.result
      then (r1, a.after)
      else (let b = file_set_folder 32 a.after in
          let flags = flags_after b.written poison in
          let r2 = record r1 { invalid_flags = flags; invalid_result = b.result } in
          let r3 = check (flags == 0) (check (b.result == raw_invalid_applet) r2) in
          let c = file_set_folder a.result b.after in
          (
            check (c.result == r.alpha_quiz_index)
                (record r3 { invalid_restore_result = c.result }),
            c.after,
          ))

  -- The applets' indices, and which of the applets are missing.
  unfoldable pub find_applets : S → Results
  find_applets s =
      let word = u8 (applet_find_by_id applet_id_alphaword s) in
      let quiz = u8 (applet_find_by_id applet_id_alphaquiz s) in
      let calculator = u8 (applet_find_by_id applet_id_calculator s) in
      let mask1 = if word == 0 then bit_or 0 1 else 0 in
      let mask2 = if quiz == 0 then bit_or mask1 2 else mask1 in
      record reset_results {
        alpha_word_index = word;
        alpha_quiz_index = quiz;
        calculator_index = calculator;
        missing_mask = if calculator == 0 then bit_or mask2 4 else mask2;
      }

  unfoldable pub run_probe : S → Results × S
  run_probe s =
      let found = find_applets s in
      if found.missing_mask == 0
      then (let (r1, s1) = run_alpha_word_case found s in
          let (r2, s2) = run_alpha_quiz_case r1 s1 in
          let (r3, s3) = run_no_file_namespace_case r2 s2 in run_invalid_index_case r3 s3)
      else (found, s)
