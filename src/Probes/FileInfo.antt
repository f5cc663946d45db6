-- ===== src/Probes/FileInfo.antt =====
-- applets/FileGetFileInfoProbe/FileGetFileInfoProbe.c: the probe's run. The ROM's function is a parameter.
mod Contract
pub mod Screen
mod Session
mod Tests
use betawise.Base.{
  ℕ, ◌+◌, Option, none, some, Bool, true, false, not, ◌==◌, leb, if◌then◌else◌, u16,
}

abbrev pub file_token_clipboard : ℕ
file_token_clipboard = 0x00CB

-- What the locals hold before the call.
abbrev pub poison : ℕ
poison = 0xDEADBEEF

-- `ProbeResults_t`.
pub record Results : Type 0 where
  pub returned_storage : ℕ
  pub mirrored_storage : ℕ
  pub unbind_return : ℕ
  pub current_size : ℕ
  pub max_size : ℕ
  pub cursor : ℕ
  pub checks : ℕ
  pub failures : ℕ

unfoldable pub check : Bool → Results → Results
check condition r =
    if condition
    then record r { checks = u16 (r.checks + 1) }
    else record r { checks = u16 (r.checks + 1); failures = u16 (r.failures + 1) }

-- What FileGetFileInfo returns, what it writes through its four pointers where it writes, and the state
-- that it leaves.
pub record Reply (S : Type 0) : Type 0 where
  pub base : ℕ
  pub storage : Option ℕ
  pub size : Option ℕ
  pub max_size : Option ℕ
  pub cursor : Option ℕ
  pub after : S

-- A local after the call.
abbrev pub local_after : Option ℕ → ℕ
local_after none = poison
local_after (some n) = n

-- `bind` is the call with four pointers, and `unbind` the call with four null pointers.
pub record FileInfo (S : Type 0) : Type 0 where
  pub bind : ℕ → S → Reply S
  pub unbind : ℕ → S → ℕ × S

-- The seven checks after the first call.
unfoldable pub check_reply : ℕ → ℕ → ℕ → ℕ → ℕ → Results → Results
check_reply base storage size max_size cursor r = check (leb cursor max_size) (
    check (leb size max_size) (
      check (not (cursor == poison)) (
        check (not (max_size == poison))
          (check (not (size == poison)) (check (storage == base) (check (not (base == 0)) r))))))

-- The results as the first call leaves them; the others are zeroed.
abbrev pub results_of : {S : Type 0} → Reply S → Results
results_of a = record {
  returned_storage = a.base;
  mirrored_storage = local_after a.storage;
  unbind_return = 0;
  current_size = local_after a.size;
  max_size = local_after a.max_size;
  cursor = local_after a.cursor;
  checks = 0;
  failures = 0;
}

-- The first call with its checks.
abbrev pub checked : {S : Type 0} → Reply S → Results
checked a =
    check_reply a.base (local_after a.storage) (local_after a.size) (local_after a.max_size)
      (local_after a.cursor) (results_of a)

module _ {S : Type 0} (info : FileInfo S) where
  unfoldable pub run_probe : S → Results × S
  run_probe s =
      let a = info.bind file_token_clipboard s in
      let (base, after) = info.unbind file_token_clipboard a.after in
      (check (base == a.base) (record (checked a) { unbind_return = base }), after)
