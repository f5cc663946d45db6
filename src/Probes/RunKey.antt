-- ===== src/Probes/RunKey.antt =====
-- applets/FileSetFolderProbe/FileSetFolderProbe.c and applets/FileGetFileInfoProbe/FileGetFileInfoProbe.c: the keys that
-- start the probes, as key events of os3k/os3k.h.
use betawise.Base.{◌≡◌, ◌≢◌, ◌↔◌, arith, true, false}
use betawise.Keys.Table.{Key, key_code, letter_f, letter_i}
use betawise.Keys.Events.{Modifiers, key_event}
use betawise.Keys.Masks.{command_key}
use betawise.Probes.Folder.Screen
use betawise.Probes.FileInfo.Screen as InfoScreen

-- A key event starts the FileSetFolder probe exactly when it is F going down with Command, and the FileGetFileInfo probe exactly
-- when it is I going down with Command, whatever the other modifiers are.
pub is_run_key_lem :
    (key : Key) (m : Modifiers)
    → key_code key ≢ 0xFF
    → ((Screen.is_run_key (key_event key m) ≡ true)
        ↔ ((key ≡ letter_f) × (m.cmd ≡ true) × (m.key_up ≡ false)))
      × ((InfoScreen.is_run_key (key_event key m) ≡ true)
          ↔ ((key ≡ letter_i) × (m.cmd ≡ true) × (m.key_up ≡ false)))
is_run_key_lem key m h =
    (command_key letter_f key m (omega arith) h, command_key letter_i key m (omega arith) h)
