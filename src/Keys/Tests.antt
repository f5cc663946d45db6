-- ===== src/Keys/Tests.antt =====
-- os3k/os3k.h: the theorems on key events, at the keys of the applets.
use betawise.Base.{◌≡◌, ◌↔◌, refl, arith, true, false}
use betawise.Keys.{msg_key}
use betawise.Keys.Table.{letter_r, letter_f, letter_i}
use betawise.Keys.Events.{Modifiers, key_event}
use betawise.DebugTool.Process.{handle}
use betawise.DebugTool.CapsLock.{handle-caps_lock}
use betawise.DebugTool.Samples.{machine, last_byte}
use betawise.Probes.Folder.Screen
use betawise.Probes.FileInfo.Screen as InfoScreen
use betawise.Probes.RunKey.{is_run_key_lem}

-- Control and Caps Lock.
abbrev held : Modifiers
held = record {
  ctrl = true;
  cmd = false;
  alt = false;
  rightshift = false;
  leftshift = false;
  caps_lock = true;
  key_up = false;
}

control_r : key_event letter_r held ≡ 0x8223
unfolding key_event
control_r = refl

handle-caps_lock_example :
    handle machine 1 msg_key (key_event letter_r held) last_byte
    ≡ handle machine 1 msg_key (key_event letter_r (record held { caps_lock = false })) last_byte
handle-caps_lock_example = handle-caps_lock machine 1 letter_r held last_byte (omega arith)

abbrev command_held : Modifiers
command_held = record held { cmd = true }

is_run_key_lem_example :
    ((Screen.is_run_key (key_event letter_f command_held) ≡ true)
      ↔ ((letter_f ≡ letter_f) × (true ≡ true) × (false ≡ false)))
    × ((InfoScreen.is_run_key (key_event letter_f command_held) ≡ true)
        ↔ ((letter_f ≡ letter_i) × (true ≡ true) × (false ≡ false)))
is_run_key_lem_example = is_run_key_lem letter_f command_held (omega arith)
