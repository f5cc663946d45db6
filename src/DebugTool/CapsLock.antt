-- ===== src/DebugTool/CapsLock.antt =====
-- applets/DebugTool/DebugTool.c under os3k/os3k.c: Caps Lock, and the key events of os3k/os3k.h.
use betawise.Base.{ℕ, ◌≡◌, ◌≢◌, refl, ◌∙◌, sym, arith, false, bit_and}
use betawise.Keys.{msg_key}
use betawise.Keys.Table.{Key, key_code}
use betawise.Keys.Events.{Modifiers, key_event}
use betawise.Keys.Masks.{clear_caps_lock}
use betawise.Runtime.{bw_process_message}
use betawise.DebugTool.Dump.{Machine, Viewer}
use betawise.DebugTool.Process.{on_key, process_message, as_applet, handle}

process_masked :
    (m : Machine) (fuel param param' : ℕ) (v : Viewer)
    → bit_and param 0xFFFFFDFF ≡ bit_and param' 0xFFFFFDFF
    → process_message m fuel msg_key param v ≡ process_message m fuel msg_key param' v
unfolding process_message on_key
process_masked m fuel param param' v e = rw e refl

handle_masked :
    (m : Machine) (fuel param param' : ℕ) (v : Viewer)
    → bit_and param 0xFFFFFDFF ≡ bit_and param' 0xFFFFFDFF
    → handle m fuel msg_key param v ≡ handle m fuel msg_key param' v
unfolding handle as_applet bw_process_message
handle_masked m fuel param param' v e = ground (arith, process_masked m fuel param param' v e)

-- What the viewer does on a key under the runtime, with whatever modifiers, is what it does without Caps Lock.
pub handle-caps_lock :
    (m : Machine) (fuel : ℕ) (key : Key) (mods : Modifiers) (v : Viewer)
    → key_code key ≢ 0xFF
    → handle m fuel msg_key (key_event key mods) v
      ≡ handle m fuel msg_key (key_event key (record mods { caps_lock = false })) v
handle-caps_lock m fuel key mods v h =
    handle_masked m fuel (key_event key mods) (key_event key (record mods { caps_lock = false })) v
      (clear_caps_lock key mods h ∙ sym (clear_caps_lock key (record mods { caps_lock = false }) h))
