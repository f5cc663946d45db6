-- ===== src/DebugTool/Invariant/Calls.antt =====
-- applets/DebugTool/DebugTool.c: the invariant under Ctrl+I, whose call may run any code that keeps it.
use betawise.Base.{ℕ, ◌≡◌, inl, inr, arith, List, some, Option-cases}
use mathlib.Core.Path.{subst}
use betawise.Console.{clear_screen}
use betawise.DebugTool.Dump.{Machine, Viewer, on_console, dump_redraw_screen}
use betawise.DebugTool.Dialog.{dialog_loop, call_dialog}
use betawise.DebugTool.Invariant.{IsSane, screen-IsSane}
use betawise.DebugTool.Invariant.Prompts.{IsSane-beside, IsSane-Closed}
use betawise.DebugTool.Closed.{Calls}
use betawise.DebugTool.Closed.Dialog.{dialog-keeps}

module _ (m : Machine)
    (keeps : (f : ℕ) (args : List ℕ) (v : Viewer) → IsSane v → IsSane (m.run_code f args v).1) where
  IsSane-Calls : Calls m IsSane
  IsSane-Calls = record {
    closed = IsSane-Closed m;
    cleared = λ v s. IsSane-beside _ v.raw_sys_call v.buffers s;
    call_printed = λ values v s. IsSane-beside _ v.raw_sys_call v.buffers s;
    result_printed = λ value v s. IsSane-beside _ v.raw_sys_call v.buffers s;
    runs = keeps;
  }

  -- Ctrl+I, when it ends.
  pub call_dialog-IsSane :
      (fuel : ℕ) {v w : Viewer} → call_dialog m fuel v ≡ some w → IsSane v → IsSane w
  unfolding call_dialog
  call_dialog-IsSane fuel {v} {w} e s =
      let start = on_console m (clear_screen m.os) v in
      elim (Option-cases (dialog_loop m fuel 1 start)) [
        | inl waits ↦ ground arith
        | inr (u, gone) ↦
            let q : dump_redraw_screen m u ≡ w = ground arith in
            subst IsSane q (screen-IsSane m (dialog-keeps m IsSane IsSane-Calls fuel v u gone s))
      ]
