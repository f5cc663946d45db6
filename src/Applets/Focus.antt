-- ===== src/Applets/Focus.antt =====
-- applets/HelloWorld/HelloWorld.c and applets/EhBASIC/wrapper.c under os3k/os3k.c: what the applets find on MSG_SETFOCUS.
use betawise.Base.{ℕ, ◌≡◌, some}
use betawise.Keys.{msg_setfocus}
use betawise.Os.{Os, Event, Font}
use betawise.Console.{Console, call, call_moving, clear_screen, cursor_show}
use betawise.Console.Terminal.{IsSized}
use betawise.Runtime.{choose_font, prepare}
use betawise.Runtime.Focus.{blank, Measures, measured, on_setfocus_lem, measured-IsSized}
use betawise.Probes.Screen.{bw_through}
use betawise.Applets.{Basic, basic_message, basic_handle}

-- MSG_SETFOCUS of the wrapper under the runtime, with a system font and a font then chosen that measures the LCD: it is the
-- interpreter's resumption, on a screen of the measured size that is not scrolled and with the cursor in its first cell.
pub basic_resumes :
    {S : Type 0} (os : Os) (basic : Basic S) (param : ℕ) (c : Console) (s : S) {f g : Font}
    {rows cols : ℕ}
    → c.cur_font ≡ some g
    → (choose_font os (call_moving os Event.clear_screen c)).cur_font ≡ some f
    → Measures f rows cols c
    → (c' : Console) × (basic_handle os basic msg_setfocus param c s ≡ some (basic.resume c' s))
      × IsSized f (blank rows cols) c'
      × (c'.cur_row ≡ 1)
      × (c'.cur_col ≡ 1)
unfolding basic_handle basic_message prepare
basic_resumes os basic param c s {f} {g} {rows} {cols} eg ef measures =
    let c1 = measured rows cols (choose_font os (call_moving os Event.clear_screen c)) in
    let c2 = call (Event.set_cursor_mode cursor_show) (clear_screen os c1) in
    let ready : prepare os msg_setfocus c ≡ some c1 = on_setfocus_lem os c eg ef measures in
    let sized = measured-IsSized os c ef measures in
    (
      c2,
      bw_through os (λ message param c s. some (basic_message os basic message param c s))
          msg_setfocus param c c1 s ready,
      assumption sized.0,
      sized.1,
      sized.2,
    )
