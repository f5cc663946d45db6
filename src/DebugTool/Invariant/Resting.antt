-- ===== src/DebugTool/Invariant/Resting.antt =====
-- applets/DebugTool/DebugTool.c under os3k/os3k.c: MSG_SETFOCUS, from a window left at rest.
use betawise.Base.{ℕ, ◌*◌, ◌%◌, ◌^◌, ◌≤◌, ◌<◌, ◌≡◌, ◌⊎◌, refl, arith, ap, some, u8}
use betawise.Keys.{msg_setfocus, sys_int_get_row_count}
use betawise.Os.{Os, Event, Font}
use betawise.Console.{Console, call_moving, clear_screen}
use betawise.Runtime.{choose_font, prepare, call_sys_int}
use betawise.Runtime.Focus.{Measures, measured, on_setfocus_lem}
use betawise.DebugTool.Dump.{Machine, Viewer, dump_redraw_screen}
use betawise.DebugTool.Frame.{Draws-screen}
use betawise.DebugTool.Messages.{on_setfocus}
use betawise.DebugTool.Process.{process_message, handle}
use betawise.DebugTool.Invariant.{IsSane, HoldsBytes, screen-IsSane}
use betawise.DebugTool.Invariant.Session.{handle_through}

-- What MSG_INIT and every sane state give: where the window stands, without a screen to stand on.
pub record IsResting (v : Viewer) (rows : ℕ) : Type 0 where
  pub aligned : v.address % 8 ≡ 0
  pub in_memory : v.address < 2 ^ 32
  pub prev_fits : v.prev_address < 2 ^ 32
  pub cursor_in : v.cursor < 8 * rows
  pub bytes : HoldsBytes v.memory

row_count :
    (os : Os) {f : Font} (c : Console)
    → c.cur_font ≡ some f
    → call_sys_int os sys_int_get_row_count c ≡ ((0, c.max_row), c)
unfolding call_sys_int
row_count os c e = ground arith

-- The viewer with a screen of `rows` rows.
abbrev pub focused : ℕ → Console → Viewer → Viewer
focused rows console v = record v {
  console = console;
  rows_per_screen = rows;
  bytes_per_screen = 8 * rows;
}

pub on_setfocus_draws :
    (m : Machine) (v : Viewer) {f : Font} {rows : ℕ} (c : Console)
    → c.cur_font ≡ some f
    → c.max_row ≡ rows
    → rows ≤ 14
    → on_setfocus m (record v { console = c })
      ≡ dump_redraw_screen m (focused rows (clear_screen m.os c) v)
unfolding on_setfocus
on_setfocus_draws m v {f} {rows} c ef er h =
    let byte : u8 c.max_row ≡ rows = omega arith in
    let bytes : u8 (8 * rows) ≡ 8 * rows = omega arith in
    rw (row_count m.os c ef) (rw byte (rw bytes refl))

pub focused-IsSane :
    {v : Viewer} (rows : ℕ) (console : Console)
    → (rows ≡ 4) ⊎ (rows ≡ 8)
    → IsResting v rows
    → IsSane (focused rows console v)
focused-IsSane rows console few rest = record {
  in_view = record {
    some_rows = omega arith;
    rows_fit = omega arith;
    bytes_eq = refl;
    cursor_in = rest.cursor_in;
    aligned = rest.aligned;
    in_memory = rest.in_memory;
  };
  rows = few;
  prev_fits = rest.prev_fits;
  bytes = rest.bytes;
}

pub setfocus_redraws :
    (m : Machine) (fuel param : ℕ) (v : Viewer) {f g : Font} {rows cols : ℕ}
    → v.console.cur_font ≡ some g
    → (choose_font m.os (call_moving m.os Event.clear_screen v.console)).cur_font ≡ some f
    → Measures f rows cols v.console
    → (rows ≡ 4) ⊎ (rows ≡ 8)
    → let c =
        measured rows cols (choose_font m.os (call_moving m.os Event.clear_screen v.console)) in
      let w = dump_redraw_screen m (focused rows (clear_screen m.os c) v) in
      handle m fuel msg_setfocus param v ≡ some (w.console, w)
unfolding prepare process_message
setfocus_redraws m fuel param v {f} {g} {rows} {cols} eg ef measures few =
    let c = measured rows cols (choose_font m.os (call_moving m.os Event.clear_screen v.console)) in
    let u = focused rows (clear_screen m.os c) v in
    handle_through m fuel msg_setfocus param v (dump_redraw_screen m u) c
      (on_setfocus_lem m.os v.console eg ef measures)
      (ap some (on_setfocus_draws m v c ef refl (omega arith)))

-- MSG_SETFOCUS under the runtime, with a system font and a font then chosen that measures the LCD in 4 or
-- 8 rows: it completes in a sane state with that many rows, if the window was left at rest for them.
pub setfocus-IsSane :
    (m : Machine) (fuel param : ℕ) (v : Viewer) {f g : Font} {rows cols : ℕ}
    → v.console.cur_font ≡ some g
    → (choose_font m.os (call_moving m.os Event.clear_screen v.console)).cur_font ≡ some f
    → Measures f rows cols v.console
    → (rows ≡ 4) ⊎ (rows ≡ 8)
    → IsResting v rows
    → (c : Console) × (w : Viewer) × (handle m fuel msg_setfocus param v ≡ some (c, w))
      × IsSane w
      × (w.rows_per_screen ≡ rows)
setfocus-IsSane m fuel param v {f} {g} {rows} {cols} eg ef measures few rest =
    let c = measured rows cols (choose_font m.os (call_moving m.os Event.clear_screen v.console)) in
    let u = focused rows (clear_screen m.os c) v in
    (
      (dump_redraw_screen m u).console,
      dump_redraw_screen m u,
      setfocus_redraws m fuel param v eg ef measures few,
      screen-IsSane m (focused-IsSane rows (clear_screen m.os c) few rest),
      ap (λ (x : Viewer). x.rows_per_screen) (Draws-screen m u),
    )
