-- ===== src/DebugTool/Startup.antt =====
-- applets/DebugTool/DebugTool.c under os3k/os3k.c: the screen when the viewer gets the focus.
use betawise.Base.{ℕ, ◌+◌, ◌/◌, ◌%◌, u32, ◌≡◌, ◌⊎◌, refl, arith, some, false}
use betawise.Keys.{msg_setfocus}
use betawise.Os.{Event, Font}
use betawise.Console.{Console, call_moving, clear_screen}
use betawise.Console.Terminal.{Terminal, Shows}
use betawise.Console.Stdio.{glyph_address}
use betawise.Console.Picture.{glyph, cell_at}
use betawise.Runtime.{choose_font}
use betawise.Runtime.Focus.{blank, Measures, measured, measured-IsSized}
use betawise.DebugTool.Dump.{Mode, Machine, Viewer, dump_redraw_screen}
use betawise.DebugTool.Cells.{cell_col, dump_cell_lem}
use betawise.DebugTool.UnderCursor.{char_of, dump_cell-Displays}
use betawise.DebugTool.Process.{handle}
use betawise.DebugTool.Redraw.{PrintsHex, dump_redraw_screen-Shows}
use betawise.DebugTool.Invariant.Resting.{IsResting, focused, setfocus_redraws}

-- Where the cursor of a byte goes on a NEO: each row begins with an address of 8 digits from the third column on, and a space;
-- then come two digits and a space for each of eight bytes, and the eight characters.
abbrev pub cursor_of : ℕ → Mode → Terminal → Terminal
cursor_of offset mode t = record t { row = 1 + offset / 8; col = 12 + cell_col (offset % 8) mode }

-- MSG_SETFOCUS of the viewer on a NEO, under the runtime, with a system font and a font then chosen
-- that measures the LCD in 44 columns and 4 or 8 rows, the window having been left at rest for them,
-- and sprintf making printable text of 3 characters of a byte and of 9 of an address: it completes,
-- and the roll is taken back. The cursor's variables are those of the row of the byte at the viewer's cursor,
-- one row for eight bytes, and of the column of its first digit, its second or its character, by mode;
-- and in that cell of the LCD's memory stands that digit or that character of the byte in memory.
pub setfocus-cursor :
    (m : Machine) (fuel param : ℕ) (v : Viewer) {f g : Font} {rows : ℕ}
    → PrintsHex m
    → v.is_as3000 ≡ false
    → v.console.cur_font ≡ some g
    → (choose_font m.os (call_moving m.os Event.clear_screen v.console)).cur_font ≡ some f
    → Measures f rows 44 v.console
    → (rows ≡ 4) ⊎ (rows ≡ 8)
    → IsResting v rows
    → let t = cursor_of v.cursor v.mode (blank rows 44) in
      (c : Console) × (w : Viewer) × (handle m fuel msg_setfocus param v ≡ some (c, w))
      × Shows f t c
      × (cell_at f t c.history t.row t.col
          ≡ glyph (glyph_address f (char_of m v.mode (v.memory (u32 (v.address + v.cursor))))))
setfocus-cursor m fuel param v {f} {g} {rows} prints neo eg ef measures few rest =
    let c = measured rows 44 (choose_font m.os (call_moving m.os Event.clear_screen v.console)) in
    let u = focused rows (clear_screen m.os c) v in
    let sized = (measured-IsSized m.os v.console ef measures).0 in
    let inside = rest.cursor_in in
    let at = dump_cell_lem false v.cursor v.mode (omega (arith, inside)) in
    let shown =
      dump_redraw_screen-Shows m prints u (blank rows 44) rest.bytes neo refl refl (omega arith)
        rest.cursor_in sized in
    let displayed =
      dump_cell-Displays m prints u (blank rows 44) v.cursor v.mode rest.bytes neo refl refl
        (omega arith) (omega arith) rest.in_memory sized inside in
    (
      (dump_redraw_screen m u).console,
      dump_redraw_screen m u,
      setfocus_redraws m fuel param v eg ef measures few,
      rw (← at.0, ← at.1) shown,
      rw (← at.0, ← at.1) displayed,
    )
