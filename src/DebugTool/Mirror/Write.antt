-- ===== src/DebugTool/Mirror/Write.antt =====
-- applets/DebugTool/DebugTool.c on the console of os3k/os3k.c: the screen and memory agree after a write.
use betawise.Base.{
  ℕ, ◌+◌, ◌≤◌, ◌<◌, ◌≡◌, ◌≢◌, inl, inr, refl, sym, arith, ◌∙◌, ap, List, [], ◌∷◌, length, Option,
  Bool, false, Bool-cases, u8, u32, ◌==◌,
}
use mathlib.Core.Path.{subst}
use betawise.Os.{Font}
use betawise.Console.{cursor_hide, set_cursor}
use betawise.Console.Terminal.{Terminal, IsSized}
use betawise.Console.Stdio.{glyph_address}
use betawise.Console.Picture.{glyph, cell_at}
use betawise.Console.Page.{Page, HasCells, Displays, set_cursor-cells}
use betawise.Console.RowText.{write}
use betawise.DebugTool.Dump.{
  Mode, nibble_hi, nibble_lo, ascii, Machine, Viewer, cursor_address, dump_row, dump_col,
  dump_set_cursor, byte_text, ascii_char, dump_redraw_byte_hex, dump_redraw_byte_ascii, dump_write,
  dump_write_and_redraw_cur,
}
use betawise.DebugTool.Cells.{dump_cell_lem, dump_cell_on_screen}
use betawise.DebugTool.Frame.{Draws-byte_hex}
use betawise.DebugTool.Invariant.{IsSane, IsSane-Draws}
use betawise.DebugTool.Redraw.{PrintsHex, IsRead, HoldsBytes-IsRead, at_cell}
use betawise.DebugTool.Contents.{byte_text-length, Writes, hex-Writes, ascii-Writes}
use betawise.DebugTool.UnderCursor.{char_of}
use betawise.DebugTool.Rewritten.{byte_page, pick, byte_page-at, byte_page-other}
use betawise.DebugTool.Mirror.{Fits, Mirrors, few_rows}

char_of-pick :
    (m : Machine) (mode : Mode) (o : Option ℕ)
    → pick mode (byte_text m o) (ascii_char m false o) ≡ char_of m mode o
char_of-pick m nibble_hi o = refl
char_of-pick m nibble_lo o = refl
char_of-pick m ascii o = refl

hex_room : (offset n : ℕ) → offset < 120 → n ≡ 3 → dump_col false offset nibble_hi + n ≤ 45
hex_room offset n h e = let at = dump_cell_lem false offset nibble_hi h in omega (arith, at.1)

ascii_room : (offset : ℕ) → offset < 120 → dump_col false offset ascii + 1 ≤ 45
ascii_room offset h = let at = dump_cell_lem false offset ascii h in omega (arith, at.1)

dump_write_elsewhere :
    (m : Machine) (value mask : ℕ) (v : Viewer) (a : ℕ)
    → a ≢ cursor_address v
    → (dump_write m value mask v).memory a ≡ v.memory a
unfolding dump_write
dump_write_elsewhere m value mask v a h = ground arith

pub dump_write_only :
    (m : Machine) (value mask : ℕ) (v : Viewer)
    → dump_write m value mask v ≡ record v { memory = (dump_write m value mask v).memory }
unfolding dump_write
dump_write_only m value mask v = ground arith

module _ (m : Machine) (prints : PrintsHex m) {f : Font} {t : Terminal} where
  -- A text of a byte drawn at the cursor's place for a mode.
  drawn_at :
      {v : Viewer} (text : Option ℕ → List ℕ) (draw : Option ℕ → Viewer → Viewer) (o : Option ℕ)
      (mode : Mode) (page : Page)
      → Writes f text draw
      → IsRead o
      → IsSane v
      → Fits f t v
      → dump_col false v.cursor mode + length (text o) ≤ 45
      → HasCells f t page v.console
      → let c = (draw o (dump_set_cursor m (u8 v.cursor) mode cursor_hide v)).console in
        HasCells f t (write f (dump_row v.cursor) (dump_col false v.cursor mode) (text o) page) c
        × IsSized f t c
  unfolding dump_set_cursor
  drawn_at {v} text draw o mode page writes read s h room cells =
      let few = few_rows s h in
      let neo = h.neo in
      let cols = h.cols in
      let row = dump_row v.cursor in
      let col = dump_col false v.cursor mode in
      let cursor : u8 v.cursor ≡ v.cursor = omega (arith, few) in
      let at = dump_cell_on_screen false t.rows v.cursor mode (omega (arith, few)) few.1 in
      let c = set_cursor m.os row col cursor_hide v.console in
      let placed : Displays f (at_cell row col t) page c =
        set_cursor-cells m.os {t = t} {page = page} row col cursor_hide at.0 at.1 at.2
          (omega (arith, at.3)) h.sized cells in
      let drawn =
        writes o (record v { console = c }) (at_cell row col t) page read neo (omega arith)
          placed in
      let here : dump_set_cursor m (u8 v.cursor) mode cursor_hide v ≡ record v { console = c } =
        ap
          (λ (k : ℕ). record v {
            console =
                set_cursor m.os (dump_row k) (dump_col v.is_as3000 k mode) cursor_hide v.console;
          })
          cursor
        ∙ ap
            (λ (b : Bool). record v {
              console = set_cursor m.os row (dump_col b v.cursor mode) cursor_hide v.console;
            })
            neo in
      rw here (drawn.cells, assumption drawn.shows.sized)

  -- A byte at the cursor, drawn anew in its two places.
  byte_drawn :
      {v : Viewer} (page : Page)
      → IsSane v
      → Fits f t v
      → HasCells f t page v.console
      → let o = v.memory (cursor_address v) in
        let w = dump_redraw_byte_ascii m o (
          dump_set_cursor m
            (u8 v.cursor)
            ascii
            cursor_hide
            (dump_redraw_byte_hex m o (dump_set_cursor m (u8 v.cursor) nibble_hi cursor_hide v))) in
        HasCells f t (byte_page f (byte_text m o) (ascii_char m false o) v.cursor page) w.console
        × IsSized f t w.console
  unfolding dump_set_cursor dump_redraw_byte_hex
  byte_drawn {v} page s h cells =
      let o = v.memory (cursor_address v) in
      let read = HoldsBytes-IsRead v.memory (cursor_address v) s.bytes in
      let few = few_rows s h in
      let digits =
        drawn_at (byte_text m) (dump_redraw_byte_hex m) o nibble_hi page (hex-Writes m prints) read
          s h (hex_room v.cursor _ (omega (arith, few)) (byte_text-length m prints o read)) cells in
      let u = dump_set_cursor m (u8 v.cursor) nibble_hi cursor_hide v in
      let w = dump_redraw_byte_hex m o u in
      let d = Draws-byte_hex m o u in
      drawn_at {v = record v { console = w.console }} (λ o'. ascii_char m false o' ∷ [])
        (dump_redraw_byte_ascii m) o ascii
        (write f (dump_row v.cursor) (dump_col false v.cursor nibble_hi) (byte_text m o) page)
        (ascii-Writes m prints) read (IsSane-Draws {v = v} refl s)
        (record { neo = h.neo; cols = h.cols; rows = h.rows; sized = digits.1 })
        (ascii_room v.cursor (omega (arith, few))) digits.0

  -- The byte at the cursor drawn anew, when memory has changed nowhere else.
  redrawn-Mirrors :
      {v : Viewer} (memory : ℕ → Option ℕ)
      → ((a : ℕ) → a ≢ cursor_address v → memory a ≡ v.memory a)
      → IsSane (record v { memory = memory })
      → Mirrors m f t v
      → let u = record v { memory = memory } in
        let o = memory (cursor_address v) in
        Mirrors m f t (
          dump_redraw_byte_ascii m o (
            dump_set_cursor m
              (u8 v.cursor)
              ascii
              cursor_hide
              (dump_redraw_byte_hex m o (dump_set_cursor m (u8 v.cursor) nibble_hi cursor_hide u))))
  unfolding dump_set_cursor dump_redraw_byte_hex dump_redraw_byte_ascii
  redrawn-Mirrors {v} memory elsewhere s h =
      let u = record v { memory = memory } in
      let o = memory (cursor_address v) in
      let page : Page = λ r k. cell_at f t v.console.history r k in
      let fits : Fits f t u = record {
        neo = h.fits.neo;
        cols = h.fits.cols;
        rows = h.fits.rows;
        sized = h.fits.sized;
      } in
      let few = few_rows {v = u} s fits in
      let drawn = byte_drawn {v = u} page s fits (λ r k g1 g2 g3 g4. refl) in
      let digits = byte_text m o in
      let char = ascii_char m false o in
      let len = byte_text-length m prints o (HoldsBytes-IsRead memory (cursor_address v) s.bytes) in
      let cell = λ (a : ℕ) (mode : Mode). glyph (glyph_address f (char_of m mode (memory a))) in
      record {
        fits = record { neo = h.fits.neo; cols = h.fits.cols; rows = h.fits.rows; sized = drawn.1 };
        agrees = λ offset mode inside.
            let row = dump_row offset in
            let col = dump_col false offset mode in
            let at = dump_cell_on_screen false t.rows offset mode (omega (arith, few)) inside in
            let held = drawn.0 row col at.0 at.1 at.2 (omega (arith, at.3, h.fits.cols)) in
            held ∙ elim (Bool-cases (offset == v.cursor)) [
              | inl same ↦
                  let here : v.cursor ≡ offset = ground arith in
                  let address : cursor_address v ≡ u32 (v.address + offset) = ground (arith, few) in
                  ap (λ (c : ℕ). byte_page f digits char c page row col) here
                  ∙ byte_page-at f digits char offset mode page len (omega (arith, few))
                  ∙ ap (λ (c : ℕ). glyph (glyph_address f c)) (char_of-pick m mode o)
                  ∙ ap (λ (a : ℕ). cell a mode) address
              | inr other ↦
                  let away : u32 (v.address + offset) ≢ cursor_address v =
                    ground (arith, few, s.in_view.in_memory) in
                  byte_page-other f digits char v.cursor offset mode page len (omega (arith, few))
                    (omega (arith, few)) (ground arith)
                  ∙ h.agrees offset mode inside
                  ∙ ap (λ (o' : Option ℕ). glyph (glyph_address f (char_of m mode o')))
                      (sym (elsewhere (u32 (v.address + offset)) away))
            ];
      }

  -- A write at the cursor, and its byte drawn anew.
  pub write-Mirrors :
      (value mask : ℕ) {v : Viewer}
      → IsSane (dump_write m value mask v)
      → Mirrors m f t v
      → Mirrors m f t (dump_write_and_redraw_cur m value mask v)
  unfolding dump_write_and_redraw_cur
  write-Mirrors value mask {v} s h =
      let only = dump_write_only m value mask v in
      rw only (
        redrawn-Mirrors {v = v} (dump_write m value mask v).memory
          (dump_write_elsewhere m value mask v) (subst IsSane only s) h)
