-- ===== src/DebugTool/Mirror.antt =====
-- applets/DebugTool/DebugTool.c on the console of os3k/os3k.c: the screen and memory agree.
pub mod Write
pub mod Moves
pub mod Typed
pub mod Keys
pub mod Session
pub mod Prompts
pub mod Calls
pub mod Held
use betawise.Base.{
  ℕ, zero, suc, ◌+◌, ◌-◌, ◌*◌, ◌/◌, ◌%◌, ◌^◌, ◌≤◌, ◌<◌, ◌≡◌, ◌≢◌, ◌⊎◌, inl, inr, refl, sym, arith,
  ◌∙◌, ap, List, [], ◌∷◌, length, get_or, Option, none, some, Bool, true, false, Bool-cases,
  Option-cases, u8, u16, u32, ltb, leb, ◌==◌, ◌&&◌, if◌then◌else◌, is_negative16, extend8_16,
}
use mathlib.Core.Path.{subst}
use betawise.Os.{Os, Font}
use betawise.Console.{Console, cursor_hide, cursor_show, set_cursor}
use betawise.Console.Terminal.{Terminal, IsSized, Shows}
use betawise.Console.Stdio.{glyph_address}
use betawise.Console.Picture.{Cell, glyph, cell_at}
use betawise.Console.Page.{Page, HasCells, Displays, set_cursor-cells}
use betawise.Console.RowText.{write}
use betawise.DebugTool.Dump.{
  Mode, nibble_hi, nibble_lo, ascii, Machine, Viewer, cursor_address, dump_row, dump_col,
  dump_set_cursor, dump_set_cursor_cur, byte_text, ascii_char, dump_redraw_byte_hex,
  dump_redraw_byte_ascii, store, dump_write, dump_write_and_redraw_cur, dump_redraw_screen,
  dump_move_cursor, dump_set_address,
}
use betawise.DebugTool.Cells.{dump_cell_lem, dump_cell_on_screen}
use betawise.DebugTool.Frame.{Draws, Draws-byte_hex, Draws-screen, Draws-set_cursor_cur}
use betawise.DebugTool.Typing.{Draws-write}
use betawise.DebugTool.Moves.{InView}
use betawise.DebugTool.Invariant.{HoldsBytes, IsSane, IsSane-Draws, write-IsSane}
use betawise.DebugTool.Redraw.{
  PrintsHex, IsRead, HoldsBytes-IsRead, at_cell, dump_redraw_screen-Shows,
}
use betawise.DebugTool.Contents.{byte_text-length, Writes, hex-Writes, ascii-Writes}
use betawise.DebugTool.UnderCursor.{char_of, dump_cell-Displays}
use betawise.DebugTool.Rewritten.{byte_page, pick, byte_page-at, byte_page-other}

-- A NEO's console with a row of 44 columns for each row of memory on the screen.
pub record Fits (f : Font) (t : Terminal) (v : Viewer) : Type 0 where
  pub neo : v.is_as3000 ≡ false
  pub cols : t.cols ≡ 44
  pub rows : v.rows_per_screen ≡ t.rows
  pub sized : IsSized f t v.console

-- Each place where the cursor of a byte on the screen goes holds the digit or the character of the byte of memory.
abbrev pub Agrees : Machine → Font → Terminal → (ℕ → Option ℕ) → ℕ → Page → Type 0
Agrees m f t memory address page =
    (offset : ℕ) (mode : Mode)
    → offset < 8 * t.rows
    → page (dump_row offset) (dump_col false offset mode)
      ≡ glyph (glyph_address f (char_of m mode (memory (u32 (address + offset)))))

-- The screen mirrors memory: so it is with what the LCD holds.
pub record Mirrors (m : Machine) (f : Font) (t : Terminal) (v : Viewer) : Type 0 where
  pub fits : Fits f t v
  pub agrees : Agrees m f t v.memory v.address (λ r k. cell_at f t v.console.history r k)

Fits-Draws :
    {f : Font} {t : Terminal} (u : Viewer) {w : Viewer}
    → Draws u w
    → Fits f t u
    → IsSized f t w.console
    → Fits f t w
Fits-Draws u d h s = record {
  neo = ap (λ (x : Viewer). x.is_as3000) d ∙ h.neo;
  cols = h.cols;
  rows = ap (λ (x : Viewer). x.rows_per_screen) d ∙ h.rows;
  sized = s;
}

pub Fits-set_address :
    {f : Font} {t : Terminal} (addr : ℕ) {v : Viewer}
    → Fits f t v
    → Fits f t (dump_set_address addr v)
unfolding dump_set_address
Fits-set_address addr h = record { neo = h.neo; cols = h.cols; rows = h.rows; sized = h.sized }

pub few_rows :
    {f : Font} {t : Terminal} {v : Viewer}
    → IsSane v
    → Fits f t v
    → (t.rows ≤ 14) × (v.cursor < 8 * t.rows)
few_rows s h =
    let view = s.in_view in omega (arith, h.rows, view.rows_fit, view.bytes_eq, view.cursor_in)

Agrees-Draws :
    (m : Machine) (f : Font) (t : Terminal) (u : Viewer) (page : Page) {w : Viewer}
    → Draws u w
    → Agrees m f t u.memory u.address page
    → Agrees m f t w.memory w.address page
Agrees-Draws m f t u page {w} d h =
    subst (λ (x : Viewer). Agrees m f t x.memory x.address page) (sym d) h

module _ (m : Machine) (prints : PrintsHex m) {f : Font} {t : Terminal} where
  -- Drawing the cursor.
  pub cursor-Mirrors :
      {v : Viewer} → IsSane v → Mirrors m f t v → Mirrors m f t (dump_set_cursor_cur m v)
  unfolding dump_set_cursor_cur dump_set_cursor
  cursor-Mirrors {v} s h =
      let few = few_rows s h.fits in
      let neo = h.fits.neo in
      let cols = h.fits.cols in
      let cell = dump_cell_on_screen false t.rows v.cursor v.mode (omega (arith, few)) few.1 in
      let cursor : u8 v.cursor ≡ v.cursor = omega (arith, few) in
      let placed =
        set_cursor-cells m.os {t = t} {page = λ r k. cell_at f t v.console.history r k}
          (dump_row v.cursor) (dump_col false v.cursor v.mode) cursor_show cell.0 cell.1 cell.2
          (omega (arith, cell.3)) h.fits.sized (λ r k g1 g2 g3 g4. refl) in
      record {
        fits = record {
          neo = neo;
          cols = cols;
          rows = h.fits.rows;
          sized = rw (cursor, neo) (assumption placed.shows.sized);
        };
        agrees = λ offset mode inside.
            let at = dump_cell_on_screen false t.rows offset mode (omega (arith, few)) inside in
            rw (cursor, neo)
              (placed.cells (dump_row offset) (dump_col false offset mode) at.0 at.1 at.2
                  (omega (arith, at.3))
                ∙ h.agrees offset mode inside);
      }

  -- Redrawing the screen, whatever it held.
  pub screen-Mirrors : {v : Viewer} → IsSane v → Fits f t v → Mirrors m f t (dump_redraw_screen m v)
  screen-Mirrors {v} s h =
      let few = few_rows s h in
      let d = Draws-screen m v in
      let shown =
        dump_redraw_screen-Shows m prints v t s.bytes h.neo h.cols h.rows few.0 few.1 h.sized in
      record {
        fits = Fits-Draws v d h (assumption shown.sized);
        agrees =
            Agrees-Draws m f t v (λ r k. cell_at f t (dump_redraw_screen m v).console.history r k) d
              (λ offset mode inside.
                dump_cell-Displays m prints v t offset mode s.bytes h.neo h.cols h.rows few.0 few.1
                  s.in_view.in_memory h.sized inside);
      }
