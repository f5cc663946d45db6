-- ===== src/DebugTool/Mirror/Calls.antt =====
-- applets/DebugTool/DebugTool.c on the console of os3k/os3k.c: the screen and memory agree after Ctrl+I.
use betawise.Base.{ℕ, ◌≡◌, inl, inr, arith, List, some, Option-cases, ◌<◌}
use mathlib.Core.Path.{subst}
use betawise.Os.{Font}
use betawise.Console.{Console, clear_screen, set_screen_roll}
use betawise.Console.Terminal.{Terminal, IsSized}
use betawise.DebugTool.Dump.{Machine, Viewer, on_console, dump_redraw_screen}
use betawise.DebugTool.Dialog.{dialog_loop, call_dialog}
use betawise.DebugTool.Closed.{Closed, Calls}
use betawise.DebugTool.Closed.Dialog.{dialog-keeps}
use betawise.DebugTool.Invariant.{IsSane, screen-IsSane}
use betawise.DebugTool.Invariant.Prompts.{IsSane-beside, IsSane-Closed}
use betawise.DebugTool.AllRead.{AnswersIds}
use betawise.DebugTool.Leaves.{HasBuffers, KeepsBuffers, LeavesAfter, call_dialog_returns}
use betawise.DebugTool.Redraw.{PrintsHex}
use betawise.DebugTool.Mirror.{Fits, Mirrors, screen-Mirrors}
use betawise.DebugTool.Mirror.Prompts.{Fits-Closed}

-- A terminal's grid, wherever the LCD's first line stands.
abbrev pub rolled : Terminal → ℕ → Terminal
rolled t top = record t { top = top }

abbrev pub SizedScrolled : Font → Terminal → Console → Type 0
SizedScrolled f t c = (top : ℕ) × IsSized f (rolled t top) c

abbrev pub FitsScrolled : Font → Terminal → Viewer → Type 0
FitsScrolled f t v = (top : ℕ) × Fits f (rolled t top) v

abbrev pub MirrorsScrolled : Machine → Font → Terminal → Viewer → Type 0
MirrorsScrolled m f t v = (top : ℕ) × Mirrors m f (rolled t top) v

-- What a call may do: its texts may scroll the screen and no more, and the code that is called leaves a sane state that fits
-- the screen.
pub record CallsWell (m : Machine) (f : Font) (t : Terminal) : Type 0 where
  pub call_scrolls :
      (values : List ℕ) (c : Console)
      → SizedScrolled f t c
      → SizedScrolled f t (m.print_call values c)
  pub result_scrolls :
      (value : ℕ) (c : Console) → SizedScrolled f t c → SizedScrolled f t (m.print_result value c)
  pub runs_well :
      (address : ℕ) (args : List ℕ) (v : Viewer)
      → IsSane v
      → FitsScrolled f t v
      → let w = (m.run_code address args v).1 in IsSane w × FitsScrolled f t w

-- Clearing a screen takes back its roll.
cleared-IsSized :
    (m : Machine) {f : Font} {t : Terminal} {c : Console}
    → IsSized f t c
    → IsSized f (rolled t 0) (clear_screen m.os c)
unfolding clear_screen set_screen_roll
cleared-IsSized m {f} {t} {c} s =
    rw (s.font, clear_screen)
      (record {
        font = s.font;
        glyph_width = s.glyph_width;
        rows_eq = s.rows_eq;
        cols_eq = s.cols_eq;
        some_rows = s.some_rows;
        some_cols = s.some_cols;
        rows_fit = s.rows_fit;
        cols_fit = s.cols_fit;
        top_in = s.some_rows;
        width_eq = s.width_eq;
        tall = s.tall;
        height_eq = s.height_eq;
        roll_eq = omega arith;
      })

module _ (m : Machine) (f : Font) (t : Terminal) where
  -- A sane state that fits the screen.
  abbrev Stands : Viewer → Type 0
  Stands v = IsSane v × FitsScrolled f t v

  beside :
      {v : Viewer} (c : Console)
      → SizedScrolled f t c
      → Stands v
      → Stands (record v { console = c })
  beside {v} c (top, sized) (s, (old, h)) =
      (IsSane-beside c v.raw_sys_call v.buffers s, (top, Fits-beside' h))
    where
      Fits-beside' : Fits f (rolled t old) v → Fits f (rolled t top) (record v { console = c })
      Fits-beside' g = record { neo = g.neo; cols = g.cols; rows = g.rows; sized = sized }

  Stands-Calls : CallsWell m f t → Calls m Stands
  Stands-Calls well = record {
    closed = record {
      called = λ e v p. (sane.called e v p.0, (p.1.0, (fits p.1.0).called e v p.1.1));
      moving = λ e v p. (sane.moving e v p.0, (p.1.0, (fits p.1.0).moving e v p.1.1));
      buffered = λ buffers v same p.
          (sane.buffered buffers v same p.0, (p.1.0, (fits p.1.0).buffered buffers v same p.1.1));
      read = λ base array v p.
          (sane.read base array v p.0, (p.1.0, (fits p.1.0).read base array v p.1.1));
    };
    cleared = λ v p. beside _ (0, cleared-IsSized m p.1.1.sized) p;
    call_printed =
        λ values v p. beside _ (well.call_scrolls values v.console (p.1.0, p.1.1.sized)) p;
    result_printed =
        λ value v p. beside _ (well.result_scrolls value v.console (p.1.0, p.1.1.sized)) p;
    runs = λ address args v p. well.runs_well address args v p.0 p.1;
  }
    where
      sane : Closed m IsSane
      sane = IsSane-Closed m

      fits : (top : ℕ) → Closed m (Fits f (rolled t top))
      fits top = Fits-Closed m f (rolled t top)

  -- Ctrl+I, when it ends.
  pub call_dialog-Mirrors :
      (prints : PrintsHex m)
      → CallsWell m f t
      → (fuel : ℕ) {v w : Viewer} → call_dialog m fuel v ≡ some w
      → IsSane v
      → FitsScrolled f t v
      → IsSane w × MirrorsScrolled m f t w
  unfolding call_dialog
  call_dialog-Mirrors prints well fuel {v} {w} e s h =
      elim (Option-cases (dialog_loop m fuel 1 (on_console m (clear_screen m.os) v))) [
        | inl waits ↦ ground arith
        | inr (u, gone) ↦
            let q : dump_redraw_screen m u ≡ w = ground arith in
            let stands = dialog-keeps m Stands (Stands-Calls well) fuel v u gone (s, h) in
            subst (λ x. IsSane x × MirrorsScrolled m f t x) q
              (screen-IsSane m stands.0, (stands.1.0, screen-Mirrors m prints stands.0 stands.1.1))
      ]

-- With a ROM that answers the ids that the items of a dialog were added with, seven dialog buffers, which the code that is called
-- does not take away, and sprintf making printable text of 3 characters of a byte and of 9 of an address: Ctrl+I on a NEO with a
-- console of 44 columns and a row for each row of memory, scrolled or not, returns when after any number of rounds that go on the
-- user leaves or makes the call, with more fuel than those rounds. The state is then sane and the screen mirrors memory, if what
-- is printed may scroll the screen but leaves its font and size, and the code that is called, in a sane state on such a screen,
-- leaves one.
pub call_dialog_returns-Mirrors :
    (m : Machine) (n fuel : ℕ) (v : Viewer) {f : Font} {t : Terminal}
    → PrintsHex m
    → AnswersIds m.os
    → KeepsBuffers m
    → CallsWell m f t
    → HasBuffers v
    → LeavesAfter m n 1 (on_console m (clear_screen m.os) v)
    → n < fuel
    → IsSane v
    → FitsScrolled f t v
    → (w : Viewer) × (call_dialog m fuel v ≡ some w) × IsSane w × MirrorsScrolled m f t w
call_dialog_returns-Mirrors m n fuel v {f} {t} prints answers keeps well seven leaves lt s fits =
    let (w, gone) = call_dialog_returns m answers keeps n fuel v seven leaves lt in
    let (s', h) = call_dialog-Mirrors m f t prints well fuel gone s fits in (w, gone, s', h)
