-- ===== src/DebugTool/Mirror/Prompts.antt =====
-- applets/DebugTool/DebugTool.c: the screen and memory agree after Ctrl+G.
use betawise.Base.{ℕ, ◌^◌, ◌<◌, ◌≡◌, inl, inr, arith, List, Option, some, Option-cases, set}
use mathlib.Core.Path.{subst}
use betawise.Os.{Font}
use betawise.Console.{Console}
use betawise.Console.Terminal.{Terminal, IsSized}
use betawise.DebugTool.Number.Reads.{LowersX}
use betawise.DebugTool.Dump.{Machine, Viewer, cursor_address, dump_redraw_screen}
use betawise.DebugTool.Prompt.{go_to_loop, go_to}
use betawise.DebugTool.Closed.{Closed, GoesTo, go_to_loop-keeps}
use betawise.DebugTool.GoTo.{AnswersAfter, answered_address, go_to_returns}
use betawise.DebugTool.Invariant.{IsSane}
use betawise.DebugTool.Invariant.Prompts.{go_to_loop-IsSane}
use betawise.DebugTool.Redraw.{PrintsHex}
use betawise.DebugTool.Mirror.{Fits, Fits-set_address, Mirrors, screen-Mirrors}

pub Fits-beside :
    {f : Font} {t : Terminal} {v : Viewer} (console : Console) (raw : ℕ) (buffers : List (List ℕ))
    → IsSized f t console
    → Fits f t v
    → Fits f t (record v { console = console; raw_sys_call = raw; buffers = buffers })
Fits-beside console raw buffers sized h = record {
  neo = h.neo;
  cols = h.cols;
  rows = h.rows;
  sized = sized;
}

pub Fits-Closed : (m : Machine) (f : Font) (t : Terminal) → Closed m (Fits f t)
Fits-Closed m f t = record {
  called = λ e v h. let s = h.sized in Fits-beside _ v.raw_sys_call v.buffers (assumption s) h;
  moving = λ e v h. let s = h.sized in Fits-beside _ v.raw_sys_call v.buffers (assumption s) h;
  buffered = λ buffers v same h. Fits-beside v.console v.raw_sys_call buffers h.sized h;
  read = λ base array v h. Fits-beside v.console _ v.buffers h.sized h;
}

module _ (m : Machine) (f : Font) (t : Terminal) where
  Fits-GoesTo : GoesTo m (Fits f t)
  Fits-GoesTo base array n v number h =
      Fits-set_address n (Fits-beside v.console _ v.buffers h.sized h)

  -- Ctrl+G, when it ends.
  pub go_to-Mirrors :
      (prints : PrintsHex m)
      → LowersX m.tolower
      → m.addresses.raw_sys_call < 2 ^ 32
      → (fuel : ℕ) {v w : Viewer} → go_to m fuel v ≡ some w
      → IsSane v
      → Fits f t v
      → Mirrors m f t w
  unfolding go_to
  go_to-Mirrors prints lowers raw_fits fuel {v} {w} e s h =
      elim (Option-cases (go_to_loop m fuel (set m.stack_bytes 0 0) v)) [
        | inl waits ↦ ground arith
        | inr (u, gone) ↦
            let q : dump_redraw_screen m u ≡ w = ground arith in
            subst (Mirrors m f t) q (
              screen-Mirrors m prints (go_to_loop-IsSane m lowers raw_fits fuel _ v u gone s)
                (go_to_loop-keeps m (Fits f t) (Fits-Closed m f t) Fits-GoesTo fuel _ v u gone h))
      ]

-- With a tolower that makes an x of x and X only, g_rawSysCall at a 32-bit address, and sprintf making printable text of 3
-- characters of a byte and of 9 of an address: Ctrl+G in a sane state on a NEO, with a console of 44 columns and a row for each
-- row of memory, returns when the user answers after any number of refused texts, with more fuel than those texts. The cursor
-- is then at the address that was read or, after Escape, where it was, the state is sane, and the screen mirrors memory,
-- whatever the prompt and the text box left on it.
pub go_to_returns-Mirrors :
    (m : Machine) (n fuel : ℕ) (answer : Option ℕ) (v : Viewer) {f : Font} {t : Terminal}
    → PrintsHex m
    → LowersX m.tolower
    → m.addresses.raw_sys_call < 2 ^ 32
    → AnswersAfter m n answer (set m.stack_bytes 0 0) v
    → n < fuel
    → IsSane v
    → Fits f t v
    → (w : Viewer) × (go_to m fuel v ≡ some w)
      × (cursor_address w ≡ answered_address m answer v)
      × IsSane w
      × Mirrors m f t w
go_to_returns-Mirrors m n fuel answer v {f} {t} prints lowers raw_fits h lt s fits =
    let (w, gone, at, sane) = go_to_returns m lowers raw_fits n fuel answer v h lt s in
    (w, gone, at, sane, go_to-Mirrors m f t prints lowers raw_fits fuel gone s fits)
