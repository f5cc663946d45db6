-- ===== src/Probes/Screen.antt =====
-- The lines that the probes draw: applets/FileSetFolderProbe and applets/FileGetFileInfoProbe.
use betawise.Base.{
  ℕ, ◌≤◌, ◌≡◌, ◌≢◌, refl, arith, ap, inl, inr, ◌∙◌, Bool-cases, ◌==◌, List, [], ◌∷◌, Option, none,
  some, All,
}
use betawise.Keys.{msg_init, msg_setfocus, msg_killfocus}
use betawise.Runtime.{prepare, choose_font, on_killfocus, bw_process_message}
use betawise.Os.{Os, Event, Font}
use betawise.Console.{
  Console, call, call_moving, clear_screen, set_cursor, set_screen_roll, cursor_hide,
}
use betawise.Console.Terminal.{Terminal, IsSized}
use betawise.Runtime.Focus.{
  blank, Measures, measured, on_setfocus_lem, measured-IsSized, clear_screen-IsSized,
}
use betawise.DebugTool.Redraw.{set_cursor_at}

module _ (os : Os) where
  -- ClearScreen and the cursor hidden.
  abbrev pub start_screen : Console → Console
  start_screen c = call (Event.set_cursor_mode cursor_hide) (clear_screen os c)

  -- A text at the start of a row.
  abbrev pub put_line : ℕ → List ℕ → Console → Console
  put_line row text c =
      call_moving os (Event.put_string_raw text) (set_cursor os row 1 cursor_hide c)

  abbrev pub put_centered : ℕ → List ℕ → Console → Console
  put_centered row text c = call_moving os (Event.put_string_centered row text) c

  pub put_line-IsSized :
      {f : Font} {t : Terminal} {c : Console} (row : ℕ) (text : List ℕ)
      → 1 ≤ row
      → row ≤ t.rows
      → IsSized f t c
      → IsSized f t (put_line row text c)
  put_line-IsSized {f} {t} {c} row text h1 h2 s =
      let shown =
        set_cursor_at os {t = t} {c = c} row 1 cursor_hide s h1 h2 (omega arith) s.some_cols in
      assumption shown.sized

  pub start_screen-IsSized :
      {f : Font} {rows cols : ℕ} {c : Console}
      → IsSized f (blank rows cols) c
      → IsSized f (blank rows cols) (start_screen c)
  start_screen-IsSized {f} {rows} {cols} {c} s =
      let measures : Measures f rows cols c = record {
        some_rows = s.some_rows;
        some_cols = s.some_cols;
        rows_fit = s.rows_fit;
        cols_fit = s.cols_fit;
        width_eq = s.width_eq;
        glyph_width = s.glyph_width;
        tall = s.tall;
        height_eq = s.height_eq;
      } in
      assumption (clear_screen-IsSized os {c = c} measures s.font s.rows_eq s.cols_eq).0

-- A message other than MSG_INIT and MSG_SETFOCUS.
abbrev pub IsLater : ℕ × ℕ → Type 0
IsLater (message, param) = (message ≢ msg_init) × (message ≢ msg_setfocus)

module _ {R : Type 0} (step : ℕ → ℕ → Console → R → Option (Console × R)) where
  -- A session: messages with their parameters, one after the other.
  abbrev pub session : List (ℕ × ℕ) → Console → R → Option (Console × R)
  session [] c r = some (c, r)
  session ((message, param) ∷ rest) c r = elim (step message param c r) [
    | none ↦ none
    | some (c', r') ↦ session rest c' r'
  ]

  -- What each later message keeps, a session of them keeps; and it completes.
  pub session_keeps :
      (P : Console → R → Type 0)
      → ((message param : ℕ) (c : Console) (r : R)
          → IsLater (message, param)
          → P c r
          → (c' : Console) × (r' : R) × (step message param c r ≡ some (c', r')) × P c' r')
      → (messages : List (ℕ × ℕ)) (c : Console) (r : R) → All IsLater messages
      → P c r
      → (c' : Console) × (r' : R) × (session messages c r ≡ some (c', r')) × P c' r'
  session_keeps P keeps [] c r later p = (c, r, refl, p)
  session_keeps P keeps ((message, param) ∷ rest) c r later p =
      let (c1, r1, done, p1) = keeps message param c r later.0 p in
      let (c2, r2, ends, p2) = session_keeps P keeps rest c1 r1 later.1 p1 in
      (c2, r2, ground arith, p2)

-- What the runtime does before the applet on such a message leaves the screen's size.
killfocus-IsSized :
    (os : Os) {f : Font} {t : Terminal} {c : Console}
    → IsSized f t c
    → IsSized f t (on_killfocus os c)
unfolding on_killfocus set_screen_roll
killfocus-IsSized os {c = c} s = rw (s.font, on_killfocus) (assumption s)

prepare-IsSized :
    (os : Os) (message param : ℕ) {f : Font} {t : Terminal} {c : Console}
    → IsLater (message, param)
    → IsSized f t c
    → (c' : Console) × (prepare os message c ≡ some c') × IsSized f t c'
unfolding prepare
prepare-IsSized os message param {c = c} later s = elim (Bool-cases (message == msg_killfocus)) [
  | inl kill ↦ (on_killfocus os c, ground arith, killfocus-IsSized os s)
  | inr other ↦ (c, ground arith, s)
]

-- A probe that completes every message, under the runtime.
pub probe_keeps :
    {R : Type 0} (os : Os) (process : ℕ → ℕ → Console → R → Console × R) {f : Font} {t : Terminal}
    (P : R → Type 0)
    → ((message param : ℕ) (c : Console) (r : R)
        → IsLater (message, param)
        → IsSized f t c
        → P r
        → IsSized f t (process message param c r).0 × P (process message param c r).1)
    → (message param : ℕ) (c : Console) (r : R) → IsLater (message, param)
    → IsSized f t c × P r
    → (c' : Console) × (r' : R) × (bw_process_message os
          (λ message param c r. some (process message param c r))
          message
          param
          c
          r
        ≡ some (c', r'))
      × (IsSized f t c' × P r')
unfolding bw_process_message
probe_keeps os process P keeps message param c r later p =
    let (c1, ready, sized) = prepare-IsSized os message param later p.0 in
    let kept = keeps message param c1 r later sized p.1 in
    let out = process message param c1 r in (out.0, out.1, ground arith, kept)

pub bw_through :
    {R : Type 0} (os : Os) (process : ℕ → ℕ → Console → R → Option (Console × R))
    (message param : ℕ) (c c' : Console) (r : R)
    → prepare os message c ≡ some c'
    → bw_process_message os process message param c r ≡ process message param c' r
unfolding bw_process_message
bw_through os process message param c c' r ready = ground arith

-- MSG_SETFOCUS under the runtime, of a probe that only draws then.
pub probe_focus :
    {R : Type 0} (os : Os) (process : ℕ → ℕ → Console → R → Console × R) (draw : Console → Console)
    (param : ℕ) (c : Console) (r : R) {f g : Font} {rows cols : ℕ}
    → ((c : Console) → process msg_setfocus param c r ≡ (draw c, r))
    → ((c : Console)
        → IsSized f (blank rows cols) (clear_screen os c)
        → IsSized f (blank rows cols) (draw c))
    → c.cur_font ≡ some g
    → (choose_font os (call_moving os Event.clear_screen c)).cur_font ≡ some f
    → Measures f rows cols c
    → (c' : Console) × (bw_process_message os
          (λ message param c r. some (process message param c r))
          msg_setfocus
          param
          c
          r
        ≡ some (c', r))
      × IsSized f (blank rows cols) c'
unfolding prepare
probe_focus os process draw param c r {f} {g} {rows} {cols} draws sized eg ef measures =
    let c1 = measured rows cols (choose_font os (call_moving os Event.clear_screen c)) in
    let ready : prepare os msg_setfocus c ≡ some c1 = on_setfocus_lem os c eg ef measures in
    (
      draw c1,
      bw_through os (λ message param c r. some (process message param c r)) msg_setfocus param c c1
            r ready
          ∙ ap some (draws c1),
      sized c1 (measured-IsSized os c ef measures).0,
    )
