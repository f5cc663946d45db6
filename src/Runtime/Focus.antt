-- ===== src/Runtime/Focus.antt =====
-- os3k/os3k.c: MSG_SETFOCUS, and the ClearScreen that an applet then makes, set up the console.
use betawise.Base.{
  ℕ, ◌*◌, ◌/◌, ◌≤◌, ◌≡◌, ◌⊎◌, refl, arith, some, inl, inr, ◌==◌, if◌then◌else◌, u8, ◌∙◌,
}
use betawise.Os.{Os, Event, Font}
use betawise.Console.{Console, call_moving, clear_screen, set_screen_roll}
use betawise.Console.Terminal.{Terminal, IsSized}
use betawise.Runtime.{on_setfocus, choose_font, measure}

-- The terminal of an empty screen.
abbrev pub blank : ℕ → ℕ → Terminal
blank rows cols = record { rows = rows; cols = cols; top = 0; row = 1; col = 1 }

-- The size of the LCD, and what `g_MaxCol` and `g_MaxRow` are to be.
pub record Measures (f : Font) (rows cols : ℕ) (c : Console) : Type 0 where
  pub some_rows : 1 ≤ rows
  pub some_cols : 1 ≤ cols
  pub rows_fit : rows ≤ 254
  pub cols_fit : cols ≤ 254
  pub width_eq : c.lcd_width ≡ 6 * cols
  pub glyph_width : f.max_width ≡ 6
  pub tall : (f.height ≡ 8) ⊎ (f.height ≡ 16)
  pub height_eq : c.lcd_height ≡ f.height * rows

-- The console with its screen measured.
abbrev pub measured : ℕ → ℕ → Console → Console
measured rows cols c = record c { max_col = cols; max_row = rows }

measure_lem :
    {f : Font} {rows cols : ℕ} (c : Console)
    → Measures f rows cols c
    → c.cur_font ≡ some f
    → measure c ≡ some (measured rows cols c)
unfolding measure
measure_lem {f} {rows} {cols} c m e = ground (arith, cols_eq, rows_eq)
  where
    cols_eq : u8 (c.lcd_width / 6) ≡ cols
    cols_eq = omega (arith, m.width_eq)

    rows_eq : u8 (if f.height == 16 then c.lcd_height / 16 else c.lcd_height / 8) ≡ rows
    rows_eq = elim m.tall [
      | inl h8 ↦ rw (m.height_eq, h8) (ground arith)
      | inr h16 ↦ rw (m.height_eq, h16) (ground arith)
    ]

-- The choice of a font leaves the LCD's size alone.
choose_font_size :
    (os : Os) (c : Console)
    → ((choose_font os c).lcd_width ≡ c.lcd_width) × ((choose_font os c).lcd_height ≡ c.lcd_height)
unfolding choose_font
choose_font_size os c = ground arith

clear_screen_with_font :
    (os : Os) {f : Font} (c : Console)
    → c.cur_font ≡ some f
    → clear_screen os c
      ≡ set_screen_roll 0 (record (call_moving os Event.clear_screen c) {
        cur_row = 1;
        cur_col = 1;
        cur_lcd_roll = 0;
      })
unfolding clear_screen
clear_screen_with_font os c e = ground arith

-- `ClearScreen` on a measured screen homes the cursor and takes back the roll.
pub clear_screen-IsSized :
    (os : Os) {f : Font} {rows cols : ℕ} {c : Console}
    → Measures f rows cols c
    → c.cur_font ≡ some f
    → c.max_row ≡ rows
    → c.max_col ≡ cols
    → IsSized f (blank rows cols) (clear_screen os c)
      × ((clear_screen os c).cur_row ≡ 1)
      × ((clear_screen os c).cur_col ≡ 1)
unfolding set_screen_roll
clear_screen-IsSized os {f} {rows} {cols} {c} m e er ec =
    rw (clear_screen_with_font os c e) (sized, refl, refl)
  where
    sized : IsSized f (blank rows cols) (
        set_screen_roll 0 (record (call_moving os Event.clear_screen c) {
          cur_row = 1;
          cur_col = 1;
          cur_lcd_roll = 0;
        }))
    sized = record {
      font = e;
      glyph_width = m.glyph_width;
      rows_eq = er;
      cols_eq = ec;
      some_rows = m.some_rows;
      some_cols = m.some_cols;
      rows_fit = m.rows_fit;
      cols_fit = m.cols_fit;
      top_in = m.some_rows;
      width_eq = m.width_eq;
      tall = m.tall;
      height_eq = m.height_eq;
      roll_eq = omega arith;
    }

-- The screen is measured with the font that is chosen.
chosen-Measures :
    (os : Os) (c : Console) {f : Font} {rows cols : ℕ}
    → Measures f rows cols c
    → Measures f rows cols (choose_font os (call_moving os Event.clear_screen c))
chosen-Measures os c m =
    let same = choose_font_size os (call_moving os Event.clear_screen c) in
    record {
      some_rows = m.some_rows;
      some_cols = m.some_cols;
      rows_fit = m.rows_fit;
      cols_fit = m.cols_fit;
      width_eq = same.0 ∙ m.width_eq;
      glyph_width = m.glyph_width;
      tall = m.tall;
      height_eq = same.1 ∙ m.height_eq;
    }

pub on_setfocus_lem :
    (os : Os) (c : Console) {f g : Font} {rows cols : ℕ}
    → c.cur_font ≡ some g
    → (choose_font os (call_moving os Event.clear_screen c)).cur_font ≡ some f
    → Measures f rows cols c
    → on_setfocus os c
      ≡ some (measured rows cols (choose_font os (call_moving os Event.clear_screen c)))
unfolding on_setfocus
on_setfocus_lem os c {f} {g} {rows} {cols} eg ef m = ground (
  arith,
  measure_lem (choose_font os (call_moving os Event.clear_screen c)) (chosen-Measures os c m) ef,
)

pub measured-IsSized :
    (os : Os) (c : Console) {f : Font} {rows cols : ℕ}
    → (choose_font os (call_moving os Event.clear_screen c)).cur_font ≡ some f
    → Measures f rows cols c
    → let c' = measured rows cols (choose_font os (call_moving os Event.clear_screen c)) in
      IsSized f (blank rows cols) (clear_screen os c')
      × ((clear_screen os c').cur_row ≡ 1)
      × ((clear_screen os c').cur_col ≡ 1)
measured-IsSized os c {f} {rows} {cols} ef m =
    let measures = chosen-Measures os c m in
    clear_screen-IsSized os
      {c = measured rows cols (choose_font os (call_moving os Event.clear_screen c))}
      (assumption measures) ef refl refl

-- MSG_SETFOCUS with a system font, when the font that is then chosen measures the LCD in `rows` by
-- `cols` characters: it completes, and after the applet's `ClearScreen` the console is sized for the
-- blank terminal of that grid, with the cursor in its first cell.
pub on_setfocus-IsSized :
    (os : Os) (c : Console) {f g : Font} {rows cols : ℕ}
    → c.cur_font ≡ some g
    → (choose_font os (call_moving os Event.clear_screen c)).cur_font ≡ some f
    → Measures f rows cols c
    → (c' : Console) × (on_setfocus os c ≡ some c')
      × IsSized f (blank rows cols) (clear_screen os c')
      × ((clear_screen os c').cur_row ≡ 1)
      × ((clear_screen os c').cur_col ≡ 1)
on_setfocus-IsSized os c {f} {g} {rows} {cols} eg ef m =
    let ready = measured-IsSized os c ef m in
    (
      measured rows cols (choose_font os (call_moving os Event.clear_screen c)),
      on_setfocus_lem os c eg ef m,
      ready.0,
      ready.1,
      ready.2,
    )
