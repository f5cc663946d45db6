-- ===== src/Console/Bounds.antt =====
-- os3k/os3k.c: what the console draws lies on the LCD, and glyphs come from their place in the table.
use betawise.Base.{
  ℕ, ◌+◌, ◌*◌, ◌^◌, ◌≤◌, ◌<◌, ◌≡◌, some, refl, arith, List, [], ◌∷◌, Bool-cases, true, false, inl,
  inr, is_negative32, sym, ◌∙◌, ◌==◌, u8, All,
}
use mathlib.Core.Path.{subst₂}
use betawise.Os.{Os, Event, Font}
use betawise.Console.{
  Console, cursor_hide, stdout, set_cursor, set_screen_roll, set_cursor_font, place_cursor,
}
use betawise.Console.Terminal.{Terminal, type_glyph, type_byte, Shows}
use betawise.Console.Cursor.{set_cursor_with_font}
use betawise.Console.Print.{fputc_with_font, fputc-Shows, history-Shows, next_line-Shows}
use betawise.Console.Stdio.{
  glyph_address, draw_glyph, print_glyph, ring, backspace, put_font, fputc, fputs,
}

-- A glyph that is drawn lies wholly on an LCD of that size.
abbrev pub DrawsInside : ℕ → ℕ → Event → Type 0
DrawsInside width height (Event.draw_bitmap x y w h bitmap) = (x + w ≤ width) × (y + h ≤ height)
DrawsInside width height _ = Unit

-- At a cell of the grid a glyph fits the LCD.
cell_inside :
    {f : Font} {t : Terminal} {c : Console} (cols rows : ℕ)
    → Shows f t c
    → t.cols ≡ cols
    → t.rows ≡ rows
    → t.col ≤ t.cols
    → (c.cursor.x + f.max_width ≤ 6 * cols) × (c.cursor.y + f.height ≤ f.height * rows)
cell_inside {f} {t} {c} cols rows s ec er h = elim s.sized.tall [
  | inl h8 ↦ (ground arith, rw (s.y_eq, h8) (ground arith))
  | inr h16 ↦ (ground arith, rw (s.y_eq, h16) (ground arith))
]

-- `SetCursor` draws no glyph.
set_cursor-inside :
    (os : Os) (w h row col mode : ℕ) (c : Console) {f : Font}
    → c.cur_font ≡ some f
    → All (DrawsInside w h) c.history
    → All (DrawsInside w h) (set_cursor os row col mode c).history
unfolding set_cursor_font place_cursor set_screen_roll
set_cursor-inside os w h row col mode c {f} e a =
    rw (set_cursor_with_font os row col mode c e) (ground arith)

module _ (os : Os) {f : Font} {t : Terminal} {c : Console} (s : Shows f t c) where
  abbrev Inside : List Event → Type 0
  Inside = All (DrawsInside (6 * t.cols) (f.height * t.rows))

  print_glyph-Inside : (b mode : ℕ) → Inside c.history → Inside (print_glyph os f b mode c).history
  unfolding print_glyph draw_glyph
  print_glyph-Inside b mode a = elim (Bool-cases (t.col == t.cols + 1)) [
    | inl full ↦
        let edge : (c.cursor.x + 1 == c.lcd_width) ≡ true =
          ground (arith, s.x_eq, s.sized.width_eq) in
        let next = next_line-Shows os cursor_hide s in
        rw edge (
          tt,
          (
            cell_inside t.cols t.rows next (ground arith) (ground arith)
                (ground (arith, s.sized.some_cols)),
            set_cursor-inside os _ _ (u8 (c.cur_row + 1)) 1 cursor_hide c s.sized.font a,
          ),
        )
    | inr room ↦
        let edge : (c.cursor.x + 1 == c.lcd_width) ≡ false =
          ground (arith, s.x_eq, s.sized.width_eq) in
        rw edge (tt, (cell_inside t.cols t.rows s refl refl (ground arith), (tt, a)))
  ]

  put_font-Inside : (b mode : ℕ) → Inside c.history → Inside (put_font os f b mode c).history
  unfolding put_font ring backspace
  put_font-Inside b mode a = ground (
    arith,
    set_cursor-inside os (6 * t.cols) (f.height * t.rows) (u8 (c.cur_row + 1)) 1 mode c
        s.sized.font,
    set_cursor-inside os (6 * t.cols) (f.height * t.rows) c.cur_row (u8 (c.cur_col + 255)) mode c
        s.sized.font,
    set_cursor-inside os (6 * t.cols) (f.height * t.rows) (u8 (c.cur_row + 255)) c.max_col mode c
        s.sized.font,
    set_cursor-inside os (6 * t.cols) (f.height * t.rows) c.cur_row 1 mode c s.sized.font,
    print_glyph-Inside b mode,
  )

fputc-inside :
    (os : Os) {f : Font} {t : Terminal} {c : Console} (b : ℕ) (s : Shows f t c)
    → All (DrawsInside (6 * t.cols) (f.height * t.rows)) c.history
    → All (DrawsInside (6 * t.cols) (f.height * t.rows)) (fputc os b stdout c).1.history
fputc-inside os {c} b s a =
    rw (fputc_with_font os b c s.sized.font)
      (put_font-Inside os (history-Shows (Event.get_cursor_mode ∷ c.history) s) (u8 b) _ (tt, a))

-- The grid keeps its size.
type_byte_size :
    (b : ℕ) (t : Terminal) → ((type_byte b t).cols ≡ t.cols) × ((type_byte b t).rows ≡ t.rows)
unfolding type_byte type_glyph
type_byte_size b t = ground arith

fputs-inside_grid :
    (os : Os) (str : List ℕ) {f : Font} {t : Terminal} {c : Console} (cols rows : ℕ)
    → Shows f t c
    → t.cols ≡ cols
    → t.rows ≡ rows
    → All (DrawsInside (6 * cols) (f.height * rows)) c.history
    → All (DrawsInside (6 * cols) (f.height * rows)) (fputs os str stdout c).1.history
unfolding fputs
fputs-inside_grid os [] cols rows s ec er a = a
fputs-inside_grid os (b ∷ str) {f} {t} {c} cols rows s ec er a = elim (Bool-cases (b == 0)) [
  | inl e ↦ rw e a
  | inr n ↦
      let here : All (DrawsInside (6 * cols) (f.height * rows)) (fputc os b stdout c).1.history =
        subst₂ (λ x y. All (DrawsInside (6 * x) (f.height * y)) (fputc os b stdout c).1.history) ec
          er
          (fputc-inside os b s (
            subst₂ (λ x y. All (DrawsInside (6 * x) (f.height * y)) c.history) (sym ec) (sym er)
              a)) in
      elim (Bool-cases (is_negative32 (fputc os b stdout c).0)) [
        | inl bad ↦ rw (n, bad) here
        | inr good ↦
            rw (n, good)
              (fputs-inside_grid os str cols rows (fputc-Shows os b s).1
                ((type_byte_size (u8 b) t).0 ∙ ec) ((type_byte_size (u8 b) t).1 ∙ er) here)
      ]
]

-- Whatever string `fputs` writes to `stdout` of a console that shows a terminal, control codes and
-- scrolling included: if every glyph drawn before lies wholly on the LCD, so does every glyph drawn then.
pub fputs-inside :
    (os : Os) (str : List ℕ) {f : Font} {t : Terminal} {c : Console}
    → Shows f t c
    → All (DrawsInside c.lcd_width c.lcd_height) c.history
    → All (DrawsInside c.lcd_width c.lcd_height) (fputs os str stdout c).1.history
fputs-inside os str {f} {t} {c} s a =
    subst₂ (λ x y. All (DrawsInside x y) (fputs os str stdout c).1.history) (sym s.sized.width_eq)
      (sym s.sized.height_eq)
      (fputs-inside_grid os str t.cols t.rows s refl refl
        (subst₂ (λ x y. All (DrawsInside x y) c.history) s.sized.width_eq s.sized.height_eq a))

-- `short offset` holds the place of every glyph of a font with at most 128 bytes a glyph: the bitmap
-- that is drawn for a byte is the one at `max_bytes * byte` in a table that ends below 2 ^ 32.
pub glyph_address_exact :
    (f : Font) (b : ℕ)
    → b < 256
    → f.max_bytes ≤ 128
    → f.bitmap_data + f.max_bytes * b < 2 ^ 32
    → glyph_address f b ≡ f.bitmap_data + f.max_bytes * b
unfolding glyph_address
glyph_address_exact f b h1 h2 h3 =
    let offset : f.max_bytes * b < 2 ^ 15 = grind arith in ground arith
