-- ===== src/Console/Typed.antt =====
-- os3k/os3k.c: `fputc` and `fputs` on `stdout` do to the LCD's memory what typing does to the page.
use betawise.Base.{
  ℕ, ◌+◌, ◌≤◌, ◌<◌, ◌≡◌, ◌≢◌, inl, inr, refl, sym, arith, ◌∙◌, ap, List, [], ◌∷◌, Bool-cases, true,
  false, ◌==◌, ◌&&◌, if◌then◌else◌, u8, is_negative32, All,
}
use mathlib.Core.Path.{subst}
use betawise.Os.{Os, Font, Event, History}
use betawise.Console.{Console, call, set_cursor, cursor_hide, stdout}
use betawise.Console.Terminal.{Terminal, goto, type_glyph, type_byte, type_text}
use betawise.Console.Stdio.{glyph_address, draw_glyph, print_glyph, ring, put_font, fputc, fputs}
use betawise.Console.Print.{
  history-Shows, ring-Shows, draw_glyph-Shows, fputc_with_font, fputc-Shows,
}
use betawise.Console.Picture.{Cell, glyph, picture, draw_glyph-cell}
use betawise.Console.Page.{
  Page, put, below, type_page, text_page, Displays, set_cursor-cells, next_line-Displays,
}

-- A character in a cell of the cursor's row.
draw_glyph-Displays :
    {f : Font} {t : Terminal} {page : Page} {c : Console} (b n : ℕ)
    → Displays f t page c
    → n ≡ t.col + 1
    → n ≤ t.cols + 1
    → Displays f (record t { col = n }) (put f b t page) (draw_glyph f b c)
draw_glyph-Displays {f} {t} {page} {c} b n d e h = record {
  shows = draw_glyph-Shows b n d.shows e h;
  cells = λ row col h1 h2 h3 h4.
      draw_glyph-cell b row col d.shows (omega arith) h1 h2 h3 h4
      ∙ ap (λ (old : Cell). if row == t.row && col == t.col then glyph (glyph_address f b) else old)
          (d.cells row col h1 h2 h3 h4);
}

pub history-Displays :
    {f : Font} {t : Terminal} {page : Page} {c : Console} (e : Event)
    → ((x y : ℕ) → picture f (e ∷ c.history) x y ≡ picture f c.history x y)
    → Displays f t page c
    → Displays f t page (call e c)
history-Displays {f} {t} {page} {c} e same d = record {
  shows = history-Shows (e ∷ c.history) d.shows;
  cells = λ row col h1 h2 h3 h4. same _ _ ∙ d.cells row col h1 h2 h3 h4;
}

mode_call :
    (f : Font) (mode : ℕ) (h : History) (x y : ℕ)
    → picture f (Event.set_cursor_mode mode ∷ h) x y ≡ picture f h x y
unfolding picture
mode_call f mode h x y = refl

pub ask_call :
    (f : Font) (h : History) (x y : ℕ) → picture f (Event.get_cursor_mode ∷ h) x y ≡ picture f h x y
unfolding picture
ask_call f h x y = refl

ring-Displays :
    {f : Font} {t : Terminal} {page : Page} {c : Console} (mode : ℕ)
    → Displays f t page c
    → Displays f t page (ring mode c)
unfolding ring picture
ring-Displays mode d = record { shows = unfold ring in ring-Shows mode d.shows; cells = d.cells }

print_glyph-Displays :
    (os : Os) {f : Font} {t : Terminal} {page : Page} {c : Console} (b mode : ℕ)
    → Displays f t page c
    → Displays f
        (type_glyph t)
        (if t.col == t.cols + 1
          then put f b (goto (t.row + 1) 1 t) (below t page)
          else put f b t page)
        (print_glyph os f b mode c)
unfolding type_glyph print_glyph
print_glyph-Displays os {f} {t} {page} {c} b mode d =
    let s = d.shows in
    elim (Bool-cases (t.col == t.cols + 1)) [
      | inl full ↦
          let edge : (c.cursor.x + 1 == c.lcd_width) ≡ true =
            ground (arith, s.x_eq, s.sized.width_eq) in
          rw (full, edge)
            (history-Displays _ (mode_call f mode _) (
              draw_glyph-Displays b 2 (next_line-Displays os cursor_hide d) (ground arith)
                (ground (arith, s.sized.some_cols))))
      | inr room ↦
          let edge : (c.cursor.x + 1 == c.lcd_width) ≡ false =
            ground (arith, s.x_eq, s.sized.width_eq) in
          rw (room, edge)
            (history-Displays _ (mode_call f mode _) (
              draw_glyph-Displays b (t.col + 1)
                (history-Displays (Event.set_cursor_mode cursor_hide)
                  (mode_call f cursor_hide c.history) d)
                refl (ground arith)))
    ]

return-Displays :
    (os : Os) {f : Font} {t : Terminal} {page : Page} {c : Console} (mode : ℕ)
    → Displays f t page c
    → Displays f (goto t.row 1 t) page (set_cursor os c.cur_row 1 mode c)
return-Displays os {f} {t} {page} {c} mode d =
    let grid = d.shows.on_grid in
    let within : goto t.row 1 t ≡ record t { col = 1 } = ground arith in
    rw within (
      subst (λ (r : ℕ). Displays f (record t { col = 1 }) page (set_cursor os r 1 mode c))
        (sym d.shows.row_eq)
        (set_cursor-cells os t.row 1 mode grid.row_from grid.row_to (omega arith) (omega arith)
          d.shows.sized d.cells))

-- The switch of `fputc` on a byte that is no backspace.
put_font-Displays :
    (os : Os) {f : Font} {t : Terminal} {page : Page} {c : Console} (b mode : ℕ)
    → b ≢ 8
    → Displays f t page c
    → Displays f (type_byte b t) (type_page f b t page) (put_font os f b mode c)
unfolding type_byte type_page put_font
put_font-Displays os {f} {t} {page} {c} b mode n8 d =
    let other : (b == 8) ≡ false = ground arith in
    elim (Bool-cases (b == 7)) [
      | inl e ↦ rw e (ring-Displays mode d)
      | inr n7 ↦ elim (Bool-cases (b == 10)) [
        | inl e ↦ rw (n7, other, e) (next_line-Displays os mode d)
        | inr n10 ↦ elim (Bool-cases (b == 13)) [
          | inl e ↦ rw (n7, other, n10, e) (return-Displays os mode d)
          | inr n13 ↦ rw (n7, other, n10, n13) (print_glyph-Displays os b mode d)
        ]
      ]
    ]

pub fputc-Displays :
    (os : Os) {f : Font} {t : Terminal} {page : Page} {c : Console} (b : ℕ)
    → b < 256
    → b ≢ 8
    → Displays f t page c
    → Displays f (type_byte b t) (type_page f b t page) (fputc os b stdout c).1
fputc-Displays os {f} {t} {page} {c} b byte n8 d =
    let low : u8 b ≡ b = omega arith in
    rw (fputc_with_font os b c d.shows.sized.font, low)
      (put_font-Displays os b _ n8
        (history-Displays Event.get_cursor_mode (ask_call f c.history) d))

-- A byte other than a backspace.
abbrev pub IsText : ℕ → Type 0
IsText b = (b < 256) × (b ≢ 8)

-- `fputs` of a string of bytes without a backspace on `stdout` of a console that shows a terminal, the LCD's memory holding
-- a page of text: the LCD then holds the page on which the text before the NUL has been typed, with the rows moved up and a
-- blank row added where the terminal scrolls.
pub fputs-Displays :
    (os : Os) (str : List ℕ) {f : Font} {t : Terminal} {page : Page} {c : Console}
    → All IsText str
    → Displays f t page c
    → Displays f (type_text str t) (text_page f str t page) (fputs os str stdout c).1
unfolding fputs type_text text_page
fputs-Displays os [] bytes d = d
fputs-Displays os (b ∷ str) {f} {t} {page} {c} bytes d = elim (Bool-cases (b == 0)) [
  | inl e ↦ rw e d
  | inr n ↦
      let printed = (fputc-Shows os b d.shows).0 in
      let positive : is_negative32 (fputc os b stdout c).0 ≡ false = ground arith in
      rw (n, positive) (fputs-Displays os str bytes.1 (fputc-Displays os b bytes.0.0 bytes.0.1 d))
]
