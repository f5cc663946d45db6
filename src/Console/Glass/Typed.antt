-- ===== src/Console/Glass/Typed.antt =====
-- os3k/os3k.c: what the display shows after `fputs`, and after a character and a backspace.
use betawise.Base.{
  ℕ, ◌+◌, ◌*◌, ◌≤◌, ◌≡◌, inl, inr, refl, sym, arith, ap, ◌∙◌, List, [], ◌∷◌, true, false,
  Bool-cases, ltb, ◌==◌, u8, is_negative32, All,
}
use mathlib.Core.Path.{subst}
use betawise.Os.{Os, Event, Font}
use betawise.Console.{Console, call, set_cursor, stdout}
use betawise.Console.Terminal.{Terminal, type_glyph, type_byte, type_text, Shows}
use betawise.Console.Stdio.{backspace, put_font, fputc, fputs}
use betawise.Console.Print.{fputc_with_font, fputc-Shows}
use betawise.Console.Strings.{IsByte, IsGlyph, fputs-Shows, type_byte_glyph}
use betawise.Console.Page.{Page, put, type_page, text_page, Displays, set_cursor-cells}
use betawise.Console.Typed.{IsText, fputc-Displays, fputs-Displays, history-Displays, ask_call}
use betawise.Console.Glass.{IsRolled, fputc-IsRolled}
use betawise.Console.Glass.Shown.{OnGlass, OnGlass-Displays, Glass-HasCells}

fputs-IsRolled :
    (os : Os) (str : List ℕ) {f : Font} {t : Terminal} {c : Console}
    → Shows f t c
    → IsRolled c
    → IsRolled (fputs os str stdout c).1
unfolding fputs
fputs-IsRolled os [] s r = r
fputs-IsRolled os (b ∷ str) {f} {t} {c} s r = elim (Bool-cases (b == 0)) [
  | inl end ↦ rw end r
  | inr more ↦
      let printed = fputc-IsRolled os b c s.sized.font r in
      elim (Bool-cases (is_negative32 (fputc os b stdout c).0)) [
        | inl error ↦ rw (more, error) printed
        | inr good ↦ rw (more, good) (fputs-IsRolled os str (fputc-Shows os b s).1 printed)
      ]
]

type_byte_rows : (b : ℕ) (t : Terminal) → (type_byte b t).rows ≡ t.rows
unfolding type_byte type_glyph
type_byte_rows b t = ground arith

type_text_rows : (str : List ℕ) (t : Terminal) → (type_text str t).rows ≡ t.rows
unfolding type_text
type_text_rows [] t = refl
type_text_rows (b ∷ str) t = ground (arith, type_text_rows str (type_byte b t), type_byte_rows b t)

text_bytes : (str : List ℕ) → All IsText str → All IsByte str
text_bytes [] h = tt
text_bytes (b ∷ str) h = (h.0.0, text_bytes str h.1)

displayed :
    {f : Font} {t : Terminal} {page : Page} {c : Console}
    → f.height * t.rows ≡ 64
    → OnGlass f t page c
    → Displays f t page c
displayed {f} {t} {page} {c} full g = record {
  shows = g.shows;
  cells =
      Glass-HasCells {f = f} {t = t} {page = page} {c = c} full g.shows.sized g.rolled_to g.glass;
}

-- On an LCD of 64 lines that shows a page of text: `fputs` of a string of bytes without a backspace to `stdout` returns 0, and
-- the display then shows the page on which the text before the NUL has been typed, with each row one row higher and a blank
-- row below them for each row that the terminal scrolls.
pub fputs-OnGlass :
    (os : Os) (str : List ℕ) {f : Font} {t : Terminal} {page : Page} {c : Console}
    → f.height * t.rows ≡ 64
    → All IsText str
    → OnGlass f t page c
    → ((fputs os str stdout c).0 ≡ 0)
      × OnGlass f (type_text str t) (text_page f str t page) (fputs os str stdout c).1
fputs-OnGlass os str {f} {t} {page} {c} full text g =
    let full' : f.height * (type_text str t).rows ≡ 64 =
      ap (λ n. f.height * n) (type_text_rows str t) ∙ full in
    (
      (fputs-Shows os str (text_bytes str text) g.shows).0,
      OnGlass-Displays full' (fputs-Displays os str text (displayed full g))
          (fputs-IsRolled os str g.shows g.rolled_to),
    )

-- A backspace from behind a character.
back-Displays :
    (os : Os) {f : Font} {t : Terminal} {page : Page} {c : Console}
    → 1 ≤ t.col
    → t.col ≤ t.cols
    → Displays f (record t { col = t.col + 1 }) page c
    → Displays f t page (fputc os 8 stdout c).1
unfolding put_font backspace
back-Displays os {f} {t} {page} {c} h1 h2 d =
    let asked = history-Displays Event.get_cursor_mode (ask_call f c.history) d in
    let s = d.shows in
    let room : ltb 1 c.cur_col ≡ true = ground (arith, s.col_eq) in
    let col : u8 (c.cur_col + 255) ≡ t.col = omega (arith, s.col_eq, s.sized.cols_fit) in
    let mode = os.cursor_mode (Event.get_cursor_mode ∷ c.history) in
    let before = call Event.get_cursor_mode c in
    rw (fputc_with_font os 8 c s.sized.font, room, col)
      (subst (λ (r : ℕ). Displays f t page (set_cursor os r t.col mode before)) (sym s.row_eq)
        (set_cursor-cells os {t = record t { col = t.col + 1 }} {page = page} t.row t.col mode
          s.on_grid.row_from s.on_grid.row_to h1 (omega arith) asked.shows.sized asked.cells))

type_page_glyph :
    (f : Font) (b : ℕ) (t : Terminal) (page : Page)
    → IsGlyph b
    → t.col ≤ t.cols
    → type_page f b t page ≡ put f b t page
unfolding type_page
type_page_glyph f b t page g h =
    let n7 : (b == 7) ≡ false = ground (arith, g) in
    let n10 : (b == 10) ≡ false = ground (arith, g) in
    let n13 : (b == 13) ≡ false = ground (arith, g) in
    let room : (t.col == t.cols + 1) ≡ false = ground arith in rw (n7, n10, n13, room) refl

-- On an LCD of 64 lines that shows a page of text, with the cursor not behind a full row: after `fputc` of a printable byte and
-- of a backspace the cursor is where it was, and the display shows the same page but for the character, which stays in the
-- cursor's cell.
pub fputc_backspace-OnGlass :
    (os : Os) (b : ℕ) {f : Font} {t : Terminal} {page : Page} {c : Console}
    → f.height * t.rows ≡ 64
    → IsGlyph b
    → t.col ≤ t.cols
    → OnGlass f t page c
    → OnGlass f t (put f b t page) (fputc os 8 stdout (fputc os b stdout c).1).1
fputc_backspace-OnGlass os b {f} {t} {page} {c} full g room on =
    let typed = fputc-Displays os b (omega (arith, g)) (ground (arith, g)) (displayed full on) in
    let rolled = fputc-IsRolled os b c on.shows.sized.font on.rolled_to in
    OnGlass-Displays full
      (back-Displays os {t = t} {page = put f b t page} {c = (fputc os b stdout c).1}
        on.shows.on_grid.col_from room
        (subst (λ (u : Terminal). Displays f u (put f b t page) (fputc os b stdout c).1)
          (type_byte_glyph b t g room)
          (subst (λ (p : Page). Displays f (type_byte b t) p (fputc os b stdout c).1)
            (type_page_glyph f b t page g room) typed)))
      (fputc-IsRolled os 8 _ typed.shows.sized.font rolled)
