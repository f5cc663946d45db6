-- ===== src/Console/RowText.antt =====
-- os3k/os3k.c: text that fits its row, cell by cell.
use betawise.Base.{
  ℕ, suc, ◌+◌, ◌-◌, ◌≤◌, ◌≡◌, inl, inr, refl, sym, arith, ◌∙◌, ap, List, [], ◌∷◌, ◌++◌, length,
  get_or, Bool-cases, false, ltb, leb, ◌==◌, ◌&&◌, if◌then◌else◌, All,
}
use mathlib.Core.Path.{subst}
use betawise.Os.{Os, Font}
use betawise.Console.{Console, stdout}
use betawise.Console.Terminal.{Terminal, type_byte}
use betawise.Console.Stdio.{glyph_address, fputc, fputs}
use betawise.Console.Strings.{IsGlyph, type_byte_glyph, type_text_row}
use betawise.Console.Picture.{Cell, glyph}
use betawise.Console.Page.{Page, put, type_page, text_page, Displays}
use betawise.Console.Typed.{IsText, fputc-Displays, fputs-Displays}

-- The page with a text written on it from a cell on.
abbrev pub write : Font → ℕ → ℕ → List ℕ → Page → Page
write f row col str page r k =
    if r == row && (leb col k && ltb k (col + length str))
    then glyph (glyph_address f (get_or str (k - col) 0))
    else page r k

type_page_glyph :
    (f : Font) (b : ℕ) (t : Terminal) (page : Page)
    → IsGlyph b
    → t.col ≤ t.cols
    → type_page f b t page ≡ put f b t page
unfolding type_page
type_page_glyph f b t page g h =
    let n7 : (b == 7) ≡ false = ground arith in
    let n10 : (b == 10) ≡ false = ground arith in
    let n13 : (b == 13) ≡ false = ground arith in
    let room : (t.col == t.cols + 1) ≡ false = ground arith in rw (n7, n10, n13, room) refl

write-same :
    (f : Font) (row col : ℕ) (str : List ℕ) (page page' : Page) (r k : ℕ)
    → page r k ≡ page' r k
    → write f row col str page r k ≡ write f row col str page' r k
write-same f row col str page page' r k e =
    ap
      (λ (old : Cell).
        if r == row && (leb col k && ltb k (col + length str))
        then glyph (glyph_address f (get_or str (k - col) 0))
        else old)
      e

-- A character, and then a text behind it.
write-cons :
    (f : Font) (row col b : ℕ) (str : List ℕ) (page : Page) (r k : ℕ)
    → write f row (col + 1) str (write f row col (b ∷ []) page) r k
      ≡ write f row col (b ∷ str) page r k
write-cons f row col b str page r k = elim (Bool-cases (ltb col k)) [
  | inl right ↦ let next : k - col ≡ suc (k - (col + 1)) = ground arith in rw next (ground arith)
  | inr left ↦ let first : k - col ≡ 0 = ground arith in rw first (ground arith)
]

put-write :
    (f : Font) (b : ℕ) (t : Terminal) (page : Page) (r k : ℕ)
    → put f b t page r k ≡ write f t.row t.col (b ∷ []) page r k
put-write f b t page r k = elim (Bool-cases (k == t.col)) [
  | inl here ↦ let first : k - t.col ≡ 0 = ground arith in rw first (ground arith)
  | inr other ↦ ground arith
]

text_page-write :
    (f : Font) (str : List ℕ) (t : Terminal) (page : Page) (r k : ℕ)
    → All IsGlyph str
    → t.col + length str ≤ t.cols + 1
    → text_page f str t page r k ≡ write f t.row t.col str page r k
unfolding text_page
text_page-write f [] t page r k g h = ground arith
text_page-write f (b ∷ str) t page r k g h =
    let typed = type_byte_glyph b t g.0 (omega arith) in
    let paged = type_page_glyph f b t page g.0 (omega arith) in
    let rest =
      text_page-write f str (record t { col = t.col + 1 }) (put f b t page) r k g.1 (omega arith) in
    let some_b : (b == 0) ≡ false = ground arith in
    rw (some_b, typed, paged)
      (rest
        ∙ write-same f t.row (t.col + 1) str (put f b t page) (write f t.row t.col (b ∷ []) page) r
            k (put-write f b t page r k)
        ∙ write-cons f t.row t.col b str page r k)

pub write-append :
    (f : Font) (row col : ℕ) (s t : List ℕ) (page : Page) (r k : ℕ)
    → write f row (col + length s) t (write f row col s page) r k
      ≡ write f row col (s ++ t) page r k
write-append f row col [] t page r k =
    let start : col + 0 ≡ col = omega arith in
    ap (λ (x : ℕ). write f row x t (write f row col [] page) r k) start
    ∙ write-same f row col t (write f row col [] page) page r k (ground arith)
write-append f row col (b ∷ s) t page r k =
    let from : col + suc (length s) ≡ col + 1 + length s = omega arith in
    let one = write f row col (b ∷ []) page in
    ap (λ (x : ℕ). write f row x t (write f row col (b ∷ s) page) r k) from
    ∙ write-same f row (col + 1 + length s) t (write f row col (b ∷ s) page)
        (write f row (col + 1) s one) r k (sym (write-cons f row col b s page r k))
    ∙ write-append f row (col + 1) s t one r k
    ∙ write-cons f row col b (s ++ t) page r k

pub write-nil :
    (f : Font) (row col : ℕ) (page : Page) (r k : ℕ) → page r k ≡ write f row col [] page r k
write-nil f row col page r k = ground arith

pub Displays-page :
    {f : Font} {t : Terminal} {page : Page} {c : Console} (page' : Page)
    → ((r k : ℕ) → page r k ≡ page' r k)
    → Displays f t page c
    → Displays f t page' c
Displays-page page' same d = record {
  shows = d.shows;
  cells = λ r k h1 h2 h3 h4. d.cells r k h1 h2 h3 h4 ∙ same r k;
}

glyphs-IsText : (str : List ℕ) → All IsGlyph str → All IsText str
glyphs-IsText [] g = tt
glyphs-IsText (b ∷ str) g = ((g.0.0, g.0.3), glyphs-IsText str g.1)

-- `fputs` of printable bytes that fit the rest of the cursor's row.
pub fputs_in_row-Displays :
    (os : Os) (str : List ℕ) {f : Font} {t : Terminal} {page : Page} {c : Console}
    → All IsGlyph str
    → t.col + length str ≤ t.cols + 1
    → Displays f t page c
    → Displays f
        (record t { col = t.col + length str })
        (write f t.row t.col str page)
        (fputs os str stdout c).1
fputs_in_row-Displays os str {f} {t} {page} {c} g h d =
    subst (λ (u : Terminal). Displays f u (write f t.row t.col str page) (fputs os str stdout c).1)
      (type_text_row str t g h)
      (Displays-page (write f t.row t.col str page) (λ r k. text_page-write f str t page r k g h)
        (fputs-Displays os str (glyphs-IsText str g) d))

pub fputc_in_row-Displays :
    (os : Os) (b : ℕ) {f : Font} {t : Terminal} {page : Page} {c : Console}
    → IsGlyph b
    → t.col ≤ t.cols
    → Displays f t page c
    → Displays f
        (record t { col = t.col + 1 })
        (write f t.row t.col (b ∷ []) page)
        (fputc os b stdout c).1
fputc_in_row-Displays os b {f} {t} {page} {c} g h d =
    Displays-page (write f t.row t.col (b ∷ []) page) (λ r k. put-write f b t page r k)
      (subst (λ (u : Terminal). Displays f u (put f b t page) (fputc os b stdout c).1)
        (type_byte_glyph b t g h)
        (subst (λ (p : Page). Displays f (type_byte b t) p (fputc os b stdout c).1)
          (type_page_glyph f b t page g h) (fputc-Displays os b g.0 g.3 d)))
