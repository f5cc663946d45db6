-- ===== src/Console/Strings.antt =====
-- os3k/os3k.c: `fputs` on `stdout`, and lines of text that fit their row.
use betawise.Base.{
  ap, ◌∙◌, ℕ, ◌+◌, ◌≤◌, ◌<◌, ◌≡◌, ◌≢◌, refl, arith, List, [], ◌∷◌, length, Bool-cases, false, inl,
  inr, ◌==◌, is_negative32, All,
}
use mathlib.Core.Path.{subst}
use betawise.Os.{Os, Font}
use betawise.Console.{Console, stdout}
use betawise.Console.Terminal.{Terminal, type_glyph, type_byte, type_text, Shows}
use betawise.Console.Print.{fputc-Shows}
use betawise.Console.Stdio.{fputc, fputs}

abbrev pub IsByte : ℕ → Type 0
IsByte b = b < 256

-- A byte that `fputc` draws, rather than one that it obeys.
abbrev pub IsGlyph : ℕ → Type 0
IsGlyph b = (b < 256) × (b ≢ 0) × (b ≢ 7) × (b ≢ 8) × (b ≢ 10) × (b ≢ 13)

-- `fputs` of a string of bytes on `stdout` of a console that shows a terminal never fails: it returns
-- 0, and leaves the console showing the terminal on which the text before the NUL has been typed.
pub fputs-Shows :
    (os : Os) (str : List ℕ) {f : Font} {t : Terminal} {c : Console}
    → All IsByte str
    → Shows f t c
    → ((fputs os str stdout c).0 ≡ 0) × Shows f (type_text str t) (fputs os str stdout c).1
unfolding fputs type_text
fputs-Shows os [] bytes s = (refl, s)
fputs-Shows os (b ∷ str) {f} {t} {c} bytes s = elim (Bool-cases (b == 0)) [
  | inl e ↦ rw e (refl, s)
  | inr n ↦
      let printed = fputc-Shows os b s in
      let shown : Shows f (type_byte b t) (fputc os b stdout c).1 =
        subst (λ d. Shows f (type_byte d t) (fputc os b stdout c).1) (omega arith) printed.1 in
      let positive : is_negative32 (fputc os b stdout c).0 ≡ false = ground arith in
      rw (n, positive) (fputs-Shows os str bytes.1 shown)
]

pub type_byte_glyph :
    (b : ℕ) (t : Terminal)
    → IsGlyph b
    → t.col ≤ t.cols
    → type_byte b t ≡ record t { col = t.col + 1 }
unfolding type_byte type_glyph
type_byte_glyph b t g h = ground arith

-- Text that fits the rest of the row stays on the row, and moves the cursor on by its length.
pub type_text_row :
    (str : List ℕ) (t : Terminal)
    → All IsGlyph str
    → t.col + length str ≤ t.cols + 1
    → type_text str t ≡ record t { col = t.col + length str }
unfolding type_text
type_text_row [] t g h = ground arith
type_text_row (b ∷ str) t g h =
    ground (arith, type_byte_glyph b t, type_text_row str (record t { col = t.col + 1 }))

glyphs-bytes : (str : List ℕ) → All IsGlyph str → All IsByte str
glyphs-bytes [] g = tt
glyphs-bytes (b ∷ str) g = (g.0.0, glyphs-bytes str g.1)

-- A printable byte on a row that is not full.
pub fputc_in_row :
    (os : Os) (b : ℕ) {f : Font} {t : Terminal} {c : Console}
    → IsGlyph b
    → t.col ≤ t.cols
    → Shows f t c
    → Shows f (record t { col = t.col + 1 }) (fputc os b stdout c).1
fputc_in_row os b {f} {t} {c} g h s =
    subst (λ (u : Terminal). Shows f u (fputc os b stdout c).1)
      (ap (λ (d : ℕ). type_byte d t) (omega (arith, g)) ∙ type_byte_glyph b t g h)
      (fputc-Shows os b s).1

-- On a console that shows a terminal, `fputs` of printable bytes that fit the rest of the cursor's row
-- returns 0, and leaves the console showing the same terminal with its cursor that many columns further
-- on: the row is not left, and nothing scrolls.
pub fputs_in_row :
    (os : Os) (str : List ℕ) {f : Font} {t : Terminal} {c : Console}
    → All IsGlyph str
    → t.col + length str ≤ t.cols + 1
    → Shows f t c
    → ((fputs os str stdout c).0 ≡ 0)
      × Shows f (record t { col = t.col + length str }) (fputs os str stdout c).1
fputs_in_row os str {f} {t} {c} g h s =
    let printed = fputs-Shows os str (glyphs-bytes str g) s in
    (
      printed.0,
      subst (λ (u : Terminal). Shows f u (fputs os str stdout c).1) (type_text_row str t g h)
          printed.1,
    )
