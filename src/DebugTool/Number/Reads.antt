-- ===== src/DebugTool/Number/Reads.antt =====
-- applets/DebugTool/DebugTool.c: `NumberFromString` reads every text of the grammar as it is meant.
use betawise.Base.{
  ℕ, ◌+◌, ◌*◌, ◌%◌, ◌^◌, ◌≡◌, ◌≢◌, ◌↔◌, ◌⊎◌, ◌∙◌, ap, refl, arith, List, [], ◌∷◌, ◌++◌, All, some,
  Bool, true, false,
}
use betawise.DebugTool.Number.{
  Addresses, hex_char_to_nibble, scan_hex, scan_decimal, scan, finish, sys_call_word,
  number_from_string,
}
use betawise.DebugTool.Number.Digits.{
  IsDecimalDigit, hex_text, decimal_text, StopsHex, StopsDecimal, scan_hex_run, scan_decimal_run,
  sys_call_word_lem,
}
use betawise.DebugTool.Number.Text.{
  Numeral, hex, decimal, Text, literal, plain, in_scratch, sys_call, IsNumeral, IsText, x_char,
  numeral_text, text, numeral_value, meaning,
}

-- What the code relies on of `tolower`: it takes the two letters X to `x`, and nothing else there.
abbrev pub LowersX : (ℕ → ℕ) → Type 0
LowersX tolower = (c : ℕ) → (tolower c ≡ b'x') ↔ ((c ≡ b'x') ⊎ (c ≡ b'X'))

-- What may follow a numeral.
abbrev ending : Bool → List ℕ
ending true = b'+' ∷ []
ending false = []

ending_stops : (plus : Bool) → StopsHex (ending plus) × StopsDecimal (ending plus)
unfolding hex_char_to_nibble
ending_stops true = (refl, refl)
ending_stops false = (tt, tt)

module _ (tolower : ℕ → ℕ) (lowers : LowersX tolower) where
  -- A string whose second character is no X is read in decimal.
  abbrev SecondIsNotX : List ℕ → Type 0
  SecondIsNotX [] = Unit
  SecondIsNotX (_ ∷ []) = Unit
  SecondIsNotX (_ ∷ d ∷ _) = (d ≢ b'x') × (d ≢ b'X')

  scan_is_decimal : (s : List ℕ) → SecondIsNotX s → scan tolower s ≡ scan_decimal s 0
  unfolding scan
  scan_is_decimal [] h = refl
  scan_is_decimal (c ∷ []) h = refl
  scan_is_decimal (c ∷ d ∷ s) h = ground (arith, lowers d)

  decimal-SecondIsNotX :
      (ds : List ℕ) (plus : Bool)
      → All IsDecimalDigit ds
      → SecondIsNotX (decimal_text ds ++ ending plus)
  decimal-SecondIsNotX [] true h = tt
  decimal-SecondIsNotX [] false h = tt
  decimal-SecondIsNotX (d ∷ []) true h = omega arith
  decimal-SecondIsNotX (d ∷ []) false h = tt
  decimal-SecondIsNotX (d ∷ e ∷ ds) plus h = omega arith

  scan_numeral :
      (n : Numeral) (plus : Bool)
      → IsNumeral n
      → scan tolower (numeral_text n (ending plus)) ≡ (numeral_value n % 2 ^ 32, ending plus)
  scan_numeral (hex upper ds) plus h =
      begins_hex ∙ scan_hex_run ds (ending plus) 0 h (ending_stops plus).0
    where
      begins_hex :
          scan tolower (numeral_text (hex upper ds) (ending plus))
          ≡ scan_hex (hex_text ds ++ ending plus) 0
      begins_hex = unfold scan in ground (arith, lowers (x_char upper))
  scan_numeral (decimal ds) plus h =
      scan_is_decimal _ (decimal-SecondIsNotX ds plus h)
      ∙ scan_decimal_run ds (ending plus) 0 h (ending_stops plus).1

  -- A numeral begins with none of the two marks.
  begins_plainly :
      (n : Numeral) (plus : Bool) (a : Addresses) (base raw : ℕ)
      → IsNumeral n
      → number_from_string tolower a base (numeral_text n (ending plus)) raw
        ≡ finish a false (numeral_value n % 2 ^ 32) (ending plus) raw
  unfolding number_from_string
  begins_plainly (hex upper ds) plus a base raw h =
      ground (arith, scan_numeral (hex upper ds) plus h)
  begins_plainly (decimal []) true a base raw h = ground (arith, scan_numeral (decimal []) true h)
  begins_plainly (decimal []) false a base raw h = ground (arith, scan_numeral (decimal []) false h)
  begins_plainly (decimal (d ∷ ds)) plus a base raw h =
      ground (arith, scan_numeral (decimal (d ∷ ds)) plus h)

  -- With a `tolower` that makes `x` of `X` and `x` only, every text of the grammar is accepted, and stores the number that it means (modulo 2 ^ 32), with
  -- the word of the system call in `g_rawSysCall` if it names one.
  pub number_from_string-text :
      (a : Addresses) (base raw : ℕ) (t : Text)
      → IsText t
      → number_from_string tolower a base (text t) raw ≡ meaning a base raw t
  number_from_string-text a base raw (literal s) h = unfold number_from_string in refl
  number_from_string-text a base raw (plain n) h =
      begins_plainly n false a base raw h ∙ unfold finish in refl
  number_from_string-text a base raw (in_scratch n) h =
      begins_plainly n true a base raw h ∙ unfold finish in ground arith
  number_from_string-text a base raw (sys_call n) h =
      called ∙ ap (λ w. (some a.raw_sys_call, w)) (word (numeral_value n))
    where
      called :
          number_from_string tolower a base (text (sys_call n)) raw
          ≡ (some a.raw_sys_call, sys_call_word (numeral_value n % 2 ^ 32))
      called = unfold number_from_string finish in ground (arith, scan_numeral n false h)

      word : (k : ℕ) → sys_call_word (k % 2 ^ 32) ≡ 0xA000 + 4 * (k % 512)
      word k = omega (arith, sys_call_word_lem (k % 2 ^ 32))
