-- ===== src/DebugTool/Number/Accepts.antt =====
-- applets/DebugTool/DebugTool.c: `NumberFromString` accepts nothing but the texts of the grammar.
use betawise.Base.{
  ℕ, ◌+◌, ◌-◌, ◌≡◌, ◌⊎◌, inl, inr, ◌∙◌, ap, refl, arith, List, [], ◌∷◌, ◌++◌, All, some, Bool, true,
  false, Bool-cases, Option-cases, ◌&&◌, leb, ◌==◌, u32, bit_or, ◌*◌,
}
use betawise.DebugTool.Number.{
  Addresses, hex_char_to_nibble, scan_hex, scan_decimal, scan, finish, scan_and_finish,
  number_from_string,
}
use betawise.DebugTool.Number.Digits.{
  HexDigit, IsHexDigit, IsDecimalDigit, hex_text, decimal_text, hex_char_to_nibble_only,
}
use betawise.DebugTool.Number.Text.{
  Numeral, hex, decimal, Text, literal, plain, in_scratch, sys_call, IsNumeral, IsText,
  numeral_text, text,
}
use betawise.DebugTool.Number.Reads.{LowersX}

-- What a loop has read: a run of digits, up to the rest.
scan_hex_reads :
    (s : List ℕ) (n : ℕ)
    → (ds : List HexDigit) × All IsHexDigit ds × (s ≡ hex_text ds ++ (scan_hex s n).1)
unfolding scan_hex
scan_hex_reads [] n = ([], tt, refl)
scan_hex_reads (c ∷ s) n = elim (Option-cases (hex_char_to_nibble c)) [
  | inl stop ↦ ([], tt, ground arith)
  | inr (d, read) ↦
      let (ds, all, rest) = scan_hex_reads s (bit_or (u32 (n * 16)) d) in
      let (upper, below, char) = hex_char_to_nibble_only c d read in
      ((upper, d) ∷ ds, (below, all), ground arith)
]

scan_decimal_reads :
    (s : List ℕ) (n : ℕ)
    → (ds : List ℕ) × All IsDecimalDigit ds × (s ≡ decimal_text ds ++ (scan_decimal s n).1)
unfolding scan_decimal
scan_decimal_reads [] n = ([], tt, refl)
scan_decimal_reads (c ∷ s) n = elim (Bool-cases (leb b'0' c && leb c b'9')) [
  | inl digit ↦
      let (ds, all, rest) = scan_decimal_reads s (u32 (n * 10 + (c - b'0'))) in
      ((c - b'0') ∷ ds, (ground arith, all), ground arith)
  | inr stop ↦ ([], tt, ground arith)
]

-- What `finish` accepts of the rest of a string.
finish_ends :
    (a : Addresses) (syscall : Bool) (n : ℕ) (rest : List ℕ) (raw m : ℕ)
    → (finish a syscall n rest raw).0 ≡ some m
    → (rest ≡ []) ⊎ ((syscall ≡ false) × (rest ≡ b'+' ∷ []))
unfolding finish
finish_ends a syscall n [] raw m e = inl refl
finish_ends a true n (c ∷ rest) raw m e = cc
finish_ends a false n (c ∷ []) raw m e = inr (refl, ground arith)
finish_ends a false n (c ∷ d ∷ rest) raw m e = ground arith

module _ (tolower : ℕ → ℕ) (lowers : LowersX tolower) where
  decimal_reads :
      (s : List ℕ) (n : ℕ) → (m : Numeral) × IsNumeral m × (s ≡ numeral_text m (scan_decimal s n).1)
  decimal_reads s n = let (ds, all, e) = scan_decimal_reads s n in (decimal ds, all, e)

  -- What `scan` has read is a numeral.
  scan_reads : (s : List ℕ) → (n : Numeral) × IsNumeral n × (s ≡ numeral_text n (scan tolower s).1)
  unfolding scan
  scan_reads [] = decimal_reads [] 0
  scan_reads (c ∷ []) = decimal_reads (c ∷ []) 0
  scan_reads (c ∷ d ∷ s) = elim (Bool-cases (c == b'0' && tolower d == b'x')) [
    | inl e ↦
        let (ds, all, read) = scan_hex_reads s 0 in
        (hex (d == b'X') ds, all, ground (arith, lowers d))
    | inr e ↦ rw e (decimal_reads (c ∷ d ∷ s) 0)
  ]

  -- A numeral up to the end, or, for a number, up to a last `+`.
  accepts :
      (a : Addresses) (syscall : Bool) (s : List ℕ) (raw m : ℕ)
      → (scan_and_finish tolower a syscall s raw).0 ≡ some m
      → (n : Numeral) × IsNumeral n
        × ((s ≡ numeral_text n []) ⊎ ((syscall ≡ false) × (s ≡ numeral_text n (b'+' ∷ []))))
  accepts a syscall s raw m e =
      let (n, all, read) = scan_reads s in
      let (k, rest) = scan tolower s in
      (
        n,
        all,
        elim (finish_ends a syscall k rest raw m e) [
          | inl nothing ↦ inl (read ∙ ap (numeral_text n) nothing)
          | inr (number, plus) ↦ inr (number, read ∙ ap (numeral_text n) plus)
        ],
      )

  -- With a `tolower` that makes `x` of `X` and `x` only, what `NumberFromString` accepts is a text of the
  -- grammar.
  pub number_from_string-only_text :
      (a : Addresses) (base : ℕ) (s : List ℕ) (raw m : ℕ)
      → (number_from_string tolower a base s raw).0 ≡ some m
      → (t : Text) × IsText t × (s ≡ text t)
  number_from_string-only_text a base [] raw m e = (plain (decimal []), tt, refl)
  number_from_string-only_text a base (c ∷ s) raw m e = elim (Bool-cases (c == b'$')) [
    | inl dollar ↦ (literal s, tt, ground arith)
    | inr n1 ↦ elim (Bool-cases (c == b'!')) [
      | inl bang ↦
          let (n, all, read) = accepts a true s raw m (called n1 bang) in
          (sys_call n, all, elim read [ inl whole ↦ ground arith | inr (no_number, plus) ↦ cc ])
      | inr n2 ↦
          let (n, all, read) = accepts a false (c ∷ s) raw m (plainly n1 n2) in
          elim read [
            | inl whole ↦ (plain n, all, whole)
            | inr (number, plus) ↦ (in_scratch n, all, plus)
          ]
    ]
  ]
    where
      called :
          (c == b'$') ≡ false
          → (c == b'!') ≡ true
          → (scan_and_finish tolower a true s raw).0 ≡ some m
      called n1 e1 = unfold number_from_string in ground arith

      plainly :
          (c == b'$') ≡ false
          → (c == b'!') ≡ false
          → (scan_and_finish tolower a false (c ∷ s) raw).0 ≡ some m
      plainly n1 n2 = unfold number_from_string in ground arith
