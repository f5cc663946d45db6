-- ===== src/DebugTool/Number/Digits.antt =====
-- applets/DebugTool/DebugTool.c: the digits that `NumberFromString` reads, and what its two loops make
-- of a run of them.
use betawise.Base.{
  ℕ, ◌+◌, ◌-◌, ◌*◌, ◌/◌, ◌%◌, ◌^◌, ◌<◌, ◌≡◌, ◌∙◌, ◌↔◌, ◌⊎◌, ap, refl, arith, List, [], ◌∷◌, ◌++◌,
  All, none, some, Bool, true, false, ◌&&◌, inl, inr, Bool-cases, ltb, leb, if◌then◌else◌, u32,
  bit_or, bit_and, bit_or-shift, bit_and_even, bit_and_mask,
}
use betawise.DebugTool.Number.{hex_char_to_nibble, scan_hex, scan_decimal, sys_call_word}

-- A hexadecimal digit: its case, and its value. The character is the one that prints it.
abbrev pub HexDigit : Type 0
HexDigit = Bool × ℕ

abbrev pub hex_char : HexDigit → ℕ
hex_char (upper, d) = if ltb d 10 then b'0' + d else if upper then b'A' + d - 10 else b'a' + d - 10

abbrev pub IsHexDigit : HexDigit → Type 0
IsHexDigit d = d.1 < 16

abbrev pub IsDecimalDigit : ℕ → Type 0
IsDecimalDigit d = d < 10

-- The numbers that runs of digits stand for, after `n`.
abbrev pub hex_value : List HexDigit → ℕ → ℕ
hex_value [] n = n
hex_value (d ∷ ds) n = hex_value ds (n * 16 + d.1)

abbrev pub decimal_value : List ℕ → ℕ → ℕ
decimal_value [] n = n
decimal_value (d ∷ ds) n = decimal_value ds (n * 10 + d)

abbrev pub hex_text : List HexDigit → List ℕ
hex_text [] = []
hex_text (d ∷ ds) = hex_char d ∷ hex_text ds

abbrev pub decimal_text : List ℕ → List ℕ
decimal_text [] = []
decimal_text (d ∷ ds) = (b'0' + d) ∷ decimal_text ds

-- `HexCharToNibble` reads the character of every hexadecimal digit, in both cases of its letter.
pub hex_char_to_nibble-hex_char :
    (d : HexDigit) → IsHexDigit d → hex_char_to_nibble (hex_char d) ≡ some d.1
unfolding hex_char_to_nibble
hex_char_to_nibble-hex_char (true, d) h = ground arith
hex_char_to_nibble-hex_char (false, d) h = ground arith

-- It reads nothing else.
pub hex_char_to_nibble_only :
    (c d : ℕ)
    → hex_char_to_nibble c ≡ some d
    → (upper : Bool) × (d < 16) × (c ≡ hex_char (upper, d))
unfolding hex_char_to_nibble
hex_char_to_nibble_only c d h = elim (Bool-cases (leb b'A' c && leb c b'F')) [
  | inl e ↦ (true, ground arith, ground arith)
  | inr e ↦ (false, ground arith, ground arith)
]

-- `HexCharToNibble` gives `d` exactly for the characters of the hexadecimal digit `d`, in upper or in
-- lower case.
pub hex_char_to_nibble_iff :
    (c d : ℕ)
    → (hex_char_to_nibble c ≡ some d)
      ↔ ((d < 16) × ((c ≡ hex_char (true, d)) ⊎ (c ≡ hex_char (false, d))))
hex_char_to_nibble_iff c d = (
  λ e. from_read (hex_char_to_nibble_only c d e),
  λ h. elim h.1 [
    | inl upper ↦ rw upper (hex_char_to_nibble-hex_char (true, d) h.0)
    | inr lower ↦ rw lower (hex_char_to_nibble-hex_char (false, d) h.0)
  ],
)
  where
    from_read :
        (upper : Bool) × (d < 16) × (c ≡ hex_char (upper, d))
        → (d < 16) × ((c ≡ hex_char (true, d)) ⊎ (c ≡ hex_char (false, d)))
    from_read (true, h, e) = (h, inl e)
    from_read (false, h, e) = (h, inr e)

-- One round of each loop, on 32 bits.
hex_round : (n d : ℕ) → d < 16 → bit_or (u32 (n % 2 ^ 32 * 16)) d ≡ (n * 16 + d) % 2 ^ 32
hex_round n d h = ap (λ k. bit_or k d) high ∙ bit_or-shift 4 (n % 2 ^ 28) d h ∙ whole
  where
    high : u32 (n % 2 ^ 32 * 16) ≡ n % 2 ^ 28 * 2 ^ 4
    high = omega arith

    whole : n % 2 ^ 28 * 2 ^ 4 + d ≡ (n * 16 + d) % 2 ^ 32
    whole = omega arith

decimal_round :
    (n d : ℕ) → d < 10 → u32 (n % 2 ^ 32 * 10 + (b'0' + d - b'0')) ≡ (n * 10 + d) % 2 ^ 32
decimal_round n d h = omega arith

-- What cannot go on a run of digits.
abbrev pub StopsHex : List ℕ → Type 0
StopsHex [] = Unit
StopsHex (c ∷ _) = hex_char_to_nibble c ≡ none

abbrev pub StopsDecimal : List ℕ → Type 0
StopsDecimal [] = Unit
StopsDecimal (c ∷ _) = (leb b'0' c && leb c b'9') ≡ false

-- Each loop reads a whole run of digits, as a number modulo `2 ^ 32`, and stops behind it.
pub scan_hex_run :
    (ds : List HexDigit) (rest : List ℕ) (n : ℕ)
    → All IsHexDigit ds
    → StopsHex rest
    → scan_hex (hex_text ds ++ rest) (n % 2 ^ 32) ≡ (hex_value ds n % 2 ^ 32, rest)
unfolding scan_hex
scan_hex_run [] [] n h s = refl
scan_hex_run [] (c ∷ rest) n h s = ground arith
scan_hex_run (d ∷ ds) rest n h s = ground (
  arith,
  hex_char_to_nibble-hex_char d h.0,
  hex_round n d.1 h.0,
  scan_hex_run ds rest (n * 16 + d.1) h.1 s,
)

pub scan_decimal_run :
    (ds : List ℕ) (rest : List ℕ) (n : ℕ)
    → All IsDecimalDigit ds
    → StopsDecimal rest
    → scan_decimal (decimal_text ds ++ rest) (n % 2 ^ 32) ≡ (decimal_value ds n % 2 ^ 32, rest)
unfolding scan_decimal
scan_decimal_run [] [] n h s = refl
scan_decimal_run [] (c ∷ rest) n h s = ground arith
scan_decimal_run (d ∷ ds) rest n h s =
    ground (arith, decimal_round n d h.0, scan_decimal_run ds rest (n * 10 + d) h.1 s)

-- The word is 0xA000 and four times the call's number, of which nine bits count.
pub sys_call_word_lem : (n : ℕ) → sys_call_word n ≡ 0xA000 + 4 * (n % 512)
unfolding sys_call_word
sys_call_word_lem n = ap (bit_or 0xA000) masked ∙ bit_or-shift 13 5 (4 * (n % 512)) (omega arith)
  where
    masked : bit_and (u32 (n * 4)) 0x7FC ≡ 4 * (n % 512)
    masked = omega (
      arith,
      bit_and_even (u32 (n * 4)) 0x3FE,
      bit_and_even (u32 (n * 4) / 2) 0x1FF,
      bit_and_mask 9 (u32 (n * 4) / 2 / 2),
    )
