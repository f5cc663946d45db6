-- ===== src/DebugTool/Number/Text.antt =====
-- The numbers that one can type into applets/DebugTool/DebugTool.c, as a grammar: what is written, and
-- what it means.
use betawise.Base.{ℕ, ◌+◌, ◌*◌, ◌%◌, ◌^◌, List, [], ◌∷◌, ◌++◌, All, some, Bool, if◌then◌else◌}
use betawise.DebugTool.Number.{Addresses, Parsed}
use betawise.DebugTool.Number.Digits.{
  HexDigit, IsHexDigit, IsDecimalDigit, hex_text, decimal_text, hex_value, decimal_value,
}

-- `0x` or `0X` and hexadecimal digits, or decimal digits; no digit at all is allowed, and is 0.
pub data Numeral : Type 0 where
  hex : Bool → List HexDigit → Numeral
  decimal : List ℕ → Numeral

-- A literal text kept in place, a number, an offset into the scratch buffer, a system call.
pub data Text : Type 0 where
  literal : List ℕ → Text
  plain : Numeral → Text
  in_scratch : Numeral → Text
  sys_call : Numeral → Text

abbrev pub IsNumeral : Numeral → Type 0
IsNumeral (hex upper ds) = All IsHexDigit ds
IsNumeral (decimal ds) = All IsDecimalDigit ds

abbrev pub IsText : Text → Type 0
IsText (literal s) = Unit
IsText (plain n) = IsNumeral n
IsText (in_scratch n) = IsNumeral n
IsText (sys_call n) = IsNumeral n

abbrev pub x_char : Bool → ℕ
x_char upper = if upper then b'X' else b'x'

abbrev pub numeral_text : Numeral → List ℕ → List ℕ
numeral_text (hex upper ds) rest = b'0' ∷ x_char upper ∷ (hex_text ds ++ rest)
numeral_text (decimal ds) rest = decimal_text ds ++ rest

abbrev pub text : Text → List ℕ
text (literal s) = b'$' ∷ s
text (plain n) = numeral_text n []
text (in_scratch n) = numeral_text n (b'+' ∷ [])
text (sys_call n) = b'!' ∷ numeral_text n []

abbrev pub numeral_value : Numeral → ℕ
numeral_value (hex upper ds) = hex_value ds 0
numeral_value (decimal ds) = decimal_value ds 0

-- The number stored, and what is then in `g_rawSysCall`: a system call is the address of that word.
abbrev pub meaning : Addresses → ℕ → ℕ → Text → Parsed
meaning a base raw (literal s) = (some ((base + 1) % 2 ^ 32), raw)
meaning a base raw (plain n) = (some (numeral_value n % 2 ^ 32), raw)
meaning a base raw (in_scratch n) = (some ((numeral_value n + a.scratch) % 2 ^ 32), raw)
meaning a base raw (sys_call n) = (some a.raw_sys_call, 0xA000 + 4 * (numeral_value n % 512))
