-- ===== src/DebugTool/Number.antt =====
-- applets/DebugTool/DebugTool.c: `HexCharToNibble` and `NumberFromString`. A string is the list of the
-- bytes before its NUL; `tolower` is the ROM's.
pub mod Digits
pub mod Text
pub mod Reads
pub mod Accepts
mod Tests
use betawise.Base.{
  ℕ, ◌+◌, ◌-◌, ◌*◌, List, [], ◌∷◌, Option, none, some, Bool, true, false, ◌&&◌, leb, ◌==◌,
  if◌then◌else◌, u32, bit_and, bit_or,
}

-- `none` is the -1 of the source. On the bytes from 128 up, which are negative there, all tests fail.
unfoldable pub hex_char_to_nibble : ℕ → Option ℕ
hex_char_to_nibble c =
    if leb b'0' c && leb c b'9'
    then some (c - b'0')
    else if leb b'A' c && leb c b'F'
    then some (c - b'A' + 10)
    else if leb b'a' c && leb c b'f'
    then some (c - b'a' + 10)
    else none

-- A scan returns its number and the string from where it stopped.
abbrev pub Scanned : Type 0
Scanned = ℕ × List ℕ

-- The two loops of `NumberFromString`.
unfoldable pub scan_hex : List ℕ → ℕ → Scanned
scan_hex [] n = (n, [])
scan_hex (c ∷ s) n = elim (hex_char_to_nibble c) [
  | none ↦ (n, c ∷ s)
  | some d ↦ scan_hex s (bit_or (u32 (n * 16)) d)
]

unfoldable pub scan_decimal : List ℕ → ℕ → Scanned
scan_decimal [] n = (n, [])
scan_decimal (c ∷ s) n = elim (leb b'0' c && leb c b'9') [
  | true ↦ scan_decimal s (u32 (n * 10 + (c - b'0')))
  | false ↦ (n, c ∷ s)
]

-- Where the linker places `g_scratch`, `g_rawSysCall` and `g_buffer`, and where the stack holds the local
-- `buffer` of `ProcessMessage`.
pub record Addresses : Type 0 where
  pub scratch : ℕ
  pub raw_sys_call : ℕ
  pub dialog_buffers : ℕ
  pub local_buffer : ℕ

-- The word of system call `n`: `0xA000 | ((n << 2) & 0x7fc)`.
unfoldable pub sys_call_word : ℕ → ℕ
sys_call_word n = bit_or 0xA000 (bit_and (u32 (n * 4)) 0x7FC)

-- What `NumberFromString` does: the number that it stores when it returns 0 (`none` is its return of
-- -1, with nothing stored), and what is then in `g_rawSysCall`.
abbrev pub Parsed : Type 0
Parsed = Option ℕ × ℕ

-- The last test: nothing may be left of the string.
abbrev pub at_end : List ℕ → ℕ → Option ℕ
at_end [] n = some n
at_end (_ ∷ _) n = none

-- After the digits: a system call, or a number to which `+` adds the scratch buffer's address.
unfoldable pub finish : Addresses → Bool → ℕ → List ℕ → ℕ → Parsed
finish a true n rest raw = (at_end rest a.raw_sys_call, sys_call_word n)
finish a false n [] raw = (some n, raw)
finish a false n (c ∷ rest) raw =
    (if c == b'+' then at_end rest (u32 (n + a.scratch)) else none, raw)

module _ (tolower : ℕ → ℕ) where
  -- The choice of base by the first two characters.
  unfoldable pub scan : List ℕ → Scanned
  scan [] = scan_decimal [] 0
  scan (c ∷ []) = scan_decimal (c ∷ []) 0
  scan (c ∷ d ∷ s) =
      if c == b'0' && tolower d == b'x' then scan_hex s 0 else scan_decimal (c ∷ d ∷ s) 0

  abbrev pub scan_and_finish : Addresses → Bool → List ℕ → ℕ → Parsed
  scan_and_finish a syscall s raw = let (n, rest) = scan s in finish a syscall n rest raw

  -- `NumberFromString` on the string at address `base`, with `raw` in `g_rawSysCall`.
  unfoldable pub number_from_string : Addresses → ℕ → List ℕ → ℕ → Parsed
  number_from_string a base [] raw = scan_and_finish a false [] raw
  number_from_string a base (c ∷ s) raw =
      if c == b'$'
      then (some (u32 (base + 1)), raw)
      else if c == b'!'
      then scan_and_finish a true s raw
      else scan_and_finish a false (c ∷ s) raw
