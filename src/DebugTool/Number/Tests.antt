-- ===== src/DebugTool/Number/Tests.antt =====
-- applets/DebugTool/DebugTool.c: numbers as they are typed.
use betawise.Base.{◌≡◌, refl, arith, [], ◌∷◌, none, some, true, false}
use betawise.Samples.{ascii_lower, linked}
use betawise.DebugTool.Number.{scan_decimal, scan, finish, sys_call_word, number_from_string}
use betawise.DebugTool.Number.Text.{hex, Text, in_scratch, IsText, text}
use betawise.DebugTool.Number.Reads.{number_from_string-text}
use betawise.DebugTool.Samples.{ascii-LowersX}
use betawise.DebugTool.Number.Accepts.{number_from_string-only_text}

-- `0X1f+`
abbrev offset : Text
offset = in_scratch (hex true ((true, 1) ∷ (false, 15) ∷ []))

number_from_string-text_example :
    number_from_string ascii_lower linked 0x300 (b'0' ∷ b'X' ∷ b'1' ∷ b'f' ∷ b'+' ∷ []) 7
    ≡ (some 0x411F, 7)
number_from_string-text_example =
    number_from_string-text ascii_lower ascii-LowersX linked 0x300 7 offset (omega arith)

number_from_string-only_text_example : (t : Text) × IsText t × (b'!' ∷ b'1' ∷ b'2' ∷ [] ≡ text t)
unfolding number_from_string scan scan_decimal finish
number_from_string-only_text_example =
    number_from_string-only_text ascii_lower ascii-LowersX linked 0x300 (b'!' ∷ b'1' ∷ b'2' ∷ []) 7
      0x4200 refl

refused : number_from_string ascii_lower linked 0x300 (b'!' ∷ b'5' ∷ b'+' ∷ []) 7 ≡ (none, 0xA014)
unfolding number_from_string scan scan_decimal finish sys_call_word
refused = refl
