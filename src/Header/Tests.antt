-- ===== src/Header/Tests.antt =====
-- os3k/os3k.h: the theorems on headers, at the headers of the repository's applets.
use betawise.Base.{ℕ, ◌+◌, ◌≡◌, refl, arith, List, [], ◌∷◌, ◌++◌, length, get_or, replicate}
use betawise.Header.{
  Built, en_us, header_begin, applet_id, applet_font_name, applet_info, applet_name, applet_version,
  applet_language,
}
use betawise.Header.Applets.{debug_tool, neo_font_terminal}
use betawise.Header.Layout.{
  font_name_ptr, applet_header, header_bytes, read16, read32, header_bytes-at,
  font_name_ptr-applet_font_name,
}

abbrev built : Built
built = record {
  rom_size = 0x1234;
  bss_size = 0x200;
  entry = 0x94;
  major = 2;
  minor = 1;
  revision = b'c' ∷ [];
}

abbrev terminal_name : List ℕ
terminal_name =
    b'T' ∷ b'e' ∷ b'r' ∷ b'm' ∷ b'i' ∷ b'n' ∷ b'a' ∷ b'l' ∷ b' ' ∷ b'(' ∷ b'8' ∷ b' ' ∷ b'l' ∷ b'i'
    ∷ b'n' ∷ b'e' ∷ b's' ∷ b')' ∷ []

font_name_ptr-applet_font_name_example :
    font_name_ptr (applet_font_name terminal_name (header_begin built))
    ≡ terminal_name ++ (0 ∷ replicate 6 0)
font_name_ptr-applet_font_name_example =
    font_name_ptr-applet_font_name terminal_name (header_begin built) (omega arith)

-- The font applet's own header has the same name in it.
terminal_name_in_header :
    font_name_ptr (neo_font_terminal built) ≡ terminal_name ++ (0 ∷ replicate 6 0)
unfolding neo_font_terminal
terminal_name_in_header = refl

abbrev tool_name : List ℕ
tool_name =
    b'D' ∷ b'e' ∷ b'b' ∷ b'u' ∷ b'g' ∷ b'g' ∷ b'i' ∷ b'n' ∷ b'g' ∷ b' ' ∷ b'T' ∷ b'o' ∷ b'o' ∷ b'l'
    ∷ []

abbrev tool_info : List ℕ
tool_info = (debug_tool built).info

header_bytes-at_example :
    let bytes = header_bytes (applet_header built 0xA1DE tool_name tool_info en_us) in
    (length bytes ≡ 0x94)
    × (read16 bytes 0x14 ≡ 0xA1DE)
    × (get_or bytes (0x18 + 13) 0 ≡ b'l')
    × (read32 bytes 0x84 ≡ 0x94)
header_bytes-at_example =
    header_bytes-at built 0xA1DE tool_name tool_info en_us 13 (omega arith) (omega arith)
      (omega arith)

tool_header : debug_tool built ≡ applet_header built 0xA1DE tool_name tool_info en_us
unfolding debug_tool applet_language applet_version applet_info applet_name applet_id header_begin
tool_header = refl
