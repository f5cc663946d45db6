-- ===== src/Header/Applets.antt =====
-- The headers of the repository's applets: applets/*/*.c.
use betawise.Base.{bit_or, [], ◌∷◌}
use betawise.Header.{
  AppletHeader, Built, en_us, flag_font, flag_hidden, header_begin, applet_flags, applet_id,
  applet_name, applet_font_name, applet_info, applet_version, applet_language,
}

unfoldable pub neo_font_terminal : Built → AppletHeader
unfolding header_begin applet_flags applet_id applet_name applet_font_name applet_info
    applet_version applet_language
neo_font_terminal b = applet_language en_us (
    applet_version b (
      applet_info
        (b'C' ∷ b'o' ∷ b'p' ∷ b'y' ∷ b'r' ∷ b'i' ∷ b'g' ∷ b'h' ∷ b't' ∷ b' ' ∷ b'(' ∷ b'c' ∷ b')'
          ∷ b' ' ∷ b'2' ∷ b'0' ∷ b'2' ∷ b'0' ∷ b' ' ∷ b'A' ∷ b'l' ∷ b'p' ∷ b'a' ∷ b'x' ∷ b'o' ∷ b' '
          ∷ b'S' ∷ b'o' ∷ b'f' ∷ b't' ∷ b'w' ∷ b'a' ∷ b'r' ∷ b'e' ∷ [])
        (applet_font_name
          (b'T' ∷ b'e' ∷ b'r' ∷ b'm' ∷ b'i' ∷ b'n' ∷ b'a' ∷ b'l' ∷ b' ' ∷ b'(' ∷ b'8' ∷ b' ' ∷ b'l'
            ∷ b'i' ∷ b'n' ∷ b'e' ∷ b's' ∷ b')' ∷ [])
          (applet_id 0xA1F0 (applet_flags (bit_or flag_font flag_hidden) (header_begin b))))))

unfoldable pub hello_world : Built → AppletHeader
unfolding header_begin applet_flags applet_id applet_name applet_font_name applet_info
    applet_version applet_language
hello_world b = applet_language en_us (
    applet_version b (
      applet_info
        (b'C' ∷ b'o' ∷ b'p' ∷ b'y' ∷ b'r' ∷ b'i' ∷ b'g' ∷ b'h' ∷ b't' ∷ b' ' ∷ b'(' ∷ b'c' ∷ b')'
          ∷ b' ' ∷ b'2' ∷ b'0' ∷ b'2' ∷ b'1' ∷ b' ' ∷ b'A' ∷ b'l' ∷ b'p' ∷ b'a' ∷ b'x' ∷ b'o' ∷ b' '
          ∷ b'S' ∷ b'o' ∷ b'f' ∷ b't' ∷ b'w' ∷ b'a' ∷ b'r' ∷ b'e' ∷ [])
        (applet_name
          (b'H' ∷ b'e' ∷ b'l' ∷ b'l' ∷ b'o' ∷ b' ' ∷ b'W' ∷ b'o' ∷ b'r' ∷ b'l' ∷ b'd' ∷ [])
          (applet_id 0xA1A0 (header_begin b)))))

unfoldable pub eh_basic : Built → AppletHeader
unfolding header_begin applet_flags applet_id applet_name applet_font_name applet_info
    applet_version applet_language
eh_basic b = applet_language en_us (
    applet_version b (
      applet_info
        (b'C' ∷ b'o' ∷ b'p' ∷ b'y' ∷ b'r' ∷ b'i' ∷ b'g' ∷ b'h' ∷ b't' ∷ b'(' ∷ b'C' ∷ b')' ∷ b' '
          ∷ b'2' ∷ b'0' ∷ b'0' ∷ b'2' ∷ b'-' ∷ b'1' ∷ b'2' ∷ b' ' ∷ b'L' ∷ b'e' ∷ b'e' ∷ b' ' ∷ b'D'
          ∷ b'a' ∷ b'v' ∷ b'i' ∷ b's' ∷ b'o' ∷ b'n' ∷ [])
        (applet_name (b'E' ∷ b'h' ∷ b'B' ∷ b'A' ∷ b'S' ∷ b'I' ∷ b'C' ∷ [])
          (applet_id 0xA1BA (header_begin b)))))

unfoldable pub file_info_probe : Built → AppletHeader
unfolding header_begin applet_flags applet_id applet_name applet_font_name applet_info
    applet_version applet_language
file_info_probe b = applet_language en_us (
    applet_version b (
      applet_info
        (b'B' ∷ b'e' ∷ b't' ∷ b'a' ∷ b'w' ∷ b'i' ∷ b's' ∷ b'e' ∷ b' ' ∷ b'A' ∷ b'1' ∷ b'C' ∷ b'4'
          ∷ b'/' ∷ b'F' ∷ b'i' ∷ b'l' ∷ b'e' ∷ b'G' ∷ b'e' ∷ b't' ∷ b'F' ∷ b'i' ∷ b'l' ∷ b'e' ∷ b'I'
          ∷ b'n' ∷ b'f' ∷ b'o' ∷ b' ' ∷ b'A' ∷ b'B' ∷ b'I' ∷ b' ' ∷ b'r' ∷ b'e' ∷ b'g' ∷ b'r' ∷ b'e'
          ∷ b's' ∷ b's' ∷ b'i' ∷ b'o' ∷ b'n' ∷ [])
        (applet_name
          (b'F' ∷ b'i' ∷ b'l' ∷ b'e' ∷ b'G' ∷ b'e' ∷ b't' ∷ b'F' ∷ b'i' ∷ b'l' ∷ b'e' ∷ b'I' ∷ b'n'
            ∷ b'f' ∷ b'o' ∷ b' ' ∷ b'P' ∷ b'r' ∷ b'o' ∷ b'b' ∷ b'e' ∷ [])
          (applet_id 0xA1E1 (header_begin b)))))

unfoldable pub folder_probe : Built → AppletHeader
unfolding header_begin applet_flags applet_id applet_name applet_font_name applet_info
    applet_version applet_language
folder_probe b = applet_language en_us (
    applet_version b (
      applet_info
        (b'B' ∷ b'e' ∷ b't' ∷ b'a' ∷ b'w' ∷ b'i' ∷ b's' ∷ b'e' ∷ b' ' ∷ b'F' ∷ b'i' ∷ b'l' ∷ b'e'
          ∷ b'S' ∷ b'e' ∷ b't' ∷ b'F' ∷ b'o' ∷ b'l' ∷ b'd' ∷ b'e' ∷ b'r' ∷ b' ' ∷ b'A' ∷ b'B' ∷ b'I'
          ∷ b' ' ∷ b'r' ∷ b'e' ∷ b'g' ∷ b'r' ∷ b'e' ∷ b's' ∷ b's' ∷ b'i' ∷ b'o' ∷ b'n' ∷ [])
        (applet_name
          (b'F' ∷ b'i' ∷ b'l' ∷ b'e' ∷ b'S' ∷ b'e' ∷ b't' ∷ b'F' ∷ b'o' ∷ b'l' ∷ b'd' ∷ b'e' ∷ b'r'
            ∷ b' ' ∷ b'P' ∷ b'r' ∷ b'o' ∷ b'b' ∷ b'e' ∷ [])
          (applet_id 0xA1DF (header_begin b)))))

unfoldable pub debug_tool : Built → AppletHeader
unfolding header_begin applet_flags applet_id applet_name applet_font_name applet_info
    applet_version applet_language
debug_tool b = applet_language en_us (
    applet_version b (
      applet_info
        (b'C' ∷ b'o' ∷ b'p' ∷ b'y' ∷ b'r' ∷ b'i' ∷ b'g' ∷ b'h' ∷ b't' ∷ b' ' ∷ b'(' ∷ b'c' ∷ b')'
          ∷ b' ' ∷ b'2' ∷ b'0' ∷ b'2' ∷ b'0' ∷ b' ' ∷ b'A' ∷ b'l' ∷ b'p' ∷ b'a' ∷ b'x' ∷ b'o' ∷ b' '
          ∷ b'S' ∷ b'o' ∷ b'f' ∷ b't' ∷ b'w' ∷ b'a' ∷ b'r' ∷ b'e' ∷ [])
        (applet_name
          (b'D' ∷ b'e' ∷ b'b' ∷ b'u' ∷ b'g' ∷ b'g' ∷ b'i' ∷ b'n' ∷ b'g' ∷ b' ' ∷ b'T' ∷ b'o' ∷ b'o'
            ∷ b'l' ∷ [])
          (applet_id 0xA1DE (header_begin b)))))
