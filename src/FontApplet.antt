-- ===== src/FontApplet.antt =====
-- applets/NeoFontTerminal/NeoFontTerminal.c: the applet that hands its font to the runtime of the others.
-- The generated glyphs.h is a parameter.
mod Handed
mod Tests
use betawise.Base.{
  ℕ, Option, none, some, List, [], ◌∷◌, Bool, true, false, ◌==◌, ◌||◌, if◌then◌else◌, u8,
}
use betawise.Keys.{msg_init}
use betawise.Os.{Font}
use betawise.Runtime.{font_message}

-- GLYPH_HEIGHT, GLYPH_WIDTH, GLYPH_BYTES, and the address of GLYPHS[0].
pub record Glyphs : Type 0 where
  pub height : ℕ
  pub width : ℕ
  pub bytes : ℕ
  pub address : ℕ

-- What a message stores through its parameter.
pub data Stored : Type 0 where
  nothing font_name font_header null : Stored

-- The header that `MSG_INIT` fills in; its first three fields are bytes.
abbrev pub filled : Glyphs → Font
filled g = record {
  height = u8 g.height;
  max_width = u8 g.width;
  max_bytes = u8 g.bytes;
  width_table = 0;
  offset_table = 0;
  bitmap_data = g.address;
}

-- `BwProcessMessage` of the applet: what it stores, and `g_pFontHeader` after it.
unfoldable pub process_message : Glyphs → ℕ → Font → Stored × Font
process_message g message header =
    if message == 0x1000001
    then (font_name, header)
    else if message == font_message
    then (font_header, header)
    else if (message == 0x1000003) || (message == 0x1000004) || (message == 0x1000005)
    then (null, header)
    else if message == 0x1000006
    then (font_header, filled g)
    else if message == msg_init
    then (nothing, filled g)
    else (nothing, header)

-- `g_pFontHeader` after a sequence of messages.
unfoldable pub header_after : Glyphs → List ℕ → Font → Font
header_after g [] header = header
header_after g (message ∷ messages) header =
    header_after g messages (process_message g message header).1

-- The font behind a pointer that held `old` before a message.
abbrev pub font_behind : Option Font → Stored × Font → Option Font
font_behind old (font_header, header) = some header
font_behind old (null, header) = none
font_behind old (_, header) = old
