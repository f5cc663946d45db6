-- ===== src/Header.antt =====
-- os3k/os3k.h: the header that an applet begins with, and the macros that make it.
pub mod Applets
pub mod Layout
mod Tests
use betawise.Base.{ℕ, zero, suc, bit_or, List, [], ◌∷◌, ◌++◌, replicate}

-- `AppletHeader_t`; `version` is its three bytes.
pub record AppletHeader : Type 0 where
  pub signature : ℕ
  pub rom_usage : ℕ
  pub ram_usage : ℕ
  pub settings_offset : ℕ
  pub flags : ℕ
  pub id : ℕ
  pub header_version : ℕ
  pub file_count : ℕ
  pub name : List ℕ
  pub version_major : ℕ
  pub version_minor : ℕ
  pub version_revision : List ℕ
  pub language_id : ℕ
  pub info : List ℕ
  pub min_asm_version : ℕ
  pub file_usage : ℕ
  pub entry_point : ℕ
  pub magic : List ℕ

-- What the linker sets: the two sizes, and the address of BwProcessMessage; and what version.h, which is generated, defines.
pub record Built : Type 0 where
  pub rom_size : ℕ
  pub bss_size : ℕ
  pub entry : ℕ
  pub major : ℕ
  pub minor : ℕ
  pub revision : List ℕ

-- An array of `n` characters that a string initialises: the rest is zeros, and what does not fit is left out.
abbrev pub char_array : ℕ → List ℕ → List ℕ
char_array zero str = []
char_array (suc n) [] = 0 ∷ char_array n []
char_array (suc n) (c ∷ str) = c ∷ char_array n str

-- `APPLET_FLAG_HIDDEN` to `APPLET_FLAG_WIRELESS_REQUIRED`.
abbrev pub flag_hidden : ℕ
flag_hidden = 0x001

abbrev pub flag_font : ℕ
flag_font = bit_or 0x010 0x020

abbrev pub flag_allow_font_dialog : ℕ
flag_allow_font_dialog = 0x080

abbrev pub flag_wireless_required : ℕ
flag_wireless_required = 0x100

-- The languages that have a macro.
pub data Language : Type 0 where
  en_us en_uk fr fr_cr it de es nl sv : Language

abbrev language_number : Language → ℕ
language_number en_us = 1
language_number en_uk = 2
language_number fr = 3
language_number fr_cr = 4
language_number it = 5
language_number de = 6
language_number es = 7
language_number nl = 8
language_number sv = 9

-- `APPLET_HEADER_BEGIN`. The fields that it leaves out are zero until a later macro sets them.
unfoldable pub header_begin : Built → AppletHeader
header_begin b = record {
  signature = 0xC0FFEEAD;
  rom_usage = b.rom_size;
  ram_usage = b.bss_size;
  settings_offset = 0;
  flags = 0xFF000000;
  id = 0;
  header_version = 1;
  file_count = 0;
  name = char_array 36 (b'T' ∷ b'e' ∷ b's' ∷ b't' ∷ []);
  version_major = 0;
  version_minor = 0;
  version_revision = char_array 1 [];
  language_id = 0;
  info = char_array 60 [];
  min_asm_version = 0;
  file_usage = 0;
  entry_point = b.entry;
  magic = 0 ∷ 1 ∷ 2 ∷ [];
}

-- The macros that set a field; the last one that sets it counts.
unfoldable pub applet_flags : ℕ → AppletHeader → AppletHeader
applet_flags param h = record h { flags = bit_or 0xFF000000 param }

unfoldable pub applet_id : ℕ → AppletHeader → AppletHeader
applet_id param h = record h { id = param }

unfoldable pub applet_name : List ℕ → AppletHeader → AppletHeader
applet_name param h = record h { name = char_array 36 param }

abbrev pub font_prefix : List ℕ
font_prefix = b'N' ∷ b'e' ∷ b'o' ∷ b' ' ∷ b'F' ∷ b'o' ∷ b'n' ∷ b't' ∷ b' ' ∷ b'-' ∷ b' ' ∷ []

unfoldable pub applet_font_name : List ℕ → AppletHeader → AppletHeader
applet_font_name param h = record h { name = char_array 36 (font_prefix ++ param) }

unfoldable pub applet_info : List ℕ → AppletHeader → AppletHeader
applet_info param h = record h { info = char_array 60 param }

unfoldable pub applet_version : Built → AppletHeader → AppletHeader
applet_version b h = record h {
  version_major = b.major;
  version_minor = b.minor;
  version_revision = char_array 1 b.revision;
}

unfoldable pub applet_language : Language → AppletHeader → AppletHeader
applet_language language h = record h { language_id = language_number language }
