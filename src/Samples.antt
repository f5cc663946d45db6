-- ===== src/Samples.antt =====
-- Concrete inputs for the tests: a ROM with fixed answers, and a NEO's screen of 8 rows of 44
-- characters that has been rolled and is full.
use betawise.Base.{ℕ, ◌+◌, ◌&&◌, leb, if◌then◌else◌, refl, arith, none, some, [], inl}
use betawise.DebugTool.Number.{Addresses}
use betawise.Os.{Os, Font, CursorStruct}
use betawise.Console.{Console, cursor_show}
use betawise.Runtime.Focus.{Measures}
use betawise.Console.Terminal.{Terminal, Shows, IsSized}

abbrev pub font : Font
font = record {
  height = 8;
  max_width = 6;
  max_bytes = 6;
  width_table = 0;
  offset_table = 0;
  bitmap_data = 0x5000;
}

abbrev pub home : CursorStruct
home = record { font = none; x = 0; y = 0 }

abbrev pub rom : Os
rom = record {
  cursor_mode = λ h. cursor_show;
  cursor_pos = λ h. (1, 1);
  fputc_result = λ h. 0;
  moved = λ h c. home;
  sys_int_result = λ h. (0, 264);
  system_font = λ h. some font;
  applet_index = λ h. 3;
  applet_font = λ h f. some font;
  char_of_key = λ h. b'a';
  key_ready = λ h. 1;
  key = λ h. 0x18;
  dialog_key = λ h. 0x40;
  dialog_choice = λ h. 8;
  dialog_item_id = λ h. 0;
}

-- The last row is full, and the grid's row 8 stands at LCD line 0.
abbrev pub screen : Console
screen = record {
  cur_font = some font;
  lcd_width = 264;
  lcd_height = 64;
  cur_lcd_roll = 56;
  cur_row = 8;
  cur_col = 45;
  max_row = 8;
  max_col = 44;
  cursor = record { font = some font; x = 263; y = 48 };
  history = [];
}

abbrev pub terminal : Terminal
terminal = record { rows = 8; cols = 44; top = 7; row = 8; col = 45 }

pub screen-Shows : Shows font terminal screen
screen-Shows = record {
  sized = record {
    font = refl;
    glyph_width = refl;
    rows_eq = refl;
    cols_eq = refl;
    some_rows = omega arith;
    some_cols = omega arith;
    rows_fit = omega arith;
    cols_fit = omega arith;
    top_in = omega arith;
    width_eq = refl;
    tall = inl refl;
    height_eq = refl;
    roll_eq = refl;
  };
  on_grid = omega arith;
  row_eq = refl;
  col_eq = refl;
  x_eq = refl;
  y_eq = refl;
}

-- The C library's `tolower` on ASCII.
abbrev pub ascii_lower : ℕ → ℕ
ascii_lower c = if leb b'A' c && leb c b'Z' then c + 32 else c

abbrev pub linked : Addresses
linked = record {
  scratch = 0x4100;
  raw_sys_call = 0x4200;
  dialog_buffers = 0x4210;
  local_buffer = 0x7000;
}

-- The same LCD as MSG_SETFOCUS leaves it.
abbrev pub fresh_screen : Console
fresh_screen = record screen { cur_lcd_roll = 0; cur_row = 1; cur_col = 1 }

pub fresh_screen-IsSized : IsSized font (record terminal { top = 0; row = 1; col = 1 }) fresh_screen
fresh_screen-IsSized = record {
  font = refl;
  glyph_width = refl;
  rows_eq = refl;
  cols_eq = refl;
  some_rows = omega arith;
  some_cols = omega arith;
  rows_fit = omega arith;
  cols_fit = omega arith;
  top_in = omega arith;
  width_eq = refl;
  tall = inl refl;
  height_eq = refl;
  roll_eq = refl;
}

-- The system font measures the NEO's LCD in 8 rows of 44 characters.
pub screen-Measures : Measures font 8 44 screen
screen-Measures = record {
  some_rows = omega arith;
  some_cols = omega arith;
  rows_fit = omega arith;
  cols_fit = omega arith;
  width_eq = refl;
  glyph_width = refl;
  tall = inl refl;
  height_eq = refl;
}
