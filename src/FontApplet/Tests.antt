-- ===== src/FontApplet/Tests.antt =====
-- applets/NeoFontTerminal/NeoFontTerminal.c: the font applet after MSG_INIT and MSG_SETFOCUS, with 8 by 6
-- glyphs on the NEO's LCD.
use betawise.Base.{◌≡◌, refl, arith, some, [], ◌∷◌, inl}
use betawise.Keys.{msg_init, msg_setfocus}
use betawise.Os.{Os, Font}
use betawise.Console.{Console, clear_screen}
use betawise.Console.Terminal.{IsSized}
use betawise.Samples.{font, rom, screen}
use betawise.Runtime.{font_message, on_setfocus}
use betawise.Runtime.Focus.{blank, Measures}
use betawise.FontApplet.{Glyphs, filled, process_message, header_after, font_behind}
use betawise.FontApplet.Handed.{font_applet-IsSized}

abbrev glyphs : Glyphs
glyphs = record { height = 8; width = 6; bytes = 6; address = 0x7000 }

abbrev unset : Font
unset = record {
  height = 0;
  max_width = 0;
  max_bytes = 0;
  width_table = 0;
  offset_table = 0;
  bitmap_data = 0;
}

-- A ROM on which the font applet answers.
abbrev answering : Os
answering = record rom {
  applet_font = λ h before. font_behind before (
      process_message glyphs font_message
        (header_after glyphs (msg_init ∷ msg_setfocus ∷ []) unset));
}

glyphs-Measures : Measures (filled glyphs) 8 44 screen
glyphs-Measures = record {
  some_rows = omega arith;
  some_cols = omega arith;
  rows_fit = omega arith;
  cols_fit = omega arith;
  width_eq = refl;
  glyph_width = refl;
  tall = inl refl;
  height_eq = refl;
}

font_applet-IsSized_example :
    (c' : Console) × (on_setfocus answering screen ≡ some c')
    × IsSized (filled glyphs) (blank 8 44) (clear_screen answering c')
    × ((clear_screen answering c').cur_row ≡ 1)
    × ((clear_screen answering c').cur_col ≡ 1)
font_applet-IsSized_example =
    font_applet-IsSized glyphs unset (msg_setfocus ∷ []) answering screen {old = font} 8 44 refl
      (λ h e. omega arith) (λ h before. refl) glyphs-Measures
