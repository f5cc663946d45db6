-- ===== src/Console/Glass.antt =====
-- os3k/os3k.c: the line of the LCD's memory at which the display starts, which `_LCD_SetScreenRoll` sets.
pub mod Shown
pub mod Typed
use betawise.Base.{
  ℕ, ◌+◌, ◌-◌, ◌*◌, ◌%◌, ◌≤◌, ◌<◌, ◌≡◌, inl, inr, refl, arith, ◌∙◌, ap, List, [], ◌∷◌, Option, none,
  some, Bool, true, false, Bool-cases, ltb, leb, ◌==◌, ◌&&◌, if◌then◌else◌, u8, u16, is_negative32,
  or_and_six_bits,
}
use betawise.Os.{
  Os, Event, History, Font, lcd_left, lcd_right, set_cursor_mode, get_cursor_mode, get_cursor_pos,
  raster_op, draw_bitmap, sleep_centimilliseconds,
}
use betawise.Console.{
  Console, call, lcd_cmd_start_line, lcd_cmd_all_pix_on, set_screen_roll, all_pix_on, cursor_hide,
  clear_screen, call_moving, roll_back, roll_forward, scroll_to, place_cursor, set_cursor_font,
  set_cursor, stdout,
}
use betawise.Console.Cursor.{set_cursor_with_font}
use betawise.Console.Stdio.{
  advance, draw_glyph, print_glyph, ring, backspace, put_font, fputc, fputs,
}
use betawise.Console.Print.{fputc_with_font}

-- A command from 0x40 to 0x7F starts the display at the line of its low six bits.
abbrev started : ℕ → Option ℕ → Option ℕ
started command line = if leb 0x40 command && leb command 0x7F then some (command - 0x40) else line

-- The start lines of the two halves of the LCD after the calls. Of the other calls any may have set them.
unfoldable pub start_left : History → Option ℕ
start_left [] = none
start_left (lcd_left v ∷ h) = started v (start_left h)
start_left (lcd_right v ∷ h) = start_left h
start_left (set_cursor_mode mode ∷ h) = start_left h
start_left (get_cursor_mode ∷ h) = start_left h
start_left (get_cursor_pos ∷ h) = start_left h
start_left (raster_op x y w k rop ∷ h) = start_left h
start_left (draw_bitmap x y w k bitmap ∷ h) = start_left h
start_left (sleep_centimilliseconds n ∷ h) = start_left h
start_left (_ ∷ h) = none

unfoldable pub start_right : History → Option ℕ
start_right [] = none
start_right (lcd_right v ∷ h) = started v (start_right h)
start_right (lcd_left v ∷ h) = start_right h
start_right (set_cursor_mode mode ∷ h) = start_right h
start_right (get_cursor_mode ∷ h) = start_right h
start_right (get_cursor_pos ∷ h) = start_right h
start_right (raster_op x y w k rop ∷ h) = start_right h
start_right (draw_bitmap x y w k bitmap ∷ h) = start_right h
start_right (sleep_centimilliseconds n ∷ h) = start_right h
start_right (_ ∷ h) = none

-- Both halves of the LCD start at the console's roll, of which the register takes six bits.
pub record IsRolled (c : Console) : Type 0 where
  pub left : start_left c.history ≡ some (c.cur_lcd_roll % 64)
  pub right : start_right c.history ≡ some (c.cur_lcd_roll % 64)

IsRolled-if : (b : Bool) {c d : Console} → IsRolled c → IsRolled d → IsRolled (if b then c else d)
IsRolled-if true rc rd = rc
IsRolled-if false rc rd = rd

-- The command of a start line, and that of the pixels.
start_command :
    (roll : ℕ) (line : Option ℕ) → started (u8 (lcd_cmd_start_line roll)) line ≡ some (roll % 64)
unfolding lcd_cmd_start_line
start_command roll line =
    let e = or_and_six_bits roll in
    let e' : u8 (lcd_cmd_start_line roll) ≡ 64 + roll % 64 = omega arith in rw e' (ground arith)

-- Setting the roll.
pub scroll_to-IsRolled : (roll : ℕ) (c : Console) → IsRolled (scroll_to roll c)
unfolding set_screen_roll start_left start_right
scroll_to-IsRolled roll c = record { left = start_command roll _; right = start_command roll _ }

mode-IsRolled :
    (mode : ℕ) {c : Console} → IsRolled c → IsRolled (call (Event.set_cursor_mode mode) c)
unfolding start_left start_right
mode-IsRolled mode r = record { left = r.left; right = r.right }

place_cursor-IsRolled :
    (f : Font) (row col : ℕ) (clear : Bool) (mode : ℕ) {c : Console}
    → IsRolled c
    → IsRolled (place_cursor f row col clear mode c)
unfolding place_cursor start_left start_right
place_cursor-IsRolled f row col true mode r = record { left = r.left; right = r.right }
place_cursor-IsRolled f row col false mode r = record { left = r.left; right = r.right }

pub set_cursor-IsRolled :
    (os : Os) {f : Font} (row col mode : ℕ) {c : Console}
    → c.cur_font ≡ some f
    → IsRolled c
    → IsRolled (set_cursor os row col mode c)
unfolding set_cursor_font
set_cursor-IsRolled os {f} row col mode {c} e r = rw (set_cursor_with_font os row col mode c e) (
    IsRolled-if (ltb row 1)
      (place_cursor-IsRolled f 1 col true mode
        (scroll_to-IsRolled (roll_back f c) (call (Event.set_cursor_mode cursor_hide) c)))
      (IsRolled-if (ltb c.max_row row)
        (place_cursor-IsRolled f c.max_row col true mode
          (scroll_to-IsRolled (roll_forward f c) (call (Event.set_cursor_mode cursor_hide) c)))
        (place_cursor-IsRolled f row col false mode (mode-IsRolled _ r))))

-- `ClearScreen` with a font.
pub clear_screen-IsRolled :
    (os : Os) {f : Font} (c : Console) → c.cur_font ≡ some f → IsRolled (clear_screen os c)
unfolding clear_screen
clear_screen-IsRolled os {f} c e =
    rw (e, clear_screen)
      (scroll_to-IsRolled 0
        (record (call_moving os Event.clear_screen c) { cur_row = 1; cur_col = 1 }))

draw_glyph-IsRolled : (f : Font) (b : ℕ) {c : Console} → IsRolled c → IsRolled (draw_glyph f b c)
unfolding draw_glyph advance start_left start_right
draw_glyph-IsRolled f b r = record { left = r.left; right = r.right }

pixels : (line : Option ℕ) → started (lcd_cmd_all_pix_on 1) line ≡ line
unfolding lcd_cmd_all_pix_on
pixels line = refl

ring-IsRolled : (mode : ℕ) {c : Console} → IsRolled c → IsRolled (ring mode c)
unfolding ring all_pix_on start_left start_right
ring-IsRolled mode {c} r = record {
  left = pixels _ ∙ pixels _ ∙ r.left;
  right = pixels _ ∙ pixels _ ∙ r.right;
}

print_glyph-IsRolled :
    (os : Os) {f : Font} (b mode : ℕ) {c : Console}
    → c.cur_font ≡ some f
    → IsRolled c
    → IsRolled (print_glyph os f b mode c)
unfolding print_glyph
print_glyph-IsRolled os {f} b mode {c} e r = mode-IsRolled mode (
    draw_glyph-IsRolled f b (
      IsRolled-if (c.cursor.x + 1 == c.lcd_width)
        (set_cursor-IsRolled os (u8 (c.cur_row + 1)) 1 cursor_hide e r)
        (mode-IsRolled cursor_hide r)))

backspace-IsRolled :
    (os : Os) {f : Font} (mode : ℕ) {c : Console}
    → c.cur_font ≡ some f
    → IsRolled c
    → IsRolled (backspace os mode c)
unfolding backspace
backspace-IsRolled os mode {c} e r =
    IsRolled-if (ltb 1 c.cur_col) (set_cursor-IsRolled os _ _ mode e r)
      (set_cursor-IsRolled os _ _ mode e r)

put_font-IsRolled :
    (os : Os) {f : Font} (b mode : ℕ) {c : Console}
    → c.cur_font ≡ some f
    → IsRolled c
    → IsRolled (put_font os f b mode c)
unfolding put_font
put_font-IsRolled os {f} b mode {c} e r = IsRolled-if (b == 7) (ring-IsRolled mode r) (
    IsRolled-if (b == 8) (backspace-IsRolled os mode e r) (
      IsRolled-if (b == 10) (set_cursor-IsRolled os _ _ mode e r) (
        IsRolled-if (b == 13) (set_cursor-IsRolled os _ _ mode e r)
          (print_glyph-IsRolled os b mode e r))))

asked-IsRolled : {c : Console} → IsRolled c → IsRolled (call Event.get_cursor_mode c)
unfolding start_left start_right
asked-IsRolled r = record { left = r.left; right = r.right }

pub fputc-IsRolled :
    (os : Os) {f : Font} (b : ℕ) (c : Console)
    → c.cur_font ≡ some f
    → IsRolled c
    → IsRolled (fputc os b stdout c).1
fputc-IsRolled os {f} b c e r =
    rw (fputc_with_font os b c e) (put_font-IsRolled os (u8 b) _ e (asked-IsRolled r))
