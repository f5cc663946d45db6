-- ===== src/Console.antt =====
-- os3k/os3k.c: the text console that the library puts on the LCD when the ROM has a font for it
-- (NEO), and its pass-through to the ROM's console when it has none (AlphaSmart 3000).
pub mod Stdio
pub mod Terminal
pub mod Cursor
pub mod Print
pub mod Strings
pub mod Bounds
pub mod Scroll
pub mod Picture
pub mod Page
pub mod Typed
pub mod RowText
pub mod Glass
mod Tests
use betawise.Base.{
  ℕ, ◌+◌, ◌-◌, ◌*◌, ◌%◌, ◌^◌, bit_and, bit_or, List, [], ◌∷◌, Option, none, some, Bool, true, false,
  ◌||◌, ltb, leb, ◌==◌, if◌then◌else◌, u8, u16, u32, is_negative16, is_negative32, extend16_32,
}
use betawise.Os.{Os, Event, History, Font, CursorStruct}

-- `CursorMode_e`.
abbrev pub cursor_hide : ℕ
cursor_hide = 0x0C

abbrev pub cursor_show : ℕ
cursor_show = 0x0F

-- ROP_WHITENESS of `RopCode_e`, and the stream `stdout`.
abbrev pub rop_whiteness : ℕ
rop_whiteness = 5

abbrev pub stdout : ℕ
stdout = 1

-- The globals of os3k.c, the ROM's cursor structure, and the calls made.
pub record Console : Type 0 where
  pub cur_font : Option Font
  pub lcd_width : ℕ
  pub lcd_height : ℕ
  pub cur_lcd_roll : ℕ
  pub cur_row : ℕ
  pub cur_col : ℕ
  pub max_row : ℕ
  pub max_col : ℕ
  pub cursor : CursorStruct
  pub history : History

abbrev pub call : Event → Console → Console
call e c = record c { history = e ∷ c.history }

-- LCD_CMD_START_LINE and LCD_CMD_ALL_PIX_ON.
unfoldable pub lcd_cmd_start_line : ℕ → ℕ
lcd_cmd_start_line line = bit_or 0x40 (bit_and line 0x3F)

unfoldable pub lcd_cmd_all_pix_on : ℕ → ℕ
lcd_cmd_all_pix_on flag = bit_or 0xA4 (bit_and flag 1)

-- `LEFT = RIGHT = v` writes the right register first.
abbrev write_lcd : ℕ → Console → Console
write_lcd v c = call (Event.lcd_left v) (call (Event.lcd_right v) c)

unfoldable pub set_screen_roll : ℕ → Console → Console
set_screen_roll roll c = write_lcd (u8 (lcd_cmd_start_line roll)) c

-- The argument is not used: the macro is given `true`.
unfoldable pub all_pix_on : Bool → Console → Console
all_pix_on enable c = write_lcd (lcd_cmd_all_pix_on 1) c

module _ (os : Os) where
  -- A call after which the ROM has moved its own cursor.
  abbrev pub call_moving : Event → Console → Console
  call_moving e c = record c { history = e ∷ c.history; cursor = os.moved (e ∷ c.history) c.cursor }

  unfoldable pub clear_screen : Console → Console
  unfolding set_screen_roll
  clear_screen c =
      let cleared = call_moving Event.clear_screen c in
      elim c.cur_font [
        | none ↦ cleared
        | some f ↦ set_screen_roll 0 (record cleared { cur_row = 1; cur_col = 1; cur_lcd_roll = 0 })
      ]

-- The two corrections of `g_CurLcdRoll` in `SetCursor`, on `int16_t` bit patterns.
unfoldable pub roll_back : Font → Console → ℕ
roll_back f c =
    let roll = u16 (c.cur_lcd_roll + 2 ^ 16 - f.height) in
    if is_negative16 roll then u16 (roll + c.lcd_height) else roll

unfoldable pub roll_forward : Font → Console → ℕ
roll_forward f c =
    let roll = u16 (c.cur_lcd_roll + f.height) in
    if is_negative16 roll
    then roll
    else if leb c.lcd_height roll
    then u16 (roll + 2 ^ 16 - c.lcd_height)
    else roll

-- Scrolling by one row: the new roll goes to the LCD.
abbrev pub scroll_to : ℕ → Console → Console
scroll_to roll c = set_screen_roll roll (record c { cur_lcd_roll = roll })

-- `(col - 1) * max_width`, one less at the right edge; `(row - 1) * height + roll`, wrapped once.
-- Both are stored in 16 bits; 65535 stands for -1.
unfoldable pub cursor_x : Font → ℕ → ℕ → ℕ
cursor_x f width col =
    let x = u16 ((col + 65535) * f.max_width) in if x == width then u16 (x + 65535) else x

unfoldable pub cursor_y : Font → ℕ → ℕ → ℕ → ℕ
cursor_y f height roll row =
    let y = u16 ((row + 65535) * f.height + extend16_32 roll) in
    if leb height y then u16 (y + 65536 - height) else y

-- The second half of `SetCursor`: store the position, and clear the row that scrolled in.
unfoldable pub place_cursor : Font → ℕ → ℕ → Bool → ℕ → Console → Console
unfolding cursor_x cursor_y
place_cursor f row col clear_row mode c =
    let x = cursor_x f c.lcd_width col in
    let y = cursor_y f c.lcd_height c.cur_lcd_roll row in
    let placed = record c {
      cur_row = row;
      cur_col = col;
      cursor = record { font = c.cur_font; x = x; y = y };
    } in
    call (Event.set_cursor_mode mode) (
      if clear_row
      then call (Event.raster_op x y c.lcd_width f.height rop_whiteness) placed
      else placed)

-- `SetCursor` with a font.
unfoldable pub set_cursor_font : Font → ℕ → ℕ → ℕ → Console → Console
set_cursor_font f row col mode c =
    let hidden = call (Event.set_cursor_mode cursor_hide) c in
    if ltb row 1
    then place_cursor f 1 col true mode (scroll_to (roll_back f c) hidden)
    else if ltb c.max_row row
    then place_cursor f c.max_row col true mode (scroll_to (roll_forward f c) hidden)
    else place_cursor f row col false mode hidden

module _ (os : Os) where
  unfoldable pub set_cursor : ℕ → ℕ → ℕ → Console → Console
  set_cursor row col mode c = elim c.cur_font [
    | none ↦ call_moving os (Event.set_cursor row col mode) c
    | some f ↦ set_cursor_font f row col mode c
  ]
