-- ===== src/Console/Stdio.antt =====
-- os3k/os3k.c: `fputc`, `fputs`, `putchar` and `puts` on the console. A character is an `int` bit
-- pattern, a stream its number, a string the bytes before its NUL.
use betawise.Base.{
  ℕ, ◌+◌, ◌*◌, List, [], ◌∷◌, none, some, true, false, ltb, ◌==◌, if◌then◌else◌, u8, u16, u32,
  is_negative32, extend16_32,
}
use betawise.Os.{Os, Event, Font}
use betawise.Console.{Console, cursor_hide, stdout, call, call_moving, all_pix_on, set_cursor}

-- The address of a character's bitmap: `short offset = max_bytes * c`, added to the table.
unfoldable pub glyph_address : Font → ℕ → ℕ
glyph_address f c = u32 (f.bitmap_data + extend16_32 (u16 (f.max_bytes * c)))

-- The last part of `fputc`: the glyph is drawn at the cursor, which then moves on. At the right
-- edge the cursor first goes to the start of the next row.
unfoldable pub advance : Font → Console → Console
advance f s =
    let x = u16 (s.cursor.x + f.max_width) in
    let x' = if x == s.lcd_width then u16 (x + 65535) else x in
    record s { cursor = record s.cursor { x = x' }; cur_col = u8 (s.cur_col + 1) }

unfoldable pub draw_glyph : Font → ℕ → Console → Console
unfolding advance glyph_address
draw_glyph f c s =
    advance f
      (call (Event.draw_bitmap s.cursor.x s.cursor.y f.max_width f.height (glyph_address f c)) s)

-- The bell on the LCD: all pixels on for a while.
unfoldable pub ring : ℕ → Console → Console
unfolding all_pix_on
ring mode s = call (Event.set_cursor_mode mode) (
    all_pix_on false (
      call (Event.sleep_centimilliseconds 10000)
        (all_pix_on true (call (Event.set_cursor_mode cursor_hide) s))))

-- What `fputc` returns, and the state it leaves.
abbrev pub Printed : Type 0
Printed = ℕ × Console

module _ (os : Os) where
  -- The two places where `fputc` calls the ROM's function of that name.
  abbrev pub rom_fputc : ℕ → ℕ → Console → Printed
  rom_fputc c stream s =
      let s' = call_moving os (Event.fputc c stream) s in (os.fputc_result s'.history, s')

  -- `GetCursorMode`.
  abbrev pub get_cursor_mode : Console → ℕ × Console
  get_cursor_mode s = let s' = call Event.get_cursor_mode s in (os.cursor_mode s'.history, s')

  -- `GetCursorPos(&g_CurRow, &g_CurCol)`.
  abbrev pub get_cursor_pos : Console → Console
  get_cursor_pos s =
      let s' = call Event.get_cursor_pos s in
      let (row, col) = os.cursor_pos s'.history in record s' { cur_row = row; cur_col = col }

  unfoldable pub print_glyph : Font → ℕ → ℕ → Console → Console
  unfolding set_cursor draw_glyph
  print_glyph f c mode s =
      let ready =
        if s.cursor.x + 1 == s.lcd_width
        then set_cursor os (u8 (s.cur_row + 1)) 1 cursor_hide s
        else call (Event.set_cursor_mode cursor_hide) s in
      call (Event.set_cursor_mode mode) (draw_glyph f c ready)

  -- `\b`: one column to the left, from the first column to the end of the row above.
  unfoldable pub backspace : ℕ → Console → Console
  unfolding set_cursor
  backspace mode s =
      if ltb 1 s.cur_col
      then set_cursor os s.cur_row (u8 (s.cur_col + 255)) mode s
      else set_cursor os (u8 (s.cur_row + 255)) s.max_col mode s

  -- The switch of `fputc` on a byte, with a font and without.
  unfoldable pub put_font : Font → ℕ → ℕ → Console → Console
  unfolding ring backspace set_cursor print_glyph
  put_font f c mode s =
      if c == 7
      then ring mode s
      else if c == 8
      then backspace mode s
      else if c == 10
      then set_cursor os (u8 (s.cur_row + 1)) 1 mode s
      else if c == 13
      then set_cursor os s.cur_row 1 mode s
      else print_glyph f c mode s

  unfoldable pub put_rom : ℕ → ℕ → ℕ → Console → Printed
  unfolding backspace set_cursor
  put_rom c stream mode s =
      if c == 8
      then (c, backspace mode s)
      else if c == 13
      then (c, set_cursor os s.cur_row 1 mode s)
      else rom_fputc c stream s

  unfoldable pub fputc : ℕ → ℕ → Console → Printed
  unfolding put_font put_rom
  fputc c stream s =
      if stream == stdout
      then (let (mode, asked) = get_cursor_mode s in
          elim s.cur_font [
            | none ↦ put_rom (u8 c) stream mode (get_cursor_pos asked)
            | some f ↦ (u8 c, put_font f (u8 c) mode asked)
          ])
      else rom_fputc c stream s

  -- The loop ends at the NUL, or with the first negative result.
  unfoldable pub fputs : List ℕ → ℕ → Console → Printed
  fputs [] stream s = (0, s)
  fputs (c ∷ str) stream s =
      if c == 0
      then (0, s)
      else (let (res, s') = fputc c stream s in
          let rest = fputs str stream s' in if is_negative32 res then (res, s') else rest)

  unfoldable pub putchar : ℕ → Console → Printed
  putchar c s = fputc c stdout s

  unfoldable pub puts : List ℕ → Console → Printed
  unfolding fputs
  puts str s = fputs str stdout s
