-- ===== src/Runtime.antt =====
-- os3k/os3k.c: the library's own handling of messages, keys and system queries, around the applet.
pub mod Focus
pub mod Keyboard
mod Tests
use betawise.Base.{
  ℕ, zero, suc, ◌+◌, ◌/◌, bit_and, List, ◌∷◌, Option, none, some, Bool, true, false, ltb, ◌==◌,
  if◌then◌else◌, u8, u16, extend8_16, extend16_32,
}
use betawise.Keys.{
  key_backspace, key_applets, key_c, key_mod_ctrl, msg_init, msg_setfocus, msg_killfocus,
  sys_int_get_row_height, sys_int_get_row_count, sys_int_get_lcd_height, sys_int_get_lcd_width,
  sys_int_get_system_font_ptr,
}
use betawise.Os.{Os, Event, Font}
use betawise.Console.{Console, call, call_moving, set_screen_roll}

-- The number under which the font applet is looked up, and the message that asks it for its font.
abbrev pub font_applet_id : ℕ
font_applet_id = 0xA1F0

abbrev pub font_message : ℕ
font_message = 0x1000002

-- The size of the screen in characters. `none` is a read through a null font pointer.
unfoldable pub measure : Console → Option Console
measure c = elim c.cur_font [
  | none ↦ none
  | some f ↦ some (record c {
    max_col = u8 (c.lcd_width / 6);
    max_row = u8 (if f.height == 16 then c.lcd_height / 16 else c.lcd_height / 8);
  })
]

module _ (os : Os) where
  -- `_OS3K_CallSysInt`: the number stored through `output`.
  abbrev pub rom_call_sys_int : ℕ → Console → (ℕ × ℕ) × Console
  rom_call_sys_int info c =
      let c' = call (Event.sys_int info) c in (os.sys_int_result c'.history, c')

  -- MSG_INIT: the system font, and the size of the LCD, its height made even.
  unfoldable pub on_init : Console → Console
  on_init c =
      let asked = call (Event.sys_int sys_int_get_system_font_ptr) (record c { cur_font = none }) in
      let with_font = record asked { cur_font = os.system_font asked.history } in
      let (width, c1) = rom_call_sys_int sys_int_get_lcd_width with_font in
      let with_width = record c1 { lcd_width = u16 width.1 } in
      let (height, c2) = rom_call_sys_int sys_int_get_lcd_height with_width in
      record c2 { lcd_height = u16 (bit_and height.1 0xFFFFFFFE) }

  -- The font applet, if it is installed, may replace the font.
  unfoldable pub choose_font : Console → Console
  choose_font c =
      let found = call (Event.applet_find_by_id font_applet_id) c in
      let applet_index = u8 (os.applet_index found.history) in
      if ltb 0 applet_index
      then (let sent = call (Event.applet_send_message applet_index font_message) found in
          record sent { cur_font = os.applet_font sent.history sent.cur_font })
      else found

  unfoldable pub on_setfocus : Console → Option Console
  unfolding choose_font measure
  on_setfocus c =
      let cleared = call_moving os Event.clear_screen c in
      elim c.cur_font [ none ↦ some cleared | some _ ↦ measure (choose_font cleared) ]

  unfoldable pub on_killfocus : Console → Console
  unfolding set_screen_roll
  on_killfocus c = elim c.cur_font [ none ↦ c | some _ ↦ set_screen_roll 0 c ]

  -- `BwProcessMessage`, up to the call of the applet's `ProcessMessage`.
  unfoldable pub prepare : ℕ → Console → Option Console
  unfolding on_init on_setfocus on_killfocus
  prepare message c =
      if message == msg_init
      then some (on_init c)
      else if message == msg_setfocus
      then on_setfocus c
      else if message == msg_killfocus
      then some (on_killfocus c)
      else some c

  -- `BwProcessMessage` around an applet with state `S`.
  unfoldable pub bw_process_message {ℓ} :
      {S : Type ℓ}
      → (ℕ → ℕ → Console → S → Option (Console × S))
      → ℕ
      → ℕ
      → Console
      → S
      → Option (Console × S)
  unfolding prepare
  bw_process_message process message param c s = elim (prepare message c) [
    | none ↦ none
    | some c' ↦ process message param c' s
  ]

  -- `CallSysInt`: status and number stored.
  unfoldable pub call_sys_int : ℕ → Console → (ℕ × ℕ) × Console
  call_sys_int info c = elim c.cur_font [
    | none ↦ rom_call_sys_int info c
    | some f ↦
        if info == sys_int_get_row_height
        then ((0, f.height), c)
        else if info == sys_int_get_row_count
        then ((0, c.max_row), c)
        else rom_call_sys_int info c
  ]

  -- `TranslateKeyToChar`, on a `char` bit pattern; 0xFDFF is `~KEY_MOD_CAPS_LOCK`.
  unfoldable pub translate_key_to_char : ℕ → Console → ℕ × Console
  translate_key_to_char key c =
      let asked = call (Event.translate_key_to_char key) c in
      let char = u8 (os.char_of_key asked.history) in
      let plain = bit_and key 0xFDFF in
      if char == 0
      then (if plain == key_applets
          then (char, call (Event.special_key 8 plain) asked)
          else if plain == key_mod_ctrl + key_c
          then (0x03, asked)
          else if plain == key_backspace
          then (0x08, asked)
          else (char, asked))
      else (char, asked)

  -- The inner loop of `getchar`, with fuel: poll until a key is ready.
  unfoldable pub await_key : ℕ → Console → Option Console
  await_key zero c = none
  await_key (suc fuel) c =
      let asked = call Event.is_key_ready c in
      elim (os.key_ready asked.history == 0) [
        | false ↦ some asked
        | true ↦ await_key fuel (call Event.scan_keyboard asked)
      ]

  -- One round of the outer loop, and the loop: keys until one makes a character.
  unfoldable pub next_char : ℕ → Console → Option (ℕ × Console)
  unfolding await_key translate_key_to_char
  next_char fuel c = elim (await_key fuel c) [
    | none ↦ none
    | some ready ↦
        let taken = call Event.get_key ready in
        some (translate_key_to_char (u16 (os.key taken.history)) taken)
  ]

  -- `getchar`: the result is an `int`, the `char` sign-extended.
  unfoldable pub getchar : ℕ → ℕ → Console → Option (ℕ × Console)
  unfolding next_char
  getchar polls zero c = none
  getchar polls (suc rounds) c = elim (next_char polls c) [
    | none ↦ none
    | some (char, c') ↦ elim (char == 0) [
      | true ↦ getchar polls rounds c'
      | false ↦ some (extend16_32 (extend8_16 char), c')
    ]
  ]
