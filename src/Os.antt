-- ===== src/Os.antt =====
-- The operating system as the library of os3k/os3k.h sees it: the calls that go out, recorded in
-- order, and the answers that come back. The ROM's code is not part of the repository, so an answer
-- is any function of the calls made so far.
use betawise.Base.{ℕ, List, Option}

-- `FontHeader_t`; the pointed-to tables are addresses.
pub record Font : Type 0 where
  pub height : ℕ
  pub max_width : ℕ
  pub max_bytes : ℕ
  pub width_table : ℕ
  pub offset_table : ℕ
  pub bitmap_data : ℕ

-- The part of the ROM's `struct Cursor_t` at 0x5C68 that the library reads and writes.
pub record CursorStruct : Type 0 where
  pub font : Option Font
  pub x : ℕ
  pub y : ℕ

-- A system call with its arguments, or a write to one of the two LCD command registers.
pub data Event : Type 0 where
  lcd_left lcd_right : ℕ → Event
  clear_screen : Event
  set_cursor : ℕ → ℕ → ℕ → Event
  set_cursor_mode : ℕ → Event
  get_cursor_mode get_cursor_pos : Event
  raster_op : ℕ → ℕ → ℕ → ℕ → ℕ → Event
  draw_bitmap : ℕ → ℕ → ℕ → ℕ → ℕ → Event
  fputc : ℕ → ℕ → Event
  put_char : ℕ → Event
  put_string_raw : List ℕ → Event
  put_string_centered : ℕ → List ℕ → Event
  clear_row_cols : ℕ → ℕ → ℕ → Event
  sleep_centimilliseconds : ℕ → Event
  sys_int : ℕ → Event
  applet_find_by_id : ℕ → Event
  applet_send_message : ℕ → ℕ → Event
  translate_key_to_char : ℕ → Event
  special_key : ℕ → ℕ → Event
  scan_keyboard : Event
  is_key_ready : Event
  get_key : Event
  show_battery_percentage : ℕ → Event
  wait_for_key : Event
  -- The buffer, the length of its text, and the greatest length.
  text_box : List ℕ → ℕ → ℕ → Event
  dialog_init : ℕ → ℕ → ℕ → ℕ → Event
  dialog_add_exit_key : ℕ → Event
  -- Text, its length, marker, id, key.
  dialog_add_item : List ℕ → ℕ → ℕ → ℕ → ℕ → Event
  dialog_set_choice : ℕ → Event
  dialog_draw dialog_run dialog_get_choice : Event
  dialog_get_item_id : ℕ → Event

-- The calls made so far, the latest first.
abbrev pub History : Type 0
History = List Event

-- The answers of the ROM, each to the call at the head of the history that it is given.
pub record Os : Type 0 where
  pub cursor_mode : History → ℕ
  -- Row and column.
  pub cursor_pos : History → ℕ × ℕ
  pub fputc_result : History → ℕ
  -- What the ROM leaves in its cursor structure when it clears the screen, places its own cursor or
  -- prints.
  pub moved : History → CursorStruct → CursorStruct
  -- Status, and the number stored through `output`.
  pub sys_int_result : History → ℕ × ℕ
  -- The system font behind the pointer that SYS_INT_GET_SYSTEM_FONT_PTR stores, if it stores one.
  pub system_font : History → Option Font
  pub applet_index : History → ℕ
  -- The font that a font applet stores through the message's parameter, given the one there before.
  pub applet_font : History → Option Font → Option Font
  pub char_of_key : History → ℕ
  pub key_ready : History → ℕ
  pub key : History → ℕ
  pub dialog_key : History → ℕ
  pub dialog_choice : History → ℕ
  pub dialog_item_id : History → ℕ
