-- ===== src/Keys.antt =====
-- Constants of os3k/os3k.h that the modelled code names.
pub mod Table
pub mod Events
pub mod Masks
mod Tests
use betawise.Base.{ℕ}

-- `Key_e`.
abbrev pub key_backspace : ℕ
key_backspace = 0x03

abbrev pub key_applets : ℕ
key_applets = 0x29

abbrev pub key_home : ℕ
key_home = 0x1F

abbrev pub key_end : ℕ
key_end = 0x3E

abbrev pub key_up : ℕ
key_up = 0x4B

abbrev pub key_left : ℕ
key_left = 0x49

abbrev pub key_down : ℕ
key_down = 0x0D

abbrev pub key_right : ℕ
key_right = 0x4A

abbrev pub key_c : ℕ
key_c = 0x41

abbrev pub key_b : ℕ
key_b = 0x4E

abbrev pub key_g : ℕ
key_g = 0x10

abbrev pub key_r : ℕ
key_r = 0x23

abbrev pub key_esc : ℕ
key_esc = 0x48

abbrev pub key_clear_file : ℕ
key_clear_file = 0x34

abbrev pub key_f : ℕ
key_f = 0x19

abbrev pub key_enter : ℕ
key_enter = 0x40

abbrev pub key_1 : ℕ
key_1 = 0x38

abbrev pub key_2 : ℕ
key_2 = 0x37

abbrev pub key_3 : ℕ
key_3 = 0x36

abbrev pub key_4 : ℕ
key_4 = 0x39

abbrev pub key_5 : ℕ
key_5 = 0x2F

abbrev pub key_6 : ℕ
key_6 = 0x30

abbrev pub key_i : ℕ
key_i = 0x1C

-- `KeyMod_e`.
abbrev pub key_mod_ctrl : ℕ
key_mod_ctrl = 0x8000

abbrev pub key_mod_cmd : ℕ
key_mod_cmd = 0x4000

abbrev pub key_mod_leftshift : ℕ
key_mod_leftshift = 0x0400

abbrev pub key_mod_rightshift : ℕ
key_mod_rightshift = 0x0800

abbrev pub key_mod_alt : ℕ
key_mod_alt = 0x1000

abbrev pub key_mod_caps_lock : ℕ
key_mod_caps_lock = 0x0200

abbrev pub key_mod_key_up : ℕ
key_mod_key_up = 0x0080

-- `Message_e`.
abbrev pub msg_init : ℕ
msg_init = 0x18

abbrev pub msg_setfocus : ℕ
msg_setfocus = 0x19

abbrev pub msg_killfocus : ℕ
msg_killfocus = 0x1A

abbrev pub msg_char : ℕ
msg_char = 0x20

abbrev pub msg_key : ℕ
msg_key = 0x21

-- `SysInt_e`.
abbrev pub sys_int_get_hw_level : ℕ
sys_int_get_hw_level = 0x0000

abbrev pub sys_int_get_row_height : ℕ
sys_int_get_row_height = 0x0300

abbrev pub sys_int_get_lcd_height : ℕ
sys_int_get_lcd_height = 0x0400

abbrev pub sys_int_get_lcd_width : ℕ
sys_int_get_lcd_width = 0x0500

abbrev pub sys_int_get_row_count : ℕ
sys_int_get_row_count = 0x0600

abbrev pub sys_int_get_system_font_ptr : ℕ
sys_int_get_system_font_ptr = 0x0700
