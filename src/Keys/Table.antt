-- ===== src/Keys/Table.antt =====
-- os3k/os3k.h: the keys and their codes.
use betawise.Base.{
  ℕ, ◌≡◌, ◌≢◌, refl, arith, List, [], ◌∷◌, Option, none, some, ◌==◌, if◌then◌else◌, ◌<◌,
}

-- `Key_e`.
pub data Key : Type 0 where
  file_1 file_2 file_3 file_4 file_5 file_6 file_7 file_8 print spell_check find clear_file home
        end :
      Key
  applets send grave digit_1 digit_2 digit_3 digit_4 digit_5 digit_6 digit_7 digit_8 digit_9
        digit_0 :
      Key
  minus equal backspace tab letter_q letter_w letter_e letter_r letter_t letter_y letter_u
        letter_i :
      Key
  letter_o letter_p leftbrace rightbrace backslash capslock letter_a letter_s letter_d letter_f :
      Key
  letter_g letter_h letter_j letter_k letter_l semicolon apostrophe enter leftshift letter_z
        letter_x :
      Key
  letter_c letter_v letter_b letter_n letter_m comma dot slash rightshift ctrl alt cmd space esc :
      Key
  delete up left down right no_key : Key

abbrev pub key_code : Key → ℕ
key_code file_1 = 0x2D
key_code file_2 = 0x2C
key_code file_3 = 0x04
key_code file_4 = 0x0F
key_code file_5 = 0x0E
key_code file_6 = 0x0A
key_code file_7 = 0x01
key_code file_8 = 0x27
key_code print = 0x2B
key_code spell_check = 0x35
key_code find = 0x3F
key_code clear_file = 0x34
key_code home = 0x1F
key_code end = 0x3E
key_code applets = 0x29
key_code send = 0x2A
key_code grave = 0x2E
key_code digit_1 = 0x38
key_code digit_2 = 0x37
key_code digit_3 = 0x36
key_code digit_4 = 0x39
key_code digit_5 = 0x2F
key_code digit_6 = 0x30
key_code digit_7 = 0x3A
key_code digit_8 = 0x31
key_code digit_9 = 0x32
key_code digit_0 = 0x33
key_code minus = 0x28
key_code equal = 0x25
key_code backspace = 0x03
key_code tab = 0x06
key_code letter_q = 0x22
key_code letter_w = 0x21
key_code letter_e = 0x20
key_code letter_r = 0x23
key_code letter_t = 0x07
key_code letter_y = 0x09
key_code letter_u = 0x24
key_code letter_i = 0x1C
key_code letter_o = 0x1D
key_code letter_p = 0x1E
key_code leftbrace = 0x02
key_code rightbrace = 0x00
key_code backslash = 0x15
key_code capslock = 0x05
key_code letter_a = 0x18
key_code letter_s = 0x17
key_code letter_d = 0x16
key_code letter_f = 0x19
key_code letter_g = 0x10
key_code letter_h = 0x11
key_code letter_j = 0x1B
key_code letter_k = 0x12
key_code letter_l = 0x13
key_code semicolon = 0x14
key_code apostrophe = 0x0B
key_code enter = 0x40
key_code leftshift = 0x08
key_code letter_z = 0x43
key_code letter_x = 0x42
key_code letter_c = 0x41
key_code letter_v = 0x44
key_code letter_b = 0x4E
key_code letter_n = 0x4F
key_code letter_m = 0x46
key_code comma = 0x3B
key_code dot = 0x3D
key_code slash = 0x47
key_code rightshift = 0x45
key_code ctrl = 0x4D
key_code alt = 0x26
key_code cmd = 0x0C
key_code space = 0x4C
key_code esc = 0x48
key_code delete = 0x50
key_code up = 0x4B
key_code left = 0x49
key_code down = 0x0D
key_code right = 0x4A
key_code no_key = 0xFF

all_keys : List Key
all_keys =
    file_1 ∷ file_2 ∷ file_3 ∷ file_4 ∷ file_5 ∷ file_6 ∷ file_7 ∷ file_8 ∷ print ∷ spell_check
    ∷ find ∷ clear_file ∷ home ∷ end ∷ applets ∷ send ∷ grave ∷ digit_1 ∷ digit_2 ∷ digit_3
    ∷ digit_4 ∷ digit_5 ∷ digit_6 ∷ digit_7 ∷ digit_8 ∷ digit_9 ∷ digit_0 ∷ minus ∷ equal
    ∷ backspace ∷ tab ∷ letter_q ∷ letter_w ∷ letter_e ∷ letter_r ∷ letter_t ∷ letter_y ∷ letter_u
    ∷ letter_i ∷ letter_o ∷ letter_p ∷ leftbrace ∷ rightbrace ∷ backslash ∷ capslock ∷ letter_a
    ∷ letter_s ∷ letter_d ∷ letter_f ∷ letter_g ∷ letter_h ∷ letter_j ∷ letter_k ∷ letter_l
    ∷ semicolon ∷ apostrophe ∷ enter ∷ leftshift ∷ letter_z ∷ letter_x ∷ letter_c ∷ letter_v
    ∷ letter_b ∷ letter_n ∷ letter_m ∷ comma ∷ dot ∷ slash ∷ rightshift ∷ ctrl ∷ alt ∷ cmd ∷ space
    ∷ esc ∷ delete ∷ up ∷ left ∷ down ∷ right ∷ no_key ∷ []

-- The key in a list that has a code.
find_key : List Key → ℕ → Option Key
find_key [] code = none
find_key (key ∷ keys) code = if key_code key == code then some key else find_key keys code

unfoldable pub key_of : ℕ → Option Key
unfolding all_keys find_key
key_of code = find_key all_keys code

-- Every key is found by its code: no two keys have the same.
pub key_of-key_code : (key : Key) → key_of (key_code key) ≡ some key
unfolding key_of
key_of-key_code file_1 = refl
key_of-key_code _ = refl

-- A code takes 7 bits, but for KEY_NONE.
pub key_code-lt : (key : Key) → key_code key ≢ 0xFF → key_code key < 128
key_code-lt file_1 h = omega arith
key_code-lt _ h = omega (arith, h)
