-- ===== src/Keys/Events.antt =====
-- os3k/os3k.h: a key with its modifiers in one number, and the tests on it that the applets make.
use betawise.Base.{
  ℕ, ◌+◌, ◌*◌, ◌/◌, ◌%◌, ◌^◌, ◌≤◌, ◌<◌, ◌≡◌, ◌≢◌, refl, arith, ◌∙◌, ap, some, Bool, true, false,
  ◌==◌, bit_or, bit_or-shift,
}
use betawise.Keys.{
  key_mod_ctrl, key_mod_cmd, key_mod_alt, key_mod_rightshift, key_mod_leftshift, key_mod_caps_lock,
  key_mod_key_up,
}
use betawise.Keys.Table.{Key, key_code, key_code-lt, key_of, key_of-key_code}

-- The modifiers of `KeyMod_e` that hold.
pub record Modifiers : Type 0 where
  pub ctrl : Bool
  pub cmd : Bool
  pub alt : Bool
  pub rightshift : Bool
  pub leftshift : Bool
  pub caps_lock : Bool
  pub key_up : Bool

-- A modifier's bit, if it holds.
abbrev bit_of : ℕ → Bool → ℕ
bit_of bit true = bit
bit_of bit false = 0

abbrev pub modifier_bits : Modifiers → ℕ
modifier_bits m = bit_or (bit_of key_mod_ctrl m.ctrl) (
    bit_or (bit_of key_mod_cmd m.cmd) (
      bit_or (bit_of key_mod_alt m.alt) (
        bit_or (bit_of key_mod_rightshift m.rightshift) (
          bit_or (bit_of key_mod_leftshift m.leftshift)
            (bit_or (bit_of key_mod_caps_lock m.caps_lock) (bit_of key_mod_key_up m.key_up))))))

-- A `KeyMod_e` value: the code of a key with the bits of its modifiers.
unfoldable pub key_event : Key → Modifiers → ℕ
key_event key m = bit_or (modifier_bits m) (key_code key)

abbrev pub digit : Bool → ℕ
digit true = 1
digit false = 0

digit_le : (b : Bool) → digit b ≤ 1
digit_le true = omega arith
digit_le false = omega arith

pub digit_test : (b : Bool) → (digit b == 1) ≡ b
digit_test true = refl
digit_test false = refl

bit_of_lem : (bit : ℕ) (b : Bool) → bit_of bit b ≡ bit * digit b
bit_of_lem bit true = omega arith
bit_of_lem bit false = omega arith

-- A bit over smaller ones.
or_bit :
    (k : ℕ) (b : Bool) {r s : ℕ}
    → r ≡ s
    → s < 2 ^ k
    → bit_or (bit_of (2 ^ k) b) r ≡ 2 ^ k * digit b + s
or_bit k true {r} {s} e h =
    let one : 2 ^ k ≡ 1 * 2 ^ k = omega arith in
    ap (bit_or (2 ^ k)) e ∙ ap (λ (x : ℕ). bit_or x s) one ∙ bit_or-shift k 1 s h ∙ omega arith
or_bit k false {r} {s} e h =
    let none_of : 0 ≡ 0 * 2 ^ k = omega arith in
    ap (bit_or 0) e ∙ ap (λ (x : ℕ). bit_or x s) none_of ∙ bit_or-shift k 0 s h ∙ omega arith

pub digits_le :
    (m : Modifiers)
    → (digit m.ctrl ≤ 1)
      × (digit m.cmd ≤ 1)
      × (digit m.alt ≤ 1)
      × (digit m.rightshift ≤ 1)
      × (digit m.leftshift ≤ 1)
      × (digit m.caps_lock ≤ 1)
      × (digit m.key_up ≤ 1)
digits_le m = (
  digit_le m.ctrl,
  digit_le m.cmd,
  digit_le m.alt,
  digit_le m.rightshift,
  digit_le m.leftshift,
  digit_le m.caps_lock,
  digit_le m.key_up,
)

bits_sum :
    (m : Modifiers)
    → modifier_bits m
      ≡ 32768 * digit m.ctrl
        + (16384 * digit m.cmd
            + (4096 * digit m.alt
                + (2048 * digit m.rightshift
                    + (1024 * digit m.leftshift
                        + (512 * digit m.caps_lock + 128 * digit m.key_up)))))
bits_sum m =
    let small = digits_le m in
    or_bit 15 m.ctrl
      (or_bit 14 m.cmd
        (or_bit 12 m.alt
          (or_bit 11 m.rightshift
            (or_bit 10 m.leftshift
              (or_bit 9 m.caps_lock (bit_of_lem 128 m.key_up) (omega (arith, small)))
              (omega (arith, small)))
            (omega (arith, small)))
          (omega (arith, small)))
        (omega (arith, small)))
      (omega (arith, small))

-- The value as a sum.
pub event_sum :
    (key : Key) (m : Modifiers)
    → key_code key ≢ 0xFF
    → key_event key m
      ≡ 32768 * digit m.ctrl
        + 16384 * digit m.cmd
        + 4096 * digit m.alt
        + 2048 * digit m.rightshift
        + 1024 * digit m.leftshift
        + 512 * digit m.caps_lock
        + 128 * digit m.key_up
        + key_code key
unfolding key_event
event_sum key m h =
    let q : ℕ =
      256 * digit m.ctrl
      + 128 * digit m.cmd
      + 32 * digit m.alt
      + 16 * digit m.rightshift
      + 8 * digit m.leftshift
      + 4 * digit m.caps_lock
      + digit m.key_up in
    let shifted : modifier_bits m ≡ q * 2 ^ 7 = omega (arith, bits_sum m) in
    ap (λ (n : ℕ). bit_or n (key_code key)) shifted
    ∙ bit_or-shift 7 q (key_code key) (omega (arith, key_code-lt key h))
    ∙ omega arith

-- The parts of a value.
abbrev pub has_bit : ℕ → ℕ → Bool
has_bit n bit = n / bit % 2 == 1

abbrev modifiers_of : ℕ → Modifiers
modifiers_of n = record {
  ctrl = has_bit n key_mod_ctrl;
  cmd = has_bit n key_mod_cmd;
  alt = has_bit n key_mod_alt;
  rightshift = has_bit n key_mod_rightshift;
  leftshift = has_bit n key_mod_leftshift;
  caps_lock = has_bit n key_mod_caps_lock;
  key_up = has_bit n key_mod_key_up;
}

-- A value of a key but KEY_NONE is read back: the key by the low seven bits, and each modifier by its bit.
key_event-reads :
    (key : Key) (m : Modifiers)
    → key_code key ≢ 0xFF
    → (key_of (key_event key m % 128) ≡ some key) × (modifiers_of (key_event key m) ≡ m)
key_event-reads key m h =
    let e = event_sum key m h in
    let small = digits_le m in
    let below = key_code-lt key h in
    let code : key_event key m % 128 ≡ key_code key = omega (arith, e, small, below) in
    let at_ctrl : key_event key m / 0x8000 % 2 ≡ digit m.ctrl = omega (arith, e, small, below) in
    let at_cmd : key_event key m / 0x4000 % 2 ≡ digit m.cmd = omega (arith, e, small, below) in
    let at_alt : key_event key m / 0x1000 % 2 ≡ digit m.alt = omega (arith, e, small, below) in
    let at_rightshift : key_event key m / 0x800 % 2 ≡ digit m.rightshift =
      omega (arith, e, small, below) in
    let at_leftshift : key_event key m / 0x400 % 2 ≡ digit m.leftshift =
      omega (arith, e, small, below) in
    let at_caps_lock : key_event key m / 0x200 % 2 ≡ digit m.caps_lock =
      omega (arith, e, small, below) in
    let at_key_up : key_event key m / 0x80 % 2 ≡ digit m.key_up = omega (arith, e, small, below) in
    let read = λ (n : ℕ) (b : Bool) (at : n ≡ digit b). ap (λ (x : ℕ). x == 1) at ∙ digit_test b in
    (
      ap key_of code ∙ key_of-key_code key,
      λ i. record {
        ctrl = read _ m.ctrl at_ctrl i;
        cmd = read _ m.cmd at_cmd i;
        alt = read _ m.alt at_alt i;
        rightshift = read _ m.rightshift at_rightshift i;
        leftshift = read _ m.leftshift at_leftshift i;
        caps_lock = read _ m.caps_lock at_caps_lock i;
        key_up = read _ m.key_up at_key_up i;
      },
    )
