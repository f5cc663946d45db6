-- ===== src/Keys/Masks.antt =====
-- os3k/os3k.h: the tests that the applets make on a key with its modifiers.
use betawise.Base.{
  ℕ, zero, suc, ◌+◌, ◌-◌, ◌*◌, ◌/◌, ◌%◌, ◌^◌, ◌<◌, ◌≡◌, ◌≢◌, refl, sym, arith, ◌∙◌, ap, Bool, true,
  false, not, ◌&&◌, ◌↔◌, ==_iff, ◌==◌, bit_and, bit_and_mask, bit_and_even, bit_and_halve,
}
use native.Mathlib.Nat.{pow-suc}
use betawise.Keys.{key_mod_cmd}
use betawise.Keys.Table.{Key, key_code, key_code-lt, key_of, key_of-key_code}
use betawise.Keys.Events.{Modifiers, key_event, digit, digits_le, event_sum}

bit_and_odd : (n m : ℕ) → bit_and n (2 * m + 1) ≡ 2 * bit_and (n / 2) m + n % 2
bit_and_odd n m = ground (arith, bit_and_halve n (2 * m + 1))

clear_bit_nine : (n : ℕ) → n < 2 ^ 32 → bit_and n 0xFFFFFDFF ≡ n - n / 512 % 2 * 512
clear_bit_nine n h = omega (
  arith,
  bit_and_odd n 0x7FFFFEFF,
  bit_and_odd (n / 2) 0x3FFFFF7F,
  bit_and_odd (n / 2 / 2) 0x1FFFFFBF,
  bit_and_odd (n / 2 / 2 / 2) 0x0FFFFFDF,
  bit_and_odd (n / 2 / 2 / 2 / 2) 0x07FFFFEF,
  bit_and_odd (n / 2 / 2 / 2 / 2 / 2) 0x03FFFFF7,
  bit_and_odd (n / 2 / 2 / 2 / 2 / 2 / 2) 0x01FFFFFB,
  bit_and_odd (n / 2 / 2 / 2 / 2 / 2 / 2 / 2) 0x00FFFFFD,
  bit_and_odd (n / 2 / 2 / 2 / 2 / 2 / 2 / 2 / 2) 0x007FFFFE,
  bit_and_even (n / 2 / 2 / 2 / 2 / 2 / 2 / 2 / 2 / 2) 0x3FFFFF,
  bit_and_mask 22 (n / 2 / 2 / 2 / 2 / 2 / 2 / 2 / 2 / 2 / 2),
)

halved : ℕ → ℕ → ℕ
halved zero n = n
halved (suc k) n = halved k (n / 2)

bit_and_pow : (k n : ℕ) → bit_and n (2 ^ k) ≡ 2 ^ k * (halved k n % 2)
unfolding halved
bit_and_pow zero n = omega (arith, bit_and_mask 1 n)
bit_and_pow (suc k) n =
    let double : 2 ^ suc k ≡ 2 * 2 ^ k = pow-suc 2 k ∙ omega arith in
    let rest = bit_and_pow k (n / 2) in
    ap (bit_and n) double
    ∙ bit_and_even n (2 ^ k)
    ∙ omega (arith, rest, ap (λ (t : ℕ). t * (halved k (n / 2) % 2)) double)

bit_fourteen : (n : ℕ) → bit_and n 0x4000 ≡ 0x4000 * (n / 0x4000 % 2)
unfolding halved
bit_fourteen n = bit_and_pow 14 n ∙ omega arith

zero_test : (b : Bool) → (0x4000 * digit b == 0) ≡ not b
zero_test true = refl
zero_test false = refl

module _ (key : Key) (m : Modifiers) (some_key : key_code key ≢ 0xFF) where
  -- `& ~KEY_MOD_CAPS_LOCK` takes Caps Lock away.
  pub clear_caps_lock :
      bit_and (key_event key m) 0xFFFFFDFF ≡ key_event key (record m { caps_lock = false })
  clear_caps_lock =
      let e = event_sum key m some_key in
      let e' = event_sum key (record m { caps_lock = false }) some_key in
      let small = digits_le m in
      let below = key_code-lt key some_key in
      clear_bit_nine (key_event key m) (omega (arith, e, small, below))
      ∙ omega (arith, e, e', small, below)

  -- `& 0xFF` leaves the key's code, and the bit of a key that goes up.
  pub low_byte : bit_and (key_event key m) 0xFF ≡ key_code key + 128 * digit m.key_up
  low_byte =
      let e = event_sum key m some_key in
      let small = digits_le m in
      let below = key_code-lt key some_key in
      bit_and_mask 8 (key_event key m) ∙ omega (arith, e, small, below)

  -- `& KEY_MOD_CMD` is zero when Command is not down.
  pub command_test : (bit_and (key_event key m) key_mod_cmd == 0) ≡ not m.cmd
  command_test =
      let e = event_sum key m some_key in
      let small = digits_le m in
      let below = key_code-lt key some_key in
      let bit : bit_and (key_event key m) key_mod_cmd ≡ 0x4000 * digit m.cmd =
        bit_fourteen (key_event key m) ∙ omega (arith, e, small, below) in
      rw bit (zero_test m.cmd)

key_code_injective : (key key' : Key) → key_code key ≡ key_code key' → key ≡ key'
key_code_injective key key' e = cc (key_of-key_code key, key_of-key_code key', ap key_of e)

both : (a b : Bool) → (a && b) ≡ true → (a ≡ true) × (b ≡ true)
both true b h = (refl, h)
both false b h = cc

is_down : (b : Bool) → not (not b) ≡ true → b ≡ true
is_down true h = refl
is_down false h = cc

digit_zero : (b : Bool) → digit b ≡ 0 → b ≡ false
digit_zero true h = absurd (omega arith)
digit_zero false h = refl

-- The test for a key with Command: it is that key, Command is down, and the key does not go up.
pub command_key :
    (run key : Key) (m : Modifiers)
    → key_code run ≢ 0xFF
    → key_code key ≢ 0xFF
    → (((bit_and (key_event key m) 0xFF == key_code run)
          && not (bit_and (key_event key m) key_mod_cmd == 0))
        ≡ true)
      ↔ ((key ≡ run) × (m.cmd ≡ true) × (m.key_up ≡ false))
command_key run key m h1 h2 =
    let low = low_byte key m h2 in
    let cmd = command_test key m h2 in
    let below = key_code-lt key h2 in
    let below_run = key_code-lt run h1 in
    (
      λ e.
          let parts =
            both (bit_and (key_event key m) 0xFF == key_code run)
              (not (bit_and (key_event key m) key_mod_cmd == 0)) e in
          let same : key_code key + 128 * digit m.key_up ≡ key_code run =
            sym low ∙ (==_iff (bit_and (key_event key m) 0xFF) (key_code run)).0 parts.0 in
          let up : digit m.key_up ≡ 0 = omega (arith, same, below, below_run) in
          (
            key_code_injective key run (omega (arith, same, up)),
            is_down m.cmd (sym (ap not cmd) ∙ parts.1),
            digit_zero m.key_up up,
          ),
      λ h.
          let code : bit_and (key_event key m) 0xFF ≡ key_code run =
            low
            ∙ ap (λ (b : Bool). key_code key + 128 * digit b) h.2
            ∙ omega (arith, ap key_code h.0) in
          rw (cmd, (==_iff (bit_and (key_event key m) 0xFF) (key_code run)).1 code, h.1) refl,
    )
