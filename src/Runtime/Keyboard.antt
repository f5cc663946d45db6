-- ===== src/Runtime/Keyboard.antt =====
-- os3k/os3k.c: `getchar` waits for a key that makes a character.
use betawise.Base.{
  ℕ, zero, suc, ◌+◌, ◌<◌, ◌≡◌, ◌≢◌, ◌⊎◌, arith, some, inl, inr, Option-cases, u8, u16, bit_and, ◌∷◌,
  extend8_16, extend16_32,
}
use betawise.Keys.{key_backspace, key_c, key_mod_ctrl}
use betawise.Os.{Os, Event}
use betawise.Console.{Console, call}
use betawise.Runtime.{translate_key_to_char, await_key, next_char, getchar}

module _ (os : Os) where
  -- The console after `n` polls that found no key.
  abbrev pub polled : ℕ → Console → Console
  polled zero c = c
  polled (suc n) c = polled n (call Event.scan_keyboard (call Event.is_key_ready c))

  -- The ROM's answer to the next poll.
  abbrev pub ready_at : Console → ℕ
  ready_at c = os.key_ready (Event.is_key_ready ∷ c.history)

  -- A key becomes ready after exactly `n` polls.
  abbrev pub ReadyAfter : ℕ → Console → Type 0
  ReadyAfter zero c = ready_at c ≢ 0
  ReadyAfter (suc n) c =
      (ready_at c ≡ 0) × ReadyAfter n (call Event.scan_keyboard (call Event.is_key_ready c))

  -- The polling loop ends with the first poll that finds a key, if its fuel reaches that far.
  await_key_finds :
      (n fuel : ℕ) (c : Console)
      → ReadyAfter n c
      → n < fuel
      → await_key os fuel c ≡ some (call Event.is_key_ready (polled n c))
  unfolding await_key
  await_key_finds n zero c r h = absurd (omega arith)
  await_key_finds zero (suc fuel) c r h = ground arith
  await_key_finds (suc n) (suc fuel) c r h =
      ground
        (arith, await_key_finds n fuel (call Event.scan_keyboard (call Event.is_key_ready c)) r.1)

  -- The key taken after `n` polls, and the state when it is taken.
  abbrev pub taken_after : ℕ → Console → Console
  taken_after n c = call Event.get_key (call Event.is_key_ready (polled n c))

  abbrev pub key_after : ℕ → Console → ℕ
  key_after n c = u16 (os.key (taken_after n c).history)

  -- `getchar` returns: when a key becomes ready after `n` polls and makes a character, the result is
  -- that character, sign-extended to `int`, after exactly those calls.
  pub getchar_returns :
      (n polls rounds : ℕ) (c : Console)
      → ReadyAfter n c
      → n < polls
      → (translate_key_to_char os (key_after n c) (taken_after n c)).0 ≢ 0
      → getchar os polls (suc rounds) c
        ≡ some (
          extend16_32 (extend8_16 (translate_key_to_char os (key_after n c) (taken_after n c)).0),
          (translate_key_to_char os (key_after n c) (taken_after n c)).1,
        )
  unfolding getchar next_char
  getchar_returns n polls rounds c r h made = ground (arith, await_key_finds n polls c r h)

  -- When a key becomes ready after `n` polls and makes no character, `getchar` passes over it: it goes on as
  -- if it had been called after those calls.
  getchar_skips :
      (n polls rounds : ℕ) (c : Console)
      → ReadyAfter n c
      → n < polls
      → (translate_key_to_char os (key_after n c) (taken_after n c)).0 ≡ 0
      → getchar os polls (suc rounds) c
        ≡ getchar os polls rounds (translate_key_to_char os (key_after n c) (taken_after n c)).1
  unfolding getchar next_char
  getchar_skips n polls rounds c r h made = ground (arith, await_key_finds n polls c r h)

  -- The character that a key makes, on every branch of `TranslateKeyToChar`.
  translate_key_lem :
      (key : ℕ) (c : Console) (char : ℕ)
      → u8 (os.char_of_key (Event.translate_key_to_char key ∷ c.history)) ≡ char
      → ((char ≢ 0) × ((translate_key_to_char os key c).0 ≡ char))
        ⊎ ((char ≡ 0)
            × (bit_and key 0xFDFF ≡ key_mod_ctrl + key_c)
            × ((translate_key_to_char os key c).0 ≡ 3))
        ⊎ ((char ≡ 0)
            × (bit_and key 0xFDFF ≡ key_backspace)
            × ((translate_key_to_char os key c).0 ≡ 8))
        ⊎ ((char ≡ 0)
            × (bit_and key 0xFDFF ≢ key_mod_ctrl + key_c)
            × (bit_and key 0xFDFF ≢ key_backspace)
            × ((translate_key_to_char os key c).0 ≡ 0))
  unfolding translate_key_to_char
  translate_key_lem key c char e = ground arith

  translate_key-lt : (key : ℕ) (c : Console) → (translate_key_to_char os key c).0 < 256
  unfolding translate_key_to_char
  translate_key-lt key c = ground arith

  next_char-lt :
      (polls char : ℕ) (c c' : Console) → next_char os polls c ≡ some (char, c') → char < 256
  unfolding next_char
  next_char-lt polls char c c' e = elim (Option-cases (await_key os polls c)) [
    | inl stuck ↦ ground arith
    | inr (ready, found) ↦
        let taken = call Event.get_key ready in
        ground (arith, translate_key-lt (u16 (os.key taken.history)) taken)
  ]

  -- What `getchar` returns, if it returns, is not NUL.
  pub getchar-ne-zero :
      (polls rounds : ℕ) (c : Console) (char : ℕ) (c' : Console)
      → getchar os polls rounds c ≡ some (char, c')
      → char ≢ 0
  unfolding getchar
  getchar-ne-zero polls zero c char c' e = cc
  getchar-ne-zero polls (suc rounds) c char c' e = elim (Option-cases (next_char os polls c)) [
    | inl stuck ↦ ground arith
    | inr ((b, after), found) ↦
        ground
          (arith, next_char-lt polls b c after found, getchar-ne-zero polls rounds after char c')
  ]
