-- ===== src/Runtime/Tests.antt =====
-- os3k/os3k.c: the runtime's theorems at a concrete ROM.
use betawise.Base.{◌≡◌, refl, arith, some, length, ltb, if◌then◌else◌, extend8_16, extend16_32}
use betawise.Os.{Os}
use betawise.Console.{Console, clear_screen}
use betawise.Console.Terminal.{IsSized}
use betawise.Samples.{font, rom, screen, screen-Measures}
use betawise.Runtime.{on_setfocus, choose_font, translate_key_to_char, getchar}
use betawise.Runtime.Focus.{blank, on_setfocus-IsSized}
use betawise.Runtime.Keyboard.{ReadyAfter, key_after, taken_after, getchar_returns}

-- A ROM that has a key ready at the third poll.
abbrev slow : Os
slow = record rom { key_ready = λ h. if ltb (length h) 4 then 0 else 1 }

on_setfocus-IsSized_example :
    (c' : Console) × (on_setfocus rom screen ≡ some c')
    × IsSized font (blank 8 44) (clear_screen rom c')
    × ((clear_screen rom c').cur_row ≡ 1)
    × ((clear_screen rom c').cur_col ≡ 1)
unfolding choose_font
on_setfocus-IsSized_example = on_setfocus-IsSized rom screen {f = font} refl refl screen-Measures

third_poll : ReadyAfter slow 2 screen
third_poll = (refl, (refl, λ e. omega arith))

getchar_returns_example :
    getchar slow 5 1 screen
    ≡ some (
      extend16_32 (
          extend8_16
            (translate_key_to_char slow (key_after slow 2 screen) (taken_after slow 2 screen)).0),
      (translate_key_to_char slow (key_after slow 2 screen) (taken_after slow 2 screen)).1,
    )
unfolding translate_key_to_char
getchar_returns_example = getchar_returns slow 2 5 0 screen third_poll (omega arith) (omega arith)
