-- ===== src/Applets/Tests.antt =====
-- applets/EhBASIC/wrapper.c: the wrapper around an interpreter that counts its resumptions.
use betawise.Base.{ℕ, ◌≡◌, ◌+◌, refl, some}
use betawise.Keys.{msg_setfocus}
use betawise.Console.{Console}
use betawise.Console.Terminal.{IsSized}
use betawise.Runtime.{choose_font}
use betawise.Runtime.Focus.{blank}
use betawise.Samples.{rom, font, screen, screen-Measures}
use betawise.Applets.{Basic, basic_handle}
use betawise.Applets.Focus.{basic_resumes}

abbrev counting : Basic ℕ
counting = record { init = λ c n. (c, 0); resume = λ c n. (c, n + 1) }

basic_resumes_example :
    (c' : Console) × (basic_handle rom counting msg_setfocus 0 screen 4
      ≡ some (counting.resume c' 4))
    × IsSized font (blank 8 44) c'
    × (c'.cur_row ≡ 1)
    × (c'.cur_col ≡ 1)
unfolding choose_font
basic_resumes_example = basic_resumes rom counting 0 screen 4 {f = font} refl refl screen-Measures
