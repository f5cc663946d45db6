-- ===== src/FontApplet/Handed.antt =====
-- applets/NeoFontTerminal/NeoFontTerminal.c and os3k/os3k.c: the font that the runtime gets.
use betawise.Base.{ℕ, ◌≡◌, ◌≢◌, refl, arith, ◌∙◌, ap, Option, some, List, [], ◌∷◌, true, ltb, u8}
use betawise.Keys.{msg_init}
use betawise.Os.{Os, Event, Font, History}
use betawise.Console.{Console, call_moving, clear_screen}
use betawise.Console.Terminal.{IsSized}
use betawise.Runtime.{font_applet_id, font_message, choose_font, on_setfocus}
use betawise.Runtime.Focus.{blank, Measures, on_setfocus-IsSized}
use betawise.FontApplet.{Glyphs, filled, process_message, header_after, font_behind}

process_message-filled :
    (g : Glyphs) (message : ℕ) → (process_message g message (filled g)).1 ≡ filled g
unfolding process_message
process_message-filled g message = ground arith

header_after-filled :
    (g : Glyphs) (messages : List ℕ) → header_after g messages (filled g) ≡ filled g
unfolding header_after
header_after-filled g [] = refl
header_after-filled g (message ∷ messages) =
    ap (header_after g messages) (process_message-filled g message) ∙ header_after-filled g messages

-- After MSG_INIT, and whatever messages come then, each of the two messages that ask for the font stores
-- a pointer to the header of the glyphs; message 0x1000006 does so also before any MSG_INIT.
font_handed :
    (g : Glyphs) (header : Font) (messages : List ℕ) (old : Option Font)
    → let after = header_after g (msg_init ∷ messages) header in
      (font_behind old (process_message g font_message after) ≡ some (filled g))
      × (font_behind old (process_message g 0x1000006 after) ≡ some (filled g))
      × (font_behind old (process_message g 0x1000006 header) ≡ some (filled g))
unfolding header_after process_message
font_handed g header messages old = (ap some (header_after-filled g messages), refl, refl)

-- MSG_SETFOCUS of an applet on an LCD of `rows` by `cols` characters, when the font applet, installed and
-- initialised, answers the runtime's message, with glyphs 6 pixels wide and 8 or 16 high: it completes,
-- and after `ClearScreen` the console is sized, in the font applet's font, for the blank grid of that
-- size.
pub font_applet-IsSized :
    (g : Glyphs) (header : Font) (messages : List ℕ) (os : Os) (c : Console) {old : Font}
    (rows cols : ℕ)
    → c.cur_font ≡ some old
    → ((h : History) → u8 (os.applet_index (Event.applet_find_by_id font_applet_id ∷ h)) ≢ 0)
    → ((h : History) (before : Option Font)
        → os.applet_font h before
          ≡ font_behind before
              (process_message g font_message (header_after g (msg_init ∷ messages) header)))
    → Measures (filled g) rows cols c
    → (c' : Console) × (on_setfocus os c ≡ some c')
      × IsSized (filled g) (blank rows cols) (clear_screen os c')
      × ((clear_screen os c').cur_row ≡ 1)
      × ((clear_screen os c').cur_col ≡ 1)
unfolding choose_font
font_applet-IsSized g header messages os c {old} rows cols ec installed answers measures =
    on_setfocus-IsSized os c ec chosen measures
  where
    chosen : (choose_font os (call_moving os Event.clear_screen c)).cur_font ≡ some (filled g)
    chosen =
        let found = installed (Event.clear_screen ∷ c.history) in
        let positive : ltb 0 (
              u8 (
                os.applet_index
                  (Event.applet_find_by_id font_applet_id ∷ Event.clear_screen ∷ c.history)))
            ≡ true =
          ground arith in
        rw positive (answers _ _ ∙ (font_handed g header messages c.cur_font).0)
