-- ===== src/Console/Tests.antt =====
-- os3k/os3k.c: the console's theorems at concrete screens.
use betawise.Base.{ℕ, ◌≡◌, ◌↔◌, refl, arith, inl, inr, List, [], ◌∷◌, All}
use betawise.Samples.{font, rom, screen, terminal, screen-Shows}
use betawise.Console.{Console, stdout, cursor_hide, set_cursor}
use betawise.Console.Terminal.{Terminal, goto, type_byte, type_text, Shows}
use betawise.Os.{lcd_left, lcd_right}
use betawise.Console.Print.{history-Shows}
use betawise.Console.Page.{put}
use betawise.Console.Glass.{IsRolled, start_left, start_right}
use betawise.Console.Glass.Shown.{OnGlass, glass_at, scrolled, set_cursor-OnGlass}
use betawise.Console.Glass.Typed.{fputs-OnGlass, fputc_backspace-OnGlass}
use betawise.Console.Bounds.{DrawsInside, fputs-inside}
use betawise.Console.Picture.{cell_at}
use betawise.Console.Page.{Page, Displays, text_page}
use betawise.Console.Typed.{fputs-Displays}
use betawise.Console.Scroll.{ClearsInside, scroll_clears_iff}
use betawise.Console.Stdio.{fputc, fputs}

-- A full row is left, and the screen rolls, before the character is drawn.
abbrev greeting : List ℕ
greeting = b'h' ∷ b'i' ∷ 10 ∷ b'!' ∷ 0 ∷ b'?' ∷ []

fputs-inside_example : All (DrawsInside 264 64) (fputs rom greeting stdout screen).1.history
fputs-inside_example = fputs-inside rom greeting {t = terminal} {c = screen} screen-Shows tt

-- The LCD's memory holds what the calls so far have left.
abbrev page : Page
page row col = cell_at font terminal screen.history row col

fputs-Displays_example :
    Displays font
      (type_text greeting terminal)
      (text_page font greeting terminal page)
      (fputs rom greeting stdout screen).1
fputs-Displays_example =
    fputs-Displays rom greeting {t = terminal} {page = page} {c = screen} (omega arith)
      (record { shows = screen-Shows; cells = λ r k h1 h2 h3 h4. refl })

typed : type_text greeting terminal ≡ record { rows = 8; cols = 44; top = 1; row = 8; col = 2 }
unfolding type_text type_byte
typed = refl

-- Room for two more characters on the row.
abbrev room : Terminal
room = record terminal { col = 43 }

abbrev room_screen : Console
room_screen = record screen { cur_col = 43; cursor = record screen.cursor { x = 252 } }

room_screen-Shows : Shows font room room_screen
room_screen-Shows = record {
  sized = record {
    font = refl;
    glyph_width = refl;
    rows_eq = refl;
    cols_eq = refl;
    some_rows = omega arith;
    some_cols = omega arith;
    rows_fit = omega arith;
    cols_fit = omega arith;
    top_in = omega arith;
    width_eq = refl;
    tall = inl refl;
    height_eq = refl;
    roll_eq = refl;
  };
  on_grid = omega arith;
  row_eq = refl;
  col_eq = refl;
  x_eq = refl;
  y_eq = refl;
}

scroll_clears_iff_example :
    All (ClearsInside 264 64) (set_cursor rom 0 44 cursor_hide screen).history ↔ ◌≡◌ {A = ℕ} 44 1
scroll_clears_iff_example =
    scroll_clears_iff rom {t = terminal} {c = screen} 0 44 cursor_hide screen-Shows.sized (inl refl)
      (omega arith) (omega arith) tt

-- The same screen once the display has been started at its roll.
abbrev started_screen : Console
started_screen = record screen { history = lcd_left 0x78 ∷ lcd_right 0x78 ∷ [] }

abbrev glass_page : Page
glass_page row col = glass_at font started_screen row col

started-IsRolled : IsRolled started_screen
unfolding start_left start_right
started-IsRolled = record { left = refl; right = refl }

started-OnGlass : OnGlass font terminal glass_page started_screen
started-OnGlass = record {
  shows = history-Shows started_screen.history screen-Shows;
  rolled_to = started-IsRolled;
  glass = λ row col h1 h2 h3 h4. refl;
}

fputs-OnGlass_example :
    ((fputs rom greeting stdout started_screen).0 ≡ 0)
    × OnGlass font
        (type_text greeting terminal)
        (text_page font greeting terminal glass_page)
        (fputs rom greeting stdout started_screen).1
fputs-OnGlass_example =
    fputs-OnGlass rom greeting {f = font} {t = terminal} {page = glass_page} {c = started_screen}
      refl (omega arith) started-OnGlass

-- To the row above the grid.
set_cursor-OnGlass_example :
    OnGlass font
      (goto 0 1 terminal)
      (scrolled 0 terminal glass_page)
      (set_cursor rom 0 1 cursor_hide started_screen)
set_cursor-OnGlass_example =
    set_cursor-OnGlass rom {f = font} {t = terminal} {page = glass_page} {c = started_screen} 0 1
      cursor_hide refl started-OnGlass.shows.sized started-IsRolled started-OnGlass.glass
      (omega arith) (omega arith) (omega arith) (inr refl)

abbrev started_room : Console
started_room = record room_screen { history = started_screen.history }

started_room-OnGlass :
    OnGlass font room (λ row col. glass_at font started_room row col) started_room
started_room-OnGlass =
    let r = started-IsRolled in
    record {
      shows = history-Shows started_room.history room_screen-Shows;
      rolled_to = record { left = r.left; right = r.right };
      glass = λ row col h1 h2 h3 h4. refl;
    }

fputc_backspace-OnGlass_example :
    OnGlass font room
      (put font b'h' room (λ row col. glass_at font started_room row col))
      (fputc rom 8 stdout (fputc rom b'h' stdout started_room).1).1
fputc_backspace-OnGlass_example =
    fputc_backspace-OnGlass rom b'h' {f = font} {t = room}
      {page = λ row col. glass_at font started_room row col} {c = started_room} refl (ground arith)
      (omega arith) started_room-OnGlass
