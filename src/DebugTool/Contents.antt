-- ===== src/DebugTool/Contents.antt =====
-- applets/DebugTool/DebugTool.c on the console of os3k/os3k.c: what the dump on the NEO's screen says.
use betawise.Base.{
  ℕ, zero, suc, ◌+◌, ◌*◌, ◌≤◌, ◌≡◌, refl, arith, ◌∙◌, ap, List, [], ◌∷◌, ◌++◌, length,
  length-append, Option, none, some, false, u32,
}
use mathlib.Core.Path.{subst}
use betawise.Os.{Font}
use betawise.Console.{stdout, cursor_hide, set_cursor}
use betawise.Console.Terminal.{Terminal, IsSized}
use betawise.Console.Stdio.{fputs, puts, putchar}
use betawise.Console.Page.{Page, HasCells, Displays, set_cursor-cells}
use betawise.Console.RowText.{
  write, write-nil, write-append, fputc_in_row-Displays, Displays-page, fputs_in_row-Displays,
}
use betawise.DebugTool.Dump.{
  Machine, Viewer, dump_redraw_byte_hex, byte_text, ascii_char, dump_redraw_byte_ascii, draw_bytes,
  dump_redraw_row,
}
use betawise.DebugTool.Frame.{Draws, Draws-bytes, Draws-byte_hex, Draws-byte_ascii}
use betawise.DebugTool.Invariant.{HoldsBytes}
use betawise.DebugTool.Redraw.{PrintsHex, IsRead, HoldsBytes-IsRead, ascii_char-IsGlyph, at_cell}

-- The texts of bytes one after the other, from address `a` on.
abbrev pub bytes_text : (Option ℕ → List ℕ) → (ℕ → Option ℕ) → ℕ → ℕ → List ℕ
bytes_text text memory zero a = []
bytes_text text memory (suc left) a = text (memory a) ++ bytes_text text memory left (u32 (a + 1))

-- A row of the dump: the address, eight bytes in hexadecimal, and the same bytes as characters.
abbrev pub row_text : Machine → (ℕ → Option ℕ) → ℕ → List ℕ
row_text m memory a =
    m.hex_address a
    ++ (bytes_text (byte_text m) memory 8 a
        ++ bytes_text (λ o. ascii_char m false o ∷ []) memory 8 a)

-- A step that writes a byte's text in its row.
abbrev pub Writes : Font → (Option ℕ → List ℕ) → (Option ℕ → Viewer → Viewer) → Type 0
Writes f text draw =
    (o : Option ℕ) (v : Viewer) (t : Terminal) (page : Page)
    → IsRead o
    → v.is_as3000 ≡ false
    → t.col + length (text o) ≤ t.cols + 1
    → Displays f t page v.console
    → Displays f (record t { col = t.col + length (text o) }) (write f t.row t.col (text o) page)
        (draw o v).console

pub bytes_text-length :
    (text : Option ℕ → List ℕ) (width : ℕ) (memory : ℕ → Option ℕ) (left a : ℕ)
    → ((o : Option ℕ) → IsRead o → length (text o) ≡ width)
    → HoldsBytes memory
    → length (bytes_text text memory left a) ≡ left * width
bytes_text-length text width memory zero a h bytes = omega arith
bytes_text-length text width memory (suc left) a h bytes =
    let one = h (memory a) (HoldsBytes-IsRead memory a bytes) in
    let rest = bytes_text-length text width memory left (u32 (a + 1)) h bytes in
    length-append (text (memory a)) (bytes_text text memory left (u32 (a + 1))) ∙ grind arith

module _ (m : Machine) (prints : PrintsHex m) where
  pub byte_text-length : (o : Option ℕ) → IsRead o → length (byte_text m o) ≡ 3
  unfolding byte_text
  byte_text-length none r = refl
  byte_text-length (some b) r = (prints.of_byte b r).1

  pub row_text-length :
      (memory : ℕ → Option ℕ) (a : ℕ) → HoldsBytes memory → length (row_text m memory a) ≡ 41
  row_text-length memory a bytes =
      let hex = bytes_text (byte_text m) memory 8 a in
      let chars = bytes_text (λ o. ascii_char m false o ∷ []) memory 8 a in
      omega (
        arith,
        length-append (m.hex_address a) (hex ++ chars),
        length-append hex chars,
        (prints.of_address a).1,
        bytes_text-length (byte_text m) 3 memory 8 a byte_text-length bytes,
        bytes_text-length (λ o. ascii_char m false o ∷ []) 1 memory 8 a (λ o r. refl) bytes,
      )

module _ (m : Machine) (prints : PrintsHex m) {f : Font} where
  pub hex-Writes : Writes f (byte_text m) (dump_redraw_byte_hex m)
  unfolding dump_redraw_byte_hex byte_text puts
  hex-Writes none v t page r neo h d =
      fputs_in_row-Displays m.os (0xD7 ∷ 0xD7 ∷ b' ' ∷ []) {t = t} (ground arith) h d
  hex-Writes (some b) v t page r neo h d =
      fputs_in_row-Displays m.os (m.hex_byte b) {t = t} (prints.of_byte b r).0 h d

  pub ascii-Writes : Writes f (λ o. ascii_char m false o ∷ []) (dump_redraw_byte_ascii m)
  unfolding dump_redraw_byte_ascii putchar
  ascii-Writes o v t page r neo h d = rw neo (
      fputc_in_row-Displays m.os (ascii_char m false o) {t = t} (ascii_char-IsGlyph m o r)
        (omega arith) d)

  bytes-Writes :
      (draw : Option ℕ → Viewer → Viewer) (text : Option ℕ → List ℕ)
      → ((o : Option ℕ) (v : Viewer) → Draws v (draw o v))
      → Writes f text draw
      → (left a : ℕ) (v : Viewer) (t : Terminal) (page : Page) → HoldsBytes v.memory
      → v.is_as3000 ≡ false
      → t.col + length (bytes_text text v.memory left a) ≤ t.cols + 1
      → Displays f t page v.console
      → Displays f
          (record t { col = t.col + length (bytes_text text v.memory left a) })
          (write f t.row t.col (bytes_text text v.memory left a) page)
          (draw_bytes m draw left a v).console
  unfolding draw_bytes
  bytes-Writes draw text draws step zero a v t page bytes neo h d =
      subst (λ (k : ℕ). Displays f (record t { col = k }) (write f t.row t.col [] page) v.console)
        (omega arith) (Displays-page (write f t.row t.col [] page) (write-nil f t.row t.col page) d)
  bytes-Writes draw text draws step (suc left) a v t page bytes neo h d =
      let o = v.memory a in
      let w = draw o v in
      let memory : w.memory ≡ v.memory = ap (λ (x : Viewer). x.memory) (draws o v) in
      let rest = bytes_text text v.memory left (u32 (a + 1)) in
      let both = length-append (text o) rest in
      let t1 = record t { col = t.col + length (text o) } in
      let page1 = write f t.row t.col (text o) page in
      let one = step o v t page (HoldsBytes-IsRead v.memory a bytes) neo (omega (arith, both)) d in
      let all : Displays f (record t1 { col = t1.col + length rest })
          (write f t.row t1.col rest page1) (draw_bytes m draw left (u32 (a + 1)) w).console =
        subst
          (λ (mem : ℕ → Option ℕ).
            Displays f
              (record t1 { col = t1.col + length (bytes_text text mem left (u32 (a + 1))) })
              (write f t.row t1.col (bytes_text text mem left (u32 (a + 1))) page1)
              (draw_bytes m draw left (u32 (a + 1)) w).console)
          memory
          (bytes-Writes draw text draws step left (u32 (a + 1)) w t1 page1 (rw memory bytes)
            (ap (λ (x : Viewer). x.is_as3000) (draws o v) ∙ neo) (rw memory (omega (arith, both)))
            one) in
      subst
        (λ (k : ℕ).
          Displays f (record t { col = k }) (write f t.row t.col (text o ++ rest) page)
            (draw_bytes m draw left (u32 (a + 1)) w).console)
        (omega (arith, both))
        (Displays-page (write f t.row t.col (text o ++ rest) page)
          (write-append f t.row t.col (text o) rest page) all)

  -- A row of the dump.
  pub row-Displays :
      (row a : ℕ) (v : Viewer) (t : Terminal) (page : Page)
      → HoldsBytes v.memory
      → v.is_as3000 ≡ false
      → t.cols ≡ 44
      → 1 ≤ row
      → row ≤ t.rows
      → IsSized f t v.console
      → HasCells f t page v.console
      → Displays f
          (at_cell row 44 t)
          (write f row 3 (row_text m v.memory a) page)
          (dump_redraw_row m row a v).console
  unfolding dump_redraw_row puts
  row-Displays row a v t page bytes neo cols h1 h2 s cells =
      let label = m.hex_address a in
      let hex = bytes_text (byte_text m) v.memory 8 a in
      let chars = bytes_text (λ o. ascii_char m false o ∷ []) v.memory 8 a in
      let len = (prints.of_address a).1 in
      let len_hex =
        bytes_text-length (byte_text m) 3 v.memory 8 a (byte_text-length m prints) bytes in
      let len_chars =
        bytes_text-length (λ o. ascii_char m false o ∷ []) 1 v.memory 8 a (λ o r. refl) bytes in
      let placed =
        set_cursor-cells m.os {t = t} {page = page} row 3 cursor_hide h1 h2 (omega arith)
          (omega arith) s cells in
      let console = (fputs m.os label stdout (set_cursor m.os row 3 cursor_hide v.console)).1 in
      let u = record v { is_as3000 = false; console = console } in
      let t1 = record (at_cell row 3 t) { col = 3 + length label } in
      let page1 = write f row 3 label page in
      let labelled : Displays f t1 page1 u.console =
        fputs_in_row-Displays m.os label {t = at_cell row 3 t} (prints.of_address a).0 (omega arith)
          placed in
      let w = draw_bytes m (dump_redraw_byte_hex m) 8 a u in
      let d : Draws u w = Draws-bytes m (dump_redraw_byte_hex m) (Draws-byte_hex m) 8 a u in
      let memory : w.memory ≡ v.memory = ap (λ (x : Viewer). x.memory) d in
      let t2 = record t1 { col = t1.col + length hex } in
      let page2 = write f row t1.col hex page1 in
      let digits : Displays f t2 page2 w.console =
        bytes-Writes (dump_redraw_byte_hex m) (byte_text m) (Draws-byte_hex m) hex-Writes 8 a u t1
          page1 bytes refl (omega arith) labelled in
      let x = draw_bytes m (dump_redraw_byte_ascii m) 8 a w in
      let written : Displays f (record t2 { col = t2.col + length chars })
          (write f row t2.col chars page2) x.console =
        subst
          (λ (mem : ℕ → Option ℕ).
            let text = bytes_text (λ o. ascii_char m false o ∷ []) mem 8 a in
            Displays f (record t2 { col = t2.col + length text }) (write f row t2.col text page2)
              x.console)
          memory
          (bytes-Writes (dump_redraw_byte_ascii m) (λ o. ascii_char m false o ∷ [])
            (Draws-byte_ascii m) ascii-Writes 8 a w t2 page2 (rw memory bytes)
            (ap (λ (x : Viewer). x.is_as3000) d) (omega arith) digits) in
      let all : Displays f (at_cell row 44 t) (write f row 3 (row_text m v.memory a) page)
          x.console =
        subst
          (λ (k : ℕ).
            Displays f (at_cell row k t) (write f row 3 (row_text m v.memory a) page) x.console)
          (omega arith)
          (Displays-page (write f row 3 (row_text m v.memory a) page)
            (λ r k.
              write-append f row t1.col hex chars page1 r k
              ∙ write-append f row 3 label (hex ++ chars) page r k)
            written) in
      rw neo all
