-- ===== src/DebugTool/Bus/Screen.antt =====
-- applets/DebugTool/DebugTool.c: with the bus error handler, the screen is redrawn as memory says, and the vector is what it was.
use betawise.Base.{
  ◌<◌, true, false, is_negative8, leb, ◌||◌, u8, ℕ, zero, suc, ◌+◌, ◌*◌, ◌^◌, ◌≤◌, ◌≡◌, refl, sym,
  arith, ◌∙◌, ap, Option, some, if◌then◌else◌, u32,
}
use betawise.Console.{cursor_hide, set_cursor}
use betawise.Console.Stdio.{puts}
use betawise.DebugTool.Dump.{
  Machine, Viewer, bytes_per_row, on_console, draw_bytes, dump_redraw_byte_hex,
  dump_redraw_byte_ascii, dump_redraw_row, redraw_rows, dump_redraw_screen,
}
use betawise.DebugTool.Frame.{Draws-row}
use betawise.DebugTool.Bus.{
  redraw_row_on_bus, Bus, Cpu, draw_row, redraw_rows_on_bus, redraw_screen_on_bus,
  install_bus_error_handler, uninstall_bus_error_handler,
}
use betawise.DebugTool.Bus.Bytes.{IsInstalled, bytes_at, Above, read_row_lem}

-- Drawing the bytes that were read is drawing what is in memory.
draw_row_lem :
    (m : Machine) (draw : Option ℕ → Viewer → Viewer)
    → ((c : Option ℕ) (v : Viewer) → (draw c v).memory ≡ v.memory)
    → (left a : ℕ) (memory : ℕ → Option ℕ) (v : Viewer) → v.memory ≡ memory
    → draw_row draw (bytes_at left a memory) v ≡ draw_bytes m draw left a v
unfolding draw_row draw_bytes
draw_row_lem m draw keeps zero a memory v e = refl
draw_row_lem m draw keeps (suc left) a memory v e =
    draw_row_lem m draw keeps left (u32 (a + 1)) memory (draw (memory a) v) (keeps (memory a) v ∙ e)
    ∙ ap (λ (c : Option ℕ). draw_bytes m draw left (u32 (a + 1)) (draw c v)) (sym (ap (λ f. f a) e))

drawn_memory :
    (m : Machine) (draw : Option ℕ → Viewer → Viewer)
    → ((c : Option ℕ) (v : Viewer) → (draw c v).memory ≡ v.memory)
    → (left a : ℕ) (v : Viewer) → (draw_bytes m draw left a v).memory ≡ v.memory
unfolding draw_bytes
drawn_memory m draw keeps zero a v = refl
drawn_memory m draw keeps (suc left) a v =
    drawn_memory m draw keeps left (u32 (a + 1)) (draw (v.memory a) v) ∙ keeps (v.memory a) v

module _ (m : Machine) where
  hex_keeps : (c : Option ℕ) (v : Viewer) → (dump_redraw_byte_hex m c v).memory ≡ v.memory
  unfolding dump_redraw_byte_hex
  hex_keeps c v = refl

  ascii_keeps : (c : Option ℕ) (v : Viewer) → (dump_redraw_byte_ascii m c v).memory ≡ v.memory
  unfolding dump_redraw_byte_ascii
  ascii_keeps c v = refl

  -- The row with its label, before its bytes.
  abbrev labelled : ℕ → ℕ → Viewer → Viewer
  labelled row a v =
      on_console m
        (λ s. (puts m.os (if v.is_as3000 then m.hex_address_seven a else m.hex_address a) s).1)
        (on_console m (set_cursor m.os row (if v.is_as3000 then 1 else 3) cursor_hide) v)

  row_memory : (row a : ℕ) (v : Viewer) → (dump_redraw_row m row a v).memory ≡ v.memory
  unfolding dump_redraw_row
  row_memory row a v =
      drawn_memory m (dump_redraw_byte_ascii m) ascii_keeps bytes_per_row a _
      ∙ drawn_memory m (dump_redraw_byte_hex m) hex_keeps bytes_per_row a (labelled row a v)

  drawn_row :
      (row a : ℕ) (v : Viewer)
      → draw_row
          (dump_redraw_byte_ascii m)
          (bytes_at bytes_per_row a v.memory)
          (draw_row (dump_redraw_byte_hex m) (bytes_at bytes_per_row a v.memory) (labelled row a v))
        ≡ dump_redraw_row m row a v
  unfolding dump_redraw_row
  drawn_row row a v =
      let hex = draw_bytes m (dump_redraw_byte_hex m) bytes_per_row a (labelled row a v) in
      ap (λ (w : Viewer). draw_row (dump_redraw_byte_ascii m) (bytes_at bytes_per_row a v.memory) w)
        (draw_row_lem m (dump_redraw_byte_hex m) hex_keeps bytes_per_row a v.memory
          (labelled row a v) refl)
      ∙ draw_row_lem m (dump_redraw_byte_ascii m) ascii_keeps bytes_per_row a v.memory hex
          (drawn_memory m (dump_redraw_byte_hex m) hex_keeps bytes_per_row a (labelled row a v))

module _ (cpu : Cpu) (m : Machine) where
  row_on_bus :
      {prev : ℕ} (row a : ℕ) (v : Viewer) (b : Bus)
      → Above 8 a
      → IsInstalled cpu prev b
      → (b' : Bus) × (redraw_row_on_bus cpu m row a v b ≡ some (dump_redraw_row m row a v, b'))
        × IsInstalled cpu prev b'
  unfolding redraw_row_on_bus
  row_on_bus row a v b above h =
      let (b', read, h') = read_row_lem cpu bytes_per_row a v.memory b above h in
      (b', rw (read, drawn_row m row a v) refl, h')

  -- The loop goes on after a row.
  next_row :
      (fuel row a : ℕ) (v : Viewer) (b : Bus) {w : Viewer} {b' : Bus}
      → (is_negative8 row || leb row v.rows_per_screen) ≡ true
      → redraw_row_on_bus cpu m row a v b ≡ some (w, b')
      → redraw_rows_on_bus cpu m (suc fuel) row a v b
        ≡ redraw_rows_on_bus cpu m fuel (u8 (row + 1)) (u32 (a + bytes_per_row)) w b'
  unfolding redraw_rows_on_bus
  next_row fuel row a v b more drawn = rw (more, drawn, redraw_rows_on_bus) refl

  rows_on_bus :
      {prev : ℕ} (left fuel row a : ℕ) (v : Viewer) (b : Bus)
      → row + left ≡ v.rows_per_screen + 1
      → 1 ≤ row
      → v.rows_per_screen ≤ 126
      → left < fuel
      → Above (8 * left) a
      → IsInstalled cpu prev b
      → (b' : Bus) × (redraw_rows_on_bus cpu m fuel row a v b
          ≡ some (redraw_rows m left row a v, b'))
        × IsInstalled cpu prev b'
  unfolding redraw_rows_on_bus redraw_rows
  rows_on_bus left zero row a v b e h1 h2 h3 above h = absurd (omega arith)
  rows_on_bus zero (suc fuel) row a v b e h1 h2 h3 above h =
      let over : (is_negative8 row || leb row v.rows_per_screen) ≡ false = ground arith in
      (b, rw (over, redraw_rows_on_bus) refl, h)
  rows_on_bus (suc left) (suc fuel) row a v b e h1 h2 h3 above h =
      let more : (is_negative8 row || leb row v.rows_per_screen) ≡ true = ground arith in
      let byte : u8 (row + 1) ≡ row + 1 = omega arith in
      let same = ap (λ (x : Viewer). x.rows_per_screen) (Draws-row m row a v) in
      let first : Above 8 a = λ e. omega (arith, above (omega arith)) in
      let (b1, drawn, h') = row_on_bus row a v b first h in
      let next : Above (8 * left) (u32 (a + 8)) = λ e. omega (arith, above (omega arith)) in
      let (b2, rest, h'') =
        rows_on_bus left fuel (row + 1) (u32 (a + bytes_per_row)) (dump_redraw_row m row a v) b1
          (omega (arith, same)) (omega arith) (omega (arith, same)) (omega arith) next h' in
      let counted =
        ap
          (λ (r : ℕ).
            redraw_rows_on_bus cpu m fuel r (u32 (a + bytes_per_row)) (dump_redraw_row m row a v)
              b1)
          byte in
      (b2, next_row fuel row a v b more drawn ∙ counted ∙ rest, h'')

  -- On a screen of at most 126 rows, with the window above the four bytes of the vector and below the end of memory, and fuel for
  -- one test of the loop's condition more than rows: with the bus error handler installed for its loops, which count the rows in
  -- a char, and keep each byte of a row with its flag and then draw them, `DumpRedrawScreen` ends, and comes to the same state
  -- and screen as `dump_redraw_screen`, which is told of each byte whether it can be read, whatever a failed read leaves in the
  -- register; and the vector is then what it was.
  pub redraw_screen_on_bus_lem :
      (fuel : ℕ) (v : Viewer) (b : Bus)
      → v.rows_per_screen ≤ 126
      → v.rows_per_screen < fuel
      → 12 ≤ v.address
      → v.address + 8 * v.rows_per_screen ≤ 2 ^ 32
      → (b' : Bus) × (redraw_screen_on_bus cpu m fuel v b ≡ some (dump_redraw_screen m v, b'))
        × (b'.vector ≡ b.vector)
  unfolding redraw_screen_on_bus dump_redraw_screen
  redraw_screen_on_bus_lem fuel v b few enough low high =
      let (b1, drawn, h) =
        rows_on_bus {prev = b.vector} v.rows_per_screen fuel 1 v.address v
          (install_bus_error_handler cpu b) (omega arith) (omega arith) few enough
          (λ e. (low, high)) (record { installed = refl; prev_kept = refl }) in
      (uninstall_bus_error_handler b1, rw drawn refl, h.prev_kept)
