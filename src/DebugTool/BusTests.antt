-- ===== src/DebugTool/BusTests.antt =====
-- applets/DebugTool/DebugTool.c: the theorems on the bus error handler, at a memory with a byte that cannot be read.
use betawise.Base.{
  bit_and, bit_or, ◌-◌, ◌^◌, ◌≡◌, refl, arith, none, some, ◌==◌, if◌then◌else◌, false,
}
use betawise.DebugTool.Dump.{Viewer, dump_redraw_screen, dump_write_and_redraw_cur}
use betawise.DebugTool.Bus.{vector_byte, Bus, Cpu, redraw_screen_on_bus, write_and_redraw_on_bus}
use betawise.DebugTool.Bus.Screen.{redraw_screen_on_bus_lem}
use betawise.DebugTool.Bus.Typed.{FailsUnwritable, write_and_redraw_on_bus_lem}
use betawise.DebugTool.Bus.Vector.{redrawn, vector_written_lost}
use betawise.DebugTool.Samples.{machine, last_byte}

abbrev cpu : Cpu
cpu = record { bus_error_handler_address = 0x4444; stale = λ a. 0xEE; write_fails = λ a. false }

-- The system's handler is installed.
abbrev bus : Bus
bus = record { vector = 0x400000; prev_bus_error_handler = 0; bus_error = 1 }

-- The byte at the cursor cannot be read.
abbrev one_error : Viewer
one_error = record last_byte { memory = λ a. if a == 2 ^ 32 - 1 then none else some 0x5A }

redraw_screen_on_bus_lem_example :
    (b' : Bus) × (redraw_screen_on_bus cpu machine 9 one_error bus
      ≡ some (dump_redraw_screen machine one_error, b'))
    × (b'.vector ≡ 0x400000)
redraw_screen_on_bus_lem_example =
    redraw_screen_on_bus_lem cpu machine 9 one_error bus (omega arith) (omega arith) (omega arith)
      (omega arith)

no_failing : FailsUnwritable cpu machine
no_failing a fails = ground arith

write_and_redraw_on_bus_lem_example :
    (b' : Bus) × (write_and_redraw_on_bus cpu machine 0x70 0x0F one_error bus
      ≡ some (dump_write_and_redraw_cur machine 0x70 0x0F one_error, b'))
    × (b'.vector ≡ 0x400000)
write_and_redraw_on_bus_lem_example =
    write_and_redraw_on_bus_lem cpu machine no_failing 0x70 0x0F one_error bus refl

-- The cursor is on the vector's second byte.
abbrev on_vector : Viewer
on_vector = record last_byte { address = 8; cursor = 1 }

vector_written_lost_example :
    let w = redrawn machine (bit_or (bit_and (vector_byte 0x4444 9) 0x0F) 0x70) on_vector in
    (b' : Bus) × (write_and_redraw_on_bus cpu machine 0x70 0x0F on_vector bus ≡ some (w, b'))
    × (w.memory ≡ on_vector.memory)
    × (b'.vector ≡ 0x400000)
vector_written_lost_example =
    vector_written_lost cpu machine 0x70 0x0F on_vector bus refl (omega arith)
