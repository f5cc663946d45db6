-- ===== src/Lib.antt =====
-- Betawise is a C development kit for applets on the AlphaSmart NEO and AlphaSmart 3000. An applet is
-- linked with a small library that stands between it and the operating system in ROM: it answers the
-- system's messages before the applet does, replaces the ROM's screen functions by ones that use a font
-- applet's font, and gives the applet a part of stdio. The applets of the repository are built on it.
--
-- The parts and the files:
--   os3k/os3k.c, the console: ClearScreen, SetCursor, fputc, fputs, putchar, puts. Console.antt and
--     Console/Stdio.antt hold the globals (Console), the functions, and what they send to the LCD.
--     Console/Terminal.antt is the specification: a grid with a cursor that scrolls by rows. `Shows`
--     relates the variables of the cursor and of the roll to it, and no more. Cursor, Print, Strings,
--     Bounds and Scroll prove about these.
--     Console/Picture.antt reads from the history what the LCD's memory holds at the place of a
--     character: DrawBitmap puts its bitmap there, ClearScreen and a whitening RasterOp blank it, any other
--     call that draws leaves it unknown; the start line and the switch of all pixels do not change the
--     memory. Console/Page.antt is the same by row and column of the grid, for a text typed on it
--     (`Displays`); Typed and RowText prove about it. Console/Glass reads from the history the start lines
--     of the LCD's two halves; Glass/Shown is what the display shows from them on (`OnGlass`), after
--     SetCursor, and Glass/Typed after fputs and after a backspace.
--   os3k/os3k.c, the runtime: BwProcessMessage (prepare, bw_process_message), CallSysInt,
--     TranslateKeyToChar, getchar. Runtime.antt, with proofs in Runtime/Focus and Runtime/Keyboard.
--   os3k/os3k.h: constants in Keys.antt; Keys/Table has all of Key_e, and Keys/Events the modifiers of
--     KeyMod_e and a key with its modifiers in one number, with Keys/Masks for the tests that applets make
--     on it. The font header is in Os.antt; the applet header and the macros that
--     make it in Header.antt, each applet's own in Header/Applets. Header/Layout is the structure as bytes,
--     as the 68000's compiler lays it out, highest byte first and without padding.
--   os3k/syscall.c: the table of stubs, Syscalls.
--   applets/DebugTool/DebugTool.c: DebugTool. Number.antt is HexCharToNibble and NumberFromString, and
--     Number/Text the grammar that it reads. Dump.antt is the screen of memory, from DumpSetCursor to
--     DumpSetAddress, on the state Viewer; Messages.antt the cases of ProcessMessage that do not wait,
--     Prompt.antt NumberPrompt and Ctrl+G, Dialog.antt Ctrl+I, and Process.antt ProcessMessage as a
--     whole, also under BwProcessMessage (handle). Frame, Cells, Moves, Navigation, Rows, Typing and
--     Redraw prove about the screen and the cursor; Invariant, with a child for each group of messages,
--     about sessions; Startup about MSG_SETFOCUS; GoTo, AllRead and Leaves about the two keys that
--     prompt; CapsLock about the modifiers of a key;
--     Unwritable about digits typed where memory cannot be read or written. Contents, Shown and
--     UnderCursor say what the dump puts in each cell of the screen, on Console/Page. Mirror is the
--     relation between the screen and memory, and its children prove that messages keep it: Write (with
--     Rewritten) for a byte that is typed, Moves, Typed, Keys, Session, Prompts for Ctrl+G, Calls for
--     Ctrl+I, whose code is a parameter, and Held for sessions with both.
--     Closed and Closed/Dialog say once which properties of the state the two keys keep; Invariant,
--     Mirror and Leaves use it. Ctrl+Cmd+B draws over the screen, so it is left out of Mirror.
--     Bus.antt is a more detailed model of the accesses to memory: the bus error's vector, the handler
--     that is installed over the system's, the flag that it sets, and the loops that keep a byte with its
--     flag. Its children prove that the model in Dump, which is told whether a byte can be read, agrees; Bus/Vector
--     is about a byte typed on the vector. RowLoop is DumpRedrawScreen's loop with its counter, a char, which
--     Dump's model does not have and Bus's has.
--   applets/NeoFontTerminal/NeoFontTerminal.c: FontApplet, with the font that it hands to the runtime.
--   applets/FileSetFolderProbe/FileSetFolderProbe.c: Probes/Folder, with the contract of
--     docs/filesetfolder-closure.md as a record in Probes/Folder/Contract.
--   applets/FileGetFileInfoProbe/FileGetFileInfoProbe.c: Probes/FileInfo. Of both probes, Screen is
--     what they draw and their messages, and Session proves about sequences of messages under the
--     runtime. Probes/RunKey is about the key that starts each.
--   applets/HelloWorld/HelloWorld.c, applets/EhBASIC/wrapper.c: Applets; the interpreter is a parameter.
--   Base has the shared names: tests on numbers, C arrays, machine words, bit operations.
--
-- How it is modelled. State is passed explicitly: a function takes the globals and returns them. Each
-- call of the ROM and each write to an LCD register is an event on a history; what the ROM answers is a
-- function of that history (the record Os), which is a parameter. The ROM's cursor structure changes in
-- the ROM's calls that print or place a cursor, in a way that is a parameter too. A w-bit integer is
-- its bit pattern, with wrap-around written out; a signed one is read by its top bit. A read through a
-- null font pointer is `none`. A C string is the list of its bytes, and its end is its NUL. In
-- the viewer, memory is a function from addresses, `none` where the bus fails, and a write to an address
-- that is not writable does nothing; sprintf's and tolower's results are parameters,
-- and so are what printf leaves on the console, what TextBox leaves in its buffer, and the code that
-- Ctrl+I calls (run_code), which may change the whole state. g_rawSysCall and g_buffer are fields of the
-- state apart from memory: an address that the user types does not reach them. In Dump a bus
-- error is the `none`, and the vector at the addresses 8 to 11 is apart from memory, as if no handler were
-- installed over the system's; in Bus these four bytes are the vector's, and the two agree elsewhere. A
-- processor that finds another handler in the vector is `none` there.
--
-- Bounds and fuel. The console's theorems take a font 6 pixels wide and 8 or 16 high, as
-- BwProcessMessage assumes when it measures the screen, and up to 254 rows and columns, so that a row
-- or a column more fits a byte; the NEO has 8 by 44. Console/Glass takes an LCD of 64 lines, which its start lines count. The viewer's take up to 14 rows, so that an
-- offset one row outside the screen fits a char; DumpRedrawScreen's loop, whose counter is a char,
-- ends for up to 126 rows; RowLoop and Bus run it on fuel, for the tests of its condition, and one more
-- than the rows is enough. getchar waits for the user: it runs on fuel, for polls
-- and for keys; enough is one poll more than pass without a key, and one key that makes a character.
-- Ctrl+G and Ctrl+I wait for the user as well: their fuel bounds the texts that are typed and the rounds
-- of the dialog; for Ctrl+G one more than the texts that are refused is enough, and for Ctrl+I
-- one more than the rounds that go on.
--
-- Not modelled: the headers of the file, clipboard and password calls, which are prototypes of ROM
-- functions; EhBASIC itself, third-party assembly; the toolchain's tests and the build scripts.
pub mod Base
pub mod Os
pub mod Keys
pub mod Console
pub mod Runtime
pub mod FontApplet
pub mod Syscalls
pub mod DebugTool
pub mod Samples
pub mod Probes
pub mod Applets
pub mod Header
