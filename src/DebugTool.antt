-- ===== src/DebugTool.antt =====
-- applets/DebugTool/DebugTool.c: the memory viewer and caller of system functions.
pub mod Number
pub mod Dump
pub mod Messages
pub mod Prompt
pub mod Dialog
pub mod Process
pub mod Closed
pub mod Invariant
pub mod Frame
pub mod Cells
pub mod Moves
pub mod Navigation
pub mod Rows
pub mod Redraw
pub mod RowLoop
pub mod Contents
pub mod Shown
pub mod UnderCursor
pub mod Rewritten
pub mod Bus
pub mod Leaves
pub mod Mirror
pub mod Unwritable
pub mod CapsLock
pub mod Startup
pub mod GoTo
pub mod AllRead
pub mod Typing
pub mod Samples
mod Tests
mod SessionTests
mod MirrorTests
mod CallTests
mod BusTests
