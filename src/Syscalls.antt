-- ===== src/Syscalls.antt =====
-- os3k/syscall.c: the table of system calls.
pub mod Stub
pub mod Low
pub mod High
mod Opcodes
