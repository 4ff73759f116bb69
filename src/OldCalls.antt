-- ===== src/OldCalls.antt =====
-- bootloader/stdfn.c: the system calls of an earlier second stage, which knew one file in memory.
pub mod Defs
pub mod Reads
mod Tests
