-- ===== src/Stdfn.antt =====
-- bootbin/stdfn.c: the system calls. `FatFs` is what they use of the file system, `Files` the file
-- descriptors, `System` the heap, the clock, the trap and the dispatch of the calls, `Entry` the entry
-- of the trap in assembly.
pub mod FatFs
pub mod Files
pub mod Calls
pub mod Slots
pub mod Descriptors
pub mod Seek
pub mod System
pub mod Clock
pub mod Trap
pub mod Entry
pub mod Resumes
mod Tests
