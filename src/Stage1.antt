-- ===== src/Stage1.antt =====
-- bootloader/boot.c: the first stage, which loads the second from the sectors behind the first one
-- of the card. `Defs` is the program, `Zero` the clearing of .bss, `Load` the sectors read.
pub mod Defs
pub mod Zero
pub mod Load
pub mod Boot
mod Tests
