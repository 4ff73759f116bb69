-- ===== src/Lib.antt =====
-- Verification of the boot software of the criscv core (the C code of bootbin/ and bootloader/).
--
-- The second stage (bootbin/) is a shell that loads programs over the serial line or from an SD card
-- and serves their system calls. Its parts, from the bottom up: `sddisk.c` speaks to the card byte by
-- byte; `diskio_sddisk.c` offers the card to the FatFs library; `stdfn.c` maps file descriptors onto
-- FatFs files and the UART, and handles traps; `ymodem.c` receives files over the UART. The first stage
-- (bootloader/) has its own copy of the card driver; its `boot.c` loads the second stage from raw
-- sectors of the card and jumps to it.
--
-- Which file models what:
--   Ymodem         bootbin/ymodem.c. `Session` holds the local variables of `ym_receive`, `*out`, the
--                  polls of the UART to come, the bytes sent and the memory; `Receive.step` is one
--                  round of its `for (;;)`, `Receive.ym_receive` the function. `Wire`,
--                  `Label` and `Delivery` say what a sender of one file puts on the line, `Feeds` how it
--                  is spaced.
--   Sddisk         bootbin/sddisk.c, and bootloader/sddisk.c where it differs (the functions named
--                  `loader_...`, `Uart`, `Message.uart_text`). `Wire.Sd` is the state; the card is any
--                  function from the bytes sent so far to its answer. `Standalone` is the test program
--                  of both.
--   BlockDevice    the contract of sddisk.h, which `Sddisk.Device` shows both drivers to meet.
--   Diskio         bootbin/diskio_sddisk.c over any `BlockDevice`; `Defs.Drive` is its state.
--   Stdfn          bootbin/stdfn.c: `Files` and `Calls` the descriptors, `System` the heap, the clock,
--                  the report of a fault and the dispatch of `syscall_c`, `Entry` the trap entry in
--                  assembly; `FatFs` is what it uses of
--                  the library, as a record that the calls take.
--   Stage1         bootloader/boot.c over any `BlockDevice`: `Defs.main` is the program, `Defs.Stop` how
--                  it ends.
--   Shell          bootbin/boot.c. `World` is its state, with `Env` for what it takes from others;
--                  `Input` the serial line, `Upload` the function `load`, `Program` the start of a
--                  program, `Card` and `SdLoad` the commands on the card, `MemTest`, `Rb`, `Tokens` the
--                  cut of a line into arguments, `Commands` the command dispatch, `shell` and `main`.
--   OldCalls       bootloader/stdfn.c, the first form of the system calls.
--   Prelude        what these share: Boolean tests, lists, the memory, 32-bit integers and bits.
--
-- Bounds and fuel. Numbers are natural numbers, cut to 32 or 8 bits where the C types wrap. Memory is
-- a function from addresses to bytes. The loop of `ym_receive` runs on fuel `rounds`, 12 for each poll
-- to come and 100 more; `ym_purge` on one more than the polls to come. `Ymodem.Progress` shows both to
-- be enough. The loads of the first stage run on fuel of 2^23 sectors and 2^32 bytes, which
-- `Stage1.Load` and `Stage1.Zero` show to be enough for files below 4080 MB. `sd_load` runs on fuel of
-- 2^18 chunks, enough for any 32-bit size (`Shell.LoadAll`); `ls` on fuel of 65537 entries and `cat`
-- of 2^26 + 1 blocks, as many as FAT allows; the strings of the C library on 2^32 bytes. `shell` runs
-- on fuel of one more round than bytes to come. All other loops are bounded in the source, or
-- run over a finite list of inputs and answer `none` when the code would wait for ever.
--
-- Not modelled: the waits for the UART and the SPI unit to be ready, which are taken to end;
-- FatFs and the C library, whose functions are parameters and whose
-- constants (errno, open flags, call numbers) are those of the headers; the hardware in rtl/.
-- A program that the shell runs is a function from its entry point, its arguments
-- and the world to how it ends; one that calls `exit` begins the shell anew, on the same line buffer.
-- bootloader/ymodem.c is a copy of bootbin/ymodem.c, and bootloader/fs.c is empty.
pub mod Prelude
pub mod Ymodem
pub mod Sddisk
pub mod BlockDevice
pub mod Diskio
pub mod Stdfn
pub mod Stage1
pub mod Shell
pub mod OldCalls
