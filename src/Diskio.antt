-- ===== src/Diskio.antt =====
-- bootbin/diskio_sddisk.c: the disk interface that FatFs calls, over the card's driver.
pub mod Defs
pub mod Reads
mod Tests
