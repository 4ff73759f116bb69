-- ===== src/Sddisk.antt =====
-- bootbin/sddisk.c and bootloader/sddisk.c: the SD card over SPI. `Wire` has the state and the SPI
-- transfer, `Protocol` the commands, `Block` the reads and writes, `Init` the start of the card,
-- `Standalone` the test program.
pub mod Wire
pub mod Uart
pub mod Message
pub mod Protocol
pub mod Block
pub mod Init
pub mod Polls
pub mod Sent
pub mod Written
pub mod Writes
pub mod Quiet
pub mod Later
pub mod Ready
pub mod Standalone
pub mod Plain
pub mod Printing
pub mod ReadPrints
pub mod Shown
pub mod Texts
pub mod Reads
pub mod Device
pub mod Decimal
pub mod Tests
mod TextTests
