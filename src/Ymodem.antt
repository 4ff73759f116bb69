-- ===== src/Ymodem.antt =====
-- bootbin/ymodem.c: the YMODEM receiver. `Session` has its state and the line, `Crc` the checksum,
-- `Block` the receipt of one block, `Header` block 0, `Receive` the loop of `ym_receive`. The other
-- children prove the properties of these.
pub mod Session
pub mod Crc
pub mod Register
pub mod Checksum
pub mod Block
pub mod Header
pub mod Receive
pub mod Progress
pub mod Feeds
pub mod Wire
pub mod Label
pub mod Rounds
pub mod Stores
pub mod Safety
pub mod Arrival
pub mod Growth
pub mod Ending
pub mod Reaches
pub mod Delivery
mod Tests
pub mod SenderTests
