-- ===== src/Shell.antt =====
-- bootbin/boot.c: the shell of the second stage. `Input`, `Upload`, `Program`, `Card`, `SdLoad`,
-- `MemTest`, `Rb`, `Tokens` and `Commands` are the program, over the state of `World`; the others say
-- what these do.
pub mod Input
pub mod Start
pub mod Line
pub mod World
pub mod Upload
pub mod Program
pub mod Card
pub mod Shows
pub mod Lists
pub mod SdLoad
pub mod MemTest
pub mod MemCheck
pub mod Hex
pub mod LoadSafe
pub mod LoadAll
pub mod Received
pub mod Guards
pub mod Rb
pub mod RbSafe
pub mod Tokens
pub mod Texts
pub mod Strtok
pub mod Words
pub mod Editor
pub mod Commands
pub mod Dispatch
pub mod Served
pub mod RbDelivers
mod Tests
mod CardTests
mod LineTests
mod RbTests
mod ShowTests
