-- ===== src/Io.antt =====
-- src/io.cpp and inc/io.h: the contexts and the operations of the four modes.
pub mod Info
pub mod Stream
pub mod Words
pub mod BinaryIn
pub mod BinaryOut
pub mod TextIn
pub mod TextOut
pub mod Facade
pub mod Fetching
pub mod Reading
pub mod Throwing
pub mod Patches
pub mod Stores
pub mod Replacing
pub mod Memory
pub mod Writing
pub mod Coding
pub mod RoundTrip
pub mod Blocks
pub mod Nesting
pub mod Constants
pub mod Decimal
pub mod Limits
pub mod Exceptions
pub mod Lines
pub mod Ownership
pub mod Scanning
