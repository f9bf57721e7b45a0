-- ===== src/Common.antt =====
-- src/commontypes.cpp and inc/commontypes.h: strings, checksums and vectors in a stream.
pub mod Text
pub mod Quoting
pub mod Strings
pub mod Checksum
pub mod Vector
pub mod Items
pub mod Characters
