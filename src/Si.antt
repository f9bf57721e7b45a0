-- ===== src/Si.antt =====
-- The structures of DVB service information: descriptors and the network information table.
pub mod Descriptors
pub mod Coding
pub mod Nit
pub mod Ownership
