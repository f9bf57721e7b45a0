-- ===== src/Psi.antt =====
-- Sections and transport stream packets: the extractor (merger) and the packetizer (sec2ts).
pub mod Extractor
pub mod Packetizer
pub mod Transport
