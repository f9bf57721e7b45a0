-- ===== src/Psi/Transport.antt =====
-- The packetizer and the extractor as two ends of a transport stream: src/sec2ts.cpp, src/merger.cpp.
pub mod Lengths
pub mod Header
pub mod Reception
pub mod Arrival
pub mod Layout
pub mod Parts
pub mod Link
pub mod Copying
pub mod Rounds
pub mod Delivery
pub mod Pointing
pub mod Joining
pub mod RoundTrip
use mopa.Base.{ℕ, suc, List, [], ◌∷◌, ◌++◌, length, none, Outcome, ok, bind, M}
use mopa.Psi.Extractor.{Memcpy, Extractor, Sections, ts_packet}
use mopa.Psi.Packetizer.{Packetizer, Packets, section, flush}

-- Sections given to `sec2ts::section`, one after the other.
unfoldable pub send : {S : Type 0} → Sections → M (Packetizer S) Packets
send [] c = ok ([], c)
send (s ∷ ss) c =
    bind (section none (suc (length s)) s c)
      λ (packets, d). bind (send ss d) λ (more, e). ok (packets ++ more, e)

-- Packets given to `psi_extractor::ts_packet`, one after the other.
unfoldable pub receive : ⦃m : Memcpy⦄ → Packets → M Extractor Sections
receive [] c = ok ([], c)
receive (p ∷ ps) c =
    bind (ts_packet p c) λ (sections, d). bind (receive ps d) λ (more, e). ok (sections ++ more, e)

-- All sections, and the end of the packet that the last one leaves.
unfoldable pub transmit : {S : Type 0} → Sections → M (Packetizer S) Packets
transmit ss c =
    bind (send ss c) λ (packets, d). bind (flush none d) λ (last, e). ok (packets ++ last, e)

-- The sections that the other end hands to its callback.
unfoldable pub relay :
    ⦃m : Memcpy⦄ {S : Type 0} → Sections → Packetizer S → Extractor → Outcome Sections
relay ss c e =
    bind (transmit ss c) λ (packets, d). bind (receive packets e) λ (sections, f). ok sections
