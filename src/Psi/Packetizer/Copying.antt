-- ===== src/Psi/Packetizer/Copying.antt =====
-- The packets and copies of `sec2ts_impl`, and what a call returns.
use mopa.Base.{
  ℕ, ◌+◌, ◌<◌, ◌≤◌, ◌≡◌, ◌⊎◌, refl, sym, ◌∙◌, arith, List, [], ◌∷◌, ◌++◌, Bool, true, false, not,
  if◌then◌else◌, length, take, drop, set, get_or, length-append, length-take, length-drop,
  length-set, get_or-set_self, get_or-set_ne, overwrite, Outcome, ok, bit_or, ◌<<<◌, ◌>>>◌, le→leb,
  u8,
}
use mopa.Psi.Packetizer.{Packetizer, Packets, fix_header, copy, producing}

-- A packet has 188 bytes, the first of them the sync byte.
pub record IsPacket (p : List ℕ) : Type 0 where
  pub size : length p ≡ 188
  pub sync_byte : get_or p 0 0 ≡ 0x47

pub data AllPackets : Packets → Type 0 where
  none_left : AllPackets []
  one_more : {p : List ℕ} {ps : Packets} → IsPacket p → AllPackets ps → AllPackets (p ∷ ps)

-- Between calls there is no packet that is begun, or one that is not full, with its payload behind the
-- header and an adaptation field.
pub record IsValid {S : Type 0} (c : Packetizer S) : Type 0 where
  pub size : length c.packet ≡ 188
  pub begun :
      (c.payload_start ≡ 0)
      ⊎ ((4 ≤ c.payload_start) × (c.payload_start ≤ c.payload_end) × (c.payload_end < 188))

-- A call returns whole packets and a state like that, with a state of the callback that is as `P` says.
pub record ReturnsWith {S : Type 0} (P : S → Type 0) (r : Outcome (Packets × Packetizer S))
    : Type 0 where
  pub packets : Packets
  pub next : Packetizer S
  pub returned : r ≡ ok (packets, next)
  pub packets-AllPackets : AllPackets packets
  pub next-IsValid : IsValid next
  pub next_ctx : P next.adaptation_ctx

abbrev pub Returns : {S : Type 0} → Outcome (Packets × Packetizer S) → Type 0
Returns r = ReturnsWith (λ _. Unit {0}) r

pub length-overwrite :
    (bytes : List ℕ) (at : ℕ) (str : List ℕ)
    → at + length str ≤ length bytes
    → length (take at bytes ++ (str ++ drop (at + length str) bytes)) ≡ length bytes
length-overwrite bytes at str h = omega (
  arith,
  length-append (take at bytes) (str ++ drop (at + length str) bytes),
  length-append str (drop (at + length str) bytes),
  length-take at bytes,
  length-drop (at + length str) bytes,
)

pub cleared : (b : Bool) → not b ≡ true → b ≡ false
cleared true e = sym e
cleared false e = refl

module _ {S : Type 0} where
  pub fix_header-IsPacket :
      (start : Bool) (afc : ℕ) (c : Packetizer S)
      → length c.packet ≡ 188
      → IsPacket (fix_header start afc c).packet
  unfolding fix_header
  fix_header-IsPacket start afc c h =
      let p0 = set c.packet 0 0x47 in
      let b1 = u8 (bit_or ((if start then 1 else 0) <<< 6) (c.pid >>> 8)) in
      let b2 = u8 c.pid in
      let b3 = u8 (bit_or (afc <<< 4) c.cc) in
      let p1 = set p0 1 b1 in
      let p2 = set p1 2 b2 in
      record {
        size =
            length-set p2 3 b3
            ∙ length-set p1 2 b2
            ∙ length-set p0 1 b1
            ∙ length-set c.packet 0 0x47
            ∙ h;
        sync_byte =
            get_or-set_ne p2 3 0 b3 0 (λ e. omega arith)
            ∙ get_or-set_ne p1 2 0 b2 0 (λ e. omega arith)
            ∙ get_or-set_ne p0 1 0 b1 0 (λ e. omega arith)
            ∙ get_or-set_self c.packet 0 0x47 0 (omega arith);
      }

  -- The copy of bytes that fit.
  unfoldable pub copied : List ℕ → Packetizer S → Packetizer S
  copied bytes c = record c {
    packet = take c.payload_end c.packet ++ (bytes ++ drop (c.payload_end + length bytes) c.packet);
  }

  pub copy_fits :
      (bytes : List ℕ) (c : Packetizer S)
      → c.payload_end + length bytes ≤ length c.packet
      → copy bytes c ≡ ok (tt, copied bytes c)
  unfolding copy overwrite copied
  copy_fits bytes c h = rw (le→leb (c.payload_end + length bytes) (length c.packet) h)

  pub ReturnsWith-producing :
      {P : S → Type 0} (p : List ℕ) (r : Outcome (Packets × Packetizer S))
      → IsPacket p
      → ReturnsWith P r
      → ReturnsWith P (producing p r)
  ReturnsWith-producing p r one ret = record {
    packets = p ∷ ret.packets;
    next = ret.next;
    returned = rw ret.returned;
    packets-AllPackets = one_more one ret.packets-AllPackets;
    next-IsValid = ret.next-IsValid;
    next_ctx = ret.next_ctx;
  }
