-- ===== src/Psi/Transport/Header.antt =====
-- The header that `sec2ts_impl::fix_header` writes, as `psi_extractor_impl::ts_packet` reads it.
use mopa.Base.{
  ℕ, ◌+◌, ◌/◌, ◌^◌, ◌<◌, ◌≤◌, ◌≡◌, refl, arith, List, [], ◌∷◌, Bool, true, false, length, set, drop,
  if◌then◌else◌, u8, bit_or, ◌<<<◌, ◌>>>◌, ==_iff,
}
use mopa.Bits.{and_mask, or_shifted}
use mopa.Psi.Extractor.{pusi_of, afc_of, cc_of}
use mopa.Psi.Packetizer.{Packetizer, fix_header}

-- The second and the fourth byte.
abbrev pub flags_byte : Bool → ℕ → ℕ
flags_byte start pid = u8 (bit_or ((if start then 1 else 0) <<< 6) (pid >>> 8))

abbrev pub counter_byte : ℕ → ℕ → ℕ
counter_byte afc cc = u8 (bit_or (afc <<< 4) cc)

abbrev pub header : Bool → ℕ → ℕ → ℕ → List ℕ
header start afc pid cc = 0x47 ∷ flags_byte start pid ∷ u8 pid ∷ counter_byte afc cc ∷ []

set_four :
    (p : List ℕ) (a b c d : ℕ)
    → 4 ≤ length p
    → set (set (set (set p 0 a) 1 b) 2 c) 3 d ≡ a ∷ b ∷ c ∷ d ∷ drop 4 p
set_four [] a b c d h = absurd (omega arith)
set_four (p0 ∷ []) a b c d h = absurd (omega arith)
set_four (p0 ∷ p1 ∷ []) a b c d h = absurd (omega arith)
set_four (p0 ∷ p1 ∷ p2 ∷ []) a b c d h = absurd (omega arith)
set_four (p0 ∷ p1 ∷ p2 ∷ p3 ∷ ps) a b c d h = refl

pub fix_header_lem :
    {S : Type 0} (start : Bool) (afc : ℕ) (c : Packetizer S)
    → 4 ≤ length c.packet
    → (fix_header start afc c).packet
      ≡ 0x47 ∷ flags_byte start c.pid ∷ u8 c.pid ∷ counter_byte afc c.cc ∷ drop 4 c.packet
unfolding fix_header
fix_header_lem start afc c h = set_four c.packet _ _ _ _ h

flags_set : (pid : ℕ) → pid < 2 ^ 13 → flags_byte true pid ≡ 64 + pid / 2 ^ 8
flags_set pid h = omega (arith, or_shifted 6 1 (pid / 2 ^ 8))

flags_clear : (pid : ℕ) → pid < 2 ^ 13 → flags_byte false pid ≡ pid / 2 ^ 8
flags_clear pid h = omega (arith, or_shifted 6 0 (pid / 2 ^ 8))

counter_parts : (cc : ℕ) → cc < 16 → counter_byte 1 cc ≡ 16 + cc
counter_parts cc h = omega (arith, or_shifted 4 1 cc)

module _ (start : Bool) (pid cc : ℕ) (pid_fits : pid < 2 ^ 13) (cc_fits : cc < 16) where
  pub cc_of-header : cc_of (header start 1 pid cc) ≡ cc
  cc_of-header = omega (arith, counter_parts cc cc_fits, and_mask 4 (counter_byte 1 cc))

  pub afc_of-header : afc_of (header start 1 pid cc) ≡ 1
  afc_of-header = omega (arith, counter_parts cc cc_fits, and_mask 2 (counter_byte 1 cc / 2 ^ 4))

pub pusi_of-header :
    (start : Bool) (pid cc : ℕ) → pid < 2 ^ 13 → pusi_of (header start 1 pid cc) ≡ start
pusi_of-header true pid cc h =
    (==_iff _ 1).1 (omega (arith, flags_set pid h, and_mask 1 (flags_byte true pid / 2 ^ 6)))
pusi_of-header false pid cc h =
    ground (arith, flags_clear pid h, and_mask 1 (flags_byte false pid / 2 ^ 6))
