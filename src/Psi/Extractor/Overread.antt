-- ===== src/Psi/Extractor/Overread.antt =====
-- The pointer field of a packet that has no payload.
use mopa.Base.{
  ℕ, zero, suc, ◌+◌, ◌/◌, ◌^◌, ◌<◌, ◌≤◌, ◌≡◌, refl, arith, List, [], ◌∷◌, true, length, drop,
  get_or, ◌==◌, ◌||◌, fault, le→ltb,
}
use mopa.Bits.{and_mask}
use mopa.Psi.Extractor.{
  wait_start, Extractor, Memcpy, skip_pointer, skip_adaptation, ts_packet, pusi_of, afc_of, cc_of,
}

drop_all : (n : ℕ) (xs : List ℕ) → length xs ≡ n → drop n xs ≡ []
drop_all zero [] h = refl
drop_all zero (x ∷ xs) h = absurd (omega arith)
drop_all (suc n) [] h = refl
drop_all (suc n) (x ∷ xs) h = drop_all n xs (omega arith)

skip_pointer_empty :
    ⦃m : Memcpy⦄ (c : Extractor) → c.state ≡ wait_start → skip_pointer true [] c ≡ fault
unfolding skip_pointer
skip_pointer_empty c start = rw start

has_adaptation : (a : ℕ) → a < 4 → 2 ≤ a → ((a == 2) || (a == 3)) ≡ true
has_adaptation a bound h = ground arith

skip_adaptation_full :
    ⦃m : Memcpy⦄ (payload : List ℕ) (c : Extractor)
    → length payload ≡ 184
    → get_or payload 0 0 ≡ 183
    → c.state ≡ wait_start
    → skip_adaptation true true payload c ≡ fault
unfolding skip_adaptation
skip_adaptation_full [] c len full start = absurd (omega arith)
skip_adaptation_full (p ∷ payload) c len full start = rw (
  full,
  le→ltb (length (183 ∷ payload)) (1 + 183) (omega arith),
  drop_all 183 payload (omega arith),
  skip_pointer_empty c start,
)

-- When a packet starts a section, no section is open and the adaptation field takes all 184 bytes
-- behind the header, the pointer field is read behind the packet.
pub ts_packet_overread :
    ⦃m : Memcpy⦄ (h0 h1 h2 h3 : ℕ) (payload : List ℕ) (c : Extractor)
    → length payload ≡ 184
    → pusi_of (h0 ∷ h1 ∷ h2 ∷ h3 ∷ []) ≡ true
    → 2 ≤ afc_of (h0 ∷ h1 ∷ h2 ∷ h3 ∷ [])
    → get_or payload 0 0 ≡ 183
    → c.state ≡ wait_start
    → ts_packet (h0 ∷ h1 ∷ h2 ∷ h3 ∷ payload) c ≡ fault
unfolding ts_packet
ts_packet_overread h0 h1 h2 h3 payload c len pusi afc full start =
    rw
      (
        start,
        pusi,
        has_adaptation (afc_of (h0 ∷ h1 ∷ h2 ∷ h3 ∷ [])) (omega (arith, and_mask 2 (h3 / 2 ^ 4)))
            afc,
      )
      (skip_adaptation_full payload
        (record c { content = []; cc = cc_of (h0 ∷ h1 ∷ h2 ∷ h3 ∷ []); state = wait_start }) len
        full refl)
