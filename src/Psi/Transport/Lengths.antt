-- ===== src/Psi/Transport/Lengths.antt =====
-- Sections long enough that `psi_extractor_impl::ts_packet` never copies one onto a part of itself.
use mopa.Base.{ℕ, ◌≤◌, ◌≡◌, arith, false, List, [], ◌∷◌, ◌++◌, length, length-append}
use mopa.Psi.Extractor.{Memcpy, Sections, is_stuffing, section_size}
use mopa.Psi.Extractor.Whole.{IsSection, AllSections, none_left, one_more, join}

-- A copy of bytes to where they are leaves them. The C standard does not say so; GCC expects it of
-- every `memcpy`, and its manual says so.
pub record CopiesInPlace ⦃m : Memcpy⦄ : Type 0 where
  pub front_same : (bytes : List ℕ) → m.front 0 bytes ≡ bytes

-- A section within the limit that has at least the 184 bytes of a packet behind its header.
pub record IsSent (limit : ℕ) (section : List ℕ) : Type 0 where
  pub table_id : is_stuffing section ≡ false
  pub complete : section_size section ≡ length section
  pub small : length section ≤ limit
  pub long : 184 ≤ length section

pub data AllSent (limit : ℕ) : Sections → Type 0 where
  none_sent : AllSent limit []
  one_sent :
      {s : List ℕ} {ss : Sections} → IsSent limit s → AllSent limit ss → AllSent limit (s ∷ ss)

pub IsSent-IsSection : {limit : ℕ} {s : List ℕ} → IsSent limit s → IsSection limit s
IsSent-IsSection one = record {
  table_id = one.table_id;
  complete = one.complete;
  small = one.small;
}

pub AllSent-AllSections : {limit : ℕ} {ss : Sections} → AllSent limit ss → AllSections limit ss
AllSent-AllSections none_sent = none_left
AllSent-AllSections (one_sent one all) = one_more (IsSent-IsSection one) (AllSent-AllSections all)

-- The part of a section that a packet ends with, behind other sections or with nothing in front.
pub part_copies :
    ⦃m : Memcpy⦄ ⦃p : CopiesInPlace⦄ {limit : ℕ} (pending : Sections) (t : List ℕ)
    → AllSent limit pending
    → length t ≤ 184
    → m.front (length (join pending)) t ≡ t
unfolding join
part_copies ⦃m⦄ ⦃p⦄ [] t all short = p.front_same t
part_copies ⦃m⦄ (s ∷ ss) t (one_sent one all) short =
    m.front_apart (length (s ++ join ss)) t (omega (arith, one.long, length-append s (join ss)))

pub alone_copies : ⦃m : Memcpy⦄ ⦃p : CopiesInPlace⦄ (t : List ℕ) → m.front (length (join [])) t ≡ t
unfolding join
alone_copies ⦃m⦄ ⦃p⦄ t = p.front_same t
