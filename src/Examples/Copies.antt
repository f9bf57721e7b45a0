-- ===== src/Examples/Copies.antt =====
-- A `memcpy` for runs of the section extractor: regions that overlap in part become zeros.
use mopa.Base.{
  ℕ, ◌≤◌, ◌≡◌, refl, List, length, leb, ◌==◌, if◌then◌else◌, replicate, if_elim, le→leb,
}
use mopa.Psi.Extractor.{Memcpy}
use mopa.Psi.Transport.Layout.{length-replicate}
use mopa.Psi.Transport.Lengths.{CopiesInPlace}

abbrev pub copied : ℕ → List ℕ → List ℕ
copied offset bytes =
    if offset == 0
    then bytes
    else if leb (length bytes) offset
    then bytes
    else replicate (length bytes) 0

pub length-copied : (offset : ℕ) (bytes : List ℕ) → length (copied offset bytes) ≡ length bytes
length-copied offset bytes =
    if_elim (λ x. length x ≡ length bytes) (offset == 0) _ _ (λ _. refl)
      λ _.
        if_elim (λ x. length x ≡ length bytes) (leb (length bytes) offset) _ _ (λ _. refl)
          (λ _. length-replicate (length bytes) 0)

pub copied_apart :
    (offset : ℕ) (bytes : List ℕ) → length bytes ≤ offset → copied offset bytes ≡ bytes
copied_apart offset bytes apart =
    if_elim (λ x. x ≡ bytes) (offset == 0) _ _ (λ _. refl)
      (λ _. rw (le→leb (length bytes) offset apart) refl)

instance abbrev pub zeroing : Memcpy
zeroing = record { front = copied; length-front = length-copied; front_apart = copied_apart }

instance abbrev pub zeroing_in_place : CopiesInPlace
zeroing_in_place = record { front_same = λ bytes. refl }
