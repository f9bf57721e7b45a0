-- ===== src/Examples/Nesting.antt =====
-- A run of reads and blocks on a buffer.
use mopa.Base.{
  IsBytes, ℕ, ◌≡◌, ◌≢◌, ◌⊎◌, refl, arith, List, [], ◌∷◌, none, ok, throw, bits_left, required_value,
}
use mopa.Io.BinaryIn
use mopa.Io.BinaryIn.{IbCtx}
use mopa.Io.Constants.{uint_req-bits_at}
use mopa.Io.Facade.{parsing, ib, uint_req}
use mopa.Io.Fetching.{moved}
use mopa.Io.Stream.{bits_at}
use mopa.Io.Nesting.{start, Reach, here, next, read8, begin, IsNested, Reach-IsNested, Reach-uint8}

abbrev four_bytes : List ℕ
four_bytes = 0x47 ∷ 0xa3 ∷ 0x0f ∷ 0x9c ∷ []

four_bytes-IsBytes : IsBytes four_bytes
four_bytes-IsBytes = (omega arith, (omega arith, (omega arith, (omega arith, tt))))

-- A byte is read, a block of two bytes is opened, and three bits of it are read.
abbrev in_block : IbCtx
in_block = record {
  bitpos = 11;
  bitlimit = 24;
  bytes = four_bytes;
  scope_stack = record { info = none; bitpos_at_enter = 8; bitlimit_at_enter = 32 } ∷ [];
}

in_block-Reach : Reach (start four_bytes 4) in_block
unfolding BinaryIn.uint8 BinaryIn.nocheck_uint8 BinaryIn.fetch BinaryIn.block_begin
in_block-Reach =
    next (next (next here (read8 8 (omega arith) refl)) (begin 2 none (omega arith) refl))
      (read8 3 (omega arith) refl)

Reach-IsNested_example : IsNested four_bytes in_block
Reach-IsNested_example = Reach-IsNested {size = 4} (omega arith) (omega arith) in_block-Reach

Reach-uint8_example :
    (BinaryIn.uint8 7 in_block ≡ throw bits_left)
    ⊎ (BinaryIn.uint8 7 in_block ≡ ok (bits_at four_bytes 11 7, moved in_block 7))
Reach-uint8_example =
    Reach-uint8 {size = 4} four_bytes-IsBytes (omega arith) (omega arith) in_block-Reach 7
      (omega arith) (omega arith)

uint_req-bits_at_example :
    ((bits_at four_bytes 11 5 ≡ 3)
      × (uint_req 5 3 none (parsing (ib in_block)) ≡ ok (tt, parsing (ib (moved in_block 5)))))
    ⊎ ((bits_at four_bytes 11 5 ≢ 3)
        × (uint_req 5 3 none (parsing (ib in_block)) ≡ throw required_value))
uint_req-bits_at_example =
    uint_req-bits_at in_block none 5 3 four_bytes-IsBytes (omega arith) (omega arith) (omega arith)
      (omega arith) (omega arith) (omega arith)
