-- ===== src/Examples.antt =====
-- Runs on concrete inputs: the theorems of the other files at buffers, packets and sections.
pub mod Copies
pub mod Sections
pub mod Nesting
pub mod Ownership
pub mod Streams
pub mod Texts
pub mod Tables
pub mod Transport
use mopa.Base.{
  IsBytes, ℕ, ◌+◌, ◌-◌, ◌*◌, ◌/◌, ◌%◌, ◌^◌, ◌<◌, ◌↔◌, ◌≤◌, ◌≡◌, refl, arith, List, [], ◌∷◌, ◌++◌,
  length, Bool, true, false, get_or, Outcome, ok, throw, fault, bits_left, replicate, bit_xor,
  ◌<<<◌,
}
use mopa.Crc.{crc_table, crc_step, dvb_crc32}
use mopa.Crc.Laws.{be32, divide_bits, dvb_crc32_residue, table-divide_bits}
use mopa.Crc.Serial.{divide, crc_step-divide_bits, dvb_crc32-divide}
use mopa.Io.Throwing.{throws_past_limit}
use mopa.Io.BinaryIn
use mopa.Io.BinaryIn.{IbCtx}
use mopa.Io.BinaryOut
use mopa.Io.BinaryOut.{ObCtx}
use mopa.Io.Patches.{Patched}
use mopa.Io.Reading.{uint8-bits_at, uint16-bits_at, uint32-bits_at, uint32_overread}
use mopa.Io.Fetching.{moved}
use mopa.Io.Stream.{bits_at}
use mopa.Io.Writing.{uint8-Patched, uint16-Patched, uint32-Patched}
use mopa.Io.Memory.{written}

abbrev bytes : List ℕ
bytes = 0x47 ∷ 0xa3 ∷ 0x0f ∷ 0x9c ∷ 0x55 ∷ 0xff ∷ []

bytes-IsBytes : IsBytes bytes
bytes-IsBytes =
    (omega arith, (omega arith, (omega arith, (omega arith, (omega arith, (omega arith, tt))))))

abbrev reader : IbCtx
reader = record { bitpos = 3; bitlimit = 48; bytes = bytes; scope_stack = [] }

abbrev writer : ObCtx
writer = record { bitpos = 11; bitlimit = 48; bytes = bytes; scope_stack = [] }

dvb_crc32_residue_example : dvb_crc32 (bytes ++ be32 (dvb_crc32 bytes)) ≡ 0
dvb_crc32_residue_example = dvb_crc32_residue bytes

dvb_crc32-divide_example : dvb_crc32 bytes ≡ divide 0xffffffff bytes
dvb_crc32-divide_example = dvb_crc32-divide bytes bytes-IsBytes

crc_step-divide_bits_example :
    crc_step 0x12345678 0x9a ≡ divide_bits 8 (bit_xor 0x12345678 (0x9a <<< 24))
crc_step-divide_bits_example = crc_step-divide_bits 0x12345678 0x9a (omega arith) (omega arith)

table-divide_bits_example : get_or crc_table 200 0 ≡ divide_bits 8 (200 <<< 24)
table-divide_bits_example = table-divide_bits 200 (omega arith)

uint32-bits_at_example : BinaryIn.uint32 25 reader ≡ ok (bits_at bytes 3 25, moved reader 25)
uint32-bits_at_example =
    uint32-bits_at reader bytes-IsBytes 25 (omega arith) (omega arith) (omega arith) (omega arith)
      (omega arith)

uint16-bits_at_example : BinaryIn.uint16 15 reader ≡ ok (bits_at bytes 3 15, moved reader 15)
uint16-bits_at_example =
    uint16-bits_at reader bytes-IsBytes 15 (omega arith) (omega arith) (omega arith) (omega arith)
      (omega arith)

uint8-bits_at_example : BinaryIn.uint8 7 reader ≡ ok (bits_at bytes 3 7, moved reader 7)
uint8-bits_at_example =
    uint8-bits_at reader bytes-IsBytes 7 (omega arith) (omega arith) (omega arith) (omega arith)
      (omega arith)

uint32_overread_example : BinaryIn.uint32 8 (record reader { bitpos = 32 }) ≡ fault
uint32_overread_example =
    uint32_overread (record reader { bitpos = 32 }) 8 (omega arith) (omega arith) (omega arith)
      (omega arith) (omega arith)

uint32-Patched_example :
    (after : List ℕ) × (BinaryOut.uint32 20 0xabcde writer ≡ ok (tt, written writer 20 after))
    × Patched bytes after 11 20 0xabcde
uint32-Patched_example =
    uint32-Patched writer bytes-IsBytes 20 0xabcde (omega arith) (omega arith) (omega arith)
      (omega arith) (omega arith) (omega arith)

uint16-Patched_example :
    (after : List ℕ) × (BinaryOut.uint16 14 0x2bcd writer ≡ ok (tt, written writer 14 after))
    × Patched bytes after 11 14 0x2bcd
uint16-Patched_example =
    uint16-Patched writer bytes-IsBytes 14 0x2bcd (omega arith) (omega arith) (omega arith)
      (omega arith) (omega arith) (omega arith)

uint8-Patched_example :
    (after : List ℕ) × (BinaryOut.uint8 6 0x2b writer ≡ ok (tt, written writer 6 after))
    × Patched bytes after 11 6 0x2b
uint8-Patched_example =
    uint8-Patched writer bytes-IsBytes 6 0x2b (omega arith) (omega arith) (omega arith)
      (omega arith) (omega arith) (omega arith)

throws_past_limit_example :
    ((BinaryIn.uint8 46 reader ≡ throw bits_left) ↔ (reader.bitlimit < reader.bitpos + 46))
    × ((BinaryIn.uint16 46 reader ≡ throw bits_left) ↔ (reader.bitlimit < reader.bitpos + 46))
    × ((BinaryIn.uint32 46 reader ≡ throw bits_left) ↔ (reader.bitlimit < reader.bitpos + 46))
throws_past_limit_example = throws_past_limit reader 46 (omega arith)
