-- ===== src/Crc/Laws.antt =====
-- The checksum as polynomial division.
use mopa.Base.{
  ℕ, zero, suc, ◌^◌, ◌<◌, ◌≡◌, refl, List, [], ◌∷◌, ◌++◌, arith, Bool, true, ◌&&◌, ◌==◌, ==_iff,
  leb, if◌then◌else◌, get_or, bit_and, ◌∙◌, bit_xor, u32, u8, ◌<<<◌, ◌>>>◌,
}
use mopa.Bits.{bit_xor-zero, bit_xor_self, bit_xor-lt, and_mask}
use mopa.Crc.{crc_table, crc_step, crc_loop, dvb_crc32}

-- The four bytes of a word, the most significant first.
abbrev pub be32 : ℕ → List ℕ
be32 w = (w >>> 24) ∷ u8 (w >>> 16) ∷ u8 (w >>> 8) ∷ u8 w ∷ []

crc_loop-append :
    (crc : ℕ) (xs ys : List ℕ) → crc_loop crc (xs ++ ys) ≡ crc_loop (crc_loop crc xs) ys
unfolding crc_loop
crc_loop-append crc [] ys = refl
crc_loop-append crc (x ∷ xs) ys = crc_loop-append (crc_step crc x) xs ys

-- A byte equal to the top byte of the state shifts it out.
crc_step_top : (crc b : ℕ) → crc >>> 24 ≡ b → crc_step crc b ≡ u32 (crc <<< 8)
unfolding crc_step
crc_step_top crc b e = ground (arith, bit_xor_self b, bit_xor-zero (u32 (crc <<< 8)))

-- Feeding a state its own four bytes shifts all of it out.
crc_loop-be32 : (w : ℕ) → w < 2 ^ 32 → crc_loop w (be32 w) ≡ 0
unfolding crc_loop
crc_loop-be32 w h =
    rw
      (
        crc_step_top w (w >>> 24) refl,
        crc_step_top (u32 (w <<< 8)) (u8 (w >>> 16)) (omega arith),
        crc_step_top (u32 (u32 (w <<< 8) <<< 8)) (u8 (w >>> 8)) (omega arith),
        crc_step_top (u32 (u32 (u32 (w <<< 8) <<< 8) <<< 8)) (u8 w) (omega arith),
      )
      (omega arith)

-- A test that holds of all numbers less than `n`.
all_below : ℕ → (ℕ → Bool) → Bool
all_below zero test = true
all_below (suc n) test = all_below n test && test n

all_below_lem : (n : ℕ) (test : ℕ → Bool) (i : ℕ) → all_below n test ≡ true → i < n → test i ≡ true
unfolding all_below
all_below_lem zero test i h lt = absurd (omega arith)
all_below_lem (suc n) test i h lt = ground (arith, all_below_lem n test i)

entries_fit : all_below 256 (λ i. leb (get_or crc_table i 0) 0xffffffff) ≡ true
unfolding all_below
entries_fit = refl

entry-lt : (i : ℕ) → i < 256 → get_or crc_table i 0 < 2 ^ 32
entry-lt i h =
    ground
      (arith, all_below_lem 256 (λ (j : ℕ). leb (get_or crc_table j 0) 0xffffffff) i entries_fit h)

pub crc_step-lt : (crc b : ℕ) → crc_step crc b < 2 ^ 32
unfolding crc_step
crc_step-lt crc b = bit_xor-lt 32 (u32 (crc <<< 8)) _ (omega arith) (
    entry-lt (bit_and (bit_xor (crc >>> 24) b) 0xff)
      (omega (arith, and_mask 8 (bit_xor (crc >>> 24) b))))

crc_loop-lt : (crc : ℕ) (xs : List ℕ) → crc < 2 ^ 32 → crc_loop crc xs < 2 ^ 32
unfolding crc_loop
crc_loop-lt crc [] h = h
crc_loop-lt crc (x ∷ xs) h = crc_loop-lt (crc_step crc x) xs (crc_step-lt crc x)

pub dvb_crc32-lt : (xs : List ℕ) → dvb_crc32 xs < 2 ^ 32
unfolding dvb_crc32
dvb_crc32-lt xs = crc_loop-lt 0xffffffff xs (omega arith)

-- A section followed by the four bytes of its own checksum has checksum zero.
pub dvb_crc32_residue : (section : List ℕ) → dvb_crc32 (section ++ be32 (dvb_crc32 section)) ≡ 0
unfolding dvb_crc32
dvb_crc32_residue section =
    crc_loop-append 0xffffffff section (be32 (crc_loop 0xffffffff section))
    ∙ crc_loop-be32 (crc_loop 0xffffffff section) (crc_loop-lt 0xffffffff section (omega arith))

-- One bit of the division by x^32 + x^26 + x^23 + x^22 + x^16 + x^12 + x^11 + x^10 + x^8 + x^7 + x^5
-- + x^4 + x^2 + x + 1, the most significant bit first.
abbrev pub divide_bit : ℕ → ℕ
divide_bit w = bit_xor (u32 (w <<< 1)) (if leb (2 ^ 31) w then 0x04c11db7 else 0)

abbrev pub divide_bits : ℕ → ℕ → ℕ
divide_bits zero w = w
divide_bits (suc n) w = divide_bits n (divide_bit w)

table_checks : all_below 256 (λ i. get_or crc_table i 0 == divide_bits 8 (i <<< 24)) ≡ true
unfolding all_below
table_checks = refl

-- Each of the 256 entries is eight bits of the division of its index by the polynomial.
pub table-divide_bits : (i : ℕ) → i < 256 → get_or crc_table i 0 ≡ divide_bits 8 (i <<< 24)
table-divide_bits i h =
    (==_iff _ _).0
      (all_below_lem 256 (λ j. get_or crc_table j 0 == divide_bits 8 (j <<< 24)) i table_checks h)
