-- ===== src/Crc/Serial.antt =====
-- `dvb_crc32` beside the bit-by-bit division.
use mopa.Base.{
  IsBytes, ℕ, zero, suc, ◌+◌, ◌*◌, ◌/◌, ◌%◌, ◌^◌, ◌<◌, ◌≡◌, refl, List, [], ◌∷◌, arith, leb,
  if◌then◌else◌, get_or, bit_and, ◌∙◌, bit_xor, u32, ◌<<<◌, ◌>>>◌, sym, ap, ap₂, ◌≡⟨◌⟩◌, ◌∎,
}
use mopa.Bits.{bit_xor-zero, bit_xor-lt, and_mask, bit_xor_comm, bit_xor_assoc, xor_parts}
use mopa.Crc.{crc_table, crc_step, crc_loop, dvb_crc32}
use mopa.Crc.Laws.{divide_bit, divide_bits, table-divide_bits, crc_step-lt}

-- The four operands of an exclusive or change places.
xor_interchange :
    (a b c d : ℕ)
    → a < 2 ^ 32
    → b < 2 ^ 32
    → c < 2 ^ 32
    → d < 2 ^ 32
    → bit_xor (bit_xor a b) (bit_xor c d) ≡ bit_xor (bit_xor a c) (bit_xor b d)
xor_interchange a b c d ha hb hc hd = cc (
  bit_xor_assoc 32 a b (bit_xor c d) ha hb (bit_xor-lt 32 c d hc hd),
  bit_xor_assoc 32 b c d hb hc hd,
  bit_xor_assoc 32 c b d hc hb hd,
  bit_xor_comm 32 b c hb hc,
  bit_xor_assoc 32 a c (bit_xor b d) ha hc (bit_xor-lt 32 b d hb hd),
)

abbrev poly_of : ℕ → ℕ
poly_of t = if leb 1 t then 0x04c11db7 else 0

poly_of-lt : (t : ℕ) → poly_of t < 2 ^ 32
poly_of-lt t = ground arith

poly_of-xor : (s t : ℕ) → s < 2 → t < 2 → poly_of (bit_xor s t) ≡ bit_xor (poly_of s) (poly_of t)
poly_of-xor zero zero p q = refl
poly_of-xor zero (suc zero) p q = refl
poly_of-xor (suc zero) zero p q = refl
poly_of-xor (suc zero) (suc zero) p q = refl
poly_of-xor zero (suc (suc t)) p q = absurd (omega arith)
poly_of-xor (suc zero) (suc (suc t)) p q = absurd (omega arith)
poly_of-xor (suc (suc s)) t p q = absurd (omega arith)

-- A word is its top bit and the 31 bits below.
divide_bit_parts :
    (t l : ℕ) → t < 2 → l < 2 ^ 31 → divide_bit (t * 2 ^ 31 + l) ≡ bit_xor (2 * l) (poly_of t)
divide_bit_parts t l ht hl = ground arith

double_xor : (a b : ℕ) → bit_xor (2 * a) (2 * b) ≡ 2 * bit_xor a b
double_xor a b = ground (arith, xor_parts 1 a 0 b 0)

cut_at_top : (x : ℕ) → x / 2 ^ 31 * 2 ^ 31 + x % 2 ^ 31 ≡ x
cut_at_top x = omega arith

split_xor :
    (a b : ℕ)
    → bit_xor a b ≡ bit_xor (a / 2 ^ 31) (b / 2 ^ 31) * 2 ^ 31 + bit_xor (a % 2 ^ 31) (b % 2 ^ 31)
split_xor a b =
    ap₂ bit_xor (sym (cut_at_top a)) (sym (cut_at_top b))
    ∙ xor_parts 31 (a / 2 ^ 31) (a % 2 ^ 31) (b / 2 ^ 31) (b % 2 ^ 31) (omega arith) (omega arith)

divide_bit-xor :
    (a b : ℕ)
    → a < 2 ^ 32
    → b < 2 ^ 32
    → divide_bit (bit_xor a b) ≡ bit_xor (divide_bit a) (divide_bit b)
divide_bit-xor a b ha hb =
    divide_bit (bit_xor a b)
    ≡⟨ ap divide_bit (split_xor a b) ⟩ divide_bit (bit_xor ta tb * 2 ^ 31 + bit_xor la lb)
    ≡⟨ divide_bit_parts (bit_xor ta tb) (bit_xor la lb)
        (bit_xor-lt 1 ta tb (omega arith) (omega arith))
        (bit_xor-lt 31 la lb (omega arith) (omega arith)) ⟩
      bit_xor (2 * bit_xor la lb) (poly_of (bit_xor ta tb))
    ≡⟨ ap₂ bit_xor (sym (double_xor la lb)) (poly_of-xor ta tb (omega arith) (omega arith)) ⟩
      bit_xor (bit_xor (2 * la) (2 * lb)) (bit_xor (poly_of ta) (poly_of tb))
    ≡⟨ xor_interchange (2 * la) (2 * lb) (poly_of ta) (poly_of tb) (omega arith) (omega arith)
        (poly_of-lt ta) (poly_of-lt tb) ⟩
      bit_xor (bit_xor (2 * la) (poly_of ta)) (bit_xor (2 * lb) (poly_of tb))
    ≡⟨ ap₂ bit_xor (whole a ha) (whole b hb) ⟩ bit_xor (divide_bit a) (divide_bit b) ∎
  where
    ta : ℕ
    ta = a / 2 ^ 31

    tb : ℕ
    tb = b / 2 ^ 31

    la : ℕ
    la = a % 2 ^ 31

    lb : ℕ
    lb = b % 2 ^ 31

    whole : (x : ℕ) → x < 2 ^ 32 → bit_xor (2 * (x % 2 ^ 31)) (poly_of (x / 2 ^ 31)) ≡ divide_bit x
    whole x hx =
        sym (divide_bit_parts (x / 2 ^ 31) (x % 2 ^ 31) (omega arith) (omega arith))
        ∙ ap divide_bit (cut_at_top x)

divide_bit-lt : (a : ℕ) → divide_bit a < 2 ^ 32
divide_bit-lt a =
    bit_xor-lt 32 (u32 (a <<< 1)) (if leb (2 ^ 31) a then 0x04c11db7 else 0) (omega arith)
      (ground arith)

divide_bits-xor :
    (n a b : ℕ)
    → a < 2 ^ 32
    → b < 2 ^ 32
    → divide_bits n (bit_xor a b) ≡ bit_xor (divide_bits n a) (divide_bits n b)
divide_bits-xor zero a b ha hb = refl
divide_bits-xor (suc n) a b ha hb =
    rw (divide_bit-xor a b ha hb)
      (divide_bits-xor n (divide_bit a) (divide_bit b) (divide_bit-lt a) (divide_bit-lt b))

divide_bit_low : (l : ℕ) → l < 2 ^ 31 → divide_bit l ≡ l * 2
divide_bit_low l h = ground (arith, bit_xor-zero (u32 (l <<< 1)))

divide_bits_low : (l : ℕ) → l < 2 ^ 24 → divide_bits 8 l ≡ l * 2 ^ 8
divide_bits_low l h =
    rw
      (
        divide_bit_low (l) (omega arith),
        divide_bit_low (l * 2) (omega arith),
        divide_bit_low (l * 2 * 2) (omega arith),
        divide_bit_low (l * 2 * 2 * 2) (omega arith),
        divide_bit_low (l * 2 * 2 * 2 * 2) (omega arith),
        divide_bit_low (l * 2 * 2 * 2 * 2 * 2) (omega arith),
        divide_bit_low (l * 2 * 2 * 2 * 2 * 2 * 2) (omega arith),
        divide_bit_low (l * 2 * 2 * 2 * 2 * 2 * 2 * 2) (omega arith),
      )
      (omega arith)

-- A step on a word and a byte is eight bits of the division, after the byte is added to the top of
-- the word.
pub crc_step-divide_bits :
    (crc byte : ℕ)
    → crc < 2 ^ 32
    → byte < 2 ^ 8
    → crc_step crc byte ≡ divide_bits 8 (bit_xor crc (byte <<< 24))
unfolding crc_step
crc_step-divide_bits crc byte h hb =
    bit_xor (u32 (crc <<< 8)) (get_or crc_table (bit_and (bit_xor hi byte) 0xff) 0)
    ≡⟨ ap₂ bit_xor shifted entry ⟩ bit_xor (divide_bits 8 lo) (divide_bits 8 (x <<< 24))
    ≡⟨ sym (divide_bits-xor 8 lo (x <<< 24) (omega arith) (omega (arith, x_fits))) ⟩
      divide_bits 8 (bit_xor lo (x <<< 24))
    ≡⟨ ap (divide_bits 8) joined ⟩ divide_bits 8 (bit_xor crc (byte <<< 24)) ∎
  where
    hi : ℕ
    hi = crc >>> 24

    lo : ℕ
    lo = crc % 2 ^ 24

    x : ℕ
    x = bit_xor hi byte

    x_fits : x < 2 ^ 8
    x_fits = bit_xor-lt 8 hi byte (omega arith) hb

    shifted : u32 (crc <<< 8) ≡ divide_bits 8 lo
    shifted = omega (arith, divide_bits_low lo (omega arith))

    entry : get_or crc_table (bit_and x 0xff) 0 ≡ divide_bits 8 (x <<< 24)
    entry =
        ap (λ (i : ℕ). get_or crc_table i 0) {x = bit_and x 0xff} {y = x}
          (omega (arith, and_mask 8 x, x_fits))
        ∙ table-divide_bits x x_fits

    joined : bit_xor lo (x <<< 24) ≡ bit_xor crc (byte <<< 24)
    joined = ground (
      arith,
      x_fits,
      bit_xor_comm 32 lo (x <<< 24),
      bit_xor_comm 24 0 lo,
      xor_parts 24 x 0 0 lo,
      xor_parts 24 hi lo byte 0,
      bit_xor-zero x,
      bit_xor-zero lo,
    )

-- The bit-by-bit division of a whole message.
abbrev pub divide : ℕ → List ℕ → ℕ
divide w [] = w
divide w (byte ∷ bytes) = divide (divide_bits 8 (bit_xor w (byte <<< 24))) bytes

crc_loop-divide :
    (w : ℕ) (bytes : List ℕ) → w < 2 ^ 32 → IsBytes bytes → crc_loop w bytes ≡ divide w bytes
unfolding crc_loop
crc_loop-divide w [] h ok = refl
crc_loop-divide w (b ∷ bs) h ok =
    crc_loop-divide (crc_step w b) bs (crc_step-lt w b) ok.1
    ∙ ap (λ v. divide v bs) (crc_step-divide_bits w b h ok.0)

-- On bytes, `dvb_crc32` is the bit-by-bit division by the polynomial, started from all ones.
pub dvb_crc32-divide : (bytes : List ℕ) → IsBytes bytes → dvb_crc32 bytes ≡ divide 0xffffffff bytes
unfolding dvb_crc32
dvb_crc32-divide bytes ok = crc_loop-divide 0xffffffff bytes (omega arith) ok
