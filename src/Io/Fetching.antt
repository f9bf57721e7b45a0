-- ===== src/Io/Fetching.antt =====
-- The bytes that `ibCtx` fetches, and a field of the word made of them.
use mopa.Base.{
  IsBytes, ℕ, ◌+◌, ◌-◌, ◌*◌, ◌/◌, ◌%◌, ◌^◌, ◌<◌, ◌≤◌, ◌≡◌, sym, ap, ◌∙◌, arith, List, length,
  get_or, get_elem?-eq-get_or, get_elem?-none, bit_and, u32, ok, fault,
}
use mopa.Bits.{and_mask}
use mopa.Bits.Fields.{shift_field, field-lt}
use native.Mathlib.Nat.{pow-le-pow_right}
use mopa.Io.Stream.{window, bits_at, bits_at-window}
use mopa.Io.BinaryIn
use mopa.Io.BinaryIn.{IbCtx}

-- The context after a read.
abbrev pub moved : IbCtx → ℕ → IbCtx
moved c bitsize = record c { bitpos = u32 (c.bitpos + bitsize) }

pub cut_pos : (p : ℕ) → 8 * (p / 8) + p % 8 ≡ p
cut_pos p = omega arith

-- The bits at a position, in a window that starts with its byte.
pub bits_in_window :
    (bytes : List ℕ) (pos n w s x : ℕ)
    → IsBytes bytes
    → pos / 8 + w ≤ length bytes
    → pos % 8 + n + s ≡ 8 * w
    → window (pos / 8) w bytes ≡ x
    → x / 2 ^ s % 2 ^ n ≡ bits_at bytes pos n
bits_in_window bytes pos n w s x valid fits e ex =
    ap (λ y. y / 2 ^ s % 2 ^ n) (sym ex)
    ∙ sym (bits_at-window bytes (pos / 8) (pos % 8) n w s valid fits e)
    ∙ ap (λ p. bits_at bytes p n) (cut_pos pos)

bits_at-lt : (bytes : List ℕ) (pos n : ℕ) → bits_at bytes pos n < 2 ^ n
unfolding bits_at
bits_at-lt bytes pos n = field-lt _ n _

-- `(x << o) >> (w - n)` within `w` bits.
pub shifted_out :
    (w o n x : ℕ) → o + n ≤ w → x * 2 ^ o % 2 ^ w / 2 ^ (w - n) ≡ x / 2 ^ (w - (o + n)) % 2 ^ n
shifted_out w o n x h = shift_field w (w - n) x o n (w - (o + n)) (omega arith) (omega arith)

pub fetch_inside :
    (c : IbCtx) (i : ℕ) → i < length c.bytes → BinaryIn.fetch i c ≡ ok (get_or c.bytes i 0, c)
unfolding BinaryIn.fetch
fetch_inside c i h = rw (get_elem?-eq-get_or c.bytes i 0 h, BinaryIn.fetch)

pub fetch_outside : (c : IbCtx) (i : ℕ) → length c.bytes ≤ i → BinaryIn.fetch i c ≡ fault
unfolding BinaryIn.fetch
fetch_outside c i h = rw (get_elem?-none c.bytes i h, BinaryIn.fetch)

-- The words that are read are unsigned, of 8, 16, 24 or 32 bits.
pub masked8 : (x d : ℕ) → bit_and x 0xff / d ≡ x % 2 ^ 8 / d
masked8 x d = ap (λ y. y / d) (and_mask 8 x)

pub masked16 : (x d : ℕ) → bit_and x 0xffff / d ≡ x % 2 ^ 16 / d
masked16 x d = ap (λ y. y / d) (and_mask 16 x)

pub masked24 : (x d : ℕ) → bit_and (u32 x) 0xffffff / d ≡ x % 2 ^ 24 / d
masked24 x d = ap (λ y. y / d) (and_mask 24 (u32 x) ∙ omega arith)

pub bits_at-lt_of_le : (bytes : List ℕ) (pos n w : ℕ) → n ≤ w → bits_at bytes pos n < 2 ^ w
bits_at-lt_of_le bytes pos n w h =
    omega (arith, bits_at-lt bytes pos n, pow-le-pow_right {n = 2} (omega arith) h)
