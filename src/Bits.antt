-- ===== src/Bits.antt =====
-- Laws of `&`, `|` and `^` on unsigned words, at every width.
pub mod Fields
mod Steps
pub use Steps.{mul-two-pow-suc}
use native.Mathlib.Nat.{pow-suc, one-le-pow, pow-le-pow_right, div-add-mod', mod-lt}
use Prim.Native.Nat.{min, max, differ}
use Steps.{HasStep, bit_and-HasStep, bit_or-HasStep, bit_xor-HasStep, op_parts}
use mopa.Base.{
  ℕ, zero, suc, ◌+◌, ◌-◌, ◌*◌, ◌/◌, ◌%◌, ◌^◌, ◌≤◌, ◌<◌, bit_and, bit_or, bit_xor, ◌≡◌, refl, ap,
  arith,
}

-- A number is below a power of two, so an induction on the exponent reaches every number.
lt-two-pow : (a : ℕ) → a < 2 ^ a
lt-two-pow zero = omega arith
lt-two-pow (suc a) = omega (arith, pow-suc 2 a, lt-two-pow a)

and_zero_fits : (k a : ℕ) → a < 2 ^ k → bit_and a 0 ≡ 0
and_zero_fits zero a h = let e : a ≡ 0 = omega arith in ground arith
and_zero_fits (suc k) a h =
    omega (
      arith,
      pow-suc 2 k,
      bit_and-HasStep a 0,
      and_zero_fits k (a / 2) (omega (arith, pow-suc 2 k)),
    )

pub bit_and-zero : (a : ℕ) → bit_and a 0 ≡ 0
bit_and-zero a = and_zero_fits a a (lt-two-pow a)

or_zero_fits : (k a : ℕ) → a < 2 ^ k → bit_or a 0 ≡ a
or_zero_fits zero a h = let e : a ≡ 0 = omega arith in ground arith
or_zero_fits (suc k) a h =
    omega (arith, bit_or-HasStep a 0, or_zero_fits k (a / 2) (omega (arith, pow-suc 2 k)))

pub bit_or-zero : (a : ℕ) → bit_or a 0 ≡ a
bit_or-zero a = or_zero_fits a a (lt-two-pow a)

or_zero_left_fits : (k a : ℕ) → a < 2 ^ k → bit_or 0 a ≡ a
or_zero_left_fits zero a h = let e : a ≡ 0 = omega arith in ground arith
or_zero_left_fits (suc k) a h =
    omega (arith, bit_or-HasStep 0 a, or_zero_left_fits k (a / 2) (omega (arith, pow-suc 2 k)))

pub bit_or-zero_left : (a : ℕ) → bit_or 0 a ≡ a
bit_or-zero_left a = or_zero_left_fits a a (lt-two-pow a)

and_ones_fits : (k a : ℕ) → a < 2 ^ k → bit_and a (2 ^ k - 1) ≡ a
and_ones_fits zero a h = let e : a ≡ 0 = omega arith in ground arith
and_ones_fits (suc k) a h = ground (
  arith,
  bit_and-HasStep a (2 ^ suc k - 1),
  pow-suc 2 k,
  and_ones_fits k (a / 2) (omega (arith, pow-suc 2 k)),
)

-- `a & mask` keeps a number that fits the mask.
pub bit_and-ones : (k a : ℕ) → a < 2 ^ k → bit_and a (2 ^ k - 1) ≡ a
bit_and-ones = and_ones_fits

pub and_parts :
    (k q r m s : ℕ)
    → r < 2 ^ k
    → s < 2 ^ k
    → bit_and (q * 2 ^ k + r) (m * 2 ^ k + s) ≡ bit_and q m * 2 ^ k + bit_and r s
and_parts = op_parts bit_and min bit_and-HasStep refl

pub or_parts :
    (k q r m s : ℕ)
    → r < 2 ^ k
    → s < 2 ^ k
    → bit_or (q * 2 ^ k + r) (m * 2 ^ k + s) ≡ bit_or q m * 2 ^ k + bit_or r s
or_parts = op_parts bit_or max bit_or-HasStep refl

pub xor_parts :
    (k q r m s : ℕ)
    → r < 2 ^ k
    → s < 2 ^ k
    → bit_xor (q * 2 ^ k + r) (m * 2 ^ k + s) ≡ bit_xor q m * 2 ^ k + bit_xor r s
xor_parts = op_parts bit_xor differ bit_xor-HasStep refl

-- `(q << k) | r` is a sum when `r` fits `k` bits.
pub or_shifted : (k q r : ℕ) → r < 2 ^ k → bit_or (q * 2 ^ k) r ≡ q * 2 ^ k + r
or_shifted k q r h =
    ground (
      arith,
      or_parts k q 0 0 r (one-le-pow k 2 (omega arith)) h,
      bit_or-zero q,
      bit_or-zero_left r,
    )

-- A mask of `k` low ones is the remainder by `2 ^ k`.
pub and_mask : (k a : ℕ) → bit_and a (2 ^ k - 1) ≡ a % 2 ^ k
and_mask k a = ground (
  arith,
  one-le-pow k 2 (omega arith),
  and_parts k (a / 2 ^ k) (a % 2 ^ k) 0 (2 ^ k - 1),
  bit_and-zero (a / 2 ^ k),
  bit_and-ones k (a % 2 ^ k),
  div-add-mod' a (2 ^ k),
)

differ_parity : (a b : ℕ) → a < 2 → b < 2 → differ a b < 2
differ_parity zero b p q = q
differ_parity (suc a) zero p q = p
differ_parity (suc a) (suc b) p q = differ_parity a b (omega arith) (omega arith)

differ_self : (a : ℕ) → differ a a ≡ 0
differ_self zero = refl
differ_self (suc a) = differ_self a

differ-zero : (a : ℕ) → differ a 0 ≡ a
differ-zero zero = refl
differ-zero (suc a) = refl

differ_comm : (a b : ℕ) → differ a b ≡ differ b a
differ_comm zero zero = refl
differ_comm zero (suc b) = refl
differ_comm (suc a) zero = refl
differ_comm (suc a) (suc b) = differ_comm a b

differ_assoc_bits :
    (a b c : ℕ) → a < 2 → b < 2 → c < 2 → differ (differ a b) c ≡ differ a (differ b c)
differ_assoc_bits zero b c p q r = refl
differ_assoc_bits (suc zero) zero c p q r = refl
differ_assoc_bits (suc zero) (suc zero) zero p q r = refl
differ_assoc_bits (suc zero) (suc zero) (suc zero) p q r = refl
differ_assoc_bits (suc zero) (suc zero) (suc (suc c)) p q r = absurd (omega arith)
differ_assoc_bits (suc zero) (suc (suc b)) c p q r = absurd (omega arith)
differ_assoc_bits (suc (suc a)) b c p q r = absurd (omega arith)

xor_zero_fits : (k a : ℕ) → a < 2 ^ k → bit_xor a 0 ≡ a
xor_zero_fits zero a h = let e : a ≡ 0 = omega arith in ground arith
xor_zero_fits (suc k) a h = omega (
  arith,
  bit_xor-HasStep a 0,
  differ-zero (a % 2),
  xor_zero_fits k (a / 2) (omega (arith, pow-suc 2 k)),
)

pub bit_xor-zero : (a : ℕ) → bit_xor a 0 ≡ a
bit_xor-zero a = xor_zero_fits a a (lt-two-pow a)

xor_self_fits : (k a : ℕ) → a < 2 ^ k → bit_xor a a ≡ 0
xor_self_fits zero a h = let e : a ≡ 0 = omega arith in ground arith
xor_self_fits (suc k) a h = omega (
  arith,
  bit_xor-HasStep a a,
  differ_self (a % 2),
  xor_self_fits k (a / 2) (omega (arith, pow-suc 2 k)),
)

pub bit_xor_self : (a : ℕ) → bit_xor a a ≡ 0
bit_xor_self a = xor_self_fits a a (lt-two-pow a)

xor_comm_fits : (k a b : ℕ) → a < 2 ^ k → b < 2 ^ k → bit_xor a b ≡ bit_xor b a
xor_comm_fits zero a b h j =
    let e : a ≡ 0 = omega arith in let d : b ≡ 0 = omega arith in ground arith
xor_comm_fits (suc k) a b h j = omega (
  arith,
  bit_xor-HasStep a b,
  bit_xor-HasStep b a,
  differ_comm (a % 2) (b % 2),
  xor_comm_fits k (a / 2) (b / 2) (omega (arith, pow-suc 2 k)) (omega (arith, pow-suc 2 k)),
)

pub bit_xor_comm : (k a b : ℕ) → a < 2 ^ k → b < 2 ^ k → bit_xor a b ≡ bit_xor b a
bit_xor_comm = xor_comm_fits

xor_halves : (a b : ℕ) → bit_xor a b / 2 ≡ bit_xor (a / 2) (b / 2)
xor_halves a b =
    omega (arith, bit_xor-HasStep a b, differ_parity (a % 2) (b % 2) (omega arith) (omega arith))

xor_parity : (a b : ℕ) → bit_xor a b % 2 ≡ differ (a % 2) (b % 2)
xor_parity a b =
    omega (arith, bit_xor-HasStep a b, differ_parity (a % 2) (b % 2) (omega arith) (omega arith))

pub bit_xor-lt : (k a b : ℕ) → a < 2 ^ k → b < 2 ^ k → bit_xor a b < 2 ^ k
bit_xor-lt zero a b h j = let e : a ≡ 0 = omega arith in let d : b ≡ 0 = omega arith in ground arith
bit_xor-lt (suc k) a b h j = omega (
  arith,
  pow-suc 2 k,
  xor_halves a b,
  bit_xor-lt k (a / 2) (b / 2) (omega (arith, pow-suc 2 k)) (omega (arith, pow-suc 2 k)),
)

pub bit_xor_assoc :
    (k a b c : ℕ)
    → a < 2 ^ k
    → b < 2 ^ k
    → c < 2 ^ k
    → bit_xor (bit_xor a b) c ≡ bit_xor a (bit_xor b c)
bit_xor_assoc zero a b c h i j =
    let e : a ≡ 0 = omega arith in
    let d : b ≡ 0 = omega arith in let g : c ≡ 0 = omega arith in ground arith
bit_xor_assoc (suc k) a b c h i j = ground (
  arith,
  bit_xor-HasStep (bit_xor a b) c,
  bit_xor-HasStep a (bit_xor b c),
  xor_halves a b,
  xor_halves b c,
  xor_parity a b,
  xor_parity b c,
  differ_assoc_bits (a % 2) (b % 2) (c % 2) (omega arith) (omega arith) (omega arith),
  bit_xor_assoc k (a / 2) (b / 2) (c / 2) (omega (arith, pow-suc 2 k)) (omega (arith, pow-suc 2 k))
      (omega (arith, pow-suc 2 k)),
)
