-- ===== src/Bits/Steps.antt =====
-- The bitwise operators, one binary digit at a time, and how they act on the two parts of a number
-- that is cut at bit `k`.
use Prim.Native.Nat.{min, max, digits, differ, bit_and-bitwise, bit_or-bitwise, bit_xor-bitwise}
use native.Mathlib.Nat.{pow-suc}
use mopa.Base.{
  ℕ, zero, suc, ◌+◌, ◌*◌, ◌/◌, ◌%◌, ◌^◌, ◌≤◌, ◌<◌, bit_and, bit_or, bit_xor, ◌≡◌, refl, ap, ◌∙◌,
  arith,
}

abbrev pub HasStep : (ℕ → ℕ → ℕ) → (ℕ → ℕ → ℕ) → Type 0
HasStep op f = (a b : ℕ) → op a b ≡ op (a / 2) (b / 2) * 2 + f (a % 2) (b % 2)

module _ (z : ℕ → ℕ) (f : ℕ → ℕ → ℕ) where
  -- More digits than the first number has change nothing.
  enough_digits : (a b c d : ℕ) → a ≤ c → a ≤ d → digits z f c a b ≡ digits z f d a b
  enough_digits zero b zero zero hc hd = refl
  enough_digits zero b zero (suc d) hc hd = refl
  enough_digits zero b (suc c) zero hc hd = refl
  enough_digits zero b (suc c) (suc d) hc hd = refl
  enough_digits (suc a) b zero d hc hd = elim hc [ ]
  enough_digits (suc a) b (suc c) zero hc hd = elim hd [ ]
  enough_digits (suc a) b (suc c) (suc d) hc hd =
      let rest = enough_digits (suc a / 2) (b / 2) c d (omega arith) (omega arith) in
      ap (λ x. x * 2 + f (suc a % 2) (b % 2)) rest

  -- An operator given by its digits, as far as `z` has the digits where the first number ends.
  HasStep-digits :
      (op : ℕ → ℕ → ℕ)
      → ((a b : ℕ) → op a b ≡ digits z f a a b)
      → ((b : ℕ) → z b ≡ z (b / 2) * 2 + f 0 (b % 2))
      → HasStep op f
  HasStep-digits op by_digits ends zero b =
      omega (arith, by_digits 0 b, by_digits 0 (b / 2), ends b)
  HasStep-digits op by_digits ends (suc a) b =
      let half = suc a / 2 in
      omega (
        arith,
        by_digits (suc a) b,
        by_digits half (b / 2),
        enough_digits half (b / 2) a half (omega arith) (omega arith),
      )

pub bit_and-HasStep : HasStep bit_and min
bit_and-HasStep = HasStep-digits (λ _. 0) min bit_and bit_and-bitwise (λ b. omega arith)

pub bit_or-HasStep : HasStep bit_or max
bit_or-HasStep = HasStep-digits (λ x. x) max bit_or bit_or-bitwise (λ b. omega arith)

pub bit_xor-HasStep : HasStep bit_xor differ
bit_xor-HasStep = HasStep-digits (λ x. x) differ bit_xor bit_xor-bitwise (λ b. omega arith)

-- A multiple of the next power of two.
pub mul-two-pow-suc : (q k : ℕ) → q * 2 ^ suc k ≡ 2 * (q * 2 ^ k)
mul-two-pow-suc q k =
    let power : 2 ^ suc k ≡ 2 ^ k + 2 ^ k = omega (arith, pow-suc 2 k) in
    ap (◌*◌ q) power ∙ omega arith

module _ (op f : ℕ → ℕ → ℕ) (step : HasStep op f) (zeros : op 0 0 ≡ 0) where
  -- Above and below bit `k` the operator acts by itself.
  pub op_parts :
      (k q r m s : ℕ)
      → r < 2 ^ k
      → s < 2 ^ k
      → op (q * 2 ^ k + r) (m * 2 ^ k + s) ≡ op q m * 2 ^ k + op r s
  op_parts zero q r m s p t = ground arith
  op_parts (suc k) q r m s p t = ground (
    arith,
    step (q * 2 ^ suc k + r) (m * 2 ^ suc k + s),
    step r s,
    mul-two-pow-suc q k,
    mul-two-pow-suc m k,
    mul-two-pow-suc (op q m) k,
    pow-suc 2 k,
    op_parts k q (r / 2) m (s / 2) (omega (arith, pow-suc 2 k)) (omega (arith, pow-suc 2 k)),
  )
