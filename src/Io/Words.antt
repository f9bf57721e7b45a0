-- ===== src/Io/Words.antt =====
-- Words that are put together from bytes by shifts and `|`, and the windows that they are.
use mopa.Base.{
  IsBytes, ℕ, suc, ◌+◌, ◌*◌, ◌^◌, ◌<◌, ◌≤◌, ◌≡◌, arith, List, length, get_or, bit_or, ◌<<<◌,
}
use mopa.Bits.{or_shifted}
use mopa.Io.Stream.{window, window-suc, window-zero, get_or-lt}

abbrev pub join2 : ℕ → ℕ → ℕ
join2 b0 b1 = bit_or (b0 <<< 8) b1

abbrev pub join3 : ℕ → ℕ → ℕ → ℕ
join3 b0 b1 b2 = bit_or (bit_or (b0 <<< 16) (b1 <<< 8)) b2

abbrev pub join4 : ℕ → ℕ → ℕ → ℕ → ℕ
join4 b0 b1 b2 b3 = bit_or (bit_or (bit_or (b0 <<< 24) (b1 <<< 16)) (b2 <<< 8)) b3

pub join2_sum : (b0 b1 : ℕ) → b1 < 2 ^ 8 → join2 b0 b1 ≡ b0 * 2 ^ 8 + b1
join2_sum b0 b1 h = or_shifted 8 b0 b1 h

join3_sum :
    (b0 b1 b2 : ℕ) → b1 < 2 ^ 8 → b2 < 2 ^ 8 → join3 b0 b1 b2 ≡ b0 * 2 ^ 16 + b1 * 2 ^ 8 + b2
join3_sum b0 b1 b2 h j =
    ground (arith, or_shifted 16 b0 (b1 * 2 ^ 8), or_shifted 8 (b0 * 2 ^ 8 + b1) b2)

join4_sum :
    (b0 b1 b2 b3 : ℕ)
    → b1 < 2 ^ 8
    → b2 < 2 ^ 8
    → b3 < 2 ^ 8
    → join4 b0 b1 b2 b3 ≡ b0 * 2 ^ 24 + b1 * 2 ^ 16 + b2 * 2 ^ 8 + b3
join4_sum b0 b1 b2 b3 h j l = ground (
  arith,
  or_shifted 24 b0 (b1 * 2 ^ 16),
  or_shifted 16 (b0 * 2 ^ 8 + b1) (b2 * 2 ^ 8),
  or_shifted 8 ((b0 * 2 ^ 8 + b1) * 2 ^ 8 + b2) b3,
)

module _ (bytes : List ℕ) (k : ℕ) where
  pub window-one : k + 1 ≤ length bytes → window k 1 bytes ≡ get_or bytes k 0
  window-one h = omega (arith, window-suc bytes k 0, window-zero bytes (suc k))

  window-two :
      k + 2 ≤ length bytes → window k 2 bytes ≡ get_or bytes k 0 * 2 ^ 8 + get_or bytes (suc k) 0
  window-two h =
      omega
        (arith, window-suc bytes k 1, window-suc bytes (suc k) 0, window-zero bytes (suc (suc k)))

  window-three :
      k + 3 ≤ length bytes
      → window k 3 bytes
        ≡ get_or bytes k 0 * 2 ^ 16 + get_or bytes (suc k) 0 * 2 ^ 8 + get_or bytes (suc (suc k)) 0
  window-three h = omega (
    arith,
    window-suc bytes k 2,
    window-suc bytes (suc k) 1,
    window-suc bytes (suc (suc k)) 0,
    window-zero bytes (suc (suc (suc k))),
  )

  window-four :
      k + 4 ≤ length bytes
      → window k 4 bytes
        ≡ get_or bytes k 0 * 2 ^ 24
          + get_or bytes (suc k) 0 * 2 ^ 16
          + get_or bytes (suc (suc k)) 0 * 2 ^ 8
          + get_or bytes (suc (suc (suc k))) 0
  window-four h = omega (
    arith,
    window-suc bytes k 3,
    window-suc bytes (suc k) 2,
    window-suc bytes (suc (suc k)) 1,
    window-suc bytes (suc (suc (suc k))) 0,
    window-zero bytes (suc (suc (suc (suc k)))),
  )

module _ (bytes : List ℕ) (k : ℕ) (valid : IsBytes bytes) where
  pub window-join2 :
      k + 2 ≤ length bytes → window k 2 bytes ≡ join2 (get_or bytes k 0) (get_or bytes (k + 1) 0)
  window-join2 h = ground (
    arith,
    window-two bytes k h,
    join2_sum (get_or bytes k 0) (get_or bytes (k + 1) 0) (get_or-lt bytes (k + 1) valid),
  )

  pub window-join3 :
      k + 3 ≤ length bytes
      → window k 3 bytes
        ≡ join3 (get_or bytes k 0) (get_or bytes (k + 1) 0) (get_or bytes (k + 2) 0)
  window-join3 h = ground (
    arith,
    window-three bytes k h,
    join3_sum (get_or bytes k 0) (get_or bytes (k + 1) 0) (get_or bytes (k + 2) 0)
        (get_or-lt bytes (k + 1) valid) (get_or-lt bytes (k + 2) valid),
  )

  pub window-join4 :
      k + 4 ≤ length bytes
      → window k 4 bytes
        ≡ join4
            (get_or bytes k 0)
            (get_or bytes (k + 1) 0)
            (get_or bytes (k + 2) 0)
            (get_or bytes (k + 3) 0)
  window-join4 h = ground (
    arith,
    window-four bytes k h,
    join4_sum (get_or bytes k 0) (get_or bytes (k + 1) 0) (get_or bytes (k + 2) 0)
        (get_or bytes (k + 3) 0) (get_or-lt bytes (k + 1) valid) (get_or-lt bytes (k + 2) valid)
        (get_or-lt bytes (k + 3) valid),
  )
