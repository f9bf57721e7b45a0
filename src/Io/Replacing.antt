-- ===== src/Io/Replacing.antt =====
-- A word with one of its fields replaced, as `obCtx` computes it.
use native.Mathlib.Nat.{pow-le-pow_right, div-lt_iff_lt-mul, mod-lt, pow-suc}
use mopa.Base.{
  ℕ, zero, suc, ◌+◌, ◌-◌, ◌*◌, ◌/◌, ◌%◌, ◌^◌, ◌<◌, ◌≤◌, ◌≡◌, sym, ap, ◌∙◌, arith, [], ◌∷◌, bit_and,
  ◌<<<◌, ◌>>>◌, u8, u16, u32, sub32,
}
use mopa.Bits.{and_mask}
use mopa.Bits.Fields.{two-pow-add, two-pow_pos, digit_room, field_split, field-lt}
use mopa.Io.Stream.{stream}
use mopa.Io.Stores.{patch_parts}
use mopa.Io.BinaryOut.{patch}

-- The word with its field replaced, and its range.
abbrev pub patched : ℕ → ℕ → ℕ → ℕ → ℕ
patched x n s val = (x / 2 ^ s / 2 ^ n * 2 ^ n + val) * 2 ^ s + x % 2 ^ s

module _ (b o n s x val : ℕ) (eb : o + n + s ≡ b) (narrow : b ≤ 32) (hx : x < 2 ^ b)
    (hval : val < 2 ^ n) where
  above_field : x / 2 ^ s / 2 ^ n < 2 ^ o
  above_field =
      let power : 2 ^ b ≡ 2 ^ o * 2 ^ n * 2 ^ s =
        ap (λ k. 2 ^ k) (sym eb) ∙ two-pow-add (o + n) s ∙ ap (λ y. y * 2 ^ s) (two-pow-add o n) in
      (div-lt_iff_lt-mul (two-pow_pos n)).1
        ((div-lt_iff_lt-mul (two-pow_pos s)).1 (omega (arith, power, hx)))

  pub patched-lt : patched x n s val < 2 ^ b
  patched-lt =
      let power : 2 ^ b ≡ 2 ^ o * 2 ^ n * 2 ^ s =
        ap (λ k. 2 ^ k) (sym eb) ∙ two-pow-add (o + n) s ∙ ap (λ y. y * 2 ^ s) (two-pow-add o n) in
      rw power (
        digit_room (x / 2 ^ s / 2 ^ n * 2 ^ n + val) (x % 2 ^ s) (2 ^ o * 2 ^ n) (2 ^ s)
          (digit_room (x / 2 ^ s / 2 ^ n) val (2 ^ o) (2 ^ n) above_field hval)
          (mod-lt x (two-pow_pos s)))

  pub patch-patched : patch x (2 ^ n - 1) s val ≡ patched x n s val
  patch-patched =
      let r = 32 - (n + s) in
      let wide : 2 ^ o ≤ 2 ^ r = pow-le-pow_right {n = 2} (omega arith) (omega arith) in
      ap (λ y. patch y (2 ^ n - 1) s val) (field_split x n s)
      ∙ patch_parts (x / 2 ^ s / 2 ^ n) (x / 2 ^ s % 2 ^ n) (x % 2 ^ s) n s val r (field-lt x n s)
          (mod-lt x (two-pow_pos s)) hval (omega arith) (omega (arith, above_field))

-- The bytes of a word.
pub split1 : (y : ℕ) → y < 2 ^ 8 → stream (u8 y ∷ []) ≡ y
unfolding stream
split1 y h = omega arith

pub split2 : (y : ℕ) → y < 2 ^ 16 → stream (u8 (y >>> 8) ∷ u8 (bit_and y 0xff) ∷ []) ≡ y
unfolding stream
split2 y h = omega (arith, and_mask 8 y)

pub split3 :
    (y : ℕ) → y < 2 ^ 24 → stream (u8 (y >>> 16) ∷ u8 (y >>> 8) ∷ u8 (bit_and y 0xff) ∷ []) ≡ y
unfolding stream
split3 y h = omega (arith, and_mask 8 y)

pub split4 :
    (y : ℕ)
    → y < 2 ^ 32
    → stream (u8 (y >>> 24) ∷ u8 (y >>> 16) ∷ u8 (y >>> 8) ∷ u8 (y >>> 0) ∷ []) ≡ y
unfolding stream
split4 y h = omega arith

two-pow_mono : (a b : ℕ) → a ≤ b → 2 ^ a ≤ 2 ^ b
two-pow_mono a b h = pow-le-pow_right {n = 2} (omega arith) h

pub mask8 : (n : ℕ) → n ≤ 8 → u8 (2 ^ n - 1) ≡ 2 ^ n - 1
mask8 n h = omega (arith, two-pow_mono n 8 h)

pub mask16 : (n : ℕ) → n ≤ 16 → u16 (2 ^ n - 1) ≡ 2 ^ n - 1
mask16 n h = omega (arith, two-pow_mono n 16 h)

pub mask32 : (n : ℕ) → 0 < n → n ≤ 32 → sub32 (u32 (2 <<< (n - 1))) 1 ≡ 2 ^ n - 1
mask32 zero h j = elim h [ ]
mask32 (suc n) h j =
    let e : suc n - 1 ≡ n = omega arith in
    rw e (omega (arith, pow-suc 2 n, two-pow_mono (suc n) 32 j, two-pow_pos n))
