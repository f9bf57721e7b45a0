-- ===== src/Bits/Fields.antt =====
-- Bit fields of a number: the field of `n` bits that has `t` bits below it.
use native.Mathlib.Nat.{
  pow-suc, one-le-pow, mul-add-div_right, mul-add-mod_self_right, div-eq_of_lt, mod-eq_of_lt,
  div-add-mod', mod-lt, mul-lt-mul_of_pos_right, mul-le-mul_right,
}
use mopa.Base.{ℕ, zero, suc, ◌+◌, ◌*◌, ◌/◌, ◌%◌, ◌^◌, ◌<◌, ◌≡◌, sym, ap, ap₂, ◌∙◌, arith}

pub two-pow-add : (a b : ℕ) → 2 ^ (a + b) ≡ 2 ^ a * 2 ^ b
two-pow-add a zero = let e : a + 0 ≡ a = omega arith in rw e (omega arith)
two-pow-add a (suc b) =
    let e : a + suc b ≡ suc (a + b) = omega arith in
    rw e
      (omega (arith, pow-suc 2 (a + b), ap (λ (t : ℕ). 2 ^ a * t) (pow-suc 2 b), two-pow-add a b))

pub two-pow_pos : (k : ℕ) → 0 < 2 ^ k
two-pow_pos k = one-le-pow k 2 (omega arith)

pub div_parts : (q r m : ℕ) → r < m → (q * m + r) / m ≡ q
div_parts q r m h = mul-add-div_right (omega arith) q r ∙ omega (arith, div-eq_of_lt h)

pub mod_parts : (q r m : ℕ) → r < m → (q * m + r) % m ≡ r
mod_parts q r m h = mul-add-mod_self_right q m r ∙ mod-eq_of_lt h

-- A number below a product leaves room for the digits below it.
pub digit_room : (q r a b : ℕ) → q < a → r < b → q * b + r < a * b
digit_room q r a b h j = omega (arith, mul-le-mul_right b h)

-- The field is found once the number is written with it.
pub field_parts :
    (hi v lo n t : ℕ) → v < 2 ^ n → lo < 2 ^ t → ((hi * 2 ^ n + v) * 2 ^ t + lo) / 2 ^ t % 2 ^ n ≡ v
field_parts hi v lo n t h j =
    ap (λ x. x % 2 ^ n) (div_parts (hi * 2 ^ n + v) lo (2 ^ t) j) ∙ mod_parts hi v (2 ^ n) h

-- Every number is written with its field.
pub field_split :
    (x n t : ℕ) → x ≡ (x / 2 ^ t / 2 ^ n * 2 ^ n + x / 2 ^ t % 2 ^ n) * 2 ^ t + x % 2 ^ t
field_split x n t =
    sym (div-add-mod' x (2 ^ t))
    ∙ ap (λ y. y * 2 ^ t + x % 2 ^ t) (sym (div-add-mod' (x / 2 ^ t) (2 ^ n)))

pub field-lt : (x n t : ℕ) → x / 2 ^ t % 2 ^ n < 2 ^ n
field-lt x n t = mod-lt (x / 2 ^ t) (two-pow_pos n)

shift_parts :
    (h v l a b c : ℕ)
    → v < b
    → l < c
    → 0 < a
    → (((h * b + v) * c + l) * a % (a * b * c)) / (c * a) ≡ v
shift_parts h v l a b c hv hl ha =
    let room : v * c + l < b * c = digit_room v l b c hv hl in
    let room' : (v * c + l) * a < a * b * c =
      omega (arith, mul-lt-mul_of_pos_right {k = a} room ha) in
    let low : l * a < c * a = mul-lt-mul_of_pos_right {k = a} hl ha in
    let e1 : ((h * b + v) * c + l) * a ≡ h * (a * b * c) + (v * c + l) * a = omega arith in
    let e2 : (v * c + l) * a ≡ v * (c * a) + l * a = omega arith in
    rw e1 (
      ap (λ y. y / (c * a)) (mod_parts h ((v * c + l) * a) (a * b * c) room')
      ∙ ap (λ y. y / (c * a)) e2
      ∙ div_parts v (l * a) (c * a) low)

-- `(x << o) >> (w - n)` in a word of `w` bits takes the field that has `s` bits below it.
pub shift_field :
    (w d x o n s : ℕ) → w ≡ o + n + s → d ≡ s + o → x * 2 ^ o % 2 ^ w / 2 ^ d ≡ x / 2 ^ s % 2 ^ n
shift_field w d x o n s ew ed =
    let ew' : 2 ^ w ≡ 2 ^ o * 2 ^ n * 2 ^ s =
      ap (λ y. 2 ^ y) ew ∙ two-pow-add (o + n) s ∙ ap (λ y. y * 2 ^ s) (two-pow-add o n) in
    let ed' : 2 ^ d ≡ 2 ^ s * 2 ^ o = ap (λ y. 2 ^ y) ed ∙ two-pow-add s o in
    ap₂ (λ y z. x * 2 ^ o % y / z) ew' ed'
    ∙ ap (λ y. y * 2 ^ o % (2 ^ o * 2 ^ n * 2 ^ s) / (2 ^ s * 2 ^ o)) (field_split x n s)
    ∙ shift_parts (x / 2 ^ s / 2 ^ n) (x / 2 ^ s % 2 ^ n) (x % 2 ^ s) (2 ^ o) (2 ^ n) (2 ^ s)
        (field-lt x n s) (mod-lt x (two-pow_pos s)) (two-pow_pos o)

regroup_parts :
    (hi lo h v l a b c e : ℕ)
    → hi * (a * b * c * e) + ((h * b + v) * c + l) * e + lo
      ≡ ((hi * a + h) * b + v) * (c * e) + (l * e + lo)
regroup_parts hi lo h v l a b c e = omega arith

-- A number whose middle part is written with a field is written with that field.
pub field_regroup :
    (hi h v l lo o n s t : ℕ)
    → hi * 2 ^ (o + n + s + t) + ((h * 2 ^ n + v) * 2 ^ s + l) * 2 ^ t + lo
      ≡ ((hi * 2 ^ o + h) * 2 ^ n + v) * 2 ^ (s + t) + (l * 2 ^ t + lo)
field_regroup hi h v l lo o n s t =
    ap (λ p. hi * p + ((h * 2 ^ n + v) * 2 ^ s + l) * 2 ^ t + lo) powers
    ∙ regroup_parts hi lo h v l (2 ^ o) (2 ^ n) (2 ^ s) (2 ^ t)
    ∙ ap (λ p. ((hi * 2 ^ o + h) * 2 ^ n + v) * p + (l * 2 ^ t + lo)) (sym (two-pow-add s t))
  where
    powers : 2 ^ (o + n + s + t) ≡ 2 ^ o * 2 ^ n * 2 ^ s * 2 ^ t
    powers =
        two-pow-add (o + n + s) t
        ∙ ap (λ y. y * 2 ^ t) (two-pow-add (o + n) s ∙ ap (λ y. y * 2 ^ s) (two-pow-add o n))

pub low_room : (x lo s t : ℕ) → lo < 2 ^ t → x % 2 ^ s * 2 ^ t + lo < 2 ^ (s + t)
low_room x lo s t h =
    rw (two-pow-add s t) (digit_room (x % 2 ^ s) lo (2 ^ s) (2 ^ t) (mod-lt x (two-pow_pos s)) h)

-- A field of the middle part of a number is a field of the number.
pub field_window :
    (hi x lo o n s t : ℕ)
    → lo < 2 ^ t
    → (hi * 2 ^ (o + n + s + t) + x * 2 ^ t + lo) / 2 ^ (s + t) % 2 ^ n ≡ x / 2 ^ s % 2 ^ n
field_window hi x lo o n s t h =
    ap (λ y. (hi * 2 ^ (o + n + s + t) + y * 2 ^ t + lo) / 2 ^ (s + t) % 2 ^ n) (field_split x n s)
    ∙ ap (λ y. y / 2 ^ (s + t) % 2 ^ n)
        (field_regroup hi (x / 2 ^ s / 2 ^ n) (x / 2 ^ s % 2 ^ n) (x % 2 ^ s) lo o n s t)
    ∙ field_parts (hi * 2 ^ o + x / 2 ^ s / 2 ^ n) (x / 2 ^ s % 2 ^ n) (x % 2 ^ s * 2 ^ t + lo) n
        (s + t) (field-lt x n s) (low_room x lo s t h)
