-- ===== src/Io/Patches.antt =====
-- The specification of a write: one field of the stream gets a new value, and nothing else changes.
use native.Mathlib.Nat.{mod-lt}
use mopa.Base.{
  IsBytes, ℕ, ◌+◌, ◌-◌, ◌*◌, ◌/◌, ◌%◌, ◌^◌, ◌<◌, ◌≤◌, ◌≡◌, sym, ap, ap₂, ◌∙◌, arith, List, length,
}
use mopa.Bits.Fields.{two-pow-add, two-pow_pos, digit_room, field_parts, field_split, field-lt}
use mopa.Io.Stream.{stream, bits_at}

-- The bits of a buffer behind the field.
abbrev pub behind : List ℕ → ℕ → ℕ → ℕ
behind bytes pos n = 8 * length bytes - (pos + n)

pub record Patched (before after : List ℕ) (pos n val : ℕ) : Type 0 where
  pub hi : ℕ
  pub old : ℕ
  pub lo : ℕ
  pub lo_fits : lo < 2 ^ behind before pos n
  pub old_fits : old < 2 ^ n
  pub val_fits : val < 2 ^ n
  pub was : stream before ≡ (hi * 2 ^ n + old) * 2 ^ behind before pos n + lo
  pub now : stream after ≡ (hi * 2 ^ n + val) * 2 ^ behind before pos n + lo
  pub same_length : length after ≡ length before
  pub after-IsBytes : IsBytes after

-- A field above another, or below it, is found in the part of the number beside that.
field_above :
    (hi v lo n t d q : ℕ)
    → v < 2 ^ n
    → lo < 2 ^ t
    → ((hi * 2 ^ n + v) * 2 ^ t + lo) / 2 ^ (d + n + t) % 2 ^ q ≡ hi / 2 ^ d % 2 ^ q
field_above hi v lo n t d q hv hl =
    ap (λ y. y / 2 ^ (d + n + t) % 2 ^ q) regroup
    ∙ field_parts (hi / 2 ^ d / 2 ^ q) (hi / 2 ^ d % 2 ^ q) ((hi % 2 ^ d * 2 ^ n + v) * 2 ^ t + lo)
        q (d + n + t) (field-lt hi q d) room
  where
    powers : 2 ^ (d + n + t) ≡ 2 ^ d * 2 ^ n * 2 ^ t
    powers = two-pow-add (d + n) t ∙ ap (λ y. y * 2 ^ t) (two-pow-add d n)

    room : (hi % 2 ^ d * 2 ^ n + v) * 2 ^ t + lo < 2 ^ (d + n + t)
    room = rw powers (
        digit_room (hi % 2 ^ d * 2 ^ n + v) lo (2 ^ d * 2 ^ n) (2 ^ t)
          (digit_room (hi % 2 ^ d) v (2 ^ d) (2 ^ n) (mod-lt hi (two-pow_pos d)) hv) hl)

    parts :
        (h f r a b c : ℕ)
        → (((h * b + f) * a + r) * c + v) * 2 ^ t + lo
          ≡ (h * b + f) * (a * c * 2 ^ t) + ((r * c + v) * 2 ^ t + lo)
    parts h f r a b c = omega arith

    regroup :
        (hi * 2 ^ n + v) * 2 ^ t + lo
        ≡ (hi / 2 ^ d / 2 ^ q * 2 ^ q + hi / 2 ^ d % 2 ^ q) * 2 ^ (d + n + t)
          + ((hi % 2 ^ d * 2 ^ n + v) * 2 ^ t + lo)
    regroup =
        ap (λ y. (y * 2 ^ n + v) * 2 ^ t + lo) (field_split hi q d)
        ∙ parts (hi / 2 ^ d / 2 ^ q) (hi / 2 ^ d % 2 ^ q) (hi % 2 ^ d) (2 ^ d) (2 ^ q) (2 ^ n)
        ∙ ap
            (λ p.
              (hi / 2 ^ d / 2 ^ q * 2 ^ q + hi / 2 ^ d % 2 ^ q) * p
              + ((hi % 2 ^ d * 2 ^ n + v) * 2 ^ t + lo))
            (sym powers)

field_below :
    (x lo t d q r : ℕ) → t ≡ r + q + d → (x * 2 ^ t + lo) / 2 ^ d % 2 ^ q ≡ lo / 2 ^ d % 2 ^ q
field_below x lo t d q r et =
    ap (λ y. y / 2 ^ d % 2 ^ q) regroup
    ∙ field_parts (x * 2 ^ r + lo / 2 ^ d / 2 ^ q) (lo / 2 ^ d % 2 ^ q) (lo % 2 ^ d) q d
        (field-lt lo q d) (mod-lt lo (two-pow_pos d))
  where
    powers : 2 ^ t ≡ 2 ^ r * 2 ^ q * 2 ^ d
    powers = ap (λ y. 2 ^ y) et ∙ two-pow-add (r + q) d ∙ ap (λ y. y * 2 ^ d) (two-pow-add r q)

    parts :
        (h f l a b c : ℕ) → x * (a * b * c) + ((h * b + f) * c + l) ≡ ((x * a + h) * b + f) * c + l
    parts h f l a b c = omega arith

    regroup :
        x * 2 ^ t + lo
        ≡ ((x * 2 ^ r + lo / 2 ^ d / 2 ^ q) * 2 ^ q + lo / 2 ^ d % 2 ^ q) * 2 ^ d + lo % 2 ^ d
    regroup =
        ap₂ (λ p y. x * p + y) powers (field_split lo q d)
        ∙ parts (lo / 2 ^ d / 2 ^ q) (lo / 2 ^ d % 2 ^ q) (lo % 2 ^ d) (2 ^ r) (2 ^ q) (2 ^ d)

module _ {before after : List ℕ} {pos n val : ℕ} (w : Patched before after pos n val) where
  -- The field reads back as the value.
  pub bits_at-Patched : bits_at after pos n ≡ val
  unfolding bits_at
  bits_at-Patched = rw w.same_length (
      ap (λ y. y / 2 ^ behind before pos n % 2 ^ n) w.now
      ∙ field_parts w.hi val w.lo n (behind before pos n) w.val_fits w.lo_fits)

  -- Bits before the field stay, and so do bits behind it.
  pub bits_at-Patched_before :
      (p m : ℕ) → p + m ≤ pos → pos + n ≤ 8 * length before → bits_at after p m ≡ bits_at before p m
  unfolding bits_at
  bits_at-Patched_before p m h inside =
      let t = behind before pos n in
      let d = pos - (p + m) in
      let e : 8 * length before - (p + m) ≡ d + n + t = omega arith in
      let e' : 8 * length after - (p + m) ≡ d + n + t = omega (arith, w.same_length) in
      ap₂ (λ y k. y / 2 ^ k % 2 ^ m) w.now e'
      ∙ field_above w.hi val w.lo n t d m w.val_fits w.lo_fits
      ∙ sym (
          ap₂ (λ y k. y / 2 ^ k % 2 ^ m) w.was e
          ∙ field_above w.hi w.old w.lo n t d m w.old_fits w.lo_fits)

  pub bits_at-Patched_behind :
      (p m : ℕ) → pos + n ≤ p → p + m ≤ 8 * length before → bits_at after p m ≡ bits_at before p m
  unfolding bits_at
  bits_at-Patched_behind p m h inside =
      let t = behind before pos n in
      let d = 8 * length before - (p + m) in
      let r = p - (pos + n) in
      let e : t ≡ r + m + d = omega arith in
      let e' : 8 * length after - (p + m) ≡ d = omega (arith, w.same_length) in
      ap₂ (λ y k. y / 2 ^ k % 2 ^ m) w.now e'
      ∙ field_below (w.hi * 2 ^ n + val) w.lo t d m r e
      ∙ sym (ap (λ y. y / 2 ^ d % 2 ^ m) w.was ∙ field_below (w.hi * 2 ^ n + w.old) w.lo t d m r e)
