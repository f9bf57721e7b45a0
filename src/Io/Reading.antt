-- ===== src/Io/Reading.antt =====
-- What the reads of `ibCtx` and `ibx` return, beside the bits of the stream at the position.
use mopa.Base.{
  IsBytes, ℕ, ◌+◌, ◌-◌, ◌*◌, ◌/◌, ◌%◌, ◌^◌, ◌<◌, ◌≤◌, ◌≡◌, refl, sym, ap, ◌∙◌, arith, length,
  get_or, ◌<<<◌, u8, u16, u32, ok, throw, fault, bits_left, ltb, true, false, le→ltb, lt→ltb,
  le→leb, lt→leb, if_elim, ◌==◌,
}
use native.Mathlib.Nat.{mod-eq_of_lt}
use native.Mathlib.Decide.{dec_le}
use mopa.Io.Stream.{window, bits_at, get_or-lt}
use mopa.Io.Words.{
  join2, join3, join4, window-join2, window-join3, window-join4, join2_sum, window-one,
}
use mopa.Io.BinaryIn
use mopa.Io.BinaryIn.{IbCtx}
use mopa.Io.Fetching.{
  moved, bits_in_window, shifted_out, fetch_inside, fetch_outside, masked8, masked16, masked24,
  bits_at-lt_of_le,
}

some_bits : (n : ℕ) → 0 < n → (n == 0) ≡ false
some_bits n pos = ground arith

module _ (c : IbCtx) (valid : IsBytes c.bytes) where
  abbrev byte : ℕ → ℕ
  byte i = get_or c.bytes (c.bitpos / 8 + i) 0

  abbrev first : ℕ
  first = get_or c.bytes (c.bitpos / 8) 0

  -- A window of `w` bytes, shifted in a word of its width.
  in_word :
      (n w b x : ℕ)
      → b ≡ 8 * w
      → c.bitpos % 8 + n ≤ b
      → c.bitpos / 8 + w ≤ length c.bytes
      → window (c.bitpos / 8) w c.bytes ≡ x
      → x * 2 ^ (c.bitpos % 8) % 2 ^ b / 2 ^ (b - n) ≡ bits_at c.bytes c.bitpos n
  in_word n w b x eb fits room ex =
      shifted_out b (c.bitpos % 8) n x fits
      ∙ bits_in_window c.bytes c.bitpos n w (b - (c.bitpos % 8 + n)) x valid room (omega arith) ex

  nocheck_uint32-bits_at :
      (n : ℕ)
      → 0 < n
      → c.bitpos % 8 + n ≤ 32
      → c.bitpos / 8 + 4 ≤ length c.bytes
      → BinaryIn.nocheck_uint32 n c ≡ ok (bits_at c.bytes c.bitpos n, moved c n)
  unfolding BinaryIn.nocheck_uint32
  nocheck_uint32-bits_at n pos fits room =
      let k = c.bitpos / 8 in
      rw
        (
          le→leb (c.bitpos % 8 + n) 32 fits,
          some_bits n pos,
          fetch_inside c k (omega arith),
          fetch_inside c (k + 1) (omega arith),
          fetch_inside c (k + 2) (omega arith),
          fetch_inside c (k + 3) (omega arith),
        )
        (ap (λ v. ok (v, moved c n))
          (in_word n 4 32 (join4 first (byte 1) (byte 2) (byte 3)) refl fits room
            (window-join4 c.bytes k valid room)))

  nocheck_uint8_narrow :
      (n : ℕ)
      → c.bitpos % 8 + n ≤ 8
      → c.bitpos / 8 < length c.bytes
      → BinaryIn.nocheck_uint8 n c ≡ ok (bits_at c.bytes c.bitpos n, moved c n)
  unfolding BinaryIn.nocheck_uint8
  nocheck_uint8_narrow n fits room =
      rw (le→leb (c.bitpos % 8 + n) 8 fits, fetch_inside c (c.bitpos / 8) room)
        (ap (λ v. ok (v, moved c n))
          (ap u8 (
              masked8 (first <<< (c.bitpos % 8)) (2 ^ (8 - n))
              ∙ in_word n 1 8 first refl fits (omega arith)
                  (window-one c.bytes (c.bitpos / 8) (omega arith)))
            ∙ mod-eq_of_lt (bits_at-lt_of_le c.bytes c.bitpos n 8 (omega arith))))

  nocheck_uint8_wide :
      (n : ℕ)
      → n ≤ 8
      → 8 < c.bitpos % 8 + n
      → c.bitpos / 8 + 2 ≤ length c.bytes
      → BinaryIn.nocheck_uint8 n c ≡ ok (bits_at c.bytes c.bitpos n, moved c n)
  unfolding BinaryIn.nocheck_uint8
  nocheck_uint8_wide n small wide room =
      let k = c.bitpos / 8 in
      rw
        (
          lt→leb (c.bitpos % 8 + n) 8 wide,
          fetch_inside c k (omega arith),
          fetch_inside c (k + 1) (omega arith),
        )
        (ap (λ v. ok (v, moved c n))
          (ap u8 (
              masked16 (join2 first (byte 1) <<< (c.bitpos % 8)) (2 ^ (16 - n))
              ∙ in_word n 2 16 (join2 first (byte 1)) refl (omega arith) room
                  (window-join2 c.bytes k valid room))
            ∙ mod-eq_of_lt (bits_at-lt_of_le c.bytes c.bitpos n 8 small)))

  nocheck_uint16_narrow :
      (n : ℕ)
      → c.bitpos % 8 + n ≤ 16
      → c.bitpos / 8 + 2 ≤ length c.bytes
      → BinaryIn.nocheck_uint16 n c ≡ ok (bits_at c.bytes c.bitpos n, moved c n)
  unfolding BinaryIn.nocheck_uint16
  nocheck_uint16_narrow n fits room =
      let k = c.bitpos / 8 in
      let joined = window-join2 c.bytes k valid room in
      let word : u16 (join2 first (byte 1)) ≡ join2 first (byte 1) = omega (
        arith,
        join2_sum first (byte 1) (get_or-lt c.bytes (k + 1) valid),
        get_or-lt c.bytes k valid,
        get_or-lt c.bytes (k + 1) valid,
      ) in
      rw
        (
          le→leb (c.bitpos % 8 + n) 16 fits,
          fetch_inside c k (omega arith),
          fetch_inside c (k + 1) (omega arith),
        )
        (ap (λ v. ok (v, moved c n))
          (ap u16 (
              masked16 (u16 (join2 first (byte 1)) <<< (c.bitpos % 8)) (2 ^ (16 - n))
              ∙ in_word n 2 16 (u16 (join2 first (byte 1))) refl fits room (joined ∙ sym word))
            ∙ mod-eq_of_lt (bits_at-lt_of_le c.bytes c.bitpos n 16 (omega arith))))

  nocheck_uint16_wide :
      (n : ℕ)
      → n ≤ 16
      → 16 < c.bitpos % 8 + n
      → c.bitpos / 8 + 3 ≤ length c.bytes
      → BinaryIn.nocheck_uint16 n c ≡ ok (bits_at c.bytes c.bitpos n, moved c n)
  unfolding BinaryIn.nocheck_uint16
  nocheck_uint16_wide n small wide room =
      let k = c.bitpos / 8 in
      rw
        (
          lt→leb (c.bitpos % 8 + n) 16 wide,
          fetch_inside c k (omega arith),
          fetch_inside c (k + 1) (omega arith),
          fetch_inside c (k + 2) (omega arith),
        )
        (ap (λ v. ok (v, moved c n))
          (ap u16 (
              masked24 (join3 first (byte 1) (byte 2) <<< (c.bitpos % 8)) (2 ^ (24 - n))
              ∙ in_word n 3 24 (join3 first (byte 1) (byte 2)) refl (omega arith) room
                  (window-join3 c.bytes k valid room))
            ∙ mod-eq_of_lt (bits_at-lt_of_le c.bytes c.bitpos n 16 small)))

  below_limit :
      (n : ℕ)
      → c.bitpos + n ≤ c.bitlimit
      → c.bitlimit < 2 ^ 32
      → ltb c.bitlimit (u32 (c.bitpos + n)) ≡ false
  below_limit n inside small = le→ltb c.bitlimit (u32 (c.bitpos + n)) (omega arith)

  -- `ibx::uint8` of 1 to 8 bits that lie within the limit and the buffer returns those bits of the
  -- stream and moves past them.
  pub uint8-bits_at :
      (n : ℕ)
      → 0 < n
      → n ≤ 8
      → c.bitpos + n ≤ c.bitlimit
      → c.bitlimit < 2 ^ 32
      → c.bitlimit ≤ 8 * length c.bytes
      → BinaryIn.uint8 n c ≡ ok (bits_at c.bytes c.bitpos n, moved c n)
  unfolding BinaryIn.uint8
  uint8-bits_at n pos small inside word room =
      rw (below_limit n inside word) (elim (dec_le (c.bitpos % 8 + n) 8) [
        | yes p ↦ nocheck_uint8_narrow n p (omega arith)
        | no p ↦ nocheck_uint8_wide n small (omega arith) (omega arith)
      ])

  -- `ibx::uint16` of at most 16 bits within the limit and the buffer, with two bytes from the position's
  -- on in the buffer, returns those bits of the stream and moves past them.
  pub uint16-bits_at :
      (n : ℕ)
      → n ≤ 16
      → c.bitpos + n ≤ c.bitlimit
      → c.bitlimit < 2 ^ 32
      → c.bitlimit ≤ 8 * length c.bytes
      → c.bitpos / 8 + 2 ≤ length c.bytes
      → BinaryIn.uint16 n c ≡ ok (bits_at c.bytes c.bitpos n, moved c n)
  unfolding BinaryIn.uint16
  uint16-bits_at n small inside word room two =
      rw (below_limit n inside word) (elim (dec_le (c.bitpos % 8 + n) 16) [
        | yes p ↦ nocheck_uint16_narrow n p two
        | no p ↦ nocheck_uint16_wide n small (omega arith) (omega arith)
      ])

  -- `ibx::uint32` of one or more bits within the limit that lie in four bytes, all four in the buffer,
  -- returns those bits and moves past them.
  pub uint32-bits_at :
      (n : ℕ)
      → 0 < n
      → c.bitpos % 8 + n ≤ 32
      → c.bitpos + n ≤ c.bitlimit
      → c.bitlimit < 2 ^ 32
      → c.bitpos / 8 + 4 ≤ length c.bytes
      → BinaryIn.uint32 n c ≡ ok (bits_at c.bytes c.bitpos n, moved c n)
  unfolding BinaryIn.uint32
  uint32-bits_at n pos fits inside word room =
      rw (below_limit n inside word) (nocheck_uint32-bits_at n pos fits room)

module _ (c : IbCtx) (n : ℕ) (inside : c.bitpos + n ≤ c.bitlimit) (word : c.bitlimit < 2 ^ 32) where
  within_limit : ltb c.bitlimit (u32 (c.bitpos + n)) ≡ false
  within_limit = le→ltb c.bitlimit (u32 (c.bitpos + n)) (omega arith)

  -- `ibx::uint32` of bits within the limit that lie in one to four bytes, which start in the buffer with
  -- fewer than four bytes left, reads outside the buffer, whatever the number of bits.
  pub uint32_overread :
      c.bitpos % 8 + n ≤ 32
      → c.bitpos / 8 < length c.bytes
      → length c.bytes < c.bitpos / 8 + 4
      → BinaryIn.uint32 n c ≡ fault
  unfolding BinaryIn.uint32 BinaryIn.nocheck_uint32
  uint32_overread fits start short =
      let k = c.bitpos / 8 in
      rw (within_limit, le→leb (c.bitpos % 8 + n) 32 fits, fetch_inside c k start)
        (if_elim (λ r. r ≡ fault) (n == 0) _ _ (λ _. refl)
          (λ _. elim (dec_le (length c.bytes) (k + 1)) [
            | yes a ↦ rw (fetch_outside c (k + 1) a)
            | no a ↦
                rw (fetch_inside c (k + 1) (omega arith)) (elim (dec_le (length c.bytes) (k + 2)) [
                  | yes b ↦ rw (fetch_outside c (k + 2) b)
                  | no b ↦
                      rw (
                        fetch_inside c (k + 2) (omega arith),
                        fetch_outside c (k + 3) (omega arith),
                      )
                ])
          ]))

-- Where the position would pass the limit and does not wrap around, all three reads throw, whatever
-- the buffer is.
pub past_limit :
    (c : IbCtx) (n : ℕ)
    → c.bitlimit < c.bitpos + n
    → c.bitpos + n < 2 ^ 32
    → (BinaryIn.uint8 n c ≡ throw bits_left)
      × (BinaryIn.uint16 n c ≡ throw bits_left)
      × (BinaryIn.uint32 n c ≡ throw bits_left)
unfolding BinaryIn.uint8 BinaryIn.uint16 BinaryIn.uint32
past_limit c n outside word =
    let test : ltb c.bitlimit (u32 (c.bitpos + n)) ≡ true = lt→ltb _ _ (omega arith) in
    (rw test, rw test, rw test)
