-- ===== src/Io/Writing.antt =====
-- What the writes of `obCtx` and `obx` do to the stream.
use native.Mathlib.Nat.{mod-eq_of_lt}
use native.Mathlib.Decide.{dec_le}
use mopa.Base.{
  IsBytes, ℕ, ◌+◌, ◌-◌, ◌*◌, ◌/◌, ◌%◌, ◌^◌, ◌<◌, ◌≤◌, ◌≡◌, refl, sym, ap, ap₂, ◌∙◌, arith, List, [],
  ◌∷◌, length, get_or, bit_and, ◌<<<◌, ◌>>>◌, u8, u16, u32, sub32, ok, M, le→leb, lt→leb, le→ltb,
  ltb, false,
}
use mopa.Io.Stream.{stream, window}
use mopa.Io.Words.{join2, join3, join4, window-join2, window-join3, window-join4, window-one}
use mopa.Io.Patches.{Patched}
use mopa.Io.Stores.{store_all, store_all-Patched}
use mopa.Io.BinaryOut
use mopa.Io.BinaryOut.{ObCtx, patch}
use mopa.Io.Replacing.{
  patched, patched-lt, patch-patched, split1, split2, split3, split4, mask8, mask16, mask32,
}
use mopa.Io.Memory.{
  fetch_inside, written, cut_pos, window-lt, store_one, store_two, store_three, store_four,
}

module _ (c : ObCtx) (valid : IsBytes c.bytes) (n val : ℕ) (hval : val < 2 ^ n) where
  abbrev k : ℕ
  k = c.bitpos / 8

  abbrev byte : ℕ → ℕ
  byte i = get_or c.bytes (c.bitpos / 8 + i) 0

  abbrev first : ℕ
  first = get_or c.bytes (c.bitpos / 8) 0

  abbrev Writes : M ObCtx (Unit {0}) → Type 0
  Writes f =
      (after : List ℕ) × (f c ≡ ok (tt, written c n after)) × Patched c.bytes after c.bitpos n val

  -- Bytes that hold the patched word, stored over its window.
  stored :
      (w b : ℕ) (vs : List ℕ)
      → b ≡ 8 * w
      → c.bitpos % 8 + n ≤ b
      → k + w ≤ length c.bytes
      → IsBytes vs
      → length vs ≡ w
      → stream vs ≡ patched (window k w c.bytes) n (b - (c.bitpos % 8 + n)) val
      → Patched c.bytes (store_all k vs c.bytes) c.bitpos n val
  stored w b vs eb fits room vs_valid ew new = rw (cut_pos c.bitpos) at (
      store_all-Patched c.bytes vs k (c.bitpos % 8) n (b - (c.bitpos % 8 + n)) w val valid vs_valid
        ew room (omega arith) hval new)

  -- The word that the code computes, however it writes the mask and the shift.
  tmp_word :
      (w b x m s : ℕ)
      → b ≡ 8 * w
      → b ≤ 32
      → c.bitpos % 8 + n ≤ b
      → k + w ≤ length c.bytes
      → window k w c.bytes ≡ x
      → m ≡ 2 ^ n - 1
      → s ≡ b - (c.bitpos % 8 + n)
      → (patch x m s val ≡ patched (window k w c.bytes) n (b - (c.bitpos % 8 + n)) val)
        × (patched (window k w c.bytes) n (b - (c.bitpos % 8 + n)) val < 2 ^ b)
  tmp_word w b x m s eb small fits room ex em es =
      let d = b - (c.bitpos % 8 + n) in
      let range : window k w c.bytes < 2 ^ b = rw eb (window-lt c.bytes k w valid room) in
      (
        ap₂ (λ y z. patch y z s val) (sym ex) em
            ∙ ap (λ z. patch (window k w c.bytes) (2 ^ n - 1) z val) es
            ∙ patch-patched b (c.bitpos % 8) n d (window k w c.bytes) val (omega arith) small range
                hval,
        patched-lt b (c.bitpos % 8) n d (window k w c.bytes) val (omega arith) small range hval,
      )

  nocheck_uint32-Patched :
      0 < n
      → c.bitpos % 8 + n ≤ 32
      → k + 4 ≤ length c.bytes
      → Writes (BinaryOut.nocheck_uint32 n val)
  unfolding BinaryOut.nocheck_uint32
  nocheck_uint32-Patched pos fits room =
      let word =
        tmp_word 4 32 (join4 first (byte 1) (byte 2) (byte 3)) (sub32 (u32 (2 <<< (n - 1))) 1)
          (32 - c.bitpos % 8 - n) refl (omega arith) fits room (window-join4 c.bytes k valid room)
          (mask32 n pos (omega arith)) (omega arith) in
      let tmp = u32 (
        patch (join4 first (byte 1) (byte 2) (byte 3)) (sub32 (u32 (2 <<< (n - 1))) 1)
          (32 - c.bitpos % 8 - n) val) in
      let value : tmp ≡ patched (window k 4 c.bytes) n (32 - (c.bitpos % 8 + n)) val =
        ap u32 word.0 ∙ mod-eq_of_lt word.1 in
      let vs = u8 (tmp >>> 24) ∷ u8 (tmp >>> 16) ∷ u8 (tmp >>> 8) ∷ u8 (tmp >>> 0) ∷ [] in
      (
        store_all k vs c.bytes,
        rw
            (
              le→leb (c.bitpos % 8 + n) 32 fits,
              fetch_inside c k (omega arith),
              fetch_inside c (k + 1) (omega arith),
              fetch_inside c (k + 2) (omega arith),
              fetch_inside c (k + 3) (omega arith),
            )
            (store_four c k n (tmp >>> 24) (tmp >>> 16) (tmp >>> 8) (tmp >>> 0) room),
        stored 4 32 vs refl fits room (omega arith) refl (split4 tmp (omega arith) ∙ value),
      )

  nocheck_uint8_narrow :
      c.bitpos % 8 + n ≤ 8 → k + 1 ≤ length c.bytes → Writes (BinaryOut.nocheck_uint8 n val)
  unfolding BinaryOut.nocheck_uint8
  nocheck_uint8_narrow fits room =
      let word =
        tmp_word 1 8 first (u8 (2 ^ n - 1)) (8 - c.bitpos % 8 - n) refl (omega arith) fits room
          (window-one c.bytes k room) (mask8 n (omega arith)) (omega arith) in
      let tmp = patch first (u8 (2 ^ n - 1)) (8 - c.bitpos % 8 - n) val in
      (
        store_all k (u8 tmp ∷ []) c.bytes,
        rw (le→leb (c.bitpos % 8 + n) 8 fits, fetch_inside c k (omega arith))
            (store_one c k n tmp (omega arith)),
        stored 1 8 (u8 tmp ∷ []) refl fits room (omega arith) refl
            (split1 tmp (rw word.0 word.1) ∙ word.0),
      )

  -- The word of two bytes in a `uint16_t`, and what is stored from it.
  abbrev tmp16 : ℕ
  tmp16 = u16 (patch (u16 (join2 first (byte 1))) (u16 (2 ^ n - 1)) (16 - c.bitpos % 8 - n) val)

  abbrev bytes16 : List ℕ
  bytes16 = u8 (tmp16 >>> 8) ∷ u8 (bit_and tmp16 0xff) ∷ []

  stored16 :
      c.bitpos % 8 + n ≤ 16
      → n ≤ 16
      → k + 2 ≤ length c.bytes
      → Patched c.bytes (store_all k bytes16 c.bytes) c.bitpos n val
  stored16 fits small room =
      let joined = window-join2 c.bytes k valid room in
      let range : window k 2 c.bytes < 2 ^ 16 = window-lt c.bytes k 2 valid room in
      let word_fits : window k 2 c.bytes ≡ u16 (join2 first (byte 1)) =
        sym (mod-eq_of_lt range) ∙ ap u16 joined in
      let word =
        tmp_word 2 16 (u16 (join2 first (byte 1))) (u16 (2 ^ n - 1)) (16 - c.bitpos % 8 - n) refl
          (omega arith) fits room word_fits (mask16 n small) (omega arith) in
      stored 2 16 bytes16 refl fits room (omega arith) refl
        (split2 tmp16 (omega arith) ∙ ap u16 word.0 ∙ mod-eq_of_lt word.1)

  nocheck_uint8_wide :
      n ≤ 8 → 8 < c.bitpos % 8 + n → k + 2 ≤ length c.bytes → Writes (BinaryOut.nocheck_uint8 n val)
  unfolding BinaryOut.nocheck_uint8
  nocheck_uint8_wide small wide room = (
    store_all k bytes16 c.bytes,
    rw
        (
          lt→leb (c.bitpos % 8 + n) 8 wide,
          fetch_inside c k (omega arith),
          fetch_inside c (k + 1) (omega arith),
        )
        (store_two c k n (tmp16 >>> 8) (bit_and tmp16 0xff) room),
    stored16 (omega arith) (omega arith) room,
  )

  nocheck_uint16_narrow :
      c.bitpos % 8 + n ≤ 16 → k + 2 ≤ length c.bytes → Writes (BinaryOut.nocheck_uint16 n val)
  unfolding BinaryOut.nocheck_uint16
  nocheck_uint16_narrow fits room = (
    store_all k bytes16 c.bytes,
    rw
        (
          le→leb (c.bitpos % 8 + n) 16 fits,
          fetch_inside c k (omega arith),
          fetch_inside c (k + 1) (omega arith),
        )
        (store_two c k n (tmp16 >>> 8) (bit_and tmp16 0xff) room),
    stored16 fits (omega arith) room,
  )

  nocheck_uint16_wide :
      n ≤ 16
      → 16 < c.bitpos % 8 + n
      → k + 3 ≤ length c.bytes
      → Writes (BinaryOut.nocheck_uint16 n val)
  unfolding BinaryOut.nocheck_uint16
  nocheck_uint16_wide small wide room =
      let word =
        tmp_word 3 24 (join3 first (byte 1) (byte 2)) (2 ^ n - 1) (24 - c.bitpos % 8 - n) refl
          (omega arith) (omega arith) room (window-join3 c.bytes k valid room) refl (omega arith) in
      let tmp =
        u32 (patch (join3 first (byte 1) (byte 2)) (2 ^ n - 1) (24 - c.bitpos % 8 - n) val) in
      let value : tmp ≡ patched (window k 3 c.bytes) n (24 - (c.bitpos % 8 + n)) val =
        ap u32 word.0 ∙ mod-eq_of_lt (omega (arith, word.1)) in
      let vs = u8 (tmp >>> 16) ∷ u8 (tmp >>> 8) ∷ u8 (bit_and tmp 0xff) ∷ [] in
      (
        store_all k vs c.bytes,
        rw
            (
              lt→leb (c.bitpos % 8 + n) 16 wide,
              fetch_inside c k (omega arith),
              fetch_inside c (k + 1) (omega arith),
              fetch_inside c (k + 2) (omega arith),
            )
            (store_three c k n (tmp >>> 16) (tmp >>> 8) (bit_and tmp 0xff) room),
        stored 3 24 vs refl (omega arith) room (omega arith) refl
            (split3 tmp (rw value word.1) ∙ value),
      )

  within_limit :
      c.bitpos + n ≤ c.bitlimit → c.bitlimit < 2 ^ 32 → ltb c.bitlimit (u32 (c.bitpos + n)) ≡ false
  within_limit inside small = le→ltb c.bitlimit (u32 (c.bitpos + n)) (omega arith)

  -- `obx::uint` of a `uint8_t`: a value that fits its 1 to 8 bits, within the limit and the buffer, patches
  -- those bits of the stream, changes nothing else of it, and moves past them.
  pub uint8-Patched :
      0 < n
      → n ≤ 8
      → c.bitpos + n ≤ c.bitlimit
      → c.bitlimit < 2 ^ 32
      → c.bitlimit ≤ 8 * length c.bytes
      → (after : List ℕ) × (BinaryOut.uint8 n val c ≡ ok (tt, written c n after))
        × Patched c.bytes after c.bitpos n val
  unfolding BinaryOut.uint8
  uint8-Patched pos small inside word room =
      let write =
        elim (dec_le (c.bitpos % 8 + n) 8) as (λ _. Writes (BinaryOut.nocheck_uint8 n val)) [
          | yes p ↦ nocheck_uint8_narrow p (omega arith)
          | no p ↦ nocheck_uint8_wide small (omega arith) (omega arith)
        ] in
      (write.0, rw (within_limit inside word) write.1, write.2)

  -- `obx::uint` of a `uint16_t`: a value that fits its bits, at most 16, within the limit and the
  -- buffer, with two bytes from the position's on in the buffer, patches those bits of the stream,
  -- changes nothing else of it, and moves past them.
  pub uint16-Patched :
      n ≤ 16
      → c.bitpos + n ≤ c.bitlimit
      → c.bitlimit < 2 ^ 32
      → c.bitlimit ≤ 8 * length c.bytes
      → c.bitpos / 8 + 2 ≤ length c.bytes
      → (after : List ℕ) × (BinaryOut.uint16 n val c ≡ ok (tt, written c n after))
        × Patched c.bytes after c.bitpos n val
  unfolding BinaryOut.uint16
  uint16-Patched small inside word room two =
      let write =
        elim (dec_le (c.bitpos % 8 + n) 16) as (λ _. Writes (BinaryOut.nocheck_uint16 n val)) [
          | yes p ↦ nocheck_uint16_narrow p two
          | no p ↦ nocheck_uint16_wide small (omega arith) (omega arith)
        ] in
      (write.0, rw (within_limit inside word) write.1, write.2)

  -- `obx::uint` of a `uint32_t`: a value that fits its one or more bits, which lie within the limit
  -- and in four bytes, all four in the buffer, patches those bits of the stream, changes nothing else
  -- of it, and moves past them.
  pub uint32-Patched :
      0 < n
      → c.bitpos % 8 + n ≤ 32
      → c.bitpos + n ≤ c.bitlimit
      → c.bitlimit < 2 ^ 32
      → c.bitpos / 8 + 4 ≤ length c.bytes
      → (after : List ℕ) × (BinaryOut.uint32 n val c ≡ ok (tt, written c n after))
        × Patched c.bytes after c.bitpos n val
  unfolding BinaryOut.uint32
  uint32-Patched pos fits inside word room =
      let write = nocheck_uint32-Patched pos fits room in
      (write.0, rw (within_limit inside word, le→leb (c.bitpos % 8 + n) 32 fits) write.1, write.2)
