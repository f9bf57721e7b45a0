-- ===== src/Io/Memory.antt =====
-- The buffer of `obCtx`, byte by byte.
use mopa.Base.{
  IsBytes, ℕ, suc, ◌+◌, ◌*◌, ◌/◌, ◌%◌, ◌^◌, ◌<◌, ◌≤◌, ◌≡◌, arith, List, [], ◌∷◌, length,
  length-take, length-drop, take, drop, get_or, get_elem?-eq-get_or, set, length-set, u8, u32, ok,
  ◌>>◌, lt→ltb,
}
use mopa.Io.Stream.{stream-lt, window, IsBytes-take, IsBytes-drop}
use mopa.Io.Stores.{store_all}
use mopa.Io.BinaryOut
use mopa.Io.BinaryOut.{ObCtx, patch}

module _ (c : ObCtx) (i : ℕ) (inside : i < length c.bytes) where
  pub fetch_inside : BinaryOut.fetch i c ≡ ok (get_or c.bytes i 0, c)
  unfolding BinaryOut.fetch
  fetch_inside = rw (get_elem?-eq-get_or c.bytes i 0 inside, BinaryOut.fetch)

  store_inside :
      (v : ℕ) → BinaryOut.store i v c ≡ ok (tt, record c { bytes = set c.bytes i (u8 v) })
  unfolding BinaryOut.store
  store_inside v = rw (lt→ltb i (length c.bytes) inside)

-- The context after a write.
abbrev pub written : ObCtx → ℕ → List ℕ → ObCtx
written c bitsize bytes = record c { bitpos = u32 (c.bitpos + bitsize); bytes = bytes }

pub cut_pos : (p : ℕ) → 8 * (p / 8) + p % 8 ≡ p
cut_pos p = omega arith

pub window-lt :
    (bytes : List ℕ) (k w : ℕ)
    → IsBytes bytes
    → k + w ≤ length bytes
    → window k w bytes < 2 ^ (8 * w)
window-lt bytes k w valid h =
    let e : length (take w (drop k bytes)) ≡ w =
      omega (arith, length-take w (drop k bytes), length-drop k bytes) in
    rw e at (
      stream-lt (take w (drop k bytes))
        (IsBytes-take w (drop k bytes) (IsBytes-drop k bytes valid)))

module _ (c : ObCtx) (k n : ℕ) where
  pub store_one :
      (v : ℕ)
      → k < length c.bytes
      → (BinaryOut.store k v >> BinaryOut.advance n) c
        ≡ ok (tt, written c n (store_all k (u8 v ∷ []) c.bytes))
  unfolding store_all BinaryOut.advance
  store_one v room = rw (store_inside c k room v)

  pub store_two :
      (v w : ℕ)
      → k + 2 ≤ length c.bytes
      → (BinaryOut.store k v >> (BinaryOut.store (k + 1) w >> BinaryOut.advance n)) c
        ≡ ok (tt, written c n (store_all k (u8 v ∷ u8 w ∷ []) c.bytes))
  unfolding store_all BinaryOut.advance
  store_two v w room =
      let c1 = record c { bytes = set c.bytes k (u8 v) } in
      let e : k + 1 ≡ suc k = omega arith in
      rw (
        store_inside c k (omega arith) v,
        store_inside c1 (k + 1) (omega (arith, length-set c.bytes k (u8 v))) w,
        e,
      )

  pub store_three :
      (v w x : ℕ)
      → k + 3 ≤ length c.bytes
      → (BinaryOut.store k v
            >> (BinaryOut.store (k + 1) w >> (BinaryOut.store (k + 2) x >> BinaryOut.advance n)))
          c
        ≡ ok (tt, written c n (store_all k (u8 v ∷ u8 w ∷ u8 x ∷ []) c.bytes))
  unfolding store_all BinaryOut.advance
  store_three v w x room =
      let b1 = set c.bytes k (u8 v) in
      let b2 = set b1 (k + 1) (u8 w) in
      let l1 = length-set c.bytes k (u8 v) in
      let l2 = length-set b1 (k + 1) (u8 w) in
      let e1 : k + 1 ≡ suc k = omega arith in
      let e2 : k + 2 ≡ suc (suc k) = omega arith in
      rw (
        store_inside c k (omega arith) v,
        store_inside (record c { bytes = b1 }) (k + 1) (omega (arith, l1)) w,
        store_inside (record c { bytes = b2 }) (k + 2) (omega (arith, l1, l2)) x,
        e1,
        e2,
      )

  pub store_four :
      (v w x y : ℕ)
      → k + 4 ≤ length c.bytes
      → (BinaryOut.store k v
            >> (BinaryOut.store (k + 1) w
                >> (BinaryOut.store (k + 2) x
                    >> (BinaryOut.store (k + 3) y >> BinaryOut.advance n))))
          c
        ≡ ok (tt, written c n (store_all k (u8 v ∷ u8 w ∷ u8 x ∷ u8 y ∷ []) c.bytes))
  unfolding store_all BinaryOut.advance
  store_four v w x y room =
      let b1 = set c.bytes k (u8 v) in
      let b2 = set b1 (k + 1) (u8 w) in
      let b3 = set b2 (k + 2) (u8 x) in
      let l1 = length-set c.bytes k (u8 v) in
      let l2 = length-set b1 (k + 1) (u8 w) in
      let l3 = length-set b2 (k + 2) (u8 x) in
      let e1 : k + 1 ≡ suc k = omega arith in
      let e2 : k + 2 ≡ suc (suc k) = omega arith in
      let e3 : k + 3 ≡ suc (suc (suc k)) = omega arith in
      rw (
        store_inside c k (omega arith) v,
        store_inside (record c { bytes = b1 }) (k + 1) (omega (arith, l1)) w,
        store_inside (record c { bytes = b2 }) (k + 2) (omega (arith, l1, l2)) x,
        store_inside (record c { bytes = b3 }) (k + 3) (omega (arith, l1, l2, l3)) y,
        e1,
        e2,
        e3,
      )
