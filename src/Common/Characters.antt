-- ===== src/Common/Characters.antt =====
-- src/commontypes.cpp `fixed_string_io` and `short_string_io` in the binary form: characters written
-- and read.
use native.Mathlib.Nat.{div-eq_of_lt, mod-eq_of_lt}
use mathlib.Core.Path.{subst}
use mopa.Bits.Fields.{div_parts, mod_parts}
use mopa.Base.{
  IsBytes, ℕ, zero, suc, ◌+◌, ◌*◌, ◌/◌, ◌%◌, ◌^◌, ◌<◌, ◌≤◌, ◌≡◌, refl, sym, ap, ap₂, ◌∙◌, arith,
  List, [], ◌∷◌, ◌++◌, length, take, drop, length-take, length-drop, false, le→ltb, le→leb, ==_iff,
  u8, u32, slice, overwrite, ok, Option,
}
use mopa.Io.Info.{Info}
use mopa.Io.Stream.{stream, stream-lt, bits_at, bits_at-window, window, IsBytes-take, IsBytes-drop}
use mopa.Io.Memory.{window-lt}
use mopa.Io.Stores.{store_all, store_all_parts, store_all-Patched}
use mopa.Io.Patches.{Patched}
use mopa.Io.BinaryIn.{IbCtx}
use mopa.Io.BinaryOut.{ObCtx}
use mopa.Io.Coding.{Codes}
use mopa.Io.Coding.Fields.{field-Leads}
use mopa.Common.Strings.{
  take_string, put_string, fixed_string_in, fixed_string_out, fixed_string_io,
}

-- Bytes are known by their number.
stream_inj :
    (xs ys : List ℕ)
    → IsBytes xs
    → IsBytes ys
    → length xs ≡ length ys
    → stream xs ≡ stream ys
    → xs ≡ ys
unfolding stream
stream_inj [] [] px py len same = refl
stream_inj [] (y ∷ ys) px py len same = absurd (omega (arith, len))
stream_inj (x ∷ xs) [] px py len same = absurd (omega (arith, len))
stream_inj (x ∷ xs) (y ∷ ys) px py len same =
    let size : length xs ≡ length ys = omega (arith, len) in
    let a = stream-lt xs px.1 in
    let b : stream ys < 2 ^ (8 * length xs) = rw size (stream-lt ys py.1) in
    let both : x * 2 ^ (8 * length xs) + stream xs ≡ y * 2 ^ (8 * length xs) + stream ys =
      same ∙ ap (λ l. y * 2 ^ (8 * l) + stream ys) (sym size) in
    let p = 2 ^ (8 * length xs) in
    ap₂ (λ h t. h ∷ t)
      (sym (div_parts x (stream xs) p a) ∙ ap (λ v. v / p) both ∙ div_parts y (stream ys) p b)
      (stream_inj xs ys px.1 py.1 size
        (sym (mod_parts x (stream xs) p a) ∙ ap (λ v. v % p) both ∙ mod_parts y (stream ys) p b))

drop-drop : (k n : ℕ) (xs : List ℕ) → drop n (drop k xs) ≡ drop (k + n) xs
drop-drop zero n xs = ap (λ m. drop m xs) (omega arith)
drop-drop (suc k) zero [] = let e : suc k + 0 ≡ suc (k + 0) = omega arith in rw e refl
drop-drop (suc k) (suc n) [] = let e : suc k + suc n ≡ suc (k + suc n) = omega arith in rw e refl
drop-drop (suc k) n (x ∷ xs) =
    let e : suc k + n ≡ suc (k + n) = omega arith in rw e (drop-drop k n xs)

-- All bits of some bytes.
bytes_at :
    (bytes : List ℕ) (k w : ℕ)
    → IsBytes bytes
    → k + w ≤ length bytes
    → bits_at bytes (8 * k) (8 * w) ≡ stream (take w (drop k bytes))
bytes_at bytes k w valid fits =
    let e : 8 * k + 0 ≡ 8 * k = omega arith in
    let one : window k w bytes / 2 ^ 0 ≡ window k w bytes = omega arith in
    ap (λ p. bits_at bytes p (8 * w)) (sym e)
    ∙ bits_at-window bytes k 0 (8 * w) w 0 valid fits (omega arith)
    ∙ ap (λ v. v % 2 ^ (8 * w)) one
    ∙ mod-eq_of_lt (window-lt bytes k w valid fits)

take_eq-bytes_at :
    (bytes str : List ℕ) (k : ℕ)
    → IsBytes bytes
    → IsBytes str
    → k + length str ≤ length bytes
    → bits_at bytes (8 * k) (8 * length str) ≡ stream str
    → take (length str) (drop k bytes) ≡ str
take_eq-bytes_at bytes str k valid chars fits same =
    stream_inj (take (length str) (drop k bytes)) str
      (IsBytes-take (length str) (drop k bytes) (IsBytes-drop k bytes valid)) chars
      (omega (arith, length-take (length str) (drop k bytes), length-drop k bytes))
      (sym (bytes_at bytes k (length str) valid fits) ∙ same)

-- The same bits, byte for byte.
pub take_eq :
    (xs ys : List ℕ) (k w : ℕ)
    → IsBytes xs
    → IsBytes ys
    → k + w ≤ length xs
    → k + w ≤ length ys
    → bits_at xs (8 * k) (8 * w) ≡ bits_at ys (8 * k) (8 * w)
    → take w (drop k xs) ≡ take w (drop k ys)
take_eq xs ys k w px py fx fy same =
    stream_inj (take w (drop k xs)) (take w (drop k ys))
      (IsBytes-take w (drop k xs) (IsBytes-drop k xs px))
      (IsBytes-take w (drop k ys) (IsBytes-drop k ys py))
      (omega (
        arith,
        length-take w (drop k xs),
        length-drop k xs,
        length-take w (drop k ys),
        length-drop k ys,
      ))
      (sym (bytes_at xs k w px fx) ∙ same ∙ bytes_at ys k w py fy)

overwrite-Patched :
    (bytes str : List ℕ) (k : ℕ)
    → IsBytes bytes
    → IsBytes str
    → k + length str ≤ length bytes
    → (after : List ℕ) × (overwrite bytes k str ≡ ok after)
      × Patched bytes after (8 * k) (8 * length str) (stream str)
unfolding overwrite
overwrite-Patched bytes str k valid chars fits =
    let w = length str in
    let x = window k w bytes in
    let none_above : x / 2 ^ 0 / 2 ^ (8 * w) ≡ 0 =
      div-eq_of_lt (omega (arith, window-lt bytes k w valid fits)) in
    let number : stream str
        ≡ (x / 2 ^ 0 / 2 ^ (8 * w) * 2 ^ (8 * w) + stream str) * 2 ^ 0 + x % 2 ^ 0 =
      rw none_above (omega arith) in
    let e : 8 * k + 0 ≡ 8 * k = omega arith in
    (
      store_all k str bytes,
      rw (le→leb (k + w) (length bytes) fits) (
          ap (λ b. ok (take k bytes ++ (str ++ b))) (sym (drop-drop k w bytes))
          ∙ ap ok (sym (store_all_parts k str bytes fits))),
      subst (λ p. Patched bytes (store_all k str bytes) p (8 * w) (stream str)) e
          (store_all-Patched bytes str k 0 (8 * w) 0 w (stream str) valid chars refl fits
            (omega arith) (stream-lt str chars) number),
    )

-- Characters from the start of a byte on, with as many for the reader.
module _ (str : List ℕ) (chars : IsBytes str) where
  put_string-Patched :
      (c : ObCtx)
      → IsBytes c.bytes
      → c.bitpos % 8 ≡ 0
      → c.bitpos + 8 * length str ≤ c.bitlimit
      → c.bitlimit < 2 ^ 31
      → c.bitlimit ≤ 8 * length c.bytes
      → (after : List ℕ) × (put_string str c
          ≡ ok (tt, record c { bitpos = c.bitpos + 8 * length str; bytes = after }))
        × Patched c.bytes after c.bitpos (8 * length str) (stream str)
  unfolding put_string
  put_string-Patched c valid aligned inside word room =
      let w = overwrite-Patched c.bytes str (c.bitpos / 8) valid chars (omega arith) in
      let start : 8 * (c.bitpos / 8) ≡ c.bitpos = omega arith in
      (
        w.0,
        rw w.1 (ap (λ p. ok (tt, record c { bitpos = p; bytes = w.0 })) (omega arith)),
        subst (λ p. Patched c.bytes w.0 p (8 * length str) (stream str)) start w.2,
      )

  take_string-bits_at :
      (r : IbCtx)
      → IsBytes r.bytes
      → r.bitpos % 8 ≡ 0
      → r.bitpos + 8 * length str ≤ r.bitlimit
      → r.bitlimit < 2 ^ 31
      → r.bitlimit ≤ 8 * length r.bytes
      → bits_at r.bytes r.bitpos (8 * length str) ≡ stream str
      → take_string (length str) r ≡ ok (str, record r { bitpos = r.bitpos + 8 * length str })
  unfolding take_string slice
  take_string-bits_at r valid aligned inside word room is =
      let k = r.bitpos / 8 in
      let start : r.bitpos ≡ 8 * k = omega arith in
      let same : take (length str) (drop k r.bytes) ≡ str =
        take_eq-bytes_at r.bytes str k valid chars (omega arith)
          (ap (λ p. bits_at r.bytes p (8 * length str)) (sym start) ∙ is) in
      rw (le→leb (k + length str) (length r.bytes) (omega arith), same)
        (ap (λ p. ok (str, record r { bitpos = p })) (omega arith))

  pub fixed_string-Codes :
      (olds : List ℕ) (info : Option Info)
      → length str < 2 ^ 8
      → Codes 0 false
          (fixed_string_io (length str) str info)
          str
          (fixed_string_io (length str) olds info)
          str
          (8 * length str)
  unfolding fixed_string_io fixed_string_in fixed_string_out
  fixed_string-Codes olds info short c can =
      let w = put_string-Patched c can.valid can.aligned can.inside can.word can.in_buffer in
      field-Leads c (omega (arith, can.spare))
        (
          w.0,
          rw
              (
                (==_iff (c.bitpos % 8) 0).1 can.aligned,
                (==_iff (length str) (length str)).1 refl,
                le→ltb c.bitlimit (u32 (c.bitpos + length str * 8)) (omega (arith, can.inside)),
                w.1,
              )
              refl,
          w.2,
        )
        λ r len valid same inside word room is.
          let aligned : r.bitpos % 8 ≡ 0 = omega (arith, can.aligned, same) in
          let byte : u8 (length str) ≡ length str = mod-eq_of_lt short in
          rw
            (
              (==_iff (r.bitpos % 8) 0).1 aligned,
              byte,
              le→ltb r.bitlimit (u32 (r.bitpos + length str * 8)) (omega arith),
              take_string-bits_at r valid aligned inside word room is,
            )
            refl
