-- ===== src/Io/Stores.antt =====
-- Consecutive bytes stored into a buffer, and the word operations of a write.
use mopa.Base.{
  IsBytes, ℕ, zero, suc, ◌+◌, ◌-◌, ◌*◌, ◌/◌, ◌%◌, ◌^◌, ◌<◌, ◌≤◌, ◌≡◌, refl, sym, ap, ap₂, ◌∙◌,
  arith, List, [], ◌∷◌, ◌++◌, length, take, drop, set, length-set, length-drop, length-append,
  bit_or, bit_and, u32, not32, ◌<<<◌,
}
use mopa.Bits.{and_parts, or_parts, bit_and-zero, bit_and-ones, bit_or-zero, bit_or-zero_left}
use mopa.Bits.Fields.{two-pow-add, two-pow_pos, field_split, field-lt, field_regroup, low_room}
use mopa.Io.Stream.{
  stream, stream-append, window, stream-window, rest-lt, IsBytes-take, IsBytes-drop,
}
use mopa.Io.Patches.{Patched, behind}
use mopa.Io.BinaryOut.{patch}

-- `data[k] = v0; data[k+1] = v1; ...`
unfoldable pub store_all : ℕ → List ℕ → List ℕ → List ℕ
store_all k [] bytes = bytes
store_all k (v ∷ vs) bytes = store_all (suc k) vs (set bytes k v)

store_all-cons :
    (k : ℕ) (vs : List ℕ) (x : ℕ) (xs : List ℕ)
    → store_all (suc k) vs (x ∷ xs) ≡ x ∷ store_all k vs xs
unfolding store_all
store_all-cons k [] x xs = refl
store_all-cons k (v ∷ vs) x xs = store_all-cons (suc k) vs x (set xs k v)

pub store_all_parts :
    (k : ℕ) (vs bytes : List ℕ)
    → k + length vs ≤ length bytes
    → store_all k vs bytes ≡ take k bytes ++ (vs ++ drop (length vs) (drop k bytes))
unfolding store_all
store_all_parts zero [] bytes h = refl
store_all_parts zero (v ∷ vs) [] h = absurd (omega arith)
store_all_parts zero (v ∷ vs) (x ∷ xs) h =
    store_all-cons 0 vs v xs ∙ ap (λ r. v ∷ r) (store_all_parts zero vs xs (omega arith))
store_all_parts (suc k) vs [] h = absurd (omega arith)
store_all_parts (suc k) vs (x ∷ xs) h =
    store_all-cons k vs x xs ∙ ap (λ r. x ∷ r) (store_all_parts k vs xs (omega arith))

pred_of_pos : (x : ℕ) → 0 < x → (y : ℕ) × (x ≡ suc y)
pred_of_pos zero h = elim h [ ]
pred_of_pos (suc y) h = (y, refl)

complement_of : (r b c : ℕ) → suc r * suc b * suc c - 1 - b * suc c ≡ (r * suc b + 0) * suc c + c
complement_of r b c = omega arith

complement_sum :
    (a b c : ℕ)
    → 0 < a
    → 0 < b
    → 0 < c
    → a * b * c - 1 - (b - 1) * c ≡ ((a - 1) * b + 0) * c + (c - 1)
complement_sum zero b c ha hb hc = elim ha [ ]
complement_sum (suc a) zero c ha hb hc = elim hb [ ]
complement_sum (suc a) (suc b) zero ha hb hc = elim hc [ ]
complement_sum (suc a) (suc b) (suc c) ha hb hc =
    let ea : suc a - 1 ≡ a = omega arith in
    let eb : suc b - 1 ≡ b = omega arith in
    let ec : suc c - 1 ≡ c = omega arith in rw (ea, eb, ec) (complement_of a b c)

mask_fits : (a b c : ℕ) → 0 < a → 0 < b → 0 < c → (b - 1) * c < a * b * c
mask_fits zero b c ha hb hc = elim ha [ ]
mask_fits (suc a) zero c ha hb hc = elim hb [ ]
mask_fits (suc a) (suc b) zero ha hb hc = elim hc [ ]
mask_fits (suc a) (suc b) (suc c) ha hb hc =
    let eb : suc b - 1 ≡ b = omega arith in rw eb (omega arith)

-- `~(mask << s)` in its three parts.
not_mask :
    (n s r : ℕ)
    → r + (n + s) ≡ 32
    → not32 (u32 ((2 ^ n - 1) <<< s)) ≡ ((2 ^ r - 1) * 2 ^ n + 0) * 2 ^ s + (2 ^ s - 1)
not_mask n s r e =
    let word : 2 ^ 32 ≡ 2 ^ r * 2 ^ n * 2 ^ s =
      ap (λ k. 2 ^ k) (sym e)
      ∙ two-pow-add r (n + s)
      ∙ ap (λ y. 2 ^ r * y) (two-pow-add n s)
      ∙ omega arith in
    let fits = mask_fits (2 ^ r) (2 ^ n) (2 ^ s) (two-pow_pos r) (two-pow_pos n) (two-pow_pos s) in
    let same : u32 ((2 ^ n - 1) <<< s) ≡ (2 ^ n - 1) * 2 ^ s = omega (arith, fits, word) in
    ap (λ m. not32 m) same
    ∙ ap (λ (w : ℕ). w - 1 - (2 ^ n - 1) * 2 ^ s) word
    ∙ complement_sum (2 ^ r) (2 ^ n) (2 ^ s) (two-pow_pos r) (two-pow_pos n) (two-pow_pos s)

-- The word with its field replaced.
pub patch_parts :
    (h v l n s val r : ℕ)
    → v < 2 ^ n
    → l < 2 ^ s
    → val < 2 ^ n
    → r + (n + s) ≡ 32
    → h < 2 ^ r
    → patch ((h * 2 ^ n + v) * 2 ^ s + l) (2 ^ n - 1) s val ≡ (h * 2 ^ n + val) * 2 ^ s + l
patch_parts h v l n s val r hv hl hval er hh = rw (not_mask n s r er) (
    ap (λ y. bit_or y (val <<< s)) kept
    ∙ ap (λ y. bit_or (h * 2 ^ n * 2 ^ s + l) y) shifted
    ∙ joined)
  where
    kept :
        bit_and ((h * 2 ^ n + v) * 2 ^ s + l) (((2 ^ r - 1) * 2 ^ n + 0) * 2 ^ s + (2 ^ s - 1))
        ≡ h * 2 ^ n * 2 ^ s + l
    kept = ground (
      arith,
      two-pow_pos s,
      two-pow_pos n,
      and_parts s (h * 2 ^ n + v) l ((2 ^ r - 1) * 2 ^ n + 0) (2 ^ s - 1),
      and_parts n h v (2 ^ r - 1) 0,
      bit_and-ones r h,
      bit_and-ones s l,
      bit_and-zero v,
    )

    shifted : val <<< s ≡ val * 2 ^ s + 0
    shifted = omega arith

    joined : bit_or (h * 2 ^ n * 2 ^ s + l) (val * 2 ^ s + 0) ≡ (h * 2 ^ n + val) * 2 ^ s + l
    joined = ground (
      arith,
      two-pow_pos s,
      two-pow_pos n,
      or_parts s (h * 2 ^ n) l val 0,
      or_parts n h 0 0 val,
      bit_or-zero h,
      bit_or-zero l,
      bit_or-zero_left val,
    )

IsBytes-append : (xs ys : List ℕ) → IsBytes xs → IsBytes ys → IsBytes (xs ++ ys)
IsBytes-append [] ys p q = q
IsBytes-append (x ∷ xs) ys p q = (p.0, IsBytes-append xs ys p.1 q)

length-store_all : (k : ℕ) (vs bytes : List ℕ) → length (store_all k vs bytes) ≡ length bytes
unfolding store_all
length-store_all k [] bytes = refl
length-store_all k (v ∷ vs) bytes =
    length-store_all (suc k) vs (set bytes k v) ∙ length-set bytes k v

-- Bytes stored over a window patch the field of the stream that they patch in the window.
pub store_all-Patched :
    (bytes vs : List ℕ) (k o n s w val : ℕ)
    → IsBytes bytes
    → IsBytes vs
    → length vs ≡ w
    → k + w ≤ length bytes
    → o + n + s ≡ 8 * w
    → val < 2 ^ n
    → (let x = window k w bytes in
        stream vs ≡ (x / 2 ^ s / 2 ^ n * 2 ^ n + val) * 2 ^ s + x % 2 ^ s)
    → Patched bytes (store_all k vs bytes) (8 * k + o) n val
store_all-Patched bytes vs k o n s w val valid vs_valid ew fits e hval new = record {
  hi = stream (take k bytes) * 2 ^ o + x / 2 ^ s / 2 ^ n;
  old = x / 2 ^ s % 2 ^ n;
  lo = x % 2 ^ s * 2 ^ t + rest;
  lo_fits = rw et (low_room x rest s t rest_fits);
  old_fits = field-lt x n s;
  val_fits = hval;
  was = rw et (
      stream-window bytes k w t fits refl
      ∙ ap₂ (λ d y. stream (take k bytes) * 2 ^ d + y * 2 ^ t + rest) ewt (field_split x n s)
      ∙ field_regroup (stream (take k bytes)) (x / 2 ^ s / 2 ^ n) (x / 2 ^ s % 2 ^ n) (x % 2 ^ s)
          rest o n s t);
  now = rw et (
      new_stream
      ∙ ap₂ (λ d y. stream (take k bytes) * 2 ^ d + y * 2 ^ t + rest) ewt new
      ∙ field_regroup (stream (take k bytes)) (x / 2 ^ s / 2 ^ n) val (x % 2 ^ s) rest o n s t);
  same_length = length-store_all k vs bytes;
  after-IsBytes = rw parts (
      IsBytes-append (take k bytes) _ (IsBytes-take k bytes valid) (
        IsBytes-append vs _ vs_valid
          (IsBytes-drop (length vs) (drop k bytes) (IsBytes-drop k bytes valid))));
}
  where
    x : ℕ
    x = window k w bytes

    t : ℕ
    t = 8 * (length bytes - (k + w))

    rest : ℕ
    rest = stream (drop w (drop k bytes))

    rest_fits : rest < 2 ^ t
    rest_fits = rest-lt bytes k w t valid refl

    et : behind bytes (8 * k + o) n ≡ s + t
    et = omega arith

    ewt : 8 * w + t ≡ o + n + s + t
    ewt = omega arith

    parts : store_all k vs bytes ≡ take k bytes ++ (vs ++ drop (length vs) (drop k bytes))
    parts = store_all_parts k vs bytes (omega arith)

    tail_length : 8 * length (drop w (drop k bytes)) ≡ t
    tail_length = omega (arith, length-drop w (drop k bytes), length-drop k bytes)

    back_length : 8 * length (vs ++ drop w (drop k bytes)) ≡ 8 * w + t
    back_length = omega (arith, length-append vs (drop w (drop k bytes)), tail_length)

    new_stream :
        stream (store_all k vs bytes)
        ≡ stream (take k bytes) * 2 ^ (8 * w + t) + stream vs * 2 ^ t + rest
    new_stream =
        ap stream (parts ∙ ap (λ m. take k bytes ++ (vs ++ drop m (drop k bytes))) ew)
        ∙ stream-append (take k bytes) (vs ++ drop w (drop k bytes))
        ∙ ap₂ (λ p q. stream (take k bytes) * 2 ^ p + q) back_length
            (stream-append vs (drop w (drop k bytes))
              ∙ ap (λ p. stream vs * 2 ^ p + rest) tail_length)
        ∙ omega arith
