-- ===== src/Io/Stream.antt =====
-- The specification of a bit stream: a buffer is one number, its first byte the most significant, and
-- the `n` bits at position `pos` are a field of that number.
use mopa.Base.{
  IsBytes, ℕ, zero, suc, ◌+◌, ◌-◌, ◌*◌, ◌/◌, ◌%◌, ◌^◌, ◌<◌, ◌≤◌, ◌≡◌, refl, sym, ap, ap₂, ◌∙◌,
  arith, List, [], ◌∷◌, ◌++◌, length, take, drop, length-append, length-take, length-drop,
  take-append-drop, get_or,
}
use mopa.Bits.Fields.{two-pow-add, digit_room, field_window}

unfoldable pub stream : List ℕ → ℕ
stream [] = 0
stream (b ∷ bs) = b * 2 ^ (8 * length bs) + stream bs

unfoldable pub bits_at : List ℕ → ℕ → ℕ → ℕ
bits_at bytes pos n = stream bytes / 2 ^ (8 * length bytes - (pos + n)) % 2 ^ n

pub stream-lt : (bs : List ℕ) → IsBytes bs → stream bs < 2 ^ (8 * length bs)
unfolding stream
stream-lt [] ok = omega arith
stream-lt (b ∷ bs) ok =
    let e : 8 * suc (length bs) ≡ 8 + 8 * length bs = omega arith in
    rw (e, two-pow-add 8 (8 * length bs))
      (digit_room b (stream bs) (2 ^ 8) (2 ^ (8 * length bs)) ok.0 (stream-lt bs ok.1))

pub stream-append :
    (xs ys : List ℕ) → stream (xs ++ ys) ≡ stream xs * 2 ^ (8 * length ys) + stream ys
unfolding stream
stream-append [] ys = omega arith
stream-append (x ∷ xs) ys =
    let e : 8 * length (xs ++ ys) ≡ 8 * length xs + 8 * length ys =
      omega (arith, length-append xs ys) in
    rw (e, two-pow-add (8 * length xs) (8 * length ys), stream-append xs ys) (omega arith)

pub IsBytes-drop : (n : ℕ) (bs : List ℕ) → IsBytes bs → IsBytes (drop n bs)
IsBytes-drop zero bs ok = ok
IsBytes-drop (suc n) [] ok = ok
IsBytes-drop (suc n) (b ∷ bs) ok = IsBytes-drop n bs ok.1

pub IsBytes-take : (n : ℕ) (bs : List ℕ) → IsBytes bs → IsBytes (take n bs)
IsBytes-take zero bs ok = tt
IsBytes-take (suc n) [] ok = ok
IsBytes-take (suc n) (b ∷ bs) ok = (ok.0, IsBytes-take n bs ok.1)

-- The number in the `w` bytes from byte `k` on.
abbrev pub window : ℕ → ℕ → List ℕ → ℕ
window k w bytes = stream (take w (drop k bytes))

-- A buffer is cut into what is before a window, the window, and the rest.
pub stream-window :
    (bytes : List ℕ) (k w t : ℕ)
    → k + w ≤ length bytes
    → t ≡ 8 * (length bytes - (k + w))
    → stream bytes
      ≡ stream (take k bytes) * 2 ^ (8 * w + t)
        + window k w bytes * 2 ^ t
        + stream (drop w (drop k bytes))
stream-window bytes k w t fits et =
    let after = drop k bytes in
    let rest : 8 * length (drop w after) ≡ t =
      omega (arith, length-drop w after, length-drop k bytes) in
    let inner : 8 * length after ≡ 8 * w + t = omega (arith, length-drop k bytes) in
    let cut : stream bytes ≡ stream (take k bytes) * 2 ^ (8 * length after) + stream after =
      ap stream (sym (take-append-drop k bytes)) ∙ stream-append (take k bytes) after in
    let cut_after : stream after
        ≡ window k w bytes * 2 ^ (8 * length (drop w after)) + stream (drop w after) =
      ap stream (sym (take-append-drop w after)) ∙ stream-append (take w after) (drop w after) in
    cut
    ∙ ap₂ (λ p q. stream (take k bytes) * 2 ^ p + q) inner
        (cut_after ∙ ap (λ p. window k w bytes * 2 ^ p + stream (drop w after)) rest)
    ∙ omega arith

pub rest-lt :
    (bytes : List ℕ) (k w t : ℕ)
    → IsBytes bytes
    → t ≡ 8 * (length bytes - (k + w))
    → stream (drop w (drop k bytes)) < 2 ^ t
rest-lt bytes k w t ok et =
    let rest : 8 * length (drop w (drop k bytes)) ≡ t =
      omega (arith, length-drop w (drop k bytes), length-drop k bytes) in
    rw rest at
      (stream-lt (drop w (drop k bytes)) (IsBytes-drop w (drop k bytes) (IsBytes-drop k bytes ok)))

-- Bits inside a window are a field of the window.
pub bits_at-window :
    (bytes : List ℕ) (k o n w s : ℕ)
    → IsBytes bytes
    → k + w ≤ length bytes
    → o + n + s ≡ 8 * w
    → bits_at bytes (8 * k + o) n ≡ window k w bytes / 2 ^ s % 2 ^ n
unfolding bits_at
bits_at-window bytes k o n w s ok fits e =
    let t = 8 * (length bytes - (k + w)) in
    let below : 8 * length bytes - (8 * k + o + n) ≡ s + t = omega arith in
    let width : 8 * w + t ≡ o + n + s + t = omega arith in
    ap₂ (λ x d. x / 2 ^ d % 2 ^ n) (stream-window bytes k w t fits refl) below
    ∙ ap
        (λ d.
          (stream (take k bytes) * 2 ^ d
            + window k w bytes * 2 ^ t
            + stream (drop w (drop k bytes)))
          / 2 ^ (s + t)
          % 2 ^ n)
        width
    ∙ field_window (stream (take k bytes)) (window k w bytes) (stream (drop w (drop k bytes))) o n s
        t (rest-lt bytes k w t ok refl)

pub window-suc :
    (bytes : List ℕ) (k w : ℕ)
    → k + suc w ≤ length bytes
    → window k (suc w) bytes ≡ get_or bytes k 0 * 2 ^ (8 * w) + window (suc k) w bytes
unfolding stream
window-suc [] k w h = absurd (omega arith)
window-suc (x ∷ xs) zero w h =
    let e : 8 * length (take w xs) ≡ 8 * w = omega (arith, length-take w xs) in rw e
window-suc (x ∷ xs) (suc k) w h = window-suc xs k w (omega arith)

pub window-zero : (bytes : List ℕ) (k : ℕ) → window k 0 bytes ≡ 0
unfolding stream
window-zero bytes k = refl

pub get_or-lt : (bytes : List ℕ) (i : ℕ) → IsBytes bytes → get_or bytes i 0 < 2 ^ 8
get_or-lt [] i ok = omega arith
get_or-lt (b ∷ bs) zero ok = ok.0
get_or-lt (b ∷ bs) (suc i) ok = get_or-lt bs i ok.1
