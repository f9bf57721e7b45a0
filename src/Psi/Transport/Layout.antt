-- ===== src/Psi/Transport/Layout.antt =====
-- The bytes of a packet behind its header, as `sec2ts_impl` changes them.
use mopa.Base.{
  ℕ, zero, suc, ◌+◌, ◌-◌, replicate, ◌<◌, ◌≤◌, ◌≡◌, refl, sym, ap, ◌∙◌, arith, List, [], ◌∷◌, ◌++◌,
  length, take, drop, set, append_assoc, append-nil, take-append, length-append,
}

pub drop_whole : (s : List ℕ) → drop (length s) s ≡ []
drop_whole [] = refl
drop_whole (x ∷ s) = drop_whole s

drop_behind :
    (pre bytes free : List ℕ)
    → drop (length (pre ++ bytes)) (pre ++ free) ≡ drop (length bytes) free
drop_behind [] bytes free = refl
drop_behind (x ∷ pre) bytes free = drop_behind pre bytes free

-- Bytes put behind the first bytes of a payload.
pub put_behind :
    (h0 h1 h2 h3 : ℕ) (pre free bytes : List ℕ)
    → take (4 + length pre) (h0 ∷ h1 ∷ h2 ∷ h3 ∷ pre ++ free)
        ++ (bytes ++ drop (4 + length pre + length bytes) (h0 ∷ h1 ∷ h2 ∷ h3 ∷ pre ++ free))
      ≡ h0 ∷ h1 ∷ h2 ∷ h3 ∷ (pre ++ bytes) ++ drop (length bytes) free
put_behind h0 h1 h2 h3 pre free bytes =
    rw (behind, at, take-append pre free, drop_behind pre bytes free)
      (ap (λ x. h0 ∷ h1 ∷ h2 ∷ h3 ∷ x) (sym (append_assoc pre bytes (drop (length bytes) free))))
  where
    behind : 4 + length pre + length bytes ≡ suc (suc (suc (suc (length (pre ++ bytes)))))
    behind = omega (arith, length-append pre bytes)

    at : 4 + length pre ≡ suc (suc (suc (suc (length pre))))
    at = omega arith

pub put_at :
    (p pre free bytes : List ℕ)
    → 4 ≤ length p
    → drop 4 p ≡ pre ++ free
    → drop 4 (take (4 + length pre) p ++ (bytes ++ drop (4 + length pre + length bytes) p))
      ≡ (pre ++ bytes) ++ drop (length bytes) free
put_at [] pre free bytes h e = absurd (omega arith)
put_at (p0 ∷ []) pre free bytes h e = absurd (omega arith)
put_at (p0 ∷ p1 ∷ []) pre free bytes h e = absurd (omega arith)
put_at (p0 ∷ p1 ∷ p2 ∷ []) pre free bytes h e = absurd (omega arith)
put_at (p0 ∷ p1 ∷ p2 ∷ p3 ∷ p) pre free bytes h e =
    ap
      (λ x. drop 4 (
        take (4 + length pre) (p0 ∷ p1 ∷ p2 ∷ p3 ∷ x)
        ++ (bytes ++ drop (4 + length pre + length bytes) (p0 ∷ p1 ∷ p2 ∷ p3 ∷ x))))
      e
    ∙ ap (drop 4) (put_behind p0 p1 p2 p3 pre free bytes)

pub replicate_some : (n : ℕ) → 0 < n → replicate {A = ℕ} n 255 ≡ 255 ∷ replicate (n - 1) 255
replicate_some zero h = absurd (omega arith)
replicate_some (suc n) h = ap (λ k. 255 ∷ replicate k 255) (one_less n)
  where
    one_less : (n : ℕ) → n ≡ suc n - 1
    one_less n = omega arith

-- The first byte of a payload.
pub set_first : (p : List ℕ) (v : ℕ) → 5 ≤ length p → drop 4 (set p 4 v) ≡ v ∷ drop 5 p
set_first [] v h = absurd (omega arith)
set_first (p0 ∷ []) v h = absurd (omega arith)
set_first (p0 ∷ p1 ∷ []) v h = absurd (omega arith)
set_first (p0 ∷ p1 ∷ p2 ∷ []) v h = absurd (omega arith)
set_first (p0 ∷ p1 ∷ p2 ∷ p3 ∷ []) v h = absurd (omega arith)
set_first (p0 ∷ p1 ∷ p2 ∷ p3 ∷ p4 ∷ p) v h = refl

set_behind :
    (body free : List ℕ) (n v : ℕ)
    → n ≡ length body
    → length free ≡ 1
    → set (body ++ free) n v ≡ body ++ v ∷ []
set_behind [] [] n v at one = absurd (omega arith)
set_behind [] (x ∷ []) n v at one = rw at refl
set_behind [] (x ∷ y ∷ free) n v at one = absurd (omega arith)
set_behind (b ∷ body) free zero v at one = absurd (omega arith)
set_behind (b ∷ body) free (suc n) v at one =
    ap (λ x. b ∷ x) (set_behind body free n v (omega arith) one)

-- The last byte of a packet.
pub set_last :
    (p body free : List ℕ) (v : ℕ)
    → length p ≡ 188
    → drop 4 p ≡ body ++ free
    → length free ≡ 1
    → drop 4 (set p 187 v) ≡ body ++ v ∷ []
set_last [] body free v h e one = absurd (omega arith)
set_last (p0 ∷ []) body free v h e one = absurd (omega arith)
set_last (p0 ∷ p1 ∷ []) body free v h e one = absurd (omega arith)
set_last (p0 ∷ p1 ∷ p2 ∷ []) body free v h e one = absurd (omega arith)
set_last (p0 ∷ p1 ∷ p2 ∷ p3 ∷ p) body free v h e one =
    ap (λ x. set x 183 v) e
    ∙ set_behind body free 183 v (omega (arith, ap length e, length-append body free)) one

drop_past :
    (body : List ℕ) (x : ℕ) (free : List ℕ) → drop (suc (length body)) (body ++ x ∷ free) ≡ free
drop_past [] x free = refl
drop_past (b ∷ body) x free = drop_past body x free

-- The bytes move up by one, and their number stands in front of them.
pub move_up :
    (p body free : List ℕ) (v : ℕ)
    → 5 ≤ length p
    → drop 4 p ≡ body ++ free
    → 0 < length free
    → drop 4 (set (take 5 p ++ (body ++ drop (5 + length body) p)) 4 v)
      ≡ ((v ∷ []) ++ body) ++ drop 1 free
move_up [] body free v h e some = absurd (omega arith)
move_up (p0 ∷ []) body free v h e some = absurd (omega arith)
move_up (p0 ∷ p1 ∷ []) body free v h e some = absurd (omega arith)
move_up (p0 ∷ p1 ∷ p2 ∷ []) body free v h e some = absurd (omega arith)
move_up (p0 ∷ p1 ∷ p2 ∷ p3 ∷ []) body free v h e some = absurd (omega arith)
move_up (p0 ∷ p1 ∷ p2 ∷ p3 ∷ p4 ∷ p) body [] v h e some = absurd (omega arith)
move_up (p0 ∷ p1 ∷ p2 ∷ p3 ∷ p4 ∷ p) body (x ∷ free) v h e some =
    rw at (ap (λ y. v ∷ body ++ y) (ap (drop (suc (length body))) e ∙ drop_past body x free))
  where
    at : 5 + length body ≡ suc (suc (suc (suc (suc (length body)))))
    at = omega arith

pub length-replicate : {A : Type 0} (n : ℕ) (a : A) → length (replicate n a) ≡ n
length-replicate zero a = refl
length-replicate (suc n) a = ap suc (length-replicate n a)

-- Stuffing up to the end of a packet.
pub stuff_behind :
    (h0 h1 h2 h3 : ℕ) (pointer body free : List ℕ)
    → 0 < length free
    → take (4 + length (pointer ++ body)) (h0 ∷ h1 ∷ h2 ∷ h3 ∷ (pointer ++ body) ++ free)
        ++ (replicate {A = ℕ} (length free) 255
            ++ drop
                (4 + length (pointer ++ body) + length free)
                (h0 ∷ h1 ∷ h2 ∷ h3 ∷ (pointer ++ body) ++ free))
      ≡ h0 ∷ h1 ∷ h2 ∷ h3 ∷ pointer ++ (body ++ 255 ∷ replicate (length free - 1) 255)
stuff_behind h0 h1 h2 h3 pointer body free some =
    let pre = pointer ++ body in
    let str = replicate {A = ℕ} (length free) 255 in
    let p = h0 ∷ h1 ∷ h2 ∷ h3 ∷ pre ++ free in
    let len : length str ≡ length free = length-replicate (length free) 255 in
    ap (λ n. take (4 + length pre) p ++ (str ++ drop (4 + length pre + n) p)) (sym len)
    ∙ put_behind h0 h1 h2 h3 pre free str
    ∙ ap (λ x. h0 ∷ h1 ∷ h2 ∷ h3 ∷ x)
        (ap (λ n. (pre ++ str) ++ drop n free) len
          ∙ ap (λ x. (pre ++ str) ++ x) (drop_whole free)
          ∙ append-nil (pre ++ str)
          ∙ ap (λ x. pre ++ x) (replicate_some (length free) some)
          ∙ append_assoc pointer body (255 ∷ replicate (length free - 1) 255))
