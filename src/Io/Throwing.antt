-- ===== src/Io/Throwing.antt =====
-- When the reads of `ibx` throw.
use mopa.Base.{
  ℕ, ◌%◌, get_elem?, none, some, ◌+◌, ◌^◌, ◌<◌, ◌≡◌, refl, arith, ltb, leb, ◌==◌, u32, Outcome, ok,
  throw, fault, out_of_fuel, bits_left, bind, M, ◌>>=◌, if_elim, le→ltb, lt→ltb, ◌↔◌, throw_if, sym,
  ◌∙◌, false,
}
use mathlib.Core.Path.{subst}
use native.Mathlib.Decide.{dec_lt}
use mopa.Io.BinaryIn
use mopa.Io.BinaryIn.{IbCtx, fetch, advance}

-- The call returns or faults.
abbrev NoThrow {ℓ} : {A : Type ℓ} → Outcome A → Type 0
NoThrow (ok x) = Unit
NoThrow (throw e) = ⊥
NoThrow fault = Unit
NoThrow out_of_fuel = Unit

abbrev NeverThrows : {A : Type 0} → M IbCtx A → Type 0
NeverThrows f = (c : IbCtx) → NoThrow (f c)

bind-NoThrow :
    {A B : Type 0} (r : Outcome A) (k : A → Outcome B)
    → NoThrow r
    → ((x : A) → NoThrow (k x))
    → NoThrow (bind r k)
bind-NoThrow (ok x) k h hk = hk x
bind-NoThrow (throw e) k h hk = h
bind-NoThrow fault k h hk = tt
bind-NoThrow out_of_fuel k h hk = tt

fetch-NoThrow : (i : ℕ) (c : IbCtx) → NoThrow (fetch i c)
unfolding fetch
fetch-NoThrow i c =
    elim (get_elem? c.bytes i)
      as (λ x. NoThrow {A = ℕ × IbCtx} (elim x [ none ↦ fault | some b ↦ ok (b, c) ])) [
        | none ↦ tt
        | some b ↦ tt
      ]

fetched :
    {B : Type 0} (i : ℕ) (k : ℕ → M IbCtx B)
    → ((b : ℕ) → NeverThrows (k b))
    → NeverThrows (fetch i >>= k)
fetched i k h c = bind-NoThrow (fetch i c) (λ (b, d). k b d) (fetch-NoThrow i c) (λ (b, d). h b d)

nocheck_uint8-NoThrow : (n : ℕ) → NeverThrows (BinaryIn.nocheck_uint8 n)
unfolding BinaryIn.nocheck_uint8 advance
nocheck_uint8-NoThrow n c =
    if_elim NoThrow (leb (c.bitpos % 8 + n) 8) _ _ (λ _. fetched _ _ (λ b s. tt) c)
      (λ _. fetched _ _ (λ b. fetched _ _ λ d s. tt) c)

nocheck_uint16-NoThrow : (n : ℕ) → NeverThrows (BinaryIn.nocheck_uint16 n)
unfolding BinaryIn.nocheck_uint16 advance
nocheck_uint16-NoThrow n c =
    if_elim NoThrow (leb (c.bitpos % 8 + n) 16) _ _
      (λ _. fetched _ _ (λ b. fetched _ _ λ d s. tt) c)
      (λ _. fetched _ _ (λ b. fetched _ _ λ d. fetched _ _ λ e s. tt) c)

nocheck_uint32-NoThrow : (n : ℕ) → NeverThrows (BinaryIn.nocheck_uint32 n)
unfolding BinaryIn.nocheck_uint32 advance
nocheck_uint32-NoThrow n c =
    if_elim NoThrow (leb (c.bitpos % 8 + n) 32) _ _
      (λ _.
        if_elim NoThrow (n == 0) _ _ (λ _. tt)
          (λ _. fetched _ _ (λ b. fetched _ _ λ d. fetched _ _ λ e. fetched _ _ λ f s. tt) c))
      (λ _. tt)

-- The test in front of a read that does not throw.
guarded :
    (c : IbCtx) (n : ℕ) (read : M IbCtx ℕ)
    → c.bitpos + n < 2 ^ 32
    → NeverThrows read
    → (let r : Outcome (ℕ × IbCtx) =
          bind (throw_if (ltb c.bitlimit (u32 (c.bitpos + n))) bits_left c) λ (_, d). read d in
        (r ≡ throw bits_left) ↔ (c.bitlimit < c.bitpos + n))
guarded c n read word quiet = elim (dec_lt c.bitlimit (c.bitpos + n)) [
  | yes h ↦ (λ e. h, λ _. rw (lt→ltb c.bitlimit (u32 (c.bitpos + n)) (omega arith)) refl)
  | no h ↦
      let test : ltb c.bitlimit (u32 (c.bitpos + n)) ≡ false =
        le→ltb c.bitlimit (u32 (c.bitpos + n)) (omega arith) in
      (λ e. absurd (subst NoThrow (sym (rw test refl) ∙ e) (quiet c)), λ past. absurd (h past))
]

-- Where the position does not wrap around, each of the three reads throws `bits_left` exactly when the
-- bits would pass the limit, whatever the buffer is: not when they end at the limit, and not when the
-- read behind the test leaves the buffer or does nothing.
pub throws_past_limit :
    (c : IbCtx) (n : ℕ)
    → c.bitpos + n < 2 ^ 32
    → ((BinaryIn.uint8 n c ≡ throw bits_left) ↔ (c.bitlimit < c.bitpos + n))
      × ((BinaryIn.uint16 n c ≡ throw bits_left) ↔ (c.bitlimit < c.bitpos + n))
      × ((BinaryIn.uint32 n c ≡ throw bits_left) ↔ (c.bitlimit < c.bitpos + n))
unfolding BinaryIn.uint8 BinaryIn.uint16 BinaryIn.uint32
throws_past_limit c n word = (
  guarded c n (BinaryIn.nocheck_uint8 n) word (nocheck_uint8-NoThrow n),
  guarded c n (BinaryIn.nocheck_uint16 n) word (nocheck_uint16-NoThrow n),
  guarded c n (BinaryIn.nocheck_uint32 n) word (nocheck_uint32-NoThrow n),
)
