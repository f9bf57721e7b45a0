-- ===== src/Io/Limits.antt =====
-- `icCtx::read_uint` on any text.
use mopa.Base.{
  ℕ, ◌+◌, ◌*◌, ◌^◌, ◌<◌, ◌≡◌, ◌⊎◌, inl, inr, refl, arith, Option, none, some, List, [], ◌∷◌, Bool,
  true, false, not, leb, ◌==◌, ◌&&◌, u32, Error, Outcome, ok, throw, throw_if, name_expected,
  colon_expected, M, get, ◌>>=◌, ◌>>◌, bind, if_elim, leb→gt,
}
use mopa.Io.Info.{Info}
use mopa.Io.TextIn
use mopa.Io.TextIn.{
  IcCtx, read_loop, read_number, read_hex, read_bin, read_dec, read_value, read_uint, expect,
  skiptotoken, match_prefix, skip_blanks, hex_digit, bin_digit, dec_digit,
}

-- A number below `bound` and what comes with it, or an exception.
pub Below : {A : Type 0} → ℕ → Outcome (ℕ × A) → Type 0
Below bound r = ((v : ℕ) × (a : _) × (r ≡ ok (v, a)) × (v < bound)) ⊎ ((e : Error) × (r ≡ throw e))

module _ (base : ℕ) (digit : ℕ → Option ℕ) where
  read_loop-Below : (value : ℕ) (cs : List ℕ) → Below (2 ^ 32) (read_loop base digit value cs)
  unfolding read_loop Below
  read_loop-Below value [] =
      if_elim (Below (2 ^ 32)) (leb 0x100000000 value) _ _ (λ _. inr (_, refl))
        (λ e. inl (value, [], refl, leb→gt _ _ e))
  read_loop-Below value (c ∷ cs) =
      if_elim (Below (2 ^ 32)) (leb 0x100000000 value) _ _ (λ _. inr (_, refl))
        (λ e. at_digit (digit c) (leb→gt _ _ e) (λ n. read_loop-Below n cs))
    where
      at_digit :
          (q : Option ℕ)
          → value < 2 ^ 32
          → ((n : ℕ) → Below (2 ^ 32) (read_loop base digit n cs))
          → Below (2 ^ 32) (elim q [
            | none ↦ ok (value, c ∷ cs)
            | some d ↦ read_loop base digit (value * base + d) cs
          ])
      at_digit none h rest = inl (value, c ∷ cs, refl, h)
      at_digit (some d) h rest = rest (value * base + d)

  read_number-Below :
      (bitsize : ℕ) (c : IcCtx) → Below (2 ^ bitsize) (read_number base digit bitsize c)
  unfolding read_number Below
  read_number-Below bitsize c = elim (read_loop-Below 0 c.parse_pos) [
    | inr (e, thrown) ↦ inr (e, rw thrown refl)
    | inl (v, rest, e, below) ↦ rw e (
        if_elim (Below (2 ^ bitsize)) (leb (2 ^ bitsize) v) _ _ (λ _. inr (_, refl))
          (λ small. inl (u32 v, _, refl, omega (arith, leb→gt _ _ small))))
  ]

read_value-Below :
    (bitsize : ℕ) (text : List ℕ) (c : IcCtx) → Below (2 ^ bitsize) (read_value bitsize text c)
unfolding read_value read_hex read_bin read_dec
read_value-Below bitsize [] c = read_number-Below 10 dec_digit bitsize c
read_value-Below bitsize (z ∷ []) c = read_number-Below 10 dec_digit bitsize c
read_value-Below bitsize (z ∷ x ∷ rest) c =
    if_elim (Below (2 ^ bitsize)) (z == b'0' && x == b'x') _ _
      (λ _. read_number-Below 16 hex_digit bitsize (record c { parse_pos = rest }))
      (λ _.
        if_elim (Below (2 ^ bitsize)) (z == b'0' && x == b'b') _ _
          (λ _. read_number-Below 2 bin_digit bitsize (record c { parse_pos = rest }))
          (λ _. read_number-Below 10 dec_digit bitsize c))

throw_if-Below :
    (bound : ℕ) (b : Bool) (x : Error) (c : IcCtx) (k : IcCtx → Outcome (ℕ × IcCtx))
    → Below bound (k c)
    → Below bound (bind (throw_if b x c) (λ (_, d). k d))
unfolding Below
throw_if-Below bound true x c k h = inr (x, refl)
throw_if-Below bound false x c k h = h

bind-Below :
    (bound : ℕ) (r : Outcome (ℕ × IcCtx)) (f : IcCtx → IcCtx)
    → Below bound r
    → Below bound (bind r (λ (v, d). ok (v, f d)))
unfolding Below
bind-Below bound r f (inl (v, d, e, below)) = inl (v, f d, rw e refl, below)
bind-Below bound r f (inr (x, e)) = inr (x, rw e refl)

-- What `read_uint` does behind the name.
read_behind_name : ℕ → M IcCtx ℕ
read_behind_name bitsize = do
  colon ← expect (b':' ∷ [])
  throw_if (not colon) colon_expected
  skiptotoken
  d ← get
  read_value bitsize d.parse_pos

read_behind_name-Below :
    (bitsize : ℕ) (c : IcCtx) → Below (2 ^ bitsize) (read_behind_name bitsize c)
unfolding read_behind_name expect skiptotoken
read_behind_name-Below bitsize c =
    let m = match_prefix (b':' ∷ []) (skip_blanks c.parse_pos) in
    let skipped : IcCtx → IcCtx = λ d. record d { parse_pos = skip_blanks d.parse_pos } in
    throw_if-Below (2 ^ bitsize) (not m.0) colon_expected (record c { parse_pos = m.1 })
      (λ d. read_value bitsize (skip_blanks d.parse_pos) (skipped d))
      (read_value-Below bitsize (skip_blanks m.1) (skipped (record c { parse_pos = m.1 })))

-- `icx::uint` of a named number, on any text and in any state, returns a number below 2^bitsize or
-- throws: it leaves no memory that it was given, and its loops end.
pub uint-Below :
    (bitsize : ℕ) (info : Info) (c : IcCtx)
    → Below (2 ^ bitsize) (TextIn.uint bitsize (some info) c)
unfolding TextIn.uint read_uint read_behind_name expect
uint-Below bitsize info c =
    let m = match_prefix info.name (skip_blanks c.parse_pos) in
    bind-Below (2 ^ bitsize) (read_uint bitsize (some info) c)
      (λ d. record d { bitpos = u32 (d.bitpos + bitsize) })
      (throw_if-Below (2 ^ bitsize) (not m.0) name_expected (record c { parse_pos = m.1 })
        (read_behind_name bitsize) (read_behind_name-Below bitsize (record c { parse_pos = m.1 })))
