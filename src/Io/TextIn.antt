-- ===== src/Io/TextIn.antt =====
-- inc/io.h `icCtx`, src/io.cpp `icCtx` and `icx`: reading the textual form.
-- A text is the list of its bytes up to the terminating zero, and `parse_pos` is the rest of it.
use mopa.Base.{
  ℕ, ◌+◌, ◌-◌, ◌*◌, ◌/◌, ◌%◌, ◌^◌, Option, none, some, List, [], ◌∷◌, Bool, true, false, not, ltb,
  leb, ◌==◌, ◌&&◌, ◌||◌, if◌then◌else◌, u32, sub32,
}
use mopa.Base.{
  Outcome, ok, throw, fault, name_expected, colon_expected, value_exceeds_32_bit,
  value_exceeds_bits, not_byte_aligned, block_exceeds_available, unmatched_block_end,
  length_not_byte_aligned, bind, M, ◌>>=◌, ◌>>◌, pure, get, modify, throw_if,
}
use mopa.Io.Info.{Info}

pub record IcScope : Type 0 where
  pub info : Option Info
  pub bitpos_at_enter : ℕ
  pub bitlimit_at_enter : ℕ

pub record IcCtx : Type 0 where
  pub bitpos : ℕ
  pub bitlimit : ℕ
  pub scope_stack : List IcScope
  pub parsed_text : List ℕ
  pub parse_pos : List ℕ

abbrev pub is_blank : ℕ → Bool
is_blank c = c == 9 || c == 10 || c == 32

-- The loop of `skiptotoken`.
unfoldable pub skip_blanks : List ℕ → List ℕ
skip_blanks [] = []
skip_blanks (c ∷ cs) = if is_blank c then skip_blanks cs else c ∷ cs

abbrev pub non_empty : List ℕ → Bool
non_empty [] = false
non_empty (c ∷ cs) = true

unfoldable pub skiptotoken : M IcCtx Bool
skiptotoken c =
    let rest = skip_blanks c.parse_pos in ok (non_empty rest, record c { parse_pos = rest })

-- The loop of `expect`: what was matched is gone also when the rest does not match.
unfoldable pub match_prefix : List ℕ → List ℕ → Bool × List ℕ
match_prefix [] text = (true, text)
match_prefix (r ∷ req) [] = (false, [])
match_prefix (r ∷ req) (c ∷ cs) = if c == r then match_prefix req cs else (false, c ∷ cs)

unfoldable pub expect : List ℕ → M IcCtx Bool
unfolding skiptotoken
expect req = do
  skiptotoken
  c ← get
  let m = match_prefix req c.parse_pos
  modify λ c. record c { parse_pos = m.1 }
  pure m.0

-- What a character adds to a number. A letter counts from 0, as in the source.
unfoldable pub hex_digit : ℕ → Option ℕ
hex_digit c =
    if leb b'0' c && leb c b'9'
    then some (c - b'0')
    else if leb b'A' c && leb c b'F'
    then some (c - b'A')
    else if leb b'a' c && leb c b'f'
    then some (c - b'a')
    else none

unfoldable pub bin_digit : ℕ → Option ℕ
bin_digit c = if leb b'0' c && leb c b'1' then some (c - b'0') else none

unfoldable pub dec_digit : ℕ → Option ℕ
dec_digit c = if leb b'0' c && leb c b'9' then some (c - b'0') else none

-- The common loop of `read_hex`, `read_bin` and `read_dec`.
unfoldable pub read_loop : ℕ → (ℕ → Option ℕ) → ℕ → List ℕ → Outcome (ℕ × List ℕ)
read_loop base digit value [] =
    if leb 0x100000000 value then throw value_exceeds_32_bit else ok (value, [])
read_loop base digit value (c ∷ cs) =
    let rest : Outcome (ℕ × List ℕ) = elim (digit c) [
      | none ↦ ok (value, c ∷ cs)
      | some d ↦ read_loop base digit (value * base + d) cs
    ] in
    if leb 0x100000000 value then throw value_exceeds_32_bit else rest

-- For 64 bits or more C++ says nothing on the source's `0x1ULL<<bitsize`; here it is 2^bitsize.
unfoldable pub read_number : ℕ → (ℕ → Option ℕ) → ℕ → M IcCtx ℕ
read_number base digit bitsize c = bind (read_loop base digit 0 c.parse_pos) λ (value, rest).
    if leb (2 ^ bitsize) value
    then throw value_exceeds_bits
    else ok (u32 value, record c { parse_pos = rest })

unfoldable pub read_hex : ℕ → M IcCtx ℕ
read_hex = read_number 16 hex_digit

unfoldable pub read_bin : ℕ → M IcCtx ℕ
read_bin = read_number 2 bin_digit

unfoldable pub read_dec : ℕ → M IcCtx ℕ
read_dec = read_number 10 dec_digit

-- The choice by the two characters after the colon.
unfoldable pub read_value : ℕ → List ℕ → M IcCtx ℕ
read_value bitsize (z ∷ x ∷ rest) c =
    let skip : IcCtx = record c { parse_pos = rest } in
    if z == b'0' && x == b'x'
    then read_hex bitsize skip
    else if z == b'0' && x == b'b'
    then read_bin bitsize skip
    else read_dec bitsize c
read_value bitsize (z ∷ []) c = read_dec bitsize c
read_value bitsize [] c = read_dec bitsize c

-- `info->name` of a null `info` is a fault.
unfoldable pub read_uint : ℕ → Option Info → M IcCtx ℕ
read_uint bitsize none c = fault
read_uint bitsize (some info) c =
    let read : M IcCtx ℕ = do
      named ← expect info.name
      throw_if (not named) name_expected
      colon ← expect (b':' ∷ [])
      throw_if (not colon) colon_expected
      skiptotoken
      d ← get
      read_value bitsize d.parse_pos
    in read c

-- The results of `expect` are not used.
unfoldable pub enter_scope : M IcCtx (Unit {0})
enter_scope = do expect (b'{' ∷ []); pure tt

unfoldable pub leave_scope : M IcCtx (Unit {0})
leave_scope = do expect (b'}' ∷ []); pure tt

-- `icx::uint`: the position moves, and no limit is checked.
unfoldable pub uint : ℕ → Option Info → M IcCtx ℕ
uint bitsize info = do
  value ← read_uint bitsize info
  modify λ c. record c { bitpos = u32 (c.bitpos + bitsize) }
  pure value

unfoldable pub block_begin : ℕ → Option Info → M IcCtx (Unit {0})
block_begin block_length info = do
  c ← get
  throw_if (not (c.bitpos % 8 == 0)) not_byte_aligned
  throw_if (ltb c.bitlimit (u32 (c.bitpos + block_length * 8))) block_exceeds_available
  enter_scope
  modify λ c. record c {
    scope_stack =
        record { info = info; bitpos_at_enter = c.bitpos; bitlimit_at_enter = c.bitlimit }
        ∷ c.scope_stack;
    bitlimit = u32 (c.bitpos + block_length * 8);
  }

unfoldable pub close_block : List IcScope → M IcCtx ℕ
close_block [] c = throw unmatched_block_end
close_block (s ∷ outer) c =
    let len = sub32 c.bitpos s.bitpos_at_enter in
    let close : M IcCtx ℕ = do
      leave_scope
      throw_if (not (len % 8 == 0)) length_not_byte_aligned
      modify λ c. record c { bitlimit = s.bitlimit_at_enter; scope_stack = outer }
      pure (len / 8)
    in close c

unfoldable pub block_end : M IcCtx ℕ
unfolding close_block
block_end c = close_block c.scope_stack c

left_before : List ℕ → IcCtx → ℕ
left_before [] c = 0
left_before (t ∷ ts) c = if t == b'}' then 0 else sub32 c.bitlimit c.bitpos

-- The blanks before the next token are skipped.
unfoldable pub block_size_left : M IcCtx ℕ
unfolding left_before
block_size_left = do skiptotoken; c ← get; pure (left_before c.parse_pos c)
