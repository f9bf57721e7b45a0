-- ===== src/Io/BinaryIn.antt =====
-- inc/io.h `ibCtx`, src/io.cpp `ibx`: reading integers and blocks from a bit stream.
-- The `info` of an integer only reaches the message of an exception and is left out. The back of the
-- scope stack is the head of the list. Shift counts that are negative in the source (undefined there)
-- stop at 0 here; the theorems exclude them.
use mopa.Base.{
  ℕ, ◌+◌, ◌-◌, ◌*◌, ◌/◌, ◌%◌, Option, none, some, List, [], ◌∷◌, not, ltb, leb, ◌==◌, if◌then◌else◌,
  get_elem?, bit_and, bit_or, u8, u16, u32, sub32, ◌<<<◌, ◌>>>◌,
}
use mopa.Base.{
  ok, throw, fault, bits_left, not_byte_aligned, block_exceeds_available, unmatched_block_end,
  bits_remaining, length_not_byte_aligned, M, ◌>>=◌, ◌>>◌, pure, get, modify, throw_if,
}
use mopa.Io.Info.{Info}

pub record IbScope : Type 0 where
  pub info : Option Info
  pub bitpos_at_enter : ℕ
  pub bitlimit_at_enter : ℕ

-- `bytes` is the memory at `data`.
pub record IbCtx : Type 0 where
  pub bitpos : ℕ
  pub bitlimit : ℕ
  pub bytes : List ℕ
  pub scope_stack : List IbScope

-- `data[i]`
unfoldable pub fetch : ℕ → M IbCtx ℕ
fetch i c = elim (get_elem? c.bytes i) [ none ↦ fault | some b ↦ ok (b, c) ]

-- `bitpos+=bitsize`
unfoldable pub advance : ℕ → M IbCtx (Unit {0})
advance bitsize = modify λ c. record c { bitpos = u32 (c.bitpos + bitsize) }

unfoldable pub nocheck_uint8 : ℕ → M IbCtx ℕ
unfolding advance
nocheck_uint8 bitsize c =
    let k = c.bitpos / 8 in
    let o = c.bitpos % 8 in
    let narrow : M IbCtx ℕ = do
      b ← fetch k
      advance bitsize
      pure (u8 (bit_and (b <<< o) 0xff >>> (8 - bitsize)))
    in let wide : M IbCtx ℕ = do
      b0 ← fetch k
      b1 ← fetch (k + 1)
      advance bitsize
      pure (u8 (bit_and (bit_or (b0 <<< 8) b1 <<< o) 0xffff >>> (16 - bitsize)))
      in if leb (o + bitsize) 8 then narrow c else wide c

unfoldable pub nocheck_uint16 : ℕ → M IbCtx ℕ
unfolding advance
nocheck_uint16 bitsize c =
    let k = c.bitpos / 8 in
    let o = c.bitpos % 8 in
    let narrow : M IbCtx ℕ = do
      b0 ← fetch k
      b1 ← fetch (k + 1)
      advance bitsize
      pure (u16 (bit_and (u16 (bit_or (b0 <<< 8) b1) <<< o) 0xffff >>> (16 - bitsize)))
    in let wide : M IbCtx ℕ = do
      b0 ← fetch k
      b1 ← fetch (k + 1)
      b2 ← fetch (k + 2)
      advance bitsize
      pure (
          u16 (
            bit_and (u32 (bit_or (bit_or (b0 <<< 16) (b1 <<< 8)) b2 <<< o)) 0xffffff
            >>> (24 - bitsize)))
      in if leb (o + bitsize) 16 then narrow c else wide c

-- A value that spans five bytes is not read: 0 is returned and the position stays. For no bits the
-- shift to the right is by the width of the word, on which C++ says nothing: a fault.
unfoldable pub nocheck_uint32 : ℕ → M IbCtx ℕ
unfolding advance
nocheck_uint32 bitsize c =
    let k = c.bitpos / 8 in
    let o = c.bitpos % 8 in
    let four : M IbCtx ℕ = do
      b0 ← fetch k
      b1 ← fetch (k + 1)
      b2 ← fetch (k + 2)
      b3 ← fetch (k + 3)
      advance bitsize
      pure (
          u32 (bit_or (bit_or (bit_or (b0 <<< 24) (b1 <<< 16)) (b2 <<< 8)) b3 <<< o)
          >>> (32 - bitsize))
    in if leb (o + bitsize) 32 then (if bitsize == 0 then fault else four c) else ok (0, c)

-- `ibx::uint8`. The detour through a signed variable leaves an unsigned result as it is.
unfoldable pub uint8 : ℕ → M IbCtx ℕ
uint8 bitsize = do
  c ← get
  throw_if (ltb c.bitlimit (u32 (c.bitpos + bitsize))) bits_left
  nocheck_uint8 bitsize

unfoldable pub uint16 : ℕ → M IbCtx ℕ
uint16 bitsize = do
  c ← get
  throw_if (ltb c.bitlimit (u32 (c.bitpos + bitsize))) bits_left
  nocheck_uint16 bitsize

unfoldable pub uint32 : ℕ → M IbCtx ℕ
uint32 bitsize = do
  c ← get
  throw_if (ltb c.bitlimit (u32 (c.bitpos + bitsize))) bits_left
  nocheck_uint32 bitsize

-- The product is one of `int` in the source, on which C++ says nothing from 2^28 bytes on; here it
-- wraps around like the sum.
unfoldable pub block_begin : ℕ → Option Info → M IbCtx (Unit {0})
block_begin block_length info = do
  c ← get
  throw_if (not (c.bitpos % 8 == 0)) not_byte_aligned
  throw_if (ltb c.bitlimit (u32 (c.bitpos + block_length * 8))) block_exceeds_available
  modify λ c. record c {
    scope_stack =
        record { info = info; bitpos_at_enter = c.bitpos; bitlimit_at_enter = c.bitlimit }
        ∷ c.scope_stack;
    bitlimit = u32 (c.bitpos + block_length * 8);
  }

unfoldable pub close_block : List IbScope → M IbCtx ℕ
close_block [] c = throw unmatched_block_end
close_block (s ∷ outer) c =
    let len = sub32 c.bitpos s.bitpos_at_enter in
    let close : M IbCtx ℕ = do
      throw_if (ltb c.bitpos c.bitlimit) bits_remaining
      throw_if (not (len % 8 == 0)) length_not_byte_aligned
      modify λ c. record c { bitlimit = s.bitlimit_at_enter; scope_stack = outer }
      pure (len / 8)
    in close c

unfoldable pub block_end : M IbCtx ℕ
unfolding close_block
block_end c = close_block c.scope_stack c

unfoldable pub block_size_left : IbCtx → ℕ
block_size_left c = sub32 c.bitlimit c.bitpos
