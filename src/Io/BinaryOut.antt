-- ===== src/Io/BinaryOut.antt =====
-- inc/io.h `obCtx`, src/io.cpp `obx`: writing integers and blocks to a bit stream.
-- A write outside the buffer is a `fault`. No function checks that a value fits its bits.
use mopa.Base.{
  ℕ, ◌+◌, ◌-◌, ◌*◌, ◌/◌, ◌%◌, ◌^◌, Option, none, some, List, [], ◌∷◌, not, ltb, leb, ◌==◌,
  if◌then◌else◌, get_elem?, set, length, bit_and, bit_or, u8, u16, u32, sub32, not32, ◌<<<◌, ◌>>>◌,
}
use mopa.Base.{
  ok, throw, fault, bits_left, spans_five_bytes, not_byte_aligned, unmatched_block_end,
  length_not_byte_aligned, M, ◌>>=◌, ◌>>◌, pure, get, modify, throw_if,
}
use mopa.Io.Info.{Info}

pub record ObScope : Type 0 where
  pub info : Option Info
  pub bitpos_at_enter : ℕ
  pub bitlimit_at_enter : ℕ
  pub position_for_write : ℕ

pub record ObCtx : Type 0 where
  pub bitpos : ℕ
  pub bitlimit : ℕ
  pub bytes : List ℕ
  pub scope_stack : List ObScope

-- `data[i]`, read and written
unfoldable pub fetch : ℕ → M ObCtx ℕ
fetch i c = elim (get_elem? c.bytes i) [ none ↦ fault | some b ↦ ok (b, c) ]

unfoldable pub store : ℕ → ℕ → M ObCtx (Unit {0})
store i v c =
    if ltb i (length c.bytes) then ok (tt, record c { bytes = set c.bytes i (u8 v) }) else fault

unfoldable pub advance : ℕ → M ObCtx (Unit {0})
advance bitsize = modify λ c. record c { bitpos = u32 (c.bitpos + bitsize) }

-- `(tmp & ~(mask << lshift)) | (val << lshift)`
abbrev pub patch : ℕ → ℕ → ℕ → ℕ → ℕ
patch tmp mask lshift val = bit_or (bit_and tmp (not32 (u32 (mask <<< lshift)))) (val <<< lshift)

unfoldable pub nocheck_uint8 : ℕ → ℕ → M ObCtx (Unit {0})
unfolding advance
nocheck_uint8 bitsize val c =
    let k = c.bitpos / 8 in
    let o = c.bitpos % 8 in
    let narrow : M ObCtx (Unit {0}) = do
      b ← fetch k
      store k (patch b (u8 (2 ^ bitsize - 1)) (8 - o - bitsize) val)
      advance bitsize
    in let wide : M ObCtx (Unit {0}) = do
      b0 ← fetch k
      b1 ← fetch (k + 1)
      let tmp =
          u16 (patch (u16 (bit_or (b0 <<< 8) b1)) (u16 (2 ^ bitsize - 1)) (16 - o - bitsize) val)
      store k (tmp >>> 8)
      store (k + 1) (bit_and tmp 0xff)
      advance bitsize
      in if leb (o + bitsize) 8 then narrow c else wide c

unfoldable pub nocheck_uint16 : ℕ → ℕ → M ObCtx (Unit {0})
unfolding advance
nocheck_uint16 bitsize val c =
    let k = c.bitpos / 8 in
    let o = c.bitpos % 8 in
    let narrow : M ObCtx (Unit {0}) = do
      b0 ← fetch k
      b1 ← fetch (k + 1)
      let tmp =
          u16 (patch (u16 (bit_or (b0 <<< 8) b1)) (u16 (2 ^ bitsize - 1)) (16 - o - bitsize) val)
      store k (tmp >>> 8)
      store (k + 1) (bit_and tmp 0xff)
      advance bitsize
    in let wide : M ObCtx (Unit {0}) = do
      b0 ← fetch k
      b1 ← fetch (k + 1)
      b2 ← fetch (k + 2)
      let tmp = u32 (
          patch (bit_or (bit_or (b0 <<< 16) (b1 <<< 8)) b2) (2 ^ bitsize - 1) (24 - o - bitsize)
            val)
      store k (tmp >>> 16)
      store (k + 1) (tmp >>> 8)
      store (k + 2) (bit_and tmp 0xff)
      advance bitsize
      in if leb (o + bitsize) 16 then narrow c else wide c

-- `(2<<(bitsize-1))-1`, which is all ones for 32 bits. A value that spans five bytes is not written.
unfoldable pub nocheck_uint32 : ℕ → ℕ → M ObCtx (Unit {0})
unfolding advance
nocheck_uint32 bitsize val c =
    let k = c.bitpos / 8 in
    let o = c.bitpos % 8 in
    let four : M ObCtx (Unit {0}) = do
      b0 ← fetch k
      b1 ← fetch (k + 1)
      b2 ← fetch (k + 2)
      b3 ← fetch (k + 3)
      let tmp = u32 (
          patch (bit_or (bit_or (bit_or (b0 <<< 24) (b1 <<< 16)) (b2 <<< 8)) b3)
            (sub32 (u32 (2 <<< (bitsize - 1))) 1) (32 - o - bitsize) val)
      store k (tmp >>> 24)
      store (k + 1) (tmp >>> 16)
      store (k + 2) (tmp >>> 8)
      store (k + 3) (tmp >>> 0)
      advance bitsize
    in if leb (o + bitsize) 32 then four c else ok (tt, c)

-- `obx::uint` for a `uint8_t`, a `uint16_t` and a `uint32_t`.
unfoldable pub uint8 : ℕ → ℕ → M ObCtx (Unit {0})
uint8 bitsize val = do
  c ← get
  throw_if (ltb c.bitlimit (u32 (c.bitpos + bitsize))) bits_left
  nocheck_uint8 bitsize val

unfoldable pub uint16 : ℕ → ℕ → M ObCtx (Unit {0})
uint16 bitsize val = do
  c ← get
  throw_if (ltb c.bitlimit (u32 (c.bitpos + bitsize))) bits_left
  nocheck_uint16 bitsize val

unfoldable pub uint32 : ℕ → ℕ → M ObCtx (Unit {0})
uint32 bitsize val c =
    let fits : M ObCtx (Unit {0}) =
      if leb (c.bitpos % 8 + bitsize) 32 then nocheck_uint32 bitsize val else λ _.
      throw spans_five_bytes in
    if ltb c.bitlimit (u32 (c.bitpos + bitsize)) then throw bits_left else fits c

-- The limit of a block that would pass the enclosing limit is cut to it.
unfoldable pub block_begin : ℕ → Option Info → M ObCtx (Unit {0})
block_begin block_size_limit info c =
    let limit = u32 (block_size_limit * 8) in
    let cut =
      if ltb c.bitlimit (u32 (c.bitpos + limit)) then sub32 c.bitlimit c.bitpos else limit in
    let open_scope : M ObCtx (Unit {0}) = do
      throw_if (not (c.bitpos % 8 == 0)) not_byte_aligned
      modify λ c. record c {
        scope_stack =
            record {
              info = info;
              bitpos_at_enter = c.bitpos;
              bitlimit_at_enter = c.bitlimit;
              position_for_write = 0;
            }
            ∷ c.scope_stack;
        bitlimit = u32 (c.bitpos + cut);
      }
    in open_scope c

unfoldable pub close_block : List ObScope → M ObCtx ℕ
close_block [] c = throw unmatched_block_end
close_block (s ∷ outer) c =
    let len = sub32 c.bitpos s.bitpos_at_enter in
    let close : M ObCtx ℕ = do
      throw_if (not (len % 8 == 0)) length_not_byte_aligned
      modify λ c. record c { bitlimit = s.bitlimit_at_enter; scope_stack = outer }
      pure (len / 8)
    in close c

unfoldable pub block_end : M ObCtx ℕ
unfolding close_block
block_end c = close_block c.scope_stack c

unfoldable pub block_size_left : ObCtx → ℕ
block_size_left c = sub32 c.bitlimit c.bitpos

-- The binary branch of `ox::named_block_begin`: room for the length, then the block.
unfoldable pub set_position : ℕ → List ObScope → List ObScope
set_position pos [] = []
set_position pos (s ∷ outer) = record s { position_for_write = pos } ∷ outer

unfoldable pub named_block_begin : ℕ → Option Info → M ObCtx (Unit {0})
unfolding advance set_position
named_block_begin bitsize info = do
  c ← get
  advance bitsize
  block_begin (2 ^ bitsize - 1) info
  modify λ d. record d { scope_stack = set_position c.bitpos d.scope_stack }

-- The binary branch of `ox::named_block_end`: the length is written into the room left for it.
-- `back()` of an empty stack comes before the check of `block_end`.
unfoldable pub finish_block : List ObScope → M ObCtx ℕ
finish_block [] c = fault
finish_block (s ∷ outer) c =
    let finish : M ObCtx ℕ = do
      block_length ← block_end
      d ← get
      modify λ d. record d { bitpos = s.position_for_write }
      uint32 (sub32 s.bitpos_at_enter s.position_for_write) block_length
      modify λ e. record e { bitpos = d.bitpos }
      pure block_length
    in finish c

unfoldable pub named_block_end : M ObCtx ℕ
unfolding finish_block
named_block_end c = finish_block c.scope_stack c
