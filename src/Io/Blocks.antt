-- ===== src/Io/Blocks.antt =====
-- Blocks of the binary form: `ibx::block_begin` and `block_end`, `ox::named_block_end`.
use mopa.Base.{
  IsBytes, ℕ, ◌+◌, ◌*◌, ◌/◌, ◌%◌, ◌^◌, ◌<◌, ◌≤◌, ◌≡◌, ap, ◌∙◌, arith, List, ◌∷◌, length, u32, sub32,
  Option, true, ◌==◌, ==_iff, le→ltb, ok,
}
use mopa.Io.Info.{Info}
use mopa.Io.BinaryIn
use mopa.Io.BinaryIn.{IbCtx, IbScope}
use mopa.Io.BinaryOut
use mopa.Io.BinaryOut.{ObCtx, ObScope}
use mopa.Io.Patches.{Patched}
use mopa.Io.Writing.{uint32-Patched}

-- The block that `ibx::block_begin` opens.
abbrev pub opened : Option Info → ℕ → IbCtx → IbCtx
opened info len c = record c {
  bitlimit = c.bitpos + len * 8;
  scope_stack =
      record { info = info; bitpos_at_enter = c.bitpos; bitlimit_at_enter = c.bitlimit }
      ∷ c.scope_stack;
}

-- A block that starts at a byte, of `len` bytes within the limit, is opened and narrows the limit to
-- its end; closed there, whatever was read before, it gives its length, and the limit and the outer
-- blocks are as they were.
pub block_end-block_begin :
    (info : Option Info) (len : ℕ) (c : IbCtx)
    → c.bitpos % 8 ≡ 0
    → c.bitpos + len * 8 ≤ c.bitlimit
    → c.bitlimit < 2 ^ 32
    → (BinaryIn.block_begin len info c ≡ ok (tt, opened info len c))
      × (BinaryIn.block_end (record (opened info len c) { bitpos = c.bitpos + len * 8 })
          ≡ ok (len, record c { bitpos = c.bitpos + len * 8 }))
unfolding BinaryIn.block_begin BinaryIn.block_end BinaryIn.close_block
block_end-block_begin info len c aligned inside word =
    let wrap : u32 (c.bitpos + len * 8) ≡ c.bitpos + len * 8 = omega arith in
    let size : sub32 (c.bitpos + len * 8) c.bitpos ≡ len * 8 = omega arith in
    let whole : (len * 8 % 8 == 0) ≡ true = (==_iff (len * 8 % 8) 0).1 (omega arith) in
    let count : len * 8 / 8 ≡ len = omega arith in
    (
      rw
          (
            (==_iff (c.bitpos % 8) 0).1 aligned,
            le→ltb c.bitlimit (u32 (c.bitpos + len * 8)) (omega arith),
          )
          (ap (λ l. ok (tt, record (opened info len c) { bitlimit = l })) wrap),
      rw (le→ltb (c.bitpos + len * 8) (c.bitpos + len * 8) (omega arith), size, whole, count),
    )

-- The end of an output block of whole bytes.
block_closed :
    (c : ObCtx) (s : ObScope) (outer : List ObScope) (len : ℕ)
    → c.scope_stack ≡ s ∷ outer
    → s.bitpos_at_enter + len * 8 ≡ c.bitpos
    → c.bitpos < 2 ^ 32
    → BinaryOut.block_end c
      ≡ ok (len, record c { bitlimit = s.bitlimit_at_enter; scope_stack = outer })
unfolding BinaryOut.block_end BinaryOut.close_block
block_closed c s outer len stack back word =
    let size : sub32 c.bitpos s.bitpos_at_enter ≡ len * 8 = omega arith in
    let whole : (len * 8 % 8 == 0) ≡ true = (==_iff (len * 8 % 8) 0).1 (omega arith) in
    let count : len * 8 / 8 ≡ len = omega arith in
    ap (λ st. BinaryOut.close_block st c) stack ∙ rw (size, whole, count)

-- Closing a named block writes its length: the bits that `ox::named_block_begin` left free in front of
-- the block get the number of its bytes, no other bit changes, the position stays at the end of the
-- block, and the limit and the outer blocks are those of before the block. The block has a
-- whole number of bytes and ends below bit 2^32; the number fits its bits, which are one or more, end
-- within the limit of before the block, below 2^32, and lie in the four bytes from the first one on,
-- all four of which are in the buffer of bytes.
pub named_block_end-Patched :
    (c : ObCtx) (s : ObScope) (outer : List ObScope) (n len : ℕ)
    → IsBytes c.bytes
    → c.scope_stack ≡ s ∷ outer
    → s.position_for_write + n ≡ s.bitpos_at_enter
    → s.bitpos_at_enter + len * 8 ≡ c.bitpos
    → c.bitpos < 2 ^ 32
    → 0 < n
    → len < 2 ^ n
    → s.position_for_write % 8 + n ≤ 32
    → s.bitpos_at_enter ≤ s.bitlimit_at_enter
    → s.bitlimit_at_enter < 2 ^ 32
    → s.position_for_write / 8 + 4 ≤ length c.bytes
    → (after : List ℕ) × (BinaryOut.named_block_end c
        ≡ ok (len, record c { bytes = after; bitlimit = s.bitlimit_at_enter; scope_stack = outer }))
      × Patched c.bytes after s.position_for_write n len
unfolding BinaryOut.named_block_end BinaryOut.finish_block
named_block_end-Patched c s outer n len valid stack front back word pos fits four inside limit
      room =
    let d : ObCtx = record c {
      bitpos = s.position_for_write;
      bitlimit = s.bitlimit_at_enter;
      scope_stack = outer;
    } in
    let w = uint32-Patched d valid n len fits pos four (omega arith) limit room in
    let width : sub32 s.bitpos_at_enter s.position_for_write ≡ n = omega arith in
    (
      w.0,
      ap (λ st. BinaryOut.finish_block st c) stack
          ∙ rw (block_closed c s outer len stack back word, width, w.1),
      w.2,
    )
