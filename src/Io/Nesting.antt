-- ===== src/Io/Nesting.antt =====
-- `ibx` over its whole life: what holds after any reads and blocks, in any order.
use mopa.Base.{
  IsBytes, ℕ, ◌+◌, ◌*◌, ◌/◌, ◌^◌, ◌<◌, ◌≤◌, ◌≡◌, ◌⊎◌, inl, inr, refl, ap, ◌∙◌, arith, List, [], ◌∷◌,
  length, u32, sub32, Option, false, ltb, ltb→le, Bool-cases, ok, throw, bits_left,
}
use native.Mathlib.Decide.{dec_le}
use mopa.Io.Info.{Info}
use mopa.Io.Stream.{bits_at}
use mopa.Io.BinaryIn
use mopa.Io.BinaryIn.{IbCtx, IbScope}
use mopa.Io.Fetching.{moved}
use mopa.Io.Reading.{uint8-bits_at, past_limit}

-- The context that `iox::parse_binary` makes.
abbrev pub start : List ℕ → ℕ → IbCtx
start bytes size = record { bitpos = 0; bitlimit = u32 (size * 8); bytes = bytes; scope_stack = [] }

-- One call that returns. Blocks are shorter than 2^28 bytes.
pub data Step : IbCtx → IbCtx → Type 0 where
  read8 : {c d : IbCtx} {v : ℕ} (n : ℕ) → n ≤ 8 → BinaryIn.uint8 n c ≡ ok (v, d) → Step c d
  read16 : {c d : IbCtx} {v : ℕ} (n : ℕ) → n ≤ 16 → BinaryIn.uint16 n c ≡ ok (v, d) → Step c d
  read32 : {c d : IbCtx} {v : ℕ} (n : ℕ) → n ≤ 32 → BinaryIn.uint32 n c ≡ ok (v, d) → Step c d
  begin :
      {c d : IbCtx} (len : ℕ) (info : Option Info)
      → len < 2 ^ 28
      → BinaryIn.block_begin len info c ≡ ok (tt, d)
      → Step c d
  end : {c d : IbCtx} {len : ℕ} → BinaryIn.block_end c ≡ ok (len, d) → Step c d

pub data Reach (c : IbCtx) : IbCtx → Type 0 where
  here : Reach c c
  next : {d e : IbCtx} → Reach c d → Step d e → Reach c e

-- The blocks lie within one another, and the position within the innermost.
abbrev pub Nested : ℕ → ℕ → ℕ → List IbScope → Type 0
Nested total limit pos [] = limit ≤ total
Nested total limit pos (s ∷ outer) =
    (limit ≤ s.bitlimit_at_enter)
    × (s.bitpos_at_enter ≤ pos)
    × Nested total s.bitlimit_at_enter s.bitpos_at_enter outer

pub record IsNested (bytes : List ℕ) (c : IbCtx) : Type 0 where
  pub same_bytes : c.bytes ≡ bytes
  pub inside : c.bitpos ≤ c.bitlimit
  pub blocks : Nested (8 * length bytes) c.bitlimit c.bitpos c.scope_stack

-- A read that returns moves the position by the bits that it was asked for, or not at all.
abbrev Moves : ℕ → IbCtx → IbCtx → Type 0
Moves n c d = (d ≡ moved c n) ⊎ (d ≡ c)

nocheck_uint8-Moves :
    (n : ℕ) (c : IbCtx) {d : IbCtx} {v : ℕ} → BinaryIn.nocheck_uint8 n c ≡ ok (v, d) → d ≡ moved c n
unfolding BinaryIn.nocheck_uint8 BinaryIn.fetch
nocheck_uint8-Moves n c e = ground arith

nocheck_uint16-Moves :
    (n : ℕ) (c : IbCtx) {d : IbCtx} {v : ℕ}
    → BinaryIn.nocheck_uint16 n c ≡ ok (v, d)
    → d ≡ moved c n
unfolding BinaryIn.nocheck_uint16 BinaryIn.fetch
nocheck_uint16-Moves n c e = ground arith

nocheck_uint32-Moves :
    (n : ℕ) (c : IbCtx) {d : IbCtx} {v : ℕ} → BinaryIn.nocheck_uint32 n c ≡ ok (v, d) → Moves n c d
unfolding BinaryIn.nocheck_uint32 BinaryIn.fetch
nocheck_uint32-Moves n c e = ground arith

-- Every call that returns leaves the position further on, not past the limit, and the rest as it was.
abbrev Advances : IbCtx → IbCtx → Type 0
Advances c d =
    (c.bitpos ≤ d.bitpos)
    × (d.bitpos ≤ d.bitlimit)
    × (d.bytes ≡ c.bytes)
    × (d.bitlimit ≡ c.bitlimit)
    × (d.scope_stack ≡ c.scope_stack)

module _ (n : ℕ) (c : IbCtx) {d : IbCtx} (small : n ≤ 32) (inside : c.bitpos ≤ c.bitlimit)
    (word : c.bitlimit < 2 ^ 31) where
  moved-Advances : ltb c.bitlimit (u32 (c.bitpos + n)) ≡ false → d ≡ moved c n → Advances c d
  moved-Advances test e =
      rw e (omega (arith, ltb→le _ _ test), omega (arith, ltb→le _ _ test), refl, refl, refl)

  same-Advances : d ≡ c → Advances c d
  same-Advances e = rw e (omega arith, inside, refl, refl, refl)

  uint8-Advances : {v : ℕ} → BinaryIn.uint8 n c ≡ ok (v, d) → Advances c d
  unfolding BinaryIn.uint8
  uint8-Advances e = elim (Bool-cases (ltb c.bitlimit (u32 (c.bitpos + n)))) [
    | inl past ↦ absurd (ground arith)
    | inr fits ↦ moved-Advances fits (nocheck_uint8-Moves n c (rw fits at e))
  ]

  uint16-Advances : {v : ℕ} → BinaryIn.uint16 n c ≡ ok (v, d) → Advances c d
  unfolding BinaryIn.uint16
  uint16-Advances e = elim (Bool-cases (ltb c.bitlimit (u32 (c.bitpos + n)))) [
    | inl past ↦ absurd (ground arith)
    | inr fits ↦ moved-Advances fits (nocheck_uint16-Moves n c (rw fits at e))
  ]

  uint32-Advances : {v : ℕ} → BinaryIn.uint32 n c ≡ ok (v, d) → Advances c d
  unfolding BinaryIn.uint32
  uint32-Advances e = elim (Bool-cases (ltb c.bitlimit (u32 (c.bitpos + n)))) [
    | inl past ↦ absurd (ground arith)
    | inr fits ↦ elim (nocheck_uint32-Moves n c (rw fits at e)) [
      | inl e' ↦ moved-Advances fits e'
      | inr e' ↦ same-Advances e'
    ]
  ]

Nested-on :
    (total limit pos pos' : ℕ) (stack : List IbScope)
    → pos ≤ pos'
    → Nested total limit pos stack
    → Nested total limit pos' stack
Nested-on total limit pos pos' [] h nested = nested
Nested-on total limit pos pos' (s ∷ outer) h nested = (nested.0, omega arith, nested.2)

Advances-IsNested :
    {bytes : List ℕ} {c d : IbCtx} → Advances c d → IsNested bytes c → IsNested bytes d
Advances-IsNested {bytes} {c} {d} a inv = record {
  same_bytes = a.2 ∙ inv.same_bytes;
  inside = a.1;
  blocks =
      rw (a.4, a.3)
        (Nested-on (8 * length bytes) c.bitlimit c.bitpos d.bitpos c.scope_stack a.0 inv.blocks);
}

-- No block reaches past the buffer.
Nested-limit :
    (total limit pos : ℕ) (stack : List IbScope) → Nested total limit pos stack → limit ≤ total
Nested-limit total limit pos [] nested = nested
Nested-limit total limit pos (s ∷ outer) nested =
    omega (arith, Nested-limit total s.bitlimit_at_enter s.bitpos_at_enter outer nested.2)

block_begin-ok :
    {c d : IbCtx} (len : ℕ) (info : Option Info)
    → BinaryIn.block_begin len info c ≡ ok (tt, d)
    → (ltb c.bitlimit (u32 (c.bitpos + len * 8)) ≡ false)
      × (d ≡ record c {
        scope_stack =
            record { info = info; bitpos_at_enter = c.bitpos; bitlimit_at_enter = c.bitlimit }
            ∷ c.scope_stack;
        bitlimit = u32 (c.bitpos + len * 8);
      })
unfolding BinaryIn.block_begin
block_begin-ok len info e = (ground arith, ground arith)

close_block-ok :
    (c : IbCtx) {d : IbCtx} {len : ℕ} (stack : List IbScope)
    → BinaryIn.close_block stack c ≡ ok (len, d)
    → (s : IbScope) × (outer : List IbScope) × (stack ≡ s ∷ outer)
      × (d ≡ record c { bitlimit = s.bitlimit_at_enter; scope_stack = outer })
      × (len ≡ sub32 c.bitpos s.bitpos_at_enter / 8)
      × (len * 8 ≡ sub32 c.bitpos s.bitpos_at_enter)
unfolding BinaryIn.close_block
close_block-ok c [] e = cc
close_block-ok c (s ∷ outer) e = (s, outer, refl, ground arith, ground arith, ground arith)

begin-IsNested :
    {bytes : List ℕ} {c d : IbCtx} (len : ℕ) (info : Option Info)
    → c.bitlimit < 2 ^ 31
    → len < 2 ^ 28
    → BinaryIn.block_begin len info c ≡ ok (tt, d)
    → IsNested bytes c
    → IsNested bytes d
begin-IsNested {bytes} {c} {d} len info word small e inv =
    let opened = block_begin-ok {c = c} len info e in
    rw opened.1 (record {
      same_bytes = inv.same_bytes;
      inside = omega (arith, inv.inside);
      blocks = (ltb→le _ _ opened.0, omega arith, inv.blocks);
    })

end-IsNested :
    {bytes : List ℕ} {c d : IbCtx} {len : ℕ}
    → BinaryIn.block_end c ≡ ok (len, d)
    → IsNested bytes c
    → IsNested bytes d
unfolding BinaryIn.block_end
end-IsNested {bytes} {c} {d} {len} e inv =
    let closed = close_block-ok c c.scope_stack e in
    let (s, outer, stack, left, counted, whole) = closed in
    let blocks : Nested (8 * length bytes) c.bitlimit c.bitpos (s ∷ outer) =
      rw stack at inv.blocks in
    rw left (record {
      same_bytes = inv.same_bytes;
      inside = omega (arith, inv.inside, blocks.0);
      blocks = Nested-on _ _ _ _ outer blocks.1 blocks.2;
    })

Step-IsNested :
    {bytes : List ℕ} {c d : IbCtx}
    → 8 * length bytes < 2 ^ 31
    → Step c d
    → IsNested bytes c
    → IsNested bytes d
Step-IsNested {c} word (read8 n small e) inv =
    Advances-IsNested
      (uint8-Advances n c (omega arith) inv.inside (omega (arith, Nested-limit _ _ _ _ inv.blocks))
        e)
      inv
Step-IsNested {c} word (read16 n small e) inv =
    Advances-IsNested
      (uint16-Advances n c (omega arith) inv.inside (omega (arith, Nested-limit _ _ _ _ inv.blocks))
        e)
      inv
Step-IsNested {c} word (read32 n small e) inv =
    Advances-IsNested
      (uint32-Advances n c (omega arith) inv.inside (omega (arith, Nested-limit _ _ _ _ inv.blocks))
        e)
      inv
Step-IsNested word (begin len info small e) inv =
    begin-IsNested len info (omega (arith, Nested-limit _ _ _ _ inv.blocks)) small e inv
Step-IsNested word (end e) inv = end-IsNested e inv

-- After any calls that return, in any order, on what `iox::parse_binary` makes for a buffer or the
-- front of one: the buffer is as it was, the position is not past the limit, the blocks that are open
-- lie within one another, and the outermost within the buffer. The buffer has fewer than 2^28 bytes,
-- the reads are of no more bits than their type, and the blocks have fewer than 2^28 bytes.
pub Reach-IsNested :
    {bytes : List ℕ} {size : ℕ} {c : IbCtx}
    → length bytes < 2 ^ 28
    → size ≤ length bytes
    → Reach (start bytes size) c
    → IsNested bytes c
Reach-IsNested short fits here = record {
  same_bytes = refl;
  inside = omega arith;
  blocks = omega arith;
}
Reach-IsNested short fits (next r st) = Step-IsNested (omega arith) st (Reach-IsNested short fits r)

-- After any calls that return, in any order, on what `iox::parse_binary` makes for a buffer of bytes or
-- the front of one, `ibx::uint8` of 1 to 8 bits throws that the bits are not left, or returns the bits
-- of the buffer at the position and moves past them. The buffer has fewer than 2^28 bytes, the reads
-- are of no more bits than their type, and the blocks have fewer than 2^28 bytes.
pub Reach-uint8 :
    {bytes : List ℕ} {size : ℕ} {c : IbCtx}
    → IsBytes bytes
    → length bytes < 2 ^ 28
    → size ≤ length bytes
    → Reach (start bytes size) c
    → (n : ℕ) → 0 < n
    → n ≤ 8
    → (BinaryIn.uint8 n c ≡ throw bits_left)
      ⊎ (BinaryIn.uint8 n c ≡ ok (bits_at bytes c.bitpos n, moved c n))
Reach-uint8 {bytes} {c = c} valid short fits r n pos small =
    let inv = Reach-IsNested short fits r in
    let limit = Nested-limit _ _ _ _ inv.blocks in
    elim (dec_le (c.bitpos + n) c.bitlimit) [
      | yes h ↦ inr (
          uint8-bits_at c (rw inv.same_bytes valid) n pos small h (omega arith)
            (rw inv.same_bytes limit)
          ∙ ap (λ b. ok (bits_at b c.bitpos n, moved c n)) inv.same_bytes)
      | no h ↦ inl (past_limit c n (omega arith) (omega (arith, inv.inside))).0
    ]
