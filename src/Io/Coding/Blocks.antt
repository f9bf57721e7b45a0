-- ===== src/Io/Coding/Blocks.antt =====
-- `iox::named_block_begin` and `named_block_end` of the binary form, around the parts of a block.
use mathlib.Core.Path.{subst}
use mopa.Base.{
  IsBytes, ℕ, ◌+◌, ◌-◌, ◌*◌, ◌/◌, ◌%◌, ◌^◌, ◌<◌, ◌≤◌, ◌≡◌, refl, ap, ap₂, ◌∙◌, arith, List, ◌∷◌,
  length, Bool, false, ==_iff, ltb, if◌then◌else◌, u32, sub32, ok, M, ◌>>=◌, Option,
}
use native.Mathlib.Nat.{pow-le-pow_right}
use mopa.Io.Info.{Info}
use mopa.Io.Stream.{bits_at}
use mopa.Io.Patches.{Patched, bits_at-Patched, bits_at-Patched_before, bits_at-Patched_behind}
use mopa.Io.BinaryIn
use mopa.Io.BinaryIn.{IbCtx}
use mopa.Io.BinaryOut
use mopa.Io.BinaryOut.{ObCtx, ObScope}
use mopa.Io.Reading.{uint32-bits_at}
use mopa.Io.Blocks.{opened, block_end-block_begin, named_block_end-Patched}
use mopa.Io.Facade.{
  Ctx, parsing, constructing, ib, ob, named_block_begin, named_block_end, ix_named_block_begin,
  ix_named_block_end, ox_named_block_begin, ox_named_block_end,
}
use mopa.Io.Coding.{Ends, Ends-self, CanWrite, Coded, Leads}

-- The scope that `ox::named_block_begin` opens.
abbrev pub scope : ℕ → Option Info → ObCtx → ObScope
scope nb info c = record {
  info = info;
  bitpos_at_enter = c.bitpos + nb;
  bitlimit_at_enter = c.bitlimit;
  position_for_write = c.bitpos;
}

abbrev pub begun : ℕ → Option Info → ℕ → ObCtx → ObCtx
begun nb info limit c = record c {
  bitpos = c.bitpos + nb;
  bitlimit = limit;
  scope_stack = scope nb info c ∷ c.scope_stack;
}

-- How far `ox::block_begin` lets the block go.
pub block_limit : ℕ → ObCtx → ℕ
block_limit nb c =
    let limit = u32 ((2 ^ nb - 1) * 8) in
    let pos = u32 (c.bitpos + nb) in
    u32 (pos + (if ltb c.bitlimit (u32 (pos + limit)) then sub32 c.bitlimit pos else limit))

pub begins :
    (nb : ℕ) (info : Option Info) (c : ObCtx)
    → (c.bitpos + nb) % 8 ≡ 0
    → c.bitpos + nb ≤ c.bitlimit
    → c.bitlimit < 2 ^ 31
    → BinaryOut.named_block_begin nb info c ≡ ok (tt, begun nb info (block_limit nb c) c)
unfolding BinaryOut.named_block_begin BinaryOut.block_begin block_limit
begins nb info c aligned inside word =
    let pos : u32 (c.bitpos + nb) ≡ c.bitpos + nb = omega arith in
    rw ((==_iff (u32 (c.bitpos + nb) % 8) 0).1 (omega (arith, pos))) (
      ap
        (λ p. ok (
          tt,
          record (begun nb info (block_limit nb c) c) {
            bitpos = p;
            scope_stack = record (scope nb info c) { bitpos_at_enter = p } ∷ c.scope_stack;
          },
        ))
        pos)

-- The limit leaves room for as many bytes as the length can count, within the outer limit.
pub block_limit-room :
    (nb len : ℕ) (c : ObCtx)
    → nb ≤ 16
    → len < 2 ^ nb
    → c.bitpos + (nb + len * 8) ≤ c.bitlimit
    → c.bitlimit < 2 ^ 31
    → (c.bitpos + nb + len * 8 ≤ block_limit nb c) × (block_limit nb c ≤ c.bitlimit)
unfolding block_limit
block_limit-room nb len c small fits inside word =
    let most : 2 ^ nb ≤ 2 ^ 16 = pow-le-pow_right (omega arith) small in ground (arith, most)

module _ {B : Type 0} {len : ℕ} (nb : ℕ) (info : Option Info) (read : M Ctx B) where
  -- The length is read, and the block opened.
  pub block_opens :
      (r : IbCtx)
      → IsBytes r.bytes
      → 0 < nb
      → r.bitpos % 8 + nb ≤ 32
      → (r.bitpos + nb) % 8 ≡ 0
      → r.bitpos + nb + len * 8 ≤ r.bitlimit
      → r.bitlimit < 2 ^ 31
      → r.bitpos / 8 + 4 ≤ length r.bytes
      → bits_at r.bytes r.bitpos nb ≡ len
      → (named_block_begin nb info >>= λ _. read) (parsing (ib r))
        ≡ read (parsing (ib (opened info len (record r { bitpos = r.bitpos + nb }))))
  unfolding named_block_begin ix_named_block_begin
  block_opens r valid pos four aligned inside word room is =
      let start : IbCtx = record r { bitpos = r.bitpos + nb } in
      let length_read : BinaryIn.uint32 nb r ≡ ok (len, start) =
        uint32-bits_at r valid nb pos four (omega arith) (omega arith) room
        ∙ ap₂ (λ v p. ok (v, record r { bitpos = p })) is (omega arith) in
      rw (length_read, (block_end-block_begin info len start aligned inside (omega arith)).0) refl

  -- The parts behind it are read, and the end is reached.
  block_reads :
      (fin : ℕ → M Ctx B) (r : IbCtx)
      → IsBytes r.bytes
      → 0 < nb
      → r.bitpos % 8 + nb ≤ 32
      → (r.bitpos + nb) % 8 ≡ 0
      → r.bitpos + nb + len * 8 ≤ r.bitlimit
      → r.bitlimit < 2 ^ 31
      → r.bitpos / 8 + 4 ≤ length r.bytes
      → bits_at r.bytes r.bitpos nb ≡ len
      → (let start : IbCtx = record r { bitpos = r.bitpos + nb } in
          read (parsing (ib (opened info len start)))
          ≡ (named_block_end >>= fin)
              (parsing (ib (record (opened info len start) { bitpos = r.bitpos + nb + len * 8 }))))
      → (named_block_begin nb info >>= λ _. read) (parsing (ib r))
        ≡ fin len (parsing (ib (record r { bitpos = r.bitpos + (nb + len * 8) })))
  unfolding named_block_end ix_named_block_end
  block_reads fin r valid pos four aligned inside word room is body =
      let start : IbCtx = record r { bitpos = r.bitpos + nb } in
      block_opens r valid pos four aligned inside word room is
      ∙ body
      ∙ rw (block_end-block_begin info len start aligned inside (omega arith)).1
          (ap (λ p. fin len (parsing (ib (record r { bitpos = p })))) (omega arith))

module _ {A B : Type 0} {k len : ℕ} {last : Bool} {body : M Ctx A} {read : M Ctx B}
    (fin : ℕ → M Ctx A) (gin : ℕ → M Ctx B) (nb : ℕ) (info : Option Info) (some_bit : 0 < nb)
    (small : nb ≤ 16) (byte : (k + nb) % 8 ≡ 0) (bit : k < 8) (counted : len < 2 ^ nb)
    (codes : Leads 0 last body
      (named_block_end >>= fin)
      read
      (named_block_end >>= gin)
      (len * 8)) where
  module _ (c : ObCtx) (can : CanWrite k (nb + len * 8) c) where
    start : ObCtx
    start = begun nb info (block_limit nb c) c

    start-CanWrite : CanWrite 0 (len * 8) start
    unfolding start
    start-CanWrite =
        let room = block_limit-room nb len c small counted can.inside can.word in
        record {
          aligned = omega (arith, byte, can.aligned);
          valid = can.valid;
          inside = room.0;
          word = omega (arith, room.1, can.word);
          in_buffer = omega (arith, room.1, can.in_buffer);
          spare = omega (arith, can.spare);
        }

    -- The parts are written, and then their length in front of them.
    block_written :
        (a : Coded last body
          (named_block_end >>= fin)
          read
          (named_block_end >>= gin)
          (len * 8)
          start)
        → (after : List ℕ) × ((named_block_begin nb info >>= λ _. body) (constructing (ob c))
            ≡ fin len (
                constructing (ob (record c { bitpos = c.bitpos + (nb + len * 8); bytes = after }))))
          × Patched a.after after c.bitpos nb len
    unfolding start named_block_begin named_block_end ox_named_block_begin ox_named_block_end
    block_written a =
        let e =
          named_block_end-Patched
            (record start { bitpos = start.bitpos + len * 8; bytes = a.after }) (scope nb info c)
            c.scope_stack nb len a.after-IsBytes refl refl refl
            (omega (arith, can.inside, can.word)) some_bit counted
            (omega (arith, can.aligned, byte)) (omega (arith, can.inside)) (omega (arith, can.word))
            (omega (arith, can.spare, a.same_length)) in
        (
          e.0,
          rw
              (
                begins nb info c (omega (arith, byte, can.aligned)) (omega (arith, can.inside))
                    can.word,
                a.returned,
                e.1,
              )
              (ap (λ p. fin len (constructing (ob (record c { bitpos = p; bytes = e.0 }))))
                (omega arith)),
          e.2,
        )

  -- A block of whole bytes, counted by the length in front of it, that starts at a byte.
  pub block-Leads :
      Leads k false
        (named_block_begin nb info >>= λ _. body)
        (fin len)
        (named_block_begin nb info >>= λ _. read)
        (gin len)
        (nb + len * 8)
  unfolding start
  block-Leads c can =
      let a = codes (start c can) (start-CanWrite c can) in
      let (after, done, w) = block_written c can a in
      record {
        after = after;
        returned = done;
        same_length = w.same_length ∙ a.same_length;
        after-IsBytes = w.after-IsBytes;
        before = λ q m h.
            bits_at-Patched_before w q m h (omega (arith, can.spare, a.same_length))
            ∙ a.before q m (omega arith);
        reads = λ r found.
            let same : r.bitpos ≡ c.bitpos = found.same_place in
            let end : c.bitpos + (nb + len * 8) ≤ r.bitlimit = found.ends in
            let size : length r.bytes ≡ length c.bytes =
              found.same_length ∙ w.same_length ∙ a.same_length in
            let aligned : c.bitpos % 8 ≡ k = can.aligned in
            let inner : IbCtx = opened info len (record r { bitpos = r.bitpos + nb }) in
            block_reads nb info read gin r found.valid some_bit (omega arith) (omega arith)
              (omega arith) found.word (omega (arith, can.spare))
              (ap (λ p. bits_at r.bytes p nb) same
                ∙ found.agree c.bitpos nb (omega arith) (omega arith)
                ∙ bits_at-Patched w)
              (a.reads inner record {
                same_place = ap (λ p. p + nb) same;
                valid = found.valid;
                same_length = found.same_length ∙ w.same_length;
                ends =
                    subst (λ p. Ends last (p + nb + len * 8) (r.bitpos + nb + len * 8)) same
                      (Ends-self last (r.bitpos + nb + len * 8));
                word = omega (arith, found.word);
                in_buffer = omega (arith, found.in_buffer);
                agree = λ q m h h'.
                    found.agree q m (omega arith) (omega arith)
                    ∙ bits_at-Patched_behind w q m h (omega (arith, can.spare, a.same_length));
              });
      }
