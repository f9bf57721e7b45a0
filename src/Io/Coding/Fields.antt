-- ===== src/Io/Coding/Fields.antt =====
-- `iox::uint` and `iox::uint_req` of the binary form.
use mopa.Base.{
  IsBytes, ℕ, ◌+◌, ◌*◌, ◌^◌, ◌<◌, ◌≤◌, ◌≡◌, refl, ap, ◌∙◌, arith, List, length, false, not, ◌==◌,
  ==_iff, u16, u32, Outcome, ok, within, throw_if, required_value, M, pure, Option,
}
use native.Mathlib.Nat.{mod-eq_of_lt}
use mopa.Io.Info.{Info}
use mopa.Io.Stream.{bits_at}
use mopa.Io.Patches.{Patched, bits_at-Patched, bits_at-Patched_before}
use mopa.Io.BinaryIn.{IbCtx}
use mopa.Io.BinaryOut.{ObCtx}
use mopa.Io.Fetching.{moved}
use mopa.Io.Memory.{written}
use mopa.Io.Reading.{uint8-bits_at, uint32-bits_at}
use mopa.Io.Writing.{uint8-Patched, uint16-Patched, uint32-Patched}
use mopa.Io.Facade.{
  Ctx, parsing, constructing, ib, ob, uint8, uint16, uint32, uint_req8, uint_req16, ix_uint8,
  ix_uint16, ix_uint32, ox_uint8, ox_uint16, ox_uint32,
}
use mopa.Io.Coding.{Coded, Codes}

-- A field that is patched by the writer, and found by the reader.
pub field-Leads :
    {A B : Type 0} {write write_on : M Ctx A} {read read_on : M Ctx B} {n val : ℕ} (c : ObCtx)
    → c.bitpos + n ≤ 8 * length c.bytes
    → (after : List ℕ) × (write (constructing (ob c))
        ≡ write_on (constructing (ob (record c { bitpos = c.bitpos + n; bytes = after }))))
      × Patched c.bytes after c.bitpos n val
    → ((r : IbCtx)
        → length r.bytes ≡ length c.bytes
        → IsBytes r.bytes
        → r.bitpos ≡ c.bitpos
        → r.bitpos + n ≤ r.bitlimit
        → r.bitlimit < 2 ^ 31
        → r.bitlimit ≤ 8 * length r.bytes
        → bits_at r.bytes r.bitpos n ≡ val
        → read (parsing (ib r)) ≡ read_on (parsing (ib (record r { bitpos = r.bitpos + n }))))
    → Coded false write write_on read read_on n c
field-Leads {n} c room (after, done, w) reading = record {
  after = after;
  returned = done;
  same_length = w.same_length;
  after-IsBytes = w.after-IsBytes;
  before = λ q m h. bits_at-Patched_before w q m h room;
  reads = λ r found.
      let same : r.bitpos ≡ c.bitpos = found.same_place in
      let end : c.bitpos + n ≤ r.bitlimit = found.ends in
      reading r (found.same_length ∙ w.same_length) found.valid same (omega arith) found.word
        found.in_buffer
        (ap (λ p. bits_at r.bytes p n) same
          ∙ found.agree c.bitpos n (omega arith) (omega arith)
          ∙ bits_at-Patched w);
}

-- The value that the reader returns is made of the bits.
field-Coded :
    {A B : Type 0} {write : M Ctx A} {x : A} {read : M Ctx B} {y : B} {n val : ℕ}
    (result : ℕ → IbCtx → Outcome (B × Ctx)) (c : ObCtx)
    → c.bitpos + n ≤ 8 * length c.bytes
    → (after : List ℕ) × (write (constructing (ob c))
        ≡ ok (x, constructing (ob (record c { bitpos = c.bitpos + n; bytes = after }))))
      × Patched c.bytes after c.bitpos n val
    → ((r : IbCtx)
        → length r.bytes ≡ length c.bytes
        → IsBytes r.bytes
        → r.bitpos ≡ c.bitpos
        → r.bitpos + n ≤ r.bitlimit
        → r.bitlimit < 2 ^ 31
        → r.bitlimit ≤ 8 * length r.bytes
        → read (parsing (ib r))
          ≡ result (bits_at r.bytes r.bitpos n) (record r { bitpos = r.bitpos + n }))
    → ((d : IbCtx) → result val d ≡ ok (y, parsing (ib d)))
    → Coded false write (pure x) read (pure y) n c
field-Coded {n} result c room patch reading gives =
    field-Leads c room patch λ r len valid same inside word fits is.
      let next : IbCtx = record r { bitpos = r.bitpos + n } in
      reading r len valid same inside word fits ∙ ap (λ v. result v next) is ∙ gives next

no_wrap : (p n limit : ℕ) → p + n ≤ limit → limit < 2 ^ 31 → u32 (p + n) ≡ p + n
no_wrap p n limit h word = omega arith

-- The move past a field, without the wrap of the position.
on_moved :
    {X : Type 0} (f : IbCtx → X) (r : IbCtx) (n : ℕ)
    → r.bitpos + n ≤ r.bitlimit
    → r.bitlimit < 2 ^ 31
    → f (moved r n) ≡ f (record r { bitpos = r.bitpos + n })
on_moved f r n h word = ap (λ p. f (record r { bitpos = p })) (no_wrap r.bitpos n r.bitlimit h word)

-- The test of `ix::uint_req` on the value read.
abbrev required : ℕ → ℕ → IbCtx → Outcome (Unit {0} × Ctx)
required val v d = within parsing (throw_if (not (v == val)) required_value (ib d))

required_self : (val : ℕ) (d : IbCtx) → required val val d ≡ ok (tt, parsing (ib d))
required_self val d = rw ((==_iff val val).1 refl) refl

on_written :
    {X : Type 0} (f : ObCtx → X) (c : ObCtx) (n : ℕ) (after : List ℕ)
    → c.bitpos + n ≤ c.bitlimit
    → c.bitlimit < 2 ^ 31
    → f (written c n after) ≡ f (record c { bitpos = c.bitpos + n; bytes = after })
on_written f c n after h word =
    ap (λ p. f (record c { bitpos = p; bytes = after })) (no_wrap c.bitpos n c.bitlimit h word)

module _ {k n : ℕ} (val old : ℕ) (info : Option Info) (fits : val < 2 ^ n) (pos : 0 < n) where
  module _ (small : n ≤ 8) where
    pub uint8-Codes : Codes k false (uint8 n val info) val (uint8 n old info) val n
    unfolding uint8 ix_uint8 ox_uint8
    uint8-Codes c can =
        let w =
          uint8-Patched c can.valid n val fits pos small can.inside (omega (arith, can.word))
            can.in_buffer in
        field-Coded (λ v d. ok (v, parsing (ib d))) c (omega (arith, can.spare))
          (
            w.0,
            rw w.1 (on_written (λ d. ok (val, constructing (ob d))) c n w.0 can.inside can.word),
            w.2,
          )
          (λ r len valid same inside word room.
            rw (uint8-bits_at r valid n pos small inside (omega arith) room)
              (on_moved (λ d. ok (bits_at r.bytes r.bitpos n, parsing (ib d))) r n inside word))
          (λ d. refl)

    pub uint_req8-Codes : Codes k false (uint_req8 n val info) tt (uint_req8 n val info) tt n
    unfolding uint_req8 ix_uint8 ox_uint8
    uint_req8-Codes c can =
        let w =
          uint8-Patched c can.valid n val fits pos small can.inside (omega (arith, can.word))
            can.in_buffer in
        field-Coded (required val) c (omega (arith, can.spare))
          (
            w.0,
            rw w.1 (on_written (λ d. ok (tt, constructing (ob d))) c n w.0 can.inside can.word),
            w.2,
          )
          (λ r len valid same inside word room.
            rw (uint8-bits_at r valid n pos small inside (omega arith) room)
              (on_moved (required val (bits_at r.bytes r.bitpos n)) r n inside word))
          (required_self val)

  -- The reader takes four bytes for these, and so does the writer of 32 bits.
  module _ (small : k + n ≤ 32) (half : n ≤ 16) (half_fits : val < 2 ^ 16) where
    pub uint16-Codes : Codes k false (uint16 n val info) val (uint16 n old info) val n
    unfolding uint16 ix_uint16 ox_uint16
    uint16-Codes c can =
        let w =
          uint16-Patched c can.valid n val fits half can.inside (omega (arith, can.word))
            can.in_buffer (omega (arith, can.spare)) in
        field-Coded (λ v d. ok (u16 v, parsing (ib d))) c (omega (arith, can.spare))
          (
            w.0,
            rw w.1 (on_written (λ d. ok (val, constructing (ob d))) c n w.0 can.inside can.word),
            w.2,
          )
          (λ r len valid same inside word room.
            rw
              (uint32-bits_at r valid n (omega (arith, can.aligned, same))
                (omega (arith, can.aligned, same)) inside (omega arith)
                (omega (arith, can.spare, len, same)))
              (on_moved (λ d. ok (u16 (bits_at r.bytes r.bitpos n), parsing (ib d))) r n inside
                word))
          (λ d. ap (λ v. ok (v, parsing (ib d))) (mod-eq_of_lt half_fits))

    pub uint_req16-Codes : Codes k false (uint_req16 n val info) tt (uint_req16 n val info) tt n
    unfolding uint_req16 ix_uint16 ox_uint16
    uint_req16-Codes c can =
        let w =
          uint16-Patched c can.valid n val fits half can.inside (omega (arith, can.word))
            can.in_buffer (omega (arith, can.spare)) in
        field-Coded (λ v. required val (u16 v)) c (omega (arith, can.spare))
          (
            w.0,
            rw w.1 (on_written (λ d. ok (tt, constructing (ob d))) c n w.0 can.inside can.word),
            w.2,
          )
          (λ r len valid same inside word room.
            rw
              (uint32-bits_at r valid n (omega (arith, can.aligned, same))
                (omega (arith, can.aligned, same)) inside (omega arith)
                (omega (arith, can.spare, len, same)))
              (on_moved (required val (u16 (bits_at r.bytes r.bitpos n))) r n inside word))
          (λ d. ap (λ v. required val v d) (mod-eq_of_lt half_fits) ∙ required_self val d)

  pub uint32-Codes : k + n ≤ 32 → Codes k false (uint32 n val info) val (uint32 n old info) val n
  unfolding uint32 ix_uint32 ox_uint32
  uint32-Codes small c can =
      let w =
        uint32-Patched c can.valid n val fits pos (omega (arith, can.aligned)) can.inside
          (omega (arith, can.word)) (omega (arith, can.spare)) in
      field-Coded (λ v d. ok (v, parsing (ib d))) c (omega (arith, can.spare))
        (
          w.0,
          rw w.1 (on_written (λ d. ok (val, constructing (ob d))) c n w.0 can.inside can.word),
          w.2,
        )
        (λ r len valid same inside word room.
          rw
            (uint32-bits_at r valid n (omega (arith, can.aligned, same))
              (omega (arith, can.aligned, same)) inside (omega arith)
              (omega (arith, can.spare, len, same)))
            (on_moved (λ d. ok (bits_at r.bytes r.bitpos n, parsing (ib d))) r n inside word))
        (λ d. refl)
