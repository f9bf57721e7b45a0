-- ===== src/Io/RoundTrip.antt =====
-- Fields written one after the other by `obx::uint`, and `ibx::uint32` on them.
use mathlib.Core.Path.{subst}
use mopa.Base.{
  IsBytes, ℕ, ◌+◌, ◌/◌, ◌%◌, ◌^◌, ◌<◌, ◌≤◌, ◌≡◌, refl, sym, ap, ap₂, ◌∙◌, arith, List, [], ◌∷◌,
  length, u32, ok, M, pure, ◌>>=◌, ◌>>◌,
}
use mopa.Io.Stream.{bits_at}
use mopa.Io.Patches.{bits_at-Patched, bits_at-Patched_before}
use mopa.Io.BinaryIn
use mopa.Io.BinaryIn.{IbCtx}
use mopa.Io.BinaryOut
use mopa.Io.BinaryOut.{ObCtx}
use mopa.Io.Reading.{uint32-bits_at}
use mopa.Io.Writing.{uint32-Patched}

-- A width and a value.
pub record Field : Type 0 where
  pub width : ℕ
  pub value : ℕ

unfoldable pub write_fields : List Field → M ObCtx (Unit {0})
write_fields [] = pure tt
write_fields (f ∷ fs) = BinaryOut.uint32 f.width f.value >> write_fields fs

unfoldable pub read_fields : List Field → M IbCtx (List ℕ)
read_fields [] = pure []
read_fields (f ∷ fs) = do
  value ← BinaryIn.uint32 f.width
  values ← read_fields fs
  pure (value ∷ values)

abbrev pub values : List Field → List ℕ
values [] = []
values (f ∷ fs) = f.value ∷ values fs

abbrev pub total : List Field → ℕ
total [] = 0
total (f ∷ fs) = f.width + total fs

-- From bit `pos` on, each value fits its bits, these are within the limit and in four bytes, and the
-- four bytes are among `len`.
pub record FieldFits (len limit pos : ℕ) (f : Field) : Type 0 where
  pub some_bit : 0 < f.width
  pub value_fits : f.value < 2 ^ f.width
  pub four_bytes : pos % 8 + f.width ≤ 32
  pub inside : pos + f.width ≤ limit
  pub room : pos / 8 + 4 ≤ len

abbrev pub FieldsFit : ℕ → ℕ → ℕ → List Field → Type 0
FieldsFit len limit pos [] = Unit
FieldsFit len limit pos (f ∷ fs) =
    FieldFits len limit pos f × FieldsFit len limit (pos + f.width) fs

abbrev FieldsAre : List ℕ → ℕ → List Field → Type 0
FieldsAre bytes pos [] = Unit
FieldsAre bytes pos (f ∷ fs) =
    (bits_at bytes pos f.width ≡ f.value) × FieldsAre bytes (pos + f.width) fs

-- What was written, to be read from a position.
abbrev pub reading : ℕ → ObCtx → IbCtx
reading pos d = record { bitpos = pos; bitlimit = d.bitlimit; bytes = d.bytes; scope_stack = [] }

no_wrap : (p n limit : ℕ) → p + n ≤ limit → limit < 2 ^ 32 → u32 (p + n) ≡ p + n
no_wrap p n limit h word = omega arith

reads :
    (fs : List Field) (r : IbCtx)
    → IsBytes r.bytes
    → r.bitlimit < 2 ^ 32
    → FieldsFit (length r.bytes) r.bitlimit r.bitpos fs
    → FieldsAre r.bytes r.bitpos fs
    → read_fields fs r ≡ ok (values fs, record r { bitpos = r.bitpos + total fs })
unfolding read_fields
reads [] r valid word fit are = ap (λ p. ok ([], record r { bitpos = p })) (omega arith)
reads (f ∷ fs) r valid word fit are =
    let n = f.width in
    let one = fit.0 in
    let next : IbCtx = record r { bitpos = r.bitpos + n } in
    let step : BinaryIn.uint32 n r ≡ ok (f.value, next) =
      uint32-bits_at r valid n one.some_bit one.four_bytes one.inside word one.room
      ∙ ap₂ (λ v p. ok (v, record r { bitpos = p })) are.0
          (no_wrap r.bitpos n r.bitlimit one.inside word) in
    rw (step, reads fs next valid word fit.1 are.1)
      (ap (λ p. ok (f.value ∷ values fs, record r { bitpos = p })) (omega arith))

-- What is known of the context after the writes.
record Wrote (c : ObCtx) (fs : List Field) : Type 0 where
  after : List ℕ
  returned : write_fields fs c ≡ ok (tt, record c { bitpos = c.bitpos + total fs; bytes = after })
  same_length : length after ≡ length c.bytes
  after-IsBytes : IsBytes after
  are : FieldsAre after c.bitpos fs
  before : (p m : ℕ) → p + m ≤ c.bitpos → bits_at after p m ≡ bits_at c.bytes p m

writes :
    (fs : List Field) (c : ObCtx)
    → IsBytes c.bytes
    → c.bitlimit < 2 ^ 32
    → FieldsFit (length c.bytes) c.bitlimit c.bitpos fs
    → Wrote c fs
unfolding write_fields
writes [] c valid word fit = record {
  after = c.bytes;
  returned = ap (λ p. ok (tt, record c { bitpos = p })) (omega arith);
  same_length = refl;
  after-IsBytes = valid;
  are = tt;
  before = λ p m h. refl;
}
writes (f ∷ fs) c valid word fit =
    let n = f.width in
    let one = fit.0 in
    let w =
      uint32-Patched c valid n f.value one.value_fits one.some_bit one.four_bytes one.inside word
        one.room in
    let next : ObCtx = record c { bitpos = c.bitpos + n; bytes = w.0 } in
    let step : BinaryOut.uint32 n f.value c ≡ ok (tt, next) =
      w.1
      ∙ ap (λ p. ok (tt, record c { bitpos = p; bytes = w.0 }))
          (no_wrap c.bitpos n c.bitlimit one.inside word) in
    let rest =
      writes fs next w.2.after-IsBytes word
        (subst (λ l. FieldsFit l c.bitlimit (c.bitpos + n) fs) (sym w.2.same_length) fit.1) in
    record {
      after = rest.after;
      returned =
          rw (step, rest.returned)
            (ap (λ p. ok (tt, record c { bitpos = p; bytes = rest.after })) (omega arith));
      same_length = rest.same_length ∙ w.2.same_length;
      after-IsBytes = rest.after-IsBytes;
      are = (rest.before c.bitpos n (omega arith) ∙ bits_at-Patched w.2, rest.are);
      before = λ p m h.
          rest.before p m (omega arith)
          ∙ bits_at-Patched_before w.2 p m h (omega (arith, one.room, one.four_bytes));
    }

-- Fields written one after the other into a buffer of bytes, under a limit below 2^32, are all read
-- back, with the same limit, from the position at which the writing began. Each field has one bit or
-- more, its value fits them, and they end within the limit and lie in the four bytes from the
-- one of the position on, all four of which are in the buffer.
pub read_fields-write_fields :
    (fs : List Field) (c : ObCtx)
    → IsBytes c.bytes
    → c.bitlimit < 2 ^ 32
    → FieldsFit (length c.bytes) c.bitlimit c.bitpos fs
    → (d : ObCtx) × (write_fields fs c ≡ ok (tt, d))
      × (read_fields fs (reading c.bitpos d)
          ≡ ok (values fs, record (reading c.bitpos d) { bitpos = c.bitpos + total fs }))
read_fields-write_fields fs c valid word fit =
    let w = writes fs c valid word fit in
    let d : ObCtx = record c { bitpos = c.bitpos + total fs; bytes = w.after } in
    (
      d,
      w.returned,
      reads fs (reading c.bitpos d) w.after-IsBytes word
          (subst (λ l. FieldsFit l c.bitlimit c.bitpos fs) (sym w.same_length) fit) w.are,
    )
