-- ===== src/Io/Coding.antt =====
-- Parts of the binary form, one after the other: an operation of `iox` that constructs, beside one that
-- parses what the first has written.
pub mod Fields
pub mod Blocks
use mopa.Base.{
  IsBytes, ℕ, ◌+◌, ◌*◌, ◌%◌, ◌^◌, ◌<◌, ◌≤◌, ◌≡◌, refl, sym, ap, ◌∙◌, arith, List, [], length, Bool,
  true, false, Outcome, ok, throw, fault, out_of_fuel, bind, M, ◌>>=◌, pure,
}
use mathlib.Core.Path.{subst}
use mopa.Io.Stream.{bits_at}
use mopa.Io.BinaryIn.{IbCtx}
use mopa.Io.BinaryOut.{ObCtx}
use mopa.Io.Facade.{Ctx, parsing, constructing, ib, ob}

-- The part ends within the limit, or at it, where the part is the rest of a block.
abbrev pub Ends : Bool → ℕ → ℕ → Type 0
Ends true end limit = end ≡ limit
Ends false end limit = end ≤ limit

pub Ends-self : (last : Bool) (end : ℕ) → Ends last end end
Ends-self true end = refl
Ends-self false end = omega arith

pub Ends-le : (last : Bool) {end limit : ℕ} → Ends last end limit → end ≤ limit
Ends-le true e = omega (arith, e)
Ends-le false e = e

-- From bit `k` of a byte on, `n` bits are within the limit, and three bytes of the buffer are behind them.
pub record CanWrite (k n : ℕ) (c : ObCtx) : Type 0 where
  pub aligned : c.bitpos % 8 ≡ k
  pub valid : IsBytes c.bytes
  pub inside : c.bitpos + n ≤ c.bitlimit
  pub word : c.bitlimit < 2 ^ 31
  pub in_buffer : c.bitlimit ≤ 8 * length c.bytes
  pub spare : c.bitpos + n + 24 ≤ 8 * length c.bytes

-- The position and the length of the buffer are the writer's, and so are the `n` bits.
pub record CanRead (last : Bool) (n : ℕ) (after : List ℕ) (c : ObCtx) (r : IbCtx) : Type 0 where
  pub same_place : r.bitpos ≡ c.bitpos
  pub valid : IsBytes r.bytes
  pub same_length : length r.bytes ≡ length after
  pub ends : Ends last (c.bitpos + n) r.bitlimit
  pub word : r.bitlimit < 2 ^ 31
  pub in_buffer : r.bitlimit ≤ 8 * length r.bytes
  pub agree :
      (q m : ℕ) → c.bitpos ≤ q → q + m ≤ c.bitpos + n → bits_at r.bytes q m ≡ bits_at after q m

module _ {A B : Type 0} where
  -- What `write` has done in `c` when it goes on as `write_on`, and that `read` takes it all before it
  -- goes on as `read_on`.
  pub record Coded (last : Bool) (write write_on : M Ctx A) (read read_on : M Ctx B) (n : ℕ)
      (c : ObCtx) : Type 0 where
    pub after : List ℕ
    pub returned :
        write (constructing (ob c))
        ≡ write_on (constructing (ob (record c { bitpos = c.bitpos + n; bytes = after })))
    pub same_length : length after ≡ length c.bytes
    pub after-IsBytes : IsBytes after
    pub before : (q m : ℕ) → q + m ≤ c.bitpos → bits_at after q m ≡ bits_at c.bytes q m
    pub reads :
        (r : IbCtx)
        → CanRead last n after c r
        → read (parsing (ib r)) ≡ read_on (parsing (ib (record r { bitpos = r.bitpos + n })))

  abbrev pub Leads : ℕ → Bool → M Ctx A → M Ctx A → M Ctx B → M Ctx B → ℕ → Type 0
  Leads k last write write_on read read_on n =
      (c : ObCtx) → CanWrite k n c → Coded last write write_on read read_on n c

  -- A part that returns a value.
  abbrev pub Codes : ℕ → Bool → M Ctx A → A → M Ctx B → B → ℕ → Type 0
  Codes k last write x read y n = Leads k last write (pure x) read (pure y) n

  pub Leads-none :
      {k : ℕ} (last : Bool) (write : M Ctx A) (read : M Ctx B)
      → Leads k last write write read read 0
  Leads-none last write read c can = record {
    after = c.bytes;
    returned = ap (λ p. write (constructing (ob (record c { bitpos = p })))) (omega arith);
    same_length = refl;
    after-IsBytes = can.valid;
    before = λ q m h. refl;
    reads = λ r found. ap (λ p. read (parsing (ib (record r { bitpos = p })))) (omega arith);
  }

  -- One part behind another.
  pub Leads-on :
      {k k' n m : ℕ} {last : Bool} {write write_on write_end : M Ctx A}
      {read read_on read_end : M Ctx B}
      → Leads k false write write_on read read_on n
      → (k + n) % 8 ≡ k'
      → Leads k' last write_on write_end read_on read_end m
      → Leads k last write write_end read read_end (n + m)
  Leads-on {n} {m} {last} {write_end} {read_end} one place two c can =
      let a = one c record {
        aligned = can.aligned;
        valid = can.valid;
        inside = omega (arith, can.inside);
        word = can.word;
        in_buffer = can.in_buffer;
        spare = omega (arith, can.spare);
      } in
      let next : ObCtx = record c { bitpos = c.bitpos + n; bytes = a.after } in
      let b = two next record {
        aligned = omega (arith, can.aligned, place);
        valid = a.after-IsBytes;
        inside = omega (arith, can.inside);
        word = can.word;
        in_buffer = omega (arith, can.in_buffer, a.same_length);
        spare = omega (arith, can.spare, a.same_length);
      } in
      record {
        after = b.after;
        returned =
            a.returned
            ∙ b.returned
            ∙ ap (λ p. write_end (constructing (ob (record c { bitpos = p; bytes = b.after }))))
                (omega arith);
        same_length = b.same_length ∙ a.same_length;
        after-IsBytes = b.after-IsBytes;
        before = λ q l h. b.before q l (omega arith) ∙ a.before q l h;
        reads = λ r found.
            let next_read : IbCtx = record r { bitpos = r.bitpos + n } in
            let front = a.reads r record {
              same_place = found.same_place;
              valid = found.valid;
              same_length = found.same_length ∙ b.same_length;
              ends = omega (arith, Ends-le last found.ends);
              word = found.word;
              in_buffer = found.in_buffer;
              agree = λ q l h h'. found.agree q l h (omega arith) ∙ b.before q l (omega arith);
            } in
            let back = b.reads next_read record {
              same_place = ap (λ p. p + n) found.same_place;
              valid = found.valid;
              same_length = found.same_length;
              ends = subst (λ p. Ends last p r.bitlimit) (omega arith) found.ends;
              word = found.word;
              in_buffer = found.in_buffer;
              agree = λ q l h h'. found.agree q l (omega arith) (omega arith);
            } in
            front
            ∙ back
            ∙ ap (λ p. read_end (parsing (ib (record r { bitpos = p })))) (omega arith);
      }

module _ {A B C D : Type 0} where
  -- A part, and what is done with its value.
  pub Codes-bind :
      {k n : ℕ} {last : Bool} {write : M Ctx A} {x : A} {read : M Ctx B} {y : B} (f : A → M Ctx C)
      (g : B → M Ctx D)
      → Codes k last write x read y n
      → Leads k last (write >>= f) (f x) (read >>= g) (g y) n
  Codes-bind {n} f g codes c can =
      let a = codes c can in
      record {
        after = a.after;
        returned = rw a.returned refl;
        same_length = a.same_length;
        after-IsBytes = a.after-IsBytes;
        before = a.before;
        reads = λ r found. rw (a.reads r found) refl;
      }

  pub Codes-then :
      {k k' n m : ℕ} {last : Bool} {write : M Ctx A} {x : A} {read : M Ctx B} {y : B}
      {write_on : M Ctx C} {read_on : M Ctx D} (f : A → M Ctx C) (g : B → M Ctx D)
      → Codes k false write x read y n
      → (k + n) % 8 ≡ k'
      → Leads k' last (f x) write_on (g y) read_on m
      → Leads k last (write >>= f) write_on (read >>= g) read_on (n + m)
  Codes-then f g one place two = Leads-on (Codes-bind f g one) place two

-- Another operation that does the same where the part can be read, or in every constructing context.
pub Codes-read_as :
    {A B : Type 0} {k n : ℕ} {last : Bool} {write : M Ctx A} {x : A} (read : M Ctx B)
    {read' : M Ctx B} {y : B}
    → Codes k last write x read y n
    → ((after : List ℕ) (c : ObCtx) (r : IbCtx)
        → CanRead last n after c r
        → read' (parsing (ib r)) ≡ read (parsing (ib r)))
    → Codes k last write x read' y n
Codes-read_as read codes same c can =
    let a = codes c can in
    record {
      after = a.after;
      returned = a.returned;
      same_length = a.same_length;
      after-IsBytes = a.after-IsBytes;
      before = a.before;
      reads = λ r found. same a.after c r found ∙ a.reads r found;
    }

pub Codes-write_as :
    {A B : Type 0} {k n : ℕ} {last : Bool} (write : M Ctx A) {write' : M Ctx A} {x : A}
    {read : M Ctx B} {y : B}
    → Codes k last write x read y n
    → ((c : ObCtx) → write' (constructing (ob c)) ≡ write (constructing (ob c)))
    → Codes k last write' x read y n
Codes-write_as write codes same c can =
    let a = codes c can in
    record {
      after = a.after;
      returned = same c ∙ a.returned;
      same_length = a.same_length;
      after-IsBytes = a.after-IsBytes;
      before = a.before;
      reads = a.reads;
    }

-- `write` returns `x`, moves `n` bits on and leaves the bits before them; `read` of these bits, as the
-- rest of a block, returns `x` and takes them all.
pub record RoundTrip {A : Type 0} (write read : M Ctx A) (x : A) (n : ℕ) (c : ObCtx) : Type 0 where
  pub written : List ℕ
  pub constructed :
      write (constructing (ob c))
      ≡ ok (x, constructing (ob (record c { bitpos = c.bitpos + n; bytes = written })))
  pub same_length : length written ≡ length c.bytes
  pub before : (q m : ℕ) → q + m ≤ c.bitpos → bits_at written q m ≡ bits_at c.bytes q m
  pub parsed :
      read (
        parsing (
          ib (record {
            bitpos = c.bitpos;
            bitlimit = c.bitpos + n;
            bytes = written;
            scope_stack = [];
          })))
      ≡ ok (
        x,
        parsing (
            ib (record {
              bitpos = c.bitpos + n;
              bitlimit = c.bitpos + n;
              bytes = written;
              scope_stack = [];
            })),
      )

pub Codes-RoundTrip :
    {A : Type 0} {k n : ℕ} {last : Bool} {write read : M Ctx A} {x : A}
    → Codes k last write x read x n
    → (c : ObCtx) → CanWrite k n c
    → RoundTrip write read x n c
Codes-RoundTrip {n} {last} codes c can =
    let a = codes c can in
    let r : IbCtx = record {
      bitpos = c.bitpos;
      bitlimit = c.bitpos + n;
      bytes = a.after;
      scope_stack = [];
    } in
    record {
      written = a.after;
      constructed = a.returned;
      same_length = a.same_length;
      before = a.before;
      parsed = a.reads r record {
        same_place = refl;
        valid = a.after-IsBytes;
        same_length = refl;
        ends = Ends-self last (c.bitpos + n);
        word = omega (arith, can.inside, can.word);
        in_buffer = omega (arith, can.inside, can.in_buffer, a.same_length);
        agree = λ q m h h'. refl;
      };
    }
