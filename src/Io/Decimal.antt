-- ===== src/Io/Decimal.antt =====
-- Numbers in the textual form: `ocCtx::write_dec` and `icCtx::read_dec`, and the functions around them.
use mathlib.Core.Path.{subst}
use mopa.Base.{
  ℕ, zero, suc, ◌+◌, ◌-◌, ◌*◌, ◌/◌, ◌%◌, ◌^◌, ◌<◌, ◌≤◌, ◌≡◌, inl, inr, refl, sym, ap, ◌∙◌, arith,
  some, List, [], ◌∷◌, ◌++◌, Bool, Bool-cases, true, false, ltb, ◌==◌, ◌&&◌, length, append_assoc,
  if◌then◌else◌, bit_and, u32, Outcome, ok, lt→ltb, le→ltb, lt→leb, ltb→lt, if_elim, length-append,
}
use mopa.Io.Info.{Info, format_hint_mask, format_hint_hex, format_hint_bin}
use mopa.Io.TextIn
use mopa.Io.TextIn.{
  IcCtx, skip_blanks, skiptotoken, expect, is_blank, dec_digit, read_loop, read_number, read_dec,
  read_value, read_uint,
}
use mopa.Io.TextOut
use mopa.Io.TextOut.{
  OcCtx, indent, emit, digit_char, print_digits, write_dec, write_value, write_uint,
}
use mopa.Io.Scanning.{expect-append}

digit_of : (d : ℕ) → d < 10 → dec_digit (digit_char d) ≡ some d
unfolding dec_digit
digit_of d h = ground arith

-- One digit more.
loop_step :
    (value d : ℕ) (cs : List ℕ)
    → value < 2 ^ 32
    → d < 10
    → read_loop 10 dec_digit value (digit_char d ∷ cs) ≡ read_loop 10 dec_digit (value * 10 + d) cs
unfolding read_loop
loop_step value d cs small h = rw (lt→leb 0x100000000 value small, digit_of d h)

abbrev tens : ℕ → ℕ
tens zero = 1
tens (suc n) = 10 * tens n

loop_digits :
    (fuel v : ℕ) (cs : List ℕ)
    → v < tens fuel
    → v < 2 ^ 32
    → read_loop 10 dec_digit 0 (print_digits 10 fuel v ++ cs) ≡ read_loop 10 dec_digit v cs
unfolding print_digits
loop_digits zero v cs h small = ap (λ n. read_loop 10 dec_digit n cs) (omega arith)
loop_digits (suc fuel) v cs h small = elim (Bool-cases (ltb v 10)) [
  | inl one ↦
      ap branch one
      ∙ loop_step 0 v cs (omega arith) (ltb→lt _ _ one)
      ∙ ap (λ n. read_loop 10 dec_digit n cs) (omega arith)
  | inr more ↦
      ap branch more
      ∙ ap (read_loop 10 dec_digit 0)
          (append_assoc (print_digits 10 fuel (v / 10)) (digit_char (v % 10) ∷ []) cs)
      ∙ loop_digits fuel (v / 10) (digit_char (v % 10) ∷ cs) (omega arith) (omega arith)
      ∙ loop_step (v / 10) (v % 10) cs (omega arith) (omega arith)
      ∙ ap (λ n. read_loop 10 dec_digit n cs) (omega arith)
]
  where
    branch : Bool → Outcome (ℕ × List ℕ)
    branch b = read_loop 10 dec_digit 0 (
        (if b then digit_char v ∷ [] else print_digits 10 fuel (v / 10) ++ digit_char (v % 10) ∷ [])
        ++ cs)

-- The newline ends the number.
number_back :
    (bitsize v : ℕ) (rest : List ℕ) (c : IcCtx)
    → v < 2 ^ 31
    → v < 2 ^ bitsize
    → read_dec bitsize (record c { parse_pos = write_dec v ++ 10 ∷ rest })
      ≡ ok (v, record c { parse_pos = 10 ∷ rest })
unfolding read_dec read_number write_dec read_loop dec_digit
number_back bitsize v rest c word fits =
    rw
      (
        lt→ltb v (2 ^ 31) word,
        loop_digits 10 v (10 ∷ rest) (omega arith) (omega arith),
        lt→leb 0x100000000 v (omega arith),
        lt→leb (2 ^ bitsize) v fits,
      )
      (ap (λ n. ok (n, record c { parse_pos = 10 ∷ rest })) (omega arith))

-- The digits of a decimal number.
Digits : List ℕ → Type 0
Digits [] = Unit
Digits (c ∷ cs) = (48 ≤ c) × (c < 58) × Digits cs

Digits-append : (xs ys : List ℕ) → Digits xs → Digits ys → Digits (xs ++ ys)
unfolding Digits
Digits-append [] ys h k = k
Digits-append (x ∷ xs) ys h k = (h.0, h.1, Digits-append xs ys h.2 k)

digit_range : (d : ℕ) → d < 10 → (48 ≤ digit_char d) × (digit_char d < 58)
digit_range d h = (ground arith, ground arith)

print_digits-Digits : (fuel v : ℕ) → Digits (print_digits 10 fuel v)
unfolding print_digits Digits
print_digits-Digits zero v = tt
print_digits-Digits (suc fuel) v =
    if_elim Digits (ltb v 10) _ _ (λ one. let r = digit_range v (ltb→lt _ _ one) in (r.0, r.1, tt))
      (λ more.
        let r = digit_range (v % 10) (omega arith) in
        Digits-append (print_digits 10 fuel (v / 10)) (digit_char (v % 10) ∷ [])
          (print_digits-Digits fuel (v / 10)) (r.0, r.1, tt))

-- No prefix of another base, and no blank in front.
starts_decimal :
    (bitsize : ℕ) (digits rest : List ℕ) (c : IcCtx)
    → 0 < length digits
    → Digits digits
    → (skip_blanks (digits ++ 10 ∷ rest) ≡ digits ++ 10 ∷ rest)
      × (read_value bitsize (digits ++ 10 ∷ rest) c ≡ read_dec bitsize c)
unfolding skip_blanks read_value Digits
starts_decimal bitsize [] rest c nonempty h = absurd (omega arith)
starts_decimal bitsize (z ∷ []) rest c nonempty h = (ground arith, ground arith)
starts_decimal bitsize (z ∷ x ∷ digits) rest c nonempty h = (ground arith, ground arith)

some_digit : (fuel v : ℕ) → 0 < length (print_digits 10 (suc fuel) v)
unfolding print_digits
some_digit fuel v =
    if_elim (λ xs. 0 < length xs) (ltb v 10) (digit_char v ∷ [])
      (print_digits 10 fuel (v / 10) ++ digit_char (v % 10) ∷ []) (λ _. omega arith)
      (λ _. omega (arith, length-append (print_digits 10 fuel (v / 10)) (digit_char (v % 10) ∷ [])))

-- The line that `ocCtx::write_uint` adds for a number in the decimal format.
line : Info → OcCtx → ℕ → List ℕ
line info c v = indent c ++ (info.name ++ (b':' ∷ (write_dec v ++ 10 ∷ [])))

joined :
    (prod a b d : List ℕ)
    → ((((prod ++ a) ++ b) ++ b':' ∷ []) ++ d) ++ 10 ∷ []
      ≡ prod ++ (a ++ (b ++ (b':' ∷ (d ++ 10 ∷ []))))
joined prod a b d = simp append_assoc

and_false : (b : Bool) → b && false ≡ false
and_false true = refl
and_false false = refl

-- `ocCtx::write_uint` of a number that fits its bits and has neither of the other formats.
write_uint_lem :
    (bitsize v : ℕ) (info : Info) (c : OcCtx)
    → v < 2 ^ 31
    → v < 2 ^ bitsize
    → (bit_and info.hint format_hint_mask == format_hint_hex) ≡ false
    → (bit_and info.hint format_hint_mask == format_hint_bin) ≡ false
    → write_uint bitsize v (some info) c ≡ ok (tt, record c { prod = c.prod ++ line info c v })
unfolding write_uint emit write_value line
write_uint_lem bitsize v info c word fits not_hex not_bin =
    rw (not_hex, not_bin, fits_bits)
      (ap (λ text. ok (tt, record c { prod = text }))
        (joined c.prod (indent c) info.name (write_dec v)))
  where
    fits_bits : ltb bitsize 32 && ltb (2 ^ bitsize - 1) v ≡ false
    fits_bits = rw (le→ltb (2 ^ bitsize - 1) v (omega arith)) (and_false (ltb bitsize 32))

with_rest :
    (indent name digits rest : List ℕ)
    → (indent ++ (name ++ (b':' ∷ (digits ++ 10 ∷ [])))) ++ rest
      ≡ indent ++ (name ++ (b':' ∷ (digits ++ 10 ∷ rest)))
with_rest indent name digits rest = simp append_assoc

write_dec_lem : (v : ℕ) → v < 2 ^ 31 → write_dec v ≡ print_digits 10 10 v
unfolding write_dec
write_dec_lem v word = rw (lt→ltb v (2 ^ 31) word)

read_uint_lem :
    (bitsize v : ℕ) (rest : List ℕ) (first : ℕ) (name : List ℕ) (info : Info) (c : OcCtx)
    (d : IcCtx)
    → v < 2 ^ 31
    → v < 2 ^ bitsize
    → info.name ≡ first ∷ name
    → is_blank first ≡ false
    → read_uint bitsize (some info) (record d { parse_pos = line info c v ++ rest })
      ≡ ok (v, record d { parse_pos = 10 ∷ rest })
unfolding read_uint line skiptotoken
read_uint_lem bitsize v rest first name info c d word fits named blank =
    let behind = write_dec v ++ 10 ∷ rest in
    let same = write_dec_lem v word in
    let plain =
      starts_decimal bitsize (write_dec v) rest (record d { parse_pos = behind })
        (subst (λ x. 0 < length x) (sym same) (some_digit 9 v))
        (subst Digits (sym same) (print_digits-Digits 10 v)) in
    rw
      (
        named,
        with_rest (indent c) (first ∷ name) (write_dec v) rest,
        expect-append (length c.scope_stack * 2) first name (b':' ∷ behind) d blank,
        expect-append 0 b':' [] behind d refl,
        plain.0,
        plain.1,
      )
      (number_back bitsize v rest d word fits)

-- A number below 2^31 that fits its bits, fewer than 64 and within the limit of both ends, and has neither the hexadecimal nor
-- the binary format, under a name that begins with no blank: `ocx::uint` adds a text to the product
-- and moves past the bits, and `icx::uint` under the same name reads the text, with other text behind
-- it, as the number, moves past the bits, and leaves the newline and the other text.
pub read_uint-write_uint :
    (bitsize v : ℕ) (rest : List ℕ) (first : ℕ) (name : List ℕ) (info : Info) (c : OcCtx)
    (d : IcCtx)
    → v < 2 ^ 31
    → v < 2 ^ bitsize
    → (bit_and info.hint format_hint_mask == format_hint_hex) ≡ false
    → (bit_and info.hint format_hint_mask == format_hint_bin) ≡ false
    → info.name ≡ first ∷ name
    → is_blank first ≡ false
    → bitsize < 64
    → c.bitpos + bitsize ≤ c.bitlimit
    → c.bitlimit < 2 ^ 32
    → d.bitpos + bitsize ≤ d.bitlimit
    → d.bitlimit < 2 ^ 32
    → (text : List ℕ) × (TextOut.uint bitsize v (some info) c
        ≡ ok (tt, record c { prod = c.prod ++ text; bitpos = c.bitpos + bitsize }))
      × (TextIn.uint bitsize (some info) (record d { parse_pos = text ++ rest })
          ≡ ok (v, record d { parse_pos = 10 ∷ rest; bitpos = d.bitpos + bitsize }))
unfolding TextOut.uint TextIn.uint
read_uint-write_uint bitsize v rest first name info c d word fits not_hex not_bin named blank shift
      inside limit room most =
    let out : u32 (c.bitpos + bitsize) ≡ c.bitpos + bitsize = omega arith in
    let in_ : u32 (d.bitpos + bitsize) ≡ d.bitpos + bitsize = omega arith in
    (
      line info c v,
      rw
          (
            le→ltb c.bitlimit (u32 (c.bitpos + bitsize)) (omega arith),
            write_uint_lem bitsize v info c word fits not_hex not_bin,
          )
          (ap (λ p. ok (tt, record c { prod = c.prod ++ line info c v; bitpos = p })) out),
      rw (read_uint_lem bitsize v rest first name info c d word fits named blank)
          (ap (λ p. ok (v, record d { parse_pos = 10 ∷ rest; bitpos = p })) in_),
    )
