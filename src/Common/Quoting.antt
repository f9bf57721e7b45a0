-- ===== src/Common/Quoting.antt =====
-- `parse_string` on what `produce_string` writes.
use mopa.Base.{
  IsBytes, ℕ, ◌+◌, ◌*◌, ◌%◌, ◌^◌, ◌<◌, ◌≡◌, refl, ap, ◌∙◌, arith, List, [], ◌∷◌, ◌++◌, append_assoc,
  length, ==_iff, true, false, ◌==◌, some, bit_and, ◌>>>◌, ok, bind, Bool-cases, inl, inr,
}
use mopa.Bits.{and_mask}
use mopa.Io.Info.{Info}
use mopa.Io.TextIn.{IcCtx, is_blank}
use mopa.Io.TextOut.{OcCtx, emit, indent}
use mopa.Io.Scanning.{expect-append}
use mopa.Common.Text.{
  produce_string, parse_string, quote, backslash, is_simple, is_plain, octal_digit, octal_value,
  prepend, string_loop, quoted_char, quoted,
}

octal_digit_char : (d : ℕ) → d < 8 → octal_digit (b'0' + d) ≡ some d
unfolding octal_digit
octal_digit_char d h = ground arith

-- Three octal digits of a byte make it up again.
octal_digits :
    (c : ℕ)
    → c < 2 ^ 8
    → octal_value
        (some (bit_and (c >>> 6) 7))
        (some (bit_and (c >>> 3) 7))
        (some (bit_and (c >>> 0) 7))
      ≡ ok c
octal_digits c h = ground (arith, and_mask 3 (c >>> 6), and_mask 3 (c >>> 3), and_mask 3 (c >>> 0))

string_loop_simple :
    (c : ℕ) (rest : List ℕ)
    → is_simple c ≡ true
    → string_loop (backslash ∷ c ∷ rest) ≡ prepend c (string_loop rest)
unfolding string_loop
string_loop_simple c rest h = rw h

string_loop_plain :
    (c : ℕ) (rest : List ℕ)
    → is_simple c ≡ false
    → is_plain c ≡ true
    → string_loop (c ∷ rest) ≡ prepend c (string_loop rest)
unfolding string_loop
string_loop_plain c rest h p =
    let q : (c == quote) ≡ false = ground arith in
    let b : (c == backslash) ≡ false = ground arith in rw (q, b, p)

digit_not_simple : (d : ℕ) → d < 8 → is_simple (b'0' + d) ≡ false
digit_not_simple d h = ground arith

string_loop_digits :
    (d1 d2 d3 : ℕ) (rest : List ℕ)
    → d1 < 8
    → d2 < 8
    → d3 < 8
    → string_loop (backslash ∷ (b'0' + d1) ∷ (b'0' + d2) ∷ (b'0' + d3) ∷ rest)
      ≡ bind (octal_value (some d1) (some d2) (some d3)) (λ val. prepend val (string_loop rest))
unfolding string_loop
string_loop_digits d1 d2 d3 rest h1 h2 h3 =
    rw (
      digit_not_simple d1 h1,
      octal_digit_char d1 h1,
      octal_digit_char d2 h2,
      octal_digit_char d3 h3,
    )

three_bits : (x : ℕ) → bit_and x 7 < 8
three_bits x = omega (arith, and_mask 3 x)

string_loop_octal :
    (c : ℕ) (rest : List ℕ)
    → c < 2 ^ 8
    → string_loop (
        backslash
        ∷ (b'0' + bit_and (c >>> 6) 7)
        ∷ (b'0' + bit_and (c >>> 3) 7)
        ∷ (b'0' + bit_and (c >>> 0) 7)
        ∷ rest)
      ≡ prepend c (string_loop rest)
string_loop_octal c rest h =
    string_loop_digits _ _ _ rest (three_bits (c >>> 6)) (three_bits (c >>> 3))
      (three_bits (c >>> 0))
    ∙ ap (λ r. bind r (λ val. prepend val (string_loop rest))) (octal_digits c h)

-- One byte, in whichever of the three forms it is written.
string_loop-quoted_char :
    (c : ℕ) (rest : List ℕ)
    → c < 2 ^ 8
    → string_loop (quoted_char c ++ rest) ≡ prepend c (string_loop rest)
unfolding quoted_char
string_loop-quoted_char c rest h = elim (Bool-cases (is_simple c)) [
  | inl e ↦ rw e (string_loop_simple c rest e)
  | inr e ↦ elim (Bool-cases (is_plain c)) [
    | inl p ↦ rw (e, p) (string_loop_plain c rest e p)
    | inr p ↦ rw (e, p) (string_loop_octal c rest h)
  ]
]

-- The quoted form of any string of bytes, and the closing quote behind it, are read back as the
-- string, whatever bytes it holds, and what follows the quote is left to be read.
pub string_loop-quoted :
    (str rest : List ℕ) → IsBytes str → string_loop (quoted str ++ quote ∷ rest) ≡ ok (str, rest)
unfolding quoted string_loop
string_loop-quoted [] rest valid = refl
string_loop-quoted (c ∷ cs) rest valid =
    rw (append_assoc (quoted_char c) (quoted cs) (quote ∷ rest)) (
      string_loop-quoted_char c (quoted cs ++ quote ∷ rest) valid.0
      ∙ ap (prepend c) (string_loop-quoted cs rest valid.1))

-- The text of a string, as `produce_string` adds it.
abbrev produced : List ℕ → OcCtx → List ℕ → List ℕ
produced name c str = indent c ++ (name ++ (b':' ∷ quote ∷ (quoted str ++ quote ∷ 10 ∷ [])))

joined : (a b c d e : List ℕ) → (((a ++ b) ++ c) ++ d) ++ e ≡ a ++ (b ++ (c ++ (d ++ e)))
joined a b c d e = simp append_assoc

produce_string_lem :
    (str : List ℕ) (info : Info) (c : OcCtx)
    → c.bitpos % 8 ≡ 0
    → produce_string str (some info) c
      ≡ ok (tt, record c { prod = c.prod ++ produced info.name c str })
unfolding produce_string emit
produce_string_lem str info c aligned =
    let test : (c.bitpos % 8 == 0) ≡ true = (==_iff (c.bitpos % 8) 0).1 aligned in
    rw test (
      ap (λ text. ok (tt, record c { prod = text }))
        (joined c.prod (indent c) info.name (b':' ∷ quote ∷ []) (quoted str ++ quote ∷ 10 ∷ [])))

-- The text behind the quoted form, taken to its end.
with_rest :
    (indent name quoted rest : List ℕ)
    → (indent ++ (name ++ (b':' ∷ quote ∷ (quoted ++ quote ∷ 10 ∷ [])))) ++ rest
      ≡ indent ++ (name ++ (b':' ∷ quote ∷ (quoted ++ quote ∷ 10 ∷ rest)))
with_rest indent name quoted rest = simp append_assoc

-- What `produce_string` adds to a text, with other text behind it, is read by `parse_string` under
-- the same name, at a position that is aligned to bytes too: the string of bytes comes back, and the
-- newline and the other text are left. The name begins with no blank.
pub parse_string-produce_string :
    (str rest : List ℕ) (first : ℕ) (name : List ℕ) (info : Info) (c : OcCtx) (d : IcCtx)
    → IsBytes str
    → info.name ≡ first ∷ name
    → is_blank first ≡ false
    → c.bitpos % 8 ≡ 0
    → d.bitpos % 8 ≡ 0
    → (text : List ℕ) × (produce_string str (some info) c
        ≡ ok (tt, record c { prod = c.prod ++ text }))
      × (parse_string (some info) (record d { parse_pos = text ++ rest })
          ≡ ok (str, record d { parse_pos = 10 ∷ rest }))
unfolding parse_string
parse_string-produce_string str rest first name info c d valid named blank aligned aligned' =
    let n = length c.scope_stack * 2 in
    let behind = quoted str ++ quote ∷ 10 ∷ rest in
    let test : (d.bitpos % 8 == 0) ≡ true = (==_iff (d.bitpos % 8) 0).1 aligned' in
    (
      produced info.name c str,
      produce_string_lem str info c aligned,
      rw (
        named,
        with_rest (indent c) (first ∷ name) (quoted str) rest,
        test,
        expect-append n first name (b':' ∷ quote ∷ behind) d blank,
        expect-append 0 b':' [] (quote ∷ behind) d refl,
        expect-append 0 quote [] behind d refl,
        string_loop-quoted str (10 ∷ rest) valid,
      ),
    )
