-- ===== src/Common/Text.antt =====
-- src/commontypes.cpp `parse_string` and `produce_string`: the quoted form of a string.
use mopa.Base.{
  ℕ, ◌+◌, ◌-◌, ◌*◌, ◌%◌, Option, none, some, List, [], ◌∷◌, ◌++◌, Bool, not, ltb, leb, ◌==◌, ◌&&◌,
  ◌||◌, if◌then◌else◌, bit_and, ◌>>>◌,
}
use mopa.Base.{
  Outcome, ok, throw, fault, string_not_aligned, illegal_char, value_too_big, bind, M, ◌>>=◌, ◌>>◌,
  get, throw_if,
}
use mopa.Io.Info.{Info}
use mopa.Io.TextIn.{IcCtx, expect}
use mopa.Io.TextOut.{OcCtx, emit, indent}

abbrev pub quote : ℕ
quote = 39

abbrev pub backslash : ℕ
backslash = 92

-- The characters that stand for themselves behind a backslash.
abbrev pub is_simple : ℕ → Bool
is_simple c = c == quote || c == backslash || c == 13 || c == 10

abbrev pub is_plain : ℕ → Bool
is_plain c = leb 32 c && ltb c 127

unfoldable pub octal_digit : ℕ → Option ℕ
octal_digit c = if leb b'0' c && leb c b'7' then some (c - b'0') else none

abbrev pub prepend : ℕ → Outcome (List ℕ × List ℕ) → Outcome (List ℕ × List ℕ)
prepend c r = bind r (λ (s, rest). ok (c ∷ s, rest))

-- Three octal digits, in the order in which they are checked.
abbrev pub octal_value : Option ℕ → Option ℕ → Option ℕ → Outcome ℕ
octal_value none d2 d3 = throw illegal_char
octal_value (some a) none d3 = throw illegal_char
octal_value (some a) (some b) none = throw illegal_char
octal_value (some a) (some b) (some c) =
    let val = (a * 8 + b) * 8 + c in if ltb 255 val then throw value_too_big else ok val

-- The loop of `parse_string`, behind the opening quote: the string and what follows the closing quote.
-- The end of the text is a zero, which is no character of any form.
unfoldable mutual
  pub string_loop : List ℕ → Outcome (List ℕ × List ℕ)
  string_loop [] = throw illegal_char
  string_loop (c ∷ cs) =
      let escaped = escape cs in
      let more = prepend c (string_loop cs) in
      if c == quote
      then ok ([], cs)
      else if c == backslash
      then escaped
      else if is_plain c
      then more
      else throw illegal_char

  pub escape : List ℕ → Outcome (List ℕ × List ℕ)
  escape [] = throw illegal_char
  escape (c ∷ cs) =
      let more = prepend c (string_loop cs) in
      let octal = second_digit (octal_digit c) cs in if is_simple c then more else octal

  pub second_digit : Option ℕ → List ℕ → Outcome (List ℕ × List ℕ)
  second_digit d1 [] = throw illegal_char
  second_digit d1 (c ∷ cs) = third_digit d1 (octal_digit c) cs

  pub third_digit : Option ℕ → Option ℕ → List ℕ → Outcome (List ℕ × List ℕ)
  third_digit d1 d2 [] = throw illegal_char
  third_digit d1 d2 (c ∷ cs) =
      let more = string_loop cs in
      bind (octal_value d1 d2 (octal_digit c)) (λ val. prepend val more)

abbrev pub name_or_empty : Option Info → List ℕ
name_or_empty none = []
name_or_empty (some info) = info.name

unfoldable pub parse_string : Option Info → M IcCtx (List ℕ)
parse_string info = do
  c ← get
  throw_if (not (c.bitpos % 8 == 0)) string_not_aligned
  expect (name_or_empty info)
  expect (b':' ∷ [])
  expect (quote ∷ [])
  λ d. bind (string_loop d.parse_pos) λ (s, rest). ok (s, record d { parse_pos = rest })

-- What `produce_string` adds for a byte.
unfoldable pub quoted_char : ℕ → List ℕ
quoted_char c =
    if is_simple c
    then backslash ∷ c ∷ []
    else if is_plain c
    then c ∷ []
    else backslash
      ∷ (b'0' + bit_and (c >>> 6) 7)
      ∷ (b'0' + bit_and (c >>> 3) 7)
      ∷ (b'0' + bit_and (c >>> 0) 7)
      ∷ []

unfoldable pub quoted : List ℕ → List ℕ
unfolding quoted_char
quoted [] = []
quoted (c ∷ cs) = quoted_char c ++ quoted cs

unfoldable pub produce_string : List ℕ → Option Info → M OcCtx (Unit {0})
produce_string str none c = if c.bitpos % 8 == 0 then fault else throw string_not_aligned
produce_string str (some info) c =
    let produce : M OcCtx (Unit {0}) = do
      throw_if (not (c.bitpos % 8 == 0)) string_not_aligned
      emit (indent c)
      emit info.name
      emit (b':' ∷ quote ∷ [])
      emit (quoted str ++ quote ∷ 10 ∷ [])
    in produce c
