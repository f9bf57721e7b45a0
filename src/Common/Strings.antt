-- ===== src/Common/Strings.antt =====
-- src/commontypes.cpp `short_string_io` (a length byte and the characters) and `fixed_string_io`.
use mopa.Base.{
  ℕ, ◌+◌, ◌*◌, ◌/◌, ◌%◌, Option, List, not, ltb, ◌==◌, length, slice, overwrite, u8, u32,
}
use mopa.Base.{
  ok, string_not_aligned, string_too_long, string_no_room, string_wrong_length, bind, M, ◌>>=◌,
  ◌>>◌, pure, get, modify, throw_if, within,
}
use mopa.Io.Info.{Info}
use mopa.Io.BinaryIn
use mopa.Io.BinaryIn.{IbCtx}
use mopa.Io.BinaryOut
use mopa.Io.BinaryOut.{ObCtx}
use mopa.Io.TextIn.{IcCtx}
use mopa.Io.TextOut.{OcCtx}
use mopa.Io.Facade.{Ctx, parsing, constructing, ib, ic, ob, oc}
use mopa.Common.Text.{parse_string, produce_string}

-- Characters from the position on, and the move past them.
unfoldable pub take_string : ℕ → M IbCtx (List ℕ)
unfolding slice
take_string len c =
    bind (slice c.bytes (c.bitpos / 8) len)
      λ str. ok (str, record c { bitpos = u32 (c.bitpos + len * 8) })

unfoldable pub put_string : List ℕ → M ObCtx (Unit {0})
unfolding overwrite
put_string str c =
    bind (overwrite c.bytes (c.bitpos / 8) str)
      λ bytes. ok (tt, record c { bytes = bytes; bitpos = u32 (c.bitpos + length str * 8) })

unfoldable pub short_string_in : M IbCtx (List ℕ)
short_string_in = do
  c ← get
  throw_if (not (c.bitpos % 8 == 0)) string_not_aligned
  len ← BinaryIn.uint8 8
  d ← get
  throw_if (ltb d.bitlimit (u32 (d.bitpos + len * 8))) string_no_room
  take_string len

unfoldable pub short_string_parse : Option Info → M IcCtx (List ℕ)
short_string_parse info = do
  str ← parse_string info
  c ← get
  let len = u8 (1 + length str)
  throw_if (ltb c.bitlimit (u32 (c.bitpos + len * 8))) string_no_room
  modify λ c. record c { bitpos = u32 (c.bitpos + len * 8) }
  pure str

unfoldable pub short_string_out : List ℕ → M ObCtx (Unit {0})
short_string_out str = do
  c ← get
  throw_if (not (c.bitpos % 8 == 0)) string_not_aligned
  throw_if (ltb 255 (length str)) string_too_long
  throw_if (ltb c.bitlimit (u32 (c.bitpos + (length str + 1) * 8))) string_no_room
  BinaryOut.uint8 8 (u8 (length str))
  put_string str

unfoldable pub short_string_print : List ℕ → Option Info → M OcCtx (Unit {0})
short_string_print str info = do
  c ← get
  throw_if (ltb 255 (length str)) string_too_long
  throw_if (ltb c.bitlimit (u32 (c.bitpos + (length str + 1) * 8))) string_no_room
  produce_string str info
  modify λ c. record c { bitpos = u32 (c.bitpos + (length str + 1) * 8) }

-- The value of the string after the call: what was read, or what was written.
unfoldable pub short_string_io : List ℕ → Option Info → M Ctx (List ℕ)
unfolding short_string_in short_string_parse short_string_out short_string_print
short_string_io str info (parsing (ib c)) = within (λ d. parsing (ib d)) (short_string_in c)
short_string_io str info (parsing (ic c)) = within (λ d. parsing (ic d)) (short_string_parse info c)
short_string_io str info (constructing (ob c)) =
    bind (short_string_out str c) λ (_, d). ok (str, constructing (ob d))
short_string_io str info (constructing (oc c)) =
    bind (short_string_print str info c) λ (_, d). ok (str, constructing (oc d))

unfoldable pub fixed_string_in : ℕ → M IbCtx (List ℕ)
fixed_string_in num_chars = do
  c ← get
  throw_if (not (c.bitpos % 8 == 0)) string_not_aligned
  let len = u8 num_chars
  throw_if (ltb c.bitlimit (u32 (c.bitpos + len * 8))) string_no_room
  take_string len

-- The number of characters is not compared with `num_chars`.
unfoldable pub fixed_string_parse : Option Info → M IcCtx (List ℕ)
fixed_string_parse info = do
  str ← parse_string info
  c ← get
  let len = u8 (length str)
  throw_if (ltb c.bitlimit (u32 (c.bitpos + len * 8))) string_no_room
  modify λ c. record c { bitpos = u32 (c.bitpos + len * 8) }
  pure str

unfoldable pub fixed_string_out : ℕ → List ℕ → M ObCtx (Unit {0})
fixed_string_out num_chars str = do
  c ← get
  throw_if (not (c.bitpos % 8 == 0)) string_not_aligned
  throw_if (not (length str == num_chars)) string_wrong_length
  throw_if (ltb c.bitlimit (u32 (c.bitpos + length str * 8))) string_no_room
  put_string str

unfoldable pub fixed_string_print : ℕ → List ℕ → Option Info → M OcCtx (Unit {0})
fixed_string_print num_chars str info = do
  c ← get
  throw_if (not (length str == num_chars)) string_wrong_length
  throw_if (ltb c.bitlimit (u32 (c.bitpos + length str * 8))) string_no_room
  produce_string str info
  modify λ c. record c { bitpos = u32 (c.bitpos + length str * 8) }

unfoldable pub fixed_string_io : ℕ → List ℕ → Option Info → M Ctx (List ℕ)
unfolding fixed_string_in fixed_string_parse fixed_string_out fixed_string_print
fixed_string_io num_chars str info (parsing (ib c)) =
    within (λ d. parsing (ib d)) (fixed_string_in num_chars c)
fixed_string_io num_chars str info (parsing (ic c)) =
    within (λ d. parsing (ic d)) (fixed_string_parse info c)
fixed_string_io num_chars str info (constructing (ob c)) =
    bind (fixed_string_out num_chars str c) λ (_, d). ok (str, constructing (ob d))
fixed_string_io num_chars str info (constructing (oc c)) =
    bind (fixed_string_print num_chars str info c) λ (_, d). ok (str, constructing (oc d))
