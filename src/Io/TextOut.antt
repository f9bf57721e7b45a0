-- ===== src/Io/TextOut.antt =====
-- inc/io.h `ocCtx`, src/io.cpp `ocCtx` and `ocx`: writing the textual form.
use mopa.Base.{
  ℕ, zero, suc, ◌+◌, ◌-◌, ◌*◌, ◌/◌, ◌%◌, ◌^◌, Option, none, some, List, [], ◌∷◌, ◌++◌, not, ltb,
  ◌==◌, ◌&&◌, if◌then◌else◌, bit_and, u32, sub32, length, replicate, take, drop,
}
use mopa.Base.{
  throw, fault, value_exceeds_bits, bits_left, not_byte_aligned, length_not_byte_aligned, M, ◌>>=◌,
  ◌>>◌, pure, get, modify, throw_if,
}
use mopa.Io.Info.{Info, format_hint_mask, format_hint_hex, format_hint_bin}

pub record OcScope : Type 0 where
  pub info : Option Info
  pub bitpos_at_enter : ℕ
  pub bitlimit_at_enter : ℕ
  pub position_for_write : ℕ

pub record OcCtx : Type 0 where
  pub bitpos : ℕ
  pub bitlimit : ℕ
  pub scope_stack : List OcScope
  pub prod : List ℕ

-- `prod+=text`
unfoldable pub emit : List ℕ → M OcCtx (Unit {0})
emit text = modify λ c. record c { prod = c.prod ++ text }

abbrev pub indent : OcCtx → List ℕ
indent c = replicate (length c.scope_stack * 2) b' '

unfoldable pub enter_scope : M OcCtx (Unit {0})
unfolding emit
enter_scope = do c ← get; emit (indent c); emit (b'{' ∷ 10 ∷ [])

unfoldable pub leave_scope : M OcCtx (Unit {0})
unfolding emit
leave_scope = do c ← get; emit (indent c); emit (b'}' ∷ 10 ∷ [])

-- The digits that `sprintf` prints: at most `fuel` of them, the most significant first.
abbrev pub digit_char : ℕ → ℕ
digit_char d = if ltb d 10 then b'0' + d else b'a' + (d - 10)

unfoldable pub print_digits : ℕ → ℕ → ℕ → List ℕ
print_digits base zero v = []
print_digits base (suc fuel) v =
    let more = print_digits base fuel (v / base) in
    if ltb v base then digit_char v ∷ [] else more ++ digit_char (v % base) ∷ []

-- `sprintf(buf,"0x%x",value)`
unfoldable pub write_hex : ℕ → List ℕ
unfolding print_digits
write_hex value = b'0' ∷ b'x' ∷ print_digits 16 8 value

-- The loop of `write_bin`: one character for each bit, the most significant first.
unfoldable pub write_bin : ℕ → ℕ → List ℕ
write_bin zero value = []
write_bin (suc left) value =
    (if bit_and value (2 ^ left) == 0 then b'1' else b'0') ∷ write_bin left value

-- `sprintf(buf,"%d",value)`: the word is printed as a signed number.
unfoldable pub write_dec : ℕ → List ℕ
unfolding print_digits
write_dec value =
    if ltb value (2 ^ 31)
    then print_digits 10 10 value
    else b'-' ∷ print_digits 10 10 (2 ^ 32 - value)

unfoldable pub write_value : ℕ → ℕ → ℕ → List ℕ
unfolding write_hex write_bin write_dec
write_value hint bitsize value =
    let fmt = bit_and hint format_hint_mask in
    if fmt == format_hint_hex
    then write_hex value
    else if fmt == format_hint_bin
    then write_bin bitsize value
    else write_dec value

-- `info->name` of a null `info` is a fault, but the check comes first.
unfoldable pub write_uint : ℕ → ℕ → Option Info → M OcCtx (Unit {0})
unfolding emit
write_uint bitsize value info c =
    let too_big = ltb bitsize 32 && ltb (2 ^ bitsize - 1) value in
    let write : Option Info → M OcCtx (Unit {0}) = λ i. elim i [
      | none ↦ λ _. fault
      | some d ↦ do
        c ← get
        emit (indent c)
        emit d.name
        emit (b':' ∷ [])
        emit (write_value d.hint bitsize value)
        emit (10 ∷ [])
    ] in
    if too_big then throw value_exceeds_bits else write info c

-- `ocx::uint`
unfoldable pub uint : ℕ → ℕ → Option Info → M OcCtx (Unit {0})
uint bitsize val info = do
  c ← get
  throw_if (ltb c.bitlimit (u32 (c.bitpos + bitsize))) bits_left
  write_uint bitsize val info
  modify λ c. record c { bitpos = u32 (c.bitpos + bitsize) }

unfoldable pub block_begin : ℕ → Option Info → M OcCtx (Unit {0})
block_begin block_size_limit info c =
    let limit = u32 (block_size_limit * 8) in
    let cut =
      if ltb c.bitlimit (u32 (c.bitpos + limit)) then sub32 c.bitlimit c.bitpos else limit in
    let open_scope : M OcCtx (Unit {0}) = do
      throw_if (not (c.bitpos % 8 == 0)) not_byte_aligned
      enter_scope
      modify λ c. record c {
        scope_stack =
            record {
              info = info;
              bitpos_at_enter = c.bitpos;
              bitlimit_at_enter = c.bitlimit;
              position_for_write = 0;
            }
            ∷ c.scope_stack;
        bitlimit = u32 (c.bitpos + cut);
      }
    in open_scope c

-- `back()` of an empty stack is not checked.
unfoldable pub close_block : List OcScope → M OcCtx ℕ
close_block [] c = fault
close_block (s ∷ outer) c =
    let len = sub32 c.bitpos s.bitpos_at_enter in
    let close : M OcCtx ℕ = do
      throw_if (not (len % 8 == 0)) length_not_byte_aligned
      modify λ c. record c { bitlimit = s.bitlimit_at_enter; scope_stack = outer }
      leave_scope
      pure (len / 8)
    in close c

unfoldable pub block_end : M OcCtx ℕ
unfolding close_block
block_end c = close_block c.scope_stack c

unfoldable pub block_size_left : OcCtx → ℕ
block_size_left c = sub32 c.bitlimit c.bitpos

unfoldable pub set_position : ℕ → List OcScope → List OcScope
set_position pos [] = []
set_position pos (s ∷ outer) = record s { position_for_write = pos } ∷ outer

-- The textual branch of `ox::named_block_begin`.
unfoldable pub named_block_begin : ℕ → Option Info → M OcCtx (Unit {0})
unfolding set_position
named_block_begin bitsize info = do
  c ← get
  modify λ c. record c { bitpos = u32 (c.bitpos + bitsize) }
  block_begin (2 ^ bitsize - 1) info
  modify λ d. record d { scope_stack = set_position (length c.prod) d.scope_stack }

-- The textual branch of `ox::named_block_end`: the line of the length is put before the block.
unfoldable pub finish_block : List OcScope → M OcCtx ℕ
finish_block [] c = fault
finish_block (s ∷ outer) c =
    let finish : M OcCtx ℕ = do
      block_length ← block_end
      d ← get
      let tail = drop s.position_for_write d.prod
      modify λ d. record d { prod = take s.position_for_write d.prod }
      write_uint 32 block_length s.info
      emit tail
      pure block_length
    in finish c

unfoldable pub named_block_end : M OcCtx ℕ
unfolding finish_block
named_block_end c = finish_block c.scope_stack c
