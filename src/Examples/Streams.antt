-- ===== src/Examples/Streams.antt =====
-- Runs of fields, blocks and strings.
use mopa.Base.{IsBytes, ℕ, ◌≡◌, refl, arith, List, [], ◌∷◌, ◌++◌, none, some, ok}
use mopa.Io.Info.{Info}
use mopa.Io.BinaryIn
use mopa.Io.BinaryIn.{IbCtx}
use mopa.Io.BinaryOut
use mopa.Io.BinaryOut.{ObCtx, ObScope}
use mopa.Io.Patches.{Patched}
use mopa.Io.TextIn.{IcCtx}
use mopa.Io.TextOut.{OcCtx}
use mopa.Io.Blocks.{opened, block_end-block_begin, named_block_end-Patched}
use mopa.Io.RoundTrip.{Field, write_fields, read_fields, values, reading, read_fields-write_fields}
use mopa.Common.Text.{quote, string_loop, quoted, parse_string, produce_string}
use mopa.Common.Quoting.{string_loop-quoted, parse_string-produce_string}

abbrev buffer : List ℕ
buffer = 0xff ∷ 0xff ∷ 0xff ∷ 0xff ∷ 0 ∷ 0 ∷ 0 ∷ 0 ∷ []

buffer-IsBytes : IsBytes buffer
buffer-IsBytes = (
  omega arith,
  (
    omega arith,
    (omega arith, (omega arith, (omega arith, (omega arith, (omega arith, (omega arith, tt)))))),
  ),
)

abbrev fields : List Field
fields =
    record { width = 13; value = 0x1abc }
    ∷ record { width = 4; value = 9 }
    ∷ record { width = 20; value = 0xfedcb }
    ∷ []

abbrev empty_buffer : ObCtx
empty_buffer = record { bitpos = 0; bitlimit = 64; bytes = buffer; scope_stack = [] }

read_fields-write_fields_example :
    (d : ObCtx) × (write_fields fields empty_buffer ≡ ok (tt, d))
    × (read_fields fields (reading 0 d) ≡ ok (values fields, record (reading 0 d) { bitpos = 37 }))
read_fields-write_fields_example =
    read_fields-write_fields fields empty_buffer buffer-IsBytes (omega arith) (
      record {
        some_bit = omega arith;
        value_fits = omega arith;
        four_bytes = omega arith;
        inside = omega arith;
        room = omega arith;
      },
      (
        record {
          some_bit = omega arith;
          value_fits = omega arith;
          four_bytes = omega arith;
          inside = omega arith;
          room = omega arith;
        },
        (
          record {
            some_bit = omega arith;
            value_fits = omega arith;
            four_bytes = omega arith;
            inside = omega arith;
            room = omega arith;
          },
          tt,
        ),
      ),
    )

abbrev block_start : IbCtx
block_start = record { bitpos = 16; bitlimit = 64; bytes = buffer; scope_stack = [] }

block_end-block_begin_example :
    (BinaryIn.block_begin 3 none block_start ≡ ok (tt, opened none 3 block_start))
    × (BinaryIn.block_end (record (opened none 3 block_start) { bitpos = 40 })
        ≡ ok (3, record block_start { bitpos = 40 }))
block_end-block_begin_example =
    block_end-block_begin none 3 block_start refl (omega arith) (omega arith)

abbrev scope : ObScope
scope = record { info = none; bitpos_at_enter = 16; bitlimit_at_enter = 64; position_for_write = 4 }

abbrev in_block : ObCtx
in_block = record { bitpos = 40; bitlimit = 48; bytes = buffer; scope_stack = scope ∷ [] }

named_block_end-Patched_example :
    (after : List ℕ) × (BinaryOut.named_block_end in_block
      ≡ ok (3, record in_block { bytes = after; bitlimit = 64; scope_stack = [] }))
    × Patched buffer after 4 12 3
named_block_end-Patched_example =
    named_block_end-Patched in_block scope [] 12 3 buffer-IsBytes refl refl refl (omega arith)
      (omega arith) (omega arith) (omega arith) (omega arith) (omega arith) (omega arith)

string_loop-quoted_example :
    string_loop (quoted (0x41 ∷ 39 ∷ 200 ∷ 0 ∷ 10 ∷ []) ++ quote ∷ 10 ∷ 11 ∷ [])
    ≡ ok (0x41 ∷ 39 ∷ 200 ∷ 0 ∷ 10 ∷ [], 10 ∷ 11 ∷ [])
string_loop-quoted_example =
    string_loop-quoted (0x41 ∷ 39 ∷ 200 ∷ 0 ∷ 10 ∷ []) (10 ∷ 11 ∷ [])
      (omega arith, (omega arith, (omega arith, (omega arith, (omega arith, tt)))))

abbrev text_info : Info
text_info = record { file = []; line = 0; name = b't' ∷ b'e' ∷ b'x' ∷ b't' ∷ []; hint = 0 }

abbrev printer : OcCtx
printer = record { bitpos = 8; bitlimit = 64; scope_stack = []; prod = b'{' ∷ 10 ∷ [] }

abbrev scanner : IcCtx
scanner = record { bitpos = 8; bitlimit = 64; scope_stack = []; parsed_text = []; parse_pos = [] }

parse_string-produce_string_example :
    (text : List ℕ) × (produce_string (0x41 ∷ 39 ∷ 200 ∷ []) (some text_info) printer
      ≡ ok (tt, record printer { prod = (b'{' ∷ 10 ∷ []) ++ text }))
    × (parse_string (some text_info) (record scanner { parse_pos = text ++ (b'}' ∷ []) })
        ≡ ok (0x41 ∷ 39 ∷ 200 ∷ [], record scanner { parse_pos = 10 ∷ b'}' ∷ [] }))
parse_string-produce_string_example =
    parse_string-produce_string (0x41 ∷ 39 ∷ 200 ∷ []) (b'}' ∷ []) b't' (b'e' ∷ b'x' ∷ b't' ∷ [])
      text_info printer scanner (omega arith, (omega arith, (omega arith, tt))) refl refl refl refl
