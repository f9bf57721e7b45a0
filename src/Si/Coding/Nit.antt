-- ===== src/Si/Coding/Nit.antt =====
-- dvb/NIT.h `network_information_section::io`: what it has constructed, parsed again.
use mopa.Base.{
  ℕ, ◌+◌, ◌-◌, ◌*◌, ◌≤◌, ◌≡◌, refl, ap, ◌∙◌, arith, List, [], length, false, true, ok, ◌>>=◌,
  Option,
}
use mopa.Io.Info.{Info, dvb_info}
use mopa.Io.BinaryIn.{IbCtx}
use mopa.Io.BinaryOut.{ObCtx}
use mopa.Io.Blocks.{opened}
use mopa.Io.Facade.{
  parsing, constructing, ib, ob, bitpos, is_parsing, named_block_begin, ox_named_block_begin,
}
use mopa.Io.Coding.{CanWrite, Coded, RoundTrip}
use mopa.Io.Coding.Blocks.{scope, begun, begins, block_limit, block_limit-room, block_opens}
use mopa.Si.Nit.{NetworkInformationSection, network_information_section_io}
use mopa.Si.Coding.Section.{
  finish, content, section, section_lem, section_size, SectionFits, loops_sized, over,
  content-Leads, section-Leads,
}
use mopa.Si.Coding.Finish.{sum, Finished, finish-Finished, finish_read}

abbrev info : Option Info
info = dvb_info "section_length"

-- The contexts behind the front of the section, in the block, and behind its content.
abbrev at_length : List ℕ → ObCtx → ObCtx
at_length bytes c = record c { bitpos = c.bitpos + 12; bytes = bytes }

abbrev in_block : List ℕ → ObCtx → ObCtx
in_block bytes c = begun 12 info (block_limit 12 (at_length bytes c)) (at_length bytes c)

abbrev at_crc : List ℕ → List ℕ → ℕ → ObCtx → ObCtx
at_crc bytes content_bytes size c = record (in_block bytes c) {
  bitpos = c.bitpos + 12 + 12 + (size - 4) * 8;
  bytes = content_bytes;
}

-- What the reader starts with, over what it had before.
abbrev named : NetworkInformationSection → NetworkInformationSection → NetworkInformationSection
named o n = record o {
  table_id = n.table_id;
  section_syntax_indicator = n.section_syntax_indicator;
}

module _ (n o : NetworkInformationSection) (fits : SectionFits n)
    (old_short : o.section_length ≤ 1021) (c : ObCtx)
    (can : CanWrite 0 ((3 + section_size n) * 8) c) where
  abbrev Front : Type 0
  Front =
      Coded false (section c.bitpos false n)
        (named_block_begin 12 info >>= λ _. content c.bitpos false n) (section c.bitpos true o)
        (named_block_begin 12 info >>= λ _. content c.bitpos true (named o n)) 12 c

  front : Front
  front = section-Leads c.bitpos n o fits old_short c record {
    aligned = can.aligned;
    valid = can.valid;
    inside = omega (arith, can.inside);
    word = can.word;
    in_buffer = can.in_buffer;
    spare = omega (arith, can.spare);
  }

  module _ (h : Front) where
    abbrev Inner : Type 0
    Inner =
        Coded false (content c.bitpos false n) (finish c.bitpos false (loops_sized n))
          (content c.bitpos true (named o n)) (finish c.bitpos true (over o (loops_sized n)))
          ((section_size n - 4) * 8) (in_block h.after c)

    room :
        (c.bitpos + 12 + 12 + section_size n * 8 ≤ block_limit 12 (at_length h.after c))
        × (block_limit 12 (at_length h.after c) ≤ c.bitlimit)
    room =
        block_limit-room 12 (section_size n) (at_length h.after c) (omega arith)
          (omega (arith, fits.short)) (omega (arith, can.inside)) can.word

    inner : Inner
    inner = content-Leads c.bitpos n o fits old_short (in_block h.after c) record {
      aligned = omega (arith, can.aligned);
      valid = h.after-IsBytes;
      inside = omega (arith, room.0);
      word = omega (arith, room.1, can.word);
      in_buffer = omega (arith, room.1, can.in_buffer, h.same_length);
      spare = omega (arith, can.spare, h.same_length);
    }

    module _ (k : Inner) where
      abbrev Last : Type 0
      Last =
          Finished (at_crc h.after k.after (section_size n) c) (scope 12 info (at_length h.after c))
            c.scope_stack c.bitpos (section_size n) (loops_sized n)

      last : Last
      last =
          finish-Finished (at_crc h.after k.after (section_size n) c)
            (scope 12 info (at_length h.after c)) c.scope_stack c.bitpos (section_size n)
            (loops_sized n)
            record {
              valid = k.after-IsBytes;
              stack = refl;
              front = refl;
              size = omega arith;
              begin_byte = can.aligned;
              byte = omega (arith, can.aligned);
              half = omega (arith, can.aligned);
              begins = omega arith;
              content = omega arith;
              short = fits.short;
              inside = omega (arith, room.0);
              outside = room.1;
              word = can.word;
              spare = omega (arith, can.spare, k.same_length, h.same_length);
            }

      module _ (f : Last) where
        crc_pos : ℕ
        crc_pos = c.bitpos + 12 + 12 + (section_size n - 4) * 8

        result : NetworkInformationSection
        unfolding crc_pos
        result = record (loops_sized n) {
          section_length = section_size n;
          crc = sum f.after c.bitpos crc_pos;
        }

        constructed :
            network_information_section_io n (constructing (ob c))
            ≡ ok (
              result,
              constructing
                  (ob (record c { bitpos = c.bitpos + (3 + section_size n) * 8; bytes = f.after })),
            )
        unfolding result crc_pos bitpos is_parsing named_block_begin ox_named_block_begin
        constructed =
            section_lem n (constructing (ob c))
            ∙ h.returned
            ∙ rw
                (begins 12 info (at_length h.after c) (omega (arith, can.aligned))
                  (omega (arith, can.inside)) can.word)
                k.returned
            ∙ f.returned
            ∙ ap
                (λ p. ok (
                  record (loops_sized n) {
                    section_length = section_size n;
                    crc = sum f.after c.bitpos (c.bitpos + 12 + 12 + (section_size n - 4) * 8);
                  },
                  constructing (ob (record c { bitpos = p; bytes = f.after })),
                ))
                (omega arith)

        reader : IbCtx
        reader = record {
          bitpos = c.bitpos;
          bitlimit = c.bitpos + (3 + section_size n) * 8;
          bytes = f.after;
          scope_stack = [];
        }

        whole_length : length f.after ≡ length c.bytes
        whole_length = f.same_length ∙ k.same_length ∙ h.same_length

        start : IbCtx
        unfolding reader
        start = record reader { bitpos = c.bitpos + 12 + 12 }

        front_read :
            section c.bitpos true o (parsing (ib reader))
            ≡ (named_block_begin 12 info >>= λ _. content c.bitpos true (named o n))
                (parsing (ib (record reader { bitpos = c.bitpos + 12 })))
        unfolding reader
        front_read = h.reads reader record {
          same_place = refl;
          valid = f.after-IsBytes;
          same_length = f.same_length ∙ k.same_length;
          ends = omega arith;
          word = omega (arith, can.inside, can.word);
          in_buffer = omega (arith, can.inside, can.in_buffer, whole_length);
          agree = λ q m g g'. f.front_kept q m g' ∙ k.before q m (omega arith);
        }

        content_read :
            content c.bitpos true (named o n) (parsing (ib (opened info (section_size n) start)))
            ≡ finish c.bitpos true
                (over o (loops_sized n))
                (parsing (ib (record (opened info (section_size n) start) { bitpos = crc_pos })))
        unfolding reader start crc_pos
        content_read = k.reads (opened info (section_size n) start) record {
          same_place = refl;
          valid = f.after-IsBytes;
          same_length = f.same_length;
          ends = omega arith;
          word = omega (arith, can.inside, can.word);
          in_buffer = omega (arith, can.inside, can.in_buffer, whole_length);
          agree = λ q m g g'. f.content_kept q m g g';
        }

        parsed :
            network_information_section_io o (parsing (ib reader))
            ≡ ok (
              result,
              parsing (ib (record reader { bitpos = c.bitpos + (3 + section_size n) * 8 })),
            )
        unfolding reader start result crc_pos bitpos is_parsing
        parsed =
            section_lem o (parsing (ib reader))
            ∙ front_read
            ∙ block_opens 12 info (content c.bitpos true (named o n))
                (record reader { bitpos = c.bitpos + 12 }) f.after-IsBytes (omega arith)
                (omega (arith, can.aligned)) (omega (arith, can.aligned)) (omega arith)
                (omega (arith, can.inside, can.word)) (omega (arith, can.spare, whole_length))
                f.counted
            ∙ content_read
            ∙ finish_read info start c.bitpos (section_size n) crc_pos (over o (loops_sized n))
                f.after-IsBytes (omega (arith, can.aligned)) (omega arith)
                (omega (arith, can.inside, can.word)) (omega arith) can.aligned (omega arith)
                (omega arith) fits.short (omega (arith, can.spare, whole_length)) f.summed
            ∙ ap (λ p. ok (result, parsing (ib (record reader { bitpos = p })))) (omega arith)

-- `network_information_section::io` parses what it has constructed. For a section whose members fit
-- their bits and that has at most 1021 bytes behind its length, with service list, cable delivery
-- system and unknown descriptors, each with the tag of its class (an unknown one with a tag of none)
-- and an unknown one with the length of its content, in a binary context at the start of a byte that
-- has room within the limit, and three bytes of the buffer behind it: the call returns, with the lengths of the section, its
-- loops and its descriptors, and with a `crc` that is `dvb_crc32` of the bytes written in front of it,
-- the final lengths among them; and parsing the bytes written, into any section whose
-- `section_length` is at most 1021, throws at none of the checks and gives the same section.
pub network_information_section_io-RoundTrip :
    (n o : NetworkInformationSection) (c : ObCtx)
    → SectionFits n
    → o.section_length ≤ 1021
    → CanWrite 0 ((3 + section_size n) * 8) c
    → (crc : ℕ) × (t : RoundTrip
        (network_information_section_io n)
        (network_information_section_io o)
        (record (loops_sized n) { section_length = section_size n; crc = crc })
        ((3 + section_size n) * 8)
        c)
      × (crc ≡ sum t.written c.bitpos (c.bitpos + (section_size n - 1) * 8))
unfolding result crc_pos reader
network_information_section_io-RoundTrip n o c fits old_short can =
    let h = front n o fits old_short c can in
    let k = inner n o fits old_short c can h in
    let f = last n o fits old_short c can h k in
    (
      sum f.after c.bitpos (c.bitpos + 12 + 12 + (section_size n - 4) * 8),
      record {
        written = f.after;
        constructed = constructed n o fits old_short c can h k f;
        same_length = whole_length n o fits old_short c can h k f;
        before =
            λ q m g. f.front_kept q m (omega arith) ∙ k.before q m (omega arith) ∙ h.before q m g;
        parsed = parsed n o fits old_short c can h k f;
      },
      ap (λ p. sum f.after c.bitpos p) (omega arith),
    )
