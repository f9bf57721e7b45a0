-- ===== src/Si/Coding/Section.antt =====
-- dvb/NIT.h `network_information_section::io` up to its checksum: what it has constructed, parsed again.
use mathlib.Core.Path.{subst}
use mathlib.Core.List.{map}
use mopa.Base.{
  ℕ, ◌+◌, ◌-◌, ◌*◌, ◌^◌, ◌<◌, ◌≤◌, ◌≡◌, refl, arith, Bool, false, true, not, ◌&&◌, ltb, le→ltb, u16,
  table_too_big, M, ◌>>=◌, pure, get, throw_if,
}
use mopa.Io.Info.{dvb_info}
use mopa.Io.Facade.{
  Ctx, is_parsing, bitpos, uint8, uint16, uint_req, named_block_begin, named_block_end,
}
use mopa.Io.Coding.{Leads, Codes-then, Codes-bind, Leads-on, Leads-none}
use mopa.Io.Coding.Fields.{uint8-Codes, uint16-Codes, uint_req8-Codes}
use mopa.Io.Coding.Blocks.{block-Leads}
use mopa.Common.Checksum.{crc_io, crc_late_fix}
use mopa.Common.Vector.{vector_io}
use mopa.Common.Items.{total, Every}
use mopa.Si.Descriptors.{descriptor_vector_io}
use mopa.Si.Nit.{
  ts_specification_io, new_ts_specification, NetworkInformationSection,
  network_information_section_io,
}
use mopa.Si.Coding.Lists.{DescriptorFits, size, sized, descriptor_vector-Codes}
use mopa.Si.Coding.Loops.{TsFits, ts_size, ts_sized, ts_loop-Codes}

-- The call from the checksum on, from the length on, and from the start on. What was read or written
-- before is in the structure; `begin` and `reading` are of the context of the call.
abbrev pub finish : ℕ → Bool → NetworkInformationSection → M Ctx NetworkInformationSection
finish begin reading n = get >>= λ y. crc_io begin n.crc (dvb_info "CRC") >>= λ crc.
    named_block_end >>= λ section_length. crc_late_fix begin (bitpos y) crc >>= λ fixed.
    throw_if (not reading && ltb 1021 (u16 section_length)) table_too_big >>= λ _.
    pure (record n { section_length = u16 section_length; crc = fixed })

abbrev pub loops : ℕ → Bool → NetworkInformationSection → M Ctx NetworkInformationSection
loops begin reading n = uint_req 4 0xf (dvb_info "reserved_future_use") >>= λ _.
    named_block_begin 12 (dvb_info "network_descriptors_length") >>= λ _.
    descriptor_vector_io n.network_descriptors >>= λ network_descriptors.
    named_block_end >>= λ descriptors_length.
    uint_req 4 0xf (dvb_info "reserved_future_use") >>= λ _.
    named_block_begin 12 (dvb_info "transport_stream_loop_length") >>= λ _.
    vector_io ts_specification_io new_ts_specification n.ts_loop >>= λ ts_loop.
    named_block_end >>= λ loop_length. finish begin reading (record n {
      network_descriptors_length = u16 descriptors_length;
      network_descriptors = network_descriptors;
      transport_stream_loop_length = u16 loop_length;
      ts_loop = ts_loop;
    })

abbrev pub content : ℕ → Bool → NetworkInformationSection → M Ctx NetworkInformationSection
content begin reading n = throw_if (reading && ltb 1021 n.section_length) table_too_big >>= λ _.
    uint16 16 n.network_id (dvb_info "network_id") >>= λ network_id.
    uint_req 2 0x3 (dvb_info "reserved") >>= λ _.
    uint8 5 n.version_number (dvb_info "version_number") >>= λ version_number.
    uint8 1 n.current_next_indicator (dvb_info "current_next_indicator") >>= λ current.
    uint8 8 n.section_number (dvb_info "section_number") >>= λ section_number.
    uint8 8 n.last_section_number (dvb_info "last_section_number") >>= λ last.
    loops begin reading (record n {
      network_id = network_id;
      version_number = version_number;
      current_next_indicator = current;
      section_number = section_number;
      last_section_number = last;
    })

abbrev pub section : ℕ → Bool → NetworkInformationSection → M Ctx NetworkInformationSection
section begin reading n = uint8 8 n.table_id (dvb_info "table_id") >>= λ table_id.
    uint8 1 n.section_syntax_indicator (dvb_info "section_syntax_indicator") >>= λ syntax.
    uint_req 1 1 (dvb_info "reserved_future_use") >>= λ _.
    uint_req 2 0x3 (dvb_info "reserved") >>= λ _.
    named_block_begin 12 (dvb_info "section_length") >>= λ _.
    content begin reading (record n { table_id = table_id; section_syntax_indicator = syntax })

pub section_lem :
    (n : NetworkInformationSection) (x : Ctx)
    → network_information_section_io n x ≡ section (bitpos x) (is_parsing x) n x
unfolding network_information_section_io
section_lem n x = refl

-- The members fit their bits, and the section is of at most 1021 bytes behind its length.
abbrev pub section_size : NetworkInformationSection → ℕ
section_size n = 13 + total size n.network_descriptors + total ts_size n.ts_loop

pub record SectionFits (n : NetworkInformationSection) : Type 0 where
  pub table_id : n.table_id < 2 ^ 8
  pub section_syntax_indicator : n.section_syntax_indicator < 2 ^ 1
  pub network_id : n.network_id < 2 ^ 16
  pub version_number : n.version_number < 2 ^ 5
  pub current_next_indicator : n.current_next_indicator < 2 ^ 1
  pub section_number : n.section_number < 2 ^ 8
  pub last_section_number : n.last_section_number < 2 ^ 8
  pub network_descriptors : Every DescriptorFits n.network_descriptors
  pub ts_loop : Every TsFits n.ts_loop
  pub short : section_size n ≤ 1021

-- The section with the lengths of its loops.
abbrev pub loops_sized : NetworkInformationSection → NetworkInformationSection
loops_sized n = record n {
  network_descriptors_length = u16 (total size n.network_descriptors);
  network_descriptors = map sized n.network_descriptors;
  transport_stream_loop_length = u16 (total ts_size n.ts_loop);
  ts_loop = map ts_sized n.ts_loop;
}

-- What the reader has of the section, over what it had before.
abbrev pub over : NetworkInformationSection → NetworkInformationSection → NetworkInformationSection
over o n = record n { section_length = o.section_length; crc = o.crc }

module _ (begin : ℕ) (n o : NetworkInformationSection) (fits : SectionFits n)
    (old_short : o.section_length ≤ 1021) where
  loops-Leads :
      (o' : NetworkInformationSection)
      → Leads 0 false
          (loops begin false n)
          (finish begin false (loops_sized n))
          (loops begin true (record (over o n) {
            network_descriptors_length = o'.network_descriptors_length;
            network_descriptors = o'.network_descriptors;
            transport_stream_loop_length = o'.transport_stream_loop_length;
            ts_loop = o'.ts_loop;
          }))
          (finish begin true (over o (loops_sized n)))
          (4
            + (12
                + total size n.network_descriptors * 8
                + (4 + (12 + total ts_size n.ts_loop * 8))))
  unfolding uint_req
  loops-Leads o' =
      Codes-then _ _
        (uint_req8-Codes 15 0 (dvb_info "reserved_future_use") (omega arith) (omega arith)
          (omega arith))
        refl
        (Leads-on {k' = 0}
          (block-Leads {len = total size n.network_descriptors} _ _ 12
            (dvb_info "network_descriptors_length") (omega arith) (omega arith) refl (omega arith)
            (omega (arith, fits.short))
            (Codes-bind _ _ (
              descriptor_vector-Codes n.network_descriptors o'.network_descriptors
                fits.network_descriptors)))
          (omega arith)
          (Codes-then _ _
            (uint_req8-Codes 15 0 (dvb_info "reserved_future_use") (omega arith) (omega arith)
              (omega arith))
            refl
            (block-Leads {len = total ts_size n.ts_loop} _ _ 12
              (dvb_info "transport_stream_loop_length") (omega arith) (omega arith) refl
              (omega arith) (omega (arith, fits.short))
              (Codes-bind _ _ (ts_loop-Codes n.ts_loop o'.ts_loop fits.ts_loop)))))

  -- Behind the length, up to the checksum.
  pub content-Leads :
      Leads 0 false
        (content begin false n)
        (finish begin false (loops_sized n))
        (content begin true (record o {
          table_id = n.table_id;
          section_syntax_indicator = n.section_syntax_indicator;
        }))
        (finish begin true (over o (loops_sized n)))
        ((section_size n - 4) * 8)
  unfolding uint_req
  content-Leads =
      let bits : 16
            + (2
                + (5
                    + (1
                        + (8
                            + (8
                                + (4
                                    + (12
                                        + total size n.network_descriptors * 8
                                        + (4 + (12 + total ts_size n.ts_loop * 8)))))))))
          ≡ (section_size n - 4) * 8 =
        omega arith in
      subst
        (λ m.
          Leads 0 false (content begin false n) (finish begin false (loops_sized n))
            (content begin true (record o {
              table_id = n.table_id;
              section_syntax_indicator = n.section_syntax_indicator;
            }))
            (finish begin true (over o (loops_sized n))) m)
        bits
        (rw (le→ltb 1021 o.section_length old_short) (
          Codes-then _ _
            (uint16-Codes n.network_id o.network_id (dvb_info "network_id") fits.network_id
              (omega arith) (omega arith) (omega arith) fits.network_id)
            refl
            (Codes-then _ _
              (uint_req8-Codes 3 0 (dvb_info "reserved") (omega arith) (omega arith) (omega arith))
              refl
              (Codes-then _ _
                (uint8-Codes n.version_number o.version_number (dvb_info "version_number")
                  fits.version_number (omega arith) (omega arith))
                refl
                (Codes-then _ _
                  (uint8-Codes n.current_next_indicator o.current_next_indicator
                    (dvb_info "current_next_indicator") fits.current_next_indicator (omega arith)
                    (omega arith))
                  refl
                  (Codes-then _ _
                    (uint8-Codes n.section_number o.section_number (dvb_info "section_number")
                      fits.section_number (omega arith) (omega arith))
                    refl
                    (Codes-then _ _
                      (uint8-Codes n.last_section_number o.last_section_number
                        (dvb_info "last_section_number") fits.last_section_number (omega arith)
                        (omega arith))
                      refl (loops-Leads o))))))))

  -- In front of the length.
  pub section-Leads :
      Leads 0 false
        (section begin false n)
        (named_block_begin 12 (dvb_info "section_length") >>= λ _. content begin false n)
        (section begin true o)
        (named_block_begin 12 (dvb_info "section_length") >>= λ _. content begin true (record o {
          table_id = n.table_id;
          section_syntax_indicator = n.section_syntax_indicator;
        }))
        12
  unfolding uint_req
  section-Leads =
      Codes-then _ _
        (uint8-Codes n.table_id o.table_id (dvb_info "table_id") fits.table_id (omega arith)
          (omega arith))
        refl
        (Codes-then _ _
          (uint8-Codes n.section_syntax_indicator o.section_syntax_indicator
            (dvb_info "section_syntax_indicator") fits.section_syntax_indicator (omega arith)
            (omega arith))
          refl
          (Codes-then _ _
            (uint_req8-Codes 1 0 (dvb_info "reserved_future_use") (omega arith) (omega arith)
              (omega arith))
            refl
            (Codes-then _ _
              (uint_req8-Codes 3 0 (dvb_info "reserved") (omega arith) (omega arith) (omega arith))
              refl (Leads-none false _ _))))
