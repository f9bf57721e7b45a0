-- ===== src/Si/Coding/Loops.antt =====
-- dvb/NIT.h `ts_specification::io` and the loop of them: what they have constructed, parsed again.
use mathlib.Core.Path.{subst}
use mathlib.Core.List.{map}
use mopa.Base.{ℕ, ◌+◌, ◌*◌, ◌^◌, ◌<◌, refl, arith, List, [], false, true, u16, M, pure}
use mopa.Io.Info.{dvb_info}
use mopa.Io.Facade.{Ctx, uint_req, is_parsing}
use mopa.Io.Coding.{Codes, Codes-then, Codes-bind, Codes-read_as, Codes-write_as}
use mopa.Io.Coding.Fields.{uint16-Codes, uint_req8-Codes}
use mopa.Io.Coding.Blocks.{block-Leads}
use mopa.Common.Vector.{read_items, write_items, vector_io, rounds}
use mopa.Common.Items.{total, Every, items-Codes}
use mopa.Si.Nit.{TsSpecification, ts_specification_io, new_ts_specification}
use mopa.Si.Coding.Lists.{DescriptorFits, size, sized, descriptor_vector-Codes}

-- The members fit their bits, and so does the length of the descriptors.
pub record TsFits (t : TsSpecification) : Type 0 where
  pub transport_stream_id : t.transport_stream_id < 2 ^ 16
  pub original_network_id : t.original_network_id < 2 ^ 16
  pub descriptors : Every DescriptorFits t.transport_descriptors
  pub counted : total size t.transport_descriptors < 2 ^ 12

abbrev pub ts_size : TsSpecification → ℕ
ts_size t = 6 + total size t.transport_descriptors

-- The structure with the lengths that are written.
abbrev pub ts_sized : TsSpecification → TsSpecification
ts_sized t = record t {
  transport_descriptors_length = u16 (total size t.transport_descriptors);
  transport_descriptors = map sized t.transport_descriptors;
}

-- What `io` does from the end of the block on.
abbrev close : TsSpecification → ℕ → M Ctx TsSpecification
close t len = pure (record t {
  transport_descriptors_length = u16 len;
  transport_descriptors = map sized t.transport_descriptors;
})

ts_specification-Codes :
    (t : TsSpecification)
    → TsFits t
    → Codes 0 false
        (ts_specification_io t)
        (ts_sized t)
        (ts_specification_io new_ts_specification)
        (ts_sized t)
        (ts_size t * 8)
unfolding ts_specification_io uint_req
ts_specification-Codes t fits =
    subst
      (λ n.
        Codes 0 false (ts_specification_io t) (ts_sized t)
          (ts_specification_io new_ts_specification) (ts_sized t) n)
      (omega arith)
      (Codes-then _ _
        (uint16-Codes t.transport_stream_id 0 (dvb_info "transport_stream_id")
          fits.transport_stream_id (omega arith) (omega arith) (omega arith)
          fits.transport_stream_id)
        refl
        (Codes-then _ _
          (uint16-Codes t.original_network_id 0 (dvb_info "original_network_id")
            fits.original_network_id (omega arith) (omega arith) (omega arith)
            fits.original_network_id)
          refl
          (Codes-then _ _
            (uint_req8-Codes 15 0 (dvb_info "reserved_future_use") (omega arith) (omega arith)
              (omega arith))
            refl
            (block-Leads {len = total size t.transport_descriptors} (close t) (close t) 12
              (dvb_info "transport_descriptors_length") (omega arith) (omega arith) refl
              (omega arith) fits.counted
              (Codes-bind _ _
                (descriptor_vector-Codes t.transport_descriptors [] fits.descriptors))))))

pub ts_loop-Codes :
    (ts olds : List TsSpecification)
    → Every TsFits ts
    → Codes 0 true
        (vector_io ts_specification_io new_ts_specification ts)
        (map ts_sized ts)
        (vector_io ts_specification_io new_ts_specification olds)
        (map ts_sized ts)
        (total ts_size ts * 8)
unfolding vector_io is_parsing
ts_loop-Codes ts olds fit =
    Codes-write_as (write_items ts_specification_io new_ts_specification ts)
      (Codes-read_as (λ x. read_items ts_specification_io new_ts_specification (rounds x) x)
        (items-Codes ts_specification_io ts_specification_io new_ts_specification ts_sized ts_size
          TsFits ts_specification-Codes (λ t. omega arith) ts fit)
        λ after c r found. refl)
      λ c. refl
