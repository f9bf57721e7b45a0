-- ===== src/Si/Coding/Cable.antt =====
-- `cable_delivery_system_descriptor::io`: what it has constructed, parsed again.
use mopa.Base.{ℕ, ◌-◌, ◌*◌, ◌^◌, ◌<◌, ◌≡◌, refl, arith, false, u8, M, ◌>>=◌, pure}
use mopa.Io.Info.{dvb_info, dvb_info_hint, format_hint_hex}
use mopa.Io.Facade.{Ctx, uint8, uint32, uint_req, is_parsing, named_block_begin, named_block_end}
use mopa.Io.Coding.{Leads, Codes, Codes-then, Leads-none}
use mopa.Io.Coding.Fields.{uint8-Codes, uint32-Codes, uint_req16-Codes}
use mopa.Io.Coding.Blocks.{block-Leads}
use mopa.Si.Descriptors.{
  CableDeliverySystem, Descriptor, cable_delivery_system, cable_delivery_system_io, tag_io,
  descriptor_io, descriptor_factory, read_descriptor,
}
use mopa.Si.Coding.{tagged-Codes}

-- The members fit their bits.
pub record CableFits (d : CableDeliverySystem) : Type 0 where
  pub tag : d.tag ≡ 0x44
  pub frequency : d.frequency < 2 ^ 32
  pub fec_outer : d.fec_outer < 2 ^ 4
  pub modulation : d.modulation < 2 ^ 8
  pub symbol_rate : d.symbol_rate < 2 ^ 28
  pub fec_inner : d.fec_inner < 2 ^ 4

-- What `io` does behind the length, with the tag known, and from the end of the block on.
abbrev close : CableDeliverySystem → ℕ → M Ctx CableDeliverySystem
close d len = pure (record d { length = u8 len })

abbrev contents : CableDeliverySystem → M Ctx CableDeliverySystem
contents d = uint32 32 d.frequency (dvb_info_hint "frequency" format_hint_hex) >>= λ frequency.
    uint_req 12 (2 ^ 12 - 1) (dvb_info "reserved_future_use") >>= λ _.
    uint8 4 d.fec_outer (dvb_info "FEC_outer") >>= λ fec_outer.
    uint8 8 d.modulation (dvb_info "modulation") >>= λ modulation.
    uint32 28 d.symbol_rate (dvb_info "symbol_rate") >>= λ symbol_rate.
    uint8 4 d.fec_inner (dvb_info "FEC_inner") >>= λ fec_inner.
    named_block_end
    >>= close (record d {
      frequency = frequency;
      fec_outer = fec_outer;
      modulation = modulation;
      symbol_rate = symbol_rate;
      fec_inner = fec_inner;
    })

abbrev behind_tag : CableDeliverySystem → ℕ → M Ctx CableDeliverySystem
behind_tag d tag =
    named_block_begin 8 (dvb_info "length") >>= λ _. contents (record d { tag = tag })

module _ (d e : CableDeliverySystem) (fits : CableFits d) where
  contents-Leads :
      Leads 0 false
        (contents d)
        (named_block_end >>= close d)
        (contents (record e { tag = d.tag }))
        (named_block_end >>= close d)
        (11 * 8)
  unfolding uint_req
  contents-Leads =
      Codes-then _ _
        (uint32-Codes d.frequency e.frequency _ fits.frequency (omega arith) (omega arith)) refl
        (Codes-then _ _
          (uint_req16-Codes 4095 0 _ (omega arith) (omega arith) (omega arith) (omega arith)
            (omega arith))
          refl
          (Codes-then _ _
            (uint8-Codes d.fec_outer e.fec_outer _ fits.fec_outer (omega arith) (omega arith)) refl
            (Codes-then _ _
              (uint8-Codes d.modulation e.modulation _ fits.modulation (omega arith) (omega arith))
              refl
              (Codes-then _ _
                (uint32-Codes d.symbol_rate e.symbol_rate _ fits.symbol_rate (omega arith)
                  (omega arith))
                refl
                (Codes-then _ _
                  (uint8-Codes d.fec_inner e.fec_inner _ fits.fec_inner (omega arith) (omega arith))
                  refl
                  (Leads-none false (named_block_end >>= close d)
                    (named_block_end >>= close d)))))))

  behind_tag-Codes :
      Codes 0 false
        (behind_tag d d.tag)
        (record d { length = 11 })
        (behind_tag e d.tag)
        (record d { length = 11 })
        96
  behind_tag-Codes =
      block-Leads {len = 11} (close d) (close d) 8 (dvb_info "length") (omega arith) (omega arith)
        refl (omega arith) (omega arith) contents-Leads

-- A cable delivery system descriptor whose members fit: the descriptor is written with the length 11
-- and read back so.
pub cable-Codes :
    (d : CableDeliverySystem) (fresh : Descriptor)
    → CableFits d
    → (let sized = cable_delivery_system (record d { length = 11 }) in
        Codes 0 false
          (descriptor_io (cable_delivery_system d))
          sized
          (read_descriptor fresh)
          sized
          (13 * 8))
unfolding descriptor_io cable_delivery_system_io tag_io is_parsing descriptor_factory
cable-Codes d fresh fits =
    let e : CableDeliverySystem = record {
      tag = 0;
      length = 0;
      frequency = 0;
      fec_outer = 0;
      modulation = 0;
      symbol_rate = 0;
      fec_inner = 0;
    } in
    tagged-Codes cable_delivery_system (cable_delivery_system_io d) (behind_tag d) (behind_tag e)
      d.tag fresh (omega (arith, fits.tag)) (λ c. refl) (λ r. rw fits.tag refl)
      (behind_tag-Codes d e fits)
