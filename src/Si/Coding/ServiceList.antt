-- ===== src/Si/Coding/ServiceList.antt =====
-- `service_list_descriptor::io`: what it has constructed, parsed again.
use mathlib.Core.Path.{subst}
use mathlib.Core.List.{map-id}
use mopa.Base.{ℕ, ◌+◌, ◌*◌, ◌^◌, ◌<◌, ◌≡◌, refl, arith, List, [], true, false, u8, M, ◌>>=◌, pure}
use mopa.Io.Info.{dvb_info}
use mopa.Io.Facade.{Ctx, is_parsing, named_block_begin, named_block_end}
use mopa.Io.Coding.{Leads, Codes, Codes-then, Codes-bind, Codes-read_as, Codes-write_as, Leads-none}
use mopa.Io.Coding.Fields.{uint8-Codes, uint16-Codes}
use mopa.Io.Coding.Blocks.{block-Leads}
use mopa.Common.Vector.{read_items, write_items, vector_io, rounds}
use mopa.Common.Items.{total, Every, items-Codes}
use mopa.Si.Descriptors.{
  Service, ServiceList, Descriptor, service_io, new_service, service_list, service_list_io, tag_io,
  descriptor_io, descriptor_factory, read_descriptor,
}
use mopa.Si.Coding.{tagged-Codes}

abbrev pub ServiceFits : Service → Type 0
ServiceFits s = (s.service_id < 2 ^ 16) × (s.service_type < 2 ^ 8)

abbrev pub service_size : Service → ℕ
service_size s = 3

service-Codes :
    (s : Service)
    → ServiceFits s
    → Codes 0 false (service_io s) s (service_io new_service) s (3 * 8)
unfolding service_io
service-Codes s fits =
    Codes-then _ _
      (uint16-Codes s.service_id 0 (dvb_info "service_id") fits.0 (omega arith) (omega arith)
        (omega arith) fits.0)
      refl
      (Codes-then _ _
        (uint8-Codes s.service_type 0 (dvb_info "service_type") fits.1 (omega arith) (omega arith))
        refl (Leads-none false (pure s) (pure s)))

services-Codes :
    (services olds : List Service)
    → Every ServiceFits services
    → Codes 0 true
        (vector_io service_io new_service services)
        services
        (vector_io service_io new_service olds)
        services
        (total service_size services * 8)
unfolding vector_io is_parsing
services-Codes services olds fit =
    Codes-write_as (write_items service_io new_service services)
      (Codes-read_as (λ x. read_items service_io new_service (rounds x) x)
        (subst
          (λ l.
            Codes 0 true (write_items service_io new_service services) l
              (λ x. read_items service_io new_service (rounds x) x) l
              (total service_size services * 8))
          (map-id services)
          (items-Codes service_io service_io new_service (λ s. s) service_size ServiceFits
            service-Codes (λ s. omega arith) services fit))
        λ after c r found. refl)
      λ c. refl

-- The tag is that of the class, the members of each service fit their bits, and the length its byte.
pub record ServicesFit (d : ServiceList) : Type 0 where
  pub tag : d.tag ≡ 0x41
  pub services : Every ServiceFits d.services
  pub counted : total service_size d.services < 2 ^ 8

-- What `io` does behind the length, with the tag known, and from the end of the block on.
abbrev close : ServiceList → ℕ → M Ctx ServiceList
close d len = pure (record d { length = u8 len })

abbrev contents : ServiceList → M Ctx ServiceList
contents d = vector_io service_io new_service d.services >>= λ services.
    named_block_end >>= close (record d { services = services })

abbrev behind_tag : ServiceList → ℕ → M Ctx ServiceList
behind_tag d tag =
    named_block_begin 8 (dvb_info "length") >>= λ _. contents (record d { tag = tag })

-- The length, in bytes, of what is behind it.
abbrev pub sized_list : ServiceList → ServiceList
sized_list d = record d { length = u8 (total service_size d.services) }

module _ (d e : ServiceList) (fits : ServicesFit d) where
  contents-Leads :
      Leads 0 true
        (contents d)
        (named_block_end >>= close d)
        (contents (record e { tag = d.tag }))
        (named_block_end >>= close d)
        (total service_size d.services * 8)
  contents-Leads = Codes-bind _ _ (services-Codes d.services e.services fits.services)

  behind_tag-Codes :
      Codes 0 false
        (behind_tag d d.tag)
        (sized_list d)
        (behind_tag e d.tag)
        (sized_list d)
        (8 + total service_size d.services * 8)
  behind_tag-Codes =
      block-Leads {len = total service_size d.services} (close d) (close d) 8 (dvb_info "length")
        (omega arith) (omega arith) refl (omega arith) fits.counted contents-Leads

-- A service list descriptor whose members fit: it is written with the length of its services
-- and read back so.
pub service_list-Codes :
    (d : ServiceList) (fresh : Descriptor)
    → ServicesFit d
    → Codes 0 false
        (descriptor_io (service_list d))
        (service_list (sized_list d))
        (read_descriptor fresh)
        (service_list (sized_list d))
        (8 + (8 + total service_size d.services * 8))
unfolding descriptor_io service_list_io tag_io is_parsing descriptor_factory
service_list-Codes d fresh fits =
    let e : ServiceList = record { tag = 0; length = 0; services = [] } in
    tagged-Codes service_list (service_list_io d) (behind_tag d) (behind_tag e) d.tag fresh
      (omega (arith, fits.tag)) (λ c. refl) (λ r. rw fits.tag refl) (behind_tag-Codes d e fits)
