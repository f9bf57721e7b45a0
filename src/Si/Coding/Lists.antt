-- ===== src/Si/Coding/Lists.antt =====
-- `descriptor_vector::io`: what it has constructed, parsed again.
use mathlib.Core.Path.{subst}
use mathlib.Core.List.{map}
use mopa.Base.{ℕ, ◌+◌, ◌*◌, ◌<◌, refl, arith, List, length, false, true}
use mopa.Io.Facade.{is_parsing}
use mopa.Io.Coding.{Codes, Codes-read_as, Codes-write_as}
use mopa.Common.Vector.{read_items, write_items, rounds}
use mopa.Common.Items.{total, Every, items-Codes}
use mopa.Si.Descriptors.{
  Descriptor, service_list, cable_delivery_system, adaptation_field_data, unknown, descriptor_io,
  descriptor_factory, read_descriptor, descriptor_vector_io,
}
use mopa.Si.Coding.Cable.{CableFits, cable-Codes}
use mopa.Si.Coding.ServiceList.{ServicesFit, service_size, sized_list, service_list-Codes}
use mopa.Si.Coding.Unknown.{UnknownFits, unknown-Codes}

-- An adaptation field data descriptor is written without its tag, and is not among these.
abbrev pub DescriptorFits : Descriptor → Type 0
DescriptorFits (service_list d) = ServicesFit d
DescriptorFits (cable_delivery_system d) = CableFits d
DescriptorFits (adaptation_field_data d) = ⊥
DescriptorFits (unknown d) = UnknownFits d

-- The bytes of a descriptor, with its tag and its length.
abbrev pub size : Descriptor → ℕ
size (service_list d) = 2 + total service_size d.services
size (cable_delivery_system d) = 13
size (adaptation_field_data d) = 2
size (unknown d) = 2 + length d.content

-- The descriptor with the length that is written.
abbrev pub sized : Descriptor → Descriptor
sized (service_list d) = service_list (sized_list d)
sized (cable_delivery_system d) = cable_delivery_system (record d { length = 11 })
sized (adaptation_field_data d) = adaptation_field_data d
sized (unknown d) = unknown d

descriptor-Codes :
    (fresh d : Descriptor)
    → DescriptorFits d
    → Codes 0 false (descriptor_io d) (sized d) (read_descriptor fresh) (sized d) (size d * 8)
descriptor-Codes fresh (service_list d) fits =
    subst
      (λ n.
        Codes 0 false (descriptor_io (service_list d)) (sized (service_list d))
          (read_descriptor fresh) (sized (service_list d)) n)
      (omega arith) (service_list-Codes d fresh fits)
descriptor-Codes fresh (cable_delivery_system d) fits = cable-Codes d fresh fits
descriptor-Codes fresh (adaptation_field_data d) fits = elim fits [ ]
descriptor-Codes fresh (unknown d) fits =
    subst
      (λ n.
        Codes 0 false (descriptor_io (unknown d)) (unknown d) (read_descriptor fresh) (unknown d) n)
      (omega arith) (unknown-Codes d fresh fits)

size_pos : (d : Descriptor) → 0 < size d
size_pos (service_list d) = omega arith
size_pos (cable_delivery_system d) = omega arith
size_pos (adaptation_field_data d) = omega arith
size_pos (unknown d) = omega arith

pub descriptor_vector-Codes :
    (ds olds : List Descriptor)
    → Every DescriptorFits ds
    → Codes 0 true
        (descriptor_vector_io ds)
        (map sized ds)
        (descriptor_vector_io olds)
        (map sized ds)
        (total size ds * 8)
unfolding descriptor_vector_io is_parsing
descriptor_vector-Codes ds olds fit =
    let fresh = descriptor_factory 0 in
    Codes-write_as (write_items descriptor_io fresh ds)
      (Codes-read_as (λ x. read_items read_descriptor fresh (rounds x) x)
        (items-Codes descriptor_io read_descriptor fresh sized size DescriptorFits
          (descriptor-Codes fresh) size_pos ds fit)
        λ after c r found. refl)
      λ c. refl
