-- ===== src/Examples/Tables.antt =====
-- A network information section with descriptors of three classes, in a buffer.
use mopa.Base.{
  IsBytes, ℕ, zero, suc, ◌+◌, ◌-◌, ◌*◌, ◌≡◌, refl, arith, ok, none, some, List, [], ◌∷◌, replicate,
}
use mopa.Io.BinaryOut.{ObCtx}
use mopa.Io.Coding.{RoundTrip}
use mopa.Si.Descriptors.{
  ServiceList, CableDeliverySystem, UnknownDescriptor, Descriptor, service_list,
  cable_delivery_system, unknown,
}
use mopa.Si.Nit.{TsSpecification, NetworkInformationSection, network_information_section_io}
use mopa.Si.Ownership.{Memory}
use mopa.Si.Ownership.Values.{Refines}
use mopa.Si.Ownership.Programs.{
  Op, make, clear, delete, add, put_copy, make_copy, run_all, no_vectors, run_pointers-Refines,
}
use mopa.Si.Coding.Cable.{CableFits}
use mopa.Si.Coding.ServiceList.{ServicesFit}
use mopa.Si.Coding.Unknown.{UnknownFits}
use mopa.Si.Coding.Section.{section_size, SectionFits, loops_sized}
use mopa.Si.Coding.Finish.{sum}
use mopa.Si.Coding.Nit.{network_information_section_io-RoundTrip}

zeros-IsBytes : (n : ℕ) → IsBytes (replicate n 0)
zeros-IsBytes zero = tt
zeros-IsBytes (suc n) = (omega arith, zeros-IsBytes n)

-- Two bytes are written already.
abbrev writer : ObCtx
writer = record { bitpos = 16; bitlimit = 512; bytes = replicate 64 0; scope_stack = [] }

abbrev services : ServiceList
services = record {
  tag = 0x41;
  length = 0;
  services =
      record { service_id = 0x1234; service_type = 1 }
      ∷ record { service_id = 0x5678; service_type = 2 }
      ∷ [];
}

services-ServicesFit : ServicesFit services
services-ServicesFit = record {
  tag = refl;
  services = ((omega arith, omega arith), ((omega arith, omega arith), tt));
  counted = omega arith;
}

abbrev cable : CableDeliverySystem
cable = record {
  tag = 0x44;
  length = 0;
  frequency = 0x03460000;
  fec_outer = 2;
  modulation = 5;
  symbol_rate = 0x0068750;
  fec_inner = 15;
}

cable-CableFits : CableFits cable
cable-CableFits = record {
  tag = refl;
  frequency = omega arith;
  fec_outer = omega arith;
  modulation = omega arith;
  symbol_rate = omega arith;
  fec_inner = omega arith;
}

abbrev name : UnknownDescriptor
name = record { tag = 0x40; length = 3; content = 0x61 ∷ 0x62 ∷ 0x63 ∷ [] }

name-UnknownFits : UnknownFits name
name-UnknownFits = record {
  byte = omega arith;
  no_service_list = λ e. absurd (omega (arith, e));
  no_cable_delivery_system = λ e. absurd (omega (arith, e));
  no_adaptation_field_data = λ e. absurd (omega (arith, e));
  counted = refl;
  short = omega arith;
  chars = (omega arith, (omega arith, (omega arith, tt)));
}

abbrev descriptors : List Descriptor
descriptors = service_list services ∷ unknown name ∷ cable_delivery_system cable ∷ []

abbrev stream : TsSpecification
stream = record {
  transport_stream_id = 0x0457;
  original_network_id = 0x2078;
  transport_descriptors_length = 0;
  transport_descriptors = service_list services ∷ cable_delivery_system cable ∷ [];
}

abbrev network : NetworkInformationSection
network = record {
  table_id = 0x40;
  section_syntax_indicator = 1;
  section_length = 0;
  network_id = 0x2078;
  version_number = 17;
  current_next_indicator = 1;
  section_number = 0;
  last_section_number = 0;
  network_descriptors_length = 0;
  network_descriptors = unknown name ∷ [];
  transport_stream_loop_length = 0;
  ts_loop = stream ∷ [];
  crc = 0;
}

network-SectionFits : SectionFits network
network-SectionFits = record {
  table_id = omega arith;
  section_syntax_indicator = omega arith;
  network_id = omega arith;
  version_number = omega arith;
  current_next_indicator = omega arith;
  section_number = omega arith;
  last_section_number = omega arith;
  network_descriptors = (name-UnknownFits, tt);
  ts_loop = (
    record {
      transport_stream_id = omega arith;
      original_network_id = omega arith;
      descriptors = (services-ServicesFit, (cable-CableFits, tt));
      counted = omega arith;
    },
    tt,
  );
  short = omega arith;
}

network_information_section_io-RoundTrip_example :
    (crc : ℕ) × (t : RoundTrip
      (network_information_section_io network)
      (network_information_section_io network)
      (record (loops_sized network) { section_length = section_size network; crc = crc })
      ((3 + section_size network) * 8)
      writer)
    × (crc ≡ sum t.written writer.bitpos (writer.bitpos + (section_size network - 1) * 8))
network_information_section_io-RoundTrip_example =
    network_information_section_io-RoundTrip network network writer network-SectionFits
      (omega arith)
      record {
        aligned = refl;
        valid = zeros-IsBytes 64;
        inside = omega arith;
        word = omega arith;
        in_buffer = omega arith;
        spare = omega arith;
      }

-- A vector gets a descriptor, is copied, assigned to itself and from its copy, and destroyed.
abbrev vectors_program : List Op
vectors_program =
    make
    ∷ add 0 (unknown name)
    ∷ make_copy 0
    ∷ put_copy 0 0
    ∷ put_copy 0 1
    ∷ clear 1
    ∷ delete 0
    ∷ []

run_pointers-Refines_example :
    (y : Memory) × (run_all vectors_program no_vectors ≡ ok (tt, y))
    × Refines y (none ∷ some [] ∷ [])
run_pointers-Refines_example =
    run_pointers-Refines vectors_program
      (tt, (refl, (refl, ((refl, refl), ((refl, refl), (refl, (refl, tt)))))))
