-- ===== src/Si/Nit.antt =====
-- dvb/NIT.h: the network information section.
use mopa.Base.{ℕ, List, [], ltb, not, ◌&&◌, u16}
use mopa.Base.{table_too_big, M, ◌>>=◌, ◌>>◌, pure, get, throw_if}
use mopa.Io.Info.{dvb_info}
use mopa.Io.Facade.{
  Ctx, is_parsing, bitpos, uint8, uint16, uint_req, named_block_begin, named_block_end,
}
use mopa.Common.Checksum.{crc_io, crc_late_fix}
use mopa.Common.Vector.{vector_io}
use mopa.Si.Descriptors.{Descriptor, descriptor_vector_io}

pub record TsSpecification : Type 0 where
  pub transport_stream_id : ℕ
  pub original_network_id : ℕ
  pub transport_descriptors_length : ℕ
  pub transport_descriptors : List Descriptor

unfoldable pub ts_specification_io : TsSpecification → M Ctx TsSpecification
ts_specification_io t = do
  transport_stream_id ← uint16 16 t.transport_stream_id (dvb_info "transport_stream_id")
  original_network_id ← uint16 16 t.original_network_id (dvb_info "original_network_id")
  uint_req 4 0xf (dvb_info "reserved_future_use")
  named_block_begin 12 (dvb_info "transport_descriptors_length")
  transport_descriptors ← descriptor_vector_io t.transport_descriptors
  length ← named_block_end
  pure (record {
    transport_stream_id = transport_stream_id;
    original_network_id = original_network_id;
    transport_descriptors_length = u16 length;
    transport_descriptors = transport_descriptors;
  })

abbrev pub new_ts_specification : TsSpecification
new_ts_specification = record {
  transport_stream_id = 0;
  original_network_id = 0;
  transport_descriptors_length = 0;
  transport_descriptors = [];
}

pub record NetworkInformationSection : Type 0 where
  pub table_id : ℕ
  pub section_syntax_indicator : ℕ
  pub section_length : ℕ
  pub network_id : ℕ
  pub version_number : ℕ
  pub current_next_indicator : ℕ
  pub section_number : ℕ
  pub last_section_number : ℕ
  pub network_descriptors_length : ℕ
  pub network_descriptors : List Descriptor
  pub transport_stream_loop_length : ℕ
  pub ts_loop : List TsSpecification
  pub crc : ℕ

-- The first check of the length looks at the field as it was before the call.
unfoldable pub network_information_section_io :
    NetworkInformationSection → M Ctx NetworkInformationSection
network_information_section_io n = do
  x ← get
  let nit_begin = bitpos x
  table_id ← uint8 8 n.table_id (dvb_info "table_id")
  section_syntax_indicator ←
      uint8 1 n.section_syntax_indicator (dvb_info "section_syntax_indicator")
  uint_req 1 1 (dvb_info "reserved_future_use")
  uint_req 2 0x3 (dvb_info "reserved")
  named_block_begin 12 (dvb_info "section_length")
  throw_if (is_parsing x && ltb 1021 n.section_length) table_too_big
  network_id ← uint16 16 n.network_id (dvb_info "network_id")
  uint_req 2 0x3 (dvb_info "reserved")
  version_number ← uint8 5 n.version_number (dvb_info "version_number")
  current_next_indicator ← uint8 1 n.current_next_indicator (dvb_info "current_next_indicator")
  section_number ← uint8 8 n.section_number (dvb_info "section_number")
  last_section_number ← uint8 8 n.last_section_number (dvb_info "last_section_number")
  uint_req 4 0xf (dvb_info "reserved_future_use")
  named_block_begin 12 (dvb_info "network_descriptors_length")
  network_descriptors ← descriptor_vector_io n.network_descriptors
  network_descriptors_length ← named_block_end
  uint_req 4 0xf (dvb_info "reserved_future_use")
  named_block_begin 12 (dvb_info "transport_stream_loop_length")
  ts_loop ← vector_io ts_specification_io new_ts_specification n.ts_loop
  transport_stream_loop_length ← named_block_end
  y ← get
  let crc_pos = bitpos y
  crc ← crc_io nit_begin n.crc (dvb_info "CRC")
  section_length ← named_block_end
  crc' ← crc_late_fix nit_begin crc_pos crc
  throw_if (not (is_parsing x) && ltb 1021 (u16 section_length)) table_too_big
  pure (record {
    table_id = table_id;
    section_syntax_indicator = section_syntax_indicator;
    section_length = u16 section_length;
    network_id = network_id;
    version_number = version_number;
    current_next_indicator = current_next_indicator;
    section_number = section_number;
    last_section_number = last_section_number;
    network_descriptors_length = u16 network_descriptors_length;
    network_descriptors = network_descriptors;
    transport_stream_loop_length = u16 transport_stream_loop_length;
    ts_loop = ts_loop;
    crc = crc';
  })
