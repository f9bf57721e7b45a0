-- ===== src/Si/Descriptors.antt =====
-- inc/descriptors.h and src/descriptors.cpp. An `io` method takes the structure as it is and returns it
-- as it is after the call; fields that a new structure does not set are 0. Copying and deleting the
-- objects behind a `descriptor_vector` has no counterpart here.
use mopa.Base.{ℕ, ◌-◌, ◌^◌, none, List, [], ltb, ◌==◌, if◌then◌else◌, u8}
use mopa.Base.{ok, M, ◌>>=◌, ◌>>◌, pure}
use mopa.Io.Info.{dvb_info, dvb_info_hint, format_hint_hex}
use mopa.Io.Facade.{
  Ctx, is_parsing, uint8, uint16, uint32, uint_req, named_block_begin, named_block_end,
}
use mopa.Common.Strings.{short_string_io, fixed_string_io}
use mopa.Common.Vector.{read_items, write_items, vector_io, rounds}

pub record Service : Type 0 where
  pub service_id : ℕ
  pub service_type : ℕ

pub record ServiceList : Type 0 where
  pub tag : ℕ
  pub length : ℕ
  pub services : List Service

pub record CableDeliverySystem : Type 0 where
  pub tag : ℕ
  pub length : ℕ
  pub frequency : ℕ
  pub fec_outer : ℕ
  pub modulation : ℕ
  pub symbol_rate : ℕ
  pub fec_inner : ℕ

pub record AdaptationFieldData : Type 0 where
  pub tag : ℕ
  pub length : ℕ
  pub adaptation_field_data_identifier : ℕ

pub record UnknownDescriptor : Type 0 where
  pub tag : ℕ
  pub length : ℕ
  pub content : List ℕ

pub record EventItem : Type 0 where
  pub item_description : List ℕ
  pub item : List ℕ

pub record ExtendedEvent : Type 0 where
  pub descriptor_tag : ℕ
  pub descriptor_length : ℕ
  pub descriptor_number : ℕ
  pub last_descriptor_number : ℕ
  pub iso_639_language_code : List ℕ
  pub length_of_items : ℕ
  pub items : List EventItem
  pub text : List ℕ

pub data Descriptor : Type 0 where
  service_list : ServiceList → Descriptor
  cable_delivery_system : CableDeliverySystem → Descriptor
  adaptation_field_data : AdaptationFieldData → Descriptor
  unknown : UnknownDescriptor → Descriptor

-- `if(!x.is_parsing()) x.uint(8,DVB_VAR(tag));`
unfoldable pub tag_io : ℕ → M Ctx ℕ
tag_io tag x = if is_parsing x then ok (tag, x) else uint8 8 tag (dvb_info "tag") x

unfoldable pub service_io : Service → M Ctx Service
service_io s = do
  service_id ← uint16 16 s.service_id (dvb_info "service_id")
  service_type ← uint8 8 s.service_type (dvb_info "service_type")
  pure (record { service_id = service_id; service_type = service_type })

abbrev pub new_service : Service
new_service = record { service_id = 0; service_type = 0 }

unfoldable pub service_list_io : ServiceList → M Ctx ServiceList
service_list_io d = do
  tag ← tag_io d.tag
  named_block_begin 8 (dvb_info "length")
  services ← vector_io service_io new_service d.services
  length ← named_block_end
  pure (record { tag = tag; length = u8 length; services = services })

unfoldable pub cable_delivery_system_io : CableDeliverySystem → M Ctx CableDeliverySystem
cable_delivery_system_io d = do
  tag ← tag_io d.tag
  named_block_begin 8 (dvb_info "length")
  frequency ← uint32 32 d.frequency (dvb_info_hint "frequency" format_hint_hex)
  uint_req 12 (2 ^ 12 - 1) (dvb_info "reserved_future_use")
  fec_outer ← uint8 4 d.fec_outer (dvb_info "FEC_outer")
  modulation ← uint8 8 d.modulation (dvb_info "modulation")
  symbol_rate ← uint32 28 d.symbol_rate (dvb_info "symbol_rate")
  fec_inner ← uint8 4 d.fec_inner (dvb_info "FEC_inner")
  length ← named_block_end
  pure (record {
    tag = tag;
    length = u8 length;
    frequency = frequency;
    fec_outer = fec_outer;
    modulation = modulation;
    symbol_rate = symbol_rate;
    fec_inner = fec_inner;
  })

-- The tag is not written.
unfoldable pub adaptation_field_data_io : AdaptationFieldData → M Ctx AdaptationFieldData
adaptation_field_data_io d = do
  named_block_begin 8 (dvb_info "length")
  identifier ←
      uint8 8 d.adaptation_field_data_identifier (dvb_info "adaptation_field_data_identifier")
  length ← named_block_end
  pure (record { tag = d.tag; length = u8 length; adaptation_field_data_identifier = identifier })

unfoldable pub content_io : ℕ → List ℕ → M Ctx (List ℕ)
content_io length content =
    if ltb 0 length then fixed_string_io length content (dvb_info "data") else pure content

unfoldable pub unknown_descriptor_io : UnknownDescriptor → M Ctx UnknownDescriptor
unfolding content_io
unknown_descriptor_io d = do
  tag ← tag_io d.tag
  length ← uint8 8 d.length (dvb_info "length")
  content ← content_io length d.content
  pure (record { tag = tag; length = length; content = content })

unfoldable pub item_io : EventItem → M Ctx EventItem
item_io i = do
  item_description ← short_string_io i.item_description (dvb_info "item_description")
  item ← short_string_io i.item (dvb_info "item")
  pure (record { item_description = item_description; item = item })

abbrev pub new_item : EventItem
new_item = record { item_description = []; item = [] }

-- `text` has no `info`.
unfoldable pub extended_event_io : ExtendedEvent → M Ctx ExtendedEvent
extended_event_io d = do
  descriptor_tag ← uint8 8 d.descriptor_tag (dvb_info "descriptor_tag")
  descriptor_length ← uint8 8 d.descriptor_length (dvb_info "descriptor_length")
  descriptor_number ← uint8 4 d.descriptor_number (dvb_info "descriptor_number")
  last_descriptor_number ← uint8 4 d.last_descriptor_number (dvb_info "last_descriptor_number")
  language ← fixed_string_io 3 d.iso_639_language_code (dvb_info "ISO_639_language_code")
  named_block_begin 8 (dvb_info "length_of_items")
  items ← vector_io item_io new_item d.items
  length_of_items ← named_block_end
  text ← short_string_io d.text none
  pure (record {
    descriptor_tag = descriptor_tag;
    descriptor_length = descriptor_length;
    descriptor_number = descriptor_number;
    last_descriptor_number = last_descriptor_number;
    iso_639_language_code = language;
    length_of_items = u8 length_of_items;
    items = items;
    text = text;
  })

-- The virtual method.
unfoldable pub descriptor_io : Descriptor → M Ctx Descriptor
descriptor_io (service_list d) = service_list_io d >>= λ e. pure (service_list e)
descriptor_io (cable_delivery_system d) =
    cable_delivery_system_io d >>= λ e. pure (cable_delivery_system e)
descriptor_io (adaptation_field_data d) =
    adaptation_field_data_io d >>= λ e. pure (adaptation_field_data e)
descriptor_io (unknown d) = unknown_descriptor_io d >>= λ e. pure (unknown e)

-- A new descriptor for a tag, with `dsc->tag=tag` done.
unfoldable pub descriptor_factory : ℕ → Descriptor
descriptor_factory tag =
    if tag == 0x41
    then service_list (record { tag = tag; length = 0; services = [] })
    else if tag == 0x44
    then cable_delivery_system (record {
      tag = tag;
      length = 0;
      frequency = 0;
      fec_outer = 0;
      modulation = 0;
      symbol_rate = 0;
      fec_inner = 0;
    })
    else if tag == 0x70
    then adaptation_field_data
        (record { tag = tag; length = 0; adaptation_field_data_identifier = 0 })
    else unknown (record { tag = tag; length = 0; content = [] })

-- The body of the loop of `descriptor_vector::io`: the tag is read ahead of the descriptor.
unfoldable pub read_descriptor : Descriptor → M Ctx Descriptor
read_descriptor _ = do tag ← uint8 8 0 (dvb_info "tag"); descriptor_io (descriptor_factory tag)

unfoldable pub descriptor_vector_io : List Descriptor → M Ctx (List Descriptor)
unfolding read_descriptor
descriptor_vector_io ds x =
    if is_parsing x
    then read_items read_descriptor (descriptor_factory 0) (rounds x) x
    else write_items descriptor_io (descriptor_factory 0) ds x
