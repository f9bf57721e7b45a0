-- ===== src/Examples/Sections.antt =====
-- Runs of the section extractor and of the packetizer.
use mopa.Base.{
  false, some, inl, ℕ, zero, suc, ◌≤◌, length, ◌≡◌, refl, arith, List, [], ◌∷◌, ◌++◌, true, ok,
  fault, replicate,
}
use mopa.Psi.Extractor.{
  wait_start, wait_more, Extractor, Sections, more_sections, gather, collect, to_front,
  section_size, ts_packet,
}
use mopa.Examples.Copies.{zeroing}
use mopa.Psi.Extractor.Safety.{IsValid, Returns, more_sections-Returns, ts_packet-Returns}
use mopa.Psi.Extractor.Resuming.{collect_resumed}
use mopa.Psi.Extractor.Rounds.{following}
use mopa.Psi.Extractor.Whole.{
  AllSections, none_left, one_more, join, last_length, more_sections-join, collect-join,
  ts_packet-join,
}
use mopa.Psi.Extractor.Overread.{ts_packet_overread}
use mopa.Psi.Packetizer.{Packetizer, Packets, section}
use mopa.Psi.Packetizer.Copying as Packetizing
use mopa.Psi.Packetizer.Rounds.{Callback, IsPolite}
use mopa.Psi.Packetizer.Object.{
  PacketCallback, Sec2ts, create, Call, call_section, call_flush, call_set_pid, call_set_dbg_level,
  call_on_adaptation_field, call_on_ts_packet_produced, run_calls,
}
use mopa.Psi.Packetizer.Calls.{run_calls_lem}
use mopa.Psi.Packetizer.Safety.{section-ReturnsWith}

abbrev idle : Extractor
idle = record {
  max_section_size = 1024;
  callback_set = true;
  dvb_section_length = 0;
  state = wait_start;
  content = [];
  cc = 6;
}

abbrev first_section : List ℕ
first_section = 0x42 ∷ 0xf0 ∷ 4 ∷ 1 ∷ 2 ∷ 3 ∷ 4 ∷ []

abbrev second_section : List ℕ
second_section = 0x46 ∷ 0xf0 ∷ 1 ∷ 9 ∷ []

abbrev two_sections : Sections
two_sections = first_section ∷ second_section ∷ []

two_sections-AllSections : AllSections 1024 two_sections
unfolding section_size
two_sections-AllSections =
    one_more (record { table_id = refl; complete = refl; small = omega arith })
      (one_more (record { table_id = refl; complete = refl; small = omega arith }) none_left)

-- A packet with a pointer to its first byte, the section and stuffing.
abbrev packet : List ℕ
packet = 0x47 ∷ 0x41 ∷ 0 ∷ 0x17 ∷ 0 ∷ first_section ++ replicate 176 0xff

idle-IsValid : IsValid idle
idle-IsValid = record { smallest = omega arith; pending = λ e. cc }

ts_packet-Returns_example : Returns idle (ts_packet packet idle)
ts_packet-Returns_example = ts_packet-Returns packet idle refl idle-IsValid (λ _ _ e. omega arith)

more_sections-Returns_example : Returns idle (more_sections 12 (join two_sections) idle)
unfolding join
more_sections-Returns_example =
    more_sections-Returns 12 (join two_sections) idle (omega arith) (omega arith)

-- The second section is cut after two bytes.
abbrev cut : List ℕ
cut = first_section ++ 0x46 ∷ 0xf0 ∷ []

abbrev waiting : Extractor
waiting = record {
  max_section_size = 1024;
  callback_set = true;
  dvb_section_length = 7;
  state = wait_more;
  content = 0x46 ∷ 0xf0 ∷ [];
  cc = 6;
}

cut_payload : collect cut idle ≡ ok (first_section ∷ [], waiting)
unfolding collect gather to_front more_sections section_size
cut_payload = refl

collect_resumed_example :
    more_sections 14 (cut ++ 1 ∷ 9 ∷ 0xff ∷ 0xff ∷ []) idle
    ≡ following (first_section ∷ []) (gather (1 ∷ 9 ∷ 0xff ∷ 0xff ∷ []) waiting)
collect_resumed_example =
    collect_resumed cut (1 ∷ 9 ∷ 0xff ∷ 0xff ∷ []) idle waiting (first_section ∷ []) (omega arith)
      (omega arith) (omega arith) cut_payload refl (omega arith)

more_sections-join_example :
    more_sections 14 (join two_sections ++ 0x4e ∷ 0xf0 ∷ []) idle
    ≡ following two_sections (
        more_sections 3
          (0x4e ∷ 0xf0 ∷ [])
          (record idle { dvb_section_length = last_length 0 two_sections }))
unfolding join
more_sections-join_example =
    more_sections-join two_sections (0x4e ∷ 0xf0 ∷ []) idle refl two_sections-AllSections
      (omega arith)

collect-join_example :
    collect (join two_sections ++ 255 ∷ 255 ∷ []) idle
    ≡ ok (
      two_sections,
      record idle { dvb_section_length = last_length 0 two_sections; content = 255 ∷ 255 ∷ [] },
    )
unfolding join
collect-join_example =
    collect-join two_sections (255 ∷ []) idle refl refl two_sections-AllSections (omega arith)

ts_packet-join_example :
    ts_packet
      ((0x47 ∷ 0x41 ∷ 0 ∷ 0x17 ∷ []) ++ 2 ∷ (0xaa ∷ 0xbb ∷ []) ++ (join two_sections ++ 255 ∷ []))
      idle
    ≡ ok (
      two_sections,
      record idle { dvb_section_length = last_length 0 two_sections; content = 255 ∷ []; cc = 7 },
    )
unfolding join
ts_packet-join_example =
    ts_packet-join (0x47 ∷ 0x41 ∷ 0 ∷ 0x17 ∷ []) (0xaa ∷ 0xbb ∷ []) [] two_sections idle refl refl
      (omega arith) refl refl two_sections-AllSections (omega arith)

ts_packet_overread_example :
    ts_packet (0x47 ∷ 0x41 ∷ 0 ∷ 0x37 ∷ 183 ∷ replicate 183 0xff) idle ≡ fault
ts_packet_overread_example =
    ts_packet_overread 0x47 0x41 0 0x37 (183 ∷ replicate 183 0xff) idle refl refl (omega arith) refl
      refl

-- A callback that fills two packets with nothing else, and then leaves them alone.
abbrev stuffing : Callback ℕ
stuffing zero p room = (0, p, 0)
stuffing (suc s) p room = (s, p, room)

stuffing-Polite : (s : ℕ) (p : List ℕ) → length p ≡ 188 → s ≤ 2 → IsPolite stuffing (λ s. s) 2 s p
stuffing-Polite zero p size low = record {
  size = size;
  small = omega arith;
  bounded = omega arith;
  progress = λ h. absurd (omega arith);
}
stuffing-Polite (suc s) p size low = record {
  size = size;
  small = omega arith;
  bounded = omega (arith, low);
  progress = λ h. omega arith;
}

abbrev stuffed : Packetizer ℕ
stuffed = record {
  pid = 0x100;
  adaptation_ctx = 2;
  cc = 0;
  packet = replicate 188 0;
  pusi = false;
  payload_start = 0;
  payload_end = 0;
}

section-ReturnsWith_example :
    Packetizing.ReturnsWith (λ s. s ≤ 2) (section (some stuffing) 30 first_section stuffed)
section-ReturnsWith_example =
    section-ReturnsWith (λ s. s) 2 (some stuffing) stuffing-Polite 30 first_section stuffed
      (omega arith) (omega arith) record { size = refl; begun = inl refl }

-- A callback that collects the packets.
abbrev collecting : PacketCallback Packets
collecting ps p = p ∷ ps

abbrev session : List (Call ℕ Packets)
session =
    call_set_dbg_level 3
    ∷ call_set_pid 0x100
    ∷ call_on_adaptation_field 2 (some stuffing)
    ∷ call_section 30 first_section
    ∷ call_flush
    ∷ []

run_calls_lem_example :
    (y : Sec2ts ℕ Packets) × (run_calls
        (call_on_ts_packet_produced [] (some collecting) ∷ session)
        (create 0 [])
      ≡ ok (tt, y))
    × Packetizing.AllPackets y.on_packet_produced_ctx
run_calls_lem_example =
    run_calls_lem (λ s. s) 2 Packetizing.AllPackets 0 [] [] collecting session (omega arith)
      Packetizing.none_left (λ t p one all. Packetizing.one_more one all)
      (tt, (tt, ((omega arith, stuffing-Polite), (omega arith, (tt, tt)))))
