-- ===== src/Psi/Packetizer.antt =====
-- src/sec2ts.cpp `sec2ts_impl`: sections cut into the packets of a transport stream.
-- The packets handed to the callback are the result of a call. The callback for the adaptation field
-- is a parameter: from its own state, the packet and the room it gives its new state, the packet
-- with the field written, and the length of the field.
pub mod Copying
pub mod Rounds
pub mod Safety
pub mod Object
pub mod Calls
use mopa.Base.{
  ℕ, zero, suc, ◌+◌, ◌-◌, ◌^◌, Option, none, some, List, [], ◌∷◌, Bool, true, false, not, ltb, leb,
  ◌==◌, ◌&&◌, if◌then◌else◌, length, take, drop, set, replicate, slice, overwrite, bit_and, bit_or,
  u8, sub32, fault, ◌<<<◌, ◌>>>◌,
}
use mopa.Base.{Outcome, ok, out_of_fuel, bind, M, ◌>>=◌}

abbrev pub ts_packet_len : ℕ
ts_packet_len = 188

abbrev pub afc_payload : ℕ
afc_payload = 1

abbrev pub afc_adaptation : ℕ
afc_adaptation = 2

abbrev pub afc_adaptation_and_payload : ℕ
afc_adaptation_and_payload = 3

pub record Packetizer (S : Type 0) : Type 0 where
  pub pid : ℕ
  pub adaptation_ctx : S
  pub cc : ℕ
  pub packet : List ℕ
  pub pusi : Bool
  pub payload_start : ℕ
  pub payload_end : ℕ

abbrev pub next_cc : ℕ → ℕ
next_cc counter = bit_and (counter + 1) 0xf

abbrev pub Packets : Type 0
Packets = List (List ℕ)

module _ {S : Type 0} where
  unfoldable pub create : S → Packetizer S
  create ctx = record {
    pid = 0;
    adaptation_ctx = ctx;
    cc = 0;
    packet = replicate ts_packet_len 0;
    pusi = false;
    payload_start = 0;
    payload_end = 0;
  }

  unfoldable pub set_pid : ℕ → Packetizer S → Packetizer S
  set_pid pid c = record c { pid = bit_and pid (2 ^ 13 - 1) }

  -- The four bytes of the header.
  unfoldable pub fix_header : Bool → ℕ → Packetizer S → Packetizer S
  fix_header payload_unit_start adaptation_value c =
      let p0 = set c.packet 0 0x47 in
      let p1 = set p0 1 (u8 (bit_or ((if payload_unit_start then 1 else 0) <<< 6) (c.pid >>> 8))) in
      let p2 = set p1 2 (u8 c.pid) in
      record c { packet = set p2 3 (u8 (bit_or (adaptation_value <<< 4) c.cc)) }

  abbrev pub afc_of : Packetizer S → ℕ
  afc_of c = if ltb 4 c.payload_start then afc_adaptation_and_payload else afc_payload

  -- The packet goes out, and the next one is empty.
  abbrev pub finished : Packetizer S → Packetizer S
  finished c = record c { payload_start = 0; pusi = false; cc = next_cc c.cc }

  -- `memcpy(ts_packet+payload_end,section,n)`
  unfoldable pub copy : List ℕ → M (Packetizer S) (Unit {0})
  copy bytes c =
      bind (overwrite c.packet c.payload_end bytes) λ packet. ok (tt, record c { packet = packet })

  abbrev pub producing :
      List ℕ → Outcome (Packets × Packetizer S) → Outcome (Packets × Packetizer S)
  producing packet r = bind r (λ (packets, c). ok (packet ∷ packets, c))

module _ {S : Type 0} (callback : Option (S → List ℕ → ℕ → S × List ℕ × ℕ)) where
  -- `on_adaptation_field_cb(on_adaptation_field_ctx,&ts_packet[4],TS_PACKET_LEN-4)`
  unfoldable pub adaptation : Packetizer S → Packetizer S × ℕ
  adaptation c = elim callback [
    | none ↦ (c, 0)
    | some f ↦
        let (ctx, packet, adalen) = f c.adaptation_ctx c.packet (ts_packet_len - 4) in
        (record c { adaptation_ctx = ctx; packet = packet }, adalen)
  ]

  -- The loop at `more`. A callback that leaves no room for ever keeps the source in it; `fuel` bounds
  -- its rounds. A pointer field behind the end of the packet is a fault.
  unfoldable pub more : ℕ → Bool → List ℕ → M (Packetizer S) Packets
  more zero wrote_section_start section c0 = out_of_fuel
  more (suc fuel) wrote_section_start section c0 =
      let (c, adalen) = adaptation c0 in
      let start = u8 (4 + adalen) in
      let begun : Packetizer S = record c { payload_start = start; payload_end = start } in
      let only_adaptation : Packetizer S = fix_header true afc_adaptation begun in
      let without_payload : Outcome (Packets × Packetizer S) = producing only_adaptation.packet (
        more fuel wrote_section_start section
          (record only_adaptation { payload_start = 0; pusi = false })) in
      let pointed : Packetizer S = if wrote_section_start then begun else record begun {
        packet = set begun.packet start 0;
        payload_end = u8 (start + 1);
        pusi = true;
      } in
      let rem = sub32 ts_packet_len pointed.payload_end in
      let fits : Outcome (Packets × Packetizer S) =
        bind (copy section pointed)
          λ (_, d). ok ([], record d { payload_end = u8 (d.payload_end + length section) }) in
      let fills : Outcome (Packets × Packetizer S) =
        bind (copy (take rem section) pointed) λ (_, d).
          let sent : Packetizer S = fix_header d.pusi (afc_of d) d in
          let left = drop rem section in
          let next : Outcome (Packets × Packetizer S) = more fuel true left (finished sent) in
          producing sent.packet (if length left == 0 then ok ([], finished sent) else next) in
      if leb (sub32 ts_packet_len start) 1
      then without_payload
      else if not wrote_section_start && leb (length c.packet) start
      then fault
      else if ltb (length section) rem
      then fits
      else fills

  -- A section start goes into a packet that is begun: the bytes there make room for the pointer field.
  unfoldable pub make_pointer : M (Packetizer S) (Unit {0})
  make_pointer c =
      if c.pusi
      then ok (tt, c)
      else bind (slice c.packet c.payload_start (c.payload_end - c.payload_start)) λ begun.
        bind (overwrite c.packet (c.payload_start + 1) begun) λ packet. ok (
          tt,
          record c {
            packet = set packet c.payload_start (c.payload_end - c.payload_start);
            payload_end = u8 (c.payload_end + 1);
            pusi = true;
          },
        )

  -- The rest of a packet that is begun and has its pointer field.
  unfoldable pub fill_begun : ℕ → List ℕ → M (Packetizer S) Packets
  fill_begun fuel section c =
      let rem = sub32 ts_packet_len c.payload_end in
      let fits : Outcome (Packets × Packetizer S) =
        bind (copy section c)
          λ (_, d). ok ([], record d { payload_end = u8 (d.payload_end + length section) }) in
      let fills : Outcome (Packets × Packetizer S) = bind (copy (take rem section) c) λ (_, d).
        let sent : Packetizer S =
          fix_header true (afc_of d) (record d { payload_end = u8 (d.payload_end + rem) }) in
        let left = drop rem section in
        producing sent.packet (
          if length left == 0
          then ok ([], finished sent)
          else more fuel true left (finished sent)) in
      if ltb (length section) rem then fits else fills

  -- `sectionX`; the debug level changes nothing.
  unfoldable pub section : ℕ → List ℕ → M (Packetizer S) Packets
  section fuel bytes c =
      let padded : Packetizer S =
        fix_header false (afc_of c) (record c { packet = set c.packet (ts_packet_len - 1) 0xff }) in
      if c.payload_start == 0
      then more fuel false bytes c
      else if not c.pusi
      then (if leb (ts_packet_len - 1) c.payload_end
          then producing padded.packet (more fuel false bytes (finished padded))
          else (make_pointer >>= λ _. fill_begun fuel bytes) c)
      else fill_begun fuel bytes c

  unfoldable pub flush : M (Packetizer S) Packets
  flush c =
      let sent : Packetizer S = fix_header c.pusi (afc_of c) c in
      let fill : Outcome (Packets × Packetizer S) =
        bind (overwrite sent.packet c.payload_end (replicate (ts_packet_len - c.payload_end) 0xff))
          λ packet. ok (packet ∷ [], finished (record sent { packet = packet })) in
      if c.payload_start == 0 then ok ([], c) else fill
