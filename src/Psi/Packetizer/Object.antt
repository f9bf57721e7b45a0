-- ===== src/Psi/Packetizer/Object.antt =====
-- src/sec2ts.cpp: a `sec2ts` as its callers have it, with its callbacks and its debug level.
-- The callback for the packets is a parameter, from its own state and a packet to its new state. It
-- shares no state with the one for the adaptation field.
use mopa.Base.{ℕ, Option, none, some, List, [], ◌∷◌, leb, if◌then◌else◌, Outcome, ok, fault, bind}
use mopa.Psi.Packetizer
use mopa.Psi.Packetizer.{Packetizer, Packets}
use mopa.Psi.Packetizer.Rounds.{Callback}

abbrev pub PacketCallback : Type 0 → Type 0
PacketCallback T = T → List ℕ → T

-- `section_impl` is the level of the instance of `sectionX` that it points to. The context of the
-- adaptation callback is in `state`.
pub record Sec2ts (S T : Type 0) : Type 0 where
  pub state : Packetizer S
  pub on_packet_produced_cb : Option (PacketCallback T)
  pub on_packet_produced_ctx : T
  pub on_adaptation_field_cb : Option (Callback S)
  pub section_impl : ℕ
  pub dbg_level : ℕ

module _ {T : Type 0} where
  -- The packets go to the callback one by one. A call of a null pointer is undefined.
  unfoldable pub hand_out : Option (PacketCallback T) → T → Packets → Outcome T
  hand_out callback t [] = ok t
  hand_out none t (p ∷ ps) = fault
  hand_out (some f) t (p ∷ ps) = hand_out (some f) (f t p) ps

module _ {S T : Type 0} where
  -- `sec2ts::create`. The contexts, which are null, are arguments.
  unfoldable pub create : S → T → Sec2ts S T
  create s t = record {
    state = Packetizer.create s;
    on_packet_produced_cb = none;
    on_packet_produced_ctx = t;
    on_adaptation_field_cb = none;
    section_impl = 0;
    dbg_level = 0;
  }

  unfoldable pub produced :
      Sec2ts S T → Outcome (Packets × Packetizer S) → Outcome (Unit {0} × Sec2ts S T)
  unfolding hand_out
  produced x r = bind r λ (packets, c).
      bind (hand_out x.on_packet_produced_cb x.on_packet_produced_ctx packets)
        λ t. ok (tt, record x { state = c; on_packet_produced_ctx = t })

  -- `sectionX<level>`, the same code for each level.
  abbrev section_x : ℕ → ℕ → List ℕ → Sec2ts S T → Outcome (Unit {0} × Sec2ts S T)
  section_x level fuel bytes x =
      produced x (Packetizer.section x.on_adaptation_field_cb fuel bytes x.state)

  unfoldable pub section : ℕ → List ℕ → Sec2ts S T → Outcome (Unit {0} × Sec2ts S T)
  unfolding produced
  section fuel bytes x = section_x x.section_impl fuel bytes x

  unfoldable pub flush : Sec2ts S T → Outcome (Unit {0} × Sec2ts S T)
  unfolding produced
  flush x = produced x (Packetizer.flush x.on_adaptation_field_cb x.state)

  unfoldable pub set_pid : ℕ → Sec2ts S T → Sec2ts S T
  set_pid pid x = record x { state = Packetizer.set_pid pid x.state }

  -- A level above 5 is ignored.
  unfoldable pub set_dbg_level : ℕ → Sec2ts S T → Sec2ts S T
  set_dbg_level level x =
      if leb level 5 then record x { dbg_level = level; section_impl = level } else x

  unfoldable pub on_adaptation_field : S → Option (Callback S) → Sec2ts S T → Sec2ts S T
  on_adaptation_field ctx callback x = record x {
    state = record x.state { adaptation_ctx = ctx };
    on_adaptation_field_cb = callback;
  }

  unfoldable pub on_ts_packet_produced : T → Option (PacketCallback T) → Sec2ts S T → Sec2ts S T
  on_ts_packet_produced ctx callback x = record x {
    on_packet_produced_ctx = ctx;
    on_packet_produced_cb = callback;
  }

-- A call on the object, with the fuel of a section.
pub data Call (S T : Type 0) : Type 0 where
  call_section : ℕ → List ℕ → Call S T
  call_flush : Call S T
  call_set_pid call_set_dbg_level : ℕ → Call S T
  call_on_adaptation_field : S → Option (Callback S) → Call S T
  call_on_ts_packet_produced : T → Option (PacketCallback T) → Call S T

module _ {S T : Type 0} where
  unfoldable pub run_call : Call S T → Sec2ts S T → Outcome (Unit {0} × Sec2ts S T)
  run_call (call_section fuel bytes) x = section fuel bytes x
  run_call call_flush x = flush x
  run_call (call_set_pid pid) x = ok (tt, set_pid pid x)
  run_call (call_set_dbg_level level) x = ok (tt, set_dbg_level level x)
  run_call (call_on_adaptation_field ctx callback) x = ok (tt, on_adaptation_field ctx callback x)
  run_call (call_on_ts_packet_produced ctx callback) x =
      ok (tt, on_ts_packet_produced ctx callback x)

  unfoldable pub run_calls : List (Call S T) → Sec2ts S T → Outcome (Unit {0} × Sec2ts S T)
  run_calls [] x = ok (tt, x)
  run_calls (call ∷ calls) x = bind (run_call call x) λ (_, y). run_calls calls y
