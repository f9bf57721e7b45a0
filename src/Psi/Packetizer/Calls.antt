-- ===== src/Psi/Packetizer/Calls.antt =====
-- Sequences of calls on a `sec2ts`.
use mopa.Base.{
  ℕ, zero, suc, ◌+◌, ◌-◌, ◌*◌, ◌<◌, ◌≤◌, ◌≡◌, inl, inr, refl, ap, ◌∙◌, arith, Option, none, some,
  List, [], ◌∷◌, ◌++◌, leb, ◌==◌, length, take, drop, replicate, get_or, overwrite, Outcome, ok,
  bind, le→leb, if_elim,
}
use mopa.Psi.Packetizer
use mopa.Psi.Packetizer.{Packetizer, Packets, fix_header, afc_of, finished}
use mopa.Psi.Packetizer.Copying.{
  IsPacket, AllPackets, none_left, one_more, IsValid, ReturnsWith, length-overwrite,
  fix_header-IsPacket,
}
use mopa.Psi.Packetizer.Rounds.{Callback, Polite, Bounded, fix_header_ctx}
use mopa.Psi.Packetizer.Safety.{section-ReturnsWith}
use mopa.Psi.Packetizer.Object.{
  PacketCallback, Sec2ts, create, hand_out, produced, section, flush, set_pid, set_dbg_level,
  on_adaptation_field, on_ts_packet_produced, Call, call_section, call_flush, call_set_pid,
  call_set_dbg_level, call_on_adaptation_field, call_on_ts_packet_produced, run_call, run_calls,
}

first_kept :
    (at : ℕ) (bytes rest : List ℕ)
    → 0 < at
    → 0 < length bytes
    → get_or (take at bytes ++ rest) 0 0 ≡ get_or bytes 0 0
first_kept zero bytes rest h j = elim h [ ]
first_kept (suc at) [] rest h j = elim j [ ]
first_kept (suc at) (b ∷ bytes) rest h j = refl

length-replicate : (n : ℕ) (b : ℕ) → length (replicate n b) ≡ n
length-replicate zero b = refl
length-replicate (suc n) b = ap suc (length-replicate n b)

module _ {S : Type 0} (number : S → ℕ) (most : ℕ) where
  -- A packet that is begun is filled up and goes out.
  filled-Returns :
      (callback : Option (Callback S)) (c : Packetizer S)
      → Bounded number most c.adaptation_ctx
      → length c.packet ≡ 188
      → 4 ≤ c.payload_end
      → c.payload_end < 188
      → (let sent = fix_header c.pusi (afc_of c) c in
          ReturnsWith (Bounded number most) (
            bind
              (overwrite sent.packet c.payload_end (replicate (188 - c.payload_end) 0xff))
              λ packet. ok (packet ∷ [], finished (record sent { packet = packet }))))
  unfolding overwrite
  filled-Returns callback c low size start room =
      let sent = fix_header c.pusi (afc_of c) c in
      let one = fix_header-IsPacket c.pusi (afc_of c) c size in
      let pad : List ℕ = replicate (188 - c.payload_end) 0xff in
      let long : length pad ≡ 188 - c.payload_end = length-replicate (188 - c.payload_end) 0xff in
      let fits : c.payload_end + length pad ≤ length sent.packet = omega (arith, long, one.size) in
      let packet : List ℕ =
        take c.payload_end sent.packet ++ (pad ++ drop (c.payload_end + length pad) sent.packet) in
      let whole : IsPacket packet = record {
        size = length-overwrite sent.packet c.payload_end pad fits ∙ one.size;
        sync_byte =
            first_kept c.payload_end sent.packet
              (pad ++ drop (c.payload_end + length pad) sent.packet) (omega (arith, start))
              (omega (arith, one.size))
            ∙ one.sync_byte;
      } in
      record {
        packets = packet ∷ [];
        next = finished (record sent { packet = packet });
        returned = rw (le→leb (c.payload_end + length pad) (length sent.packet) fits) refl;
        packets-AllPackets = one_more whole none_left;
        next-IsValid = record { size = whole.size; begun = inl refl };
        next_ctx = omega (arith, low, ap number (fix_header_ctx number most c.pusi (afc_of c) c));
      }

  flush-ReturnsWith :
      (callback : Option (Callback S)) (c : Packetizer S)
      → Bounded number most c.adaptation_ctx
      → IsValid c
      → ReturnsWith (Bounded number most) (Packetizer.flush callback c)
  unfolding Packetizer.flush
  flush-ReturnsWith callback c low valid =
      if_elim (ReturnsWith (Bounded number most)) (c.payload_start == 0) _ _
        (λ _. record {
          packets = [];
          next = c;
          returned = refl;
          packets-AllPackets = none_left;
          next-IsValid = valid;
          next_ctx = low;
        })
        (λ some_begun. elim valid.begun [
          | inl e ↦ absurd (ground arith)
          | inr e ↦ filled-Returns callback c low valid.size (omega (arith, e.0, e.1)) e.2
        ])

module _ {S T : Type 0} (number : S → ℕ) (most : ℕ) (P : T → Type 0) where
  -- A callback for packets that keeps what holds of its state, given whole packets.
  abbrev pub Keeps : PacketCallback T → Type 0
  Keeps f = (t : T) (p : List ℕ) → IsPacket p → P t → P (f t p)

  abbrev Receives : Option (PacketCallback T) → Type 0
  Receives none = ⊥
  Receives (some f) = Keeps f

  record IsReady (x : Sec2ts S T) : Type 0 where
    valid : IsValid x.state
    bounded : Bounded number most x.state.adaptation_ctx
    polite : Polite number most x.on_adaptation_field_cb
    receives : Receives x.on_packet_produced_cb
    holds : P x.on_packet_produced_ctx

  -- A section has its fuel, a callback for the adaptation field is polite, and one for packets is not
  -- null.
  abbrev pub GoodCall : Call S T → Type 0
  GoodCall (call_section fuel bytes) = length bytes * suc most + most < fuel
  GoodCall call_flush = Unit
  GoodCall (call_set_pid pid) = Unit
  GoodCall (call_set_dbg_level level) = Unit
  GoodCall (call_on_adaptation_field ctx callback) =
      (number ctx ≤ most) × Polite number most callback
  GoodCall (call_on_ts_packet_produced ctx none) = ⊥
  GoodCall (call_on_ts_packet_produced ctx (some f)) = P ctx × Keeps f

  abbrev pub GoodCalls : List (Call S T) → Type 0
  GoodCalls [] = Unit
  GoodCalls (call ∷ calls) = GoodCall call × GoodCalls calls

  abbrev Ready : Outcome (Unit {0} × Sec2ts S T) → Type 0
  Ready r = (y : Sec2ts S T) × (r ≡ ok (tt, y)) × IsReady y

  -- Whole packets are handed out.
  hand_out_lem :
      (callback : Option (PacketCallback T)) (t : T) (ps : Packets)
      → Receives callback
      → P t
      → AllPackets ps
      → (t' : T) × (hand_out callback t ps ≡ ok t') × P t'
  unfolding hand_out
  hand_out_lem callback t [] receives holds all = (t, refl, holds)
  hand_out_lem none t (p ∷ ps) receives holds all = elim receives [ ]
  hand_out_lem (some f) t (p ∷ ps) receives holds (one_more one all) =
      hand_out_lem (some f) (f t p) ps receives (receives t p one holds) all

  produced-Ready :
      (x : Sec2ts S T) (r : Outcome (Packets × Packetizer S))
      → IsReady x
      → ReturnsWith (Bounded number most) r
      → Ready (produced x r)
  unfolding produced
  produced-Ready x r ready ret =
      let (t, handed, holds) =
        hand_out_lem x.on_packet_produced_cb x.on_packet_produced_ctx ret.packets ready.receives
          ready.holds ret.packets-AllPackets in
      (
        record x { state = ret.next; on_packet_produced_ctx = t },
        rw (ret.returned, handed) refl,
        record {
          valid = ret.next-IsValid;
          bounded = ret.next_ctx;
          polite = ready.polite;
          receives = ready.receives;
          holds = holds;
        },
      )

  run_call-Ready :
      (call : Call S T) (x : Sec2ts S T) → IsReady x → GoodCall call → Ready (run_call call x)
  unfolding run_call section flush set_pid set_dbg_level on_adaptation_field on_ts_packet_produced
      Packetizer.set_pid
  run_call-Ready (call_section fuel bytes) x ready good = produced-Ready x _ ready (
      section-ReturnsWith number most x.on_adaptation_field_cb ready.polite fuel bytes x.state
        (omega (arith, good, ready.bounded)) ready.bounded ready.valid)
  run_call-Ready call_flush x ready good =
      produced-Ready x _ ready
        (flush-ReturnsWith number most x.on_adaptation_field_cb x.state ready.bounded ready.valid)
  run_call-Ready (call_set_pid pid) x ready good = (
    set_pid pid x,
    refl,
    record {
      valid = record { size = ready.valid.size; begun = ready.valid.begun };
      bounded = ready.bounded;
      polite = ready.polite;
      receives = ready.receives;
      holds = ready.holds;
    },
  )
  run_call-Ready (call_set_dbg_level level) x ready good =
      if_elim (λ y. Ready (ok (tt, y))) (leb level 5) _ _
        (λ _. (
          _,
          refl,
          record {
            valid = ready.valid;
            bounded = ready.bounded;
            polite = ready.polite;
            receives = ready.receives;
            holds = ready.holds;
          },
        ))
        (λ _. (x, refl, ready))
  run_call-Ready (call_on_adaptation_field ctx callback) x ready good = (
    on_adaptation_field ctx callback x,
    refl,
    record {
      valid = record { size = ready.valid.size; begun = ready.valid.begun };
      bounded = good.0;
      polite = good.1;
      receives = ready.receives;
      holds = ready.holds;
    },
  )
  run_call-Ready (call_on_ts_packet_produced ctx none) x ready good = elim good [ ]
  run_call-Ready (call_on_ts_packet_produced ctx (some f)) x ready good = (
    on_ts_packet_produced ctx (some f) x,
    refl,
    record {
      valid = ready.valid;
      bounded = ready.bounded;
      polite = ready.polite;
      receives = good.1;
      holds = good.0;
    },
  )

  run_calls-Ready :
      (calls : List (Call S T)) (x : Sec2ts S T)
      → IsReady x
      → GoodCalls calls
      → Ready (run_calls calls x)
  unfolding run_calls
  run_calls-Ready [] x ready good = (x, refl, ready)
  run_calls-Ready (call ∷ calls) x ready good =
      let (y, ran, next) = run_call-Ready call x ready good.0 in
      rw ran (run_calls-Ready calls y next good.1)

  -- All calls on a `sec2ts` return. A new one is given a callback for its packets, and then any
  -- sequence of sections, flushes, pids, debug levels and callbacks; those for packets are not null,
  -- and those for the adaptation field are polite: they leave the packet at 188 bytes, take no more
  -- than their room, and a number of their state, at most `most`, falls whenever their field leaves no
  -- payload. Each section has more rounds of fuel than `most + 1` for each of its bytes and `most`.
  -- Then the calls return with no access out of bounds, and whatever holds of the state of the
  -- callback for packets at the start, and is kept by the callback on packets of 188 bytes that start
  -- with the sync byte, holds at the end.
  pub run_calls_lem :
      (s : S) (t0 t : T) (f : PacketCallback T) (calls : List (Call S T))
      → number s ≤ most
      → P t
      → Keeps f
      → GoodCalls calls
      → (y : Sec2ts S T) × (run_calls (call_on_ts_packet_produced t (some f) ∷ calls) (create s t0)
          ≡ ok (tt, y))
        × P y.on_packet_produced_ctx
  unfolding run_calls run_call create on_ts_packet_produced Packetizer.create
  run_calls_lem s t0 t f calls low holds keeps good =
      let x : Sec2ts S T = on_ts_packet_produced t (some f) (create s t0) in
      let (y, ran, ready) =
        run_calls-Ready calls x
          record {
            valid = record { size = refl; begun = inl refl };
            bounded = low;
            polite = tt;
            receives = keeps;
            holds = holds;
          }
          good in
      (y, ran, ready.holds)
