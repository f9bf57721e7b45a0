-- ===== src/Psi/Transport/Link.antt =====
-- A `sec2ts_impl` and the `psi_extractor_impl` that takes its packets, between two of them.
use mopa.Base.{
  ℕ, ◌+◌, ◌^◌, ◌<◌, ◌≡◌, refl, sym, ap, ◌∙◌, arith, List, [], ◌∷◌, ◌++◌, true, false, length, drop,
  append_assoc, append-nil, Outcome, ok, bind,
}
use mopa.Bits.{and_mask}
use mopa.Psi.Extractor.{Memcpy, wait_start, Extractor, Sections, ts_packet}
use mopa.Psi.Extractor.Whole.{join}
use mopa.Psi.Transport.Lengths.{IsSent, AllSent, none_sent, one_sent}
use mopa.Psi.Packetizer.{Packetizer, Packets, producing, finished}
use mopa.Psi.Transport.{receive}
use mopa.Psi.Transport.Parts.{receive-append, then_receive}
use mopa.Psi.Transport.Arrival.{Awaits}

-- What does not change from packet to packet.
pub record Fits {S : Type 0} (c : Packetizer S) : Type 0 where
  pub size : length c.packet ≡ 188
  pub pid_fits : c.pid < 2 ^ 13
  pub cc_fits : c.cc < 16

-- A packet that is begun: `body`, behind its pointer field, continues what the extractor has.
pub record Begun {S : Type 0} (c : Packetizer S) (e : Extractor) (sent : List ℕ) : Type 0 where
  pub start : c.payload_start ≡ 4
  pub pointer : List ℕ
  pub kept : List ℕ
  pub body : List ℕ
  pub free : List ℕ
  pub laid_out : drop 4 c.packet ≡ (pointer ++ body) ++ free
  pub end_is : c.payload_end ≡ 4 + length (pointer ++ body)
  pub some_room : 0 < length free
  pub awaits : Awaits e c.pusi pointer c.cc kept
  pub so_far : kept ++ body ≡ sent

pub data Phase {S : Type 0} (c : Packetizer S) (e : Extractor) (pending : Sections) : Type 0 where
  idle :
      c.payload_start ≡ 0 → c.pusi ≡ false → e.state ≡ wait_start → pending ≡ [] → Phase c e pending
  busy : Begun c e (join pending) → Phase c e pending

-- `pending`: the sections given to the packetizer of which the extractor has not got the end.
pub record Link {S : Type 0} (c : Packetizer S) (e : Extractor) (pending : Sections) : Type 0 where
  pub fits : Fits c
  pub set : e.callback_set ≡ true
  pub all : AllSent e.max_section_size pending
  pub phase : Phase c e pending

module _ ⦃m : Memcpy⦄ where
  -- What a call on the packetizer makes the extractor hand over, from `sections` on.
  pub record Delivers {S : Type 0} (r : Outcome (Packets × Packetizer S)) (e : Extractor)
      (sections : Sections) : Type 0 where
    pub packets : Packets
    pub next : Packetizer S
    pub returned : r ≡ ok (packets, next)
    pub handed : Sections
    pub peer : Extractor
    pub received : receive packets e ≡ ok (handed, peer)
    pub same_limit : peer.max_section_size ≡ e.max_section_size
    pub pending : Sections
    pub linked : Link next peer pending
    pub in_order : handed ++ pending ≡ sections

  pub Delivers-producing :
      {S : Type 0} (p : List ℕ) (r : Outcome (Packets × Packetizer S)) (e d : Extractor)
      (first rest : Sections)
      → ts_packet p e ≡ ok (first, d)
      → d.max_section_size ≡ e.max_section_size
      → Delivers r d rest
      → Delivers (producing p r) e (first ++ rest)
  unfolding receive
  Delivers-producing p r e d first rest taken limit next = record {
    packets = p ∷ next.packets;
    next = next.next;
    returned = rw next.returned;
    handed = first ++ next.handed;
    peer = next.peer;
    received = rw (taken, next.received);
    same_limit = next.same_limit ∙ limit;
    pending = next.pending;
    linked = next.linked;
    in_order = append_assoc first next.handed next.pending ∙ ap (λ ss. first ++ ss) next.in_order;
  }

  pub Delivers-nothing :
      {S : Type 0} (c : Packetizer S) (e : Extractor) (pending : Sections)
      → Link c e pending
      → Delivers (ok ([], c)) e pending
  unfolding receive
  Delivers-nothing c e pending linked = record {
    packets = [];
    next = c;
    returned = refl;
    handed = [];
    peer = e;
    received = refl;
    same_limit = refl;
    pending = pending;
    linked = linked;
    in_order = refl;
  }

  pub AllSent-append :
      (limit : ℕ) (ss : Sections) (s : List ℕ)
      → AllSent limit ss
      → IsSent limit s
      → AllSent limit (ss ++ s ∷ [])
  AllSent-append limit [] s none_sent one = one_sent one none_sent
  AllSent-append limit (t ∷ ss) s (one_sent first all) one =
      one_sent first (AllSent-append limit ss s all one)

  pub join-append : (ss : Sections) (s : List ℕ) → join (ss ++ s ∷ []) ≡ join ss ++ s
  unfolding join
  join-append [] s = append-nil s
  join-append (t ∷ ss) s = ap (λ x. t ++ x) (join-append ss s) ∙ sym (append_assoc t (join ss) s)

  pub finished-Fits : {S : Type 0} (c : Packetizer S) → Fits c → Fits (finished c)
  finished-Fits c fits = record {
    size = fits.size;
    pid_fits = fits.pid_fits;
    cc_fits = omega (arith, and_mask 4 (c.cc + 1));
  }

  -- A call, and what the next one does from the state that it leaves.
  pub Delivers-bind :
      {S : Type 0} (r : Outcome (Packets × Packetizer S))
      (k : Packetizer S → Outcome (Packets × Packetizer S)) (e : Extractor)
      (sections more : Sections)
      → Delivers r e sections
      → ((c : Packetizer S) (d : Extractor) (pending : Sections)
          → d.max_section_size ≡ e.max_section_size
          → Link c d pending
          → Delivers (k c) d (pending ++ more))
      → Delivers (bind r λ (ps, c). bind (k c) λ (qs, d). ok (ps ++ qs, d)) e (sections ++ more)
  unfolding then_receive
  Delivers-bind r k e sections more first next =
      let second = next first.next first.peer first.pending first.same_limit first.linked in
      record {
        packets = first.packets ++ second.packets;
        next = second.next;
        returned = rw (first.returned, second.returned);
        handed = first.handed ++ second.handed;
        peer = second.peer;
        received =
            receive-append first.packets second.packets e ∙ rw (first.received, second.received);
        same_limit = second.same_limit ∙ first.same_limit;
        pending = second.pending;
        linked = second.linked;
        in_order =
            append_assoc first.handed second.handed second.pending
            ∙ ap (λ x. first.handed ++ x) second.in_order
            ∙ sym (append_assoc first.handed first.pending more)
            ∙ ap (λ x. x ++ more) first.in_order;
      }
