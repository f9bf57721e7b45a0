-- ===== src/Psi/Transport/RoundTrip.antt =====
-- Sections through `sec2ts::section` and `flush`, and its packets through `psi_extractor::ts_packet`.
use mathlib.Core.Path.{subst}
use mopa.Base.{
  ℕ, suc, ◌≡◌, refl, sym, ap, ◌∙◌, arith, none, List, [], ◌∷◌, ◌++◌, Bool, true, false, length, leb,
  not, ◌==◌, if◌then◌else◌, append_assoc, append-nil, Outcome, ok, throw, fault, out_of_fuel, bind,
  ==_iff, if_elim, leb→gt, leb→le, overwrite,
}
use mopa.Psi.Extractor.{Memcpy, wait_start, Extractor, Sections}
use mopa.Psi.Transport.Lengths.{CopiesInPlace, IsSent, AllSent, none_sent, one_sent}
use mopa.Psi.Packetizer.{Packetizer, Packets, finished, fix_header, afc_of, more, section, flush}
use mopa.Psi.Extractor.Resuming.{undo_not}
use mopa.Psi.Packetizer.Copying.{cleared}
use mopa.Psi.Transport.Link.{Fits, Link, idle, busy, Delivers, Delivers-nothing, Delivers-bind}
use mopa.Psi.Transport.Delivery.{first_lem, behind_lem}
use mopa.Psi.Transport.Joining.{flushed_lem, padded_lem}
use mopa.Psi.Transport.Pointing.{pointed_lem}
use mopa.Psi.Transport.{send, transmit, relay}

module _ ⦃m : Memcpy⦄ ⦃place : CopiesInPlace⦄ {S : Type 0} where
  -- One section more.
  section_lem :
      (s : List ℕ) (c : Packetizer S) (e : Extractor) (pending : Sections)
      → Link c e pending
      → IsSent e.max_section_size s
      → Delivers (section none (suc (length s)) s c) e (pending ++ s ∷ [])
  unfolding section
  section_lem s c e pending x one =
      if_elim (λ r. Delivers {S = S} r e (pending ++ s ∷ [])) (c.payload_start == 0) _ _
        (λ none_begun. elim x.phase [
          | idle start unset waits nothing ↦
              subst (λ ss. Delivers {S = S} (more none fuel false s c) e (ss ++ s ∷ []))
                (sym nothing) (first_lem fuel s c e (omega arith) x.fits x.set waits one)
          | busy b ↦ absurd (ground (arith, b.start))
        ])
        (λ begun. elim x.phase [
          | idle start unset waits nothing ↦ absurd (ground arith)
          | busy b ↦
              if_elim (λ r. Delivers {S = S} r e (pending ++ s ∷ [])) (not c.pusi) _ _
                (λ unset.
                  if_elim (λ r. Delivers {S = S} r e (pending ++ s ∷ [])) (leb 187 c.payload_end) _
                    _
                    (λ full.
                      padded_lem fuel s c e pending (omega arith) x.fits x.set x.all one
                        (cleared c.pusi unset) (leb→le _ _ full) b)
                    (λ room.
                      pointed_lem fuel s c e pending (omega arith) x.fits x.set x.all one
                        (cleared c.pusi unset) (leb→gt _ _ room) b))
                (λ pointed.
                  behind_lem fuel s c e pending (omega arith) x.fits x.set x.all one
                    (undo_not c.pusi pointed) b)
        ])
    where
      fuel : ℕ
      fuel = suc (length s)

  -- The packet that is begun goes out.
  flush_lem :
      (c : Packetizer S) (e : Extractor) (pending : Sections)
      → Link c e pending
      → Delivers (flush none c) e pending
  unfolding flush
  flush_lem c e pending x =
      if_elim (λ r. Delivers {S = S} r e pending) (c.payload_start == 0) _ _
        (λ none_begun. Delivers-nothing c e pending x)
        (λ begun. elim x.phase [
          | idle start unset waits nothing ↦ absurd (ground arith)
          | busy b ↦ flushed_lem c e pending x.fits x.set x.all b
        ])

  send_lem :
      (ss : Sections) (c : Packetizer S) (e : Extractor) (pending : Sections)
      → Link c e pending
      → AllSent e.max_section_size ss
      → Delivers (send ss c) e (pending ++ ss)
  unfolding send
  send_lem [] c e pending x none_sent =
      subst (Delivers (ok ([], c)) e) (sym (append-nil pending)) (Delivers-nothing c e pending x)
  send_lem (s ∷ ss) c e pending x (one_sent one all) =
      subst (Delivers _ e) (append_assoc pending (s ∷ []) ss) (
        Delivers-bind (section none (suc (length s)) s c) (send ss) e (pending ++ s ∷ []) ss
          (section_lem s c e pending x one)
          (λ d peer pend limit linked.
            send_lem ss d peer pend linked (subst (λ m. AllSent m ss) (sym limit) all)))

  -- No packet is begun.
  Settled : Outcome (Packets × Packetizer S) → Type 0
  Settled (ok (ps, c)) = c.payload_start ≡ 0
  Settled (throw e) = Unit
  Settled fault = Unit
  Settled out_of_fuel = Unit

  flush-Settled : (c : Packetizer S) → Settled (flush none c)
  unfolding flush overwrite Settled
  flush-Settled c =
      if_elim Settled (c.payload_start == 0) _ _ (λ e. (==_iff c.payload_start 0).0 e)
        (λ _.
          at_end (leb _ _) _
            (λ packet. record (fix_header c.pusi (afc_of c) c) { packet = packet }))
    where
      at_end :
          (b : Bool) (packet : List ℕ) (k : List ℕ → Packetizer S)
          → Settled (bind (if b then ok packet else fault) (λ p. ok (p ∷ [], finished (k p))))
      at_end true packet k = refl
      at_end false packet k = tt

  Settled-bind :
      (r : Outcome (Packets × Packetizer S)) (k : Packetizer S → Outcome (Packets × Packetizer S))
      → ((c : Packetizer S) → Settled (k c))
      → Settled (bind r λ (ps, c). bind (k c) λ (qs, d). ok (ps ++ qs, d))
  unfolding Settled
  Settled-bind (ok (ps, c)) k h = last (k c) (h c)
    where
      last :
          (q : Outcome (Packets × Packetizer S))
          → Settled q
          → Settled (bind q λ (qs, d). ok (ps ++ qs, d))
      last (ok (qs, d)) e = e
      last (throw x) e = tt
      last fault e = tt
      last out_of_fuel e = tt
  Settled-bind (throw e) k h = tt
  Settled-bind fault k h = tt
  Settled-bind out_of_fuel k h = tt

  nothing_pending :
      (c : Packetizer S) (e : Extractor) (pending : Sections)
      → Link c e pending
      → c.payload_start ≡ 0
      → pending ≡ []
  nothing_pending c e pending x start = elim x.phase [
    | idle z unset waits nothing ↦ nothing
    | busy b ↦ absurd (omega (arith, b.start))
  ]

-- With a `memcpy` that leaves bytes copied to where they are: a packetizer without an adaptation
-- callback that has no packet begun, with a packet buffer of 188 bytes, a pid of 13 bits and a counter
-- below 16, and an extractor that waits for the start of a section and has its callback set: of any
-- sequence of sections within the extractor's limit, of 184 bytes or more, whose length field says how
-- long they are and whose first byte is not stuffing, given to `sec2ts::section` one by one and
-- followed by `flush`, the extractor that takes the packets hands over exactly these sections, in
-- order. No call faults or runs out of fuel.
pub relay_lem :
    ⦃m : Memcpy⦄ ⦃place : CopiesInPlace⦄ {S : Type 0} (ss : Sections) (c : Packetizer S)
    (e : Extractor)
    → Fits c
    → c.payload_start ≡ 0
    → c.pusi ≡ false
    → e.state ≡ wait_start
    → e.callback_set ≡ true
    → AllSent e.max_section_size ss
    → relay ss c e ≡ ok ss
unfolding relay transmit Settled
relay_lem ss c e fits start unset waits set' all =
    let link : Link c e [] = record {
      fits = fits;
      set = set';
      all = none_sent;
      phase = idle start unset waits refl;
    } in
    let sent =
      Delivers-bind (send ss c) (flush none) e ss [] (send_lem ss c e [] link all)
        λ d peer pending limit linked.
          subst (Delivers (flush none d) peer) (sym (append-nil pending))
            (flush_lem d peer pending linked) in
    let settled =
      subst Settled sent.returned (Settled-bind (send ss c) (flush none) flush-Settled) in
    let nothing = nothing_pending sent.next sent.peer sent.pending sent.linked settled in
    rw (sent.returned, sent.received)
      (ap ok (
        sym (append-nil sent.handed)
        ∙ ap (λ x. sent.handed ++ x) (sym nothing)
        ∙ sent.in_order
        ∙ append-nil ss))
