-- ===== src/Psi/Transport/Rounds.antt =====
-- One packet of `sec2ts_impl`, filled and taken.
use mathlib.Core.Path.{subst}
use mopa.Base.{
  ℕ, suc, ◌<◌, ◌≤◌, ◌≡◌, refl, sym, ap, ◌∙◌, arith, List, [], ◌∷◌, ◌++◌, Bool, true, false, length,
  take, drop, ◌==◌, if◌then◌else◌, append_assoc, append-nil, length-append, length-take,
  take-append-drop, Outcome, ok, bind,
}
use mopa.Psi.Extractor.{Memcpy, wait_more, Extractor, Sections, ts_packet}
use mopa.Psi.Extractor.Whole.{join}
use mopa.Psi.Transport.Lengths.{
  CopiesInPlace, IsSent-IsSection, AllSent-AllSections, IsSent, AllSent, none_sent,
}
use mopa.Psi.Packetizer.{
  Packetizer, Packets, copy, producing, next_cc, finished, fix_header, afc_of,
}
use mopa.Psi.Packetizer.Copying.{fix_header-IsPacket, copied, copy_fits, length-overwrite}
use mopa.Psi.Transport.Header.{header, fix_header_lem}
use mopa.Psi.Transport.Reception.{held, held_open, after, completed, unfinished}
use mopa.Psi.Transport.Layout.{drop_whole}
use mopa.Psi.Transport.Arrival.{Awaits, part_arrives}
use mopa.Psi.Transport.Link.{
  Fits, finished-Fits, Begun, idle, Delivers, Delivers-producing, Delivers-nothing,
}
use mopa.Psi.Transport.Copying.{Begun-copied}

-- A section of which the extractor has the bytes in front of `bytes`.
pub record Resumes {S : Type 0} (c : Packetizer S) (e : Extractor) (s bytes : List ℕ) : Type 0 where
  pub fits : Fits c
  pub unset : c.pusi ≡ false
  pub set : e.callback_set ≡ true
  pub one : IsSent e.max_section_size s
  pub waits : e.state ≡ wait_more
  pub in_turn : next_cc e.cc ≡ c.cc
  pub whole : e.content ++ bytes ≡ s
  pub some_byte : 0 < length bytes

-- The section behind a full packet.
unsent : List ℕ → List ℕ → Sections
unsent s [] = []
unsent s (b ∷ bs) = s ∷ []

completed-unsent : (s rest : List ℕ) → completed s rest ++ unsent s rest ≡ s ∷ []
unfolding unsent
completed-unsent s [] = refl
completed-unsent s (b ∷ bs) = refl

some_left : (n : ℕ) → (suc n == 0) ≡ false
some_left n = ground arith

-- What follows a packet that is full.
next_packet :
    ⦃m : Memcpy⦄ {S : Type 0} (c : Packetizer S) (again : Outcome (Packets × Packetizer S))
    (e : Extractor) (s t rest : List ℕ)
    → Fits c
    → c.payload_start ≡ 0
    → c.pusi ≡ false
    → e.callback_set ≡ true
    → IsSent e.max_section_size s
    → e.state ≡ after rest
    → held e ≡ unfinished t rest
    → next_cc e.cc ≡ c.cc
    → t ++ rest ≡ s
    → (Resumes c e s rest → Delivers again e (s ∷ []))
    → Delivers (if length rest == 0 then ok ([], c) else again) e (unsent s rest)
unfolding unsent
next_packet c again e s t [] fits start unset set one waits held_is in_turn whole resume =
    Delivers-nothing c e []
      record { fits = fits; set = set; all = none_sent; phase = idle start unset waits refl }
next_packet c again e s t (b ∷ bs) fits start unset set one waits held_is in_turn whole resume =
    rw (some_left (length bs)) (
      resume record {
        fits = fits;
        unset = unset;
        set = set;
        one = one;
        waits = waits;
        in_turn = in_turn;
        whole = ap (λ x. x ++ b ∷ bs) (held_open e t waits held_is) ∙ whole;
        some_byte = omega arith;
      })

module _ ⦃m : Memcpy⦄ ⦃place : CopiesInPlace⦄ {S : Type 0} where
  pub afc_is : (c : Packetizer S) → c.payload_start ≡ 4 → afc_of c ≡ 1
  afc_is c start = rw start

  -- The packet that goes out when it is full.
  full_packet :
      (start : Bool) (g : Packetizer S → ℕ) (c : Packetizer S) (e : Extractor) (sent bytes : List ℕ)
      → Fits c
      → (b : Begun c e sent) → length bytes ≡ length b.free
      → (fix_header start
          (afc_of (copied bytes c))
          (record (copied bytes c) { payload_end = g (copied bytes c) })).packet
        ≡ header start 1 c.pid c.cc ++ b.pointer ++ (b.body ++ bytes)
  unfolding copied
  full_packet start g c e sent bytes fits b full =
      let d : Packetizer S = copied bytes c in
      let laid = Begun-copied c e sent bytes fits.size b (omega arith) in
      let size : length d.packet ≡ 188 =
        length-overwrite c.packet c.payload_end bytes (omega (arith, laid.0, fits.size))
        ∙ fits.size in
      fix_header_lem start (afc_of d) (record d { payload_end = g d }) (omega arith)
      ∙ ap (λ a. header start a c.pid c.cc ++ drop 4 d.packet) (afc_is d b.start)
      ∙ ap (λ x. header start 1 c.pid c.cc ++ x)
          (laid.1
            ∙ ap (λ x. (b.pointer ++ (b.body ++ bytes)) ++ x)
                (ap (λ k. drop k b.free) full ∙ drop_whole b.free)
            ∙ append-nil _)

  -- A section that fills the packet.
  pub fills_lem :
      (f : Packetizer S → Bool) (g : Packetizer S → ℕ) (n : ℕ) (c : Packetizer S) (e : Extractor)
      (pending : Sections) (s sent bytes : List ℕ)
      (again : Packetizer S → Outcome (Packets × Packetizer S))
      → Fits c
      → e.callback_set ≡ true
      → AllSent e.max_section_size pending
      → IsSent e.max_section_size s
      → (b : Begun c e (join pending ++ sent)) → c.pusi ≡ f (copied (take n bytes) c)
      → sent ++ bytes ≡ s
      → n ≡ length b.free
      → n ≤ length bytes
      → m.front (length (join pending)) (sent ++ take n bytes) ≡ sent ++ take n bytes
      → ((d : Packetizer S) (peer : Extractor)
          → Resumes (finished d) peer s (drop n bytes)
          → Delivers (again d) peer (s ∷ []))
      → Delivers
          (bind (copy (take n bytes) c) (λ (_, d).
            let full : Packetizer S =
              fix_header (f d) (afc_of d) (record d { payload_end = g d }) in
            producing full.packet
              (if length (drop n bytes) == 0 then ok ([], finished full) else again full)))
          e
          (pending ++ s ∷ [])
  unfolding copied fix_header
  fills_lem f g n c e pending s sent bytes again fits set all one b pusi whole room full copies
        resume =
      let t = take n bytes in
      let rest = drop n bytes in
      let some : length t ≡ n = omega (arith, length-take n bytes) in
      let laid = Begun-copied c e (join pending ++ sent) t fits.size b (omega arith) in
      let d : Packetizer S = copied t c in
      let start = f d in
      let sent_packet : Packetizer S =
        fix_header start (afc_of d) (record d { payload_end = g d }) in
      let whole' : (sent ++ t) ++ rest ≡ s =
        append_assoc sent t rest ∙ ap (λ x. sent ++ x) (take-append-drop n bytes) ∙ whole in
      let packet = full_packet start g c e (join pending ++ sent) t fits b (omega arith) in
      let parts =
        part_arrives start c.pid c.cc b.pointer b.kept (b.body ++ t) e pending s (sent ++ t) rest
          fits.pid_fits fits.cc_fits (subst (λ x. Awaits e x b.pointer c.cc b.kept) pusi b.awaits)
          (omega
            (arith, some, laid.0, b.end_is, length-append b.pointer b.body, length-append b.body t))
          set (AllSent-AllSections all) (IsSent-IsSection one)
          (sym (append_assoc b.kept b.body t)
            ∙ ap (λ x. x ++ t) b.so_far
            ∙ append_assoc (join pending) sent t)
          whole' (omega (arith, some, b.some_room, length-append sent t)) copies in
      let fixed =
        fix_header-IsPacket start (afc_of d) (record d { payload_end = g d })
          (length-overwrite c.packet c.payload_end t (omega (arith, laid.0, fits.size))
            ∙ fits.size) in
      let followed =
        next_packet (finished sent_packet) (again sent_packet) parts.next s (sent ++ t) rest
          (finished-Fits sent_packet
            record { size = fixed.size; pid_fits = fits.pid_fits; cc_fits = fits.cc_fits })
          refl refl (parts.still_set ∙ set) (subst (λ m. IsSent m s) (sym parts.same_limit) one)
          parts.state_is parts.held_is (ap next_cc parts.same_cc) whole'
          (resume sent_packet parts.next) in
      rw (copy_fits t c (omega (arith, laid.0))) (
        subst (Delivers _ e)
          (append_assoc pending (completed s rest) (unsent s rest)
            ∙ ap (λ x. pending ++ x) (completed-unsent s rest))
          (Delivers-producing sent_packet.packet _ e parts.next (pending ++ completed s rest)
            (unsent s rest) (ap (λ p. ts_packet p e) packet ∙ parts.returned) parts.same_limit
            followed))
