-- ===== src/Psi/Transport/Joining.antt =====
-- A packet of `sec2ts_impl` that stuffing ends, in the last byte before a section start or in `flush`.
use mathlib.Core.Path.{subst}
use mopa.Base.{
  ℕ, ◌+◌, ◌-◌, ◌<◌, ◌≤◌, ◌≡◌, refl, sym, ap, ◌∙◌, arith, none, List, [], ◌∷◌, ◌++◌, true, false,
  length, take, drop, set, append_assoc, append-nil, length-append, length-set, ok, bind, le→leb,
  overwrite, replicate,
}
use mopa.Psi.Extractor.{Memcpy, wait_start, Extractor, Sections, ts_packet}
use mopa.Psi.Extractor.Whole.{join}
use mopa.Psi.Transport.Lengths.{AllSent-AllSections, CopiesInPlace, IsSent, AllSent, none_sent}
use mopa.Psi.Packetizer.{Packetizer, producing, finished, fix_header, afc_of, more}
use mopa.Psi.Packetizer.Copying.{fix_header-IsPacket, length-overwrite}
use mopa.Psi.Transport.Header.{header, fix_header_lem}
use mopa.Psi.Transport.Reception.{Hands}
use mopa.Psi.Transport.Arrival.{stuffing_arrives}
use mopa.Psi.Transport.Layout.{set_last, stuff_behind, length-replicate}
use mopa.Psi.Transport.Link.{
  Fits, finished-Fits, Begun, idle, Delivers, Delivers-producing, Delivers-nothing,
}
use mopa.Psi.Transport.Rounds.{afc_is}
use mopa.Psi.Transport.Delivery.{first_lem, room_left}

module _ ⦃m : Memcpy⦄ ⦃place : CopiesInPlace⦄ {S : Type 0} where
  -- A packet that stuffing ends.
  pub stuffed_lem :
      (p : List ℕ) (c : Packetizer S) (e : Extractor) (pending : Sections) (stuffing : List ℕ)
      → Fits c
      → e.callback_set ≡ true
      → AllSent e.max_section_size pending
      → (b : Begun c e (join pending))
      → p ≡ header c.pusi 1 c.pid c.cc ++ b.pointer ++ (b.body ++ 255 ∷ stuffing)
      → length (b.body ++ 255 ∷ stuffing) ≤ 184
      → Hands (ts_packet p e) (record e { cc = c.cc }) (pending ++ []) wait_start []
  stuffed_lem p c e pending stuffing fits set' all b laid short =
      subst (λ x. Hands (ts_packet x e) (record e { cc = c.cc }) (pending ++ []) wait_start [])
        (sym laid)
        (stuffing_arrives c.pusi c.pid c.cc b.pointer b.kept (b.body ++ 255 ∷ stuffing) stuffing e
          pending fits.pid_fits fits.cc_fits b.awaits short set' (AllSent-AllSections all)
          (sym (append_assoc b.kept b.body (255 ∷ stuffing))
            ∙ ap (λ x. x ++ 255 ∷ stuffing) b.so_far))

  -- A packet that is one byte short of full goes out before the section.
  pub padded_lem :
      (fuel : ℕ) (s : List ℕ) (c : Packetizer S) (e : Extractor) (pending : Sections)
      → length s < fuel
      → Fits c
      → e.callback_set ≡ true
      → AllSent e.max_section_size pending
      → IsSent e.max_section_size s
      → c.pusi ≡ false
      → 187 ≤ c.payload_end
      → Begun c e (join pending)
      → Delivers
          (let padded : Packetizer S =
              fix_header false (afc_of c) (record c { packet = set c.packet 187 0xff }) in
            producing padded.packet (more none fuel false s (finished padded)))
          e
          (pending ++ s ∷ [])
  unfolding fix_header
  padded_lem fuel s c e pending h fits set' all one unset full b =
      let pre = b.pointer ++ b.body in
      let filled : Packetizer S = record c { packet = set c.packet 187 0xff } in
      let padded : Packetizer S = fix_header false (afc_of c) filled in
      let room = room_left c e _ fits b in
      let size : length filled.packet ≡ 188 = length-set c.packet 187 0xff ∙ fits.size in
      let laid : padded.packet ≡ header c.pusi 1 c.pid c.cc ++ b.pointer ++ (b.body ++ 255 ∷ []) =
        fix_header_lem false (afc_of c) filled (omega (arith, size))
        ∙ ap (λ a. header false a c.pid c.cc ++ drop 4 filled.packet) (afc_is c b.start)
        ∙ ap (λ x. header x 1 c.pid c.cc ++ drop 4 filled.packet) (sym unset)
        ∙ ap (λ x. header c.pusi 1 c.pid c.cc ++ x)
            (set_last c.packet pre b.free 0xff fits.size b.laid_out
                (omega (arith, room, b.some_room))
              ∙ append_assoc b.pointer b.body (255 ∷ [])) in
      let gone = stuffed_lem padded.packet c e pending [] fits set' all b laid (
        omega (
          arith,
          room,
          b.end_is,
          length-append b.pointer b.body,
          length-append b.body (255 ∷ []),
        )) in
      let fixed = fix_header-IsPacket false (afc_of c) filled size in
      let fits' : Fits padded = record {
        size = fixed.size;
        pid_fits = fits.pid_fits;
        cc_fits = fits.cc_fits;
      } in
      subst (Delivers _ e) (ap (λ x. x ++ s ∷ []) (append-nil pending)) (
        Delivers-producing padded.packet _ e gone.next (pending ++ []) (s ∷ []) gone.returned
          gone.same_limit
          (first_lem fuel s (finished padded) gone.next h (finished-Fits padded fits')
            (gone.still_set ∙ set') gone.state_is
            (subst (λ m. IsSent m s) (sym gone.same_limit) one)))

  -- The bytes of a packet that stuffing ends.
  stuffed_packet :
      (c : Packetizer S) (e : Extractor) (sent_bytes : List ℕ)
      → Fits c
      → (b : Begun c e sent_bytes)
      → (let sent : Packetizer S = fix_header c.pusi (afc_of c) c in
          let str = replicate {A = ℕ} (188 - c.payload_end) 0xff in
          take c.payload_end sent.packet ++ (str ++ drop (c.payload_end + length str) sent.packet))
        ≡ header c.pusi 1 c.pid c.cc
          ++ b.pointer
          ++ (b.body ++ 255 ∷ replicate (length b.free - 1) 255)
  stuffed_packet c e sent_bytes fits b =
      let pre = b.pointer ++ b.body in
      let sent : Packetizer S = fix_header c.pusi (afc_of c) c in
      let n : 188 - c.payload_end ≡ length b.free = omega (arith, room_left c e _ fits b) in
      let laid : sent.packet ≡ header c.pusi 1 c.pid c.cc ++ (pre ++ b.free) =
        fix_header_lem c.pusi (afc_of c) c (omega (arith, fits.size))
        ∙ ap (λ a. header c.pusi a c.pid c.cc ++ drop 4 c.packet) (afc_is c b.start)
        ∙ ap (λ x. header c.pusi 1 c.pid c.cc ++ x) b.laid_out in
      let str = replicate {A = ℕ} (188 - c.payload_end) 0xff in
      let size : length str ≡ length b.free = length-replicate (188 - c.payload_end) 0xff ∙ n in
      ap (λ x. take x sent.packet ++ (str ++ drop (x + length str) sent.packet)) b.end_is
      ∙ ap
          (λ x. take (4 + length pre) sent.packet ++ (str ++ drop (4 + length pre + x) sent.packet))
          size
      ∙ ap
          (λ x.
            take (4 + length pre) sent.packet
            ++ (replicate x 255 ++ drop (4 + length pre + length b.free) sent.packet))
          n
      ∙ ap
          (λ x.
            take (4 + length pre) x
            ++ (replicate (length b.free) 255 ++ drop (4 + length pre + length b.free) x))
          laid
      ∙ stuff_behind _ _ _ _ b.pointer b.body b.free b.some_room

  -- A packet that is begun goes out with stuffing up to its end.
  pub flushed_lem :
      (c : Packetizer S) (e : Extractor) (pending : Sections)
      → Fits c
      → e.callback_set ≡ true
      → AllSent e.max_section_size pending
      → Begun c e (join pending)
      → Delivers
          (let sent : Packetizer S = fix_header c.pusi (afc_of c) c in
            bind
              (overwrite sent.packet c.payload_end (replicate (188 - c.payload_end) 0xff))
              λ packet. ok (packet ∷ [], finished (record sent { packet = packet })))
          e
          pending
  unfolding fix_header overwrite
  flushed_lem c e pending fits set' all b =
      let sent : Packetizer S = fix_header c.pusi (afc_of c) c in
      let room = room_left c e _ fits b in
      let fixed = fix_header-IsPacket c.pusi (afc_of c) c fits.size in
      let str = replicate {A = ℕ} (188 - c.payload_end) 0xff in
      let size : length str ≡ length b.free =
        length-replicate (188 - c.payload_end) 0xff ∙ omega (arith, room) in
      let stuffing = replicate {A = ℕ} (length b.free - 1) 255 in
      let p =
        take c.payload_end sent.packet ++ (str ++ drop (c.payload_end + length str) sent.packet) in
      let filled : p ≡ header c.pusi 1 c.pid c.cc ++ b.pointer ++ (b.body ++ 255 ∷ stuffing) =
        stuffed_packet c e _ fits b in
      let gone = stuffed_lem p c e pending stuffing fits set' all b filled (
        omega (
          arith,
          room,
          b.end_is,
          b.some_room,
          length-append b.pointer b.body,
          length-append b.body (255 ∷ stuffing),
          length-replicate {A = ℕ} (length b.free - 1) 255,
        )) in
      let last : Packetizer S = record sent { packet = p } in
      let fits' : Fits last = record {
        size =
            length-overwrite sent.packet c.payload_end str (omega (arith, size, room, fixed.size))
            ∙ fixed.size;
        pid_fits = fits.pid_fits;
        cc_fits = fits.cc_fits;
      } in
      rw
        (le→leb (c.payload_end + length str) (length sent.packet)
          (omega (arith, size, room, fixed.size)))
        (subst (Delivers _ e) (append-nil (pending ++ []) ∙ append-nil pending) (
          Delivers-producing p _ e gone.next (pending ++ []) [] gone.returned gone.same_limit (
            Delivers-nothing (finished last) gone.next [] record {
              fits = finished-Fits last fits';
              set = gone.still_set ∙ set';
              all = none_sent;
              phase = idle refl refl gone.state_is refl;
            })))
