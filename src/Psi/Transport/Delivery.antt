-- ===== src/Psi/Transport/Delivery.antt =====
-- `sec2ts::section` at one end of a transport stream and `psi_extractor::ts_packet` at the other.
use mathlib.Core.Path.{subst}
use mopa.Base.{
  ℕ, zero, suc, ◌+◌, ◌<◌, ◌≤◌, ◌≡◌, refl, sym, ap, ◌∙◌, arith, none, List, [], ◌∷◌, ◌++◌, true,
  false, length, drop, set, ltb, append-nil, length-append, length-drop, length-set, length-take,
  take, u8, sub32, if_elim, lt→leb, ltb→lt, ltb→le,
}
use mopa.Psi.Extractor.{Memcpy, wait_start, Extractor, Sections}
use mopa.Psi.Extractor.Whole.{join}
use mopa.Psi.Transport.Lengths.{
  alone_copies, part_copies, CopiesInPlace, IsSent, AllSent, none_sent,
}
use mopa.Psi.Packetizer.{Packetizer, finished, more, adaptation, fill_begun}
use mopa.Psi.Packetizer.Copying.{copied}
use mopa.Psi.Transport.Arrival.{Awaits, starts, continues}
use mopa.Psi.Transport.Link.{Fits, Begun, Delivers}
use mopa.Psi.Transport.Layout.{set_first}
use mopa.Psi.Transport.Rounds.{Resumes, fills_lem}
use mopa.Psi.Transport.Copying.{fits_lem}

module _ ⦃m : Memcpy⦄ ⦃place : CopiesInPlace⦄ {S : Type 0} where
  -- The rest of a section.
  pub rest_lem :
      (fuel : ℕ) (s bytes : List ℕ) (c : Packetizer S) (e : Extractor)
      → length bytes < fuel
      → Resumes c e s bytes
      → Delivers (more none fuel true bytes c) e (s ∷ [])
  unfolding more adaptation join copied
  rest_lem zero s bytes c e h x = absurd (omega arith)
  rest_lem (suc fuel) s bytes c e h x =
      let short : length e.content ≤ e.max_section_size =
        omega (arith, ap length x.whole, length-append e.content bytes, x.one.small) in
      let c' : Packetizer S = record c { payload_start = 4; payload_end = 4 } in
      let b : Begun c' e (join [] ++ e.content) = record {
        start = refl;
        pointer = [];
        kept = e.content;
        body = [];
        free = drop 4 c.packet;
        laid_out = refl;
        end_is = refl;
        some_room = omega (arith, x.fits.size, length-drop 4 c.packet);
        awaits =
            subst (λ p. Awaits e p [] c.cc e.content) (sym x.unset)
              (continues x.waits x.in_turn short);
        so_far = append-nil e.content;
      } in
      let fits' : Fits c' = record {
        size = x.fits.size;
        pid_fits = x.fits.pid_fits;
        cc_fits = x.fits.cc_fits;
      } in
      let room : length b.free ≡ 184 = omega (arith, x.fits.size, length-drop 4 c.packet) in
      if_elim (λ r. Delivers {S = S} r e (s ∷ [])) (ltb (length bytes) 184) _ _
        (λ few.
          fits_lem c' e [] s e.content bytes fits' x.set none_sent x.one b x.whole
            (omega (arith, room, ltb→lt _ _ few)))
        (λ many.
          fills_lem (λ d. d.pusi) (λ d. d.payload_end) 184 c' e [] s e.content bytes
            (λ d. more none fuel true (drop 184 bytes) (finished d)) fits' x.set none_sent x.one b
            refl x.whole (sym room) (ltb→le _ _ many) (alone_copies (e.content ++ take 184 bytes))
            (λ d peer resumes.
              rest_lem fuel s (drop 184 bytes) (finished d) peer
                (omega (arith, length-drop 184 bytes, ltb→le _ _ many)) resumes))

  -- A section while no packet is begun.
  pub first_lem :
      (fuel : ℕ) (s : List ℕ) (c : Packetizer S) (e : Extractor)
      → length s < fuel
      → Fits c
      → e.callback_set ≡ true
      → e.state ≡ wait_start
      → IsSent e.max_section_size s
      → Delivers (more none fuel false s c) e (s ∷ [])
  unfolding more adaptation join copied
  first_lem zero s c e h fits set waits one = absurd (omega arith)
  first_lem (suc fuel) s c e h fits set' waits one =
      let c' : Packetizer S = record c {
        packet = set c.packet 4 0;
        pusi = true;
        payload_start = 4;
        payload_end = 5;
      } in
      let size : length (set c.packet 4 0) ≡ 188 = length-set c.packet 4 0 ∙ fits.size in
      let b : Begun c' e (join [] ++ []) = record {
        start = refl;
        pointer = 0 ∷ [];
        kept = [];
        body = [];
        free = drop 5 c.packet;
        laid_out = set_first c.packet 0 (omega (arith, fits.size));
        end_is = refl;
        some_room = omega (arith, fits.size, length-drop 5 c.packet);
        awaits = starts waits;
        so_far = refl;
      } in
      let fits' : Fits c' = record {
        size = size;
        pid_fits = fits.pid_fits;
        cc_fits = fits.cc_fits;
      } in
      let room : length b.free ≡ 183 = omega (arith, fits.size, length-drop 5 c.packet) in
      rw (lt→leb (length c.packet) 4 (omega (arith, fits.size))) (
        if_elim (λ r. Delivers {S = S} r e (s ∷ [])) (ltb (length s) 183) _ _
          (λ few.
            fits_lem c' e [] s [] s fits' set' none_sent one b refl
              (omega (arith, room, ltb→lt _ _ few)))
          (λ many.
            fills_lem (λ d. d.pusi) (λ d. d.payload_end) 183 c' e [] s [] s
              (λ d. more none fuel true (drop 183 s) (finished d)) fits' set' none_sent one b refl
              refl (sym room) (ltb→le _ _ many) (alone_copies (take 183 s))
              (λ d peer resumes.
                rest_lem fuel s (drop 183 s) (finished d) peer
                  (omega (arith, length-drop 183 s, ltb→le _ _ many)) resumes)))

  pub room_left :
      (c : Packetizer S) (e : Extractor) (sent : List ℕ)
      → Fits c
      → (b : Begun c e sent) → length b.free + c.payload_end ≡ 188
  room_left c e sent fits b = omega (
    arith,
    b.end_is,
    ap length b.laid_out,
    length-drop 4 c.packet,
    fits.size,
    length-append (b.pointer ++ b.body) b.free,
  )

  -- A section behind others in a packet that has a pointer field.
  pub behind_lem :
      (fuel : ℕ) (s : List ℕ) (c : Packetizer S) (e : Extractor) (pending : Sections)
      → length s < fuel
      → Fits c
      → e.callback_set ≡ true
      → AllSent e.max_section_size pending
      → IsSent e.max_section_size s
      → c.pusi ≡ true
      → Begun c e (join pending)
      → Delivers (fill_begun none fuel s c) e (pending ++ s ∷ [])
  unfolding fill_begun
  behind_lem fuel s c e pending h fits set all one pointed b' =
      let b : Begun c e (join pending ++ []) =
        subst (Begun c e) (sym (append-nil (join pending))) b' in
      let room = room_left c e _ fits b in
      let rem = sub32 188 c.payload_end in
      let rem_is : rem ≡ length b.free = omega (arith, room) in
      if_elim (λ r. Delivers {S = S} r e (pending ++ s ∷ [])) (ltb (length s) rem) _ _
        (λ few. fits_lem c e pending s [] s fits set all one b refl (omega (arith, ltb→lt _ _ few)))
        (λ many.
          fills_lem (λ _. true) (λ d. u8 (d.payload_end + rem)) rem c e pending s [] s
            (λ d. more none fuel true (drop rem s) (finished d)) fits set all one b pointed refl
            rem_is (ltb→le _ _ many)
            (part_copies pending (take rem s) all
              (omega (arith, length-take rem s, room, b.end_is)))
            (λ d peer resumes.
              rest_lem fuel s (drop rem s) (finished d) peer (omega (arith, length-drop rem s))
                resumes))
