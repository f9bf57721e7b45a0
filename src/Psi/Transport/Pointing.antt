-- ===== src/Psi/Transport/Pointing.antt =====
-- A section start put into a packet of `sec2ts_impl` that is begun.
use mathlib.Core.Path.{subst}
use mopa.Base.{
  ℕ, ◌+◌, ◌-◌, ◌<◌, ◌≡◌, refl, ap, ◌∙◌, arith, none, List, [], ◌∷◌, ◌++◌, true, false, length, take,
  drop, set, length-drop, length-set, ◌>>=◌, u8, le→leb, slice, overwrite, take-append,
}
use mopa.Psi.Extractor.{Memcpy, Extractor, Sections}
use mopa.Psi.Extractor.Whole.{join}
use mopa.Psi.Transport.Lengths.{CopiesInPlace, IsSent, AllSent}
use mopa.Psi.Packetizer.{Packetizer, fill_begun, make_pointer}
use mopa.Psi.Packetizer.Copying.{length-overwrite}
use mopa.Psi.Transport.Arrival.{Awaits, open_pointer, with_pointer}
use mopa.Psi.Transport.Layout.{move_up}
use mopa.Psi.Transport.Link.{Fits, Begun, Delivers}
use mopa.Psi.Transport.Delivery.{behind_lem, room_left}

module _ ⦃m : Memcpy⦄ ⦃place : CopiesInPlace⦄ {S : Type 0} where
  -- A section behind the end of another that is in a packet without a pointer field.
  pub pointed_lem :
      (fuel : ℕ) (s : List ℕ) (c : Packetizer S) (e : Extractor) (pending : Sections)
      → length s < fuel
      → Fits c
      → e.callback_set ≡ true
      → AllSent e.max_section_size pending
      → IsSent e.max_section_size s
      → c.pusi ≡ false
      → c.payload_end < 187
      → Begun c e (join pending)
      → Delivers ((make_pointer none >>= λ _. fill_begun none fuel s) c) e (pending ++ s ∷ [])
  unfolding make_pointer slice overwrite
  pointed_lem fuel s c e pending h fits set' all one unset room b =
      let awaits = subst (λ x. Awaits e x b.pointer c.cc b.kept) unset b.awaits in
      let plain = open_pointer e b.pointer c.cc b.kept awaits in
      let laid : drop 4 c.packet ≡ b.body ++ b.free =
        b.laid_out ∙ ap (λ x. (x ++ b.body) ++ b.free) plain in
      let end : c.payload_end ≡ 4 + length b.body =
        b.end_is ∙ ap (λ x. 4 + length (x ++ b.body)) plain in
      let len = c.payload_end - 4 in
      let len_is : len ≡ length b.body = omega (arith, end) in
      let begun_is : take len (drop 4 c.packet) ≡ b.body =
        ap (λ x. take len x) laid
        ∙ ap (λ n. take n (b.body ++ b.free)) len_is
        ∙ take-append b.body b.free in
      let moved = take 5 c.packet ++ (b.body ++ drop (5 + length b.body) c.packet) in
      let size : length moved ≡ 188 =
        length-overwrite c.packet 5 b.body (omega (arith, fits.size, end)) ∙ fits.size in
      let d : Packetizer S = record c {
        packet = set moved 4 len;
        payload_start = 4;
        payload_end = u8 (c.payload_end + 1);
        pusi = true;
      } in
      rw
        (
          unset,
          b.start,
          le→leb (4 + len) (length c.packet) (omega (arith, fits.size)),
          begun_is,
          le→leb (5 + length b.body) (length c.packet) (omega (arith, fits.size, end)),
        )
        (behind_lem fuel s d e pending h
          record {
            size = length-set moved 4 len ∙ size;
            pid_fits = fits.pid_fits;
            cc_fits = fits.cc_fits;
          }
          set' all one refl
          record {
            start = refl;
            pointer = len ∷ [];
            kept = b.kept;
            body = b.body;
            free = drop 1 b.free;
            laid_out =
                move_up c.packet b.body b.free len (omega (arith, fits.size)) laid b.some_room;
            end_is = omega (arith, end);
            some_room = omega (arith, length-drop 1 b.free, room_left c e _ fits b);
            awaits = with_pointer e b.pointer c.cc b.kept len awaits;
            so_far = b.so_far;
          })
