-- ===== src/Psi/Transport/Copying.antt =====
-- Bytes of a section put into a packet of `sec2ts_impl`.
use mopa.Base.{
  ℕ, ◌+◌, ◌<◌, ◌≤◌, ◌≡◌, sym, ap, ◌∙◌, arith, List, [], ◌∷◌, ◌++◌, true, length, drop, append_assoc,
  length-append, length-drop, ok, bind, u8,
}
use mopa.Psi.Extractor.{Memcpy, Extractor, Sections}
use mopa.Psi.Extractor.Whole.{join}
use mopa.Psi.Transport.Lengths.{CopiesInPlace, IsSent, AllSent}
use mopa.Psi.Packetizer.{Packetizer, copy}
use mopa.Psi.Packetizer.Copying.{copied, copy_fits, length-overwrite}
use mopa.Psi.Transport.Layout.{put_at}
use mopa.Psi.Transport.Link.{
  Fits, Begun, busy, Delivers, Delivers-nothing, AllSent-append, join-append,
}

module _ ⦃m : Memcpy⦄ ⦃place : CopiesInPlace⦄ {S : Type 0} where
  -- The bytes fit the packet that is begun.
  pub Begun-copied :
      (c : Packetizer S) (e : Extractor) (sent bytes : List ℕ)
      → length c.packet ≡ 188
      → (b : Begun c e sent) → length bytes ≤ length b.free
      → (c.payload_end + length bytes ≤ 188)
        × (drop 4 (copied bytes c).packet
            ≡ (b.pointer ++ (b.body ++ bytes)) ++ drop (length bytes) b.free)
  unfolding copied
  Begun-copied c e sent bytes size b fit = (
    omega (
      arith,
      b.end_is,
      ap length b.laid_out,
      length-drop 4 c.packet,
      length-append (b.pointer ++ b.body) b.free,
    ),
    rw b.end_is (put_at c.packet (b.pointer ++ b.body) b.free bytes (omega arith) b.laid_out)
        ∙ ap (λ x. x ++ drop (length bytes) b.free) (append_assoc b.pointer b.body bytes),
  )

  -- A section that ends in the packet and leaves room in it.
  pub fits_lem :
      (c : Packetizer S) (e : Extractor) (pending : Sections) (s sent bytes : List ℕ)
      → Fits c
      → e.callback_set ≡ true
      → AllSent e.max_section_size pending
      → IsSent e.max_section_size s
      → (b : Begun c e (join pending ++ sent)) → sent ++ bytes ≡ s
      → length bytes < length b.free
      → Delivers
          (bind
            (copy bytes c)
            (λ (_, d). ok ([], record d { payload_end = u8 (d.payload_end + length bytes) })))
          e
          (pending ++ s ∷ [])
  unfolding copied
  fits_lem c e pending s sent bytes fits set all one b whole room =
      let laid = Begun-copied c e (join pending ++ sent) bytes fits.size b (omega arith) in
      let next : Packetizer S = record (copied bytes c) {
        payload_end = u8 (c.payload_end + length bytes);
      } in
      rw (copy_fits bytes c (omega (arith, laid.0))) (
        Delivers-nothing next e (pending ++ s ∷ []) record {
          fits = record {
            size =
                length-overwrite c.packet c.payload_end bytes (omega (arith, laid.0)) ∙ fits.size;
            pid_fits = fits.pid_fits;
            cc_fits = fits.cc_fits;
          };
          set = set;
          all = AllSent-append _ pending s all one;
          phase = busy record {
            start = b.start;
            pointer = b.pointer;
            kept = b.kept;
            body = b.body ++ bytes;
            free = drop (length bytes) b.free;
            laid_out = laid.1;
            end_is = omega (
              arith,
              laid.0,
              b.end_is,
              ap length b.laid_out,
              length-drop 4 c.packet,
              fits.size,
              length-append (b.pointer ++ b.body) b.free,
              length-append b.pointer b.body,
              length-append b.pointer (b.body ++ bytes),
              length-append b.body bytes,
            );
            some_room = omega (arith, length-drop (length bytes) b.free);
            awaits = b.awaits;
            so_far =
                sym (append_assoc b.kept b.body bytes)
                ∙ ap (λ x. x ++ bytes) b.so_far
                ∙ append_assoc (join pending) sent bytes
                ∙ ap (λ x. join pending ++ x) whole
                ∙ sym (join-append pending s);
          };
        })
