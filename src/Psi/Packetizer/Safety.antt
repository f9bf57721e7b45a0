-- ===== src/Psi/Packetizer/Safety.antt =====
-- `sec2ts_impl` with and without an adaptation callback: its bounds and its loop.
use mopa.Base.{
  ℕ, zero, suc, ◌+◌, ◌-◌, ◌*◌, ◌<◌, ◌≤◌, ◌≡◌, inl, inr, ap, ◌∙◌, arith, Option, none, List, [],
  ◌++◌, Bool, true, false, not, ltb, leb, ◌==◌, if◌then◌else◌, length, take, drop, set, length-take,
  length-drop, length-set, slice, overwrite, ok, bind, ◌>>=◌, le→leb, lt→leb, leb→le, leb→gt,
  if_elim, u8, sub32,
}
use mopa.Psi.Packetizer.{
  Packetizer, fix_header, afc_of, afc_adaptation, finished, copy, producing, adaptation, more,
  make_pointer, fill_begun, section,
}
use mopa.Psi.Packetizer.Copying.{
  IsPacket, IsValid, ReturnsWith, Returns, length-overwrite, cleared, fix_header-IsPacket,
  ReturnsWith-producing,
}
use mopa.Psi.Packetizer.Rounds.{
  Callback, Polite, Bounded, Enough, Adapted, adaptation-Adapted, fix_header_ctx, round-Returns,
}

module _ {S : Type 0} (number : S → ℕ) (most : ℕ) (callback : Option (Callback S))
    (polite : Polite number most callback) where
  -- The header of a packet with payload, and the next round.
  abbrev headed : Packetizer S → Packetizer S
  headed d = fix_header d.pusi (afc_of d) d

  -- What is to be shown of the loop with `fuel`.
  abbrev Loop : ℕ → Type 0
  Loop fuel =
      (wrote : Bool) (bytes : List ℕ) (c : Packetizer S)
      → Enough number most fuel bytes c
      → Bounded number most c.adaptation_ctx
      → length c.packet ≡ 188
      → ReturnsWith (Bounded number most) (more callback fuel wrote bytes c)

  -- A round with room for payload, in a packet that is begun and has its pointer field if it has one.
  with_payload :
      (fuel : ℕ) (bytes : List ℕ) (c : Packetizer S) (header : Packetizer S → Packetizer S)
      → Loop fuel
      → length bytes * suc most < suc fuel
      → Bounded number most c.adaptation_ctx
      → length c.packet ≡ 188
      → 4 ≤ c.payload_start
      → c.payload_start ≤ c.payload_end
      → c.payload_end < 188
      → ((d : Packetizer S) → length d.packet ≡ 188 → IsPacket (header d).packet)
      → ((d : Packetizer S) → (header d).adaptation_ctx ≡ d.adaptation_ctx)
      → (let rem = sub32 188 c.payload_end in
          ReturnsWith (Bounded number most) (
            if ltb (length bytes) rem
            then (bind
                (copy bytes c)
                λ (_, d). ok ([], record d { payload_end = u8 (d.payload_end + length bytes) }))
            else (bind (copy (take rem bytes) c) λ (_, d). producing (header d).packet (
                if length (drop rem bytes) == 0
                then ok ([], finished (header d))
                else more callback fuel true (drop rem bytes) (finished (header d))))))
  with_payload fuel bytes c header loop enough low size start order room one ctx =
      round-Returns number most fuel bytes c header
        (λ rest d. more callback fuel true rest (finished d)) enough low size start order room one
        ctx λ rest d. loop true rest (finished d)

  module _ (fuel : ℕ) (loop : Loop fuel) (bytes : List ℕ) (c : Packetizer S)
      (enough : Enough number most (suc fuel) bytes c) (low : Bounded number most c.adaptation_ctx)
      (size : length c.packet ≡ 188) where
    abbrev d : Packetizer S
    d = (adaptation callback c).0

    a : Adapted number most c (adaptation callback c)
    a = adaptation-Adapted number most callback c polite size low

    abbrev begun : Packetizer S
    begun =
        let start = u8 (4 + (adaptation callback c).1) in
        record d { payload_start = start; payload_end = start }

    -- A field that leaves no payload.
    no_payload :
        (wrote : Bool)
        → leb (sub32 188 begun.payload_start) 1 ≡ true
        → (let sent = fix_header true afc_adaptation begun in
            ReturnsWith (Bounded number most) (
              producing sent.packet
                (more callback fuel wrote bytes (record sent { payload_start = 0; pusi = false }))))
    unfolding a
    no_payload wrote e =
        let sent = fix_header true afc_adaptation begun in
        let one = fix_header-IsPacket true afc_adaptation begun a.size in
        let same : number sent.adaptation_ctx ≡ number d.adaptation_ctx =
          ap number (fix_header_ctx number most true afc_adaptation begun) in
        let fell = a.progress (omega (arith, a.small, leb→le _ _ e)) in
        ReturnsWith-producing sent.packet _ one (
          loop wrote bytes (record sent { payload_start = 0; pusi = false })
            (omega (arith, same, fell, enough)) (omega (arith, same, a.bounded)) one.size)

  more-Returns : (fuel : ℕ) → Loop fuel
  unfolding more a
  more-Returns zero wrote bytes c enough low size = absurd (omega arith)
  more-Returns (suc fuel) true bytes c enough low size =
      let loop = more-Returns fuel in
      let r = a fuel loop bytes c enough low size in
      let b = begun fuel loop bytes c enough low size in
      if_elim (ReturnsWith (Bounded number most)) (leb (sub32 188 b.payload_start) 1) _ _
        (no_payload fuel loop bytes c enough low size true)
        (λ e.
          with_payload fuel bytes b headed loop (omega (arith, enough)) r.bounded r.size
            (omega (arith, r.small)) (omega arith) (omega (arith, r.small, leb→gt _ _ e))
            (λ p. fix_header-IsPacket p.pusi (afc_of p) p)
            (λ p. fix_header_ctx number most p.pusi (afc_of p) p))
  more-Returns (suc fuel) false bytes c enough low size =
      let loop = more-Returns fuel in
      let r = a fuel loop bytes c enough low size in
      let b = begun fuel loop bytes c enough low size in
      let p : Packetizer S = record b {
        packet = set b.packet b.payload_start 0;
        payload_end = u8 (b.payload_start + 1);
        pusi = true;
      } in
      if_elim (ReturnsWith (Bounded number most)) (leb (sub32 188 b.payload_start) 1) _ _
        (no_payload fuel loop bytes c enough low size false)
        (λ e.
          let room : b.payload_start < 187 = omega (arith, r.small, leb→gt _ _ e) in
          rw (lt→leb (length b.packet) b.payload_start (omega (arith, room, r.size))) (
            with_payload fuel bytes p headed loop (omega (arith, enough)) r.bounded
              (length-set b.packet b.payload_start 0 ∙ r.size) (omega (arith, r.small))
              (omega (arith, room)) (omega (arith, room))
              (λ q. fix_header-IsPacket q.pusi (afc_of q) q)
              (λ q. fix_header_ctx number most q.pusi (afc_of q) q)))

  -- A packet that is begun, with its pointer field.
  fill_begun-Returns :
      (fuel : ℕ) (bytes : List ℕ) (c : Packetizer S)
      → Enough number most fuel bytes c
      → Bounded number most c.adaptation_ctx
      → length c.packet ≡ 188
      → 4 ≤ c.payload_start
      → c.payload_start ≤ c.payload_end
      → c.payload_end < 188
      → ReturnsWith (Bounded number most) (fill_begun callback fuel bytes c)
  unfolding fill_begun
  fill_begun-Returns fuel bytes c enough low size start order room =
      let rem = sub32 188 c.payload_end in
      with_payload fuel bytes c
        (λ d. fix_header true (afc_of d) (record d { payload_end = u8 (d.payload_end + rem) }))
        (more-Returns fuel) (omega (arith, enough)) low size start order room
        (λ d.
          fix_header-IsPacket true (afc_of d) (record d { payload_end = u8 (d.payload_end + rem) }))
        (λ d.
          fix_header_ctx number most true (afc_of d)
            (record d { payload_end = u8 (d.payload_end + rem) }))

  -- The bytes of a packet that is begun move up by one.
  pointed-Returns :
      (fuel : ℕ) (bytes : List ℕ) (c : Packetizer S)
      → Enough number most fuel bytes c
      → Bounded number most c.adaptation_ctx
      → length c.packet ≡ 188
      → 4 ≤ c.payload_start
      → c.payload_start ≤ c.payload_end
      → c.payload_end < 187
      → c.pusi ≡ false
      → ReturnsWith
          (Bounded number most)
          ((make_pointer callback >>= λ _. fill_begun callback fuel bytes) c)
  unfolding make_pointer slice overwrite
  pointed-Returns fuel bytes c enough low size start order high pusi =
      let len = c.payload_end - c.payload_start in
      let front = take len (drop c.payload_start c.packet) in
      let front_size : length front ≡ len = omega (
        arith,
        length-take len (drop c.payload_start c.packet),
        length-drop c.payload_start c.packet,
      ) in
      let shifted =
        take (c.payload_start + 1) c.packet
        ++ (front ++ drop (c.payload_start + 1 + length front) c.packet) in
      let shifted_size : length shifted ≡ 188 =
        length-overwrite c.packet (c.payload_start + 1) front (omega arith) ∙ size in
      let p : Packetizer S = record c {
        packet = set shifted c.payload_start len;
        payload_end = u8 (c.payload_end + 1);
        pusi = true;
      } in
      rw
        (
          pusi,
          le→leb (c.payload_start + len) (length c.packet) (omega arith),
          le→leb (c.payload_start + 1 + length front) (length c.packet) (omega arith),
        )
        (fill_begun-Returns fuel bytes p enough low
          (length-set shifted c.payload_start len ∙ shifted_size) start (omega arith) (omega arith))

  -- A packet that is begun and has one byte left is filled up, and the section starts the next one.
  padded-Returns :
      (fuel : ℕ) (bytes : List ℕ) (c : Packetizer S)
      → Enough number most fuel bytes c
      → Bounded number most c.adaptation_ctx
      → length c.packet ≡ 188
      → (let padded = fix_header false (afc_of c) (record c { packet = set c.packet 187 0xff }) in
          ReturnsWith
            (Bounded number most)
            (producing padded.packet (more callback fuel false bytes (finished padded))))
  padded-Returns fuel bytes c enough low size =
      let full : Packetizer S = record c { packet = set c.packet 187 0xff } in
      let one = fix_header-IsPacket false (afc_of c) full (length-set c.packet 187 0xff ∙ size) in
      let padded = fix_header false (afc_of c) full in
      let same : number padded.adaptation_ctx ≡ number c.adaptation_ctx =
        ap number (fix_header_ctx number most false (afc_of c) full) in
      ReturnsWith-producing padded.packet _ one (
        more-Returns fuel false bytes (finished padded) (omega (arith, same, enough))
          (omega (arith, same, low)) one.size)

  -- A section of any length is taken by a packetizer with or without an adaptation callback. The
  -- callback is polite: it leaves the packet at 188 bytes, takes no more than the room that it is
  -- given, and a number that its state has, at most `most`, falls whenever its field leaves no payload.
  -- Between two calls, with more rounds of fuel than `most + 1` for each byte and the number at the
  -- start: the call returns, with no access out of bounds and the loop run to its end; every
  -- packet that goes out has 188 bytes and starts with the sync byte; and the next call finds a valid
  -- state, with a number within `most`, again.
  pub section-ReturnsWith :
      (fuel : ℕ) (bytes : List ℕ) (c : Packetizer S)
      → length bytes * suc most + number c.adaptation_ctx < fuel
      → number c.adaptation_ctx ≤ most
      → IsValid c
      → ReturnsWith (Bounded number most) (section callback fuel bytes c)
  unfolding section
  section-ReturnsWith fuel bytes c enough low valid =
      if_elim (ReturnsWith (Bounded number most)) (c.payload_start == 0) _ _
        (λ _. more-Returns fuel false bytes c enough low valid.size)
        (λ some_begun. elim valid.begun [
          | inl e ↦ absurd (ground arith)
          | inr e ↦
              if_elim (ReturnsWith (Bounded number most)) (not c.pusi) _ _
                (λ unset.
                  if_elim (ReturnsWith (Bounded number most)) (leb 187 c.payload_end) _ _
                    (λ _. padded-Returns fuel bytes c enough low valid.size)
                    (λ room.
                      pointed-Returns fuel bytes c enough low valid.size e.0 e.1
                        (omega (arith, leb→gt _ _ room)) (cleared c.pusi unset)))
                (λ _. fill_begun-Returns fuel bytes c enough low valid.size e.0 e.1 e.2)
        ])

module _ {S : Type 0} where
  -- Between two calls without an adaptation callback, a section of any length is taken with no access
  -- out of bounds, with the loop run to its end when its fuel exceeds the number of bytes; every
  -- packet that goes out has 188 bytes and starts with the sync byte, and the next call finds a valid
  -- state again.
  pub section-Returns :
      (fuel : ℕ) (bytes : List ℕ) (c : Packetizer S)
      → length bytes < fuel
      → IsValid c
      → Returns (section none fuel bytes c)
  section-Returns fuel bytes c h valid =
      let r =
        section-ReturnsWith (λ _. 0) 0 none tt fuel bytes c (omega arith) (omega arith) valid in
      record {
        packets = r.packets;
        next = r.next;
        returned = r.returned;
        packets-AllPackets = r.packets-AllPackets;
        next-IsValid = r.next-IsValid;
        next_ctx = tt;
      }
