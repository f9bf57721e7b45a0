-- ===== src/Psi/Packetizer/Rounds.antt =====
-- Rounds of `sec2ts_impl`, with and without an adaptation callback.
use native.Mathlib.Nat.{mul-le-mul_right}
use mopa.Base.{
  ℕ, suc, ◌+◌, ◌-◌, ◌*◌, ◌<◌, ◌≤◌, ◌≡◌, inl, inr, refl, ap, ◌∙◌, arith, Option, none, some, List,
  [], Bool, ltb, ◌==◌, if◌then◌else◌, length, take, drop, length-take, length-drop, Outcome, ok,
  bind, ltb→lt, ltb→le, if_elim, u8, sub32,
}
use mopa.Psi.Packetizer.{Packetizer, Packets, fix_header, finished, copy, producing, adaptation}
use mopa.Psi.Packetizer.Copying.{
  IsPacket, none_left, ReturnsWith, length-overwrite, copied, copy_fits, ReturnsWith-producing,
}

abbrev pub Callback : Type 0 → Type 0
Callback S = S → List ℕ → ℕ → S × List ℕ × ℕ

-- A callback that leaves the packet at 188 bytes, takes no more than the room it is given, and whose
-- state has a number that falls whenever the field leaves no payload, and is at most `most`.
pub record IsPolite {S : Type 0} (f : Callback S) (number : S → ℕ) (most : ℕ) (s : S) (p : List ℕ)
    : Type 0 where
  pub size : length (f s p 184).1 ≡ 188
  pub small : (f s p 184).2 ≤ 184
  pub bounded : number (f s p 184).0 ≤ most
  pub progress : 183 ≤ (f s p 184).2 → number (f s p 184).0 < number s

module _ {S : Type 0} (number : S → ℕ) (most : ℕ) where
  abbrev pub Bounded : S → Type 0
  Bounded s = number s ≤ most

  -- What comes after a copy that fits.
  Returns-copy :
      (bytes : List ℕ) (c : Packetizer S)
      (k : Unit {0} × Packetizer S → Outcome (Packets × Packetizer S))
      → c.payload_end + length bytes ≤ length c.packet
      → ((d : Packetizer S)
          → d ≡ copied bytes c
          → length d.packet ≡ length c.packet
          → ReturnsWith Bounded (k (tt, d)))
      → ReturnsWith Bounded (bind (copy bytes c) k)
  unfolding copied
  Returns-copy bytes c k h after =
      rw (copy_fits bytes c h)
        (after (copied bytes c) refl (length-overwrite c.packet c.payload_end bytes h))

  -- A section that does not fill the packet.
  pub Returns-fits :
      (bytes : List ℕ) (c : Packetizer S)
      → Bounded c.adaptation_ctx
      → length c.packet ≡ 188
      → 4 ≤ c.payload_start
      → c.payload_start ≤ c.payload_end
      → c.payload_end + length bytes < 188
      → ReturnsWith Bounded (
          bind
            (copy bytes c)
            (λ (_, d). ok ([], record d { payload_end = u8 (d.payload_end + length bytes) })))
  unfolding copied
  Returns-fits bytes c low size start begun room = Returns-copy bytes c _ (omega arith) λ d e size'.
      let start_same : d.payload_start ≡ c.payload_start = ap (λ x. x.payload_start) e in
      let end_same : d.payload_end ≡ c.payload_end = ap (λ x. x.payload_end) e in
      record {
        packets = [];
        next = record d { payload_end = u8 (d.payload_end + length bytes) };
        returned = refl;
        packets-AllPackets = none_left;
        next-IsValid = record {
          size = size' ∙ size;
          begun = inr (omega arith, omega arith, omega arith);
        };
        next_ctx = omega (arith, ap (λ x. number x.adaptation_ctx) e, low);
      }

  pub Returns-finished :
      (c : Packetizer S)
      → Bounded c.adaptation_ctx
      → length c.packet ≡ 188
      → ReturnsWith Bounded (ok ([], finished c))
  Returns-finished c low size = record {
    packets = [];
    next = finished c;
    returned = refl;
    packets-AllPackets = none_left;
    next-IsValid = record { size = size; begun = inl refl };
    next_ctx = low;
  }

  -- A section that fills the packet, which goes out with the header that `sent` writes.
  pub Returns-fills :
      (n : ℕ) (bytes : List ℕ) (c : Packetizer S) (sent : Packetizer S → Packetizer S)
      (again : Packetizer S → Outcome (Packets × Packetizer S))
      → Bounded c.adaptation_ctx
      → length c.packet ≡ 188
      → c.payload_end + n ≤ 188
      → ((d : Packetizer S) → length d.packet ≡ 188 → IsPacket (sent d).packet)
      → ((d : Packetizer S) → (sent d).adaptation_ctx ≡ d.adaptation_ctx)
      → ((d : Packetizer S)
          → number d.adaptation_ctx ≡ number c.adaptation_ctx
          → length d.packet ≡ 188
          → ReturnsWith Bounded (again d))
      → ReturnsWith Bounded (
          bind (copy (take n bytes) c) (λ (_, d).
            producing
              (sent d).packet
              (if length (drop n bytes) == 0 then ok ([], finished (sent d)) else again (sent d))))
  unfolding copied
  Returns-fills n bytes c sent again low size room header ctx rest =
      Returns-copy (take n bytes) c _ (omega (arith, length-take n bytes)) λ d e size'.
        let one = header d (size' ∙ size) in
        let same : number (sent d).adaptation_ctx ≡ number c.adaptation_ctx =
          ap number (ctx d) ∙ ap (λ x. number x.adaptation_ctx) e in
        ReturnsWith-producing (sent d).packet _ one (
          if_elim (ReturnsWith Bounded) (length (drop n bytes) == 0) _ _
            (λ _. Returns-finished (sent d) (omega (arith, same, low)) one.size)
            (λ _. rest (sent d) same one.size))

  -- A round with room takes a byte at least, and the number of the state starts again.
  fewer :
      (len n num fuel : ℕ)
      → 0 < n
      → n ≤ len
      → num ≤ most
      → len * suc most < suc fuel
      → (len - n) * suc most + num < fuel
  fewer len n num fuel one fits low enough =
      let step : (len - n + 1) * suc most ≤ len * suc most =
        mul-le-mul_right (suc most) (omega arith) in
      omega (arith, step)

  abbrev pub Polite : Option (Callback S) → Type 0
  Polite none = Unit
  Polite (some f) = (s : S) (p : List ℕ) → length p ≡ 188 → Bounded s → IsPolite f number most s p

  pub record Adapted (c : Packetizer S) (r : Packetizer S × ℕ) : Type 0 where
    pub size : length r.0.packet ≡ 188
    pub small : r.1 ≤ 184
    pub bounded : Bounded r.0.adaptation_ctx
    pub progress : 183 ≤ r.1 → number r.0.adaptation_ctx < number c.adaptation_ctx

  pub adaptation-Adapted :
      (callback : Option (Callback S)) (c : Packetizer S)
      → Polite callback
      → length c.packet ≡ 188
      → Bounded c.adaptation_ctx
      → Adapted c (adaptation callback c)
  unfolding adaptation
  adaptation-Adapted none c polite size low = record {
    size = size;
    small = omega arith;
    bounded = low;
    progress = λ h. absurd (omega arith);
  }
  adaptation-Adapted (some f) c polite size low =
      let one = polite c.adaptation_ctx c.packet size low in
      record { size = one.size; small = one.small; bounded = one.bounded; progress = one.progress }

  pub fix_header_ctx :
      (start : Bool) (afc : ℕ) (c : Packetizer S)
      → (fix_header start afc c).adaptation_ctx ≡ c.adaptation_ctx
  unfolding fix_header
  fix_header_ctx start afc c = refl

  -- Number of rounds that a section still needs at most.
  abbrev pub Enough : ℕ → List ℕ → Packetizer S → Type 0
  Enough fuel bytes c = length bytes * suc most + number c.adaptation_ctx < fuel

  -- A round in a packet with room, and its pointer field if it has one.
  pub round-Returns :
      (fuel : ℕ) (bytes : List ℕ) (c : Packetizer S) (header : Packetizer S → Packetizer S)
      (again : List ℕ → Packetizer S → Outcome (Packets × Packetizer S))
      → length bytes * suc most < suc fuel
      → Bounded c.adaptation_ctx
      → length c.packet ≡ 188
      → 4 ≤ c.payload_start
      → c.payload_start ≤ c.payload_end
      → c.payload_end < 188
      → ((d : Packetizer S) → length d.packet ≡ 188 → IsPacket (header d).packet)
      → ((d : Packetizer S) → (header d).adaptation_ctx ≡ d.adaptation_ctx)
      → ((rest : List ℕ) (d : Packetizer S)
          → Enough fuel rest d
          → Bounded d.adaptation_ctx
          → length d.packet ≡ 188
          → ReturnsWith Bounded (again rest d))
      → (let rem = sub32 188 c.payload_end in
          ReturnsWith Bounded (
            if ltb (length bytes) rem
            then (bind
                (copy bytes c)
                λ (_, d). ok ([], record d { payload_end = u8 (d.payload_end + length bytes) }))
            else (bind (copy (take rem bytes) c) λ (_, d). producing (header d).packet (
                if length (drop rem bytes) == 0
                then ok ([], finished (header d))
                else again (drop rem bytes) (header d)))))
  round-Returns fuel bytes c header again enough low size start begun room one ctx rest =
      let rem = sub32 188 c.payload_end in
      let rem_is : rem ≡ 188 - c.payload_end = omega arith in
      if_elim (ReturnsWith Bounded) (ltb (length bytes) rem) _ _
        (λ e. Returns-fits bytes c low size start begun (omega (arith, ltb→lt _ _ e)))
        (λ e.
          Returns-fills rem bytes c header (again (drop rem bytes)) low size (omega arith) one ctx
            λ d same size'.
              let left =
                fewer (length bytes) rem (number d.adaptation_ctx) fuel (omega arith) (ltb→le _ _ e)
                  (omega (arith, same, low)) enough in
              rest (drop rem bytes) d (rw (length-drop rem bytes) left) (omega (arith, same, low))
                size')
