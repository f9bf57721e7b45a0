-- ===== src/Psi/Transport/Arrival.antt =====
-- A packet of `sec2ts_impl` as `psi_extractor_impl::ts_packet` takes it, up to the loop over sections.
use mathlib.Core.Path.{subst}
use mopa.Base.{
  ℕ, suc, ◌^◌, ◌<◌, ◌≤◌, ◌≡◌, refl, sym, ap, ap₂, ◌-◌, ok, bind, ◌∙◌, arith, List, [], ◌∷◌, ◌++◌,
  Bool, true, false, length, length-append, ==_iff, u8,
}
use mopa.Psi.Extractor.{
  State, wait_start, wait_more, Extractor, Sections, more_sections, capacity, Memcpy, to_front,
  collect, ts_packet, skip_pointer, skip_adaptation, next_cc,
}
use mopa.Psi.Extractor.Resuming.{gather_fits}
use mopa.Psi.Extractor.Whole.{IsSection, AllSections, join, header_read, pointer_skips}
use mopa.Psi.Transport.Reception.{
  Hands, Hands-front, Hands-part, Hands-stuffing, after, completed, unfinished,
}
use mopa.Psi.Transport.Header.{
  header, flags_byte, counter_byte, cc_of-header, afc_of-header, pusi_of-header,
}

-- What an extractor expects of the next packet: that it starts sections, with nothing skipped, or that
-- it continues one, with the next value of the counter. `kept` is the bytes it has of a section.
pub data Awaits (c : Extractor) : Bool → List ℕ → ℕ → List ℕ → Type 0 where
  starts : {cc : ℕ} → c.state ≡ wait_start → Awaits c true (0 ∷ []) cc []
  continues :
      {cc : ℕ}
      → c.state ≡ wait_more
      → next_cc c.cc ≡ cc
      → length c.content ≤ c.max_section_size
      → Awaits c false [] cc c.content
  restarts :
      {cc p : ℕ}
      → c.state ≡ wait_more
      → next_cc c.cc ≡ cc
      → length c.content ≤ c.max_section_size
      → Awaits c true (p ∷ []) cc c.content

-- The first section start in a packet that is begun.
pub open_pointer :
    (e : Extractor) (pointer : List ℕ) (cc : ℕ) (kept : List ℕ)
    → Awaits e false pointer cc kept
    → pointer ≡ []
open_pointer e pointer cc kept (continues waits next short) = refl

pub with_pointer :
    (e : Extractor) (pointer : List ℕ) (cc : ℕ) (kept : List ℕ) (p : ℕ)
    → Awaits e false pointer cc kept
    → Awaits e true (p ∷ []) cc kept
with_pointer e pointer cc kept p (continues waits next short) = restarts waits next short

not_waiting : {A : Type 0} → wait_start ≡ wait_more → A
not_waiting e = cc

module _ ⦃m : Memcpy⦄ where
  -- The call as one of the loop over sections.
  pub record Arrives (p : List ℕ) (c : Extractor) (sec : List ℕ) (cc : ℕ) : Type 0 where
    pub taken : Extractor
    pub result :
        ts_packet p c
        ≡ bind
            (more_sections (suc (length sec)) sec taken)
            (λ (sections, d). ok (sections, to_front (length sec) d))
    pub same_limit : taken.max_section_size ≡ c.max_section_size
    pub still_set : taken.callback_set ≡ c.callback_set
    pub cc_is : taken.cc ≡ cc

  -- The bytes behind the header, while a section is open.
  next_read :
      (start : Bool) (pid cc : ℕ) (rest : List ℕ) (c : Extractor)
      → pid < 2 ^ 13
      → cc < 16
      → c.state ≡ wait_more
      → next_cc c.cc ≡ cc
      → ts_packet (header start 1 pid cc ++ rest) c ≡ skip_pointer start rest (record c { cc = cc })
  unfolding ts_packet skip_adaptation
  next_read start pid cc rest c pid_fits cc_fits waits next = rw (
    waits,
    pusi_of-header start pid cc pid_fits,
    cc_of-header start pid cc pid_fits cc_fits,
    next,
    (==_iff cc cc).1 refl,
    afc_of-header start pid cc pid_fits cc_fits,
  )

  pointer_ignored :
      (p : ℕ) (rest : List ℕ) (c : Extractor)
      → c.state ≡ wait_more
      → skip_pointer true (p ∷ rest) c ≡ collect rest c
  unfolding skip_pointer
  pointer_ignored p rest c waits = rw waits

  plain : (payload : List ℕ) (c : Extractor) → skip_pointer false payload c ≡ collect payload c
  unfolding skip_pointer
  plain payload c = refl

  collected :
      (payload : List ℕ) (c : Extractor)
      → length (c.content ++ payload) ≤ capacity c
      → collect payload c
        ≡ bind
            (more_sections (suc (length (c.content ++ payload))) (c.content ++ payload) c)
            (λ (sections, d). ok (sections, to_front (length (c.content ++ payload)) d))
  unfolding collect
  collected payload c fits =
      ap₂ (λ r n. bind r λ (sections, d). ok (sections, to_front n d)) (gather_fits payload c fits)
        (sym (length-append c.content payload))

  -- A payload that continues a section.
  continued :
      (p : List ℕ) (payload : List ℕ) (cc : ℕ) (c : Extractor)
      → length c.content ≤ c.max_section_size
      → length payload ≤ 184
      → ts_packet p c ≡ collect payload (record c { cc = cc })
      → Arrives p c (c.content ++ payload) cc
  continued p payload cc c short fits e = record {
    taken = record c { cc = cc };
    result =
        e
        ∙ collected payload (record c { cc = cc }) (omega (arith, length-append c.content payload));
    same_limit = refl;
    still_set = refl;
    cc_is = refl;
  }

  pub arrival :
      (start : Bool) (pid cc : ℕ) (pointer kept payload : List ℕ) (c : Extractor)
      → pid < 2 ^ 13
      → cc < 16
      → Awaits c start pointer cc kept
      → length payload ≤ 184
      → Arrives (header start 1 pid cc ++ pointer ++ payload) c (kept ++ payload) cc
  arrival start pid cc pointer kept payload c pid_fits cc_fits (starts waits) fits =
      let d : Extractor = record c { content = []; cc = cc } in
      let h3 = counter_byte 1 cc in
      record {
        taken = d;
        result =
            header_read 0x47 (flags_byte true pid) (u8 pid) h3 (0 ∷ payload) c
              (pusi_of-header true pid cc pid_fits)
              (omega (arith, afc_of-header true pid cc pid_fits cc_fits)) waits
            ∙ ap (λ n. skip_pointer true (0 ∷ payload) (record c { content = []; cc = n }))
                (cc_of-header true pid cc pid_fits cc_fits)
            ∙ pointer_skips [] payload d waits
            ∙ collected payload d (omega arith);
        same_limit = refl;
        still_set = refl;
        cc_is = refl;
      }
  arrival start pid cc pointer kept payload c pid_fits cc_fits (continues waits next short) fits =
      continued _ payload cc c short fits (
        next_read false pid cc payload c pid_fits cc_fits waits next
        ∙ plain payload (record c { cc = cc }))
  arrival start pid cc pointer kept payload c pid_fits cc_fits (restarts {p = p} waits next short)
        fits =
      continued _ payload cc c short fits (
        next_read true pid cc (p ∷ payload) c pid_fits cc_fits waits next
        ∙ pointer_ignored p payload (record c { cc = cc }) waits)

  arrived :
      {p : List ℕ} {c : Extractor} {sec bytes : List ℕ} {cc : ℕ} {ss : Sections} {state : State}
      {kept : List ℕ}
      → (came : Arrives p c sec cc) → sec ≡ bytes
      → Hands (more_sections (suc (length bytes)) bytes came.taken) came.taken ss state kept
      → (state ≡ wait_more → m.front (length bytes - length kept) kept ≡ kept)
      → Hands (ts_packet p c) (record c { cc = cc }) ss state kept
  arrived {bytes = bytes} came same taken copies =
      let h = Hands-front (length bytes) _ came.taken taken copies in
      record {
        next = h.next;
        returned =
            came.result
            ∙ ap
                (λ x.
                  bind (more_sections (suc (length x)) x came.taken)
                    λ (sections, d). ok (sections, to_front (length x) d))
                same
            ∙ h.returned;
        state_is = h.state_is;
        held_is = h.held_is;
        same_limit = h.same_limit ∙ came.same_limit;
        still_set = h.still_set ∙ came.still_set;
        same_cc = h.same_cc ∙ came.cc_is;
      }

  part_copied :
      (pending : Sections) (t rest : List ℕ)
      → m.front (length (join pending)) t ≡ t
      → after rest ≡ wait_more
      → m.front (length (join pending ++ t) - length (unfinished t rest)) (unfinished t rest)
        ≡ unfinished t rest
  part_copied pending t [] copies e = cc
  part_copied pending t (b ∷ bs) copies e =
      ap (λ n. m.front n t) (omega (arith, length-append (join pending) t)) ∙ copies

  -- The packet's payload completes sections and holds a section or the first part of one.
  pub part_arrives :
      (start : Bool) (pid cc : ℕ) (pointer kept payload : List ℕ) (c : Extractor)
      (pending : Sections) (s t rest : List ℕ)
      → pid < 2 ^ 13
      → cc < 16
      → Awaits c start pointer cc kept
      → length payload ≤ 184
      → c.callback_set ≡ true
      → AllSections c.max_section_size pending
      → IsSection c.max_section_size s
      → kept ++ payload ≡ join pending ++ t
      → t ++ rest ≡ s
      → 0 < length t
      → m.front (length (join pending)) t ≡ t
      → Hands
          (ts_packet (header start 1 pid cc ++ pointer ++ payload) c)
          (record c { cc = cc })
          (pending ++ completed s rest)
          (after rest)
          (unfinished t rest)
  part_arrives start pid cc pointer kept payload c pending s t rest pid_fits cc_fits awaits fits set
        all one bytes whole some_byte copies =
      let came = arrival start pid cc pointer kept payload c pid_fits cc_fits awaits fits in
      arrived came bytes
        (Hands-part pending s t rest came.taken (came.still_set ∙ set)
          (subst (λ m. AllSections m pending) (sym came.same_limit) all) whole some_byte
          (subst (λ m. IsSection m s) (sym came.same_limit) one))
        (part_copied pending t rest copies)

  -- Stuffing ends the packet.
  pub stuffing_arrives :
      (start : Bool) (pid cc : ℕ) (pointer kept payload stuffing : List ℕ) (c : Extractor)
      (pending : Sections)
      → pid < 2 ^ 13
      → cc < 16
      → Awaits c start pointer cc kept
      → length payload ≤ 184
      → c.callback_set ≡ true
      → AllSections c.max_section_size pending
      → kept ++ payload ≡ join pending ++ 255 ∷ stuffing
      → Hands
          (ts_packet (header start 1 pid cc ++ pointer ++ payload) c)
          (record c { cc = cc })
          (pending ++ [])
          wait_start
          []
  stuffing_arrives start pid cc pointer kept payload stuffing c pending pid_fits cc_fits awaits fits
        set all bytes =
      let came = arrival start pid cc pointer kept payload c pid_fits cc_fits awaits fits in
      arrived came bytes
        (Hands-stuffing pending stuffing came.taken (came.still_set ∙ set)
          (subst (λ m. AllSections m pending) (sym came.same_limit) all))
        not_waiting
