-- ===== src/Psi/Transport/Reception.antt =====
-- What `psi_extractor_impl` makes of a payload, by how the bytes it then has end.
use mopa.Base.{
  ℕ, suc, ◌+◌, ◌<◌, ◌≡◌, refl, sym, ap, ◌∙◌, arith, List, [], ◌∷◌, ◌++◌, true, false, length, take,
  ltb, length-append, append-nil, Outcome, ok, bind, ◌-◌, le→ltb, lt→leb, le→leb, take-append,
  Bool-cases, inl, inr, ltb→le,
}
use mathlib.Core.Path.{subst}
use mopa.Psi.Extractor.{
  State, wait_start, wait_more, Extractor, Sections, is_stuffing, section_size, emitting,
  more_sections, Memcpy, to_front,
}
use mopa.Psi.Extractor.Safety.{size_bounds}
use mopa.Psi.Extractor.Rounds.{section_size-append}
use mopa.Psi.Transport.Layout.{drop_whole}
use mopa.Psi.Extractor.Whole.{
  IsSection, AllSections, join, more_sections-join, last_length, stuffing_stops,
}

-- The bytes of an unfinished section.
abbrev pub held_in : State → List ℕ → List ℕ
held_in wait_start bytes = []
held_in wait_more bytes = bytes

abbrev pub held : Extractor → List ℕ
held c = held_in c.state c.content

-- The sections that a call hands over, the bytes that it keeps, and what it leaves as it was.
pub record Hands (r : Outcome (Sections × Extractor)) (c : Extractor) (sections : Sections)
    (state : State) (kept : List ℕ) : Type 0 where
  pub next : Extractor
  pub returned : r ≡ ok (sections, next)
  pub state_is : next.state ≡ state
  pub held_is : held next ≡ kept
  pub same_limit : next.max_section_size ≡ c.max_section_size
  pub still_set : next.callback_set ≡ c.callback_set
  pub same_cc : next.cc ≡ c.cc

pub held_open : (e : Extractor) (t : List ℕ) → e.state ≡ wait_more → held e ≡ t → e.content ≡ t
held_open e t waits h = sym (ap (λ s. held_in s e.content) waits) ∙ h

module _ ⦃m : Memcpy⦄ where
  to_front_same :
      (s : State) (n : ℕ) (d : Extractor)
      → d.state ≡ s
      → (s ≡ wait_more → m.front (n - length d.content) d.content ≡ d.content)
      → to_front n d ≡ d
  unfolding to_front
  to_front_same wait_start n d is h = rw is refl
  to_front_same wait_more n d is h =
      let moved : Extractor = record d { content = m.front (n - length d.content) d.content } in
      let is_moved : to_front n d ≡ moved = rw is refl in
      is_moved ∙ ap (λ x. record d { content = x }) (h refl)

  -- The bytes that are kept are copied to the front as they are.
  pub Hands-front :
      (n : ℕ) (r : Outcome (Sections × Extractor)) (c : Extractor) {ss : Sections} {state : State}
      {kept : List ℕ}
      → Hands r c ss state kept
      → (state ≡ wait_more → m.front (n - length kept) kept ≡ kept)
      → Hands (bind r λ (sections, d). ok (sections, to_front n d)) c ss state kept
  Hands-front n r c {ss = ss} {kept = kept} h copies =
      let same : to_front n h.next ≡ h.next = to_front_same h.next.state n h.next refl λ waits.
        (let is = held_open h.next kept waits h.held_is in
          ap (λ x. m.front (n - length x) x) is ∙ copies (sym h.state_is ∙ waits) ∙ sym is) in
      record {
        next = h.next;
        returned = rw h.returned (ap (λ d. ok (ss, d)) same);
        state_is = h.state_is;
        held_is = h.held_is;
        same_limit = h.same_limit;
        still_set = h.still_set;
        same_cc = h.same_cc;
      }

Hands-emitting :
    (s : List ℕ) (r : Outcome (Sections × Extractor)) (c : Extractor) {ss : Sections}
    {state : State} {kept : List ℕ}
    → Hands r c ss state kept
    → Hands (emitting s r) c (s ∷ ss) state kept
Hands-emitting s r c h = record {
  next = h.next;
  returned = rw h.returned;
  state_is = h.state_is;
  held_is = h.held_is;
  same_limit = h.same_limit;
  still_set = h.still_set;
  same_cc = h.same_cc;
}

take_whole : (s : List ℕ) → take (length s) s ≡ s
take_whole s = ap (take (length s)) (sym (append-nil s)) ∙ take-append s []

-- A section that the bytes end with.
last_section :
    (fuel : ℕ) (s : List ℕ) (c : Extractor)
    → c.callback_set ≡ true
    → IsSection c.max_section_size s
    → Hands (more_sections (suc fuel) s c) c (s ∷ []) wait_start []
unfolding more_sections
last_section fuel s c set one =
    let size = one.complete in
    record {
      next = record c { dvb_section_length = length s; content = []; state = wait_start };
      returned =
          rw
            (
              one.table_id,
              le→ltb (length s) 3 (omega (arith, size_bounds s)),
              size,
              le→ltb c.max_section_size (length s) one.small,
              le→leb (length s) (length s) (omega arith),
              set,
              drop_whole s,
              take_whole s,
            )
            refl;
      state_is = refl;
      held_is = refl;
      same_limit = refl;
      still_set = refl;
      same_cc = refl;
    }

-- A part of a section, in front of the rest of it.
part_waits :
    (fuel : ℕ) (t rest : List ℕ) (c : Extractor)
    → 0 < length t
    → 0 < length rest
    → IsSection c.max_section_size (t ++ rest)
    → Hands (more_sections (suc fuel) t c) c [] wait_more t
unfolding more_sections
part_waits fuel t rest c some_byte some_rest one = elim (Bool-cases (ltb (length t) 3)) [
  | inl short ↦ record {
    next = record c { content = t; state = wait_more };
    returned = rw (first_byte t rest some_byte one.table_id, short) refl;
    state_is = refl;
    held_is = refl;
    same_limit = refl;
    still_set = refl;
    same_cc = refl;
  }
  | inr long ↦
      let sized : section_size t ≡ length t + length rest =
        sym (section_size-append t rest (ltb→le _ _ long)) ∙ one.complete ∙ length-append t rest in
      record {
        next = record c { dvb_section_length = section_size t; content = t; state = wait_more };
        returned =
            rw
              (
                first_byte t rest some_byte one.table_id,
                long,
                le→ltb c.max_section_size (section_size t)
                    (omega (arith, one.small, length-append t rest)),
                lt→leb (section_size t) (length t) (omega arith),
              )
              refl;
        state_is = refl;
        held_is = refl;
        same_limit = refl;
        still_set = refl;
        same_cc = refl;
      }
]
  where
    first_byte :
        (t rest : List ℕ) → 0 < length t → is_stuffing (t ++ rest) ≡ false → is_stuffing t ≡ false
    first_byte [] rest h e = absurd (omega arith)
    first_byte (x ∷ t) rest h e = e

-- The state after a section of which `rest` is missing.
abbrev pub after : List ℕ → State
after [] = wait_start
after (b ∷ bs) = wait_more

abbrev pub completed : List ℕ → List ℕ → Sections
completed s [] = s ∷ []
completed s (b ∷ bs) = []

abbrev pub unfinished : List ℕ → List ℕ → List ℕ
unfinished t [] = []
unfinished t (b ∷ bs) = t

part_or_all :
    (fuel : ℕ) (s t rest : List ℕ) (c : Extractor)
    → c.callback_set ≡ true
    → t ++ rest ≡ s
    → 0 < length t
    → IsSection c.max_section_size s
    → Hands (more_sections (suc fuel) t c) c (completed s rest) (after rest) (unfinished t rest)
part_or_all fuel s t [] c set whole some_byte one =
    let same : t ≡ s = sym (append-nil t) ∙ whole in
    subst (λ x. Hands (more_sections (suc fuel) x c) c (s ∷ []) wait_start []) (sym same)
      (last_section fuel s c set one)
part_or_all fuel s t (b ∷ bs) c set whole some_byte one =
    part_waits fuel t (b ∷ bs) c some_byte (omega arith)
      (subst (IsSection c.max_section_size) (sym whole) one)

-- Complete sections in front.
Hands-join :
    (sections : Sections) (tail : List ℕ) (c : Extractor) {ss : Sections} {state : State}
    {kept : List ℕ}
    → c.callback_set ≡ true
    → AllSections c.max_section_size sections
    → 0 < length tail
    → ((n : ℕ)
        → Hands
            (more_sections (suc (length tail)) tail (record c { dvb_section_length = n }))
            (record c { dvb_section_length = n })
            ss
            state
            kept)
    → Hands
        (more_sections (suc (length (join sections ++ tail))) (join sections ++ tail) c)
        c
        (sections ++ ss)
        state
        kept
Hands-join sections tail c set all some_byte h =
    let last = h (last_length c.dvb_section_length sections) in
    record {
      next = last.next;
      returned = rw (more_sections-join sections tail c set all some_byte, last.returned) refl;
      state_is = last.state_is;
      held_is = last.held_is;
      same_limit = last.same_limit;
      still_set = last.still_set;
      same_cc = last.same_cc;
    }

-- Complete sections, and a section or the first part of one.
pub Hands-part :
    (sections : Sections) (s t rest : List ℕ) (c : Extractor)
    → c.callback_set ≡ true
    → AllSections c.max_section_size sections
    → t ++ rest ≡ s
    → 0 < length t
    → IsSection c.max_section_size s
    → Hands
        (more_sections (suc (length (join sections ++ t))) (join sections ++ t) c)
        c
        (sections ++ completed s rest)
        (after rest)
        (unfinished t rest)
Hands-part sections s t rest c set all whole some_byte one =
    Hands-join sections t c set all some_byte λ n.
      part_or_all (length t) s t rest (record c { dvb_section_length = n }) set whole some_byte one

-- Complete sections, and stuffing.
pub Hands-stuffing :
    (sections : Sections) (stuffing : List ℕ) (c : Extractor)
    → c.callback_set ≡ true
    → AllSections c.max_section_size sections
    → Hands
        (more_sections
          (suc (length (join sections ++ 255 ∷ stuffing)))
          (join sections ++ 255 ∷ stuffing)
          c)
        c
        (sections ++ [])
        wait_start
        []
Hands-stuffing sections stuffing c set all =
    Hands-join sections (255 ∷ stuffing) c set all (omega arith) λ n. record {
      next = record c { dvb_section_length = n; content = 255 ∷ stuffing; state = wait_start };
      returned = stuffing_stops _ stuffing _;
      state_is = refl;
      held_is = refl;
      same_limit = refl;
      still_set = refl;
      same_cc = refl;
    }
