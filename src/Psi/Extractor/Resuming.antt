-- ===== src/Psi/Extractor/Resuming.antt =====
-- `psi_extractor_impl::ts_packet` on sections that span packets.
use mathlib.Core.Path.{subst}
use mopa.Base.{
  ℕ, zero, suc, ◌+◌, ◌<◌, ◌≤◌, ◌≡◌, refl, sym, ap, ap₂, ◌-◌, [], ◌∙◌, arith, List, ◌++◌, Bool, true,
  false, not, ltb, leb, if◌then◌else◌, length, take, drop, length-append, length-drop, Outcome, ok,
  throw, fault, out_of_fuel, le→ltb, ltb→lt, ltb→le, leb→le, if_elim,
}
use mopa.Psi.Extractor.{
  wait_more, Extractor, capacity, Sections, is_stuffing, section_size, emitting, more_sections,
  gather, Memcpy, to_front, collect, State, wait_start,
}
use mopa.Psi.Extractor.Safety.{size_bounds, IsValid, more_sections-Returns}
use mopa.Psi.Extractor.Rounds.{
  following, following-nil, following-cons, take-append_le, drop-append_le, section_size-append,
  is_stuffing-append, more_sections_step, more_sections_fuel,
}

-- What holds of a result that waits for more: the call on all the bytes is resumed.
Continues : List ℕ → Outcome (Sections × Extractor) → Outcome (Sections × Extractor) → Type 0
Continues more whole (ok (sections, d)) =
    (d.state ≡ wait_more)
    → whole
      ≡ following sections (more_sections (suc (length (d.content ++ more))) (d.content ++ more) d)
Continues more whole (throw e) = Unit
Continues more whole fault = Unit
Continues more whole out_of_fuel = Unit

Continues-emitting :
    (more section : List ℕ) (whole r : Outcome (Sections × Extractor))
    → Continues more whole r
    → Continues more (emitting section whole) (emitting section r)
unfolding Continues
Continues-emitting more section whole (ok (sections, d)) h =
    λ e. ap (emitting section) (h e) ∙ following-cons section sections _
Continues-emitting more section whole (throw e) h = tt
Continues-emitting more section whole fault h = tt
Continues-emitting more section whole out_of_fuel h = tt

-- The length is read again at a resumption.
more_sections_resumed :
    (fuel : ℕ) (sec : List ℕ) (c : Extractor) (n : ℕ)
    → is_stuffing sec ≡ false
    → 3 ≤ length sec
    → more_sections (suc fuel) sec c
      ≡ more_sections (suc fuel) sec (record c { dvb_section_length = n })
unfolding more_sections
more_sections_resumed fuel sec c n stuffing some_size =
    rw (stuffing, le→ltb (length sec) 3 some_size)

-- The whole input of a call, after the round that takes its first section.
whole_step :
    (sec more : List ℕ) (c : Extractor)
    → is_stuffing sec ≡ false
    → 3 ≤ length sec
    → section_size sec ≤ c.max_section_size
    → section_size sec < length sec
    → c.callback_set ≡ true
    → more_sections (suc (length (sec ++ more))) (sec ++ more) c
      ≡ emitting (take (section_size sec) sec) (
          more_sections
            (suc (length (drop (section_size sec) sec ++ more)))
            (drop (section_size sec) sec ++ more)
            (record c { dvb_section_length = section_size sec; content = sec }))
whole_step sec more c whole some_size small fits set =
    let size = section_size sec in
    let same : section_size (sec ++ more) ≡ size = section_size-append sec more some_size in
    let len = length-append sec more in
    let step =
      more_sections_step (length (sec ++ more)) (sec ++ more) c
        (is_stuffing-append sec more some_size ∙ whole) (omega arith) (omega arith) (omega arith)
        set in
    step
    ∙ rw
        (
          same,
          take-append_le size sec more (omega arith),
          drop-append_le size sec more (omega arith),
        )
        (ap (emitting (take size sec)) (
          more_sections_fuel _ _ (drop size sec ++ more) _ c.state sec
            (omega
              (arith, length-append (drop size sec) more, length-drop size sec, size_bounds sec))
            (omega arith)))

pub undo_not : (b : Bool) → not b ≡ false → b ≡ true
undo_not true h = refl
undo_not false h = sym h

-- The bytes of a section of which some are missing, and the length read from them.
whole_resumed :
    (sec more : List ℕ) (c : Extractor)
    → is_stuffing sec ≡ false
    → 3 ≤ length sec
    → more_sections (suc (length (sec ++ more))) (sec ++ more) c
      ≡ more_sections
          (suc (length (sec ++ more)))
          (sec ++ more)
          (record c { dvb_section_length = section_size sec; content = sec; state = wait_more })
whole_resumed sec more c whole some_size =
    more_sections_resumed (length (sec ++ more)) (sec ++ more) c (section_size sec)
      (is_stuffing-append sec more some_size ∙ whole) (omega (arith, length-append sec more))
    ∙ more_sections_fuel (suc (length (sec ++ more))) (suc (length (sec ++ more))) (sec ++ more) _
        wait_more sec (omega arith) (omega arith)

more_sections-Continues :
    (fuel : ℕ) (sec more : List ℕ) (c : Extractor) (w : Outcome (Sections × Extractor))
    → length sec < fuel
    → w ≡ more_sections (suc (length (sec ++ more))) (sec ++ more) c
    → Continues more w (more_sections fuel sec c)
unfolding more_sections Continues
more_sections-Continues zero sec more c w h e = absurd (omega arith)
more_sections-Continues (suc fuel) sec more c w h e =
    let size = section_size sec in
    let rest = drop size sec in
    let sized : Extractor = record c { dvb_section_length = size; content = sec } in
    branch (is_stuffing sec) _ _ (λ _ e'. cc)
      λ whole.
        branch (ltb (length sec) 3) _ _
          (λ _ _.
            e
            ∙ more_sections_fuel (suc (length (sec ++ more))) (suc (length (sec ++ more)))
                (sec ++ more) c wait_more sec (omega arith) (omega arith)
            ∙ sym (following-nil _))
          λ some_size.
            branch (ltb c.max_section_size size) _ _ (λ _ e'. cc)
              λ small.
                branch (leb size (length sec)) _ _
                  (λ fits.
                    branch (not c.callback_set) _ _ (λ _ e'. cc)
                      λ set.
                        branch (ltb 0 (length rest)) _ _
                          (λ left.
                            rw
                              (
                                e,
                                whole_step sec more c whole (ltb→le _ _ some_size)
                                    (ltb→le _ _ small)
                                    (omega (arith, ltb→lt _ _ left, length-drop size sec))
                                    (undo_not _ set),
                              )
                              (Continues-emitting more (take size sec) _ _ (
                                more_sections-Continues fuel rest more sized _
                                  (omega
                                    (arith, size_bounds sec, length-drop size sec, leb→le _ _ fits))
                                  refl)))
                          (λ _ e'. cc))
                  (λ _ _.
                    e
                    ∙ whole_resumed sec more c whole (ltb→le _ _ some_size)
                    ∙ sym (following-nil _))
  where
    branch :
        (b : Bool) (x y : Outcome (Sections × Extractor))
        → (b ≡ true → Continues more w x)
        → (b ≡ false → Continues more w y)
        → Continues more w (if b then x else y)
    branch = if_elim (Continues more w)

Continues-ok :
    (more : List ℕ) (w r : Outcome (Sections × Extractor)) (sections : Sections) (d : Extractor)
    → r ≡ ok (sections, d)
    → d.state ≡ wait_more
    → Continues more w r
    → w
      ≡ following sections (more_sections (suc (length (d.content ++ more))) (d.content ++ more) d)
unfolding Continues
Continues-ok more w r sections d e waits h = (rw e at h) waits

pub gather_fits :
    (p : List ℕ) (c : Extractor)
    → length (c.content ++ p) ≤ capacity c
    → gather p c ≡ more_sections (suc (length (c.content ++ p))) (c.content ++ p) c
unfolding gather
gather_fits p c fits = rw (le→ltb (capacity c) (length (c.content ++ p)) fits)

next_of : Extractor → Outcome (Sections × Extractor) → Extractor
next_of c (ok (sections, d)) = d
next_of c (throw e) = c
next_of c fault = c
next_of c out_of_fuel = c

sections_of : Outcome (Sections × Extractor) → Sections
sections_of (ok (sections, d)) = sections
sections_of (throw e) = []
sections_of fault = []
sections_of out_of_fuel = []

-- A copy to the front of at most half of the bytes leaves them as they are.
pub to_front_apart :
    ⦃m : Memcpy⦄ (s : State) (all : ℕ) (c : Extractor)
    → c.state ≡ s
    → (to_front all c).state ≡ wait_more
    → length (to_front all c).content + length (to_front all c).content ≤ all
    → to_front all c ≡ c
unfolding to_front
to_front_apart wait_start all c is waits half = rw is refl
to_front_apart ⦃m⦄ wait_more all c is waits half =
    let moved : Extractor = record c { content = m.front (all - length c.content) c.content } in
    let is_moved : to_front all c ≡ moved = rw is refl in
    is_moved
    ∙ ap (λ x. record c { content = x })
        (m.front_apart (all - length c.content) c.content (
          omega (
            arith,
            half,
            ap (λ d. length d.content) is_moved,
            m.length-front (all - length c.content) c.content,
          )))

-- Two payloads, the first of which fits the buffer and leaves a section unfinished, and the second
-- has at most 184 bytes, under a limit of three bytes or more; the bytes that are kept are at most
-- half of those that were there, so that `memcpy` copies them between regions that do not overlap.
-- Then the sections of the first call and of the loop of the second, in order, and the state after
-- that loop are those of one run of the loop on all the bytes.
pub collect_resumed :
    ⦃m : Memcpy⦄ (p q : List ℕ) (c d : Extractor) (sections : Sections)
    → 3 ≤ c.max_section_size
    → length c.content + length p ≤ capacity c
    → length q ≤ 184
    → collect p c ≡ ok (sections, d)
    → d.state ≡ wait_more
    → length d.content + length d.content ≤ length c.content + length p
    → more_sections (suc (length ((c.content ++ p) ++ q))) ((c.content ++ p) ++ q) c
      ≡ following sections (gather q d)
unfolding next_of sections_of collect
collect_resumed p q c d sections h fits small e waits half =
    let all = c.content ++ p in
    let n = length c.content + length p in
    let ret = more_sections-Returns (suc (length all)) all c h (omega arith) in
    let gathered : gather p c ≡ ok (ret.sections, ret.next) =
      gather_fits p c (omega (arith, length-append c.content p)) ∙ ret.returned in
    let called : collect p c ≡ ok (ret.sections, to_front n ret.next) = rw gathered refl in
    let moved : d ≡ to_front n ret.next = ap (next_of c) (sym e ∙ called) in
    let handed : sections ≡ ret.sections = ap sections_of (sym e ∙ called) in
    let same : d ≡ ret.next =
      moved
      ∙ to_front_apart ret.next.state n ret.next refl (sym (ap (λ x. x.state) moved) ∙ waits)
          (subst (λ (x : Extractor). length x.content + length x.content ≤ n) moved half) in
    let d-IsValid : IsValid d = subst IsValid (sym same) ret.next-IsValid in
    let run = more_sections-Continues (suc (length all)) all q c _ (omega arith) refl in
    Continues-ok q _ _ sections d (ret.returned ∙ ap₂ (λ ss x. ok (ss, x)) (sym handed) (sym same))
      waits run
    ∙ ap (following sections) (
        sym (
          gather_fits q d (
            omega (
              arith,
              length-append d.content q,
              ap (λ (x : Extractor). x.max_section_size) same,
              ret.same_size,
              d-IsValid.pending waits,
            ))))
