-- ===== src/Psi/Extractor/Safety.antt =====
-- `psi_extractor_impl::ts_packet`: its bounds and its loop.
use mopa.Base.{
  ℕ, zero, suc, ◌+◌, ◌<◌, ◌≤◌, ◌≡◌, ◌≢◌, refl, ◌∙◌, arith, List, [], ◌∷◌, ◌++◌, Bool, true, false,
  not, ltb, leb, ◌==◌, ◌||◌, if◌then◌else◌, length, take, drop, get_or, bit_or, ◌<<<◌,
  length-append, length-drop, Outcome, ok, bind, ◌-◌, ltb→lt, ltb→le, leb→le, leb→gt, if_elim,
}
use mopa.Bits.{and_mask}
use mopa.Psi.Extractor.{
  State, wait_start, wait_more, Extractor, capacity, Sections, is_stuffing, section_size, emitting,
  more_sections, Memcpy, to_front, gather, collect, reset, skip_pointer, skip_adaptation, ts_packet,
  pusi_of, afc_of, cc_of, next_cc,
}

pub size_bounds : (sec : List ℕ) → (3 ≤ section_size sec) × (section_size sec ≤ 4098)
unfolding section_size
size_bounds sec = omega (arith, and_mask 12 (bit_or (get_or sec 1 0 <<< 8) (get_or sec 2 0)))

-- What waits for the next packet is shorter than a section that is accepted.
pub record IsValid (c : Extractor) : Type 0 where
  pub smallest : 3 ≤ c.max_section_size
  pub pending : c.state ≡ wait_more → length c.content < c.max_section_size

-- The call returned, the sizes are as before, and the state is valid.
pub record Returns (c : Extractor) (r : Outcome (Sections × Extractor)) : Type 0 where
  pub sections : Sections
  pub next : Extractor
  pub returned : r ≡ ok (sections, next)
  pub same_size : next.max_section_size ≡ c.max_section_size
  pub next-IsValid : IsValid next

module _ (c d : Extractor) (size : d.max_section_size ≡ c.max_section_size)
    (h : 3 ≤ c.max_section_size) where
  Returns-start : d.state ≡ wait_start → Returns c (ok ([], d))
  Returns-start e = record {
    sections = [];
    next = d;
    returned = refl;
    same_size = size;
    next-IsValid = record { smallest = omega arith; pending = λ e'. cc };
  }

  Returns-more : length d.content < c.max_section_size → Returns c (ok ([], d))
  Returns-more short = record {
    sections = [];
    next = d;
    returned = refl;
    same_size = size;
    next-IsValid = record { smallest = omega arith; pending = λ e'. omega arith };
  }

Returns-emitting :
    (c d : Extractor) (section : List ℕ) (r : Outcome (Sections × Extractor))
    → d.max_section_size ≡ c.max_section_size
    → Returns d r
    → Returns c (emitting section r)
Returns-emitting c d section r size ret = record {
  sections = section ∷ ret.sections;
  next = ret.next;
  returned = rw ret.returned;
  same_size = ret.same_size ∙ size;
  next-IsValid = ret.next-IsValid;
}

-- With a limit of three bytes or more, and fuel above the number of bytes, the loop ends, in a valid
-- state with the same limit.
pub more_sections-Returns :
    (fuel : ℕ) (sec : List ℕ) (c : Extractor)
    → 3 ≤ c.max_section_size
    → length sec < fuel
    → Returns c (more_sections fuel sec c)
unfolding more_sections
more_sections-Returns zero sec c h lt = absurd (omega arith)
more_sections-Returns (suc fuel) sec c h lt =
    let size = section_size sec in
    let sized : Extractor = record c { dvb_section_length = size; content = sec } in
    let rest = drop size sec in
    branch (is_stuffing sec) _ _ (λ _. Returns-start c _ refl h refl)
      λ _.
        branch (ltb (length sec) 3) _ _ (λ e. Returns-more c _ refl h (omega (arith, ltb→lt _ _ e)))
          λ some_size.
            branch (ltb c.max_section_size size) _ _ (λ _. Returns-start c _ refl h refl)
              λ small.
                branch (leb size (length sec)) _ _
                  (λ e.
                    branch (not c.callback_set) _ _ (λ _. Returns-start c _ refl h refl)
                      λ _.
                        branch (ltb 0 (length rest)) _ _
                          (λ _. Returns-emitting c sized (take size sec) _ refl (
                            more_sections-Returns fuel rest sized h
                              (omega (arith, size_bounds sec, length-drop size sec, leb→le _ _ e))))
                          (λ _.
                            Returns-emitting c sized (take size sec) _ refl
                              (Returns-start sized _ refl h refl)))
                  (λ e. Returns-more c _ refl h (omega (arith, leb→gt _ _ e, ltb→le _ _ small)))
  where
    branch :
        (b : Bool) (x y : Outcome (Sections × Extractor))
        → (b ≡ true → Returns c x)
        → (b ≡ false → Returns c y)
        → Returns c (if b then x else y)
    branch = if_elim (Returns c)

at_state {ℓ} :
    {A : Type ℓ} (P : A → Type 0) (s : State) (x y : A)
    → (s ≡ wait_start → P x)
    → (s ≡ wait_more → P y)
    → P (elim s [ wait_start ↦ x | wait_more ↦ y ])
at_state P wait_start x y hx hy = hx refl
at_state P wait_more x y hx hy = hy refl

to_front-Returns :
    ⦃m : Memcpy⦄ (n : ℕ) (c : Extractor) (r : Outcome (Sections × Extractor))
    → Returns c r
    → Returns c (bind r λ (sections, d). ok (sections, to_front n d))
unfolding to_front
to_front-Returns ⦃m⦄ n c r ret = record {
  sections = ret.sections;
  next = to_front n ret.next;
  returned = rw ret.returned;
  same_size = (moved ret.next ret.next-IsValid).0 ∙ ret.same_size;
  next-IsValid = (moved ret.next ret.next-IsValid).1;
}
  where
    at :
        (s : State) (d : Extractor)
        → IsValid d
        → (d.state ≡ s)
        → (let e : Extractor = elim s [
          | wait_start ↦ d
          | wait_more ↦ record d { content = m.front (n - length d.content) d.content }
        ] in
            (e.max_section_size ≡ d.max_section_size) × IsValid e)
    at wait_start d valid is = (refl, valid)
    at wait_more d valid is = (
      refl,
      record {
        smallest = valid.smallest;
        pending = λ waits.
            omega (arith, valid.pending is, m.length-front (n - length d.content) d.content);
      },
    )

    moved :
        (d : Extractor)
        → IsValid d
        → ((to_front n d).max_section_size ≡ d.max_section_size) × IsValid (to_front n d)
    moved d valid = at d.state d valid refl

module _ ⦃m : Memcpy⦄ (c : Extractor) (h : 3 ≤ c.max_section_size) where
  reset-Returns : Returns c (reset c)
  reset-Returns = Returns-start c _ refl h refl

  pub collect-Returns :
      (payload : List ℕ)
      → length c.content + length payload ≤ c.max_section_size + 184
      → Returns c (collect payload c)
  unfolding collect gather
  collect-Returns payload fits =
      let sec = c.content ++ payload in
      to_front-Returns (length c.content + length payload) c _ (
        if_elim (Returns c) (ltb (capacity c) (length sec)) _ _
          (λ e. absurd (omega (arith, ltb→lt _ _ e, length-append c.content payload)))
          (λ _. more_sections-Returns (suc (length sec)) sec c h (omega arith)))

  skip_pointer-Returns :
      (pusi : Bool) (payload : List ℕ)
      → length c.content + length payload ≤ c.max_section_size + 184
      → (pusi ≡ true → length payload ≢ 0)
      → Returns c (skip_pointer pusi payload c)
  unfolding skip_pointer
  skip_pointer-Returns false payload fits some_byte = collect-Returns payload fits
  skip_pointer-Returns true [] fits some_byte = absurd (some_byte refl refl)
  skip_pointer-Returns true (p ∷ payload) fits some_byte =
      at_state (Returns c) c.state _ _
        (λ _.
          if_elim (Returns c) (ltb (length (p ∷ payload)) (1 + p)) _ _ (λ _. reset-Returns)
            (λ _. collect-Returns _ (omega (arith, length-drop (1 + p) (p ∷ payload)))))
        (λ _. collect-Returns payload (omega arith))

  skip_adaptation-Returns :
      (has pusi : Bool) (payload : List ℕ)
      → length payload ≡ 184
      → length c.content ≤ c.max_section_size
      → (pusi ≡ true → has ≡ true → get_or payload 0 0 ≢ 183)
      → Returns c (skip_adaptation has pusi payload c)
  unfolding skip_adaptation
  skip_adaptation-Returns false pusi payload len short fits =
      skip_pointer-Returns pusi payload (omega arith) (λ _ e. omega arith)
  skip_adaptation-Returns true pusi [] len short fits = absurd (omega arith)
  skip_adaptation-Returns true pusi (p ∷ payload) len short fits =
      if_elim (Returns c) (ltb (length (p ∷ payload)) (1 + p)) _ _ (λ _. reset-Returns)
        λ e.
          skip_pointer-Returns pusi _ (omega (arith, length-drop (1 + p) (p ∷ payload))) (λ set e'.
            fits set refl (omega (arith, ltb→le _ _ e, length-drop (1 + p) (p ∷ payload))))

Returns-of :
    (c d : Extractor) (r : Outcome (Sections × Extractor))
    → d.max_section_size ≡ c.max_section_size
    → Returns d r
    → Returns c r
Returns-of c d r size ret = record {
  sections = ret.sections;
  next = ret.next;
  returned = ret.returned;
  same_size = ret.same_size ∙ size;
  next-IsValid = ret.next-IsValid;
}

has_adaptation→2≤ : (a : ℕ) → ((a == 2) || (a == 3)) ≡ true → 2 ≤ a
has_adaptation→2≤ a e = ground arith

get_or-drop : (n : ℕ) (xs : List ℕ) → get_or xs n 0 ≡ get_or (drop n xs) 0 0
get_or-drop zero xs = refl
get_or-drop (suc n) [] = refl
get_or-drop (suc n) (x ∷ xs) = get_or-drop n xs

-- From a valid state, a packet of 188 bytes is taken without an access out of bounds, with the
-- loop run to its end, to a valid state again with the same limit on sections. The condition: when
-- a section starts in the packet, an adaptation field does not fill it.
pub ts_packet-Returns :
    ⦃m : Memcpy⦄ (p : List ℕ) (c : Extractor)
    → length p ≡ 188
    → IsValid c
    → (pusi_of p ≡ true → 2 ≤ afc_of p → get_or p 4 0 ≢ 183)
    → Returns c (ts_packet p c)
unfolding ts_packet
ts_packet-Returns p c len valid fits =
    let has = (afc_of p == 2) || (afc_of p == 3) in
    let go : (d : Extractor)
        → d.max_section_size ≡ c.max_section_size
        → length d.content ≤ c.max_section_size
        → Returns c (skip_adaptation has (pusi_of p) (drop 4 p) d) =
      λ d size short. Returns-of c d _ size (
        skip_adaptation-Returns d (omega (arith, valid.smallest)) has (pusi_of p) (drop 4 p)
          (omega (arith, length-drop 4 p)) (omega arith)
          (λ set e e'. fits set (has_adaptation→2≤ _ e) (get_or-drop 4 p ∙ e'))) in
    at_state (Returns c) c.state _ _
      (λ start.
        if_elim (Returns c) (pusi_of p) _ _ (λ _. go _ refl (omega arith))
          (λ _. Returns-start c c refl valid.smallest start))
      (λ more.
        if_elim (Returns c) (next_cc c.cc == cc_of p) _ _
          (λ _. go _ refl (omega (arith, valid.pending more)))
          (λ _. reset-Returns c valid.smallest))
