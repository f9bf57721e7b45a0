-- ===== src/Psi/Extractor/Rounds.antt =====
-- The rounds of the loop at `more_sections`, one by one.
use mopa.Base.{
  ℕ, zero, suc, ◌<◌, ◌≤◌, ◌≡◌, refl, ap, arith, List, [], ◌∷◌, ◌++◌, Bool, true, false, not, ltb,
  leb, if◌then◌else◌, length, take, drop, length-drop, Outcome, ok, throw, fault, out_of_fuel, bind,
  le→ltb, lt→ltb, leb→le, le→leb,
}
use mopa.Psi.Extractor.{
  State, Extractor, Sections, is_stuffing, section_size, emitting, more_sections,
}
use mopa.Psi.Extractor.Safety.{size_bounds}

-- The sections of an earlier call, before those of a result.
abbrev pub following : Sections → Outcome (Sections × Extractor) → Outcome (Sections × Extractor)
following earlier r = bind r (λ (sections, c). ok (earlier ++ sections, c))

pub following-nil : (r : Outcome (Sections × Extractor)) → following [] r ≡ r
following-nil (ok (sections, c)) = refl
following-nil (throw e) = refl
following-nil fault = refl
following-nil out_of_fuel = refl

pub following-cons :
    (s : List ℕ) (ss : Sections) (r : Outcome (Sections × Extractor))
    → emitting s (following ss r) ≡ following (s ∷ ss) r
following-cons s ss (ok (sections, c)) = refl
following-cons s ss (throw e) = refl
following-cons s ss fault = refl
following-cons s ss out_of_fuel = refl

module _ {ℓ} {A : Type ℓ} where
  pub take-append_le : (n : ℕ) (xs ys : List A) → n ≤ length xs → take n (xs ++ ys) ≡ take n xs
  take-append_le zero xs ys h = refl
  take-append_le (suc n) [] ys h = elim h [ ]
  take-append_le (suc n) (x ∷ xs) ys h = ap (λ zs. x ∷ zs) (take-append_le n xs ys (omega arith))

  pub drop-append_le :
      (n : ℕ) (xs ys : List A) → n ≤ length xs → drop n (xs ++ ys) ≡ drop n xs ++ ys
  drop-append_le zero xs ys h = refl
  drop-append_le (suc n) [] ys h = elim h [ ]
  drop-append_le (suc n) (x ∷ xs) ys h = drop-append_le n xs ys (omega arith)

pub section_size-append :
    (xs ys : List ℕ) → 3 ≤ length xs → section_size (xs ++ ys) ≡ section_size xs
unfolding section_size
section_size-append [] ys h = absurd (omega arith)
section_size-append (a ∷ []) ys h = absurd (omega arith)
section_size-append (a ∷ b ∷ []) ys h = absurd (omega arith)
section_size-append (a ∷ b ∷ d ∷ xs) ys h = refl

pub is_stuffing-append : (xs ys : List ℕ) → 3 ≤ length xs → is_stuffing (xs ++ ys) ≡ is_stuffing xs
is_stuffing-append [] ys h = absurd (omega arith)
is_stuffing-append (x ∷ xs) ys h = refl

-- One round: a section of which all bytes are there, and bytes behind it.
pub more_sections_step :
    (fuel : ℕ) (sec : List ℕ) (c : Extractor)
    → is_stuffing sec ≡ false
    → 3 ≤ length sec
    → section_size sec ≤ c.max_section_size
    → section_size sec < length sec
    → c.callback_set ≡ true
    → more_sections (suc fuel) sec c
      ≡ emitting (take (section_size sec) sec) (
          more_sections fuel
            (drop (section_size sec) sec)
            (record c { dvb_section_length = section_size sec; content = sec }))
unfolding more_sections
more_sections_step fuel sec c stuffing some_size small whole set = rw (
  stuffing,
  le→ltb (length sec) 3 some_size,
  le→ltb c.max_section_size (section_size sec) small,
  le→leb (section_size sec) (length sec) (omega arith),
  set,
  lt→ltb 0 (length (drop (section_size sec) sec))
      (omega (arith, length-drop (section_size sec) sec)),
)

if_congr {ℓ} :
    {A : Type ℓ} (b : Bool) (x x' y y' : A)
    → (b ≡ true → x ≡ x')
    → (b ≡ false → y ≡ y')
    → (if b then x else y) ≡ (if b then x' else y')
if_congr true x x' y y' hx hy = hx refl
if_congr false x x' y y' hx hy = hy refl

-- Fuel beyond the number of bytes changes nothing, nor do the former state and bytes.
pub more_sections_fuel :
    (fuel fuel' : ℕ) (sec : List ℕ) (c : Extractor) (s : State) (old : List ℕ)
    → length sec < fuel
    → length sec < fuel'
    → more_sections fuel sec c ≡ more_sections fuel' sec (record c { state = s; content = old })
unfolding more_sections
more_sections_fuel zero fuel' sec c s old h h' = absurd (omega arith)
more_sections_fuel (suc fuel) zero sec c s old h h' = absurd (omega arith)
more_sections_fuel (suc fuel) (suc fuel') sec c s old h h' =
    let size = section_size sec in
    let rest = drop size sec in
    let sized : Extractor = record c { dvb_section_length = size; content = sec } in
    if_congr (is_stuffing sec) _ _ _ _ (λ _. refl)
      λ _.
        if_congr (ltb (length sec) 3) _ _ _ _ (λ _. refl)
          λ _.
            if_congr (ltb c.max_section_size size) _ _ _ _ (λ _. refl)
              λ _.
                if_congr (leb size (length sec)) _ _ _ _
                  (λ e.
                    if_congr (not c.callback_set) _ _ _ _ (λ _. refl)
                      λ _.
                        if_congr (ltb 0 (length rest)) _ _ _ _
                          (λ _. ap (emitting (take size sec)) (
                            more_sections_fuel fuel fuel' rest sized s sec
                              (omega (arith, size_bounds sec, length-drop size sec, leb→le _ _ e))
                              (omega (arith, size_bounds sec, length-drop size sec, leb→le _ _ e))))
                          (λ _. refl))
                  (λ _. refl)
