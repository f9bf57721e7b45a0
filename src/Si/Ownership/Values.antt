-- ===== src/Si/Ownership/Values.antt =====
-- Vectors that hold descriptors by value, beside those that hold pointers.
use mathlib.Core.Path.{subst}
use mopa.Base.{
  ℕ, zero, suc, ◌+◌, ◌<◌, ◌≤◌, ◌≡◌, refl, arith, Option, none, some, List, [], ◌∷◌, ◌++◌, get_elem?,
  set,
}
use mopa.Si.Descriptors.{Descriptor}
use mopa.Si.Ownership.{Cells, Memory}
use mopa.Si.Ownership.Counts.{alive, pointing, Holds, Holds-frame, Holds-Stays, Stays}

-- Vectors by value; `none` is destroyed.
abbrev pub Values : Type 0
Values = List (Option (List Descriptor))

abbrev pub entry_count : ℕ → Option (List ℕ) → ℕ
entry_count a none = 0
entry_count a (some pointers) = pointing pointers a

abbrev pub uses : ℕ → List (Option (List ℕ)) → ℕ
uses a [] = 0
uses a (v ∷ vs) = entry_count a v + uses a vs

abbrev pub HoldsEntry : Cells → Option (List ℕ) → Option (List Descriptor) → Type 0
HoldsEntry h none none = Unit
HoldsEntry h none (some ds) = ⊥
HoldsEntry h (some pointers) none = ⊥
HoldsEntry h (some pointers) (some ds) = Holds h pointers ds

abbrev pub AllHold : Cells → List (Option (List ℕ)) → Values → Type 0
AllHold h [] [] = Unit
AllHold h [] (w ∷ ws) = ⊥
AllHold h (v ∷ vs) [] = ⊥
AllHold h (v ∷ vs) (w ∷ ws) = HoldsEntry h v w × AllHold h vs ws

-- Each descriptor that is not deleted is in one vector, once; and the vectors have these values.
pub record Refines (x : Memory) (ws : Values) : Type 0 where
  pub owned : (a : ℕ) → uses a x.vectors ≡ alive a x.cells
  pub holds : AllHold x.cells x.vectors ws

pub uses-set :
    (a v : ℕ) (vs : List (Option (List ℕ))) (c c' : Option (List ℕ))
    → get_elem? vs v ≡ some c
    → uses a (set vs v c') + entry_count a c ≡ uses a vs + entry_count a c'
uses-set a v [] c c' e = cc
uses-set a zero (w ∷ vs) c c' e = omega (arith, same)
  where
    same : entry_count a w ≡ entry_count a c
    same = cc
uses-set a (suc v) (w ∷ vs) c c' e = omega (arith, uses-set a v vs c c' e)

pub uses-append :
    (a : ℕ) (vs : List (Option (List ℕ))) (c : Option (List ℕ))
    → uses a (vs ++ (c ∷ [])) ≡ uses a vs + entry_count a c
uses-append a [] c = omega arith
uses-append a (v ∷ vs) c = omega (arith, uses-append a vs c)

-- The pointers of a vector with a value.
pub found :
    (h : Cells) (v : ℕ) (vs : List (Option (List ℕ))) (ws : Values) (ds : List Descriptor)
    → AllHold h vs ws
    → get_elem? ws v ≡ some (some ds)
    → (pointers : List ℕ) × (get_elem? vs v ≡ some (some pointers)) × Holds h pointers ds
found h v [] [] ds all e = cc
found h v [] (w ∷ ws) ds all e = elim all [ ]
found h v (c ∷ vs) [] ds all e = elim all [ ]
found h zero (none ∷ vs) (none ∷ ws) ds all e = cc
found h zero (none ∷ vs) (some w ∷ ws) ds all e = elim all.0 [ ]
found h zero (some ps ∷ vs) (none ∷ ws) ds all e = cc
found h zero (some ps ∷ vs) (some w ∷ ws) ds all e =
    let same : w ≡ ds = cc in (ps, refl, subst (Holds h ps) same all.0)
found h (suc v) (c ∷ vs) (w ∷ ws) ds all e = found h v vs ws ds all.1 e

pub AllHold-set :
    (h : Cells) (v : ℕ) (vs : List (Option (List ℕ))) (ws : Values) (c : Option (List ℕ))
    (w : Option (List Descriptor))
    → AllHold h vs ws
    → HoldsEntry h c w
    → AllHold h (set vs v c) (set ws v w)
AllHold-set h v [] [] c w all one = all
AllHold-set h v [] (y ∷ ws) c w all one = elim all [ ]
AllHold-set h v (x ∷ vs) [] c w all one = elim all [ ]
AllHold-set h zero (x ∷ vs) (y ∷ ws) c w all one = (one, all.1)
AllHold-set h (suc v) (x ∷ vs) (y ∷ ws) c w all one = (all.0, AllHold-set h v vs ws c w all.1 one)

pub AllHold-append :
    (h : Cells) (vs : List (Option (List ℕ))) (ws : Values) (c : Option (List ℕ))
    (w : Option (List Descriptor))
    → AllHold h vs ws
    → HoldsEntry h c w
    → AllHold h (vs ++ (c ∷ [])) (ws ++ (w ∷ []))
AllHold-append h [] [] c w all one = (one, tt)
AllHold-append h [] (y ∷ ws) c w all one = elim all [ ]
AllHold-append h (x ∷ vs) [] c w all one = elim all [ ]
AllHold-append h (x ∷ vs) (y ∷ ws) c w all one = (all.0, AllHold-append h vs ws c w all.1 one)

HoldsEntry-frame :
    (h g : Cells) (c : Option (List ℕ)) (w : Option (List Descriptor))
    → ((a : ℕ) → 0 < entry_count a c → get_elem? g a ≡ get_elem? h a)
    → HoldsEntry h c w
    → HoldsEntry g c w
HoldsEntry-frame h g none none same one = tt
HoldsEntry-frame h g none (some ds) same one = elim one [ ]
HoldsEntry-frame h g (some ps) none same one = elim one [ ]
HoldsEntry-frame h g (some ps) (some ds) same one = Holds-frame h g ps ds same one

HoldsEntry-Stays :
    (h g : Cells) (c : Option (List ℕ)) (w : Option (List Descriptor))
    → Stays h g
    → HoldsEntry h c w
    → HoldsEntry g c w
HoldsEntry-Stays h g none none stay one = tt
HoldsEntry-Stays h g none (some ds) stay one = elim one [ ]
HoldsEntry-Stays h g (some ps) none stay one = elim one [ ]
HoldsEntry-Stays h g (some ps) (some ds) stay one = Holds-Stays h g ps ds stay one

pub AllHold-Stays :
    (h g : Cells) (vs : List (Option (List ℕ))) (ws : Values)
    → Stays h g
    → AllHold h vs ws
    → AllHold g vs ws
AllHold-Stays h g [] [] stay all = tt
AllHold-Stays h g [] (y ∷ ws) stay all = elim all [ ]
AllHold-Stays h g (x ∷ vs) [] stay all = elim all [ ]
AllHold-Stays h g (x ∷ vs) (y ∷ ws) stay all =
    (HoldsEntry-Stays h g x y stay all.0, AllHold-Stays h g vs ws stay all.1)

AllHold-frame :
    (h g : Cells) (vs : List (Option (List ℕ))) (ws : Values)
    → ((a : ℕ) → 0 < uses a vs → get_elem? g a ≡ get_elem? h a)
    → AllHold h vs ws
    → AllHold g vs ws
AllHold-frame h g [] [] same all = tt
AllHold-frame h g [] (y ∷ ws) same all = elim all [ ]
AllHold-frame h g (x ∷ vs) [] same all = elim all [ ]
AllHold-frame h g (x ∷ vs) (y ∷ ws) same all = (
  HoldsEntry-frame h g x y (λ a p. same a (omega (arith, p))) all.0,
  AllHold-frame h g vs ws (λ a p. same a (omega (arith, p))) all.1,
)

uses_entry :
    (a v : ℕ) (vs : List (Option (List ℕ))) (pointers : List ℕ)
    → get_elem? vs v ≡ some (some pointers)
    → pointing pointers a ≤ uses a vs
uses_entry a v [] pointers e = cc
uses_entry a zero (w ∷ vs) pointers e = omega (arith, same)
  where
    same : entry_count a w ≡ pointing pointers a
    same = cc
uses_entry a (suc v) (w ∷ vs) pointers e = omega (arith, uses_entry a v vs pointers e)

pub uses_entry-alive :
    (a v : ℕ) (x : Memory) (ws : Values) (pointers : List ℕ)
    → Refines x ws
    → get_elem? x.vectors v ≡ some (some pointers)
    → pointing pointers a ≤ alive a x.cells
uses_entry-alive a v x ws pointers ok_x e =
    omega (arith, uses_entry a v x.vectors pointers e, ok_x.owned a)

-- One vector is emptied and its descriptors change, which no other vector has.
pub AllHold-cleared :
    (h g : Cells) (v : ℕ) (vs : List (Option (List ℕ))) (ws : Values) (pointers : List ℕ)
    → get_elem? vs v ≡ some (some pointers)
    → ((a : ℕ) → uses a vs ≤ 1)
    → ((a : ℕ) → pointing pointers a ≡ 0 → get_elem? g a ≡ get_elem? h a)
    → AllHold h vs ws
    → AllHold g (set vs v (some [])) (set ws v (some []))
AllHold-cleared h g v [] [] pointers e once same all = tt
AllHold-cleared h g v [] (y ∷ ws) pointers e once same all = elim all [ ]
AllHold-cleared h g v (x ∷ vs) [] pointers e once same all = elim all [ ]
AllHold-cleared h g zero (x ∷ vs) (y ∷ ws) pointers e once same all =
    let taken : (a : ℕ) → entry_count a x ≡ pointing pointers a = λ a. cc in
    (tt, AllHold-frame h g vs ws (λ a p. same a (omega (arith, once a, p, taken a))) all.1)
AllHold-cleared h g (suc v) (x ∷ vs) (y ∷ ws) pointers e once same all = (
  HoldsEntry-frame h g x y (λ a p. same a (omega (arith, once a, p, uses_entry a v vs pointers e)))
      all.0,
  AllHold-cleared h g v vs ws pointers e (λ a. omega (arith, once a)) same all.1,
)
