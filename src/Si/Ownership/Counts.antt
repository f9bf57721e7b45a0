-- ===== src/Si/Ownership/Counts.antt =====
-- How often an address is in a vector, and what `delete` and `new` do to that.
use mopa.Base.{
  ℕ, zero, suc, ◌+◌, ◌<◌, ◌≤◌, ◌≡◌, ◌≢◌, refl, ap, ◌∙◌, arith, ◌==◌, if◌then◌else◌, Option, none,
  some, List, [], ◌∷◌, ◌++◌, length, get_elem?, set, ok,
}
use mopa.Si.Descriptors.{Descriptor}
use mopa.Si.Ownership.{Cells, load, new_descriptor, delete_descriptor, dup, delete_all, dup_all}

abbrev one_if : ℕ → ℕ → ℕ
one_if a b = if a == b then 1 else 0

abbrev pub pointing : List ℕ → ℕ → ℕ
pointing [] target = 0
pointing (pointer ∷ rest) target = pointing rest target + one_if target pointer

-- 1 for an address that holds a descriptor.
abbrev living : Option Descriptor → ℕ
living none = 0
living (some d) = 1

abbrev pub alive : ℕ → Cells → ℕ
alive a [] = 0
alive zero (c ∷ cs) = living c
alive (suc a) (c ∷ cs) = alive a cs

-- The descriptors that some pointers lead to.
abbrev pub Holds : Cells → List ℕ → List Descriptor → Type 0
Holds h [] [] = Unit
Holds h [] (d ∷ ds) = ⊥
Holds h (a ∷ pointers) [] = ⊥
Holds h (a ∷ pointers) (d ∷ ds) = (get_elem? h a ≡ some (some d)) × Holds h pointers ds

pub pointing-push_back :
    (pointers : List ℕ) (last target : ℕ)
    → pointing (pointers ++ (last ∷ [])) target ≡ one_if target last + pointing pointers target
pointing-push_back [] last target = omega arith
pointing-push_back (pointer ∷ rest) last target = omega (arith, pointing-push_back rest last target)

alive_lem : (a : ℕ) (h : Cells) (d : Descriptor) → get_elem? h a ≡ some (some d) → alive a h ≡ 1
alive_lem a [] d e = cc
alive_lem zero (none ∷ h) d e = cc
alive_lem zero (some c ∷ h) d e = refl
alive_lem (suc a) (c ∷ h) d e = alive_lem a h d e

pub alive-some :
    (a : ℕ) (h : Cells) → 0 < alive a h → (d : Descriptor) × (get_elem? h a ≡ some (some d))
alive-some a [] p = absurd (omega arith)
alive-some zero (none ∷ h) p = absurd (omega arith)
alive-some zero (some d ∷ h) p = (d, refl)
alive-some (suc a) (c ∷ h) p = alive-some a h p

pub alive_le : (a : ℕ) (h : Cells) → alive a h ≤ 1
alive_le a [] = omega arith
alive_le zero (none ∷ h) = omega arith
alive_le zero (some d ∷ h) = omega arith
alive_le (suc a) (c ∷ h) = alive_le a h

one_if_same : (a : ℕ) → one_if a a ≡ 1
one_if_same a = ground arith

one_if-suc : (a b : ℕ) → one_if (suc a) (suc b) ≡ one_if a b
one_if-suc a b = ground arith

alive-set_none :
    (a b : ℕ) (h : Cells) → 0 < alive b h → alive a (set h b none) + one_if a b ≡ alive a h
alive-set_none a b [] p = absurd (omega arith)
alive-set_none zero zero (none ∷ h) p = absurd (omega arith)
alive-set_none zero zero (some d ∷ h) p = refl
alive-set_none (suc a) zero (c ∷ h) p = ground arith
alive-set_none zero (suc b) (c ∷ h) p = ground arith
alive-set_none (suc a) (suc b) (c ∷ h) p = rw one_if-suc (alive-set_none a b h p)

get_elem?-set_other :
    {A : Type 0} (xs : List A) (a b : ℕ) (v : A) → a ≢ b → get_elem? (set xs b v) a ≡ get_elem? xs a
get_elem?-set_other [] a b v n = refl
get_elem?-set_other (x ∷ xs) zero zero v n = absurd (n refl)
get_elem?-set_other (x ∷ xs) zero (suc b) v n = refl
get_elem?-set_other (x ∷ xs) (suc a) zero v n = refl
get_elem?-set_other (x ∷ xs) (suc a) (suc b) v n = get_elem?-set_other xs a b v (λ e. n (ap suc e))

alive-append_one :
    (a : ℕ) (h : Cells) (d : Descriptor)
    → alive a (h ++ (some d ∷ [])) ≡ alive a h + one_if a (length h)
alive-append_one zero [] d = refl
alive-append_one (suc a) [] d = ground arith
alive-append_one zero (c ∷ h) d = ground arith
alive-append_one (suc a) (c ∷ h) d = rw one_if-suc (alive-append_one a h d)

get_elem?-append_left :
    (h g : Cells) (a : ℕ) (d : Descriptor)
    → get_elem? h a ≡ some (some d)
    → get_elem? (h ++ g) a ≡ some (some d)
get_elem?-append_left [] g a d e = cc
get_elem?-append_left (c ∷ h) g zero d e = e
get_elem?-append_left (c ∷ h) g (suc a) d e = get_elem?-append_left h g a d e

get_elem?-append_one :
    (h : Cells) (d : Descriptor) → get_elem? (h ++ (some d ∷ [])) (length h) ≡ some (some d)
get_elem?-append_one [] d = refl
get_elem?-append_one (c ∷ h) d = get_elem?-append_one h d

load_lem :
    (a : ℕ) (h : Cells) (d : Descriptor) → get_elem? h a ≡ some (some d) → load a h ≡ ok (d, h)
unfolding load
load_lem a h d e = rw (load, e) refl

-- A vector's descriptors are deleted, each once, and no others.
pub delete_all_lem :
    (pointers : List ℕ) (h : Cells)
    → ((a : ℕ) → pointing pointers a ≤ alive a h)
    → (g : Cells) × (delete_all pointers h ≡ ok (tt, g))
      × ((a : ℕ) → alive a g + pointing pointers a ≡ alive a h)
      × ((a : ℕ) → pointing pointers a ≡ 0 → get_elem? g a ≡ get_elem? h a)
unfolding delete_all delete_descriptor
delete_all_lem [] h own = (h, refl, λ a. omega arith, λ a e. refl)
delete_all_lem (b ∷ pointers) h own =
    let some_alive : 0 < alive b h = omega (arith, own b, one_if_same b) in
    let (d, e) = alive-some b h some_alive in
    let cleared : Cells = set h b none in
    let (g, ran, counts, kept) =
      delete_all_lem pointers cleared λ a. omega (arith, own a, alive-set_none a b h some_alive) in
    (
      g,
      rw (load_lem b h d e, ran) refl,
      λ a. omega (arith, counts a, alive-set_none a b h some_alive),
      λ a none_of.
          let apart : a ≢ b =
            λ same. omega (arith, none_of, one_if_same b, ap (λ x. one_if x b) same) in
          kept a (omega (arith, none_of)) ∙ get_elem?-set_other h a b none apart,
    )

-- Pointers to the same descriptors, where these are still there.
pub Holds-frame :
    (h g : Cells) (pointers : List ℕ) (ds : List Descriptor)
    → ((a : ℕ) → 0 < pointing pointers a → get_elem? g a ≡ get_elem? h a)
    → Holds h pointers ds
    → Holds g pointers ds
Holds-frame h g [] [] same held = tt
Holds-frame h g [] (d ∷ ds) same held = elim held [ ]
Holds-frame h g (a ∷ pointers) [] same held = elim held [ ]
Holds-frame h g (a ∷ pointers) (d ∷ ds) same held = (
  same a (omega (arith, one_if_same a)) ∙ held.0,
  Holds-frame h g pointers ds (λ b p. same b (omega (arith, p))) held.1,
)

abbrev pub Stays : Cells → Cells → Type 0
Stays h g = (a : ℕ) (d : Descriptor) → get_elem? h a ≡ some (some d) → get_elem? g a ≡ some (some d)

pub Holds-Stays :
    (h g : Cells) (pointers : List ℕ) (ds : List Descriptor)
    → Stays h g
    → Holds h pointers ds
    → Holds g pointers ds
Holds-Stays h g [] [] stay held = tt
Holds-Stays h g [] (d ∷ ds) stay held = elim held [ ]
Holds-Stays h g (a ∷ pointers) [] stay held = elim held [ ]
Holds-Stays h g (a ∷ pointers) (d ∷ ds) stay held =
    (stay a d held.0, Holds-Stays h g pointers ds stay held.1)

-- One new descriptor.
pub new_descriptor_lem :
    (d : Descriptor) (h : Cells)
    → (let g = h ++ (some d ∷ []) in
        (get_elem? g (length h) ≡ some (some d))
        × ((a : ℕ) → alive a g ≡ alive a h + pointing (length h ∷ []) a)
        × Stays h g)
new_descriptor_lem d h = (
  get_elem?-append_one h d,
  λ a. omega (arith, alive-append_one a h d),
  λ a c e. get_elem?-append_left h (some d ∷ []) a c e,
)

-- The copies are new, and hold the same.
pub dup_all_lem :
    (pointers : List ℕ) (ds : List Descriptor) (h : Cells)
    → Holds h pointers ds
    → (copies : List ℕ) × (g : Cells) × (dup_all pointers h ≡ ok (copies, g))
      × Holds g copies ds
      × ((a : ℕ) → alive a g ≡ alive a h + pointing copies a)
      × Stays h g
unfolding dup_all dup new_descriptor
dup_all_lem [] [] h held = ([], h, refl, tt, λ a. omega arith, λ a d e. e)
dup_all_lem [] (d ∷ ds) h held = elim held [ ]
dup_all_lem (a ∷ pointers) [] h held = elim held [ ]
dup_all_lem (a ∷ pointers) (d ∷ ds) h held =
    let one = new_descriptor_lem d h in
    let h1 : Cells = h ++ (some d ∷ []) in
    let (copies, g, ran, holds, counts, stay) =
      dup_all_lem pointers ds h1 (Holds-Stays h h1 pointers ds one.2 held.1) in
    (
      length h ∷ copies,
      g,
      rw (load_lem a h d held.0, ran) refl,
      (stay (length h) d one.0, holds),
      λ b. omega (arith, counts b, one.1 b),
      λ b c e. stay b c (one.2 b c e),
    )

pub pointing-Holds_none :
    (h : Cells) (a : ℕ) (pointers : List ℕ) → Holds h pointers [] → pointing pointers a ≡ 0
pointing-Holds_none h a [] held = refl
pointing-Holds_none h a (b ∷ pointers) held = elim held [ ]
