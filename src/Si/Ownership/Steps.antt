-- ===== src/Si/Ownership/Steps.antt =====
-- The operations of `descriptor_vector` beside the same ones on vectors that hold descriptors by value.
use mathlib.Core.Path.{subst}
use mopa.Base.{
  ℕ, suc, ◌≡◌, ◌≢◌, inl, inr, refl, sym, ap, ◌∙◌, arith, ◌==◌, ==_iff, Bool-cases, Option, none,
  some, List, [], ◌∷◌, ◌++◌, length, get_elem?, set, ok,
}
use mopa.Si.Descriptors.{Descriptor}
use mopa.Si.Ownership.{
  Cells, Memory, new_descriptor, pointers_of, set_pointers, construct, purge, push_copies, assign,
  copy, destroy, push,
}
use mopa.Si.Ownership.Counts.{
  pointing-push_back, alive_le, Holds, Holds-Stays, delete_all_lem, dup_all_lem, new_descriptor_lem,
  pointing-Holds_none,
}
use mopa.Si.Ownership.Indices.{
  get_elem?-set_self, set_twice, set_same, get_elem?-set_ne, get_elem?-append_last,
  get_elem?-append_front, set-append_last,
}
use mopa.Si.Ownership.Values.{
  Values, AllHold, Refines, uses-set, uses-append, found, AllHold-set, AllHold-append,
  AllHold-Stays, uses_entry-alive, AllHold-cleared,
}

pointers_of_lem :
    (v : ℕ) (x : Memory) (pointers : List ℕ)
    → get_elem? x.vectors v ≡ some (some pointers)
    → pointers_of v x ≡ ok (pointers, x)
unfolding pointers_of
pointers_of_lem v x pointers e = rw (pointers_of, e) refl

module _ (v : ℕ) (x : Memory) (ws : Values) (ds : List Descriptor) (ok_x : Refines x ws)
    (is : get_elem? ws v ≡ some (some ds)) where
  -- `purge` of a vector that is alive.
  pub purge_lem : (y : Memory) × (purge v x ≡ ok (tt, y)) × Refines y (set ws v (some []))
  unfolding purge set_pointers
  purge_lem =
      let (pointers, at, held) = found x.cells v x.vectors ws ds ok_x.holds is in
      let (g, ran, counts, kept) =
        delete_all_lem pointers x.cells λ a. uses_entry-alive a v x ws pointers ok_x at in
      (
        record { cells = g; vectors = set x.vectors v (some []) },
        rw (pointers_of_lem v x pointers at, ran) refl,
        record {
          owned = λ a.
              omega (
                arith,
                counts a,
                ok_x.owned a,
                uses-set a v x.vectors (some pointers) (some []) at,
              );
          holds =
              AllHold-cleared x.cells g v x.vectors ws pointers at
                (λ a. omega (arith, ok_x.owned a, alive_le a x.cells)) kept ok_x.holds;
        },
      )

  -- `push_back` of a new descriptor.
  pub push_lem :
      (d : Descriptor)
      → (y : Memory) × (push v d x ≡ ok (tt, y)) × Refines y (set ws v (some (ds ++ (d ∷ []))))
  unfolding push set_pointers new_descriptor
  push_lem d =
      let (pointers, at, held) = found x.cells v x.vectors ws ds ok_x.holds is in
      let a = length x.cells in
      let g : Cells = x.cells ++ (some d ∷ []) in
      let one = new_descriptor_lem d x.cells in
      (
        record { cells = g; vectors = set x.vectors v (some (pointers ++ (a ∷ []))) },
        rw (pointers_of_lem v (record x { cells = g }) pointers at) refl,
        record {
          owned = λ b. omega (
            arith,
            one.1 b,
            ok_x.owned b,
            pointing-push_back pointers a b,
            uses-set b v x.vectors (some pointers) (some (pointers ++ (a ∷ []))) at,
          );
          holds =
              AllHold-set g v x.vectors ws (some (pointers ++ (a ∷ []))) (some (ds ++ (d ∷ [])))
                (AllHold-Stays x.cells g x.vectors ws one.2 ok_x.holds)
                (Holds_more g pointers ds a d (Holds-Stays x.cells g pointers ds one.2 held) one.0);
        },
      )
    where
      Holds_more :
          (h : Cells) (pointers : List ℕ) (es : List Descriptor) (a : ℕ) (d : Descriptor)
          → Holds h pointers es
          → get_elem? h a ≡ some (some d)
          → Holds h (pointers ++ (a ∷ [])) (es ++ (d ∷ []))
      Holds_more h [] [] a d held e = (e, tt)
      Holds_more h [] (c ∷ es) a d held e = elim held [ ]
      Holds_more h (b ∷ pointers) [] a d held e = elim held [ ]
      Holds_more h (b ∷ pointers) (c ∷ es) a d held e =
          (held.0, Holds_more h pointers es a d held.1 e)

-- The copies of one vector go into one that is empty.
pub push_copies_lem :
    (this from : ℕ) (x : Memory) (ws : Values) (ds : List Descriptor)
    → Refines x ws
    → get_elem? ws this ≡ some (some [])
    → get_elem? ws from ≡ some (some ds)
    → (y : Memory) × (push_copies this from x ≡ ok (tt, y)) × Refines y (set ws this (some ds))
unfolding push_copies set_pointers
push_copies_lem this from x ws ds ok_x empty is =
    let (none_yet, at, nothing) = found x.cells this x.vectors ws [] ok_x.holds empty in
    let (pointers, at', held) = found x.cells from x.vectors ws ds ok_x.holds is in
    let (copies, g, ran, holds, counts, stay) = dup_all_lem pointers ds x.cells held in
    (
      record { cells = g; vectors = set x.vectors this (some copies) },
      rw (pointers_of_lem from x pointers at', ran) refl,
      record {
        owned = λ a. omega (
          arith,
          counts a,
          ok_x.owned a,
          pointing-Holds_none x.cells a none_yet nothing,
          uses-set a this x.vectors (some none_yet) (some copies) at,
        );
        holds =
            AllHold-set g this x.vectors ws (some copies) (some ds)
              (AllHold-Stays x.cells g x.vectors ws stay ok_x.holds) holds;
      },
    )

pub construct_lem :
    (x : Memory) (ws : Values)
    → Refines x ws
    → (y : Memory) × (construct x ≡ ok (tt, y)) × Refines y (ws ++ (some [] ∷ []))
unfolding construct
construct_lem x ws ok_x = (
  record x { vectors = x.vectors ++ (some [] ∷ []) },
  refl,
  record {
    owned = λ a. omega (arith, ok_x.owned a, uses-append a x.vectors (some []));
    holds = AllHold-append x.cells x.vectors ws (some []) (some []) ok_x.holds tt;
  },
)

-- `*this=from`, where both are alive, and may be the same.
pub assign_lem :
    (this from : ℕ) (x : Memory) (ws : Values) (old ds : List Descriptor)
    → Refines x ws
    → get_elem? ws this ≡ some (some old)
    → get_elem? ws from ≡ some (some ds)
    → (y : Memory) × (assign this from x ≡ ok (tt, y)) × Refines y (set ws this (some ds))
unfolding assign
assign_lem this from x ws old ds ok_x alive_this is = elim (Bool-cases (this == from)) [
  | inl e ↦
      let same : get_elem? ws this ≡ some (some ds) =
        ap (get_elem? ws) ((==_iff this from).0 e) ∙ is in
      (x, rw e refl, subst (Refines x) (sym (set_same ws this (some ds) same)) ok_x)
  | inr e ↦
      let apart : from ≢ this = λ h. ground arith in
      let (z, ran, ok_z) = purge_lem this x ws old ok_x alive_this in
      let (y, ran', ok_y) =
        push_copies_lem this from z (set ws this (some [])) ds ok_z
          (get_elem?-set_self ws this (some old) (some []) alive_this)
          (get_elem?-set_ne ws from this (some []) apart ∙ is) in
      (y, rw (e, ran) ran', subst (Refines y) (set_twice ws this (some []) (some ds)) ok_y)
]

same_number :
    (x : Memory) (ws : Values) → AllHold x.cells x.vectors ws → length x.vectors ≡ length ws
same_number x ws all = go x.vectors ws all
  where
    go : (vs : List (Option (List ℕ))) (ws : Values) → AllHold x.cells vs ws → length vs ≡ length ws
    go [] [] all = refl
    go [] (w ∷ ws) all = elim all [ ]
    go (v ∷ vs) [] all = elim all [ ]
    go (v ∷ vs) (w ∷ ws) all = ap suc (go vs ws all.1)

-- `descriptor_vector(from)`
pub copy_lem :
    (from : ℕ) (x : Memory) (ws : Values) (ds : List Descriptor)
    → Refines x ws
    → get_elem? ws from ≡ some (some ds)
    → (y : Memory) × (copy from x ≡ ok (tt, y)) × Refines y (ws ++ (some ds ∷ []))
unfolding copy
copy_lem from x ws ds ok_x is =
    let this = length x.vectors in
    let number : this ≡ length ws = same_number x ws ok_x.holds in
    let more : Values = ws ++ (some [] ∷ []) in
    let last : get_elem? more this ≡ some (some []) =
      ap (get_elem? more) number ∙ get_elem?-append_last ws (some []) in
    let (z1, ran1, ok1) = construct_lem x ws ok_x in
    let (z2, ran2, ok2) = purge_lem this z1 more [] ok1 last in
    let ok2' : Refines z2 more = subst (Refines z2) (set_same more this (some []) last) ok2 in
    let (y, ran3, ok3) =
      push_copies_lem this from z2 more ds ok2' last
        (get_elem?-append_front ws (some [] ∷ []) from (some ds) is) in
    (
      y,
      rw (ran1, ran2) ran3,
      subst (Refines y)
          (ap (λ k. set more k (some ds)) number ∙ set-append_last ws (some []) (some ds)) ok3,
    )

-- `~descriptor_vector()`
pub destroy_lem :
    (v : ℕ) (x : Memory) (ws : Values) (ds : List Descriptor)
    → Refines x ws
    → get_elem? ws v ≡ some (some ds)
    → (y : Memory) × (destroy v x ≡ ok (tt, y)) × Refines y (set ws v none)
unfolding destroy set_pointers
destroy_lem v x ws ds ok_x is =
    let (z, ran, ok_z) = purge_lem v x ws ds ok_x is in
    let empty = get_elem?-set_self ws v (some ds) (some []) is in
    let (pointers, at, held) = found z.cells v z.vectors (set ws v (some [])) [] ok_z.holds empty in
    (
      record z { vectors = set z.vectors v none },
      rw ran refl,
      record {
        owned = λ a. omega (
          arith,
          ok_z.owned a,
          pointing-Holds_none z.cells a pointers held,
          uses-set a v z.vectors (some pointers) none at,
        );
        holds =
            subst (AllHold z.cells (set z.vectors v none)) (set_twice ws v (some []) none)
              (AllHold-set z.cells v z.vectors (set ws v (some [])) none none ok_z.holds tt);
      },
    )
