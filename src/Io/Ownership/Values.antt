-- ===== src/Io/Ownership/Values.antt =====
-- Objects of `iox` as values: what programs that make, copy, assign, change and destroy them see.
use mopa.Base.{ℕ, suc, ◌≡◌, Option, none, some, ok, bind, M, List, [], ◌∷◌}
use mopa.Io.Ownership.{Heap, set_at, construct, assign, copy, destroy, change}
use mopa.Io.Ownership.Views.{look}
use mopa.Io.Ownership.Owners.{IsOwned}

-- The context of each object, without addresses.
pub record Store (C : Type 0) : Type 0 where
  pub value : ℕ → Option C
  pub count : ℕ

pub data Command (C : Type 0) : Type 0 where
  made : C → Command C
  copied destroyed : ℕ → Command C
  assigned : ℕ → ℕ → Command C
  changed : (C → C) → ℕ → Command C

module _ {C : Type 0} where
  unfoldable pub run : C → Command C → M (Heap C) (Unit {0})
  run blank (made x) h = bind (construct x h) λ (o, g). ok (tt, g)
  run blank (copied from) h = bind (copy blank from h) λ (o, g). ok (tt, g)
  run blank (destroyed this) h = destroy this h
  run blank (assigned this rhs) h = assign this rhs h
  run blank (changed f this) h = change f this h

  unfoldable pub map_value : (C → C) → Option C → Option C
  map_value f none = none
  map_value f (some x) = some (f x)

  unfoldable pub spec : Command C → Store C → Store C
  unfolding map_value
  spec (made x) s = record { value = set_at s.value s.count (some x); count = suc s.count }
  spec (copied from) s = record {
    value = set_at s.value s.count (s.value from);
    count = suc s.count;
  }
  spec (destroyed this) s = record s { value = set_at s.value this none }
  spec (assigned this rhs) s = record s { value = set_at s.value this (s.value rhs) }
  spec (changed f this) s = record s { value = set_at s.value this (map_value f (s.value this)) }

  unfoldable pub Alive : Store C → ℕ → Type 0
  Alive s o = (x : C) × (s.value o ≡ some x)

  -- The objects of a command are alive.
  unfoldable pub Live : Command C → Store C → Type 0
  Live (made x) s = Unit
  Live (copied from) s = Alive s from
  Live (destroyed this) s = Alive s this
  Live (assigned this rhs) s = Alive s this × Alive s rhs
  Live (changed f this) s = Alive s this

  pub record Refines (h : Heap C) (s : Store C) : Type 0 where
    pub owns : IsOwned h
    pub same_values : (o : ℕ) → look h.cell (h.object o) ≡ s.value o
    pub same_count : h.objects ≡ s.count

abbrev pub empty_heap : {C : Type 0} → Heap C
empty_heap = record { cell = λ _. none; next = 0; object = λ _. none; objects = 0 }

abbrev pub empty_store : {C : Type 0} → Store C
empty_store = record { value = λ _. none; count = 0 }

module _ {C : Type 0} where
  unfoldable pub run_all : C → List (Command C) → M (Heap C) (Unit {0})
  unfolding run
  run_all blank [] h = ok (tt, h)
  run_all blank (c ∷ cs) h = bind (run blank c h) λ (_, g). run_all blank cs g

  unfoldable pub spec_all : List (Command C) → Store C → Store C
  spec_all [] s = s
  spec_all (c ∷ cs) s = spec_all cs (spec c s)

  -- Each command is on objects that are alive.
  unfoldable pub AllLive : List (Command C) → Store C → Type 0
  AllLive [] s = Unit
  AllLive (c ∷ cs) s = Live c s × AllLive cs (spec c s)
