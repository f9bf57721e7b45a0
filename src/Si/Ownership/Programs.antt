-- ===== src/Si/Ownership/Programs.antt =====
-- Programs on `descriptor_vector` objects.
use mopa.Base.{ℕ, ◌≡◌, refl, none, some, List, [], ◌∷◌, ◌++◌, get_elem?, set, Outcome, ok, bind}
use mopa.Si.Descriptors.{Descriptor}
use mopa.Si.Ownership.{Memory, construct, purge, assign, copy, destroy, push}
use mopa.Si.Ownership.Values.{Values, Refines}
use mopa.Si.Ownership.Steps.{construct_lem, purge_lem, push_lem, assign_lem, copy_lem, destroy_lem}

-- One operation, with the vectors by their numbers.
pub data Op : Type 0 where
  make : Op
  clear delete : ℕ → Op
  add : ℕ → Descriptor → Op
  put_copy : ℕ → ℕ → Op
  make_copy : ℕ → Op

unfoldable pub run : Op → Memory → Outcome (Unit {0} × Memory)
run make x = construct x
run (clear v) x = purge v x
run (delete v) x = destroy v x
run (add v d) x = push v d x
run (put_copy this from) x = assign this from x
run (make_copy from) x = copy from x

unfoldable pub run_all : List Op → Memory → Outcome (Unit {0} × Memory)
run_all [] x = ok (tt, x)
run_all (op ∷ ops) x = bind (run op x) λ (_, y). run_all ops y

abbrev pub value_of : Values → ℕ → List Descriptor
value_of ws v = elim (get_elem? ws v) [ none ↦ [] | some c ↦ elim c [ none ↦ [] | some ds ↦ ds ] ]

-- The same on values.
abbrev pub by_value : Op → Values → Values
by_value make ws = ws ++ (some [] ∷ [])
by_value (clear v) ws = set ws v (some [])
by_value (delete v) ws = set ws v none
by_value (add v d) ws = set ws v (some (value_of ws v ++ (d ∷ [])))
by_value (put_copy this from) ws = set ws this (some (value_of ws from))
by_value (make_copy from) ws = ws ++ (some (value_of ws from) ∷ [])

abbrev pub all_by_value : List Op → Values → Values
all_by_value [] ws = ws
all_by_value (op ∷ ops) ws = all_by_value ops (by_value op ws)

-- The vectors are alive.
abbrev IsAlive : Values → ℕ → Type 0
IsAlive ws v = get_elem? ws v ≡ some (some (value_of ws v))

abbrev pub CanRun : Op → Values → Type 0
CanRun make ws = Unit
CanRun (clear v) ws = IsAlive ws v
CanRun (delete v) ws = IsAlive ws v
CanRun (add v d) ws = IsAlive ws v
CanRun (put_copy this from) ws = IsAlive ws this × IsAlive ws from
CanRun (make_copy from) ws = IsAlive ws from

abbrev pub CanRunAll : List Op → Values → Type 0
CanRunAll [] ws = Unit
CanRunAll (op ∷ ops) ws = CanRun op ws × CanRunAll ops (by_value op ws)

run-Refines :
    (op : Op) (x : Memory) (ws : Values)
    → Refines x ws
    → CanRun op ws
    → (y : Memory) × (run op x ≡ ok (tt, y)) × Refines y (by_value op ws)
unfolding run
run-Refines make x ws ok_x can = construct_lem x ws ok_x
run-Refines (clear v) x ws ok_x can = purge_lem v x ws (value_of ws v) ok_x can
run-Refines (delete v) x ws ok_x can = destroy_lem v x ws (value_of ws v) ok_x can
run-Refines (add v d) x ws ok_x can = push_lem v x ws (value_of ws v) ok_x can d
run-Refines (put_copy this from) x ws ok_x can =
    assign_lem this from x ws (value_of ws this) (value_of ws from) ok_x can.0 can.1
run-Refines (make_copy from) x ws ok_x can = copy_lem from x ws (value_of ws from) ok_x can

steps-Refines :
    (ops : List Op) (x : Memory) (ws : Values)
    → Refines x ws
    → CanRunAll ops ws
    → (y : Memory) × (run_all ops x ≡ ok (tt, y)) × Refines y (all_by_value ops ws)
unfolding run_all
steps-Refines [] x ws ok_x can = (x, refl, ok_x)
steps-Refines (op ∷ ops) x ws ok_x can =
    let (y, ran, ok_y) = run-Refines op x ws ok_x can.0 in
    rw ran (steps-Refines ops y (by_value op ws) ok_y can.1)

abbrev pub no_vectors : Memory
no_vectors = record { cells = []; vectors = [] }

-- `descriptor_vector` behaves as a vector of values. A program of constructions, copies, assignments
-- (also of a vector to itself), purges, additions of a new descriptor and destructions, each on
-- vectors that are alive then, follows no pointer to a descriptor that is deleted and deletes none
-- twice; after it each vector that is alive has the descriptors that it would have if vectors held
-- them by value, and each descriptor that is not deleted is in one vector that is alive, once.
pub run_pointers-Refines :
    (ops : List Op)
    → CanRunAll ops []
    → (y : Memory) × (run_all ops no_vectors ≡ ok (tt, y)) × Refines y (all_by_value ops [])
run_pointers-Refines ops can =
    steps-Refines ops no_vectors [] record { owned = λ a. refl; holds = tt } can
