-- ===== src/Si/Ownership.antt =====
-- src/descriptors.cpp `descriptor_vector`: the pointers to descriptors, and who deletes them.
-- An address is an index into the cells, and is used once; a descriptor that is deleted leaves `none`.
-- A vector is known by an index too, and is `none` once it is destroyed.
pub mod Indices
pub mod Counts
pub mod Values
pub mod Steps
pub mod Programs
use mopa.Base.{
  ℕ, ◌==◌, if◌then◌else◌, Option, none, some, List, [], ◌∷◌, ◌++◌, length, get_elem?, set, Outcome,
  ok, fault, bind, M, ◌>>=◌, pure,
}
use mopa.Si.Descriptors.{Descriptor, descriptor_factory}

abbrev pub Cells : Type 0
Cells = List (Option Descriptor)

pub record Memory : Type 0 where
  pub cells : Cells
  pub vectors : List (Option (List ℕ))

-- A pointer that is followed, `new` and `delete`.
unfoldable pub load : ℕ → M Cells Descriptor
load a h = elim (get_elem? h a) [
  | none ↦ fault
  | some c ↦ elim c [ none ↦ fault | some d ↦ ok (d, h) ]
]

unfoldable pub new_descriptor : Descriptor → M Cells ℕ
new_descriptor d h = ok (length h, h ++ (some d ∷ []))

unfoldable pub delete_descriptor : ℕ → M Cells (Unit {0})
delete_descriptor a = load a >>= λ d h. ok (tt, set h a none)

-- `dup`: `new` of a copy, in each class.
unfoldable pub dup : ℕ → M Cells ℕ
dup a = load a >>= λ d. new_descriptor d

-- The loop of `purge`, and that of a copy.
unfoldable pub delete_all : List ℕ → M Cells (Unit {0})
delete_all [] h = ok (tt, h)
delete_all (a ∷ pointers) h = bind (delete_descriptor a h) λ (_, g). delete_all pointers g

unfoldable pub dup_all : List ℕ → M Cells (List ℕ)
dup_all [] h = ok ([], h)
dup_all (a ∷ pointers) h =
    bind (dup a h) λ (b, g). bind (dup_all pointers g) λ (copies, f). ok (b ∷ copies, f)

abbrev pub on_cells {ℓ} : {A : Type ℓ} → M Cells A → M Memory A
on_cells m x = bind (m x.cells) λ (a, h). ok (a, record x { cells = h })

-- The pointers of a vector that is alive.
unfoldable pub pointers_of : ℕ → M Memory (List ℕ)
pointers_of v x = elim (get_elem? x.vectors v) [
  | none ↦ fault
  | some c ↦ elim c [ none ↦ fault | some pointers ↦ ok (pointers, x) ]
]

unfoldable pub set_pointers : ℕ → Option (List ℕ) → M Memory (Unit {0})
set_pointers v pointers x = ok (tt, record x { vectors = set x.vectors v pointers })

-- `descriptor_vector()`
unfoldable pub construct : M Memory (Unit {0})
construct x = ok (tt, record x { vectors = x.vectors ++ (some [] ∷ []) })

unfoldable pub purge : ℕ → M Memory (Unit {0})
purge this = pointers_of this >>= λ pointers.
    on_cells (delete_all pointers) >>= λ _. set_pointers this (some [])

-- `*this=x`, and the loop that it shares with the copy constructor, on a vector that is empty.
unfoldable pub push_copies : ℕ → ℕ → M Memory (Unit {0})
push_copies this from = pointers_of from >>= λ pointers.
    on_cells (dup_all pointers) >>= λ copies. set_pointers this (some copies)

unfoldable pub assign : ℕ → ℕ → M Memory (Unit {0})
assign this from x =
    let other : M Memory (Unit {0}) = purge this >>= λ _. push_copies this from in
    if this == from then ok (tt, x) else other x

-- `descriptor_vector(x)`: an empty vector behind the others, which is purged and filled.
unfoldable pub copy : ℕ → M Memory (Unit {0})
copy from x =
    let this = length x.vectors in (construct >>= λ _. purge this >>= λ _. push_copies this from) x

unfoldable pub destroy : ℕ → M Memory (Unit {0})
destroy this = purge this >>= λ _. set_pointers this none

-- `push_back` of a new descriptor, as `io` does it when it parses.
unfoldable pub push : ℕ → Descriptor → M Memory (Unit {0})
push this d = on_cells (new_descriptor d) >>= λ a.
    pointers_of this >>= λ pointers. set_pointers this (some (pointers ++ (a ∷ [])))
