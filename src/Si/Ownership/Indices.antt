-- ===== src/Si/Ownership/Indices.antt =====
-- Lists that are read and written at an index, and appended to.
use mopa.Base.{ℕ, zero, suc, ◌≡◌, ◌≢◌, refl, ap, some, List, [], ◌∷◌, ◌++◌, length, get_elem?, set}

pub get_elem?-set_self :
    {A : Type 0} (xs : List A) (k : ℕ) (u v : A)
    → get_elem? xs k ≡ some u
    → get_elem? (set xs k v) k ≡ some v
get_elem?-set_self [] k u v e = cc
get_elem?-set_self (x ∷ xs) zero u v e = refl
get_elem?-set_self (x ∷ xs) (suc k) u v e = get_elem?-set_self xs k u v e

pub set_twice : {A : Type 0} (xs : List A) (k : ℕ) (u v : A) → set (set xs k u) k v ≡ set xs k v
set_twice [] k u v = refl
set_twice (x ∷ xs) zero u v = refl
set_twice (x ∷ xs) (suc k) u v = ap (λ r. x ∷ r) (set_twice xs k u v)

pub set_same :
    {A : Type 0} (xs : List A) (k : ℕ) (u : A) → get_elem? xs k ≡ some u → set xs k u ≡ xs
set_same [] k u e = refl
set_same (x ∷ xs) zero u e = let same : u ≡ x = cc in ap (λ y. y ∷ xs) same
set_same (x ∷ xs) (suc k) u e = ap (λ r. x ∷ r) (set_same xs k u e)

pub get_elem?-set_ne :
    {A : Type 0} (xs : List A) (j k : ℕ) (v : A) → j ≢ k → get_elem? (set xs k v) j ≡ get_elem? xs j
get_elem?-set_ne [] j k v n = refl
get_elem?-set_ne (x ∷ xs) zero zero v n = absurd (n refl)
get_elem?-set_ne (x ∷ xs) zero (suc k) v n = refl
get_elem?-set_ne (x ∷ xs) (suc j) zero v n = refl
get_elem?-set_ne (x ∷ xs) (suc j) (suc k) v n = get_elem?-set_ne xs j k v (λ e. n (ap suc e))

pub get_elem?-append_last :
    {A : Type 0} (xs : List A) (v : A) → get_elem? (xs ++ (v ∷ [])) (length xs) ≡ some v
get_elem?-append_last [] v = refl
get_elem?-append_last (x ∷ xs) v = get_elem?-append_last xs v

pub get_elem?-append_front :
    {A : Type 0} (xs ys : List A) (k : ℕ) (v : A)
    → get_elem? xs k ≡ some v
    → get_elem? (xs ++ ys) k ≡ some v
get_elem?-append_front [] ys k v e = cc
get_elem?-append_front (x ∷ xs) ys zero v e = e
get_elem?-append_front (x ∷ xs) ys (suc k) v e = get_elem?-append_front xs ys k v e

pub set-append_last :
    {A : Type 0} (xs : List A) (u v : A) → set (xs ++ (u ∷ [])) (length xs) v ≡ xs ++ (v ∷ [])
set-append_last [] u v = refl
set-append_last (x ∷ xs) u v = ap (λ r. x ∷ r) (set-append_last xs u v)
