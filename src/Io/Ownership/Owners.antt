-- ===== src/Io/Ownership/Owners.antt =====
-- Which object owns which context.
use mopa.Base.{
  ℕ, suc, ◌<◌, ◌≤◌, ◌≡◌, ◌≢◌, ◌⊎◌, inl, inr, refl, sym, ap, ◌∙◌, arith, true, false, ◌==◌, ==_iff,
  Bool, Bool-cases, if◌then◌else◌, Option, none, some,
}
use native.Mathlib.Decide.{ℕ_discrete}
use mopa.Io.Ownership.{Heap, set_at}

module _ {A : Type 0} where
  pub set_at_same : (f : ℕ → Option A) (k : ℕ) (v : Option A) → set_at f k v k ≡ v
  unfolding set_at
  set_at_same f k v = rw ((==_iff k k).1 refl)

  pub set_at_other :
      (f : ℕ → Option A) (k : ℕ) (v : Option A) (x : ℕ) → x ≢ k → set_at f k v x ≡ f x
  unfolding set_at
  set_at_other f k v x h = elim (Bool-cases (x == k)) [
    | inl e ↦ absurd (h ((==_iff x k).0 e))
    | inr e ↦ rw e
  ]

  pub set_at_cases :
      (f : ℕ → Option A) (k : ℕ) (v : Option A) (x : ℕ) {y : Option A}
      → set_at f k v x ≡ y
      → ((x ≡ k) × (v ≡ y)) ⊎ ((x ≢ k) × (f x ≡ y))
  set_at_cases f k v x e = elim (ℕ_discrete x k) [
    | yes h ↦ inl (h, sym (ap (set_at f k v) h ∙ set_at_same f k v) ∙ e)
    | no h ↦ inr (h, sym (set_at_other f k v x h) ∙ e)
  ]

  pub set_at_twice :
      (f : ℕ → Option A) (k : ℕ) (u v : Option A) → set_at (set_at f k u) k v ≡ set_at f k v
  unfolding set_at
  set_at_twice f k u v = λ i x. once (x == k) x i
    where
      once : (b : Bool) (x : ℕ) → (if b then v else if b then u else f x) ≡ (if b then v else f x)
      once true x = refl
      once false x = refl

-- A value put where it is.
pub set_at_self : {A : Type 0} (f : ℕ → Option A) (k : ℕ) → set_at f k (f k) ≡ f
set_at_self f k = λ i x. same x i
  where
    same : (x : ℕ) → set_at f k (f k) x ≡ f x
    same x = elim (ℕ_discrete x k) [
      | yes h ↦ ap (set_at f k (f k)) h ∙ set_at_same f k (f k) ∙ ap f (sym h)
      | no h ↦ set_at_other f k (f k) x h
    ]

pub record IsOwned {C : Type 0} (h : Heap C) : Type 0 where
  pub fresh_cells : (a : ℕ) → h.next ≤ a → h.cell a ≡ none
  pub fresh_objects : (o : ℕ) → h.objects ≤ o → h.object o ≡ none
  pub live : (o a : ℕ) → h.object o ≡ some a → (x : C) × (h.cell a ≡ some x)
  pub sole : (o p a : ℕ) → h.object o ≡ some a → h.object p ≡ some a → o ≡ p
  pub owned : (a : ℕ) (x : C) → h.cell a ≡ some x → (o : ℕ) × (h.object o ≡ some a)

pub none_some {ℓ} : {A : Type 0} {B : Type ℓ} {x : A} → none ≡ some x → B
none_some e = cc

some_injective : {A : Type 0} {x y : A} → some x ≡ some y → x ≡ y
some_injective e = cc

module _ {C : Type 0} (h : Heap C) (ok_h : IsOwned h) where
  -- The next address for an object that has no context.
  pub taken-IsOwned :
      (o n : ℕ) (x : C)
      → h.object o ≡ none
      → o < n
      → h.objects ≤ n
      → IsOwned (record h {
        cell = set_at h.cell h.next (some x);
        next = suc h.next;
        object = set_at h.object o (some h.next);
        objects = n;
      })
  taken-IsOwned o n x free below more = record {
    fresh_cells = λ a e.
        set_at_other h.cell h.next (some x) a (λ e'. omega arith)
        ∙ ok_h.fresh_cells a (omega arith);
    fresh_objects = λ p e.
        set_at_other h.object o (some h.next) p (λ e'. omega arith)
        ∙ ok_h.fresh_objects p (omega arith);
    live = λ p a e. elim (set_at_cases h.object o (some h.next) p e) [
      | inl (e', s) ↦ (
        x,
        ap (set_at h.cell h.next (some x)) (sym (some_injective s))
            ∙ set_at_same h.cell h.next (some x),
      )
      | inr (ne, e') ↦
          let found = ok_h.live p a e' in
          (
            found.0,
            set_at_other h.cell h.next (some x) a
                  (λ at. none_some (sym (ok_h.fresh_cells a (omega arith)) ∙ found.1))
                ∙ found.1,
          )
    ];
    sole = λ p q a e f. elim (set_at_cases h.object o (some h.next) p e) [
      | inl (e', s) ↦ elim (set_at_cases h.object o (some h.next) q f) [
        | inl (f', t) ↦ e' ∙ sym f'
        | inr (ne, f') ↦
            none_some
              (sym (ok_h.fresh_cells a (omega (arith, some_injective s))) ∙ (ok_h.live q a f').1)
      ]
      | inr (ne, e') ↦ elim (set_at_cases h.object o (some h.next) q f) [
        | inl (f', t) ↦
            none_some
              (sym (ok_h.fresh_cells a (omega (arith, some_injective t))) ∙ (ok_h.live p a e').1)
        | inr (nf, f') ↦ ok_h.sole p q a e' f'
      ]
    ];
    owned = λ a y e. elim (set_at_cases h.cell h.next (some x) a e) [
      | inl (at, s) ↦ (o, set_at_same h.object o (some h.next) ∙ ap some (sym at))
      | inr (ne, e') ↦
          let owner = ok_h.owned a y e' in
          (
            owner.0,
            set_at_other h.object o (some h.next) owner.0
                  (λ same. none_some (sym free ∙ ap h.object (sym same) ∙ owner.1))
                ∙ owner.1,
          )
    ];
  }

  -- The context of an object goes, with the object.
  pub freed-IsOwned :
      (o a : ℕ)
      → h.object o ≡ some a
      → IsOwned (record h { cell = set_at h.cell a none; object = set_at h.object o none })
  freed-IsOwned o a at = record {
    fresh_cells = λ b e. elim (ℕ_discrete b a) [
      | yes same ↦ ap (set_at h.cell a none) same ∙ set_at_same h.cell a none
      | no ne ↦ set_at_other h.cell a none b ne ∙ ok_h.fresh_cells b e
    ];
    fresh_objects = λ p e. elim (ℕ_discrete p o) [
      | yes same ↦ ap (set_at h.object o none) same ∙ set_at_same h.object o none
      | no ne ↦ set_at_other h.object o none p ne ∙ ok_h.fresh_objects p e
    ];
    live = λ p b e. elim (set_at_cases h.object o none p e) [
      | inl (e', s) ↦ none_some s
      | inr (ne, e') ↦
          let found = ok_h.live p b e' in
          (
            found.0,
            set_at_other h.cell a none b (λ same. ne (ok_h.sole p o a (e' ∙ ap some same) at))
                ∙ found.1,
          )
    ];
    sole = λ p q b e f. elim (set_at_cases h.object o none p e) [
      | inl (e', s) ↦ none_some s
      | inr (ne, e') ↦ elim (set_at_cases h.object o none q f) [
        | inl (f', t) ↦ none_some t
        | inr (nf, f') ↦ ok_h.sole p q b e' f'
      ]
    ];
    owned = λ b y e. elim (set_at_cases h.cell a none b e) [
      | inl (same, s) ↦ none_some s
      | inr (ne, e') ↦
          let owner = ok_h.owned b y e' in
          (
            owner.0,
            set_at_other h.object o none owner.0
                  (λ same. ne (some_injective (sym owner.1 ∙ ap h.object same ∙ at)))
                ∙ owner.1,
          )
    ];
  }

  -- A context changes in place.
  pub changed-IsOwned :
      (o a : ℕ) (y : C)
      → h.object o ≡ some a
      → IsOwned (record h { cell = set_at h.cell a (some y) })
  changed-IsOwned o a y at = record {
    fresh_cells = λ b e.
        set_at_other h.cell a (some y) b
          (λ same. none_some (sym (ok_h.fresh_cells a (omega arith)) ∙ (ok_h.live o a at).1))
        ∙ ok_h.fresh_cells b e;
    fresh_objects = ok_h.fresh_objects;
    live = λ p b e. elim (ℕ_discrete b a) [
      | yes same ↦ (y, ap (set_at h.cell a (some y)) same ∙ set_at_same h.cell a (some y))
      | no ne ↦ ((ok_h.live p b e).0, set_at_other h.cell a (some y) b ne ∙ (ok_h.live p b e).1)
    ];
    sole = ok_h.sole;
    owned = λ b z e. elim (set_at_cases h.cell a (some y) b e) [
      | inl (same, s) ↦ (o, at ∙ ap some (sym same))
      | inr (ne, e') ↦ ok_h.owned b z e'
    ];
  }
