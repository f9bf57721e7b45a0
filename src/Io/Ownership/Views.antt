-- ===== src/Io/Ownership/Views.antt =====
-- The context of each object of a heap, and how the steps of `iox` change it.
use mopa.Base.{ℕ, ◌≡◌, ◌≢◌, ◌⊎◌, inl, inr, refl, sym, ap, ◌∙◌, arith, Option, none, some}
use native.Mathlib.Decide.{ℕ_discrete}
use mopa.Io.Ownership.{Heap, set_at}
use mopa.Io.Ownership.Owners.{set_at_same, set_at_other, IsOwned, none_some}

-- The context at the address of an object.
unfoldable pub look : {C : Type 0} → (ℕ → Option C) → Option ℕ → Option C
look cell none = none
look cell (some a) = cell a

module _ {C : Type 0} where
  look_other :
      (cell : ℕ → Option C) (k : ℕ) (v : Option C) (q : Option ℕ)
      → q ≢ some k
      → look (set_at cell k v) q ≡ look cell q
  unfolding look
  look_other cell k v none h = refl
  look_other cell k v (some a) h = set_at_other cell k v a (λ e. h (ap some e))

  -- The address of an object that is alive.
  pub address :
      (cell : ℕ → Option C) (q : Option ℕ) {x : C}
      → look cell q ≡ some x
      → (a : ℕ) × (q ≡ some a) × (cell a ≡ some x)
  unfolding look
  address cell none e = none_some e
  address cell (some a) e = (a, refl, e)

  pub unused :
      (h : Heap C) → IsOwned h → (o : ℕ) → look h.cell (h.object o) ≡ none → h.object o ≡ none
  unfolding look
  unused h owns o e = elim (is_none (h.object o)) [
    | inl e' ↦ e'
    | inr (a, e') ↦ none_some (sym e ∙ ap (look h.cell) e' ∙ (owns.live o a e').1)
  ]
    where
      is_none : (q : Option ℕ) → (q ≡ none) ⊎ ((a : ℕ) × (q ≡ some a))
      is_none none = inl refl
      is_none (some a) = inr (a, refl)

  -- How the views change.
  module _ (h : Heap C) (owns : IsOwned h) (o : ℕ) where
    pub view_taken :
        (x : C) (p : ℕ)
        → look (set_at h.cell h.next (some x)) (set_at h.object o (some h.next) p)
          ≡ set_at (λ q. look h.cell (h.object q)) o (some x) p
    unfolding look
    view_taken x p = elim (ℕ_discrete p o) [
      | yes same ↦
          ap (λ q. look (set_at h.cell h.next (some x)) (set_at h.object o (some h.next) q)) same
          ∙ ap (look (set_at h.cell h.next (some x))) (set_at_same h.object o (some h.next))
          ∙ set_at_same h.cell h.next (some x)
          ∙ sym (
              ap (set_at (λ q. look h.cell (h.object q)) o (some x)) same
              ∙ set_at_same _ o (some x))
      | no ne ↦
          ap (look (set_at h.cell h.next (some x))) (set_at_other h.object o (some h.next) p ne)
          ∙ look_other h.cell h.next (some x) (h.object p) (λ e.
            none_some (sym (owns.fresh_cells h.next (omega arith)) ∙ (owns.live p h.next e).1))
          ∙ sym (set_at_other (λ q. look h.cell (h.object q)) o (some x) p ne)
    ]

    module _ (a : ℕ) (at : h.object o ≡ some a) where
      elsewhere :
          (v : Option C) (p : ℕ)
          → p ≢ o
          → look (set_at h.cell a v) (h.object p) ≡ look h.cell (h.object p)
      elsewhere v p ne = look_other h.cell a v (h.object p) (λ e. ne (owns.sole p o a e at))

      pub view_freed :
          (p : ℕ)
          → look (set_at h.cell a none) (set_at h.object o none p)
            ≡ set_at (λ q. look h.cell (h.object q)) o none p
      unfolding look
      view_freed p = elim (ℕ_discrete p o) [
        | yes same ↦
            ap (λ q. look (set_at h.cell a none) (set_at h.object o none q)) same
            ∙ ap (look (set_at h.cell a none)) (set_at_same h.object o none)
            ∙ sym (ap (set_at (λ q. look h.cell (h.object q)) o none) same ∙ set_at_same _ o none)
        | no ne ↦
            ap (look (set_at h.cell a none)) (set_at_other h.object o none p ne)
            ∙ elsewhere none p ne
            ∙ sym (set_at_other (λ q. look h.cell (h.object q)) o none p ne)
      ]

      pub view_changed :
          (y : C) (p : ℕ)
          → look (set_at h.cell a (some y)) (h.object p)
            ≡ set_at (λ q. look h.cell (h.object q)) o (some y) p
      unfolding look
      view_changed y p = elim (ℕ_discrete p o) [
        | yes same ↦
            ap (λ q. look (set_at h.cell a (some y)) q) (ap h.object same ∙ at)
            ∙ set_at_same h.cell a (some y)
            ∙ sym (
                ap (set_at (λ q. look h.cell (h.object q)) o (some y)) same
                ∙ set_at_same _ o (some y))
        | no ne ↦
            elsewhere (some y) p ne
            ∙ sym (set_at_other (λ q. look h.cell (h.object q)) o (some y) p ne)
      ]
