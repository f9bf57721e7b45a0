-- ===== src/Io/Ownership/Assigning.antt =====
-- `operator=` of `iox` on the heap, as a change of one object's value.
use mathlib.Core.Path.{subst}
use mopa.Base.{
  ℕ, suc, ◌<◌, ◌≤◌, ◌≡◌, ◌≢◌, refl, sym, ap, ◌∙◌, arith, false, ◌==◌, ==_iff, none, some, Outcome,
  ok,
}
use native.Mathlib.Decide.{ℕ_discrete, dec_lt}
use mopa.Io.Ownership.{Heap, set_at, new_ctx, delete_ctx, ctx_of, deref, set_ctx, release, assign}
use mopa.Io.Ownership.Views.{address, view_taken, view_freed}
use mopa.Io.Ownership.Owners.{
  set_at_same, set_at_other, set_at_twice, set_at_self, IsOwned, taken-IsOwned, freed-IsOwned,
  none_some,
}
use mopa.Io.Ownership.Values.{Store, Alive, Refines}

module _ {C : Type 0} where
  pub taken-Refines :
      (h : Heap C) (s : Store C) (o n : ℕ) (x : C)
      → Refines h s
      → h.object o ≡ none
      → o < n
      → h.objects ≤ n
      → Refines
          (record h {
            cell = set_at h.cell h.next (some x);
            next = suc h.next;
            object = set_at h.object o (some h.next);
            objects = n;
          })
          (record { value = set_at s.value o (some x); count = n })
  taken-Refines h s o n x r free below more = record {
    owns = taken-IsOwned h r.owns o n x free below more;
    same_values =
        λ p. view_taken h r.owns o x p ∙ ap (λ f. set_at f o (some x) p) (λ i q. r.same_values q i);
    same_count = refl;
  }

  pub freed-Refines :
      (h : Heap C) (s : Store C) (o a : ℕ)
      → Refines h s
      → h.object o ≡ some a
      → Refines
          (record h { cell = set_at h.cell a none; object = set_at h.object o none })
          (record s { value = set_at s.value o none })
  freed-Refines h s o a r at = record {
    owns = freed-IsOwned h r.owns o a at;
    same_values =
        λ p. view_freed h r.owns o a at p ∙ ap (λ f. set_at f o none p) (λ i q. r.same_values q i);
    same_count = r.same_count;
  }

  -- A call that returns in a heap that has the values.
  unfoldable pub Does : Outcome (Unit {0} × Heap C) → Store C → Type 0
  Does r s = (g : Heap C) × (r ≡ ok (tt, g)) × Refines g s

  pub ctx_of_lem : (h : Heap C) (o a : ℕ) → h.object o ≡ some a → ctx_of o h ≡ ok (a, h)
  unfolding ctx_of
  ctx_of_lem h o a at = rw (ctx_of, at) refl

  pub deref_lem : (h : Heap C) (a : ℕ) (x : C) → h.cell a ≡ some x → deref a h ≡ ok (x, h)
  unfolding deref
  deref_lem h a x is = rw (deref, is) refl

  pub release_lem :
      (h : Heap C) (this a : ℕ)
      → h.object this ≡ some a
      → (x : C) × (h.cell a ≡ some x)
      → release this h ≡ ok (tt, record h { cell = set_at h.cell a none })
  unfolding release delete_ctx
  release_lem h this a at (x, is) = rw (ctx_of_lem h this a at, delete_ctx, is) refl

  assigned-heap :
      (h : Heap C) (this rhs a b : ℕ) (x : C)
      → IsOwned h
      → this ≢ rhs
      → h.object this ≡ some a
      → h.object rhs ≡ some b
      → h.cell b ≡ some x
      → assign this rhs h
        ≡ ok (
          tt,
          record h {
            cell = set_at (set_at h.cell a none) h.next (some x);
            next = suc h.next;
            object = set_at h.object this (some h.next);
          },
        )
  unfolding assign new_ctx set_ctx
  assigned-heap h this rhs a b x owns ne at from is =
      let freed : Heap C = record h { cell = set_at h.cell a none } in
      let is' : freed.cell b ≡ some x =
        set_at_other h.cell a none b (λ e. ne (owns.sole this rhs a at (from ∙ ap some e))) ∙ is in
      rw
        (
          differ,
          release_lem h this a at (owns.live this a at),
          ctx_of_lem freed rhs b from,
          deref_lem freed b x is',
        )
        refl
    where
      differ : (this == rhs) ≡ false
      differ = ground arith

  pub below : (h : Heap C) (s : Store C) (o a : ℕ) → Refines h s → h.object o ≡ some a → o < s.count
  below h s o a r at = elim (dec_lt o s.count) [
    | yes e ↦ e
    | no e ↦ none_some (sym (r.owns.fresh_objects o (omega (arith, r.same_count))) ∙ at)
  ]

  pub same_heap : {h g : Heap C} {s t : Store C} → h ≡ g → s ≡ t → Refines h s → Refines g t
  same_heap {h = h} {t = t} e f r = subst (λ x. Refines x t) e (subst (Refines h) f r)

  pub assign-Does :
      (h : Heap C) (s : Store C) (this rhs : ℕ)
      → Refines h s
      → Alive s this
      → Alive s rhs
      → Does (assign this rhs h) (record s { value = set_at s.value this (s.value rhs) })
  unfolding assign Alive Does
  assign-Does h s this rhs r (w, at) (x, is) = elim (ℕ_discrete this rhs) [
    | yes same ↦ (
      h,
      rw ((==_iff this rhs).1 same) refl,
      record {
        owns = r.owns;
        same_values = λ p.
            r.same_values p
            ∙ sym (
                ap (λ f. f p)
                  (ap (λ o. set_at s.value this (s.value o)) (sym same)
                    ∙ set_at_self s.value this));
        same_count = r.same_count;
      },
    )
    | no ne ↦
        let (a, at', cell_a) = address h.cell (h.object this) (r.same_values this ∙ at) in
        let (b, from, cell_b) = address h.cell (h.object rhs) (r.same_values rhs ∙ is) in
        let freed = freed-Refines h s this a r at' in
        let g : Heap C = record h {
          cell = set_at (set_at h.cell a none) h.next (some x);
          next = suc h.next;
          object = set_at h.object this (some h.next);
        } in
        (
          g,
          assigned-heap h this rhs a b x r.owns ne at' from cell_b,
          same_heap
              (ap (λ f. record g { object = f; objects = s.count })
                  (set_at_twice h.object this none (some h.next))
                ∙ ap (λ k. record g { objects = k }) (sym r.same_count))
              (ap (λ f. record s { value = f })
                (set_at_twice s.value this none (some x) ∙ ap (set_at s.value this) (sym is)))
              (taken-Refines
                (record h { cell = set_at h.cell a none; object = set_at h.object this none })
                (record s { value = set_at s.value this none }) this s.count x freed
                (set_at_same h.object this none) (below h s this a r at')
                (omega (arith, r.same_count))),
        )
  ]
