-- ===== src/Io/Ownership/Steps.antt =====
-- Each step of `iox` on the heap, as a change of one object's value.
use mopa.Base.{ℕ, suc, ◌≡◌, ◌≢◌, refl, sym, ap, ◌∙◌, arith, none, some, ok}
use mopa.Io.Ownership.{Heap, set_at, new_ctx, construct, copy, destroy, change}
use mopa.Io.Ownership.Views.{address, view_changed}
use mopa.Io.Ownership.Owners.{set_at_same, set_at_other, set_at_twice, changed-IsOwned}
use mopa.Io.Ownership.Values.{
  Store, Command, made, copied, destroyed, assigned, changed, run, map_value, spec, Alive, Live,
  Refines,
}
use mopa.Io.Ownership.Assigning.{
  taken-Refines, freed-Refines, Does, ctx_of_lem, deref_lem, release_lem, below, same_heap,
  assign-Does,
}

module _ {C : Type 0} where
  construct-Does :
      (h : Heap C) (s : Store C) (x : C)
      → Refines h s
      → (g : Heap C) × (construct x h ≡ ok (s.count, g))
        × Refines g (record { value = set_at s.value s.count (some x); count = suc s.count })
  unfolding construct new_ctx
  construct-Does h s x r =
      let g : ℕ → Heap C = λ n. record h {
        cell = set_at h.cell h.next (some x);
        next = suc h.next;
        object = set_at h.object n (some h.next);
        objects = suc n;
      } in
      (
        g s.count,
        ap (λ n. ok (n, g n)) r.same_count,
        taken-Refines h s s.count (suc s.count) x r
            (r.owns.fresh_objects s.count (omega (arith, r.same_count))) (omega arith)
            (omega (arith, r.same_count)),
      )

  copy-Does :
      (blank : C) (h : Heap C) (s : Store C) (from : ℕ)
      → Refines h s
      → Alive s from
      → (g : Heap C) × (copy blank from h ≡ ok (s.count, g))
        × Refines g (record { value = set_at s.value s.count (s.value from); count = suc s.count })
  unfolding copy Alive Does
  copy-Does blank h s from r (x, is) =
      let (g, new, r') = construct-Does h s blank r in
      let (a, at, cell) = address h.cell (h.object from) (r.same_values from ∙ is) in
      let older : from ≢ s.count = λ e. omega (arith, below h s from a r at) in
      let same : set_at s.value s.count (some blank) from ≡ s.value from =
        set_at_other s.value s.count (some blank) from older in
      let (k, done, r'') =
        assign-Does g _ s.count from r' (blank, set_at_same s.value s.count (some blank))
          (x, same ∙ is) in
      (
        k,
        rw (new, done) refl,
        same_heap refl
            (ap (λ f. record { value = f; count = suc s.count })
              (set_at_twice s.value s.count (some blank) _ ∙ ap (set_at s.value s.count) same))
            r'',
      )

  destroy-Does :
      (h : Heap C) (s : Store C) (this : ℕ)
      → Refines h s
      → Alive s this
      → Does (destroy this h) (record s { value = set_at s.value this none })
  unfolding destroy Alive Does
  destroy-Does h s this r (x, is) =
      let (a, at, cell) = address h.cell (h.object this) (r.same_values this ∙ is) in
      (
        record h { cell = set_at h.cell a none; object = set_at h.object this none },
        rw (release_lem h this a at (x, cell)) refl,
        freed-Refines h s this a r at,
      )

  change-Does :
      (f : C → C) (h : Heap C) (s : Store C) (this : ℕ)
      → Refines h s
      → Alive s this
      → Does
          (change f this h)
          (record s { value = set_at s.value this (map_value f (s.value this)) })
  unfolding change Alive Does map_value
  change-Does f h s this r (x, is) =
      let (a, at, cell) = address h.cell (h.object this) (r.same_values this ∙ is) in
      (
        record h { cell = set_at h.cell a (some (f x)) },
        rw (ctx_of_lem h this a at, deref_lem h a x cell) refl,
        record {
          owns = changed-IsOwned h r.owns this a (f x) at;
          same_values = λ p.
              view_changed h r.owns this a at (f x) p
              ∙ ap (λ v. set_at v this (some (f x)) p) (λ i q. r.same_values q i)
              ∙ ap (λ v. set_at s.value this (map_value f v) p) (sym is);
          same_count = r.same_count;
        },
      )

  pub run-Does :
      (blank : C) (c : Command C) (h : Heap C) (s : Store C)
      → Refines h s
      → Live c s
      → Does (run blank c h) (spec c s)
  unfolding run spec Live Does
  run-Does blank (made x) h s r live = let (g, e, r') = construct-Does h s x r in (g, rw e refl, r')
  run-Does blank (copied from) h s r live =
      let (g, e, r') = copy-Does blank h s from r live in (g, rw e refl, r')
  run-Does blank (destroyed this) h s r live = destroy-Does h s this r live
  run-Does blank (assigned this rhs) h s r live = assign-Does h s this rhs r live.0 live.1
  run-Does blank (changed f this) h s r live = change-Does f h s this r live
