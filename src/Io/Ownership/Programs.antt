-- ===== src/Io/Ownership/Programs.antt =====
-- Programs over `iox` objects.
use mopa.Base.{ℕ, ◌≡◌, refl, sym, ap, ◌∙◌, Option, none, some, ok, List, [], ◌∷◌}
use mopa.Io.Ownership.{Heap}
use mopa.Io.Ownership.Owners.{none_some}
use mopa.Io.Ownership.Views.{look}
use mopa.Io.Ownership.Values.{
  Store, Command, spec, Refines, empty_heap, empty_store, run_all, spec_all, AllLive,
}
use mopa.Io.Ownership.Steps.{run-Does}
use mopa.Io.Ownership.Assigning.{Does}

module _ {C : Type 0} where
  all-Does :
      (blank : C) (cs : List (Command C)) (h : Heap C) (s : Store C)
      → Refines h s
      → AllLive cs s
      → (g : Heap C) × (run_all blank cs h ≡ ok (tt, g)) × Refines g (spec_all cs s)
  unfolding run_all spec_all AllLive Does
  all-Does blank [] h s r live = (h, refl, r)
  all-Does blank (c ∷ cs) h s r live =
      let (g, e, r') = run-Does blank c h s r live.0 in
      let (k, e', r'') = all-Does blank cs g (spec c s) r' live.1 in (k, rw (e, e') refl, r'')

  empty-Refines : Refines {C = C} empty_heap empty_store
  unfolding look
  empty-Refines = record {
    owns = record {
      fresh_cells = λ a e. refl;
      fresh_objects = λ o e. refl;
      live = λ o a e. none_some e;
      sole = λ o p a e f. none_some e;
      owned = λ a x e. none_some e;
    };
    same_values = λ o. refl;
    same_count = refl;
  }

-- A program of constructions, copies, assignments (also of an object to itself), changes and
-- destructions of `iox` objects, each on objects that are alive then, touches no context that is
-- deleted and deletes none twice. After it each object has the context that it would have if objects
-- held their contexts by value, and every context that is not deleted belongs to one object that is
-- alive, which no other shares.
pub run_all-Refines :
    {C : Type 0} (blank : C) (cs : List (Command C))
    → AllLive cs empty_store
    → (g : Heap C) × (run_all blank cs empty_heap ≡ ok (tt, g))
      × Refines g (spec_all cs empty_store)
run_all-Refines blank cs live = all-Does blank cs empty_heap empty_store empty-Refines live

-- After a program of constructions, copies, assignments, changes and destructions of `iox` objects,
-- each on objects that are alive then, at the end of which no object is alive, all contexts are deleted.
pub run_all_frees :
    {C : Type 0} (blank : C) (cs : List (Command C))
    → AllLive cs empty_store
    → ((o : ℕ) → (spec_all cs empty_store).value o ≡ none)
    → (g : Heap C) × (run_all blank cs empty_heap ≡ ok (tt, g)) × ((a : ℕ) → g.cell a ≡ none)
unfolding look
run_all_frees {C} blank cs live ended =
    let (g, e, r) = run_all-Refines blank cs live in (g, e, λ a. gone g r a (g.cell a) refl)
  where
    gone :
        (g : Heap C)
        → Refines g (spec_all cs empty_store)
        → (a : ℕ) (q : Option C) → g.cell a ≡ q
        → g.cell a ≡ none
    gone g r a none e = e
    gone g r a (some x) e =
        let (o, at) = r.owns.owned a x e in
        none_some (sym (ended o) ∙ sym (r.same_values o) ∙ ap (look g.cell) at ∙ e)
