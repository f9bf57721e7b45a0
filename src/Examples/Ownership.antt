-- ===== src/Examples/Ownership.antt =====
-- A run of copies and assignments.
use mopa.Base.{ℕ, ◌≡◌, refl, arith, none, ok, List, [], ◌∷◌}
use mopa.Io.Facade.{Ctx, parse_binary, parse_text}
use mopa.Io.Ownership.{Heap, set_at}
use mopa.Io.Ownership.Values.{
  Command, made, copied, destroyed, assigned, changed, spec, map_value, Alive, Live, Refines,
  empty_heap, empty_store, run_all, spec_all, AllLive,
}
use mopa.Io.Ownership.Programs.{run_all-Refines, run_all_frees}

-- `iox()`
abbrev no_data : Ctx
no_data = parse_binary [] 0

-- An object is made, copied and assigned, to itself as well, and the objects end.
abbrev program : List (Command Ctx)
program =
    made (parse_text (0x7b ∷ 0x7d ∷ []))
    ∷ copied 0
    ∷ made (parse_binary (0x47 ∷ 1 ∷ []) 2)
    ∷ assigned 0 2
    ∷ assigned 2 2
    ∷ changed (λ x. no_data) 0
    ∷ destroyed 1
    ∷ destroyed 0
    ∷ destroyed 2
    ∷ []

program-AllLive : AllLive program empty_store
unfolding AllLive Live Alive spec set_at map_value
program-AllLive = (
  tt,
  (
    (_, refl),
    (
      tt,
      (
        ((_, refl), (_, refl)),
        (((_, refl), (_, refl)), ((_, refl), ((_, refl), ((_, refl), ((_, refl), tt))))),
      ),
    ),
  ),
)

run_all-Refines_example :
    (g : Heap Ctx) × (run_all no_data program empty_heap ≡ ok (tt, g))
    × Refines g (spec_all program empty_store)
run_all-Refines_example = run_all-Refines no_data program program-AllLive

nothing_alive : (o : ℕ) → (spec_all program empty_store).value o ≡ none
unfolding spec_all spec set_at map_value
nothing_alive o = ground arith

run_all_frees_example :
    (g : Heap Ctx) × (run_all no_data program empty_heap ≡ ok (tt, g)) × ((a : ℕ) → g.cell a ≡ none)
run_all_frees_example = run_all_frees no_data program program-AllLive nothing_alive
