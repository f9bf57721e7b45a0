-- ===== src/Common/Items.antt =====
-- inc/commontypes.h `vector_io` in the binary form: the items of a block, one behind the other.
use mathlib.Core.Path.{subst}
use mathlib.Core.List.{map}
use mopa.Base.{
  ℕ, zero, suc, ◌+◌, ◌*◌, ◌<◌, ◌≤◌, ◌≡◌, refl, ap, arith, List, [], ◌∷◌, length, true, false, ◌==◌,
  gt→==, if◌then◌else◌, sub32, ok, bind, M, ◌>>=◌, pure,
}
use mopa.Io.BinaryIn.{IbCtx}
use mopa.Io.BinaryOut.{ObCtx}
use mopa.Io.Facade.{Ctx, parsing, ib, block_size_left, ix_block_size_left}
use mopa.Io.BinaryIn
use mopa.Io.Coding.{CanRead, Codes, Codes-then, Codes-bind, Leads-none}
use mopa.Io.Coding.{Codes-read_as}
use mopa.Common.Vector.{rounds, read_items, write_items}

abbrev pub total {ℓ} : {A : Type ℓ} → (A → ℕ) → List A → ℕ
total size [] = 0
total size (a ∷ rest) = size a + total size rest

abbrev pub Every {ℓ} : {A : Type ℓ} → (A → Type 0) → List A → Type 0
Every P [] = Unit
Every P (a ∷ rest) = P a × Every P rest

module _ {Item : Type 0} (write : Item → M Ctx Item) (read : Item → M Ctx Item) (fresh : Item)
    (done : Item → Item) (size : Item → ℕ) (Good : Item → Type 0)
    (item-Codes : (i : Item)
      → Good i
      → Codes 0 false (write i) (done i) (read fresh) (done i) (size i * 8))
    (not_empty : (i : Item) → 0 < size i) where
  items_fit : (items : List Item) → length items ≤ total size items
  items_fit [] = omega arith
  items_fit (i ∷ items) = omega (arith, items_fit items, not_empty i)

  -- The test of the loop, in front of `m` more bytes and at the end of the block.
  another :
      (m n : ℕ) (after : List ℕ) (c : ObCtx) (r : IbCtx) (more : M Ctx (List Item))
      → CanRead true (m * 8 + n) after c r
      → 0 < m
      → bind
          (block_size_left (parsing (ib r)))
          (λ (left, y). if left == 0 then ok ([], y) else more y)
        ≡ more (parsing (ib r))
  unfolding block_size_left ix_block_size_left BinaryIn.block_size_left
  another m n after c r more found some =
      let limit : r.bitpos + (m * 8 + n) ≡ r.bitlimit =
        omega (arith, found.ends, found.same_place) in
      let left : 0 < sub32 r.bitlimit r.bitpos = omega (arith, found.word) in
      rw (gt→== (sub32 r.bitlimit r.bitpos) 0 left) refl

  nothing_left :
      (after : List ℕ) (c : ObCtx) (r : IbCtx) (more : M Ctx (List Item))
      → CanRead true 0 after c r
      → bind
          (block_size_left (parsing (ib r)))
          (λ (left, y). if left == 0 then ok ([], y) else more y)
        ≡ ok ([], parsing (ib r))
  unfolding block_size_left ix_block_size_left BinaryIn.block_size_left
  nothing_left after c r more found =
      let none_left : sub32 r.bitlimit r.bitpos ≡ 0 =
        omega (arith, found.ends, found.same_place, found.word) in
      rw none_left refl

  read_items-Codes :
      (items : List Item) (fuel : ℕ)
      → Every Good items
      → length items < fuel
      → Codes 0 true
          (write_items write fresh items)
          (map done items)
          (read_items read fresh fuel)
          (map done items)
          (total size items * 8)
  unfolding read_items write_items
  read_items-Codes items zero good enough = absurd (omega arith)
  read_items-Codes [] (suc fuel) good enough =
      Codes-read_as (pure []) (Leads-none true (pure []) (pure []))
        λ after c r found. nothing_left after c r _ found
  read_items-Codes (i ∷ items) (suc fuel) (good, rest) enough =
      let more : M Ctx (List Item) =
        read fresh >>= λ item. read_items read fresh fuel >>= λ others. pure (item ∷ others) in
      let codes : Codes 0 true (write_items write fresh (i ∷ items)) (map done (i ∷ items)) more
          (map done (i ∷ items)) (size i * 8 + total size items * 8) =
        Codes-then _ _ (item-Codes i good) (omega arith) (
          Codes-bind (λ others. pure (done i ∷ others)) (λ others. pure (done i ∷ others))
            (read_items-Codes items fuel rest (omega arith))) in
      subst
        (λ n.
          Codes 0 true (write_items write fresh (i ∷ items)) (map done (i ∷ items))
            (read_items read fresh (suc fuel)) (map done (i ∷ items)) n)
        (omega arith)
        (Codes-read_as more codes λ after c r found.
          another (size i) (total size items * 8) after c r more found (not_empty i))

  -- The two loops on all the items of a block, the fuel of the second as `rounds` gives it.
  pub items-Codes :
      (items : List Item)
      → Every Good items
      → Codes 0 true
          (write_items write fresh items)
          (map done items)
          (λ x. read_items read fresh (rounds x) x)
          (map done items)
          (total size items * 8)
  unfolding rounds
  items-Codes items good =
      let enough : length items < suc (total size items * 8) = omega (arith, items_fit items) in
      Codes-read_as (read_items read fresh (suc (total size items * 8)))
        (read_items-Codes items (suc (total size items * 8)) good enough)
        λ after c r found.
          let left : sub32 r.bitlimit r.bitpos ≡ total size items * 8 =
            omega (arith, found.ends, found.same_place, found.word) in
          ap (λ n. read_items read fresh (suc n) (parsing (ib r))) left
