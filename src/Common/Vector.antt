-- ===== src/Common/Vector.antt =====
-- inc/commontypes.h `vector_io`: the items of a block, up to its end.
use mopa.Base.{ℕ, zero, suc, List, [], ◌∷◌, ◌==◌, if◌then◌else◌, length, sub32}
use mopa.Base.{ok, out_of_fuel, bind, M, ◌>>=◌, pure}
use mopa.Io.Facade.{Ctx, parsing, constructing, ib, ic, is_parsing, block_size_left}

-- Rounds that suffice where each of them takes a bit of the block or a byte of the text.
unfoldable pub rounds : Ctx → ℕ
rounds (parsing (ib c)) = suc (sub32 c.bitlimit c.bitpos)
rounds (parsing (ic c)) = suc (length c.parse_pos)
rounds (constructing c) = 0

module _ {Item : Type 0} (io : Item → M Ctx Item) (fresh : Item) where
  -- `while(x.block_size_left()>0)`: a new item is pushed and read.
  unfoldable pub read_items : ℕ → M Ctx (List Item)
  read_items zero x = out_of_fuel
  read_items (suc fuel) x =
      let more : M Ctx (List Item) = do item ← io fresh; rest ← read_items fuel; pure (item ∷ rest)
      in bind (block_size_left x) λ (left, y). if left == 0 then ok ([], y) else more y

  unfoldable pub write_items : List Item → M Ctx (List Item)
  write_items [] x = ok ([], x)
  write_items (item ∷ items) x =
      bind (io item x) λ (item', y). bind (write_items items y) λ (rest, z). ok (item' ∷ rest, z)

  unfoldable pub vector_io : List Item → M Ctx (List Item)
  vector_io items x = if is_parsing x then read_items (rounds x) x else write_items items x
