-- ===== src/Ir/Region.antt =====
-- The blocks of a region: `Region` of xdsl/ir/core.py. `is_ancestor` runs on fuel, `depth`.
pub mod Placed
pub mod Insert
pub mod Move
use xdsl.Prelude.{
  ℕ, suc, Option, none, some, List, [], ◌∷◌, ◌++◌, length, get_elem?, ltb, ◌==◌, not, if◌then◌else◌,
}
use xdsl.Prelude.Slices.{take, drop}
use xdsl.Result.{value_error, index_error, exception, assertion}
use xdsl.Ir.Store.{Ir, M, ◌>>=◌, ◌>>◌, pure, raise, check, gets, modify, update, is_ref, is_none}
use xdsl.Ir.Block.{a_block, a_region, is_ancestor}

abbrev pub set_block_parent : ℕ → Option ℕ → Ir → Ir
set_block_parent b p s = record s { block = update s.block b (record (s.block b) { parent = p }) }

abbrev pub set_blocks : ℕ → List ℕ → Ir → Ir
set_blocks r bs s = record s { region = update s.region r (record (s.region r) { blocks = bs }) }

-- `_attach_block`; every region is truthy, so `if block.parent` asks whether there is a parent.
unfoldable pub attach_block : ℕ → ℕ → ℕ → M (Unit {0})
unfolding is_ancestor
attach_block depth self block = do
  parent ← gets (λ s. (s.block block).parent)
  check (is_none parent) value_error
  inside ← is_ancestor depth (a_block block) (a_region self)
  if inside then raise value_error else modify (set_block_parent block (some self))

unfoldable pub add_block : ℕ → ℕ → ℕ → M (Unit {0})
unfolding attach_block
add_block depth self block = do
  attach_block depth self block
  modify (λ s. set_blocks self ((s.region self).blocks ++ block ∷ []) s)

-- The loop of `insert_block`
unfoldable pub attach_blocks : ℕ → ℕ → List ℕ → M (Unit {0})
unfolding attach_block
attach_blocks depth self [] = pure tt
attach_blocks depth self (b ∷ bs) = do attach_block depth self b; attach_blocks depth self bs

-- `insert_block` of a list of blocks, at an index that is not negative
unfoldable pub insert_block : ℕ → ℕ → List ℕ → ℕ → M (Unit {0})
unfolding attach_blocks take drop
insert_block depth self blocks index = do
  old ← gets (λ s. (s.region self).blocks)
  check (not (ltb (length old) index)) value_error
  attach_blocks depth self blocks
  modify (λ s.
      let now = (s.region self).blocks in
      set_blocks self (take index now ++ (blocks ++ drop index now)) s)

-- The position of a block in a list.
unfoldable pub position : ℕ → List ℕ → Option ℕ
position b [] = none
position b (x ∷ xs) =
    if x == b then some 0 else elim (position b xs) [ none ↦ none | some i ↦ some (suc i) ]

-- `return` in the loop of `get_block_index`, or the end of it
abbrev pub position_or_assert : Option ℕ → M ℕ
position_or_assert none = raise assertion
position_or_assert (some i) = pure i

unfoldable pub get_block_index : ℕ → ℕ → M ℕ
unfolding position
get_block_index self block = do
  parent ← gets (λ s. (s.block block).parent)
  check (is_ref parent self) exception
  blocks ← gets (λ s. (s.region self).blocks)
  position_or_assert (position block blocks)

-- What `detach_block` does with a block and its index.
unfoldable pub detach_at : ℕ → ℕ → ℕ → M ℕ
unfolding take drop
detach_at self block block_idx = do
  modify (set_block_parent block none)
  modify (λ s.
      let now = (s.region self).blocks in
      set_blocks self (take block_idx now ++ drop (suc block_idx) now) s)
  pure block

-- `detach_block` of a block
unfoldable pub detach_block : ℕ → ℕ → M ℕ
unfolding get_block_index detach_at
detach_block self block = do block_idx ← get_block_index self block; detach_at self block block_idx

abbrev pub block_or_raise : Option ℕ → M ℕ
block_or_raise none = raise index_error
block_or_raise (some b) = pure b

-- `detach_block` of an index that is not negative
unfoldable pub detach_block_at : ℕ → ℕ → M ℕ
unfolding detach_at
detach_block_at self block_idx = do
  blocks ← gets (λ s. (s.region self).blocks)
  block ← block_or_raise (get_elem? blocks block_idx)
  detach_at self block block_idx

-- The loop of `move_blocks`
unfoldable pub give_blocks : ℕ → List ℕ → Ir → Ir
give_blocks region [] s = s
give_blocks region (b ∷ bs) s = give_blocks region bs (set_block_parent b (some region) s)

unfoldable pub move_blocks : ℕ → ℕ → M (Unit {0})
unfolding give_blocks
move_blocks self region = do
  blocks ← gets (λ s. (s.region self).blocks)
  modify (set_blocks region blocks)
  modify (set_blocks self [])
  now ← gets (λ s. (s.region region).blocks)
  modify (give_blocks region now)
