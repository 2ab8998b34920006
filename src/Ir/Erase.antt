-- ===== src/Ir/Erase.antt =====
-- Erasing operations, blocks and regions (xdsl/ir/core.py), and `erase_op` and `replace_op` of `Rewriter`
-- (xdsl/rewriter.py). The recursion into regions runs on the fuel `depth`, the iteration over the
-- operations of a block on `fuel`; dropping references changes no link between operations. `erased` gives
-- the new `ErasedSSAValue` that stands for a value.
pub mod References
pub mod Results
pub mod Unused
use xdsl.Prelude.{
  ℕ, zero, suc, Bool, true, false, Option, none, some, List, [], ◌∷◌, length, map, ◌==◌,
  if◌then◌else◌,
}
use xdsl.Result.{assertion, value_error, out_of_fuel}
use xdsl.Ir.Store.{
  Ir, M, ◌>>=◌, ◌>>◌, pure, raise, check, gets, modify, update, set_parent, is_none,
}
use xdsl.Ir.Block.{detach_op, block_ops, insert_ops_after}
use xdsl.Ir.Uses.{remove_uses, replace_by}
use xdsl.Ir.Uses
use xdsl.Ir.Region.{set_block_parent}

abbrev set_region_parent : ℕ → Option ℕ → Ir → Ir
set_region_parent r p s = record s {
  region = update s.region r (record (s.region r) { parent = p });
}

-- `for x in xs`
abbrev pub each : (ℕ → M (Unit {0})) → List ℕ → M (Unit {0})
each body [] = pure tt
each body (x ∷ xs) = body x >> each body xs

-- `Block.drop_all_references`; `drop` is the method of the operations.
unfoldable pub drop_block : (ℕ → M (Unit {0})) → ℕ → ℕ → M (Unit {0})
drop_block drop fuel self = do
  modify (set_block_parent self none)
  ops ← block_ops fuel self
  each drop ops

-- `Region.drop_all_references`
unfoldable pub drop_region : (ℕ → M (Unit {0})) → ℕ → ℕ → M (Unit {0})
unfolding drop_block
drop_region drop fuel self = do
  modify (set_region_parent self none)
  blocks ← gets (λ s. (s.region self).blocks)
  each (drop_block drop fuel) blocks

-- The two loops of `Operation.drop_all_references`
unfoldable pub drop_operands_and_regions : (ℕ → M (Unit {0})) → ℕ → ℕ → M (Unit {0})
unfolding drop_region
drop_operands_and_regions drop fuel self = do
  operands ← gets (λ s. (s.op self).operands)
  remove_uses self 0 operands
  regions ← gets (λ s. (s.op self).regions)
  each (drop_region drop fuel) regions

-- `Operation.drop_all_references`
unfoldable pub drop_all_references : ℕ → ℕ → ℕ → M (Unit {0})
unfolding drop_operands_and_regions
drop_all_references zero fuel self = raise out_of_fuel
drop_all_references (suc depth) fuel self =
    modify (set_parent self none)
    >> drop_operands_and_regions (drop_all_references depth fuel) fuel self

-- `for result in self.results: result.erase(safe_erase=safe_erase)`
unfoldable pub erase_results : Bool → (ℕ → ℕ) → List ℕ → M (Unit {0})
erase_results safe_erase erased results =
    each (λ result. Uses.erase result safe_erase (erased result)) results

-- `Operation.erase`
unfoldable pub erase : ℕ → ℕ → (ℕ → ℕ) → ℕ → Bool → Bool → M (Unit {0})
unfolding drop_all_references erase_results
erase depth fuel erased self safe_erase drop_references = do
  parent ← gets (λ s. (s.op self).parent)
  check (is_none parent) assertion
  if drop_references then drop_all_references depth fuel self else pure tt
  results ← gets (λ s. (s.op self).results)
  erase_results safe_erase erased results

-- `Block.erase`
unfoldable pub erase_block : ℕ → ℕ → (ℕ → ℕ) → ℕ → Bool → M (Unit {0})
unfolding drop_block erase drop_all_references
erase_block depth fuel erased self safe_erase = do
  parent ← gets (λ s. (s.block self).parent)
  check (is_none parent) assertion
  drop_block (drop_all_references depth fuel) fuel self
  ops ← block_ops fuel self
  each (λ op. erase depth fuel erased op safe_erase false) ops

-- `Region.erase`; an operation is truthy, so `assert self.parent` asks for a parent.
unfoldable pub erase_region : ℕ → ℕ → ℕ → M (Unit {0})
unfolding drop_region drop_all_references
erase_region depth fuel self = do
  parent ← gets (λ s. (s.region self).parent)
  check (if is_none parent then false else true) assertion
  drop_region (drop_all_references depth fuel) fuel self

-- `Block.erase_op`
unfoldable pub block_erase_op : ℕ → ℕ → (ℕ → ℕ) → ℕ → ℕ → Bool → M (Unit {0})
unfolding erase
block_erase_op depth fuel erased self op safe_erase = do
  detach_op self op
  erase depth fuel erased op safe_erase true

-- `Rewriter.erase_op`
abbrev erase_from : ℕ → ℕ → (ℕ → ℕ) → ℕ → Bool → Option ℕ → M (Unit {0})
erase_from depth fuel erased op safe_erase none = raise assertion
erase_from depth fuel erased op safe_erase (some block) =
    block_erase_op depth fuel erased block op safe_erase

unfoldable pub erase_op : ℕ → ℕ → (ℕ → ℕ) → ℕ → Bool → M (Unit {0})
unfolding block_erase_op
erase_op depth fuel erased op safe_erase = do
  parent ← gets (λ s. (s.op op).parent)
  erase_from depth fuel erased op safe_erase parent

-- `[] if len(new_ops) == 0 else new_ops[-1].results`, where no results are given
abbrev last_results : List ℕ → Ir → List ℕ
last_results [] s = []
last_results (op ∷ []) s = (s.op op).results
last_results (op ∷ op' ∷ ops) s = last_results (op' ∷ ops) s

abbrev new_results_or : Option (List (Option ℕ)) → List ℕ → Ir → List (Option ℕ)
new_results_or (some new_results) new_ops s = new_results
new_results_or none new_ops s = map some (last_results new_ops s)

-- A result is erased where there is `None` for it, and otherwise replaced.
abbrev replace_result : (ℕ → ℕ) → Bool → ℕ → Option ℕ → M (Unit {0})
replace_result erased safe_erase old_result none =
    Uses.erase old_result safe_erase (erased old_result)
replace_result erased safe_erase old_result (some new_result) = replace_by old_result new_result

-- The loop over the results and the new ones.
unfoldable pub replace_results : (ℕ → ℕ) → Bool → List ℕ → List (Option ℕ) → M (Unit {0})
replace_results erased safe_erase (old ∷ olds) (new ∷ news) = do
  replace_result erased safe_erase old new
  replace_results erased safe_erase olds news
replace_results erased safe_erase _ _ = pure tt

abbrev set_name_hint : ℕ → Option ℕ → Ir → Ir
set_name_hint v h s = record s { value = update s.value v (record (s.value v) { name_hint = h }) }

-- `res.name_hint = op.results[0].name_hint`, where `first` is the first result
unfoldable pub name_results : ℕ → List ℕ → M (Unit {0})
name_results first results =
    each (λ res. modify (λ s. set_name_hint res (s.value first).name_hint s)) results

-- The loop over the new operations, if there are results.
unfoldable pub name_ops : List ℕ → List ℕ → M (Unit {0})
unfolding name_results
name_ops [] new_ops = pure tt
name_ops (first ∷ _) new_ops =
    each (λ new_op. gets (λ s. (s.op new_op).results) >>= name_results first) new_ops

-- `Rewriter.replace_op` of an operation in a block
unfoldable pub replace_in :
    ℕ → ℕ → (ℕ → ℕ) → ℕ → List ℕ → Option (List (Option ℕ)) → Bool → Option ℕ → M (Unit {0})
unfolding replace_results name_ops block_erase_op
replace_in depth fuel erased op new_ops new_results safe_erase none = raise value_error
replace_in depth fuel erased op new_ops new_results safe_erase (some block) = do
  news ← gets (new_results_or new_results new_ops)
  results ← gets (λ s. (s.op op).results)
  check (length results == length news) value_error
  replace_results erased safe_erase results news
  insert_ops_after depth block new_ops op
  name_ops results new_ops
  block_erase_op depth fuel erased block op safe_erase

unfoldable pub replace_op :
    ℕ → ℕ → (ℕ → ℕ) → ℕ → List ℕ → Option (List (Option ℕ)) → Bool → M (Unit {0})
unfolding replace_in
replace_op depth fuel erased op new_ops new_results safe_erase = do
  parent ← gets (λ s. (s.op op).parent)
  replace_in depth fuel erased op new_ops new_results safe_erase parent
