-- ===== src/PatternRewriter.antt =====
-- `PatternRewriter` and `GreedyRewritePatternApplier` of xdsl/pattern_rewriter.py. A method is a state
-- passing function on the rewriter and the store. `depth`, `fuel` and `erased` are those of the methods of
-- the store; the way up from an operation runs on `depth`.
pub mod Methods
pub mod Affected
pub mod Walker
use xdsl.Prelude.{
  ℕ, zero, suc, Bool, true, false, not, Option, none, some, List, [], ◌==◌, if◌then◌else◌,
}
use xdsl.Result.{Exn, Result, ok, err, exception, out_of_fuel}
use xdsl.Ir.Store.{Ir, M, is_ref}
use xdsl.Ir.Store
use xdsl.Ir.Block.{Node, an_op, parent_node, is_same}
use xdsl.Ir.Erase

pub record PatternRewriter : Type 0 where
  pub current_operation : ℕ
  pub has_erased_matched_operation : Bool
  pub added_operations_before : List ℕ
  pub added_operations_after : List ℕ
  pub has_done_action : Bool

-- `PatternRewriter(op)`
abbrev pub pattern_rewriter : ℕ → PatternRewriter
pattern_rewriter op = record {
  current_operation = op;
  has_erased_matched_operation = false;
  added_operations_before = [];
  added_operations_after = [];
  has_done_action = false;
}

abbrev pub W : Type 0 → Type 0
W A = PatternRewriter → Ir → Result A × (PatternRewriter × Ir)

module _ {A B : Type 0} where
  abbrev pub continue : Result A → (A → W B) → W B
  continue (ok a) f r s = f a r s
  continue (err e) f r s = (err e, (r, s))

  infixl 5 ◌>>=◌
  abbrev pub ◌>>=◌ : W A → (A → W B) → W B
  ◌>>=◌ m f r s = continue (m r s).0 f (m r s).1.0 (m r s).1.1

infixl 5 ◌>>◌
abbrev pub ◌>>◌ : {B : Type 0} → W (Unit {0}) → W B → W B
m >> k = m >>= λ _. k

abbrev pub pure : {A : Type 0} → A → W A
pure a r s = (ok a, (r, s))

abbrev pub raise : {A : Type 0} → Exn → W A
raise e r s = (err e, (r, s))

-- A method of the store.
abbrev pub on_ir : {A : Type 0} → M A → W A
on_ir m r s = ((m s).0, (r, (m s).1))

-- An assignment to attributes of the rewriter.
abbrev pub assign : (PatternRewriter → PatternRewriter) → W (Unit {0})
assign f r s = (ok tt, (f r, s))

-- `if not test: raise Exception`
abbrev pub check : Bool → W (Unit {0})
check true = pure tt
check false = raise exception

-- `get_toplevel_object`
unfoldable pub get_toplevel_object : ℕ → Node → M Node
get_toplevel_object zero self s = (err out_of_fuel, s)
get_toplevel_object (suc depth) self s = elim (parent_node s self) [
  | none ↦ (ok self, s)
  | some parent ↦ get_toplevel_object depth parent s
]

-- `_can_modify_region` and `_can_modify_op_in_block`, where `of_op` is `_can_modify_op`.
unfoldable pub can_modify_region : (ℕ → M Bool) → ℕ → M Bool
can_modify_region of_op region s = elim (s.region region).parent [
  | none ↦ (ok true, s)
  | some op ↦ of_op op s
]

unfoldable pub can_modify_op_in_block : (ℕ → M Bool) → ℕ → M Bool
unfolding can_modify_region
can_modify_op_in_block of_op block s = elim (s.block block).parent [
  | none ↦ (ok true, s)
  | some region ↦ can_modify_region of_op region s
]

-- `_can_modify_op` of an operation that is not the matched one.
unfoldable pub can_modify_other : (ℕ → M Bool) → ℕ → ℕ → ℕ → Option ℕ → M Bool
unfolding can_modify_op_in_block get_toplevel_object
can_modify_other of_op depth current op none =
    Store.◌>>=◌ (get_toplevel_object depth (an_op current))
      (λ top. Store.pure (not (is_same top (an_op op))))
can_modify_other of_op depth current op (some block) = can_modify_op_in_block of_op block

unfoldable pub can_modify_op : ℕ → ℕ → ℕ → M Bool
unfolding can_modify_other
can_modify_op zero current op s = (err out_of_fuel, s)
can_modify_op (suc depth) current op s =
    let other =
      can_modify_other (can_modify_op depth current) (suc depth) current op (s.op op).parent s in
    if op == current then (ok true, s) else other

-- `_can_modify_block`
unfoldable pub can_modify_block : ℕ → ℕ → ℕ → M Bool
unfolding can_modify_op_in_block can_modify_op
can_modify_block depth current block s =
    if is_ref (s.op current).parent block
    then (ok true, s)
    else can_modify_op_in_block (can_modify_op depth current) block s
