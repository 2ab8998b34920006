-- ===== src/Ir/Uses.antt =====
-- The uses of SSA values (xdsl/ir/core.py): `SSAValue`, `OpOperands`, and the setter of the operands. A
-- set of uses is a list in which a use may stand more than once; removing it takes all of them.
pub mod Sets
pub mod Consistent
pub mod Replace
use xdsl.Prelude.{
  ℕ, suc, Bool, true, false, not, ◌&&◌, none, some, List, [], ◌∷◌, get_elem?, set, ◌==◌,
  if◌then◌else◌,
}
use xdsl.Result.{exception, assertion, index_error}
use xdsl.Ir.Store.{Ir, Use, M, ◌>>=◌, ◌>>◌, pure, raise, check, gets, modify, update, is_none}

abbrev pub use_at : ℕ → ℕ → Use
use_at op idx = record { operation = op; index = idx }

-- `==` of uses
abbrev pub same_use : Use → Use → Bool
same_use u v = (u.operation == v.operation) && (u.index == v.index)

-- `use in uses`
unfoldable pub has_use : Use → List Use → Bool
has_use u [] = false
has_use u (v ∷ vs) = if same_use u v then true else has_use u vs

-- `uses.remove(use)`
unfoldable pub without : Use → List Use → List Use
without u [] = []
without u (v ∷ vs) = if same_use u v then without u vs else v ∷ without u vs

abbrev pub set_uses : ℕ → List Use → Ir → Ir
set_uses v us s = record s { value = update s.value v (record (s.value v) { uses = us }) }

abbrev pub set_operand_list : ℕ → List ℕ → Ir → Ir
set_operand_list op vs s = record s { op = update s.op op (record (s.op op) { operands = vs }) }

unfoldable pub add_use : ℕ → Use → M (Unit {0})
add_use self use_ = modify (λ s. set_uses self (use_ ∷ (s.value self).uses) s)

unfoldable pub remove_use : ℕ → Use → M (Unit {0})
unfolding has_use without
remove_use self use_ = do
  uses ← gets (λ s. (s.value self).uses)
  check (has_use use_ uses) assertion
  modify (λ s. set_uses self (without use_ (s.value self).uses) s)

-- `operands[idx]`
unfoldable pub operand_at : ℕ → ℕ → M ℕ
operand_at op idx s = elim (get_elem? (s.op op).operands idx) [
  | none ↦ raise index_error s
  | some v ↦ pure v s
]

-- `OpOperands.__setitem__`, at an index that is not negative
unfoldable pub set_item : ℕ → ℕ → ℕ → M (Unit {0})
unfolding operand_at remove_use add_use
set_item op idx operand = do
  operands ← gets (λ s. (s.op op).operands)
  old ← operand_at op idx
  remove_use old (use_at op idx)
  add_use operand (use_at op idx)
  modify (set_operand_list op (set operands idx operand))

-- The two loops of the setter of `operands`, from the index on.
unfoldable pub remove_uses : ℕ → ℕ → List ℕ → M (Unit {0})
unfolding remove_use
remove_uses op idx [] = pure tt
remove_uses op idx (v ∷ vs) = do remove_use v (use_at op idx); remove_uses op (suc idx) vs

unfoldable pub add_uses : ℕ → ℕ → List ℕ → M (Unit {0})
unfolding add_use
add_uses op idx [] = pure tt
add_uses op idx (v ∷ vs) = do add_use v (use_at op idx); add_uses op (suc idx) vs

-- The setter of `operands`
unfoldable pub set_operands : ℕ → List ℕ → M (Unit {0})
unfolding remove_uses add_uses
set_operands self new = do
  operands ← gets (λ s. (s.op self).operands)
  remove_uses self 0 operands
  add_uses self 0 new
  modify (set_operand_list self new)

-- The loop of `replace_by` over a copy of the uses.
unfoldable pub replace_uses : ℕ → List Use → M (Unit {0})
unfolding set_item
replace_uses value [] = pure tt
replace_uses value (u ∷ us) = do set_item u.operation u.index value; replace_uses value us

abbrev pub is_empty {ℓ} : {A : Type ℓ} → List A → Bool
is_empty [] = true
is_empty (x ∷ xs) = false

-- `value.name_hint = self.name_hint`, if it has none; a name that a value has is valid.
unfoldable pub carry_name : ℕ → ℕ → Ir → Ir
carry_name self value s =
    if is_none (s.value value).name_hint
    then record s {
      value =
          update s.value value (record (s.value value) { name_hint = (s.value self).name_hint });
    }
    else s

unfoldable pub replace_by : ℕ → ℕ → M (Unit {0})
unfolding replace_uses carry_name
replace_by self value = do
  uses ← gets (λ s. (s.value self).uses)
  replace_uses value uses
  modify (carry_name self value)
  left ← gets (λ s. (s.value self).uses)
  check (is_empty left) assertion

-- `erase`; `erased` is the new `ErasedSSAValue`
unfoldable pub erase : ℕ → Bool → ℕ → M (Unit {0})
unfolding replace_by
erase self safe_erase erased = do
  uses ← gets (λ s. (s.value self).uses)
  check (not (safe_erase && not (is_empty uses))) exception
  replace_by self erased
