-- ===== src/Ir/Uses/Consistent.antt =====
-- The uses of the values are the operands of the operations, and stay so.
use xdsl.Prelude.{
  zero, ℕ, suc, ◌≡◌, ◌↔◌, ◌<◌, refl, true, some, List, [], ◌∷◌, length, get_elem?, set,
  get_elem?-lt, ◌==◌, if◌then◌else◌, arith,
}
use xdsl.Result.{ok}
use xdsl.Ir.Store.{Ir}
use xdsl.Ir.Uses.{use_at, has_use, without, set_item, set_uses, set_operand_list}
use xdsl.Ir.Uses.Sets.{has_use-without}

-- A value has the use of an operand exactly if it is the operand.
abbrev pub Consistent : Ir → Type 0
Consistent s =
    (v op idx : ℕ)
    → (has_use (use_at op idx) (s.value v).uses ≡ true)
      ↔ (get_elem? (s.op op).operands idx ≡ some v)

-- The operands after `operands[idx] = v`, at any place.
pub get_elem?-set :
    (vs : List ℕ) (idx v i : ℕ)
    → idx < length vs
    → get_elem? (set vs idx v) i ≡ (if i == idx then some v else get_elem? vs i)
get_elem?-set [] idx v i h = absurd (omega arith)
get_elem?-set (x ∷ vs) zero v zero h = refl
get_elem?-set (x ∷ vs) zero v (suc i) h = ground arith
get_elem?-set (x ∷ vs) (suc idx) v zero h = ground arith
get_elem?-set (x ∷ vs) (suc idx) v (suc i) h = ground (arith, get_elem?-set vs idx v i)

-- The state after `op.operands[idx] = operand`, where `old` was there.
abbrev pub after_set : ℕ → ℕ → ℕ → ℕ → Ir → Ir
after_set op idx old operand s =
    let removed = set_uses old (without (use_at op idx) (s.value old).uses) s in
    let added = set_uses operand (use_at op idx ∷ (removed.value operand).uses) removed in
    set_operand_list op (set (s.op op).operands idx operand) added

pub set_item-ok :
    (op idx old operand : ℕ) (s : Ir)
    → Consistent s
    → get_elem? (s.op op).operands idx ≡ some old
    → set_item op idx operand s ≡ (ok tt, after_set op idx old operand s)
unfolding set_item
set_item-ok op idx old operand s c h = let used = (c old op idx).1 h in ground (arith, h, used)

pub after_set-Consistent :
    (op idx old operand : ℕ) (s : Ir)
    → Consistent s
    → get_elem? (s.op op).operands idx ≡ some old
    → Consistent (after_set op idx old operand s)
unfolding has_use
after_set-Consistent op idx old operand s c h v o i =
    let us = has_use-without (use_at o i) (use_at op idx) (s.value old).uses in
    let g = get_elem?-set (s.op op).operands idx operand i (get_elem?-lt _ idx h) in
    ground (arith, us, g, c v o i, c old op idx, c old o i, h)
