-- ===== src/Examples/UsesExamples.antt =====
-- The theorem on uses at an operation 5 whose operands are the values 1, 2 and 1.
use xdsl.Prelude.{
  ℕ, zero, suc, ◌≡◌, none, some, List, [], ◌∷◌, get_elem?, ◌==◌, if◌then◌else◌, arith,
}
use xdsl.Result.{ok}
use xdsl.Ir.Store.{Ir, Use, Operation}
use xdsl.Ir.Uses.{use_at, has_use, replace_by}
use xdsl.Ir.Uses.Consistent.{Consistent}
use xdsl.Ir.Uses.Replace.{renamed, replace_by-Consistent}

abbrev some_operation : List ℕ → Operation
some_operation vs = record {
  parent = none;
  next_op = none;
  prev_op = none;
  operands = vs;
  results = [];
  regions = [];
}

abbrev some_uses : ℕ → List Use
some_uses v =
    if v == 1 then use_at 5 2 ∷ use_at 5 0 ∷ [] else if v == 2 then use_at 5 1 ∷ [] else []

abbrev three_operands : Ir
three_operands = record {
  op = λ o. if o == 5 then some_operation (1 ∷ 2 ∷ 1 ∷ []) else some_operation [];
  block = λ _. record { args = []; first_op = none; last_op = none; parent = none };
  region = λ _. record { blocks = []; parent = none };
  value = λ v. record { uses = some_uses v; name_hint = if v == 1 then some 7 else none };
}

three_operands-Consistent : Consistent three_operands
unfolding has_use
three_operands-Consistent v o zero = ground arith
three_operands-Consistent v o (suc zero) = ground arith
three_operands-Consistent v o (suc (suc zero)) = ground arith
three_operands-Consistent v o (suc (suc (suc i))) = ground arith

replace_by-Consistent_example :
    (s' : Ir) × ((replace_by 1 3 three_operands ≡ (ok tt, s'))
      × Consistent s'
      × ((s'.value 1).uses ≡ [])
      × ((o i : ℕ)
          → get_elem? (s'.op o).operands i
            ≡ renamed 1 3 (get_elem? (three_operands.op o).operands i)))
replace_by-Consistent_example =
    replace_by-Consistent 1 3 three_operands three_operands-Consistent (λ e. absurd (omega arith))
