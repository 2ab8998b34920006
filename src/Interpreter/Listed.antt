-- ===== src/Interpreter/Listed.antt =====
-- Running the operations of a block goes through its list.
use xdsl.Prelude.{ℕ, zero, suc, ◌≡◌, ◌<◌, refl, List, [], ◌∷◌, Option, none, some, length, arith}
use xdsl.Prelude.Dict.{Dict}
use xdsl.Ir.Store.{Ir}
use xdsl.Ir.Block.Linked.{first_or, Linked}
use xdsl.Ir.Block.Holds.{IsValid}
use xdsl.Interpreter.Run.{
  R, OpImpl, TerminatorValue, ◌>>=◌, pure, unless_terminated, run_one, run_ops,
}

module _ {V S : Type 0} (impls : Dict (OpImpl V S)) (type_of : ℕ → ℕ) (ir : Ir) where
  -- The operations of a list one after the other, up to the first terminator.
  abbrev pub run_list : List ℕ → R V S (Option (TerminatorValue V))
  run_list [] = pure none
  run_list (op ∷ ops) = run_one impls type_of ir op >>= unless_terminated (run_list ops)

  run_ops-Linked :
      (b : ℕ) (prev : Option ℕ) (xs : List ℕ) (fuel : ℕ)
      → Linked ir.op b prev xs none
      → length xs < fuel
      → run_ops impls type_of ir fuel (first_or xs none) ≡ run_list xs
  unfolding run_ops
  run_ops-Linked b prev xs zero h l = absurd (omega arith)
  run_ops-Linked b prev [] (suc fuel) h l = refl
  run_ops-Linked b prev (x ∷ xs) (suc fuel) h l =
      rw (h.2, run_ops-Linked b (some x) xs fuel h.4 (omega arith)) refl

  -- In a valid IR, running from the first operation of a block, with fuel for more than its list, is
  -- running the operations of the list one after the other, up to the first terminator.
  pub run_ops-run_list :
      (ops_of : ℕ → List ℕ) (b fuel : ℕ)
      → IsValid ir ops_of
      → length (ops_of b) < fuel
      → run_ops impls type_of ir fuel (ir.block b).first_op ≡ run_list (ops_of b)
  run_ops-run_list ops_of b fuel v l =
      rw (v.holds b).first (run_ops-Linked b none (ops_of b) fuel (v.holds b).linked l)
