-- ===== src/Examples/RewritingExamples.antt =====
-- A block 0 with an operation 1 from the value 20 to 22, an operation 2 from 22 to 23, and an operation 3
-- on 20, which is not pure.
use xdsl.Prelude.{
  ℕ, zero, suc, ◌≡◌, ◌≢◌, refl, subst, sym, Bool, true, false, not, List, [], ◌∷◌, ◌++◌, none, some,
  get_elem?, ◌==◌, if◌then◌else◌, Bool-cases, inl, inr, arith,
}
use xdsl.Result.{ok}
use xdsl.Ir.Store.{Ir, Use, update}
use xdsl.Ir.Uses.{use_at, has_use}
use xdsl.Ir.Block.{add_op, add_ops, is_ancestor}
use xdsl.Ir.Block.Linked.{has}
use xdsl.Ir.Block.Holds.{IsValid}
use xdsl.Ir.Block.Insert.{MayAttach}
use xdsl.Ir.Block.Many.{add_ops-IsValid}
use xdsl.Ir.Erase.{block_erase_op}
use xdsl.Ir.Erase.References.{Tracks}
use xdsl.Ir.Erase.Unused.{SameOperands, Tracks-SameUses, block_erase_op-IsValid}
use xdsl.PatternRewriter.{PatternRewriter, pattern_rewriter}
use xdsl.PatternRewriter.Methods.{
  insert_op_before_matched_op, insert_op_after_matched_op, iter_affected_ops,
}
use xdsl.PatternRewriter.Affected.{
  insert_op_before_matched_op-IsValid, insert_op_after_matched_op-IsValid,
}
use xdsl.PatternRewriter.Walker.{rewrite_block, rewrite_op}
use xdsl.Transforms.DeadCode.{
  is_dead, walker, match_and_rewrite, HasMatched, match_and_rewrite-HasMatched,
}
use xdsl.Transforms.DeadCode.Step.{NotOperands}
use xdsl.Transforms.DeadCode.Walk.{DefinedBefore, IsSwept, rewrite_block-IsSwept}

abbrev operands_of : ℕ → List ℕ
operands_of o =
    if o == 2 then 22 ∷ [] else if o == 1 then 20 ∷ [] else if o == 3 then 20 ∷ [] else []

abbrev results_of : ℕ → List ℕ
results_of o = if o == 1 then 22 ∷ [] else if o == 2 then 23 ∷ [] else []

abbrev uses_of : ℕ → List Use
uses_of v =
    if v == 20 then use_at 1 0 ∷ use_at 3 0 ∷ [] else if v == 22 then use_at 2 0 ∷ [] else []

abbrev bare : Ir
bare = record {
  op = λ o. record {
    parent = none;
    next_op = none;
    prev_op = none;
    operands = operands_of o;
    results = results_of o;
    regions = [];
  };
  block = λ _. record { args = []; first_op = none; last_op = none; parent = none };
  region = λ _. record { blocks = []; parent = none };
  value = λ v. record { uses = uses_of v; name_hint = none };
}

abbrev no_ops : ℕ → List ℕ
no_ops _ = []

bare-IsValid : IsValid bare no_ops
bare-IsValid = record {
  holds = λ b. record { first = refl; last = refl; linked = tt };
  member = λ b o e. cc;
  free = λ o e. (refl, refl);
}

abbrev ir : Ir
ir = (add_ops 4 0 (1 ∷ 2 ∷ 3 ∷ []) bare).1

abbrev ops_of : ℕ → List ℕ
ops_of = update no_ops 0 (1 ∷ 2 ∷ 3 ∷ [])

ir-IsValid : IsValid ir ops_of
unfolding is_ancestor
ir-IsValid =
    (add_ops-IsValid 4 0 (1 ∷ 2 ∷ 3 ∷ []) bare no_ops bare-IsValid (
      record { detached = refl; outside = refl },
      refl,
      (
        record { detached = refl; outside = refl },
        refl,
        (record { detached = refl; outside = refl }, refl, tt),
      ),
    )).1

abbrev everywhere : ℕ → Bool
everywhere _ = true

same_operands : (o : ℕ) → (ir.op o).operands ≡ operands_of o
unfolding add_ops add_op is_ancestor
same_operands o = ground arith

same_results : (o : ℕ) → (ir.op o).results ≡ results_of o
unfolding add_ops add_op is_ancestor
same_results o = ground arith

same_regions : (o : ℕ) → (ir.op o).regions ≡ []
unfolding add_ops add_op is_ancestor
same_regions o = ground arith

bare-Tracks : Tracks everywhere bare
unfolding has_use
bare-Tracks v o zero = ground arith
bare-Tracks v o (suc i) = ground arith

ir-Tracks : Tracks everywhere ir
unfolding add_ops add_op is_ancestor
ir-Tracks = Tracks-SameUses everywhere bare ir bare-Tracks same_operands (λ v. refl)

abbrev erased : ℕ → ℕ
erased v = suc v

abbrev is_pure : ℕ → Bool
is_pure o = not (o == 3)

block_erase_op-IsValid_example :
    (s' : Ir) × (block_erase_op 1 3 erased 0 2 true ir ≡ (ok tt, s'))
    × IsValid s' (update ops_of 0 (1 ∷ 3 ∷ []))
    × Tracks (update everywhere 2 false) s'
    × SameOperands ir s'
unfolding add_ops add_op is_ancestor
block_erase_op-IsValid_example =
    block_erase_op-IsValid ir ops_of everywhere 0 3 erased 0 2 (1 ∷ []) (3 ∷ []) ir-IsValid
      ir-Tracks refl refl refl (refl, tt)

match_and_rewrite-HasMatched_example :
    (after : PatternRewriter × Ir) × (match_and_rewrite 1 3 erased is_pure 2 (pattern_rewriter 2) ir
      ≡ (ok tt, after))
    × HasMatched ops_of everywhere 0
        (1 ∷ [])
        (3 ∷ [])
        (pattern_rewriter 2)
        ir
        after
        (is_dead is_pure ir 2)
unfolding add_ops add_op is_ancestor
match_and_rewrite-HasMatched_example =
    match_and_rewrite-HasMatched ir (pattern_rewriter 2) ops_of everywhere 0 3 erased is_pure 0
      (1 ∷ []) (3 ∷ []) ir-IsValid ir-Tracks refl refl refl

other_value : (a b i : ℕ) → a ≢ b → get_elem? (a ∷ []) i ≢ some b
other_value a b zero n e = n (ground (arith, e))
other_value a b (suc i) n e = cc

defined_1 : (y : ℕ) → has y (2 ∷ 3 ∷ []) ≡ true → NotOperands (results_of y) (20 ∷ [])
defined_1 y m = elim (Bool-cases (2 == y)) [
  | inl e ↦
      let e' : 2 ≡ y = ground (arith, e) in
      subst (λ z. NotOperands (results_of z) (20 ∷ [])) e'
        ((λ i. other_value 20 23 i (omega arith)), tt)
  | inr e ↦
      let e' : 3 ≡ y = ground (arith, e, m) in
      subst (λ z. NotOperands (results_of z) (20 ∷ [])) e' tt
]

defined_2 : (y : ℕ) → has y (3 ∷ []) ≡ true → NotOperands (results_of y) (22 ∷ [])
defined_2 y m =
    let e' : 3 ≡ y = ground (arith, m) in subst (λ z. NotOperands (results_of z) (22 ∷ [])) e' tt

defined : DefinedBefore ir (1 ∷ 2 ∷ 3 ∷ [])
unfolding add_ops add_op is_ancestor
defined = (
  λ y m. subst (λ vs. NotOperands vs (20 ∷ [])) (sym (same_results y)) (defined_1 y m),
  (
    λ y m. subst (λ vs. NotOperands vs (22 ∷ [])) (sym (same_results y)) (defined_2 y m),
    ((λ y m. cc), tt),
  ),
)

rewrite_block-IsSwept_example :
    IsSwept is_pure (1 ∷ 2 ∷ 3 ∷ []) ops_of 0 (
      rewrite_block 3 (walker 1 3 erased is_pure) (rewrite_op 1 3 (walker 1 3 erased is_pure)) 0 ir)
rewrite_block-IsSwept_example =
    rewrite_block-IsSwept 0 0 3 erased is_pure 0 ir (1 ∷ 2 ∷ 3 ∷ []) (λ o m. same_regions o) defined
      everywhere ops_of 3 (omega arith) ir-IsValid ir-Tracks refl (λ o m. refl)

-- The operations 5 and 6 are added before the operation 2, or after it.
may_5 : MayAttach 4 ir 0 5
unfolding is_ancestor add_ops add_op
may_5 = record { detached = refl; outside = refl }

may_6 : MayAttach 4 ir 0 6
unfolding is_ancestor add_ops add_op
may_6 = record { detached = refl; outside = refl }

insert_op_before_matched_op-IsValid_example :
    (r' : PatternRewriter) × (s' : Ir) × (insert_op_before_matched_op 4
        (5 ∷ 6 ∷ [])
        (pattern_rewriter 2)
        ir
      ≡ (ok tt, (r', s')))
    × IsValid s' (update ops_of 0 ((1 ∷ []) ++ (iter_affected_ops r' ++ 3 ∷ [])))
    × (iter_affected_ops r' ≡ 5 ∷ 6 ∷ 2 ∷ [])
unfolding iter_affected_ops
insert_op_before_matched_op-IsValid_example =
    insert_op_before_matched_op-IsValid (pattern_rewriter 2) ir ops_of 0 4 (1 ∷ []) (3 ∷ [])
      ir-IsValid refl refl (5 ∷ 6 ∷ []) (may_5, refl, (may_6, refl, tt))

-- Where the operation 3 was added after the operation 2 already, 5 and 6 come between the two.
abbrev added_3 : PatternRewriter
added_3 = record (pattern_rewriter 2) { added_operations_after = 3 ∷ [] }

insert_op_after_matched_op-IsValid_example :
    (r' : PatternRewriter) × (s' : Ir) × (insert_op_after_matched_op 4 (5 ∷ 6 ∷ []) added_3 ir
      ≡ (ok tt, (r', s')))
    × IsValid s' (update ops_of 0 (1 ∷ 2 ∷ 5 ∷ 6 ∷ 3 ∷ []))
    × (iter_affected_ops r' ≡ 2 ∷ 3 ∷ 5 ∷ 6 ∷ [])
unfolding iter_affected_ops
insert_op_after_matched_op-IsValid_example =
    insert_op_after_matched_op-IsValid added_3 ir ops_of 0 4 (1 ∷ []) [] ir-IsValid refl refl
      (5 ∷ 6 ∷ []) (may_5, refl, (may_6, refl, tt))
