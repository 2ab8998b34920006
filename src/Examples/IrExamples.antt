-- ===== src/Examples/IrExamples.antt =====
-- The theorems on blocks at a small IR: block 0 holds the operations 1 and 2, block 5 holds 3, and the
-- operations 7 and 8 are detached.
use xdsl.Prelude.{ℕ, ◌≡◌, refl, true, none, List, [], ◌∷◌, arith}
use xdsl.Result.{ok}
use xdsl.Ir.Store.{Ir, update}
use xdsl.Ir.Block.{
  an_op, a_block, parent_node, is_ancestor, add_op, add_ops, insert_op_before, detach_op, block_ops,
}
use xdsl.Ir.Block.Linked.{has}
use xdsl.Ir.Block.Holds.{IsValid}
use xdsl.Ir.Block.Ancestor.{Answer, Climb, top, is_ancestor-Above}
use xdsl.Ir.Block.Insert.{MayAttach, insert_op_before-IsValid}
use xdsl.Ir.Block.Append.{add_op-IsValid}
use xdsl.Ir.Block.Detach.{detach_op-IsValid}
use xdsl.Ir.Block.Many.{add_ops-IsValid}
use xdsl.Ir.Block.Iterate.{block_ops-eq}
use xdsl.Ir.Rewriter.{inline_block_before}
use xdsl.Ir.Rewriter.Inline.{Outside, inline_block_before-IsValid}

abbrev blank : Ir
blank = record {
  op = λ _. record {
    parent = none;
    next_op = none;
    prev_op = none;
    operands = [];
    results = [];
    regions = [];
  };
  block = λ _. record { args = []; first_op = none; last_op = none; parent = none };
  region = λ _. record { blocks = []; parent = none };
  value = λ _. record { uses = []; name_hint = none };
}

abbrev no_ops : ℕ → List ℕ
no_ops _ = []

blank-IsValid : IsValid blank no_ops
blank-IsValid = record {
  holds = λ b. record { first = refl; last = refl; linked = tt };
  member = λ b o e. cc;
  free = λ o e. (refl, refl);
}

may_1 : MayAttach 4 blank 0 1
unfolding is_ancestor
may_1 = record { detached = refl; outside = refl }

add_op-IsValid_example :
    ((add_op 4 0 1 blank).0 ≡ ok tt) × IsValid (add_op 4 0 1 blank).1 (update no_ops 0 (1 ∷ []))
add_op-IsValid_example = add_op-IsValid blank no_ops blank-IsValid 4 0 1 may_1

-- Block 0 filled, and then block 5.
abbrev half : Ir
half = (add_ops 4 0 (1 ∷ 2 ∷ []) blank).1

abbrev both : Ir
both = (add_ops 4 5 (3 ∷ []) half).1

abbrev lists : ℕ → List ℕ
lists = update (update no_ops 0 (1 ∷ 2 ∷ [])) 5 (3 ∷ [])

half-IsValid : IsValid half (update no_ops 0 (1 ∷ 2 ∷ []))
unfolding is_ancestor
half-IsValid =
    (add_ops-IsValid 4 0 (1 ∷ 2 ∷ []) blank no_ops blank-IsValid
      (may_1, refl, (record { detached = refl; outside = refl }, refl, tt))).1

both-IsValid : IsValid both lists
unfolding is_ancestor add_ops add_op
both-IsValid =
    (add_ops-IsValid 4 5 (3 ∷ []) half (update no_ops 0 (1 ∷ 2 ∷ [])) half-IsValid
      (record { detached = refl; outside = refl }, refl, tt)).1

may_7 : MayAttach 4 both 0 7
unfolding is_ancestor add_ops add_op
may_7 = record { detached = refl; outside = refl }

may_8 : MayAttach 4 both 0 8
unfolding is_ancestor add_ops add_op
may_8 = record { detached = refl; outside = refl }

insert_op_before-IsValid_example :
    ((insert_op_before 4 0 7 1 both).0 ≡ ok tt)
    × IsValid (insert_op_before 4 0 7 1 both).1 (update lists 0 (7 ∷ 1 ∷ 2 ∷ []))
insert_op_before-IsValid_example =
    insert_op_before-IsValid both lists 0 1 [] (2 ∷ []) both-IsValid refl 4 7 may_7

detach_op-IsValid_example :
    ((detach_op 0 1 both).0 ≡ ok tt) × IsValid (detach_op 0 1 both).1 (update lists 0 (2 ∷ []))
detach_op-IsValid_example = detach_op-IsValid both lists 0 1 [] (2 ∷ []) both-IsValid refl

block_ops-eq_example : block_ops 2 0 both ≡ (ok (1 ∷ 2 ∷ []), both)
block_ops-eq_example = block_ops-eq both lists 0 2 both-IsValid (omega arith)

block_0-Climb : Climb both (a_block 0) 0
unfolding add_ops add_op parent_node
block_0-Climb = top refl

is_ancestor-Above_example : Answer 4 (an_op 1) (a_block 0) both
is_ancestor-Above_example = is_ancestor-Above 4 (an_op 1) both block_0-Climb (omega arith)

three-Outside : (o : ℕ) → has o (lists 5) ≡ true → Outside 4 both 0 o
unfolding is_ancestor add_ops add_op
three-Outside o m = refl

inline_block_before-IsValid_example :
    ((inline_block_before 4 2 5 2 both).0 ≡ ok tt)
    × IsValid (inline_block_before 4 2 5 2 both).1 (update (update lists 5 []) 0 (1 ∷ 3 ∷ 2 ∷ []))
inline_block_before-IsValid_example =
    inline_block_before-IsValid both lists 4 2 0 5 2 (1 ∷ []) [] both-IsValid refl (omega arith)
      three-Outside (omega arith)
