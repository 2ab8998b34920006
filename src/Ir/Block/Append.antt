-- ===== src/Ir/Block/Append.antt =====
-- `add_op` of `Block` (xdsl/ir/core.py) puts an operation at the end of the block's list.
use xdsl.Prelude.{
  ℕ, ◌≡◌, refl, ap, ◌∙◌, Option, none, some, List, [], ◌∷◌, ◌++◌, arith, append_assoc,
}
use xdsl.Result.{ok}
use xdsl.Ir.Store.{Ir, update}
use xdsl.Ir.Block.{insert_op_after, add_op}
use xdsl.Ir.Block.Linked.{last_or, last_or-append}
use xdsl.Ir.Block.Holds.{IsValid, Spliced, IsValid-splice}
use xdsl.Ir.Block.Insert.{MayAttach, insert_op_after-IsValid, insert_op_after-Spliced}

-- `add_op` on a block with no operations.
module _ (depth b new : ℕ) (s : Ir) (may : MayAttach depth s b new)
    (free : ((s.op new).next_op ≡ none) × ((s.op new).prev_op ≡ none))
    (empty : (s.block b).last_op ≡ none) where
  added : Ir
  added = (add_op depth b new s).1

  added-ok : (add_op depth b new s).0 ≡ ok tt
  unfolding add_op
  added-ok = ground (arith, may.detached, may.outside)

  added-Spliced : Spliced s added b new none none
  unfolding added add_op
  added-Spliced = record {
    at_new = ground (arith, may.detached, may.outside, free);
    at_prev = λ o p. cc;
    at_next = λ o p. cc;
    elsewhere = λ o p q r. ground (arith, may.detached, may.outside);
    first = ground (arith, may.detached, may.outside);
    last = ground (arith, may.detached, may.outside);
    blocks = λ c p. ground (arith, may.detached, may.outside);
    block_parent = λ c. ground (arith, may.detached, may.outside);
    region = λ c. ground (arith, may.detached, may.outside);
  }

add_op-some :
    (depth b new x : ℕ) (s : Ir)
    → (s.block b).last_op ≡ some x
    → add_op depth b new s ≡ insert_op_after depth b new x s
unfolding add_op
add_op-some depth b new x s e = rw e

-- A list is empty, or ends in an operation.
data Ends : List ℕ → Type 0 where
  no_op : Ends []
  last_op : (pre : List ℕ) (x : ℕ) → Ends (pre ++ x ∷ [])

Ends-cons : (x : ℕ) {xs : List ℕ} → Ends xs → Ends (x ∷ xs)
Ends-cons x no_op = last_op [] x
Ends-cons x (last_op pre y) = last_op (x ∷ pre) y

ends : (xs : List ℕ) → Ends xs
ends [] = no_op
ends (x ∷ xs) = Ends-cons x (ends xs)

module _ (s : Ir) (ops_of : ℕ → List ℕ) (v : IsValid s ops_of) (depth b new : ℕ)
    (may : MayAttach depth s b new) where
  abbrev pub Added : List ℕ → Type 0
  Added xs =
      ((add_op depth b new s).0 ≡ ok tt)
      × IsValid (add_op depth b new s).1 (update ops_of b (xs ++ new ∷ []))
      × ((prev : Option ℕ) × (next : Option ℕ) × Spliced s (add_op depth b new s).1 b new prev next)

  add_op-Ends : {xs : List ℕ} → Ends xs → ops_of b ≡ xs → Added xs
  unfolding added
  add_op-Ends no_op e =
      let empty = (v.holds b).last ∙ ap (last_or none) e in
      let sp = added-Spliced depth b new s may (v.free new may.detached) empty in
      (
        added-ok depth b new s may (v.free new may.detached) empty,
        IsValid-splice s (add_op depth b new s).1 ops_of b new [] [] v e may.detached sp,
        (none, none, sp),
      )
  add_op-Ends (last_op pre x) e =
      let l = (v.holds b).last ∙ ap (last_or none) e ∙ last_or-append none pre (x ∷ []) in
      let (done, valid) = insert_op_after-IsValid s ops_of b x pre [] v e depth new may in
      let sp = insert_op_after-Spliced s ops_of b x pre [] v e depth new may in
      rw (add_op-some depth b new x s l)
        (done, rw (append_assoc pre (x ∷ []) (new ∷ [])) valid, (_, _, sp))

  pub add_op-Spliced : Added (ops_of b)
  add_op-Spliced = add_op-Ends (ends (ops_of b)) refl

  -- In a valid IR, `add_op` of an operation that may be attached returns, and puts it at the end of
  -- the list of the block; no other list changes.
  pub add_op-IsValid :
      ((add_op depth b new s).0 ≡ ok tt)
      × IsValid (add_op depth b new s).1 (update ops_of b (ops_of b ++ new ∷ []))
  add_op-IsValid = let (done, valid, _) = add_op-Spliced in (done, valid)
