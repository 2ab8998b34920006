-- ===== src/Ir/Block/Insert.antt =====
-- `insert_op_after`, `insert_op_before` and `add_op` of `Block` (xdsl/ir/core.py) insert into the list
-- that the block holds.
use xdsl.Prelude.{
  ℕ, ◌≡◌, ◌≢◌, sym, ap, ◌∙◌, true, false, Option, none, some, List, [], ◌∷◌, ◌++◌, arith,
  append_assoc,
}
use xdsl.Result.{ok}
use xdsl.Ir.Store.{Ir, Region, update}
use xdsl.Ir.Block.{an_op, a_block, is_ancestor, insert_op_after, insert_op_before}
use xdsl.Ir.Block.Linked.{
  has, has-append, first_or, last_or, last_or-append, Linked, Linked-split, Linked-parent,
  has-first_or, has_last,
}
use xdsl.Ir.Block.Holds.{IsValid, Spliced, IsValid-splice, Spliced-parent}
use xdsl.Ir.Block.Ancestor.{is_ancestor-same}

-- What `_attach_op` asks of an operation: it has no parent, and block `b` is not inside it.
pub record MayAttach (depth : ℕ) (s : Ir) (b new : ℕ) : Type 0 where
  pub detached : (s.op new).parent ≡ none
  pub outside : is_ancestor depth (an_op new) (a_block b) s ≡ (ok false, s)

module _ (depth b new x : ℕ) (s : Ir) (may : MayAttach depth s b new)
    (inside : (s.op x).parent ≡ some b) where
  after : Ir
  after = (insert_op_after depth b new x s).1

  after-ok : (insert_op_after depth b new x s).0 ≡ ok tt
  unfolding insert_op_after
  after-ok = ground (arith, may.detached, may.outside)

  module _ (next : Option ℕ) (e : (s.op x).next_op ≡ next) (n : next ≢ some new)
      (n' : next ≢ some x) where
    after-Spliced : Spliced s after b new (some x) next
    unfolding after insert_op_after
    after-Spliced = record {
      at_new = ground (arith, may.detached, may.outside);
      at_prev = λ o p. ground (arith, may.detached, may.outside);
      at_next = λ o p. ground (arith, may.detached, may.outside);
      elsewhere = λ o p q r. ground (arith, may.detached, may.outside);
      first = ground (arith, may.detached, may.outside);
      last = ground (arith, may.detached, may.outside);
      blocks = λ c p. ground (arith, may.detached, may.outside);
      block_parent = λ c. ground (arith, may.detached, may.outside);
      region = λ c. ground (arith, may.detached, may.outside);
    }

  before : Ir
  before = (insert_op_before depth b new x s).1

  before-ok : (insert_op_before depth b new x s).0 ≡ ok tt
  unfolding insert_op_before
  before-ok = ground (arith, may.detached, may.outside)

  module _ (prev : Option ℕ) (e : (s.op x).prev_op ≡ prev) (n : prev ≢ some new)
      (n' : prev ≢ some x) where
    before-Spliced : Spliced s before b new prev (some x)
    unfolding before insert_op_before
    before-Spliced = record {
      at_new = ground (arith, may.detached, may.outside);
      at_prev = λ o p. ground (arith, may.detached, may.outside);
      at_next = λ o p. ground (arith, may.detached, may.outside);
      elsewhere = λ o p q r. ground (arith, may.detached, may.outside);
      first = ground (arith, may.detached, may.outside);
      last = ground (arith, may.detached, may.outside);
      blocks = λ c p. ground (arith, may.detached, may.outside);
      block_parent = λ c. ground (arith, may.detached, may.outside);
      region = λ c. ground (arith, may.detached, may.outside);
    }

-- An operation `x` in the list of a block, with its neighbours.
module _ (s : Ir) (ops_of : ℕ → List ℕ) (b x : ℕ) (pre post : List ℕ) (v : IsValid s ops_of)
    (split : ops_of b ≡ pre ++ x ∷ post) where
  at_parts : Linked s.op b (last_or none pre) (x ∷ post) none
  at_parts = (Linked-split s.op b none none pre (x ∷ post) (rw split at (v.holds b).linked)).1

  pub at-parent : (s.op x).parent ≡ some b
  at-parent = at_parts.0

  pub at-prev : (s.op x).prev_op ≡ last_or none pre
  at-prev = at_parts.1

  pub at-next : (s.op x).next_op ≡ first_or post none
  at-next = at_parts.2

  pub held : (o : ℕ) → has o (pre ++ x ∷ post) ≡ true → (s.op o).parent ≡ some b
  held o m = Linked-parent s.op b none none (ops_of b) o (v.holds b).linked (rw split m)

  pub next_parent : (o : ℕ) → first_or post none ≡ some o → (s.op o).parent ≡ some b
  next_parent o e = held o (ground (arith, has-append o pre (x ∷ post), has-first_or post o e))

  pub prev_parent : (o : ℕ) → last_or none pre ≡ some o → (s.op o).parent ≡ some b
  prev_parent o e = held o (ground (arith, has-append o pre (x ∷ post), has_last pre o e))

  pub next-ne_self : first_or post none ≢ some x
  next-ne_self e = cc (at_parts.3, has-first_or post x e)

  pub prev-ne_self : last_or none pre ≢ some x
  prev-ne_self e =
      let d = (Linked-split s.op b none none pre (x ∷ post) (rw split at (v.holds b).linked)).2 in
      ground (arith, d x, has_last pre x e)

  module _ (depth new : ℕ) (may : MayAttach depth s b new) where
    pub insert_op_after-Spliced :
        Spliced s (insert_op_after depth b new x s).1 b new (some x) (first_or post none)
    unfolding after
    insert_op_after-Spliced =
        after-Spliced depth b new x s may at-parent (first_or post none) at-next
          (λ e. cc (next_parent new e, may.detached)) next-ne_self

    pub insert_op_before-Spliced :
        Spliced s (insert_op_before depth b new x s).1 b new (last_or none pre) (some x)
    unfolding before
    insert_op_before-Spliced =
        before-Spliced depth b new x s may at-parent (last_or none pre) at-prev
          (λ e. cc (prev_parent new e, may.detached)) prev-ne_self

    -- In a valid IR, `insert_op_after` of an operation that may be attached returns, and the list of
    -- the block has the operation directly behind the existing one; no other list changes.
    pub insert_op_after-IsValid :
        ((insert_op_after depth b new x s).0 ≡ ok tt)
        × IsValid (insert_op_after depth b new x s).1 (update ops_of b (pre ++ x ∷ new ∷ post))
    insert_op_after-IsValid =
        let last : last_or none (pre ++ x ∷ []) ≡ some x = last_or-append none pre (x ∷ []) in
        let whole =
          IsValid-splice s (insert_op_after depth b new x s).1 ops_of b new (pre ++ x ∷ []) post v
            (split ∙ sym (append_assoc pre (x ∷ []) post)) may.detached
            (rw last insert_op_after-Spliced) in
        (
          after-ok depth b new x s may at-parent,
          rw (append_assoc pre (x ∷ []) (new ∷ post)) at whole,
        )

    -- In a valid IR, `insert_op_before` of an operation that may be attached returns, and the list of
    -- the block has the operation directly before the existing one; no other list changes.
    pub insert_op_before-IsValid :
        ((insert_op_before depth b new x s).0 ≡ ok tt)
        × IsValid (insert_op_before depth b new x s).1 (update ops_of b (pre ++ new ∷ x ∷ post))
    insert_op_before-IsValid = (
      before-ok depth b new x s may at-parent,
      IsValid-splice s (insert_op_before depth b new x s).1 ops_of b new pre (x ∷ post) v split
          may.detached insert_op_before-Spliced,
    )

-- What may be attached stays so when another operation is spliced in.
pub MayAttach-Spliced :
    (depth : ℕ) (s s' : Ir) (b new o : ℕ) (prev next : Option ℕ)
    → Spliced s s' b new prev next
    → MayAttach depth s b new
    → o ≢ new
    → MayAttach depth s b o
    → MayAttach depth s' b o
MayAttach-Spliced depth s s' b new o prev next sp m n m' = record {
  detached = Spliced-parent s s' b new prev next sp o n ∙ m'.detached;
  outside =
      is_ancestor-same depth s s' new (an_op o) (a_block b) false
        (record {
          op = λ p h. Spliced-parent s s' b new prev next sp p h;
          block = sp.block_parent;
          region = λ r. ap (λ (k : Region). k.parent) (sp.region r);
        })
        m.outside m'.outside;
}
