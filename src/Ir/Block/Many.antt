-- ===== src/Ir/Block/Many.antt =====
-- The loops of `Block` (xdsl/ir/core.py) that insert several operations.
use xdsl.Prelude.{
  ℕ, ◌≡◌, refl, sym, ap, ◌∙◌, false, Option, List, [], ◌∷◌, ◌++◌, arith, append_assoc, append-nil,
}
use xdsl.Result.{ok}
use xdsl.Ir.Store.{Ir, update}
use xdsl.Ir.Block.{
  insert_op_after, insert_op_before, insert_ops_after, insert_ops_before, add_op, add_ops,
}
use xdsl.Ir.Block.Linked.{has}
use xdsl.Ir.Block.Holds.{IsValid, Spliced, IsValid-cong, update_self, update-update, update_at}
use xdsl.Ir.Block.Insert.{
  MayAttach, MayAttach-Spliced, insert_op_after-IsValid, insert_op_after-Spliced,
  insert_op_before-IsValid, insert_op_before-Spliced,
}
use xdsl.Ir.Block.Append.{add_op-Spliced}

-- Distinct operations, each of which may be attached.
abbrev pub MayAttachAll : ℕ → Ir → ℕ → List ℕ → Type 0
MayAttachAll depth s b [] = Unit
MayAttachAll depth s b (o ∷ os) =
    MayAttach depth s b o × (has o os ≡ false) × MayAttachAll depth s b os

pub MayAttachAll-Spliced :
    (depth : ℕ) (s s' : Ir) (b new : ℕ) (prev next : Option ℕ) (os : List ℕ)
    → Spliced s s' b new prev next
    → MayAttach depth s b new
    → has new os ≡ false
    → MayAttachAll depth s b os
    → MayAttachAll depth s' b os
MayAttachAll-Spliced depth s s' b new prev next [] sp m n h = tt
MayAttachAll-Spliced depth s s' b new prev next (o ∷ os) sp m n h = (
  MayAttach-Spliced depth s s' b new o prev next sp m (ground arith) h.0,
  h.1,
  MayAttachAll-Spliced depth s s' b new prev next os sp m (ground arith) h.2,
)

-- In a valid IR, `insert_ops_after` of distinct operations that may be attached returns, and the list
-- of the block has them in their order directly behind the existing one; no other list changes.
pub insert_ops_after-IsValid :
    (depth b : ℕ) (news : List ℕ) (x : ℕ) (s : Ir) (ops_of : ℕ → List ℕ) (pre post : List ℕ)
    → IsValid s ops_of
    → ops_of b ≡ pre ++ x ∷ post
    → MayAttachAll depth s b news
    → ((insert_ops_after depth b news x s).0 ≡ ok tt)
      × IsValid (insert_ops_after depth b news x s).1 (update ops_of b (pre ++ (x ∷ news ++ post)))
unfolding insert_ops_after
insert_ops_after-IsValid depth b [] x s ops_of pre post v split m =
    (refl, IsValid-cong s _ _ (λ c. update_self ops_of b c split) v)
insert_ops_after-IsValid depth b (n ∷ news) x s ops_of pre post v split m =
    let s' = (insert_op_after depth b n x s).1 in
    let (done, v') = insert_op_after-IsValid s ops_of b x pre post v split depth n m.0 in
    let sp = insert_op_after-Spliced s ops_of b x pre post v split depth n m.0 in
    let (done', v'') =
      insert_ops_after-IsValid depth b news n s' (update ops_of b (pre ++ x ∷ n ∷ post))
        (pre ++ x ∷ []) post v'
        (update_at ops_of b (pre ++ x ∷ n ∷ post) ∙ sym (append_assoc pre (x ∷ []) (n ∷ post)))
        (MayAttachAll-Spliced depth s s' b n _ _ news sp m.0 m.1 m.2) in
    rw done (
      done',
      IsValid-cong _ _ _
          (λ c.
            update-update ops_of b c _ _
            ∙ ap (λ xs. update ops_of b xs c) (append_assoc pre (x ∷ []) (n ∷ news ++ post)))
          v'',
    )

-- In a valid IR, `insert_ops_before` of distinct operations that may be attached returns, and the
-- list of the block has them in their order directly before the existing one; no other list changes.
pub insert_ops_before-IsValid :
    (depth b : ℕ) (news : List ℕ) (x : ℕ) (s : Ir) (ops_of : ℕ → List ℕ) (pre post : List ℕ)
    → IsValid s ops_of
    → ops_of b ≡ pre ++ x ∷ post
    → MayAttachAll depth s b news
    → ((insert_ops_before depth b news x s).0 ≡ ok tt)
      × IsValid (insert_ops_before depth b news x s).1 (update ops_of b (pre ++ (news ++ x ∷ post)))
unfolding insert_ops_before
insert_ops_before-IsValid depth b [] x s ops_of pre post v split m =
    (refl, IsValid-cong s _ _ (λ c. update_self ops_of b c split) v)
insert_ops_before-IsValid depth b (n ∷ news) x s ops_of pre post v split m =
    let s' = (insert_op_before depth b n x s).1 in
    let (done, v') = insert_op_before-IsValid s ops_of b x pre post v split depth n m.0 in
    let sp = insert_op_before-Spliced s ops_of b x pre post v split depth n m.0 in
    let (done', v'') =
      insert_ops_before-IsValid depth b news x s' (update ops_of b (pre ++ n ∷ x ∷ post))
        (pre ++ n ∷ []) post v'
        (update_at ops_of b (pre ++ n ∷ x ∷ post) ∙ sym (append_assoc pre (n ∷ []) (x ∷ post)))
        (MayAttachAll-Spliced depth s s' b n _ _ news sp m.0 m.1 m.2) in
    rw done (
      done',
      IsValid-cong _ _ _
          (λ c.
            update-update ops_of b c _ _
            ∙ ap (λ xs. update ops_of b xs c) (append_assoc pre (n ∷ []) (news ++ x ∷ post)))
          v'',
    )

-- In a valid IR, `add_ops` of distinct operations that may be attached returns, and puts them in
-- their order at the end of the list of the block; no other list changes.
pub add_ops-IsValid :
    (depth b : ℕ) (news : List ℕ) (s : Ir) (ops_of : ℕ → List ℕ)
    → IsValid s ops_of
    → MayAttachAll depth s b news
    → ((add_ops depth b news s).0 ≡ ok tt)
      × IsValid (add_ops depth b news s).1 (update ops_of b (ops_of b ++ news))
unfolding add_ops
add_ops-IsValid depth b [] s ops_of v m =
    (refl, IsValid-cong s _ _ (λ c. update_self ops_of b c (sym (append-nil (ops_of b)))) v)
add_ops-IsValid depth b (n ∷ news) s ops_of v m =
    let s' = (add_op depth b n s).1 in
    let (done, v', (prev, next, sp)) = add_op-Spliced s ops_of v depth b n m.0 in
    let (done', v'') =
      add_ops-IsValid depth b news s' (update ops_of b (ops_of b ++ n ∷ [])) v'
        (MayAttachAll-Spliced depth s s' b n prev next news sp m.0 m.1 m.2) in
    rw done (
      done',
      IsValid-cong _ _ _
          (λ c.
            update-update ops_of b c _ _
            ∙ ap (λ xs. update ops_of b (xs ++ news) c) (update_at ops_of b (ops_of b ++ n ∷ []))
            ∙ ap (λ xs. update ops_of b xs c) (append_assoc (ops_of b) (n ∷ []) news))
          v'',
    )
