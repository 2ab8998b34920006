-- ===== src/Ir/Rewriter/Inline.antt =====
-- `inline_block_before` and `inline_block_after` of `Rewriter` (xdsl/rewriter.py) move the operations of
-- one block into the list of another.
use xdsl.Prelude.{
  ℕ, ◌≡◌, ◌≢◌, ◌≤◌, refl, ap, ◌∙◌, true, false, Option, none, some, List, [], ◌∷◌, ◌++◌, ◌==◌,
  arith, length, inl, inr, Bool-cases,
}
use xdsl.Result.{ok}
use xdsl.Ir.Store.{Ir, Operation, Region, update}
use xdsl.Ir.Block.{an_op, a_block, is_ancestor, detach_op}
use xdsl.Ir.Block.Linked.{has, Linked}
use xdsl.Ir.Block.Holds.{IsValid, IsValid-cong, update_self, update-update, update_at}
use xdsl.Ir.Block.Ancestor.{is_ancestor-same}
use xdsl.Ir.Block.Insert.{MayAttach, at-parent}
use xdsl.Ir.Block.Detach.{Unspliced, Unspliced-parent, detach_op-IsValid, detach_op-Unspliced}
use xdsl.Ir.Block.Many.{MayAttachAll, insert_ops_before-IsValid, insert_ops_after-IsValid}
use xdsl.Ir.Block.Iterate.{block_ops-eq}
use xdsl.Ir.Rewriter.{detach, detach_all, take_ops, inline_block_before, inline_block_after}

-- The operation `o` is not above block `b`.
abbrev pub Outside : ℕ → Ir → ℕ → ℕ → Type 0
Outside depth s b o = is_ancestor depth (an_op o) (a_block b) s ≡ (ok false, s)

module _ (depth : ℕ) (s s' : Ir) (b c x : ℕ) (prev next : Option ℕ)
    (un : Unspliced s s' c x prev next) (out : Outside depth s b x) where
  Outside-Unspliced : (o : ℕ) → Outside depth s b o → Outside depth s' b o
  Outside-Unspliced o h =
      is_ancestor-same depth s s' x (an_op o) (a_block b) false
        (record {
          op = λ p n. Unspliced-parent s s' c x prev next un p n;
          block = un.block_parent;
          region = λ r. ap (λ (k : Region). k.parent) (un.region r);
        })
        out h

  MayAttach-detached : MayAttach depth s' b x
  MayAttach-detached = record {
    detached = ap (λ (k : Operation). k.parent) un.at_old;
    outside = Outside-Unspliced x out;
  }

  MayAttach-Unspliced : (o : ℕ) → MayAttach depth s b o → MayAttach depth s' b o
  MayAttach-Unspliced o m = elim (Bool-cases (o == x)) [
    | inl e ↦ let e' : o ≡ x = ground (arith, e) in rw e' MayAttach-detached
    | inr n ↦ record {
      detached = Unspliced-parent s s' c x prev next un o (ground (arith, n)) ∙ m.detached;
      outside = Outside-Unspliced o m.outside;
    }
  ]

-- What `detach_all` leaves behind.
record Emptied (depth : ℕ) (s s' : Ir) (ops_of : ℕ → List ℕ) (b c : ℕ) (xs : List ℕ) : Type 0 where
  valid : IsValid s' (update ops_of c [])
  kept : (o : ℕ) → MayAttach depth s b o → MayAttach depth s' b o
  taken : (o : ℕ) → has o xs ≡ true → MayAttach depth s' b o

detach-eq : (s : Ir) (c x : ℕ) → (s.op x).parent ≡ some c → detach x s ≡ detach_op c x s
unfolding detach
detach-eq s c x e = rw e

detach_all-Emptied :
    (depth b c : ℕ) (xs : List ℕ) (s : Ir) (ops_of : ℕ → List ℕ)
    → IsValid s ops_of
    → ops_of c ≡ xs
    → ((o : ℕ) → has o xs ≡ true → Outside depth s b o)
    → ((detach_all xs s).0 ≡ ok tt) × Emptied depth s (detach_all xs s).1 ops_of b c xs
unfolding detach_all
detach_all-Emptied depth b c [] s ops_of v e out = (
  refl,
  record {
    valid = IsValid-cong s _ _ (λ k. update_self ops_of c k e) v;
    kept = λ o m. m;
    taken = λ o m. cc;
  },
)
detach_all-Emptied depth b c (x ∷ xs) s ops_of v e out =
    let s' = (detach_op c x s).1 in
    let (done, v') = detach_op-IsValid s ops_of c x [] xs v e in
    let un = detach_op-Unspliced s ops_of c x [] xs v e in
    let out_x = out x (ground arith) in
    let (done', em) =
      detach_all-Emptied depth b c xs s' (update ops_of c xs) v' (update_at ops_of c xs)
        (λ o m. Outside-Unspliced depth s s' b c x _ _ un out_x o (out o (ground (arith, m)))) in
    rw (detach-eq s c x (at-parent s ops_of c x [] xs v e), done)
      (
        done',
        record {
          valid = IsValid-cong _ _ _ (λ k. update-update ops_of c k xs []) em.valid;
          kept = λ o m. em.kept o (MayAttach-Unspliced depth s s' b c x _ _ un out_x o m);
          taken = λ o m. elim (Bool-cases (x == o)) [
            | inl q ↦
                let q' : x ≡ o = ground (arith, q) in
                em.kept o (rw (← q') (MayAttach-detached depth s s' b c x _ _ un out_x))
            | inr n ↦ em.taken o (ground (arith, m, n))
          ];
        },
      )

MayAttachAll-of :
    (op : ℕ → Operation) (c : ℕ) (prev : Option ℕ) (depth : ℕ) (s : Ir) (b : ℕ) (xs : List ℕ)
    → Linked op c prev xs none
    → ((o : ℕ) → has o xs ≡ true → MayAttach depth s b o)
    → MayAttachAll depth s b xs
MayAttachAll-of op c prev depth s b [] l h = tt
MayAttachAll-of op c prev depth s b (x ∷ xs) l h = (
  h x (ground arith),
  l.3,
  MayAttachAll-of op c (some x) depth s b xs l.4 (λ o m. h o (ground (arith, m))),
)

-- Block `c` is to be moved next to the operation `x` of another block `b`, and contains no operation
-- that is above `b`.
module _ (s : Ir) (ops_of : ℕ → List ℕ) (depth fuel b c x : ℕ) (pre post : List ℕ)
    (v : IsValid s ops_of) (split : ops_of b ≡ pre ++ x ∷ post) (apart : b ≢ c)
    (out : (o : ℕ) → has o (ops_of c) ≡ true → Outside depth s b o)
    (enough : length (ops_of c) ≤ fuel) where
  emptied : Ir
  emptied = (detach_all (ops_of c) s).1

  emptied-Emptied :
      ((detach_all (ops_of c) s).0 ≡ ok tt) × Emptied depth s emptied ops_of b c (ops_of c)
  unfolding emptied
  emptied-Emptied = detach_all-Emptied depth b c (ops_of c) s ops_of v refl out

  take_ops-eq : take_ops fuel c s ≡ (ok (ops_of c), emptied)
  unfolding take_ops emptied
  take_ops-eq = rw (block_ops-eq s ops_of c fuel v enough, emptied-Emptied.0)

  still : update ops_of c [] b ≡ pre ++ x ∷ post
  still = ground (arith, split)

  may_all : MayAttachAll depth emptied b (ops_of c)
  may_all =
      MayAttachAll-of s.op c none depth emptied b (ops_of c) (v.holds c).linked
        emptied-Emptied.1.taken

  parent_after : (emptied.op x).parent ≡ some b
  parent_after = at-parent emptied (update ops_of c []) b x pre post emptied-Emptied.1.valid still

  -- In a valid IR, with another block none of whose operations is above the block of an operation,
  -- `inline_block_before` returns, empties the other block, and puts its operations in their order
  -- directly before the operation; no other list changes.
  pub inline_block_before-IsValid :
      ((inline_block_before depth fuel c x s).0 ≡ ok tt)
      × IsValid
          (inline_block_before depth fuel c x s).1
          (update (update ops_of c []) b (pre ++ (ops_of c ++ x ∷ post)))
  unfolding inline_block_before
  inline_block_before-IsValid =
      rw (at-parent s ops_of b x pre post v split, take_ops-eq, parent_after)
        (insert_ops_before-IsValid depth b (ops_of c) x emptied (update ops_of c []) pre post
          emptied-Emptied.1.valid still may_all)

  -- In a valid IR, with another block none of whose operations is above the block of an operation,
  -- `inline_block_after` returns, empties the other block, and puts its operations in their order
  -- directly behind the operation; no other list changes.
  pub inline_block_after-IsValid :
      ((inline_block_after depth fuel c x s).0 ≡ ok tt)
      × IsValid
          (inline_block_after depth fuel c x s).1
          (update (update ops_of c []) b (pre ++ (x ∷ ops_of c ++ post)))
  unfolding inline_block_after
  inline_block_after-IsValid =
      rw (at-parent s ops_of b x pre post v split, take_ops-eq, parent_after)
        (insert_ops_after-IsValid depth b (ops_of c) x emptied (update ops_of c []) pre post
          emptied-Emptied.1.valid still may_all)
