-- ===== src/Ir/Region/Insert.antt =====
-- Inserting blocks into a region.
use xdsl.Prelude.{
  ℕ, ◌≡◌, ◌≤◌, refl, true, false, Option, none, some, List, [], ◌∷◌, ◌++◌, ◌||◌, length, ltb, ◌==◌,
  if◌then◌else◌, arith,
}
use xdsl.Prelude.Slices.{take, drop}
use xdsl.Result.{ok}
use xdsl.Ir.Store.{Ir}
use xdsl.Ir.Block.{Node, an_op, a_block, a_region, is_same, parent_node, is_ancestor}
use xdsl.Ir.Block.Ancestor.{is_ancestor_but}
use xdsl.Ir.Block.Linked.{has}
use xdsl.Ir.Region.{
  set_block_parent, set_blocks, attach_block, attach_blocks, give_blocks, insert_block,
}
use xdsl.Ir.Region.Placed.{
  NoRepeats, NoRepeats-if, IsPlaced, has-slices, NoRepeats-slices, give_blocks-region,
  give_blocks-parent,
}

-- Distinct detached blocks, none of which is above the region.
abbrev pub MayAttachBlocks : ℕ → Ir → ℕ → List ℕ → Type 0
MayAttachBlocks depth s self [] = Unit
MayAttachBlocks depth s self (b ∷ bs) =
    ((s.block b).parent ≡ none)
    × (is_ancestor depth (a_block b) (a_region self) s ≡ (ok false, s))
    × (has b bs ≡ false)
    × MayAttachBlocks depth s self bs

parent_node-other :
    (b : ℕ) (p : Option ℕ) (s : Ir) (n : Node)
    → is_same n (a_block b) ≡ false
    → parent_node (set_block_parent b p s) n ≡ parent_node s n
unfolding parent_node is_same
parent_node-other b p s (an_op o) h = refl
parent_node-other b p s (a_block c) h = ground (arith, h)
parent_node-other b p s (a_region r) h = refl

MayAttachBlocks-after :
    (depth : ℕ) (s : Ir) (self b : ℕ) (bs : List ℕ)
    → is_ancestor depth (a_block b) (a_region self) s ≡ (ok false, s)
    → has b bs ≡ false
    → MayAttachBlocks depth s self bs
    → MayAttachBlocks depth (set_block_parent b (some self) s) self bs
MayAttachBlocks-after depth s self b [] a n h = tt
MayAttachBlocks-after depth s self b (c ∷ bs) a n (p, q, r, h) =
    let s' = set_block_parent b (some self) s in
    (
      ground (arith, n, p),
      is_ancestor_but depth s s' (a_block b) (a_block c) (a_region self) false
          (parent_node-other b (some self) s) a q,
      r,
      MayAttachBlocks-after depth s self b bs a (ground (arith, n)) h,
    )

attach_block-ok :
    (depth self b : ℕ) (s : Ir)
    → (s.block b).parent ≡ none
    → is_ancestor depth (a_block b) (a_region self) s ≡ (ok false, s)
    → attach_block depth self b s ≡ (ok tt, set_block_parent b (some self) s)
unfolding attach_block
attach_block-ok depth self b s h k = ground (arith, h, k)

attach_blocks-ok :
    (depth self : ℕ) (bs : List ℕ) (s : Ir)
    → MayAttachBlocks depth s self bs
    → attach_blocks depth self bs s ≡ (ok tt, give_blocks self bs s)
unfolding attach_blocks give_blocks
attach_blocks-ok depth self [] s h = refl
attach_blocks-ok depth self (b ∷ bs) s (p, q, r, h) = rw (attach_block-ok depth self b s p q) (
    attach_blocks-ok depth self bs (set_block_parent b (some self) s)
      (MayAttachBlocks-after depth s self b bs q r h))

has-detached :
    (depth : ℕ) (s : Ir) (self : ℕ) (bs : List ℕ) (b : ℕ)
    → MayAttachBlocks depth s self bs
    → has b bs ≡ true
    → (s.block b).parent ≡ none
has-detached depth s self [] b h m = absurd (cc)
has-detached depth s self (c ∷ bs) b (p, q, r, h) m =
    ground (arith, p, m, has-detached depth s self bs b h)

MayAttachBlocks-NoRepeats :
    (depth : ℕ) (s : Ir) (self : ℕ) (bs : List ℕ) → MayAttachBlocks depth s self bs → NoRepeats bs
MayAttachBlocks-NoRepeats depth s self [] h = tt
MayAttachBlocks-NoRepeats depth s self (b ∷ bs) (p, q, r, h) =
    (r, MayAttachBlocks-NoRepeats depth s self bs h)

-- The state after the insertion.
abbrev after_insert : ℕ → List ℕ → ℕ → Ir → Ir
after_insert self news index s =
    let old = (s.region self).blocks in
    set_blocks self (take index old ++ (news ++ drop index old)) (give_blocks self news s)

insert_block-ok :
    (depth self : ℕ) (news : List ℕ) (index : ℕ) (s : Ir)
    → MayAttachBlocks depth s self news
    → index ≤ length (s.region self).blocks
    → insert_block depth self news index s ≡ (ok tt, after_insert self news index s)
unfolding insert_block
insert_block-ok depth self news index s h le =
    let within : ltb (length (s.region self).blocks) index ≡ false = ground (arith, le) in
    rw (within, attach_blocks-ok depth self news s h, give_blocks-region self news s)

after_insert-blocks :
    (self : ℕ) (news : List ℕ) (index : ℕ) (s : Ir) (r : ℕ)
    → ((after_insert self news index s).region r).blocks ≡ (
        if r == self
        then take index (s.region self).blocks ++ (news ++ drop index (s.region self).blocks)
        else (s.region r).blocks)
after_insert-blocks self news index s r = rw (give_blocks-region self news s) (ground arith)

after_insert-has :
    (self : ℕ) (news : List ℕ) (index : ℕ) (s : Ir) (r b : ℕ)
    → has b ((after_insert self news index s).region r).blocks ≡ (
        if r == self
        then (has b news || has b (s.region self).blocks)
        else has b (s.region r).blocks)
after_insert-has self news index s r b =
    rw (after_insert-blocks self news index s r)
      (ground (arith, has-slices b index (s.region self).blocks news))

after_insert-IsPlaced :
    (depth self : ℕ) (news : List ℕ) (index : ℕ) (s : Ir)
    → IsPlaced s
    → MayAttachBlocks depth s self news
    → IsPlaced (after_insert self news index s)
after_insert-IsPlaced depth self news index s v h = record {
  listed = λ r b.
      let parents = give_blocks-parent self news s b in
      let blocks = after_insert-has self news index s r b in
      let free = has-detached depth s self news b h in
      ground (arith, parents, blocks, free, v.listed r b);
  once = λ r.
      let spliced =
        NoRepeats-slices index (s.region self).blocks news (v.once self)
          (MayAttachBlocks-NoRepeats depth s self news h)
          (λ b m.
            let free = has-detached depth s self news b h m in
            ground (arith, free, v.listed self b)) in
      rw (after_insert-blocks self news index s r)
        (NoRepeats-if (r == self) _ (s.region r).blocks spliced (v.once r));
}

-- Where the blocks of each region are those whose parent it is, each once, `insert_block` of distinct
-- detached blocks, none of which is above the region, at an index up to the length of the region
-- returns and keeps that; the region has the new blocks in their order at the index, between its old
-- ones, and no other region changes.
pub insert_block-IsPlaced :
    (depth self : ℕ) (news : List ℕ) (index : ℕ) (s : Ir)
    → IsPlaced s
    → MayAttachBlocks depth s self news
    → index ≤ length (s.region self).blocks
    → ((insert_block depth self news index s).0 ≡ ok tt)
      × IsPlaced (insert_block depth self news index s).1
      × ((r : ℕ)
          → ((insert_block depth self news index s).1.region r).blocks ≡ (
              if r == self
              then take index (s.region self).blocks ++ (news ++ drop index (s.region self).blocks)
              else (s.region r).blocks))
insert_block-IsPlaced depth self news index s v h le =
    rw (insert_block-ok depth self news index s h le) (
      refl,
      after_insert-IsPlaced depth self news index s v h,
      after_insert-blocks self news index s,
    )
