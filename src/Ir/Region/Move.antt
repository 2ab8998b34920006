-- ===== src/Ir/Region/Move.antt =====
-- Detaching a block from its region, and moving all blocks of a region to another.
use xdsl.Prelude.{
  ℕ, suc, ◌≡◌, ◌≢◌, refl, ap, ◌∙◌, inl, inr, true, false, none, some, List, [], ◌∷◌, ◌++◌, ◌==◌,
  if◌then◌else◌, arith, Bool-cases,
}
use xdsl.Prelude.Slices.{take, drop}
use xdsl.Result.{ok}
use xdsl.Ir.Store.{Ir, is_ref}
use xdsl.Ir.Block.Linked.{has}
use xdsl.Ir.Region.{
  set_block_parent, set_blocks, give_blocks, position, get_block_index, detach_at, detach_block,
  move_blocks,
}
use xdsl.Ir.Region.Placed.{
  NoRepeats, NoRepeats-if, IsPlaced, give_blocks-region, give_blocks-parent,
}

-- The list without its first occurrence of a block.
abbrev pub remove : ℕ → List ℕ → List ℕ
remove b [] = []
remove b (x ∷ xs) = if x == b then xs else x ∷ remove b xs

position-remove :
    (b : ℕ) (xs : List ℕ)
    → has b xs ≡ true
    → (i : ℕ) × ((position b xs ≡ some i) × (take i xs ++ drop (suc i) xs ≡ remove b xs))
unfolding position take drop
position-remove b [] h = absurd (cc)
position-remove b (x ∷ xs) h = elim (Bool-cases (x == b)) [
  | inl e ↦ (0, (ground (arith, e), ground (arith, e)))
  | inr n ↦
      let (i, (p, q)) = position-remove b xs (ground (arith, h, n)) in
      (suc i, (rw (n, p), rw n (ap (λ ys. x ∷ ys) q)))
]

has-remove :
    (c b : ℕ) (xs : List ℕ)
    → NoRepeats xs
    → has c (remove b xs) ≡ (if c == b then false else has c xs)
has-remove c b [] h = ground arith
has-remove c b (x ∷ xs) (h, hs) = ground (arith, h, has-remove c b xs hs)

NoRepeats-remove : (b : ℕ) (xs : List ℕ) → NoRepeats xs → NoRepeats (remove b xs)
NoRepeats-remove b [] h = tt
NoRepeats-remove b (x ∷ xs) (h, hs) =
    NoRepeats-if (x == b) xs (x ∷ remove b xs) hs
      (has-remove x b xs hs ∙ ground (arith, h), NoRepeats-remove b xs hs)

abbrev after_detach : ℕ → ℕ → Ir → Ir
after_detach self block s =
    set_blocks self (remove block (s.region self).blocks) (set_block_parent block none s)

detach_block-ok :
    (self block : ℕ) (s : Ir)
    → IsPlaced s
    → (s.block block).parent ≡ some self
    → detach_block self block s ≡ (ok block, after_detach self block s)
unfolding detach_block get_block_index detach_at
detach_block-ok self block s v h =
    let (i, (p, q)) = position-remove block (s.region self).blocks ((v.listed self block).1 h) in
    let at : is_ref (s.block block).parent self ≡ true = ground (arith, h) in rw (at, p, q)

after_detach-blocks :
    (self block : ℕ) (s : Ir) (r : ℕ)
    → ((after_detach self block s).region r).blocks
      ≡ (if r == self then remove block (s.region self).blocks else (s.region r).blocks)
after_detach-blocks self block s r = ground arith

-- Where the blocks of each region are those whose parent it is, each once, `detach_block` of a block of
-- the region returns the block and keeps that; the block is gone from the region, whose other blocks
-- stay in their order, and no other region changes.
pub detach_block-IsPlaced :
    (self block : ℕ) (s : Ir)
    → IsPlaced s
    → (s.block block).parent ≡ some self
    → ((detach_block self block s).0 ≡ ok block)
      × IsPlaced (detach_block self block s).1
      × ((r : ℕ)
          → ((detach_block self block s).1.region r).blocks
            ≡ (if r == self then remove block (s.region self).blocks else (s.region r).blocks))
detach_block-IsPlaced self block s v h = rw (detach_block-ok self block s v h) (
  refl,
  (record {
    listed = λ r b.
        let gone = has-remove b block (s.region self).blocks (v.once self) in
        ground (arith, gone, h, v.listed r b, v.listed self b);
    once = λ r. rw (after_detach-blocks self block s r) (
        NoRepeats-if (r == self) _ (s.region r).blocks
          (NoRepeats-remove block (s.region self).blocks (v.once self)) (v.once r));
  }),
  after_detach-blocks self block s,
)

-- The lists of blocks after `move_blocks`, before the parents are set.
abbrev moved : ℕ → ℕ → Ir → Ir
moved self region s = set_blocks self [] (set_blocks region (s.region self).blocks s)

moved-blocks :
    (self region : ℕ) (s : Ir) (r : ℕ)
    → ((moved self region s).region r).blocks ≡ (
        if r == self
        then []
        else if r == region
        then (s.region self).blocks
        else (s.region r).blocks)
moved-blocks self region s r = ground arith

moved-has :
    (self region : ℕ) (s : Ir) (r b : ℕ)
    → has b ((moved self region s).region r).blocks ≡ (
        if r == self
        then false
        else if r == region
        then has b (s.region self).blocks
        else has b (s.region r).blocks)
moved-has self region s r b = rw (moved-blocks self region s r) (ground arith)

move_blocks-ok :
    (self region : ℕ) (s : Ir)
    → region ≢ self
    → move_blocks self region s
      ≡ (ok tt, give_blocks region (s.region self).blocks (moved self region s))
unfolding move_blocks
move_blocks-ok self region s n =
    let e : ((moved self region s).region region).blocks ≡ (s.region self).blocks =
      ground (arith, n, moved-blocks self region s region) in
    rw e

-- Where the blocks of each region are those whose parent it is, each once, `move_blocks` to another
-- region that is empty returns and keeps that; the other region has the blocks, this one has none, and
-- no third region changes.
pub move_blocks-IsPlaced :
    (self region : ℕ) (s : Ir)
    → IsPlaced s
    → region ≢ self
    → (s.region region).blocks ≡ []
    → ((move_blocks self region s).0 ≡ ok tt)
      × IsPlaced (move_blocks self region s).1
      × ((r : ℕ)
          → ((move_blocks self region s).1.region r).blocks ≡ (
              if r == self
              then []
              else if r == region
              then (s.region self).blocks
              else (s.region r).blocks))
move_blocks-IsPlaced self region s v n e =
    let same = give_blocks-region region (s.region self).blocks (moved self region s) in
    rw (move_blocks-ok self region s n) (
      refl,
      (record {
        listed = λ r b.
            let parents =
              give_blocks-parent region (s.region self).blocks (moved self region s) b in
            let blocks = moved-has self region s r b in
            let none_there = ap (λ bs. has b bs) e in
            rw same (
              ground (
                arith,
                parents,
                blocks,
                none_there,
                n,
                v.listed r b,
                v.listed self b,
                v.listed region b,
              ));
        once = λ r.
            rw (same, moved-blocks self region s r)
              (NoRepeats-if (r == self) [] _ tt
                (NoRepeats-if (r == region) _ (s.region r).blocks (v.once self) (v.once r)));
      }),
      λ r. rw same (moved-blocks self region s r),
    )
