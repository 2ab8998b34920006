-- ===== src/Ir/Region/Placed.antt =====
-- Lists of blocks without repetitions, and the blocks that a region places.
use xdsl.Prelude.{
  ℕ, zero, suc, ◌≡◌, ◌↔◌, refl, ◌∙◌, Bool, true, false, some, List, [], ◌∷◌, ◌++◌, ◌||◌,
  if◌then◌else◌, arith,
}
use xdsl.Prelude.Slices.{take, drop}
use xdsl.Ir.Store.{Ir}
use xdsl.Ir.Block.Linked.{has, has-append}
use xdsl.Ir.Region.{set_block_parent, give_blocks}

abbrev pub NoRepeats : List ℕ → Type 0
NoRepeats [] = Unit
NoRepeats (x ∷ xs) = (has x xs ≡ false) × NoRepeats xs

-- The blocks of each region are those whose parent it is, each of them once.
pub record IsPlaced (s : Ir) : Type 0 where
  pub listed : (r b : ℕ) → (has b (s.region r).blocks ≡ true) ↔ ((s.block b).parent ≡ some r)
  pub once : (r : ℕ) → NoRepeats (s.region r).blocks

pub NoRepeats-if :
    (c : Bool) (xs ys : List ℕ) → NoRepeats xs → NoRepeats ys → NoRepeats (if c then xs else ys)
NoRepeats-if true xs ys h k = h
NoRepeats-if false xs ys h k = k

pub has-slices :
    (b i : ℕ) (xs ys : List ℕ) → has b (take i xs ++ (ys ++ drop i xs)) ≡ (has b ys || has b xs)
unfolding take drop
has-slices b zero xs ys = has-append b ys xs
has-slices b (suc i) [] ys = has-append b ys []
has-slices b (suc i) (x ∷ xs) ys = ground (arith, has-slices b i xs ys)

pub NoRepeats-append :
    (xs ys : List ℕ)
    → NoRepeats xs
    → NoRepeats ys
    → ((b : ℕ) → has b xs ≡ true → has b ys ≡ false)
    → NoRepeats (xs ++ ys)
NoRepeats-append [] ys h k d = k
NoRepeats-append (x ∷ xs) ys (h, hs) k d = (
  has-append x xs ys ∙ ground (arith, h, d x),
  NoRepeats-append xs ys hs k (λ b m. d b (ground (arith, m))),
)

pub NoRepeats-slices :
    (i : ℕ) (xs ys : List ℕ)
    → NoRepeats xs
    → NoRepeats ys
    → ((b : ℕ) → has b ys ≡ true → has b xs ≡ false)
    → NoRepeats (take i xs ++ (ys ++ drop i xs))
unfolding take drop
NoRepeats-slices zero xs ys h k d = NoRepeats-append ys xs k h d
NoRepeats-slices (suc i) [] ys h k d = NoRepeats-append ys [] k tt (λ b m. refl)
NoRepeats-slices (suc i) (x ∷ xs) ys (h, hs) k d = (
  has-slices x i xs ys ∙ ground (arith, h, d x),
  NoRepeats-slices i xs ys hs k (λ b m. ground (arith, d b m)),
)

pub give_blocks-region : (r : ℕ) (bs : List ℕ) (s : Ir) → (give_blocks r bs s).region ≡ s.region
unfolding give_blocks
give_blocks-region r [] s = refl
give_blocks-region r (b ∷ bs) s = give_blocks-region r bs (set_block_parent b (some r) s)

pub give_blocks-parent :
    (r : ℕ) (bs : List ℕ) (s : Ir) (b : ℕ)
    → ((give_blocks r bs s).block b).parent ≡ (if has b bs then some r else (s.block b).parent)
unfolding give_blocks
give_blocks-parent r [] s b = refl
give_blocks-parent r (c ∷ bs) s b =
    ground (arith, give_blocks-parent r bs (set_block_parent c (some r) s) b)
