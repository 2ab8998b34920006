-- ===== src/Examples/RegionExamples.antt =====
-- The blocks of a region: region 0 holds block 1, and the blocks 2 and 3 are detached.
use xdsl.Prelude.{ℕ, ◌≡◌, refl, none, some, [], ◌∷◌, ◌++◌, ◌==◌, if◌then◌else◌, arith}
use xdsl.Prelude.Slices.{take, drop}
use xdsl.Result.{ok}
use xdsl.Ir.Store.{Ir}
use xdsl.Ir.Block.{is_ancestor}
use xdsl.Ir.Region.{insert_block}
use xdsl.Ir.Region.Placed.{IsPlaced, NoRepeats-if}
use xdsl.Ir.Region.Insert.{MayAttachBlocks, insert_block-IsPlaced}

abbrev one_region : Ir
one_region = record {
  op = λ o. record {
    parent = none;
    next_op = none;
    prev_op = none;
    operands = [];
    results = [];
    regions = [];
  };
  block = λ b. record {
    args = [];
    first_op = none;
    last_op = none;
    parent = if b == 1 then some 0 else none;
  };
  region = λ r. record { blocks = if r == 0 then 1 ∷ [] else []; parent = none };
  value = λ v. record { uses = []; name_hint = none };
}

one_region-IsPlaced : IsPlaced one_region
one_region-IsPlaced = record {
  listed = λ r b. ground arith;
  once = λ r. NoRepeats-if (r == 0) (1 ∷ []) [] (refl, tt) tt;
}

may_2_3 : MayAttachBlocks 3 one_region 0 (2 ∷ 3 ∷ [])
unfolding is_ancestor
may_2_3 = (refl, refl, refl, (refl, refl, refl, tt))

insert_block-IsPlaced_example :
    ((insert_block 3 0 (2 ∷ 3 ∷ []) 1 one_region).0 ≡ ok tt)
    × IsPlaced (insert_block 3 0 (2 ∷ 3 ∷ []) 1 one_region).1
    × ((r : ℕ)
        → ((insert_block 3 0 (2 ∷ 3 ∷ []) 1 one_region).1.region r).blocks ≡ (
            if r == 0
            then take 1 (one_region.region 0).blocks
              ++ ((2 ∷ 3 ∷ []) ++ drop 1 (one_region.region 0).blocks)
            else (one_region.region r).blocks))
insert_block-IsPlaced_example =
    insert_block-IsPlaced 3 0 (2 ∷ 3 ∷ []) 1 one_region one_region-IsPlaced may_2_3 (omega arith)
