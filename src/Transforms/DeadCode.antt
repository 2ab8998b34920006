-- ===== src/Transforms/DeadCode.antt =====
-- The pattern of dead code elimination, xdsl/transforms/dead_code_elimination.py. `is_pure` says which
-- operations have the trait `Pure`.
pub mod Step
pub mod Walk
use xdsl.Prelude.{
  ℕ, suc, ◌≡◌, refl, Bool, true, false, ◌&&◌, List, [], ◌∷◌, ◌++◌, some, ==_iff, if◌then◌else◌,
  Bool-cases, inl, inr, arith,
}
use xdsl.Result.{ok}
use xdsl.Ir.Store.{Ir, M, Use, update}
use xdsl.Ir.Store
use xdsl.Ir.Uses.{is_empty}
use xdsl.Ir.Block.Holds.{IsValid}
use xdsl.Ir.Block.Insert.{at-parent}
use xdsl.Ir.Erase
use xdsl.Ir.Erase.References.{Tracks}
use xdsl.Ir.Erase.Results.{AreUnused}
use xdsl.Ir.Erase.Unused.{SameOperands, block_erase_op-IsValid}
use xdsl.PatternRewriter.{PatternRewriter, W, pure}
use xdsl.PatternRewriter.Walker.{PatternRewriteWalker, rewrite_op}
use xdsl.PatternRewriter.Methods.{erase_op, erase_matched_op}

-- The loop over the results: whether none of them is used.
abbrev pub all_unused : Ir → List ℕ → Bool
all_unused s [] = true
all_unused s (result ∷ results) = is_empty (s.value result).uses && all_unused s results

unfoldable pub match_and_rewrite : ℕ → ℕ → (ℕ → ℕ) → (ℕ → Bool) → ℕ → W (Unit {0})
unfolding erase_op
match_and_rewrite depth fuel erased is_pure op r s =
    if is_pure op && all_unused s (s.op op).results
    then erase_op depth fuel erased op true r s
    else pure tt r s

-- The walker of `dce`, which walks in reverse and again over what it adds.
abbrev pub walker : ℕ → ℕ → (ℕ → ℕ) → (ℕ → Bool) → PatternRewriteWalker
walker depth fuel erased is_pure = record {
  pattern_ = match_and_rewrite depth fuel erased is_pure;
  walk_regions_first = false;
  apply_recursively = true;
  walk_reverse = true;
}

-- `dce` of a module
unfoldable pub dce : ℕ → ℕ → (ℕ → ℕ) → (ℕ → Bool) → ℕ → M (Unit {0})
unfolding match_and_rewrite rewrite_op
dce depth fuel erased is_pure op =
    Store.◌>>=◌ (rewrite_op depth fuel (walker depth fuel erased is_pure) op)
      (λ next. Store.pure tt)

is_empty-nil : (us : List Use) → is_empty us ≡ true → us ≡ []
is_empty-nil [] h = refl
is_empty-nil (u ∷ us) h = cc

pub all_unused-AreUnused : (s : Ir) (rs : List ℕ) → all_unused s rs ≡ true → AreUnused s rs
all_unused-AreUnused s [] h = tt
all_unused-AreUnused s (r ∷ rs) h = (
  is_empty-nil (s.value r).uses (ground (arith, h)),
  all_unused-AreUnused s rs (ground (arith, h)),
)

erase_op-matched :
    (depth fuel : ℕ) (erased : ℕ → ℕ) (b : ℕ) (r : PatternRewriter) (s s' : Ir)
    → (s.op r.current_operation).parent ≡ some b
    → Erase.block_erase_op depth fuel erased b r.current_operation true s ≡ (ok tt, s')
    → erase_op depth fuel erased r.current_operation true r s
      ≡ (ok tt, (record r { has_done_action = true; has_erased_matched_operation = true }, s'))
unfolding erase_op erase_matched_op Erase.erase_op
erase_op-matched depth fuel erased b r s s' p e =
    rw ((==_iff r.current_operation r.current_operation).1 refl) (rw p (rw e refl))

-- Whether the pattern removes the operation.
abbrev pub is_dead : (ℕ → Bool) → Ir → ℕ → Bool
is_dead is_pure s op = is_pure op && all_unused s (s.op op).results

-- What matching the operation between `pre` and `post` in block `b` does: where it is not dead nothing,
-- and where it is dead it is erased.
abbrev pub HasMatched :
    (ℕ → List ℕ)
    → (ℕ → Bool)
    → ℕ
    → List ℕ
    → List ℕ
    → PatternRewriter
    → Ir
    → (PatternRewriter × Ir)
    → Bool
    → Type 0
HasMatched ops_of there b pre post r s (r', s') false = (r' ≡ r) × (s' ≡ s)
HasMatched ops_of there b pre post r s (r', s') true =
    (r' ≡ record r { has_done_action = true; has_erased_matched_operation = true })
    × IsValid s' (update ops_of b (pre ++ post))
    × Tracks (update there r.current_operation false) s'
    × SameOperands s s'

-- In a valid IR where the values have the uses that are the operands of the operations that are
-- there: matching an operation of a block that is there and has no regions returns; it changes
-- nothing where the operation is not pure or has a result that is used, and otherwise takes exactly
-- this operation out of the list of its block, and the uses of its operands away.
pub match_and_rewrite-HasMatched :
    (s : Ir) (r : PatternRewriter) (ops_of : ℕ → List ℕ) (there : ℕ → Bool) (depth fuel : ℕ)
    (erased : ℕ → ℕ) (is_pure : ℕ → Bool) (b : ℕ) (pre post : List ℕ)
    → IsValid s ops_of
    → Tracks there s
    → ops_of b ≡ pre ++ r.current_operation ∷ post
    → there r.current_operation ≡ true
    → (s.op r.current_operation).regions ≡ []
    → (after : PatternRewriter × Ir) × (match_and_rewrite
          (suc depth)
          fuel
          erased
          is_pure
          r.current_operation
          r
          s
        ≡ (ok tt, after))
      × HasMatched ops_of there b pre post r s after (is_dead is_pure s r.current_operation)
unfolding match_and_rewrite
match_and_rewrite-HasMatched s r ops_of there depth fuel erased is_pure b pre post v t split l g =
    let x = r.current_operation in
    elim (Bool-cases (is_dead is_pure s x)) [
      | inl e ↦
          let unused = all_unused-AreUnused s (s.op x).results (ground (arith, e)) in
          let (s', done, v', t', same) =
            block_erase_op-IsValid s ops_of there depth fuel erased b x pre post v t split l g
              unused in
          let inside = at-parent s ops_of b x pre post v split in
          let r' : PatternRewriter = record r {
            has_done_action = true;
            has_erased_matched_operation = true;
          } in
          rw e (
            (r', s'),
            erase_op-matched (suc depth) fuel erased b r s s' inside done,
            (refl, v', t', same),
          )
      | inr e ↦ rw e ((r, s), refl, (refl, refl))
    ]
