-- ===== src/Ir/Block/Iterate.antt =====
-- Iterating over a block (xdsl/ir/core.py) goes through its list, forwards and backwards.
use xdsl.Prelude.{
  ℕ, zero, suc, ◌+◌, ◌≡◌, ◌≤◌, refl, sym, ap, ◌∙◌, false, Option, none, some, List, [], ◌∷◌, ◌++◌,
  ==_iff, ◌-◌, arith, length, append_assoc, append-nil, reverse,
}
use mathlib.Core.List.{reverse-cons}
use xdsl.Result.{ok}
use xdsl.Ir.Store.{Ir}
use xdsl.Ir.Block.{
  ops_from, ops_back_from, block_ops, block_ops_reverse, index_from, get_operation_index,
}
use xdsl.Ir.Block.Linked.{has, first_or, last_or, Linked, Linked-split}
use xdsl.Ir.Block.Holds.{IsValid}
use xdsl.Ir.Block.Insert.{at-parent}

ops_from-Linked :
    (s : Ir) (b : ℕ) (prev : Option ℕ) (xs : List ℕ) (fuel : ℕ)
    → Linked s.op b prev xs none
    → length xs ≤ fuel
    → ops_from fuel (first_or xs none) s ≡ (ok xs, s)
unfolding ops_from
ops_from-Linked s b prev [] zero h l = refl
ops_from-Linked s b prev [] (suc fuel) h l = refl
ops_from-Linked s b prev (x ∷ xs) zero h l = absurd (omega arith)
ops_from-Linked s b prev (x ∷ xs) (suc fuel) h l =
    rw (h.2, ops_from-Linked s b (some x) xs fuel h.4 (omega arith))

-- In a valid IR, iterating over the operations of a block yields its list.
pub block_ops-eq :
    (s : Ir) (ops_of : ℕ → List ℕ) (b fuel : ℕ)
    → IsValid s ops_of
    → length (ops_of b) ≤ fuel
    → block_ops fuel b s ≡ (ok (ops_of b), s)
unfolding block_ops
block_ops-eq s ops_of b fuel v l =
    rw (v.holds b).first (ops_from-Linked s b none (ops_of b) fuel (v.holds b).linked l)

ops_back_from-Linked :
    (s : Ir) (b : ℕ) (prev next : Option ℕ) (xs rest : List ℕ) (fuel : ℕ)
    → Linked s.op b prev xs next
    → ops_back_from fuel prev s ≡ (ok rest, s)
    → ops_back_from (length xs + fuel) (last_or prev xs) s ≡ (ok (reverse xs ++ rest), s)
unfolding ops_back_from
ops_back_from-Linked s b prev next [] rest fuel h r =
    let e : 0 + fuel ≡ fuel = omega arith in rw e r
ops_back_from-Linked s b prev next (x ∷ xs) rest fuel h r =
    let e : suc (length xs) + fuel ≡ length xs + suc fuel = omega arith in
    let here : ops_back_from (suc fuel) (some x) s ≡ (ok (x ∷ rest), s) = rw (h.1, r) in
    rw e (
      ops_back_from-Linked s b (some x) next xs (x ∷ rest) (suc fuel) h.4 here
      ∙ ap (λ (l : List ℕ). (ok l, s))
          (sym (
            ap (λ (l : List ℕ). l ++ rest) (reverse-cons x xs)
            ∙ append_assoc (reverse xs) (x ∷ []) rest)))

ops_back_from-none : (fuel : ℕ) (s : Ir) → ops_back_from fuel none s ≡ (ok [], s)
unfolding ops_back_from
ops_back_from-none zero s = refl
ops_back_from-none (suc fuel) s = refl

-- In a valid IR, iterating over the operations of a block in reverse yields its list reversed.
pub block_ops_reverse-eq :
    (s : Ir) (ops_of : ℕ → List ℕ) (b fuel : ℕ)
    → IsValid s ops_of
    → length (ops_of b) ≤ fuel
    → block_ops_reverse fuel b s ≡ (ok (reverse (ops_of b)), s)
unfolding block_ops_reverse
block_ops_reverse-eq s ops_of b fuel v l =
    let k = fuel - length (ops_of b) in
    let e : fuel ≡ length (ops_of b) + k = omega arith in
    rw ((v.holds b).last, e)
      (ops_back_from-Linked s b none none (ops_of b) [] k (v.holds b).linked
          (ops_back_from-none k s)
        ∙ ap (λ (xs : List ℕ). (ok xs, s)) (append-nil (reverse (ops_of b))))

-- The position of an operation in a list.
index_from-append :
    (x : ℕ) (pre post : List ℕ) (i : ℕ) (s : Ir)
    → has x pre ≡ false
    → index_from x (pre ++ x ∷ post) i s ≡ (ok (i + length pre), s)
unfolding index_from
index_from-append x [] post i s n = ground arith
index_from-append x (y ∷ pre) post i s n = ground (arith, index_from-append x pre post (suc i) s)

-- In a valid IR, `get_operation_index` of an operation of the block returns the number of operations
-- before it.
pub get_operation_index-length :
    (s : Ir) (ops_of : ℕ → List ℕ) (b x fuel : ℕ) (pre post : List ℕ)
    → IsValid s ops_of
    → ops_of b ≡ pre ++ x ∷ post
    → length (ops_of b) ≤ fuel
    → get_operation_index fuel b x s ≡ (ok (length pre), s)
unfolding get_operation_index
get_operation_index-length s ops_of b x fuel pre post v split l =
    let d = (Linked-split s.op b none none pre (x ∷ post) (rw split at (v.holds b).linked)).2 in
    let n : has x pre ≡ false = ground (arith, d x) in
    rw
      (
        at-parent s ops_of b x pre post v split,
        (==_iff b b).1 refl,
        block_ops-eq s ops_of b fuel v l,
        split,
        index_from-append x pre post 0 s n,
      )
      (ap (λ (k : ℕ). (ok k, s)) (omega arith))
