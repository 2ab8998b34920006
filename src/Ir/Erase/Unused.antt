-- ===== src/Ir/Erase/Unused.antt =====
-- Erasing an operation whose results are unused.
use xdsl.Prelude.{
  ℕ, suc, ◌≡◌, refl, ap, ◌∙◌, sym, Bool, true, false, none, List, [], ◌∷◌, ◌++◌, get_elem?, ◌==◌,
  arith, Bool-cases, inl, inr,
}
use mathlib.Core.Path.{fun_ext}
use xdsl.Result.{ok}
use xdsl.Ir.Store.{Ir, Operation, M, update, set_parent}
use xdsl.Ir.Block.{detach_op}
use xdsl.Ir.Block.Holds.{IsValid}
use xdsl.Ir.Block.Detach.{detach_op-IsValid, detach_op-Unspliced}
use xdsl.Ir.Uses.{has_use, remove_uses}
use xdsl.Ir.Uses.Sets.{has_use-nil}
use xdsl.Ir.Erase.{drop_operands_and_regions, drop_all_references, erase, block_erase_op}
use xdsl.Ir.Erase.References.{Tracks, SameLinks, remove_uses-Tracks}
use xdsl.Ir.Erase.Results.{AreUnused, SameUses, AreUnused-SameUses, erase_results-unused}

-- A parent that is none already.
parent_none : (o : Operation) → o.parent ≡ none → record o { parent = none } ≡ o
parent_none o h = ap (λ p. record o { parent = p }) (sym h)

set_parent-none : (op : ℕ) (s : Ir) → (s.op op).parent ≡ none → set_parent op none s ≡ s
set_parent-none op s h =
    ap (λ f. record s { op = f })
      (fun_ext (λ o. elim (Bool-cases (o == op)) [
        | inl e ↦ let e' : o ≡ op = ground (arith, e) in rw (e, e') (parent_none (s.op op) h)
        | inr e ↦ rw e refl
      ]))

-- The fields of operations and the values that detaching leaves.
abbrev pub SameOperands : Ir → Ir → Type 0
SameOperands s s' =
    (o : ℕ)
    → ((s'.op o).operands ≡ (s.op o).operands)
      × ((s'.op o).results ≡ (s.op o).results)
      × ((s'.op o).regions ≡ (s.op o).regions)

detach_op-SameOperands : (b x : ℕ) (s : Ir) → SameOperands s (detach_op b x s).1
unfolding detach_op
detach_op-SameOperands b x s o = ground arith

detach_op-SameUses : (b x : ℕ) (s : Ir) → SameUses s (detach_op b x s).1
unfolding detach_op
detach_op-SameUses b x s v = ground arith

-- Fewer operations leave a value unused.
AreUnused-Tracks :
    (there : ℕ → Bool) (op : ℕ) (s s' : Ir) (rs : List ℕ)
    → Tracks there s
    → Tracks (update there op false) s'
    → SameLinks s s'
    → AreUnused s rs
    → AreUnused s' rs
unfolding has_use
AreUnused-Tracks there op s s' [] t t' links h = tt
AreUnused-Tracks there op s s' (r ∷ rs) t t' links (h, hs) = (
  has_use-nil (s'.value r).uses (λ u.
      let now : get_elem? (s'.op u.operation).operands u.index
          ≡ get_elem? (s.op u.operation).operands u.index =
        rw links.0 refl in
      ground (arith, t r u.operation u.index, t' r u.operation u.index, h, now)),
  AreUnused-Tracks there op s s' rs t t' links hs,
)

pub Tracks-SameUses :
    (there : ℕ → Bool) (s s' : Ir)
    → Tracks there s
    → ((o : ℕ) → (s'.op o).operands ≡ (s.op o).operands)
    → SameUses s s'
    → Tracks there s'
Tracks-SameUses there s s' t f g v o i = rw (f o, g v) (t v o i)

drop_operands_and_regions-eq :
    (drop : ℕ → M (Unit {0})) (fuel op : ℕ) (s s' : Ir)
    → remove_uses op 0 (s.op op).operands s ≡ (ok tt, s')
    → (s'.op op).regions ≡ []
    → drop_operands_and_regions drop fuel op s ≡ (ok tt, s')
unfolding drop_operands_and_regions
drop_operands_and_regions-eq drop fuel op s s' e r = rw e (rw r refl)

drop_all_references-Tracks :
    (there : ℕ → Bool) (depth fuel op : ℕ) (s : Ir)
    → Tracks there s
    → there op ≡ true
    → (s.op op).parent ≡ none
    → (s.op op).regions ≡ []
    → (s' : Ir) × (drop_all_references (suc depth) fuel op s ≡ (ok tt, s'))
      × Tracks (update there op false) s'
      × SameLinks s s'
unfolding drop_all_references
drop_all_references-Tracks there depth fuel op s t l p r =
    let (s', e, t', links) = remove_uses-Tracks there op s t l in
    let r' : (s'.op op).regions ≡ [] = rw links.0 r in
    let drop = drop_all_references depth fuel in
    (
      s',
      ap (drop_operands_and_regions drop fuel op) (set_parent-none op s p)
          ∙ drop_operands_and_regions-eq drop fuel op s s' e r',
      t',
      links,
    )

erase-Tracks :
    (there : ℕ → Bool) (depth fuel : ℕ) (erased : ℕ → ℕ) (op : ℕ) (s : Ir)
    → Tracks there s
    → there op ≡ true
    → (s.op op).parent ≡ none
    → (s.op op).regions ≡ []
    → AreUnused s (s.op op).results
    → (s' : Ir) × (erase (suc depth) fuel erased op true true s ≡ (ok tt, s'))
      × Tracks (update there op false) s'
      × SameLinks s s'
unfolding erase
erase-Tracks there depth fuel erased op s t l p r u =
    let (s1, e1, t1, links1) = drop_all_references-Tracks there depth fuel op s t l p r in
    let rs : (s1.op op).results ≡ (s.op op).results = rw links1.0 refl in
    let u1 = AreUnused-Tracks there op s s1 (s.op op).results t t1 links1 u in
    let (s2, e2, links2, f) = erase_results-unused erased (s.op op).results s1 u1 in
    let same : (o : ℕ) → (s2.op o).operands ≡ (s1.op o).operands = λ o. rw links2.0 refl in
    (
      s2,
      rw (p, e1) (rw rs e2),
      Tracks-SameUses (update there op false) s1 s2 t1 same f,
      (links2.0 ∙ links1.0, links2.1 ∙ links1.1, links2.2 ∙ links1.2),
    )

-- Validity is about links.
IsValid-SameLinks :
    (s s' : Ir) (ops_of : ℕ → List ℕ) → SameLinks s s' → IsValid s ops_of → IsValid s' ops_of
IsValid-SameLinks s s' ops_of (f, g, h) v = record {
  holds = λ b. record {
    first = rw g (v.holds b).first;
    last = rw g (v.holds b).last;
    linked = rw f (v.holds b).linked;
  };
  member = λ b o. rw f (v.member b o);
  free = λ o. rw f (v.free o);
}

-- In a valid IR where the values have the uses that are the operands of the operations that are
-- there: `Block.erase_op` of an operation of the block that is there, has no regions, and whose
-- results are unused, returns, takes exactly that operation out of the list of the block, and the
-- uses of its operands away, and changes no operands, results or regions of operations.
pub block_erase_op-IsValid :
    (s : Ir) (ops_of : ℕ → List ℕ) (there : ℕ → Bool) (depth fuel : ℕ) (erased : ℕ → ℕ) (b x : ℕ)
    (pre post : List ℕ)
    → IsValid s ops_of
    → Tracks there s
    → ops_of b ≡ pre ++ x ∷ post
    → there x ≡ true
    → (s.op x).regions ≡ []
    → AreUnused s (s.op x).results
    → (s' : Ir) × (block_erase_op (suc depth) fuel erased b x true s ≡ (ok tt, s'))
      × IsValid s' (update ops_of b (pre ++ post))
      × Tracks (update there x false) s'
      × SameOperands s s'
unfolding block_erase_op
block_erase_op-IsValid s ops_of there depth fuel erased b x pre post v t split l r u =
    let (d, v1) = detach_op-IsValid s ops_of b x pre post v split in
    let s1 = (detach_op b x s).1 in
    let same = detach_op-SameOperands b x s in
    let f = detach_op-SameUses b x s in
    let t1 = Tracks-SameUses there s s1 t (λ o. (same o).0) f in
    let r1 : (s1.op x).regions ≡ [] = (same x).2 ∙ r in
    let u1 : AreUnused s1 (s1.op x).results =
      rw (same x).1 (AreUnused-SameUses s s1 (s.op x).results f u) in
    let p1 : (s1.op x).parent ≡ none =
      ap (λ (o : Operation). o.parent) (detach_op-Unspliced s ops_of b x pre post v split).at_old in
    let (s2, e, t2, links) = erase-Tracks there depth fuel erased x s1 t1 l p1 r1 u1 in
    (
      s2,
      rw d e,
      IsValid-SameLinks s1 s2 (update ops_of b (pre ++ post)) links v1,
      t2,
      λ o. (rw links.0 (same o).0, rw links.0 (same o).1, rw links.0 (same o).2),
    )
