-- ===== src/Ir/Erase/Results.antt =====
-- Erasing the results of an operation, which are unused.
use xdsl.Prelude.{ℕ, ◌≡◌, refl, ◌∙◌, true, List, [], ◌∷◌, arith}
use xdsl.Result.{ok}
use xdsl.Ir.Store.{Ir}
use xdsl.Ir.Uses.{use_at, has_use, carry_name, replace_uses, replace_by, remove_uses}
use xdsl.Ir.Uses
use xdsl.Ir.Erase.{erase_results}
use xdsl.Ir.Erase.References.{SameLinks}

-- Values none of which has a use.
abbrev pub AreUnused : Ir → List ℕ → Type 0
AreUnused s [] = Unit
AreUnused s (r ∷ rs) = ((s.value r).uses ≡ []) × AreUnused s rs

-- The uses of the values are the same.
abbrev pub SameUses : Ir → Ir → Type 0
SameUses s s' = (v : ℕ) → (s'.value v).uses ≡ (s.value v).uses

pub AreUnused-SameUses :
    (s s' : Ir) (rs : List ℕ) → SameUses s s' → AreUnused s rs → AreUnused s' rs
AreUnused-SameUses s s' [] f h = tt
AreUnused-SameUses s s' (r ∷ rs) f (h, hs) = (f r ∙ h, AreUnused-SameUses s s' rs f hs)

carry_name-SameUses : (r e : ℕ) (s : Ir) → SameUses s (carry_name r e s)
unfolding carry_name
carry_name-SameUses r e s v = ground arith

carry_name-SameLinks : (r e : ℕ) (s : Ir) → SameLinks s (carry_name r e s)
unfolding carry_name
carry_name-SameLinks r e s = ground arith

replace_by-unused :
    (r e : ℕ) (s : Ir) → (s.value r).uses ≡ [] → replace_by r e s ≡ (ok tt, carry_name r e s)
unfolding replace_by replace_uses
replace_by-unused r e s h =
    let after : ((carry_name r e s).value r).uses ≡ [] = carry_name-SameUses r e s r ∙ h in
    rw h (rw after refl)

erase-unused :
    (r e : ℕ) (s : Ir) → (s.value r).uses ≡ [] → Uses.erase r true e s ≡ (ok tt, carry_name r e s)
unfolding Uses.erase
erase-unused r e s h = rw h (replace_by-unused r e s h)

pub erase_results-unused :
    (erased : ℕ → ℕ) (rs : List ℕ) (s : Ir)
    → AreUnused s rs
    → (s' : Ir) × (erase_results true erased rs s ≡ (ok tt, s')) × SameLinks s s' × SameUses s s'
unfolding erase_results
erase_results-unused erased [] s h = (s, refl, (refl, refl, refl), λ v. refl)
erase_results-unused erased (r ∷ rs) s (h, hs) =
    let next = carry_name r (erased r) s in
    let f = carry_name-SameUses r (erased r) s in
    let links = carry_name-SameLinks r (erased r) s in
    let (s', e, links', f') =
      erase_results-unused erased rs next (AreUnused-SameUses s next rs f hs) in
    (
      s',
      rw (erase-unused r (erased r) s h) e,
      (links'.0 ∙ links.0, links'.1 ∙ links.1, links'.2 ∙ links.2),
      λ v. f' v ∙ f v,
    )
