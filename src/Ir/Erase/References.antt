-- ===== src/Ir/Erase/References.antt =====
-- Dropping the uses of an operation's operands.
use xdsl.Prelude.{
  ℕ, suc, ◌+◌, ◌<◌, ◌≡◌, ◌↔◌, refl, ap, Option-cases, inl, inr, Bool, true, false, not, ◌&&◌, some,
  List, [], ◌∷◌, length, get_elem?, get_elem?-lt, ◌==◌, ltb, arith,
}
use xdsl.Result.{ok}
use xdsl.Ir.Store.{Ir, update}
use xdsl.Ir.Uses.{use_at, has_use, without, set_uses, remove_use, remove_uses}
use xdsl.Ir.Uses.Sets.{has_use-without}

-- The values have the uses that are the operands of the operations that are there.
abbrev pub Tracks : (ℕ → Bool) → Ir → Type 0
Tracks there s =
    (v op idx : ℕ)
    → (has_use (use_at op idx) (s.value v).uses ≡ true)
      ↔ ((there op ≡ true) × (get_elem? (s.op op).operands idx ≡ some v))

-- The same, but for the operands of one operation below an index.
abbrev TracksFrom : (ℕ → Bool) → ℕ → ℕ → Ir → Type 0
TracksFrom there op k s =
    (v o idx : ℕ)
    → (has_use (use_at o idx) (s.value v).uses ≡ true) ↔ (
        ((there o && not ((o == op) && ltb idx k)) ≡ true)
        × (get_elem? (s.op o).operands idx ≡ some v))

-- Nothing but values differs.
abbrev pub SameLinks : Ir → Ir → Type 0
SameLinks s s' = (s'.op ≡ s.op) × (s'.block ≡ s.block) × (s'.region ≡ s.region)

abbrev removed : ℕ → ℕ → ℕ → Ir → Ir
removed op k v s = set_uses v (without (use_at op k) (s.value v).uses) s

remove_use-ok :
    (there : ℕ → Bool) (op k v : ℕ) (s : Ir)
    → TracksFrom there op k s
    → there op ≡ true
    → get_elem? (s.op op).operands k ≡ some v
    → remove_use v (use_at op k) s ≡ (ok tt, removed op k v s)
unfolding remove_use
remove_use-ok there op k v s t l e =
    let used = (t v op k).1 (ground (arith, l), e) in ground (arith, used)

removed-TracksFrom :
    (there : ℕ → Bool) (op k v : ℕ) (s : Ir)
    → TracksFrom there op k s
    → get_elem? (s.op op).operands k ≡ some v
    → TracksFrom there op (suc k) (removed op k v s)
removed-TracksFrom there op k v s t e w o i =
    let us = has_use-without (use_at o i) (use_at op k) (s.value v).uses in
    ground (arith, us, t w o i, e)

remove_uses-TracksFrom :
    (there : ℕ → Bool) (op k : ℕ) (vs : List ℕ) (s : Ir)
    → TracksFrom there op k s
    → there op ≡ true
    → ((i : ℕ) → get_elem? (s.op op).operands (k + i) ≡ get_elem? vs i)
    → (s' : Ir) × (remove_uses op k vs s ≡ (ok tt, s'))
      × TracksFrom there op (k + length vs) s'
      × SameLinks s s'
unfolding remove_uses
remove_uses-TracksFrom there op k [] s t l h =
    (s, refl, (let e : k + 0 ≡ k = omega arith in rw e t), (refl, refl, refl))
remove_uses-TracksFrom there op k (v ∷ vs) s t l h =
    let e0 : k + 0 ≡ k = omega arith in
    let e : get_elem? (s.op op).operands k ≡ some v = rw e0 at (h 0) in
    let (s', r, t', links) =
      remove_uses-TracksFrom there op (suc k) vs (removed op k v s)
        (removed-TracksFrom there op k v s t e) l
        (λ i. let e1 : k + suc i ≡ suc k + i = omega arith in rw e1 at (h (suc i))) in
    let e2 : k + suc (length vs) ≡ suc k + length vs = omega arith in
    (s', rw (remove_use-ok there op k v s t l e) r, rw e2 t', links)

-- Removing all uses of the operands of an operation that is there takes it away.
pub remove_uses-Tracks :
    (there : ℕ → Bool) (op : ℕ) (s : Ir)
    → Tracks there s
    → there op ≡ true
    → (s' : Ir) × (remove_uses op 0 (s.op op).operands s ≡ (ok tt, s'))
      × Tracks (update there op false) s'
      × SameLinks s s'
remove_uses-Tracks there op s t l =
    let (s', r, t', links) =
      remove_uses-TracksFrom there op 0 (s.op op).operands s (λ v o i. ground (arith, t v o i)) l
        (λ i. let z : 0 + i ≡ i = omega arith in rw z refl) in
    let now : (o i : ℕ) → get_elem? (s'.op o).operands i ≡ get_elem? (s.op o).operands i =
      λ o i. rw links.0 refl in
    (
      s',
      r,
      (λ v o i. elim (Option-cases (get_elem? (s.op o).operands i)) [
        | inl e ↦ ground (arith, t' v o i, now o i, e)
        | inr (w, e) ↦
            let lt : i < length (s.op o).operands = get_elem?-lt (s.op o).operands i e in
            let same : o ≡ op → length (s.op o).operands ≡ length (s.op op).operands =
              ap (λ x. length (s.op x).operands) in
            ground (arith, t' v o i, lt, now o i, same)
      ]),
      links,
    )
