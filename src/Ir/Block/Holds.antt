-- ===== src/Ir/Block/Holds.antt =====
-- The invariant of blocks and their operations, and what splicing an operation in keeps of it.
use xdsl.Prelude.{
  ℕ, ◌≡◌, ◌≢◌, refl, sym, ap, ◌∙◌, true, false, Option, none, some, List, [], ◌∷◌, ◌++◌, ◌==◌,
  arith, if◌then◌else◌, inl, inr, Bool-cases,
}
use mathlib.Core.Path.{fun_ext}
use xdsl.Ir.Store.{Ir, Operation, Block, update, is_none, is_ref}
use xdsl.Ir.Block.Linked.{
  has, has-append, first_or, last_or, first_or-append, last_or-append, Linked, Linked-append,
  Linked-split, Linked-frame, Linked-set_next, Linked-set_prev, Linked-parent, has-first_or,
  has_last,
}

-- Block `b` holds the operations `xs`, in this order.
pub record Holds (s : Ir) (b : ℕ) (xs : List ℕ) : Type 0 where
  pub first : (s.block b).first_op ≡ first_or xs none
  pub last : (s.block b).last_op ≡ last_or none xs
  pub linked : Linked s.op b none xs none

-- Every block holds its list, which has all operations whose parent it is, and an operation with no
-- parent is linked to nothing.
pub record IsValid (s : Ir) (ops_of : ℕ → List ℕ) : Type 0 where
  pub holds : (b : ℕ) → Holds s b (ops_of b)
  pub member : (b o : ℕ) → (s.op o).parent ≡ some b → has o (ops_of b) ≡ true
  pub free :
      (o : ℕ) → (s.op o).parent ≡ none → ((s.op o).next_op ≡ none) × ((s.op o).prev_op ≡ none)

-- `s'` is `s` with `new` put between `prev` and `next` in block `b`.
pub record Spliced (s s' : Ir) (b new : ℕ) (prev next : Option ℕ) : Type 0 where
  pub at_new : s'.op new ≡ record (s.op new) { parent = some b; prev_op = prev; next_op = next }
  pub at_prev : (o : ℕ) → prev ≡ some o → s'.op o ≡ record (s.op o) { next_op = some new }
  pub at_next : (o : ℕ) → next ≡ some o → s'.op o ≡ record (s.op o) { prev_op = some new }
  pub elsewhere : (o : ℕ) → o ≢ new → prev ≢ some o → next ≢ some o → s'.op o ≡ s.op o
  pub first : (s'.block b).first_op ≡ (if is_none prev then some new else (s.block b).first_op)
  pub last : (s'.block b).last_op ≡ (if is_none next then some new else (s.block b).last_op)
  pub blocks : (c : ℕ) → c ≢ b → s'.block c ≡ s.block c
  pub block_parent : (c : ℕ) → (s'.block c).parent ≡ (s.block c).parent
  pub region : (r : ℕ) → s'.region r ≡ s.region r

pub is_none-last_or : (x : ℕ) (xs : List ℕ) → is_none (last_or (some x) xs) ≡ false
is_none-last_or x [] = refl
is_none-last_or x (y ∷ xs) = is_none-last_or y xs

-- A detached operation is in no list.
pub not_held :
    (s : Ir) (ops_of : ℕ → List ℕ) (b o : ℕ)
    → IsValid s ops_of
    → (s.op o).parent ≢ some b
    → has o (ops_of b) ≡ false
not_held s ops_of b o v h = elim (Bool-cases (has o (ops_of b))) [
  | inl m ↦ absurd (h (Linked-parent s.op b none none (ops_of b) o (v.holds b).linked m))
  | inr n ↦ n
]

module _ (s s' : Ir) (b new : ℕ) (pre post : List ℕ) (free_pre : has new pre ≡ false)
    (free_post : has new post ≡ false)
    (sp : Spliced s s' b new (last_or none pre) (first_or post none)) where
  Linked-splice :
      Linked s.op b none (pre ++ post) none → Linked s'.op b none (pre ++ new ∷ post) none
  Linked-splice h =
      let (front, back, d) = Linked-split s.op b none none pre post h in
      Linked-append s'.op b none none pre (new ∷ post)
        (Linked-set_next s.op s'.op b none (first_or post none) (some new) pre
          (λ o m n.
            sp.elsewhere o (λ e. cc (e, m, free_pre)) n (λ e. cc (d o m, has-first_or post o e)))
          sp.at_prev front)
        (
          ap (λ (c : Operation). c.parent) sp.at_new,
          ap (λ (c : Operation). c.prev_op) sp.at_new,
          ap (λ (c : Operation). c.next_op) sp.at_new,
          free_post,
          Linked-set_prev s.op s'.op b (last_or none pre) (some new) none post
              (λ o m n.
                sp.elsewhere o (λ e. cc (e, m, free_post)) (λ e. cc (m, d o (has_last pre o e))) n)
              sp.at_next back,
        )
        (λ o m. ground (arith, d o, m, free_pre))

  Holds-splice : Holds s b (pre ++ post) → Holds s' b (pre ++ new ∷ post)
  Holds-splice h = record {
    first = sp.first ∙ first_after pre (h.first ∙ first_or-append pre post none);
    last = sp.last ∙ last_after post (h.last ∙ last_or-append none pre post);
    linked = Linked-splice h.linked;
  }
    where
      first_after :
          (xs : List ℕ)
          → (s.block b).first_op ≡ first_or xs (first_or post none)
          → (if is_none (last_or none xs) then some new else (s.block b).first_op)
            ≡ first_or (xs ++ new ∷ post) none
      first_after [] e = refl
      first_after (x ∷ xs) e = rw (is_none-last_or x xs) e

      last_after :
          (ys : List ℕ)
          → (s.block b).last_op ≡ last_or (last_or none pre) ys
          → (if is_none (first_or ys none) then some new else (s.block b).last_op)
            ≡ last_or none (pre ++ new ∷ ys)
      last_after [] e = sym (last_or-append none pre (new ∷ []))
      last_after (y ∷ ys) e = e ∙ sym (last_or-append none pre (new ∷ y ∷ ys))

module _ (s s' : Ir) (b new : ℕ) (prev next : Option ℕ) (sp : Spliced s s' b new prev next) where
  pub Spliced-parent : (o : ℕ) → o ≢ new → (s'.op o).parent ≡ (s.op o).parent
  Spliced-parent o n = elim (Bool-cases (is_ref prev o)) [
    | inl p ↦ ap (λ (c : Operation). c.parent) (sp.at_prev o (ground (arith, p)))
    | inr p ↦ elim (Bool-cases (is_ref next o)) [
      | inl q ↦ ap (λ (c : Operation). c.parent) (sp.at_next o (ground (arith, q)))
      | inr q ↦
          ap (λ (c : Operation). c.parent)
            (sp.elsewhere o n (λ e. ground (arith, p, e)) (λ e. ground (arith, q, e)))
    ]
  ]

module _ (s s' : Ir) (ops_of : ℕ → List ℕ) (b new : ℕ) (pre post : List ℕ) (v : IsValid s ops_of)
    (split : ops_of b ≡ pre ++ post) (detached : (s.op new).parent ≡ none)
    (sp : Spliced s s' b new (last_or none pre) (first_or post none)) where
  neighbour_parent : (o : ℕ) → has o (pre ++ post) ≡ true → (s.op o).parent ≡ some b
  neighbour_parent o m = Linked-parent s.op b none none (ops_of b) o (v.holds b).linked (rw split m)

  -- An operation of another block, or of none, is not touched.
  untouched : (o : ℕ) → o ≢ new → (s.op o).parent ≢ some b → s'.op o ≡ s.op o
  untouched o n p =
      sp.elsewhere o n
        (λ e. p (neighbour_parent o (ground (arith, has-append o pre post, has_last pre o e))))
        (λ e. p (neighbour_parent o (ground (arith, has-append o pre post, has-first_or post o e))))

  Holds-other : (c : ℕ) → c ≢ b → Holds s' c (ops_of c)
  Holds-other c n =
      let h = v.holds c in
      let same = sp.blocks c n in
      record {
        first = ap (λ (k : Block). k.first_op) same ∙ h.first;
        last = ap (λ (k : Block). k.last_op) same ∙ h.last;
        linked =
            Linked-frame s.op s'.op c none none (ops_of c)
              (λ o m.
                let p = Linked-parent s.op c none none (ops_of c) o h.linked m in
                untouched o (λ e. cc (p, e, detached)) (λ q. n (cc (p, q))))
              h.linked;
      }

  member-splice :
      (c o : ℕ) → (s'.op o).parent ≡ some c → has o (update ops_of b (pre ++ new ∷ post) c) ≡ true
  member-splice c o p = elim (Bool-cases (o == new)) [
    | inl e ↦
        let e' : o ≡ new = ground (arith, e) in
        let q : some b ≡ some c = sym (ap (λ (k : Operation). k.parent) sp.at_new) ∙ rw e' at p in
        ground (arith, q, e', has-append new pre (new ∷ post))
    | inr n ↦
        let q = sym (Spliced-parent s s' b new _ _ sp o (ground (arith, n))) ∙ p in
        let m = v.member c o q in
        elim (Bool-cases (c == b)) [
          | inl e ↦
              let e' : c ≡ b = ground (arith, e) in
              let m' : has o (pre ++ post) ≡ true = rw (e', split) at m in
              rw e (ground (arith, m', has-append o pre post, has-append o pre (new ∷ post)))
          | inr other ↦ rw other m
        ]
  ]

  free-splice :
      (o : ℕ) → (s'.op o).parent ≡ none → ((s'.op o).next_op ≡ none) × ((s'.op o).prev_op ≡ none)
  free-splice o p =
      let n : o ≢ new = λ e. cc (ap (λ (k : Operation). k.parent) sp.at_new, rw e at p) in
      let q = sym (Spliced-parent s s' b new _ _ sp o n) ∙ p in
      rw (untouched o n (λ e. cc (e, q))) (v.free o q)

  -- Splicing a detached operation into the list of a block keeps the invariant.
  pub IsValid-splice : IsValid s' (update ops_of b (pre ++ new ∷ post))
  IsValid-splice =
      let out = not_held s ops_of b new v (λ e. cc (e, detached)) in
      let parts = has-append new pre post in
      record {
        holds = λ c. elim (Bool-cases (c == b)) [
          | inl e ↦
              let e' : c ≡ b = ground (arith, e) in
              rw (e, e')
                (Holds-splice s s' b new pre post (ground (arith, rw split at out, parts))
                  (ground (arith, rw split at out, parts)) sp (rw split at (v.holds b)))
          | inr n ↦ rw n (Holds-other c (ground (arith, n)))
        ];
        member = member-splice;
        free = free-splice;
      }

-- The invariant reads the lists one by one.
pub IsValid-cong :
    (s : Ir) (ops_of ops_of' : ℕ → List ℕ)
    → ((c : ℕ) → ops_of c ≡ ops_of' c)
    → IsValid s ops_of
    → IsValid s ops_of'
IsValid-cong s ops_of ops_of' e v = rw (← fun_ext e) v

pub update_self {ℓ} : {A : Type ℓ} (f : ℕ → A) (b c : ℕ) {v : A} → f b ≡ v → f c ≡ update f b v c
update_self f b c e = elim (Bool-cases (c == b)) [
  | inl h ↦ let h' : c ≡ b = ground (arith, h) in rw (h, h') e
  | inr h ↦ rw h
]

pub update-update {ℓ} :
    {A : Type ℓ} (f : ℕ → A) (b c : ℕ) (u v : A) → update (update f b u) b v c ≡ update f b v c
update-update f b c u v = ground arith

pub update_at {ℓ} : {A : Type ℓ} (f : ℕ → A) (b : ℕ) (v : A) → update f b v b ≡ v
update_at f b v = ground arith
