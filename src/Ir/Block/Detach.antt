-- ===== src/Ir/Block/Detach.antt =====
-- `Block.detach_op` (xdsl/ir/core.py) takes an operation out of the list of its block.
use xdsl.Prelude.{
  ℕ, ◌≡◌, ◌≢◌, refl, sym, ap, ◌∙◌, true, false, Option, none, some, List, [], ◌∷◌, ◌++◌, ◌==◌,
  arith, if◌then◌else◌, inl, inr, Bool-cases,
}
use xdsl.Result.{ok}
use xdsl.Ir.Store.{Ir, Operation, Block, update, is_none, is_ref}
use xdsl.Ir.Block.Linked.{
  has, has-append, first_or, last_or, first_or-append, last_or-append, Linked, Linked-split,
  Linked-parent, has-first_or, has_last,
}
use xdsl.Ir.Block.Holds.{Holds, IsValid}
use xdsl.Ir.Block.Holds.{is_none-last_or}
use xdsl.Ir.Block.Insert.{
  at-parent, at-prev, at-next, next-ne_self, prev-ne_self, prev_parent, next_parent,
}
use xdsl.Ir.Block.{detach_op}
use xdsl.Ir.Block.Linked.{Linked-append, Linked-set_next, Linked-set_prev, Linked-frame}

-- `s'` is `s` with `o` taken out from between `prev` and `next` in block `b`.
pub record Unspliced (s s' : Ir) (b o : ℕ) (prev next : Option ℕ) : Type 0 where
  pub at_old : s'.op o ≡ record (s.op o) { parent = none; prev_op = none; next_op = none }
  pub at_prev : (p : ℕ) → prev ≡ some p → s'.op p ≡ record (s.op p) { next_op = next }
  pub at_next : (p : ℕ) → next ≡ some p → s'.op p ≡ record (s.op p) { prev_op = prev }
  pub elsewhere : (p : ℕ) → p ≢ o → prev ≢ some p → next ≢ some p → s'.op p ≡ s.op p
  pub first : (s'.block b).first_op ≡ (if is_none prev then next else (s.block b).first_op)
  pub last : (s'.block b).last_op ≡ (if is_none next then prev else (s.block b).last_op)
  pub blocks : (c : ℕ) → c ≢ b → s'.block c ≡ s.block c
  pub block_parent : (c : ℕ) → (s'.block c).parent ≡ (s.block c).parent
  pub region : (r : ℕ) → s'.region r ≡ s.region r

module _ (b x : ℕ) (s : Ir) (prev next : Option ℕ) (inside : (s.op x).parent ≡ some b)
    (e : (s.op x).prev_op ≡ prev) (e' : (s.op x).next_op ≡ next) (p : prev ≢ some x)
    (n : next ≢ some x) (apart : (o : ℕ) → prev ≡ some o → next ≢ some o)
    (f : prev ≡ none → (s.block b).first_op ≡ some x)
    (l : next ≡ none → (s.block b).last_op ≡ some x) where
  detached : Ir
  detached = (detach_op b x s).1

  detached-ok : (detach_op b x s).0 ≡ ok tt
  unfolding detach_op
  detached-ok = ground arith

  detached-Unspliced : Unspliced s detached b x prev next
  unfolding detached detach_op
  detached-Unspliced = record {
    at_old = ground arith;
    at_prev = λ o q. ground (arith, apart o q);
    at_next = λ o q. ground (arith, apart o);
    elsewhere = λ o q r t. ground arith;
    first = ground arith;
    last = ground arith;
    blocks = λ c q. ground arith;
    block_parent = λ c. ground arith;
    region = λ c. ground arith;
  }

module _ (s s' : Ir) (b x : ℕ) (pre post : List ℕ)
    (un : Unspliced s s' b x (last_or none pre) (first_or post none))
    (h : Holds s b (pre ++ x ∷ post)) where
  Linked-unsplice : Linked s'.op b none (pre ++ post) none
  Linked-unsplice =
      let (front, back, d) = Linked-split s.op b none none pre (x ∷ post) h.linked in
      let ne_pre : (o : ℕ) → has o pre ≡ true → o ≢ x = λ o m e. ground (arith, d o m, e) in
      let ne_post : (o : ℕ) → has o post ≡ true → o ≢ x = λ o m e. cc (e, m, back.3) in
      let apart : (o : ℕ) → has o pre ≡ true → has o post ≡ false = λ o m. ground (arith, d o m) in
      Linked-append s'.op b none none pre post
        (Linked-set_next s.op s'.op b none (some x) (first_or post none) pre
          (λ o m n. un.elsewhere o (ne_pre o m) n (λ e. cc (apart o m, has-first_or post o e)))
          un.at_prev front)
        (Linked-set_prev s.op s'.op b (some x) (last_or none pre) none post
          (λ o m n. un.elsewhere o (ne_post o m) (λ e. cc (m, apart o (has_last pre o e))) n)
          un.at_next back.4)
        apart

  Holds-unsplice : Holds s' b (pre ++ post)
  Holds-unsplice = record {
    first = un.first ∙ first_after pre (h.first ∙ first_or-append pre (x ∷ post) none);
    last = un.last ∙ last_after post (h.last ∙ last_or-append none pre (x ∷ post));
    linked = Linked-unsplice;
  }
    where
      first_after :
          (xs : List ℕ)
          → (s.block b).first_op ≡ first_or xs (some x)
          → (if is_none (last_or none xs) then first_or post none else (s.block b).first_op)
            ≡ first_or (xs ++ post) none
      first_after [] e = refl
      first_after (y ∷ xs) e = rw (is_none-last_or y xs) e

      last_after :
          (ys : List ℕ)
          → (s.block b).last_op ≡ last_or (some x) ys
          → (if is_none (first_or ys none) then last_or none pre else (s.block b).last_op)
            ≡ last_or none (pre ++ ys)
      last_after [] e = sym (last_or-append none pre [])
      last_after (y ∷ ys) e = e ∙ sym (last_or-append none pre (y ∷ ys))

module _ (s s' : Ir) (b x : ℕ) (prev next : Option ℕ) (un : Unspliced s s' b x prev next) where
  pub Unspliced-parent : (o : ℕ) → o ≢ x → (s'.op o).parent ≡ (s.op o).parent
  Unspliced-parent o n = elim (Bool-cases (is_ref prev o)) [
    | inl p ↦ ap (λ (c : Operation). c.parent) (un.at_prev o (ground (arith, p)))
    | inr p ↦ elim (Bool-cases (is_ref next o)) [
      | inl q ↦ ap (λ (c : Operation). c.parent) (un.at_next o (ground (arith, q)))
      | inr q ↦
          ap (λ (c : Operation). c.parent)
            (un.elsewhere o n (λ e. ground (arith, p, e)) (λ e. ground (arith, q, e)))
    ]
  ]

module _ (s s' : Ir) (ops_of : ℕ → List ℕ) (b x : ℕ) (pre post : List ℕ) (v : IsValid s ops_of)
    (split : ops_of b ≡ pre ++ x ∷ post)
    (un : Unspliced s s' b x (last_or none pre) (first_or post none)) where
  untouched : (o : ℕ) → (s.op o).parent ≢ some b → s'.op o ≡ s.op o
  untouched o p =
      un.elsewhere o (λ e. p (rw e (at-parent s ops_of b x pre post v split)))
        (λ e. p (prev_parent s ops_of b x pre post v split o e))
        (λ e. p (next_parent s ops_of b x pre post v split o e))

  Holds-other : (c : ℕ) → c ≢ b → Holds s' c (ops_of c)
  Holds-other c n =
      let h = v.holds c in
      let same = un.blocks c n in
      record {
        first = ap (λ (k : Block). k.first_op) same ∙ h.first;
        last = ap (λ (k : Block). k.last_op) same ∙ h.last;
        linked =
            Linked-frame s.op s'.op c none none (ops_of c)
              (λ o m.
                let p = Linked-parent s.op c none none (ops_of c) o h.linked m in
                untouched o (λ e. n (cc (p, e))))
              h.linked;
      }

  member-unsplice :
      (c o : ℕ) → (s'.op o).parent ≡ some c → has o (update ops_of b (pre ++ post) c) ≡ true
  member-unsplice c o p =
      let n : o ≢ x = λ e. cc (ap (λ (k : Operation). k.parent) un.at_old, rw e at p) in
      let q = sym (Unspliced-parent s s' b x _ _ un o n) ∙ p in
      let m = v.member c o q in
      elim (Bool-cases (c == b)) [
        | inl e ↦
            let e' : c ≡ b = ground (arith, e) in
            let m' : has o (pre ++ x ∷ post) ≡ true = rw (e', split) at m in
            rw e (ground (arith, m', n, has-append o pre post, has-append o pre (x ∷ post)))
        | inr other ↦ rw other m
      ]

  free-unsplice :
      (o : ℕ) → (s'.op o).parent ≡ none → ((s'.op o).next_op ≡ none) × ((s'.op o).prev_op ≡ none)
  free-unsplice o p = elim (Bool-cases (o == x)) [
    | inl e ↦ let e' : o ≡ x = ground (arith, e) in rw (e', un.at_old) (refl, refl)
    | inr n ↦
        let q = sym (Unspliced-parent s s' b x _ _ un o (ground (arith, n))) ∙ p in
        rw (untouched o (λ e. cc (e, q))) (v.free o q)
  ]

  IsValid-unsplice : IsValid s' (update ops_of b (pre ++ post))
  IsValid-unsplice = record {
    holds = λ c. elim (Bool-cases (c == b)) [
      | inl e ↦
          let e' : c ≡ b = ground (arith, e) in
          rw (e, e') (Holds-unsplice s s' b x pre post un (rw split at (v.holds b)))
      | inr n ↦ rw n (Holds-other c (ground (arith, n)))
    ];
    member = member-unsplice;
    free = free-unsplice;
  }

module _ (s : Ir) (ops_of : ℕ → List ℕ) (b x : ℕ) (pre post : List ℕ) (v : IsValid s ops_of)
    (split : ops_of b ≡ pre ++ x ∷ post) where
  apart : (o : ℕ) → last_or none pre ≡ some o → first_or post none ≢ some o
  apart o e e' =
      let d = (Linked-split s.op b none none pre (x ∷ post) (rw split at (v.holds b).linked)).2 in
      ground (arith, d o (has_last pre o e), has-first_or post o e')

  only_first : last_or none pre ≡ none → (s.block b).first_op ≡ some x
  only_first = go pre ((v.holds b).first ∙ ap (λ xs. first_or xs none) split)
    where
      go :
          (xs : List ℕ)
          → (s.block b).first_op ≡ first_or (xs ++ x ∷ post) none
          → last_or none xs ≡ none
          → (s.block b).first_op ≡ some x
      go [] f e = f
      go (y ∷ xs) f e = cc (is_none-last_or y xs, e)

  only_last : first_or post none ≡ none → (s.block b).last_op ≡ some x
  only_last =
      go post ((v.holds b).last ∙ ap (last_or none) split ∙ last_or-append none pre (x ∷ post))
    where
      go :
          (ys : List ℕ)
          → (s.block b).last_op ≡ last_or (some x) ys
          → first_or ys none ≡ none
          → (s.block b).last_op ≡ some x
      go [] f e = f
      go (y ∷ ys) f e = cc

  pub detach_op-Unspliced :
      Unspliced s (detach_op b x s).1 b x (last_or none pre) (first_or post none)
  unfolding detached
  detach_op-Unspliced =
      let inside = at-parent s ops_of b x pre post v split in
      let e = at-prev s ops_of b x pre post v split in
      let e' = at-next s ops_of b x pre post v split in
      let p = prev-ne_self s ops_of b x pre post v split in
      let n = next-ne_self s ops_of b x pre post v split in
      detached-Unspliced b x s _ _ inside e e' p n apart only_first only_last

  -- In a valid IR, `detach_op` of an operation of the block returns, and takes exactly that operation
  -- out of the list of the block; no other list changes.
  pub detach_op-IsValid :
      ((detach_op b x s).0 ≡ ok tt) × IsValid (detach_op b x s).1 (update ops_of b (pre ++ post))
  unfolding detached
  detach_op-IsValid =
      let inside = at-parent s ops_of b x pre post v split in
      let e = at-prev s ops_of b x pre post v split in
      let e' = at-next s ops_of b x pre post v split in
      let p = prev-ne_self s ops_of b x pre post v split in
      let n = next-ne_self s ops_of b x pre post v split in
      (
        detached-ok b x s _ _ inside e e' p n apart only_first only_last,
        IsValid-unsplice s (detach_op b x s).1 ops_of b x pre post v split detach_op-Unspliced,
      )
