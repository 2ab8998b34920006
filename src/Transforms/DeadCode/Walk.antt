-- ===== src/Transforms/DeadCode/Walk.antt =====
-- Dead code elimination of a block whose operations have no regions.
use xdsl.Prelude.{
  ℕ, zero, suc, ◌≡◌, ◌≤◌, ◌+◌, refl, sym, subst, ap, ◌∙◌, Bool, true, false, ◌||◌, List, [], ◌∷◌,
  ◌++◌, reverse, length, Option, none, some, ◌==◌, append_assoc, append-nil, length-append,
  Bool-cases, inl, inr, arith,
}
use mathlib.Core.List.{reverse-cons, reverse-reverse}
use xdsl.Result.{Result, ok}
use xdsl.Ir.Store.{Ir, M, update}
use xdsl.Ir.Block.Linked.{has, has-append, last_or, last_or-append, Linked-split}
use xdsl.Ir.Block.Holds.{IsValid, IsValid-cong, update_self, update-update, update_at}
use xdsl.Ir.Block.Insert.{at-prev}
use xdsl.Ir.Erase.References.{Tracks}
use xdsl.Ir.Erase.Unused.{SameOperands}
use xdsl.PatternRewriter.{PatternRewriter, pattern_rewriter}
use xdsl.PatternRewriter.Walker.{walk_from, rewrite_block}
use xdsl.Transforms.DeadCode.{is_dead, walker, HasMatched, match_and_rewrite-HasMatched}
use xdsl.Transforms.DeadCode.Step.{NotOperands, all_unused-Tracks, step, step-kept, step-erased}

-- A turn of the loop, before the others.
walk_from-cons :
    (n x : ℕ) (next : ℕ → M (Option ℕ)) (prev prev' : Option ℕ) (s s' : Ir)
    → next x s ≡ (ok prev, s')
    → prev ≡ prev'
    → walk_from (suc n) next (some x) s ≡ walk_from n next prev' s'
unfolding walk_from
walk_from-cons n x next prev prev' s s' e e' = rw (e, e') refl

snoc_split :
    (x : ℕ) (rs xs post : List ℕ) → xs ≡ reverse (x ∷ rs) ++ post → xs ≡ reverse rs ++ x ∷ post
snoc_split x rs xs post e =
    e ∙ ap (λ l. l ++ post) (reverse-cons x rs) ∙ append_assoc (reverse rs) (x ∷ []) post

has-snoc :
    (o x : ℕ) (rs : List ℕ) → has o (reverse (x ∷ rs)) ≡ (has o (reverse rs) || has o (x ∷ []))
has-snoc o x rs = ap (has o) (reverse-cons x rs) ∙ has-append o (reverse rs) (x ∷ [])

length-reverse : (xs : List ℕ) → length (reverse xs) ≡ length xs
length-reverse [] = refl
length-reverse (x ∷ xs) =
    let e : length (reverse (x ∷ xs)) ≡ length (reverse xs ++ x ∷ []) =
      ap (λ (ys : List ℕ). length ys) (reverse-cons x xs) in
    let c : length (reverse xs ++ x ∷ []) ≡ length (reverse xs) + 1 =
      length-append (reverse xs) (x ∷ []) in
    omega (arith, e, c, length-reverse xs)

rewrite_block-last :
    (n depth fuel : ℕ) (erased : ℕ → ℕ) (is_pure : ℕ → Bool) (next : ℕ → M (Option ℕ)) (b : ℕ)
    (s : Ir)
    → rewrite_block n (walker depth fuel erased is_pure) next b s
      ≡ walk_from n next (s.block b).last_op s
unfolding rewrite_block
rewrite_block-last n depth fuel erased is_pure next b s = refl

-- No operation of a list has an operand that is a result of a later one, as in SSA form.
abbrev pub DefinedBefore : Ir → List ℕ → Type 0
DefinedBefore s [] = Unit
DefinedBefore s (x ∷ xs) =
    ((y : ℕ) → has y xs ≡ true → NotOperands (s.op y).results (s.op x).operands)
    × DefinedBefore s xs

DefinedBefore-append :
    (s : Ir) (pre : List ℕ) (x : ℕ) (post : List ℕ)
    → DefinedBefore s (pre ++ x ∷ post)
    → (y : ℕ) → has y post ≡ true
    → NotOperands (s.op y).results (s.op x).operands
DefinedBefore-append s [] x post h y m = h.0 y m
DefinedBefore-append s (z ∷ pre) x post h y m = DefinedBefore-append s pre x post h.1 y m

-- The block has been swept: the walk returns, the IR is valid, and the operations that are left in
-- the list of the block are not dead.
abbrev pub IsSwept : (ℕ → Bool) → List ℕ → (ℕ → List ℕ) → ℕ → Result (Unit {0}) × Ir → Type 0
IsSwept is_pure xs ops_of b (r, s') =
    (r ≡ ok tt)
    × ((ys : List ℕ) × (there : ℕ → Bool) × IsValid s' (update ops_of b ys)
        × Tracks there s'
        × ((y : ℕ) → has y ys ≡ true → is_dead is_pure s' y ≡ false)
        × ((y : ℕ) → has y xs ≡ true → is_pure y ≡ false → has y ys ≡ true))

IsSwept-update :
    (is_pure : ℕ → Bool) (xs0 : List ℕ) (ops_of : ℕ → List ℕ) (b : ℕ) (xs : List ℕ)
    (out : Result (Unit {0}) × Ir)
    → IsSwept is_pure xs0 (update ops_of b xs) b out
    → IsSwept is_pure xs0 ops_of b out
IsSwept-update is_pure xs0 ops_of b xs (r, s') (e, (ys, there, v, t, alive, kept)) =
    (e, (ys, there, IsValid-cong s' _ _ (λ c. update-update ops_of b c xs ys) v, t, alive, kept))

module _ (depth d fuel : ℕ) (erased : ℕ → ℕ) (is_pure : ℕ → Bool) (b : ℕ) (s0 : Ir) (xs : List ℕ)
    (flat : (o : ℕ) → has o xs ≡ true → (s0.op o).regions ≡ [])
    (defined : DefinedBefore s0 xs) where
  -- What matching a dead operation does.
  erased_of :
      (ops_of : ℕ → List ℕ) (there : ℕ → Bool) (pre post : List ℕ) (s : Ir) (x : ℕ)
      (after : PatternRewriter × Ir)
      → is_dead is_pure s x ≡ true
      → HasMatched ops_of there b pre post (pattern_rewriter x) s after (is_dead is_pure s x)
      → HasMatched ops_of there b pre post (pattern_rewriter x) s after true
  erased_of ops_of there pre post s x after e =
      subst (HasMatched ops_of there b pre post (pattern_rewriter x) s after) e

  -- What stays not dead when an operation before it is erased.
  is_dead-Tracks :
      (there : ℕ → Bool) (x y : ℕ) (s s' : Ir)
      → Tracks there s
      → Tracks (update there x false) s'
      → SameOperands s0 s
      → SameOperands s s'
      → NotOperands (s0.op y).results (s0.op x).operands
      → is_dead is_pure s y ≡ false
      → is_dead is_pure s' y ≡ false
  is_dead-Tracks there x y s s' t t' same0 same n e =
      let n' : NotOperands (s.op y).results (s.op x).operands = rw ((same0 y).1, (same0 x).0) n in
      rw (same y).1
        (ground (arith, e, all_unused-Tracks there x (s.op y).results s s' t t' same n'))

  walk_from-IsSwept :
      (rs post0 post : List ℕ) (s : Ir) (there : ℕ → Bool) (ops_of : ℕ → List ℕ) (n : ℕ)
      → length rs ≤ n
      → IsValid s ops_of
      → ops_of b ≡ reverse rs ++ post
      → Tracks there s
      → SameOperands s0 s
      → xs ≡ reverse rs ++ post0
      → ((o : ℕ) → has o (reverse rs) ≡ true → there o ≡ true)
      → ((y : ℕ) → has y post ≡ true → has y post0 ≡ true)
      → ((y : ℕ) → has y post ≡ true → is_dead is_pure s y ≡ false)
      → ((y : ℕ) → has y post0 ≡ true → is_pure y ≡ false → has y post ≡ true)
      → IsSwept is_pure xs ops_of b
          (walk_from n (step depth d fuel erased is_pure) (last_or none (reverse rs)) s)
  unfolding walk_from
  walk_from-IsSwept [] post0 post s there ops_of zero l v split t same whole here sub alive kept = (
    refl,
    (
      post,
      there,
      IsValid-cong s _ _ (λ c. update_self ops_of b c split) v,
      t,
      alive,
      λ y m. kept y (ap (has y) (sym whole) ∙ m),
    ),
  )
  walk_from-IsSwept [] post0 post s there ops_of (suc n) l v split t same whole here sub alive
        kept =
      (
        refl,
        (
          post,
          there,
          IsValid-cong s _ _ (λ c. update_self ops_of b c split) v,
          t,
          alive,
          λ y m. kept y (ap (has y) (sym whole) ∙ m),
        ),
      )
  walk_from-IsSwept (x ∷ rs) post0 post s there ops_of zero l v split t same whole here sub alive
        kept =
      absurd (omega arith)
  walk_from-IsSwept (x ∷ rs) post0 post s there ops_of (suc n) l v split t same whole here sub alive
        kept =
      let split' = snoc_split x rs (ops_of b) post split in
      let whole' = snoc_split x rs xs post0 whole in
      let front : last_or none (reverse (x ∷ rs)) ≡ some x =
        ap (last_or none) (reverse-cons x rs) ∙ last_or-append none (reverse rs) (x ∷ []) in
      let inside : has x xs ≡ true =
        rw whole' (ground (arith, has-append x (reverse rs) (x ∷ post0))) in
      let g : (s.op x).regions ≡ [] = (same x).2 ∙ flat x inside in
      let back = at-prev s ops_of b x (reverse rs) post v split' in
      let here_x : there x ≡ true = here x (ground (arith, has-snoc x x rs)) in
      let here' : (o : ℕ) → has o (reverse rs) ≡ true → there o ≡ true =
        λ o m. here o (ground (arith, has-snoc o x rs, m)) in
      let run = step depth d fuel erased is_pure in
      rw front (elim (Bool-cases (is_dead is_pure s x)) [
        | inl e ↦
            let ((r', s1), me, hm) =
              match_and_rewrite-HasMatched s (pattern_rewriter x) ops_of there d fuel erased is_pure
                b (reverse rs) post v t split' here_x g in
            let (er, v1, t1, same1) = erased_of ops_of there (reverse rs) post s x (r', s1) e hm in
            let turn =
              walk_from-cons n x run _ _ s s1
                (step-erased depth d fuel erased is_pure x s s1 r' me er) back in
            let apart =
              (Linked-split s.op b none none (reverse rs) (x ∷ post)
                (rw split' at (v.holds b).linked)).2 in
            let out : has x (reverse rs) ≡ false = ground (arith, apart x) in
            let same' : SameOperands s0 s1 =
              λ o. ((same1 o).0 ∙ (same o).0, (same1 o).1 ∙ (same o).1, (same1 o).2 ∙ (same o).2) in
            subst (IsSwept is_pure xs ops_of b) (sym turn) (
              IsSwept-update is_pure xs ops_of b (reverse rs ++ post) _ (
                walk_from-IsSwept rs (x ∷ post0) post s1 (update there x false)
                  (update ops_of b (reverse rs ++ post)) n (omega arith) v1 (update_at ops_of b _)
                  t1 same' whole'
                  (λ o m.
                    let moved : o ≡ x → has o (reverse rs) ≡ has x (reverse rs) =
                      ap (λ z. has z (reverse rs)) in
                    ground (arith, m, out, here' o m, moved))
                  (λ y m. ground (arith, m, sub y))
                  (λ y m.
                    is_dead-Tracks there x y s s1 t t1 same same1
                      (DefinedBefore-append s0 (reverse rs) x post0 (rw whole' at defined) y
                        (sub y m))
                      (alive y m))
                  (λ y m i. elim (Bool-cases (x == y)) [
                    | inl q ↦
                        let same_pure : is_pure x ≡ is_pure y = ap is_pure (ground (arith, q)) in
                        ground (arith, e, i, same_pure)
                    | inr q ↦ kept y (ground (arith, m, q)) i
                  ])))
        | inr e ↦
            let turn =
              walk_from-cons n x run _ _ s s (step-kept depth d fuel erased is_pure x s e g) back in
            subst (IsSwept is_pure xs ops_of b) (sym turn) (
              walk_from-IsSwept rs (x ∷ post0) (x ∷ post) s there ops_of n (omega arith) v split' t
                same whole' here' (λ y m. ground (arith, m, sub y))
                (λ y m. elim (Bool-cases (x == y)) [
                  | inl q ↦ subst (λ z. is_dead is_pure s z ≡ false) (ground (arith, q)) e
                  | inr q ↦ alive y (ground (arith, m, q))
                ])
                (λ y m i. ground (arith, m, kept y, i)))
      ])

  -- In a valid IR where the values have the uses that are the operands of the operations that are
  -- there: walking a block in reverse with the pattern of dead code elimination, where the
  -- operations are there, have no regions and have no result of a later one as an operand, returns
  -- with fuel for the list of the block, and leaves the IR valid, the uses those of some of the
  -- operations, and no dead operation in the block, which keeps all operations that are not pure:
  -- one walk is enough.
  pub rewrite_block-IsSwept :
      (there : ℕ → Bool) (ops_of : ℕ → List ℕ) (n : ℕ)
      → length (ops_of b) ≤ n
      → IsValid s0 ops_of
      → Tracks there s0
      → ops_of b ≡ xs
      → ((o : ℕ) → has o xs ≡ true → there o ≡ true)
      → IsSwept is_pure xs ops_of b (
          rewrite_block n
            (walker (suc d) fuel erased is_pure)
            (step depth d fuel erased is_pure)
            b
            s0)
  rewrite_block-IsSwept there ops_of n l v t e here =
      let back : reverse (reverse xs) ≡ xs = reverse-reverse xs in
      let whole : xs ≡ reverse (reverse xs) ++ [] =
        sym (append-nil (reverse (reverse xs)) ∙ back) in
      let len : length (reverse xs) ≤ n =
        omega (arith, length-reverse xs, ap (λ (ys : List ℕ). length ys) e) in
      let start : (s0.block b).last_op ≡ last_or none (reverse (reverse xs)) =
        (v.holds b).last ∙ ap (last_or none) (e ∙ sym back) in
      let run = step depth d fuel erased is_pure in
      let out =
        rewrite_block-last n (suc d) fuel erased is_pure run b s0
        ∙ ap (λ o. walk_from n run o s0) start in
      subst (IsSwept is_pure xs ops_of b) (sym out) (
        walk_from-IsSwept (reverse xs) [] [] s0 there ops_of n len v (e ∙ whole) t
          (λ o. (refl, refl, refl)) whole (λ o m. here o (ap (has o) (sym back) ∙ m)) (λ y m. cc)
          (λ y m. cc) (λ y m. cc))
