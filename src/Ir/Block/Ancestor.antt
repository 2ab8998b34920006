-- ===== src/Ir/Block/Ancestor.antt =====
-- `IRNode.is_ancestor` (xdsl/ir/core.py): when the climb ends, and which writes it does not see.
use xdsl.Prelude.{
  ℕ, zero, suc, ◌≡◌, ◌≢◌, ◌<◌, ◌⊎◌, refl, sym, ap, ◌∙◌, Bool, true, false, none, some, arith, inl,
  inr, Bool-cases, Option-cases,
}
use xdsl.Result.{Result, ok, err, out_of_fuel}
use xdsl.Ir.Store.{Ir}
use xdsl.Ir.Block.{Node, an_op, a_block, a_region, is_same, parent_node, is_ancestor}

-- The two states agree on every parent but that of the operation `o`.
pub record SameParents (s s' : Ir) (o : ℕ) : Type 0 where
  pub op : (p : ℕ) → p ≢ o → (s'.op p).parent ≡ (s.op p).parent
  pub block : (b : ℕ) → (s'.block b).parent ≡ (s.block b).parent
  pub region : (r : ℕ) → (s'.region r).parent ≡ (s.region r).parent

parent_node_same :
    (s s' : Ir) (o : ℕ) (node : Node)
    → SameParents s s' o
    → is_same node (an_op o) ≡ false
    → parent_node s' node ≡ parent_node s node
unfolding parent_node is_same
parent_node_same s s' o (an_op p) h n = rw (h.op p (λ e. ground (arith, e, n)), parent_node)
parent_node_same s s' o (a_block b) h n = rw (h.block b, parent_node)
parent_node_same s s' o (a_region r) h n = rw (h.region r, parent_node)

is_ancestor-zero : (self node : Node) (s : Ir) → (is_ancestor zero self node s).0 ≡ err out_of_fuel
unfolding is_ancestor
is_ancestor-zero self node s = refl

-- The three outcomes of one round of the climb.
module _ (depth : ℕ) (self node : Node) (s : Ir) where
  is_ancestor_found : is_same node self ≡ true → is_ancestor (suc depth) self node s ≡ (ok true, s)
  unfolding is_ancestor
  is_ancestor_found e = rw (e, is_ancestor)

  is_ancestor_top :
      is_same node self ≡ false
      → parent_node s node ≡ none
      → is_ancestor (suc depth) self node s ≡ (ok false, s)
  unfolding is_ancestor
  is_ancestor_top n p = rw (n, p, is_ancestor)

  is_ancestor_up :
      (parent : Node)
      → is_same node self ≡ false
      → parent_node s node ≡ some parent
      → is_ancestor (suc depth) self node s ≡ is_ancestor depth self parent s
  unfolding is_ancestor
  is_ancestor_up parent n p = rw (n, p, is_ancestor)

-- If only the parent of `moved` changes, and that is no ancestor of a node, then the ancestors of the
-- node stay what they are.
pub is_ancestor_but :
    (depth : ℕ) (s s' : Ir) (moved self node : Node) (r : Bool)
    → ((n : Node) → is_same n moved ≡ false → parent_node s' n ≡ parent_node s n)
    → is_ancestor depth moved node s ≡ (ok false, s)
    → is_ancestor depth self node s ≡ (ok r, s)
    → is_ancestor depth self node s' ≡ (ok r, s')
is_ancestor_but zero s s' moved self node r h f g =
    let e : err out_of_fuel ≡ ok false =
      sym (is_ancestor-zero moved node s) ∙ ap (λ (t : Result Bool × Ir). t.0) f in
    cc e
is_ancestor_but (suc depth) s s' moved self node r h f g = elim (Bool-cases (is_same node moved)) [
  | inl e ↦ cc (ap (λ (t : Result Bool × Ir). t.0) f, is_ancestor_found depth moved node s e)
  | inr n ↦ elim (Bool-cases (is_same node self)) [
    | inl e ↦
        let t : ok r ≡ ok true =
          cc (ap (λ (t : Result Bool × Ir). t.0) g, is_ancestor_found depth self node s e) in
        is_ancestor_found depth self node s' e ∙ ap (λ (x : Result Bool). (x, s')) (sym t)
    | inr m ↦ elim (Option-cases (parent_node s node)) [
      | inl p ↦
          let t : ok r ≡ ok false =
            cc (ap (λ (t : Result Bool × Ir). t.0) g, is_ancestor_top depth self node s m p) in
          is_ancestor_top depth self node s' m (h node n ∙ p)
          ∙ ap (λ (x : Result Bool). (x, s')) (sym t)
      | inr (q, p) ↦
          is_ancestor_up depth self node s' q m (h node n ∙ p)
          ∙ is_ancestor_but depth s s' moved self q r h
              (sym (is_ancestor_up depth moved node s q n p) ∙ f)
              (sym (is_ancestor_up depth self node s q m p) ∙ g)
    ]
  ]
]

pub is_ancestor-same :
    (depth : ℕ) (s s' : Ir) (o : ℕ) (self node : Node) (r : Bool)
    → SameParents s s' o
    → is_ancestor depth (an_op o) node s ≡ (ok false, s)
    → is_ancestor depth self node s ≡ (ok r, s)
    → is_ancestor depth self node s' ≡ (ok r, s')
is_ancestor-same depth s s' o self node r h =
    is_ancestor_but depth s s' (an_op o) self node r (λ n. parent_node_same s s' o n h)

-- `Climb s node k`: the top of the tree stands `k` parents above the node.
pub data Climb (s : Ir) : Node → ℕ → Type 0 where
  top : {node : Node} → parent_node s node ≡ none → Climb s node 0
  up :
      {node parent : Node} {k : ℕ}
      → parent_node s node ≡ some parent
      → Climb s parent k
      → Climb s node (suc k)

-- `Above s self node`: one reaches `self` from `node` by going to parents.
pub data Above (s : Ir) (self : Node) : Node → Type 0 where
  here : {node : Node} → is_same node self ≡ true → Above s self node
  above :
      {node parent : Node}
      → parent_node s node ≡ some parent
      → Above s self parent
      → Above s self node

not-Above-top :
    {s : Ir} {self node : Node}
    → Above s self node
    → is_same node self ≡ false
    → parent_node s node ≢ none
not-Above-top (here e) n p = cc
not-Above-top (above q a) n p = cc

Above-up :
    {s : Ir} {self node : Node} (parent : Node)
    → Above s self node
    → is_same node self ≡ false
    → parent_node s node ≡ some parent
    → Above s self parent
Above-up parent (here e) n p = cc
Above-up {s} {self} parent (above {parent = q} e a) n p =
    let same : q ≡ parent = ground (arith, e, p) in rw (← same) a

-- The answer of `is_ancestor` is right.
abbrev pub Answer : ℕ → Node → Node → Ir → Type 0
Answer depth self node s =
    ((is_ancestor depth self node s ≡ (ok true, s)) × Above s self node)
    ⊎ ((is_ancestor depth self node s ≡ (ok false, s)) × ¬ Above s self node)

-- With more fuel than there are parents above the node, `is_ancestor` returns, changes nothing, and
-- says whether one reaches `self` from the node by going to parents.
pub is_ancestor-Above :
    (depth : ℕ) (self : Node) (s : Ir) {node : Node} {k : ℕ}
    → Climb s node k
    → k < depth
    → Answer depth self node s
is_ancestor-Above zero self s c l = absurd (omega arith)
is_ancestor-Above (suc depth) self s (top {node} p) l = elim (Bool-cases (is_same node self)) [
  | inl e ↦ inl (is_ancestor_found depth self node s e, here e)
  | inr n ↦ inr (is_ancestor_top depth self node s n p, λ a. not-Above-top a n p)
]
is_ancestor-Above (suc depth) self s (up {node} {parent} p c) l =
    elim (Bool-cases (is_same node self)) [
      | inl e ↦ inl (is_ancestor_found depth self node s e, here e)
      | inr n ↦ elim (is_ancestor-Above depth self s c (omega arith)) [
        | inl (r, a) ↦ inl (is_ancestor_up depth self node s parent n p ∙ r, above p a)
        | inr (r, a) ↦
            inr (is_ancestor_up depth self node s parent n p ∙ r, λ b. a (Above-up parent b n p))
      ]
    ]
