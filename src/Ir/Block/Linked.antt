-- ===== src/Ir/Block/Linked.antt =====
-- Doubly linked segments of operations, and what writes to one operation do to them.
use xdsl.Prelude.{
  ℕ, ◌≡◌, ◌≢◌, refl, sym, ap, ◌∙◌, Bool, true, false, ◌||◌, Option, none, some, List, [], ◌∷◌, ◌++◌,
  ◌==◌, arith, inl, inr, Bool-cases,
}
use xdsl.Ir.Store.{Operation}

abbrev pub has : ℕ → List ℕ → Bool
has o [] = false
has o (x ∷ xs) = (x == o) || has o xs

-- The first operation of a segment, or what follows it.
abbrev pub first_or : List ℕ → Option ℕ → Option ℕ
first_or [] next = next
first_or (x ∷ xs) next = some x

-- The last operation of a segment, or what stands before it.
abbrev pub last_or : Option ℕ → List ℕ → Option ℕ
last_or prev [] = prev
last_or prev (x ∷ xs) = last_or (some x) xs

-- The operations `xs` of block `b`, distinct and linked both ways, between `prev` and `next`.
abbrev pub Linked : (ℕ → Operation) → ℕ → Option ℕ → List ℕ → Option ℕ → Type 0
Linked op b prev [] next = Unit
Linked op b prev (x ∷ xs) next =
    ((op x).parent ≡ some b)
    × ((op x).prev_op ≡ prev)
    × ((op x).next_op ≡ first_or xs next)
    × (has x xs ≡ false)
    × Linked op b (some x) xs next

pub has-append : (o : ℕ) (xs ys : List ℕ) → has o (xs ++ ys) ≡ (has o xs || has o ys)
has-append o [] ys = refl
has-append o (x ∷ xs) ys = ground (arith, has-append o xs ys)

pub first_or-append :
    (xs ys : List ℕ) (next : Option ℕ) → first_or (xs ++ ys) next ≡ first_or xs (first_or ys next)
first_or-append [] ys next = refl
first_or-append (x ∷ xs) ys next = refl

pub last_or-append :
    (prev : Option ℕ) (xs ys : List ℕ) → last_or prev (xs ++ ys) ≡ last_or (last_or prev xs) ys
last_or-append prev [] ys = refl
last_or-append prev (x ∷ xs) ys = last_or-append (some x) xs ys

abbrev pub Disjoint : List ℕ → List ℕ → Type 0
Disjoint xs ys = (o : ℕ) → has o xs ≡ true → has o ys ≡ false

pub Linked-append :
    (op : ℕ → Operation) (b : ℕ) (prev next : Option ℕ) (xs ys : List ℕ)
    → Linked op b prev xs (first_or ys next)
    → Linked op b (last_or prev xs) ys next
    → Disjoint xs ys
    → Linked op b prev (xs ++ ys) next
Linked-append op b prev next [] ys h k d = k
Linked-append op b prev next (x ∷ xs) ys h k d = (
  h.0,
  h.1,
  h.2 ∙ sym (first_or-append xs ys next),
  has-append x xs ys ∙ ground (arith, h.3, d x),
  Linked-append op b (some x) next xs ys h.4 k (λ o m. d o (ground (arith, m))),
)

pub Linked-split :
    (op : ℕ → Operation) (b : ℕ) (prev next : Option ℕ) (xs ys : List ℕ)
    → Linked op b prev (xs ++ ys) next
    → Linked op b prev xs (first_or ys next)
      × Linked op b (last_or prev xs) ys next
      × Disjoint xs ys
Linked-split op b prev next [] ys h = (tt, h, λ o m. cc)
Linked-split op b prev next (x ∷ xs) ys h =
    let (front, back, d) = Linked-split op b (some x) next xs ys h.4 in
    (
      (h.0, h.1, h.2 ∙ first_or-append xs ys next, ground (arith, h.3, has-append x xs ys), front),
      back,
      λ o m. ground (arith, h.3, has-append x xs ys, d o, m),
    )

-- A segment survives writes that spare its operations.
pub Linked-frame :
    (op op' : ℕ → Operation) (b : ℕ) (prev next : Option ℕ) (xs : List ℕ)
    → ((o : ℕ) → has o xs ≡ true → op' o ≡ op o)
    → Linked op b prev xs next
    → Linked op' b prev xs next
Linked-frame op op' b prev next [] same h = tt
Linked-frame op op' b prev next (x ∷ xs) same h =
    let e = same x (ground arith) in
    (
      ap (λ (c : Operation). c.parent) e ∙ h.0,
      ap (λ (c : Operation). c.prev_op) e ∙ h.1,
      ap (λ (c : Operation). c.next_op) e ∙ h.2,
      h.3,
      Linked-frame op op' b (some x) next xs (λ o m. same o (ground (arith, m))) h.4,
    )

pub has-last_or :
    (prev : Option ℕ) (x l : ℕ) (xs : List ℕ)
    → last_or prev (x ∷ xs) ≡ some l
    → has l (x ∷ xs) ≡ true
has-last_or prev x l [] e = ground (arith, e)
has-last_or prev x l (y ∷ xs) e = let m = has-last_or (some x) y l xs e in ground (arith, m)

-- What follows the segment changes: only the last operation's `next_op` is written.
pub Linked-set_next :
    (op op' : ℕ → Operation) (b : ℕ) (prev next next' : Option ℕ) (xs : List ℕ)
    → ((o : ℕ) → has o xs ≡ true → last_or prev xs ≢ some o → op' o ≡ op o)
    → ((o : ℕ) → last_or prev xs ≡ some o → op' o ≡ record (op o) { next_op = next' })
    → Linked op b prev xs next
    → Linked op' b prev xs next'
Linked-set_next op op' b prev next next' [] same at h = tt
Linked-set_next op op' b prev next next' (x ∷ []) same at h =
    let c = at x refl in
    (
      ap (λ (c : Operation). c.parent) c ∙ h.0,
      ap (λ (c : Operation). c.prev_op) c ∙ h.1,
      ap (λ (c : Operation). c.next_op) c,
      refl,
      tt,
    )
Linked-set_next op op' b prev next next' (x ∷ y ∷ xs) same at h =
    let n : last_or (some y) xs ≢ some x = λ e. cc (has-last_or (some x) y x xs e, h.3) in
    let c = same x (ground arith) n in
    (
      ap (λ (c : Operation). c.parent) c ∙ h.0,
      ap (λ (c : Operation). c.prev_op) c ∙ h.1,
      ap (λ (c : Operation). c.next_op) c ∙ h.2,
      h.3,
      Linked-set_next op op' b (some x) next next' (y ∷ xs) (λ o m. same o (ground (arith, m))) at
          h.4,
    )

-- What stands before the segment changes: only the first operation's `prev_op` is written.
pub Linked-set_prev :
    (op op' : ℕ → Operation) (b : ℕ) (prev prev' next : Option ℕ) (xs : List ℕ)
    → ((o : ℕ) → has o xs ≡ true → first_or xs none ≢ some o → op' o ≡ op o)
    → ((o : ℕ) → first_or xs none ≡ some o → op' o ≡ record (op o) { prev_op = prev' })
    → Linked op b prev xs next
    → Linked op' b prev' xs next
Linked-set_prev op op' b prev prev' next [] same at h = tt
Linked-set_prev op op' b prev prev' next (x ∷ xs) same at h =
    let c = at x refl in
    (
      ap (λ (c : Operation). c.parent) c ∙ h.0,
      ap (λ (c : Operation). c.prev_op) c,
      ap (λ (c : Operation). c.next_op) c ∙ h.2,
      h.3,
      Linked-frame op op' b (some x) next xs
          (λ o m. same o (ground (arith, m)) (λ q. ground (arith, m, q, h.3))) h.4,
    )

-- The operations of a segment have its block for their parent.
pub Linked-parent :
    (op : ℕ → Operation) (b : ℕ) (prev next : Option ℕ) (xs : List ℕ) (o : ℕ)
    → Linked op b prev xs next
    → has o xs ≡ true
    → (op o).parent ≡ some b
Linked-parent op b prev next [] o h m = cc
Linked-parent op b prev next (x ∷ xs) o h m = elim (Bool-cases (x == o)) [
  | inl e ↦ let e' : x ≡ o = ground (arith, e) in rw (← e') h.0
  | inr n ↦ Linked-parent op b (some x) next xs o h.4 (ground (arith, m, n))
]

pub has-first_or : (xs : List ℕ) (o : ℕ) → first_or xs none ≡ some o → has o xs ≡ true
has-first_or [] o e = cc
has-first_or (x ∷ xs) o e = ground (arith, e)

pub has_last : (xs : List ℕ) (o : ℕ) → last_or none xs ≡ some o → has o xs ≡ true
has_last [] o e = cc
has_last (x ∷ xs) o e = has-last_or none x o xs e
