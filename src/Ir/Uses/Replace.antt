-- ===== src/Ir/Uses/Replace.antt =====
-- Replacing every use of a value: the loop of `SSAValue.replace_by` and what it leaves behind.
use xdsl.Prelude.{
  ℕ, ◌≡◌, ◌≢◌, refl, sym, ◌∙◌, Bool, true, false, Option, none, some, List, [], ◌∷◌, get_elem?,
  get_elem?-lt, Bool-cases, Option-cases, inl, inr, ◌==◌, if◌then◌else◌, arith,
}
use xdsl.Result.{ok}
use xdsl.Ir.Store.{Ir, Use, is_none}
use xdsl.Ir.Uses.{use_at, same_use, has_use, set_item, replace_uses, carry_name, replace_by}
use xdsl.Ir.Uses.Sets.{has_use-nil}
use xdsl.Ir.Uses.Consistent.{
  Consistent, get_elem?-set, after_set, set_item-ok, after_set-Consistent,
}

-- Every use is the place of an operand.
abbrev pub AllPlaces : Ir → List Use → Type 0
AllPlaces s [] = Unit
AllPlaces s (u ∷ us) =
    ((v : ℕ) × (get_elem? (s.op u.operation).operands u.index ≡ some v)) × AllPlaces s us

-- The operands after the uses were given the value.
unfoldable pub after_uses : Ir → ℕ → List Use → ℕ → ℕ → Option ℕ
unfolding has_use
after_uses s value us o i =
    if has_use (use_at o i) us then some value else get_elem? (s.op o).operands i

after_set-place :
    (op idx old value : ℕ) (s : Ir)
    → get_elem? (s.op op).operands idx ≡ some old
    → (o i : ℕ)
    → get_elem? ((after_set op idx old value s).op o).operands i ≡ (
        if same_use (use_at o i) (use_at op idx) then some value else get_elem? (s.op o).operands i)
after_set-place op idx old value s h o i =
    let g = get_elem?-set (s.op op).operands idx value i (get_elem?-lt _ idx h) in ground (arith, g)

some-if :
    (b : Bool) (value v : ℕ) (o : Option ℕ)
    → o ≡ some v
    → (w : ℕ) × ((if b then some value else o) ≡ some w)
some-if true value v o h = (value, refl)
some-if false value v o h = (v, h)

after_set-AllPlaces :
    (op idx old value : ℕ) (s : Ir)
    → get_elem? (s.op op).operands idx ≡ some old
    → (us : List Use) → AllPlaces s us
    → AllPlaces (after_set op idx old value s) us
after_set-AllPlaces op idx old value s h [] places = tt
after_set-AllPlaces op idx old value s h (u ∷ us) ((v, e), places) =
    let g = after_set-place op idx old value s h u.operation u.index in
    let kept = some-if (same_use u (use_at op idx)) value v _ e in
    ((kept.0, g ∙ kept.1), after_set-AllPlaces op idx old value s h us places)

abbrev Replaced : ℕ → List Use → Ir → Ir → Type 0
Replaced value us s s' =
    (replace_uses value us s ≡ (ok tt, s'))
    × Consistent s'
    × ((o i : ℕ) → get_elem? (s'.op o).operands i ≡ after_uses s value us o i)

replace_uses-cons :
    (value : ℕ) (u : Use) (us : List Use) (s next s' : Ir)
    → set_item u.operation u.index value s ≡ (ok tt, next)
    → replace_uses value us next ≡ (ok tt, s')
    → replace_uses value (u ∷ us) s ≡ (ok tt, s')
unfolding replace_uses
replace_uses-cons value u us s next s' h k = rw (h, k)

if-twice :
    (b b' : Bool) (value after next before : Option ℕ)
    → after ≡ (if b' then value else next)
    → next ≡ (if b then value else before)
    → after ≡ (if if b then true else b' then value else before)
if-twice true true value after next before h k = h
if-twice true false value after next before h k = h ∙ k
if-twice false true value after next before h k = h
if-twice false false value after next before h k = h ∙ k

replace_uses-Replaced :
    (value : ℕ) (us : List Use) (s : Ir)
    → Consistent s
    → AllPlaces s us
    → (s' : Ir) × Replaced value us s s'
unfolding replace_uses after_uses has_use
replace_uses-Replaced value [] s c places = (s, (refl, c, λ o i. refl))
replace_uses-Replaced value (u ∷ us) s c ((old, e), places) =
    let next = after_set u.operation u.index old value s in
    let done = set_item-ok u.operation u.index old value s c e in
    let (s', (run, c', operands)) =
      replace_uses-Replaced value us next (after_set-Consistent u.operation u.index old value s c e)
        (after_set-AllPlaces u.operation u.index old value s e us places) in
    (
      s',
      (
        replace_uses-cons value u us s next s' done run,
        c',
        λ o i.
            if-twice (same_use (use_at o i) u) (has_use (use_at o i) us) (some value) _ _ _
              (operands o i) (after_set-place u.operation u.index old value s e o i),
      ),
    )

uses-AllPlaces :
    (s : Ir) (v : ℕ) (us : List Use)
    → Consistent s
    → ((u : Use) → has_use u us ≡ true → has_use u (s.value v).uses ≡ true)
    → AllPlaces s us
unfolding has_use
uses-AllPlaces s v [] c h = tt
uses-AllPlaces s v (u ∷ us) c h = (
  (v, (c v u.operation u.index).0 (h u (ground arith))),
  uses-AllPlaces s v us c (λ w k. h w (ground (arith, k))),
)

-- Of the operands, those that were `self` are `value`.
abbrev pub renamed : ℕ → ℕ → Option ℕ → Option ℕ
renamed self value none = none
renamed self value (some v) = if v == self then some value else some v

after_uses-renamed :
    (self value : ℕ) (s : Ir) (o i : ℕ)
    → Consistent s
    → after_uses s value (s.value self).uses o i
      ≡ renamed self value (get_elem? (s.op o).operands i)
unfolding after_uses
after_uses-renamed self value s o i c =
    let before = get_elem? (s.op o).operands i in
    elim (Bool-cases (has_use (use_at o i) (s.value self).uses)) [
      | inl h ↦ let e = (c self o i).0 h in ground (arith, h, e)
      | inr h ↦ elim (Option-cases before) [
        | inl e ↦ rw (h, e)
        | inr (v, e) ↦ let back = (c self o i).1 in ground (arith, h, e, back)
      ]
    ]

renamed-other : (self value : ℕ) (o : Option ℕ) → value ≢ self → renamed self value o ≢ some self
renamed-other self value none h k = absurd (cc)
renamed-other self value (some v) h k = ground (arith, h, k)

carry_name-op : (self value : ℕ) (s : Ir) → (carry_name self value s).op ≡ s.op
unfolding carry_name
carry_name-op self value s = elim (Bool-cases (is_none (s.value value).name_hint)) [
  | inl h ↦ rw h
  | inr h ↦ rw h
]

carry_name-uses :
    (self value v : ℕ) (s : Ir) → ((carry_name self value s).value v).uses ≡ (s.value v).uses
unfolding carry_name
carry_name-uses self value v s = ground arith

carry_name-Consistent :
    (self value : ℕ) (s : Ir) → Consistent s → Consistent (carry_name self value s)
carry_name-Consistent self value s c v o i =
    rw (carry_name-op self value s, carry_name-uses self value v s) (c v o i)

replace_by-run :
    (self value : ℕ) (s s' : Ir)
    → replace_uses value (s.value self).uses s ≡ (ok tt, s')
    → (s'.value self).uses ≡ []
    → replace_by self value s ≡ (ok tt, carry_name self value s')
unfolding replace_by
replace_by-run self value s s' h k = rw (h, carry_name-uses self value self s', k)

-- After `self.replace_by(value)` with another value, from a state in which the uses of every value are
-- the operands that it is: the method returns; the uses are again the operands; `self` has no uses
-- left; and of all operands of all operations exactly those that were `self` are now `value`.
pub replace_by-Consistent :
    (self value : ℕ) (s : Ir)
    → Consistent s
    → value ≢ self
    → (s' : Ir) × ((replace_by self value s ≡ (ok tt, s'))
        × Consistent s'
        × ((s'.value self).uses ≡ [])
        × ((o i : ℕ)
            → get_elem? (s'.op o).operands i ≡ renamed self value (get_elem? (s.op o).operands i)))
unfolding replace_by carry_name
replace_by-Consistent self value s c h =
    let us = (s.value self).uses in
    let (s', (run, c', operands)) =
      replace_uses-Replaced value us s c (uses-AllPlaces s self us c (λ u k. k)) in
    let kept : (o i : ℕ)
        → get_elem? (s'.op o).operands i ≡ renamed self value (get_elem? (s.op o).operands i) =
      λ o i. operands o i ∙ after_uses-renamed self value s o i c in
    let gone : (s'.value self).uses ≡ [] = has_use-nil (s'.value self).uses (λ u.
      elim (Bool-cases (has_use u (s'.value self).uses)) [
        | inl used ↦ absurd (
            renamed-other self value _ h
              (sym (kept u.operation u.index) ∙ (c' self u.operation u.index).0 used))
        | inr unused ↦ unused
      ]) in
    (
      carry_name self value s',
      (
        replace_by-run self value s s' run gone,
        carry_name-Consistent self value s' c',
        carry_name-uses self value self s' ∙ gone,
        λ o i. rw (carry_name-op self value s', kept o i),
      ),
    )
