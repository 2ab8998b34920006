-- ===== src/Passes/Hints.antt =====
-- The types of options of passes, and `isa` of xdsl/utils/hints.py at the values that the pipeline
-- parser reads. A text is the number of an interned string.
use xdsl.Prelude.{ℕ, Bool, true, false, ◌&&◌, ◌||◌, List, [], ◌∷◌, ◌==◌}
use xdsl.Pipeline.{PassArgElementType, string, integer, boolean, float}

-- The types of options, as `isa` reads them: `Any`, the classes of single values, lists, unions
-- and literal texts.
mutual
  pub data Hint : Type 0 where
    any_hint int_class float_class bool_class str_class none_type : Hint
    list_of : Hint → Hint
    union : Hints → Hint
    literal : List ℕ → Hint

  pub data Hints : Type 0 where
    nil : Hints
    cons : Hint → Hints → Hints

-- `x in args` for a list of texts.
abbrev pub in_list : ℕ → List ℕ → Bool
in_list t [] = false
in_list t (x ∷ xs) = (t == x) || in_list t xs

-- `all` over a list.
abbrev pub all {ℓ} : {A : Type ℓ} → (A → Bool) → List A → Bool
all test [] = true
all test (x ∷ xs) = test x && all test xs

module _ {F : Type 0} where
  -- `isinstance` of a single value, where a `bool` is an `int`.
  abbrev pub is_int : PassArgElementType F → Bool
  is_int (integer i) = true
  is_int (boolean b) = true
  is_int _ = false

  abbrev pub is_float : PassArgElementType F → Bool
  is_float (float x) = true
  is_float _ = false

  abbrev pub is_bool : PassArgElementType F → Bool
  is_bool (boolean b) = true
  is_bool _ = false

  abbrev pub is_str : PassArgElementType F → Bool
  is_str (string t) = true
  is_str _ = false

  -- `arg in get_args(hint)`, for literal texts.
  abbrev pub is_literal : PassArgElementType F → List ℕ → Bool
  is_literal (string t) ts = in_list t ts
  is_literal _ ts = false

-- `isa` of a single value.
unfoldable mutual
  pub isa : {F : Type 0} → PassArgElementType F → Hint → Bool
  isa v any_hint = true
  isa v int_class = is_int v
  isa v float_class = is_float v
  isa v bool_class = is_bool v
  isa v str_class = is_str v
  isa v none_type = false
  isa v (list_of h) = false
  isa v (union hs) = isa_any v hs
  isa v (literal ts) = is_literal v ts

  pub isa_any : {F : Type 0} → PassArgElementType F → Hints → Bool
  isa_any v nil = false
  isa_any v (cons h hs) = isa v h || isa_any v hs

-- `isa` of a list of values.
unfoldable mutual
  unfolding isa

  pub isa_list : {F : Type 0} → List (PassArgElementType F) → Hint → Bool
  isa_list vs any_hint = true
  isa_list vs (list_of h) = all (λ v. isa v h) vs
  isa_list vs (union hs) = isa_list_any vs hs
  isa_list vs _ = false

  pub isa_list_any : {F : Type 0} → List (PassArgElementType F) → Hints → Bool
  isa_list_any vs nil = false
  isa_list_any vs (cons h hs) = isa_list vs h || isa_list_any vs hs

-- `NoneType in get_args(hint)`
abbrev pub has_none : Hints → Bool
has_none nil = false
has_none (cons none_type hs) = true
has_none (cons h hs) = has_none hs

-- Whether a type is a union with `None`.
abbrev pub can_be_none : Hint → Bool
can_be_none (union hs) = has_none hs
can_be_none _ = false
