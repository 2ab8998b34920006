-- ===== src/Examples/ContextExamples.antt =====
-- The registry at a dialect with two operations and an attribute.
use xdsl.Prelude.{ℕ, ◌≡◌, refl, ◌↔◌, true, false, none, [], ◌∷◌}
use xdsl.Prelude.Dict.{insert}
use xdsl.Result.{ok}
use xdsl.Context.{
  OpClass, AttrClass, Dialect, MlContext, load_dialect, get_attr, load_ops, load_op, load_attrs,
  load_attr,
}
use xdsl.Context.Load.{Loadable, load_dialect-Loadable}
use xdsl.Context.Get.{get_attr-is_type}

abbrev empty : MlContext
empty = record {
  allow_unregistered = true;
  loaded_dialects = [];
  loaded_ops = [];
  loaded_attrs = [];
}

abbrev op_class : ℕ → OpClass
op_class n = record { name = n; class = n; op_name = none }

abbrev attr_class : AttrClass
attr_class = record {
  name = 5;
  class = 5;
  verified_name = none;
  verified_is_type = false;
  is_type_attribute = true;
}

abbrev small : Dialect
small = record { name = 3; operations = op_class 1 ∷ op_class 2 ∷ []; attributes = attr_class ∷ [] }

load_dialect-Loadable_example : ((load_dialect small empty).0 ≡ ok tt) ↔ Loadable small empty
load_dialect-Loadable_example = load_dialect-Loadable small empty

small-loads : (load_dialect small empty).0 ≡ ok tt
unfolding load_dialect load_ops load_op load_attrs load_attr insert
small-loads = refl

abbrev two : ℕ
two = 2

get_attr-is_type_example :
    (attr : AttrClass) × (after : MlContext) × (get_attr 4 true empty ≡ (ok attr, after))
    × (attr.is_type_attribute ≡ false)
    × (get_attr 4 false after ≡ (ok attr, after))
get_attr-is_type_example = get_attr-is_type 4 true false empty refl refl
