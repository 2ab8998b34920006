-- ===== src/Context/Get.antt =====
-- Lookups in `MLContext` of xdsl/ir/core.py, with and without unregistered classes.
use xdsl.Prelude.{ℕ, ◌≡◌, ◌⊎◌, Bool, true, false, none, arith, if◌then◌else◌}
use xdsl.Prelude.Dict.{lookup, insert, lookup-insert}
use xdsl.Result.{ok}
use xdsl.Context.{
  AttrClass, MlContext, with_name, with_name_and_type, get_optional_op, get_op, get_optional_attr,
  get_attr,
}

-- `get_op` twice with the same name: the second call gives what the first gave, a class or the
-- exception, and changes nothing; the first changes what a name stands for only where the name is
-- its own and was not loaded, and unregistered operations are allowed.
pub get_op-get_op :
    (name other : ℕ) (ctx : MlContext)
    → let after = (get_op name ctx).1 in
      (get_op name after ≡ ((get_op name ctx).0, after))
      × ((lookup other after.loaded_ops ≡ lookup other ctx.loaded_ops)
          ⊎ ((other ≡ name)
              × (lookup name ctx.loaded_ops ≡ none)
              × (ctx.allow_unregistered ≡ true)))
unfolding get_op get_optional_op
get_op-get_op name other ctx =
    let own = lookup-insert name name (with_name name) ctx.loaded_ops in
    let others = lookup-insert other name (with_name name) ctx.loaded_ops in
    ground (arith, own, others)

-- `get_attr` with `allow_unregistered` of a name that is not loaded returns a class
-- that is a `TypeAttribute` exactly when none was asked for, and a later call returns that class
-- whatever it asks for.
pub get_attr-is_type :
    (name : ℕ) (as_type later : Bool) (ctx : MlContext)
    → lookup name ctx.loaded_attrs ≡ none
    → ctx.allow_unregistered ≡ true
    → (attr : AttrClass) × (after : MlContext) × (get_attr name as_type ctx ≡ (ok attr, after))
      × (attr.is_type_attribute ≡ (if as_type then false else true))
      × (get_attr name later after ≡ (ok attr, after))
unfolding get_attr get_optional_attr with_name_and_type
get_attr-is_type name as_type later ctx h allowed =
    let attr = with_name_and_type name as_type in
    let e = lookup-insert name name attr ctx.loaded_attrs in
    (
      attr,
      record ctx { loaded_attrs = insert name attr ctx.loaded_attrs },
      ground (arith, h, allowed),
      ground arith,
      ground (arith, e),
    )
