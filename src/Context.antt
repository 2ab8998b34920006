-- ===== src/Context.antt =====
-- The registry of dialects, operations and attributes: `Dialect` and `MLContext` of
-- xdsl/ir/core.py, and the classes that xdsl/dialects/builtin.py makes for names that are not
-- registered. A name is the number of an interned string. A method returns its result and the
-- context after it: what was loaded before a raise stays loaded.
pub mod Load
pub mod Get
use xdsl.Prelude.{ℕ, Bool, true, false, Option, none, some, List, [], ◌∷◌, if◌then◌else◌}
use xdsl.Prelude.Dict.{Dict, lookup, insert}
use xdsl.Result.{Result, ok, err, exception}

-- `builtin.unregistered`, the name of both `UnregisteredOp` and `UnregisteredAttr`.
abbrev pub builtin_unregistered : ℕ
builtin_unregistered = 0

-- A subclass of `Operation`: its name, which class of that name it is, and the `op_name__` that an
-- unregistered one gives its instances.
pub record OpClass : Type 0 where
  pub name : ℕ
  pub class : ℕ
  pub op_name : Option ℕ

-- A subclass of `Attribute`: `verified_name` and `verified_is_type` are what `verify` of an
-- unregistered one asks for, and `is_type_attribute` says whether it is a `TypeAttribute`.
pub record AttrClass : Type 0 where
  pub name : ℕ
  pub class : ℕ
  pub verified_name : Option ℕ
  pub verified_is_type : Bool
  pub is_type_attribute : Bool

pub record Dialect : Type 0 where
  pub name : ℕ
  pub operations : List OpClass
  pub attributes : List AttrClass

pub record MlContext : Type 0 where
  pub allow_unregistered : Bool
  pub loaded_dialects : Dict Dialect
  pub loaded_ops : Dict OpClass
  pub loaded_attrs : Dict AttrClass

abbrev pub C {ℓ} : Type ℓ → Type ℓ
C A = MlContext → Result A × MlContext

-- A call, and what follows it unless it raises.
abbrev pub then_ {ℓ κ} :
    {A : Type ℓ} {B : Type κ} → Result A × MlContext → (A → C B) → Result B × MlContext
then_ (ok a, ctx) f = f a ctx
then_ (err e, ctx) f = (err e, ctx)

-- `UnregisteredOp.with_name`
unfoldable pub with_name : ℕ → OpClass
with_name name = record { name = builtin_unregistered; class = 0; op_name = some name }

-- `UnregisteredAttr.with_name_and_type`; the two classes differ in the base `TypeAttribute`.
unfoldable pub with_name_and_type : ℕ → Bool → AttrClass
with_name_and_type name is_type = record {
  name = builtin_unregistered;
  class = 0;
  verified_name = some name;
  verified_is_type = is_type;
  is_type_attribute = if is_type then false else true;
}

unfoldable pub load_op : OpClass → C (Unit {0})
load_op op ctx = elim (lookup op.name ctx.loaded_ops) [
  | some _ ↦ (err exception, ctx)
  | none ↦ (ok tt, record ctx { loaded_ops = insert op.name op ctx.loaded_ops })
]

unfoldable pub load_attr : AttrClass → C (Unit {0})
load_attr attr ctx = elim (lookup attr.name ctx.loaded_attrs) [
  | some _ ↦ (err exception, ctx)
  | none ↦ (ok tt, record ctx { loaded_attrs = insert attr.name attr ctx.loaded_attrs })
]

-- The two loops of `load_dialect`.
unfoldable pub load_ops : List OpClass → C (Unit {0})
load_ops [] ctx = (ok tt, ctx)
load_ops (op ∷ ops) ctx = then_ (load_op op ctx) (λ _. load_ops ops)

unfoldable pub load_attrs : List AttrClass → C (Unit {0})
load_attrs [] ctx = (ok tt, ctx)
load_attrs (attr ∷ attrs) ctx = then_ (load_attr attr ctx) (λ _. load_attrs attrs)

unfoldable pub load_dialect : Dialect → C (Unit {0})
load_dialect dialect ctx =
    let named = record ctx { loaded_dialects = insert dialect.name dialect ctx.loaded_dialects } in
    then_ (load_ops dialect.operations named) (λ _. load_attrs dialect.attributes)

unfoldable pub get_optional_op : ℕ → C (Option OpClass)
get_optional_op name ctx = elim (lookup name ctx.loaded_ops) [
  | some op ↦ (ok (some op), ctx)
  | none ↦
      if ctx.allow_unregistered
      then (
        ok (some (with_name name)),
        record ctx { loaded_ops = insert name (with_name name) ctx.loaded_ops },
      )
      else (ok none, ctx)
]

-- `return` of an optional class, or the exception that it is not registered.
abbrev pub or_unregistered {ℓ} : {A : Type ℓ} → Option A → C A
or_unregistered (some a) ctx = (ok a, ctx)
or_unregistered none ctx = (err exception, ctx)

unfoldable pub get_op : ℕ → C OpClass
get_op name ctx = then_ (get_optional_op name ctx) or_unregistered

unfoldable pub get_optional_attr : ℕ → Bool → C (Option AttrClass)
get_optional_attr name create_unregistered_as_type ctx = elim (lookup name ctx.loaded_attrs) [
  | some attr ↦ (ok (some attr), ctx)
  | none ↦
      let attr_type = with_name_and_type name create_unregistered_as_type in
      if ctx.allow_unregistered
      then (
        ok (some attr_type),
        record ctx { loaded_attrs = insert name attr_type ctx.loaded_attrs },
      )
      else (ok none, ctx)
]

unfoldable pub get_attr : ℕ → Bool → C AttrClass
get_attr name create_unregistered_as_type ctx =
    then_ (get_optional_attr name create_unregistered_as_type ctx) or_unregistered

unfoldable pub get_optional_dialect : ℕ → C (Option Dialect)
get_optional_dialect name ctx = (ok (lookup name ctx.loaded_dialects), ctx)

unfoldable pub get_dialect : ℕ → C Dialect
get_dialect name ctx = then_ (get_optional_dialect name ctx) or_unregistered
