-- ===== src/Context/Load.antt =====
-- `MLContext.load_dialect` of xdsl/ir/core.py: the names it takes, and what they stand for after it.
use xdsl.Prelude.{
  ℕ, ◌≡◌, refl, sym, ◌↔◌, inl, inr, Option-cases, Option, none, some, List, [], ◌∷◌, map, arith, ap,
  ◌∙◌, ◌==◌, if◌then◌else◌,
}
use xdsl.Prelude.Dict.{Dict, lookup, insert, lookup-insert, Absent, Distinct}
use xdsl.Result.{ok, Result-cases}
use xdsl.Context.{
  OpClass, AttrClass, Dialect, MlContext, load_op, load_attr, load_ops, load_attrs, load_dialect,
  get_dialect, get_optional_dialect,
}

-- The entries with these names are not in the dictionary.
abbrev pub Unloaded {ℓ} : {V : Type ℓ} → List ℕ → Dict V → Type ℓ
Unloaded [] d = Unit
Unloaded (k ∷ ks) d = (lookup k d ≡ none) × Unloaded ks d

abbrev pub op_names : List OpClass → List ℕ
op_names ops = map (λ op. op.name) ops

abbrev pub attr_names : List AttrClass → List ℕ
attr_names attrs = map (λ attr. attr.name) attrs

-- The last class of that name in the list, or else the one given.
abbrev pub op_or : ℕ → List OpClass → Option OpClass → Option OpClass
op_or n [] o = o
op_or n (op ∷ ops) o = op_or n ops (if n == op.name then some op else o)

abbrev pub attr_or : ℕ → List AttrClass → Option AttrClass → Option AttrClass
attr_or n [] o = o
attr_or n (attr ∷ attrs) o = attr_or n attrs (if n == attr.name then some attr else o)

module _ {ℓ} {V : Type ℓ} where
  Unloaded-insert :
      (ks : List ℕ) (k : ℕ) (v : V) (d : Dict V)
      → Absent k ks
      → Unloaded ks d
      → Unloaded ks (insert k v d)
  Unloaded-insert [] k v d a u = tt
  Unloaded-insert (j ∷ ks) k v d (a, bs) (u, us) =
      (ground (arith, lookup-insert j k v d), Unloaded-insert ks k v d bs us)

  insert-Unloaded :
      (ks : List ℕ) (k : ℕ) (v : V) (d : Dict V)
      → Unloaded ks (insert k v d)
      → Absent k ks × Unloaded ks d
  insert-Unloaded [] k v d u = (tt, tt)
  insert-Unloaded (j ∷ ks) k v d (u, us) =
      let (bs, vs) = insert-Unloaded ks k v d us in
      let e = lookup-insert j k v d in ((ground (arith, e, u), bs), (ground (arith, e, u), vs))

-- The two loops return when the names are distinct and not loaded, and only then.
load_ops-Unloaded :
    (ops : List OpClass) (ctx : MlContext)
    → ((load_ops ops ctx).0 ≡ ok tt)
      ↔ (Distinct (op_names ops) × Unloaded (op_names ops) ctx.loaded_ops)
unfolding load_ops load_op
load_ops-Unloaded [] ctx = (λ _. (tt, tt), λ _. refl)
load_ops-Unloaded (op ∷ ops) ctx =
    let after = insert op.name op ctx.loaded_ops in
    let (only, whenever) = load_ops-Unloaded ops (record ctx { loaded_ops = after }) in
    elim (Option-cases (lookup op.name ctx.loaded_ops)) [
      | inl h ↦ (
        (λ e.
            let (ds, us) = only (ground (arith, h, e)) in
            let (bs, vs) = insert-Unloaded (op_names ops) op.name op ctx.loaded_ops us in
            ((bs, ds), (h, vs))),
        (λ ((bs, ds), (_, vs)).
            let e = whenever (ds, Unloaded-insert (op_names ops) op.name op ctx.loaded_ops bs vs) in
            ground (arith, h, e)),
      )
      | inr (o, h) ↦
          ((λ e. absurd (ground (arith, h, e))), (λ (_, (g, _)). absurd (ground (arith, h, g))))
    ]

load_attrs-Unloaded :
    (attrs : List AttrClass) (ctx : MlContext)
    → ((load_attrs attrs ctx).0 ≡ ok tt)
      ↔ (Distinct (attr_names attrs) × Unloaded (attr_names attrs) ctx.loaded_attrs)
unfolding load_attrs load_attr
load_attrs-Unloaded [] ctx = (λ _. (tt, tt), λ _. refl)
load_attrs-Unloaded (attr ∷ attrs) ctx =
    let after = insert attr.name attr ctx.loaded_attrs in
    let (only, whenever) = load_attrs-Unloaded attrs (record ctx { loaded_attrs = after }) in
    elim (Option-cases (lookup attr.name ctx.loaded_attrs)) [
      | inl h ↦ (
        (λ e.
            let (ds, us) = only (ground (arith, h, e)) in
            let (bs, vs) = insert-Unloaded (attr_names attrs) attr.name attr ctx.loaded_attrs us in
            ((bs, ds), (h, vs))),
        (λ ((bs, ds), (_, vs)).
            let e =
              whenever
                (ds, Unloaded-insert (attr_names attrs) attr.name attr ctx.loaded_attrs bs vs) in
            ground (arith, h, e)),
      )
      | inr (o, h) ↦
          ((λ e. absurd (ground (arith, h, e))), (λ (_, (g, _)). absurd (ground (arith, h, g))))
    ]

-- The first loop leaves the attributes and the dialects alone.
load_ops-loaded_attrs :
    (ops : List OpClass) (ctx : MlContext)
    → ((load_ops ops ctx).1.loaded_attrs ≡ ctx.loaded_attrs)
      × ((load_ops ops ctx).1.loaded_dialects ≡ ctx.loaded_dialects)
unfolding load_ops load_op
load_ops-loaded_attrs [] ctx = (refl, refl)
load_ops-loaded_attrs (op ∷ ops) ctx =
    let after = record ctx { loaded_ops = insert op.name op ctx.loaded_ops } in
    ground (arith, load_ops-loaded_attrs ops after, Option-cases (lookup op.name ctx.loaded_ops))

load_attrs-loaded_ops :
    (attrs : List AttrClass) (ctx : MlContext)
    → ((load_attrs attrs ctx).1.loaded_ops ≡ ctx.loaded_ops)
      × ((load_attrs attrs ctx).1.loaded_dialects ≡ ctx.loaded_dialects)
unfolding load_attrs load_attr
load_attrs-loaded_ops [] ctx = (refl, refl)
load_attrs-loaded_ops (attr ∷ attrs) ctx =
    let after = record ctx { loaded_attrs = insert attr.name attr ctx.loaded_attrs } in
    ground
      (arith, load_attrs-loaded_ops attrs after, Option-cases (lookup attr.name ctx.loaded_attrs))

-- A name that is not loaded is loaded, and the loop goes on.
load_ops-none :
    (op : OpClass) (ops : List OpClass) (ctx : MlContext)
    → lookup op.name ctx.loaded_ops ≡ none
    → load_ops (op ∷ ops) ctx
      ≡ load_ops ops (record ctx { loaded_ops = insert op.name op ctx.loaded_ops })
unfolding load_ops load_op
load_ops-none op ops ctx h = ground (arith, h)

load_attrs-none :
    (attr : AttrClass) (attrs : List AttrClass) (ctx : MlContext)
    → lookup attr.name ctx.loaded_attrs ≡ none
    → load_attrs (attr ∷ attrs) ctx
      ≡ load_attrs attrs (record ctx { loaded_attrs = insert attr.name attr ctx.loaded_attrs })
unfolding load_attrs load_attr
load_attrs-none attr attrs ctx h = ground (arith, h)

-- After a loop that returns, a name stands for its class in the list, or for what it stood for.
load_ops-lookup :
    (ops : List OpClass) (ctx : MlContext) (n : ℕ)
    → (load_ops ops ctx).0 ≡ ok tt
    → lookup n (load_ops ops ctx).1.loaded_ops ≡ op_or n ops (lookup n ctx.loaded_ops)
unfolding load_ops load_op
load_ops-lookup [] ctx n h = refl
load_ops-lookup (op ∷ ops) ctx n h =
    let after = insert op.name op ctx.loaded_ops in
    elim (Option-cases (lookup op.name ctx.loaded_ops)) [
      | inl g ↦
          let rest =
            load_ops-lookup ops (record ctx { loaded_ops = after }) n (ground (arith, h, g)) in
          ap (λ s. lookup n s.1.loaded_ops) (load_ops-none op ops ctx g)
          ∙ (rest ∙ ap (op_or n ops) (lookup-insert n op.name op ctx.loaded_ops))
      | inr (o, g) ↦ absurd (ground (arith, h, g))
    ]

load_attrs-lookup :
    (attrs : List AttrClass) (ctx : MlContext) (n : ℕ)
    → (load_attrs attrs ctx).0 ≡ ok tt
    → lookup n (load_attrs attrs ctx).1.loaded_attrs ≡ attr_or n attrs (lookup n ctx.loaded_attrs)
unfolding load_attrs load_attr
load_attrs-lookup [] ctx n h = refl
load_attrs-lookup (attr ∷ attrs) ctx n h =
    let after = insert attr.name attr ctx.loaded_attrs in
    elim (Option-cases (lookup attr.name ctx.loaded_attrs)) [
      | inl g ↦
          let rest =
            load_attrs-lookup attrs (record ctx { loaded_attrs = after }) n
              (ground (arith, h, g)) in
          ap (λ s. lookup n s.1.loaded_attrs) (load_attrs-none attr attrs ctx g)
          ∙ (rest ∙ ap (attr_or n attrs) (lookup-insert n attr.name attr ctx.loaded_attrs))
      | inr (o, g) ↦ absurd (ground (arith, h, g))
    ]

-- The names of a dialect are distinct, and none is loaded.
abbrev pub Loadable : Dialect → MlContext → Type 0
Loadable dialect ctx =
    (Distinct (op_names dialect.operations) × Unloaded (op_names dialect.operations) ctx.loaded_ops)
    × (Distinct (attr_names dialect.attributes)
        × Unloaded (attr_names dialect.attributes) ctx.loaded_attrs)

-- `load_dialect` returns exactly when the names of the operations of the dialect are distinct and
-- not loaded, and those of its attributes too; otherwise it raises.
pub load_dialect-Loadable :
    (dialect : Dialect) (ctx : MlContext)
    → ((load_dialect dialect ctx).0 ≡ ok tt) ↔ Loadable dialect ctx
unfolding load_dialect
load_dialect-Loadable dialect ctx =
    let named = record ctx { loaded_dialects = insert dialect.name dialect ctx.loaded_dialects } in
    let loaded = load_ops dialect.operations named in
    let (only, whenever) = load_ops-Unloaded dialect.operations named in
    let (only', whenever') = load_attrs-Unloaded dialect.attributes loaded.1 in
    let (same, _) = load_ops-loaded_attrs dialect.operations named in
    elim (Result-cases loaded.0) [
      | inl (tt, e) ↦ (
        (λ h. let (ds, us) = only' (ground (arith, e, h)) in (only e, (ds, rw (sym same) us))),
        (λ (ok_ops, (ds, us)). let e' = whenever' (ds, rw same us) in ground (arith, e, e')),
      )
      | inr (x, e) ↦ (
        (λ h. absurd (ground (arith, e, h))),
        (λ (ok_ops, _). let e' = whenever ok_ops in absurd (ground (arith, e, e'))),
      )
    ]

-- After a `load_dialect` that returns, an operation's name stands for the dialect's operation of
-- that name, or where it has none for what it stood for before, so for attributes, and the
-- dialect's name stands for the dialect.
pub load_dialect-lookup :
    (dialect : Dialect) (ctx : MlContext) (n : ℕ)
    → (load_dialect dialect ctx).0 ≡ ok tt
    → let after = (load_dialect dialect ctx).1 in
      (lookup n after.loaded_ops ≡ op_or n dialect.operations (lookup n ctx.loaded_ops))
      × (lookup n after.loaded_attrs ≡ attr_or n dialect.attributes (lookup n ctx.loaded_attrs))
      × (get_dialect dialect.name after ≡ (ok dialect, after))
unfolding load_dialect get_dialect get_optional_dialect
load_dialect-lookup dialect ctx n h =
    let named = record ctx { loaded_dialects = insert dialect.name dialect ctx.loaded_dialects } in
    let loaded = load_ops dialect.operations named in
    elim (Result-cases loaded.0) [
      | inl (tt, e) ↦
          let e' : (load_attrs dialect.attributes loaded.1).0 ≡ ok tt = ground (arith, e, h) in
          let ops = load_ops-lookup dialect.operations named n e in
          let attrs = load_attrs-lookup dialect.attributes loaded.1 n e' in
          let (same, dialects) = load_ops-loaded_attrs dialect.operations named in
          let (same', dialects') = load_attrs-loaded_ops dialect.attributes loaded.1 in
          let own = lookup-insert dialect.name dialect.name dialect ctx.loaded_dialects in
          ground (arith, e, ops, attrs, same, dialects, same', dialects', own)
      | inr (x, e) ↦ absurd (ground (arith, e, h))
    ]
