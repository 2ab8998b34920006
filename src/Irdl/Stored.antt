-- ===== src/Irdl/Stored.antt =====
-- The sizes that `irdl_op_init` of xdsl/irdl/irdl.py stores are found again.
use xdsl.Prelude.{
  ◌≡◌, subst, inl, inr, Bool, true, some, List, [], ◌∷◌, ◌==◌, if◌then◌else◌, arith, Bool-cases,
}
use xdsl.Prelude.Dict.{Dict, lookup, insert, lookup-insert}
use xdsl.Irdl.{
  Construct, SizeOption, SizeAttr, dense_array, attribute_name, find_option, is_size_option,
}
use xdsl.Irdl.Build.{Sizes, sizes_of, set_sizes}

abbrev pub Container : Type 0
Container = Dict SizeAttr × Dict SizeAttr

abbrev pub side : Bool → Container → Dict SizeAttr
side as_property dicts = if as_property then dicts.0 else dicts.1

-- The container has the sizes of the construct.
abbrev pub Stored : Sizes → Construct → Bool → Container → Type 0
Stored sizes construct b dicts =
    lookup (attribute_name construct) (side b dicts)
    ≡ some (dense_array true (sizes_of sizes construct))

attribute_name-inj :
    (sizes : Sizes) (a b : Construct)
    → (attribute_name a == attribute_name b) ≡ true
    → sizes_of sizes a ≡ sizes_of sizes b
attribute_name-inj sizes a b h = ground (arith, h)

abbrev put : Sizes → SizeOption → Container → Container
put sizes o (properties, attributes) =
    let attr = dense_array true (sizes_of sizes o.construct) in
    let name = attribute_name o.construct in
    if o.as_property
    then (insert name attr properties, attributes)
    else (properties, insert name attr attributes)

set_sizes-cons :
    (sizes : Sizes) (o : SizeOption) (os : List SizeOption) (dicts : Container)
    → set_sizes sizes (o ∷ os) dicts ≡ set_sizes sizes os (put sizes o dicts)
unfolding set_sizes
set_sizes-cons sizes o os dicts = ground arith

put-same :
    (sizes : Sizes) (o : SizeOption) (construct : Construct) (dicts : Container)
    → is_size_option construct o ≡ true
    → Stored sizes construct o.as_property (put sizes o dicts)
put-same sizes o construct dicts h =
    let attr = dense_array true (sizes_of sizes o.construct) in
    let l = lookup-insert (attribute_name construct) (attribute_name o.construct) attr dicts.0 in
    let r = lookup-insert (attribute_name construct) (attribute_name o.construct) attr dicts.1 in
    let same = attribute_name-inj sizes o.construct construct h in ground (arith, l, r, same, h)

put-Stored :
    (sizes : Sizes) (o : SizeOption) (construct : Construct) (b : Bool) (dicts : Container)
    → Stored sizes construct b dicts
    → Stored sizes construct b (put sizes o dicts)
put-Stored sizes o construct b dicts h =
    let attr = dense_array true (sizes_of sizes o.construct) in
    let l = lookup-insert (attribute_name construct) (attribute_name o.construct) attr dicts.0 in
    let r = lookup-insert (attribute_name construct) (attribute_name o.construct) attr dicts.1 in
    let same = attribute_name-inj sizes o.construct construct in ground (arith, l, r, same, h)

set_sizes-Stored :
    (sizes : Sizes) (os : List SizeOption) (construct : Construct) (b : Bool) (dicts : Container)
    → Stored sizes construct b dicts
    → Stored sizes construct b (set_sizes sizes os dicts)
unfolding set_sizes
set_sizes-Stored sizes [] construct b dicts h = h
set_sizes-Stored sizes (o ∷ os) construct b dicts h = rw (set_sizes-cons sizes o os dicts) (
    set_sizes-Stored sizes os construct b (put sizes o dicts)
      (put-Stored sizes o construct b dicts h))

find_option-first :
    (construct : Construct) (o : SizeOption) (os : List SizeOption) (option : SizeOption)
    → is_size_option construct o ≡ true
    → find_option construct (o ∷ os) ≡ some option
    → o.as_property ≡ option.as_property
find_option-first construct o os option h k = ground (arith, h, k)

pub set_sizes-find :
    (sizes : Sizes) (os : List SizeOption) (construct : Construct) (dicts : Container)
    (option : SizeOption)
    → find_option construct os ≡ some option
    → Stored sizes construct option.as_property (set_sizes sizes os dicts)
set_sizes-find sizes [] construct dicts option h = cc
set_sizes-find sizes (o ∷ os) construct dicts option h =
    rw (set_sizes-cons sizes o os dicts) (elim (Bool-cases (is_size_option construct o)) [
      | inl same ↦
          subst (λ b. Stored sizes construct b (set_sizes sizes os (put sizes o dicts)))
            (find_option-first construct o os option same h)
            (set_sizes-Stored sizes os construct o.as_property (put sizes o dicts)
              (put-same sizes o construct dicts same))
      | inr other ↦
          set_sizes-find sizes os construct (put sizes o dicts) option (ground (arith, h, other))
    ])
