-- ===== src/Irdl/Layout.antt =====
-- The arguments that the builder lays out one after the other, and their sizes.
use xdsl.Prelude.{
  ℕ, ◌+◌, ◌≤◌, ◌≡◌, refl, List, [], ◌∷◌, ◌++◌, length, length-append, if◌then◌else◌, arith,
}
use xdsl.Result.{ok, >>=-eq-ok}
use xdsl.Irdl.{
  DefKind, single, variadic, optional, is_variadic, sizes_from, count_variadic, inferred_sizes, sum,
}
use xdsl.Irdl.Build.{BuildArg, nothing, sequence, value, build_arg, build_args}

-- The argument is not `None`.
abbrev pub AllPresent : List BuildArg → Type 0
AllPresent [] = Unit
AllPresent (nothing ∷ args) = ⊥
AllPresent (sequence vs ∷ args) = AllPresent args
AllPresent (value v ∷ args) = AllPresent args

abbrev pub given_values : BuildArg → List ℕ
given_values nothing = []
given_values (sequence vs) = vs
given_values (value v) = v ∷ []

abbrev pub blocks_of : List BuildArg → List (List ℕ)
blocks_of [] = []
blocks_of (arg ∷ args) = given_values arg ∷ blocks_of args

abbrev pub concat : List (List ℕ) → List ℕ
concat [] = []
concat (b ∷ bs) = b ++ concat bs

abbrev pub lengths : List (List ℕ) → List ℕ
lengths [] = []
lengths (b ∷ bs) = length b ∷ lengths bs

-- The definition takes this many arguments.
abbrev pub Fits : DefKind → ℕ → Type 0
Fits single n = n ≡ 1
Fits variadic n = Unit
Fits optional n = n ≤ 1

abbrev pub Laid : List DefKind → List (List ℕ) → Type 0
Laid [] [] = Unit
Laid [] (b ∷ bs) = ⊥
Laid (d ∷ ds) [] = ⊥
Laid (d ∷ ds) (b ∷ bs) = Fits d (length b) × Laid ds bs

build_arg-sequence :
    (d : DefKind) (vs : List ℕ) (r : List ℕ × List ℕ)
    → build_arg d (sequence vs) ≡ ok r
    → Fits d (length vs) × (r ≡ (vs, length vs ∷ []))
unfolding build_arg
build_arg-sequence single vs r h = cc
build_arg-sequence variadic vs r h = (tt, cc)
build_arg-sequence optional vs r h = (ground (arith, h), ground (arith, h))

Fits-one : (d : DefKind) → Fits d 1
Fits-one single = refl
Fits-one variadic = tt
Fits-one optional = omega arith

pub build_args-Laid :
    (ds : List DefKind) (args : List BuildArg) (r : List ℕ × List ℕ)
    → build_args ds args ≡ ok r
    → length args ≡ length ds
    → AllPresent args
    → Laid ds (blocks_of args) × (r ≡ (concat (blocks_of args), lengths (blocks_of args)))
unfolding build_args
build_args-Laid [] [] r h e p = (tt, cc)
build_args-Laid [] (arg ∷ args) r h e p = absurd (omega (arith, e))
build_args-Laid (d ∷ ds) [] r h e p = absurd (omega (arith, e))
build_args-Laid (d ∷ ds) (nothing ∷ args) r h e p = absurd p
build_args-Laid (d ∷ ds) (sequence vs ∷ args) r h e p =
    let (first, f, h') = >>=-eq-ok (build_arg d (sequence vs)) _ h in
    let (rest, g, h'') = >>=-eq-ok (build_args ds args) _ h' in
    let (fits, k) = build_arg-sequence d vs first f in
    let (laid, l) = build_args-Laid ds args rest g (omega (arith, e)) p in
    ((fits, laid), ground (arith, k, l, h''))
build_args-Laid (d ∷ ds) (value v ∷ args) r h e p =
    let (rest, g, h') = >>=-eq-ok (build_args ds args) _ h in
    let (laid, l) = build_args-Laid ds args rest g (omega (arith, e)) p in
    ((Fits-one d, laid), ground (arith, l, h'))

-- The sizes of the variadic definitions.
abbrev pub variadic_part : List DefKind → List (List ℕ) → List ℕ
variadic_part (d ∷ ds) (b ∷ bs) =
    if is_variadic d then length b ∷ variadic_part ds bs else variadic_part ds bs
variadic_part _ _ = []

pub sizes_from-lengths :
    (ds : List DefKind) (bs : List (List ℕ))
    → Laid ds bs
    → sizes_from ds (lengths bs) ≡ ok (variadic_part ds bs)
unfolding sizes_from
sizes_from-lengths [] [] h = refl
sizes_from-lengths [] (b ∷ bs) h = absurd h
sizes_from-lengths (d ∷ ds) [] h = absurd h
sizes_from-lengths (single ∷ ds) (b ∷ bs) (h, hs) = ground (arith, h, sizes_from-lengths ds bs hs)
sizes_from-lengths (variadic ∷ ds) (b ∷ bs) (h, hs) = ground (arith, sizes_from-lengths ds bs hs)
sizes_from-lengths (optional ∷ ds) (b ∷ bs) (h, hs) = ground (arith, h, sizes_from-lengths ds bs hs)

pub length-lengths :
    (ds : List DefKind) (bs : List (List ℕ)) → Laid ds bs → length (lengths bs) ≡ length ds
length-lengths [] [] h = refl
length-lengths [] (b ∷ bs) h = absurd h
length-lengths (d ∷ ds) [] h = absurd h
length-lengths (d ∷ ds) (b ∷ bs) (h, hs) = omega (arith, length-lengths ds bs hs)

length-variadic_part :
    (ds : List DefKind) (bs : List (List ℕ))
    → Laid ds bs
    → (length (variadic_part ds bs) ≡ count_variadic ds)
      × (length (concat bs) + count_variadic ds ≡ length ds + sum (variadic_part ds bs))
unfolding count_variadic
length-variadic_part [] [] h = (refl, refl)
length-variadic_part [] (b ∷ bs) h = absurd h
length-variadic_part (d ∷ ds) [] h = absurd h
length-variadic_part (single ∷ ds) (b ∷ bs) (h, hs) =
    let (l, m) = length-variadic_part ds bs hs in
    let n = length-append b (concat bs) in (l, omega (arith, h, m, n))
length-variadic_part (variadic ∷ ds) (b ∷ bs) (h, hs) =
    let (l, m) = length-variadic_part ds bs hs in
    let n = length-append b (concat bs) in (omega (arith, l), omega (arith, m, n))
length-variadic_part (optional ∷ ds) (b ∷ bs) (h, hs) =
    let (l, m) = length-variadic_part ds bs hs in
    let n = length-append b (concat bs) in (omega (arith, l), omega (arith, m, n))

inferred_sizes-sum :
    (vs : List ℕ) (variadic_defs args defs : ℕ)
    → length vs ≡ variadic_defs
    → args + variadic_defs ≡ defs + sum vs
    → variadic_defs ≤ 1
    → inferred_sizes variadic_defs args defs ≡ ok vs
unfolding inferred_sizes
inferred_sizes-sum [] c n m h k l = ground (arith, h, k)
inferred_sizes-sum (x ∷ []) c n m h k l = ground (arith, h, k)
inferred_sizes-sum (x ∷ y ∷ vs) c n m h k l = absurd (omega (arith, h, l))

-- Without an attribute, the number of arguments gives the size of a single variadic definition.
pub inferred_sizes-length :
    (ds : List DefKind) (bs : List (List ℕ))
    → Laid ds bs
    → count_variadic ds ≤ 1
    → inferred_sizes (count_variadic ds) (length (concat bs)) (length ds) ≡ ok (variadic_part ds bs)
inferred_sizes-length ds bs h c =
    let (l, m) = length-variadic_part ds bs h in inferred_sizes-sum _ _ _ _ l m c
