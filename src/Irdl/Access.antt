-- ===== src/Irdl/Access.antt =====
-- The accessor of a definition gives back what the builder was given for it.
use xdsl.Prelude.{
  ℕ, zero, suc, ◌+◌, ◌-◌, ◌≤◌, ◌≡◌, refl, ◌∙◌, some, List, [], ◌∷◌, ◌++◌, length, get_elem?,
  get_elem?-append_right, if◌then◌else◌, arith,
}
use xdsl.Prelude.Slices.{take, drop, drop-append, take-append}
use xdsl.Result.{ok}
use xdsl.Irdl.{
  DefKind, single, variadic, optional, is_variadic, sum, Accessed, absent, one, many, read_argument,
  accessors_from,
}
use xdsl.Irdl.Layout.{concat, Fits, Laid, variadic_part}

-- What a definition of this kind gives for its arguments.
abbrev pub accessed : DefKind → List ℕ → Accessed
accessed variadic vs = many vs
accessed single [] = absent
accessed single (v ∷ vs) = one v
accessed optional [] = absent
accessed optional (v ∷ vs) = one v

unfoldable pub previous : List DefKind → ℕ → ℕ
previous [] i = 0
previous (d ∷ ds) zero = 0
previous (d ∷ ds) (suc i) = if is_variadic d then suc (previous ds i) else previous ds i

previous-le : (ds : List DefKind) (i : ℕ) → previous ds i ≤ i
unfolding previous
previous-le [] i = omega arith
previous-le (d ∷ ds) zero = omega arith
previous-le (d ∷ ds) (suc i) = ground (arith, previous-le ds i)

pub accessors_from-previous :
    (ds : List DefKind) (idx prev i : ℕ) {a : ℕ × ℕ}
    → get_elem? (accessors_from idx prev ds) i ≡ some a
    → a ≡ (idx + i, prev + previous ds i)
unfolding accessors_from previous
accessors_from-previous [] idx prev i h = cc
accessors_from-previous (d ∷ ds) idx prev zero h = ground (arith, h)
accessors_from-previous (d ∷ ds) idx prev (suc i) h =
    let rest =
      accessors_from-previous ds (suc idx) (if is_variadic d then suc prev else prev) i h in
    ground (arith, rest)

-- Arguments before those of the definition.
read_argument-shift :
    (d : DefKind) (vs : List ℕ) (p n : ℕ) (xs ys : List ℕ)
    → read_argument d vs p (length xs + n) (xs ++ ys) ≡ read_argument d vs p n ys
unfolding read_argument
read_argument-shift single vs p n xs ys = rw (get_elem?-append_right xs ys n)
read_argument-shift variadic vs p n xs ys = rw (drop-append xs ys n)
read_argument-shift optional vs p n xs ys = rw (get_elem?-append_right xs ys n)

read_argument-sizes :
    (d : DefKind) (v : ℕ) (vs : List ℕ) (p n : ℕ) (xs : List ℕ)
    → read_argument d (v ∷ vs) (suc p) n xs ≡ read_argument d vs p n xs
unfolding read_argument
read_argument-sizes single v vs p n xs = refl
read_argument-sizes variadic v vs p n xs = refl
read_argument-sizes optional v vs p n xs = refl

read_argument-first :
    (d : DefKind) (b : List ℕ) (vs rest : List ℕ)
    → Fits d (length b)
    → read_argument d (if is_variadic d then length b ∷ vs else vs) 0 0 (b ++ rest)
      ≡ ok (accessed d b)
unfolding read_argument take drop
read_argument-first single [] vs rest h = absurd (omega (arith, h))
read_argument-first single (v ∷ b) vs rest h = refl
read_argument-first variadic b vs rest h = rw (take-append b rest)
read_argument-first optional [] vs rest h = refl
read_argument-first optional (v ∷ b) vs rest h = ground (arith, h)

-- The place of the next definition's arguments, where this one has the arguments `b`.
read_argument-next :
    (d : DefKind) (b : List ℕ) (vs : List ℕ) (p i n : ℕ) (rest : List ℕ)
    → n ≡ length b + (i - p + sum (take p vs))
    → read_argument d vs p n (b ++ rest) ≡ read_argument d vs p (i - p + sum (take p vs)) rest
read_argument-next d b vs p i n rest h =
    rw h (read_argument-shift d vs p (i - p + sum (take p vs)) b rest)

pub read_argument-Laid :
    (ds : List DefKind) (bs : List (List ℕ)) (i : ℕ) (d : DefKind) (b : List ℕ)
    → Laid ds bs
    → get_elem? ds i ≡ some d
    → get_elem? bs i ≡ some b
    → read_argument d
        (variadic_part ds bs)
        (previous ds i)
        (i - previous ds i + sum (take (previous ds i) (variadic_part ds bs)))
        (concat bs)
      ≡ ok (accessed d b)
unfolding previous take
read_argument-Laid [] bs i d b h e k = cc
read_argument-Laid (d' ∷ ds) [] i d b h e k = cc
read_argument-Laid (d' ∷ ds) (b' ∷ bs) zero d b (h, hs) e k =
    let first = read_argument-first d' b' (variadic_part ds bs) (concat bs) h in
    ground (arith, e, k, first)
read_argument-Laid (single ∷ ds) (b' ∷ bs) (suc i) d b (h, hs) e k =
    let le = previous-le ds i in
    read_argument-next d b' (variadic_part ds bs) (previous ds i) i _ (concat bs)
      (omega (arith, h, le))
    ∙ read_argument-Laid ds bs i d b hs e k
read_argument-Laid (variadic ∷ ds) (b' ∷ bs) (suc i) d b (h, hs) e k =
    read_argument-sizes d (length b') (variadic_part ds bs) (previous ds i) _ _
    ∙ read_argument-next d b' (variadic_part ds bs) (previous ds i) i _ (concat bs) (omega arith)
    ∙ read_argument-Laid ds bs i d b hs e k
read_argument-Laid (optional ∷ ds) (b' ∷ bs) (suc i) d b (h, hs) e k =
    read_argument-sizes d (length b') (variadic_part ds bs) (previous ds i) _ _
    ∙ read_argument-next d b' (variadic_part ds bs) (previous ds i) i _ (concat bs) (omega arith)
    ∙ read_argument-Laid ds bs i d b hs e k
