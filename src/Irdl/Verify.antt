-- ===== src/Irdl/Verify.antt =====
-- `irdl_op_verify_arg_list` of xdsl/irdl/irdl.py. The constraint of a definition is a method of any
-- class, and a parameter: `constr def_idx arg` verifies the type of an argument with the variables so far.
use xdsl.Prelude.{
  ℕ, zero, suc, ◌+◌, ◌≡◌, refl, ap, ◌∙◌, Bool, true, false, not, ◌&&◌, List, [], ◌∷◌, ◌++◌, length,
  get_elem?-append_right, ◌==◌, if◌then◌else◌, arith,
}
use xdsl.Result.{Result, ok, err, index, verify, ◌>>=◌}
use xdsl.Irdl.{
  Construct, operand, result, region, successor, DefKind, single, variadic, optional, is_variadic,
  OpDef, Op, get_construct_defs, get_op_constructs, get_variadic_sizes, irdl_op_arg_definition,
}
use xdsl.Irdl.Build.{InitArgs, irdl_op_init}
use xdsl.Irdl.Layout.{AllPresent, blocks_of, concat, Laid, variadic_part}
use xdsl.Irdl.Init.{given_args, irdl_op_init-sizes}

-- `error(op, ...)` for any exception
abbrev pub as_verify {ℓ} : {A : Type ℓ} → Result A → Result A
as_verify (err e) = err verify
as_verify (ok a) = ok a

bind-ext {ℓ κ} :
    {A : Type ℓ} {B : Type κ} (m : Result A) (f g : A → Result B)
    → ((a : A) → f a ≡ g a)
    → (m >>= f) ≡ (m >>= g)
bind-ext (err e) f g h = refl
bind-ext (ok a) f g h = h a

bind-ok {ℓ κ} :
    {A : Type ℓ} {B : Type κ} (m : Result A) (f : A → Result B)
    → (m >>= f) ≡ ((m >>= λ a. ok a) >>= f)
bind-ok (err e) f = refl
bind-ok (ok a) f = refl

module _ {V : Type 0} (constr : ℕ → ℕ → V → Result V) (is_single_block : ℕ → Bool)
    (block_count : ℕ → ℕ) (construct : Construct) where
  unfoldable pub verify_as : Construct → ℕ → ℕ → V → Result V
  verify_as operand def_idx arg vars = as_verify (constr def_idx arg vars)
  verify_as result def_idx arg vars = as_verify (constr def_idx arg vars)
  verify_as region def_idx arg vars =
      if is_single_block def_idx && not (block_count arg == 1) then err verify else ok vars
  verify_as successor def_idx arg vars = ok vars

  -- `verify_arg`
  unfoldable pub verify_arg : ℕ → ℕ → V → Result V
  unfolding verify_as
  verify_arg = verify_as construct

  -- The loop over the arguments of a variadic definition.
  unfoldable pub verify_times : ℕ → ℕ → ℕ → List ℕ → V → Result V
  unfolding verify_arg
  verify_times def_idx zero arg_idx args vars = ok vars
  verify_times def_idx (suc n) arg_idx args vars = do
    arg ← index args arg_idx
    vars ← verify_arg def_idx arg vars
    verify_times def_idx n (suc arg_idx) args vars

  -- The loop over the definitions.
  unfoldable pub verify_defs : ℕ → List DefKind → List ℕ → ℕ → ℕ → List ℕ → V → Result V
  unfolding verify_times verify_arg
  verify_defs def_idx [] arg_sizes var_idx arg_idx args vars = ok vars
  verify_defs def_idx (d ∷ ds) arg_sizes var_idx arg_idx args vars = elim (is_variadic d) [
    | true ↦ (do
      size ← index arg_sizes var_idx
      vars ← verify_times def_idx size arg_idx args vars
      verify_defs (suc def_idx) ds arg_sizes (suc var_idx) (arg_idx + size) args vars)
    | false ↦ (do
      arg ← index args arg_idx
      vars ← verify_arg def_idx arg vars
      verify_defs (suc def_idx) ds arg_sizes var_idx (suc arg_idx) args vars)
  ]

  unfoldable pub irdl_op_verify_arg_list : Op → OpDef → V → Result V
  unfolding verify_defs get_variadic_sizes
  irdl_op_verify_arg_list op op_def vars = do
    arg_sizes ← get_variadic_sizes op op_def construct
    verify_defs 0 (get_construct_defs op_def construct) arg_sizes 0 0
        (get_op_constructs op construct) vars

  -- Every argument against its definition, one after the other.
  unfoldable pub verify_block : ℕ → List ℕ → V → Result V
  verify_block def_idx [] vars = ok vars
  verify_block def_idx (arg ∷ args) vars = do
    vars ← verify_arg def_idx arg vars
    verify_block def_idx args vars

  unfoldable pub verify_blocks : ℕ → List (List ℕ) → V → Result V
  unfolding verify_block
  verify_blocks def_idx [] vars = ok vars
  verify_blocks def_idx (b ∷ bs) vars = do
    vars ← verify_block def_idx b vars
    verify_blocks (suc def_idx) bs vars

  verify_times-shift :
      (i n k : ℕ) (xs ys : List ℕ) (vars : V)
      → verify_times i n (length xs + k) (xs ++ ys) vars ≡ verify_times i n k ys vars
  unfolding verify_times
  verify_times-shift i zero k xs ys vars = refl
  verify_times-shift i (suc n) k xs ys vars =
      let next : suc (length xs + k) ≡ length xs + suc k = omega arith in
      rw (get_elem?-append_right xs ys k, next)
        (bind-ext (index ys k) _ _ (λ arg.
          bind-ext (verify_arg i arg vars) _ _
            (λ vars'. verify_times-shift i n (suc k) xs ys vars')))

  verify_times-block :
      (i : ℕ) (b rest : List ℕ) (vars : V)
      → verify_times i (length b) 0 (b ++ rest) vars ≡ verify_block i b vars
  unfolding verify_times verify_block
  verify_times-block i [] rest vars = refl
  verify_times-block i (a ∷ b) rest vars = bind-ext (verify_arg i a vars) _ _ (λ vars'.
      verify_times-shift i (length b) 0 (a ∷ []) (b ++ rest) vars'
      ∙ verify_times-block i b rest vars')

  -- What the loop does at a variadic definition.
  abbrev at_variadic : ℕ → List DefKind → List ℕ → ℕ → ℕ → List ℕ → V → Result V
  at_variadic i ds sizes v k args vars = do
    size ← index sizes v
    vars' ← verify_times i size k args vars
    verify_defs (suc i) ds sizes (suc v) (k + size) args vars'

  -- Sizes and arguments before those of the definitions make no difference.
  ShiftsAt : ℕ → List DefKind → Type 0
  ShiftsAt i ds =
      (us sizes : List ℕ) (v k : ℕ) (xs ys : List ℕ) (vars : V)
      → verify_defs i ds (us ++ sizes) (length us + v) (length xs + k) (xs ++ ys) vars
        ≡ verify_defs i ds sizes v k ys vars

  at_variadic-shift :
      (i : ℕ) (ds : List DefKind) (us sizes : List ℕ) (v k : ℕ) (xs ys : List ℕ) (vars : V)
      → ShiftsAt (suc i) ds
      → at_variadic i ds (us ++ sizes) (length us + v) (length xs + k) (xs ++ ys) vars
        ≡ at_variadic i ds sizes v k ys vars
  unfolding ShiftsAt
  at_variadic-shift i ds us sizes v k xs ys vars rest =
      let next : suc (length us + v) ≡ length us + suc v = omega arith in
      rw (get_elem?-append_right us sizes v, next)
        (bind-ext (index sizes v) _ _ (λ size. rw (verify_times-shift i size k xs ys vars) (
          bind-ext (verify_times i size k ys vars) _ _ (λ vars'.
            let place : length xs + k + size ≡ length xs + (k + size) = omega arith in
            rw place (rest us sizes (suc v) (k + size) xs ys vars')))))

  verify_defs-shift : (i : ℕ) (ds : List DefKind) → ShiftsAt i ds
  unfolding verify_defs ShiftsAt
  verify_defs-shift i [] us sizes v k xs ys vars = refl
  verify_defs-shift i (single ∷ ds) us sizes v k xs ys vars =
      let next : suc (length xs + k) ≡ length xs + suc k = omega arith in
      rw (get_elem?-append_right xs ys k, next)
        (bind-ext (index ys k) _ _ (λ arg.
          bind-ext (verify_arg i arg vars) _ _
            (λ vars'. verify_defs-shift (suc i) ds us sizes v (suc k) xs ys vars')))
  verify_defs-shift i (variadic ∷ ds) us sizes v k xs ys vars =
      at_variadic-shift i ds us sizes v k xs ys vars (verify_defs-shift (suc i) ds)
  verify_defs-shift i (optional ∷ ds) us sizes v k xs ys vars =
      at_variadic-shift i ds us sizes v k xs ys vars (verify_defs-shift (suc i) ds)

  at_variadic-block :
      (i : ℕ) (ds : List DefKind) (b : List ℕ) (bs : List (List ℕ)) (vars : V)
      → ((vars' : V)
          → verify_defs (suc i) ds (variadic_part ds bs) 0 0 (concat bs) vars'
            ≡ verify_blocks (suc i) bs vars')
      → at_variadic i ds (length b ∷ variadic_part ds bs) 0 0 (b ++ concat bs) vars
        ≡ (verify_block i b vars >>= λ vars'. verify_blocks (suc i) bs vars')
  unfolding ShiftsAt
  at_variadic-block i ds b bs vars rest = rw (verify_times-block i b (concat bs) vars) (
      bind-ext (verify_block i b vars) _ _ (λ vars'.
        let place : 0 + length b ≡ length b + 0 = omega arith in
        ap (λ n. verify_defs (suc i) ds (length b ∷ variadic_part ds bs) 1 n (b ++ concat bs) vars')
          place
        ∙ verify_defs-shift (suc i) ds (length b ∷ []) (variadic_part ds bs) 0 0 b (concat bs) vars'
        ∙ rest vars'))

  verify_defs-Laid :
      (i : ℕ) (ds : List DefKind) (bs : List (List ℕ)) (vars : V)
      → Laid ds bs
      → verify_defs i ds (variadic_part ds bs) 0 0 (concat bs) vars ≡ verify_blocks i bs vars
  unfolding verify_defs verify_blocks ShiftsAt
  verify_defs-Laid i [] [] vars h = refl
  verify_defs-Laid i [] (b ∷ bs) vars h = absurd h
  verify_defs-Laid i (d ∷ ds) [] vars h = absurd h
  verify_defs-Laid i (single ∷ ds) ([] ∷ bs) vars (h, hs) = absurd (omega (arith, h))
  verify_defs-Laid i (single ∷ ds) ((a ∷ c ∷ b) ∷ bs) vars (h, hs) = absurd (omega (arith, h))
  verify_defs-Laid i (single ∷ ds) ((a ∷ []) ∷ bs) vars (h, hs) =
      bind-ext (verify_arg i a vars) _ _ (λ vars'.
        verify_defs-shift (suc i) ds [] (variadic_part ds bs) 0 0 (a ∷ []) (concat bs) vars'
        ∙ verify_defs-Laid (suc i) ds bs vars' hs)
      ∙ bind-ok (verify_arg i a vars) _
  verify_defs-Laid i (variadic ∷ ds) (b ∷ bs) vars (h, hs) =
      at_variadic-block i ds b bs vars (λ vars'. verify_defs-Laid (suc i) ds bs vars' hs)
  verify_defs-Laid i (optional ∷ ds) (b ∷ bs) vars (h, hs) =
      at_variadic-block i ds b bs vars (λ vars'. verify_defs-Laid (suc i) ds bs vars' hs)

  -- Where `irdl_op_arg_definition` accepts the definitions of a construct, and `irdl_op_init` builds an
  -- operation of which no argument for that construct is `None`: `irdl_op_verify_arg_list` verifies
  -- each argument that was given exactly once, in order, against its own definition, and raises where
  -- the first of them does.
  pub irdl_op_verify_arg_list-blocks :
      (op_def : OpDef) (given : InitArgs) (op : Op) (accessors : List (ℕ × ℕ)) (vars : V)
      → irdl_op_arg_definition construct op_def ≡ ok accessors
      → irdl_op_init op_def given ≡ ok op
      → AllPresent (given_args given construct)
      → irdl_op_verify_arg_list op op_def vars
        ≡ verify_blocks 0 (blocks_of (given_args given construct)) vars
  unfolding irdl_op_verify_arg_list
  irdl_op_verify_arg_list-blocks op_def given op accessors vars h k p =
      let (laid, args, sizes) = irdl_op_init-sizes construct op_def given op accessors h k p in
      rw (sizes, args)
        (verify_defs-Laid 0 (get_construct_defs op_def construct)
          (blocks_of (given_args given construct)) vars laid)
