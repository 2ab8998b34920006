-- ===== src/Passes/Items.antt =====
-- Dictionaries from which several keys are deleted, and to which several items are added.
use xdsl.Prelude.{
  ℕ, ◌≡◌, refl, ◌≢◌, ◌∙◌, ap, sym, List, [], ◌∷◌, ◌++◌, append-nil, append_assoc, none, arith,
}
use xdsl.Prelude.Dict.{Dict, lookup, insert, delete, keys, Absent, Distinct, delete-Distinct}
use xdsl.Result.{guard, value_error}
use xdsl.Passes.Hints.{all, in_list}
use xdsl.Passes.Spec.{no_arguments_left}

-- Dictionaries from which several keys are deleted, and to which several items are added.
module _ {ℓ} {V : Type ℓ} where
  abbrev pub delete_all : List ℕ → Dict V → Dict V
  delete_all [] d = d
  delete_all (k ∷ ks) d = delete_all ks (delete k d)

  abbrev pub insert_all : Dict V → Dict V → Dict V
  insert_all [] d = d
  insert_all ((k, v) ∷ items) d = insert_all items (insert k v d)

  abbrev AbsentAll : List ℕ → Dict V → Type 0
  AbsentAll [] d = Unit
  AbsentAll (k ∷ ks) d = Absent k (keys d) × AbsentAll ks d

  pub delete-none : (k : ℕ) (d : Dict V) → lookup k d ≡ none → delete k d ≡ d
  unfolding delete
  delete-none k [] h = refl
  delete-none k ((k', v) ∷ d) h = ground (arith, delete-none k d)

  insert-Absent :
      (k : ℕ) (v : V) (d : Dict V) → Absent k (keys d) → insert k v d ≡ d ++ ((k, v) ∷ [])
  unfolding insert
  insert-Absent k v [] a = refl
  insert-Absent k v ((k', v') ∷ d) (n, a) = ground (arith, n, insert-Absent k v d a)

  Absent-snoc :
      (j k : ℕ) (v : V) (d : Dict V)
      → Absent j (keys d)
      → j ≢ k
      → Absent j (keys (d ++ ((k, v) ∷ [])))
  Absent-snoc j k v [] a n = (n, tt)
  Absent-snoc j k v ((k', v') ∷ d) (m, a) n = (m, Absent-snoc j k v d a n)

  AbsentAll-snoc :
      (ks : List ℕ) (k : ℕ) (v : V) (d : Dict V)
      → AbsentAll ks d
      → Absent k ks
      → AbsentAll ks (d ++ ((k, v) ∷ []))
  AbsentAll-snoc [] k v d h a = tt
  AbsentAll-snoc (j ∷ ks) k v d (h, hs) (n, a) =
      (Absent-snoc j k v d h (λ e. n (sym e)), AbsentAll-snoc ks k v d hs a)

  insert_all-append :
      (items d : Dict V)
      → Distinct (keys items)
      → AbsentAll (keys items) d
      → insert_all items d ≡ d ++ items
  insert_all-append [] d h a = sym (append-nil d)
  insert_all-append ((k, v) ∷ items) d (n, h) (a, as_) = rw (insert-Absent k v d a) (
      insert_all-append items (d ++ ((k, v) ∷ [])) h (AbsentAll-snoc (keys items) k v d as_ n)
      ∙ append_assoc d ((k, v) ∷ []) items)

  AbsentAll-nil : (items : Dict V) → AbsentAll (keys items) []
  AbsentAll-nil [] = tt
  AbsentAll-nil (kv ∷ items) = (tt, AbsentAll-nil items)

  pub insert_all-nil : (items : Dict V) → Distinct (keys items) → insert_all items [] ≡ items
  insert_all-nil items h = insert_all-append items [] h (AbsentAll-nil items)

  -- A key deleted is a key that need not be looked for.
  all-in_skip :
      (k : ℕ) (ns : List ℕ) (d : Dict V)
      → Absent k (keys d)
      → all (λ j. in_list j (k ∷ ns)) (keys d) ≡ all (λ j. in_list j ns) (keys d)
  all-in_skip k ns [] a = refl
  all-in_skip k ns ((j, v) ∷ d) (n, a) = ground (arith, n, all-in_skip k ns d a)

  all-in_delete :
      (k : ℕ) (ns : List ℕ) (d : Dict V)
      → Distinct (keys d)
      → all (λ j. in_list j ns) (keys (delete k d)) ≡ all (λ j. in_list j (k ∷ ns)) (keys d)
  unfolding delete
  all-in_delete k ns [] h = refl
  all-in_delete k ns ((j, v) ∷ d) (a, h) =
      ground (arith, all-in_skip j ns d a, all-in_skip k ns d, all-in_delete k ns d h)

  pub no_arguments_left-all :
      (ns : List ℕ) (d : Dict V)
      → Distinct (keys d)
      → no_arguments_left (delete_all ns d) ≡ guard (all (λ j. in_list j ns) (keys d)) value_error
  no_arguments_left-all [] [] h = refl
  no_arguments_left-all [] (kv ∷ d) h = refl
  no_arguments_left-all (n ∷ ns) d h =
      no_arguments_left-all ns (delete n d) (delete-Distinct n d h)
      ∙ ap (λ b. guard b value_error) (all-in_delete n ns d h)
