-- ===== src/Prelude/Dict.antt =====
-- Python's `dict` with numbers for its keys: an association list in the order of insertion.
use Prim.Native.Nat.{ℕ}
use mathlib.Core.Path.{◌≡◌, refl}
use mathlib.Core.Logic.{◌≢◌}
use mathlib.Core.List.{List, [], ◌∷◌}
use mathlib.Core.Option.{Option, none, some}
use native.Mathlib.Omega.{arith}
use xdsl.Prelude.Tests.{◌==◌, if◌then◌else◌}

abbrev pub Dict {ℓ} : Type ℓ → Type ℓ
Dict V = List (ℕ × V)

module _ {ℓ} {V : Type ℓ} where
  abbrev pub lookup : ℕ → Dict V → Option V
  lookup k [] = none
  lookup k ((k', v) ∷ d) = if k == k' then some v else lookup k d

  -- `d[k] = v`: a key that is there keeps its place.
  unfoldable pub insert : ℕ → V → Dict V → Dict V
  insert k v [] = (k, v) ∷ []
  insert k v ((k', v') ∷ d) = if k == k' then (k', v) ∷ d else (k', v') ∷ insert k v d

  -- `del d[k]`, for a key that is there.
  unfoldable pub delete : ℕ → Dict V → Dict V
  delete k [] = []
  delete k ((k', v) ∷ d) = if k == k' then d else (k', v) ∷ delete k d

  pub lookup-insert :
      (j k : ℕ) (v : V) (d : Dict V)
      → lookup j (insert k v d) ≡ (if j == k then some v else lookup j d)
  unfolding insert
  lookup-insert j k v [] = refl
  lookup-insert j k v ((k', v') ∷ d) = ground (arith, lookup-insert j k v d)

-- A number that is not in a list, and a list without repetitions.
abbrev pub Absent : ℕ → List ℕ → Type 0
Absent n [] = Unit
Absent n (x ∷ xs) = (n ≢ x) × Absent n xs

abbrev pub Distinct : List ℕ → Type 0
Distinct [] = Unit
Distinct (x ∷ xs) = Absent x xs × Distinct xs

-- The keys of a dictionary in their order.
abbrev pub keys {ℓ} : {V : Type ℓ} → Dict V → List ℕ
keys [] = []
keys ((k, v) ∷ d) = k ∷ keys d

module _ {ℓ} {V : Type ℓ} where
  pub lookup-Absent : (k : ℕ) (d : Dict V) → Absent k (keys d) → lookup k d ≡ none
  lookup-Absent k [] a = refl
  lookup-Absent k ((k', v) ∷ d) (n, a) = ground (arith, n, lookup-Absent k d a)

  pub lookup-delete :
      (j k : ℕ) (d : Dict V)
      → Distinct (keys d)
      → lookup j (delete k d) ≡ (if j == k then none else lookup j d)
  unfolding delete
  lookup-delete j k [] h = ground arith
  lookup-delete j k ((k', v) ∷ d) (a, h) =
      ground (arith, lookup-delete j k d h, lookup-Absent k' d a)

  pub delete-Absent : (j k : ℕ) (d : Dict V) → Absent j (keys d) → Absent j (keys (delete k d))
  unfolding delete
  delete-Absent j k [] a = tt
  delete-Absent j k ((k', v) ∷ d) (n, a) = ground (arith, n, a, delete-Absent j k d a)

  pub delete-Distinct : (k : ℕ) (d : Dict V) → Distinct (keys d) → Distinct (keys (delete k d))
  unfolding delete
  delete-Distinct k [] h = tt
  delete-Distinct k ((k', v) ∷ d) (a, h) =
      ground (arith, h, delete-Absent k' k d a, delete-Distinct k d h)

  pub insert-Absent_other :
      (j k : ℕ) (v : V) (d : Dict V) → Absent j (keys d) → j ≢ k → Absent j (keys (insert k v d))
  unfolding insert
  insert-Absent_other j k v [] a n = (n, tt)
  insert-Absent_other j k v ((k', v') ∷ d) (m, a) n =
      ground (arith, m, a, n, insert-Absent_other j k v d a n)

  pub insert-Distinct :
      (k : ℕ) (v : V) (d : Dict V) → Distinct (keys d) → Distinct (keys (insert k v d))
  unfolding insert
  insert-Distinct k v [] h = (tt, tt)
  insert-Distinct k v ((k', v') ∷ d) (a, h) =
      ground (arith, a, h, insert-Distinct k v d h, insert-Absent_other k' k v d a)
