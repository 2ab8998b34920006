-- ===== src/Examples/InterpretersExamples.antt =====
-- Integers of four bits, and an array of two rows and three columns.
use xdsl.Prelude.{ℕ, ◌≡◌, refl, ◌⊎◌, ◌<◌, List, [], ◌∷◌, length, arith}
use xdsl.Prelude.Int.{pos, negsuc, neg, ◌≤ℤ◌, ◌<ℤ◌, ◌*ℤ◌, ◌+ℤ◌}
use xdsl.Result.{ok}
use xdsl.Interpreters.Integers.{to_signed, to_unsigned}
use xdsl.Interpreters.Integers.Signed.{SameBits, to_signed-SameBits}
use xdsl.Interpreters.ShapedArray.{ShapedArray, of_list, offset, load, store, prod}
use xdsl.Interpreters.ShapedArray.Offset.{offset-injective, load-store}

to_signed-SameBits_example :
    (SameBits 4 (to_signed (pos 11) 4) (pos 11)
      × (neg (pos 8) ≤ℤ to_signed (pos 11) 4)
      × (to_signed (pos 11) 4 <ℤ pos 8))
    × SameBits 4 (to_unsigned (pos 11) 4) (pos 11)
    × (pos 0 ≤ℤ to_unsigned (pos 11) 4)
    × (to_unsigned (pos 11) 4 <ℤ pos 16)
to_signed-SameBits_example = to_signed-SameBits (pos 11) 3

eleven-SameBits : SameBits 4 (pos 11) (negsuc 4)
unfolding ◌+ℤ◌ ◌*ℤ◌
eleven-SameBits = (pos 1, refl)

abbrev matrix : ShapedArray ℕ
matrix = of_list (0 ∷ 1 ∷ 2 ∷ 3 ∷ 4 ∷ 5 ∷ []) (2 ∷ 3 ∷ [])

abbrev corner : List ℕ
corner = 1 ∷ 2 ∷ []

offset-injective_example :
    ((n : ℕ) × (offset (1 ∷ 2 ∷ []) matrix ≡ ok n) × (n < prod (2 ∷ 3 ∷ [])))
    × (corner ≡ (1 ∷ 2 ∷ []))
offset-injective_example =
    offset-injective matrix (1 ∷ 2 ∷ []) (1 ∷ 2 ∷ []) (omega arith, (omega arith, tt))
      (omega arith, (omega arith, tt)) refl

load-store_example :
    (after : ShapedArray ℕ) × (store (1 ∷ 2 ∷ []) 9 matrix ≡ ok after)
    × (after.shape ≡ (2 ∷ 3 ∷ []))
    × (length after.data_list ≡ prod (2 ∷ 3 ∷ []))
    × (load (1 ∷ 2 ∷ []) after ≡ ok 9)
    × ((corner ≡ (0 ∷ 2 ∷ [])) ⊎ (load (0 ∷ 2 ∷ []) after ≡ load (0 ∷ 2 ∷ []) matrix))
unfolding prod
load-store_example =
    load-store matrix (1 ∷ 2 ∷ []) (0 ∷ 2 ∷ []) 9 refl (omega arith, (omega arith, tt))
      (omega arith, (omega arith, tt))
