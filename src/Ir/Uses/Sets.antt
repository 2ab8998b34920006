-- ===== src/Ir/Uses/Sets.antt =====
-- The laws of sets of uses.
use xdsl.Prelude.{◌≡◌, refl, false, List, [], ◌∷◌, if◌then◌else◌, arith}
use xdsl.Ir.Store.{Use}
use xdsl.Ir.Uses.{same_use, has_use, without}

pub has_use-without :
    (u v : Use) (us : List Use)
    → has_use u (without v us) ≡ (if same_use u v then false else has_use u us)
unfolding has_use without
has_use-without u v [] = ground arith
has_use-without u v (w ∷ us) = ground (arith, has_use-without u v us)

pub has_use-nil : (us : List Use) → ((u : Use) → has_use u us ≡ false) → us ≡ []
unfolding has_use
has_use-nil [] h = refl
has_use-nil (v ∷ us) h = absurd (ground (arith, h v))
