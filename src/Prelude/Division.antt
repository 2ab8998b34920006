-- ===== src/Prelude/Division.antt =====
-- The bounds of Python's `//` and `%`, by divisors of both signs.
use Prim.Native.Nat.{ℕ, zero, suc, ◌<◌}
use mathlib.Core.Path.{◌≡◌, refl}
use mathlib.Core.Logic.{◌≢◌, ◌⊎◌, inl, inr}
use native.Mathlib.Omega.{arith}
use xdsl.Prelude.Int.{ℤ, pos, negsuc, ◌+ℤ◌, ◌*ℤ◌, ◌≤ℤ◌, ◌<ℤ◌, floor_div_ℤ, mod_ℤ, int_laws}

-- Python's `//` by a positive number rounds down.
floor_div_ℤ-bounds :
    (a : ℤ) (m : ℕ) → 0 < m → let p = floor_div_ℤ a (pos m) *ℤ pos m in (p ≤ℤ a) × (a <ℤ p +ℤ pos m)
unfolding floor_div_ℤ ◌+ℤ◌ ◌*ℤ◌
floor_div_ℤ-bounds (pos n) m h = (ground arith, ground arith)
floor_div_ℤ-bounds (negsuc n) m h = (ground arith, ground arith)

-- The remainder by a positive number is not negative and below it.
pub mod_ℤ-bounds : (a : ℤ) (m : ℕ) → 0 < m → (pos 0 ≤ℤ mod_ℤ a (pos m)) × (mod_ℤ a (pos m) <ℤ pos m)
unfolding mod_ℤ
mod_ℤ-bounds a m h = let (low, high) = floor_div_ℤ-bounds a m h in (omega int_laws, omega int_laws)

-- By a negative number it rounds down too, so that the product is not below.
floor_div_ℤ-negative_bounds :
    (a : ℤ) (m : ℕ)
    → let p = floor_div_ℤ a (negsuc m) *ℤ negsuc m in (a ≤ℤ p) × (p +ℤ negsuc m <ℤ a)
unfolding floor_div_ℤ ◌+ℤ◌ ◌*ℤ◌
floor_div_ℤ-negative_bounds (pos n) m = (ground arith, ground arith)
floor_div_ℤ-negative_bounds (negsuc n) m = (ground arith, ground arith)

-- `m` is a remainder by `c`: it has the sign of `c` or is zero, and is nearer to zero.
abbrev pub IsRemainder : ℤ → ℤ → Type 0
IsRemainder c m = ((pos 0 ≤ℤ m) × (m <ℤ c)) ⊎ ((c <ℤ m) × (m ≤ℤ pos 0))

pub mod_ℤ-IsRemainder : (a c : ℤ) → c ≢ pos 0 → IsRemainder c (mod_ℤ a c)
unfolding mod_ℤ
mod_ℤ-IsRemainder a (pos zero) h = absurd (h refl)
mod_ℤ-IsRemainder a (pos (suc m)) h = inl (mod_ℤ-bounds a (suc m) (omega arith))
mod_ℤ-IsRemainder a (negsuc m) h =
    let (low, high) = floor_div_ℤ-negative_bounds a m in inr (omega int_laws, omega int_laws)

pub floor_div_ℤ-mod_ℤ : (a c : ℤ) → a ≡ floor_div_ℤ a c *ℤ c +ℤ mod_ℤ a c
unfolding mod_ℤ
floor_div_ℤ-mod_ℤ a c = omega int_laws
