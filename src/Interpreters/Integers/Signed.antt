-- ===== src/Interpreters/Integers/Signed.antt =====
-- The normalisation of integers to the signed and unsigned ranges of a bit width.
use native.Mathlib.Nat.{div-eq_of_lt, div-eq_of_lt-le}
use xdsl.Prelude.{ℕ, zero, suc, ◌≡◌, ap, ◌+◌, ◌-◌, ◌*◌, ◌^◌, ◌/◌, ◌≤◌, ◌<◌, arith}
use xdsl.Prelude.Int.{
  ℤ, pos, negsuc, ◌+ℤ◌, ◌-ℤ◌, ◌*ℤ◌, ◌≤ℤ◌, ◌<ℤ◌, neg, mod_ℤ, floor_div_ℤ, int_laws, neg_parts,
  -ℤ_parts, *ℤ_parts,
}
use xdsl.Prelude.Division.{mod_ℤ-bounds}
use xdsl.Interpreters.Integers.{to_signed, to_unsigned, unsigned_upper_bound}

-- Two integers with the same bits in a width: they differ by a multiple of 2 ^ bitwidth.
abbrev pub SameBits : ℕ → ℤ → ℤ → Type 0
SameBits bitwidth a b = (k : ℤ) × (a ≡ b +ℤ k *ℤ pos (2 ^ bitwidth))

power_pos : (w : ℕ) → 0 < 2 ^ w
power_pos zero = omega arith
power_pos (suc w) = let rest = power_pos w in omega arith

half_power : (n : ℕ) → 2 ^ suc n ≡ 2 ^ n + 2 ^ n
half_power n = omega arith

mod_ℤ-shift : (a : ℤ) (h m : ℕ) → (k : ℤ) × (mod_ℤ (a +ℤ pos h) (pos m) -ℤ pos h ≡ a +ℤ k *ℤ pos m)
unfolding mod_ℤ
mod_ℤ-shift a h m =
    let q = floor_div_ℤ (a +ℤ pos h) (pos m) in
    (
      neg q,
      omega (
        int_laws,
        *ℤ_parts q (pos m),
        *ℤ_parts (neg q) (pos m),
        ap (λ (t : ℕ). t * m) (neg_parts q),
      ),
    )

mod_ℤ-add : (a : ℤ) (m : ℕ) → (k : ℤ) × (mod_ℤ (a +ℤ pos m) (pos m) ≡ a +ℤ k *ℤ pos m)
unfolding mod_ℤ
mod_ℤ-add a m =
    let q = floor_div_ℤ (a +ℤ pos m) (pos m) in
    let k = pos 1 -ℤ q in
    (
      k,
      omega (
        int_laws,
        *ℤ_parts q (pos m),
        *ℤ_parts k (pos m),
        ap (λ (t : ℕ). t * m) (-ℤ_parts (pos 1) q),
      ),
    )

-- In every positive width, `to_signed` gives an integer with the bits of its argument, at least
-- -2^(width - 1) and below 2^(width - 1), whatever the argument, and `to_unsigned` one with the same
-- bits, at least 0 and below 2^width.
pub to_signed-SameBits :
    (a : ℤ) (n : ℕ)
    → (SameBits (suc n) (to_signed a (suc n)) a
        × (neg (pos (2 ^ n)) ≤ℤ to_signed a (suc n))
        × (to_signed a (suc n) <ℤ pos (2 ^ n)))
      × SameBits (suc n) (to_unsigned a (suc n)) a
      × (pos 0 ≤ℤ to_unsigned a (suc n))
      × (to_unsigned a (suc n) <ℤ pos (2 ^ suc n))
unfolding to_signed to_unsigned unsigned_upper_bound
to_signed-SameBits a n =
    let m = 2 ^ suc n in
    let p = power_pos (suc n) in
    let h : m / 2 ≡ 2 ^ n = omega arith in
    let (k, e) = mod_ℤ-shift a (m / 2) m in
    let (low, high) = mod_ℤ-bounds (a +ℤ pos (m / 2)) m p in
    let (low', high') = mod_ℤ-bounds (a +ℤ pos m) m p in
    (((k, e), omega (int_laws, h), omega (int_laws, h)), mod_ℤ-add a m, low', high')

mod_ℤ-small :
    (v m : ℕ) → v < m → (mod_ℤ (pos v) (pos m) ≡ pos v) × (mod_ℤ (pos (v + m)) (pos m) ≡ pos v)
unfolding mod_ℤ floor_div_ℤ ◌-ℤ◌ ◌*ℤ◌
mod_ℤ-small v m h =
    let e : v / m ≡ 0 = div-eq_of_lt h in
    let e' : (v + m) / m ≡ 1 = div-eq_of_lt-le m (omega arith) (omega arith) in
    (ground (arith, e), ground (arith, e'))

-- The additions and remainders of the two functions, one after the other.
two_steps :
    (a : ℤ) (m h : ℕ) {x y z w : ℤ}
    → a +ℤ pos m ≡ x
    → mod_ℤ x (pos m) ≡ y
    → y +ℤ pos h ≡ z
    → mod_ℤ z (pos m) ≡ w
    → w -ℤ pos h ≡ a
    → mod_ℤ (mod_ℤ (a +ℤ pos m) (pos m) +ℤ pos h) (pos m) -ℤ pos h ≡ a
two_steps a m h e f g i j = cc

-- In every positive width, `to_signed` brings back an integer of the signed range from what
-- `to_unsigned` made of it.
pub to_signed-to_unsigned :
    (a : ℤ) (n : ℕ)
    → neg (pos (2 ^ n)) ≤ℤ a
    → a <ℤ pos (2 ^ n)
    → to_signed (to_unsigned a (suc n)) (suc n) ≡ a
unfolding to_signed to_unsigned unsigned_upper_bound
to_signed-to_unsigned (pos v) n low high =
    let m = 2 ^ suc n in
    let h : m / 2 + m / 2 ≡ m = omega arith in
    let small : v < m / 2 = omega arith in
    let (_, e) = mod_ℤ-small v m (omega arith) in
    let (e', _) = mod_ℤ-small (v + m / 2) m (omega arith) in
    two_steps (pos v) m (m / 2) (omega int_laws) e (omega int_laws) e' (omega int_laws)
to_signed-to_unsigned (negsuc v) n low high =
    let m = 2 ^ suc n in
    let h : m / 2 + m / 2 ≡ m = omega arith in
    let half : m / 2 ≡ 2 ^ n = omega arith in
    let small : suc v ≤ m / 2 = omega (int_laws, half) in
    let (e, _) = mod_ℤ-small (m - suc v) m (omega arith) in
    let (_, e') = mod_ℤ-small (m / 2 - suc v) m (omega arith) in
    two_steps (negsuc v) m (m / 2) (omega int_laws) e (omega int_laws) e' (omega int_laws)
