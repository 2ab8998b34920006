-- ===== src/Interpreters/Integers/Bits.antt =====
-- What the operations of xdsl/interpreters/arith.py do to the bits of a width.
use xdsl.Prelude.{ℕ, ◌≡◌, ap, ◌+◌, ◌*◌, ◌^◌, ◌≤◌, arith}
use xdsl.Prelude.Int.{
  ℤ, pos, pos_part, neg_part, ◌+ℤ◌, ◌-ℤ◌, int_laws, +ℤ_parts, -ℤ_parts, *ℤ_parts,
}
use xdsl.Interpreters.Integers.{run_addi, run_subi, run_cmpi}
use xdsl.Interpreters.Integers.Signed.{SameBits}

-- Adding and subtracting integers with the same bits gives integers with the same bits, so that
-- not wrapping does not show in the bits of the result.
pub run_addi-SameBits :
    (bitwidth : ℕ) (a a' b b' : ℤ)
    → SameBits bitwidth a a'
    → SameBits bitwidth b b'
    → SameBits bitwidth (run_addi a b) (run_addi a' b')
      × SameBits bitwidth (run_subi a b) (run_subi a' b')
unfolding run_addi run_subi
run_addi-SameBits bitwidth a a' b b' (k, e) (l, f) =
    let m = 2 ^ bitwidth in
    let ks = *ℤ_parts k (pos m) in
    let ls = *ℤ_parts l (pos m) in
    let e₁ = ap pos_part e in
    let e₂ = ap neg_part e in
    let f₁ = ap pos_part f in
    let f₂ = ap neg_part f in
    (
      (
        k +ℤ l,
        omega (
          int_laws,
          ks,
          ls,
          *ℤ_parts (k +ℤ l) (pos m),
          ap (λ (t : ℕ). t * m) (+ℤ_parts k l),
          e₁,
          e₂,
          f₁,
          f₂,
        ),
      ),
      (
        k -ℤ l,
        omega (
          int_laws,
          ks,
          ls,
          *ℤ_parts (k -ℤ l) (pos m),
          ap (λ (t : ℕ). t * m) (-ℤ_parts k l),
          e₁,
          e₂,
          f₁,
          f₂,
        ),
      ),
    )

-- The predicates `ult`, `ule`, `ugt` and `uge` compare as `slt`, `sle`, `sgt` and `sge` do, at all
-- integers, negative ones included.
pub run_cmpi-unsigned :
    (predicate : ℕ) (lhs rhs : ℤ)
    → 2 ≤ predicate
    → predicate ≤ 5
    → run_cmpi (predicate + 4) lhs rhs ≡ run_cmpi predicate lhs rhs
unfolding run_cmpi
run_cmpi-unsigned predicate lhs rhs h g = ground arith
