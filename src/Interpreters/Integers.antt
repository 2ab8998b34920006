-- ===== src/Interpreters/Integers.antt =====
-- Integers of a bit width, xdsl/interpreters/comparisons.py, and the integer operations of
-- xdsl/interpreters/arith.py. The operations compute with Python's integers, which do not wrap.
pub mod Signed
pub mod Bits
use xdsl.Prelude.{ℕ, zero, suc, ◌==◌, if◌then◌else◌, ◌^◌, ◌/◌, Bool, not}
use xdsl.Prelude.Int.{ℤ, pos, ◌+ℤ◌, ◌-ℤ◌, ◌*ℤ◌, neg, mod_ℤ, ltb_ℤ, eqb_ℤ}
use xdsl.Result.{Result, ok, err, interpretation, value_error}

-- `1 << bitwidth`
unfoldable pub unsigned_upper_bound : ℕ → ℤ
unsigned_upper_bound bitwidth = pos (2 ^ bitwidth)

-- A shift by a negative count raises.
unfoldable pub signed_lower_bound : ℕ → Result ℤ
signed_lower_bound zero = err value_error
signed_lower_bound (suc bitwidth) = ok (neg (pos (2 ^ bitwidth)))

unfoldable pub signed_upper_bound : ℕ → Result ℤ
signed_upper_bound zero = err value_error
signed_upper_bound (suc bitwidth) = ok (pos (2 ^ bitwidth))

unfoldable pub to_unsigned : ℤ → ℕ → ℤ
unfolding unsigned_upper_bound
to_unsigned signless bitwidth =
    let modulus = unsigned_upper_bound bitwidth in mod_ℤ (signless +ℤ modulus) modulus

-- `modulus >> 1` is the quotient by 2.
unfoldable pub to_signed : ℤ → ℕ → ℤ
to_signed signless bitwidth =
    let modulus = 2 ^ bitwidth in
    let half_modulus = pos (modulus / 2) in
    mod_ℤ (signless +ℤ half_modulus) (pos modulus) -ℤ half_modulus

unfoldable pub run_subi : ℤ → ℤ → ℤ
run_subi lhs rhs = lhs -ℤ rhs

unfoldable pub run_addi : ℤ → ℤ → ℤ
run_addi lhs rhs = lhs +ℤ rhs

unfoldable pub run_muli : ℤ → ℤ → ℤ
run_muli lhs rhs = lhs *ℤ rhs

unfoldable pub run_cmpi : ℕ → ℤ → ℤ → Result Bool
run_cmpi predicate lhs rhs =
    if predicate == 0
    then ok (eqb_ℤ lhs rhs)
    else if predicate == 1
    then ok (not (eqb_ℤ lhs rhs))
    else if predicate == 2
    then ok (ltb_ℤ lhs rhs)
    else if predicate == 3
    then ok (not (ltb_ℤ rhs lhs))
    else if predicate == 4
    then ok (ltb_ℤ rhs lhs)
    else if predicate == 5
    then ok (not (ltb_ℤ lhs rhs))
    else if predicate == 6
    then ok (ltb_ℤ lhs rhs)
    else if predicate == 7
    then ok (not (ltb_ℤ rhs lhs))
    else if predicate == 8
    then ok (ltb_ℤ rhs lhs)
    else if predicate == 9
    then ok (not (ltb_ℤ lhs rhs))
    else err interpretation
