-- ===== src/Lexer/Matches.antt =====
-- How far the regular expressions of xdsl/utils/lexer.py match: not past the text.
use xdsl.Prelude.{
  ℕ, ◌+◌, ◌≤◌, ◌≡◌, inl, inr, Bool, some, List, [], ◌∷◌, length, arith, Option-cases,
}
use xdsl.Prelude.Slices.{drop, length-drop}
use xdsl.Lexer.Regex.{
  match_star, match_whitespace, match_suffix_id, match_fractional_suffix, match_exponent,
  match_exponent_digits, is_digit, is_suffix_char, whitespace_step,
}

pub match_star-le : (p : ℕ → Bool) (cs : List ℕ) → match_star p cs ≤ length cs
unfolding match_star
match_star-le p [] = omega arith
match_star-le p (c ∷ cs) = ground (arith, match_star-le p cs)

pub match_whitespace-le : (b : Bool) (cs : List ℕ) → match_whitespace b cs ≤ length cs
unfolding match_whitespace
match_whitespace-le b [] = omega arith
match_whitespace-le b (c ∷ cs) = elim (Option-cases (whitespace_step b c cs)) [
  | inl e ↦ rw (e, match_whitespace) (omega arith)
  | inr (b', e) ↦ rw (e, match_whitespace) (omega (arith, match_whitespace-le b' cs))
]

pub match_suffix_id-le : (cs : List ℕ) (n : ℕ) → match_suffix_id cs ≡ some n → n ≤ length cs
unfolding match_suffix_id
match_suffix_id-le [] n h = cc
match_suffix_id-le (c ∷ cs) n h =
    ground (arith, h, match_star-le is_digit cs, match_star-le is_suffix_char cs)

pub match_exponent_digits-le : (n : ℕ) (cs : List ℕ) → match_exponent_digits n cs ≤ n + length cs
unfolding match_exponent_digits
match_exponent_digits-le n cs = ground (arith, match_star-le is_digit cs)

pub match_exponent-le : (cs : List ℕ) → match_exponent cs ≤ length cs
unfolding match_exponent
match_exponent-le [] = omega arith
match_exponent-le (e ∷ []) = omega arith
match_exponent-le (e ∷ c ∷ cs) =
    ground (arith, match_exponent_digits-le 2 cs, match_exponent_digits-le 1 (c ∷ cs))

pub match_fractional_suffix-le :
    (cs : List ℕ) (n : ℕ) → match_fractional_suffix cs ≡ some n → n ≤ length cs
unfolding match_fractional_suffix
match_fractional_suffix-le [] n h = cc
match_fractional_suffix-le (c ∷ cs) n h =
    let digits = match_star is_digit cs in
    ground (
      arith,
      h,
      match_star-le is_digit cs,
      match_exponent-le (drop digits cs),
      length-drop digits cs,
    )
