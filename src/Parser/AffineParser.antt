-- ===== src/Parser/AffineParser.antt =====
-- `AffineParser` of xdsl/parser/affine_parser.py, for affine expressions and maps. The mutual recursion
-- runs on fuel.
use xdsl.Prelude.{
  ℕ, zero, suc, Bool, false, Option, none, some, List, [], ◌∷◌, length, ltb, if◌then◌else◌,
}
use xdsl.Prelude.Int.{pos}
use xdsl.Result.{Result, ok, err, parse_error, out_of_fuel}
use xdsl.Lexer.Kind.{Kind, Token, text_eq}
use xdsl.Lexer.State.{Chars}
use xdsl.Affine.Expr.{AffineExpr, constant, dimension, symbol}
use xdsl.Affine.Arith.{
  add_expr, sub_expr, mul_expr, neg_expr, ceil_div_expr, floor_div_expr, mod_expr,
}
use xdsl.Affine.Map.{AffineMap}
use xdsl.Parser.{
  P, ◌>>=◌, ◌>>◌, pure, raise, Delimiter, same_kind, consume_token, parse_token,
  parse_optional_token, parse_comma_separated_list,
}
use xdsl.Parser.Literals.{Builtins, lift, token_text, get_int_value}

-- `dims.index(text)`
unfoldable pub index_of : List ℕ → List (List ℕ) → Option ℕ
unfolding text_eq
index_of name [] = none
index_of name (x ∷ xs) =
    if text_eq name x
    then some 0
    else elim (index_of name xs) [ none ↦ none | some i ↦ some (suc i) ]

-- What the operators do.
pub data BinOp : Type 0 where
  plus minus times ceildiv floordiv mod_op : BinOp

-- The texts of the operators
unfoldable pub find_binop : List ℕ → Option BinOp
unfolding text_eq
find_binop t =
    if text_eq t (b'+' ∷ [])
    then some plus
    else if text_eq t (b'-' ∷ [])
    then some minus
    else if text_eq t (b'*' ∷ [])
    then some times
    else if text_eq t (b'c' ∷ b'e' ∷ b'i' ∷ b'l' ∷ b'd' ∷ b'i' ∷ b'v' ∷ [])
    then some ceildiv
    else if text_eq t (b'f' ∷ b'l' ∷ b'o' ∷ b'o' ∷ b'r' ∷ b'd' ∷ b'i' ∷ b'v' ∷ [])
    then some floordiv
    else if text_eq t (b'm' ∷ b'o' ∷ b'd' ∷ [])
    then some mod_op
    else none

-- `_BINOP_PRECEDENCE`; what has none is -1 in the code.
unfoldable pub precedence : Option BinOp → Option ℕ
precedence none = none
precedence (some plus) = some 10
precedence (some minus) = some 10
precedence (some times) = some 20
precedence (some ceildiv) = some 20
precedence (some floordiv) = some 20
precedence (some mod_op) = some 20

-- `tok_prec < next_prec`
abbrev binds_less : ℕ → Option ℕ → Bool
binds_less tok_prec none = false
binds_less tok_prec (some next_prec) = ltb tok_prec next_prec

unfoldable pub create_binop_expr : AffineExpr → AffineExpr → Option BinOp → Result AffineExpr
unfolding add_expr sub_expr mul_expr ceil_div_expr floor_div_expr mod_expr
create_binop_expr lhs rhs none = err parse_error
create_binop_expr lhs rhs (some plus) = add_expr lhs rhs
create_binop_expr lhs rhs (some minus) = sub_expr lhs rhs
create_binop_expr lhs rhs (some times) = mul_expr lhs rhs
create_binop_expr lhs rhs (some ceildiv) = ceil_div_expr lhs rhs
create_binop_expr lhs rhs (some floordiv) = floor_div_expr lhs rhs
create_binop_expr lhs rhs (some mod_op) = mod_expr lhs rhs

module _ (chars : Chars) (builtins : Builtins) where
  unfoldable pub get_token_precedence : P (Option ℕ)
  unfolding token_text find_binop precedence
  get_token_precedence p = ok (precedence (find_binop (token_text p.current_token)), p)

  module _ (dims syms : List (List ℕ)) where
    -- The expression of a name.
    unfoldable pub named_expr : Option ℕ → Option ℕ → P AffineExpr
    named_expr (some i) sym = pure (dimension i)
    named_expr none (some i) = pure (symbol i)
    named_expr none none = raise parse_error

    -- The cases of `_parse_primary`, one after the other; `again` is the method itself, `expr` the
    -- method for expressions.
    unfoldable pub primary_minus : P AffineExpr → Option Token → P AffineExpr
    unfolding neg_expr
    primary_minus again none = raise parse_error
    primary_minus again (some token) = do operand ← again; lift (neg_expr operand)

    unfoldable pub primary_integer : P AffineExpr → Option Token → P AffineExpr
    unfolding primary_minus get_int_value parse_optional_token
    primary_integer again (some int_lit) = do
      value ← lift (get_int_value chars builtins int_lit)
      pure (constant (pos value))
    primary_integer again none = parse_optional_token chars Kind.minus >>= primary_minus again

    unfoldable pub primary_name : P AffineExpr → Option Token → P AffineExpr
    unfolding primary_integer index_of named_expr token_text parse_optional_token
    primary_name again (some bare_id) =
        let name = token_text bare_id in named_expr (index_of name dims) (index_of name syms)
    primary_name again none = parse_optional_token chars Kind.integer_lit >>= primary_integer again

    unfoldable pub primary_paren : P AffineExpr → P AffineExpr → Option Token → P AffineExpr
    unfolding primary_name parse_token parse_optional_token
    primary_paren again expr (some token) = do
      inner ← expr
      parse_token chars Kind.r_paren
      pure inner
    primary_paren again expr none =
        parse_optional_token chars Kind.bare_ident >>= primary_name again

    -- One turn of the loop of `_parse_binop_rhs`; `loop` is the method with less fuel.
    unfoldable pub binop_turn :
        (AffineExpr → ℕ → P AffineExpr) → P AffineExpr → AffineExpr → ℕ → Option ℕ → P AffineExpr
    unfolding create_binop_expr get_token_precedence consume_token token_text find_binop
    binop_turn loop primary lhs prec none = pure lhs
    binop_turn loop primary lhs prec (some tok_prec) = if ltb tok_prec prec then pure lhs else (do
      binop ← consume_token chars
      rhs ← primary
      next_prec ← get_token_precedence
      rhs' ← (if binds_less tok_prec next_prec then loop rhs (suc tok_prec) else pure rhs)
      lhs' ← lift (create_binop_expr lhs rhs' (find_binop (token_text binop)))
      loop lhs' prec)

    unfoldable pub parse_binop_rhs : ℕ → P AffineExpr → AffineExpr → ℕ → P AffineExpr
    unfolding binop_turn get_token_precedence
    parse_binop_rhs zero primary lhs prec = raise out_of_fuel
    parse_binop_rhs (suc fuel) primary lhs prec =
        get_token_precedence >>= binop_turn (parse_binop_rhs fuel primary) primary lhs prec

    unfoldable pub expr_from : ℕ → P AffineExpr → P AffineExpr
    unfolding parse_binop_rhs
    expr_from fuel primary = do lhs ← primary; parse_binop_rhs fuel primary lhs 0

    unfoldable pub parse_primary : ℕ → P AffineExpr
    unfolding expr_from primary_paren parse_optional_token
    parse_primary zero = raise out_of_fuel
    parse_primary (suc fuel) =
        let again = parse_primary fuel in
        parse_optional_token chars Kind.l_paren >>= primary_paren again (expr_from fuel again)

    unfoldable pub parse_affine_expr : ℕ → P AffineExpr
    unfolding parse_primary expr_from
    parse_affine_expr fuel = expr_from fuel (parse_primary fuel)

    unfoldable pub parse_multi_affine_expr : ℕ → P (List AffineExpr)
    unfolding parse_affine_expr parse_comma_separated_list
    parse_multi_affine_expr fuel =
        parse_comma_separated_list chars fuel Delimiter.paren (parse_affine_expr fuel)

  unfoldable pub parse_id : P (List ℕ)
  unfolding parse_token token_text
  parse_id = do token ← parse_token chars Kind.bare_ident; pure (token_text token)

  unfoldable pub parse_symbols : ℕ → P (List (List ℕ))
  unfolding parse_id parse_comma_separated_list
  parse_symbols fuel p =
      if same_kind p.current_token.kind Kind.l_square
      then parse_comma_separated_list chars fuel Delimiter.square parse_id p
      else ok ([], p)

  unfoldable pub parse_affine_space : ℕ → P (List (List ℕ) × List (List ℕ))
  unfolding parse_symbols parse_id parse_comma_separated_list
  parse_affine_space fuel = do
    dims ← parse_comma_separated_list chars fuel Delimiter.paren parse_id
    syms ← parse_symbols fuel
    pure (dims, syms)

  unfoldable pub parse_affine_map : ℕ → P AffineMap
  unfolding parse_affine_space parse_multi_affine_expr parse_token
  parse_affine_map fuel = do
    (dims, syms) ← parse_affine_space fuel
    parse_token chars Kind.arrow
    exprs ← parse_multi_affine_expr dims syms fuel
    pure (record { num_dims = length dims; num_symbols = length syms; results = exprs })
