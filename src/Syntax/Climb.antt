-- ===== src/Syntax/Climb.antt =====
-- The loops of crates/yps-parser/src/parser/expr.rs: `parse_new_expr`, `parse_prefix` and
-- `parse_expression_with_precedence`. `limit` is `MAX_CHAIN_LEN`, and `depth` the levels that are left of
-- `MAX_PARSE_DEPTH`.
use yoptascript_rs.Prelude.{
  ℕ, zero, suc, ◌+◌, ltb, leb, ◌&&◌, Option, none, some, ◌∷◌, if◌then◌else◌, length,
}
use yoptascript_rs.Syntax.Ops.{
  UnaryOp, increment, decrement, BinaryOp, ternary_precedence, unary_precedence, binary_precedence,
  binary_is_right_assoc,
}
use yoptascript_rs.Syntax.Tokens.{
  KeywordKind, OperatorKind, PunctuationKind, Token, Tokens, keyword, operator, punctuation,
}
use yoptascript_rs.Syntax.Tree.{Expr, nil}
use yoptascript_rs.Syntax.Parse.{
  Result, ok, err, out_of_fuel, ◌>>=◌, too_long, too_deep, Parser, Prec, current, advance, is_punct,
  expect_punct, try_parse_binary_op, parse_expr, parse_arguments, parse_call, parse_index,
  parse_member, parse_optional_chain, parse_primary,
}

-- the loop over the members of the constructor's path, a round for each
unfoldable pub new_members : ℕ → Expr → Parser Expr
unfolding parse_member is_punct
new_members zero callee ts = err out_of_fuel
new_members (suc fuel) callee ts =
    if is_punct PunctuationKind.dot (current ts)
    then (parse_member callee ts >>= λ (e, rest). new_members fuel e rest)
    else ok (callee, ts)

unfoldable pub parse_new_expr : Prec → Parser Expr
unfolding parse_primary new_members parse_arguments is_punct
parse_new_expr prec ts = parse_primary prec (advance ts) >>= λ (base, path).
    new_members (suc (length path)) base path >>= λ (callee, rest).
    if is_punct PunctuationKind.l_paren (current rest)
    then (parse_arguments prec PunctuationKind.r_paren (advance rest) >>= λ (args, left).
        ok (Expr.new callee args, left))
    else ok (Expr.new callee nil, rest)

unfoldable pub unary_op_of : Token → Option UnaryOp
unary_op_of (operator OperatorKind.plus) = some UnaryOp.plus
unary_op_of (operator OperatorKind.minus) = some UnaryOp.minus
unary_op_of (operator OperatorKind.not) = some UnaryOp.not
unary_op_of (operator OperatorKind.bitwise_not) = some UnaryOp.bitwise_not
unary_op_of (keyword KeywordKind.typeof) = some UnaryOp.typeof
unary_op_of (keyword KeywordKind.delete) = some UnaryOp.delete
unary_op_of (keyword KeywordKind.void) = some UnaryOp.void
unary_op_of t = none

unfoldable pub parse_unary : Prec → UnaryOp → Parser Expr
parse_unary prec op ts =
    prec unary_precedence (advance ts) >>= λ (e, rest). ok (Expr.unary op e, rest)

unfoldable pub parse_await : Prec → Parser Expr
parse_await prec ts = prec unary_precedence (advance ts) >>= λ (e, rest). ok (Expr.await e, rest)

-- what `parse_prefix` reads in front of its loop
unfoldable pub parse_head : Prec → Parser Expr
unfolding unary_op_of parse_unary parse_await parse_new_expr parse_primary
parse_head prec (keyword KeywordKind.await ∷ ts) = parse_await prec (keyword KeywordKind.await ∷ ts)
parse_head prec (keyword KeywordKind.new ∷ ts) = parse_new_expr prec (keyword KeywordKind.new ∷ ts)
parse_head prec ts = elim (unary_op_of (current ts)) [
  | some op ↦ parse_unary prec op ts
  | none ↦ parse_primary prec ts
]

-- a round of the loop of `parse_prefix`; `none` breaks it
unfoldable pub prefix_step : Prec → Expr → Tokens → Option (Result (Expr × Tokens))
unfolding parse_call parse_index parse_member parse_optional_chain
prefix_step prec e (punctuation PunctuationKind.l_paren ∷ ts) =
    some (parse_call prec e (punctuation PunctuationKind.l_paren ∷ ts))
prefix_step prec e (punctuation PunctuationKind.l_bracket ∷ ts) =
    some (parse_index prec e (punctuation PunctuationKind.l_bracket ∷ ts))
prefix_step prec e (punctuation PunctuationKind.dot ∷ ts) =
    some (parse_member e (punctuation PunctuationKind.dot ∷ ts))
prefix_step prec e (punctuation PunctuationKind.optional_chain ∷ ts) =
    some (parse_optional_chain prec e (punctuation PunctuationKind.optional_chain ∷ ts))
prefix_step prec e (operator OperatorKind.increment ∷ ts) = some (ok (Expr.postfix increment e, ts))
prefix_step prec e (operator OperatorKind.decrement ∷ ts) = some (ok (Expr.postfix decrement e, ts))
prefix_step prec e ts = none

unfoldable pub prefix_loop : ℕ → Prec → Expr → Parser Expr
unfolding prefix_step
prefix_loop zero prec e ts = err too_long
prefix_loop (suc rounds) prec e ts = elim (prefix_step prec e ts) [
  | none ↦ ok (e, ts)
  | some step ↦ step >>= λ (e', rest). prefix_loop rounds prec e' rest
]

unfoldable pub parse_prefix : ℕ → Prec → Parser Expr
unfolding parse_head prefix_loop
parse_prefix limit prec ts = parse_head prec ts >>= λ (e, rest). prefix_loop limit prec e rest

unfoldable pub next_prec : BinaryOp → ℕ
unfolding binary_precedence binary_is_right_assoc
next_prec op = if binary_is_right_assoc op then binary_precedence op else binary_precedence op + 1

unfoldable pub parse_conditional : Prec → Expr → Parser Expr
unfolding expect_punct
parse_conditional prec condition ts = prec 0 (advance ts) >>= λ (then_expr, rest).
    expect_punct PunctuationKind.colon rest >>= λ behind.
    prec ternary_precedence behind >>= λ (else_expr, left).
    ok (Expr.conditional condition then_expr else_expr, left)

unfoldable pub parse_binary : Prec → BinaryOp → Expr → Parser Expr
unfolding next_prec
parse_binary prec op lhs ts =
    prec (next_prec op) (advance ts) >>= λ (rhs, rest). ok (Expr.binary op lhs rhs, rest)

-- a round of the loop of `parse_expression_with_precedence_inner`; `none` breaks it
unfoldable pub chain_step : Prec → ℕ → Expr → Tokens → Option (Result (Expr × Tokens))
unfolding is_punct parse_conditional parse_binary try_parse_binary_op binary_precedence
chain_step prec min_precedence lhs ts =
    if is_punct PunctuationKind.question (current ts) && leb min_precedence ternary_precedence
    then some (parse_conditional prec lhs ts)
    else elim (try_parse_binary_op (current ts)) [
      | none ↦ none
      | some op ↦
          if ltb (binary_precedence op) min_precedence
          then none
          else some (parse_binary prec op lhs ts)
    ]

unfoldable pub chain_loop : ℕ → Prec → ℕ → Expr → Parser Expr
unfolding chain_step
chain_loop zero prec min_precedence lhs ts = err too_long
chain_loop (suc rounds) prec min_precedence lhs ts = elim (chain_step prec min_precedence lhs ts) [
  | none ↦ ok (lhs, ts)
  | some step ↦ step >>= λ (e, rest). chain_loop rounds prec min_precedence e rest
]

-- `parse_expression_with_precedence_inner`
unfoldable pub parse_inner : ℕ → Prec → ℕ → Parser Expr
unfolding parse_prefix chain_loop
parse_inner limit prec min_precedence ts =
    parse_prefix limit prec ts >>= λ (lhs, rest). chain_loop limit prec min_precedence lhs rest

unfoldable pub parse_expression_with_precedence : ℕ → ℕ → Prec
unfolding parse_inner
parse_expression_with_precedence limit zero min_precedence ts = err too_deep
parse_expression_with_precedence limit (suc depth) min_precedence ts =
    parse_inner limit (parse_expression_with_precedence limit depth) min_precedence ts

abbrev pub max_parse_depth : ℕ
max_parse_depth = 200

abbrev pub max_chain_len : ℕ
max_chain_len = 10000

-- `parse_expr` of a parser at depth 0
unfoldable pub parse_expression : Parser Expr
unfolding parse_expr parse_expression_with_precedence
parse_expression = parse_expr (parse_expression_with_precedence max_chain_len max_parse_depth)
