-- ===== src/Syntax/Tests.antt =====
-- Expressions parsed and printed: crates/yps-parser and crates/yps-fmt.
use yoptascript_rs.Prelude.{ℕ, ◌≡◌, ◌≢◌, ◌<◌, refl, false, List, [], ◌∷◌, ◌++◌, arith, length}
use yoptascript_rs.Syntax.Ops.{BinaryOp, UnaryOp, increment}
use yoptascript_rs.Syntax.Tokens.{
  OperatorKind, operator, OperatorKind, PunctuationKind, Tokens, identifier, operator, punctuation,
}
use yoptascript_rs.Syntax.Tree.{Expr, nil, cons}
use yoptascript_rs.Syntax.Parse.{out_of_fuel, unexpected_token, ok, err}
use yoptascript_rs.Syntax.Print.{print_expr}
use yoptascript_rs.Syntax.Climb.{parse_expression}
use yoptascript_rs.Syntax.Quote.{unescape_string, strip_delimiters, quote_string}
use yoptascript_rs.Syntax.Quoted.{unescape_string-quote_string}
use yoptascript_rs.Syntax.Shape.{ungroup, regroup, IsPrintable, height, size}
use yoptascript_rs.Syntax.Follow.{follows}
use yoptascript_rs.Syntax.Format.{
  format_reads_back, format_idempotent, format_moves_member, is_access,
}
use yoptascript_rs.Syntax.Ends.{parse_expression_ends}

abbrev name : List ℕ
name = b'a' ∷ []

abbrev a : Expr
a = Expr.identifier name

abbrev semicolon : Tokens
semicolon = punctuation PunctuationKind.semicolon ∷ []

-- a + a * a - a
precedence_test :
    parse_expression (
      identifier name
      ∷ operator OperatorKind.plus
      ∷ identifier name
      ∷ operator OperatorKind.multiply
      ∷ identifier name
      ∷ operator OperatorKind.minus
      ∷ identifier name
      ∷ semicolon)
    ≡ ok (
      Expr.binary BinaryOp.sub (Expr.binary BinaryOp.add a (Expr.binary BinaryOp.mul a a)) a,
      semicolon,
    )
unfolding parse_expression
precedence_test = refl

-- (a * a).a is printed as a * a.a
member_of_product_test :
    parse_expression
      (print_expr (Expr.member (Expr.grouping (Expr.binary BinaryOp.mul a a)) name) 0)
    ≡ ok (Expr.binary BinaryOp.mul a (Expr.member a name), [])
unfolding parse_expression print_expr
member_of_product_test = refl

-- a = (yield) is printed as a = yield
yield_in_assignment_test :
    parse_expression
      (print_expr (Expr.binary BinaryOp.assign a (Expr.grouping (Expr.yield_nothing false))) 0)
    ≡ err unexpected_token
unfolding parse_expression print_expr
yield_in_assignment_test = refl

quote_test : quote_string (34 ∷ 92 ∷ 10 ∷ []) ≡ 39 ∷ 34 ∷ 92 ∷ 92 ∷ 92 ∷ b'n' ∷ 39 ∷ []
unfolding quote_string
quote_test = refl

-- -(-a) is printed as --a
minus_of_minus_test :
    print_expr (Expr.unary UnaryOp.minus (Expr.grouping (Expr.unary UnaryOp.minus a))) 0
    ≡ operator OperatorKind.decrement ∷ print_expr a 0
unfolding print_expr
minus_of_minus_test = refl

-- a ? -(a + a) * a : new a(a, ...a)[(yield a)]++
abbrev sample : Expr
sample =
    Expr.conditional a
      (Expr.binary BinaryOp.mul
        (Expr.unary UnaryOp.minus (Expr.grouping (Expr.binary BinaryOp.add a a))) a)
      (Expr.postfix increment
        (Expr.index (Expr.new a (cons a (cons (Expr.spread a) nil))) (Expr.yield false a)))

unescape_string-quote_string_example :
    unescape_string (strip_delimiters (quote_string (34 ∷ 39 ∷ 92 ∷ []))) ≡ 34 ∷ 39 ∷ 92 ∷ []
unescape_string-quote_string_example = unescape_string-quote_string (34 ∷ 39 ∷ 92 ∷ [])

sample-IsPrintable : IsPrintable false sample
unfolding IsPrintable
sample-IsPrintable = (
  refl,
  (((refl, refl, refl), refl), refl, refl),
  (((refl, refl, (refl, ((refl, refl), tt))), refl, refl), refl),
  refl,
)

format_reads_back_example :
    (e' : Expr) × (parse_expression (print_expr sample 0 ++ semicolon) ≡ ok (e', semicolon))
    × (ungroup e' ≡ ungroup sample)
unfolding height size follows
format_reads_back_example =
    format_reads_back sample semicolon sample-IsPrintable (omega arith) (omega arith) refl

format_idempotent_example :
    (print_expr (regroup sample 0) 0 ≡ print_expr sample 0) × (semicolon ≡ semicolon)
unfolding height size follows regroup parse_expression print_expr
format_idempotent_example =
    format_idempotent sample (regroup sample 0) semicolon semicolon sample-IsPrintable (omega arith)
      (omega arith) refl refl

format_moves_member_example :
    (e' : Expr) × (parse_expression
        (print_expr (Expr.member (Expr.grouping (Expr.unary UnaryOp.typeof a)) name) 0 ++ semicolon)
      ≡ ok (e', semicolon))
    × (ungroup e' ≡ Expr.unary UnaryOp.typeof (Expr.member a name))
unfolding height size follows IsPrintable is_access ungroup
format_moves_member_example =
    format_moves_member UnaryOp.typeof a name semicolon refl refl (omega arith) (omega arith) refl

parse_expression_ends_example :
    (parse_expression semicolon ≢ err out_of_fuel)
    × ((e : Expr) (rest : Tokens) → parse_expression semicolon ≡ ok (e, rest) → length rest < 1)
parse_expression_ends_example = parse_expression_ends semicolon
