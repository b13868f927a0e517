-- ===== src/Syntax/Parse.antt =====
-- The expressions of crates/yps-parser/src/parser/expr.rs, with the primaries of
-- crates/yps-parser/src/parser/literals.rs. A parser goes from the tokens that are left to what it
-- read and the tokens that are left then. Diagnostics are the errors that stop it.
use yoptascript_rs.Prelude.{
  ℕ, zero, suc, Bool, true, false, ◌||◌, Option, none, some, List, [], ◌∷◌, if◌then◌else◌, length,
}
use yoptascript_rs.Syntax.Ops.{BinaryOp}
use yoptascript_rs.Syntax.Tokens.{
  KeywordKind, OperatorKind, PunctuationKind, Token, Tokens, identifier, private_identifier, number,
  string_literal, keyword, operator, punctuation, eof,
}
use yoptascript_rs.Syntax.Tree.{Literal, Expr, Exprs, nil, cons}
use yoptascript_rs.Syntax.Quote.{unescape_string, strip_delimiters}

pub data SyntaxError : Type 0 where
  expected : PunctuationKind → SyntaxError
  expected_identifier unexpected_token too_deep too_long yield_needs_argument : SyntaxError
  -- of the model only
  out_of_fuel : SyntaxError

pub data Result {ℓ} (A : Type ℓ) : Type ℓ where
  ok : A → Result A
  err : SyntaxError → Result A

infixl 5 ◌>>=◌
abbrev pub ◌>>=◌ {ℓ κ} : {A : Type ℓ} {B : Type κ} → Result A → (A → Result B) → Result B
ok a >>= f = f a
err e >>= f = err e

abbrev pub Parser {ℓ} : Type ℓ → Type ℓ
Parser A = Tokens → Result (A × Tokens)

abbrev pub current : Tokens → Token
current [] = eof
current (t ∷ ts) = t

-- `advance`, which stays at the last token
abbrev pub advance : Tokens → Tokens
advance [] = []
advance (eof ∷ ts) = eof ∷ ts
advance (t ∷ ts) = ts

unfoldable pub same_punct : PunctuationKind → PunctuationKind → Bool
same_punct PunctuationKind.l_paren PunctuationKind.l_paren = true
same_punct PunctuationKind.r_paren PunctuationKind.r_paren = true
same_punct PunctuationKind.l_bracket PunctuationKind.l_bracket = true
same_punct PunctuationKind.r_bracket PunctuationKind.r_bracket = true
same_punct PunctuationKind.r_brace PunctuationKind.r_brace = true
same_punct PunctuationKind.semicolon PunctuationKind.semicolon = true
same_punct PunctuationKind.comma PunctuationKind.comma = true
same_punct PunctuationKind.colon PunctuationKind.colon = true
same_punct PunctuationKind.dot PunctuationKind.dot = true
same_punct PunctuationKind.spread PunctuationKind.spread = true
same_punct PunctuationKind.question PunctuationKind.question = true
same_punct PunctuationKind.optional_chain PunctuationKind.optional_chain = true
same_punct a b = false

unfoldable pub is_punct : PunctuationKind → Token → Bool
unfolding same_punct
is_punct kind (punctuation k) = same_punct k kind
is_punct kind t = false

unfoldable pub expect_punct : PunctuationKind → Tokens → Result Tokens
unfolding is_punct
expect_punct kind ts = if is_punct kind (current ts) then ok (advance ts) else err (expected kind)

unfoldable pub binary_op : OperatorKind → Option BinaryOp
binary_op OperatorKind.plus = some BinaryOp.add
binary_op OperatorKind.minus = some BinaryOp.sub
binary_op OperatorKind.multiply = some BinaryOp.mul
binary_op OperatorKind.exponent = some BinaryOp.exp
binary_op OperatorKind.divide = some BinaryOp.div
binary_op OperatorKind.modulo = some BinaryOp.modulo
binary_op OperatorKind.assign = some BinaryOp.assign
binary_op OperatorKind.plus_assign = some BinaryOp.plus_assign
binary_op OperatorKind.minus_assign = some BinaryOp.minus_assign
binary_op OperatorKind.mul_assign = some BinaryOp.mul_assign
binary_op OperatorKind.div_assign = some BinaryOp.div_assign
binary_op OperatorKind.exponent_assign = some BinaryOp.exp_assign
binary_op OperatorKind.increment = none
binary_op OperatorKind.decrement = none
binary_op OperatorKind.equals = some BinaryOp.equals
binary_op OperatorKind.strict_equals = some BinaryOp.strict_equals
binary_op OperatorKind.not_equals = some BinaryOp.not_equals
binary_op OperatorKind.strict_not_equals = some BinaryOp.strict_not_equals
binary_op OperatorKind.less = some BinaryOp.less
binary_op OperatorKind.greater = some BinaryOp.greater
binary_op OperatorKind.less_or_equal = some BinaryOp.less_or_equal
binary_op OperatorKind.greater_or_equal = some BinaryOp.greater_or_equal
binary_op OperatorKind.and = some BinaryOp.and
binary_op OperatorKind.or = some BinaryOp.or
binary_op OperatorKind.not = none
binary_op OperatorKind.nullish_coalescing = some BinaryOp.nullish_coalescing
binary_op OperatorKind.nullish_assign = some BinaryOp.nullish_assign
binary_op OperatorKind.and_assign = some BinaryOp.and_assign
binary_op OperatorKind.or_assign = some BinaryOp.or_assign
binary_op OperatorKind.pipeline = some BinaryOp.pipeline
binary_op OperatorKind.bit_and = some BinaryOp.bit_and
binary_op OperatorKind.bit_or = some BinaryOp.bit_or
binary_op OperatorKind.bit_xor = some BinaryOp.bit_xor
binary_op OperatorKind.bitwise_not = none
binary_op OperatorKind.left_shift = some BinaryOp.left_shift
binary_op OperatorKind.right_shift = some BinaryOp.right_shift
binary_op OperatorKind.unsigned_right_shift = some BinaryOp.unsigned_right_shift
binary_op OperatorKind.mod_assign = some BinaryOp.mod_assign
binary_op OperatorKind.bit_and_assign = some BinaryOp.bit_and_assign
binary_op OperatorKind.bit_or_assign = some BinaryOp.bit_or_assign
binary_op OperatorKind.bit_xor_assign = some BinaryOp.bit_xor_assign
binary_op OperatorKind.shl_assign = some BinaryOp.shl_assign
binary_op OperatorKind.shr_assign = some BinaryOp.shr_assign
binary_op OperatorKind.ushr_assign = some BinaryOp.ushr_assign

unfoldable pub try_parse_binary_op : Token → Option BinaryOp
unfolding binary_op
try_parse_binary_op (operator kind) = binary_op kind
try_parse_binary_op (keyword KeywordKind.instanceof) = some BinaryOp.instanceof
try_parse_binary_op (keyword KeywordKind.is_in) = some BinaryOp.is_in
try_parse_binary_op t = none

unfoldable pub parse_identifier : Parser (List ℕ)
parse_identifier (identifier name ∷ ts) = ok (name, ts)
parse_identifier ts = err expected_identifier

unfoldable pub is_yield_argument_start : Token → Bool
is_yield_argument_start (punctuation PunctuationKind.semicolon) = false
is_yield_argument_start (punctuation PunctuationKind.r_paren) = false
is_yield_argument_start (punctuation PunctuationKind.r_bracket) = false
is_yield_argument_start (punctuation PunctuationKind.r_brace) = false
is_yield_argument_start (punctuation PunctuationKind.comma) = false
is_yield_argument_start (punctuation PunctuationKind.colon) = false
is_yield_argument_start eof = false
is_yield_argument_start t = true

unfoldable pub yield_delegate_of : Token → Option Bool
yield_delegate_of (keyword KeywordKind.yield) = some false
yield_delegate_of (keyword KeywordKind.yield_delegate) = some true
yield_delegate_of t = none

-- `parse_yield_expr`, `argument` what `parse_expr` reads behind the keyword
unfoldable pub parse_yield_expr : Bool → Result (Expr × Tokens) → Parser Expr
unfolding is_yield_argument_start
parse_yield_expr delegate argument ts =
    if delegate || is_yield_argument_start (current ts)
    then (argument >>= λ (e, rest). ok (Expr.yield delegate e, rest))
    else if delegate
    then err yield_needs_argument
    else ok (Expr.yield_nothing delegate, ts)

-- Every parser below is given `prec`, the call of `parse_expression_with_precedence`.
abbrev pub Prec : Type 0
Prec = ℕ → Parser Expr

unfoldable pub parse_expr : Prec → Parser Expr
unfolding parse_yield_expr yield_delegate_of
parse_expr prec [] = prec 0 []
parse_expr prec (t ∷ ts) = elim (yield_delegate_of t) [
  | some delegate ↦ parse_yield_expr delegate (parse_expr prec ts) ts
  | none ↦ prec 0 (t ∷ ts)
]

-- one argument, in front of its comma
unfoldable pub parse_argument : Prec → Parser Expr
unfolding parse_expr is_punct
parse_argument prec ts =
    if is_punct PunctuationKind.spread (current ts)
    then (parse_expr prec (advance ts) >>= λ (e, rest). ok (Expr.spread e, rest))
    else parse_expr prec ts

-- the loop of `parse_arguments`, a round for each argument
unfoldable pub arguments_loop : ℕ → Prec → Parser Exprs
unfolding parse_argument is_punct
arguments_loop zero prec ts = err out_of_fuel
arguments_loop (suc fuel) prec ts = parse_argument prec ts >>= λ (e, rest).
    let more = (arguments_loop fuel prec (advance rest) >>= λ (es, left). ok (cons e es, left)) in
    if is_punct PunctuationKind.comma (current rest) then more else ok (cons e nil, rest)

unfoldable pub parse_arguments : Prec → PunctuationKind → Parser Exprs
unfolding arguments_loop is_punct expect_punct
parse_arguments prec close ts =
    (if is_punct close (current ts) then ok (nil, ts) else arguments_loop (suc (length ts)) prec ts)
    >>= λ (args, rest). expect_punct close rest >>= λ left. ok (args, left)

unfoldable pub parse_call : Prec → Expr → Parser Expr
unfolding parse_arguments
parse_call prec callee ts =
    parse_arguments prec PunctuationKind.r_paren (advance ts) >>= λ (args, rest).
    ok (Expr.call callee args, rest)

unfoldable pub parse_index : Prec → Expr → Parser Expr
unfolding parse_expr expect_punct
parse_index prec object ts = parse_expr prec (advance ts) >>= λ (key, rest).
    expect_punct PunctuationKind.r_bracket rest >>= λ left. ok (Expr.index object key, left)

-- the property behind the dot
unfoldable pub parse_property : Expr → Parser Expr
unfolding parse_identifier
parse_property object (private_identifier name ∷ ts) = ok (Expr.member object name, ts)
parse_property object ts =
    parse_identifier ts >>= λ (name, rest). ok (Expr.member object name, rest)

unfoldable pub parse_member : Expr → Parser Expr
unfolding parse_property
parse_member object ts = parse_property object (advance ts)

unfoldable pub parse_optional_chain : Prec → Expr → Parser Expr
unfolding parse_arguments parse_expr expect_punct parse_identifier is_punct
parse_optional_chain prec object ts =
    let next = advance ts in
    if is_punct PunctuationKind.l_paren (current next)
    then (parse_arguments prec PunctuationKind.r_paren (advance next) >>= λ (args, rest).
        ok (Expr.optional_call object args, rest))
    else if is_punct PunctuationKind.l_bracket (current next)
    then (parse_expr prec (advance next) >>= λ (key, rest).
        expect_punct PunctuationKind.r_bracket rest >>= λ left.
        ok (Expr.optional_index object key, left))
    else (parse_identifier next >>= λ (name, rest). ok (Expr.optional_member object name, rest))

unfoldable pub parse_grouping : Prec → Parser Expr
unfolding parse_expr expect_punct
parse_grouping prec ts = parse_expr prec (advance ts) >>= λ (e, rest).
    expect_punct PunctuationKind.r_paren rest >>= λ left. ok (Expr.grouping e, left)

unfoldable pub parse_array : Prec → Parser Expr
unfolding parse_arguments
parse_array prec ts =
    parse_arguments prec PunctuationKind.r_bracket (advance ts) >>= λ (elements, rest).
    ok (Expr.array elements, rest)

unfoldable pub parse_primary : Prec → Parser Expr
unfolding parse_grouping parse_array unescape_string strip_delimiters
parse_primary prec (number raw ∷ ts) = ok (Expr.literal (Literal.number raw), ts)
parse_primary prec (string_literal raw ∷ ts) =
    ok (Expr.literal (Literal.string (unescape_string (strip_delimiters raw))), ts)
parse_primary prec (keyword KeywordKind.pravda ∷ ts) = ok (Expr.literal (Literal.boolean true), ts)
parse_primary prec (keyword KeywordKind.lozh ∷ ts) = ok (Expr.literal (Literal.boolean false), ts)
parse_primary prec (keyword KeywordKind.nol ∷ ts) = ok (Expr.literal Literal.null, ts)
parse_primary prec (keyword KeywordKind.undefined ∷ ts) = ok (Expr.literal Literal.undefined, ts)
parse_primary prec (identifier name ∷ ts) = ok (Expr.identifier name, ts)
parse_primary prec (punctuation PunctuationKind.l_paren ∷ ts) =
    parse_grouping prec (punctuation PunctuationKind.l_paren ∷ ts)
parse_primary prec (keyword KeywordKind.this ∷ ts) = ok (Expr.this, ts)
parse_primary prec (keyword KeywordKind.super ∷ ts) = ok (Expr.super, ts)
parse_primary prec (punctuation PunctuationKind.l_bracket ∷ ts) =
    parse_array prec (punctuation PunctuationKind.l_bracket ∷ ts)
parse_primary prec ts = err unexpected_token
