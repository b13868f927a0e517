-- ===== src/Syntax/Print.antt =====
-- `print_expr` of crates/yps-fmt/src/printer.rs, as the tokens that the lexer reads from what it writes.
-- The only tokens with no space between that could be read as one are a prefix operator and what
-- follows it.
use yoptascript_rs.Prelude.{
  ℕ, ◌+◌, ltb, ◌==◌, Bool, true, false, List, [], ◌∷◌, ◌++◌, if◌then◌else◌,
}
use yoptascript_rs.Syntax.Ops.{
  UnaryOp, PostfixOp, increment, decrement, BinaryOp, ternary_precedence, unary_precedence,
  assign_precedence, postfix_precedence, call_precedence, binary_precedence, binary_is_right_assoc,
}
use yoptascript_rs.Syntax.Tokens.{
  KeywordKind, OperatorKind, Token, Tokens, identifier, private_identifier, number, string_literal,
  keyword, operator, punctuation, PunctuationKind,
}
use yoptascript_rs.Syntax.Tree.{Literal, Expr, Exprs, nil, cons}
use yoptascript_rs.Syntax.Quote.{quote_string}

-- the token that a name is read as
unfoldable pub name_token : List ℕ → Token
name_token [] = identifier []
name_token (c ∷ cs) = if c == b'#' then private_identifier (c ∷ cs) else identifier (c ∷ cs)

unfoldable pub unary_token : UnaryOp → Token
unary_token UnaryOp.plus = operator OperatorKind.plus
unary_token UnaryOp.minus = operator OperatorKind.minus
unary_token UnaryOp.not = operator OperatorKind.not
unary_token UnaryOp.bitwise_not = operator OperatorKind.bitwise_not
unary_token UnaryOp.typeof = keyword KeywordKind.typeof
unary_token UnaryOp.delete = keyword KeywordKind.delete
unary_token UnaryOp.void = keyword KeywordKind.void

unfoldable pub unary_op_needs_space : UnaryOp → Bool
unary_op_needs_space UnaryOp.typeof = true
unary_op_needs_space UnaryOp.delete = true
unary_op_needs_space UnaryOp.void = true
unary_op_needs_space op = false

-- what the lexer reads where `-` stands directly before the text of the tokens: two such signs are
-- one token
unfoldable pub beside_minus : Tokens → Tokens
beside_minus (operator OperatorKind.minus ∷ ts) = operator OperatorKind.decrement ∷ ts
beside_minus (operator OperatorKind.decrement ∷ ts) =
    operator OperatorKind.decrement ∷ beside_minus ts
beside_minus ts = operator OperatorKind.minus ∷ ts

unfoldable pub beside_plus : Tokens → Tokens
beside_plus (operator OperatorKind.plus ∷ ts) = operator OperatorKind.increment ∷ ts
beside_plus (operator OperatorKind.increment ∷ ts) =
    operator OperatorKind.increment ∷ beside_plus ts
beside_plus ts = operator OperatorKind.plus ∷ ts

-- and where a word does: with a name or a number behind it, it is one name
unfoldable pub beside_word : Token → List ℕ → Tokens → Tokens
beside_word t word (identifier name ∷ ts) = identifier (word ++ name) ∷ ts
beside_word t word (number raw ∷ ts) = identifier (word ++ raw) ∷ ts
beside_word t word ts = t ∷ ts

-- and where another operator does
unfoldable pub beside : UnaryOp → Tokens → Tokens
unfolding beside_minus beside_plus beside_word unary_token
beside UnaryOp.minus ts = beside_minus ts
beside UnaryOp.plus ts = beside_plus ts
beside UnaryOp.typeof ts =
    beside_word (unary_token UnaryOp.typeof)
      (1095 ∷ 1077 ∷ 1079 ∷ 1072 ∷ 1078 ∷ 1080 ∷ 1078 ∷ 1072 ∷ 1085 ∷ []) ts
beside UnaryOp.delete ts =
    beside_word (unary_token UnaryOp.delete) (1105 ∷ 1073 ∷ 1085 ∷ 1091 ∷ 1090 ∷ 1100 ∷ []) ts
beside UnaryOp.void ts = beside_word (unary_token UnaryOp.void) (1082 ∷ 1091 ∷ 1082 ∷ 1091 ∷ []) ts
beside op ts = unary_token op ∷ ts

-- the operator in front of the print of its operand, with a space behind a word alone
unfoldable pub print_unary : UnaryOp → Tokens → Tokens
unfolding unary_op_needs_space unary_token beside
print_unary op ts = if unary_op_needs_space op then unary_token op ∷ ts else beside op ts

unfoldable pub postfix_token : PostfixOp → Token
postfix_token increment = operator OperatorKind.increment
postfix_token decrement = operator OperatorKind.decrement

unfoldable pub binary_token : BinaryOp → Token
binary_token BinaryOp.add = operator OperatorKind.plus
binary_token BinaryOp.sub = operator OperatorKind.minus
binary_token BinaryOp.mul = operator OperatorKind.multiply
binary_token BinaryOp.div = operator OperatorKind.divide
binary_token BinaryOp.modulo = operator OperatorKind.modulo
binary_token BinaryOp.exp = operator OperatorKind.exponent
binary_token BinaryOp.assign = operator OperatorKind.assign
binary_token BinaryOp.plus_assign = operator OperatorKind.plus_assign
binary_token BinaryOp.minus_assign = operator OperatorKind.minus_assign
binary_token BinaryOp.mul_assign = operator OperatorKind.mul_assign
binary_token BinaryOp.div_assign = operator OperatorKind.div_assign
binary_token BinaryOp.exp_assign = operator OperatorKind.exponent_assign
binary_token BinaryOp.equals = operator OperatorKind.equals
binary_token BinaryOp.strict_equals = operator OperatorKind.strict_equals
binary_token BinaryOp.not_equals = operator OperatorKind.not_equals
binary_token BinaryOp.strict_not_equals = operator OperatorKind.strict_not_equals
binary_token BinaryOp.less = operator OperatorKind.less
binary_token BinaryOp.greater = operator OperatorKind.greater
binary_token BinaryOp.less_or_equal = operator OperatorKind.less_or_equal
binary_token BinaryOp.greater_or_equal = operator OperatorKind.greater_or_equal
binary_token BinaryOp.and = operator OperatorKind.and
binary_token BinaryOp.or = operator OperatorKind.or
binary_token BinaryOp.nullish_coalescing = operator OperatorKind.nullish_coalescing
binary_token BinaryOp.nullish_assign = operator OperatorKind.nullish_assign
binary_token BinaryOp.and_assign = operator OperatorKind.and_assign
binary_token BinaryOp.or_assign = operator OperatorKind.or_assign
binary_token BinaryOp.pipeline = operator OperatorKind.pipeline
binary_token BinaryOp.instanceof = keyword KeywordKind.instanceof
binary_token BinaryOp.is_in = keyword KeywordKind.is_in
binary_token BinaryOp.bit_and = operator OperatorKind.bit_and
binary_token BinaryOp.bit_or = operator OperatorKind.bit_or
binary_token BinaryOp.bit_xor = operator OperatorKind.bit_xor
binary_token BinaryOp.left_shift = operator OperatorKind.left_shift
binary_token BinaryOp.right_shift = operator OperatorKind.right_shift
binary_token BinaryOp.unsigned_right_shift = operator OperatorKind.unsigned_right_shift
binary_token BinaryOp.mod_assign = operator OperatorKind.mod_assign
binary_token BinaryOp.bit_and_assign = operator OperatorKind.bit_and_assign
binary_token BinaryOp.bit_or_assign = operator OperatorKind.bit_or_assign
binary_token BinaryOp.bit_xor_assign = operator OperatorKind.bit_xor_assign
binary_token BinaryOp.shl_assign = operator OperatorKind.shl_assign
binary_token BinaryOp.shr_assign = operator OperatorKind.shr_assign
binary_token BinaryOp.ushr_assign = operator OperatorKind.ushr_assign

unfoldable pub print_literal : Literal → Token
unfolding quote_string
print_literal (Literal.number raw) = number raw
print_literal (Literal.string value) = string_literal (quote_string value)
print_literal (Literal.boolean true) = keyword KeywordKind.pravda
print_literal (Literal.boolean false) = keyword KeywordKind.lozh
print_literal Literal.null = keyword KeywordKind.nol
print_literal Literal.undefined = keyword KeywordKind.undefined

unfoldable pub left_prec : BinaryOp → ℕ
unfolding binary_precedence binary_is_right_assoc
left_prec op = if binary_is_right_assoc op then binary_precedence op + 1 else binary_precedence op

unfoldable pub right_prec : BinaryOp → ℕ
unfolding binary_precedence binary_is_right_assoc
right_prec op = if binary_is_right_assoc op then binary_precedence op else binary_precedence op + 1

unfoldable pub wrapped : Bool → Tokens → Tokens
wrapped false ts = ts
wrapped true ts =
    punctuation PunctuationKind.l_paren ∷ (ts ++ punctuation PunctuationKind.r_paren ∷ [])

unfoldable pub yield_token : Bool → Token
yield_token true = keyword KeywordKind.yield_delegate
yield_token false = keyword KeywordKind.yield

unfoldable mutual
  unfolding name_token print_unary postfix_token binary_token print_literal left_prec right_prec
      wrapped yield_token binary_precedence

  pub print_expr : Expr → ℕ → Tokens
  print_expr (Expr.grouping expr) parent_prec = print_expr expr parent_prec
  print_expr (Expr.identifier name) parent_prec = name_token name ∷ []
  print_expr (Expr.literal value) parent_prec = print_literal value ∷ []
  print_expr (Expr.array elements) parent_prec =
      punctuation PunctuationKind.l_bracket
      ∷ (print_items elements ++ punctuation PunctuationKind.r_bracket ∷ [])
  print_expr Expr.this parent_prec = keyword KeywordKind.this ∷ []
  print_expr Expr.super parent_prec = keyword KeywordKind.super ∷ []
  print_expr (Expr.unary op operand) parent_prec =
      wrapped (ltb unary_precedence parent_prec)
        (print_unary op (print_expr operand unary_precedence))
  print_expr (Expr.postfix op operand) parent_prec =
      wrapped (ltb postfix_precedence parent_prec)
        (print_expr operand postfix_precedence ++ postfix_token op ∷ [])
  print_expr (Expr.binary op lhs rhs) parent_prec =
      wrapped (ltb (binary_precedence op) parent_prec)
        (print_expr lhs (left_prec op) ++ binary_token op ∷ print_expr rhs (right_prec op))
  print_expr (Expr.conditional condition then_expr else_expr) parent_prec =
      wrapped (ltb ternary_precedence parent_prec) (
        print_expr condition (ternary_precedence + 1)
        ++ punctuation PunctuationKind.question
          ∷ (print_expr then_expr 0
              ++ punctuation PunctuationKind.colon ∷ print_expr else_expr ternary_precedence))
  print_expr (Expr.call callee args) parent_prec =
      print_expr callee call_precedence ++ wrapped true (print_items args)
  print_expr (Expr.optional_call callee args) parent_prec =
      print_expr callee call_precedence
      ++ punctuation PunctuationKind.optional_chain ∷ wrapped true (print_items args)
  print_expr (Expr.new callee args) parent_prec = wrapped (ltb call_precedence parent_prec) (
      keyword KeywordKind.new
      ∷ (print_expr callee call_precedence ++ wrapped true (print_items args)))
  print_expr (Expr.index object key) parent_prec =
      print_expr object call_precedence
      ++ punctuation PunctuationKind.l_bracket
        ∷ (print_expr key 0 ++ punctuation PunctuationKind.r_bracket ∷ [])
  print_expr (Expr.optional_index object key) parent_prec =
      print_expr object call_precedence
      ++ punctuation PunctuationKind.optional_chain
        ∷ punctuation PunctuationKind.l_bracket
        ∷ (print_expr key 0 ++ punctuation PunctuationKind.r_bracket ∷ [])
  print_expr (Expr.member object property) parent_prec =
      print_expr object call_precedence
      ++ punctuation PunctuationKind.dot ∷ name_token property ∷ []
  print_expr (Expr.optional_member object property) parent_prec =
      print_expr object call_precedence
      ++ punctuation PunctuationKind.optional_chain ∷ name_token property ∷ []
  print_expr (Expr.spread expr) parent_prec = punctuation PunctuationKind.spread ∷ print_expr expr 0
  print_expr (Expr.yield delegate argument) parent_prec =
      wrapped (ltb assign_precedence parent_prec) (yield_token delegate ∷ print_expr argument 0)
  print_expr (Expr.yield_nothing delegate) parent_prec =
      wrapped (ltb assign_precedence parent_prec) (yield_token delegate ∷ [])
  print_expr (Expr.await argument) parent_prec =
      wrapped (ltb unary_precedence parent_prec)
        (keyword KeywordKind.await ∷ print_expr argument unary_precedence)

  -- what `print_delimited` writes between the brackets
  pub print_items : Exprs → Tokens
  print_items nil = []
  print_items (cons e es) = print_expr e 0 ++ print_more es

  pub print_more : Exprs → Tokens
  print_more nil = []
  print_more (cons e es) = punctuation PunctuationKind.comma ∷ (print_expr e 0 ++ print_more es)
