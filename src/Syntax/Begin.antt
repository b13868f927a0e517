-- ===== src/Syntax/Begin.antt =====
-- How the print of an expression begins: crates/yps-fmt/src/printer.rs.
use yoptascript_rs.Prelude.{
  ℕ, ◌≤◌, ltb, ◌≡◌, refl, sym, ap, ◌∙◌, Bool, true, false, none, List, [], ◌∷◌, ◌++◌, arith,
}
use yoptascript_rs.Syntax.Ops.{UnaryOp, BinaryOp, binary_precedence}
use yoptascript_rs.Syntax.Tokens.{
  KeywordKind, OperatorKind, PunctuationKind, Token, Tokens, identifier, number, string_literal,
  keyword, operator, punctuation,
}
use yoptascript_rs.Syntax.Tree.{Literal, Expr}
use yoptascript_rs.Syntax.Parse.{current, is_punct, yield_delegate_of, Prec, parse_expr}
use yoptascript_rs.Syntax.Print.{
  name_token, unary_token, print_literal, left_prec, wrapped, print_expr,
}
use yoptascript_rs.Syntax.Shape.{print_unary-apart, tight, is_yield, is_public, IsPrintable}

-- the first token of an expression that is no `yield`
unfoldable pub begins : Token → Bool
begins (identifier name) = true
begins (number raw) = true
begins (string_literal raw) = true
begins (keyword KeywordKind.pravda) = true
begins (keyword KeywordKind.lozh) = true
begins (keyword KeywordKind.nol) = true
begins (keyword KeywordKind.undefined) = true
begins (keyword KeywordKind.this) = true
begins (keyword KeywordKind.super) = true
begins (keyword KeywordKind.new) = true
begins (keyword KeywordKind.typeof) = true
begins (keyword KeywordKind.delete) = true
begins (keyword KeywordKind.void) = true
begins (keyword KeywordKind.await) = true
begins (operator OperatorKind.plus) = true
begins (operator OperatorKind.minus) = true
begins (operator OperatorKind.not) = true
begins (operator OperatorKind.bitwise_not) = true
begins (punctuation PunctuationKind.l_paren) = true
begins (punctuation PunctuationKind.l_bracket) = true
begins t = false

abbrev pub Begins : Tokens → Type 0
Begins ts = (t : Token) × (rest : Tokens) × (ts ≡ t ∷ rest) × (begins t ≡ true)

pub Begins-append : (ts rest : Tokens) → Begins ts → Begins (ts ++ rest)
Begins-append ts rest (t, more, e, b) = (t, more ++ rest, ap (◌++ rest) e, b)

Begins-wrapped : (w : Bool) (ts : Tokens) → (w ≡ false → Begins ts) → Begins (wrapped w ts)
unfolding wrapped begins
Begins-wrapped true ts h = (
  punctuation PunctuationKind.l_paren,
  ts ++ punctuation PunctuationKind.r_paren ∷ [],
  refl,
  refl,
)
Begins-wrapped false ts h = h refl

unary_token-begins : (op : UnaryOp) → begins (unary_token op) ≡ true
unfolding begins unary_token
unary_token-begins UnaryOp.plus = refl
unary_token-begins op = refl

print_literal-begins : (v : Literal) → begins (print_literal v) ≡ true
unfolding begins print_literal
print_literal-begins (Literal.boolean true) = refl
print_literal-begins (Literal.boolean false) = refl
print_literal-begins Literal.null = refl
print_literal-begins v = refl

pub name_token-public : (name : List ℕ) → is_public name ≡ true → name_token name ≡ identifier name
unfolding is_public name_token
name_token-public [] h = refl
name_token-public (c ∷ cs) h = ground arith

pub left_prec-le : (op : BinaryOp) → 2 ≤ left_prec op
unfolding left_prec
left_prec-le BinaryOp.add = omega arith
left_prec-le op = omega arith

-- The print at `p` begins like an expression, unless it is a `yield` without parentheses.
pub print_expr-Begins :
    (e : Expr) (p : ℕ) → IsPrintable false e → (is_yield e ≡ true → 2 ≤ p) → Begins (print_expr e p)
unfolding print_expr IsPrintable is_yield tight begins
print_expr-Begins (Expr.grouping e) p h y = print_expr-Begins e p h y
print_expr-Begins (Expr.identifier name) p h y =
    (identifier name, [], ap (◌∷ []) (name_token-public name h), refl)
print_expr-Begins (Expr.literal v) p h y = (print_literal v, [], refl, print_literal-begins v)
print_expr-Begins (Expr.array elements) p h y =
    (punctuation PunctuationKind.l_bracket, _, refl, refl)
print_expr-Begins (Expr.unary op e) p h y = Begins-wrapped (ltb 16 p) _ (λ _. (
  unary_token op,
  print_expr e 16,
  print_unary-apart op (print_expr e 16) h.1,
  unary_token-begins op,
))
print_expr-Begins (Expr.binary op lhs rhs) p h y =
    Begins-wrapped (ltb (binary_precedence op) p) _ (λ _.
      Begins-append (print_expr lhs (left_prec op)) _
        (print_expr-Begins lhs (left_prec op) h.0 (λ _. left_prec-le op)))
print_expr-Begins (Expr.postfix op e) p h y =
    Begins-wrapped (ltb 13 p) _
      (λ _. Begins-append (print_expr e 13) _ (print_expr-Begins e 13 h.0 (λ _. omega arith)))
print_expr-Begins (Expr.call callee args) p h y =
    Begins-append (print_expr callee 14) _ (print_expr-Begins callee 14 h.0 (λ _. omega arith))
print_expr-Begins (Expr.index object key) p h y =
    Begins-append (print_expr object 14) _ (print_expr-Begins object 14 h.0 (λ _. omega arith))
print_expr-Begins (Expr.member object name) p h y =
    Begins-append (print_expr object 14) _ (print_expr-Begins object 14 h.0 (λ _. omega arith))
print_expr-Begins (Expr.optional_member object name) p h y =
    Begins-append (print_expr object 14) _ (print_expr-Begins object 14 h.0 (λ _. omega arith))
print_expr-Begins (Expr.optional_index object key) p h y =
    Begins-append (print_expr object 14) _ (print_expr-Begins object 14 h.0 (λ _. omega arith))
print_expr-Begins (Expr.optional_call callee args) p h y =
    Begins-append (print_expr callee 14) _ (print_expr-Begins callee 14 h.0 (λ _. omega arith))
print_expr-Begins (Expr.conditional c t e) p h y =
    Begins-wrapped (ltb 2 p) _
      (λ _. Begins-append (print_expr c 3) _ (print_expr-Begins c 3 h.0 (λ _. omega arith)))
print_expr-Begins (Expr.spread e) p h y = cc
print_expr-Begins Expr.this p h y = (keyword KeywordKind.this, [], refl, refl)
print_expr-Begins Expr.super p h y = (keyword KeywordKind.super, [], refl, refl)
print_expr-Begins (Expr.new callee args) p h y =
    Begins-wrapped (ltb 14 p) _ (λ _. (keyword KeywordKind.new, _, refl, refl))
print_expr-Begins (Expr.yield delegate e) p h y =
    Begins-wrapped (ltb 1 p) _ (λ w. let two = y refl in absurd (ground arith))
print_expr-Begins (Expr.yield_nothing delegate) p h y =
    Begins-wrapped (ltb 1 p) _ (λ w. let two = y refl in absurd (ground arith))
print_expr-Begins (Expr.await e) p h y =
    Begins-wrapped (ltb 16 p) _ (λ _. (keyword KeywordKind.await, _, refl, refl))

begins-no_yield : (t : Token) → begins t ≡ true → yield_delegate_of t ≡ none
unfolding begins yield_delegate_of
begins-no_yield (keyword KeywordKind.yield) b = cc
begins-no_yield (keyword KeywordKind.yield_delegate) b = cc
begins-no_yield (keyword kind) b = refl
begins-no_yield (identifier name) b = refl
begins-no_yield t b = refl

begins-is_punct :
    (t : Token) (kind : PunctuationKind)
    → begins t ≡ true
    → begins (punctuation kind) ≡ false
    → is_punct kind t ≡ false
unfolding begins is_punct
begins-is_punct (punctuation PunctuationKind.l_paren) PunctuationKind.l_paren b h = cc
begins-is_punct (punctuation PunctuationKind.l_paren) kind b h = refl
begins-is_punct (punctuation PunctuationKind.l_bracket) PunctuationKind.l_bracket b h = cc
begins-is_punct (punctuation PunctuationKind.l_bracket) kind b h = refl
begins-is_punct (punctuation k) kind b h = cc
begins-is_punct (identifier name) kind b h = refl
begins-is_punct t kind b h = refl

parse_expr-cons :
    (prec : Prec) (t : Token) (rest : Tokens)
    → begins t ≡ true
    → parse_expr prec (t ∷ rest) ≡ prec 0 (t ∷ rest)
unfolding parse_expr
parse_expr-cons prec t rest b = ground (arith, begins-no_yield t b)

-- What begins like an expression is read as one, and ends no list.
module _ (ts : Tokens) (b : Begins ts) where
  pub is_punct-Begins :
      (kind : PunctuationKind)
      → begins (punctuation kind) ≡ false
      → is_punct kind (current ts) ≡ false
  unfolding is_punct begins
  is_punct-Begins kind h =
      let (t, rest, e, begin) = b in
      ap (λ l. is_punct kind (current l)) e ∙ begins-is_punct t kind begin h

  pub parse_expr-Begins : (prec : Prec) → parse_expr prec ts ≡ prec 0 ts
  unfolding parse_expr
  parse_expr-Begins prec =
      let (t, rest, e, begin) = b in
      ap (parse_expr prec) e ∙ parse_expr-cons prec t rest begin ∙ ap (prec 0) (sym e)
