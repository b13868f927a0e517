-- ===== src/Syntax/Yields.antt =====
-- `yield` read off its print: `parse_expr` and `parse_yield_expr` of
-- crates/yps-parser/src/parser/expr.rs.
use yoptascript_rs.Prelude.{
  ℕ, ◌≡◌, refl, ap, ◌∙◌, Bool, true, false, [], ◌∷◌, ◌++◌, arith, Bool-cases, inl, inr,
}
use yoptascript_rs.Syntax.Tokens.{
  KeywordKind, PunctuationKind, Token, Tokens, identifier, keyword, punctuation,
}
use yoptascript_rs.Syntax.Tree.{Expr}
use yoptascript_rs.Syntax.Parse.{current, is_punct, is_yield_argument_start, parse_expr}
use yoptascript_rs.Syntax.Print.{yield_token, print_expr}
use yoptascript_rs.Syntax.Shape.{is_yield, IsPrintable}
use yoptascript_rs.Syntax.Follow.{follows, follows-end}
use yoptascript_rs.Syntax.Begin.{begins, print_expr-Begins}
use yoptascript_rs.Syntax.Items.{closing}
use yoptascript_rs.Syntax.Reads.{ExprReads}

-- the first token of any expression
unfoldable pub opens : Token → Bool
unfolding begins
opens (keyword KeywordKind.yield) = true
opens (keyword KeywordKind.yield_delegate) = true
opens t = begins t

abbrev pub Opens : Tokens → Type 0
Opens ts = (t : Token) × (rest : Tokens) × (ts ≡ t ∷ rest) × (opens t ≡ true)

begins-opens : (t : Token) → begins t ≡ true → opens t ≡ true
unfolding opens
begins-opens (keyword KeywordKind.yield) b = refl
begins-opens (keyword KeywordKind.yield_delegate) b = refl
begins-opens (keyword kind) b = b
begins-opens (identifier name) b = b
begins-opens t b = b

print_expr-yield : (e : Expr) → is_yield e ≡ true → Opens (print_expr e 0)
unfolding is_yield print_expr opens yield_token
print_expr-yield (Expr.grouping e) y = print_expr-yield e y
print_expr-yield (Expr.yield true e) y = (keyword KeywordKind.yield_delegate, _, refl, refl)
print_expr-yield (Expr.yield false e) y = (keyword KeywordKind.yield, _, refl, refl)
print_expr-yield (Expr.yield_nothing true) y = (keyword KeywordKind.yield_delegate, _, refl, refl)
print_expr-yield (Expr.yield_nothing false) y = (keyword KeywordKind.yield, _, refl, refl)
print_expr-yield e y = cc

pub print_expr-Opens : (e : Expr) → IsPrintable false e → Opens (print_expr e 0)
print_expr-Opens e h = elim (Bool-cases (is_yield e)) [
  | inl y ↦ print_expr-yield e y
  | inr other ↦
      let (t, rest, same, b) = print_expr-Begins e 0 h (λ y. cc) in
      (t, rest, same, begins-opens t b)
]

opens-argument : (t : Token) → opens t ≡ true → is_yield_argument_start t ≡ true
unfolding opens begins is_yield_argument_start
opens-argument (punctuation PunctuationKind.l_paren) o = refl
opens-argument (punctuation PunctuationKind.l_bracket) o = refl
opens-argument (punctuation kind) o = cc
opens-argument (identifier name) o = refl
opens-argument t o = ground arith

opens-closing : (t : Token) (b : Bool) → opens t ≡ true → is_punct (closing b) t ≡ false
unfolding opens begins is_punct
opens-closing (punctuation PunctuationKind.l_paren) true o = refl
opens-closing (punctuation PunctuationKind.l_paren) false o = refl
opens-closing (punctuation PunctuationKind.l_bracket) true o = refl
opens-closing (punctuation PunctuationKind.l_bracket) false o = refl
opens-closing (punctuation kind) b o = cc
opens-closing (identifier name) b o = refl
opens-closing t b o = refl

opens-spread : (t : Token) → opens t ≡ true → is_punct PunctuationKind.spread t ≡ false
unfolding opens begins is_punct
opens-spread (punctuation PunctuationKind.l_paren) o = refl
opens-spread (punctuation PunctuationKind.l_bracket) o = refl
opens-spread (punctuation kind) o = cc
opens-spread (identifier name) o = refl
opens-spread t o = refl

module _ (ts behind : Tokens) (o : Opens ts) where
  pub is_yield_argument_start-Opens : is_yield_argument_start (current (ts ++ behind)) ≡ true
  is_yield_argument_start-Opens =
      let (t, rest, same, first) = o in
      ap (λ l. is_yield_argument_start (current (l ++ behind))) same ∙ opens-argument t first

  pub closing-Opens : (b : Bool) → is_punct (closing b) (current (ts ++ behind)) ≡ false
  closing-Opens b =
      let (t, rest, same, first) = o in
      ap (λ l. is_punct (closing b) (current (l ++ behind))) same ∙ opens-closing t b first

  pub spread-Opens : is_punct PunctuationKind.spread (current (ts ++ behind)) ≡ false
  spread-Opens =
      let (t, rest, same, first) = o in
      ap (λ l. is_punct PunctuationKind.spread (current (l ++ behind))) same ∙ opens-spread t first

pub yield_reads :
    (limit d : ℕ) (delegate : Bool) (e : Expr) (inner rest : Tokens)
    → is_yield_argument_start (current (inner ++ rest)) ≡ true
    → ExprReads limit d e (inner ++ rest) rest
    → ExprReads limit d (Expr.yield delegate e) ((yield_token delegate ∷ inner) ++ rest) rest
unfolding parse_expr yield_token
yield_reads limit d true e inner rest start reads = ground (arith, reads)
yield_reads limit d false e inner rest start reads = ground (arith, reads, start)

pub yield_nothing_reads :
    (limit d : ℕ) (rest : Tokens)
    → follows 0 (current rest) ≡ true
    → ExprReads limit d (Expr.yield_nothing false) ((yield_token false ∷ []) ++ rest) rest
unfolding parse_expr yield_token
yield_nothing_reads limit d rest f = ground (arith, follows-end (current rest) f)
