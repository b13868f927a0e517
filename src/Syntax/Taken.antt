-- ===== src/Syntax/Taken.antt =====
-- Primaries and lists of crates/yps-parser/src/parser/expr.rs take tokens, if operands do.
use yoptascript_rs.Prelude.{
  ℕ, zero, suc, ◌≤◌, ◌<◌, Bool, ◌||◌, Option, none, some, [], ◌∷◌, arith, length,
}
use yoptascript_rs.Syntax.Tokens.{
  KeywordKind, PunctuationKind, Token, Tokens, identifier, private_identifier, number,
  string_literal, keyword, punctuation,
}
use yoptascript_rs.Syntax.Tree.{Expr, Exprs}
use yoptascript_rs.Syntax.Parse.{
  is_yield_argument_start, Result, ok, ◌>>=◌, Prec, current, advance, is_punct, expect_punct,
  parse_yield_expr, yield_delegate_of, parse_expr, parse_argument, arguments_loop, parse_arguments,
  parse_property, parse_member, parse_primary,
}
use yoptascript_rs.Syntax.Climb.{new_members, parse_new_expr}
use yoptascript_rs.Syntax.Moves.{
  Moves, Moves-bind, Moves-mono, Moves-if, advance-le, expect_punct-Moves, Moving,
}

module _ (prec : Prec) (moving : Moving prec) where
  pub parse_yield_expr-Moves :
      (delegate : Bool) (argument : Result (Expr × Tokens)) (ts : Tokens)
      → Moves (length ts) argument
      → Moves (suc (length ts)) (parse_yield_expr delegate argument ts)
  unfolding parse_yield_expr
  parse_yield_expr-Moves delegate argument ts h =
      Moves-if (suc (length ts)) (delegate || is_yield_argument_start (current ts)) _ _
        (λ _. Moves-bind (length ts) (suc (length ts)) argument _ h (λ e rest small. omega arith))
        (λ _. Moves-if (suc (length ts)) delegate _ _ (λ _. tt) (λ _. omega arith))

  pub parse_expr_at-Moves :
      (t : Token) (ts : Tokens) (r : Option Bool)
      → Moves (length ts) (parse_expr prec ts)
      → Moves (suc (length ts)) (elim r as (λ _. Result (Expr × Tokens)) [
        | none ↦ prec 0 (t ∷ ts)
        | some delegate ↦ parse_yield_expr delegate (parse_expr prec ts) ts
      ])
  parse_expr_at-Moves t ts none h = moving 0 (t ∷ ts)
  parse_expr_at-Moves t ts (some delegate) h =
      parse_yield_expr-Moves delegate (parse_expr prec ts) ts h

  pub parse_expr-Moves : (ts : Tokens) → Moves (length ts) (parse_expr prec ts)
  unfolding parse_expr
  parse_expr-Moves [] = moving 0 []
  parse_expr-Moves (t ∷ ts) = parse_expr_at-Moves t ts (yield_delegate_of t) (parse_expr-Moves ts)

  pub parse_argument-Moves : (ts : Tokens) → Moves (length ts) (parse_argument prec ts)
  unfolding parse_argument
  parse_argument-Moves ts =
      Moves-if (length ts) (is_punct PunctuationKind.spread (current ts)) _ _
        (λ _.
          Moves-bind (length ts) (length ts) (parse_expr prec (advance ts)) _
            (Moves-mono (length (advance ts)) (length ts) (parse_expr prec (advance ts))
              (advance-le ts) (parse_expr-Moves (advance ts)))
            (λ e rest h. h))
        (λ _. parse_expr-Moves ts)

  pub arguments_loop-Moves :
      (f : ℕ) (ts : Tokens) → length ts < f → Moves (length ts) (arguments_loop f prec ts)
  unfolding arguments_loop
  arguments_loop-Moves zero ts h = elim h [ ]
  arguments_loop-Moves (suc f) ts h =
      Moves-bind (length ts) (length ts) (parse_argument prec ts) _ (parse_argument-Moves ts)
        (λ e rest small.
          let le = advance-le rest in
          Moves-if (length ts) (is_punct PunctuationKind.comma (current rest)) _ _
            (λ _.
              Moves-bind (length rest) (length ts) (arguments_loop f prec (advance rest)) _
                (Moves-mono (length (advance rest)) (length rest)
                  (arguments_loop f prec (advance rest)) le
                  (arguments_loop-Moves f (advance rest) (omega arith)))
                (λ es left h'. omega arith))
            (λ _. small))

  pub parse_arguments-Moves :
      (close : PunctuationKind) (ts : Tokens) → Moves (length ts) (parse_arguments prec close ts)
  unfolding parse_arguments
  parse_arguments-Moves close ts =
      Moves-bind (suc (length ts)) (length ts) _ _
        (Moves-if (suc (length ts)) (is_punct close (current ts)) _ _ (λ _. omega arith)
          (λ _.
            Moves-mono (length ts) (suc (length ts)) _ (omega arith)
              (arguments_loop-Moves (suc (length ts)) ts (omega arith))))
        (λ args rest h. expect_punct-Moves close rest (length ts) _ (λ left h'. omega arith))

  -- the parsers that start at the token in front
  pub bracketed-Moves :
      {B : Type 0} (n : ℕ) (close : PunctuationKind) (ts : Tokens) (f : Expr → B)
      → length ts ≤ n
      → Moves n
          (parse_expr prec ts >>= λ (e, rest). expect_punct close rest >>= λ left. ok (f e, left))
  bracketed-Moves n close ts f le =
      Moves-bind (length ts) n (parse_expr prec ts) _ (parse_expr-Moves ts)
        (λ e rest h. expect_punct-Moves close rest n _ (λ left h'. omega arith))

  pub listed-Moves :
      {B : Type 0} (n : ℕ) (close : PunctuationKind) (ts : Tokens) (f : Exprs → B)
      → length ts ≤ n
      → Moves n (parse_arguments prec close ts >>= λ (es, rest). ok (f es, rest))
  listed-Moves n close ts f le =
      Moves-bind (length ts) n (parse_arguments prec close ts) _ (parse_arguments-Moves close ts)
        (λ es rest h. omega arith)

  pub parse_primary-Moves : (ts : Tokens) → Moves (length ts) (parse_primary prec ts)
  unfolding parse_primary
  parse_primary-Moves [] = tt
  parse_primary-Moves (punctuation PunctuationKind.l_paren ∷ ts) =
      bracketed-Moves (suc (length ts)) PunctuationKind.r_paren ts Expr.grouping (omega arith)
  parse_primary-Moves (punctuation PunctuationKind.l_bracket ∷ ts) =
      listed-Moves (suc (length ts)) PunctuationKind.r_bracket ts Expr.array (omega arith)
  parse_primary-Moves (punctuation kind ∷ ts) = tt
  parse_primary-Moves (keyword KeywordKind.pravda ∷ ts) = omega arith
  parse_primary-Moves (keyword KeywordKind.lozh ∷ ts) = omega arith
  parse_primary-Moves (keyword KeywordKind.nol ∷ ts) = omega arith
  parse_primary-Moves (keyword KeywordKind.undefined ∷ ts) = omega arith
  parse_primary-Moves (keyword KeywordKind.this ∷ ts) = omega arith
  parse_primary-Moves (keyword KeywordKind.super ∷ ts) = omega arith
  parse_primary-Moves (keyword kind ∷ ts) = tt
  parse_primary-Moves (identifier name ∷ ts) = omega arith
  parse_primary-Moves (number raw ∷ ts) = omega arith
  parse_primary-Moves (string_literal raw ∷ ts) = omega arith
  parse_primary-Moves (t ∷ ts) = tt

  pub parse_property-Moves :
      (object : Expr) (ts : Tokens) → Moves (length ts) (parse_property object ts)
  unfolding parse_property
  parse_property-Moves object [] = tt
  parse_property-Moves object (private_identifier name ∷ ts) = omega arith
  parse_property-Moves object (identifier name ∷ ts) = omega arith
  parse_property-Moves object (t ∷ ts) = tt

  pub new_members-Moves :
      (f : ℕ) (callee : Expr) (ts : Tokens)
      → length ts < f
      → Moves (suc (length ts)) (new_members f callee ts)
  unfolding new_members parse_member
  new_members-Moves zero callee ts h = elim h [ ]
  new_members-Moves (suc f) callee ts h =
      let le = advance-le ts in
      Moves-if (suc (length ts)) (is_punct PunctuationKind.dot (current ts)) _ _
        (λ _.
          Moves-bind (length (advance ts)) (suc (length ts)) (parse_property callee (advance ts)) _
            (parse_property-Moves callee (advance ts))
            (λ e rest small.
              Moves-mono (suc (length rest)) (suc (length ts)) (new_members f e rest) (omega arith)
                (new_members-Moves f e rest (omega arith))))
        (λ _. omega arith)

  pub parse_new_expr-Moves :
      (ts : Tokens) → Moves (suc (length ts)) (parse_new_expr prec (keyword KeywordKind.new ∷ ts))
  unfolding parse_new_expr
  parse_new_expr-Moves ts =
      Moves-bind (length ts) (suc (length ts)) (parse_primary prec ts) _ (parse_primary-Moves ts)
        (λ base mid h.
          Moves-bind (suc (length mid)) (suc (length ts)) (new_members (suc (length mid)) base mid)
            _ (new_members-Moves (suc (length mid)) base mid (omega arith))
            (λ callee rest h'.
              let le = advance-le rest in
              Moves-if (suc (length ts)) (is_punct PunctuationKind.l_paren (current rest)) _ _
                (λ _.
                  listed-Moves (suc (length ts)) PunctuationKind.r_paren (advance rest)
                    (Expr.new callee) (omega arith))
                (λ _. omega arith)))
