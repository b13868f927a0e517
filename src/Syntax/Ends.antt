-- ===== src/Syntax/Ends.antt =====
-- The expression parser of crates/yps-parser/src/parser/expr.rs ends: every loop that the source does
-- not count takes a token in each round.
use mathlib.Core.Path.{subst}
use yoptascript_rs.Prelude.{
  ℕ, zero, suc, ◌≤◌, ◌<◌, ◌≡◌, ◌≢◌, ltb, leb, Bool, true, false, ◌&&◌, Option, none, some, [], ◌∷◌,
  if◌then◌else◌, arith, length,
}
use yoptascript_rs.Syntax.Ops.{UnaryOp, BinaryOp, binary_precedence}
use yoptascript_rs.Syntax.Tokens.{
  KeywordKind, OperatorKind, PunctuationKind, Tokens, keyword, operator, punctuation, eof,
}
use yoptascript_rs.Syntax.Tree.{Expr}
use yoptascript_rs.Syntax.Parse.{
  out_of_fuel, Result, ok, err, ◌>>=◌, Prec, current, advance, is_punct, parse_identifier,
  try_parse_binary_op, parse_call, parse_index, parse_member, parse_optional_chain, parse_primary,
}
use yoptascript_rs.Syntax.Climb.{
  unary_op_of, parse_unary, parse_await, parse_head, prefix_step, prefix_loop, parse_prefix,
  parse_conditional, parse_binary, chain_step, chain_loop, next_prec, parse_inner,
  parse_expression_with_precedence, parse_expression, max_parse_depth, max_chain_len,
}
use yoptascript_rs.Syntax.Moves.{
  Moves, Moves-bind, Moves-mono, Moves-if, advance-le, expect_punct-Moves, parse_identifier-Moves,
  Moving,
}
use yoptascript_rs.Syntax.Taken.{
  parse_expr-Moves, bracketed-Moves, listed-Moves, parse_primary-Moves, parse_property-Moves,
  parse_new_expr-Moves,
}

module _ (prec : Prec) (moving : Moving prec) where
  operand-Moves :
      {B : Type 0} (n m : ℕ) (ts : Tokens) (f : Expr → B)
      → length ts ≤ n
      → Moves n (prec m ts >>= λ (e, rest). ok (f e, rest))
  operand-Moves n m ts f le =
      Moves-bind (length ts) n (prec m ts) _ (moving m ts) (λ e rest h. omega arith)

  unary_or_primary-Moves :
      (ts : Tokens) (r : Option UnaryOp)
      → Moves (length ts) (elim r as (λ _. Result (Expr × Tokens)) [
        | some op ↦ parse_unary prec op ts
        | none ↦ parse_primary prec ts
      ])
  unfolding parse_unary
  unary_or_primary-Moves ts (some op) =
      operand-Moves (length ts) 16 (advance ts) (Expr.unary op) (advance-le ts)
  unary_or_primary-Moves ts none = parse_primary-Moves prec moving ts

  parse_head-Moves : (ts : Tokens) → Moves (length ts) (parse_head prec ts)
  unfolding parse_head parse_await
  parse_head-Moves [] = unary_or_primary-Moves [] (unary_op_of eof)
  parse_head-Moves (keyword KeywordKind.await ∷ ts) =
      operand-Moves (suc (length ts)) 16 ts Expr.await (omega arith)
  parse_head-Moves (keyword KeywordKind.new ∷ ts) = parse_new_expr-Moves prec moving ts
  parse_head-Moves (keyword kind ∷ ts) =
      unary_or_primary-Moves (keyword kind ∷ ts) (unary_op_of (keyword kind))
  parse_head-Moves (t ∷ ts) = unary_or_primary-Moves (t ∷ ts) (unary_op_of t)

  abbrev StepMoves : ℕ → Option (Result (Expr × Tokens)) → Type 0
  StepMoves n none = Unit
  StepMoves n (some r) = Moves n r

  parse_member-Moves : (e : Expr) (ts : Tokens) → Moves (length ts) (parse_member e ts)
  unfolding parse_member
  parse_member-Moves e ts =
      Moves-mono (length (advance ts)) (length ts) _ (advance-le ts)
        (parse_property-Moves prec moving e (advance ts))

  parse_optional_chain-Moves :
      (e : Expr) (ts : Tokens) → Moves (length ts) (parse_optional_chain prec e ts)
  unfolding parse_optional_chain
  parse_optional_chain-Moves e ts =
      let le = advance-le ts in
      let le' = advance-le (advance ts) in
      Moves-if (length ts) (is_punct PunctuationKind.l_paren (current (advance ts))) _ _
        (λ _.
          listed-Moves prec moving (length ts) PunctuationKind.r_paren (advance (advance ts))
            (Expr.optional_call e) (omega arith))
        (λ _.
          Moves-if (length ts) (is_punct PunctuationKind.l_bracket (current (advance ts))) _ _
            (λ _.
              bracketed-Moves prec moving (length ts) PunctuationKind.r_bracket
                (advance (advance ts)) (Expr.optional_index e) (omega arith))
            (λ _.
              Moves-bind (length (advance ts)) (length ts) (parse_identifier (advance ts)) _
                (parse_identifier-Moves (advance ts)) (λ name rest h. omega arith)))

  prefix_step-Moves : (e : Expr) (ts : Tokens) → StepMoves (length ts) (prefix_step prec e ts)
  unfolding prefix_step parse_call parse_index
  prefix_step-Moves e [] = tt
  prefix_step-Moves e (punctuation PunctuationKind.l_paren ∷ ts) =
      listed-Moves prec moving (suc (length ts)) PunctuationKind.r_paren ts (Expr.call e)
        (omega arith)
  prefix_step-Moves e (punctuation PunctuationKind.l_bracket ∷ ts) =
      bracketed-Moves prec moving (suc (length ts)) PunctuationKind.r_bracket ts (Expr.index e)
        (omega arith)
  prefix_step-Moves e (punctuation PunctuationKind.dot ∷ ts) =
      parse_member-Moves e (punctuation PunctuationKind.dot ∷ ts)
  prefix_step-Moves e (punctuation PunctuationKind.optional_chain ∷ ts) =
      parse_optional_chain-Moves e (punctuation PunctuationKind.optional_chain ∷ ts)
  prefix_step-Moves e (punctuation kind ∷ ts) = tt
  prefix_step-Moves e (operator OperatorKind.increment ∷ ts) = omega arith
  prefix_step-Moves e (operator OperatorKind.decrement ∷ ts) = omega arith
  prefix_step-Moves e (operator kind ∷ ts) = tt
  prefix_step-Moves e (t ∷ ts) = tt

  parse_conditional-Moves :
      (lhs : Expr) (ts : Tokens) → Moves (length ts) (parse_conditional prec lhs ts)
  unfolding parse_conditional
  parse_conditional-Moves lhs ts =
      let le = advance-le ts in
      Moves-bind (length (advance ts)) (length ts) (prec 0 (advance ts)) _ (moving 0 (advance ts))
        (λ t rest h.
          expect_punct-Moves PunctuationKind.colon rest (length ts) _
            (λ left h'. operand-Moves (length ts) 2 left (Expr.conditional lhs t) (omega arith)))

  parse_binary-Moves :
      (op : BinaryOp) (lhs : Expr) (ts : Tokens) → Moves (length ts) (parse_binary prec op lhs ts)
  unfolding parse_binary
  parse_binary-Moves op lhs ts =
      operand-Moves (length ts) (next_prec op) (advance ts) (Expr.binary op lhs) (advance-le ts)

  StepMoves-if :
      (n : ℕ) (b : Bool) (x y : Option (Result (Expr × Tokens)))
      → StepMoves n x
      → StepMoves n y
      → StepMoves n (if b then x else y)
  StepMoves-if n true x y hx hy = hx
  StepMoves-if n false x y hx hy = hy

  chain_op-Moves :
      (m : ℕ) (lhs : Expr) (ts : Tokens) (r : Option BinaryOp)
      → StepMoves (length ts) (elim r as (λ _. Option (Result (Expr × Tokens))) [
        | none ↦ none
        | some op ↦
            if ltb (binary_precedence op) m then none else some (parse_binary prec op lhs ts)
      ])
  chain_op-Moves m lhs ts none = tt
  chain_op-Moves m lhs ts (some op) =
      StepMoves-if (length ts) (ltb (binary_precedence op) m) none
        (some (parse_binary prec op lhs ts)) tt (parse_binary-Moves op lhs ts)

  chain_step-Moves :
      (m : ℕ) (lhs : Expr) (ts : Tokens) → StepMoves (length ts) (chain_step prec m lhs ts)
  unfolding chain_step
  chain_step-Moves m lhs ts =
      StepMoves-if (length ts) (is_punct PunctuationKind.question (current ts) && leb m 2)
        (some (parse_conditional prec lhs ts)) _ (parse_conditional-Moves lhs ts)
        (chain_op-Moves m lhs ts (try_parse_binary_op (current ts)))

  -- a loop that goes on as `next` does, moves if `next` does
  loop-Moves :
      (next : Expr → Tokens → Result (Expr × Tokens)) (e : Expr) (ts : Tokens)
      (r : Option (Result (Expr × Tokens)))
      → ((e' : Expr) (rest : Tokens) → Moves (suc (length rest)) (next e' rest))
      → StepMoves (length ts) r
      → Moves (suc (length ts)) (elim r as (λ _. Result (Expr × Tokens)) [
        | none ↦ ok (e, ts)
        | some step ↦ step >>= λ (e', rest). next e' rest
      ])
  loop-Moves next e ts none moves h = omega arith
  loop-Moves next e ts (some step) moves h =
      Moves-bind (length ts) (suc (length ts)) step _ h (λ e' rest small.
        Moves-mono (suc (length rest)) (suc (length ts)) (next e' rest) (omega arith)
          (moves e' rest))

  prefix_loop-Moves :
      (n : ℕ) (e : Expr) (ts : Tokens) → Moves (suc (length ts)) (prefix_loop n prec e ts)
  unfolding prefix_loop
  prefix_loop-Moves zero e ts = tt
  prefix_loop-Moves (suc n) e ts =
      loop-Moves (prefix_loop n prec) e ts (prefix_step prec e ts) (prefix_loop-Moves n)
        (prefix_step-Moves e ts)

  chain_loop-Moves :
      (n m : ℕ) (e : Expr) (ts : Tokens) → Moves (suc (length ts)) (chain_loop n prec m e ts)
  unfolding chain_loop
  chain_loop-Moves zero m e ts = tt
  chain_loop-Moves (suc n) m e ts =
      loop-Moves (chain_loop n prec m) e ts (chain_step prec m e ts) (chain_loop-Moves n m)
        (chain_step-Moves m e ts)

  parse_inner-Moves : (limit m : ℕ) (ts : Tokens) → Moves (length ts) (parse_inner limit prec m ts)
  unfolding parse_inner parse_prefix
  parse_inner-Moves limit m ts =
      Moves-bind (length ts) (length ts) (parse_prefix limit prec ts) _
        (Moves-bind (length ts) (length ts) (parse_head prec ts) _ (parse_head-Moves ts)
          (λ e rest h.
            Moves-mono (suc (length rest)) (length ts) (prefix_loop limit prec e rest) (omega arith)
              (prefix_loop-Moves limit e rest)))
        (λ e rest h.
          Moves-mono (suc (length rest)) (length ts) (chain_loop limit prec m e rest) (omega arith)
            (chain_loop-Moves limit m e rest))

precedence-Moves : (limit d : ℕ) → Moving (parse_expression_with_precedence limit d)
unfolding parse_expression_with_precedence
precedence-Moves limit zero m ts = tt
precedence-Moves limit (suc d) m ts =
    parse_inner-Moves (parse_expression_with_precedence limit d) (precedence-Moves limit d) limit m
      ts

Moves-ne : {A : Type 0} (n : ℕ) (r : Result (A × Tokens)) → Moves n r → r ≢ err out_of_fuel
Moves-ne n (ok (a, rest)) h = cc
Moves-ne n (err out_of_fuel) h = absurd h
Moves-ne n (err e) h = cc

-- The expression parser ends on every list of tokens: it never runs out of the rounds that the model
-- gives the loops over arguments and over the path of a constructor. If it reads an expression, it
-- has taken a token at least.
pub parse_expression_ends :
    (ts : Tokens)
    → (parse_expression ts ≢ err out_of_fuel)
      × ((e : Expr) (rest : Tokens) → parse_expression ts ≡ ok (e, rest) → length rest < length ts)
unfolding parse_expression
parse_expression_ends ts =
    let moves =
      parse_expr-Moves (parse_expression_with_precedence max_chain_len max_parse_depth)
        (precedence-Moves max_chain_len max_parse_depth) ts in
    (
      Moves-ne (length ts) (parse_expression ts) moves,
      λ e rest h. subst (Moves (length ts)) h moves,
    )
