-- ===== src/Syntax/Reads.antt =====
-- What it means that the parser of crates/yps-parser/src/parser/expr.rs reads an expression off the
-- front of its tokens, and how one reading gives another.
use mathlib.Core.List.{append_assoc}
use yoptascript_rs.Prelude.{ℕ, zero, suc, ◌+◌, ◌≤◌, ◌<◌, ◌≡◌, ap, ◌∙◌, true, [], ◌∷◌, ◌++◌, arith}
use yoptascript_rs.Syntax.Tokens.{PunctuationKind, Tokens, punctuation}
use yoptascript_rs.Syntax.Tree.{Expr}
use yoptascript_rs.Syntax.Parse.{
  ok, ◌>>=◌, Prec, current, expect_punct, parse_expr, parse_grouping, parse_primary,
}
use yoptascript_rs.Syntax.Climb.{
  parse_head, prefix_loop, parse_prefix, chain_loop, parse_inner, parse_expression_with_precedence,
}
use yoptascript_rs.Syntax.Print.{wrapped}
use yoptascript_rs.Syntax.Follow.{
  stops, follows, stops-closer, chain_step-stops, prefix_step-follows,
}
use yoptascript_rs.Syntax.Begin.{Begins, parse_expr-Begins}

abbrev pub at_depth : ℕ → ℕ → Prec
at_depth limit d = parse_expression_with_precedence limit d

-- a head is read, and of the loop behind it at most `k` rounds are gone
abbrev pub PrefixReads : ℕ → ℕ → Expr → Tokens → Tokens → ℕ → Type 0
PrefixReads limit d e ts rest k =
    (n : ℕ) × (limit ≤ n + k)
    × (parse_prefix limit (at_depth limit d) ts ≡ prefix_loop n (at_depth limit d) e rest)

abbrev pub ChainReads : ℕ → ℕ → ℕ → Expr → Tokens → Tokens → ℕ → Type 0
ChainReads limit d m e ts rest k =
    (n : ℕ) × (limit ≤ n + k)
    × (parse_inner limit (at_depth limit d) m ts ≡ chain_loop n (at_depth limit d) m e rest)

abbrev pub PrimaryReads : ℕ → ℕ → Expr → Tokens → Tokens → Type 0
PrimaryReads limit d e ts rest = parse_primary (at_depth limit d) ts ≡ ok (e, rest)

abbrev pub ExprReads : ℕ → ℕ → Expr → Tokens → Tokens → Type 0
ExprReads limit d e ts rest = parse_expr (at_depth limit d) ts ≡ ok (e, rest)

prefix_loop-ends :
    (n p : ℕ) (prec : Prec) (e : Expr) (rest : Tokens)
    → 0 < n
    → follows p (current rest) ≡ true
    → prefix_loop n prec e rest ≡ ok (e, rest)
unfolding prefix_loop
prefix_loop-ends zero p prec e rest h f = elim h [ ]
prefix_loop-ends (suc n) p prec e rest h f = ground (arith, prefix_step-follows prec p e rest f)

chain_loop-ends :
    (n m : ℕ) (prec : Prec) (e : Expr) (rest : Tokens)
    → 0 < n
    → stops m (current rest) ≡ true
    → chain_loop n prec m e rest ≡ ok (e, rest)
unfolding chain_loop
chain_loop-ends zero m prec e rest h f = elim h [ ]
chain_loop-ends (suc n) m prec e rest h f = ground (arith, chain_step-stops prec m e rest f)

module _ (limit d : ℕ) where
  pub chain_of_prefix :
      (m p k : ℕ) (e : Expr) (ts rest : Tokens)
      → PrefixReads limit d e ts rest k
      → k < limit
      → follows p (current rest) ≡ true
      → ChainReads limit d m e ts rest 0
  unfolding parse_inner
  chain_of_prefix m p k e ts rest (n, bound, reads) h f = (
    limit,
    omega arith,
    ap (λ r. r >>= λ (lhs, left). chain_loop limit (at_depth limit d) m lhs left)
        (reads ∙ prefix_loop-ends n p (at_depth limit d) e rest (omega arith) f),
  )

  pub prec_of_chain :
      (m k : ℕ) (e : Expr) (ts rest : Tokens)
      → ChainReads limit d m e ts rest k
      → k < limit
      → stops m (current rest) ≡ true
      → at_depth limit (suc d) m ts ≡ ok (e, rest)
  unfolding parse_expression_with_precedence
  prec_of_chain m k e ts rest (n, bound, reads) h s =
      reads ∙ chain_loop-ends n m (at_depth limit d) e rest (omega arith) s

  pub expr_of_chain :
      (k : ℕ) (e : Expr) (ts rest : Tokens)
      → ChainReads limit d 0 e ts rest k
      → k < limit
      → follows 0 (current rest) ≡ true
      → Begins ts
      → ExprReads limit (suc d) e ts rest
  expr_of_chain k e ts rest reads h f b =
      parse_expr-Begins ts b (at_depth limit (suc d))
      ∙ prec_of_chain 0 k e ts rest reads h (stops-closer 0 (current rest) f)

  pub primary_of_wrapped :
      (e : Expr) (body rest : Tokens)
      → ExprReads limit d e
          (body ++ punctuation PunctuationKind.r_paren ∷ rest)
          (punctuation PunctuationKind.r_paren ∷ rest)
      → PrimaryReads limit d (Expr.grouping e) (wrapped true body ++ rest) rest
  unfolding wrapped parse_primary expect_punct
  primary_of_wrapped e body rest reads =
      ap (λ t. parse_grouping (at_depth limit d) (punctuation PunctuationKind.l_paren ∷ t))
        (append_assoc body (punctuation PunctuationKind.r_paren ∷ []) rest)
      ∙ ap
          (λ r. r >>= λ (inner, left). expect_punct PunctuationKind.r_paren left >>= λ behind.
            ok (Expr.grouping inner, behind))
          reads

  pub prefix_of_wrapped :
      (e : Expr) (body rest : Tokens)
      → ExprReads limit d e
          (body ++ punctuation PunctuationKind.r_paren ∷ rest)
          (punctuation PunctuationKind.r_paren ∷ rest)
      → PrefixReads limit d (Expr.grouping e) (wrapped true body ++ rest) rest 0
  unfolding parse_prefix parse_head wrapped
  prefix_of_wrapped e body rest reads = (
    limit,
    omega arith,
    ap (λ r. r >>= λ (head, left). prefix_loop limit (at_depth limit d) head left)
        (primary_of_wrapped e body rest reads),
  )
