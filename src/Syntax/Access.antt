-- ===== src/Syntax/Access.antt =====
-- Accesses, calls and `new` read off their print: `parse_prefix` of
-- crates/yps-parser/src/parser/expr.rs.
use mathlib.Core.List.{append_assoc}
use yoptascript_rs.Prelude.{
  ℕ, zero, suc, ◌<◌, ◌≡◌, refl, ap, ◌∙◌, true, false, some, List, ◌⊎◌, inl, inr, [], ◌∷◌, ◌++◌,
  arith,
}
use yoptascript_rs.Syntax.Ops.{PostfixOp, increment, decrement}
use yoptascript_rs.Syntax.Tokens.{
  PunctuationKind, Tokens, identifier, private_identifier, punctuation,
}
use yoptascript_rs.Syntax.Tree.{Expr, Exprs}
use yoptascript_rs.Syntax.Parse.{
  ok, ◌>>=◌, Prec, expect_punct, parse_call, parse_index, parse_member, parse_optional_chain,
}
use yoptascript_rs.Syntax.Climb.{prefix_step, prefix_loop, parse_prefix}
use yoptascript_rs.Syntax.Print.{name_token, postfix_token, wrapped, print_items}
use yoptascript_rs.Syntax.Shape.{regroup_all}
use yoptascript_rs.Syntax.Reads.{at_depth, PrefixReads, ExprReads}
use yoptascript_rs.Syntax.Items.{AllRead, parse_arguments-reads}

prefix_loop-step :
    (n : ℕ) (prec : Prec) (e e' : Expr) (mid rest : Tokens)
    → 0 < n
    → prefix_step prec e mid ≡ some (ok (e', rest))
    → (n' : ℕ) × (n ≡ suc n') × (prefix_loop n prec e mid ≡ prefix_loop n' prec e' rest)
unfolding prefix_loop
prefix_loop-step zero prec e e' mid rest h s = elim h [ ]
prefix_loop-step (suc n) prec e e' mid rest h s = (n, refl, ground (arith, s))

-- one more access behind what is read
pub prefix_extend :
    (limit d k : ℕ) (e e' : Expr) (ts mid rest : Tokens)
    → PrefixReads limit d e ts mid k
    → k < limit
    → prefix_step (at_depth limit d) e mid ≡ some (ok (e', rest))
    → PrefixReads limit d e' ts rest (suc k)
prefix_extend limit d k e e' ts mid rest (n, bound, reads) h s =
    let (n', more, later) = prefix_loop-step n (at_depth limit d) e e' mid rest (omega arith) s in
    (n', omega arith, reads ∙ later)

pub prefix_cast :
    (limit d k : ℕ) (e : Expr) (ts ts' rest : Tokens)
    → ts ≡ ts'
    → PrefixReads limit d e ts' rest k
    → PrefixReads limit d e ts rest k
prefix_cast limit d k e ts ts' rest same (n, bound, reads) =
    (n, bound, ap (parse_prefix limit (at_depth limit d)) same ∙ reads)

pub name_token-cases :
    (name : List ℕ)
    → (name_token name ≡ identifier name) ⊎ (name_token name ≡ private_identifier name)
unfolding name_token
name_token-cases [] = inl refl
name_token-cases (c ∷ cs) = ground arith

prefix_step-postfix :
    (prec : Prec) (e : Expr) (op : PostfixOp) (rest : Tokens)
    → prefix_step prec e (postfix_token op ∷ rest) ≡ some (ok (Expr.postfix op e, rest))
unfolding prefix_step postfix_token
prefix_step-postfix prec e increment rest = refl
prefix_step-postfix prec e decrement rest = refl

module _ (limit d k : ℕ) (e : Expr) (printed : Tokens)
    (head : (rest : Tokens) → PrefixReads limit d e (printed ++ rest) rest k)
    (small : k < limit) where
  pub call_reads :
      (args : Exprs) (rest : Tokens)
      → AllRead limit d args
      → PrefixReads limit d
          (Expr.call e (regroup_all args))
          ((printed ++ wrapped true (print_items args)) ++ rest)
          rest
          (suc k)
  unfolding prefix_step parse_call wrapped
  call_reads args rest h =
      let behind = print_items args ++ punctuation PunctuationKind.r_paren ∷ rest in
      let whole =
        append_assoc printed (wrapped true (print_items args)) rest
        ∙ ap (λ t. printed ++ punctuation PunctuationKind.l_paren ∷ t)
            (append_assoc (print_items args) (punctuation PunctuationKind.r_paren ∷ []) rest) in
      let step =
        ap (λ r. some (r >>= λ (es, left). ok (Expr.call e es, left)))
          (parse_arguments-reads limit d false args rest h) in
      prefix_cast limit d (suc k) (Expr.call e (regroup_all args)) _
        (printed ++ punctuation PunctuationKind.l_paren ∷ behind) rest whole
        (prefix_extend limit d k e _ _ (punctuation PunctuationKind.l_paren ∷ behind) rest
          (head (punctuation PunctuationKind.l_paren ∷ behind)) small step)

  pub optional_call_reads :
      (args : Exprs) (rest : Tokens)
      → AllRead limit d args
      → PrefixReads limit d
          (Expr.optional_call e (regroup_all args))
          ((printed ++ punctuation PunctuationKind.optional_chain ∷ wrapped true (print_items args))
            ++ rest)
          rest
          (suc k)
  unfolding prefix_step parse_optional_chain wrapped
  optional_call_reads args rest h =
      let behind =
        punctuation PunctuationKind.optional_chain
        ∷ punctuation PunctuationKind.l_paren
        ∷ (print_items args ++ punctuation PunctuationKind.r_paren ∷ rest) in
      let whole =
        append_assoc printed
          (punctuation PunctuationKind.optional_chain ∷ wrapped true (print_items args)) rest
        ∙ ap
            (λ t.
              printed
              ++ punctuation PunctuationKind.optional_chain
                ∷ punctuation PunctuationKind.l_paren
                ∷ t)
            (append_assoc (print_items args) (punctuation PunctuationKind.r_paren ∷ []) rest) in
      let step =
        ap (λ r. some (r >>= λ (es, left). ok (Expr.optional_call e es, left)))
          (parse_arguments-reads limit d false args rest h) in
      prefix_cast limit d (suc k) (Expr.optional_call e (regroup_all args)) _ (printed ++ behind)
        rest whole (prefix_extend limit d k e _ _ behind rest (head behind) small step)

  pub member_reads :
      (name : List ℕ) (rest : Tokens)
      → PrefixReads limit d
          (Expr.member e name)
          ((printed ++ punctuation PunctuationKind.dot ∷ name_token name ∷ []) ++ rest)
          rest
          (suc k)
  unfolding prefix_step parse_member
  member_reads name rest =
      let behind = punctuation PunctuationKind.dot ∷ name_token name ∷ rest in
      prefix_cast limit d (suc k) (Expr.member e name) _ (printed ++ behind) rest
        (append_assoc printed (punctuation PunctuationKind.dot ∷ name_token name ∷ []) rest)
        (prefix_extend limit d k e _ _ behind rest (head behind) small
          (elim (name_token-cases name) [
            | inl plain ↦
                ap
                  (λ t.
                    prefix_step (at_depth limit d) e (punctuation PunctuationKind.dot ∷ t ∷ rest))
                  plain
            | inr hidden ↦
                ap
                  (λ t.
                    prefix_step (at_depth limit d) e (punctuation PunctuationKind.dot ∷ t ∷ rest))
                  hidden
          ]))

  pub optional_member_reads :
      (name : List ℕ) (rest : Tokens)
      → name_token name ≡ identifier name
      → PrefixReads limit d
          (Expr.optional_member e name)
          ((printed ++ punctuation PunctuationKind.optional_chain ∷ name_token name ∷ []) ++ rest)
          rest
          (suc k)
  unfolding prefix_step parse_optional_chain
  optional_member_reads name rest plain =
      let behind = punctuation PunctuationKind.optional_chain ∷ name_token name ∷ rest in
      prefix_cast limit d (suc k) (Expr.optional_member e name) _ (printed ++ behind) rest
        (append_assoc printed (punctuation PunctuationKind.optional_chain ∷ name_token name ∷ [])
          rest)
        (prefix_extend limit d k e _ _ behind rest (head behind) small (
          ap
            (λ t.
              prefix_step (at_depth limit d) e
                (punctuation PunctuationKind.optional_chain ∷ t ∷ rest))
            plain))

  pub index_reads :
      (key : Expr) (inner rest : Tokens)
      → ExprReads limit d key
          (inner ++ punctuation PunctuationKind.r_bracket ∷ rest)
          (punctuation PunctuationKind.r_bracket ∷ rest)
      → PrefixReads limit d
          (Expr.index e key)
          ((printed
              ++ punctuation PunctuationKind.l_bracket
                ∷ (inner ++ punctuation PunctuationKind.r_bracket ∷ []))
            ++ rest)
          rest
          (suc k)
  unfolding prefix_step parse_index expect_punct
  index_reads key inner rest reads =
      let behind =
        punctuation PunctuationKind.l_bracket
        ∷ (inner ++ punctuation PunctuationKind.r_bracket ∷ rest) in
      let whole =
        append_assoc printed
          (punctuation PunctuationKind.l_bracket
            ∷ (inner ++ punctuation PunctuationKind.r_bracket ∷ []))
          rest
        ∙ ap (λ t. printed ++ punctuation PunctuationKind.l_bracket ∷ t)
            (append_assoc inner (punctuation PunctuationKind.r_bracket ∷ []) rest) in
      let step =
        ap
          (λ r. some (
            r >>= λ (i, left).
            expect_punct PunctuationKind.r_bracket left >>= λ after. ok (Expr.index e i, after)))
          reads in
      prefix_cast limit d (suc k) (Expr.index e key) _ (printed ++ behind) rest whole
        (prefix_extend limit d k e _ _ behind rest (head behind) small step)

  pub optional_index_reads :
      (key : Expr) (inner rest : Tokens)
      → ExprReads limit d key
          (inner ++ punctuation PunctuationKind.r_bracket ∷ rest)
          (punctuation PunctuationKind.r_bracket ∷ rest)
      → PrefixReads limit d
          (Expr.optional_index e key)
          ((printed
              ++ punctuation PunctuationKind.optional_chain
                ∷ punctuation PunctuationKind.l_bracket
                ∷ (inner ++ punctuation PunctuationKind.r_bracket ∷ []))
            ++ rest)
          rest
          (suc k)
  unfolding prefix_step parse_optional_chain expect_punct
  optional_index_reads key inner rest reads =
      let behind =
        punctuation PunctuationKind.optional_chain
        ∷ punctuation PunctuationKind.l_bracket
        ∷ (inner ++ punctuation PunctuationKind.r_bracket ∷ rest) in
      let whole =
        append_assoc printed
          (punctuation PunctuationKind.optional_chain
            ∷ punctuation PunctuationKind.l_bracket
            ∷ (inner ++ punctuation PunctuationKind.r_bracket ∷ []))
          rest
        ∙ ap
            (λ t.
              printed
              ++ punctuation PunctuationKind.optional_chain
                ∷ punctuation PunctuationKind.l_bracket
                ∷ t)
            (append_assoc inner (punctuation PunctuationKind.r_bracket ∷ []) rest) in
      let step =
        ap
          (λ r. some (
            r >>= λ (i, left). expect_punct PunctuationKind.r_bracket left >>= λ after.
            ok (Expr.optional_index e i, after)))
          reads in
      prefix_cast limit d (suc k) (Expr.optional_index e key) _ (printed ++ behind) rest whole
        (prefix_extend limit d k e _ _ behind rest (head behind) small step)

  pub postfix_reads :
      (op : PostfixOp) (rest : Tokens)
      → PrefixReads limit d
          (Expr.postfix op e)
          ((printed ++ postfix_token op ∷ []) ++ rest)
          rest
          (suc k)
  unfolding prefix_step postfix_token
  postfix_reads op rest =
      prefix_cast limit d (suc k) (Expr.postfix op e) _ (printed ++ postfix_token op ∷ rest) rest
        (append_assoc printed (postfix_token op ∷ []) rest)
        (prefix_extend limit d k e _ _ (postfix_token op ∷ rest) rest
          (head (postfix_token op ∷ rest)) small (prefix_step-postfix (at_depth limit d) e op rest))
