-- ===== src/Syntax/Chains.antt =====
-- Heads and the accesses behind them read, when their parts do: crates/yps-parser/src/parser/expr.rs
-- against crates/yps-fmt/src/printer.rs.
use mathlib.Core.List.{append_assoc}
use yoptascript_rs.Prelude.{
  ℕ, suc, ◌*◌, ◌<◌, ◌≡◌, refl, sym, ap, ◌∙◌, true, false, List, [], ◌∷◌, ◌++◌, arith,
}
use yoptascript_rs.Syntax.Tokens.{KeywordKind, PunctuationKind, Token, Tokens, keyword, punctuation}
use yoptascript_rs.Syntax.Tree.{Literal, Expr, Exprs}
use yoptascript_rs.Syntax.Parse.{ok, ◌>>=◌, parse_primary, parse_array}
use yoptascript_rs.Syntax.Climb.{parse_prefix, parse_head, prefix_loop}
use yoptascript_rs.Syntax.Quoted.{unescape_string-quote_string}
use yoptascript_rs.Syntax.Print.{name_token, print_literal, print_expr, print_items}
use yoptascript_rs.Syntax.Shape.{
  is_yield, height, height_all, size, size_all, regroup, regroup_all, IsPrintable, tight, is_path,
}
use yoptascript_rs.Syntax.Follow.{follows}
use yoptascript_rs.Syntax.Begin.{Begins, print_expr-Begins, name_token-public}
use yoptascript_rs.Syntax.Reads.{at_depth, PrimaryReads}
use yoptascript_rs.Syntax.Items.{AllRead, parse_arguments-reads}
use yoptascript_rs.Syntax.Access.{
  call_reads, optional_call_reads, member_reads, optional_member_reads, index_reads,
  optional_index_reads,
}
use yoptascript_rs.Syntax.Operate.{PathReads, path_of_primary, path_member}
use yoptascript_rs.Syntax.Facts.{Facts, weaken_prefix, plain-Facts}
use yoptascript_rs.Syntax.Operands.{Reads}

-- a token that is a primary by itself
atom-Facts :
    (limit : ℕ) (e : Expr) (t : Token)
    → Begins (t ∷ [])
    → ((d : ℕ) (rest : Tokens) → PrimaryReads limit d e (t ∷ rest) rest)
    → ((d : ℕ) (rest : Tokens)
        → parse_head (at_depth limit d) (t ∷ rest) ≡ parse_primary (at_depth limit d) (t ∷ rest))
    → Facts limit e (λ p. t ∷ []) (λ p. e)
unfolding parse_prefix
atom-Facts limit e t b primary head =
    plain-Facts limit e (λ p. t ∷ []) (λ p. e) b
      (λ d p rest h s. (
        limit,
        omega arith,
        ap (λ r. r >>= λ (e', left). prefix_loop limit (at_depth limit d) e' left)
            (head d rest ∙ primary d rest),
      ))
      (λ d rest is h s. path_of_primary limit d e (t ∷ rest) rest (primary d rest))

pub identifier_facts :
    (limit : ℕ) (name : List ℕ)
    → IsPrintable false (Expr.identifier name)
    → Reads limit (Expr.identifier name)
unfolding print_expr regroup IsPrintable is_yield parse_primary parse_head
identifier_facts limit name h =
    atom-Facts limit (Expr.identifier name) (name_token name)
      (print_expr-Begins (Expr.identifier name) 0 h (λ y. cc))
      (λ d rest. ap (λ t. parse_primary (at_depth limit d) (t ∷ rest)) (name_token-public name h))
      (λ d rest.
        ap (λ t. parse_head (at_depth limit d) (t ∷ rest)) (name_token-public name h)
        ∙ ap (λ t. parse_primary (at_depth limit d) (t ∷ rest)) (sym (name_token-public name h)))

literal-Begins : (value : Literal) → Begins (print_literal value ∷ [])
unfolding print_expr IsPrintable is_yield
literal-Begins value = print_expr-Begins (Expr.literal value) 0 tt (λ y. cc)

pub literal_facts : (limit : ℕ) (value : Literal) → Reads limit (Expr.literal value)
unfolding print_expr regroup parse_primary parse_head print_literal
literal_facts limit (Literal.string value) =
    atom-Facts limit _ _ (literal-Begins (Literal.string value))
      (λ d rest.
        ap (λ v. ok (Expr.literal (Literal.string v), rest)) (unescape_string-quote_string value))
      (λ d rest. refl)
literal_facts limit (Literal.boolean true) =
    atom-Facts limit _ _ (literal-Begins (Literal.boolean true)) (λ d rest. refl) (λ d rest. refl)
literal_facts limit (Literal.boolean false) =
    atom-Facts limit _ _ (literal-Begins (Literal.boolean false)) (λ d rest. refl) (λ d rest. refl)
literal_facts limit value =
    atom-Facts limit _ _ (literal-Begins value) (λ d rest. refl) (λ d rest. refl)

pub this_facts : (limit : ℕ) → Reads limit Expr.this
unfolding print_expr regroup parse_primary parse_head is_yield IsPrintable
this_facts limit =
    atom-Facts limit Expr.this (keyword KeywordKind.this)
      (print_expr-Begins Expr.this 0 tt (λ y. cc)) (λ d rest. refl) (λ d rest. refl)

pub super_facts : (limit : ℕ) → Reads limit Expr.super
unfolding print_expr regroup parse_primary parse_head is_yield IsPrintable
super_facts limit =
    atom-Facts limit Expr.super (keyword KeywordKind.super)
      (print_expr-Begins Expr.super 0 tt (λ y. cc)) (λ d rest. refl) (λ d rest. refl)

abbrev pub ArgsRead : ℕ → Exprs → Type 0
ArgsRead limit es = (d : ℕ) → 2 * height_all es < d → size_all es < limit → AllRead limit d es

array_reads :
    (limit d : ℕ) (es : Exprs) (rest : Tokens)
    → AllRead limit d es
    → PrimaryReads limit d
        (Expr.array (regroup_all es))
        ((punctuation PunctuationKind.l_bracket
            ∷ (print_items es ++ punctuation PunctuationKind.r_bracket ∷ []))
          ++ rest)
        rest
unfolding parse_primary
array_reads limit d es rest h =
    ap (λ t. parse_array (at_depth limit d) (punctuation PunctuationKind.l_bracket ∷ t))
      (append_assoc (print_items es) (punctuation PunctuationKind.r_bracket ∷ []) rest)
    ∙ ap (λ r. r >>= λ (elements, left). ok (Expr.array elements, left))
        (parse_arguments-reads limit d true es rest h)

pub array_facts :
    (limit : ℕ) (es : Exprs)
    → IsPrintable false (Expr.array es)
    → ArgsRead limit es
    → Reads limit (Expr.array es)
unfolding print_expr regroup is_yield height size parse_prefix parse_head
array_facts limit es h args =
    plain-Facts limit (Expr.array es) _ _ (print_expr-Begins (Expr.array es) 0 h (λ y. cc))
      (λ d p rest hd s. (
        limit,
        omega arith,
        ap (λ r. r >>= λ (e', left). prefix_loop limit (at_depth limit d) e' left)
            (array_reads limit d es rest (args d (omega arith) (omega arith))),
      ))
      (λ d rest is hd s.
        path_of_primary limit d _ (print_expr (Expr.array es) 14 ++ rest) rest
          (array_reads limit d es rest (args d (omega arith) (omega arith))))

path_cast :
    (limit d : ℕ) (e : Expr) (ts ts' rest : Tokens)
    → ts ≡ ts'
    → PathReads limit d e ts' rest
    → PathReads limit d e ts rest
path_cast limit d e ts ts' rest same (base, mid, k, primary, members, bound) =
    (base, mid, k, ap (parse_primary (at_depth limit d)) same ∙ primary, members, bound)

module _ (limit : ℕ) (e : Expr) (reads : Reads limit e) (head : tight 14 e ≡ true) where
  pub call_facts :
      (args : Exprs)
      → IsPrintable false (Expr.call e args)
      → ArgsRead limit args
      → Reads limit (Expr.call e args)
  unfolding print_expr regroup is_yield is_path height size
  call_facts args h read =
      plain-Facts limit (Expr.call e args) _ _ (print_expr-Begins (Expr.call e args) 0 h (λ y. cc))
        (λ d p rest hd s.
          weaken_prefix limit d (suc (size e)) (size (Expr.call e args)) _ _ rest (omega arith) (
            call_reads limit d (size e) (regroup e 14) (print_expr e 14)
              (λ behind.
                reads.prefix d 14 behind (omega arith) (omega arith) head (ground arith)
                  (omega arith))
              (omega arith) args rest (read d (ground arith) (omega arith))))
        (λ d rest is hd s. cc)

  pub optional_call_facts :
      (args : Exprs)
      → IsPrintable false (Expr.optional_call e args)
      → ArgsRead limit args
      → Reads limit (Expr.optional_call e args)
  unfolding print_expr regroup is_yield is_path height size
  optional_call_facts args h read =
      plain-Facts limit (Expr.optional_call e args) _ _
        (print_expr-Begins (Expr.optional_call e args) 0 h (λ y. cc))
        (λ d p rest hd s.
          weaken_prefix limit d (suc (size e)) (size (Expr.optional_call e args)) _ _ rest
            (omega arith)
            (optional_call_reads limit d (size e) (regroup e 14) (print_expr e 14)
              (λ behind.
                reads.prefix d 14 behind (omega arith) (omega arith) head (ground arith)
                  (omega arith))
              (omega arith) args rest (read d (ground arith) (omega arith))))
        (λ d rest is hd s. cc)

  pub index_facts :
      (key : Expr)
      → IsPrintable false (Expr.index e key)
      → Reads limit key
      → Reads limit (Expr.index e key)
  unfolding print_expr regroup is_yield is_path height size follows
  index_facts key h inner =
      plain-Facts limit (Expr.index e key) _ _ (print_expr-Begins (Expr.index e key) 0 h (λ y. cc))
        (λ d p rest hd s.
          weaken_prefix limit d (suc (size e)) (size (Expr.index e key)) _ _ rest (omega arith) (
            index_reads limit d (size e) (regroup e 14) (print_expr e 14)
              (λ behind.
                reads.prefix d 14 behind (omega arith) (omega arith) head (ground arith)
                  (omega arith))
              (omega arith) (regroup key 0) (print_expr key 0) rest
              (inner.expr d (punctuation PunctuationKind.r_bracket ∷ rest) refl (ground arith)
                (omega arith))))
        (λ d rest is hd s. cc)

  pub optional_index_facts :
      (key : Expr)
      → IsPrintable false (Expr.optional_index e key)
      → Reads limit key
      → Reads limit (Expr.optional_index e key)
  unfolding print_expr regroup is_yield is_path height size follows
  optional_index_facts key h inner =
      plain-Facts limit (Expr.optional_index e key) _ _
        (print_expr-Begins (Expr.optional_index e key) 0 h (λ y. cc))
        (λ d p rest hd s.
          weaken_prefix limit d (suc (size e)) (size (Expr.optional_index e key)) _ _ rest
            (omega arith)
            (optional_index_reads limit d (size e) (regroup e 14) (print_expr e 14)
              (λ behind.
                reads.prefix d 14 behind (omega arith) (omega arith) head (ground arith)
                  (omega arith))
              (omega arith) (regroup key 0) (print_expr key 0) rest
              (inner.expr d (punctuation PunctuationKind.r_bracket ∷ rest) refl (ground arith)
                (omega arith))))
        (λ d rest is hd s. cc)

  pub optional_member_facts :
      (name : List ℕ)
      → IsPrintable false (Expr.optional_member e name)
      → Reads limit (Expr.optional_member e name)
  unfolding print_expr regroup is_yield is_path height size IsPrintable
  optional_member_facts name h =
      plain-Facts limit (Expr.optional_member e name) _ _
        (print_expr-Begins (Expr.optional_member e name) 0 h (λ y. cc))
        (λ d p rest hd s.
          weaken_prefix limit d (suc (size e)) (size (Expr.optional_member e name)) _ _ rest
            (omega arith)
            (optional_member_reads limit d (size e) (regroup e 14) (print_expr e 14)
              (λ behind.
                reads.prefix d 14 behind (omega arith) (omega arith) head (omega arith)
                  (omega arith))
              (omega arith) name rest (name_token-public name h.2)))
        (λ d rest is hd s. cc)

  pub member_facts :
      (name : List ℕ) → IsPrintable false (Expr.member e name) → Reads limit (Expr.member e name)
  unfolding print_expr regroup is_yield is_path height size
  member_facts name h =
      plain-Facts limit (Expr.member e name) _ _
        (print_expr-Begins (Expr.member e name) 0 h (λ y. cc))
        (λ d p rest hd s.
          weaken_prefix limit d (suc (size e)) (size (Expr.member e name)) _ _ rest (omega arith) (
            member_reads limit d (size e) (regroup e 14) (print_expr e 14)
              (λ behind.
                reads.prefix d 14 behind (omega arith) (omega arith) head (omega arith)
                  (omega arith))
              (omega arith) name rest))
        (λ d rest is hd s. path_member limit d (regroup e 14) name _ rest (
          path_cast limit d (regroup e 14) _ _ _
            (append_assoc (print_expr e 14) (punctuation PunctuationKind.dot ∷ name_token name ∷ [])
              rest)
            (reads.path d (punctuation PunctuationKind.dot ∷ name_token name ∷ rest) is
              (omega arith) (omega arith))))
