-- ===== src/Syntax/Format.antt =====
-- What the formatter's print of an expression means to the parser: crates/yps-fmt/src/printer.rs and
-- crates/yps-parser/src/parser/expr.rs.
use mathlib.Core.List.{append-nil}
use yoptascript_rs.Prelude.{
  ℕ, ◌+◌, ◌*◌, ◌<◌, ltb, ◌≡◌, refl, sym, ap, ◌∙◌, Bool, true, false, List, [], ◌∷◌, ◌++◌, arith,
}
use yoptascript_rs.Syntax.Ops.{UnaryOp, binary_precedence}
use yoptascript_rs.Syntax.Tokens.{PunctuationKind, Tokens, punctuation}
use yoptascript_rs.Syntax.Tree.{Expr, Exprs, nil, cons}
use yoptascript_rs.Syntax.Parse.{current, ok}
use yoptascript_rs.Syntax.Climb.{parse_expression, max_parse_depth, max_chain_len}
use yoptascript_rs.Syntax.Print.{
  print_expr, print_items, print_more, wrapped, left_prec, right_prec, name_token, unary_token,
}
use yoptascript_rs.Syntax.Shape.{
  ungroup, ungroup_all, grouped, regroup, regroup_all, IsPrintable, height, size, tight, apart,
  print_unary-apart,
}
use yoptascript_rs.Syntax.Apart.{apart-tight}
use yoptascript_rs.Syntax.Follow.{follows}
use yoptascript_rs.Syntax.RoundTrip.{expr_facts}

ungroup-grouped : (b : Bool) (e : Expr) → ungroup (grouped b e) ≡ ungroup e
unfolding ungroup
ungroup-grouped true e = refl
ungroup-grouped false e = refl

mutual
  unfolding ungroup regroup

  ungroup-regroup : (e : Expr) (p : ℕ) → ungroup (regroup e p) ≡ ungroup e
  ungroup-regroup (Expr.grouping e) p = ungroup-regroup e p
  ungroup-regroup (Expr.identifier name) p = refl
  ungroup-regroup (Expr.literal value) p = refl
  ungroup-regroup (Expr.array es) p = cc (ungroup-regroup_all es)
  ungroup-regroup (Expr.unary op e) p = ungroup-grouped (ltb 16 p) _ ∙ cc (ungroup-regroup e 16)
  ungroup-regroup (Expr.binary op l r) p =
      ungroup-grouped (ltb (binary_precedence op) p) _
      ∙ cc (ungroup-regroup l (left_prec op), ungroup-regroup r (right_prec op))
  ungroup-regroup (Expr.postfix op e) p = ungroup-grouped (ltb 13 p) _ ∙ cc (ungroup-regroup e 13)
  ungroup-regroup (Expr.call e args) p = cc (ungroup-regroup e 14, ungroup-regroup_all args)
  ungroup-regroup (Expr.index e key) p = cc (ungroup-regroup e 14, ungroup-regroup key 0)
  ungroup-regroup (Expr.member e name) p = cc (ungroup-regroup e 14)
  ungroup-regroup (Expr.optional_member e name) p = cc (ungroup-regroup e 14)
  ungroup-regroup (Expr.optional_index e key) p = cc (ungroup-regroup e 14, ungroup-regroup key 0)
  ungroup-regroup (Expr.optional_call e args) p =
      cc (ungroup-regroup e 14, ungroup-regroup_all args)
  ungroup-regroup (Expr.conditional c t e) p =
      ungroup-grouped (ltb 2 p) _
      ∙ cc (ungroup-regroup c 3, ungroup-regroup t 0, ungroup-regroup e 2)
  ungroup-regroup (Expr.spread e) p = cc (ungroup-regroup e 0)
  ungroup-regroup Expr.this p = refl
  ungroup-regroup Expr.super p = refl
  ungroup-regroup (Expr.new e args) p =
      ungroup-grouped (ltb 14 p) _ ∙ cc (ungroup-regroup e 14, ungroup-regroup_all args)
  ungroup-regroup (Expr.yield delegate e) p = ungroup-grouped (ltb 1 p) _ ∙ cc (ungroup-regroup e 0)
  ungroup-regroup (Expr.yield_nothing delegate) p = ungroup-grouped (ltb 1 p) _
  ungroup-regroup (Expr.await e) p = ungroup-grouped (ltb 16 p) _ ∙ cc (ungroup-regroup e 16)

  ungroup-regroup_all : (es : Exprs) → ungroup_all (regroup_all es) ≡ ungroup_all es
  ungroup-regroup_all nil = refl
  ungroup-regroup_all (cons e es) = cc (ungroup-regroup e 0, ungroup-regroup_all es)

print-grouped : (b : Bool) (e : Expr) (p : ℕ) → print_expr (grouped b e) p ≡ print_expr e p
unfolding print_expr
print-grouped true e p = refl
print-grouped false e p = refl

mutual
  unfolding print_expr regroup

  print-regroup : (e : Expr) (p : ℕ) → print_expr (regroup e p) p ≡ print_expr e p
  print-regroup (Expr.grouping e) p = print-regroup e p
  print-regroup (Expr.identifier name) p = refl
  print-regroup (Expr.literal value) p = refl
  print-regroup (Expr.array es) p = cc (print-regroup_all es)
  print-regroup (Expr.unary op e) p = print-grouped (ltb 16 p) _ p ∙ cc (print-regroup e 16)
  print-regroup (Expr.binary op l r) p =
      print-grouped (ltb (binary_precedence op) p) _ p
      ∙ cc (print-regroup l (left_prec op), print-regroup r (right_prec op))
  print-regroup (Expr.postfix op e) p = print-grouped (ltb 13 p) _ p ∙ cc (print-regroup e 13)
  print-regroup (Expr.call e args) p = cc (print-regroup e 14, print-regroup_all args)
  print-regroup (Expr.index e key) p = cc (print-regroup e 14, print-regroup key 0)
  print-regroup (Expr.member e name) p = cc (print-regroup e 14)
  print-regroup (Expr.optional_member e name) p = cc (print-regroup e 14)
  print-regroup (Expr.optional_index e key) p = cc (print-regroup e 14, print-regroup key 0)
  print-regroup (Expr.optional_call e args) p = cc (print-regroup e 14, print-regroup_all args)
  print-regroup (Expr.conditional c t e) p =
      print-grouped (ltb 2 p) _ p ∙ cc (print-regroup c 3, print-regroup t 0, print-regroup e 2)
  print-regroup (Expr.spread e) p = cc (print-regroup e 0)
  print-regroup Expr.this p = refl
  print-regroup Expr.super p = refl
  print-regroup (Expr.new e args) p =
      print-grouped (ltb 14 p) _ p ∙ cc (print-regroup e 14, print-regroup_all args)
  print-regroup (Expr.yield delegate e) p = print-grouped (ltb 1 p) _ p ∙ cc (print-regroup e 0)
  print-regroup (Expr.yield_nothing delegate) p = print-grouped (ltb 1 p) _ p
  print-regroup (Expr.await e) p = print-grouped (ltb 16 p) _ p ∙ cc (print-regroup e 16)

  print-regroup_all : (es : Exprs) → print_items (regroup_all es) ≡ print_items es
  print-regroup_all nil = refl
  print-regroup_all (cons e es) = cc (print-regroup e 0, print-regroup_more es)

  print-regroup_more : (es : Exprs) → print_more (regroup_all es) ≡ print_more es
  print-regroup_more nil = refl
  print-regroup_more (cons e es) = cc (print-regroup e 0, print-regroup_more es)

reads_regrouped :
    (e : Expr) (rest : Tokens)
    → IsPrintable false e
    → 2 * height e < max_parse_depth
    → size e < max_chain_len
    → follows 0 (current rest) ≡ true
    → parse_expression (print_expr e 0 ++ rest) ≡ ok (regroup e 0, rest)
unfolding parse_expression
reads_regrouped e rest h hd s f = (expr_facts max_chain_len e h).expr max_parse_depth rest f hd s

-- The parser reads the formatter's print of a printable expression, with anything behind it that ends
-- an expression, up to there, and what it reads is that expression but for parentheses. An expression
-- is not printable if a prefix `-` or `+` in it stands directly before the print of an operand that
-- begins with the same sign, such as -(-a), or if the parentheses that the printer drops were needed
-- in front of an access or a call or around a `yield`. A name is taken to be no keyword. The
-- expression is nested less than half as deep as `MAX_PARSE_DEPTH` and has fewer operations than
-- `MAX_CHAIN_LEN`.
pub format_reads_back :
    (e : Expr) (rest : Tokens)
    → IsPrintable false e
    → 2 * height e < max_parse_depth
    → size e < max_chain_len
    → follows 0 (current rest) ≡ true
    → (e' : Expr) × (parse_expression (print_expr e 0 ++ rest) ≡ ok (e', rest))
      × (ungroup e' ≡ ungroup e)
format_reads_back e rest h hd s f =
    (regroup e 0, reads_regrouped e rest h hd s f, ungroup-regroup e 0)

-- Formatting what was read from a formatted expression changes nothing: it prints the same tokens. The
-- expression is as in the theorem above.
pub format_idempotent :
    (e e' : Expr) (rest left : Tokens)
    → IsPrintable false e
    → 2 * height e < max_parse_depth
    → size e < max_chain_len
    → follows 0 (current rest) ≡ true
    → parse_expression (print_expr e 0 ++ rest) ≡ ok (e', left)
    → (print_expr e' 0 ≡ print_expr e 0) × (left ≡ rest)
format_idempotent e e' rest left h hd s f reads =
    let read = reads_regrouped e rest h hd s f in
    let same : e' ≡ regroup e 0 = cc in (ap (λ x. print_expr x 0) same ∙ print-regroup e 0, cc)

-- an identifier, `this` or an access, which are printed alike at every level
unfoldable pub is_access : Expr → Bool
is_access (Expr.identifier name) = true
is_access Expr.this = true
is_access (Expr.call e args) = true
is_access (Expr.index e key) = true
is_access (Expr.member e name) = true
is_access e = false

print-is_access : (e : Expr) → is_access e ≡ true → print_expr e 16 ≡ print_expr e 14
unfolding is_access print_expr
print-is_access (Expr.identifier name) h = refl
print-is_access Expr.this h = refl
print-is_access (Expr.call e args) h = refl
print-is_access (Expr.index e key) h = refl
print-is_access (Expr.member e name) h = refl
print-is_access e h = cc

tight-is_access : (e : Expr) → is_access e ≡ true → tight 14 e ≡ true
unfolding is_access tight
tight-is_access (Expr.identifier name) h = refl
tight-is_access e h = ground arith

-- Where a member is taken of a prefix operation in parentheses, the formatter drops the parentheses:
-- what is read back is the operation on the member. The operand is a printable identifier, `this`
-- or access.
pub format_moves_member :
    (op : UnaryOp) (e : Expr) (name : List ℕ) (rest : Tokens)
    → IsPrintable false e
    → is_access e ≡ true
    → 2 * height e + 4 < max_parse_depth
    → size e + 2 < max_chain_len
    → follows 0 (current rest) ≡ true
    → (e' : Expr) × (parse_expression
          (print_expr (Expr.member (Expr.grouping (Expr.unary op e)) name) 0 ++ rest)
        ≡ ok (e', rest))
      × (ungroup e' ≡ Expr.unary op (Expr.member (ungroup e) name))
unfolding print_expr IsPrintable height size ungroup wrapped
format_moves_member op e name rest h access hd s f =
    let moved = Expr.unary op (Expr.member e name) in
    let dot : Tokens = punctuation PunctuationKind.dot ∷ name_token name ∷ [] in
    let tight = tight-is_access e access in
    let level = print-is_access e access in
    let alone : apart op (print_expr e 16) ≡ true =
      ap (apart op) (level ∙ sym (append-nil (print_expr e 14))) ∙ apart-tight op e h tight [] in
    let before : apart op (print_expr e 14 ++ dot) ≡ true = apart-tight op e h tight dot in
    let same : print_expr (Expr.member (Expr.grouping (Expr.unary op e)) name) 0
        ≡ print_expr moved 0 =
      ap (◌++ dot) (print_unary-apart op (print_expr e 16) alone)
      ∙ ap (λ t. unary_token op ∷ (t ++ dot)) level
      ∙ sym (print_unary-apart op (print_expr e 14 ++ dot) before) in
    let (e', reads, kept) =
      format_reads_back moved rest ((h, tight), before) (omega arith) (omega arith) f in
    (e', ap (λ t. parse_expression (t ++ rest)) same ∙ reads, kept)
