-- ===== src/Syntax/Apart.antt =====
-- What an access begins with when crates/yps-fmt/src/printer.rs prints it: no sign, so a prefix
-- operator in front of it stays a token of its own.
use mathlib.Core.List.{append_assoc}
use yoptascript_rs.Prelude.{ℕ, ltb, ◌≡◌, refl, ap, ◌∙◌, Bool, true, false, List, ◌∷◌, ◌++◌, arith}
use yoptascript_rs.Syntax.Ops.{UnaryOp, binary_precedence}
use yoptascript_rs.Syntax.Tokens.{Tokens, identifier}
use yoptascript_rs.Syntax.Tree.{Literal, Expr}
use yoptascript_rs.Syntax.Print.{print_literal, wrapped, print_expr}
use yoptascript_rs.Syntax.Shape.{IsPrintable, tight, apart}
use yoptascript_rs.Syntax.Begin.{name_token-public}

apart-identifier :
    (op : UnaryOp) (name : List ℕ) (ts : Tokens) → apart op (identifier name ∷ ts) ≡ true
unfolding apart
apart-identifier UnaryOp.plus name ts = refl
apart-identifier UnaryOp.minus name ts = refl
apart-identifier op name ts = refl

apart-literal : (op : UnaryOp) (v : Literal) (ts : Tokens) → apart op (print_literal v ∷ ts) ≡ true
unfolding apart print_literal
apart-literal op (Literal.boolean true) ts = ground arith
apart-literal op (Literal.boolean false) ts = ground arith
apart-literal op v ts = ground arith

apart-wrapped :
    (op : UnaryOp) (b : Bool) (ts more : Tokens) → b ≡ true → apart op (wrapped b ts ++ more) ≡ true
unfolding apart wrapped
apart-wrapped op true ts more h = ground arith
apart-wrapped op false ts more h = cc

apart-behind :
    (op : UnaryOp) (a b ts : Tokens)
    → ((more : Tokens) → apart op (a ++ more) ≡ true)
    → apart op ((a ++ b) ++ ts) ≡ true
apart-behind op a b ts h = ap (apart op) (append_assoc a b ts) ∙ h (b ++ ts)

-- the print in front of an access begins with no sign
pub apart-tight :
    (op : UnaryOp) (e : Expr)
    → IsPrintable false e
    → tight 14 e ≡ true
    → (ts : Tokens) → apart op (print_expr e 14 ++ ts) ≡ true
unfolding IsPrintable tight print_expr apart
apart-tight op (Expr.grouping e) h t ts = apart-tight op e h t ts
apart-tight op (Expr.identifier name) h t ts =
    rw (name_token-public name h) (apart-identifier op name ts)
apart-tight op (Expr.literal v) h t ts = apart-literal op v ts
apart-tight op (Expr.array elements) h t ts = ground arith
apart-tight op Expr.this h t ts = ground arith
apart-tight op Expr.super h t ts = ground arith
apart-tight op (Expr.unary o e) h t ts = cc
apart-tight op (Expr.await e) h t ts = cc
apart-tight op (Expr.spread e) h t ts = cc
apart-tight op (Expr.binary o l r) h t ts = apart-wrapped op (ltb (binary_precedence o) 14) _ ts t
apart-tight op (Expr.postfix o e) h t ts = ground arith
apart-tight op (Expr.conditional c a b) h t ts = ground arith
apart-tight op (Expr.new e args) h t ts = ground arith
apart-tight op (Expr.yield d e) h t ts = ground arith
apart-tight op (Expr.yield_nothing d) h t ts = ground arith
apart-tight op (Expr.call e args) h t ts =
    apart-behind op (print_expr e 14) _ ts (apart-tight op e h.0 h.1)
apart-tight op (Expr.index e key) h t ts =
    apart-behind op (print_expr e 14) _ ts (apart-tight op e h.0 h.1)
apart-tight op (Expr.member e name) h t ts =
    apart-behind op (print_expr e 14) _ ts (apart-tight op e h.0 h.1)
apart-tight op (Expr.optional_member e name) h t ts =
    apart-behind op (print_expr e 14) _ ts (apart-tight op e h.0 h.1)
apart-tight op (Expr.optional_index e key) h t ts =
    apart-behind op (print_expr e 14) _ ts (apart-tight op e h.0 h.1)
apart-tight op (Expr.optional_call e args) h t ts =
    apart-behind op (print_expr e 14) _ ts (apart-tight op e h.0 h.1)
