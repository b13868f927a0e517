-- ===== src/Syntax/Tree.antt =====
-- Expressions: crates/yps-parser/src/ast/expr.rs and crates/yps-parser/src/ast/literal.rs. A node has
-- no position in the text. Left out are functions, templates, object literals, regular expressions,
-- integers of type BigInt and dynamic imports, and `Assignment`, which the parser never makes: it makes
-- a `Binary` with `=`.
use yoptascript_rs.Prelude.{ℕ, Bool, List}
use yoptascript_rs.Syntax.Ops.{UnaryOp, BinaryOp, PostfixOp}

pub data Literal : Type 0 where
  number : List ℕ → Literal
  string : List ℕ → Literal
  boolean : Bool → Literal
  null undefined : Literal

-- `Literal::Array` is `array`, and `Yield` without an argument is `yield_nothing`.
mutual
  pub data Expr : Type 0 where
    identifier : List ℕ → Expr
    literal : Literal → Expr
    array : Exprs → Expr
    unary : UnaryOp → Expr → Expr
    binary : BinaryOp → Expr → Expr → Expr
    postfix : PostfixOp → Expr → Expr
    grouping : Expr → Expr
    call : Expr → Exprs → Expr
    index : Expr → Expr → Expr
    member : Expr → List ℕ → Expr
    optional_member : Expr → List ℕ → Expr
    optional_index : Expr → Expr → Expr
    optional_call : Expr → Exprs → Expr
    conditional : Expr → Expr → Expr → Expr
    spread : Expr → Expr
    this super : Expr
    new : Expr → Exprs → Expr
    yield : Bool → Expr → Expr
    yield_nothing : Bool → Expr
    await : Expr → Expr

  pub data Exprs : Type 0 where
    nil : Exprs
    cons : Expr → Exprs → Exprs
