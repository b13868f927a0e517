-- ===== src/Bytecode/Tree.antt =====
-- The expressions of crates/yps-parser/src/ast/expr.rs that stand for primitive values: no member,
-- index or call, no array or object and no function. The operators and the literals are the parser's.
use yoptascript_rs.Prelude.{ℕ, List}
use yoptascript_rs.Syntax.Ops.{UnaryOp, BinaryOp, PostfixOp}
use yoptascript_rs.Syntax.Tree.{Literal}
use yoptascript_rs.Prelude.{Option, none, some}

pub data Expr : Type 0 where
  identifier : List ℕ → Expr
  literal : Literal → Expr
  unary : UnaryOp → Expr → Expr
  binary : BinaryOp → Expr → Expr → Expr
  postfix : PostfixOp → Expr → Expr
  grouping : Expr → Expr
  conditional : Expr → Expr → Expr → Expr

-- the name in `Expr::Identifier(id)`
unfoldable pub target : Expr → Option (List ℕ)
target (Expr.identifier x) = some x
target e = none

-- the jumps that look at a value and leave it
pub data Test : Type 0 where
  falsy truthy nullish not_nullish : Test

-- The arm of `compile_binary` that an operator goes to, with the operator that a compound assignment
-- is made of.
pub data Form : Type 0 where
  assigns coalesces pipes : Form
  compounds operates : BinaryOp → Form
  logical_assigns shorts : Test → Form

unfoldable pub form : BinaryOp → Form
form BinaryOp.assign = Form.assigns
form BinaryOp.plus_assign = Form.compounds BinaryOp.add
form BinaryOp.minus_assign = Form.compounds BinaryOp.sub
form BinaryOp.mul_assign = Form.compounds BinaryOp.mul
form BinaryOp.div_assign = Form.compounds BinaryOp.div
form BinaryOp.exp_assign = Form.compounds BinaryOp.exp
form BinaryOp.mod_assign = Form.compounds BinaryOp.modulo
form BinaryOp.bit_and_assign = Form.compounds BinaryOp.bit_and
form BinaryOp.bit_or_assign = Form.compounds BinaryOp.bit_or
form BinaryOp.bit_xor_assign = Form.compounds BinaryOp.bit_xor
form BinaryOp.shl_assign = Form.compounds BinaryOp.left_shift
form BinaryOp.shr_assign = Form.compounds BinaryOp.right_shift
form BinaryOp.ushr_assign = Form.compounds BinaryOp.unsigned_right_shift
form BinaryOp.and_assign = Form.logical_assigns Test.falsy
form BinaryOp.or_assign = Form.logical_assigns Test.truthy
form BinaryOp.nullish_assign = Form.logical_assigns Test.not_nullish
form BinaryOp.and = Form.shorts Test.falsy
form BinaryOp.or = Form.shorts Test.truthy
form BinaryOp.nullish_coalescing = Form.coalesces
form BinaryOp.pipeline = Form.pipes
form op = Form.operates op
