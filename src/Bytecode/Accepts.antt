-- ===== src/Bytecode/Accepts.antt =====
-- Which expressions the compiler takes, said of the expression alone.
use yoptascript_rs.Prelude.{◌≡◌, arith, Bool, true, false, not, ◌&&◌, Option, none, some, List}
use yoptascript_rs.Syntax.Ops.{BinaryOp}
use yoptascript_rs.Bytecode.Values.{Text}
use yoptascript_rs.Bytecode.Tree.{Expr, target, Form, form}
use yoptascript_rs.Bytecode.Locals.{Local, resolve_local}

-- whether the compiler lets a variable be read, and be written
unfoldable pub gets : List Local → Text → Bool
unfolding resolve_local
gets locals name = elim (resolve_local locals name) [
  | none ↦ true
  | some (slot, local) ↦ local.initialized
]

unfoldable pub sets : List Local → Text → Bool
unfolding resolve_local
sets locals name = elim (resolve_local locals name) [
  | none ↦ true
  | some (slot, local) ↦ not local.is_const
]

unfoldable pub accepts_assign : List Local → Option Text → Bool → Bool
unfolding sets
accepts_assign locals none right = false
accepts_assign locals (some x) right = right && sets locals x

unfoldable pub accepts_update : List Local → Option Text → Bool → Bool
unfolding gets sets
accepts_update locals none right = false
accepts_update locals (some x) right = gets locals x && (right && sets locals x)

unfoldable pub accepts_form : List Local → Form → Option Text → Bool → Bool → Bool
unfolding accepts_assign accepts_update
accepts_form locals Form.assigns x left right = accepts_assign locals x right
accepts_form locals (Form.compounds op) x left right = accepts_update locals x right
accepts_form locals (Form.logical_assigns t) x left right = left && accepts_assign locals x right
accepts_form locals f x left right = left && right

-- by the operator: an assignment writes a variable and does not read it, a compound assignment does
-- both, and a logical assignment first reads its left operand
unfoldable pub accepts_operator : List Local → BinaryOp → Option Text → Bool → Bool → Bool
unfolding accepts_assign accepts_update
accepts_operator locals BinaryOp.assign x left right = accepts_assign locals x right
accepts_operator locals BinaryOp.plus_assign x left right = accepts_update locals x right
accepts_operator locals BinaryOp.minus_assign x left right = accepts_update locals x right
accepts_operator locals BinaryOp.mul_assign x left right = accepts_update locals x right
accepts_operator locals BinaryOp.div_assign x left right = accepts_update locals x right
accepts_operator locals BinaryOp.exp_assign x left right = accepts_update locals x right
accepts_operator locals BinaryOp.mod_assign x left right = accepts_update locals x right
accepts_operator locals BinaryOp.bit_and_assign x left right = accepts_update locals x right
accepts_operator locals BinaryOp.bit_or_assign x left right = accepts_update locals x right
accepts_operator locals BinaryOp.bit_xor_assign x left right = accepts_update locals x right
accepts_operator locals BinaryOp.shl_assign x left right = accepts_update locals x right
accepts_operator locals BinaryOp.shr_assign x left right = accepts_update locals x right
accepts_operator locals BinaryOp.ushr_assign x left right = accepts_update locals x right
accepts_operator locals BinaryOp.and_assign x left right = left && accepts_assign locals x right
accepts_operator locals BinaryOp.or_assign x left right = left && accepts_assign locals x right
accepts_operator locals BinaryOp.nullish_assign x left right = left && accepts_assign locals x right
accepts_operator locals op x left right = left && right

pub accepts_operator-form :
    (locals : List Local) (op : BinaryOp) (x : Option Text) (left right : Bool)
    → accepts_operator locals op x left right ≡ accepts_form locals (form op) x left right
unfolding accepts_operator form accepts_form
accepts_operator-form locals op x left right = ground arith

-- Which expressions the compiler takes: only variables are assigned to, no constant local one is, and a local
-- variable is read after it has a value.
unfoldable pub accepts : List Local → Expr → Bool
unfolding gets target accepts_update accepts_operator
accepts locals (Expr.identifier x) = gets locals x
accepts locals (Expr.literal l) = true
accepts locals (Expr.unary op e) = accepts locals e
accepts locals (Expr.binary op l r) =
    accepts_operator locals op (target l) (accepts locals l) (accepts locals r)
accepts locals (Expr.postfix op e) = accepts_update locals (target e) true
accepts locals (Expr.grouping e) = accepts locals e
accepts locals (Expr.conditional c t e) = accepts locals c && (accepts locals t && accepts locals e)
