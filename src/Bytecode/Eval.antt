-- ===== src/Bytecode/Eval.antt =====
-- What an expression means, without code: its value, and the variables after it.
use yoptascript_rs.Prelude.{true, not, Option, none, some, if◌then◌else◌}
use yoptascript_rs.Syntax.Ops.{UnaryOp, BinaryOp, PostfixOp, increment, decrement}
use yoptascript_rs.Syntax.Tree.{Literal}
use yoptascript_rs.Bytecode.Values.{
  Text, is_less, is_greater, Floats, Value, is_truthy, to_number, typeof_str, strict_eq,
  abstract_eq,
}
use yoptascript_rs.Bytecode.Result.{Result, ok, err, ◌>>=◌}
use yoptascript_rs.Bytecode.Machine.{
  VmError, not_a_container, not_a_class, not_callable, shl_bits, shr_bits, Natives, add_values,
  numeric_bin, int_bin, shift_bin, ushr_bin, compare, is_nullish, bit_not_value,
}
use yoptascript_rs.Bytecode.Tree.{Expr, target}
use yoptascript_rs.Bytecode.Fold.{parse_number_literal}
use yoptascript_rs.Bytecode.Locals.{Store, read, write}

abbrev pub Meaning : Type 0 → Type 0
Meaning F = Store F → Result VmError (Value F × Store F)

module _ {F : Type 0} (N : Floats F) where
  unfoldable pub literal_value : Literal → Value F
  unfolding parse_number_literal
  literal_value (Literal.number raw) = Value.number (parse_number_literal N raw)
  literal_value (Literal.string s) = Value.str s
  literal_value (Literal.boolean b) = Value.boolean b
  literal_value Literal.null = Value.null
  literal_value Literal.undefined = Value.undefined

  -- `delete` of what is no member
  unfoldable pub apply_unary : UnaryOp → Value F → Value F
  unfolding to_number is_truthy bit_not_value typeof_str
  apply_unary UnaryOp.plus v = Value.number (to_number N v)
  apply_unary UnaryOp.minus v = Value.number (N.neg (to_number N v))
  apply_unary UnaryOp.not v = Value.boolean (not (is_truthy N v))
  apply_unary UnaryOp.bitwise_not v = bit_not_value N v
  apply_unary UnaryOp.typeof v = Value.str (typeof_str N v)
  apply_unary UnaryOp.delete v = Value.boolean true
  apply_unary UnaryOp.void v = Value.undefined

  -- the operators that have both operands evaluated; the others call
  unfoldable pub apply : BinaryOp → Value F → Value F → Result VmError (Value F)
  unfolding add_values numeric_bin int_bin shift_bin ushr_bin shl_bits shr_bits is_less is_greater
      compare strict_eq abstract_eq
  apply BinaryOp.add a b = ok (add_values N a b)
  apply BinaryOp.sub a b = ok (numeric_bin N N.minus a b)
  apply BinaryOp.mul a b = ok (numeric_bin N N.times a b)
  apply BinaryOp.div a b = ok (numeric_bin N N.divide a b)
  apply BinaryOp.modulo a b = ok (numeric_bin N N.remainder a b)
  apply BinaryOp.exp a b = ok (numeric_bin N N.power a b)
  apply BinaryOp.bit_and a b = ok (int_bin N N.and_bits a b)
  apply BinaryOp.bit_or a b = ok (int_bin N N.or_bits a b)
  apply BinaryOp.bit_xor a b = ok (int_bin N N.xor_bits a b)
  apply BinaryOp.left_shift a b = ok (shift_bin N shl_bits a b)
  apply BinaryOp.right_shift a b = ok (shift_bin N shr_bits a b)
  apply BinaryOp.unsigned_right_shift a b = ok (ushr_bin N a b)
  apply BinaryOp.equals a b = ok (Value.boolean (abstract_eq N a b))
  apply BinaryOp.not_equals a b = ok (Value.boolean (not (abstract_eq N a b)))
  apply BinaryOp.strict_equals a b = ok (Value.boolean (strict_eq N a b))
  apply BinaryOp.strict_not_equals a b = ok (Value.boolean (not (strict_eq N a b)))
  apply BinaryOp.less a b = ok (compare N is_less a b)
  apply BinaryOp.greater a b = ok (compare N is_greater a b)
  apply BinaryOp.less_or_equal a b = ok (compare N (λ o. not (is_greater o)) a b)
  apply BinaryOp.greater_or_equal a b = ok (compare N (λ o. not (is_less o)) a b)
  apply BinaryOp.is_in a b = err not_a_container
  apply BinaryOp.instanceof a b = err not_a_class
  apply op a b = err not_callable

  unfoldable pub one_more : PostfixOp → Value F → Value F
  unfolding to_number
  one_more increment v = Value.number (N.plus (to_number N v) (N.from_int 1))
  one_more decrement v = Value.number (N.minus (to_number N v) (N.from_int 1))

  module _ (natives : Natives F) where
    -- to the variable with the name; nothing else is assigned to
    unfoldable pub eval_assign : Option Text → Meaning F → Meaning F
    unfolding write
    eval_assign none r st = err not_callable
    eval_assign (some x) r st = do (v, st) ← r st; st ← write x v st; ok (v, st)

    unfoldable pub eval_compound : BinaryOp → Option Text → Meaning F → Meaning F
    unfolding read write apply
    eval_compound op none r st = err not_callable
    eval_compound op (some x) r st = do
      a ← read natives x st
      (b, st) ← r st
      v ← apply op a b
      st ← write x v st
      ok (v, st)

    unfoldable pub eval_postfix : PostfixOp → Option Text → Meaning F
    unfolding read write to_number one_more
    eval_postfix op none st = err not_callable
    eval_postfix op (some x) st = do
      v ← read natives x st
      st ← write x (one_more op v) st
      ok (Value.number (to_number N v), st)

    -- both operands, left first
    unfoldable pub eval_operands : BinaryOp → Meaning F → Meaning F → Meaning F
    unfolding apply
    eval_operands op l r st = do (a, st) ← l st; (b, st) ← r st; v ← apply op a b; ok (v, st)

    -- What each operator with two operands means. The second operand of a logical operator, and the
    -- assignment of a logical assignment, is evaluated only if the first value asks for it.
    unfoldable pub eval_operator : BinaryOp → Option Text → Meaning F → Meaning F → Meaning F
    unfolding is_truthy is_nullish eval_assign eval_compound eval_operands
    eval_operator BinaryOp.assign x l r st = eval_assign x r st
    eval_operator BinaryOp.plus_assign x l r st = eval_compound BinaryOp.add x r st
    eval_operator BinaryOp.minus_assign x l r st = eval_compound BinaryOp.sub x r st
    eval_operator BinaryOp.mul_assign x l r st = eval_compound BinaryOp.mul x r st
    eval_operator BinaryOp.div_assign x l r st = eval_compound BinaryOp.div x r st
    eval_operator BinaryOp.exp_assign x l r st = eval_compound BinaryOp.exp x r st
    eval_operator BinaryOp.mod_assign x l r st = eval_compound BinaryOp.modulo x r st
    eval_operator BinaryOp.bit_and_assign x l r st = eval_compound BinaryOp.bit_and x r st
    eval_operator BinaryOp.bit_or_assign x l r st = eval_compound BinaryOp.bit_or x r st
    eval_operator BinaryOp.bit_xor_assign x l r st = eval_compound BinaryOp.bit_xor x r st
    eval_operator BinaryOp.shl_assign x l r st = eval_compound BinaryOp.left_shift x r st
    eval_operator BinaryOp.shr_assign x l r st = eval_compound BinaryOp.right_shift x r st
    eval_operator BinaryOp.ushr_assign x l r st = eval_compound BinaryOp.unsigned_right_shift x r st
    eval_operator BinaryOp.and_assign x l r st = do
      (v, st) ← l st
      if is_truthy N v then eval_assign x r st else ok (v, st)
    eval_operator BinaryOp.or_assign x l r st = do
      (v, st) ← l st
      if is_truthy N v then ok (v, st) else eval_assign x r st
    eval_operator BinaryOp.nullish_assign x l r st = do
      (v, st) ← l st
      if is_nullish v then eval_assign x r st else ok (v, st)
    eval_operator BinaryOp.and x l r st = do
      (v, st) ← l st
      if is_truthy N v then r st else ok (v, st)
    eval_operator BinaryOp.or x l r st = do
      (v, st) ← l st
      if is_truthy N v then ok (v, st) else r st
    eval_operator BinaryOp.nullish_coalescing x l r st = do
      (v, st) ← l st
      if is_nullish v then r st else ok (v, st)
    eval_operator BinaryOp.pipeline x l r st = do (a, st) ← r st; (f, st) ← l st; err not_callable
    eval_operator op x l r st = eval_operands op l r st

    unfoldable pub eval : Expr → Meaning F
    unfolding read literal_value apply_unary is_truthy target eval_operator eval_postfix
    eval (Expr.identifier x) st = read natives x st >>= λ v. ok (v, st)
    eval (Expr.literal l) st = ok (literal_value l, st)
    eval (Expr.unary op e) st = do (v, st) ← eval e st; ok (apply_unary op v, st)
    eval (Expr.binary op l r) st = eval_operator op (target l) (eval l) (eval r) st
    eval (Expr.postfix op e) st = eval_postfix op (target e) st
    eval (Expr.grouping e) st = eval e st
    eval (Expr.conditional c t e) st = do
      (v, st) ← eval c st
      if is_truthy N v then eval t st else eval e st
