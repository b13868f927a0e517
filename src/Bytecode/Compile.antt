-- ===== src/Bytecode/Compile.antt =====
-- The compiler of crates/yps-vm/src/compiler.rs on expressions, in a script outside of any function,
-- so that no variable is captured. A part of the compiler goes from the chunk before to the chunk
-- after.
use yoptascript_rs.Prelude.{ℕ, ◌%◌, ◌^◌, Option, none, some, List, if◌then◌else◌, length}
use yoptascript_rs.Syntax.Ops.{UnaryOp, BinaryOp, PostfixOp, increment, decrement}
use yoptascript_rs.Syntax.Tree.{Literal}
use yoptascript_rs.Bytecode.Values.{Text, Floats}
use yoptascript_rs.Bytecode.Result.{Result, ok, err, ◌>>=◌}
use yoptascript_rs.Bytecode.Chunk.{Constant, Op, Chunk, push_op, add_constant, patch_jump}
use yoptascript_rs.Bytecode.Tree.{Expr, target, Test, Form, form}
use yoptascript_rs.Bytecode.Fold.{
  FoldVal, and_then, parse_number_literal, fold_unary, fold_binary_op, fold_const,
}
use yoptascript_rs.Bytecode.Locals.{Local, resolve_local}

-- a `panic` is the one of `patch_jump`
pub data CompileError : Type 0 where
  not_initialized constant_variable : Text → CompileError
  not_a_variable bad_target bad_compound_target unsupported panic : CompileError

-- the instruction of an operator with two operands
unfoldable pub binary_op : BinaryOp → Option Op
binary_op BinaryOp.add = some Op.add
binary_op BinaryOp.sub = some Op.sub
binary_op BinaryOp.mul = some Op.mul
binary_op BinaryOp.div = some Op.div
binary_op BinaryOp.modulo = some Op.modulo
binary_op BinaryOp.exp = some Op.pow
binary_op BinaryOp.equals = some Op.eq
binary_op BinaryOp.not_equals = some Op.ne
binary_op BinaryOp.strict_equals = some Op.strict_eq
binary_op BinaryOp.strict_not_equals = some Op.strict_ne
binary_op BinaryOp.less = some Op.lt
binary_op BinaryOp.greater = some Op.gt
binary_op BinaryOp.less_or_equal = some Op.le
binary_op BinaryOp.greater_or_equal = some Op.ge
binary_op BinaryOp.bit_and = some Op.bit_and
binary_op BinaryOp.bit_or = some Op.bit_or
binary_op BinaryOp.bit_xor = some Op.bit_xor
binary_op BinaryOp.left_shift = some Op.shl
binary_op BinaryOp.right_shift = some Op.shr
binary_op BinaryOp.unsigned_right_shift = some Op.ushr
binary_op BinaryOp.instanceof = some Op.instanceof
binary_op BinaryOp.is_in = some Op.is_in
binary_op op = none

-- the other unary operators are not compiled to an instruction of their own
unfoldable pub unary_op : UnaryOp → Option Op
unary_op UnaryOp.plus = some Op.pos
unary_op UnaryOp.minus = some Op.neg
unary_op UnaryOp.not = some Op.not
unary_op UnaryOp.bitwise_not = some Op.bit_not
unary_op UnaryOp.typeof = some Op.typeof
unary_op op = none

unfoldable pub peek_op : Test → ℕ → Op
peek_op Test.falsy t = Op.jump_if_false_peek t
peek_op Test.truthy t = Op.jump_if_true_peek t
peek_op Test.nullish t = Op.jump_if_nullish_peek t
peek_op Test.not_nullish t = Op.jump_if_not_nullish_peek t

abbrev pub Emitter : Type 0 → Type 0
Emitter F = Chunk F → Result CompileError (Chunk F)

module _ {F : Type 0} where
  abbrev pub emit : Op → Emitter F
  emit op c = ok (push_op op c)

  abbrev pub emit_op : Option Op → Emitter F
  emit_op none c = err unsupported
  emit_op (some op) c = ok (push_op op c)

  -- a new constant with the instruction that is given its index, a `u32`
  abbrev pub emit_constant : (ℕ → Op) → Constant F → Emitter F
  emit_constant op v c = ok (push_op (op (length c.constants % 2 ^ 32)) (add_constant v c))

  -- a jump at a place to the end of the code
  unfoldable pub patch_here : ℕ → Emitter F
  unfolding patch_jump
  patch_here place c = elim (patch_jump place (length c.code) c) [
    | none ↦ err panic
    | some patched ↦ ok patched
  ]

  unfoldable pub emit_fold_const : FoldVal F → Emitter F
  emit_fold_const (FoldVal.num n) = emit_constant Op.constant (Constant.number n)
  emit_fold_const (FoldVal.str s) = emit_constant Op.constant (Constant.str s)
  emit_fold_const (FoldVal.bool b) = emit (if b then Op.op_true else Op.op_false)

  -- `emit_fold_const` on what folding gives, or else the code
  abbrev pub folded_or : Option (FoldVal F) → Emitter F → Emitter F
  folded_or (some v) code = emit_fold_const v
  folded_or none code = code

  -- a value, and other code in its place unless the test holds
  unfoldable pub short_circuit : Test → Emitter F → Emitter F → Emitter F
  unfolding peek_op patch_here
  short_circuit t l r c = do
    before ← l c
    c ← emit (peek_op t 0) before
    c ← emit Op.pop c
    c ← r c
    patch_here (length before.code) c

  -- the arm of `NullishCoalescing`
  unfoldable pub compile_coalescing : Emitter F → Emitter F → Emitter F
  unfolding patch_here
  compile_coalescing l r c = do
    before ← l c
    between ← emit (Op.jump_if_nullish_peek 0) before
    c ← emit (Op.jump 0) between
    c ← patch_here (length before.code) c
    c ← emit Op.pop c
    c ← r c
    patch_here (length between.code) c

  unfoldable pub compile_conditional : Emitter F → Emitter F → Emitter F → Emitter F
  unfolding patch_here
  compile_conditional condition t e c = do
    before ← condition c
    c ← emit (Op.jump_if_false 0) before
    between ← t c
    c ← emit (Op.jump 0) between
    c ← patch_here (length before.code) c
    c ← e c
    patch_here (length between.code) c

  module _ (N : Floats F) (locals : List Local) where
    unfoldable pub compile_literal : Literal → Emitter F
    unfolding parse_number_literal
    compile_literal (Literal.number raw) =
        emit_constant Op.constant (Constant.number (parse_number_literal N raw))
    compile_literal (Literal.string s) = emit_constant Op.constant (Constant.str s)
    compile_literal (Literal.boolean b) = emit (if b then Op.op_true else Op.op_false)
    compile_literal Literal.null = emit Op.null
    compile_literal Literal.undefined = emit Op.undefined

    -- a name that is no local is a constant of the chunk
    unfoldable pub compile_var_get : Text → Emitter F
    unfolding resolve_local
    compile_var_get name c = elim (resolve_local locals name) [
      | some (slot, local) ↦
          if local.initialized then emit (Op.get_local slot) c else err (not_initialized name)
      | none ↦ emit_constant Op.get_global (Constant.str name) c
    ]

    unfoldable pub compile_var_set : Text → Emitter F
    unfolding resolve_local
    compile_var_set name c = elim (resolve_local locals name) [
      | some (slot, local) ↦
          if local.is_const then err (constant_variable name) else emit (Op.set_local slot) c
      | none ↦ emit_constant Op.set_global (Constant.str name) c
    ]

    unfoldable pub compile_assign : Option Text → Emitter F → Emitter F
    unfolding compile_var_set
    compile_assign none r c = err bad_target
    compile_assign (some x) r c = do c ← r c; compile_var_set x c

    unfoldable pub compile_compound_assign : BinaryOp → Option Text → Emitter F → Emitter F
    unfolding binary_op compile_var_get compile_var_set
    compile_compound_assign base none r c = err bad_compound_target
    compile_compound_assign base (some x) r c = do
      c ← compile_var_get x c
      c ← r c
      c ← emit_op (binary_op base) c
      compile_var_set x c

    unfoldable pub compile_postfix : PostfixOp → Option Text → Emitter F
    unfolding compile_var_get compile_var_set
    compile_postfix op none c = err not_a_variable
    compile_postfix op (some x) c = do
      c ← compile_var_get x c
      c ← emit Op.pos c
      c ← emit Op.dup c
      c ← emit_constant Op.constant (Constant.number (N.from_int 1)) c
      c ← emit (elim op [ increment ↦ Op.add | decrement ↦ Op.sub ]) c
      c ← compile_var_set x c
      emit Op.pop c

    -- `compile_binary` after folding
    unfoldable pub compile_form : Form → Option Text → Emitter F → Emitter F → Emitter F
    unfolding binary_op compile_assign compile_compound_assign short_circuit compile_coalescing
    compile_form Form.assigns x l r c = compile_assign x r c
    compile_form (Form.compounds op) x l r c = compile_compound_assign op x r c
    compile_form (Form.logical_assigns t) x l r c = short_circuit t l (compile_assign x r) c
    compile_form (Form.shorts t) x l r c = short_circuit t l r c
    compile_form Form.coalesces x l r c = compile_coalescing l r c
    compile_form Form.pipes x l r c = do c ← r c; c ← l c; emit (Op.call 1) c
    compile_form (Form.operates op) x l r c = do c ← l c; c ← r c; emit_op (binary_op op) c

    -- with `compile_delete` of what is no member; `folded` is the operand as a constant
    unfoldable pub compile_unary : UnaryOp → Option (FoldVal F) → Emitter F → Emitter F
    unfolding unary_op fold_unary emit_fold_const
    compile_unary UnaryOp.void folded e c = do c ← e c; c ← emit Op.pop c; emit Op.undefined c
    compile_unary UnaryOp.delete folded e c = do c ← e c; c ← emit Op.pop c; emit Op.op_true c
    compile_unary op folded e c =
        folded_or (and_then folded (fold_unary N op)) (λ c. e c >>= emit_op (unary_op op)) c

    unfoldable pub compile_expr : Expr → Emitter F
    unfolding fold_const fold_binary_op target form emit_fold_const compile_literal compile_var_get
        compile_unary compile_form compile_postfix compile_conditional
    compile_expr (Expr.identifier x) = compile_var_get x
    compile_expr (Expr.literal l) = compile_literal l
    compile_expr (Expr.unary op e) = compile_unary op (fold_const N e) (compile_expr e)
    compile_expr (Expr.binary op l r) =
        folded_or
          (and_then (fold_const N l) (λ a. and_then (fold_const N r) (fold_binary_op N op a)))
          (compile_form (form op) (target l) (compile_expr l) (compile_expr r))
    compile_expr (Expr.postfix op e) = compile_postfix op (target e)
    compile_expr (Expr.grouping e) = compile_expr e
    compile_expr (Expr.conditional c t e) =
        compile_conditional (compile_expr c) (compile_expr t) (compile_expr e)
