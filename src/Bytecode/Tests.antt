-- ===== src/Bytecode/Tests.antt =====
-- Expressions compiled and run: crates/yps-vm/src/compiler.rs and crates/yps-vm/src/vm.rs, with natural
-- numbers in place of the type `f64`.
use Prim.Native.Nat.{compare, Ordering}
use yoptascript_rs.Prelude.{
  ℕ, ◌+◌, ◌-◌, ◌*◌, ◌/◌, ◌%◌, ◌^◌, ◌≡◌, refl, arith, true, false, none, some, List, [], ◌∷◌, length,
}
use yoptascript_rs.Syntax.Ops.{BinaryOp}
use yoptascript_rs.Syntax.Tree.{Literal}
use yoptascript_rs.Bytecode.Values.{Text, Order, less, equal, greater, Floats, Value}
use yoptascript_rs.Bytecode.Result.{ok}
use yoptascript_rs.Bytecode.Chunk.{Constant, Op, Chunk}
use yoptascript_rs.Bytecode.Machine.{machine, Natives}
use yoptascript_rs.Bytecode.Exec.{Run}
use yoptascript_rs.Bytecode.Tree.{Expr}
use yoptascript_rs.Bytecode.Locals.{Local, Store}
use yoptascript_rs.Bytecode.Eval.{eval}
use yoptascript_rs.Bytecode.Compile.{compile_expr}
use yoptascript_rs.Bytecode.Accepts.{accepts}
use yoptascript_rs.Bytecode.Runs.{is_ok, compile_expr-accepts, compile_expr-eval}

abbrev order : ℕ → ℕ → Order
order a b = elim (compare a b) [ Ordering.lt ↦ less | Ordering.eq ↦ equal | Ordering.gt ↦ greater ]

abbrev digits : Text → ℕ
digits [] = 0
digits (c ∷ cs) = (c - b'0') * 10 ^ length cs + digits cs

abbrev naturals : Floats ℕ
naturals = record {
  neg = λ a. a;
  plus = λ a b. a + b;
  minus = λ a b. a - b;
  times = λ a b. a * b;
  divide = λ a b. a / b;
  remainder = λ a b. a % b;
  power = λ a b. a ^ b;
  partial_cmp = λ a b. some (order a b);
  from_int = λ n. n;
  as_int = λ n. n;
  nan = 0;
  is_finite = λ n. true;
  trunc = λ n. n;
  rem_euclid = λ a b. a % b;
  and_bits = λ a b. a * b;
  or_bits = λ a b. a + b;
  xor_bits = λ a b. a - b;
  string_to_number = digits;
  number_to_string = λ n. (b'0' + n) ∷ [];
}

abbrev no_natives : Natives ℕ
no_natives name = none

abbrev x : Text
x = b'x' ∷ []

abbrev y : Text
y = b'y' ∷ []

abbrev script : Local
script = record { name = []; is_const = false; initialized = true }

abbrev y_local : Local
y_local = record { name = y; is_const = false; initialized = true }

abbrev locals : List Local
locals = y_local ∷ script ∷ []

-- y holds 4 in slot 1, and x is a global variable
abbrev store : ℕ → Store ℕ
store n = record {
  frame = (y_local, Value.number n) ∷ (script, Value.undefined) ∷ [];
  globals = (x, (Value.boolean true, false)) ∷ [];
}

abbrev number : ℕ → Expr
number c = Expr.literal (Literal.number (c ∷ []))

-- y += (x && true) ? 1 + 2 : x
abbrev update : Expr
update = Expr.binary BinaryOp.plus_assign (Expr.identifier y) (
    Expr.conditional
      (Expr.binary BinaryOp.and (Expr.identifier x) (Expr.literal (Literal.boolean true)))
      (Expr.binary BinaryOp.add (number b'1') (number b'2')) (Expr.identifier x))

abbrev empty : Chunk ℕ
empty = record { code = []; constants = [] }

-- 1 + 2 is folded, and every jump has its target
abbrev compiled : Chunk ℕ
compiled = record {
  code =
      Op.get_local 1
      ∷ Op.get_global 0
      ∷ Op.jump_if_false_peek 5
      ∷ Op.pop
      ∷ Op.op_true
      ∷ Op.jump_if_false 8
      ∷ Op.constant 1
      ∷ Op.jump 9
      ∷ Op.get_global 2
      ∷ Op.add
      ∷ Op.set_local 1
      ∷ [];
  constants = Constant.str x ∷ Constant.number 3 ∷ Constant.str x ∷ [];
}

compile_test : compile_expr naturals locals update empty ≡ ok compiled
unfolding compile_expr
compile_test = refl

eval_test : eval naturals no_natives update (store 4) ≡ ok (Value.number 7, store 7)
unfolding eval
eval_test = refl

compile_expr-eval_example :
    Run naturals no_natives compiled
      (machine 0 (Value.number 4 ∷ Value.undefined ∷ []) ((x, (Value.boolean true, false)) ∷ []))
      (ok (
        machine 11
          (Value.number 7 ∷ Value.number 7 ∷ Value.undefined ∷ [])
          ((x, (Value.boolean true, false)) ∷ [])))
unfolding eval
compile_expr-eval_example =
    compile_expr-eval naturals no_natives locals update empty compiled [] [] [] (store 4)
      compile_test refl (omega arith) (omega arith)

compile_expr-accepts_example : is_ok (compile_expr naturals locals update empty) ≡ true
unfolding accepts
compile_expr-accepts_example = compile_expr-accepts naturals no_natives locals update empty
