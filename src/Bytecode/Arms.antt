-- ===== src/Bytecode/Arms.antt =====
-- What an operator means, by the arm of `compile_binary` that it goes to
-- (crates/yps-vm/src/compiler.rs): the arms of the compiler agree with the operators.
use yoptascript_rs.Prelude.{◌≡◌, refl, Bool, true, false, not, Option, if◌then◌else◌, arith}
use yoptascript_rs.Syntax.Ops.{BinaryOp}
use yoptascript_rs.Bytecode.Values.{Text, Floats, Value, is_truthy}
use yoptascript_rs.Bytecode.Result.{ok, err, ◌>>=◌}
use yoptascript_rs.Bytecode.Machine.{not_callable, Natives, is_nullish}
use yoptascript_rs.Bytecode.Tree.{Test, Form, form}
use yoptascript_rs.Bytecode.Locals.{Store}
use yoptascript_rs.Bytecode.Eval.{Meaning, eval_assign, eval_compound, eval_operands, eval_operator}

module _ {F : Type 0} (N : Floats F) where
  unfoldable pub holds : Test → Value F → Bool
  unfolding is_truthy is_nullish
  holds Test.falsy v = not (is_truthy N v)
  holds Test.truthy v = is_truthy N v
  holds Test.nullish v = is_nullish v
  holds Test.not_nullish v = not (is_nullish v)

  module _ (natives : Natives F) where
    -- an arm, which stops if the value of its left operand passes the test
    unfoldable pub eval_binary : Form → Option Text → Meaning F → Meaning F → Meaning F
    unfolding holds is_nullish eval_assign eval_compound eval_operands
    eval_binary Form.assigns x l r st = eval_assign N natives x r st
    eval_binary (Form.compounds op) x l r st = eval_compound N natives op x r st
    eval_binary (Form.logical_assigns t) x l r st = do
      (v, st) ← l st
      if holds t v then ok (v, st) else eval_assign N natives x r st
    eval_binary (Form.shorts t) x l r st = do (v, st) ← l st; if holds t v then ok (v, st) else r st
    eval_binary Form.coalesces x l r st = do
      (v, st) ← l st
      if is_nullish v then r st else ok (v, st)
    eval_binary Form.pipes x l r st = do (a, st) ← r st; (f, st) ← l st; err not_callable
    eval_binary (Form.operates op) x l r st = eval_operands N natives op l r st

    if_not : {A : Type 0} (b : Bool) (x y : A) → (if b then x else y) ≡ (if not b then y else x)
    if_not true x y = refl
    if_not false x y = refl

    pub eval_operator-form :
        (op : BinaryOp) (x : Option Text) (l r : Meaning F) (st : Store F)
        → eval_operator N natives op x l r st ≡ eval_binary (form op) x l r st
    unfolding eval_operator form eval_binary holds
    eval_operator-form BinaryOp.and_assign x l r st = ground arith
    eval_operator-form BinaryOp.nullish_assign x l r st = ground arith
    eval_operator-form BinaryOp.and x l r st = ground arith
    eval_operator-form op x l r st = ground arith
