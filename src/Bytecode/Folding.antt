-- ===== src/Bytecode/Folding.antt =====
-- Constant folding gives the value of the expression.
use yoptascript_rs.Prelude.{
  ◌≡◌, refl, ap, ◌∙◌, Bool, true, false, Option, none, some, [], ◌∷◌, arith,
}
use yoptascript_rs.Syntax.Ops.{UnaryOp, BinaryOp}
use yoptascript_rs.Syntax.Tree.{Literal}
use yoptascript_rs.Bytecode.Values.{
  Text, Floats, Value, lt_f64, gt_f64, le_f64, ge_f64, is_truthy, to_number, strict_eq, number_eq,
  abstract_eq, to_ecma_string,
}
use yoptascript_rs.Bytecode.Result.{ok}
use yoptascript_rs.Bytecode.Machine.{
  Natives, add_values, numeric_bin, int_bin, shift_bin, ushr_bin, compare,
}
use yoptascript_rs.Bytecode.Tree.{Expr, target, Form, form}
use yoptascript_rs.Bytecode.Fold.{
  FoldVal, and_then, fold_val_to_number, fold_val_is_truthy, fold_unary, fold_numbers, fold_texts,
  fold_bools, fold_binary_op, fold_const,
}
use yoptascript_rs.Bytecode.Locals.{Store}
use yoptascript_rs.Bytecode.Eval.{Meaning, literal_value, apply_unary, apply, eval_operands, eval}
use yoptascript_rs.Bytecode.Arms.{holds, eval_binary, eval_operator-form}

abbrev pub fold_value : {F : Type 0} → FoldVal F → Value F
fold_value (FoldVal.num n) = Value.number n
fold_value (FoldVal.str s) = Value.str s
fold_value (FoldVal.bool b) = Value.boolean b

pub and_then-some :
    {A B : Type 0} (o : Option A) (f : A → Option B) (b : B)
    → and_then o f ≡ some b
    → (a : A) × (o ≡ some a) × (f a ≡ some b)
and_then-some none f b h = absurd (cc)
and_then-some (some a) f b h = (a, refl, h)

module _ {F : Type 0} (N : Floats F) (natives : Natives F) where
  fold_unary-apply_unary :
      (op : UnaryOp) (v w : FoldVal F)
      → fold_unary N op v ≡ some w
      → apply_unary N op (fold_value v) ≡ fold_value w
  unfolding fold_unary fold_val_to_number fold_val_is_truthy apply_unary to_number is_truthy
  fold_unary-apply_unary op (FoldVal.num n) w h = ground (arith)
  fold_unary-apply_unary op (FoldVal.str []) w h = ground (arith)
  fold_unary-apply_unary op (FoldVal.str (c ∷ cs)) w h = ground (arith)
  fold_unary-apply_unary op (FoldVal.bool true) w h = ground (arith)
  fold_unary-apply_unary op (FoldVal.bool false) w h = ground (arith)

  fold_numbers-apply :
      (op : BinaryOp) (a b : F) (w : FoldVal F)
      → fold_numbers N op a b ≡ some w
      → (form op ≡ Form.operates op)
        × (apply N op (Value.number a) (Value.number b) ≡ ok (fold_value w))
  unfolding fold_numbers form apply add_values numeric_bin int_bin shift_bin ushr_bin compare
      to_number strict_eq number_eq abstract_eq lt_f64 gt_f64 le_f64 ge_f64
  fold_numbers-apply op a b w h = (ground (arith), ground (arith))

  fold_texts-apply :
      (op : BinaryOp) (a b : Text) (w : FoldVal F)
      → fold_texts N op a b ≡ some w
      → (form op ≡ Form.operates op) × (apply N op (Value.str a) (Value.str b) ≡ ok (fold_value w))
  unfolding fold_texts form apply add_values compare strict_eq abstract_eq to_ecma_string
  fold_texts-apply op a b w h = (ground (arith), ground (arith))

  eval_operates :
      (op : BinaryOp) (x : Option Text) (l r : Meaning F) (st : Store F) (a b v : Value F)
      → (form op ≡ Form.operates op) × (apply N op a b ≡ ok v)
      → l st ≡ ok (a, st)
      → r st ≡ ok (b, st)
      → eval_binary N natives (form op) x l r st ≡ ok (v, st)
  unfolding eval_binary eval_operands
  eval_operates op x l r st a b v h hl hr = rw (h.0, hl, hr, h.1, eval_binary, eval_operands) refl

  fold_bools-eval_binary :
      (op : BinaryOp) (x : Option Text) (l r : Meaning F) (st : Store F) (a b : Bool)
      (w : FoldVal F)
      → fold_bools N op a b ≡ some w
      → l st ≡ ok (Value.boolean a, st)
      → r st ≡ ok (Value.boolean b, st)
      → eval_binary N natives (form op) x l r st ≡ ok (fold_value w, st)
  unfolding fold_bools form eval_binary eval_operands apply holds is_truthy strict_eq abstract_eq
  fold_bools-eval_binary op x l r st true b w h hl hr = ground (arith)
  fold_bools-eval_binary op x l r st false b w h hl hr = ground (arith)

  fold_binary_op-eval_binary :
      (op : BinaryOp) (x : Option Text) (l r : Meaning F) (st : Store F) (a b w : FoldVal F)
      → fold_binary_op N op a b ≡ some w
      → l st ≡ ok (fold_value a, st)
      → r st ≡ ok (fold_value b, st)
      → eval_binary N natives (form op) x l r st ≡ ok (fold_value w, st)
  unfolding fold_binary_op
  fold_binary_op-eval_binary op x l r st (FoldVal.num a) (FoldVal.num b) w h hl hr =
      eval_operates op x l r st _ _ _ (fold_numbers-apply op a b w h) hl hr
  fold_binary_op-eval_binary op x l r st (FoldVal.str a) (FoldVal.str b) w h hl hr =
      eval_operates op x l r st _ _ _ (fold_texts-apply op a b w h) hl hr
  fold_binary_op-eval_binary op x l r st (FoldVal.bool a) (FoldVal.bool b) w h hl hr =
      fold_bools-eval_binary op x l r st a b w h hl hr
  fold_binary_op-eval_binary op x l r st (FoldVal.num a) (FoldVal.str b) w h hl hr = absurd (cc)
  fold_binary_op-eval_binary op x l r st (FoldVal.num a) (FoldVal.bool b) w h hl hr = absurd (cc)
  fold_binary_op-eval_binary op x l r st (FoldVal.str a) (FoldVal.num b) w h hl hr = absurd (cc)
  fold_binary_op-eval_binary op x l r st (FoldVal.str a) (FoldVal.bool b) w h hl hr = absurd (cc)
  fold_binary_op-eval_binary op x l r st (FoldVal.bool a) (FoldVal.num b) w h hl hr = absurd (cc)
  fold_binary_op-eval_binary op x l r st (FoldVal.bool a) (FoldVal.str b) w h hl hr = absurd (cc)

  -- what folding gives is the value, and no variable is changed
  pub fold_const-eval :
      (e : Expr) (v : FoldVal F) (st : Store F)
      → fold_const N e ≡ some v
      → eval N natives e st ≡ ok (fold_value v, st)
  unfolding fold_const eval literal_value
  fold_const-eval (Expr.identifier x) v st h = absurd (cc)
  fold_const-eval (Expr.literal (Literal.number raw)) v st h = cc
  fold_const-eval (Expr.literal (Literal.string s)) v st h = cc
  fold_const-eval (Expr.literal (Literal.boolean b)) v st h = cc
  fold_const-eval (Expr.literal Literal.null) v st h = absurd (cc)
  fold_const-eval (Expr.literal Literal.undefined) v st h = absurd (cc)
  fold_const-eval (Expr.unary op e) v st h =
      let (a, ha, hop) = and_then-some (fold_const N e) (fold_unary N op) v h in
      rw (fold_const-eval e a st ha, eval)
        (ap (λ w. ok (w, st)) (fold_unary-apply_unary op a v hop))
  fold_const-eval (Expr.binary op l r) v st h =
      let (a, ha, rest) = and_then-some (fold_const N l) _ v h in
      let (b, hb, hop) = and_then-some (fold_const N r) _ v rest in
      eval_operator-form N natives op (target l) (eval N natives l) (eval N natives r) st
      ∙ fold_binary_op-eval_binary op (target l) (eval N natives l) (eval N natives r) st a b v hop
          (fold_const-eval l a st ha) (fold_const-eval r b st hb)
  fold_const-eval (Expr.postfix op e) v st h = absurd (cc)
  fold_const-eval (Expr.grouping e) v st h = fold_const-eval e v st h
  fold_const-eval (Expr.conditional c t e) v st h = absurd (cc)
