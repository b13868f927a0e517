-- ===== src/Bytecode/Forms.antt =====
-- The arms of the compiler of expressions mean what the expressions mean.
use Prim.{tt}
use mathlib.Core.Path.{subst}
use yoptascript_rs.Prelude.{◌≡◌, refl, Bool, true, ◌&&◌, Option, none, some, List, [], ◌∷◌, arith}
use yoptascript_rs.Syntax.Ops.{UnaryOp, BinaryOp, PostfixOp, increment, decrement}
use yoptascript_rs.Syntax.Tree.{Literal}
use yoptascript_rs.Bytecode.Values.{Text, Floats, Value}
use yoptascript_rs.Bytecode.Chunk.{Constant, Op}
use yoptascript_rs.Bytecode.Machine.{Natives}
use yoptascript_rs.Bytecode.Tree.{Form, form}
use yoptascript_rs.Bytecode.Fold.{FoldVal}
use yoptascript_rs.Bytecode.Locals.{Local}
use yoptascript_rs.Bytecode.Eval.{
  Meaning, literal_value, apply_unary, apply, eval_assign, eval_compound, eval_postfix,
}
use yoptascript_rs.Bytecode.Arms.{eval_binary}
use yoptascript_rs.Bytecode.Compile.{
  Emitter, emit, emit_constant, binary_op, unary_op, emit_fold_const, compile_literal,
  compile_var_get, compile_var_set, compile_assign, compile_compound_assign, compile_postfix,
  compile_form,
}
use yoptascript_rs.Bytecode.Segments.{Effect}
use yoptascript_rs.Bytecode.Means.{
  value_of, pushes, pops, on_top, on_two, Means, Means-then, Means-congr,
}
use yoptascript_rs.Bytecode.Operators.{
  is_some, Means-binary_op, Means-unary_op, Means-pop, Means-dup, Means-bool, Means-null,
  Means-undefined, Means-const, Means-call,
}
use yoptascript_rs.Bytecode.Jumps.{Means-short_circuit, Means-coalescing}
use yoptascript_rs.Bytecode.Accepts.{gets, sets, accepts_assign, accepts_update, accepts_form}
use yoptascript_rs.Bytecode.Variables.{
  reads, writes_top, Means-compile_var_get, Means-compile_var_set,
}
use yoptascript_rs.Bytecode.Folding.{fold_value}
use yoptascript_rs.Bytecode.Effects.{
  operates_effect, assign_effect, compound_effect, pipes_effect, short_effect, logical_effect,
  coalescing_effect, postfix_effect,
}

module _ {F : Type 0} (N : Floats F) (natives : Natives F) (locals : List Local) where
  abbrev pub M : Bool → Emitter F → Effect F → Type 0
  M = Means N natives locals

  -- an equal test of acceptance
  pub M-accepts : (a b : Bool) (e : Emitter F) (d : Effect F) → a ≡ b → M a e d → M b e d
  M-accepts a b e d h p = subst (λ x. M x e d) h p

  and_true : (a : Bool) → (a && true) ≡ a
  and_true a = ground (arith)

  pub literal_means :
      (l : Literal) → M true (compile_literal N locals l) (pushes (literal_value N l))
  unfolding compile_literal literal_value
  literal_means (Literal.number raw) = Means-const N natives locals _
  literal_means (Literal.string s) = Means-const N natives locals _
  literal_means (Literal.boolean b) = Means-bool N natives locals b
  literal_means Literal.null = Means-null N natives locals
  literal_means Literal.undefined = Means-undefined N natives locals

  pub fold_means : (v : FoldVal F) → M true (emit_fold_const v) (pushes (fold_value v))
  unfolding emit_fold_const
  fold_means (FoldVal.num n) = Means-const N natives locals _
  fold_means (FoldVal.str s) = Means-const N natives locals _
  fold_means (FoldVal.bool b) = Means-bool N natives locals b

  assign_means :
      (x : Option Text) (b : Bool) (r : Emitter F) (m : Meaning F)
      → M b r (value_of m)
      → M
          (accepts_assign locals x b)
          (compile_assign N locals x r)
          (value_of (eval_assign N natives x m))
  unfolding accepts_assign compile_assign
  assign_means none b r m p = λ c. tt
  assign_means (some x) b r m p =
      Means-congr N natives locals _ _ _ _ (assign_effect N natives locals x m) (
        Means-then N natives locals _ _ b (sets locals x) r _ p
          (Means-compile_var_set N natives locals x))

  compound_means :
      (op : BinaryOp) (x : Option Text) (b : Bool) (r : Emitter F) (m : Meaning F)
      → is_some (binary_op op) ≡ true
      → M b r (value_of m)
      → M
          (accepts_update locals x b)
          (compile_compound_assign N locals op x r)
          (value_of (eval_compound N natives op x m))
  unfolding accepts_update compile_compound_assign
  compound_means op none b r m h p = λ c. tt
  compound_means op (some x) b r m h p =
      Means-congr N natives locals _ _ _ _ (compound_effect N natives locals op x m) (
        M-accepts (gets locals x && (b && (is_some (binary_op op) && sets locals x))) _ _ _
          (rw h refl)
          (Means-then N natives locals _ _ (gets locals x) _ _ _
            (Means-compile_var_get N natives locals x)
            (Means-then N natives locals _ _ b _ r _ p (
              Means-then N natives locals _ _ (is_some (binary_op op)) (sets locals x) _ _
                (Means-binary_op N natives locals op (binary_op op) refl)
                (Means-compile_var_set N natives locals x)))))

  one_more_means :
      (op : PostfixOp)
      → M true
          (emit (elim op [ increment ↦ Op.add | decrement ↦ Op.sub ]))
          (on_two (apply N (elim op [ increment ↦ BinaryOp.add | decrement ↦ BinaryOp.sub ])))
  unfolding binary_op
  one_more_means increment = Means-binary_op N natives locals BinaryOp.add (some Op.add) refl
  one_more_means decrement = Means-binary_op N natives locals BinaryOp.sub (some Op.sub) refl

  pub postfix_means :
      (op : PostfixOp) (x : Option Text)
      → M
          (accepts_update locals x true)
          (compile_postfix N locals op x)
          (value_of (eval_postfix N natives op x))
  unfolding accepts_update compile_postfix unary_op binary_op
  postfix_means op none = λ c. tt
  postfix_means op (some x) =
      let as_number : Effect F = on_top (λ v. apply_unary N UnaryOp.plus v ∷ []) in
      let twice : Effect F = on_top (λ v. v ∷ v ∷ []) in
      let one = Constant.number (N.from_int 1) in
      let more : Effect F =
        on_two (apply N (elim op [ increment ↦ BinaryOp.add | decrement ↦ BinaryOp.sub ])) in
      let more_op : Op = elim op [ increment ↦ Op.add | decrement ↦ Op.sub ] in
      let written =
        Means-then N natives locals (writes_top x) pops (sets locals x) true
          (compile_var_set N locals x) (emit Op.pop) (Means-compile_var_set N natives locals x)
          (Means-pop N natives locals) in
      let changed =
        Means-then N natives locals more _ true _ (emit more_op) _ (one_more_means op) written in
      let added =
        Means-then N natives locals (pushes (Value.number (N.from_int 1))) _ true _
          (emit_constant Op.constant one) _ (Means-const N natives locals one) changed in
      let doubled =
        Means-then N natives locals twice _ true _ (emit Op.dup) _ (Means-dup N natives locals)
          added in
      let numbered =
        Means-then N natives locals as_number _ true _ (emit Op.pos) _
          (Means-unary_op N natives locals UnaryOp.plus Op.pos refl) doubled in
      Means-congr N natives locals _ _ _ _ (postfix_effect N natives locals op x) (
        M-accepts (gets locals x && (true && (true && (true && (true && (sets locals x && true))))))
          _ _ _ (ground (arith))
          (Means-then N natives locals (reads natives x) _ (gets locals x) _
            (compile_var_get N locals x) _ (Means-compile_var_get N natives locals x) numbered))

  form-operates : (op o : BinaryOp) → form op ≡ Form.operates o → is_some (binary_op o) ≡ true
  unfolding form binary_op
  form-operates op o h = ground (arith)

  form-compounds : (op o : BinaryOp) → form op ≡ Form.compounds o → is_some (binary_op o) ≡ true
  unfolding form binary_op
  form-compounds op o h = ground (arith)

  pub form_means :
      (op : BinaryOp) (f : Form) (x : Option Text) (a b : Bool) (l r : Emitter F) (m n : Meaning F)
      → form op ≡ f
      → M a l (value_of m)
      → M b r (value_of n)
      → M
          (accepts_form locals f x a b)
          (compile_form N locals f x l r)
          (value_of (eval_binary N natives f x m n))
  unfolding accepts_form compile_form eval_binary
  form_means op Form.assigns x a b l r m n h p q = assign_means x b r n q
  form_means op (Form.compounds o) x a b l r m n h p q =
      compound_means o x b r n (form-compounds op o h) q
  form_means op (Form.logical_assigns t) x a b l r m n h p q =
      Means-congr N natives locals _ _ _ _ (logical_effect N natives locals t x m n) (
        Means-short_circuit N natives locals t _ _ a (accepts_assign locals x b) l _ p
          (assign_means x b r n q))
  form_means op (Form.shorts t) x a b l r m n h p q =
      Means-congr N natives locals _ _ _ _ (short_effect N natives locals t x m n)
        (Means-short_circuit N natives locals t _ _ a b l r p q)
  form_means op Form.coalesces x a b l r m n h p q =
      Means-congr N natives locals _ _ _ _ (coalescing_effect N natives locals x m n)
        (Means-coalescing N natives locals _ _ a b l r p q)
  form_means op Form.pipes x a b l r m n h p q =
      Means-congr N natives locals _ _ _ _ (pipes_effect N natives locals x m n) (
        M-accepts (b && (a && true)) (a && b) _ _ (ground (arith)) (
          Means-then N natives locals _ _ b _ r _ q
            (Means-then N natives locals _ _ a true l _ p (Means-call N natives locals))))
  form_means op (Form.operates o) x a b l r m n h p q =
      Means-congr N natives locals _ _ _ _ (operates_effect N natives locals o x m n) (
        M-accepts (a && (b && is_some (binary_op o))) (a && b) _ _
          (ground (arith, form-operates op o h))
          (Means-then N natives locals _ _ a _ l _ p (
            Means-then N natives locals _ _ b _ r _ q
              (Means-binary_op N natives locals o (binary_op o) refl))))
