-- ===== src/Bytecode/Correct.antt =====
-- The compiler of expressions is right: which programs it takes, and what their code does.
use mathlib.Core.Path.{subst}
use yoptascript_rs.Prelude.{
  ◌≡◌, refl, sym, ap, Bool, true, ◌&&◌, Option, none, some, List, [], ◌∷◌, arith,
}
use yoptascript_rs.Syntax.Ops.{UnaryOp, BinaryOp}
use yoptascript_rs.Bytecode.Values.{Text, Floats, Value}
use yoptascript_rs.Bytecode.Result.{ok, ◌>>=◌}
use yoptascript_rs.Bytecode.Chunk.{Op}
use yoptascript_rs.Bytecode.Machine.{Natives}
use yoptascript_rs.Bytecode.Exec.{lift}
use yoptascript_rs.Bytecode.Tree.{Expr, target, form}
use yoptascript_rs.Bytecode.Fold.{
  FoldVal, fold_unary, fold_numbers, fold_texts, fold_bools, fold_binary_op, fold_const,
}
use yoptascript_rs.Bytecode.Locals.{Local}
use yoptascript_rs.Bytecode.Eval.{Meaning, apply_unary, eval}
use yoptascript_rs.Bytecode.Arms.{eval_operator-form}
use yoptascript_rs.Bytecode.Compile.{
  Emitter, emit, emit_op, unary_op, folded_or, compile_unary, compile_expr,
}
use yoptascript_rs.Bytecode.Segments.{◌⟫◌}
use yoptascript_rs.Bytecode.Means.{value_of, pushes, pops, on_top, Means-then, Means-congr}
use yoptascript_rs.Bytecode.Operators.{Means-unary_op, Means-pop, Means-bool, Means-undefined}
use yoptascript_rs.Bytecode.Jumps.{Means-conditional}
use yoptascript_rs.Bytecode.Accepts.{accepts_form, accepts, accepts_operator-form}
use yoptascript_rs.Bytecode.Forms.{
  M, M-accepts, literal_means, fold_means, postfix_means, form_means,
}
use yoptascript_rs.Bytecode.Variables.{reads, Means-compile_var_get}
use yoptascript_rs.Bytecode.Folding.{fold_value, and_then-some, fold_const-eval}
use yoptascript_rs.Bytecode.Effects.{reads_effect, unary_effect, dropped_effect, conditional_effect}

module _ {F : Type 0} (N : Floats F) (natives : Natives F) (locals : List Local) where
  fold_binary_op-accepts :
      (op : BinaryOp) (x : Option Text) (a b w : FoldVal F)
      → fold_binary_op N op a b ≡ some w
      → accepts_form locals (form op) x true true ≡ true
  unfolding fold_binary_op fold_numbers fold_texts fold_bools form accepts_form
  fold_binary_op-accepts op x (FoldVal.num a) (FoldVal.num b) w h = ground (arith)
  fold_binary_op-accepts op x (FoldVal.str a) (FoldVal.str b) w h = ground (arith)
  fold_binary_op-accepts op x (FoldVal.bool a) (FoldVal.bool b) w h = ground (arith)
  fold_binary_op-accepts op x (FoldVal.num a) (FoldVal.str b) w h = absurd (cc)
  fold_binary_op-accepts op x (FoldVal.num a) (FoldVal.bool b) w h = absurd (cc)
  fold_binary_op-accepts op x (FoldVal.str a) (FoldVal.num b) w h = absurd (cc)
  fold_binary_op-accepts op x (FoldVal.str a) (FoldVal.bool b) w h = absurd (cc)
  fold_binary_op-accepts op x (FoldVal.bool a) (FoldVal.num b) w h = absurd (cc)
  fold_binary_op-accepts op x (FoldVal.bool a) (FoldVal.str b) w h = absurd (cc)

  -- what is folded is accepted
  fold_const-accepts :
      (e : Expr) (v : FoldVal F) → fold_const N e ≡ some v → accepts locals e ≡ true
  unfolding fold_const accepts
  fold_const-accepts (Expr.identifier x) v h = absurd (cc)
  fold_const-accepts (Expr.literal l) v h = refl
  fold_const-accepts (Expr.unary op e) v h =
      let (a, ha, hop) = and_then-some (fold_const N e) (fold_unary N op) v h in
      fold_const-accepts e a ha
  fold_const-accepts (Expr.binary op l r) v h =
      let (a, ha, rest) = and_then-some (fold_const N l) _ v h in
      let (b, hb, hop) = and_then-some (fold_const N r) _ v rest in
      rw
        (
          fold_const-accepts l a ha,
          fold_const-accepts r b hb,
          accepts,
          accepts_operator-form locals op (target l) true true,
        )
        (fold_binary_op-accepts op (target l) a b v hop)
  fold_const-accepts (Expr.postfix op e) v h = absurd (cc)
  fold_const-accepts (Expr.grouping e) v h = fold_const-accepts e v h
  fold_const-accepts (Expr.conditional c t e) v h = absurd (cc)

  folded_means :
      (e : Expr) (o : Option (FoldVal F)) (code : Emitter F)
      → fold_const N e ≡ o
      → M N natives locals (accepts locals e) code (value_of (eval N natives e))
      → M N natives locals (accepts locals e) (folded_or o code) (value_of (eval N natives e))
  folded_means e none code h p = p
  folded_means e (some v) code h p =
      M-accepts N natives locals true _ _ _ (sym (fold_const-accepts e v h)) (
        Means-congr N natives locals (pushes (fold_value v)) _ true _
          (λ s st.
            ap (λ r. lift r >>= λ t. ok (t.0 ∷ s, t.1)) (sym (fold_const-eval N natives e v st h)))
          (fold_means N natives locals v))

  dropped_means :
      (v : Value F) (op : Op) (b : Bool) (e : Emitter F) (m : Meaning F)
      → M N natives locals true (emit op) (pushes v)
      → M N natives locals b e (value_of m)
      → M N natives locals b
          (λ c. e c >>= λ c. emit Op.pop c >>= emit op)
          (value_of (λ st. m st >>= λ t. ok (v, t.1)))
  dropped_means v op b e m p q =
      Means-congr N natives locals _ _ _ _ (dropped_effect N natives locals v m) (
        M-accepts N natives locals (b && true) b _ _ (ground (arith)) (
          Means-then N natives locals _ (pops ⟫ pushes v) b true e _ q (
            Means-then N natives locals pops (pushes v) true true (emit Op.pop) (emit op)
              (Means-pop N natives locals) p)))

  applied_means :
      (op : UnaryOp) (code : Op) (e : Expr) (f : Emitter F)
      → unary_op op ≡ some code
      → M N natives locals (accepts locals e) f (value_of (eval N natives e))
      → M N natives locals
          (accepts locals e)
          (folded_or (fold_const N (Expr.unary op e)) (λ c. f c >>= emit_op (unary_op op)))
          (value_of (eval N natives (Expr.unary op e)))
  unfolding eval accepts
  applied_means op code e f h p = folded_means (Expr.unary op e) _ _ refl (
      Means-congr N natives locals _ _ _ _ (unary_effect N natives locals op (eval N natives e)) (
        M-accepts N natives locals (accepts locals e && true) (accepts locals e) _ _
          (ground (arith))
          (Means-then N natives locals _ (on_top (λ v. apply_unary N op v ∷ [])) (accepts locals e)
            true f (emit_op (unary_op op)) p
            (subst
              (λ o. M N natives locals true (emit_op o) (on_top (λ v. apply_unary N op v ∷ [])))
              (sym h) (Means-unary_op N natives locals op code h)))))

  unary_means :
      (op : UnaryOp) (e : Expr) (f : Emitter F)
      → M N natives locals (accepts locals e) f (value_of (eval N natives e))
      → M N natives locals
          (accepts locals e)
          (compile_unary N locals op (fold_const N e) f)
          (value_of (eval N natives (Expr.unary op e)))
  unfolding compile_unary unary_op fold_const eval apply_unary
  unary_means UnaryOp.plus e f p = applied_means UnaryOp.plus Op.pos e f refl p
  unary_means UnaryOp.minus e f p = applied_means UnaryOp.minus Op.neg e f refl p
  unary_means UnaryOp.not e f p = applied_means UnaryOp.not Op.not e f refl p
  unary_means UnaryOp.bitwise_not e f p = applied_means UnaryOp.bitwise_not Op.bit_not e f refl p
  unary_means UnaryOp.typeof e f p = applied_means UnaryOp.typeof Op.typeof e f refl p
  unary_means UnaryOp.delete e f p =
      dropped_means (Value.boolean true) Op.op_true _ f _ (Means-bool N natives locals true) p
  unary_means UnaryOp.void e f p =
      dropped_means Value.undefined Op.undefined _ f _ (Means-undefined N natives locals) p

  -- the compiler gives code for what it accepts, and the code does what the expression means
  pub compile_expr-means :
      (e : Expr)
      → M N natives locals
          (accepts locals e)
          (compile_expr N locals e)
          (value_of (eval N natives e))
  unfolding accepts compile_expr eval fold_const
  compile_expr-means (Expr.identifier x) =
      Means-congr N natives locals (reads natives x) _ _ _ (reads_effect N natives locals x)
        (Means-compile_var_get N natives locals x)
  compile_expr-means (Expr.literal l) = literal_means N natives locals l
  compile_expr-means (Expr.unary op e) = unary_means op e _ (compile_expr-means e)
  compile_expr-means (Expr.binary op l r) = folded_means (Expr.binary op l r) _ _ refl (
      Means-congr N natives locals _ _ _ _
        (λ s st.
          ap (λ r. lift r >>= λ t. ok (t.0 ∷ s, t.1))
            (sym (
              eval_operator-form N natives op (target l) (eval N natives l) (eval N natives r) st)))
        (M-accepts N natives locals _ _ _ _
          (sym (accepts_operator-form locals op (target l) (accepts locals l) (accepts locals r)))
          (form_means N natives locals op (form op) (target l) _ _ _ _ _ _ refl
            (compile_expr-means l) (compile_expr-means r))))
  compile_expr-means (Expr.postfix op e) = postfix_means N natives locals op (target e)
  compile_expr-means (Expr.grouping e) = compile_expr-means e
  compile_expr-means (Expr.conditional c t e) =
      Means-congr N natives locals _ _ _ _
        (conditional_effect N natives locals (eval N natives c) (eval N natives t)
          (eval N natives e))
        (Means-conditional N natives locals _ _ _ _ _ _ _ _ _ (compile_expr-means c)
          (compile_expr-means t) (compile_expr-means e))
