-- ===== src/Bytecode/Effects.antt =====
-- The effects of the compiler's parts put together are what expressions mean.
use yoptascript_rs.Prelude.{
  ◌≡◌, refl, Bool, true, false, not, Option, some, List, [], ◌∷◌, if◌then◌else◌,
}
use yoptascript_rs.Syntax.Ops.{UnaryOp, BinaryOp, PostfixOp, increment, decrement}
use yoptascript_rs.Bytecode.Values.{Text, Floats, Value, is_truthy, to_number}
use yoptascript_rs.Bytecode.Result.{Result, ok, err, ◌>>=◌, bind_assoc, bind_congr}
use yoptascript_rs.Bytecode.Machine.{
  VmError, failed, Natives, add_values, numeric_bin, is_nullish, not_callable,
}
use yoptascript_rs.Bytecode.Exec.{lift}
use yoptascript_rs.Bytecode.Tree.{Test, Form}
use yoptascript_rs.Bytecode.Locals.{Local, Store, read}
use yoptascript_rs.Bytecode.Eval.{
  Meaning, apply_unary, apply, one_more, eval_assign, eval_compound, eval_postfix, eval_operands,
}
use yoptascript_rs.Bytecode.Arms.{holds, eval_binary}
use yoptascript_rs.Bytecode.Segments.{Effect, ◌⟫◌}
use yoptascript_rs.Bytecode.Branches.{decided, two_way}
use yoptascript_rs.Bytecode.Means.{value_of, pushes, pops, on_top, on_two}
use yoptascript_rs.Bytecode.Jumps.{peek, take, stays}
use yoptascript_rs.Bytecode.Variables.{reads, writes_top}

lift-bind :
    {A B : Type 0} (r : Result VmError A) (f : A → Result VmError B)
    → lift (r >>= f) ≡ (lift r >>= λ a. lift (f a))
lift-bind (ok a) f = refl
lift-bind (err e) f = refl

ruleset effects = (bind_assoc, lift-bind)

module _ {F : Type 0} (N : Floats F) (natives : Natives F) (locals : List Local) where
  abbrev Same : Effect F → Effect F → Type 0
  Same d e = (s : List (Value F)) (st : Store F) → d s st ≡ e s st

  pub reads_effect :
      (x : Text) → Same (reads natives x) (value_of (λ st. read natives x st >>= λ v. ok (v, st)))
  reads_effect x s st = simp effects

  pub operates_effect :
      (op : BinaryOp) (x : Option Text) (l r : Meaning F)
      → Same
          (value_of l ⟫ (value_of r ⟫ on_two (apply N op)))
          (value_of (eval_binary N natives (Form.operates op) x l r))
  unfolding eval_binary eval_operands
  operates_effect op x l r s st = simp effects

  pub assign_effect :
      (x : Text) (r : Meaning F)
      → Same (value_of r ⟫ writes_top x) (value_of (eval_assign N natives (some x) r))
  unfolding eval_assign
  assign_effect x r s st = simp effects

  pub compound_effect :
      (op : BinaryOp) (x : Text) (r : Meaning F)
      → Same
          (reads natives x ⟫ (value_of r ⟫ (on_two (apply N op) ⟫ writes_top x)))
          (value_of (eval_compound N natives op (some x) r))
  unfolding eval_compound
  compound_effect op x r s st = simp effects

  pub pipes_effect :
      (x : Option Text) (l r : Meaning F)
      → Same
          (value_of r ⟫ (value_of l ⟫ λ s st. err (failed not_callable)))
          (value_of (eval_binary N natives Form.pipes x l r))
  unfolding eval_binary
  pipes_effect x l r s st = simp effects

  pub unary_effect :
      (op : UnaryOp) (m : Meaning F)
      → Same
          (value_of m ⟫ on_top (λ v. apply_unary N op v ∷ []))
          (value_of (λ st. m st >>= λ t. ok (apply_unary N op t.0, t.1)))
  unary_effect op m s st = simp effects

  pub dropped_effect :
      (v : Value F) (m : Meaning F)
      → Same (value_of m ⟫ (pops ⟫ pushes v)) (value_of (λ st. m st >>= λ t. ok (v, t.1)))
  dropped_effect v m s st = simp effects

  -- both ways of a test push a value
  either_way :
      (b : Bool) (s' s'' : List (Value F)) (st : Store F) (d e : Effect F)
      (m n : Result VmError (Value F × Store F))
      → e s' st ≡ (lift m >>= λ t. ok (t.0 ∷ s'', t.1))
      → d s' st ≡ (lift n >>= λ t. ok (t.0 ∷ s'', t.1))
      → decided N natives locals d e st (some (b, s'))
        ≡ (lift (if b then m else n) >>= λ t. ok (t.0 ∷ s'', t.1))
  either_way true s' s'' st d e m n h k = h
  either_way false s' s'' st d e m n h k = k

  pub short_effect :
      (t : Test) (x : Option Text) (l r : Meaning F)
      → Same
          (value_of l
            ⟫ two_way N natives locals
                (peek N natives locals t)
                (pops ⟫ value_of r)
                (stays N natives locals))
          (value_of (eval_binary N natives (Form.shorts t) x l r))
  unfolding eval_binary
  short_effect t x l r s st = simp effects (
      bind_congr (lift (l st)) (λ a.
        either_way (holds N t a.0) (a.0 ∷ s) s a.1 (pops ⟫ value_of r) (stays N natives locals)
          (ok a) (r a.1) refl refl))

  pub logical_effect :
      (t : Test) (x : Option Text) (l r : Meaning F)
      → Same
          (value_of l
            ⟫ two_way N natives locals
                (peek N natives locals t)
                (pops ⟫ value_of (eval_assign N natives x r))
                (stays N natives locals))
          (value_of (eval_binary N natives (Form.logical_assigns t) x l r))
  unfolding eval_binary
  logical_effect t x l r s st = simp effects (
      bind_congr (lift (l st)) (λ a.
        either_way (holds N t a.0) (a.0 ∷ s) s a.1 (pops ⟫ value_of (eval_assign N natives x r))
          (stays N natives locals) (ok a) (eval_assign N natives x r a.1) refl refl))

  pub coalescing_effect :
      (x : Option Text) (l r : Meaning F)
      → Same
          (value_of l
            ⟫ two_way N natives locals
                (peek N natives locals Test.nullish)
                (stays N natives locals)
                (pops ⟫ value_of r))
          (value_of (eval_binary N natives Form.coalesces x l r))
  unfolding eval_binary holds
  coalescing_effect x l r s st = simp effects (
      bind_congr (lift (l st)) (λ a.
        either_way (is_nullish a.0) (a.0 ∷ s) s a.1 (stays N natives locals) (pops ⟫ value_of r)
          (r a.1) (ok a) refl refl))

  flipped :
      (b : Bool) (s : List (Value F)) (st : Store F) (t e : Meaning F)
      → decided N natives locals (value_of t) (value_of e) st (some (not b, s))
        ≡ (lift (if b then t st else e st) >>= λ t. ok (t.0 ∷ s, t.1))
  flipped true s st t e = refl
  flipped false s st t e = refl

  pub conditional_effect :
      (c t e : Meaning F)
      → Same
          (value_of c ⟫ two_way N natives locals (take N natives locals) (value_of t) (value_of e))
          (value_of (λ st. c st >>= λ a. if is_truthy N a.0 then t a.1 else e a.1))
  conditional_effect c t e s st =
      simp effects (bind_congr (lift (c st)) (λ a. flipped (is_truthy N a.0) s a.1 t e))

  -- `++` and `--` leave the number before
  pub postfix_effect :
      (op : PostfixOp) (x : Text)
      → Same
          (reads natives x
            ⟫ (on_top (λ v. apply_unary N UnaryOp.plus v ∷ [])
                ⟫ (on_top (λ v. v ∷ v ∷ [])
                    ⟫ (pushes (Value.number (N.from_int 1))
                        ⟫ (on_two (
                              apply N
                                (elim op [ increment ↦ BinaryOp.add | decrement ↦ BinaryOp.sub ]))
                            ⟫ (writes_top x ⟫ pops))))))
          (value_of (eval_postfix N natives op (some x)))
  unfolding eval_postfix apply_unary apply add_values numeric_bin one_more to_number
  postfix_effect increment x s st = simp effects
  postfix_effect decrement x s st = simp effects
