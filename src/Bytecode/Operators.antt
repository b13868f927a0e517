-- ===== src/Bytecode/Operators.antt =====
-- The instructions of operators, and the jumps, as parts of the compiler.
use Prim.{tt}
use mathlib.Core.List.{append-nil}
use yoptascript_rs.Prelude.{
  ℕ, ◌≡◌, refl, sym, Bool, true, false, Option, none, some, List, [], ◌∷◌, if◌then◌else◌, arith,
}
use yoptascript_rs.Syntax.Ops.{UnaryOp, BinaryOp}
use yoptascript_rs.Bytecode.Values.{Floats, Value}
use yoptascript_rs.Bytecode.Result.{Result, ok, err, ◌>>=◌}
use yoptascript_rs.Bytecode.Chunk.{Constant, Op, Chunk, push_op}
use yoptascript_rs.Bytecode.Machine.{
  VmError, failed, Globals, machine, Natives, const_value, not_callable,
}
use yoptascript_rs.Bytecode.Exec.{lift, operate, exec_plain, exec_op}
use yoptascript_rs.Bytecode.Locals.{Local, Store}
use yoptascript_rs.Bytecode.Eval.{apply, apply_unary}
use yoptascript_rs.Bytecode.Compile.{emit, emit_op, emit_constant, binary_op, unary_op}
use yoptascript_rs.Bytecode.Segments.{Fits, Segment-leaf, Gives}
use yoptascript_rs.Bytecode.Means.{
  pushes, pops, on_top, on_two, GivesPlain, Means, Means-plain, Means-constant,
}

abbrev pub is_some : {A : Type 0} → Option A → Bool
is_some none = false
is_some (some a) = true

module _ {F : Type 0} (N : Floats F) (natives : Natives F) (locals : List Local) where
  -- the machine's operator is the one of the language
  operate-binary_op :
      (D : Chunk F) (op : BinaryOp) (code : Op) (a b : Value F)
      → binary_op op ≡ some code
      → operate N natives D code a b ≡ some (lift (apply N op a b))
  unfolding operate binary_op apply
  operate-binary_op D op code a b h = ground (arith)

  Gives-two :
      (D : Chunk F) (code : Op) (ip : ℕ) (a b : Value F) (s : List (Value F)) (st : Store F)
      (r : Result VmError (Value F))
      → Fits N natives locals st
      → operate N natives D code a b ≡ some (lift r)
      → Gives N natives locals D code ip (b ∷ a ∷ s) st (lift r >>= λ v. ok (v ∷ s, st))
  unfolding exec_op
  Gives-two D code ip a b s st (ok v) fits h = (fits, rw (h, exec_op) refl)
  Gives-two D code ip a b s st (err e) fits h = rw (h, exec_op) refl

  Gives-binary_op :
      (D : Chunk F) (op : BinaryOp) (code : Op) (ip : ℕ) (s : List (Value F)) (st : Store F)
      → binary_op op ≡ some code
      → Fits N natives locals st
      → Gives N natives locals D code ip s st (on_two (apply N op) s st)
  Gives-binary_op D op code ip [] st h fits = tt
  Gives-binary_op D op code ip (b ∷ []) st h fits = tt
  Gives-binary_op D op code ip (b ∷ a ∷ s) st h fits =
      Gives-two D code ip a b s st (apply N op a b) fits (operate-binary_op D op code a b h)

  -- an operator with two operands takes them from the stack
  pub Means-binary_op :
      (op : BinaryOp) (r : Option Op)
      → binary_op op ≡ r
      → Means N natives locals (is_some r) (emit_op r) (on_two (apply N op))
  Means-binary_op op none h c = tt
  Means-binary_op op (some code) h c =
      Segment-leaf N natives locals c (push_op code c) code [] _ refl (sym (append-nil c.constants))
        (λ D has ip s st fits. Gives-binary_op D op code ip s st h fits)

  exec_plain-unary_op :
      (D : Chunk F) (op : UnaryOp) (code : Op) (ip : ℕ) (v : Value F) (s : List (Value F))
      (g : Globals F)
      → unary_op op ≡ some code
      → exec_plain N natives D code (machine ip (v ∷ s) g)
        ≡ ok (machine ip (apply_unary N op v ∷ s) g)
  unfolding exec_plain unary_op apply_unary
  exec_plain-unary_op D op code ip v s g h = ground (arith)

  unary_op-plain :
      (D : Chunk F) (op : UnaryOp) (code : Op) (a b : Value F)
      → unary_op op ≡ some code
      → operate N natives D code a b ≡ none
  unfolding operate unary_op
  unary_op-plain D op code a b h = ground (arith)

  gives_unary_op :
      (D : Chunk F) (op : UnaryOp) (code : Op) (ip : ℕ) (s : List (Value F)) (st : Store F)
      → unary_op op ≡ some code
      → Fits N natives locals st
      → GivesPlain N natives locals D code ip s st (on_top (λ v. apply_unary N op v ∷ []) s st)
  gives_unary_op D op code ip [] st h fits = tt
  gives_unary_op D op code ip (v ∷ s) st h fits = (fits, exec_plain-unary_op D op code ip v _ _ h)

  pub Means-unary_op :
      (op : UnaryOp) (code : Op)
      → unary_op op ≡ some code
      → Means N natives locals true (emit code) (on_top (λ v. apply_unary N op v ∷ []))
  Means-unary_op op code h =
      Means-plain N natives locals code _ (λ D a b. unary_op-plain D op code a b h)
        (λ D ip s st fits. gives_unary_op D op code ip s st h fits)

  gives_pop :
      (D : Chunk F) (ip : ℕ) (s : List (Value F)) (st : Store F)
      → Fits N natives locals st
      → GivesPlain N natives locals D Op.pop ip s st (pops s st)
  unfolding exec_plain
  gives_pop D ip [] st fits = tt
  gives_pop D ip (v ∷ s) st fits = (fits, refl)

  pub Means-pop : Means N natives locals true (emit Op.pop) pops
  unfolding operate
  Means-pop = Means-plain N natives locals Op.pop pops (λ D a b. refl) gives_pop

  gives_dup :
      (D : Chunk F) (ip : ℕ) (s : List (Value F)) (st : Store F)
      → Fits N natives locals st
      → GivesPlain N natives locals D Op.dup ip s st (on_top (λ v. v ∷ v ∷ []) s st)
  unfolding exec_plain
  gives_dup D ip [] st fits = tt
  gives_dup D ip (v ∷ s) st fits = (fits, refl)

  pub Means-dup : Means N natives locals true (emit Op.dup) (on_top (λ v. v ∷ v ∷ []))
  unfolding operate
  Means-dup = Means-plain N natives locals Op.dup _ (λ D a b. refl) gives_dup

  pub Means-bool :
      (b : Bool)
      → Means N natives locals true
          (emit (if b then Op.op_true else Op.op_false))
          (pushes (Value.boolean b))
  unfolding operate exec_plain
  Means-bool true =
      Means-plain N natives locals Op.op_true _ (λ D a b. refl) (λ D ip s st fits. (fits, refl))
  Means-bool false =
      Means-plain N natives locals Op.op_false _ (λ D a b. refl) (λ D ip s st fits. (fits, refl))

  pub Means-null : Means N natives locals true (emit Op.null) (pushes Value.null)
  unfolding operate exec_plain
  Means-null =
      Means-plain N natives locals Op.null _ (λ D a b. refl) (λ D ip s st fits. (fits, refl))

  pub Means-undefined : Means N natives locals true (emit Op.undefined) (pushes Value.undefined)
  unfolding operate exec_plain
  Means-undefined =
      Means-plain N natives locals Op.undefined _ (λ D a b. refl) (λ D ip s st fits. (fits, refl))

  pub Means-const :
      (v : Constant F)
      → Means N natives locals true (emit_constant Op.constant v) (pushes (const_value v))
  unfolding operate exec_plain
  Means-const v =
      Means-constant N natives locals Op.constant v _ (λ D i a b. refl)
        (λ D i ip s st here fits. (fits, rw (here, exec_plain) refl))

  -- a call of a value that is no function
  pub Means-call :
      Means N natives locals true (emit (Op.call 1)) (λ s st. err (failed not_callable))
  unfolding operate exec_plain
  Means-call = Means-plain N natives locals (Op.call 1) _ (λ D a b. refl) (λ D ip s st fits. refl)
