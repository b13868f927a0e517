-- ===== src/Bytecode/Runs.antt =====
-- What holds of the compiler of expressions in crates/yps-vm/src/compiler.rs with the machine of
-- crates/yps-vm/src/vm.rs.
use Prim.{tt}
use mathlib.Core.Path.{subst}
use mathlib.Core.List.{append_assoc}
use yoptascript_rs.Prelude.{
  ℕ, ◌^◌, ◌≤◌, ◌≡◌, refl, sym, ap, ◌∙◌, Bool, true, false, List, [], ◌∷◌, ◌++◌, arith, length,
  length-append, get_elem?-append_left, lt_of_get_elem?,
}
use yoptascript_rs.Bytecode.Values.{Floats, Value}
use yoptascript_rs.Bytecode.Result.{Result, ok, err, ◌>>=◌}
use yoptascript_rs.Bytecode.Chunk.{Constant, Op, Chunk}
use yoptascript_rs.Bytecode.Machine.{VmError, failed, Machine, Natives}
use yoptascript_rs.Bytecode.Exec.{lift, Run}
use yoptascript_rs.Bytecode.Tree.{Expr}
use yoptascript_rs.Bytecode.Locals.{Local, Store, locals_of}
use yoptascript_rs.Bytecode.Eval.{eval}
use yoptascript_rs.Bytecode.Compile.{CompileError, compile_expr}
use yoptascript_rs.Bytecode.Accepts.{accepts}
use yoptascript_rs.Bytecode.Patches.{get_elem?-middle}
use yoptascript_rs.Bytecode.Segments.{Effect, at_place, At, Segment, Reaches}
use yoptascript_rs.Bytecode.Means.{Good}
use yoptascript_rs.Bytecode.Correct.{compile_expr-means}

abbrev pub is_ok : {E A : Type 0} → Result E A → Bool
is_ok (ok a) = true
is_ok (err e) = false

At-middle : (pre ops post : List Op) → At (pre ++ (ops ++ post)) (length pre) ops
At-middle pre [] post = tt
At-middle pre (op ∷ ops) post = (
  get_elem?-middle pre (ops ++ post) op,
  subst (λ n. At (pre ++ op ∷ (ops ++ post)) n ops) (length-append pre (op ∷ []) ∙ omega arith)
      (subst (λ code. At code (length (pre ++ op ∷ [])) ops)
        (append_assoc pre (op ∷ []) (ops ++ post)) (At-middle (pre ++ op ∷ []) ops post)),
)

-- the machine goes on at a place with the value above the others, or stops with the error
abbrev pub Finishes :
    {F : Type 0}
    → Floats F
    → Natives F
    → Chunk F
    → Machine F
    → ℕ
    → List (Value F)
    → Result VmError (Value F × Store F)
    → Type 0
Finishes N natives D m hi s (ok (v, st)) = Run N natives D m (ok (at_place hi (v ∷ s) st))
Finishes N natives D m hi s (err e) = Run N natives D m (err (failed e))

module _ {F : Type 0} (N : Floats F) (natives : Natives F) (locals : List Local) where
  Good-is_ok :
      (b : Bool) (c : Chunk F) (d : Effect F) (r : Result CompileError (Chunk F))
      → Good N natives locals b c d r
      → is_ok r ≡ b
  Good-is_ok true c d (ok c') p = refl
  Good-is_ok true c d (err e) p = absurd p
  Good-is_ok false c d (ok c') p = absurd p
  Good-is_ok false c d (err e) p = refl

  Good-Segment :
      (b : Bool) (c c' : Chunk F) (d : Effect F) (r : Result CompileError (Chunk F))
      → r ≡ ok c'
      → Good N natives locals b c d r
      → Segment N natives locals c d c'
  Good-Segment b c c' d r h p = both b (subst (Good N natives locals b c d) h p)
    where
      both : (b : Bool) → Good N natives locals b c d (ok c') → Segment N natives locals c d c'
      both true p = p
      both false p = absurd p

  Finishes-value :
      (D : Chunk F) (m : Machine F) (hi : ℕ) (s : List (Value F))
      (r : Result VmError (Value F × Store F))
      → Reaches N natives locals D m hi (lift r >>= λ t. ok (t.0 ∷ s, t.1))
      → Finishes N natives D m hi s r
  Finishes-value D m hi s (ok t) h = h.1
  Finishes-value D m hi s (err e) h = h

  -- The compiler gives a chunk for the expressions that are accepted, and an error for all others:
  -- those that write variables only, no constant local variable among them, and read local variables
  -- only after they have a value. No jump that is patched is missing, and acceptance is decided by the
  -- expression and the local variables alone, so a write to a constant global variable is accepted.
  pub compile_expr-accepts :
      (e : Expr) (c : Chunk F) → is_ok (compile_expr N locals e c) ≡ accepts locals e
  compile_expr-accepts e c = Good-is_ok _ c _ _ (compile_expr-means N natives locals e c)

  -- If the compiler turns the chunk `c` into `c'`, then in any chunk that goes on after `c'` the machine
  -- started at the end of `c`, on any stack over the variables, reaches the end of `c'` with the value
  -- of the expression pushed and the variables changed as the expression changes them, or stops with
  -- the error of the expression. The values at the bottom of the stack are those of the compiler's
  -- local variables; the local variables, and the constants of `c'`, are at most 2^32.
  pub compile_expr-eval :
      (e : Expr) (c c' : Chunk F) (later : List Op) (more : List (Constant F)) (s : List (Value F))
      (st : Store F)
      → compile_expr N locals e c ≡ ok c'
      → locals_of st.frame ≡ locals
      → length locals ≤ 2 ^ 32
      → length c'.constants ≤ 2 ^ 32
      → Finishes N natives
          (record { code = c'.code ++ later; constants = c'.constants ++ more })
          (at_place (length c.code) s st)
          (length c'.code)
          s
          (eval N natives e st)
  compile_expr-eval e c c' later more s st h fits slots indices =
      let D : Chunk F = record { code = c'.code ++ later; constants = c'.constants ++ more } in
      let p = Good-Segment _ c c' _ _ h (compile_expr-means N natives locals e c) in
      let at : At D.code (length c.code) p.ops =
        subst (λ code. At code (length c.code) p.ops)
          (sym (ap (λ x. x ++ later) p.code_grows ∙ append_assoc c.code p.ops later))
          (At-middle c.code p.ops later) in
      Finishes-value D _ _ s (eval N natives e st) (
        p.runs D at
          (
            indices,
            λ i v e. get_elem?-append_left c'.constants more i (lt_of_get_elem? _ i v e) ∙ e,
          )
          s st (fits, slots))
