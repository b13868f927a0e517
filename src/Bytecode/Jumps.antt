-- ===== src/Bytecode/Jumps.antt =====
-- Parts of the compiler with a jump.
use Prim.{tt}
use mathlib.Core.Path.{subst}
use mathlib.Core.List.{append-nil}
use yoptascript_rs.Prelude.{
  ℕ, ◌≡◌, refl, sym, ◌∙◌, Bool, true, false, not, ◌&&◌, none, some, List, [], ◌∷◌, ◌++◌,
  if◌then◌else◌, length, arith,
}
use yoptascript_rs.Bytecode.Values.{Floats, Value, is_truthy}
use yoptascript_rs.Bytecode.Result.{Result, ok, err, ◌>>=◌}
use yoptascript_rs.Bytecode.Chunk.{Op, Chunk, push_op, retarget}
use yoptascript_rs.Bytecode.Machine.{Globals, machine, Natives}
use yoptascript_rs.Bytecode.Exec.{done, operate, exec_plain, exec_op}
use yoptascript_rs.Bytecode.Tree.{Test}
use yoptascript_rs.Bytecode.Locals.{Local, Store, values}
use yoptascript_rs.Bytecode.Arms.{holds}
use yoptascript_rs.Bytecode.Compile.{
  CompileError, Emitter, emit, peek_op, patch_here, short_circuit, compile_coalescing,
  compile_conditional,
}
use yoptascript_rs.Bytecode.Segments.{Effect, ◌⟫◌, at_place, Segment}
use yoptascript_rs.Bytecode.Branches.{
  Decision, Decided, IsJump, two_way, Segment-skip, Segment-branch,
}
use yoptascript_rs.Bytecode.Means.{pops, Good, Means, Means-then, exec_op-plain}
use yoptascript_rs.Bytecode.Operators.{Means-pop}

module _ {F : Type 0} (N : Floats F) (natives : Natives F) (locals : List Local) where
  -- a jump that looks at the top, and one that takes it
  abbrev pub peek : Test → Decision N natives locals
  peek t [] = none
  peek t (v ∷ s) = some (holds N t v, v ∷ s)

  abbrev pub take : Decision N natives locals
  take [] = none
  take (v ∷ s) = some (not (is_truthy N v), s)

  abbrev pub stays : Effect F
  stays s st = ok (s, st)

  Decided-if :
      (D : Chunk F) (op : Op) (t ip : ℕ) (s s' : List (Value F)) (st : Store F) (b : Bool)
      → exec_op N natives D op (at_place ip s st)
        ≡ ok (machine (if b then t else ip) (s' ++ values st.frame) st.globals)
      → Decided N natives locals D op t ip s st (some (b, s'))
  Decided-if D op t ip s s' st true h = h
  Decided-if D op t ip s s' st false h = h

  peek_op-plain :
      (D : Chunk F) (test : Test) (t : ℕ) (a b : Value F)
      → operate N natives D (peek_op test t) a b ≡ none
  unfolding operate peek_op
  peek_op-plain D test t a b = ground (arith)

  exec_plain-peek_op :
      (D : Chunk F) (test : Test) (t ip : ℕ) (v : Value F) (s : List (Value F)) (g : Globals F)
      → exec_plain N natives D (peek_op test t) (machine ip (v ∷ s) g)
        ≡ ok (machine (if holds N test v then t else ip) (v ∷ s) g)
  unfolding exec_plain peek_op holds
  exec_plain-peek_op D test t ip v s g = ground (arith)

  decides_peek :
      (test : Test) (D : Chunk F) (t ip : ℕ) (s : List (Value F)) (st : Store F)
      → Decided N natives locals D (peek_op test t) t ip s st (peek test s)
  decides_peek test D t ip [] st = tt
  decides_peek test D t ip (v ∷ s) st = Decided-if D _ t ip (v ∷ s) (v ∷ s) st (holds N test v) (
      exec_op-plain N natives locals D _ ip _ _ (peek_op-plain D test t)
      ∙ exec_plain-peek_op D test t ip v _ _)

  retarget-peek_op : (test : Test) (a t : ℕ) → retarget (peek_op test a) t ≡ some (peek_op test t)
  unfolding retarget peek_op
  retarget-peek_op test a t = ground (arith)

  pub peek-IsJump : (test : Test) → IsJump N natives locals (peek_op test) (peek test)
  peek-IsJump test = record { patches = retarget-peek_op test; decides = decides_peek test }

  exec_plain-take :
      (D : Chunk F) (t ip : ℕ) (v : Value F) (s : List (Value F)) (g : Globals F)
      → exec_plain N natives D (Op.jump_if_false t) (machine ip (v ∷ s) g)
        ≡ ok (machine (if not (is_truthy N v) then t else ip) s g)
  unfolding exec_plain
  exec_plain-take D t ip v s g = ground (arith)

  decides_take :
      (D : Chunk F) (t ip : ℕ) (s : List (Value F)) (st : Store F)
      → Decided N natives locals D (Op.jump_if_false t) t ip s st (take s)
  unfolding operate
  decides_take D t ip [] st = tt
  decides_take D t ip (v ∷ s) st =
      Decided-if D _ t ip (v ∷ s) s st (not (is_truthy N v))
        (exec_op-plain N natives locals D _ ip _ _ (λ a b. refl) ∙ exec_plain-take D t ip v _ _)

  pub take-IsJump : IsJump N natives locals Op.jump_if_false take
  unfolding retarget
  take-IsJump = record { patches = λ a t. refl; decides = decides_take }

  Good-skip :
      (c : Chunk F) (op : ℕ → Op) (decide : Decision N natives locals) (d : Effect F) (b : Bool)
      (r : Result CompileError (Chunk F))
      → IsJump N natives locals op decide
      → Good N natives locals b (push_op (op 0) c) d r
      → Good N natives locals b c
          (two_way N natives locals decide d stays)
          (r >>= patch_here (length c.code))
  Good-skip c op decide d true (ok c₂) jumps p =
      let (c₃, patched, q) = Segment-skip N natives locals c c₂ op decide d jumps p in
      subst (Good N natives locals true c (two_way N natives locals decide d stays)) (sym patched) q
  Good-skip c op decide d true (err x) jumps p = absurd p
  Good-skip c op decide d false (ok c₂) jumps p = absurd p
  Good-skip c op decide d false (err x) jumps p = tt

  -- a part that a jump passes over
  pub Means-short_circuit :
      (t : Test) (d e : Effect F) (a b : Bool) (l r : Emitter F)
      → Means N natives locals a l d
      → Means N natives locals b r e
      → Means N natives locals
          (a && b)
          (short_circuit t l r)
          (d ⟫ two_way N natives locals (peek t) (pops ⟫ e) stays)
  unfolding short_circuit
  Means-short_circuit t d e a b l r p q = Means-then N natives locals d _ a b l _ p (λ c.
      Good-skip c (peek_op t) (peek t) (pops ⟫ e) b _ (peek-IsJump t) (
        Means-then N natives locals pops e true b (emit Op.pop) r (Means-pop N natives locals) q
          (push_op (peek_op t 0) c)))

  Good-join :
      (c c₂ c₄ : Chunk F) (decide : Decision N natives locals) (d e : Effect F) (b : Bool)
      (r : Result CompileError (Chunk F))
      → ((c₅ : Chunk F)
          → Segment N natives locals c₄ e c₅
          → (c₆ : Chunk F) × (patch_here (length c₂.code) c₅ ≡ ok c₆)
            × Segment N natives locals c (two_way N natives locals decide d e) c₆)
      → Good N natives locals b c₄ e r
      → Good N natives locals b c
          (two_way N natives locals decide d e)
          (r >>= patch_here (length c₂.code))
  Good-join c c₂ c₄ decide d e true (ok c₅) k q =
      let (c₆, patched, seg) = k c₅ q in
      subst (Good N natives locals true c (two_way N natives locals decide d e)) (sym patched) seg
  Good-join c c₂ c₄ decide d e true (err x) k q = absurd q
  Good-join c c₂ c₄ decide d e false (ok c₅) k q = absurd q
  Good-join c c₂ c₄ decide d e false (err x) k q = tt

  -- the code between the two jumps, then the code that the first one goes to
  abbrev join : ℕ → Emitter F → Emitter F
  join place g between = do
    c ← patch_here place (push_op (Op.jump 0) between)
    c ← g c
    patch_here (length between.code) c

  Good-branch :
      (c : Chunk F) (op : ℕ → Op) (decide : Decision N natives locals) (d e : Effect F) (a b : Bool)
      (r : Result CompileError (Chunk F)) (g : Emitter F)
      → IsJump N natives locals op decide
      → Good N natives locals a (push_op (op 0) c) d r
      → Means N natives locals b g e
      → Good N natives locals
          (a && b)
          c
          (two_way N natives locals decide d e)
          (r >>= join (length c.code) g)
  Good-branch c op decide d e true b (ok c₂) g jumps p q =
      let (c₄, patched, k) = Segment-branch N natives locals c c₂ op decide d e jumps p in
      subst
        (λ r.
          Good N natives locals b c (two_way N natives locals decide d e)
            (r >>= λ c. g c >>= patch_here (length c₂.code)))
        (sym patched) (Good-join c c₂ c₄ decide d e b (g c₄) k (q c₄))
  Good-branch c op decide d e true b (err x) g jumps p q = absurd p
  Good-branch c op decide d e false b (ok c₂) g jumps p q = absurd p
  Good-branch c op decide d e false b (err x) g jumps p q = tt

  -- a part for each way of a test
  pub Means-conditional :
      (d e f : Effect F) (a b x : Bool) (l t r : Emitter F)
      → Means N natives locals a l d
      → Means N natives locals b t e
      → Means N natives locals x r f
      → Means N natives locals
          (a && (b && x))
          (compile_conditional l t r)
          (d ⟫ two_way N natives locals take e f)
  unfolding compile_conditional
  Means-conditional d e f a b x l t r p q u = Means-then N natives locals d _ a (b && x) l _ p (λ c.
      Good-branch c Op.jump_if_false take e f b x _ r take-IsJump
        (q (push_op (Op.jump_if_false 0) c)) u)

  Segment-nothing : (c : Chunk F) → Segment N natives locals c stays c
  Segment-nothing c = record {
    ops = [];
    code_grows = sym (append-nil c.code);
    fresh = [];
    constants_grow = sym (append-nil c.constants);
    runs = λ D at has s st fits. (fits, done);
  }

  -- the right part where the left value is null or undefined
  pub Means-coalescing :
      (d e : Effect F) (a b : Bool) (l r : Emitter F)
      → Means N natives locals a l d
      → Means N natives locals b r e
      → Means N natives locals
          (a && b)
          (compile_coalescing l r)
          (d ⟫ two_way N natives locals (peek Test.nullish) stays (pops ⟫ e))
  unfolding compile_coalescing peek_op
  Means-coalescing d e a b l r p q = Means-then N natives locals d _ a b l _ p (λ c.
      Good-branch c Op.jump_if_nullish_peek (peek Test.nullish) stays (pops ⟫ e) true b
        (ok (push_op (Op.jump_if_nullish_peek 0) c)) (λ c. r (push_op Op.pop c))
        (peek-IsJump Test.nullish) (Segment-nothing (push_op (Op.jump_if_nullish_peek 0) c))
        (Means-then N natives locals pops e true b (emit Op.pop) r (Means-pop N natives locals) q))
