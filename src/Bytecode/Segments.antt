-- ===== src/Bytecode/Segments.antt =====
-- Runs of the machine over a part of the code of a chunk.
use Prim.{Unit, tt}
use mathlib.Core.Path.{subst}
use mathlib.Core.List.{append_assoc}
use yoptascript_rs.Prelude.{
  ℕ, suc, ◌+◌, ◌^◌, ◌≤◌, ◌≡◌, sym, ap, ◌∙◌, some, List, [], ◌∷◌, ◌++◌, arith, length, get_elem?,
  length-append, get_elem?-append_left, lt_of_get_elem?,
}
use yoptascript_rs.Bytecode.Values.{Floats, Value}
use yoptascript_rs.Bytecode.Result.{Result, ok, err, ◌>>=◌}
use yoptascript_rs.Bytecode.Chunk.{Constant, Op, Chunk}
use yoptascript_rs.Bytecode.Machine.{Stop, failed, panic, Globals, Machine, machine, Natives}
use yoptascript_rs.Bytecode.Exec.{exec_op, step, Run, done, more, stops}
use yoptascript_rs.Bytecode.Locals.{Local, Store, values, locals_of}

-- What code does to the values above the variables, and to the variables. A panic stands for a pop of
-- a value that is a variable, of which nothing is said.
abbrev pub Effect : Type 0 → Type 0
Effect F = List (Value F) → Store F → Result Stop (List (Value F) × Store F)

infixl 6 ◌⟫◌
abbrev pub ◌⟫◌ : {F : Type 0} → Effect F → Effect F → Effect F
(d ⟫ e) s st = d s st >>= λ t. e t.0 t.1

abbrev pub at_place : {F : Type 0} → ℕ → List (Value F) → Store F → Machine F
at_place ip s st = machine ip (s ++ values st.frame) st.globals

-- the code has the instructions from a place on
abbrev pub At : List Op → ℕ → List Op → Type 0
At code n [] = Unit
At code n (op ∷ ops) = (get_elem? code n ≡ some op) × At code (suc n) ops

pub At-append :
    (code : List Op) (n : ℕ) (a b : List Op)
    → At code n (a ++ b)
    → At code n a × At code (n + length a) b
At-append code n [] b h = (tt, subst (λ k. At code k b) (omega arith) h)
At-append code n (op ∷ a) b (here, h) =
    let (first, second) = At-append code (suc n) a b h in
    ((here, first), subst (λ k. At code k b) (omega arith) second)

-- the constants keep their index, which is a `u32`
abbrev pub Has : {F : Type 0} → List (Constant F) → List (Constant F) → Type 0
Has {F} ks pool =
    (length ks ≤ 2 ^ 32)
    × ((i : ℕ) (v : Constant F) → get_elem? ks i ≡ some v → get_elem? pool i ≡ some v)

pub Has-prefix : {F : Type 0} (a b pool : List (Constant F)) → Has (a ++ b) pool → Has a pool
Has-prefix a b pool h = (
  omega (arith, h.0, length-append a b),
  λ i v e. h.1 i v (get_elem?-append_left a b i (lt_of_get_elem? a i v e) ∙ e),
)

module _ {F : Type 0} (N : Floats F) (natives : Natives F) (locals : List Local) where
  -- the values of the variables are those of the locals, whose slots are `u32`
  abbrev pub Fits : Store F → Type 0
  Fits st = (locals_of st.frame ≡ locals) × (length locals ≤ 2 ^ 32)

  pub Run-then :
      (D : Chunk F) {m n : Machine F} {r : Result Stop (Machine F)}
      → Run N natives D m (ok n)
      → Run N natives D n r
      → Run N natives D m r
  Run-then D done k = k
  Run-then D (more e h) k = more e (Run-then D h k)

  -- the run ends at a place, or with the error
  abbrev pub Reaches : Chunk F → Machine F → ℕ → Result Stop (List (Value F) × Store F) → Type 0
  Reaches D m hi (ok (s, st)) = Fits st × Run N natives D m (ok (at_place hi s st))
  Reaches D m hi (err (failed e)) = Run N natives D m (err (failed e))
  Reaches D m hi (err panic) = Unit

  pub Reaches-then :
      (D : Chunk F) {m n : Machine F} (hi : ℕ) (r : Result Stop (List (Value F) × Store F))
      → Run N natives D m (ok n)
      → Reaches D n hi r
      → Reaches D m hi r
  Reaches-then D hi (ok (s, st)) h k = (k.0, Run-then D h k.1)
  Reaches-then D hi (err (failed e)) h k = Run-then D h k
  Reaches-then D hi (err panic) h k = tt

  pub Reaches-bind :
      (D : Chunk F) (m : Machine F) (mid hi : ℕ) (r : Result Stop (List (Value F) × Store F))
      (f : Effect F)
      → Reaches D m mid r
      → ((s : List (Value F)) (st : Store F) → Fits st → Reaches D (at_place mid s st) hi (f s st))
      → Reaches D m hi (r >>= λ t. f t.0 t.1)
  Reaches-bind D m mid hi (ok (s, st)) f h k = Reaches-then D hi (f s st) h.1 (k s st h.0)
  Reaches-bind D m mid hi (err (failed e)) f h k = h
  Reaches-bind D m mid hi (err panic) f h k = tt

  -- The chunk after is the chunk before with more code, which has the effect wherever it stands in a
  -- chunk with the constants.
  pub record Segment (c : Chunk F) (d : Effect F) (c' : Chunk F) : Type 0 where
    pub ops : List Op
    pub code_grows : c'.code ≡ c.code ++ ops
    pub fresh : List (Constant F)
    pub constants_grow : c'.constants ≡ c.constants ++ fresh
    pub runs :
        (D : Chunk F)
        → At D.code (length c.code) ops
        → Has c'.constants D.constants
        → (s : List (Value F)) → (st : Store F) → Fits st
        → Reaches D (at_place (length c.code) s st) (length c'.code) (d s st)

  pub longer :
      (c c' : Chunk F) (d : Effect F) (seg : Segment c d c')
      → length c'.code ≡ length c.code + length seg.ops
  longer c c' d seg = ap length seg.code_grows ∙ length-append c.code seg.ops

  pub Segment-then :
      (c c₁ c₂ : Chunk F) (d e : Effect F) → Segment c d c₁ → Segment c₁ e c₂ → Segment c (d ⟫ e) c₂
  Segment-then c c₁ c₂ d e p q = record {
    ops = p.ops ++ q.ops;
    code_grows = q.code_grows ∙ ap (λ x. x ++ q.ops) p.code_grows ∙ append_assoc c.code p.ops q.ops;
    fresh = p.fresh ++ q.fresh;
    constants_grow =
        q.constants_grow
        ∙ ap (λ x. x ++ q.fresh) p.constants_grow
        ∙ append_assoc c.constants p.fresh q.fresh;
    runs = λ D at has s st fits.
        let (first, second) = At-append D.code (length c.code) p.ops q.ops at in
        let has₁ =
          Has-prefix c₁.constants q.fresh D.constants
            (subst (λ k. Has k D.constants) q.constants_grow has) in
        let at₁ = subst (λ n. At D.code n q.ops) (sym (longer c c₁ d p)) second in
        Reaches-bind D _ (length c₁.code) (length c₂.code) (d s st) e
          (p.runs D first has₁ s st fits) (q.runs D at₁ has);
  }

  -- an equal effect
  pub Segment-congr :
      (c c' : Chunk F) (d e : Effect F)
      → ((s : List (Value F)) (st : Store F) → d s st ≡ e s st)
      → Segment c d c'
      → Segment c e c'
  Segment-congr c c' d e h p = record {
    ops = p.ops;
    code_grows = p.code_grows;
    fresh = p.fresh;
    constants_grow = p.constants_grow;
    runs = λ D at has s st fits.
        subst (Reaches D (at_place (length c.code) s st) (length c'.code)) (h s st)
          (p.runs D at has s st fits);
  }

  -- what one instruction does, after the step over it
  abbrev pub Gives :
      Chunk F → Op → ℕ → List (Value F) → Store F → Result Stop (List (Value F) × Store F) → Type 0
  Gives D op ip s st (ok (s', st')) =
      Fits st' × (exec_op N natives D op (at_place ip s st) ≡ ok (at_place ip s' st'))
  Gives D op ip s st (err (failed e)) = exec_op N natives D op (at_place ip s st) ≡ err (failed e)
  Gives D op ip s st (err panic) = Unit

  abbrev pub Steps : Chunk F → Op → Effect F → Type 0
  Steps D op d =
      (ip : ℕ) (s : List (Value F)) (st : Store F) → Fits st → Gives D op ip s st (d s st)

  pub step-exec_op :
      (D : Chunk F) (op : Op) (ip : ℕ) (s : List (Value F)) (g : Globals F)
      → get_elem? D.code ip ≡ some op
      → step N natives D (machine ip s g) ≡ exec_op N natives D op (machine (suc ip) s g)
  unfolding step
  step-exec_op D op ip s g h = rw (h, step)

  one_step :
      (D : Chunk F) (op : Op) (ip hi : ℕ) (s : List (Value F)) (st : Store F)
      (r : Result Stop (List (Value F) × Store F))
      → get_elem? D.code ip ≡ some op
      → hi ≡ suc ip
      → Gives D op (suc ip) s st r
      → Reaches D (at_place ip s st) hi r
  one_step D op ip hi s st (ok t) here end does =
      subst (λ k. Reaches D (at_place ip s st) k (ok t)) (sym end)
        (does.0, more (step-exec_op D op ip _ _ here ∙ does.1) done)
  one_step D op ip hi s st (err (failed e)) here end does =
      stops (step-exec_op D op ip _ _ here ∙ does)
  one_step D op ip hi s st (err panic) here end does = tt

  -- one instruction, perhaps with a new constant
  pub Segment-leaf :
      (c c' : Chunk F) (op : Op) (fresh : List (Constant F)) (d : Effect F)
      → c'.code ≡ c.code ++ op ∷ []
      → c'.constants ≡ c.constants ++ fresh
      → ((D : Chunk F) → Has c'.constants D.constants → Steps D op d)
      → Segment c d c'
  Segment-leaf c c' op fresh d code constants does = record {
    ops = op ∷ [];
    code_grows = code;
    fresh = fresh;
    constants_grow = constants;
    runs = λ D at has s st fits.
        one_step D op (length c.code) (length c'.code) s st (d s st) at.0
          (ap length code ∙ length-append c.code (op ∷ []) ∙ omega arith)
          (does D has (suc (length c.code)) s st fits);
  }
