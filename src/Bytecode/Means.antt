-- ===== src/Bytecode/Means.antt =====
-- Parts of the compiler with the effect of what they emit.
use Prim.{Unit, tt}
use mathlib.Core.List.{append-nil}
use yoptascript_rs.Prelude.{
  ℕ, ◌%◌, ◌^◌, ◌≡◌, refl, arith, length-append, sym, ◌∙◌, Bool, true, false, ◌&&◌, none, some, List,
  [], ◌∷◌, ◌++◌, length, get_elem?, get_elem?-append_end,
}
use yoptascript_rs.Bytecode.Values.{Floats, Value}
use yoptascript_rs.Bytecode.Result.{Result, ok, err, ◌>>=◌}
use yoptascript_rs.Bytecode.Chunk.{Constant, Op, Chunk, push_op}
use yoptascript_rs.Bytecode.Machine.{VmError, Stop, failed, panic, Globals, machine, Natives}
use yoptascript_rs.Bytecode.Exec.{lift, operate, exec_plain, exec_op}
use yoptascript_rs.Bytecode.Locals.{Local, Store}
use yoptascript_rs.Bytecode.Eval.{Meaning}
use yoptascript_rs.Bytecode.Compile.{CompileError, Emitter, emit, emit_constant}
use yoptascript_rs.Bytecode.Segments.{
  Effect, ◌⟫◌, at_place, Fits, Segment, Segment-then, Segment-congr, Segment-leaf, Gives,
}

-- an expression pushes its value
abbrev pub value_of : {F : Type 0} → Meaning F → Effect F
value_of m s st = lift (m st) >>= λ t. ok (t.0 ∷ s, t.1)

abbrev pub pushes : {F : Type 0} → Value F → Effect F
pushes v s st = ok (v ∷ s, st)

abbrev pub pops : {F : Type 0} → Effect F
pops [] st = err panic
pops (v ∷ s) st = ok (s, st)

abbrev pub on_top : {F : Type 0} → (Value F → List (Value F)) → Effect F
on_top f [] st = err panic
on_top f (v ∷ s) st = ok (f v ++ s, st)

abbrev pub on_two : {F : Type 0} → (Value F → Value F → Result VmError (Value F)) → Effect F
on_two f [] st = err panic
on_two f (b ∷ []) st = err panic
on_two f (b ∷ a ∷ s) st = lift (f a b) >>= λ v. ok (v ∷ s, st)

module _ {F : Type 0} (N : Floats F) (natives : Natives F) (locals : List Local) where
  -- Where the program is accepted the compiler gives a chunk, with code of that effect; where it is
  -- not, the compiler gives an error.
  abbrev pub Good : Bool → Chunk F → Effect F → Result CompileError (Chunk F) → Type 0
  Good true c d (ok c') = Segment N natives locals c d c'
  Good true c d (err e) = ⊥
  Good false c d (ok c') = ⊥
  Good false c d (err e) = Unit

  abbrev pub Means : Bool → Emitter F → Effect F → Type 0
  Means b e d = (c : Chunk F) → Good b c d (e c)

  Good-then :
      (c c₁ : Chunk F) (d e : Effect F) (b : Bool) (r : Result CompileError (Chunk F))
      → Segment N natives locals c d c₁
      → Good b c₁ e r
      → Good b c (d ⟫ e) r
  Good-then c c₁ d e true (ok c₂) p q = Segment-then N natives locals c c₁ c₂ d e p q
  Good-then c c₁ d e true (err x) p q = q
  Good-then c c₁ d e false (ok c₂) p q = q
  Good-then c c₁ d e false (err x) p q = q

  Good-bind :
      (c : Chunk F) (d e : Effect F) (a b : Bool) (r : Result CompileError (Chunk F))
      (f : Emitter F)
      → Good a c d r
      → Means b f e
      → Good (a && b) c (d ⟫ e) (r >>= f)
  Good-bind c d e true b (ok c₁) f p q = Good-then c c₁ d e b (f c₁) p (q c₁)
  Good-bind c d e true b (err x) f p q = absurd p
  Good-bind c d e false b (ok c₁) f p q = absurd p
  Good-bind c d e false b (err x) f p q = tt

  pub Means-then :
      (d e : Effect F) (a b : Bool) (f g : Emitter F)
      → Means a f d
      → Means b g e
      → Means (a && b) (λ c. f c >>= g) (d ⟫ e)
  Means-then d e a b f g p q c = Good-bind c d e a b (f c) g (p c) q

  Good-congr :
      (c : Chunk F) (d e : Effect F) (b : Bool) (r : Result CompileError (Chunk F))
      → ((s : List (Value F)) (st : Store F) → d s st ≡ e s st)
      → Good b c d r
      → Good b c e r
  Good-congr c d e true (ok c') h p = Segment-congr N natives locals c c' d e h p
  Good-congr c d e true (err x) h p = p
  Good-congr c d e false (ok c') h p = p
  Good-congr c d e false (err x) h p = p

  pub Means-congr :
      (d e : Effect F) (b : Bool) (f : Emitter F)
      → ((s : List (Value F)) (st : Store F) → d s st ≡ e s st)
      → Means b f d
      → Means b f e
  Means-congr d e b f h p c = Good-congr c d e b (f c) h (p c)

  -- an instruction that is no operator with two operands
  pub exec_op-plain :
      (D : Chunk F) (op : Op) (ip : ℕ) (s : List (Value F)) (g : Globals F)
      → ((a b : Value F) → operate N natives D op a b ≡ none)
      → exec_op N natives D op (machine ip s g) ≡ exec_plain N natives D op (machine ip s g)
  unfolding exec_op
  exec_op-plain D op ip [] g h = refl
  exec_op-plain D op ip (b ∷ []) g h = refl
  exec_op-plain D op ip (b ∷ a ∷ s) g h = rw (h a b, exec_op) refl

  abbrev pub GivesPlain :
      Chunk F → Op → ℕ → List (Value F) → Store F → Result Stop (List (Value F) × Store F) → Type 0
  GivesPlain D op ip s st (ok (s', st')) =
      Fits N natives locals st'
      × (exec_plain N natives D op (at_place ip s st) ≡ ok (at_place ip s' st'))
  GivesPlain D op ip s st (err (failed e)) =
      exec_plain N natives D op (at_place ip s st) ≡ err (failed e)
  GivesPlain D op ip s st (err panic) = Unit

  Gives-plain :
      (D : Chunk F) (op : Op) (ip : ℕ) (s : List (Value F)) (st : Store F)
      (r : Result Stop (List (Value F) × Store F))
      → ((a b : Value F) → operate N natives D op a b ≡ none)
      → GivesPlain D op ip s st r
      → Gives N natives locals D op ip s st r
  Gives-plain D op ip s st (ok (s', st')) h p = (p.0, exec_op-plain D op ip _ _ h ∙ p.1)
  Gives-plain D op ip s st (err (failed e)) h p = exec_op-plain D op ip _ _ h ∙ p
  Gives-plain D op ip s st (err panic) h p = tt

  pub Means-plain :
      (op : Op) (d : Effect F)
      → ((D : Chunk F) (a b : Value F) → operate N natives D op a b ≡ none)
      → ((D : Chunk F) (ip : ℕ) (s : List (Value F)) (st : Store F)
          → Fits N natives locals st
          → GivesPlain D op ip s st (d s st))
      → Means true (emit op) d
  Means-plain op d h does c =
      Segment-leaf N natives locals c (push_op op c) op [] d refl (sym (append-nil c.constants))
        (λ D has ip s st fits. Gives-plain D op ip s st (d s st) (h D) (does D ip s st fits))

  -- with the constant that the instruction has the index of
  pub Means-constant :
      (op : ℕ → Op) (v : Constant F) (d : Effect F)
      → ((D : Chunk F) (i : ℕ) (a b : Value F) → operate N natives D (op i) a b ≡ none)
      → ((D : Chunk F) (i ip : ℕ) (s : List (Value F)) (st : Store F)
          → get_elem? D.constants i ≡ some v
          → Fits N natives locals st
          → GivesPlain D (op i) ip s st (d s st))
      → Means true (emit_constant op v) d
  Means-constant op v d h does c =
      Segment-leaf N natives locals c _ (op (length c.constants % 2 ^ 32)) (v ∷ []) d refl refl
        (λ D has ip s st fits.
          let index : length c.constants % 2 ^ 32 ≡ length c.constants =
            omega (arith, has.0, length-append c.constants (v ∷ [])) in
          Gives-plain D _ ip s st (d s st) (h D _) (
            does D (length c.constants % 2 ^ 32) ip s st
              (rw index (has.1 _ v (get_elem?-append_end c.constants v))) fits))
