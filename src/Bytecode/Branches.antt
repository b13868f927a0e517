-- ===== src/Bytecode/Branches.antt =====
-- Jumps forward whose target is patched when the code between is there.
use Prim.{Unit, tt}
use mathlib.Core.Path.{subst}
use mathlib.Core.List.{append_assoc}
use yoptascript_rs.Prelude.{
  ℕ, suc, ◌+◌, ◌≡◌, refl, sym, ap, ◌∙◌, Bool, true, false, Option, none, some, List, [], ◌∷◌, ◌++◌,
  arith, length, get_elem?, length-append,
}
use yoptascript_rs.Bytecode.Values.{Floats, Value}
use yoptascript_rs.Bytecode.Result.{Result, ok, err}
use yoptascript_rs.Bytecode.Chunk.{Op, Chunk, push_op, retarget}
use yoptascript_rs.Bytecode.Machine.{Stop, failed, panic, Globals, Machine, machine, Natives}
use yoptascript_rs.Bytecode.Exec.{exec_op, operate, exec_plain, done, more}
use yoptascript_rs.Bytecode.Locals.{Local, Store}
use yoptascript_rs.Bytecode.Compile.{patch_here}
use yoptascript_rs.Bytecode.Patches.{patch_here-middle}
use yoptascript_rs.Bytecode.Segments.{
  Effect, at_place, At, At-append, Has, Has-prefix, Fits, Reaches, Reaches-then, Run-then, Segment,
  longer, step-exec_op,
}

module _ {F : Type 0} (N : Floats F) (natives : Natives F) (locals : List Local) where
  -- A jump that goes by what stands on the stack: `none` where nothing does, or else whether it jumps,
  -- and the values it leaves.
  abbrev pub Decision : Type 0
  Decision = List (Value F) → Option (Bool × List (Value F))

  abbrev pub Decided :
      Chunk F → Op → ℕ → ℕ → List (Value F) → Store F → Option (Bool × List (Value F)) → Type 0
  Decided D op t ip s st none = Unit
  Decided D op t ip s st (some (true, s')) =
      exec_op N natives D op (at_place ip s st) ≡ ok (at_place t s' st)
  Decided D op t ip s st (some (false, s')) =
      exec_op N natives D op (at_place ip s st) ≡ ok (at_place ip s' st)

  pub record IsJump (op : ℕ → Op) (decide : Decision) : Type 0 where
    pub patches : (a t : ℕ) → retarget (op a) t ≡ some (op t)
    pub decides :
        (D : Chunk F) (t ip : ℕ) (s : List (Value F)) (st : Store F)
        → Decided D (op t) t ip s st (decide s)

  abbrev pub decided :
      Effect F
      → Effect F
      → Store F
      → Option (Bool × List (Value F))
      → Result Stop (List (Value F) × Store F)
  decided d e st none = err panic
  decided d e st (some (true, s)) = e s st
  decided d e st (some (false, s)) = d s st

  -- `d` where the jump goes on, `e` where it jumps
  abbrev pub two_way : Decision → Effect F → Effect F → Effect F
  two_way decide d e s st = decided d e st (decide s)

  run_two_way :
      (D : Chunk F) (op : Op) (t ip hi : ℕ) (s : List (Value F)) (st : Store F) (d e : Effect F)
      (o : Option (Bool × List (Value F)))
      → get_elem? D.code ip ≡ some op
      → Decided D op t (suc ip) s st o
      → ((s : List (Value F)) → Reaches N natives locals D (at_place (suc ip) s st) hi (d s st))
      → ((s : List (Value F)) → Reaches N natives locals D (at_place t s st) hi (e s st))
      → Reaches N natives locals D (at_place ip s st) hi (decided d e st o)
  run_two_way D op t ip hi s st d e none here h falls jumps = tt
  run_two_way D op t ip hi s st d e (some (true, s')) here h falls jumps =
      Reaches-then N natives locals D hi (e s' st)
        (more (step-exec_op N natives locals D op ip _ _ here ∙ h) done) (jumps s')
  run_two_way D op t ip hi s st d e (some (false, s')) here h falls jumps =
      Reaches-then N natives locals D hi (d s' st)
        (more (step-exec_op N natives locals D op ip _ _ here ∙ h) done) (falls s')

  -- the run of a segment, with its ends named otherwise
  Segment-run :
      (c c' : Chunk F) (d : Effect F) (p : Segment N natives locals c d c')
      → (D : Chunk F) → (lo hi : ℕ) → length c.code ≡ lo
      → length c'.code ≡ hi
      → At D.code lo p.ops
      → Has c'.constants D.constants
      → (s : List (Value F)) → (st : Store F) → Fits N natives locals st
      → Reaches N natives locals D (at_place lo s st) hi (d s st)
  Segment-run c c' d p D lo hi starts ends at has s st fits =
      subst (λ n. Reaches N natives locals D (at_place n s st) hi (d s st)) starts
        (subst (λ n. Reaches N natives locals D (at_place (length c.code) s st) n (d s st)) ends
          (p.runs D (subst (λ n. At D.code n p.ops) (sym starts) at) has s st fits))

  -- code that a jump passes over
  pub Segment-skip :
      (c c₂ : Chunk F) (op : ℕ → Op) (decide : Decision) (d : Effect F)
      → IsJump op decide
      → Segment N natives locals (push_op (op 0) c) d c₂
      → (c₃ : Chunk F) × (patch_here (length c.code) c₂ ≡ ok c₃)
        × Segment N natives locals c (two_way decide d (λ s st. ok (s, st))) c₃
  Segment-skip c c₂ op decide d jumps p =
      let t = length c₂.code in
      let code : c₂.code ≡ c.code ++ op 0 ∷ p.ops =
        p.code_grows ∙ append_assoc c.code (op 0 ∷ []) p.ops in
      let size : length c₂.code ≡ length (c.code ++ op t ∷ p.ops) = omega (
        arith,
        ap length code,
        length-append c.code (op 0 ∷ p.ops),
        length-append c.code (op t ∷ p.ops),
      ) in
      (
        record c₂ { code = c.code ++ op t ∷ p.ops },
        patch_here-middle c₂ (length c.code) c.code p.ops (op 0) (op t) code refl
            (jumps.patches 0 t),
        record {
          ops = op t ∷ p.ops;
          code_grows = refl;
          fresh = p.fresh;
          constants_grow = p.constants_grow;
          runs = λ D at has s st fits.
              run_two_way D (op t) t (length c.code) _ s st d (λ s st. ok (s, st)) (decide s) at.0
                (jumps.decides D t _ s st)
                (λ s.
                  Segment-run (push_op (op 0) c) c₂ d p D _ _
                    (length-append c.code (op 0 ∷ []) ∙ omega arith) size at.1 has s st fits)
                (λ s.
                  subst (λ n. Reaches N natives locals D (at_place t s st) n (ok (s, st))) size
                    (fits, done));
        },
      )

  exec_op-jump :
      (D : Chunk F) (t ip : ℕ) (s : List (Value F)) (g : Globals F)
      → exec_op N natives D (Op.jump t) (machine ip s g) ≡ ok (machine t s g)
  unfolding exec_op operate exec_plain
  exec_op-jump D t ip [] g = refl
  exec_op-jump D t ip (b ∷ []) g = refl
  exec_op-jump D t ip (b ∷ a ∷ s) g = refl

  -- a run that ends at a jump goes where the jump goes
  Reaches-jump :
      (D : Chunk F) (m : Machine F) (mid hi : ℕ) (r : Result Stop (List (Value F) × Store F))
      → get_elem? D.code mid ≡ some (Op.jump hi)
      → Reaches N natives locals D m mid r
      → Reaches N natives locals D m hi r
  Reaches-jump D m mid hi (ok (s, st)) here h = (
    h.0,
    Run-then N natives locals D h.1 (
        more (step-exec_op N natives locals D (Op.jump hi) mid _ _ here ∙ exec_op-jump D hi _ _ _)
          done),
  )
  Reaches-jump D m mid hi (err (failed e)) here h = h
  Reaches-jump D m mid hi (err panic) here h = tt

  -- code that a jump passes over, with a jump at its end over the code that the first jump goes to
  pub Segment-branch :
      (c c₂ : Chunk F) (op : ℕ → Op) (decide : Decision) (d e : Effect F)
      → IsJump op decide
      → Segment N natives locals (push_op (op 0) c) d c₂
      → (c₄ : Chunk F) × (patch_here (length c.code) (push_op (Op.jump 0) c₂) ≡ ok c₄)
        × ((c₅ : Chunk F)
            → Segment N natives locals c₄ e c₅
            → (c₆ : Chunk F) × (patch_here (length c₂.code) c₅ ≡ ok c₆)
              × Segment N natives locals c (two_way decide d e) c₆)
  unfolding retarget
  Segment-branch c c₂ op decide d e jumps p =
      let c₃ = push_op (Op.jump 0) c₂ in
      let t = length c₃.code in
      let code : c₃.code ≡ c.code ++ op 0 ∷ (p.ops ++ Op.jump 0 ∷ []) =
        ap (λ x. x ++ Op.jump 0 ∷ []) p.code_grows
        ∙ append_assoc (c.code ++ op 0 ∷ []) p.ops _
        ∙ append_assoc c.code (op 0 ∷ []) _ in
      (
        record c₃ { code = c.code ++ op t ∷ (p.ops ++ Op.jump 0 ∷ []) },
        patch_here-middle c₃ (length c.code) c.code (p.ops ++ Op.jump 0 ∷ []) (op 0) (op t) code
            refl (jumps.patches 0 t),
        λ c₅ q.
            let u = length c₅.code in
            let before = c.code ++ op t ∷ p.ops in
            let size₂ : length c₂.code ≡ suc (length c.code) + length p.ops =
              longer N natives locals (push_op (op 0) c) c₂ d p
              ∙ omega (arith, length-append c.code (op 0 ∷ [])) in
            let size₃ : t ≡ suc (length c₂.code) =
              omega (arith, length-append c₂.code (Op.jump 0 ∷ [])) in
            let sized : length before ≡ length c₂.code =
              omega (arith, size₂, length-append c.code (op t ∷ p.ops)) in
            let code₅ : c₅.code ≡ before ++ Op.jump 0 ∷ q.ops =
              q.code_grows
              ∙ ap (λ x. x ++ q.ops) (sym (append_assoc c.code (op t ∷ p.ops) (Op.jump 0 ∷ [])))
              ∙ append_assoc before (Op.jump 0 ∷ []) q.ops in
            let size₅ : u ≡ length (before ++ Op.jump u ∷ q.ops) = omega (
              arith,
              ap length code₅,
              length-append before (Op.jump 0 ∷ q.ops),
              length-append before (Op.jump u ∷ q.ops),
            ) in
            (
              record c₅ { code = before ++ Op.jump u ∷ q.ops },
              patch_here-middle c₅ (length c₂.code) before q.ops (Op.jump 0) (Op.jump u) code₅
                  (sym sized) refl,
              record {
                ops = op t ∷ (p.ops ++ Op.jump u ∷ q.ops);
                code_grows = append_assoc c.code (op t ∷ p.ops) (Op.jump u ∷ q.ops);
                fresh = p.fresh ++ q.fresh;
                constants_grow =
                    q.constants_grow
                    ∙ ap (λ x. x ++ q.fresh) p.constants_grow
                    ∙ append_assoc c.constants p.fresh q.fresh;
                runs = λ D at has s st fits.
                    let (at₁, at₂) = At-append D.code _ p.ops (Op.jump u ∷ q.ops) at.1 in
                    run_two_way D (op t) t (length c.code) _ s st d e (decide s) at.0
                      (jumps.decides D t _ s st)
                      (λ s.
                        subst
                          (λ n.
                            Reaches N natives locals D (at_place (suc (length c.code)) s st) n
                              (d s st))
                          size₅
                          (Reaches-jump D _ (suc (length c.code) + length p.ops) u (d s st) at₂.0 (
                            Segment-run (push_op (op 0) c) c₂ d p D _ _
                              (length-append c.code (op 0 ∷ []) ∙ omega arith) size₂ at₁
                              (Has-prefix c₂.constants q.fresh D.constants
                                (subst (λ k. Has k D.constants) q.constants_grow has))
                              s st fits)))
                      (λ s.
                        Segment-run _ c₅ e q D t _
                          (omega (
                            arith,
                            length-append c.code (op t ∷ (p.ops ++ Op.jump 0 ∷ [])),
                            length-append p.ops (Op.jump 0 ∷ []),
                            size₂,
                            size₃,
                          ))
                          size₅ (subst (λ n. At D.code n q.ops) (omega (arith, size₂, size₃)) at₂.1)
                          has s st fits);
              },
            ),
      )
