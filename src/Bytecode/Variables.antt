-- ===== src/Bytecode/Variables.antt =====
-- Reads and writes of variables as parts of the compiler: a slot of the compiler is the place of the
-- value on the stack of the machine.
use Prim.{tt}
use yoptascript_rs.Prelude.{
  ℕ, ◌≡◌, refl, sym, ap, ◌∙◌, Bool, true, false, not, Option, none, some, List, [], ◌∷◌, ◌++◌,
  if◌then◌else◌, arith, get_elem?,
}
use yoptascript_rs.Bytecode.Values.{Text, Floats, Value}
use yoptascript_rs.Bytecode.Result.{Result, ok, err, ◌>>=◌}
use yoptascript_rs.Bytecode.Chunk.{Constant, Op, Chunk}
use yoptascript_rs.Bytecode.Machine.{
  VmError, panic, from_bottom, set_from_bottom, Globals, global_set, machine, Natives,
}
use yoptascript_rs.Bytecode.Exec.{lift, get_global, operate, exec_plain}
use yoptascript_rs.Bytecode.Locals.{Local, resolve_local, Store, values, find, replace, read, write}
use yoptascript_rs.Bytecode.Accepts.{gets, sets}
use yoptascript_rs.Bytecode.Compile.{
  CompileError, not_initialized, constant_variable, Emitter, compile_var_get, compile_var_set, emit,
  emit_constant,
}
use yoptascript_rs.Bytecode.Segments.{Effect, at_place, Fits}
use yoptascript_rs.Bytecode.Slots.{
  from_bottom-under, set_from_bottom-under, locals_of-replace, find-resolve_local, find-none,
}
use yoptascript_rs.Bytecode.Means.{GivesPlain, Good, Means, Means-plain, Means-constant}

if_swap : {A : Type 0} (b : Bool) (x y : A) → (if b then x else y) ≡ (if not b then y else x)
if_swap true x y = refl
if_swap false x y = refl

-- a value is read, and a value on the stack is written
abbrev pub reads : {F : Type 0} → Natives F → Text → Effect F
reads natives name s st = lift (read natives name st) >>= λ v. ok (v ∷ s, st)

abbrev pub writes_top : {F : Type 0} → Text → Effect F
writes_top name [] st = err panic
writes_top name (v ∷ s) st = lift (write name v st) >>= λ st'. ok (v ∷ s, st')

module _ {F : Type 0} (N : Floats F) (natives : Natives F) (locals : List Local) where
  gives_read :
      (D : Chunk F) (op : Op) (ip : ℕ) (s : List (Value F)) (st : Store F)
      (r : Result VmError (Value F))
      → Fits N natives locals st
      → exec_plain N natives D op (at_place ip s st) ≡ (lift r >>= λ v. ok (at_place ip (v ∷ s) st))
      → GivesPlain N natives locals D op ip s st (lift r >>= λ v. ok (v ∷ s, st))
  gives_read D op ip s st (ok v) fits h = (fits, h)
  gives_read D op ip s st (err e) fits h = h

  gives_write :
      (D : Chunk F) (op : Op) (ip : ℕ) (v : Value F) (s : List (Value F)) (st : Store F)
      (r : Result VmError (Globals F))
      → Fits N natives locals st
      → exec_plain N natives D op (at_place ip (v ∷ s) st)
        ≡ (lift r >>= λ g. ok (machine ip (v ∷ s ++ values st.frame) g))
      → GivesPlain N natives locals D op ip
          (v ∷ s)
          st
          (lift (r >>= λ g. ok (record st { globals = g })) >>= λ st'. ok (v ∷ s, st'))
  gives_write D op ip v s st (ok g) fits h = (fits, h)
  gives_write D op ip v s st (err e) fits h = h

  gives_get_local :
      (D : Chunk F) (name : Text) (slot : ℕ) (local : Local) (ip : ℕ) (s : List (Value F))
      (st : Store F)
      → resolve_local locals name ≡ some (slot, local)
      → Fits N natives locals st
      → GivesPlain N natives locals D (Op.get_local slot) ip s st (reads natives name s st)
  unfolding exec_plain read
  gives_get_local D name slot local ip s st h fits =
      let found = find-resolve_local st.frame name slot local (rw fits.0 h) (rw fits.0 fits.1) in
      let here : from_bottom (s ++ values st.frame) slot ≡ some found.value =
        from_bottom-under s (values st.frame) slot found.inside ∙ found.holds in
      rw (found.found, read) (fits, rw here refl)

  get_global-read :
      (D : Chunk F) (name : Text) (ip : ℕ) (s : List (Value F)) (st : Store F)
      → find st.frame name ≡ none
      → lift (get_global N natives D name (at_place ip s st))
        ≡ (lift (read natives name st) >>= λ v. ok (at_place ip (v ∷ s) st))
  unfolding get_global read
  get_global-read D name ip s st missing = ground (arith, missing)

  gives_get_global :
      (D : Chunk F) (name : Text) (i ip : ℕ) (s : List (Value F)) (st : Store F)
      → resolve_local locals name ≡ none
      → get_elem? D.constants i ≡ some (Constant.str name)
      → Fits N natives locals st
      → GivesPlain N natives locals D (Op.get_global i) ip s st (reads natives name s st)
  unfolding exec_plain read get_global
  gives_get_global D name i ip s st h here fits =
      let missing = find-none st.frame name (rw fits.0 h) in
      gives_read D (Op.get_global i) ip s st (read natives name st) fits
        (rw (here, exec_plain) (get_global-read D name ip s st missing))

  gives_set_local :
      (D : Chunk F) (name : Text) (slot : ℕ) (local : Local) (ip : ℕ) (s : List (Value F))
      (st : Store F)
      → resolve_local locals name ≡ some (slot, local)
      → local.is_const ≡ false
      → Fits N natives locals st
      → GivesPlain N natives locals D (Op.set_local slot) ip s st (writes_top name s st)
  unfolding exec_plain write
  gives_set_local D name slot local ip [] st h var fits = tt
  gives_set_local D name slot local ip (v ∷ s) st h var fits =
      let found = find-resolve_local st.frame name slot local (rw fits.0 h) (rw fits.0 fits.1) in
      let here : set_from_bottom (v ∷ s ++ values st.frame) slot v
          ≡ v ∷ s ++ values (replace st.frame name v) =
        set_from_bottom-under (v ∷ s) (values st.frame) slot v found.inside
        ∙ ap (λ x. v ∷ s ++ x) (sym (found.writes v)) in
      rw (found.found, var, write)
        (
          (locals_of-replace st.frame name v ∙ fits.0, fits.1),
          ap (λ x. ok (machine ip x st.globals)) here,
        )

  gives_set_global :
      (D : Chunk F) (name : Text) (i ip : ℕ) (s : List (Value F)) (st : Store F)
      → resolve_local locals name ≡ none
      → get_elem? D.constants i ≡ some (Constant.str name)
      → Fits N natives locals st
      → GivesPlain N natives locals D (Op.set_global i) ip s st (writes_top name s st)
  unfolding exec_plain write
  gives_set_global D name i ip [] st h here fits = tt
  gives_set_global D name i ip (v ∷ s) st h here fits =
      let missing = find-none st.frame name (rw fits.0 h) in
      rw (missing, write)
        (gives_write D (Op.set_global i) ip v s st (global_set name v st.globals) fits
          (rw (here, exec_plain) refl))

  Good-if :
      (b : Bool) (f : Emitter F) (e : CompileError) (d : Effect F)
      → (b ≡ true → Means N natives locals true f d)
      → (c : Chunk F) → Good N natives locals b c d (if b then f c else err e)
  Good-if true f e d h c = h refl c
  Good-if false f e d h c = tt

  get_resolved :
      (name : Text) (r : Option (ℕ × Local))
      → resolve_local locals name ≡ r
      → (c : Chunk F)
      → Good N natives locals
          (elim r [ none ↦ true | some (slot, local) ↦ local.initialized ])
          c
          (reads natives name)
          (elim r [
            | some (slot, local) ↦
                if local.initialized then emit (Op.get_local slot) c else err (not_initialized name)
            | none ↦ emit_constant Op.get_global (Constant.str name) c
          ])
  unfolding operate
  get_resolved name none h c =
      Means-constant N natives locals Op.get_global (Constant.str name) _ (λ D i a b. refl)
        (λ D i ip s st here fits. gives_get_global D name i ip s st h here fits) c
  get_resolved name (some (slot, local)) h c =
      Good-if local.initialized (emit (Op.get_local slot)) (not_initialized name) _
        (λ is.
          Means-plain N natives locals (Op.get_local slot) _ (λ D a b. refl)
            (λ D ip s st fits. gives_get_local D name slot local ip s st h fits))
        c

  -- a variable's value is pushed, if the compiler lets it be read
  pub Means-compile_var_get :
      (name : Text)
      → Means N natives locals
          (gets locals name)
          (compile_var_get N locals name)
          (reads natives name)
  unfolding gets compile_var_get
  Means-compile_var_get name c = get_resolved name (resolve_local locals name) refl c

  set_resolved :
      (name : Text) (r : Option (ℕ × Local))
      → resolve_local locals name ≡ r
      → (c : Chunk F)
      → Good N natives locals
          (elim r [ none ↦ true | some (slot, local) ↦ not local.is_const ])
          c
          (writes_top name)
          (elim r [
            | some (slot, local) ↦
                if local.is_const then err (constant_variable name) else emit (Op.set_local slot) c
            | none ↦ emit_constant Op.set_global (Constant.str name) c
          ])
  unfolding operate
  set_resolved name none h c =
      Means-constant N natives locals Op.set_global (Constant.str name) _ (λ D i a b. refl)
        (λ D i ip s st here fits. gives_set_global D name i ip s st h here fits) c
  set_resolved name (some (slot, local)) h c =
      rw (if_swap local.is_const (err (constant_variable name)) (emit (Op.set_local slot) c)) (
        Good-if (not local.is_const) (emit (Op.set_local slot)) (constant_variable name) _
          (λ is.
            Means-plain N natives locals (Op.set_local slot) _ (λ D a b. refl)
              (λ D ip s st fits.
                gives_set_local D name slot local ip s st h (ground (arith, is)) fits))
          c)

  -- the value on the stack is written, if the compiler lets the variable be written
  pub Means-compile_var_set :
      (name : Text)
      → Means N natives locals (sets locals name) (compile_var_set N locals name) (writes_top name)
  unfolding sets compile_var_set
  Means-compile_var_set name c = set_resolved name (resolve_local locals name) refl c
