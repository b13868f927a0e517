-- ===== src/Gc/Listing.antt =====
-- The functions of crates/yps-vm/src/gc.rs that go into a cell list only what the cell owns.
use mathlib.Core.List.{Memᴰ}
use mathlib.Core.List.Memᴰ
use mathlib.Core.Path.{subst}
use mathlib.Core.Logic.{⊎_elim}
use yoptascript_rs.Prelude.{
  ℕ, ◌≡◌, refl, Option, none, some, List, inl, inr, [], ◌∷◌, ◌++◌, map, String,
}
use yoptascript_rs.Gc.Heap.{
  Value, ClassDef, opened, closed, CallFrame, GenState, Delegate, to_generator, to_values,
  over_values, over_generator, pending, fulfilled, rejected, MethodTable, defs, Cell, array_cell,
  object_cell, upvalue_cell, closure_cell, class_cell, gen_cell, for_iter_cell, promise_cell,
  aggregate_cell,
}
use yoptascript_rs.Gc.Mark.{
  Work, value, closure, class_def, upvalue, values, entry_values, optional, mark_class, mark_gen,
  mark_for_iter, mark_promise, mark_aggregate, mark_delegate, mark_frames, mark_inits, method_defs,
  delegated,
}
use yoptascript_rs.Gc.Typed.{cell_work}
use yoptascript_rs.Gc.Listed.{
  AllListed, nil-AllListed, cons-AllListed, append-AllListed, map-AllListed, optional-AllListed,
}
use yoptascript_rs.Gc.Owns.{
  IsMethodOf, a_method, a_getter, a_setter, a_static_method, a_static_getter, a_static_setter,
  inner, left, Owns, element, entry, captured, closed_over, constructed, member, initialiser,
  default_value, static_field, superclass, gen_closure, gen_owner, gen_stack, gen_frame,
  gen_frame_owner, gen_upvalue, gen_this, gen_arg, gen_delegate, iterated, iterates, resolver,
  rejecter, outcome, reason, result, resolves, rejects,
}

-- Everything that is listed is owned.
delegated-AllListed :
    (s : GenState) (d : Option Delegate)
    → s.delegate ≡ d
    → AllListed (Owns (gen_cell s)) (delegated d)
unfolding mark_delegate
delegated-AllListed s none e = nil-AllListed
delegated-AllListed s (some (to_generator a)) e =
    cons-AllListed (gen_delegate e inner) nil-AllListed
delegated-AllListed s (some (to_values vs i)) e =
    map-AllListed value vs (λ v m. gen_delegate e (left m))

module _ (P : Work → Type 0) (frames : List CallFrame) where
  frames-AllListed :
      (fs : List CallFrame)
      → ((f : CallFrame) → Memᴰ f fs → Memᴰ f frames)
      → ((f : CallFrame) → Memᴰ f frames → P (closure f.closure))
      → ((f : CallFrame) (a : ℕ) → Memᴰ f frames → f.owner ≡ some a → P (class_def a))
      → AllListed P (mark_frames fs)
  unfolding mark_frames
  frames-AllListed [] sub closures owners = nil-AllListed
  frames-AllListed (f ∷ fs) sub closures owners =
      cons-AllListed (closures f (sub f (Memᴰ.head refl))) (
        append-AllListed (optional class_def f.owner)
          (optional-AllListed class_def f.owner (λ a e. owners f a (sub f (Memᴰ.head refl)) e))
          (frames-AllListed fs (λ g m. sub g (Memᴰ.tail m)) closures owners))

gen-AllListed : (s : GenState) → AllListed (Owns (gen_cell s)) (mark_gen s)
unfolding mark_gen
gen-AllListed s = cons-AllListed gen_closure (
    append-AllListed (optional class_def s.owner)
      (optional-AllListed class_def s.owner (λ a e. gen_owner e))
      (append-AllListed (values s.stack) (map-AllListed value s.stack (λ v m. gen_stack m)) (
        append-AllListed (mark_frames s.frames)
          (frames-AllListed (Owns (gen_cell s)) s.frames s.frames (λ f m. m) (λ f m. gen_frame m)
            (λ f a m e. gen_frame_owner m e))
          (append-AllListed (map upvalue s.open_upvalues)
            (map-AllListed upvalue s.open_upvalues (λ a m. gen_upvalue m))
            (cons-AllListed gen_this (
              append-AllListed (values s.args) (map-AllListed value s.args (λ v m. gen_arg m))
                (delegated-AllListed s s.delegate refl)))))))

module _ {fs : List (String × Option ℕ × Option Value)} where
  cast_init :
      (n : String) (d : Option Value) {i : Option ℕ} {a : ℕ}
      → i ≡ some a
      → Memᴰ (n, i, d) fs
      → Memᴰ (n, some a, d) fs
  cast_init n d e h = subst (λ i. Memᴰ (n, i, d) fs) e h

  cast_default :
      (n : String) (i : Option ℕ) {d : Option Value} {v : Value}
      → d ≡ some v
      → Memᴰ (n, i, d) fs
      → Memᴰ (n, i, some v) fs
  cast_default n i e h = subst (λ d. Memᴰ (n, i, d) fs) e h

module _ (c : ClassDef) where
  table-AllListed :
      (t : MethodTable)
      → ((n : String) (a : ℕ) → Memᴰ (n, a) t.entries → IsMethodOf c.members a)
      → (a : ℕ) → Memᴰ a (defs t)
      → IsMethodOf c.members a
  table-AllListed t all a h =
      let ((n, b), m, e) = Memᴰ.of_map (λ (e : String × ℕ). e.1) t.entries h in
      subst (IsMethodOf c.members) e (all n b m)

  methods-AllListed : (a : ℕ) → Memᴰ a (method_defs c.members) → IsMethodOf c.members a
  methods-AllListed a h = elim (Memᴰ.append_cases (defs c.members.methods) h) [
    | inl m ↦ table-AllListed c.members.methods (λ n a h. a_method h) a m
    | inr h₁ ↦ elim (Memᴰ.append_cases (defs c.members.getters) h₁) [
      | inl m ↦ table-AllListed c.members.getters (λ n a h. a_getter h) a m
      | inr h₂ ↦ elim (Memᴰ.append_cases (defs c.members.setters) h₂) [
        | inl m ↦ table-AllListed c.members.setters (λ n a h. a_setter h) a m
        | inr h₃ ↦ elim (Memᴰ.append_cases (defs c.members.static_methods) h₃) [
          | inl m ↦ table-AllListed c.members.static_methods (λ n a h. a_static_method h) a m
          | inr h₄ ↦ elim (Memᴰ.append_cases (defs c.members.static_getters) h₄) [
            | inl m ↦ table-AllListed c.members.static_getters (λ n a h. a_static_getter h) a m
            | inr m ↦ table-AllListed c.members.static_setters (λ n a h. a_static_setter h) a m
          ]
        ]
      ]
    ]
  ]

  inits-AllListed :
      (fs : List (String × Option ℕ × Option Value))
      → ((f : String × Option ℕ × Option Value) → Memᴰ f fs → Memᴰ f c.members.field_inits)
      → AllListed (Owns (class_cell c)) (mark_inits fs)
  unfolding mark_inits
  inits-AllListed [] sub = nil-AllListed
  inits-AllListed ((n, i, d) ∷ fs) sub =
      let here = sub (n, i, d) (Memᴰ.head refl) in
      append-AllListed (optional closure i)
        (optional-AllListed closure i (λ a e. initialiser {n = n} {d = d} (cast_init n d e here)))
        (append-AllListed (optional value d)
          (optional-AllListed value d
            (λ v e. default_value {n = n} {i = i} (cast_default n i e here)))
          (inits-AllListed fs (λ f m. sub f (Memᴰ.tail m))))

  class-AllListed : AllListed (Owns (class_cell c)) (mark_class c)
  unfolding mark_class
  class-AllListed =
      append-AllListed (optional closure c.constructor)
        (optional-AllListed closure c.constructor (λ a e. constructed e))
        (append-AllListed (map closure (method_defs c.members))
          (map-AllListed closure (method_defs c.members) (λ a m. member (methods-AllListed a m)))
          (append-AllListed (mark_inits c.members.field_inits)
            (inits-AllListed c.members.field_inits (λ f m. m))
            (append-AllListed (entry_values c.static_fields.entries)
              (map-AllListed (λ e. value e.1) c.static_fields.entries
                (λ e m. static_field {k = e.0} m))
              (optional-AllListed class_def c.parent (λ a e. superclass e)))))

pub cell-AllListed : (c : Cell) → AllListed (Owns c) (cell_work c)
unfolding cell_work mark_for_iter mark_promise mark_aggregate
cell-AllListed (array_cell vs) = map-AllListed value vs (λ v m. element m)
cell-AllListed (object_cell o) = map-AllListed (λ e. value e.1) o.entries (λ e m. entry {k = e.0} m)
cell-AllListed (upvalue_cell (opened slot)) = nil-AllListed
cell-AllListed (upvalue_cell (closed v)) = cons-AllListed closed_over nil-AllListed
cell-AllListed (closure_cell c) = map-AllListed upvalue c.upvalues (λ a m. captured m)
cell-AllListed (class_cell c) = class-AllListed c
cell-AllListed (gen_cell s) = gen-AllListed s
cell-AllListed (for_iter_cell (over_values vs i)) = map-AllListed value vs (λ v m. iterated m)
cell-AllListed (for_iter_cell (over_generator a)) = cons-AllListed iterates nil-AllListed
cell-AllListed (promise_cell (pending xs ys)) =
    map-AllListed value (xs ++ ys) (λ v m. ⊎_elim resolver rejecter (Memᴰ.append_cases xs m))
cell-AllListed (promise_cell (fulfilled v)) = cons-AllListed outcome nil-AllListed
cell-AllListed (promise_cell (rejected v)) = cons-AllListed reason nil-AllListed
cell-AllListed (aggregate_cell s) =
    append-AllListed (values s.results) (map-AllListed value s.results (λ v m. result m))
      (cons-AllListed resolves (cons-AllListed rejects nil-AllListed))
