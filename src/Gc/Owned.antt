-- ===== src/Gc/Owned.antt =====
-- The functions of crates/yps-vm/src/gc.rs that go into a cell list all that the cell owns.
use mathlib.Core.List.{Memᴰ}
use mathlib.Core.List.Memᴰ
use mathlib.Core.Path.{subst}
use yoptascript_rs.Prelude.{
  sym, ap, ◌∙◌, ℕ, ◌≡◌, refl, Option, some, List, inl, inr, [], ◌∷◌, map, String,
}
use yoptascript_rs.Gc.Heap.{
  Value, ClassDef, opened, closed, CallFrame, Delegate, to_generator, to_values, over_values,
  over_generator, pending, fulfilled, rejected, defs, Cell, array_cell, object_cell, upvalue_cell,
  closure_cell, class_cell, gen_cell, for_iter_cell, promise_cell, aggregate_cell,
}
use yoptascript_rs.Gc.Mark.{
  Work, value, closure, class_def, upvalue, values, entry_values, optional, mark_class, mark_gen,
  mark_for_iter, mark_promise, mark_aggregate, mark_delegate, mark_frames, mark_inits, method_defs,
  delegated,
}
use yoptascript_rs.Gc.Typed.{cell_work}
use yoptascript_rs.Gc.Listed.{mem-optional}
use yoptascript_rs.Gc.Owns.{
  IsMethodOf, a_method, a_getter, a_setter, a_static_method, a_static_getter, a_static_setter,
  DelegatesTo, inner, left, Owns, element, entry, captured, closed_over, constructed, member,
  initialiser, default_value, static_field, superclass, gen_closure, gen_owner, gen_stack,
  gen_frame, gen_frame_owner, gen_upvalue, gen_this, gen_arg, gen_delegate, iterated, iterates,
  resolver, rejecter, outcome, reason, result, resolves, rejects,
}

-- Everything that is owned is listed.
method_listed : (c : ClassDef) (a : ℕ) → IsMethodOf c.members a → Memᴰ a (method_defs c.members)
method_listed c a (a_method h) = Memᴰ.append_left _ (Memᴰ.map (λ e. e.1) h)
method_listed c a (a_getter h) =
    Memᴰ.append_right (defs c.members.methods) (Memᴰ.append_left _ (Memᴰ.map (λ e. e.1) h))
method_listed c a (a_setter h) =
    Memᴰ.append_right (defs c.members.methods)
      (Memᴰ.append_right (defs c.members.getters) (Memᴰ.append_left _ (Memᴰ.map (λ e. e.1) h)))
method_listed c a (a_static_method h) = Memᴰ.append_right (defs c.members.methods) (
    Memᴰ.append_right (defs c.members.getters)
      (Memᴰ.append_right (defs c.members.setters) (Memᴰ.append_left _ (Memᴰ.map (λ e. e.1) h))))
method_listed c a (a_static_getter h) = Memᴰ.append_right (defs c.members.methods) (
    Memᴰ.append_right (defs c.members.getters) (
      Memᴰ.append_right (defs c.members.setters) (
        Memᴰ.append_right (defs c.members.static_methods)
          (Memᴰ.append_left _ (Memᴰ.map (λ e. e.1) h)))))
method_listed c a (a_static_setter h) = Memᴰ.append_right (defs c.members.methods) (
    Memᴰ.append_right (defs c.members.getters) (
      Memᴰ.append_right (defs c.members.setters) (
        Memᴰ.append_right (defs c.members.static_methods)
          (Memᴰ.append_right (defs c.members.static_getters) (Memᴰ.map (λ e. e.1) h)))))

frame_listed :
    (fs : List CallFrame) (f : CallFrame) → Memᴰ f fs → Memᴰ (closure f.closure) (mark_frames fs)
unfolding mark_frames
frame_listed [] f h = absurd (Memᴰ.not-nil h)
frame_listed (g ∷ fs) f h = elim (Memᴰ.cases_cons h) [
  | inl e ↦ Memᴰ.head (ap (λ (x : CallFrame). closure x.closure) e)
  | inr m ↦ Memᴰ.tail (Memᴰ.append_right (optional class_def g.owner) (frame_listed fs f m))
]

frame_owner_listed :
    (fs : List CallFrame) (f : CallFrame) (a : ℕ)
    → Memᴰ f fs
    → f.owner ≡ some a
    → Memᴰ (class_def a) (mark_frames fs)
unfolding mark_frames
frame_owner_listed [] f a h e = absurd (Memᴰ.not-nil h)
frame_owner_listed (g ∷ fs) f a h e = elim (Memᴰ.cases_cons h) [
  | inl q ↦ Memᴰ.tail (
      Memᴰ.append_left (mark_frames fs)
        (mem-optional class_def (sym (ap (λ (x : CallFrame). x.owner) q) ∙ e)))
  | inr m ↦
      Memᴰ.tail (Memᴰ.append_right (optional class_def g.owner) (frame_owner_listed fs f a m e))
]

init_listed :
    (fs : List (String × Option ℕ × Option Value)) (n : String) (a : ℕ) (d : Option Value)
    → Memᴰ (n, some a, d) fs
    → Memᴰ (closure a) (mark_inits fs)
unfolding mark_inits
init_listed [] n a d h = absurd (Memᴰ.not-nil h)
init_listed ((m, i, e) ∷ fs) n a d h = elim (Memᴰ.cases_cons h) [
  | inl q ↦ Memᴰ.append_left _ (mem-optional closure (sym (ap (λ x. x.1) q)))
  | inr rest ↦
      Memᴰ.append_right (optional closure i)
        (Memᴰ.append_right (optional value e) (init_listed fs n a d rest))
]

default_listed :
    (fs : List (String × Option ℕ × Option Value)) (n : String) (i : Option ℕ) (v : Value)
    → Memᴰ (n, i, some v) fs
    → Memᴰ (value v) (mark_inits fs)
unfolding mark_inits
default_listed [] n i v h = absurd (Memᴰ.not-nil h)
default_listed ((m, j, e) ∷ fs) n i v h = elim (Memᴰ.cases_cons h) [
  | inl q ↦
      Memᴰ.append_right (optional closure j)
        (Memᴰ.append_left _ (mem-optional value (sym (ap (λ x. x.2) q))))
  | inr rest ↦
      Memᴰ.append_right (optional closure j)
        (Memᴰ.append_right (optional value e) (default_listed fs n i v rest))
]

delegate_listed :
    (o : Option Delegate) (d : Delegate) (w : Work)
    → o ≡ some d
    → DelegatesTo d w
    → Memᴰ w (delegated o)
unfolding mark_delegate
delegate_listed o (to_generator a) w e inner =
    subst (λ o. Memᴰ w (delegated o)) (sym e) (Memᴰ.head refl)
delegate_listed o (to_values vs i) w e (left m) =
    subst (λ o. Memᴰ w (delegated o)) (sym e) (Memᴰ.map value m)

pub owned_listed : (c : Cell) (w : Work) → Owns c w → Memᴰ w (cell_work c)
unfolding cell_work mark_class mark_gen mark_for_iter mark_promise mark_aggregate
owned_listed (array_cell vs) w (element m) = Memᴰ.map value m
owned_listed (object_cell o) w (entry m) = Memᴰ.map (λ e. value e.1) m
owned_listed (closure_cell c) w (captured m) = Memᴰ.map upvalue m
owned_listed (upvalue_cell (closed v)) w closed_over = Memᴰ.head refl
owned_listed (upvalue_cell (opened slot)) w h = elim h [ ]
owned_listed (for_iter_cell (over_values vs i)) w (iterated m) = Memᴰ.map value m
owned_listed (for_iter_cell (over_generator a)) w iterates = Memᴰ.head refl
owned_listed (promise_cell (pending xs ys)) w (resolver m) = Memᴰ.map value (Memᴰ.append_left ys m)
owned_listed (promise_cell (pending xs ys)) w (rejecter m) = Memᴰ.map value (Memᴰ.append_right xs m)
owned_listed (promise_cell (fulfilled v)) w outcome = Memᴰ.head refl
owned_listed (promise_cell (rejected v)) w reason = Memᴰ.head refl
owned_listed (aggregate_cell s) w (result m) = Memᴰ.append_left _ (Memᴰ.map value m)
owned_listed (aggregate_cell s) w resolves = Memᴰ.append_right (values s.results) (Memᴰ.head refl)
owned_listed (aggregate_cell s) w rejects =
    Memᴰ.append_right (values s.results) (Memᴰ.tail (Memᴰ.head refl))
owned_listed (class_cell c) w (constructed e) = Memᴰ.append_left _ (mem-optional closure e)
owned_listed (class_cell c) w (member {a = a} h) =
    Memᴰ.append_right (optional closure c.constructor)
      (Memᴰ.append_left _ (Memᴰ.map closure (method_listed c a h)))
owned_listed (class_cell c) w (initialiser {n = n} {a = a} {d = d} h) =
    Memᴰ.append_right (optional closure c.constructor) (
      Memᴰ.append_right (map closure (method_defs c.members))
        (Memᴰ.append_left _ (init_listed c.members.field_inits n a d h)))
owned_listed (class_cell c) w (default_value {n = n} {i = i} {v = v} h) =
    Memᴰ.append_right (optional closure c.constructor) (
      Memᴰ.append_right (map closure (method_defs c.members))
        (Memᴰ.append_left _ (default_listed c.members.field_inits n i v h)))
owned_listed (class_cell c) w (static_field h) =
    Memᴰ.append_right (optional closure c.constructor) (
      Memᴰ.append_right (map closure (method_defs c.members)) (
        Memᴰ.append_right (mark_inits c.members.field_inits)
          (Memᴰ.append_left _ (Memᴰ.map (λ e. value e.1) h))))
owned_listed (class_cell c) w (superclass e) = Memᴰ.append_right (optional closure c.constructor) (
    Memᴰ.append_right (map closure (method_defs c.members)) (
      Memᴰ.append_right (mark_inits c.members.field_inits)
        (Memᴰ.append_right (entry_values c.static_fields.entries) (mem-optional class_def e))))
owned_listed (gen_cell s) w gen_closure = Memᴰ.head refl
owned_listed (gen_cell s) w (gen_owner {a = a} e) =
    Memᴰ.tail (Memᴰ.append_left _ (mem-optional class_def e))
owned_listed (gen_cell s) w (gen_stack m) =
    Memᴰ.tail
      (Memᴰ.append_right (optional class_def s.owner) (Memᴰ.append_left _ (Memᴰ.map value m)))
owned_listed (gen_cell s) w (gen_frame {f = f} m) = Memᴰ.tail (
    Memᴰ.append_right (optional class_def s.owner)
      (Memᴰ.append_right (values s.stack) (Memᴰ.append_left _ (frame_listed s.frames f m))))
owned_listed (gen_cell s) w (gen_frame_owner {f = f} {a = a} m e) = Memᴰ.tail (
    Memᴰ.append_right (optional class_def s.owner) (
      Memᴰ.append_right (values s.stack)
        (Memᴰ.append_left _ (frame_owner_listed s.frames f a m e))))
owned_listed (gen_cell s) w (gen_upvalue m) = Memᴰ.tail (
    Memᴰ.append_right (optional class_def s.owner) (
      Memᴰ.append_right (values s.stack)
        (Memᴰ.append_right (mark_frames s.frames) (Memᴰ.append_left _ (Memᴰ.map upvalue m)))))
owned_listed (gen_cell s) w gen_this = Memᴰ.tail (
    Memᴰ.append_right (optional class_def s.owner) (
      Memᴰ.append_right (values s.stack) (
        Memᴰ.append_right (mark_frames s.frames)
          (Memᴰ.append_right (map upvalue s.open_upvalues) (Memᴰ.head refl)))))
owned_listed (gen_cell s) w (gen_arg m) = Memᴰ.tail (
    Memᴰ.append_right (optional class_def s.owner) (
      Memᴰ.append_right (values s.stack) (
        Memᴰ.append_right (mark_frames s.frames) (
          Memᴰ.append_right (map upvalue s.open_upvalues)
            (Memᴰ.tail (Memᴰ.append_left _ (Memᴰ.map value m)))))))
owned_listed (gen_cell s) w (gen_delegate {d = d} e h) = Memᴰ.tail (
    Memᴰ.append_right (optional class_def s.owner) (
      Memᴰ.append_right (values s.stack) (
        Memᴰ.append_right (mark_frames s.frames) (
          Memᴰ.append_right (map upvalue s.open_upvalues)
            (Memᴰ.tail (Memᴰ.append_right (values s.args) (delegate_listed s.delegate d w e h)))))))
