-- ===== src/Gc/Owns.antt =====
-- What a cell of crates/yps-vm/src/value.rs refers to, by its fields and independently of the
-- marker, and what walks there are.
use mathlib.Core.List.{Memᴰ}
use yoptascript_rs.Prelude.{ℕ, ◌≡◌, Option, some, List, String}
use yoptascript_rs.Gc.Heap.{
  Value, ClassMembers, ClassDef, Closure, ObjMap, closed, CallFrame, GenState, Delegate,
  to_generator, to_values, over_values, over_generator, pending, fulfilled, rejected,
  AggregateState, Cell, array_cell, object_cell, upvalue_cell, closure_cell, class_cell, gen_cell,
  for_iter_cell, promise_cell, aggregate_cell,
}
use yoptascript_rs.Gc.Mark.{Work, value, closure, class_def, gen, upvalue}

-- the closure at `a` is a method of some kind
pub data IsMethodOf (ms : ClassMembers) (a : ℕ) : Type 0 where
  a_method : {n : String} → Memᴰ (n, a) ms.methods.entries → IsMethodOf ms a
  a_getter : {n : String} → Memᴰ (n, a) ms.getters.entries → IsMethodOf ms a
  a_setter : {n : String} → Memᴰ (n, a) ms.setters.entries → IsMethodOf ms a
  a_static_method : {n : String} → Memᴰ (n, a) ms.static_methods.entries → IsMethodOf ms a
  a_static_getter : {n : String} → Memᴰ (n, a) ms.static_getters.entries → IsMethodOf ms a
  a_static_setter : {n : String} → Memᴰ (n, a) ms.static_setters.entries → IsMethodOf ms a

pub data DelegatesTo : Delegate → Work → Type 0 where
  inner : {a : ℕ} → DelegatesTo (to_generator a) (gen a)
  left : {vs : List Value} {i : ℕ} {v : Value} → Memᴰ v vs → DelegatesTo (to_values vs i) (value v)

pub data Owns : Cell → Work → Type 0 where
  element : {vs : List Value} {v : Value} → Memᴰ v vs → Owns (array_cell vs) (value v)
  entry :
      {o : ObjMap} {k : String} {v : Value} → Memᴰ (k, v) o.entries → Owns (object_cell o) (value v)
  captured : {c : Closure} {a : ℕ} → Memᴰ a c.upvalues → Owns (closure_cell c) (upvalue a)
  closed_over : {v : Value} → Owns (upvalue_cell (closed v)) (value v)
  constructed : {c : ClassDef} {a : ℕ} → c.constructor ≡ some a → Owns (class_cell c) (closure a)
  member : {c : ClassDef} {a : ℕ} → IsMethodOf c.members a → Owns (class_cell c) (closure a)
  initialiser :
      {c : ClassDef} {n : String} {a : ℕ} {d : Option Value}
      → Memᴰ (n, some a, d) c.members.field_inits
      → Owns (class_cell c) (closure a)
  default_value :
      {c : ClassDef} {n : String} {i : Option ℕ} {v : Value}
      → Memᴰ (n, i, some v) c.members.field_inits
      → Owns (class_cell c) (value v)
  static_field :
      {c : ClassDef} {k : String} {v : Value}
      → Memᴰ (k, v) c.static_fields.entries
      → Owns (class_cell c) (value v)
  superclass : {c : ClassDef} {a : ℕ} → c.parent ≡ some a → Owns (class_cell c) (class_def a)
  gen_closure : {s : GenState} → Owns (gen_cell s) (closure s.closure)
  gen_owner : {s : GenState} {a : ℕ} → s.owner ≡ some a → Owns (gen_cell s) (class_def a)
  gen_stack : {s : GenState} {v : Value} → Memᴰ v s.stack → Owns (gen_cell s) (value v)
  gen_frame :
      {s : GenState} {f : CallFrame} → Memᴰ f s.frames → Owns (gen_cell s) (closure f.closure)
  gen_frame_owner :
      {s : GenState} {f : CallFrame} {a : ℕ}
      → Memᴰ f s.frames
      → f.owner ≡ some a
      → Owns (gen_cell s) (class_def a)
  gen_upvalue : {s : GenState} {a : ℕ} → Memᴰ a s.open_upvalues → Owns (gen_cell s) (upvalue a)
  gen_this : {s : GenState} → Owns (gen_cell s) (value s.this)
  gen_arg : {s : GenState} {v : Value} → Memᴰ v s.args → Owns (gen_cell s) (value v)
  gen_delegate :
      {s : GenState} {d : Delegate} {w : Work}
      → s.delegate ≡ some d
      → DelegatesTo d w
      → Owns (gen_cell s) w
  iterated :
      {vs : List Value} {i : ℕ} {v : Value}
      → Memᴰ v vs
      → Owns (for_iter_cell (over_values vs i)) (value v)
  iterates : {a : ℕ} → Owns (for_iter_cell (over_generator a)) (gen a)
  resolver :
      {xs ys : List Value} {v : Value} → Memᴰ v xs → Owns (promise_cell (pending xs ys)) (value v)
  rejecter :
      {xs ys : List Value} {v : Value} → Memᴰ v ys → Owns (promise_cell (pending xs ys)) (value v)
  outcome : {v : Value} → Owns (promise_cell (fulfilled v)) (value v)
  reason : {v : Value} → Owns (promise_cell (rejected v)) (value v)
  result : {s : AggregateState} {v : Value} → Memᴰ v s.results → Owns (aggregate_cell s) (value v)
  resolves : {s : AggregateState} → Owns (aggregate_cell s) (value s.resolve)
  rejects : {s : AggregateState} → Owns (aggregate_cell s) (value s.reject)
