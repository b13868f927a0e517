-- ===== src/Gc/Walks.antt =====
-- The walks along references from the roots of the machine of crates/yps-vm/src/vm.rs, defined by
-- the fields of the values of crates/yps-vm/src/value.rs.
use mathlib.Core.List.{Memᴰ}
use yoptascript_rs.Prelude.{ℕ, ◌≡◌, Bool, some, List, String, get_elem?}
use yoptascript_rs.Gc.Heap.{
  Value, CallFrame, Cell, Heap, CapKind, AggregateRole, function, bound_method, class, generator,
  for_iter, promise, promise_capability, promise_then_handler, async_resume,
  promise_finally_handler, promise_aggregate_handler,
}
use yoptascript_rs.Gc.Mark.{Work, value, closure, class_def, gen, iter, pledge, aggregate, upvalue}
use yoptascript_rs.Gc.Reach.{Pool, key}
use yoptascript_rs.Gc.Sweep.{Vm}
use yoptascript_rs.Gc.Owns.{Owns}

-- what a value holds without a cell in between
pub data Holds : Value → Work → Type 0 where
  function_closure : {a : ℕ} → Holds (function a) (closure a)
  receiver : {v : Value} {m : String} → Holds (bound_method v m) (value v)
  class_itself : {a : ℕ} → Holds (class a) (class_def a)
  generator_state : {a : ℕ} → Holds (generator a) (gen a)
  iterator_state : {a : ℕ} → Holds (for_iter a) (iter a)
  promise_state : {a : ℕ} → Holds (promise a) (pledge a)
  capability_state : {a : ℕ} {k : CapKind} → Holds (promise_capability a k) (pledge a)
  coroutine : {a b : ℕ} {t : Bool} → Holds (async_resume a b t) (gen a)
  outer : {a b : ℕ} {t : Bool} → Holds (async_resume a b t) (pledge b)
  then_handler : {v r j : Value} {t : Bool} → Holds (promise_then_handler v r j t) (value v)
  then_resolve : {v r j : Value} {t : Bool} → Holds (promise_then_handler v r j t) (value r)
  then_reject : {v r j : Value} {t : Bool} → Holds (promise_then_handler v r j t) (value j)
  finally_callback : {v c : Value} → Holds (promise_finally_handler v c) (value v)
  finally_capability : {v c : Value} → Holds (promise_finally_handler v c) (value c)
  aggregate_state :
      {a i : ℕ} {r : AggregateRole} → Holds (promise_aggregate_handler a i r) (aggregate a)

pub data Refers (heap : Heap) : Work → Work → Type 0 where
  holds : {v : Value} {u : Work} → Holds v u → Refers heap (value v) u
  through :
      {w u : Work} {p : Pool} {a : ℕ} {c : Cell}
      → key w ≡ some (p, a)
      → get_elem? heap a ≡ some c
      → Owns c u
      → Refers heap w u

pub data IsRoot (vm : Vm) : Work → Type 0 where
  on_stack : {v : Value} → Memᴰ v vm.stack → IsRoot vm (value v)
  frame_closure : {f : CallFrame} → Memᴰ f vm.frames → IsRoot vm (value (function f.closure))
  frame_owner :
      {f : CallFrame} {a : ℕ} → Memᴰ f vm.frames → f.owner ≡ some a → IsRoot vm (value (class a))
  global : {n : String} {v : Value} {b : Bool} → Memᴰ (n, v, b) vm.globals → IsRoot vm (value v)
  open_upvalue : {a : ℕ} → Memᴰ a vm.open_upvalues → IsRoot vm (upvalue a)
  yielded : {v : Value} → vm.gen_yield ≡ some v → IsRoot vm (value v)
  disposable : {v : Value} {b : Bool} → Memᴰ (v, b) vm.disposables → IsRoot vm (value v)
  exported : {n : String} {v : Value} → Memᴰ (n, v) vm.exports → IsRoot vm (value v)
  module_export :
      {path n : String} {v : Value} {es : List (String × Value)}
      → Memᴰ (path, es) vm.module_cache
      → Memᴰ (n, v) es
      → IsRoot vm (value v)
  microtask :
      {v : Value} {vs : List Value} → Memᴰ vs vm.microtasks → Memᴰ v vs → IsRoot vm (value v)
  macrotask :
      {v : Value} {vs : List Value} → Memᴰ vs vm.macrotasks → Memᴰ v vs → IsRoot vm (value v)

-- a walk from a root along references, to a piece of work
pub data Walk (vm : Vm) : Work → Type 0 where
  starts : {w : Work} → IsRoot vm w → Walk vm w
  goes : {w u : Work} → Walk vm w → Refers vm.heap w u → Walk vm u
