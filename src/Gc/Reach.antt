-- ===== src/Gc/Reach.antt =====
-- What the marker of crates/yps-vm/src/gc.rs should find: the work that is reachable from the
-- roots. A visit is brought into one form, with the set and the address that it marks (`key`) and
-- the work that it pushes (`children`).
use mathlib.Core.List.{Memᴰ}
use yoptascript_rs.Prelude.{
  ℕ, ◌≡◌, refl, Bool, true, false, Option, none, some, List, [], ◌∷◌, get_elem?, if◌then◌else◌,
  ◌||◌, ◌&&◌, ◌==◌, arith,
}
use yoptascript_rs.Gc.Heap.{
  Value, array, object, function, bound_method, class, generator, for_iter, promise,
  promise_capability, promise_then_handler, async_resume, promise_finally_handler,
  promise_aggregate_handler, Heap,
}
use yoptascript_rs.Gc.Mark.{
  Work, value, closure, class_def, gen, iter, pledge, aggregate, upvalue, Marker, has, pushing,
  push_all, array_work, object_work, closure_work, upvalue_work, class_work, gen_work, iter_work,
  promise_work, aggregate_work, visit,
}

pub data Pool : Type 0 where
  objects arrays upvalues seen : Pool

abbrev pub Key : Type 0
Key = Pool × ℕ

unfoldable pub value_key : Value → Option Key
value_key (array a) = some (arrays, a)
value_key (object a) = some (objects, a)
value_key _ = none

unfoldable pub key : Work → Option Key
unfolding value_key
key (value v) = value_key v
key (closure a) = some (seen, a)
key (class_def a) = some (seen, a)
key (gen a) = some (seen, a)
key (iter a) = some (seen, a)
key (pledge a) = some (seen, a)
key (aggregate a) = some (seen, a)
key (upvalue a) = some (upvalues, a)

unfoldable pub value_children : Heap → Value → List Work
value_children heap (array a) = array_work (get_elem? heap a)
value_children heap (object a) = object_work (get_elem? heap a)
value_children heap (function a) = closure a ∷ []
value_children heap (bound_method receiver method) = value receiver ∷ []
value_children heap (class a) = class_def a ∷ []
value_children heap (generator a) = gen a ∷ []
value_children heap (for_iter a) = iter a ∷ []
value_children heap (promise a) = pledge a ∷ []
value_children heap (promise_capability a kind) = pledge a ∷ []
value_children heap (async_resume coroutine outer is_throw) = gen coroutine ∷ pledge outer ∷ []
value_children heap (promise_then_handler handler on_resolve on_reject is_fulfill) =
    value handler ∷ value on_resolve ∷ value on_reject ∷ []
value_children heap (promise_finally_handler cb cap) = value cb ∷ value cap ∷ []
value_children heap (promise_aggregate_handler a index role) = aggregate a ∷ []
value_children heap _ = []

unfoldable pub children : Heap → Work → List Work
unfolding value_children
children heap (value v) = value_children heap v
children heap (closure a) = closure_work (get_elem? heap a)
children heap (class_def a) = class_work (get_elem? heap a)
children heap (gen a) = gen_work (get_elem? heap a)
children heap (iter a) = iter_work (get_elem? heap a)
children heap (pledge a) = promise_work (get_elem? heap a)
children heap (aggregate a) = aggregate_work (get_elem? heap a)
children heap (upvalue a) = upvalue_work (get_elem? heap a)

abbrev pub marks : Pool → Marker → List ℕ
marks objects m = m.marked_objects
marks arrays m = m.marked_arrays
marks upvalues m = m.marked_upvalues
marks seen m = m.seen

unfoldable pub marked : Marker → Key → Bool
unfolding has
marked m (p, a) = has (marks p m) a

unfoldable pub mark : Key → Marker → Marker
mark (objects, a) m = record m { marked_objects = a ∷ m.marked_objects }
mark (arrays, a) m = record m { marked_arrays = a ∷ m.marked_arrays }
mark (upvalues, a) m = record m { marked_upvalues = a ∷ m.marked_upvalues }
mark (seen, a) m = record m { seen = a ∷ m.seen }

abbrev pub enter : Option Key → List Work → Marker → Marker
enter none ws m = pushing ws m
enter (some k) ws m = if marked m k then m else pushing ws (mark k m)

visit-value :
    (heap : Heap) (v : Value) (m : Marker)
    → visit heap (value v) m ≡ enter (value_key v) (value_children heap v) m
unfolding visit value_key value_children marked mark push_all
visit-value heap (array a) m = refl
visit-value heap _ m = refl

pub visit-eq :
    (heap : Heap) (w : Work) (m : Marker) → visit heap w m ≡ enter (key w) (children heap w) m
unfolding visit key children marked mark
visit-eq heap (value v) m = visit-value heap v m
visit-eq heap _ m = refl

-- The walks from the roots.
pub data Reach (heap : Heap) (roots : List Work) : Work → Type 0 where
  root : {w : Work} → Memᴰ w roots → Reach heap roots w
  step : {w u : Work} → Reach heap roots w → Memᴰ u (children heap w) → Reach heap roots u

abbrev pub same_pool : Pool → Pool → Bool
same_pool objects objects = true
same_pool arrays arrays = true
same_pool upvalues upvalues = true
same_pool seen seen = true
same_pool _ _ = false

abbrev pub same_key : Key → Key → Bool
same_key (p, a) (q, b) = same_pool p q && a == b

pub eq_of_same_key : (k l : Key) → same_key k l ≡ true → k ≡ l
eq_of_same_key (p, a) (q, b) h = ground arith

pub same_key_refl : (k : Key) → same_key k k ≡ true
same_key_refl (p, a) = ground arith

pub marked-mark : (k l : Key) (m : Marker) → marked (mark k m) l ≡ (same_key k l || marked m l)
unfolding marked mark
marked-mark (p, a) (q, b) m = ground arith
