-- ===== src/Promises/Aggregate.antt =====
-- Aggregates of promises: `run_aggregate`, `attach_aggregate` and `apply_aggregate` of
-- crates/yps-vm/src/promise.rs. New arrays and objects are cells at the end of the heap.
use Prim.Native.Nat.{◌-◌}
use yoptascript_rs.Prelude.{
  ℕ, zero, suc, true, false, Option, none, some, List, [], ◌∷◌, ◌++◌, get_elem?, set, length, ◌==◌,
  if◌then◌else◌, String, ◌⊎◌, inr,
}
use yoptascript_rs.Gc.Heap.{
  Value, promise_capability, array, object, str, undefined, promise, promise_aggregate_handler,
  AggregateKind, all, all_settled, any, race, AggregateRole, on_fulfill, on_reject, AggregateState,
  Cell, array_cell, object_cell, aggregate_cell,
}
use yoptascript_rs.Promises.State.{
  call, call_with_array, Loop, promise_at, Pending, make_pending_promise, enqueue_microtask,
}
use yoptascript_rs.Promises.Settle.{SettleError, settle_promise}
use yoptascript_rs.Promises.Chain.{react}

-- `Rc::new(RefCell::new(..))`
abbrev pub alloc : Cell → Loop → ℕ × Loop
alloc c l = (length l.heap, record l { heap = l.heap ++ c ∷ [] })

abbrev pub array_value : List Value → Loop → Value × Loop
array_value vs l = let (a, l₁) = alloc (array_cell vs) l in (array a, l₁)

abbrev pub object_value : List (String × Value) → Loop → Value × Loop
object_value entries l =
    let (a, l₁) =
      alloc
        (object_cell (record {
          entries = entries;
          generation = length entries;
          frozen = false;
          sealed = false;
          extensible = true;
        }))
        l in
    (object a, l₁)

unfoldable pub aggregate_error : List Value → Loop → Value × Loop
aggregate_error errors l =
    let (list, l₁) = array_value errors l in
    object_value
      (("name", str "ВсёОбосралось")
        ∷ ("message", str "Все обещания отклонены")
        ∷ ("errors", list)
        ∷ [])
      l₁

unfoldable pub replicate : ℕ → Value → List Value
replicate zero v = []
replicate (suc n) v = v ∷ replicate n v

unfoldable pub attach_aggregate : ℕ → ℕ → Value → Loop → Loop
unfolding react enqueue_microtask
attach_aggregate s index (promise p) l =
    react p (promise_at l.heap p) (promise_aggregate_handler s index on_fulfill)
      (promise_aggregate_handler s index on_reject)
      (λ v. call (promise_aggregate_handler s index on_fulfill) v)
      (λ v. call (promise_aggregate_handler s index on_reject) v) l
attach_aggregate s index v l =
    enqueue_microtask (call (promise_aggregate_handler s index on_fulfill) v) l

unfoldable pub attach_all : ℕ → ℕ → List Value → Loop → Loop
unfolding attach_aggregate
attach_all s index [] l = l
attach_all s index (v ∷ vs) l = attach_all s (suc index) vs (attach_aggregate s index v l)

-- with no items
unfoldable pub run_empty : AggregateKind → Pending → Loop → Loop
unfolding aggregate_error enqueue_microtask
run_empty all new l = enqueue_microtask (call_with_array new.resolve []) l
run_empty all_settled new l = enqueue_microtask (call_with_array new.resolve []) l
run_empty any new l =
    let (err, l₁) = aggregate_error [] l in enqueue_microtask (call new.reject err) l₁
run_empty race new l = l

unfoldable pub run_aggregate : AggregateKind → List Value → Loop → Value × Loop
unfolding make_pending_promise run_empty attach_all replicate
run_aggregate kind [] l =
    let (new, l₁) = make_pending_promise l in (new.promise, run_empty kind new l₁)
run_aggregate kind (v ∷ vs) l =
    let (new, l₁) = make_pending_promise l in
    let n = length (v ∷ vs) in
    let (s, l₂) =
      alloc
        (aggregate_cell (record {
          kind = kind;
          remaining = n;
          results = replicate n undefined;
          resolve = new.resolve;
          reject = new.reject;
          settled = false;
        }))
        l₁ in
    (new.promise, attach_all s 0 (v ∷ vs) l₂)

-- What `apply_aggregate` does to the state: the results are recorded, and at the end it calls one of
-- the two capabilities. `final` is the value that the last result leads to.
pub data Outcome : Type 0 where
  waiting : Outcome
  resolves_with rejects_with : Value → Outcome
  resolves_all rejects_all : List Value → Outcome

abbrev pub recorded : ℕ → Value → AggregateState → AggregateState
recorded index v s = record s { results = set s.results index v; remaining = s.remaining - 1 }

-- recorded, and settled if it was the last
abbrev pub counted : (List Value → Outcome) → AggregateState → AggregateState × Outcome
counted done s =
    if s.remaining == 0
    then (record s { settled = true; results = [] }, done s.results)
    else (s, waiting)

abbrev pub decided : Outcome → AggregateState → AggregateState × Outcome
decided outcome s = (record s { settled = true }, outcome)

unfoldable pub record_outcome :
    AggregateKind → AggregateRole → ℕ → Value → AggregateState → AggregateState × Outcome
record_outcome all on_fulfill index v s = counted resolves_all (recorded index v s)
record_outcome all on_reject index v s = decided (rejects_with v) s
record_outcome all_settled role index v s = counted resolves_all (recorded index v s)
record_outcome any on_fulfill index v s = decided (resolves_with v) s
record_outcome any on_reject index v s = counted rejects_all (recorded index v s)
record_outcome race on_fulfill index v s = decided (resolves_with v) s
record_outcome race on_reject index v s = decided (rejects_with v) s

abbrev pub as_aggregate : Option Cell → Option AggregateState
as_aggregate (some (aggregate_cell s)) = some s
as_aggregate _ = none

-- the entry of `all_settled` is a new object; the others record the value itself
unfoldable pub entry_value : AggregateKind → AggregateRole → Value → Loop → Value × Loop
entry_value all_settled on_fulfill v l =
    object_value (("статус", str "выполнено") ∷ ("значение", v) ∷ []) l
entry_value all_settled on_reject v l =
    object_value (("статус", str "отклонено") ∷ ("причина", v) ∷ []) l
entry_value kind role v l = (v, l)

-- Calling a capability settles its promise. `run_aggregate` puts nothing else into a state; a call
-- of another value would go to the evaluation, and `none` stands for it.
abbrev pub call_capability : Value → Value → Loop → Option (SettleError ⊎ Loop)
call_capability (promise_capability a kind) v l = some (settle_promise a kind v l)
call_capability _ v l = none

unfoldable pub act : Outcome → AggregateState → Loop → Option (SettleError ⊎ Loop)
unfolding aggregate_error settle_promise
act waiting s l = some (inr l)
act (resolves_with v) s l = call_capability s.resolve v l
act (rejects_with v) s l = call_capability s.reject v l
act (resolves_all vs) s l = let (list, l₁) = array_value vs l in call_capability s.resolve list l₁
act (rejects_all vs) s l = let (err, l₁) = aggregate_error vs l in call_capability s.reject err l₁

abbrev pub put : ℕ → AggregateState → Loop → Loop
put a s l = record l { heap = set l.heap a (aggregate_cell s) }

unfoldable pub apply_aggregate : ℕ → ℕ → AggregateRole → Value → Loop → Option (SettleError ⊎ Loop)
unfolding entry_value record_outcome act
apply_aggregate a index role v l = elim (as_aggregate (get_elem? l.heap a)) [
  | none ↦ some (inr l)
  | some s ↦
      if s.settled
      then some (inr l)
      else (let (entry, l₁) = entry_value s.kind role v l in
          let (s₁, outcome) = record_outcome s.kind role index entry s in
          act outcome s₁ (put a s₁ l₁))
]
