-- ===== src/Promises/State.antt =====
-- The part of the machine that crates/yps-vm/src/promise.rs works on: the cells and the queue of
-- microtasks. A task is kept as data: what it will call, with what.
use yoptascript_rs.Prelude.{
  ℕ, Bool, Option, none, some, List, [], ◌∷◌, ◌++◌, get_elem?, set, length,
}
use yoptascript_rs.Gc.Heap.{
  Value, promise, promise_capability, resolve, reject, PromiseState, pending, fulfilled, rejected,
  Cell, promise_cell, Heap,
}

-- `call` calls a value, `call_with_array` calls it with a new array, `invoke` is `invoke_handler`, `finish` is `run_finally`
pub data Task : Type 0 where
  call : Value → Value → Task
  call_with_array : Value → List Value → Task
  invoke : Value → Value → Value → Value → Bool → Task
  finish : Value → Value → Value → Task

pub record Loop : Type 0 where
  pub heap : Heap
  pub microtasks : List Task

abbrev pub as_promise : Option Cell → Option PromiseState
as_promise (some (promise_cell p)) = some p
as_promise _ = none

abbrev pub promise_at : Heap → ℕ → Option PromiseState
promise_at heap a = as_promise (get_elem? heap a)

abbrev pub write : Loop → ℕ → PromiseState → Loop
write l a p = record l { heap = set l.heap a (promise_cell p) }

unfoldable pub enqueue_microtask : Task → Loop → Loop
enqueue_microtask task l = record l { microtasks = l.microtasks ++ task ∷ [] }

-- a promise with its two capabilities
pub record Pending : Type 0 where
  pub promise : Value
  pub resolve : Value
  pub reject : Value

unfoldable pub make_pending_promise : Loop → Pending × Loop
make_pending_promise l =
    let a = length l.heap in
    (
      record {
        promise = promise a;
        resolve = promise_capability a resolve;
        reject = promise_capability a reject;
      },
      record l { heap = l.heap ++ promise_cell (pending [] []) ∷ [] },
    )

unfoldable pub make_fulfilled_promise : Value → Loop → Value × Loop
make_fulfilled_promise (promise a) l = (promise a, l)
make_fulfilled_promise v l =
    (promise (length l.heap), record l { heap = l.heap ++ promise_cell (fulfilled v) ∷ [] })

unfoldable pub make_rejected_promise : Value → Loop → Value × Loop
make_rejected_promise v l =
    (promise (length l.heap), record l { heap = l.heap ++ promise_cell (rejected v) ∷ [] })
