-- ===== src/Promises/Chain.antt =====
-- Reactions: `chain_promise` (`then` and `catch`) and `finally_promise` of
-- crates/yps-vm/src/promise.rs.
use yoptascript_rs.Prelude.{ℕ, true, false, Option, none, some, [], ◌∷◌, ◌++◌}
use yoptascript_rs.Gc.Heap.{
  Value, promise_then_handler, promise_finally_handler, PromiseState, pending, fulfilled, rejected,
}
use yoptascript_rs.Promises.State.{
  Task, invoke, finish, Loop, promise_at, write, Pending, make_pending_promise, enqueue_microtask,
}

-- both callbacks registered, or the task of the one that applies enqueued
unfoldable pub react :
    ℕ → Option PromiseState → Value → Value → (Value → Task) → (Value → Task) → Loop → Loop
unfolding enqueue_microtask
react a (some (fulfilled v)) on_resolve on_reject now_resolve now_reject l =
    enqueue_microtask (now_resolve v) l
react a (some (rejected v)) on_resolve on_reject now_resolve now_reject l =
    enqueue_microtask (now_reject v) l
react a (some (pending rs js)) on_resolve on_reject now_resolve now_reject l =
    write l a (pending (rs ++ on_resolve ∷ []) (js ++ on_reject ∷ []))
react a none on_resolve on_reject now_resolve now_reject l = l

-- the two callbacks of a reaction and their tasks, by the new promise's capabilities
abbrev pub attached :
    ℕ
    → (Pending → Value)
    → (Pending → Value)
    → (Pending → Value → Task)
    → (Pending → Value → Task)
    → Pending × Loop
    → Value × Loop
attached a on_resolve on_reject now_resolve now_reject (new, l) = (
  new.promise,
  react a (promise_at l.heap a) (on_resolve new) (on_reject new) (now_resolve new) (now_reject new)
      l,
)

unfoldable pub chain_promise : ℕ → Value → Value → Loop → Value × Loop
unfolding make_pending_promise react
chain_promise a on_fulfill on_reject l =
    attached a (λ new. promise_then_handler on_fulfill new.resolve new.reject true)
      (λ new. promise_then_handler on_reject new.resolve new.reject false)
      (λ new v. invoke on_fulfill v new.resolve new.reject true)
      (λ new v. invoke on_reject v new.resolve new.reject false) (make_pending_promise l)

unfoldable pub finally_promise : ℕ → Value → Loop → Value × Loop
unfolding make_pending_promise react
finally_promise a cb l =
    attached a (λ new. promise_finally_handler cb new.resolve)
      (λ new. promise_finally_handler cb new.reject) (λ new v. finish cb new.resolve v)
      (λ new v. finish cb new.reject v) (make_pending_promise l)
