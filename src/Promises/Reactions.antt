-- ===== src/Promises/Reactions.antt =====
-- `then`, `catch` and `finally` of crates/yps-vm/src/promise.rs, attached before or after the promise
-- is settled.
use mathlib.Core.Path.{subst}
use yoptascript_rs.Prelude.{
  ℕ, ◌≡◌, refl, ap, ◌∙◌, sym, some, map, ◌<◌, true, false, List, [], ◌∷◌, ◌++◌, set, length,
  length-set, get_elem?-append_left,
}
use yoptascript_rs.Gc.Heap.{
  Value, PromiseState, pending, fulfilled, rejected, promise_cell, promise_then_handler,
  promise_finally_handler,
}
use yoptascript_rs.Promises.State.{
  Task, call, invoke, finish, Loop, promise_at, as_promise, Pending, make_pending_promise,
}
use yoptascript_rs.Promises.Settle.{set_fulfilled, set_rejected}
use yoptascript_rs.Promises.Chain.{react, attached, chain_promise, finally_promise}
use yoptascript_rs.Promises.Order.{
  RunsAlike, dispatch, set-append, allocated, fulfil-pending, reject-pending,
  react_fulfil-RunsAlike, react_reject-RunsAlike,
}

make-written :
    (a : ℕ) (p : PromiseState) (l : Loop) (ts : List Task)
    → a < length l.heap
    → make_pending_promise (record { heap = set l.heap a (promise_cell p); microtasks = ts }) ≡ (
      (make_pending_promise l).0,
      record { heap = set (make_pending_promise l).1.heap a (promise_cell p); microtasks = ts },
    )
unfolding make_pending_promise
make-written a p l ts bound = cc (
  length-set l.heap a (promise_cell p),
  set-append l.heap (promise_cell (pending [] []) ∷ []) a (promise_cell p) bound,
)

module _ (a : ℕ) (v : Value) (l : Loop) (rs js : List Value)
    (here : promise_at l.heap a ≡ some (pending rs js)) where
  fresh : Loop
  unfolding make_pending_promise
  fresh = (make_pending_promise l).1

  fresh-pending : promise_at fresh.heap a ≡ some (pending rs js)
  unfolding fresh
  fresh-pending =
      ap as_promise (
        get_elem?-append_left l.heap (promise_cell (pending [] []) ∷ []) a
          (allocated a v l rs js here))
      ∙ here

  make-fulfilled :
      make_pending_promise (set_fulfilled a v l)
      ≡ ((make_pending_promise l).0, set_fulfilled a v fresh)
  unfolding fresh
  make-fulfilled =
      ap make_pending_promise (fulfil-pending a v l rs js here)
      ∙ make-written a (fulfilled v) l (l.microtasks ++ map (λ cb. call cb v) rs)
          (allocated a v l rs js here)
      ∙ ap (λ m. ((make_pending_promise l).0, m))
          (sym (fulfil-pending a v fresh rs js fresh-pending))

  react_fulfilled-fresh :
      (f j : Value) (now_f now_j : Value → Task)
      → dispatch (call f v) ≡ dispatch (now_f v)
      → RunsAlike (set_fulfilled a v (react a (promise_at fresh.heap a) f j now_f now_j fresh)) (
          react a
            (promise_at (set_fulfilled a v fresh).heap a)
            f
            j
            now_f
            now_j
            (set_fulfilled a v fresh))
  react_fulfilled-fresh f j now_f now_j alike =
      react_fulfil-RunsAlike a v f j now_f now_j fresh rs js fresh-pending alike

  make-rejected :
      make_pending_promise (set_rejected a v l)
      ≡ ((make_pending_promise l).0, set_rejected a v fresh)
  unfolding fresh
  make-rejected =
      ap make_pending_promise (reject-pending a v l rs js here)
      ∙ make-written a (rejected v) l (l.microtasks ++ map (λ cb. call cb v) js)
          (allocated a v l rs js here)
      ∙ ap (λ m. ((make_pending_promise l).0, m))
          (sym (reject-pending a v fresh rs js fresh-pending))

  react_rejected-fresh :
      (f j : Value) (now_f now_j : Value → Task)
      → dispatch (call j v) ≡ dispatch (now_j v)
      → RunsAlike (set_rejected a v (react a (promise_at fresh.heap a) f j now_f now_j fresh)) (
          react a
            (promise_at (set_rejected a v fresh).heap a)
            f
            j
            now_f
            now_j
            (set_rejected a v fresh))
  react_rejected-fresh f j now_f now_j alike =
      react_reject-RunsAlike a v f j now_f now_j fresh rs js fresh-pending alike

-- both ways round: first the reaction, then the outcome, or the other way
abbrev pub SameEitherWay : (Loop → Value × Loop) → (Loop → Loop) → Loop → Type 0
SameEitherWay attach settle l =
    ((attach l).0 ≡ (attach (settle l)).0) × RunsAlike (settle (attach l).1) (attach (settle l)).1

module _ (a : ℕ) (v : Value) (l : Loop) (rs js : List Value)
    (here : promise_at l.heap a ≡ some (pending rs js)) where
  attached-SameEitherWay :
      (f j : Pending → Value) (now_f now_j : Pending → Value → Task)
      → ((new : Pending) → dispatch (call (f new) v) ≡ dispatch (now_f new v))
      → ((new : Pending) → dispatch (call (j new) v) ≡ dispatch (now_j new v))
      → SameEitherWay
          (λ m. attached a f j now_f now_j (make_pending_promise m))
          (set_fulfilled a v)
          l
        × SameEitherWay
            (λ m. attached a f j now_f now_j (make_pending_promise m))
            (set_rejected a v)
            l
  unfolding fresh
  attached-SameEitherWay f j now_f now_j alike_f alike_j =
      let new = (make_pending_promise l).0 in
      let m = (make_pending_promise l).1 in
      let after = attached a f j now_f now_j in
      (
        subst (λ x. (new.promise ≡ x.0) × RunsAlike (set_fulfilled a v (after (new, m)).1) x.1)
            (sym (ap after (make-fulfilled a v l rs js here)))
            (
              refl,
              react_fulfilled-fresh a v l rs js here (f new) (j new) (now_f new) (now_j new)
                  (alike_f new),
            ),
        subst (λ x. (new.promise ≡ x.0) × RunsAlike (set_rejected a v (after (new, m)).1) x.1)
            (sym (ap after (make-rejected a v l rs js here)))
            (
              refl,
              react_rejected-fresh a v l rs js here (f new) (j new) (now_f new) (now_j new)
                  (alike_j new),
            ),
      )

  -- Handlers that are chained to a pending promise run the same whether they are chained before or
  -- after it is fulfilled or rejected: the new promise is the same, the cells are the same, and the
  -- queues run the same tasks in the same order.
  pub chain_promise-SameEitherWay :
      (on_fulfill on_reject : Value)
      → SameEitherWay (chain_promise a on_fulfill on_reject) (set_fulfilled a v) l
        × SameEitherWay (chain_promise a on_fulfill on_reject) (set_rejected a v) l
  unfolding chain_promise dispatch
  chain_promise-SameEitherWay on_fulfill on_reject =
      attached-SameEitherWay (λ new. promise_then_handler on_fulfill new.resolve new.reject true)
        (λ new. promise_then_handler on_reject new.resolve new.reject false)
        (λ new v. invoke on_fulfill v new.resolve new.reject true)
        (λ new v. invoke on_reject v new.resolve new.reject false) (λ new. refl) (λ new. refl)

  -- A callback that is attached to a pending promise with `finally` runs the same whether it is
  -- attached before or after the promise is fulfilled or rejected.
  pub finally_promise-SameEitherWay :
      (cb : Value)
      → SameEitherWay (finally_promise a cb) (set_fulfilled a v) l
        × SameEitherWay (finally_promise a cb) (set_rejected a v) l
  unfolding finally_promise dispatch
  finally_promise-SameEitherWay cb =
      attached-SameEitherWay (λ new. promise_finally_handler cb new.resolve)
        (λ new. promise_finally_handler cb new.reject) (λ new v. finish cb new.resolve v)
        (λ new v. finish cb new.reject v) (λ new. refl) (λ new. refl)
