-- ===== src/Promises/Tests.antt =====
-- Runs of promises of crates/yps-vm/src/promise.rs, and the theorems at inputs.
use yoptascript_rs.Prelude.{◌≡◌, refl, inr, inl, false, some, [], ◌∷◌, arith}
use yoptascript_rs.Gc.Heap.{
  number, undefined, host, promise, promise_capability, resolve, reject, pending, fulfilled,
  promise_cell, AggregateState, all, any, on_fulfill, on_reject,
}
use yoptascript_rs.Promises.State.{call, Loop, promise_at, make_pending_promise, enqueue_microtask}
use yoptascript_rs.Promises.Settle.{
  set_fulfilled, set_rejected, settle_promise, settle_pending, self_resolution,
}
use yoptascript_rs.Promises.Chain.{chain_promise, finally_promise, react}
use yoptascript_rs.Promises.Aggregate.{waiting, resolves_all, rejects_all, record_outcome}
use yoptascript_rs.Promises.Reactions.{
  SameEitherWay, chain_promise-SameEitherWay, finally_promise-SameEitherWay,
}
use yoptascript_rs.Promises.Forever.{Steps, stop, after, settles, chains, settled_forever}
use yoptascript_rs.Promises.Counting.{
  outcome_of, in_range, CountsTo, aggregate_waits, aggregate_gathers,
}

-- a promise that waits, with one callback of each kind
abbrev waiting_loop : Loop
waiting_loop = record {
  heap = promise_cell (pending (host 1 ∷ []) (host 2 ∷ [])) ∷ [];
  microtasks = [];
}

-- the promise fulfilled with 5
abbrev settled_loop : Loop
settled_loop = record {
  heap = promise_cell (fulfilled (number 5)) ∷ [];
  microtasks = call (host 1) (number 5) ∷ [];
}

settling_runs :
    (settle_promise 0 resolve (number 5) waiting_loop ≡ inr settled_loop)
    × (settle_promise 0 reject (number 6) settled_loop ≡ inr settled_loop)
    × (settle_promise 0 resolve (promise 0) waiting_loop ≡ inl self_resolution)
unfolding settle_promise settle_pending set_fulfilled
settling_runs = (refl, refl, refl)

chain_promise-SameEitherWay_example :
    SameEitherWay (chain_promise 0 (host 3) undefined) (set_fulfilled 0 (number 5)) waiting_loop
    × SameEitherWay (chain_promise 0 (host 3) undefined) (set_rejected 0 (number 5)) waiting_loop
chain_promise-SameEitherWay_example =
    chain_promise-SameEitherWay 0 (number 5) waiting_loop (host 1 ∷ []) (host 2 ∷ []) refl (host 3)
      undefined

finally_promise-SameEitherWay_example :
    SameEitherWay (finally_promise 0 (host 4)) (set_fulfilled 0 (number 5)) waiting_loop
    × SameEitherWay (finally_promise 0 (host 4)) (set_rejected 0 (number 5)) waiting_loop
finally_promise-SameEitherWay_example =
    finally_promise-SameEitherWay 0 (number 5) waiting_loop (host 1 ∷ []) (host 2 ∷ []) refl
      (host 4)

-- chained, and then an attempt to reject it
abbrev later : Loop
later = (chain_promise 0 (host 3) undefined settled_loop).1

rejecting_runs : settle_promise 0 reject (number 6) later ≡ inr later
unfolding settle_promise chain_promise make_pending_promise react enqueue_microtask
rejecting_runs = refl

history : Steps settled_loop later
history =
    after (after stop (chains 0 (host 3) undefined)) (settles 0 reject (number 6) rejecting_runs)

settled_forever_example : promise_at later.heap 0 ≡ some (fulfilled (number 5))
settled_forever_example = settled_forever 0 (fulfilled (number 5)) history refl refl

abbrev two_awaited : AggregateState
two_awaited = record {
  kind = all;
  remaining = 2;
  results = undefined ∷ undefined ∷ [];
  resolve = promise_capability 0 resolve;
  reject = promise_capability 0 reject;
  settled = false;
}

gathering_runs :
    outcome_of all on_fulfill two_awaited ((1, number 7) ∷ (0, number 8) ∷ [])
    ≡ resolves_all (number 8 ∷ number 7 ∷ [])
unfolding outcome_of record_outcome
gathering_runs = refl

aggregate_waits_example :
    (outcome_of all on_fulfill two_awaited ((1, number 7) ∷ []) ≡ waiting)
    × (outcome_of any on_reject two_awaited ((1, number 7) ∷ []) ≡ waiting)
aggregate_waits_example = aggregate_waits two_awaited ((1, number 7) ∷ []) (omega arith)

aggregate_gathers_example :
    CountsTo all on_fulfill resolves_all two_awaited ((1, number 7) ∷ (0, number 8) ∷ [])
    × CountsTo any on_reject rejects_all two_awaited ((1, number 7) ∷ (0, number 8) ∷ [])
unfolding in_range
aggregate_gathers_example =
    aggregate_gathers two_awaited (1, number 7) ((0, number 8) ∷ []) refl refl
