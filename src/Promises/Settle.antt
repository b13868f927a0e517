-- ===== src/Promises/Settle.antt =====
-- Settling a promise: `settle_promise`, `set_fulfilled` and `set_rejected` of
-- crates/yps-vm/src/promise.rs.
use yoptascript_rs.Prelude.{
  ℕ, Option, none, some, List, [], ◌∷◌, ◌++◌, map, ◌⊎◌, inl, inr, ◌==◌, if◌then◌else◌,
}
use yoptascript_rs.Gc.Heap.{
  Value, promise, promise_capability, CapKind, resolve, reject, PromiseState, pending, fulfilled,
  rejected,
}
use yoptascript_rs.Promises.State.{call, Loop, promise_at, write}

pub data SettleError : Type 0 where
  self_resolution : SettleError

-- the callbacks, each called with the value, at the end of the queue
abbrev pub scheduled : List Value → Value → Loop → Loop
scheduled callbacks v l = record l { microtasks = l.microtasks ++ map (λ cb. call cb v) callbacks }

unfoldable pub set_fulfilled : ℕ → Value → Loop → Loop
set_fulfilled a v l = elim (promise_at l.heap a) [
  | some (pending on_resolve on_reject) ↦ scheduled on_resolve v (write l a (fulfilled v))
  | _ ↦ l
]

unfoldable pub set_rejected : ℕ → Value → Loop → Loop
set_rejected a v l = elim (promise_at l.heap a) [
  | some (pending on_resolve on_reject) ↦ scheduled on_reject v (write l a (rejected v))
  | _ ↦ l
]

-- resolved with a promise: its outcome is taken over, now or when it comes
unfoldable pub adopt : ℕ → ℕ → Option PromiseState → Loop → Loop
unfolding set_fulfilled set_rejected
adopt a b (some (fulfilled v)) l = set_fulfilled a v l
adopt a b (some (rejected v)) l = set_rejected a v l
adopt a b (some (pending on_resolve on_reject)) l = write l b (
    pending (on_resolve ++ promise_capability a resolve ∷ [])
      (on_reject ++ promise_capability a reject ∷ []))
adopt a b none l = l

unfoldable pub settle_pending : ℕ → CapKind → Value → Loop → SettleError ⊎ Loop
unfolding adopt set_fulfilled set_rejected
settle_pending a resolve (promise b) l =
    if a == b then inl self_resolution else inr (adopt a b (promise_at l.heap b) l)
settle_pending a resolve v l = inr (set_fulfilled a v l)
settle_pending a reject v l = inr (set_rejected a v l)

unfoldable pub settle_promise : ℕ → CapKind → Value → Loop → SettleError ⊎ Loop
unfolding settle_pending
settle_promise a kind v l = elim (promise_at l.heap a) [
  | some (pending on_resolve on_reject) ↦ settle_pending a kind v l
  | _ ↦ inr l
]
