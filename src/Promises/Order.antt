-- ===== src/Promises/Order.antt =====
-- Whether a reaction is attached before or after a promise is settled makes no difference to what
-- runs: crates/yps-vm/src/promise.rs with the calls of handlers in crates/yps-vm/src/vm.rs.
use mathlib.Core.List.{append_assoc}
use mathlib.Core.Path.{subst}
use yoptascript_rs.Prelude.{
  ℕ, suc, zero, ◌<◌, ◌≡◌, refl, ◌∙◌, sym, some, List, [], ◌∷◌, ◌++◌, map, get_elem?, set, length,
  arith, lt_of_get_elem?, Option-cases, inl, inr, get_elem?-set_self, ap,
}
use yoptascript_rs.Gc.Heap.{
  Value, promise_then_handler, promise_finally_handler, PromiseState, pending, fulfilled, rejected,
  promise_cell,
}
use yoptascript_rs.Promises.State.{
  Task, call, invoke, finish, Loop, promise_at, write, enqueue_microtask, as_promise,
}
use yoptascript_rs.Promises.Settle.{set_fulfilled, set_rejected, scheduled}
use yoptascript_rs.Promises.Chain.{react}

-- what the call of a registered handler runs
unfoldable pub dispatch : Task → Task
dispatch (call (promise_then_handler h r j is_fulfill) v) = invoke h v r j is_fulfill
dispatch (call (promise_finally_handler cb cap) v) = finish cb cap v
dispatch t = t

-- the same cells, and queues that run the same
pub record RunsAlike (l m : Loop) : Type 0 where
  pub same_heap : l.heap ≡ m.heap
  pub same_tasks : map dispatch l.microtasks ≡ map dispatch m.microtasks

subst2 : {A : Type 0} (R : A → A → Type 0) {x y z w : A} → x ≡ y → z ≡ w → R x z → R y w
subst2 R {x} {y} {z} {w} p q r = subst (λ u. R u w) p (subst (R x) q r)

set-set : {A : Type 0} (xs : List A) (i : ℕ) (x y : A) → set (set xs i x) i y ≡ set xs i y
set-set [] i x y = refl
set-set (z ∷ xs) zero x y = refl
set-set (z ∷ xs) (suc i) x y = ap (λ ys. z ∷ ys) (set-set xs i x y)

pub set-append :
    {A : Type 0} (xs ys : List A) (i : ℕ) (x : A)
    → i < length xs
    → set (xs ++ ys) i x ≡ set xs i x ++ ys
set-append [] ys i x h = elim h [ ]
set-append (z ∷ xs) ys zero x h = refl
set-append (z ∷ xs) ys (suc i) x h = ap (λ zs. z ∷ zs) (set-append xs ys i x (omega arith))

map-append : {A B : Type 0} (f : A → B) (xs ys : List A) → map f (xs ++ ys) ≡ map f xs ++ map f ys
map-append f [] ys = refl
map-append f (x ∷ xs) ys = ap (λ zs. f x ∷ zs) (map-append f xs ys)

-- one more callback, or the task that it would run, at the end of the queue
tasks-dispatch :
    (ms : List Task) (cbs : List Value) (g v : Value) (t : Task)
    → dispatch (call g v) ≡ dispatch t
    → map dispatch (ms ++ map (λ cb. call cb v) (cbs ++ g ∷ []))
      ≡ map dispatch ((ms ++ map (λ cb. call cb v) cbs) ++ t ∷ [])
tasks-dispatch ms cbs g v t alike =
    let called = map (λ cb. call cb v) cbs in
    ap (λ ts. map dispatch (ms ++ ts)) (map-append (λ cb. call cb v) cbs (g ∷ []))
    ∙ ap (map dispatch) (sym (append_assoc ms called (call g v ∷ [])))
    ∙ map-append dispatch (ms ++ called) (call g v ∷ [])
    ∙ ap (λ d. map dispatch (ms ++ called) ++ d ∷ []) alike
    ∙ sym (map-append dispatch (ms ++ called) (t ∷ []))

module _ (a : ℕ) (v : Value) (l : Loop) (rs js : List Value) where
  pub fulfil-pending :
      promise_at l.heap a ≡ some (pending rs js)
      → set_fulfilled a v l ≡ scheduled rs v (write l a (fulfilled v))
  unfolding set_fulfilled
  fulfil-pending e = ground arith

  pub reject-pending :
      promise_at l.heap a ≡ some (pending rs js)
      → set_rejected a v l ≡ scheduled js v (write l a (rejected v))
  unfolding set_rejected
  reject-pending e = ground arith

  pub allocated : promise_at l.heap a ≡ some (pending rs js) → a < length l.heap
  allocated e = elim (Option-cases (get_elem? l.heap a)) [
    | inl gone ↦ absurd (ground arith)
    | inr (c, here) ↦ lt_of_get_elem? l.heap a c here
  ]

module _ (a : ℕ) (l : Loop) (p : PromiseState) where
  written_at : a < length l.heap → promise_at (write l a p).heap a ≡ some p
  written_at h = ap as_promise (get_elem?-set_self l.heap a (promise_cell p) h)

module _ (a : ℕ) (v f j : Value) (now_f now_j : Value → Task) (l : Loop) (rs js : List Value)
    (here : promise_at l.heap a ≡ some (pending rs js)) where
  registered : Loop
  registered = write l a (pending (rs ++ f ∷ []) (js ++ j ∷ []))

  react-pending : react a (promise_at l.heap a) f j now_f now_j l ≡ registered
  unfolding react registered
  react-pending = ap (λ o. react a o f j now_f now_j l) here

  pub react_fulfil-RunsAlike :
      dispatch (call f v) ≡ dispatch (now_f v)
      → RunsAlike
          (set_fulfilled a v (react a (promise_at l.heap a) f j now_f now_j l))
          (react a (promise_at (set_fulfilled a v l).heap a) f j now_f now_j (set_fulfilled a v l))
  unfolding registered react enqueue_microtask
  react_fulfil-RunsAlike alike =
      let bound = allocated a v l rs js here in
      let before : set_fulfilled a v (react a (promise_at l.heap a) f j now_f now_j l)
          ≡ scheduled (rs ++ f ∷ []) v (write registered a (fulfilled v)) =
        ap (set_fulfilled a v) react-pending
        ∙ fulfil-pending a v registered (rs ++ f ∷ []) (js ++ j ∷ [])
            (written_at a l (pending (rs ++ f ∷ []) (js ++ j ∷ [])) bound) in
      let after : react a (promise_at (set_fulfilled a v l).heap a) f j now_f now_j
            (set_fulfilled a v l)
          ≡ enqueue_microtask (now_f v) (scheduled rs v (write l a (fulfilled v))) =
        ap (λ m. react a (promise_at m.heap a) f j now_f now_j m) (fulfil-pending a v l rs js here)
        ∙ ap (λ o. react a o f j now_f now_j (scheduled rs v (write l a (fulfilled v))))
            (written_at a l (fulfilled v) bound) in
      subst2 RunsAlike (sym before) (sym after) (record {
        same_heap =
            set-set l.heap a (promise_cell (pending (rs ++ f ∷ []) (js ++ j ∷ [])))
              (promise_cell (fulfilled v));
        same_tasks = tasks-dispatch l.microtasks rs f v (now_f v) alike;
      })

  pub react_reject-RunsAlike :
      dispatch (call j v) ≡ dispatch (now_j v)
      → RunsAlike
          (set_rejected a v (react a (promise_at l.heap a) f j now_f now_j l))
          (react a (promise_at (set_rejected a v l).heap a) f j now_f now_j (set_rejected a v l))
  unfolding registered react enqueue_microtask
  react_reject-RunsAlike alike =
      let bound = allocated a v l rs js here in
      let before : set_rejected a v (react a (promise_at l.heap a) f j now_f now_j l)
          ≡ scheduled (js ++ j ∷ []) v (write registered a (rejected v)) =
        ap (set_rejected a v) react-pending
        ∙ reject-pending a v registered (rs ++ f ∷ []) (js ++ j ∷ [])
            (written_at a l (pending (rs ++ f ∷ []) (js ++ j ∷ [])) bound) in
      let after : react a (promise_at (set_rejected a v l).heap a) f j now_f now_j
            (set_rejected a v l)
          ≡ enqueue_microtask (now_j v) (scheduled js v (write l a (rejected v))) =
        ap (λ m. react a (promise_at m.heap a) f j now_f now_j m) (reject-pending a v l rs js here)
        ∙ ap (λ o. react a o f j now_f now_j (scheduled js v (write l a (rejected v))))
            (written_at a l (rejected v) bound) in
      subst2 RunsAlike (sym before) (sym after) (record {
        same_heap =
            set-set l.heap a (promise_cell (pending (rs ++ f ∷ []) (js ++ j ∷ [])))
              (promise_cell (rejected v));
        same_tasks = tasks-dispatch l.microtasks js j v (now_j v) alike;
      })
