-- ===== src/Gc/Reached.antt =====
-- On a typed heap the walks of the marker of crates/yps-vm/src/gc.rs are the walks along references.
use mathlib.Core.List.{Memᴰ}
use mathlib.Core.List.Memᴰ
use mathlib.Core.Path.{subst}
use yoptascript_rs.Prelude.{ℕ, ◌≡◌, refl, none, some, inl, inr, get_elem?, Option-cases}
use yoptascript_rs.Gc.Heap.{
  Value, Heap, array, object, function, bound_method, class, generator, for_iter, promise,
  promise_capability, promise_then_handler, async_resume, promise_finally_handler,
  promise_aggregate_handler,
}
use yoptascript_rs.Gc.Mark.{Work, value}
use yoptascript_rs.Gc.Reach.{Pool, key, value_key, children, value_children, Reach, root, step}
use yoptascript_rs.Gc.Typed.{fits, IsTyped, Reach-fits, children-eq, work_at}
use yoptascript_rs.Gc.Sweep.{Vm, roots}
use yoptascript_rs.Gc.Listing.{cell-AllListed}
use yoptascript_rs.Gc.Owned.{owned_listed}
use yoptascript_rs.Gc.Listed.{AllListed, nil-AllListed, cons-AllListed}
use yoptascript_rs.Gc.Walks.{
  Holds, function_closure, receiver, class_itself, generator_state, iterator_state, promise_state,
  capability_state, coroutine, outer, then_handler, then_resolve, then_reject, finally_callback,
  finally_capability, aggregate_state, Refers, holds, through, Walk, starts, goes,
}
use yoptascript_rs.Gc.Rooted.{roots-AllListed, root_listed}
use yoptascript_rs.Prelude.{true}

-- A typed reference refers to exactly what the marker pushes for it.
holds_pushed : (heap : Heap) (v : Value) (u : Work) → Holds v u → Memᴰ u (value_children heap v)
unfolding value_children
holds_pushed heap v u then_resolve = Memᴰ.tail (Memᴰ.head refl)
holds_pushed heap v u then_reject = Memᴰ.tail (Memᴰ.tail (Memᴰ.head refl))
holds_pushed heap v u outer = Memᴰ.tail (Memᴰ.head refl)
holds_pushed heap v u finally_capability = Memᴰ.tail (Memᴰ.head refl)
holds_pushed heap v u _ = Memᴰ.head refl

pushed_held :
    (heap : Heap) (v : Value) → value_key v ≡ none → AllListed (Holds v) (value_children heap v)
unfolding value_key value_children
pushed_held heap (array a) e = cc
pushed_held heap (object a) e = cc
pushed_held heap (function a) e = cons-AllListed function_closure nil-AllListed
pushed_held heap (bound_method v m) e = cons-AllListed receiver nil-AllListed
pushed_held heap (class a) e = cons-AllListed class_itself nil-AllListed
pushed_held heap (generator a) e = cons-AllListed generator_state nil-AllListed
pushed_held heap (for_iter a) e = cons-AllListed iterator_state nil-AllListed
pushed_held heap (promise a) e = cons-AllListed promise_state nil-AllListed
pushed_held heap (promise_capability a k) e = cons-AllListed capability_state nil-AllListed
pushed_held heap (async_resume a b t) e =
    cons-AllListed coroutine (cons-AllListed outer nil-AllListed)
pushed_held heap (promise_then_handler v r j t) e =
    cons-AllListed then_handler
      (cons-AllListed then_resolve (cons-AllListed then_reject nil-AllListed))
pushed_held heap (promise_finally_handler v c) e =
    cons-AllListed finally_callback (cons-AllListed finally_capability nil-AllListed)
pushed_held heap (promise_aggregate_handler a i r) e = cons-AllListed aggregate_state nil-AllListed
pushed_held heap _ e = nil-AllListed

refers_pushed :
    (heap : Heap) (w u : Work) → fits heap w ≡ true → Refers heap w u → Memᴰ u (children heap w)
unfolding children
refers_pushed heap w u fit (holds {v} h) = holds_pushed heap v u h
refers_pushed heap w u fit (through {p = p} {a = a} {c = c} q e h) =
    rw (children-eq heap w p a fit q, e) (owned_listed c u h)

keyed-Refers :
    (heap : Heap) (w u : Work) (p : Pool) (a : ℕ)
    → fits heap w ≡ true
    → key w ≡ some (p, a)
    → Memᴰ u (children heap w)
    → Refers heap w u
keyed-Refers heap w u p a fit q h =
    let behind : Memᴰ u (work_at (get_elem? heap a)) =
      subst (Memᴰ u) (children-eq heap w p a fit q) h in
    elim (Option-cases (get_elem? heap a)) [
      | inl no_cell ↦ absurd (Memᴰ.not-nil (subst (λ o. Memᴰ u (work_at o)) no_cell behind))
      | inr (c, e) ↦
          through q e ((cell-AllListed c).each u (subst (λ o. Memᴰ u (work_at o)) e behind))
    ]

keyless-Refers :
    (heap : Heap) (w u : Work) → key w ≡ none → Memᴰ u (children heap w) → Refers heap w u
unfolding key children
keyless-Refers heap (value v) u q h = holds ((pushed_held heap v q).each u h)
keyless-Refers heap _ u q h = cc

pushed-Refers :
    (heap : Heap) (w u : Work) → fits heap w ≡ true → Memᴰ u (children heap w) → Refers heap w u
pushed-Refers heap w u fit h = elim (Option-cases (key w)) [
  | inl q ↦ keyless-Refers heap w u q h
  | inr ((p, a), q) ↦ keyed-Refers heap w u p a fit q h
]

module _ (vm : Vm) (typed : IsTyped vm.heap (roots vm)) where
  pub Walk-Reach : {w : Work} → Walk vm w → Reach vm.heap (roots vm) w
  Walk-Reach (starts {w} r) = root (root_listed vm w r)
  Walk-Reach (goes {w} {u} walk r) =
      let before = Walk-Reach walk in
      step before (refers_pushed vm.heap w u (Reach-fits vm.heap (roots vm) typed before) r)

  pub Reach-Walk : {w : Work} → Reach vm.heap (roots vm) w → Walk vm w
  Reach-Walk (root {w} h) = starts ((roots-AllListed vm).each w h)
  Reach-Walk (step {w} {u} before h) =
      goes (Reach-Walk before)
        (pushed-Refers vm.heap w u (Reach-fits vm.heap (roots vm) typed before) h)
