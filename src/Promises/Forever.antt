-- ===== src/Promises/Forever.antt =====
-- A promise of crates/yps-vm/src/promise.rs that is fulfilled or rejected stays so, whatever
-- operations follow.
use yoptascript_rs.Prelude.{
  ℕ, ◌≡◌, refl, ap, ◌∙◌, sym, inl, inr, true, Option, none, some, List, [], ◌∷◌, ◌++◌, get_elem?,
  arith, Option-cases, Bool-cases, lt_of_get_elem?, get_elem?-append_left,
}
use yoptascript_rs.Gc.Heap.{
  Value, promise, promise_capability, CapKind, PromiseState, Cell, AggregateKind, any, all_settled,
  on_fulfill, on_reject, AggregateRole, AggregateState, aggregate_cell,
}
use yoptascript_rs.Promises.State.{
  Task, Loop, promise_at, as_promise, Pending, make_pending_promise, make_fulfilled_promise,
  make_rejected_promise, enqueue_microtask,
}
use yoptascript_rs.Promises.Settle.{settle_promise}
use yoptascript_rs.Promises.Aggregate.{
  aggregate_error, run_empty, run_aggregate, entry_value, record_outcome, act, Outcome, waiting,
  resolves_with, rejects_with, resolves_all, rejects_all, call_capability, put, as_aggregate,
  apply_aggregate,
}
use yoptascript_rs.Promises.Keeping.{
  is_done, Keeps, same_heap-Keeps, Keeps-trans, set-Keeps, alloc-Keeps, settle_promise-Keeps,
  make-Keeps, chain_promise-Keeps, finally_promise-Keeps, attach_all-Keeps,
}
use yoptascript_rs.Promises.Chain.{chain_promise, finally_promise}

aggregate_error-Keeps : (vs : List Value) (l : Loop) → Keeps l (aggregate_error vs l).1
unfolding aggregate_error
aggregate_error-Keeps vs l = Keeps-trans (alloc-Keeps l _) (alloc-Keeps _ _)

run_empty-Keeps : (kind : AggregateKind) (new : Pending) (l : Loop) → Keeps l (run_empty kind new l)
unfolding run_empty enqueue_microtask
run_empty-Keeps any new l = Keeps-trans (aggregate_error-Keeps [] l) (same_heap-Keeps _ _ refl)
run_empty-Keeps _ new l = same_heap-Keeps l _ refl

run_aggregate-Keeps :
    (kind : AggregateKind) (vs : List Value) (l : Loop) → Keeps l (run_aggregate kind vs l).1
unfolding run_aggregate
run_aggregate-Keeps kind [] l =
    Keeps-trans (make-Keeps l) (run_empty-Keeps kind _ (make_pending_promise l).1)
run_aggregate-Keeps kind (v ∷ vs) l =
    Keeps-trans (make-Keeps l)
      (Keeps-trans (alloc-Keeps (make_pending_promise l).1 _) (attach_all-Keeps _ 0 (v ∷ vs) _))

append_at :
    {A : Type 0} (xs : List A) (ys : List A) (i : ℕ) (x : A)
    → get_elem? xs i ≡ some x
    → get_elem? (xs ++ ys) i ≡ some x
append_at xs ys i x e = get_elem?-append_left xs ys i (lt_of_get_elem? xs i x e) ∙ e

entry_value-at :
    (kind : AggregateKind) (role : AggregateRole) (v : Value) (l : Loop) (a : ℕ) (c : Cell)
    → get_elem? l.heap a ≡ some c
    → get_elem? (entry_value kind role v l).1.heap a ≡ some c
unfolding entry_value
entry_value-at all_settled on_fulfill v l a c e = append_at l.heap _ a c e
entry_value-at all_settled on_reject v l a c e = append_at l.heap _ a c e
entry_value-at _ role v l a c e = e

entry_value-Keeps :
    (kind : AggregateKind) (role : AggregateRole) (v : Value) (l : Loop)
    → Keeps l (entry_value kind role v l).1
unfolding entry_value
entry_value-Keeps all_settled on_fulfill v l = alloc-Keeps l _
entry_value-Keeps all_settled on_reject v l = alloc-Keeps l _
entry_value-Keeps _ role v l = same_heap-Keeps l l refl

call_capability-Keeps :
    (cap v : Value) (l m : Loop) → call_capability cap v l ≡ some (inr m) → Keeps l m
call_capability-Keeps (promise_capability a kind) v l m e = settle_promise-Keeps a kind v l m (cc)
call_capability-Keeps _ v l m e = cc

act-Keeps : (o : Outcome) (s : AggregateState) (l m : Loop) → act o s l ≡ some (inr m) → Keeps l m
unfolding act
act-Keeps waiting s l m e = same_heap-Keeps l m (ground arith)
act-Keeps (resolves_with v) s l m e = call_capability-Keeps s.resolve v l m e
act-Keeps (rejects_with v) s l m e = call_capability-Keeps s.reject v l m e
act-Keeps (resolves_all vs) s l m e =
    Keeps-trans (alloc-Keeps l _) (call_capability-Keeps s.resolve _ _ m e)
act-Keeps (rejects_all vs) s l m e =
    Keeps-trans (aggregate_error-Keeps vs l) (call_capability-Keeps s.reject _ _ m e)

aggregate_here :
    (o : Option Cell) (s : AggregateState) → as_aggregate o ≡ some s → o ≡ some (aggregate_cell s)
aggregate_here none s e = cc
aggregate_here (some (aggregate_cell t)) s e = cc
aggregate_here (some _) s e = cc

apply_aggregate-Keeps :
    (a i : ℕ) (role : AggregateRole) (v : Value) (l m : Loop)
    → apply_aggregate a i role v l ≡ some (inr m)
    → Keeps l m
unfolding apply_aggregate
apply_aggregate-Keeps a i role v l m e = elim (Option-cases (as_aggregate (get_elem? l.heap a))) [
  | inl gone ↦ same_heap-Keeps l m (ground arith)
  | inr (s, found) ↦ elim (Bool-cases s.settled) [
    | inl settled ↦ same_heap-Keeps l m (ground arith)
    | inr counting ↦
        let entry = entry_value s.kind role v l in
        let (s₁, outcome) = record_outcome s.kind role i entry.0 s in
        let here = entry_value-at s.kind role v l a (aggregate_cell s) (aggregate_here _ s found) in
        Keeps-trans (entry_value-Keeps s.kind role v l) (
          Keeps-trans
            (set-Keeps entry.1 a (aggregate_cell s₁) entry.1.microtasks
              (λ p q. cc (sym (ap as_promise here) ∙ q)))
            (act-Keeps outcome s₁ (put a s₁ entry.1) m (ground arith)))
  ]
]

-- what can happen to the loop; a task that is taken runs as further steps
pub data Step (l : Loop) : Loop → Type 0 where
  makes : Step l (make_pending_promise l).1
  makes_fulfilled : (v : Value) → Step l (make_fulfilled_promise v l).1
  makes_rejected : (v : Value) → Step l (make_rejected_promise v l).1
  settles :
      {m : Loop} (a : ℕ) (kind : CapKind) (v : Value) → settle_promise a kind v l ≡ inr m → Step l m
  chains : (a : ℕ) (f j : Value) → Step l (chain_promise a f j l).1
  finishes : (a : ℕ) (cb : Value) → Step l (finally_promise a cb l).1
  aggregates : (kind : AggregateKind) (vs : List Value) → Step l (run_aggregate kind vs l).1
  applies :
      {m : Loop} (a i : ℕ) (role : AggregateRole) (v : Value)
      → apply_aggregate a i role v l ≡ some (inr m)
      → Step l m
  queues : (t : Task) → Step l (enqueue_microtask t l)
  takes :
      (t : Task) (ts : List Task) → l.microtasks ≡ t ∷ ts → Step l (record l { microtasks = ts })

pub data Steps (l : Loop) : Loop → Type 0 where
  stop : Steps l l
  after : {m n : Loop} → Steps l m → Step m n → Steps l n

make_fulfilled_promise-Keeps : (v : Value) (l : Loop) → Keeps l (make_fulfilled_promise v l).1
unfolding make_fulfilled_promise
make_fulfilled_promise-Keeps (promise a) l = same_heap-Keeps l l refl
make_fulfilled_promise-Keeps v l = alloc-Keeps l _

Step-Keeps : {l m : Loop} → Step l m → Keeps l m
unfolding make_rejected_promise enqueue_microtask
Step-Keeps {l} makes = make-Keeps l
Step-Keeps {l} (makes_fulfilled v) = make_fulfilled_promise-Keeps v l
Step-Keeps {l} (makes_rejected v) = alloc-Keeps l _
Step-Keeps {l} (settles {m = m} a kind v e) = settle_promise-Keeps a kind v l m e
Step-Keeps {l} (chains a f j) = chain_promise-Keeps a f j l
Step-Keeps {l} (finishes a cb) = finally_promise-Keeps a cb l
Step-Keeps {l} (aggregates kind vs) = run_aggregate-Keeps kind vs l
Step-Keeps {l} (applies {m = m} a i role v e) = apply_aggregate-Keeps a i role v l m e
Step-Keeps {l} (queues t) = same_heap-Keeps l _ refl
Step-Keeps {l} (takes t ts e) = same_heap-Keeps l _ refl

Steps-Keeps : {l m : Loop} → Steps l m → Keeps l m
Steps-Keeps {l} stop = same_heap-Keeps l l refl
Steps-Keeps (after before step) = Keeps-trans (Steps-Keeps before) (Step-Keeps step)

-- A promise that is fulfilled or rejected stays so with the same value, whatever promises are made,
-- settled, chained or aggregated afterwards.
pub settled_forever :
    {l m : Loop} (b : ℕ) (p : PromiseState)
    → Steps l m
    → promise_at l.heap b ≡ some p
    → is_done p ≡ true
    → promise_at m.heap b ≡ some p
settled_forever b p steps e done = (Steps-Keeps steps).kept b p e done
