-- ===== src/Promises/Keeping.antt =====
-- Settling, chaining and the attaching of aggregates in crates/yps-vm/src/promise.rs leave settled
-- promises alone.
use mathlib.Core.Path.{subst}
use yoptascript_rs.Prelude.{
  ℕ, suc, ◌≡◌, refl, ap, ◌∙◌, sym, inl, inr, Bool, true, false, Option, none, some, List, [], ◌∷◌,
  ◌++◌, get_elem?, set, arith, Option-cases, Bool-cases, lt_of_get_elem?, get_elem?-append_left,
  get_elem?-set_ne, ◌==◌, ==_iff,
}
use yoptascript_rs.Gc.Heap.{
  Value, promise, CapKind, resolve, reject, PromiseState, pending, fulfilled, rejected,
  promise_cell, Cell,
}
use yoptascript_rs.Promises.State.{
  Task, Loop, promise_at, as_promise, make_pending_promise, enqueue_microtask,
}
use yoptascript_rs.Promises.Settle.{
  set_fulfilled, set_rejected, adopt, settle_pending, settle_promise,
}
use yoptascript_rs.Promises.Aggregate.{attach_aggregate, attach_all}
use yoptascript_rs.Promises.Order.{fulfil-pending, reject-pending}
use yoptascript_rs.Promises.Chain.{react, chain_promise, finally_promise}

abbrev pub is_done : PromiseState → Bool
is_done (pending rs js) = false
is_done _ = true

-- every promise that is settled in `l` is settled in the same way in `m`
pub record Keeps (l m : Loop) : Type 0 where
  pub kept :
      (b : ℕ) (p : PromiseState)
      → promise_at l.heap b ≡ some p
      → is_done p ≡ true
      → promise_at m.heap b ≡ some p

pub same_heap-Keeps : (l m : Loop) → m.heap ≡ l.heap → Keeps l m
same_heap-Keeps l m same = record { kept = λ b p e done. ap (λ h. promise_at h b) same ∙ e }

pub Keeps-trans : {l m n : Loop} → Keeps l m → Keeps m n → Keeps l n
Keeps-trans k j = record { kept = λ b p e done. j.kept b p (k.kept b p e done) done }

-- only a cell that holds no settled promise is written
pub set-Keeps :
    (l : Loop) (a : ℕ) (c : Cell) (ts : List Task)
    → ((p : PromiseState) → promise_at l.heap a ≡ some p → is_done p ≡ false)
    → Keeps l (record { heap = set l.heap a c; microtasks = ts })
set-Keeps l a c ts undone = record {
  kept = λ b p e done. elim (Bool-cases (a == b)) [
    | inl same ↦ absurd (ground (arith, ==_iff a b, undone p))
    | inr other ↦ ap as_promise (get_elem?-set_ne l.heap a b c (ground (arith, ==_iff a b))) ∙ e
  ];
}

pub alloc-Keeps : (l : Loop) (c : Cell) → Keeps l (record l { heap = l.heap ++ c ∷ [] })
alloc-Keeps l c = record {
  kept = λ b p e done. elim (Option-cases (get_elem? l.heap b)) [
    | inl gone ↦ absurd (ground arith)
    | inr (d, here) ↦
        ap as_promise (get_elem?-append_left l.heap (c ∷ []) b (lt_of_get_elem? l.heap b d here))
        ∙ e
  ];
}

-- a promise that waits may be written
pending-Keeps :
    (l : Loop) (a : ℕ) (rs js : List Value) (c : Cell) (ts : List Task)
    → promise_at l.heap a ≡ some (pending rs js)
    → Keeps l (record { heap = set l.heap a c; microtasks = ts })
pending-Keeps l a rs js c ts here = set-Keeps l a c ts (λ p e. ground arith)

set_fulfilled-Keeps : (a : ℕ) (v : Value) (l : Loop) → Keeps l (set_fulfilled a v l)
unfolding set_fulfilled
set_fulfilled-Keeps a v l = elim (Option-cases (promise_at l.heap a)) [
  | inl gone ↦ same_heap-Keeps l _ (ground arith)
  | inr (pending rs js, here) ↦
      subst (Keeps l) (sym (fulfil-pending a v l rs js here)) (pending-Keeps l a rs js _ _ here)
  | inr (fulfilled w, here) ↦ same_heap-Keeps l _ (ground arith)
  | inr (rejected w, here) ↦ same_heap-Keeps l _ (ground arith)
]

set_rejected-Keeps : (a : ℕ) (v : Value) (l : Loop) → Keeps l (set_rejected a v l)
unfolding set_rejected
set_rejected-Keeps a v l = elim (Option-cases (promise_at l.heap a)) [
  | inl gone ↦ same_heap-Keeps l _ (ground arith)
  | inr (pending rs js, here) ↦
      subst (Keeps l) (sym (reject-pending a v l rs js here)) (pending-Keeps l a rs js _ _ here)
  | inr (fulfilled w, here) ↦ same_heap-Keeps l _ (ground arith)
  | inr (rejected w, here) ↦ same_heap-Keeps l _ (ground arith)
]

adopt-Keeps :
    (a b : ℕ) (o : Option PromiseState) (l : Loop)
    → promise_at l.heap b ≡ o
    → Keeps l (adopt a b o l)
unfolding adopt
adopt-Keeps a b none l e = same_heap-Keeps l l refl
adopt-Keeps a b (some (pending rs js)) l e = pending-Keeps l b rs js _ _ e
adopt-Keeps a b (some (fulfilled v)) l e = set_fulfilled-Keeps a v l
adopt-Keeps a b (some (rejected v)) l e = set_rejected-Keeps a v l

settle_pending-Keeps :
    (a : ℕ) (kind : CapKind) (v : Value) (l m : Loop)
    → settle_pending a kind v l ≡ inr m
    → Keeps l m
unfolding settle_pending
settle_pending-Keeps a resolve (promise b) l m e = elim (Bool-cases (a == b)) [
  | inl same ↦ absurd (ground arith)
  | inr other ↦ subst (Keeps l) (ground arith) (adopt-Keeps a b (promise_at l.heap b) l refl)
]
settle_pending-Keeps a reject v l m e = subst (Keeps l) (cc) (set_rejected-Keeps a v l)
settle_pending-Keeps a resolve v l m e = subst (Keeps l) (cc) (set_fulfilled-Keeps a v l)

pub settle_promise-Keeps :
    (a : ℕ) (kind : CapKind) (v : Value) (l m : Loop)
    → settle_promise a kind v l ≡ inr m
    → Keeps l m
unfolding settle_promise
settle_promise-Keeps a kind v l m e = elim (Option-cases (promise_at l.heap a)) [
  | inl gone ↦ same_heap-Keeps l m (ground arith)
  | inr (pending rs js, here) ↦ settle_pending-Keeps a kind v l m (ground arith)
  | inr (fulfilled w, here) ↦ same_heap-Keeps l m (ground arith)
  | inr (rejected w, here) ↦ same_heap-Keeps l m (ground arith)
]

react-Keeps :
    (a : ℕ) (o : Option PromiseState) (f j : Value) (nf nj : Value → Task) (l : Loop)
    → promise_at l.heap a ≡ o
    → Keeps l (react a o f j nf nj l)
unfolding react enqueue_microtask
react-Keeps a none f j nf nj l e = same_heap-Keeps l l refl
react-Keeps a (some (pending rs js)) f j nf nj l e = pending-Keeps l a rs js _ _ e
react-Keeps a (some (fulfilled v)) f j nf nj l e = same_heap-Keeps l _ refl
react-Keeps a (some (rejected v)) f j nf nj l e = same_heap-Keeps l _ refl

pub make-Keeps : (l : Loop) → Keeps l (make_pending_promise l).1
unfolding make_pending_promise
make-Keeps l = alloc-Keeps l (promise_cell (pending [] []))

pub chain_promise-Keeps : (a : ℕ) (f j : Value) (l : Loop) → Keeps l (chain_promise a f j l).1
unfolding chain_promise
chain_promise-Keeps a f j l =
    Keeps-trans (make-Keeps l) (react-Keeps a _ _ _ _ _ (make_pending_promise l).1 refl)

pub finally_promise-Keeps : (a : ℕ) (cb : Value) (l : Loop) → Keeps l (finally_promise a cb l).1
unfolding finally_promise
finally_promise-Keeps a cb l =
    Keeps-trans (make-Keeps l) (react-Keeps a _ _ _ _ _ (make_pending_promise l).1 refl)

attach_aggregate-Keeps : (s i : ℕ) (v : Value) (l : Loop) → Keeps l (attach_aggregate s i v l)
unfolding attach_aggregate enqueue_microtask
attach_aggregate-Keeps s i (promise p) l = react-Keeps p _ _ _ _ _ l refl
attach_aggregate-Keeps s i v l = same_heap-Keeps l _ refl

pub attach_all-Keeps : (s i : ℕ) (vs : List Value) (l : Loop) → Keeps l (attach_all s i vs l)
unfolding attach_all
attach_all-Keeps s i [] l = same_heap-Keeps l l refl
attach_all-Keeps s i (v ∷ vs) l =
    Keeps-trans (attach_aggregate-Keeps s i v l)
      (attach_all-Keeps s (suc i) vs (attach_aggregate s i v l))
