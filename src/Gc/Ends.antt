-- ===== src/Gc/Ends.antt =====
-- The marker of crates/yps-vm/src/gc.rs ends: a round makes the work that waits, together with the
-- work behind the cells that are not marked yet, smaller.
use yoptascript_rs.Prelude.{
  ℕ, ◌+◌, ◌<◌, ◌≤◌, ap, zero, suc, ◌≡◌, refl, inl, inr, true, false, Option, none, some, List, [],
  ◌∷◌, get_elem?, if◌then◌else◌, arith, Bool-cases, List-cases,
}
use yoptascript_rs.Gc.Heap.{
  Value, array, object, bound_method, promise_then_handler, async_resume, promise_finally_handler,
  Cell, array_cell, object_cell, upvalue_cell, Heap,
}
use yoptascript_rs.Gc.Mark.{Work, value, closure, Marker, push_all, visit}
use yoptascript_rs.Gc.Reach.{
  Pool, objects, arrays, upvalues, seen, Key, key, value_key, children, value_children,
}
use yoptascript_rs.Gc.Mark.{run}
use yoptascript_rs.Gc.Reach.{marked, mark, enter, same_pool, same_key_refl, marked-mark, visit-eq}
use yoptascript_rs.Gc.Visit.{marked-pushing, mark-work}
use yoptascript_rs.Gc.Typed.{cell_work}

unfoldable pub value_size : Value → ℕ
value_size (bound_method receiver method) = suc (value_size receiver)
value_size (promise_then_handler handler on_resolve on_reject is_fulfill) =
    suc (value_size handler + value_size on_resolve + value_size on_reject)
value_size (promise_finally_handler cb cap) = suc (value_size cb + value_size cap)
value_size (async_resume coroutine outer is_throw) = 3
value_size (array a) = 1
value_size (object a) = 1
value_size _ = 2

unfoldable pub work_size : Work → ℕ
unfolding value_size
work_size (value v) = value_size v
work_size _ = 1

unfoldable pub total : List Work → ℕ
unfolding work_size
total [] = 0
total (w ∷ ws) = work_size w + total ws

total-push_all : (ws work : List Work) → total (push_all ws work) ≡ total ws + total work
unfolding total push_all
total-push_all [] work = omega arith
total-push_all (w ∷ ws) work = omega (arith, total-push_all ws (w ∷ work))

value_size_pos : (v : Value) → 0 < value_size v
unfolding value_size
value_size_pos (array a) = omega arith
value_size_pos _ = omega arith

work_size_pos : (w : Work) → 0 < work_size w
unfolding work_size
work_size_pos (value v) = value_size_pos v
work_size_pos _ = omega arith

keyless_smaller_value :
    (heap : Heap) (v : Value) → value_key v ≡ none → total (value_children heap v) < value_size v
unfolding value_key value_children total
keyless_smaller_value heap (array a) e = cc
keyless_smaller_value heap (object a) e = cc
keyless_smaller_value heap _ e = omega arith

keyless_smaller : (heap : Heap) (w : Work) → key w ≡ none → total (children heap w) < work_size w
unfolding key children work_size
keyless_smaller heap (value v) e = keyless_smaller_value heap v e
keyless_smaller heap _ e = cc

-- the set that a cell of each kind is marked in
abbrev pub cell_pool : Cell → Pool
cell_pool (array_cell vs) = arrays
cell_pool (object_cell o) = objects
cell_pool (upvalue_cell u) = upvalues
cell_pool _ = seen

-- what marking the address in the set `p` can push
abbrev gain : Pool → Option Cell → ℕ
gain p none = 0
gain p (some c) = if same_pool (cell_pool c) p then total (cell_work c) else 0

keyed_children_value :
    (heap : Heap) (v : Value) (p : Pool) (a : ℕ)
    → value_key v ≡ some (p, a)
    → total (value_children heap v) ≤ gain p (get_elem? heap a)
unfolding value_key value_children cell_work total
keyed_children_value heap (array b) p a e = ground arith
keyed_children_value heap (object b) p a e = ground arith
keyed_children_value heap _ p a e = cc

keyed_children :
    (heap : Heap) (w : Work) (p : Pool) (a : ℕ)
    → key w ≡ some (p, a)
    → total (children heap w) ≤ gain p (get_elem? heap a)
unfolding key children cell_work total
keyed_children heap (value v) p a e = keyed_children_value heap v p a e
keyed_children heap (closure b) p a e = ground arith
keyed_children heap _ p a e = ground arith

eq_of_same_pool : (p q : Pool) → same_pool p q ≡ true → p ≡ q
eq_of_same_pool objects q h = ground arith
eq_of_same_pool arrays q h = ground arith
eq_of_same_pool upvalues q h = ground arith
eq_of_same_pool seen q h = ground arith

-- the work behind the cells from address `i` on that are not marked yet
unfoldable pub unmarked : Marker → ℕ → List Cell → ℕ
unfolding total cell_work marked
unmarked m i [] = 0
unmarked m i (c ∷ cs) =
    (if marked m (cell_pool c, i) then 0 else total (cell_work c)) + unmarked m (suc i) cs

unmarked-mark-le :
    (k : Key) (m : Marker) (i : ℕ) (cs : List Cell) → unmarked (mark k m) i cs ≤ unmarked m i cs
unfolding unmarked
unmarked-mark-le k m i [] = omega arith
unmarked-mark-le k m i (c ∷ cs) =
    ground (arith, marked-mark k (cell_pool c, i) m, unmarked-mark-le k m (suc i) cs)

-- marking a cell takes its work off the account
unmarked-mark :
    (p : Pool) (a i j : ℕ) (m : Marker) (cs : List Cell)
    → a ≡ i + j
    → marked m (p, a) ≡ false
    → unmarked (mark (p, a) m) i cs + gain p (get_elem? cs j) ≤ unmarked m i cs
unfolding unmarked
unmarked-mark p a i j m [] e new = omega arith
unmarked-mark p a i zero m (c ∷ cs) e new =
    let here : a ≡ i = omega arith in
    ground (
      arith,
      eq_of_same_pool (cell_pool c) p,
      marked-mark (p, a) (cell_pool c, i) m,
      unmarked-mark-le (p, a) m (suc i) cs,
      same_key_refl (p, a),
    )
unmarked-mark p a i (suc j) m (c ∷ cs) e new = ground (
  arith,
  marked-mark (p, a) (cell_pool c, i) m,
  unmarked-mark p a (suc i) j m cs (omega arith) new,
)

unmarked-pushing :
    (m : Marker) (ws : List Work) (i : ℕ) (cs : List Cell)
    → unmarked (record m { work = ws }) i cs ≡ unmarked m i cs
unfolding unmarked
unmarked-pushing m ws i [] = refl
unmarked-pushing m ws i (c ∷ cs) =
    ground (arith, marked-pushing m ws (cell_pool c, i), unmarked-pushing m ws (suc i) cs)

abbrev pub measure : Heap → Marker → ℕ
measure heap m = total m.work + unmarked m 0 heap

module _ (heap : Heap) where
  measure-enter :
      (w : Work) (rest : List Work) (m : Marker) (o : Option Key)
      → key w ≡ o
      → m.work ≡ w ∷ rest
      → measure heap (enter o (children heap w) (record m { work = rest })) < measure heap m
  unfolding total
  measure-enter w rest m none q top = omega (
    arith,
    keyless_smaller heap w q,
    total-push_all (children heap w) rest,
    unmarked-pushing m (push_all (children heap w) rest) 0 heap,
    ap total top,
  )
  measure-enter w rest m (some (p, a)) q top =
      let m₀ = record m { work = rest } in
      elim (Bool-cases (marked m₀ (p, a))) [
        | inl old ↦
            rw old (omega (arith, work_size_pos w, unmarked-pushing m rest 0 heap, ap total top))
        | inr new ↦ rw new (
            omega (
              arith,
              work_size_pos w,
              keyed_children heap w p a q,
              unmarked-mark p a 0 a m₀ heap (omega arith) new,
              unmarked-pushing m rest 0 heap,
              ap total top,
              total-push_all (children heap w) (mark (p, a) m₀).work,
              ap total (mark-work (p, a) m₀),
              unmarked-pushing (mark (p, a) m₀) (push_all (children heap w) (mark (p, a) m₀).work) 0
                  heap,
            ))
      ]

  pub visit-smaller :
      (w : Work) (rest : List Work) (m : Marker)
      → m.work ≡ w ∷ rest
      → measure heap (visit heap w (record m { work = rest })) < measure heap m
  visit-smaller w rest m top =
      rw (visit-eq heap w (record m { work = rest })) (measure-enter w rest m (key w) refl top)

  pub run_ends :
      (n : ℕ) (m : Marker) → measure heap m < n → (m' : Marker) × (run n heap m ≡ some m')
  unfolding run
  run_ends zero m h = elim h [ ]
  run_ends (suc n) m h = elim (List-cases m.work) [
    | inl empty ↦ (m, ground arith)
    | inr (w, rest, top) ↦
        let (m', e) =
          run_ends n (visit heap w (record m { work = rest }))
            (omega (arith, visit-smaller w rest m top)) in
        (m', ground arith)
  ]
