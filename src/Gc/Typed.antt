-- ===== src/Gc/Typed.antt =====
-- References of the right type: an `Rc<T>` of crates/yps-vm/src/value.rs points to a `T`, as the
-- Rust type system guarantees. Then the key of a visit determines what it pushes.
use mathlib.Core.List.{Memᴰ}
use mathlib.Core.List.Memᴰ
use yoptascript_rs.Prelude.{
  ℕ, zero, suc, ◌≡◌, refl, inl, inr, Bool, true, false, Option, none, some, List, [], ◌∷◌, map,
  get_elem?, ◌&&◌, arith, Option-cases,
}
use yoptascript_rs.Gc.Heap.{
  Value, array, object, function, bound_method, class, generator, for_iter, promise,
  promise_capability, promise_then_handler, async_resume, promise_finally_handler,
  promise_aggregate_handler, Cell, array_cell, object_cell, upvalue_cell, closure_cell, class_cell,
  gen_cell, for_iter_cell, promise_cell, aggregate_cell, Heap,
}
use yoptascript_rs.Gc.Mark.{
  Work, value, closure, class_def, gen, iter, pledge, aggregate, upvalue, values, entry_values,
  mark_class, mark_gen, mark_for_iter, mark_promise, mark_aggregate, closed_value,
}
use yoptascript_rs.Gc.Reach.{
  Pool, objects, arrays, upvalues, seen, key, value_key, children, value_children, Reach, root,
  step,
}

unfoldable pub value_fits : Heap → Value → Bool
value_fits heap (array a) = elim (get_elem? heap a) [ some (array_cell vs) ↦ true | _ ↦ false ]
value_fits heap (object a) = elim (get_elem? heap a) [ some (object_cell o) ↦ true | _ ↦ false ]
value_fits heap (function a) = elim (get_elem? heap a) [ some (closure_cell c) ↦ true | _ ↦ false ]
value_fits heap (bound_method receiver method) = value_fits heap receiver
value_fits heap (class a) = elim (get_elem? heap a) [ some (class_cell c) ↦ true | _ ↦ false ]
value_fits heap (generator a) = elim (get_elem? heap a) [ some (gen_cell s) ↦ true | _ ↦ false ]
value_fits heap (for_iter a) = elim (get_elem? heap a) [ some (for_iter_cell i) ↦ true | _ ↦ false ]
value_fits heap (promise a) = elim (get_elem? heap a) [ some (promise_cell p) ↦ true | _ ↦ false ]
value_fits heap (promise_capability a kind) = elim (get_elem? heap a) [
  | some (promise_cell p) ↦ true
  | _ ↦ false
]
value_fits heap (async_resume coroutine outer is_throw) =
    elim (get_elem? heap coroutine) [ some (gen_cell s) ↦ true | _ ↦ false ]
    && elim (get_elem? heap outer) [ some (promise_cell p) ↦ true | _ ↦ false ]
value_fits heap (promise_then_handler handler on_resolve on_reject is_fulfill) =
    value_fits heap handler && (value_fits heap on_resolve && value_fits heap on_reject)
value_fits heap (promise_finally_handler cb cap) = value_fits heap cb && value_fits heap cap
value_fits heap (promise_aggregate_handler a index role) = elim (get_elem? heap a) [
  | some (aggregate_cell s) ↦ true
  | _ ↦ false
]
value_fits heap _ = true

unfoldable pub fits : Heap → Work → Bool
unfolding value_fits
fits heap (value v) = value_fits heap v
fits heap (closure a) = elim (get_elem? heap a) [ some (closure_cell c) ↦ true | _ ↦ false ]
fits heap (class_def a) = elim (get_elem? heap a) [ some (class_cell c) ↦ true | _ ↦ false ]
fits heap (gen a) = elim (get_elem? heap a) [ some (gen_cell s) ↦ true | _ ↦ false ]
fits heap (iter a) = elim (get_elem? heap a) [ some (for_iter_cell i) ↦ true | _ ↦ false ]
fits heap (pledge a) = elim (get_elem? heap a) [ some (promise_cell p) ↦ true | _ ↦ false ]
fits heap (aggregate a) = elim (get_elem? heap a) [ some (aggregate_cell s) ↦ true | _ ↦ false ]
fits heap (upvalue a) = elim (get_elem? heap a) [ some (upvalue_cell u) ↦ true | _ ↦ false ]

unfoldable pub all_fit : Heap → List Work → Bool
unfolding fits
all_fit heap [] = true
all_fit heap (w ∷ ws) = fits heap w && all_fit heap ws

-- all references in a cell
unfoldable pub cell_work : Cell → List Work
unfolding mark_class mark_gen mark_for_iter mark_promise mark_aggregate
cell_work (array_cell vs) = values vs
cell_work (object_cell o) = entry_values o.entries
cell_work (upvalue_cell u) = closed_value u
cell_work (closure_cell c) = map upvalue c.upvalues
cell_work (class_cell c) = mark_class c
cell_work (gen_cell s) = mark_gen s
cell_work (for_iter_cell i) = mark_for_iter i
cell_work (promise_cell p) = mark_promise p
cell_work (aggregate_cell s) = mark_aggregate s

abbrev pub work_at : Option Cell → List Work
work_at none = []
work_at (some c) = cell_work c

unfoldable pub cells_fit : Heap → List Cell → Bool
unfolding all_fit cell_work
cells_fit heap [] = true
cells_fit heap (c ∷ cs) = all_fit heap (cell_work c) && cells_fit heap cs

-- The references in the roots and in every cell point to cells of their types.
pub record IsTyped (heap : Heap) (roots : List Work) : Type 0 where
  pub roots_fit : all_fit heap roots ≡ true
  pub heap_fits : cells_fit heap heap ≡ true

value_children-eq :
    (heap : Heap) (v : Value) (p : Pool) (a : ℕ)
    → value_fits heap v ≡ true
    → value_key v ≡ some (p, a)
    → value_children heap v ≡ work_at (get_elem? heap a)
unfolding value_fits value_key value_children cell_work
value_children-eq heap (array b) p a h e = ground arith
value_children-eq heap (object b) p a h e = ground arith
value_children-eq heap _ p a h e = cc

pub children-eq :
    (heap : Heap) (w : Work) (p : Pool) (a : ℕ)
    → fits heap w ≡ true
    → key w ≡ some (p, a)
    → children heap w ≡ work_at (get_elem? heap a)
unfolding fits key children cell_work
children-eq heap (value v) p a h e = value_children-eq heap v p a h e
children-eq heap (closure b) p a h e = ground arith
children-eq heap _ p a h e = ground arith

all_fit-mem :
    (heap : Heap) (ws : List Work) (w : Work)
    → all_fit heap ws ≡ true
    → Memᴰ w ws
    → fits heap w ≡ true
unfolding all_fit
all_fit-mem heap [] w h m = absurd (Memᴰ.not-nil m)
all_fit-mem heap (u ∷ ws) w h m = elim (Memᴰ.cases_cons m) [
  | inl e ↦ rw e (ground arith)
  | inr rest ↦ all_fit-mem heap ws w (ground arith) rest
]

cells_fit-at :
    (heap : Heap) (cs : List Cell) (i : ℕ) (c : Cell)
    → cells_fit heap cs ≡ true
    → get_elem? cs i ≡ some c
    → all_fit heap (cell_work c) ≡ true
unfolding cells_fit
cells_fit-at heap [] i c h e = cc
cells_fit-at heap (d ∷ cs) zero c h e = ground arith
cells_fit-at heap (d ∷ cs) (suc i) c h e = cells_fit-at heap cs i c (ground arith) e

work_at-fits :
    (heap : Heap) (a : ℕ)
    → cells_fit heap heap ≡ true
    → all_fit heap (work_at (get_elem? heap a)) ≡ true
unfolding all_fit
work_at-fits heap a h = elim (Option-cases (get_elem? heap a)) [
  | inl no_cell ↦ rw no_cell refl
  | inr (c, e) ↦ rw e (cells_fit-at heap heap a c h e)
]

keyed_fit :
    (heap : Heap) (w : Work) (p : Pool) (a : ℕ)
    → cells_fit heap heap ≡ true
    → fits heap w ≡ true
    → key w ≡ some (p, a)
    → all_fit heap (children heap w) ≡ true
keyed_fit heap w p a typed h e = rw (children-eq heap w p a h e) (work_at-fits heap a typed)

value_children_fit :
    (heap : Heap) (v : Value)
    → cells_fit heap heap ≡ true
    → fits heap (value v) ≡ true
    → all_fit heap (children heap (value v)) ≡ true
unfolding fits children all_fit key
value_children_fit heap (array a) typed h = keyed_fit heap (value (array a)) arrays a typed h refl
value_children_fit heap (object a) typed h =
    keyed_fit heap (value (object a)) objects a typed h refl
value_children_fit heap _ typed h = ground arith

children_fit :
    (heap : Heap) (w : Work)
    → cells_fit heap heap ≡ true
    → fits heap w ≡ true
    → all_fit heap (children heap w) ≡ true
unfolding key
children_fit heap (value v) typed h = value_children_fit heap v typed h
children_fit heap (closure a) typed h = keyed_fit heap (closure a) seen a typed h refl
children_fit heap (class_def a) typed h = keyed_fit heap (class_def a) seen a typed h refl
children_fit heap (gen a) typed h = keyed_fit heap (gen a) seen a typed h refl
children_fit heap (iter a) typed h = keyed_fit heap (iter a) seen a typed h refl
children_fit heap (pledge a) typed h = keyed_fit heap (pledge a) seen a typed h refl
children_fit heap (aggregate a) typed h = keyed_fit heap (aggregate a) seen a typed h refl
children_fit heap (upvalue a) typed h = keyed_fit heap (upvalue a) upvalues a typed h refl

pub Reach-fits :
    (heap : Heap) (roots : List Work) (typed : IsTyped heap roots) {w : Work}
    → Reach heap roots w
    → fits heap w ≡ true
Reach-fits heap roots typed (root {w} m) = all_fit-mem heap roots w typed.roots_fit m
Reach-fits heap roots typed (step {w} {u} r m) =
    all_fit-mem heap (children heap w) u
      (children_fit heap w typed.heap_fits (Reach-fits heap roots typed r)) m
