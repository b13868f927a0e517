-- ===== src/Gc/Collect.antt =====
-- A whole collection, `collect_cycles` of crates/yps-vm/src/vm.rs: it ends, it leaves what the
-- machine can still reach as it was, and it empties the tracked cells that nothing reaches.
use mathlib.Core.List.{Memᴰ}
use mathlib.Core.Path.{subst}
use yoptascript_rs.Prelude.{
  ◌↔◌, ℕ, ap, sym, ◌≡◌, ◌∙◌, inl, inr, Bool, true, none, some, get_elem?, arith, Option-cases,
}
use yoptascript_rs.Gc.Heap.{Value, array, object, Cell, Heap}
use yoptascript_rs.Gc.Mark.{Work, value, Marker, pushing}
use yoptascript_rs.Gc.Reach.{Key, Pool, key, value_key}
use yoptascript_rs.Gc.Mark.{run, empty_marker}
use yoptascript_rs.Gc.Reach.{marked}
use yoptascript_rs.Gc.Typed.{fits, IsTyped, Reach-fits}
use yoptascript_rs.Gc.Typed.{value_fits}
use yoptascript_rs.Gc.Correct.{run_correct}
use yoptascript_rs.Gc.Ends.{cell_pool, measure, run_ends}
use yoptascript_rs.Gc.Sweep.{sweep, modify, Vm, collect_cycles, swept_vm}
use yoptascript_rs.Gc.Walks.{Walk}
use yoptascript_rs.Gc.Reached.{Walk-Reach, Reach-Walk}
use yoptascript_rs.Gc.Clear.{tracked, sweep-keeps}
use yoptascript_rs.Gc.Emptied.{clear_cell}
use yoptascript_rs.Gc.Sweep.{roots, collected}
use yoptascript_rs.Prelude.{◌<◌}

-- a reference of the right type points to a cell of the set that it is marked in
value_pool :
    (heap : Heap) (v : Value) (p : Pool) (a : ℕ)
    → value_fits heap v ≡ true
    → value_key v ≡ some (p, a)
    → (c : Cell) → get_elem? heap a ≡ some c
    → cell_pool c ≡ p
unfolding value_fits value_key
value_pool heap (array b) p a h q c e = ground arith
value_pool heap (object b) p a h q c e = ground arith
value_pool heap _ p a h q c e = cc

work_pool :
    (heap : Heap) (w : Work) (p : Pool) (a : ℕ)
    → fits heap w ≡ true
    → key w ≡ some (p, a)
    → (c : Cell) → get_elem? heap a ≡ some c
    → cell_pool c ≡ p
unfolding fits key
work_pool heap (value v) p a h q c e = value_pool heap v p a h q c e
work_pool heap _ p a h q c e = ground arith

value_target :
    (heap : Heap) (v : Value) (p : Pool) (a : ℕ)
    → value_fits heap v ≡ true
    → value_key v ≡ some (p, a)
    → get_elem? heap a ≡ none
    → ⊥
unfolding value_fits value_key
value_target heap (array b) p a h q e = ground arith
value_target heap (object b) p a h q e = ground arith
value_target heap _ p a h q e = cc

work_target :
    (heap : Heap) (w : Work) (p : Pool) (a : ℕ)
    → fits heap w ≡ true
    → key w ≡ some (p, a)
    → get_elem? heap a ≡ none
    → ⊥
unfolding fits key
work_target heap (value v) p a h q e = value_target heap v p a h q e
work_target heap _ p a h q e = ground arith

module _ (strong : Heap → ℕ → Bool) (vm vm' : Vm) (k : ℕ) where
  collected_heap :
      (m : Marker)
      → collected strong vm (some m) ≡ some (vm', k)
      → vm'.heap ≡ (sweep strong m vm.gc vm.heap).0
  collected_heap m e =
      let same : swept_vm vm (sweep strong m vm.gc vm.heap) ≡ (vm', k) = cc in
      sym (ap (λ x. x.0.heap) same)

-- the heaps that a collection can pass through: one after another, tracked cells that have an owner
-- then, and that no walk from the roots reaches, are cleared
pub data Cleared (strong : Heap → ℕ → Bool) (vm : Vm) : Heap → Type 0 where
  untouched : Cleared strong vm vm.heap
  clears :
      {h : Heap} {p : Pool} {b : ℕ}
      → Cleared strong vm h
      → strong h b ≡ true
      → Memᴰ b (tracked p vm.gc)
      → ¬ ((w : Work) × Walk vm w × (key w ≡ some (p, b)))
      → Cleared strong vm (modify h b (clear_cell p))

module _ (rounds : ℕ) (strong : Heap → ℕ → Bool) (vm : Vm) where
  -- A collection ends: it has a result whenever the rounds are more than the size of the roots and
  -- of the cells, whatever the references point to.
  pub collect_ends :
      measure vm.heap (pushing (roots vm) empty_marker) < rounds
      → (vm' : Vm) × (k : ℕ) × (collect_cycles rounds strong vm ≡ some (vm', k))
  unfolding collect_cycles
  collect_ends enough =
      let (m, e) = run_ends vm.heap rounds (pushing (roots vm) empty_marker) enough in
      let swept = swept_vm vm (sweep strong m vm.gc vm.heap) in
      (swept.0, swept.1, ap (collected strong vm) e)

  -- what a collection computes
  collect_runs :
      (vm' : Vm) (k : ℕ)
      → collect_cycles rounds strong vm ≡ some (vm', k)
      → (m : Marker) × (run rounds vm.heap (pushing (roots vm) empty_marker) ≡ some m)
        × (vm'.heap ≡ (sweep strong m vm.gc vm.heap).0)
  unfolding collect_cycles
  collect_runs vm' k e =
      elim (Option-cases (run rounds vm.heap (pushing (roots vm) empty_marker))) [
        | inl never ↦ cc (sym (ap (collected strong vm) never) ∙ e)
        | inr (m, q) ↦
            (m, q, collected_heap strong vm vm' k m (sym (ap (collected strong vm) q) ∙ e))
      ]

  -- On a heap whose references are of the right types, the marker, run to its end on the roots of
  -- the machine, has marked a cell exactly if a walk along references from those roots reaches it.
  pub marks_reached :
      (m : Marker) (k : Key)
      → IsTyped vm.heap (roots vm)
      → run rounds vm.heap (pushing (roots vm) empty_marker) ≡ some m
      → (marked m k ≡ true) ↔ ((w : Work) × Walk vm w × (key w ≡ some k))
  marks_reached m k typed ran =
      let found = run_correct vm.heap (roots vm) rounds m k typed ran in
      (
        λ h. let (w, r, q) = found.0 h in (w, Reach-Walk vm typed r, q),
        λ (w, r, q). found.1 (w, Walk-Reach vm typed r, q),
      )

  -- On a heap whose references are of the right types, a collection that has a result leaves every
  -- cell that a walk along references from the machine's roots reaches as it was.
  pub collect_keeps :
      (vm' : Vm) (k : ℕ) (w : Work) (p : Pool) (a : ℕ)
      → IsTyped vm.heap (roots vm)
      → collect_cycles rounds strong vm ≡ some (vm', k)
      → Walk vm w
      → key w ≡ some (p, a)
      → get_elem? vm'.heap a ≡ get_elem? vm.heap a
  collect_keeps vm' k w p a typed e walk q =
      let (m, ran, after) = collect_runs vm' k e in
      let fit = Reach-fits vm.heap (roots vm) typed (Walk-Reach vm typed walk) in
      let found : marked m (p, a) ≡ true = (marks_reached m (p, a) typed ran).1 (w, walk, q) in
      elim (Option-cases (get_elem? vm.heap a)) [
        | inl no_cell ↦ absurd (work_target vm.heap w p a fit q no_cell)
        | inr (c, here) ↦
            let same = work_pool vm.heap w p a fit q c here in
            rw (after, here)
              (sweep-keeps strong m vm.gc vm.heap a c here
                (inl (subst (λ x. marked m (x, a) ≡ true) (sym same) found)))
      ]
