-- ===== src/Gc/Tests.antt =====
-- Collections of a small heap, crates/yps-vm/src/gc.rs, and the theorems at it.
use mathlib.Core.List.{Memᴰ}
use yoptascript_rs.Prelude.{
  ℕ, zero, suc, ◌≡◌, refl, Bool, true, false, false, Option, none, some, [], ◌∷◌, get_elem?, arith,
  ◌↔◌, ◌<◌,
}
use yoptascript_rs.Gc.Heap.{
  array, object, function, Cell, array_cell, object_cell, upvalue_cell, closure_cell, closed, Heap,
}
use yoptascript_rs.Gc.Mark.{
  Work, value, closure, upvalue, Marker, run, empty_marker, pushing, has, visit, mark_value, once,
  mark_array, mark_object, mark_upvalue, push_all,
}
use yoptascript_rs.Gc.Reach.{objects, upvalues, key, marked}
use yoptascript_rs.Gc.Typed.{IsTyped, all_fit, cells_fit}
use yoptascript_rs.Gc.Ends.{measure, total, unmarked}
use yoptascript_rs.Gc.Sweep.{Vm, GcRegistry, collect_cycles, roots, sweep, sweep_pool, gc_clear}
use yoptascript_rs.Gc.Walks.{Walk, starts, goes, on_stack, holds, through, function_closure}
use yoptascript_rs.Gc.Owns.{element, captured}
use yoptascript_rs.Gc.Collect.{marks_reached, collect_ends, collect_keeps}

-- Objects 0 and 1 hold each other, and nothing else holds them; array 2 holds a closure whose
-- captured variable is the array.
abbrev cyclic_heap : Heap
cyclic_heap =
    object_cell (record {
      entries = ("next", object 1) ∷ [];
      generation = 0;
      frozen = false;
      sealed = false;
      extensible = true;
    })
    ∷ object_cell (record {
      entries = ("back", object 0) ∷ [];
      generation = 7;
      frozen = false;
      sealed = false;
      extensible = true;
    })
    ∷ array_cell (function 3 ∷ [])
    ∷ closure_cell (record { proto = 0; upvalues = 4 ∷ [] })
    ∷ upvalue_cell (closed (array 2))
    ∷ []

abbrev cyclic_vm : Vm
cyclic_vm = record {
  stack = array 2 ∷ [];
  frames = [];
  globals = [];
  open_upvalues = [];
  gen_yield = none;
  disposables = [];
  exports = [];
  module_cache = [];
  microtasks = [];
  macrotasks = [];
  heap = cyclic_heap;
  gc = record { objects = 0 ∷ 1 ∷ []; arrays = 2 ∷ []; upvalues = 4 ∷ [] };
}

-- whether an object still holds something
abbrev holds_some : Option Cell → Bool
holds_some (some (object_cell o)) = elim o.entries [ [] ↦ false | e ∷ es ↦ true ]
holds_some _ = false

-- The objects are owned by each other alone, and the other cells by what the stack holds.
abbrev owned : Heap → ℕ → Bool
owned heap zero = holds_some (get_elem? heap 1)
owned heap (suc zero) = holds_some (get_elem? heap 0)
owned heap a = true

cyclic-IsTyped : IsTyped cyclic_heap (roots cyclic_vm)
unfolding roots all_fit cells_fit
cyclic-IsTyped = record { roots_fit = refl; heap_fits = refl }

abbrev swept_registry : GcRegistry
swept_registry = record { objects = 0 ∷ []; arrays = 2 ∷ []; upvalues = 4 ∷ [] }

-- clearing the object 0 takes the only owner of the object 1
abbrev swept_heap : Heap
swept_heap =
    object_cell
      (record { entries = []; generation = 1; frozen = false; sealed = false; extensible = true })
    ∷ object_cell (record {
      entries = ("back", object 0) ∷ [];
      generation = 7;
      frozen = false;
      sealed = false;
      extensible = true;
    })
    ∷ array_cell (function 3 ∷ [])
    ∷ closure_cell (record { proto = 0; upvalues = 4 ∷ [] })
    ∷ upvalue_cell (closed (array 2))
    ∷ []

abbrev swept : Vm
swept = record cyclic_vm { heap = swept_heap; gc = swept_registry }

collects : collect_cycles 9 owned cyclic_vm ≡ some (swept, 1)
unfolding collect_cycles roots run sweep sweep_pool gc_clear visit mark_value once mark_array
    mark_object mark_upvalue push_all has
collects = refl

enough : measure cyclic_heap (pushing (roots cyclic_vm) empty_marker) < 9
unfolding roots push_all total unmarked
enough = omega arith

collect_ends_example : (vm' : Vm) × (k : ℕ) × (collect_cycles 9 owned cyclic_vm ≡ some (vm', k))
collect_ends_example = collect_ends 9 owned cyclic_vm enough

-- the variable behind the closure in the array
reaches_upvalue : Walk cyclic_vm (upvalue 4)
unfolding key
reaches_upvalue =
    goes {w = closure 3}
      (goes {w = value (function 3)}
        (goes {w = value (array 2)} (starts (on_stack (Memᴰ.head refl)))
          (through {c = array_cell (function 3 ∷ [])} refl refl (element (Memᴰ.head refl))))
        (holds function_closure))
      (through {c = closure_cell (record { proto = 0; upvalues = 4 ∷ [] })} refl refl
        (captured (Memᴰ.head refl)))

collect_keeps_example : get_elem? swept_heap 4 ≡ get_elem? cyclic_heap 4
unfolding key
collect_keeps_example =
    collect_keeps 9 owned cyclic_vm swept 1 (upvalue 4) upvalues 4 cyclic-IsTyped collects
      reaches_upvalue refl

-- what the marker finds
abbrev cyclic_marks : Marker
cyclic_marks = record {
  marked_objects = [];
  marked_arrays = 2 ∷ [];
  marked_upvalues = 4 ∷ [];
  seen = 3 ∷ [];
  work = [];
}

marking_runs : run 9 cyclic_heap (pushing (roots cyclic_vm) empty_marker) ≡ some cyclic_marks
unfolding roots run visit mark_value once mark_array mark_object mark_upvalue push_all has
marking_runs = refl

marks_reached_example :
    (marked cyclic_marks (upvalues, 4) ≡ true)
    ↔ ((w : Work) × Walk cyclic_vm w × (key w ≡ some (upvalues, 4)))
marks_reached_example =
    marks_reached 9 owned cyclic_vm cyclic_marks (upvalues, 4) cyclic-IsTyped marking_runs
