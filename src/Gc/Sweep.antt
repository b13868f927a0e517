-- ===== src/Gc/Sweep.antt =====
-- The registry, the sweep and the roots of a collection: crates/yps-vm/src/gc.rs and
-- `collect_cycles` of crates/yps-vm/src/vm.rs. `strong` says which cells still have owners; in the
-- sweep that depends on the heap, since a cell that is cleared gives up what it owned.
use yoptascript_rs.Prelude.{
  ℕ, suc, ◌+◌, ◌%◌, ◌^◌, Bool, Option, none, some, List, [], ◌∷◌, ◌++◌, map, get_elem?, set, length,
  if◌then◌else◌, String,
}
use yoptascript_rs.Gc.Heap.{
  Value, undefined, function, class, ObjMap, closed, CallFrame, Cell, array_cell, object_cell,
  upvalue_cell, Heap,
}
use yoptascript_rs.Gc.Mark.{
  Work, value, upvalue, Marker, empty_marker, has, pushing, values, optional, run,
}

pub record GcRegistry : Type 0 where
  pub objects : List ℕ
  pub arrays : List ℕ
  pub upvalues : List ℕ

unfoldable pub track_object : ℕ → GcRegistry → GcRegistry
track_object a r = record r { objects = r.objects ++ a ∷ [] }

unfoldable pub track_array : ℕ → GcRegistry → GcRegistry
track_array a r = record r { arrays = r.arrays ++ a ∷ [] }

unfoldable pub track_upvalue : ℕ → GcRegistry → GcRegistry
track_upvalue a r = record r { upvalues = r.upvalues ++ a ∷ [] }

unfoldable pub prune : (ℕ → Bool) → List ℕ → List ℕ
prune strong [] = []
prune strong (a ∷ cells) = let rest = prune strong cells in if strong a then a ∷ rest else rest

unfoldable pub live_count : (ℕ → Bool) → GcRegistry → GcRegistry × ℕ
unfolding prune
live_count strong r =
    let objects = prune strong r.objects in
    let arrays = prune strong r.arrays in
    let upvalues = prune strong r.upvalues in
    (
      record { objects = objects; arrays = arrays; upvalues = upvalues },
      length objects + length arrays + length upvalues,
    )

unfoldable pub gc_clear : ObjMap → ObjMap
gc_clear o = record o { entries = []; generation = (o.generation + 1) % 2 ^ 32 }

abbrev pub clear_object : Cell → Cell
clear_object (object_cell o) = object_cell (gc_clear o)
clear_object c = c

abbrev pub clear_array : Cell → Cell
clear_array (array_cell vs) = array_cell []
clear_array c = c

abbrev pub clear_upvalue : Cell → Cell
clear_upvalue (upvalue_cell u) = upvalue_cell (closed undefined)
clear_upvalue c = c

abbrev pub modify : Heap → ℕ → (Cell → Cell) → Heap
modify heap a f = elim (get_elem? heap a) [ none ↦ heap | some c ↦ set heap a (f c) ]

-- one of the three loops of `sweep`: the heap, the references kept and the number cleared
unfoldable pub sweep_pool :
    (Heap → ℕ → Bool) → List ℕ → (Cell → Cell) → List ℕ → Heap → Heap × List ℕ × ℕ
unfolding has
sweep_pool strong marked clear [] heap = (heap, [], 0)
sweep_pool strong marked clear (a ∷ cells) heap =
    let kept = sweep_pool strong marked clear cells heap in
    let swept = sweep_pool strong marked clear cells (modify heap a clear) in
    if strong heap a
    then (if has marked a
        then (kept.0, a ∷ kept.1, kept.2)
        else (swept.0, a ∷ swept.1, suc swept.2))
    else kept

unfoldable pub sweep : (Heap → ℕ → Bool) → Marker → GcRegistry → Heap → Heap × GcRegistry × ℕ
unfolding sweep_pool gc_clear
sweep strong m r heap =
    let (heap₁, objects, n₁) = sweep_pool strong m.marked_objects clear_object r.objects heap in
    let (heap₂, arrays, n₂) = sweep_pool strong m.marked_arrays clear_array r.arrays heap₁ in
    let (heap₃, upvalues, n₃) =
      sweep_pool strong m.marked_upvalues clear_upvalue r.upvalues heap₂ in
    (heap₃, record { objects = objects; arrays = arrays; upvalues = upvalues }, n₁ + n₂ + n₃)

-- The fields of the machine that hold values; a queued task is the list of its roots.
pub record Vm : Type 0 where
  pub stack : List Value
  pub frames : List CallFrame
  pub globals : List (String × Value × Bool)
  pub open_upvalues : List ℕ
  pub gen_yield : Option Value
  pub disposables : List (Value × Bool)
  pub exports : List (String × Value)
  pub module_cache : List (String × List (String × Value))
  pub microtasks : List (List Value)
  pub macrotasks : List (List Value)
  pub heap : Heap
  pub gc : GcRegistry

abbrev pub frame_roots : List CallFrame → List Work
frame_roots [] = []
frame_roots (f ∷ fs) =
    value (function f.closure) ∷ (optional (λ a. value (class a)) f.owner ++ frame_roots fs)

abbrev pub module_roots : List (String × List (String × Value)) → List Work
module_roots [] = []
module_roots ((path, exports) ∷ ms) = map (λ e. value e.1) exports ++ module_roots ms

abbrev pub task_roots : List (List Value) → List Work
task_roots [] = []
task_roots (roots ∷ ts) = values roots ++ task_roots ts

unfoldable pub roots : Vm → List Work
roots vm =
    values vm.stack
    ++ (frame_roots vm.frames
        ++ (map (λ g. value g.1) vm.globals
            ++ (map upvalue vm.open_upvalues
                ++ (optional value vm.gen_yield
                    ++ (map (λ d. value d.0) vm.disposables
                        ++ (map (λ e. value e.1) vm.exports
                            ++ (module_roots vm.module_cache
                                ++ (task_roots vm.microtasks ++ task_roots vm.macrotasks))))))))

abbrev pub swept_vm : Vm → Heap × GcRegistry × ℕ → Vm × ℕ
swept_vm vm (heap, registry, cleared) = (record vm { heap = heap; gc = registry }, cleared)

abbrev pub collected : (Heap → ℕ → Bool) → Vm → Option Marker → Option (Vm × ℕ)
collected strong vm none = none
collected strong vm (some m) = some (swept_vm vm (sweep strong m vm.gc vm.heap))

unfoldable pub collect_cycles : ℕ → (Heap → ℕ → Bool) → Vm → Option (Vm × ℕ)
unfolding roots run sweep
collect_cycles rounds strong vm =
    collected strong vm (run rounds vm.heap (pushing (roots vm) empty_marker))
