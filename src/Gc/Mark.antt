-- ===== src/Gc/Mark.antt =====
-- The marker of crates/yps-vm/src/gc.rs: a stack of work and the sets of what was visited.
use yoptascript_rs.Prelude.{
  ℕ, zero, suc, Bool, false, Option, none, some, List, [], ◌∷◌, ◌++◌, map, get_elem?, if◌then◌else◌,
  ◌||◌, ◌==◌, String,
}
use yoptascript_rs.Gc.Heap.{
  Value, array, object, function, bound_method, class, generator, for_iter, promise,
  promise_capability, promise_then_handler, async_resume, promise_finally_handler,
  promise_aggregate_handler, UpvalueState, closed, opened, ClassDef, ClassMembers, CallFrame,
  GenState, Delegate, to_generator, to_values, ForIter, over_values, over_generator, PromiseState,
  pending, fulfilled, rejected, AggregateState, Cell, array_cell, object_cell, upvalue_cell,
  closure_cell, class_cell, gen_cell, for_iter_cell, promise_cell, aggregate_cell, Heap, defs,
}

pub data Work : Type 0 where
  value : Value → Work
  closure class_def gen iter pledge aggregate upvalue : ℕ → Work

pub record Marker : Type 0 where
  pub marked_objects : List ℕ
  pub marked_arrays : List ℕ
  pub marked_upvalues : List ℕ
  pub seen : List ℕ
  pub work : List Work

abbrev pub empty_marker : Marker
empty_marker = record {
  marked_objects = [];
  marked_arrays = [];
  marked_upvalues = [];
  seen = [];
  work = [];
}

-- `HashSet<usize>::contains`
unfoldable pub has : List ℕ → ℕ → Bool
has [] a = false
has (b ∷ bs) a = b == a || has bs a

-- pushed one after the other, so the last is on top
unfoldable pub push_all : List Work → List Work → List Work
push_all [] work = work
push_all (w ∷ ws) work = push_all ws (w ∷ work)

abbrev pub pushing : List Work → Marker → Marker
pushing ws m = record m { work = push_all ws m.work }

abbrev pub values : List Value → List Work
values = map value

abbrev pub optional : {A : Type 0} → (A → Work) → Option A → List Work
optional f none = []
optional f (some a) = f a ∷ []

abbrev pub entry_values : {A : Type 0} → List (A × Value) → List Work
entry_values = map (λ e. value e.1)

unfoldable pub mark_promise : PromiseState → List Work
mark_promise (pending on_resolve on_reject) = values (on_resolve ++ on_reject)
mark_promise (fulfilled v) = value v ∷ []
mark_promise (rejected v) = value v ∷ []

unfoldable pub mark_for_iter : ForIter → List Work
mark_for_iter (over_values vs index) = values vs
mark_for_iter (over_generator a) = gen a ∷ []

unfoldable pub mark_delegate : Delegate → List Work
mark_delegate (to_generator a) = gen a ∷ []
mark_delegate (to_values vs index) = values vs

abbrev pub delegated : Option Delegate → List Work
delegated none = []
delegated (some d) = mark_delegate d

unfoldable pub mark_frames : List CallFrame → List Work
mark_frames [] = []
mark_frames (f ∷ fs) = closure f.closure ∷ (optional class_def f.owner ++ mark_frames fs)

unfoldable pub mark_gen : GenState → List Work
unfolding mark_delegate mark_frames
mark_gen s =
    closure s.closure
    ∷ (optional class_def s.owner
        ++ (values s.stack
            ++ (mark_frames s.frames
                ++ (map upvalue s.open_upvalues
                    ++ (value s.this ∷ (values s.args ++ delegated s.delegate))))))

unfoldable pub mark_inits : List (String × Option ℕ × Option Value) → List Work
mark_inits [] = []
mark_inits ((name, init, default) ∷ fs) =
    optional closure init ++ (optional value default ++ mark_inits fs)

abbrev pub method_defs : ClassMembers → List ℕ
method_defs ms =
    defs ms.methods
    ++ (defs ms.getters
        ++ (defs ms.setters
            ++ (defs ms.static_methods ++ (defs ms.static_getters ++ defs ms.static_setters))))

unfoldable pub mark_class : ClassDef → List Work
unfolding mark_inits
mark_class c =
    optional closure c.constructor
    ++ (map closure (method_defs c.members)
        ++ (mark_inits c.members.field_inits
            ++ (entry_values c.static_fields.entries ++ optional class_def c.parent)))

unfoldable pub mark_aggregate : AggregateState → List Work
mark_aggregate s = values s.results ++ (value s.resolve ∷ value s.reject ∷ [])

abbrev pub closed_value : UpvalueState → List Work
closed_value (opened slot) = []
closed_value (closed v) = value v ∷ []

-- What is behind an address, for the kind of cell that the reference's type says is there.
abbrev pub array_work : Option Cell → List Work
array_work (some (array_cell vs)) = values vs
array_work _ = []

abbrev pub object_work : Option Cell → List Work
object_work (some (object_cell o)) = entry_values o.entries
object_work _ = []

abbrev pub closure_work : Option Cell → List Work
closure_work (some (closure_cell c)) = map upvalue c.upvalues
closure_work _ = []

abbrev pub upvalue_work : Option Cell → List Work
upvalue_work (some (upvalue_cell u)) = closed_value u
upvalue_work _ = []

abbrev pub class_work : Option Cell → List Work
class_work (some (class_cell c)) = mark_class c
class_work _ = []

abbrev pub gen_work : Option Cell → List Work
gen_work (some (gen_cell s)) = mark_gen s
gen_work _ = []

abbrev pub iter_work : Option Cell → List Work
iter_work (some (for_iter_cell i)) = mark_for_iter i
iter_work _ = []

abbrev pub promise_work : Option Cell → List Work
promise_work (some (promise_cell p)) = mark_promise p
promise_work _ = []

abbrev pub aggregate_work : Option Cell → List Work
aggregate_work (some (aggregate_cell s)) = mark_aggregate s
aggregate_work _ = []

-- `if self.seen.insert(address) { … }`
unfoldable pub once : ℕ → List Work → Marker → Marker
unfolding has push_all
once a ws m = if has m.seen a then m else pushing ws (record m { seen = a ∷ m.seen })

unfoldable pub mark_array : ℕ → List Work → Marker → Marker
unfolding has push_all
mark_array a ws m =
    if has m.marked_arrays a
    then m
    else pushing ws (record m { marked_arrays = a ∷ m.marked_arrays })

unfoldable pub mark_object : ℕ → List Work → Marker → Marker
unfolding has push_all
mark_object a ws m =
    if has m.marked_objects a
    then m
    else pushing ws (record m { marked_objects = a ∷ m.marked_objects })

unfoldable pub mark_upvalue : ℕ → List Work → Marker → Marker
unfolding has push_all
mark_upvalue a ws m =
    if has m.marked_upvalues a
    then m
    else pushing ws (record m { marked_upvalues = a ∷ m.marked_upvalues })

unfoldable pub mark_value : Heap → Value → Marker → Marker
unfolding mark_array mark_object
mark_value heap (array a) m = mark_array a (array_work (get_elem? heap a)) m
mark_value heap (object a) m = mark_object a (object_work (get_elem? heap a)) m
mark_value heap (function a) m = pushing (closure a ∷ []) m
mark_value heap (bound_method receiver method) m = pushing (value receiver ∷ []) m
mark_value heap (class a) m = pushing (class_def a ∷ []) m
mark_value heap (generator a) m = pushing (gen a ∷ []) m
mark_value heap (for_iter a) m = pushing (iter a ∷ []) m
mark_value heap (promise a) m = pushing (pledge a ∷ []) m
mark_value heap (promise_capability a kind) m = pushing (pledge a ∷ []) m
mark_value heap (async_resume coroutine outer is_throw) m =
    pushing (gen coroutine ∷ pledge outer ∷ []) m
mark_value heap (promise_then_handler handler on_resolve on_reject is_fulfill) m =
    pushing (value handler ∷ value on_resolve ∷ value on_reject ∷ []) m
mark_value heap (promise_finally_handler cb cap) m = pushing (value cb ∷ value cap ∷ []) m
mark_value heap (promise_aggregate_handler a index role) m = pushing (aggregate a ∷ []) m
mark_value heap _ m = m

-- one round of the loop, for the item that was popped
unfoldable pub visit : Heap → Work → Marker → Marker
unfolding mark_value once mark_upvalue
visit heap (value v) m = mark_value heap v m
visit heap (closure a) m = once a (closure_work (get_elem? heap a)) m
visit heap (class_def a) m = once a (class_work (get_elem? heap a)) m
visit heap (gen a) m = once a (gen_work (get_elem? heap a)) m
visit heap (iter a) m = once a (iter_work (get_elem? heap a)) m
visit heap (pledge a) m = once a (promise_work (get_elem? heap a)) m
visit heap (aggregate a) m = once a (aggregate_work (get_elem? heap a)) m
visit heap (upvalue a) m = mark_upvalue a (upvalue_work (get_elem? heap a)) m

-- `None` when the rounds run out; `Ends` says how many are enough.
unfoldable pub run : ℕ → Heap → Marker → Option Marker
run zero heap m = none
run (suc n) heap m = elim m.work [
  | [] ↦ some m
  | w ∷ rest ↦ run n heap (visit heap w (record m { work = rest }))
]
