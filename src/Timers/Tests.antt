-- ===== src/Timers/Tests.antt =====
-- Runs of timers of crates/yps-interpreter/src/interpreter/event_loop.rs, and the theorems at
-- inputs.
use yoptascript_rs.Prelude.{ℕ, ◌≡◌, refl, none, some, []}
use yoptascript_rs.Timers.Queue.{
  MacrotaskQueue, new, schedule, schedule_with_id, allocate_id, cancel, has_id, next_deadline,
  first_deadline, pop_ready, pop_loop, pop_top, before,
}
use yoptascript_rs.Timers.Pops.{Popped, pop_ready-Popped}

abbrev Timers : Type 0
Timers = MacrotaskQueue ℕ ℕ

-- three timers at the time 0, the first cancelled
abbrev three : Timers
three = cancel 1 (schedule 0 9 [] 30 (schedule 0 9 [] 20 (schedule 0 5 [] 10 new).0).0).0

-- of two timers for one deadline the one that was set first is popped
popping_runs :
    ((pop_ready 4 three).1 ≡ none)
    × ((pop_ready 10 three).1
        ≡ some (record { deadline = 9; seq = 1; id = 2; roots = []; task = 20 }))
    × ((pop_ready 10 (pop_ready 10 three).0).1
        ≡ some (record { deadline = 9; seq = 2; id = 3; roots = []; task = 30 }))
    × (next_deadline three ≡ some 9)
unfolding pop_ready pop_loop pop_top before has_id new schedule schedule_with_id allocate_id cancel
    next_deadline first_deadline
popping_runs = (refl, refl, refl, refl)

pop_ready-Popped_example :
    Popped 10 three.cancelled three.heap (pop_ready 10 three).0.heap (pop_ready 10 three).1
pop_ready-Popped_example = pop_ready-Popped 10 three
