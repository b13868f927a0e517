-- ===== src/Timers/Queue.antt =====
-- `MacrotaskQueue` of crates/yps-interpreter/src/interpreter/event_loop.rs and
-- crates/yps-vm/src/promise.rs. `BinaryHeap` is the list of its tasks, of which the greatest in the
-- order of `ScheduledTask`, the one that is due first, is popped; the times are arguments.
use yoptascript_rs.Prelude.{
  ℕ, zero, suc, ◌+◌, ◌%◌, ◌^◌, Bool, true, false, ◌&&◌, ◌==◌, ltb, leb, Option, none, some, List,
  [], ◌∷◌, ◌++◌, length, if◌then◌else◌,
}

pub record ScheduledTask (R T : Type 0) : Type 0 where
  pub deadline : ℕ
  pub seq : ℕ
  pub id : ℕ
  pub roots : List R
  pub task : T

pub record MacrotaskQueue (R T : Type 0) : Type 0 where
  pub heap : List (ScheduledTask R T)
  pub cancelled : List ℕ
  pub next_id : ℕ
  pub next_seq : ℕ

-- `HashSet<u64>::contains`
unfoldable pub has_id : List ℕ → ℕ → Bool
has_id [] a = false
has_id (b ∷ bs) a = if b == a then true else has_id bs a

-- `wrapping_add(1)` on `u64`
abbrev pub next : ℕ → ℕ
next n = (n + 1) % 2 ^ 64

module _ {R T : Type 0} where
  -- greater in the order of the heap: an earlier deadline, or scheduled earlier for the same one
  unfoldable pub before : ScheduledTask R T → ScheduledTask R T → Bool
  before t u =
      if ltb t.deadline u.deadline then true else t.deadline == u.deadline && ltb t.seq u.seq

  -- the greatest task and the others
  unfoldable pub pop_top :
      List (ScheduledTask R T) → Option (ScheduledTask R T × List (ScheduledTask R T))
  unfolding before
  pop_top [] = none
  pop_top (t ∷ ts) = elim (pop_top ts) [
    | none ↦ some (t, [])
    | some (u, rest) ↦ if before u t then some (u, t ∷ rest) else some (t, ts)
  ]

  unfoldable pub new : MacrotaskQueue R T
  new = record { heap = []; cancelled = []; next_id = 1; next_seq = 0 }

  unfoldable pub schedule_with_id : ℕ → ℕ → ℕ → List R → T → MacrotaskQueue R T → MacrotaskQueue R T
  schedule_with_id now id delay roots task q = record q {
    next_seq = next q.next_seq;
    heap =
        q.heap
        ++ record { deadline = now + delay; seq = q.next_seq; id = id; roots = roots; task = task }
          ∷ [];
  }

  unfoldable pub allocate_id : MacrotaskQueue R T → MacrotaskQueue R T × ℕ
  allocate_id q = (record q { next_id = next q.next_id }, q.next_id)

  unfoldable pub schedule : ℕ → ℕ → List R → T → MacrotaskQueue R T → MacrotaskQueue R T × ℕ
  unfolding schedule_with_id allocate_id
  schedule now delay roots task q =
      let (q₁, id) = allocate_id q in (schedule_with_id now id delay roots task q₁, id)

  unfoldable pub cancel : ℕ → MacrotaskQueue R T → MacrotaskQueue R T
  unfolding has_id
  cancel id q = record q {
    cancelled = if has_id q.cancelled id then q.cancelled else id ∷ q.cancelled;
  }

  unfoldable pub clear : MacrotaskQueue R T → MacrotaskQueue R T
  clear q = record q { heap = []; cancelled = [] }

  unfoldable pub all_cancelled : List ℕ → List (ScheduledTask R T) → Bool
  unfolding has_id
  all_cancelled cancelled [] = true
  all_cancelled cancelled (t ∷ ts) = has_id cancelled t.id && all_cancelled cancelled ts

  unfoldable pub is_empty : MacrotaskQueue R T → Bool
  unfolding all_cancelled
  is_empty q = all_cancelled q.cancelled q.heap

  -- the deadline of the first task of the iteration that is not cancelled
  unfoldable pub first_deadline : List ℕ → List (ScheduledTask R T) → Option ℕ
  unfolding has_id
  first_deadline cancelled [] = none
  first_deadline cancelled (t ∷ ts) =
      let later = first_deadline cancelled ts in
      if has_id cancelled t.id then later else some t.deadline

  unfoldable pub next_deadline : MacrotaskQueue R T → Option ℕ
  unfolding first_deadline
  next_deadline q = first_deadline q.cancelled q.heap

  -- The loop of `pop_ready`: what is left, and the task. Every round but the last pops, so as many
  -- rounds as there are tasks are enough.
  unfoldable pub pop_loop :
      ℕ
      → ℕ
      → List ℕ
      → List (ScheduledTask R T)
      → List (ScheduledTask R T) × Option (ScheduledTask R T)
  unfolding pop_top has_id
  pop_loop zero now cancelled heap = (heap, none)
  pop_loop (suc n) now cancelled heap = elim (pop_top heap) [
    | none ↦ (heap, none)
    | some (top, rest) ↦
        let popped = pop_loop n now cancelled rest in
        if has_id cancelled top.id
        then popped
        else (if leb top.deadline now then (rest, some top) else (heap, none))
  ]

  unfoldable pub pop_ready :
      ℕ → MacrotaskQueue R T → MacrotaskQueue R T × Option (ScheduledTask R T)
  unfolding pop_loop
  pop_ready now q =
      let (heap, task) = pop_loop (length q.heap) now q.cancelled q.heap in
      (record q { heap = heap }, task)

  -- awake at the deadline, or at once if it has passed
  abbrev pub slept :
      ℕ → MacrotaskQueue R T → Option ℕ → Option (MacrotaskQueue R T × Option (ScheduledTask R T))
  slept now q none = none
  slept now q (some deadline) = some (pop_ready (if ltb now deadline then deadline else now) q)

  -- One round of `pop_next_blocking` at the time `now`: `none` when nothing is left, or the queue and
  -- the task after sleeping until the deadline that `next_deadline` names.
  unfoldable pub pop_next_round :
      ℕ → MacrotaskQueue R T → Option (MacrotaskQueue R T × Option (ScheduledTask R T))
  unfolding next_deadline pop_ready
  pop_next_round now q = slept now q (next_deadline q)
