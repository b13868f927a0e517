-- ===== src/Timers/Pops.antt =====
-- `pop_ready` and `pop_next_blocking` of crates/yps-interpreter/src/interpreter/event_loop.rs: what
-- they return, and what they leave.
use mathlib.Core.List.{Memᴰ}
use mathlib.Core.List.Memᴰ
use mathlib.Core.Path.{subst}
use yoptascript_rs.Prelude.{
  ℕ, zero, suc, ◌≡◌, ◌≤◌, ◌<◌, refl, ap, ◌⊎◌, inl, inr, true, false, Option, none, some, List, [],
  ◌∷◌, length, arith, Bool-cases, if◌then◌else◌, ltb, leb,
}
use yoptascript_rs.Timers.Queue.{ScheduledTask, MacrotaskQueue, before, pop_loop, has_id, pop_ready}
use yoptascript_rs.Timers.Least.{IsTop, pop_top-first}

module _ {R T : Type 0} where
  -- due earlier, or due together and scheduled no later
  abbrev pub NotAfter : ScheduledTask R T → ScheduledTask R T → Type 0
  NotAfter t u = (t.deadline < u.deadline) ⊎ ((t.deadline ≡ u.deadline) × (t.seq ≤ u.seq))

  not_after : (t u : ScheduledTask R T) → before u t ≡ false → NotAfter t u
  unfolding before
  not_after t u h = ground arith

module _ {R T : Type 0} (now : ℕ) (cancelled : List ℕ) where
  abbrev pub IsLive : ScheduledTask R T → Type 0
  IsLive t = has_id cancelled t.id ≡ false

  -- `t` came from the heap, is live and due, no live task comes before it, and the live tasks but
  -- it are left
  pub record IsNext (heap left : List (ScheduledTask R T)) (t : ScheduledTask R T) : Type 0 where
    pub present : Memᴰ t heap
    pub live : IsLive t
    pub due : t.deadline ≤ now
    pub first : (u : ScheduledTask R T) → Memᴰ u heap → IsLive u → NotAfter t u
    pub rest : (u : ScheduledTask R T) → Memᴰ u heap → IsLive u → (u ≡ t) ⊎ Memᴰ u left

  -- no live task is due, and all of them are left
  pub record IsIdle (heap left : List (ScheduledTask R T)) : Type 0 where
    pub early : (u : ScheduledTask R T) → Memᴰ u heap → IsLive u → now < u.deadline
    pub kept : (u : ScheduledTask R T) → Memᴰ u heap → IsLive u → Memᴰ u left

  abbrev pub Popped :
      List (ScheduledTask R T) → List (ScheduledTask R T) → Option (ScheduledTask R T) → Type 0
  Popped heap left none = IsIdle heap left
  Popped heap left (some t) = IsNext heap left t

  live_below :
      (heap rest : List (ScheduledTask R T)) (t u : ScheduledTask R T)
      → IsTop heap t rest
      → has_id cancelled t.id ≡ true
      → Memᴰ u heap
      → IsLive u
      → Memᴰ u rest
  live_below heap rest t u top dead m live = elim (top.remain u m) [
    | inl e ↦ cc (ap (λ (w : ScheduledTask R T). has_id cancelled w.id) e)
    | inr k ↦ k
  ]

  -- a cancelled task on top makes no difference
  skip-Popped :
      (heap rest left : List (ScheduledTask R T)) (t : ScheduledTask R T)
      (o : Option (ScheduledTask R T))
      → IsTop heap t rest
      → has_id cancelled t.id ≡ true
      → Popped rest left o
      → Popped heap left o
  skip-Popped heap rest left t none top dead idle = record {
    early = λ u m live. idle.early u (live_below heap rest t u top dead m live) live;
    kept = λ u m live. idle.kept u (live_below heap rest t u top dead m live) live;
  }
  skip-Popped heap rest left t (some u) top dead next = record {
    present = top.others u next.present;
    live = next.live;
    due = next.due;
    first = λ w m live. next.first w (live_below heap rest t w top dead m live) live;
    rest = λ w m live. next.rest w (live_below heap rest t w top dead m live) live;
  }

  due-IsNext :
      (heap rest : List (ScheduledTask R T)) (t : ScheduledTask R T)
      → IsTop heap t rest
      → IsLive t
      → t.deadline ≤ now
      → IsNext heap rest t
  due-IsNext heap rest t top live due = record {
    present = top.present;
    live = live;
    due = due;
    first = λ u m l. not_after t u (top.least u m);
    rest = λ u m l. top.remain u m;
  }

  early-IsIdle :
      (heap rest : List (ScheduledTask R T)) (t : ScheduledTask R T)
      → IsTop heap t rest
      → now < t.deadline
      → IsIdle heap heap
  unfolding before
  early-IsIdle heap rest t top early = record {
    early = λ u m l. ground (arith, top.least u m);
    kept = λ u m l. m;
  }

  pop_loop-Popped :
      (n : ℕ) (heap : List (ScheduledTask R T))
      → length heap ≡ n
      → Popped heap (pop_loop n now cancelled heap).0 (pop_loop n now cancelled heap).1
  unfolding pop_loop
  pop_loop-Popped zero [] e = record { early = λ u m l. absurd (Memᴰ.not-nil m); kept = λ u m l. m }
  pop_loop-Popped zero (x ∷ xs) e = absurd (omega arith)
  pop_loop-Popped (suc n) [] e = absurd (omega arith)
  pop_loop-Popped (suc n) (x ∷ xs) e =
      let (t, rest, popped, top) = pop_top-first x xs in
      let heap = x ∷ xs in
      let fewer : length rest ≡ n = omega (arith, top.one_less) in
      elim (Bool-cases (has_id cancelled t.id)) [
        | inl dead ↦
            subst
              (λ (p : List (ScheduledTask R T) × Option (ScheduledTask R T)). Popped heap p.0 p.1)
              {x = pop_loop n now cancelled rest} (ground arith)
              (skip-Popped heap rest (pop_loop n now cancelled rest).0 t
                (pop_loop n now cancelled rest).1 top dead (pop_loop-Popped n rest fewer))
        | inr live ↦ elim (Bool-cases (leb t.deadline now)) [
          | inl due ↦
              subst
                (λ (p : List (ScheduledTask R T) × Option (ScheduledTask R T)). Popped heap p.0 p.1)
                {x = (rest, some t)} (ground arith) (due-IsNext heap rest t top live (ground arith))
          | inr early ↦
              subst
                (λ (p : List (ScheduledTask R T) × Option (ScheduledTask R T)). Popped heap p.0 p.1)
                {x = (heap, none)} (ground arith) (early-IsIdle heap rest t top (ground arith))
        ]
      ]

module _ {R T : Type 0} (now : ℕ) (q : MacrotaskQueue R T) where
  -- `pop_ready` either returns a task that is in the heap, not cancelled and due, such that no task
  -- that is not cancelled comes before it, by deadline and then by the order of scheduling, and
  -- leaves every other task that is not cancelled; or no task that is not cancelled is due, and all
  -- of those are left.
  pub pop_ready-Popped : Popped now q.cancelled q.heap (pop_ready now q).0.heap (pop_ready now q).1
  unfolding pop_ready
  pop_ready-Popped = pop_loop-Popped now q.cancelled (length q.heap) q.heap refl

-- the time it is after a sleep until a deadline: now, if that is past
abbrev pub later_of : ℕ → ℕ → ℕ
later_of now deadline = if ltb now deadline then deadline else now
