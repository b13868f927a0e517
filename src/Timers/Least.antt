-- ===== src/Timers/Least.antt =====
-- What the heap of crates/yps-interpreter/src/interpreter/event_loop.rs pops: the task that is due
-- first, and of those with one deadline the one that was scheduled first.
use mathlib.Core.List.{Memᴰ}
use mathlib.Core.List.Memᴰ
use mathlib.Core.Path.{subst}
use yoptascript_rs.Prelude.{
  suc, ◌≡◌, refl, sym, ap, ◌⊎◌, inl, inr, true, false, some, List, [], ◌∷◌, length, arith,
  Bool-cases,
}
use yoptascript_rs.Timers.Queue.{ScheduledTask, before, pop_top}

module _ {R T : Type 0} where
  before_irrefl : (t : ScheduledTask R T) → before t t ≡ false
  unfolding before
  before_irrefl t = ground arith

  -- not later than a task that is not later than another
  before_trans :
      (t u w : ScheduledTask R T) → before u t ≡ false → before w u ≡ false → before w t ≡ false
  unfolding before
  before_trans t u w h k = ground arith

  before_asym : (t u : ScheduledTask R T) → before u t ≡ true → before t u ≡ false
  unfolding before
  before_asym t u h = ground arith

  -- `t` is the first of the heap, and `rest` the others
  pub record IsTop (heap : List (ScheduledTask R T)) (t : ScheduledTask R T)
      (rest : List (ScheduledTask R T)) : Type 0 where
    pub present : Memᴰ t heap
    pub least : (u : ScheduledTask R T) → Memᴰ u heap → before u t ≡ false
    pub others : (u : ScheduledTask R T) → Memᴰ u rest → Memᴰ u heap
    pub remain : (u : ScheduledTask R T) → Memᴰ u heap → (u ≡ t) ⊎ Memᴰ u rest
    pub one_less : length heap ≡ suc (length rest)

  single-IsTop : (x : ScheduledTask R T) → IsTop (x ∷ []) x []
  single-IsTop x = record {
    present = Memᴰ.head refl;
    least = λ u m. subst (λ w. before w x ≡ false) (sym (Memᴰ.eq_of_singleton m)) (before_irrefl x);
    others = λ u m. absurd (Memᴰ.not-nil m);
    remain = λ u m. inl (Memᴰ.eq_of_singleton m);
    one_less = refl;
  }

  -- a task in front of the others that is later than their first
  passed-IsTop :
      (x u : ScheduledTask R T) (ts left : List (ScheduledTask R T))
      → IsTop ts u left
      → before u x ≡ true
      → IsTop (x ∷ ts) u (x ∷ left)
  passed-IsTop x u ts left top earlier = record {
    present = Memᴰ.tail top.present;
    least = λ w m. elim (Memᴰ.cases_cons m) [
      | inl e ↦ subst (λ z. before z u ≡ false) (sym e) (before_asym x u earlier)
      | inr later ↦ top.least w later
    ];
    others = λ w m. elim (Memᴰ.cases_cons m) [
      | inl e ↦ Memᴰ.head e
      | inr later ↦ Memᴰ.tail (top.others w later)
    ];
    remain = λ w m. elim (Memᴰ.cases_cons m) [
      | inl e ↦ inr (Memᴰ.head e)
      | inr later ↦ elim (top.remain w later) [ inl e ↦ inl e | inr k ↦ inr (Memᴰ.tail k) ]
    ];
    one_less = ap suc top.one_less;
  }

  -- a task in front of the others that is not later than their first
  kept-IsTop :
      (x u : ScheduledTask R T) (ts left : List (ScheduledTask R T))
      → IsTop ts u left
      → before u x ≡ false
      → IsTop (x ∷ ts) x ts
  kept-IsTop x u ts left top later = record {
    present = Memᴰ.head refl;
    least = λ w m. elim (Memᴰ.cases_cons m) [
      | inl e ↦ subst (λ z. before z x ≡ false) (sym e) (before_irrefl x)
      | inr k ↦ before_trans x u w later (top.least w k)
    ];
    others = λ w m. Memᴰ.tail m;
    remain = λ w m. Memᴰ.cases_cons m;
    one_less = refl;
  }

  pub pop_top-first :
      (x : ScheduledTask R T) (xs : List (ScheduledTask R T))
      → (t : ScheduledTask R T) × (rest : List (ScheduledTask R T)) × (pop_top (x ∷ xs)
          ≡ some (t, rest))
        × IsTop (x ∷ xs) t rest
  unfolding pop_top
  pop_top-first x [] = (x, [], refl, single-IsTop x)
  pop_top-first x (y ∷ ys) =
      let (u, left, popped, top) = pop_top-first y ys in
      elim (Bool-cases (before u x)) [
        | inl earlier ↦ (u, x ∷ left, ground arith, passed-IsTop x u (y ∷ ys) left top earlier)
        | inr later ↦ (x, y ∷ ys, ground arith, kept-IsTop x u (y ∷ ys) left top later)
      ]
