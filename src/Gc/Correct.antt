-- ===== src/Gc/Correct.antt =====
-- The marker of crates/yps-vm/src/gc.rs marks what is reachable from the roots, and nothing else.
use mathlib.Core.List.{Memᴰ}
use mathlib.Core.List.Memᴰ
use mathlib.Core.Path.{subst}
use yoptascript_rs.Prelude.{
  ℕ, ap, sym, zero, suc, ◌≡◌, refl, ◌∙◌, sym, ◌↔◌, inl, inr, true, false, Option, none, some, List,
  [], ◌∷◌, ◌||◌, arith, Option-cases, Bool-cases, List-cases,
}
use yoptascript_rs.Gc.Heap.{Heap}
use yoptascript_rs.Gc.Mark.{Work, Marker, has, pushing, push_all, visit}
use yoptascript_rs.Gc.Reach.{objects, arrays, upvalues, seen, Key, key, children, Reach, root, step}
use yoptascript_rs.Gc.Mark.{run, empty_marker}
use yoptascript_rs.Gc.Reach.{
  marks, marked, enter, same_key, eq_of_same_key, same_key_refl, visit-eq,
}
use yoptascript_rs.Gc.Typed.{IsTyped, Reach-fits, children-eq}
use yoptascript_rs.Gc.Visit.{
  mem-push_all, marked-pushing, marked-entered, mark-work, or-true, also, enter-marked, enter-keeps,
  enter-pushes,
}

module _ (heap : Heap) (roots : List Work) where
  -- What waits is reachable, and so is what was marked.
  record IsSound (m : Marker) : Type 0 where
    waiting : (w : Work) → Memᴰ w m.work → Reach heap roots w
    found : (k : Key) → marked m k ≡ true → (w : Work) × Reach heap roots w × (key w ≡ some k)

  visit-IsSound :
      (w : Work) (rest : List Work) (m : Marker)
      → m.work ≡ w ∷ rest
      → IsSound m
      → IsSound (visit heap w (record m { work = rest }))
  visit-IsSound w rest m e sound = rw (visit-eq heap w (record m { work = rest })) (go (key w) refl)
    where
      reached : Reach heap roots w
      reached = sound.waiting w (rw e (Memᴰ.head refl))

      pushed : (u : Work) → Memᴰ u (push_all (children heap w) rest) → Reach heap roots u
      pushed u m' = elim ((mem-push_all (children heap w) rest u).0 m') [
        | inl child ↦ step reached child
        | inr old ↦ sound.waiting u (rw e (Memᴰ.tail old))
      ]

      m₀ : Marker
      m₀ = record m { work = rest }

      go : (o : Option Key) → key w ≡ o → IsSound (enter o (children heap w) m₀)
      go none q = record {
        waiting = pushed;
        found = λ k h. sound.found k (sym (marked-pushing m _ k) ∙ h);
      }
      go (some k) q = elim (Bool-cases (marked m₀ k)) [
        | inl old ↦ rw old record {
          waiting = λ u m'. sound.waiting u (rw e (Memᴰ.tail m'));
          found = λ l h. sound.found l (sym (marked-pushing m rest l) ∙ h);
        }
        | inr new ↦ rw new record {
          waiting = λ u m'. pushed u (rw (mark-work k m₀) at m');
          found = λ l h.
              let either : (same_key k l || marked m₀ l) ≡ true =
                sym (marked-entered k l m₀ _) ∙ h in
              elim (Bool-cases (same_key k l)) [
                | inl same ↦ (w, reached, q ∙ ap some (eq_of_same_key k l same))
                | inr other ↦ sound.found l (sym (marked-pushing m rest l) ∙ (rw other at either))
              ];
        }
      ]

  -- `w` waits, or was visited, or all that it would push is accounted for.
  data Covered (m : Marker) : Work → Type 0 where
    waits : {w : Work} → Memᴰ w m.work → Covered m w
    visited : {w : Work} (k : Key) → key w ≡ some k → marked m k ≡ true → Covered m w
    unfolds :
        {w : Work}
        → key w ≡ none
        → ((u : Work) → Memᴰ u (children heap w) → Covered m u)
        → Covered m w

  record IsComplete (m : Marker) : Type 0 where
    from_roots : (w : Work) → Memᴰ w roots → Covered m w
    closed_under :
        (w : Work) (k : Key)
        → Reach heap roots w
        → key w ≡ some k
        → marked m k ≡ true
        → (u : Work) → Memᴰ u (children heap w)
        → Covered m u

  -- the marker after a visit: what it has marked and what waits
  module _ (w : Work) (rest : List Work) (m : Marker) (top : m.work ≡ w ∷ rest) where
    abbrev after : Marker
    after = enter (key w) (children heap w) (record m { work = rest })

    keeps_marks : (k : Key) → marked m k ≡ true → marked after k ≡ true
    keeps_marks k h =
        enter-marked (key w) (children heap w) (record m { work = rest }) k
        ∙ rw (marked-pushing m rest k, h) (or-true (also (key w) k))

    keeps_waiting : (u : Work) → Memᴰ u rest → Memᴰ u after.work
    keeps_waiting u h = enter-keeps (key w) (children heap w) (record m { work = rest }) u h

    covers_top : Covered after w
    covers_top = elim (Option-cases (key w)) [
      | inl keyless ↦ unfolds keyless λ u h. waits (
          enter-pushes (key w) (children heap w) (record m { work = rest }) u (λ k q. absurd (cc))
            h)
      | inr (k, q) ↦ visited k q (
          enter-marked (key w) (children heap w) (record m { work = rest }) k
          ∙ rw (q, same_key_refl k) refl)
    ]

    covers : (u : Work) → Covered m u → Covered after u
    covers u (waits h) = elim (Memᴰ.cases_cons (rw top at h)) [
      | inl e ↦ rw e covers_top
      | inr old ↦ waits (keeps_waiting u old)
    ]
    covers u (visited k q h) = visited k q (keeps_marks k h)
    covers u (unfolds q below) = unfolds q (λ v h. covers v (below v h))

    is_key : (k : Key) → marked m k ≡ false → marked after k ≡ true → key w ≡ some k
    is_key k new h = elim (Option-cases (key w)) [
      | inl keyless ↦ absurd (
          ground (
            arith,
            enter-marked (key w) (children heap w) (record m { work = rest }) k,
            marked-pushing m rest k,
          ))
      | inr (l, q) ↦
          let same : same_key l k ≡ true = ground (
            arith,
            enter-marked (key w) (children heap w) (record m { work = rest }) k,
            marked-pushing m rest k,
          ) in
          q ∙ ap some (eq_of_same_key l k same)
    ]

    newly_marked :
        (k : Key)
        → marked m k ≡ false
        → key w ≡ some k
        → (u : Work) → Memᴰ u (children heap w)
        → Covered after u
    newly_marked k new q u h = waits (
        enter-pushes (key w) (children heap w) (record m { work = rest }) u
          (λ l e. let same : l ≡ k = cc in marked-pushing m rest l ∙ ap (marked m) same ∙ new) h)

  visit-IsComplete :
      (typed : IsTyped heap roots) (w : Work) (rest : List Work) (m : Marker)
      → m.work ≡ w ∷ rest
      → IsSound m
      → IsComplete m
      → IsComplete (visit heap w (record m { work = rest }))
  visit-IsComplete typed w rest m top sound complete =
      let reached = sound.waiting w (rw top (Memᴰ.head refl)) in
      rw (visit-eq heap w (record m { work = rest })) record {
        from_roots = λ u h. covers w rest m top u (complete.from_roots u h);
        closed_under = λ v k r q h u child. elim (Bool-cases (marked m k)) [
          | inl old ↦ covers w rest m top u (complete.closed_under v k r q old u child)
          | inr new ↦
              let q' = is_key w rest m top k new h in
              newly_marked w rest m top k new q' u (
                subst (Memᴰ u)
                  (children-eq heap v k.0 k.1 (Reach-fits heap roots typed r) q
                    ∙ sym (children-eq heap w k.0 k.1 (Reach-fits heap roots typed reached) q'))
                  child)
        ];
      }

  -- Rounds keep both invariants; at the end nothing waits.
  run-keeps :
      (typed : IsTyped heap roots) (n : ℕ) (m m' : Marker)
      → IsSound m
      → IsComplete m
      → run n heap m ≡ some m'
      → IsSound m' × IsComplete m' × (m'.work ≡ [])
  unfolding run
  run-keeps typed zero m m' sound complete e = cc
  run-keeps typed (suc n) m m' sound complete e = elim (List-cases m.work) [
    | inl empty ↦
        let same : m ≡ m' = ground arith in
        (subst IsSound same sound, subst IsComplete same complete, cc)
    | inr (w, rest, top) ↦
        run-keeps typed n (visit heap w (record m { work = rest })) m'
          (visit-IsSound w rest m top sound) (visit-IsComplete typed w rest m top sound complete)
          (ground arith)
  ]

  -- with nothing waiting, what is covered is marked, and so is all that is reachable
  reached-Covered :
      (m : Marker) (w : Work) → IsComplete m → m.work ≡ [] → Reach heap roots w → Covered m w
  reached-Covered m w complete empty (root h) = complete.from_roots w h
  reached-Covered m w complete empty (step {w = v} r h) =
      elim (reached-Covered m v complete empty r) [
        | waits waiting ↦ absurd (Memᴰ.not-nil (subst (Memᴰ v) empty waiting))
        | visited k q marks ↦ complete.closed_under v k r q marks w h
        | unfolds q below ↦ below w h
      ]

  Covered-marked :
      (m : Marker) (w : Work) (k : Key)
      → m.work ≡ []
      → key w ≡ some k
      → Covered m w
      → marked m k ≡ true
  Covered-marked m w k empty q (waits waiting) =
      absurd (Memᴰ.not-nil (subst (Memᴰ w) empty waiting))
  Covered-marked m w k empty q (visited l p marks) =
      let same : l ≡ k = cc in subst (λ j. marked m j ≡ true) same marks
  Covered-marked m w k empty q (unfolds keyless below) = cc

  start : Marker
  start = pushing roots empty_marker

  start-unmarked : (k : Key) → marked start k ≡ false
  unfolding start marked has
  start-unmarked (objects, a) = refl
  start-unmarked (arrays, a) = refl
  start-unmarked (upvalues, a) = refl
  start-unmarked (seen, a) = refl

  start-IsSound : IsSound start
  unfolding start
  start-IsSound = record {
    waiting = λ w h. root (elim ((mem-push_all roots [] w).0 h) [
      | inl m ↦ m
      | inr none_left ↦ absurd (Memᴰ.not-nil none_left)
    ]);
    found = λ k h. cc (start-unmarked k);
  }

  start-IsComplete : IsComplete start
  unfolding start
  start-IsComplete = record {
    from_roots = λ w h. waits ((mem-push_all roots [] w).1 (inl h));
    closed_under = λ w k r q h. cc (start-unmarked k);
  }

  -- When the marker has run to its end on a heap whose references are of the right types, a cell is
  -- marked exactly if a walk from the roots reaches it.
  pub run_correct :
      (n : ℕ) (m : Marker) (k : Key)
      → IsTyped heap roots
      → run n heap (pushing roots empty_marker) ≡ some m
      → (marked m k ≡ true) ↔ ((w : Work) × Reach heap roots w × (key w ≡ some k))
  unfolding start
  run_correct n m k typed e =
      let (sound, complete, empty) = run-keeps typed n start m start-IsSound start-IsComplete e in
      (
        sound.found k,
        λ (w, r, q). Covered-marked m w k empty q (reached-Covered m w complete empty r),
      )
