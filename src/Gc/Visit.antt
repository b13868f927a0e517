-- ===== src/Gc/Visit.antt =====
-- One round of the marker of crates/yps-vm/src/gc.rs: what it marks and what waits after it.
use mathlib.Core.List.{Memᴰ}
use mathlib.Core.List.Memᴰ
use mathlib.Core.Logic.{⊎_elim}
use yoptascript_rs.Prelude.{
  ap, sym, ◌≡◌, refl, ◌∙◌, sym, ◌↔◌, ◌⊎◌, inl, inr, Bool, true, false, Option, none, some, List, [],
  ◌∷◌, ◌||◌, arith, Bool-cases, Memᴰ-cons,
}
use yoptascript_rs.Gc.Mark.{Work, Marker, push_all}
use yoptascript_rs.Gc.Reach.{objects, arrays, upvalues, seen, Key}
use yoptascript_rs.Gc.Reach.{marked, mark, enter, same_key, eq_of_same_key, marked-mark}

pub mem-push_all :
    (ws work : List Work) (u : Work) → Memᴰ u (push_all ws work) ↔ (Memᴰ u ws ⊎ Memᴰ u work)
unfolding push_all
mem-push_all [] work u = (inr, ⊎_elim (λ m. absurd (Memᴰ.not-nil m)) (λ m. m))
mem-push_all (w ∷ ws) work u =
    ground (arith, mem-push_all ws (w ∷ work) u, Memᴰ-cons u w work, Memᴰ-cons u w ws)

pub marked-pushing :
    (m : Marker) (ws : List Work) (k : Key) → marked (record m { work = ws }) k ≡ marked m k
unfolding marked
marked-pushing m ws (objects, a) = refl
marked-pushing m ws (arrays, a) = refl
marked-pushing m ws (upvalues, a) = refl
marked-pushing m ws (seen, a) = refl

-- marking and pushing marks the key and keeps the other marks
pub marked-entered :
    (k l : Key) (m : Marker) (ws : List Work)
    → marked (record (mark k m) { work = ws }) l ≡ (same_key k l || marked m l)
marked-entered k l m ws = marked-pushing (mark k m) ws l ∙ marked-mark k l m

pub mark-work : (k : Key) (m : Marker) → (mark k m).work ≡ m.work
unfolding mark
mark-work (objects, a) m = refl
mark-work (arrays, a) m = refl
mark-work (upvalues, a) m = refl
mark-work (seen, a) m = refl

pub or-true : (b : Bool) → (b || true) ≡ true
or-true true = refl
or-true false = refl

abbrev pub also : Option Key → Key → Bool
also none l = false
also (some k) l = same_key k l

pub enter-marked :
    (o : Option Key) (ws : List Work) (m : Marker) (l : Key)
    → marked (enter o ws m) l ≡ (also o l || marked m l)
enter-marked none ws m l = marked-pushing m _ l
enter-marked (some k) ws m l = elim (Bool-cases (marked m k)) [
  | inl old ↦ rw old (elim (Bool-cases (same_key k l)) [
    | inl same ↦ rw same (ap (marked m) (sym (eq_of_same_key k l same)) ∙ old)
    | inr other ↦ rw other
  ])
  | inr new ↦ rw new (marked-entered k l m _)
]

pub enter-keeps :
    (o : Option Key) (ws : List Work) (m : Marker) (u : Work)
    → Memᴰ u m.work
    → Memᴰ u (enter o ws m).work
enter-keeps none ws m u h = (mem-push_all ws m.work u).1 (inr h)
enter-keeps (some k) ws m u h = elim (Bool-cases (marked m k)) [
  | inl old ↦ rw old h
  | inr new ↦ rw (new, mark-work k m) ((mem-push_all ws m.work u).1 (inr h))
]

pub enter-pushes :
    (o : Option Key) (ws : List Work) (m : Marker) (u : Work)
    → ((k : Key) → o ≡ some k → marked m k ≡ false)
    → Memᴰ u ws
    → Memᴰ u (enter o ws m).work
enter-pushes none ws m u fresh h = (mem-push_all ws m.work u).1 (inl h)
enter-pushes (some k) ws m u fresh h =
    rw (fresh k refl, mark-work k m) ((mem-push_all ws m.work u).1 (inl h))
