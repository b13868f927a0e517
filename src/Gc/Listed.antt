-- ===== src/Gc/Listed.antt =====
-- What holds of all work that the functions of crates/yps-vm/src/gc.rs list: lemmas on appended and
-- mapped lists.
use mathlib.Core.List.{Memᴰ}
use mathlib.Core.List.Memᴰ
use mathlib.Core.Path.{subst}
use mathlib.Core.Logic.{⊎_elim}
use yoptascript_rs.Prelude.{◌≡◌, refl, sym, Option, none, some, List, [], ◌∷◌, ◌++◌, map}
use yoptascript_rs.Gc.Mark.{Work, optional}

pub record AllListed (P : Work → Type 0) (ws : List Work) : Type 0 where
  pub each : (w : Work) → Memᴰ w ws → P w

module _ {P : Work → Type 0} where
  pub nil-AllListed : AllListed P []
  nil-AllListed = record { each = λ w h. absurd (Memᴰ.not-nil h) }

  pub cons-AllListed : {u : Work} {ws : List Work} → P u → AllListed P ws → AllListed P (u ∷ ws)
  cons-AllListed {u} {ws} first rest = record {
    each = λ w h. ⊎_elim (λ e. subst P (sym e) first) (rest.each w) (Memᴰ.cases_cons h);
  }

  pub append-AllListed :
      (us : List Work) {ws : List Work} → AllListed P us → AllListed P ws → AllListed P (us ++ ws)
  append-AllListed us left right = record {
    each = λ w h. ⊎_elim (left.each w) (right.each w) (Memᴰ.append_cases us h);
  }

  pub map-AllListed :
      {A : Type 0} (f : A → Work) (xs : List A)
      → ((x : A) → Memᴰ x xs → P (f x))
      → AllListed P (map f xs)
  map-AllListed f xs all = record {
    each = λ w h. let (x, m, e) = Memᴰ.of_map f xs h in subst P e (all x m);
  }

  pub optional-AllListed :
      {A : Type 0} (f : A → Work) (o : Option A)
      → ((x : A) → o ≡ some x → P (f x))
      → AllListed P (optional f o)
  optional-AllListed f none all = nil-AllListed
  optional-AllListed f (some x) all = cons-AllListed (all x refl) nil-AllListed

pub mem-optional :
    {A : Type 0} (f : A → Work) {o : Option A} {x : A} → o ≡ some x → Memᴰ (f x) (optional f o)
mem-optional f {o} {x} e = subst (λ p. Memᴰ (f x) (optional f p)) (sym e) (Memᴰ.head refl)
