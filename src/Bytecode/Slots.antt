-- ===== src/Bytecode/Slots.antt =====
-- Local variables on the stack of the machine: the place that the compiler resolves a name to holds
-- the value of the variable.
use yoptascript_rs.Prelude.{
  ℕ, suc, ◌%◌, ◌^◌, ◌<◌, ◌≤◌, ◌≡◌, inl, inr, refl, ap, Bool-cases, none, some, List, [], ◌∷◌, ◌++◌,
  map, if◌then◌else◌, length, arith, length-append,
}
use yoptascript_rs.Bytecode.Values.{Text, Value}
use yoptascript_rs.Bytecode.Machine.{from_bottom, set_from_bottom}
use yoptascript_rs.Bytecode.Locals.{
  Local, answers, resolve_local, Frame, values, locals_of, find, replace,
}

length-map : {A B : Type 0} (f : A → B) (xs : List A) → length (map f xs) ≡ length xs
length-map f [] = refl
length-map f (x ∷ xs) = ap suc (length-map f xs)

-- values above do not change a place counted from the bottom
pub from_bottom-under :
    {A : Type 0} (above s : List A) (slot : ℕ)
    → slot < length s
    → from_bottom (above ++ s) slot ≡ from_bottom s slot
unfolding from_bottom
from_bottom-under [] s slot h = refl
from_bottom-under (v ∷ above) s slot h =
    ground (arith, from_bottom-under above s slot h, length-append above s)

pub set_from_bottom-under :
    {A : Type 0} (above s : List A) (slot : ℕ) (w : A)
    → slot < length s
    → set_from_bottom (above ++ s) slot w ≡ above ++ set_from_bottom s slot w
unfolding set_from_bottom
set_from_bottom-under [] s slot w h = refl
set_from_bottom-under (v ∷ above) s slot w h =
    ground (arith, set_from_bottom-under above s slot w h, length-append above s)

module _ {F : Type 0} where
  -- a local variable of the compiler with its value
  pub record Found (frame : Frame F) (name : Text) (slot : ℕ) (local : Local) : Type 0 where
    pub value : Value F
    pub found : find frame name ≡ some (local, value)
    pub inside : slot < length (values frame)
    pub holds : from_bottom (values frame) slot ≡ some value
    pub writes :
        (w : Value F) → values (replace frame name w) ≡ set_from_bottom (values frame) slot w

  pub locals_of-replace :
      (frame : Frame F) (name : Text) (w : Value F)
      → locals_of (replace frame name w) ≡ locals_of frame
  unfolding replace
  locals_of-replace [] name w = refl
  locals_of-replace (slot ∷ frame) name w = ground (arith, locals_of-replace frame name w)

  pub find-resolve_local :
      (frame : Frame F) (name : Text) (slot : ℕ) (local : Local)
      → resolve_local (locals_of frame) name ≡ some (slot, local)
      → length (locals_of frame) ≤ 2 ^ 32
      → Found frame name slot local
  unfolding resolve_local find from_bottom set_from_bottom replace
  find-resolve_local [] name slot local h short = absurd (cc)
  find-resolve_local (e ∷ frame) name slot local h short =
      let size = length-map (λ x. x.0) frame in
      let size₂ = length-map (λ x. x.1) frame in
      let step : (if answers name e.0 (length frame)
            then some (length frame % 2 ^ 32, e.0)
            else resolve_local (locals_of frame) name)
          ≡ some (slot, local) =
        rw size at h in
      let index : length frame % 2 ^ 32 ≡ length frame = omega (arith, size, short) in
      elim (Bool-cases (answers name e.0 (length frame))) [
        | inl is ↦ record {
          value = e.1;
          found = ground (arith, is, step, index);
          inside = ground (arith, is, step, index, size₂);
          holds = ground (arith, is, step, index, size₂);
          writes = λ w. ground (arith, is, step, index, size₂);
        }
        | inr isnt ↦
            let later =
              find-resolve_local frame name slot local (ground (arith, isnt, step))
                (omega (arith, short)) in
            record {
              value = later.value;
              found = ground (arith, isnt, later.found);
              inside = omega (arith, later.inside);
              holds = ground (arith, isnt, later.inside, later.holds);
              writes = λ w. ground (arith, isnt, later.inside, later.writes w);
            }
      ]

  pub find-none :
      (frame : Frame F) (name : Text)
      → resolve_local (locals_of frame) name ≡ none
      → find frame name ≡ none
  unfolding resolve_local find
  find-none [] name h = refl
  find-none (e ∷ frame) name h = ground (arith, find-none frame name, length-map (λ x. x.0) frame)
