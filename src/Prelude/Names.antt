-- ===== src/Prelude/Names.antt =====
-- `HashMap<String, V>` as an association list and `HashSet<String>` as a list without repetitions.
use text.Mathlib.Text.{◌==◌}
use text.Mathlib.TextEquality.{eq_iff}
use Prim.Native.String.{String}
use mathlib.Core.Path.{◌≡◌}
use mathlib.Core.Bool.{Bool, false, ◌||◌}
use mathlib.Core.Option.{Option, none, some}
use mathlib.Core.List.{List, [], ◌∷◌}
use native.Mathlib.Omega.{arith}
use yoptascript_rs.Prelude.Tests.{if◌then◌else◌}

module _ {V : Type 0} where
  -- `HashMap::insert`, which keeps the key that is there
  unfoldable pub insert : String → V → List (String × V) → List (String × V)
  insert name value [] = (name, value) ∷ []
  insert name value (slot ∷ slots) =
      let later = insert name value slots in
      if name == slot.0 then (slot.0, value) ∷ slots else slot ∷ later

  -- `HashMap::get`
  unfoldable pub lookup : String → List (String × V) → Option V
  lookup name [] = none
  lookup name (slot ∷ slots) = if name == slot.0 then some slot.1 else lookup name slots

  -- after an insertion the name has the value, and no other name is touched
  pub lookup-insert :
      (name other : String) (value : V) (slots : List (String × V))
      → lookup other (insert name value slots)
        ≡ (if name == other then some value else lookup other slots)
  unfolding insert lookup
  lookup-insert name other value [] = ground (arith, eq_iff name other, eq_iff other name)
  lookup-insert name other value (slot ∷ slots) = ground (
    arith,
    lookup-insert name other value slots,
    eq_iff other slot.0,
    eq_iff name slot.0,
    eq_iff name other,
  )

-- `HashSet::contains`
unfoldable pub contains : List String → String → Bool
contains [] k = false
contains (j ∷ s) k = j == k || contains s k

-- `HashSet::insert`
unfoldable pub add : String → List String → List String
unfolding contains
add k s = if contains s k then s else k ∷ s

-- `HashSet::remove`
unfoldable pub remove : String → List String → List String
remove k [] = []
remove k (j ∷ s) = let rest = remove k s in if j == k then rest else j ∷ rest

pub contains-add :
    (k j : String) (s : List String) → contains (add k s) j ≡ (k == j || contains s j)
unfolding add
contains-add k j s = ground (arith, eq_iff k j)

pub contains-remove :
    (k j : String) (s : List String)
    → contains (remove k s) j ≡ (if k == j then false else contains s j)
unfolding contains remove
contains-remove k j [] = ground arith
contains-remove k j (i ∷ s) =
    ground (arith, eq_iff k j, eq_iff i k, eq_iff i j, contains-remove k j s)
