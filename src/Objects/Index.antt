-- ===== src/Objects/Index.antt =====
-- The map of the crate `indexmap`, which crates/yps-vm/src/value.rs keeps an object's properties in:
-- its operations, and what its documentation says of them, by the entries in order.
use text.Mathlib.Text.{◌==◌}
use text.Mathlib.TextEquality.{eq_iff}
use yoptascript_rs.Prelude.{
  ℕ, zero, suc, ◌≡◌, refl, false, Option, none, some, List, [], ◌∷◌, map, String, get_elem?, length,
  arith, if◌then◌else◌, Option-cases,
}
use yoptascript_rs.Prelude.Names.{lookup, insert}

-- the place of the first entry with the key
unfoldable pub position : String → List String → Option ℕ
position name [] = none
position name (key ∷ keys) =
    let later = position name keys in
    if key == name then some 0 else elim later [ none ↦ none | some i ↦ some (suc i) ]

module _ {V : Type 0} where
  abbrev pub keys : List (String × V) → List String
  keys = map (λ e. e.0)

  -- the entry with the key taken out, the others in their order
  unfoldable pub without : String → List (String × V) → List (String × V)
  without name [] = []
  without name (slot ∷ slots) =
      let later = without name slots in if slot.0 == name then slots else slot ∷ later

  -- the value at a place replaced, if there is one
  unfoldable pub overwrite : ℕ → V → List (String × V) → List (String × V)
  overwrite i v [] = []
  overwrite zero v (slot ∷ slots) = (slot.0, v) ∷ slots
  overwrite (suc i) v (slot ∷ slots) = slot ∷ overwrite i v slots

pub record IndexMap (M V : Type 0) : Type 0 where
  pub entries : M → List (String × V)
  pub new_map : M
  pub get : M → String → Option V
  pub insert_full : M → String → V → M × Option V
  pub shift_remove : M → String → M × Option V
  pub get_index_of : M → String → Option ℕ
  pub get_index : M → ℕ → Option (String × V)
  pub set_index : M → ℕ → V → M
  pub count : M → ℕ
  pub clear : M → M
  pub new_map_entries : entries new_map ≡ []
  pub get_entries : (m : M) (k : String) → get m k ≡ lookup k (entries m)
  pub insert_entries :
      (m : M) (k : String) (v : V) → entries (insert_full m k v).0 ≡ insert k v (entries m)
  pub insert_old : (m : M) (k : String) (v : V) → (insert_full m k v).1 ≡ lookup k (entries m)
  pub remove_entries : (m : M) (k : String) → entries (shift_remove m k).0 ≡ without k (entries m)
  pub remove_old : (m : M) (k : String) → (shift_remove m k).1 ≡ lookup k (entries m)
  pub index_entries : (m : M) (k : String) → get_index_of m k ≡ position k (keys (entries m))
  pub at_entries : (m : M) (i : ℕ) → get_index m i ≡ get_elem? (entries m) i
  pub set_entries : (m : M) (i : ℕ) (v : V) → entries (set_index m i v) ≡ overwrite i v (entries m)
  pub count_entries : (m : M) → count m ≡ length (entries m)
  pub clear_entries : (m : M) → entries (clear m) ≡ []

module _ {V : Type 0} where
  pub keys-overwrite : (i : ℕ) (v : V) (es : List (String × V)) → keys (overwrite i v es) ≡ keys es
  unfolding overwrite
  keys-overwrite i v [] = refl
  keys-overwrite zero v (slot ∷ slots) = refl
  keys-overwrite (suc i) v (slot ∷ slots) = cc (keys-overwrite i v slots)

  pub keys-insert :
      (k : String) (v w : V) (es : List (String × V))
      → lookup k es ≡ some w
      → keys (insert k v es) ≡ keys es
  unfolding lookup insert
  keys-insert k v w [] e = cc
  keys-insert k v w (slot ∷ slots) e = ground (arith, keys-insert k v w slots)

  pub without_missing :
      (k : String) (es : List (String × V)) → lookup k es ≡ none → without k es ≡ es
  unfolding lookup without
  without_missing k [] e = refl
  without_missing k (slot ∷ slots) e =
      ground (arith, eq_iff slot.0 k, eq_iff k slot.0, without_missing k slots)

  pub position_missing :
      (k : String) (es : List (String × V)) → lookup k es ≡ none → position k (keys es) ≡ none
  unfolding lookup position
  position_missing k [] e = refl
  position_missing k (slot ∷ slots) e =
      ground (arith, eq_iff slot.0 k, eq_iff k slot.0, position_missing k slots)

  pub lookup_missing :
      (k : String) (es : List (String × V)) → position k (keys es) ≡ none → lookup k es ≡ none
  unfolding lookup position
  lookup_missing k [] e = refl
  lookup_missing k (slot ∷ slots) e =
      ground (arith, eq_iff slot.0 k, eq_iff k slot.0, lookup_missing k slots)

  -- the place of a key holds its value, and writing there is writing under the key
  pub at_position :
      (k : String) (i : ℕ) (es : List (String × V))
      → position k (keys es) ≡ some i
      → (v : V) × (lookup k es ≡ some v) × (get_elem? es i ≡ some (k, v))
  unfolding lookup position
  at_position k i [] e = cc
  at_position k zero (slot ∷ slots) e =
      let same : slot.0 ≡ k =
        ground (arith, eq_iff slot.0 k, Option-cases (position k (keys slots))) in
      (slot.1, ground (arith, eq_iff k slot.0), ground arith)
  at_position k (suc i) (slot ∷ slots) e =
      let later : position k (keys slots) ≡ some i =
        ground (arith, Option-cases (position k (keys slots))) in
      let other : (slot.0 == k) ≡ false = ground (arith, Option-cases (position k (keys slots))) in
      let (v, found, here) = at_position k i slots later in
      (v, ground (arith, eq_iff k slot.0, eq_iff slot.0 k), here)

  pub overwrite-position :
      (k : String) (i : ℕ) (v : V) (es : List (String × V))
      → position k (keys es) ≡ some i
      → overwrite i v es ≡ insert k v es
  unfolding insert position overwrite
  overwrite-position k i v [] e = cc
  overwrite-position k zero v (slot ∷ slots) e = ground (arith, eq_iff slot.0 k, eq_iff k slot.0)
  overwrite-position k (suc i) v (slot ∷ slots) e =
      ground (arith, eq_iff slot.0 k, eq_iff k slot.0, overwrite-position k i v slots)
