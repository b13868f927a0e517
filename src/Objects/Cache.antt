-- ===== src/Objects/Cache.antt =====
-- Reading and writing a property of an object in the machine of crates/yps-vm/src/vm.rs: the plain
-- path (`get_property`, `set_property`) and the inline cache of an instruction. A call of an
-- accessor runs code, so it is returned as a request. `as_function` and `as_class` say which values
-- are functions and classes.
use yoptascript_rs.Prelude.{
  ℕ, Bool, true, false, not, ◌&&◌, ◌==◌, Option, none, some, String, if◌then◌else◌, ltb, ◌%◌, ◌^◌,
}
use text.Mathlib.Text.{◌==◌ as same_text}
use yoptascript_rs.Gc.Heap.{Heap}
use yoptascript_rs.Objects.Index.{IndexMap}
use yoptascript_rs.Objects.Map.{
  ObjMap, is_some, getter_key, setter_key, get, insert, index_of, value_at, overwrite_at, len,
  can_write_key,
}
use yoptascript_rs.Objects.Classes.{find_getter, find_setter, find_method}

pub data InlineCache : Type 0 where
  empty : InlineCache
  obj_prop : ℕ → ℕ → ℕ → InlineCache

pub data Read (V : Type 0) : Type 0 where
  plain : V → Read V
  call_getter : ℕ → Option ℕ → Read V
  class_itself method_of : ℕ → Read V
  absent : Read V

pub data Written (M : Type 0) : Type 0 where
  stored : ObjMap M → Written M
  call_setter : ℕ → Option ℕ → Written M
  refused : Written M

-- the keys of the machine's own entries and of the constructor
abbrev pub class_tag : String
class_tag = "__class__"

abbrev pub is_constructor : String → Bool
is_constructor name = if same_text name "конструктор" then true else same_text name "constructor"

abbrev pub bind : {A B : Type 0} → Option A → (A → Option B) → Option B
bind none f = none
bind (some a) f = f a

-- whether the class of the object has a setter for the name
abbrev pub class_sets : Heap → String → Option ℕ → Option Bool
class_sets heap name none = some false
class_sets heap name (some cls) = elim (find_setter heap cls name) [
  | none ↦ none
  | some found ↦ some (is_some found)
]

-- what becomes of a slot, by whether the class has a setter
abbrev pub unless_set : InlineCache → InlineCache → Option Bool → Option InlineCache
unless_set slot done none = none
unless_set slot done (some true) = some slot
unless_set slot done (some false) = some done

-- a setter or getter of the object itself comes first
abbrev pub first_read : {V : Type 0} → Option ℕ → Option (Read V) → Option (Read V)
first_read none rest = rest
first_read (some getter) rest = some (call_getter getter none)

abbrev pub first_write : {M : Type 0} → Option ℕ → Option (Written M) → Option (Written M)
first_write none rest = rest
first_write (some setter) rest = some (call_setter setter none)

module _ {M V : Type 0} (lib : IndexMap M V) where
  abbrev pub filled : ℕ → ObjMap M → InlineCache → Option ℕ → InlineCache
  filled ptr o slot none = slot
  filled ptr o slot (some i) = obj_prop ptr o.generation (i % 2 ^ 32)

  unfoldable pub fill_get : ℕ → ObjMap M → String → InlineCache → InlineCache
  unfolding get getter_key index_of
  fill_get ptr o name slot =
      if is_some (get lib o (getter_key name))
      then slot
      else filled ptr o slot (index_of lib o name)

  unfoldable pub cached_get : ℕ → ObjMap M → InlineCache → Option V
  unfolding value_at
  cached_get ptr o empty = none
  cached_get ptr o (obj_prop p generation i) =
      if p == ptr && o.generation == generation then value_at lib o i else none

  unfoldable pub cached_set : ℕ → ObjMap M → V → InlineCache → Option (ObjMap M)
  unfolding len overwrite_at
  cached_set ptr o v empty = none
  cached_set ptr o v (obj_prop p generation i) =
      if p == ptr && (o.generation == generation && (not o.frozen && ltb i (len lib o)))
      then some (overwrite_at lib o i v)
      else none

module _ {M V : Type 0} (lib : IndexMap M V) (as_class : V → Option ℕ) where
  unfoldable pub resolve_class : ObjMap M → Option ℕ
  unfolding get
  resolve_class o = bind (get lib o class_tag) as_class

  unfoldable pub fill_set : Heap → ℕ → ObjMap M → String → InlineCache → Option InlineCache
  unfolding get setter_key index_of resolve_class find_setter
  fill_set heap ptr o name slot =
      if (if o.frozen then true else is_some (get lib o (setter_key name)))
      then some slot
      else unless_set slot (filled lib ptr o slot (index_of lib o name))
          (class_sets heap name (resolve_class o))

module _ {M V : Type 0} (lib : IndexMap M V) (as_function as_class : V → Option ℕ) where
  -- what a class gives for a name, after the object's own entries
  abbrev pub class_read : Heap → String → Option ℕ → Option (Read V)
  class_read heap name none = some absent
  class_read heap name (some cls) = elim (find_getter heap cls name) [
    | none ↦ none
    | some (some (getter, owner)) ↦ some (call_getter getter owner)
    | some none ↦
        if is_constructor name then some (class_itself cls) else elim (find_method heap cls name) [
          | none ↦ none
          | some none ↦ some absent
          | some (some def) ↦ some (method_of def)
        ]
  ]

  abbrev pub own_read : Heap → ObjMap M → String → Option V → Option (Read V)
  own_read heap o name (some v) = some (plain v)
  own_read heap o name none = class_read heap name (resolve_class lib as_class o)

  -- `get_property` on an object
  unfoldable pub get_property : Heap → ObjMap M → String → Option (Read V)
  unfolding get getter_key
  get_property heap o name =
      first_read (bind (get lib o (getter_key name)) as_function)
        (own_read heap o name (get lib o name))

  abbrev pub store : ObjMap M → String → V → Written M
  store o name v = if can_write_key lib o name then stored (insert lib o name v) else refused

  abbrev pub class_write : Heap → ObjMap M → String → V → Option ℕ → Option (Written M)
  class_write heap o name v none = some (store o name v)
  class_write heap o name v (some cls) = elim (find_setter heap cls name) [
    | none ↦ none
    | some (some (setter, owner)) ↦ some (call_setter setter owner)
    | some none ↦ some (store o name v)
  ]

  -- `set_property` on an object
  unfoldable pub set_property : Heap → ObjMap M → String → V → Option (Written M)
  unfolding get setter_key can_write_key insert resolve_class find_setter
  set_property heap o name v =
      first_write (bind (get lib o (setter_key name)) as_function)
        (class_write heap o name v (resolve_class lib as_class o))
