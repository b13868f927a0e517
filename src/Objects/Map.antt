-- ===== src/Objects/Map.antt =====
-- `ObjMap` of crates/yps-vm/src/value.rs, over the map of the crate `indexmap`, and the keys that
-- accessors are stored under.
use Prim.Native.String.{◌++◌ as concat}
use yoptascript_rs.Prelude.{
  ℕ, ◌+◌, ◌%◌, ◌^◌, Bool, true, false, not, ◌&&◌, Option, none, some, String, if◌then◌else◌,
}
use yoptascript_rs.Objects.Index.{IndexMap}

pub record ObjMap (M : Type 0) : Type 0 where
  pub entries : M
  pub generation : ℕ
  pub frozen : Bool
  pub sealed : Bool
  pub extensible : Bool

abbrev pub is_some : {A : Type 0} → Option A → Bool
is_some none = false
is_some (some a) = true

unfoldable pub getter_key : String → String
getter_key prop = concat "__get_" (concat prop "__")

unfoldable pub setter_key : String → String
setter_key prop = concat "__set_" (concat prop "__")

module _ {M V : Type 0} (lib : IndexMap M V) where
  unfoldable pub new : ObjMap M
  new = record {
    entries = lib.new_map;
    generation = 0;
    frozen = false;
    sealed = false;
    extensible = true;
  }

  -- `wrapping_add(1)` on the generation
  abbrev pub bumped : ObjMap M → ObjMap M
  bumped o = record o { generation = (o.generation + 1) % 2 ^ 32 }

  unfoldable pub get : ObjMap M → String → Option V
  get o key = lib.get o.entries key

  unfoldable pub insert : ObjMap M → String → V → ObjMap M
  insert o key v =
      let done = lib.insert_full o.entries key v in
      let written = record o { entries = done.0 } in
      if is_some done.1 then written else bumped written

  unfoldable pub remove : ObjMap M → String → ObjMap M × Bool
  remove o key =
      let done = lib.shift_remove o.entries key in
      let left = record o { entries = done.0 } in
      if is_some done.1 then (bumped left, true) else (left, false)

  unfoldable pub index_of : ObjMap M → String → Option ℕ
  index_of o key = lib.get_index_of o.entries key

  unfoldable pub value_at : ObjMap M → ℕ → Option V
  value_at o i = elim (lib.get_index o.entries i) [ none ↦ none | some e ↦ some e.1 ]

  unfoldable pub overwrite_at : ObjMap M → ℕ → V → ObjMap M
  overwrite_at o i v = record o { entries = lib.set_index o.entries i v }

  unfoldable pub len : ObjMap M → ℕ
  len o = lib.count o.entries

  unfoldable pub gc_clear : ObjMap M → ObjMap M
  gc_clear o = bumped (record o { entries = lib.clear o.entries })

  unfoldable pub contains_key : ObjMap M → String → Bool
  contains_key o key = is_some (lib.get o.entries key)

  unfoldable pub can_write_key : ObjMap M → String → Bool
  unfolding contains_key
  can_write_key o key =
      if o.frozen
      then false
      else if not o.extensible && not (contains_key o key)
      then false
      else true

module _ {M : Type 0} where
  unfoldable pub can_delete : ObjMap M → Bool
  can_delete o = not o.frozen && not o.sealed

  unfoldable pub seal : ObjMap M → ObjMap M
  seal o = record o { sealed = true; extensible = false }

  unfoldable pub freeze : ObjMap M → ObjMap M
  freeze o = record o { frozen = true; sealed = true; extensible = false }

  unfoldable pub prevent_extensions : ObjMap M → ObjMap M
  prevent_extensions o = record o { extensible = false }
