-- ===== src/Objects/Stale.antt =====
-- Where the inline cache of a write in crates/yps-vm/src/vm.rs answers differently from the plain
-- path: the entry that holds the object's class was written in place.
use text.Mathlib.TextEquality.{eq_iff}
use yoptascript_rs.Prelude.{
  ℕ, ◌%◌, ◌^◌, ◌≤◌, ◌≡◌, refl, sym, ap, ◌∙◌, false, Option, none, some, String, arith, ==_refl,
  lt_of_get_elem?,
}
use yoptascript_rs.Prelude.Names.{lookup, lookup-insert}
use yoptascript_rs.Gc.Heap.{Heap}
use yoptascript_rs.Objects.Index.{IndexMap, keys, keys-insert, at_position}
use yoptascript_rs.Objects.Map.{ObjMap, get, insert, index_of, overwrite_at, len, setter_key}
use yoptascript_rs.Objects.Classes.{find_setter}
use yoptascript_rs.Objects.Cache.{
  InlineCache, empty, obj_prop, call_setter, class_tag, resolve_class, fill_set, cached_set,
  class_sets, set_property,
}
use yoptascript_rs.Objects.Edits.{keys_of}
use yoptascript_rs.Objects.Fresh.{lookup_same, index_small, still_there}

module _ {M V : Type 0} (lib : IndexMap M V) (o : ObjMap M) (k : String) (w old : V) where
  insert_known :
      get lib o k ≡ some old
      → (keys_of lib (insert lib o k w) ≡ keys_of lib o)
        × ((insert lib o k w).generation ≡ o.generation)
        × ((insert lib o k w).frozen ≡ o.frozen)
        × (get lib (insert lib o k w) k ≡ some w)
  unfolding insert get
  insert_known found =
      let there : lookup k (lib.entries o.entries) ≡ some old =
        sym (lib.get_entries o.entries k) ∙ found in
      rw (lib.insert_old o.entries k w ∙ there) (
        ap keys (lib.insert_entries o.entries k w)
            ∙ keys-insert k w old (lib.entries o.entries) there,
        refl,
        refl,
        lib.get_entries (lib.insert_full o.entries k w).0 k
            ∙ ap (lookup k) (lib.insert_entries o.entries k w)
            ∙ lookup-insert k k w (lib.entries o.entries)
            ∙ ground (arith, eq_iff k k),
      )

module _ {M V : Type 0} (lib : IndexMap M V) (as_function as_class : V → Option ℕ) (heap : Heap)
    (ptr : ℕ) (o : ObjMap M) (name : String) where
  fill_set-runs :
      (i : ℕ)
      → o.frozen ≡ false
      → get lib o (setter_key name) ≡ none
      → class_sets heap name (resolve_class lib as_class o) ≡ some false
      → index_of lib o name ≡ some i
      → fill_set lib as_class heap ptr o name empty ≡ some (obj_prop ptr o.generation (i % 2 ^ 32))
  unfolding fill_set
  fill_set-runs i warm no_setter plain_class found = ground arith

  cached_set-runs :
      (p : ObjMap M) (v : V) (i : ℕ)
      → len lib o ≤ 2 ^ 32
      → p.frozen ≡ false
      → p.generation ≡ o.generation
      → keys_of lib p ≡ keys_of lib o
      → index_of lib o name ≡ some i
      → cached_set lib ptr p v (obj_prop ptr o.generation (i % 2 ^ 32))
        ≡ some (overwrite_at lib p i v)
  unfolding cached_set len
  cached_set-runs p v i few warm same_generation same found =
      let low : i % 2 ^ 32 ≡ i = omega (arith, index_small lib o name i few found) in
      let (x, e, at) =
        at_position name i (lib.entries p.entries) (still_there lib o p name i same found) in
      ground (
        arith,
        low,
        lib.count_entries p.entries,
        lt_of_get_elem? (lib.entries p.entries) i (name, x) at,
        ==_refl ptr,
        ==_refl o.generation,
      )

  -- A write cache is not transparent when the entry with the object's class was written in place:
  -- after a write of a property of the object, which fills the cache, and a write of `__class__`
  -- with a class that has a setter for that property, the next cached write stores the value where
  -- the plain path calls the setter.
  pub cached_set-stale :
      (v w old : V) (i cls setter : ℕ) (owner : Option ℕ)
      → len lib o ≤ 2 ^ 32
      → o.frozen ≡ false
      → get lib o (setter_key name) ≡ none
      → class_sets heap name (resolve_class lib as_class o) ≡ some false
      → index_of lib o name ≡ some i
      → get lib o class_tag ≡ some old
      → as_class w ≡ some cls
      → find_setter heap cls name ≡ some (some (setter, owner))
      → (s : InlineCache) × (fill_set lib as_class heap ptr o name empty ≡ some s)
        × (cached_set lib ptr (insert lib o class_tag w) v s
            ≡ some (overwrite_at lib (insert lib o class_tag w) i v))
        × (set_property lib as_function as_class heap (insert lib o class_tag w) name v
            ≡ some (call_setter setter owner))
  unfolding set_property resolve_class
  cached_set-stale v w old i cls setter owner few warm no_setter plain_class found tagged new_class
        sets =
      let (same, same_generation, same_frozen, reads) = insert_known lib o class_tag w old tagged in
      let p = insert lib o class_tag w in
      (
        obj_prop ptr o.generation (i % 2 ^ 32),
        fill_set-runs i warm no_setter plain_class found,
        cached_set-runs p v i few (same_frozen ∙ warm) same_generation same found,
        rw (lookup_same lib o p (setter_key name) same no_setter, reads, new_class) (ground arith),
      )
