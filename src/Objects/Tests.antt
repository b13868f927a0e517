-- ===== src/Objects/Tests.antt =====
-- Runs of objects, classes and inline caches of crates/yps-vm/src/value.rs and
-- crates/yps-vm/src/vm.rs, and the theorems at inputs.
use Prim.Native.String.{String}
use mathlib.Core.Path.{subst}
use yoptascript_rs.Prelude.{
  ℕ, zero, suc, ◌-◌, ◌<◌, ◌≡◌, refl, ◌↔◌, Bool, true, false, Option, none, some, List, [], ◌∷◌,
  length, get_elem?, arith, ltb, if◌then◌else◌,
}
use yoptascript_rs.Prelude.Names.{lookup}
use yoptascript_rs.Prelude.Names as Names
use yoptascript_rs.Gc.Heap.{ClassDef, ClassMembers, MethodTable, class_cell, Heap}
use yoptascript_rs.Objects.Index.{IndexMap, position, keys, without, overwrite}
use yoptascript_rs.Objects.Map.{
  ObjMap, get, insert, index_of, value_at, len, setter_key, overwrite_at,
}
use yoptascript_rs.Objects.Classes.{Slot, found, climb, find, find_setter, is_subclass_of}
use yoptascript_rs.Objects.Tables.{built, new_table, in_table, find-built}
use yoptascript_rs.Objects.Lineage.{
  IsHierarchy, Resolves, climb-Resolves, Extends, is_subclass_of-Extends,
}
use yoptascript_rs.Objects.Cache.{
  InlineCache, empty, obj_prop, plain, stored, call_setter, class_tag, resolve_class, fill_get,
  fill_set, get_property, set_property, cached_get, cached_set,
}
use yoptascript_rs.Objects.Edits.{Edits, unchanged, inserts, keys_of, generation_keys}
use yoptascript_rs.Objects.Fresh.{IsSameObject, cached_get-transparent, cached_set-transparent}
use yoptascript_rs.Objects.Stale.{cached_set-stale}

-- a map that keeps its entries in a list
abbrev list_map : {V : Type 0} → IndexMap (List (String × V)) V
list_map = record {
  entries = λ m. m;
  new_map = [];
  get = λ m k. lookup k m;
  insert_full = λ m k v. (Names.insert k v m, lookup k m);
  shift_remove = λ m k. (without k m, lookup k m);
  get_index_of = λ m k. position k (keys m);
  get_index = λ m i. get_elem? m i;
  set_index = λ m i v. overwrite i v m;
  count = λ m. length m;
  clear = λ m. [];
  new_map_entries = refl;
  get_entries = λ m k. refl;
  insert_entries = λ m k v. refl;
  insert_old = λ m k v. refl;
  remove_entries = λ m k. refl;
  remove_old = λ m k. refl;
  index_entries = λ m k. refl;
  at_entries = λ m i. refl;
  set_entries = λ m i v. refl;
  count_entries = λ m. refl;
  clear_entries = λ m. refl;
}

-- values from 100 on are classes
abbrev class_of : ℕ → Option ℕ
class_of v = if ltb v 100 then none else some (v - 100)

abbrev no_function : ℕ → Option ℕ
no_function v = none

abbrev members_of : MethodTable → ClassMembers
members_of setters = record {
  methods = new_table;
  getters = new_table;
  setters = setters;
  static_methods = new_table;
  static_getters = new_table;
  static_setters = new_table;
  field_inits = [];
}

abbrev class_named : String → Option ℕ → MethodTable → ClassDef
class_named name parent setters = record {
  name = name;
  parent = parent;
  constructor = none;
  members = members_of setters;
  static_fields = record {
    entries = [];
    generation = 0;
    frozen = false;
    sealed = false;
    extensible = true;
  };
}

abbrev with_setter : MethodTable
with_setter = record { entries = ("y", 42) ∷ []; index = ("y", 0) ∷ [] }

-- B extends A, and B has a setter for y
abbrev class_a : ClassDef
class_a = class_named "A" none new_table

abbrev class_b : ClassDef
class_b = class_named "B" (some 0) with_setter

abbrev classes : Heap
classes = class_cell class_a ∷ class_cell class_b ∷ []

abbrev point : ObjMap (List (String × ℕ))
point = record {
  entries = ("__class__", 100) ∷ ("x", 1) ∷ ("y", 2) ∷ [];
  generation = 3;
  frozen = false;
  sealed = false;
  extensible = true;
}

abbrev moved : ObjMap (List (String × ℕ))
moved = insert list_map point "x" 7

point_moves : Edits list_map point 1 moved
point_moves = inserts "x" 7 unchanged

read_hits : cached_get list_map 9 moved (fill_get list_map 9 point "x" empty) ≡ some 7
unfolding cached_get fill_get get insert index_of value_at lookup Names.insert position
read_hits = refl

cached_get-transparent_example :
    get_property list_map no_function class_of classes moved "x" ≡ some (plain 7)
unfolding len
cached_get-transparent_example =
    cached_get-transparent list_map no_function class_of classes 9 1 point moved "x" 7 (omega arith)
      (omega arith) (omega arith) point_moves read_hits

generation_keys_example : keys_of list_map moved ≡ keys_of list_map point
unfolding insert lookup Names.insert
generation_keys_example =
    generation_keys list_map point moved 1 (omega arith) (omega arith) point_moves refl

-- the same object, its y written through the cache and by the plain path
abbrev raised : ObjMap (List (String × ℕ))
raised = overwrite_at list_map moved 2 9

write_fills : fill_set list_map class_of classes 5 point "y" empty ≡ some (obj_prop 5 3 2)
unfolding fill_set get index_of lookup position setter_key resolve_class find_setter climb find
write_fills = refl

write_hits : cached_set list_map 5 moved 9 (obj_prop 5 3 2) ≡ some raised
unfolding cached_set insert len overwrite_at lookup Names.insert
write_hits = refl

cached_set-transparent_example :
    (r : ObjMap (List (String × ℕ))) × (set_property list_map no_function class_of classes moved "y"
        9
      ≡ some (stored r))
    × IsSameObject list_map raised r
unfolding len insert lookup Names.insert resolve_class get
cached_set-transparent_example =
    cached_set-transparent list_map no_function class_of classes 5 1 point moved "y" 9
      (obj_prop 5 3 2) raised (omega arith) (omega arith) (omega arith) point_moves refl write_fills
      write_hits

-- point becomes an instance of B, whose setter for y the cached write passes over
cached_set-stale_example :
    (s : InlineCache) × (fill_set list_map class_of classes 5 point "y" empty ≡ some s)
    × (cached_set list_map 5 (insert list_map point class_tag 101) 9 s
        ≡ some (overwrite_at list_map (insert list_map point class_tag 101) 2 9))
    × (set_property list_map no_function class_of classes
          (insert list_map point class_tag 101)
          "y"
          9
        ≡ some (call_setter 42 (some 1)))
unfolding len get index_of lookup position setter_key resolve_class find_setter climb find
cached_set-stale_example =
    cached_set-stale list_map no_function class_of classes 5 point "y" 9 101 100 2 1 42 (some 1)
      (omega arith) refl refl refl refl refl refl refl

classes_older :
    (a p : ℕ) (c : ClassDef)
    → get_elem? classes a ≡ some (class_cell c)
    → c.parent ≡ some p
    → (d : ClassDef) × (get_elem? classes p ≡ some (class_cell d)) × (p < a)
classes_older zero p c here e = cc
classes_older (suc zero) p c here e =
    let first : 0 ≡ p = cc in
    (class_a, subst (λ q. get_elem? classes q ≡ some (class_cell class_a)) first refl, omega arith)
classes_older (suc (suc a)) p c here e = cc

classes-IsHierarchy : IsHierarchy classes
classes-IsHierarchy = record { parents_older = classes_older }

climb-Resolves_example :
    ((o : Option (Slot ℕ)) × (climb (λ a c. find c.members.setters "y") 2 classes 1 ≡ some o))
    × ((climb (λ a c. find c.members.setters "y") 2 classes 1 ≡ some (some (found 42)))
        ↔ Resolves (λ a c. find c.members.setters "y") classes 1 (found 42))
climb-Resolves_example =
    climb-Resolves (λ a c. find c.members.setters "y") classes classes-IsHierarchy 1 class_b
      (found 42) refl

is_subclass_of-Extends_example :
    ((r : Bool) × (is_subclass_of classes 1 0 ≡ some r))
    × ((is_subclass_of classes 1 0 ≡ some true) ↔ Extends classes 1 0)
is_subclass_of-Extends_example = is_subclass_of-Extends classes classes-IsHierarchy 1 0 class_b refl

-- two members of one name: the first is found
find-built_example :
    let props : List (String × ℕ) = ("y", 1) ∷ ("x", 2) ∷ ("y", 3) ∷ [] in
    (find (built new_table props) "y" ≡ in_table (lookup "y" props))
    × ((i : ℕ)
        → lookup "y" (built new_table props).index ≡ some i
        → i < length (built new_table props).entries)
find-built_example = find-built (("y", 1) ∷ ("x", 2) ∷ ("y", 3) ∷ []) "y"
