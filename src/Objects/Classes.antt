-- ===== src/Objects/Classes.antt =====
-- Classes of crates/yps-vm/src/value.rs: method tables, whose index serves lookups, and the lookups
-- that climb from a class to its parents. A class is a cell of the heap, as for the collector.
use yoptascript_rs.Prelude.{
  ℕ, zero, suc, ◌==◌, Bool, true, false, Option, none, some, List, [], ◌∷◌, ◌++◌, String, length,
  get_elem?, if◌then◌else◌,
}
use yoptascript_rs.Prelude.Names.{lookup, insert}
use yoptascript_rs.Gc.Heap.{ClassDef, MethodTable, class_cell, Heap}

-- `entry(..).or_insert(idx)`
abbrev pub or_insert : String → ℕ → List (String × ℕ) → List (String × ℕ)
or_insert name i index = elim (lookup name index) [ none ↦ insert name i index | some j ↦ index ]

unfoldable pub push : String × ℕ → MethodTable → MethodTable
push entry t = record {
  entries = t.entries ++ entry ∷ [];
  index = or_insert entry.0 (length t.entries) t.index;
}

-- what stands at an index; `out_of_range` is the panic of `self.entries[i]`
pub data Slot (A : Type 0) : Type 0 where
  found : A → Slot A
  out_of_range : Slot A

abbrev pub def_at : Option (String × ℕ) → Slot ℕ
def_at none = out_of_range
def_at (some e) = found e.1

-- `MethodTable::lookup`
unfoldable pub find : MethodTable → String → Option (Slot ℕ)
find t name = elim (lookup name t.index) [
  | none ↦ none
  | some i ↦ some (def_at (get_elem? t.entries i))
]

module _ {R : Type 0} (look : ℕ → ClassDef → Option R) where
  -- The loop of the lookups. Without rounds or on an address that holds no class there is no result.
  unfoldable pub climb : ℕ → Heap → ℕ → Option (Option R)
  climb zero heap a = none
  climb (suc n) heap a = elim (get_elem? heap a) [
    | some (class_cell c) ↦ elim (look a c) [
      | some r ↦ some (some r)
      | none ↦ elim c.parent [ none ↦ some none | some p ↦ climb n heap p ]
    ]
    | _ ↦ none
  ]

abbrev pub with_owner : ℕ → Option (Slot ℕ) → Option (Slot (ℕ × Option ℕ))
with_owner a none = none
with_owner a (some out_of_range) = some out_of_range
with_owner a (some (found def)) = some (found (def, some a))

abbrev pub owner_alone : ℕ → Option (Slot ℕ) → Option (Slot ℕ)
owner_alone a none = none
owner_alone a (some out_of_range) = some out_of_range
owner_alone a (some (found def)) = some (found a)

-- a panic leaves a lookup without a result
abbrev pub answer : {A : Type 0} → Option (Option (Slot A)) → Option (Option A)
answer none = none
answer (some none) = some none
answer (some (some out_of_range)) = none
answer (some (some (found a))) = some (some a)

module _ (heap : Heap) (a : ℕ) (name : String) where
  unfoldable pub find_method : Option (Option ℕ)
  unfolding climb find
  find_method = answer (climb (λ a c. find c.members.methods name) (length heap) heap a)

  unfoldable pub find_method_owner : Option (Option ℕ)
  unfolding climb find
  find_method_owner =
      answer (climb (λ a c. owner_alone a (find c.members.methods name)) (length heap) heap a)

  unfoldable pub find_getter : Option (Option (ℕ × Option ℕ))
  unfolding climb find
  find_getter =
      answer (climb (λ a c. with_owner a (find c.members.getters name)) (length heap) heap a)

  unfoldable pub find_setter : Option (Option (ℕ × Option ℕ))
  unfolding climb find
  find_setter =
      answer (climb (λ a c. with_owner a (find c.members.setters name)) (length heap) heap a)

  unfoldable pub find_static_method : Option (Option (ℕ × Option ℕ))
  unfolding climb find
  find_static_method =
      answer (climb (λ a c. with_owner a (find c.members.static_methods name)) (length heap) heap a)

  unfoldable pub find_static_getter : Option (Option ℕ)
  unfolding climb find
  find_static_getter =
      answer (climb (λ a c. find c.members.static_getters name) (length heap) heap a)

  unfoldable pub find_static_setter : Option (Option ℕ)
  unfolding climb find
  find_static_setter =
      answer (climb (λ a c. find c.members.static_setters name) (length heap) heap a)

abbrev pub answered : Option (Option Bool) → Option Bool
answered none = none
answered (some none) = some false
answered (some (some b)) = some b

unfoldable pub is_subclass_of : Heap → ℕ → ℕ → Option Bool
unfolding climb
is_subclass_of heap a target =
    answered (climb (λ b c. if b == target then some true else none) (length heap) heap a)
