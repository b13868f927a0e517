-- ===== src/Objects/Tables.antt =====
-- Method tables of crates/yps-vm/src/value.rs: the index that `push` keeps gives the first entry of a
-- name.
use text.Mathlib.Text.{◌==◌}
use text.Mathlib.TextEquality.{eq_iff}
use mathlib.Core.List.{append-nil, append_assoc}
use yoptascript_rs.Prelude.{
  get_elem?_of_lt, ℕ, suc, ◌<◌, ◌≡◌, refl, sym, ap, ◌∙◌, inl, inr, Option, none, some, List, [],
  ◌∷◌, ◌++◌, String, length, arith, Option-cases, if◌then◌else◌, get_elem?-append_left,
  get_elem?-append_end,
}
use yoptascript_rs.Prelude.Names.{lookup, lookup-insert}
use yoptascript_rs.Gc.Heap.{MethodTable}
use yoptascript_rs.Objects.Classes.{Slot, found, push, find, or_insert}

-- the table of a class body, its members in order
unfoldable pub built : MethodTable → List (String × ℕ) → MethodTable
unfolding push
built t [] = t
built t (e ∷ es) = built (push e t) es

abbrev pub new_table : MethodTable
new_table = record { entries = []; index = [] }

-- a lookup that stays in range
abbrev pub in_table : Option ℕ → Option (Slot ℕ)
in_table none = none
in_table (some def) = some (found def)

abbrev first : Option ℕ → Option ℕ → Option ℕ
first none b = b
first (some a) b = some a

lookup-append :
    (name : String) (es : List (String × ℕ)) (e : String × ℕ)
    → lookup name (es ++ e ∷ []) ≡ first (lookup name es) (if name == e.0 then some e.1 else none)
unfolding lookup
lookup-append name [] e = ground arith
lookup-append name (d ∷ es) e = ground (arith, lookup-append name es e)

-- The index gives the first entry of a name, and has a name exactly if an entry has it.
record IsIndexed (t : MethodTable) : Type 0 where
  finds : (name : String) → find t name ≡ in_table (lookup name t.entries)
  in_range : (name : String) (i : ℕ) → lookup name t.index ≡ some i → i < length t.entries
  known : (name : String) → lookup name t.index ≡ none → lookup name t.entries ≡ none

lookup-or_insert :
    (name key : String) (i : ℕ) (index : List (String × ℕ))
    → lookup name (or_insert key i index)
      ≡ first (lookup name index) (if key == name then some i else none)
lookup-or_insert name key i index = ground (
  arith,
  Option-cases (lookup key index),
  lookup-insert key name i index,
  eq_iff key name,
  Option-cases (lookup name index),
)

length-snoc : (es : List (String × ℕ)) (e : String × ℕ) → length (es ++ e ∷ []) ≡ suc (length es)
length-snoc [] e = refl
length-snoc (d ∷ es) e = ap suc (length-snoc es e)

push-finds :
    (e : String × ℕ) (t : MethodTable)
    → IsIndexed t
    → (name : String) → find (push e t) name ≡ in_table (lookup name (push e t).entries)
unfolding push find
push-finds e t ok name = elim (Option-cases (lookup name t.index)) [
  | inr (i, at) ↦ ground (
    arith,
    lookup-or_insert name e.0 (length t.entries) t.index,
    lookup-append name t.entries e,
    get_elem?-append_left t.entries (e ∷ []) i (ok.in_range name i at),
    ok.finds name,
    get_elem?_of_lt t.entries i (ok.in_range name i at),
  )
  | inl new ↦ ground (
    arith,
    lookup-or_insert name e.0 (length t.entries) t.index,
    lookup-append name t.entries e,
    get_elem?-append_end t.entries e,
    ok.known name new,
    eq_iff e.0 name,
    eq_iff name e.0,
  )
]

push-IsIndexed : (e : String × ℕ) (t : MethodTable) → IsIndexed t → IsIndexed (push e t)
unfolding push
push-IsIndexed e t ok = record {
  finds = push-finds e t ok;
  in_range = λ name i h. ground (
    arith,
    lookup-or_insert name e.0 (length t.entries) t.index,
    length-snoc t.entries e,
    Option-cases (lookup name t.index),
    ok.in_range name i,
  );
  known = λ name h. ground (
    arith,
    lookup-or_insert name e.0 (length t.entries) t.index,
    lookup-append name t.entries e,
    Option-cases (lookup name t.index),
    ok.known name,
    eq_iff e.0 name,
    eq_iff name e.0,
  );
}

built-IsIndexed : (t : MethodTable) (es : List (String × ℕ)) → IsIndexed t → IsIndexed (built t es)
unfolding built
built-IsIndexed t [] ok = ok
built-IsIndexed t (e ∷ es) ok = built-IsIndexed (push e t) es (push-IsIndexed e t ok)

built-entries : (t : MethodTable) (es : List (String × ℕ)) → (built t es).entries ≡ t.entries ++ es
unfolding built push
built-entries t [] = sym (append-nil t.entries)
built-entries t (e ∷ es) = built-entries (push e t) es ∙ append_assoc t.entries (e ∷ []) es

new_table-IsIndexed : IsIndexed new_table
unfolding find lookup
new_table-IsIndexed = record {
  finds = λ name. refl;
  in_range = λ name i h. cc;
  known = λ name h. refl;
}

-- A lookup in the table of a class body finds the first member of the name, and nothing if no
-- member has it; the index of the table never points past its entries, for any name, so that no
-- lookup panics.
pub find-built :
    (members : List (String × ℕ)) (name : String)
    → (find (built new_table members) name ≡ in_table (lookup name members))
      × ((i : ℕ)
          → lookup name (built new_table members).index ≡ some i
          → i < length (built new_table members).entries)
find-built members name =
    let indexed = built-IsIndexed new_table members new_table-IsIndexed in
    (
      indexed.finds name ∙ ap (λ es. in_table (lookup name es)) (built-entries new_table members),
      indexed.in_range name,
    )
