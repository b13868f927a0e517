-- ===== src/Objects/Fresh.antt =====
-- An inline cache of crates/yps-vm/src/vm.rs answers as the plain path does: whatever happened to
-- the object since the cache was filled, a hit reads and writes what a lookup by name would.
use mathlib.Core.Path.{subst}
use yoptascript_rs.Prelude.{
  ℕ, ◌%◌, ◌^◌, ◌≤◌, ◌<◌, ◌≡◌, refl, sym, ap, ◌∙◌, ◌⊎◌, inl, inr, true, false, Option, none, some,
  String, arith, Option-cases, Bool-cases, lt_of_get_elem?,
}
use yoptascript_rs.Gc.Heap.{Heap}
use yoptascript_rs.Objects.Index.{
  IndexMap, position, at_position, overwrite-position, position_missing, lookup_missing,
}
use yoptascript_rs.Objects.Map.{
  ObjMap, getter_key, setter_key, get, insert, index_of, value_at, overwrite_at, len, can_write_key,
  contains_key,
}
use yoptascript_rs.Objects.Cache.{
  InlineCache, empty, obj_prop, plain, stored, resolve_class, fill_get, fill_set, get_property,
  set_property, cached_get, cached_set, class_sets, class_write, store,
}
use yoptascript_rs.Objects.Edits.{Edits, keys_of, generation_keys}

module _ {M V : Type 0} (lib : IndexMap M V) where
  pub lookup_same :
      (o p : ObjMap M) (k : String)
      → keys_of lib p ≡ keys_of lib o
      → get lib o k ≡ none
      → get lib p k ≡ none
  unfolding get
  lookup_same o p k same missing =
      lib.get_entries p.entries k
      ∙ lookup_missing k (lib.entries p.entries) (
          ap (position k) same
          ∙ position_missing k (lib.entries o.entries)
              (sym (lib.get_entries o.entries k) ∙ missing))

  -- the place that was found at filling is still the place of the key
  pub still_there :
      (o p : ObjMap M) (k : String) (i : ℕ)
      → keys_of lib p ≡ keys_of lib o
      → index_of lib o k ≡ some i
      → position k (keys_of lib p) ≡ some i
  unfolding index_of
  still_there o p k i same found =
      ap (position k) same ∙ sym (lib.index_entries o.entries k) ∙ found

  read_there :
      (p : ObjMap M) (k : String) (i : ℕ)
      → position k (keys_of lib p) ≡ some i
      → value_at lib p i ≡ get lib p k
  unfolding value_at get
  read_there p k i here =
      let (v, found, at) = at_position k i (lib.entries p.entries) here in
      ground (arith, lib.at_entries p.entries i, lib.get_entries p.entries k)

  -- what a filled cache knows of the object
  filled_get :
      (ptr : ℕ) (o : ObjMap M) (name : String)
      → (fill_get lib ptr o name empty ≡ empty)
        ⊎ ((i : ℕ) × (fill_get lib ptr o name empty ≡ obj_prop ptr o.generation (i % 2 ^ 32))
            × (index_of lib o name ≡ some i)
            × (get lib o (getter_key name) ≡ none))
  unfolding fill_get
  filled_get ptr o name = elim (Option-cases (get lib o (getter_key name))) [
    | inr (v, found) ↦ inl (rw found refl)
    | inl no_getter ↦ elim (Option-cases (index_of lib o name)) [
      | inl missing ↦ inl (rw (no_getter, missing) refl)
      | inr (i, found) ↦ inr (i, rw (no_getter, found) refl, found, no_getter)
    ]
  ]

  pub index_small :
      (o : ObjMap M) (k : String) (i : ℕ)
      → len lib o ≤ 2 ^ 32
      → index_of lib o k ≡ some i
      → i < 2 ^ 32
  unfolding len index_of
  index_small o k i few found =
      let (v, e, at) =
        at_position k i (lib.entries o.entries) (sym (lib.index_entries o.entries k) ∙ found) in
      omega
        (arith, lib.count_entries o.entries, lt_of_get_elem? (lib.entries o.entries) i (k, v) at)

  hit_get :
      (ptr g i : ℕ) (p : ObjMap M) (v : V)
      → cached_get lib ptr p (obj_prop ptr g i) ≡ some v
      → (p.generation ≡ g) × (value_at lib p i ≡ some v)
  unfolding cached_get
  hit_get ptr g i p v e = (ground arith, ground arith)

  hit_set :
      (ptr g i : ℕ) (p q : ObjMap M) (v : V)
      → cached_set lib ptr p v (obj_prop ptr g i) ≡ some q
      → (p.generation ≡ g) × (p.frozen ≡ false) × (overwrite_at lib p i v ≡ q)
  unfolding cached_set
  hit_set ptr g i p q v e = (ground arith, ground arith, ground arith)

  -- the same properties in the same order, and the same state otherwise
  pub record IsSameObject (q r : ObjMap M) : Type 0 where
    pub same_entries : lib.entries q.entries ≡ lib.entries r.entries
    pub same_generation : q.generation ≡ r.generation
    pub same_frozen : q.frozen ≡ r.frozen
    pub same_sealed : q.sealed ≡ r.sealed
    pub same_extensible : q.extensible ≡ r.extensible

  -- writing at the place of a key is inserting under it
  written_there :
      (p : ObjMap M) (k : String) (i : ℕ) (v : V)
      → position k (keys_of lib p) ≡ some i
      → IsSameObject (overwrite_at lib p i v) (insert lib p k v)
  unfolding overwrite_at insert
  written_there p k i v here =
      let (w, found, at) = at_position k i (lib.entries p.entries) here in
      let old = lib.insert_old p.entries k v ∙ found in
      rw old (record {
        same_entries =
            lib.set_entries p.entries i v
            ∙ overwrite-position k i v (lib.entries p.entries) here
            ∙ sym (lib.insert_entries p.entries k v);
        same_generation = refl;
        same_frozen = refl;
        same_sealed = refl;
        same_extensible = refl;
      })

  writable :
      (p : ObjMap M) (k : String) (i : ℕ)
      → p.frozen ≡ false
      → position k (keys_of lib p) ≡ some i
      → can_write_key lib p k ≡ true
  unfolding can_write_key contains_key
  writable p k i warm here =
      let (w, found, at) = at_position k i (lib.entries p.entries) here in
      rw (warm, lib.get_entries p.entries k, found) (ground arith)

module _ {M V : Type 0} (lib : IndexMap M V) (as_function as_class : V → Option ℕ) (heap : Heap)
    (ptr n : ℕ) (o p : ObjMap M) (name : String) (v : V) where
  -- A cache that was filled for an object with at most 2^32 properties is transparent to reads:
  -- after fewer than 2^32 changes of the object, whatever they were, a hit gives the value that the
  -- plain path gives.
  pub cached_get-transparent :
      len lib o ≤ 2 ^ 32
      → o.generation < 2 ^ 32
      → n < 2 ^ 32
      → Edits lib o n p
      → cached_get lib ptr p (fill_get lib ptr o name empty) ≡ some v
      → get_property lib as_function as_class heap p name ≡ some (plain v)
  unfolding get_property cached_get
  cached_get-transparent few small short edits hit = elim (filled_get lib ptr o name) [
    | inl untouched ↦ cc (sym (ap (cached_get lib ptr p) untouched) ∙ hit)
    | inr (i, filled, found, no_getter) ↦
        let low : i % 2 ^ 32 ≡ i = omega (arith, index_small lib o name i few found) in
        let (same_generation, got) =
          hit_get lib ptr o.generation i p v
            (sym (ap (cached_get lib ptr p) (filled ∙ ap (obj_prop ptr o.generation) low)) ∙ hit) in
        let same = generation_keys lib o p n small short edits same_generation in
        let own : get lib p name ≡ some v =
          sym (read_there lib p name i (still_there lib o p name i same found)) ∙ got in
        rw (lookup_same lib o p (getter_key name) same no_getter, own) refl
  ]

  filled_set :
      (s : InlineCache)
      → fill_set lib as_class heap ptr o name empty ≡ some s
      → (s ≡ empty)
        ⊎ ((i : ℕ) × (s ≡ obj_prop ptr o.generation (i % 2 ^ 32))
            × (index_of lib o name ≡ some i)
            × (get lib o (setter_key name) ≡ none)
            × (class_sets heap name (resolve_class lib as_class o) ≡ some false))
  unfolding fill_set
  filled_set s filling = elim (Bool-cases o.frozen) [
    | inl cold ↦ inl (ground arith)
    | inr warm ↦ elim (Option-cases (get lib o (setter_key name))) [
      | inr (w, found) ↦ inl (ground arith)
      | inl no_setter ↦ elim (Option-cases (class_sets heap name (resolve_class lib as_class o))) [
        | inl lost ↦ absurd (ground arith)
        | inr (b, sets) ↦ elim (Bool-cases b) [
          | inl has_setter ↦ inl (ground arith)
          | inr has_none ↦ elim (Option-cases (index_of lib o name)) [
            | inl missing ↦ inl (ground arith)
            | inr (i, found) ↦ inr (i, ground arith, found, no_setter, sets ∙ ap some has_none)
          ]
        ]
      ]
    ]
  ]

  class_stores :
      (cls : Option ℕ)
      → class_sets heap name cls ≡ some false
      → class_write lib as_function as_class heap p name v cls
        ≡ some (store lib as_function as_class p name v)
  class_stores cls no_setter = ground (arith, Option-cases cls)

  -- A cache that was filled by a write is transparent to writes: after fewer than 2^32 changes of
  -- the object that leave it with the same class, a hit leaves the object with the properties, the
  -- generation and the flags that the plain path leaves it with.
  pub cached_set-transparent :
      (s : InlineCache) (q : ObjMap M)
      → len lib o ≤ 2 ^ 32
      → o.generation < 2 ^ 32
      → n < 2 ^ 32
      → Edits lib o n p
      → resolve_class lib as_class p ≡ resolve_class lib as_class o
      → fill_set lib as_class heap ptr o name empty ≡ some s
      → cached_set lib ptr p v s ≡ some q
      → (r : ObjMap M) × (set_property lib as_function as_class heap p name v ≡ some (stored r))
        × IsSameObject lib q r
  unfolding set_property cached_set
  cached_set-transparent s q few small short edits same_class filling hit =
      elim (filled_set s filling) [
        | inl untouched ↦ cc (sym (ap (cached_set lib ptr p v) untouched) ∙ hit)
        | inr (i, done, found, no_setter, plain_class) ↦
            let low : i % 2 ^ 32 ≡ i = omega (arith, index_small lib o name i few found) in
            let (same_generation, warm, wrote) = hit_set lib ptr o.generation i p q v (
              sym (ap (cached_set lib ptr p v) (done ∙ ap (obj_prop ptr o.generation) low))
              ∙ hit) in
            let same = generation_keys lib o p n small short edits same_generation in
            let here = still_there lib o p name i same found in
            (
              insert lib p name v,
              rw (lookup_same lib o p (setter_key name) same no_setter) (
                  class_stores (resolve_class lib as_class p)
                    (ap (class_sets heap name) same_class ∙ plain_class)
                  ∙ rw (writable lib p name i warm here) refl),
              subst (λ x. IsSameObject lib x (insert lib p name v)) wrote
                  (written_there lib p name i v here),
            )
      ]
