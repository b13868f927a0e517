-- ===== src/Objects/Edits.antt =====
-- How the generation of an `ObjMap` of crates/yps-vm/src/value.rs witnesses its keys: fewer than
-- 2^32 changes that leave the generation as it was leave the keys as they were.
use yoptascript_rs.Prelude.{
  ℕ, suc, ◌+◌, ◌%◌, ◌^◌, ◌≤◌, ◌<◌, ◌≡◌, refl, sym, ap, ◌∙◌, List, String, arith, Option-cases, inl,
  inr,
}
use yoptascript_rs.Objects.Index.{IndexMap, keys, without_missing, keys-insert, keys-overwrite}
use yoptascript_rs.Objects.Map.{
  ObjMap, insert, remove, overwrite_at, gc_clear, seal, freeze, prevent_extensions,
}

module _ {M V : Type 0} (lib : IndexMap M V) where
  -- what can happen to an object, with the number of changes
  pub data Edits (o : ObjMap M) : ℕ → ObjMap M → Type 0 where
    unchanged : Edits o 0 o
    inserts :
        {n : ℕ} {p : ObjMap M} (k : String) (v : V)
        → Edits o n p
        → Edits o (suc n) (insert lib p k v)
    removes : {n : ℕ} {p : ObjMap M} (k : String) → Edits o n p → Edits o (suc n) (remove lib p k).0
    overwrites :
        {n : ℕ} {p : ObjMap M} (i : ℕ) (v : V)
        → Edits o n p
        → Edits o (suc n) (overwrite_at lib p i v)
    clears : {n : ℕ} {p : ObjMap M} → Edits o n p → Edits o (suc n) (gc_clear lib p)
    seals : {n : ℕ} {p : ObjMap M} → Edits o n p → Edits o (suc n) (seal p)
    freezes : {n : ℕ} {p : ObjMap M} → Edits o n p → Edits o (suc n) (freeze p)
    prevents : {n : ℕ} {p : ObjMap M} → Edits o n p → Edits o (suc n) (prevent_extensions p)

  abbrev pub keys_of : ObjMap M → List String
  keys_of o = keys (lib.entries o.entries)

  -- `p` is `o` after `j` changes of the generation; none leaves the keys alone
  pub record IsDrift (o p : ObjMap M) (j : ℕ) : Type 0 where
    pub drifted : p.generation ≡ (o.generation + j) % 2 ^ 32
    pub same_keys : j ≡ 0 → keys_of p ≡ keys_of o

  abbrev Drifts : ObjMap M → ObjMap M → ℕ → Type 0
  Drifts o p n = (j : ℕ) × (j ≤ n) × IsDrift o p j

  stay :
      (o p q : ObjMap M) (n : ℕ)
      → q.generation ≡ p.generation
      → keys_of q ≡ keys_of p
      → Drifts o p n
      → Drifts o q (suc n)
  stay o p q n same_generation same (j, bound, d) = (
    j,
    omega arith,
    record { drifted = same_generation ∙ d.drifted; same_keys = λ e. same ∙ d.same_keys e },
  )

  bump :
      (o p q : ObjMap M) (n : ℕ)
      → q.generation ≡ (p.generation + 1) % 2 ^ 32
      → Drifts o p n
      → Drifts o q (suc n)
  bump o p q n next (j, bound, d) = (
    suc j,
    omega arith,
    record { drifted = omega (arith, next, d.drifted); same_keys = λ e. absurd (omega arith) },
  )

  insert-Drifts :
      (o p : ObjMap M) (n : ℕ) (k : String) (v : V)
      → Drifts o p n
      → Drifts o (insert lib p k v) (suc n)
  unfolding insert
  insert-Drifts o p n k v d = elim (Option-cases (lib.insert_full p.entries k v).1) [
    | inl fresh ↦ rw fresh (bump o p _ n refl d)
    | inr (w, old) ↦ rw old (
        stay o p _ n refl
          (ap keys (lib.insert_entries p.entries k v)
            ∙ keys-insert k v w (lib.entries p.entries) (sym (lib.insert_old p.entries k v) ∙ old))
          d)
  ]

  remove-Drifts :
      (o p : ObjMap M) (n : ℕ) (k : String) → Drifts o p n → Drifts o (remove lib p k).0 (suc n)
  unfolding remove
  remove-Drifts o p n k d = elim (Option-cases (lib.shift_remove p.entries k).1) [
    | inr (w, old) ↦ rw old (bump o p _ n refl d)
    | inl missing ↦ rw missing (
        stay o p _ n refl
          (ap keys (lib.remove_entries p.entries k)
            ∙ ap keys (
                without_missing k (lib.entries p.entries)
                  (sym (lib.remove_old p.entries k) ∙ missing)))
          d)
  ]

  Edits-Drifts : (o p : ObjMap M) (n : ℕ) → o.generation < 2 ^ 32 → Edits o n p → Drifts o p n
  unfolding overwrite_at gc_clear seal freeze prevent_extensions
  Edits-Drifts o p n small unchanged =
      (0, omega arith, record { drifted = omega arith; same_keys = λ e. refl })
  Edits-Drifts o p n small (inserts {n = m} {p = q} k v e) =
      insert-Drifts o q m k v (Edits-Drifts o q m small e)
  Edits-Drifts o p n small (removes {n = m} {p = q} k e) =
      remove-Drifts o q m k (Edits-Drifts o q m small e)
  Edits-Drifts o p n small (overwrites {n = m} {p = q} i v e) =
      stay o q (overwrite_at lib q i v) m refl
        (ap keys (lib.set_entries q.entries i v) ∙ keys-overwrite i v (lib.entries q.entries))
        (Edits-Drifts o q m small e)
  Edits-Drifts o p n small (clears {n = m} {p = q} e) =
      bump o q (gc_clear lib q) m refl (Edits-Drifts o q m small e)
  Edits-Drifts o p n small (seals {n = m} {p = q} e) =
      stay o q (seal q) m refl refl (Edits-Drifts o q m small e)
  Edits-Drifts o p n small (freezes {n = m} {p = q} e) =
      stay o q (freeze q) m refl refl (Edits-Drifts o q m small e)
  Edits-Drifts o p n small (prevents {n = m} {p = q} e) =
      stay o q (prevent_extensions q) m refl refl (Edits-Drifts o q m small e)

  -- Fewer than 2^32 changes of an object that leave its generation as it was leave its keys and
  -- their order as they were.
  pub generation_keys :
      (o p : ObjMap M) (n : ℕ)
      → o.generation < 2 ^ 32
      → n < 2 ^ 32
      → Edits o n p
      → p.generation ≡ o.generation
      → keys_of p ≡ keys_of o
  generation_keys o p n small few edits same =
      let (j, bound, d) = Edits-Drifts o p n small edits in d.same_keys (omega (arith, d.drifted))
