-- ===== src/Gc/Clear.antt =====
-- What the sweep of crates/yps-vm/src/gc.rs does to a cell: marked cells stay, the others that are
-- tracked are cleared.
use yoptascript_rs.Prelude.{
  ℕ, ◌≡◌, refl, ◌⊎◌, inl, inr, Bool, true, false, some, List, [], ◌∷◌, get_elem?, if◌then◌else◌,
  ◌==◌, arith, Option-cases, Bool-cases, lt_of_get_elem?, get_elem?-set_self, get_elem?-set_ne,
}
use yoptascript_rs.Gc.Heap.{undefined, Cell, array_cell, object_cell, upvalue_cell, Heap, closed}
use yoptascript_rs.Gc.Mark.{Marker, has}
use yoptascript_rs.Gc.Reach.{Pool, objects, arrays, upvalues, seen}
use yoptascript_rs.Gc.Reach.{marked}
use yoptascript_rs.Gc.Ends.{cell_pool}
use yoptascript_rs.Gc.Sweep.{
  GcRegistry, clear_object, clear_array, clear_upvalue, gc_clear, modify, sweep_pool, sweep,
}

pub get_elem?-modify :
    (heap : Heap) (a b : ℕ) (f : Cell → Cell) (c : Cell)
    → get_elem? heap b ≡ some c
    → get_elem? (modify heap a f) b ≡ some (if a == b then f c else c)
get_elem?-modify heap a b f c e = elim (Bool-cases (a == b)) [
  | inl same ↦ ground (arith, lt_of_get_elem? heap b c e, get_elem?-set_self heap b (f c))
  | inr other ↦ elim (Option-cases (get_elem? heap a)) [
    | inl no_cell ↦ ground arith
    | inr (d, here) ↦ ground (arith, get_elem?-set_ne heap a b (f d))
  ]
]

pub if_either :
    {A : Type 0} (P : A → Type 0) (b : Bool) {x y : A} → P x → P y → P (if b then x else y)
if_either P true hx hy = hx
if_either P false hx hy = hy

module _ (strong : Heap → ℕ → Bool) (marks : List ℕ) (clear : Cell → Cell) where
  -- a cell that is marked, or that this sweep does not clear, stays as it is
  pub sweep_pool-keeps :
      (cells : List ℕ) (heap : Heap) (a : ℕ) (c : Cell)
      → get_elem? heap a ≡ some c
      → (has marks a ≡ true) ⊎ (clear c ≡ c)
      → get_elem? (sweep_pool strong marks clear cells heap).0 a ≡ some c
  unfolding sweep_pool
  sweep_pool-keeps [] heap a c e safe = e
  sweep_pool-keeps (b ∷ cells) heap a c e safe = ground (
    arith,
    get_elem?-modify heap b a clear c e,
    sweep_pool-keeps cells heap a c e safe,
    sweep_pool-keeps cells (modify heap b clear) a c,
  )

  -- what clearing keeps, the sweep keeps
  pub sweep_pool-preserves :
      (P : Cell → Type 0)
      → ((d : Cell) → P d → P (clear d))
      → (cells : List ℕ) (heap : Heap) (a : ℕ) (c : Cell) → get_elem? heap a ≡ some c
      → P c
      → (d : Cell) × (get_elem? (sweep_pool strong marks clear cells heap).0 a ≡ some d) × P d
  unfolding sweep_pool
  sweep_pool-preserves P keeps [] heap a c e p = (c, e, p)
  sweep_pool-preserves P keeps (b ∷ cells) heap a c e p = elim (Bool-cases (strong heap b)) [
    | inr gone ↦ rw gone (sweep_pool-preserves P keeps cells heap a c e p)
    | inl alive ↦ elim (Bool-cases (has marks b)) [
      | inl old ↦ rw (alive, old) (sweep_pool-preserves P keeps cells heap a c e p)
      | inr new ↦
          rw (alive, new)
            (sweep_pool-preserves P keeps cells (modify heap b clear) a
              (if b == a then clear c else c) (get_elem?-modify heap b a clear c e)
              (if_either P (b == a) (keeps c p) p))
    ]
  ]

-- the registry's list for a set
abbrev pub tracked : Pool → GcRegistry → List ℕ
tracked objects r = r.objects
tracked arrays r = r.arrays
tracked upvalues r = r.upvalues
tracked seen r = []

-- an emptied cell of one of the three pools, which holds no reference
abbrev pub IsEmptied : Pool → Cell → Type 0
IsEmptied objects (object_cell o) = o.entries ≡ []
IsEmptied arrays (array_cell vs) = vs ≡ []
IsEmptied upvalues (upvalue_cell u) = u ≡ closed undefined
IsEmptied _ _ = ⊥

pub clear_object-keeps : (p : Pool) (d : Cell) → IsEmptied p d → IsEmptied p (clear_object d)
unfolding gc_clear
clear_object-keeps objects (object_cell o) h = refl
clear_object-keeps arrays (array_cell vs) h = h
clear_object-keeps upvalues (upvalue_cell u) h = h
clear_object-keeps _ _ h = absurd h

pub clear_array-keeps : (p : Pool) (d : Cell) → IsEmptied p d → IsEmptied p (clear_array d)
clear_array-keeps objects (object_cell o) h = h
clear_array-keeps arrays (array_cell vs) h = refl
clear_array-keeps upvalues (upvalue_cell u) h = h
clear_array-keeps _ _ h = absurd h

pub clear_upvalue-keeps : (p : Pool) (d : Cell) → IsEmptied p d → IsEmptied p (clear_upvalue d)
clear_upvalue-keeps objects (object_cell o) h = h
clear_upvalue-keeps arrays (array_cell vs) h = h
clear_upvalue-keeps upvalues (upvalue_cell u) h = refl
clear_upvalue-keeps _ _ h = absurd h

-- a cell that the collection should keep: marked, or of a kind that is never cleared
abbrev pub IsSafe : Marker → ℕ → Cell → Type 0
IsSafe m a c = (marked m (cell_pool c, a) ≡ true) ⊎ (cell_pool c ≡ seen)

clear_object-safe :
    (m : Marker) (a : ℕ) (c : Cell)
    → IsSafe m a c
    → (has m.marked_objects a ≡ true) ⊎ (clear_object c ≡ c)
unfolding marked
clear_object-safe m a (object_cell o) (inl h) = inl h
clear_object-safe m a (object_cell o) (inr h) = cc
clear_object-safe m a _ h = inr refl

clear_array-safe :
    (m : Marker) (a : ℕ) (c : Cell)
    → IsSafe m a c
    → (has m.marked_arrays a ≡ true) ⊎ (clear_array c ≡ c)
unfolding marked
clear_array-safe m a (array_cell vs) (inl h) = inl h
clear_array-safe m a (array_cell vs) (inr h) = cc
clear_array-safe m a _ h = inr refl

clear_upvalue-safe :
    (m : Marker) (a : ℕ) (c : Cell)
    → IsSafe m a c
    → (has m.marked_upvalues a ≡ true) ⊎ (clear_upvalue c ≡ c)
unfolding marked
clear_upvalue-safe m a (upvalue_cell u) (inl h) = inl h
clear_upvalue-safe m a (upvalue_cell u) (inr h) = cc
clear_upvalue-safe m a _ h = inr refl

pub sweep-keeps :
    (strong : Heap → ℕ → Bool) (m : Marker) (r : GcRegistry) (heap : Heap) (a : ℕ) (c : Cell)
    → get_elem? heap a ≡ some c
    → IsSafe m a c
    → get_elem? (sweep strong m r heap).0 a ≡ some c
unfolding sweep
sweep-keeps strong m r heap a c e safe =
    let heap₁ = (sweep_pool strong m.marked_objects clear_object r.objects heap).0 in
    let heap₂ = (sweep_pool strong m.marked_arrays clear_array r.arrays heap₁).0 in
    sweep_pool-keeps strong m.marked_upvalues clear_upvalue r.upvalues heap₂ a c
      (sweep_pool-keeps strong m.marked_arrays clear_array r.arrays heap₁ a c
        (sweep_pool-keeps strong m.marked_objects clear_object r.objects heap a c e
          (clear_object-safe m a c safe))
        (clear_array-safe m a c safe))
      (clear_upvalue-safe m a c safe)
