-- ===== src/Gc/Emptied.antt =====
-- What the sweep of crates/yps-vm/src/gc.rs does to a cell that is not marked: it is emptied, or it
-- had lost its last owner when the sweep came to it.
use mathlib.Core.List.{Memᴰ}
use mathlib.Core.List.Memᴰ
use mathlib.Core.Path.{subst}
use yoptascript_rs.Prelude.{
  ℕ, ◌≡◌, refl, ◌⊎◌, inl, inr, Bool, true, false, some, List, [], ◌∷◌, get_elem?, if◌then◌else◌,
  ◌==◌, arith, Bool-cases,
}
use yoptascript_rs.Gc.Heap.{Cell, array_cell, object_cell, upvalue_cell, Heap}
use yoptascript_rs.Gc.Mark.{Marker, has}
use yoptascript_rs.Gc.Reach.{Pool, objects, arrays, upvalues, seen}
use yoptascript_rs.Gc.Reach.{marked}
use yoptascript_rs.Gc.Ends.{cell_pool}
use yoptascript_rs.Gc.Sweep.{
  GcRegistry, clear_object, clear_array, clear_upvalue, gc_clear, modify, sweep_pool, sweep,
}
use yoptascript_rs.Gc.Clear.{
  tracked, IsEmptied, get_elem?-modify, if_either, sweep_pool-keeps, sweep_pool-preserves,
  clear_object-keeps, clear_array-keeps, clear_upvalue-keeps,
}

-- `Q` holds of the heaps that the sweep passes through
module _ (strong : Heap → ℕ → Bool) (marks : List ℕ) (clear : Cell → Cell) (Q : Heap → Type 0) where
  -- clearing an owned cell of the list that is not marked keeps `Q`
  abbrev pub IsKept : List ℕ → Type 0
  IsKept cells =
      (h : Heap) (b : ℕ)
      → Q h
      → strong h b ≡ true
      → Memᴰ b cells
      → has marks b ≡ false
      → Q (modify h b clear)

  fewer-IsKept : (b : ℕ) (cells : List ℕ) → IsKept (b ∷ cells) → IsKept cells
  fewer-IsKept b cells kept h x q alive m new = kept h x q alive (Memᴰ.tail m) new

  sweep_pool-passes :
      (cells : List ℕ) (heap : Heap)
      → IsKept cells
      → Q heap
      → Q (sweep_pool strong marks clear cells heap).0
  unfolding sweep_pool
  sweep_pool-passes [] heap kept q = q
  sweep_pool-passes (b ∷ cells) heap kept q = elim (Bool-cases (strong heap b)) [
    | inr gone ↦ rw gone (sweep_pool-passes cells heap (fewer-IsKept b cells kept) q)
    | inl alive ↦ elim (Bool-cases (has marks b)) [
      | inl old ↦ rw (alive, old) (sweep_pool-passes cells heap (fewer-IsKept b cells kept) q)
      | inr new ↦
          rw (alive, new)
            (sweep_pool-passes cells (modify heap b clear) (fewer-IsKept b cells kept)
              (kept heap b q alive (Memᴰ.head refl) new))
    ]
  ]

  -- without an owner in a heap that the sweep passes through
  abbrev pub Released : ℕ → Type 0
  Released a = (h : Heap) × Q h × (strong h a ≡ false)

  -- a cell that is not marked is cleared, if it has an owner when its turn comes
  sweep_pool-clears :
      (P : Cell → Type 0)
      → ((d : Cell) → P d → P (clear d))
      → (cells : List ℕ) (heap : Heap) (a : ℕ) (c : Cell) → IsKept cells
      → Q heap
      → has marks a ≡ false
      → Memᴰ a cells
      → get_elem? heap a ≡ some c
      → P (clear c)
      → ((d : Cell) × (get_elem? (sweep_pool strong marks clear cells heap).0 a ≡ some d) × P d)
        ⊎ Released a
  unfolding sweep_pool
  sweep_pool-clears P keeps [] heap a c kept q new h e p = absurd (Memᴰ.not-nil h)
  sweep_pool-clears P keeps (b ∷ cells) heap a c kept q new h e p =
      let fewer = fewer-IsKept b cells kept in
      elim (Memᴰ.cases_cons h) [
        | inl here ↦
            let unmarked : has marks b ≡ false = subst (λ x. has marks x ≡ false) here new in
            elim (Bool-cases (strong heap b)) [
              | inr gone ↦ inr (heap, q, rw here gone)
              | inl alive ↦
                  rw (alive, unmarked)
                    (inl (
                      sweep_pool-preserves strong marks clear P keeps cells (modify heap b clear) a
                        (clear c) (ground (arith, get_elem?-modify heap b a clear c e)) p))
            ]
        | inr later ↦ elim (Bool-cases (strong heap b)) [
          | inr gone ↦ rw gone (sweep_pool-clears P keeps cells heap a c fewer q new later e p)
          | inl alive ↦ elim (Bool-cases (has marks b)) [
            | inl old ↦
                rw (alive, old) (sweep_pool-clears P keeps cells heap a c fewer q new later e p)
            | inr fresh ↦
                rw (alive, fresh)
                  (sweep_pool-clears P keeps cells (modify heap b clear) a
                    (if b == a then clear c else c) fewer
                    (kept heap b q alive (Memᴰ.head refl) fresh) new later
                    (get_elem?-modify heap b a clear c e)
                    (if_either (λ d. P (clear d)) (b == a) (keeps (clear c) p) p))
          ]
        ]
      ]

object-IsEmptied : (c : Cell) → cell_pool c ≡ objects → IsEmptied objects (clear_object c)
unfolding gc_clear
object-IsEmptied (object_cell o) q = refl
object-IsEmptied _ q = cc

array_left : (c : Cell) → cell_pool c ≡ arrays → clear_object c ≡ c
array_left (object_cell o) q = cc
array_left _ q = refl

array-IsEmptied : (c : Cell) → cell_pool c ≡ arrays → IsEmptied arrays (clear_array c)
array-IsEmptied (array_cell vs) q = refl
array-IsEmptied _ q = cc

upvalue_left : (c : Cell) → cell_pool c ≡ upvalues → (clear_object c ≡ c) × (clear_array c ≡ c)
upvalue_left (object_cell o) q = cc
upvalue_left (array_cell vs) q = cc
upvalue_left _ q = (refl, refl)

upvalue-IsEmptied : (c : Cell) → cell_pool c ≡ upvalues → IsEmptied upvalues (clear_upvalue c)
upvalue-IsEmptied (upvalue_cell u) q = refl
upvalue-IsEmptied _ q = cc

-- what the sweep does to a cell of a set
abbrev pub clear_cell : Pool → Cell → Cell
clear_cell objects c = clear_object c
clear_cell arrays c = clear_array c
clear_cell upvalues c = clear_upvalue c
clear_cell seen c = c

module _ (strong : Heap → ℕ → Bool) (m : Marker) (r : GcRegistry) (Q : Heap → Type 0)
    (kept : (p : Pool) (h : Heap) (b : ℕ)
      → Q h
      → strong h b ≡ true
      → Memᴰ b (tracked p r)
      → marked m (p, b) ≡ false
      → Q (modify h b (clear_cell p)))
    (heap : Heap) (q : Q heap) (a : ℕ) (c : Cell) where
  pub sweep-clears :
      (p : Pool)
      → get_elem? heap a ≡ some c
      → cell_pool c ≡ p
      → Memᴰ a (tracked p r)
      → marked m (p, a) ≡ false
      → ((d : Cell) × (get_elem? (sweep strong m r heap).0 a ≡ some d) × IsEmptied p d)
        ⊎ ((h : Heap) × Q h × (strong h a ≡ false))
  unfolding sweep marked
  sweep-clears objects e o listed new =
      let heap₁ = (sweep_pool strong m.marked_objects clear_object r.objects heap).0 in
      let heap₂ = (sweep_pool strong m.marked_arrays clear_array r.arrays heap₁).0 in
      elim (sweep_pool-clears strong m.marked_objects clear_object Q (IsEmptied objects)
        (clear_object-keeps objects) r.objects heap a c (kept objects) q new listed e
        (object-IsEmptied c o)) [
          | inr released ↦ inr released
          | inl (d, e₁, h₁) ↦
              let (d₂, e₂, h₂) =
                sweep_pool-preserves strong m.marked_arrays clear_array (IsEmptied objects)
                  (clear_array-keeps objects) r.arrays heap₁ a d e₁ h₁ in
              inl (
                sweep_pool-preserves strong m.marked_upvalues clear_upvalue (IsEmptied objects)
                  (clear_upvalue-keeps objects) r.upvalues heap₂ a d₂ e₂ h₂)
        ]
  sweep-clears arrays e o listed new =
      let heap₁ = (sweep_pool strong m.marked_objects clear_object r.objects heap).0 in
      let heap₂ = (sweep_pool strong m.marked_arrays clear_array r.arrays heap₁).0 in
      let q₁ : Q heap₁ =
        sweep_pool-passes strong m.marked_objects clear_object Q r.objects heap (kept objects) q in
      elim (sweep_pool-clears strong m.marked_arrays clear_array Q (IsEmptied arrays)
        (clear_array-keeps arrays) r.arrays heap₁ a c (kept arrays) q₁ new listed
        (sweep_pool-keeps strong m.marked_objects clear_object r.objects heap a c e
          (inr (array_left c o)))
        (array-IsEmptied c o)) [
          | inr released ↦ inr released
          | inl (d, e₁, h₁) ↦ inl (
              sweep_pool-preserves strong m.marked_upvalues clear_upvalue (IsEmptied arrays)
                (clear_upvalue-keeps arrays) r.upvalues heap₂ a d e₁ h₁)
        ]
  sweep-clears upvalues e o listed new =
      let heap₁ = (sweep_pool strong m.marked_objects clear_object r.objects heap).0 in
      let heap₂ = (sweep_pool strong m.marked_arrays clear_array r.arrays heap₁).0 in
      let q₁ : Q heap₁ =
        sweep_pool-passes strong m.marked_objects clear_object Q r.objects heap (kept objects) q in
      let q₂ : Q heap₂ =
        sweep_pool-passes strong m.marked_arrays clear_array Q r.arrays heap₁ (kept arrays) q₁ in
      let (left₁, left₂) = upvalue_left c o in
      sweep_pool-clears strong m.marked_upvalues clear_upvalue Q (IsEmptied upvalues)
        (clear_upvalue-keeps upvalues) r.upvalues heap₂ a c (kept upvalues) q₂ new listed
        (sweep_pool-keeps strong m.marked_arrays clear_array r.arrays heap₁ a c
          (sweep_pool-keeps strong m.marked_objects clear_object r.objects heap a c e (inr left₁))
          (inr left₂))
        (upvalue-IsEmptied c o)
  sweep-clears seen e o listed new = absurd (Memᴰ.not-nil listed)
