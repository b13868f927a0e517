-- ===== src/Promises/Counting.antt =====
-- How an aggregate of crates/yps-vm/src/promise.rs gathers its results: it waits for as many as it
-- was made for, and then ends with each at its index, whatever the order in which they came.
use yoptascript_rs.Prelude.{
  ℕ, ◌<◌, ◌≡◌, refl, ap, ◌∙◌, inl, inr, Bool, true, Option, none, some, List, [], ◌∷◌, get_elem?,
  set, length, ltb, ◌&&◌, ◌==◌, arith, Bool-cases, if◌then◌else◌, ==_iff, get_elem?-set_self,
  get_elem?-set_ne, length-set,
}
use yoptascript_rs.Gc.Heap.{
  Value, AggregateKind, all, any, AggregateRole, on_fulfill, on_reject, AggregateState,
}
use yoptascript_rs.Promises.Aggregate.{
  Outcome, waiting, resolves_all, rejects_all, record_outcome, counted, recorded,
}

-- the results that come in, with their indices, until the aggregate calls a capability
abbrev pub unless_decided : Outcome → Outcome → Outcome
unless_decided waiting later = later
unless_decided outcome later = outcome

unfoldable pub outcome_of :
    AggregateKind → AggregateRole → AggregateState → List (ℕ × Value) → Outcome
unfolding record_outcome
outcome_of kind role s [] = waiting
outcome_of kind role s (d ∷ ds) =
    let (s₁, outcome) = record_outcome kind role d.0 d.1 s in
    unless_decided outcome (outcome_of kind role s₁ ds)

-- the last result for an index
unfoldable pub value_of : ℕ → List (ℕ × Value) → Option Value
value_of j [] = none
value_of j (d ∷ ds) = elim (value_of j ds) [
  | some w ↦ some w
  | none ↦ if d.0 == j then some d.1 else none
]

unfoldable pub in_range : ℕ → List (ℕ × Value) → Bool
in_range n [] = true
in_range n (d ∷ ds) = ltb d.0 n && in_range n ds

abbrev pub override : Option Value → Option Value → Option Value
override none old = old
override (some v) old = some v

set-override :
    (xs : List Value) (i j : ℕ) (v : Value)
    → i < length xs
    → get_elem? (set xs i v) j ≡ override (if i == j then some v else none) (get_elem? xs j)
set-override xs i j v h = elim (Bool-cases (i == j)) [
  | inl same ↦ ground (arith, ==_iff i j, get_elem?-set_self xs i v h)
  | inr other ↦ ground (arith, ==_iff i j, get_elem?-set_ne xs i j v)
]

-- the list that the aggregate ends with
abbrev Gathers : List Value → List (ℕ × Value) → List Value → Type 0
Gathers old ds rs = (j : ℕ) → (get_elem? rs j ≡ override (value_of j ds) (get_elem? old j))

module _ (done : List Value → Outcome) (i : ℕ) (v : Value) (s : AggregateState) where
  counted-more : 1 < s.remaining → counted done (recorded i v s) ≡ (recorded i v s, waiting)
  counted-more h = ground arith

  counted-last : s.remaining ≡ 1 → (counted done (recorded i v s)).1 ≡ done (set s.results i v)
  counted-last h = ground arith

override-value :
    (old : Option Value) (v : Value) (later : Option Value) (same : Bool)
    → override later (override (if same then some v else none) old)
      ≡ override (elim later [ some w ↦ some w | none ↦ if same then some v else none ]) old
override-value old v none same = refl
override-value old v (some w) same = refl

in_range-head :
    (n : ℕ) (d : ℕ × Value) (ds : List (ℕ × Value))
    → in_range n (d ∷ ds) ≡ true
    → (d.0 < n) × (in_range n ds ≡ true)
unfolding in_range
in_range-head n d ds h = (ground arith, ground arith)

module _ (kind : AggregateKind) (role : AggregateRole) (done : List Value → Outcome)
    (counts : (i : ℕ) (v : Value) (s : AggregateState)
      → record_outcome kind role i v s ≡ counted done (recorded i v s))
    (decides : (rs : List Value) (o : Outcome) → unless_decided (done rs) o ≡ done rs) where
  outcome-more :
      (s : AggregateState) (d : ℕ × Value) (ds : List (ℕ × Value))
      → 1 < s.remaining
      → outcome_of kind role s (d ∷ ds) ≡ outcome_of kind role (recorded d.0 d.1 s) ds
  unfolding outcome_of
  outcome-more s d ds more =
      ap (λ x. unless_decided x.1 (outcome_of kind role x.0 ds))
        (counts d.0 d.1 s ∙ counted-more done d.0 d.1 s more)

  outcome-last :
      (s : AggregateState) (d : ℕ × Value)
      → s.remaining ≡ 1
      → outcome_of kind role s (d ∷ []) ≡ done (set s.results d.0 d.1)
  unfolding outcome_of
  outcome-last s d last =
      ap (λ o. unless_decided o waiting)
        (ap (λ x. x.1) (counts d.0 d.1 s) ∙ counted-last done d.0 d.1 s last)
      ∙ decides (set s.results d.0 d.1) waiting

  waits :
      (s : AggregateState) (ds : List (ℕ × Value))
      → length ds < s.remaining
      → outcome_of kind role s ds ≡ waiting
  unfolding outcome_of
  waits s [] few = refl
  waits s (d ∷ ds) few =
      outcome-more s d ds (omega arith) ∙ waits (recorded d.0 d.1 s) ds (omega arith)

  gathers :
      (s : AggregateState) (d : ℕ × Value) (ds : List (ℕ × Value))
      → in_range (length s.results) (d ∷ ds) ≡ true
      → s.remaining ≡ length (d ∷ ds)
      → (rs : List Value) × (outcome_of kind role s (d ∷ ds) ≡ done rs)
        × Gathers s.results (d ∷ ds) rs
  unfolding value_of
  gathers s d [] ok enough =
      let (low, rest) = in_range-head (length s.results) d [] ok in
      (
        set s.results d.0 d.1,
        outcome-last s d (omega arith),
        λ j. set-override s.results d.0 j d.1 low,
      )
  gathers s d (e ∷ ds) ok enough =
      let (low, rest) = in_range-head (length s.results) d (e ∷ ds) ok in
      let range : in_range (length (recorded d.0 d.1 s).results) (e ∷ ds) ≡ true =
        ap (λ n. in_range n (e ∷ ds)) (length-set s.results d.0 d.1) ∙ rest in
      let (rs, ends, right) = gathers (recorded d.0 d.1 s) e ds range (omega arith) in
      (
        rs,
        outcome-more s d (e ∷ ds) (omega arith) ∙ ends,
        λ j.
            right j
            ∙ ap (override (value_of j (e ∷ ds))) (set-override s.results d.0 j d.1 low)
            ∙ override-value (get_elem? s.results j) d.1 (value_of j (e ∷ ds)) (d.0 == j),
      )

-- what an aggregate that counts its results comes to
abbrev pub CountsTo :
    AggregateKind
    → AggregateRole
    → (List Value → Outcome)
    → AggregateState
    → List (ℕ × Value)
    → Type 0
CountsTo kind role done s ds =
    (rs : List Value) × (outcome_of kind role s ds ≡ done rs) × Gathers s.results ds rs

-- An aggregate that has to count waits while fewer results came in than it counts; this holds of
-- `all` for fulfilments and of `any` for rejections.
pub aggregate_waits :
    (s : AggregateState) (ds : List (ℕ × Value))
    → length ds < s.remaining
    → (outcome_of all on_fulfill s ds ≡ waiting) × (outcome_of any on_reject s ds ≡ waiting)
unfolding record_outcome
aggregate_waits s ds few = (
  waits all on_fulfill resolves_all (λ i v s. refl) (λ rs o. refl) s ds few,
  waits any on_reject rejects_all (λ i v s. refl) (λ rs o. refl) s ds few,
)

-- When as many results came in as the aggregate counts, each at an index of its list and in
-- whatever order, `all` resolves, after fulfilments, and `any` rejects, after rejections, with the
-- list that has at each index the last result for it, or what stood there if none came.
pub aggregate_gathers :
    (s : AggregateState) (d : ℕ × Value) (ds : List (ℕ × Value))
    → in_range (length s.results) (d ∷ ds) ≡ true
    → s.remaining ≡ length (d ∷ ds)
    → CountsTo all on_fulfill resolves_all s (d ∷ ds)
      × CountsTo any on_reject rejects_all s (d ∷ ds)
unfolding record_outcome
aggregate_gathers s d ds ok enough = (
  gathers all on_fulfill resolves_all (λ i v s. refl) (λ rs o. refl) s d ds ok enough,
  gathers any on_reject rejects_all (λ i v s. refl) (λ rs o. refl) s d ds ok enough,
)
