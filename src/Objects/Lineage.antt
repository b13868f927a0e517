-- ===== src/Objects/Lineage.antt =====
-- The lookups along parent classes of crates/yps-vm/src/value.rs end, and find what the nearest
-- class of the lineage gives.
use mathlib.Core.Path.{subst}
use yoptascript_rs.Prelude.{
  ℕ, zero, suc, ◌<◌, ◌≡◌, ap, ◌↔◌, inl, inr, Bool, true, false, Option, none, some, length,
  get_elem?, arith, Option-cases, Bool-cases, lt_of_get_elem?, ◌==◌, if◌then◌else◌, ==_iff,
}
use yoptascript_rs.Gc.Heap.{ClassDef, class_cell, Heap}
use yoptascript_rs.Objects.Classes.{climb, is_subclass_of, answered}

-- A parent class exists before the classes that extend it.
pub record IsHierarchy (heap : Heap) : Type 0 where
  pub parents_older :
      (a p : ℕ) (c : ClassDef)
      → get_elem? heap a ≡ some (class_cell c)
      → c.parent ≡ some p
      → (d : ClassDef) × (get_elem? heap p ≡ some (class_cell d)) × (p < a)

-- The nearest class of the lineage of `a` that gives a result gives `r`.
pub data Resolves {R : Type 0} (look : ℕ → ClassDef → Option R) (heap : Heap) : ℕ → R → Type 0 where
  own :
      {a : ℕ} {c : ClassDef} {r : R}
      → get_elem? heap a ≡ some (class_cell c)
      → look a c ≡ some r
      → Resolves look heap a r
  inherited :
      {a p : ℕ} {c : ClassDef} {r : R}
      → get_elem? heap a ≡ some (class_cell c)
      → look a c ≡ none
      → c.parent ≡ some p
      → Resolves look heap p r
      → Resolves look heap a r

module _ {R : Type 0} (look : ℕ → ClassDef → Option R) (heap : Heap) (h : IsHierarchy heap) where
  climb_total :
      (n a : ℕ) (c : ClassDef)
      → a < n
      → get_elem? heap a ≡ some (class_cell c)
      → (o : Option R) × (climb look n heap a ≡ some o)
  unfolding climb
  climb_total zero a c below here = elim below [ ]
  climb_total (suc n) a c below here = elim (Option-cases (look a c)) [
    | inr (r, e) ↦ (some r, ground arith)
    | inl e ↦ elim (Option-cases c.parent) [
      | inl root ↦ (none, ground arith)
      | inr (p, q) ↦
          let (d, there, older) = h.parents_older a p c here q in
          let (o, rest) = climb_total n p d (omega arith) there in (o, ground arith)
    ]
  ]

  climb_found-Resolves :
      (n a : ℕ) (c : ClassDef) (r : R)
      → get_elem? heap a ≡ some (class_cell c)
      → climb look n heap a ≡ some (some r)
      → Resolves look heap a r
  unfolding climb
  climb_found-Resolves zero a c r here e = cc
  climb_found-Resolves (suc n) a c r here e = elim (Option-cases (look a c)) [
    | inr (s, found) ↦ own here (ground arith)
    | inl missing ↦ elim (Option-cases c.parent) [
      | inl root ↦ absurd (ground arith)
      | inr (p, q) ↦
          let (d, there, older) = h.parents_older a p c here q in
          inherited here missing q (climb_found-Resolves n p d r there (ground arith))
    ]
  ]

  Resolves-climb :
      (n a : ℕ) (r : R) → a < n → Resolves look heap a r → climb look n heap a ≡ some (some r)
  unfolding climb
  Resolves-climb zero a r below found = elim below [ ]
  Resolves-climb (suc n) a r below (own here e) = ground arith
  Resolves-climb (suc n) a r below (inherited {p = p} {c = c} here e q rest) =
      let (d, there, older) = h.parents_older a p c here q in
      ground (arith, Resolves-climb n p r (omega arith) rest)

  -- On a hierarchy of classes, a lookup that starts at a class ends, and its result is `r` exactly
  -- if the nearest class of the lineage that gives a result gives `r`.
  pub climb-Resolves :
      (a : ℕ) (c : ClassDef) (r : R)
      → get_elem? heap a ≡ some (class_cell c)
      → ((o : Option R) × (climb look (length heap) heap a ≡ some o))
        × ((climb look (length heap) heap a ≡ some (some r)) ↔ Resolves look heap a r)
  climb-Resolves a c r here =
      let below = lt_of_get_elem? heap a (class_cell c) here in
      (
        climb_total (length heap) a c below here,
        (climb_found-Resolves (length heap) a c r here, Resolves-climb (length heap) a r below),
      )

-- `b` is `a` or a class that `a` extends, directly or not
pub data Extends (heap : Heap) : ℕ → ℕ → Type 0 where
  same : {a : ℕ} {c : ClassDef} → get_elem? heap a ≡ some (class_cell c) → Extends heap a a
  parent :
      {a p b : ℕ} {c : ClassDef}
      → get_elem? heap a ≡ some (class_cell c)
      → c.parent ≡ some p
      → Extends heap p b
      → Extends heap a b

abbrev is_target : ℕ → ℕ → ClassDef → Option Bool
is_target target b c = if b == target then some true else none

module _ (heap : Heap) (b : ℕ) where
  Resolves-Extends :
      (a : ℕ) (r : Bool) → Resolves (is_target b) heap a r → Extends heap a b × (r ≡ true)
  Resolves-Extends a r (own here e) =
      let found : a ≡ b = ground (arith, ==_iff a b) in
      (subst (Extends heap a) found (same here), ground arith)
  Resolves-Extends a r (inherited {p = p} here e q rest) =
      let (up, true_) = Resolves-Extends p r rest in (parent here q up, true_)

answered_total :
    (o : Option Bool) {x : Option (Option Bool)} → x ≡ some o → (r : Bool) × (answered x ≡ some r)
answered_total none e = (false, ap answered e)
answered_total (some r) e = (r, ap answered e)

answered-true : (x : Option (Option Bool)) → answered x ≡ some true → x ≡ some (some true)
answered-true none e = cc
answered-true (some none) e = cc
answered-true (some (some r)) e = cc

module _ (heap : Heap) where
  Extends-Resolves : (a b : ℕ) → Extends heap a b → Resolves (is_target b) heap a true
  Extends-Resolves a b (same here) = own here (ground (arith, ==_iff a a))
  Extends-Resolves a b (parent {p = p} {c = c} here q up) = elim (Bool-cases (a == b)) [
    | inl found ↦ own here (ground arith)
    | inr other ↦ inherited here (ground arith) q (Extends-Resolves p b up)
  ]

  -- On a hierarchy of classes, `is_subclass_of` returns, and says `true` exactly if the class is
  -- the target or extends it, directly or not.
  pub is_subclass_of-Extends :
      IsHierarchy heap
      → (a b : ℕ) (c : ClassDef) → get_elem? heap a ≡ some (class_cell c)
      → ((r : Bool) × (is_subclass_of heap a b ≡ some r))
        × ((is_subclass_of heap a b ≡ some true) ↔ Extends heap a b)
  unfolding is_subclass_of
  is_subclass_of-Extends h a b c here =
      let (ends, decides) = climb-Resolves (is_target b) heap h a c true here in
      let (o, e) = ends in
      (
        answered_total o e,
        (
          λ q. (Resolves-Extends heap b a true (decides.0 (answered-true _ q))).0,
          λ up. ap answered (decides.1 (Extends-Resolves a b up)),
        ),
      )
