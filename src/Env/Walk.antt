-- ===== src/Env/Walk.antt =====
-- The loop that the lookups of crates/yps-interpreter/src/environment.rs share: look at a frame,
-- return or go on to its parent. `climb` gives `none` if it runs out of rounds; `scope_chain` lists
-- the frames that it passes, and a valid heap makes the two agree.
use yoptascript_rs.Prelude.{
  ℕ, zero, suc, ◌<◌, ◌≡◌, ◌⊎◌, inl, inr, Option, none, some, List, [], ◌∷◌, get_elem?, length,
  get_elem?_of_lt, Option-cases, Sum-cases, arith,
}
use yoptascript_rs.Env.Frame.{EnvFrame, IsLinked}

module _ {V S R : Type 0} (body : EnvFrame V → S → S ⊎ R) (last : S → R) where
  unfoldable pub climb : ℕ → List (EnvFrame V) → ℕ → S → Option R
  climb zero heap a s = none
  climb (suc n) heap a s = elim (get_elem? heap a) [
    | none ↦ none
    | some f ↦ elim (body f s) [
      | inr r ↦ some r
      | inl t ↦ elim f.parent [ none ↦ some (last t) | some p ↦ climb n heap p t ]
    ]
  ]

  unfoldable pub scan : List (EnvFrame V) → S → R
  scan [] s = last s
  scan (f ∷ fs) s = elim (body f s) [ inr r ↦ r | inl t ↦ scan fs t ]

module _ {V : Type 0} where
  unfoldable pub chain : ℕ → List (EnvFrame V) → ℕ → List (EnvFrame V)
  chain zero heap a = []
  chain (suc n) heap a = elim (get_elem? heap a) [
    | none ↦ []
    | some f ↦ f ∷ elim f.parent [ none ↦ [] | some p ↦ chain n heap p ]
  ]

module _ {V S R : Type 0} (body : EnvFrame V → S → S ⊎ R) (last : S → R) where
  pub climb-eq-scan :
      (n : ℕ) (heap : List (EnvFrame V)) (a : ℕ) (s : S)
      → IsLinked heap
      → a < n
      → a < length heap
      → climb body last n heap a s ≡ some (scan body last (chain n heap a) s)
  unfolding climb scan chain
  climb-eq-scan zero heap a s l h k = elim h [ ]
  climb-eq-scan (suc n) heap a s l h k =
      let (f, e) = get_elem?_of_lt heap a k in
      elim (Option-cases f.parent) [
        | inl root ↦ ground arith
        | inr (p, q) ↦ elim (Sum-cases (body f s)) [
          | inl (t, c) ↦
              let above = l.older a p f e q in
              ground (arith, climb-eq-scan n heap p t l (omega arith) (omega arith))
          | inr (r, c) ↦ ground arith
        ]
      ]
