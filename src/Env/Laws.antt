-- ===== src/Env/Laws.antt =====
-- What a program can rely on about the scopes of crates/yps-interpreter/src/environment.rs.
use yoptascript_rs.Prelude.{
  ℕ, zero, suc, ◌<◌, ◌≡◌, ◌≢◌, refl, String, Option, none, some, List, inl, inr, get_elem?,
  Option-cases, arith,
}
use yoptascript_rs.Env.Frame.{EnvFrame, Environment, IsValid, IsLinked}
use yoptascript_rs.Env.Walk.{chain}
use yoptascript_rs.Env.Ops.{is_const, get, lookup_both}
use yoptascript_rs.Env.Chain.{get-eq, is_const-eq, lookup_both-eq}

abbrev pub both : {A B : Type 0} → Option A → Option B → Option (A × B)
both (some a) (some b) = some (a, b)
both (some a) none = none
both none b = none

module _ {V : Type 0} where
  -- One pass of `lookup` over the chain gives what `is_const` and `get` give in two, and returns.
  pub lookup-eq-both :
      (name : String) (env : Environment V)
      → IsValid env
      → (lookup_both name env ≡ both (is_const name env) (get name env))
        × (lookup_both name env ≢ none)
  lookup-eq-both name env valid = (
    rw (lookup_both-eq name env valid, is_const-eq name env valid, get-eq name env valid) refl,
    λ e. cc (lookup_both-eq name env valid),
  )

  -- more rounds than the address of the first frame give the same chain
  pub chain-fuel :
      (n m : ℕ) (heap : List (EnvFrame V)) (a : ℕ)
      → IsLinked heap
      → a < n
      → a < m
      → chain n heap a ≡ chain m heap a
  unfolding chain
  chain-fuel zero m heap a linked h k = elim h [ ]
  chain-fuel (suc n) zero heap a linked h k = elim k [ ]
  chain-fuel (suc n) (suc m) heap a linked h k = elim (Option-cases (get_elem? heap a)) [
    | inl no_frame ↦ ground arith
    | inr (f, e) ↦ elim (Option-cases f.parent) [
      | inl root ↦ ground arith
      | inr (p, q) ↦
          let above = linked.older a p f e q in
          ground (arith, chain-fuel n m heap p linked (omega arith) (omega arith))
    ]
  ]

  -- Frames at addresses from `low` on do not matter to a chain that starts below.
  pub chain-agree :
      (n : ℕ) (heap heap' : List (EnvFrame V)) (low a : ℕ)
      → IsLinked heap
      → ((b : ℕ) → b < low → get_elem? heap' b ≡ get_elem? heap b)
      → a < low
      → chain n heap' a ≡ chain n heap a
  unfolding chain
  chain-agree zero heap heap' low a linked same h = refl
  chain-agree (suc n) heap heap' low a linked same h = elim (Option-cases (get_elem? heap a)) [
    | inl no_frame ↦ ground (arith, same a)
    | inr (f, e) ↦ elim (Option-cases f.parent) [
      | inl root ↦ ground (arith, same a)
      | inr (p, q) ↦
          let above = linked.older a p f e q in
          ground (arith, same a h, chain-agree n heap heap' low p linked same (omega arith))
    ]
  ]
