-- ===== src/Env/Assign.antt =====
-- Assignment to a variable: `Environment::set` of crates/yps-interpreter/src/environment.rs and
-- `set_variable` of crates/yps-interpreter/src/interpreter/assign.rs.
use yoptascript_rs.Prelude.{
  ℕ, zero, suc, ◌⊎◌, inl, inr, Bool, true, false, String, Option, none, some, List, get_elem?,
  length,
}
use yoptascript_rs.Prelude.Names.{lookup}
use yoptascript_rs.Env.Frame.{EnvFrame, Environment, modify, rebind}
use yoptascript_rs.Env.Ops.{is_const}

pub data AssignError : Type 0 where
  immutable undefined : String → AssignError

module _ {V : Type 0} where
  unfoldable pub set_from :
      ℕ → String → V → List (EnvFrame V) → ℕ → Option (List (EnvFrame V) × Bool)
  unfolding rebind
  set_from zero name value heap a = none
  set_from (suc n) name value heap a = elim (get_elem? heap a) [
    | none ↦ none
    | some f ↦ elim (lookup name f.bindings) [
      | some slot ↦ some (modify heap a (rebind name value), true)
      | none ↦ elim f.parent [ none ↦ some (heap, false) | some p ↦ set_from n name value heap p ]
    ]
  ]

  unfoldable pub set : String → V → Environment V → Option (Environment V × Bool)
  unfolding set_from
  set name value env = elim (set_from (length env.heap) name value env.heap env.current) [
    | none ↦ none
    | some (heap, wrote) ↦ some (record env { heap = heap }, wrote)
  ]

  abbrev pub checked : String → Option (Environment V × Bool) → Option (AssignError ⊎ Environment V)
  checked name none = none
  checked name (some (env, true)) = some (inr env)
  checked name (some (env, false)) = some (inl (undefined name))

  unfoldable pub set_variable : String → V → Environment V → Option (AssignError ⊎ Environment V)
  unfolding is_const set
  set_variable name value env = elim (is_const name env) [
    | none ↦ none
    | some true ↦ some (inl (immutable name))
    | some false ↦ checked name (set name value env)
  ]
