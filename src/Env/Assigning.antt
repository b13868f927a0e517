-- ===== src/Env/Assigning.antt =====
-- Assignment in crates/yps-interpreter/src/interpreter/assign.rs and the copies of a scope that
-- crates/yps-interpreter/src/environment.rs makes for the rounds of a loop.
use yoptascript_rs.Prelude.{
  ℕ, suc, ◌<◌, ◌-◌, ◌≡◌, ◌≢◌, refl, ◌∙◌, ap, Bool, true, false, String, Option, none, some, List,
  [], ◌∷◌, ◌++◌, length, inl, inr, get_elem?, get_elem?_of_lt, arith, if◌then◌else◌,
  get_elem?-append_left, get_elem?-append_end, length-append,
}
use mathlib.Core.Path.{subst}
use text.Mathlib.TextEquality.{eq_iff}
use yoptascript_rs.Prelude.Names.{lookup}
use yoptascript_rs.Env.Frame.{EnvFrame, Environment, IsValid}
use yoptascript_rs.Env.Ops.{
  push_scope, lookup_read, fork_current, from_snapshot, define, enter, is_const, get, get_shallow,
  current_frame,
}
use yoptascript_rs.Env.Assign
use yoptascript_rs.Env.Assign.{set_variable, immutable, undefined}
use yoptascript_rs.Env.Chain.{scopes, any_const, first_entry, is_const-eq, lookup_read-eq}
use yoptascript_rs.Env.Valid.{push_scope-IsValid, fork_current-IsValid}
use yoptascript_rs.Env.Blocks.{act_all, scopes-block, block-IsBlockOf, IsBlockOf}
use yoptascript_rs.Env.Resolve.{
  owner, resolve-here, read_back, set-eq, is_bound, assigned, wrote_at,
}
use yoptascript_rs.Env.Visible.{defined_reads, above, chain-cons}
use yoptascript_rs.Env.Laws.{chain-agree, chain-fuel}
use yoptascript_rs.Env.Resolve.{slot, get_at}

module _ {V : Type 0} where
  -- `set_variable` returns. It refuses a name that is constant in any scope of the chain, then a
  -- name that no scope binds, and writes to the innermost binding otherwise.
  pub set_variable_cases :
      (name : String) (v : V) (env : Environment V)
      → IsValid env
      → set_variable name v env
        ≡ some (
            if any_const name (scopes env)
            then inl (immutable name)
            else if is_bound (owner name env)
            then inr (assigned name v env)
            else inl (undefined name))
  unfolding set_variable
  set_variable_cases name v env valid =
      ground (arith, is_const-eq name env valid, set-eq name v env valid)

  -- A block that declares a variable with the name of a constant around it cannot assign to its own
  -- variable.
  pub shadow_is_immutable :
      (strong : ℕ → Bool) (name : String) (v w : V) (env : Environment V)
      → IsValid env
      → is_const name env ≡ some true
      → let inner = define name v false (push_scope strong env) in
        (get name inner ≡ some (some v)) × (set_variable name w inner ≡ some (inl (immutable name)))
  unfolding any_const set_variable
  shadow_is_immutable strong name v w env valid const =
      let inner = push_scope strong env in
      let valid' = push_scope-IsValid strong env valid in
      let block : IsBlockOf env inner = unfold act_all in block-IsBlockOf strong [] env in
      let outside : any_const name (scopes env) ≡ true =
        ground (arith, is_const-eq name env valid) in
      let inherited : is_const name inner ≡ some true =
        rw (is_const-eq name inner valid', scopes-block env inner valid block) (ground arith) in
      let (reads, consts, _) = defined_reads name name v false inner valid' in
      let fixed : is_const name (define name v false inner) ≡ some true = consts ∙ inherited in
      (ground (arith, reads, eq_iff name name), ground (arith, fixed))

  -- Of two scopes with a binding of their own each, a write in one is not seen in the other.
  write_apart :
      (name : String) (v w u : V) (env : Environment V) (b : ℕ) (f g : EnvFrame V)
      → IsValid env
      → b < length env.heap
      → b ≢ env.current
      → current_frame env ≡ some f
      → lookup name f.bindings ≡ some w
      → get_elem? env.heap b ≡ some g
      → lookup name g.bindings ≡ some u
      → (Assign.set name v env ≡ some (assigned name v env, true))
        × (get name env ≡ some (some w))
        × (get name (assigned name v env) ≡ some (some v))
        × (get name (from_snapshot b (assigned name v env)) ≡ some (some u))
  unfolding from_snapshot slot
  write_apart name v w u env b f g valid h apart here bound there bound' =
      let rounds = length env.heap - 1 in
      let more : length env.heap ≡ suc rounds = omega (arith, valid.allocated) in
      let own : owner name env ≡ some env.current =
        resolve-here (length env.heap) rounds name env.heap env.current f w more here bound in
      let other : owner name (from_snapshot b env) ≡ some b =
        resolve-here (length env.heap) rounds name env.heap b g u more there bound' in
      let reads = get_at name env.current env valid valid.allocated in
      let reads_b = get_at name b env valid h in
      let kept : get name (from_snapshot b env) ≡ some (some u) =
        reads_b ∙ rw other (ground arith) in
      let back =
        read_back name v env valid env.current name (owner name env) refl valid.allocated in
      let back_b = read_back name v env valid b name (owner name env) refl h in
      (
        set-eq name v env valid
            ∙ ap
                (λ o.
                  some (
                    record env { heap = (wrote_at name v env.heap (owner name env)).0 },
                    is_bound o,
                  ))
                own,
        reads ∙ rw own (ground arith),
        back ∙ rw own (ground (arith, eq_iff name name)),
        back_b ∙ rw (own, other, kept) (ground (arith, eq_iff name name)),
      )

  above-append :
      (env : Environment V) (extra : List (EnvFrame V)) (f : EnvFrame V) (o : Option ℕ)
      → IsValid env
      → current_frame env ≡ some f
      → f.parent ≡ o
      → above (length env.heap) (env.heap ++ extra) o ≡ above (length env.heap - 1) env.heap o
  above-append env extra f none valid e q = refl
  above-append env extra f (some p) valid e q =
      let older = valid.linked.older env.current p f e q in
      chain-agree (length env.heap) env.heap (env.heap ++ extra) (length env.heap) p valid.linked
        (λ b h. get_elem?-append_left env.heap extra b h) (omega (arith, older, valid.allocated))
      ∙ chain-fuel (length env.heap) (length env.heap - 1) env.heap p valid.linked
          (omega (arith, older, valid.allocated)) (omega (arith, older, valid.allocated))

  -- the scopes of a copy of the current frame: the copy, and the scopes around the frame
  scopes-enter :
      (strong : ℕ → Bool) (env : Environment V) (copy f : EnvFrame V)
      → IsValid env
      → current_frame env ≡ some f
      → copy.parent ≡ f.parent
      → (rest : List (EnvFrame V)) × (scopes env ≡ f ∷ rest)
        × (scopes (enter strong copy env) ≡ copy ∷ rest)
  scopes-enter strong env copy f valid here same =
      let rounds = length env.heap - 1 in
      let more : length env.heap ≡ suc rounds = omega (arith, valid.allocated) in
      let heap' = env.heap ++ copy ∷ [] in
      let more' : length heap' ≡ suc (length env.heap) =
        omega (arith, length-append {0} env.heap (copy ∷ [])) in
      (
        above rounds env.heap f.parent,
        chain-cons (length env.heap) rounds env.heap env.current f more here,
        chain-cons (length heap') (length env.heap) heap' (length env.heap) copy more'
              (get_elem?-append_end env.heap copy)
            ∙ ap (λ o. copy ∷ above (length env.heap) heap' o) same
            ∙ ap (λ fs. copy ∷ fs) (above-append env (copy ∷ []) f f.parent valid here refl),
      )

  -- The copy of a scope that a loop makes for a round reads like the scope, for any name `m`: it has
  -- the same value or is in the dead zone as before, and it is constant as before. A write to a
  -- variable of the scope in that round is not seen by the closures of the round before.
  pub fork_isolates :
      (strong : ℕ → Bool) (name m : String) (v w : V) (env : Environment V)
      → IsValid env
      → get_shallow name env ≡ some w
      → (round : Environment V) × (Assign.set name v (fork_current strong env) ≡ some (round, true))
        × (get name (fork_current strong env) ≡ some (some w))
        × (get name round ≡ some (some v))
        × (get name (from_snapshot env.current round) ≡ some (some w))
        × (lookup_read m (fork_current strong env) ≡ lookup_read m env)
        × (is_const m (fork_current strong env) ≡ is_const m env)
  unfolding fork_current get_shallow from_snapshot first_entry any_const
  fork_isolates strong name m v w env valid local =
      let (f, here) = get_elem?_of_lt env.heap env.current valid.allocated in
      let copy = record f { disposables = [] } in
      let env' = enter strong copy env in
      let forked : fork_current strong env ≡ env' = ground arith in
      let bound : lookup name f.bindings ≡ some w = ground arith in
      let at_old : get_elem? env'.heap env.current ≡ some f =
        get_elem?-append_left env.heap (copy ∷ []) env.current valid.allocated ∙ here in
      let valid' : IsValid env' = subst IsValid forked (fork_current-IsValid strong env valid) in
      let (outer, around, within) = scopes-enter strong env copy f valid here refl in
      let read : lookup_read m env' ≡ lookup_read m env =
        rw (lookup_read-eq m env' valid', lookup_read-eq m env valid, around, within) refl in
      let const : is_const m env' ≡ is_const m env =
        rw (is_const-eq m env' valid', is_const-eq m env valid, around, within) refl in
      let (written, before, after, apart) =
        write_apart name v w w env' env.current copy f valid'
          (omega (arith, length-append {0} env.heap (copy ∷ []), valid.allocated))
          (λ e. omega (arith, valid.allocated)) (get_elem?-append_end env.heap copy) bound at_old
          bound in
      rw forked (assigned name v env', written, before, after, apart, read, const)
