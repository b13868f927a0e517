-- ===== src/Env/Steps.antt =====
-- The operations of crates/yps-interpreter/src/environment.rs in any order, as a step relation.
use yoptascript_rs.Prelude.{ℕ, ◌<◌, ◌≡◌, Bool, String, some, List, [], ◌++◌, ◌∷◌, length, arith}
use yoptascript_rs.Env.Frame.{Environment, IsValid, gc_clear, modify}
use yoptascript_rs.Env.Ops.{
  new, push_scope, pop_scope, fork_current, from_snapshot, define, mark_tdz, mark_names,
  add_disposable, take_disposables, defined, prune_and_count,
}
use yoptascript_rs.Env.Assign
use yoptascript_rs.Env.Valid.{
  push_scope-IsValid, pop_scope-IsValid, fork_current-IsValid, from_snapshot-IsValid,
  modify-IsValid, mark_names-KeepsParent, new-IsValid, modify-IsLinked, length-modify,
}
use yoptascript_rs.Env.Resolve.{set-IsValid}

module _ {V : Type 0} (strong : ℕ → Bool) where
  -- A closure is entered at a frame that exists, and the collector clears any frame.
  pub data Step (env : Environment V) : Environment V → Type 0 where
    pushes : Step env (push_scope strong env)
    pops : Step env (pop_scope env)
    forks : Step env (fork_current strong env)
    enters : (a : ℕ) → a < length env.heap → Step env (from_snapshot a env)
    defines : (name : String) (v : V) (const : Bool) → Step env (define name v const env)
    marks : (names : List String) → Step env (mark_tdz names env)
    adds : (v : V) (is_await : Bool) → Step env (add_disposable v is_await env)
    takes : Step env (take_disposables env).0
    sets :
        (name : String) (v : V) (env' : Environment V) (wrote : Bool)
        → Assign.set name v env ≡ some (env', wrote)
        → Step env env'
    clears : (a : ℕ) → Step env (record env { heap = modify env.heap a gc_clear })
    prunes : Step env (record env { registry = (prune_and_count strong env.registry).0 })

  pub data Reachable : Environment V → Type 0 where
    initial : Reachable (new strong)
    next : {env env' : Environment V} → Reachable env → Step env env' → Reachable env'

  Step-IsValid : {env env' : Environment V} → Step env env' → IsValid env → IsValid env'
  unfolding define mark_tdz add_disposable take_disposables gc_clear
  Step-IsValid {env} pushes valid = push_scope-IsValid strong env valid
  Step-IsValid {env} pops valid = pop_scope-IsValid strong env valid
  Step-IsValid {env} forks valid = fork_current-IsValid strong env valid
  Step-IsValid {env} (enters a h) valid = from_snapshot-IsValid strong env valid a h
  Step-IsValid {env} (defines name v const) valid =
      modify-IsValid strong env valid (defined name v const) (λ f p e. e)
  Step-IsValid {env} (marks names) valid =
      modify-IsValid strong env valid (mark_names names) (mark_names-KeepsParent names)
  Step-IsValid {env} (adds v is_await) valid =
      modify-IsValid strong env valid
        (λ f. record f { disposables = f.disposables ++ (v, is_await) ∷ [] }) (λ f p e. e)
  Step-IsValid {env} takes valid =
      modify-IsValid strong env valid (λ f. record f { disposables = [] }) (λ f p e. e)
  Step-IsValid {env} (sets name v env' wrote e) valid = set-IsValid name v env env' wrote valid e
  Step-IsValid {env} (clears a) valid = record {
    linked = modify-IsLinked env.heap a gc_clear (λ f p e. cc) valid.linked;
    allocated = omega (arith, length-modify env.heap a gc_clear, valid.allocated);
  }
  Step-IsValid {env} prunes valid = record { linked = valid.linked; allocated = valid.allocated }

  -- In every environment that the operations can build, a frame's parent was allocated before it
  -- and the current frame exists.
  pub Reachable-IsValid : {env : Environment V} → Reachable env → IsValid env
  Reachable-IsValid initial = new-IsValid strong
  Reachable-IsValid (next r s) = Step-IsValid s (Reachable-IsValid r)
