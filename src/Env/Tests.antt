-- ===== src/Env/Tests.antt =====
-- Runs of the scopes of crates/yps-interpreter/src/environment.rs, and the theorems at inputs.
use yoptascript_rs.Prelude.{
  ℕ, ◌<◌, ◌≡◌, ◌≢◌, refl, Bool, true, false, String, none, some, [], ◌∷◌, length, inl, inr, arith,
  if◌then◌else◌, ◌++◌, ◌&&◌, ◌||◌, ◌⊎◌,
}
use text.Mathlib.Text.{◌==◌ as str_eq}
use yoptascript_rs.Prelude.Names.{contains, lookup, insert, add, remove}
use yoptascript_rs.Env.Frame.{Environment, EnvFrame, IsValid, found, in_tdz}
use yoptascript_rs.Env.Ops.{
  current_frame, new, push_scope, pop_scope, fork_current, from_snapshot, define, mark_tdz,
  lookup_read, is_const, get, get_shallow, lookup_both, register, new_registry, retain, live_frames,
  prune_and_count,
}
use yoptascript_rs.Env.Assign
use yoptascript_rs.Env.Assign.{set_variable, immutable, undefined}
use yoptascript_rs.Env.Chain.{scopes, any_const}
use yoptascript_rs.Env.Resolve.{set-get, same_slot, owner, is_bound, assigned}
use yoptascript_rs.Env.Steps.{Reachable, Reachable-IsValid, initial, next, pushes, defines}
use yoptascript_rs.Env.Laws.{both, lookup-eq-both}
use yoptascript_rs.Env.Blocks.{declares, hoists, act_all, block_restores}
use yoptascript_rs.Env.Visible.{is_free, hoisted_reads, defined_reads}
use yoptascript_rs.Env.Assigning.{set_variable_cases, shadow_is_immutable, fork_isolates}
use yoptascript_rs.Env.Registry.{prune_unobserved, IsBounded, IsMarked, register-IsBounded}

abbrev all_alive : ℕ → Bool
all_alive a = true

-- const x = 1; let y = 2;
abbrev outer : Environment ℕ
outer = define "y" 2 false (define "x" 1 true (new all_alive))

-- { let z = 3; let x = 4;
abbrev inner : Environment ℕ
inner = define "x" 4 false (define "z" 3 false (push_scope all_alive outer))

outer-Reachable : Reachable all_alive outer
outer-Reachable = next (next initial (defines "x" 1 true)) (defines "y" 2 false)

inner-Reachable : Reachable all_alive inner
inner-Reachable =
    next (next (next outer-Reachable pushes) (defines "z" 3 false)) (defines "x" 4 false)

Reachable-IsValid_example : IsValid inner
Reachable-IsValid_example = Reachable-IsValid all_alive inner-Reachable

outer-IsValid : IsValid outer
outer-IsValid = Reachable-IsValid all_alive outer-Reachable

inner-IsValid : IsValid inner
inner-IsValid = Reachable-IsValid all_alive inner-Reachable

inner_runs :
    (get "x" inner ≡ some (some 4))
    × (get "y" inner ≡ some (some 2))
    × (get "w" inner ≡ some none)
    × (is_const "y" inner ≡ some false)
    × (get "x" (pop_scope inner) ≡ some (some 1))
unfolding get new define push_scope pop_scope is_const lookup insert contains add remove
inner_runs = (refl, refl, refl, refl, refl)

-- The block's own `x` is refused, since the outer one is a constant.
assign_runs :
    (set_variable "x" 5 inner ≡ some (inl (immutable "x")))
    × (set_variable "w" 5 inner ≡ some (inl (undefined "w")))
unfolding set_variable new define push_scope lookup insert contains add remove
assign_runs = (refl, refl)

lookup-eq-both_example :
    (lookup_both "x" inner ≡ both (is_const "x" inner) (get "x" inner))
    × (lookup_both "x" inner ≢ none)
lookup-eq-both_example = lookup-eq-both "x" inner inner-IsValid

set-get_example :
    (env' : Environment ℕ) × (Assign.set "y" 7 inner ≡ some (env', is_bound (owner "y" inner)))
    × ((b : ℕ) (m : String)
        → b < length inner.heap
        → get m (from_snapshot b env') ≡ (
            if same_slot "y" (owner "y" inner) m (owner m (from_snapshot b inner))
            then some (some 7)
            else get m (from_snapshot b inner)))
set-get_example = set-get "y" 7 inner inner-IsValid

block_restores_example :
    scopes (
      pop_scope
        (act_all (hoists ("x" ∷ []) ∷ declares "x" 9 false ∷ []) (push_scope all_alive inner)))
    ≡ scopes inner
block_restores_example =
    block_restores all_alive (hoists ("x" ∷ []) ∷ declares "x" 9 false ∷ []) inner inner-IsValid

hoisted_reads_example :
    (lookup_read "y" (mark_tdz ("y" ∷ []) inner)
      ≡ (if contains ("y" ∷ []) "y" then some in_tdz else lookup_read "y" inner))
    × (lookup_read "y" (define "y" 8 false (mark_tdz ("y" ∷ []) inner)) ≡ some (found 8))
    × (f : EnvFrame ℕ) × (g : EnvFrame ℕ) × (current_frame inner ≡ some f)
    × (current_frame (mark_tdz ("y" ∷ []) inner) ≡ some g)
    × (g.bindings ≡ f.bindings)
    × (g.constants ≡ f.constants)
    × (g.parent ≡ f.parent)
    × (contains g.tdz "x" ≡ ((contains ("y" ∷ []) "x" && is_free "x" f) || contains f.tdz "x"))
unfolding get_shallow new define push_scope lookup insert
hoisted_reads_example = hoisted_reads ("y" ∷ []) inner "y" "x" 8 false inner-IsValid refl

defined_reads_example :
    (get "y" (define "z" 6 true inner) ≡ (if str_eq "z" "y" then some (some 6) else get "y" inner))
    × (is_const "y" (define "z" 6 true inner)
        ≡ (if true && str_eq "z" "y" then some true else is_const "y" inner))
    × (lookup_read "y" (define "z" 6 true inner)
        ≡ (if str_eq "z" "y" then some (found 6) else lookup_read "y" inner))
defined_reads_example = defined_reads "z" "y" 6 true inner inner-IsValid

set_variable_cases_example :
    set_variable "z" 5 inner
    ≡ some (
        if any_const "z" (scopes inner)
        then inl (immutable "z")
        else if is_bound (owner "z" inner)
        then inr (assigned "z" 5 inner)
        else inl (undefined "z"))
set_variable_cases_example = set_variable_cases "z" 5 inner inner-IsValid

shadow_is_immutable_example :
    (get "x" (define "x" 4 false (push_scope all_alive outer)) ≡ some (some 4))
    × (set_variable "x" 5 (define "x" 4 false (push_scope all_alive outer))
        ≡ some (inl (immutable "x")))
unfolding is_const new define contains add insert remove
shadow_is_immutable_example = shadow_is_immutable all_alive "x" 4 5 outer outer-IsValid refl

fork_isolates_example :
    (round : Environment ℕ) × (Assign.set "z" 9 (fork_current all_alive inner) ≡ some (round, true))
    × (get "z" (fork_current all_alive inner) ≡ some (some 3))
    × (get "z" round ≡ some (some 9))
    × (get "z" (from_snapshot inner.current round) ≡ some (some 3))
    × (lookup_read "x" (fork_current all_alive inner) ≡ lookup_read "x" inner)
    × (is_const "x" (fork_current all_alive inner) ≡ is_const "x" inner)
unfolding get_shallow new define push_scope lookup insert
fork_isolates_example = fork_isolates all_alive "z" "x" 9 3 inner inner-IsValid refl

prune_unobserved_example :
    (live_frames (λ x. false) (register all_alive 5 new_registry)
      ≡ retain (λ x. false) (new_registry.frames ++ 5 ∷ []))
    × (live_frames (λ x. false) (prune_and_count all_alive new_registry).0
        ≡ live_frames (λ x. false) new_registry)
    × ((prune_and_count all_alive new_registry).1 ≡ length (live_frames all_alive new_registry))
prune_unobserved_example = prune_unobserved all_alive (λ x. false) 5 new_registry (λ x e. refl)

register-IsBounded_example :
    IsBounded (register all_alive 5 new_registry)
    × (((register all_alive 5 new_registry).prune_at ≡ new_registry.prune_at)
        ⊎ IsMarked (register all_alive 5 new_registry))
    × IsBounded (prune_and_count all_alive new_registry).0
    × IsMarked (prune_and_count all_alive new_registry).0
    × IsBounded new_registry
    × IsMarked new_registry
unfolding new_registry
register-IsBounded_example = register-IsBounded all_alive 5 new_registry (omega arith)
