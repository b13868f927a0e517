-- ===== src/Env/Chain.antt =====
-- What the loops over a scope chain compute, read off the list of its frames.
use yoptascript_rs.Prelude.{
  ◌≡◌, refl, ◌∙◌, ap, ◌⊎◌, Bool, true, false, ◌||◌, String, Option, none, some, List, [], ◌∷◌,
  length, if◌then◌else◌, arith,
}
use yoptascript_rs.Prelude.Names.{lookup, contains}
use yoptascript_rs.Env.Frame.{EnvFrame, Lookup, found, in_tdz, missing, Environment, IsValid}
use yoptascript_rs.Env.Walk.{climb, scan, chain, climb-eq-scan}
use yoptascript_rs.Env.Ops.{
  read_step, lookup_read, const_step, is_const, get_step, get, lookup_step, lookup_both,
}

module _ {V : Type 0} where
  -- the frames that a lookup from the current scope passes, innermost first
  abbrev pub scopes : Environment V → List (EnvFrame V)
  scopes env = chain (length env.heap) env.heap env.current

  unfoldable pub first_bound : String → List (EnvFrame V) → Option V
  first_bound name [] = none
  first_bound name (f ∷ fs) = elim (lookup name f.bindings) [
    | some v ↦ some v
    | none ↦ first_bound name fs
  ]

  unfoldable pub any_const : String → List (EnvFrame V) → Bool
  any_const name [] = false
  any_const name (f ∷ fs) = contains f.constants name || any_const name fs

  unfoldable pub first_entry : String → List (EnvFrame V) → Lookup V
  first_entry name [] = missing
  first_entry name (f ∷ fs) = elim (lookup name f.bindings) [
    | some v ↦ found v
    | none ↦ if contains f.tdz name then in_tdz else first_entry name fs
  ]

  scan-get :
      (name : String) (fs : List (EnvFrame V))
      → scan (get_step name) (λ _. none) fs tt ≡ first_bound name fs
  unfolding scan get_step first_bound
  scan-get name [] = refl
  scan-get name (f ∷ fs) = ground (arith, scan-get name fs)

  scan-const :
      (name : String) (fs : List (EnvFrame V))
      → scan (const_step name) (λ _. false) fs tt ≡ any_const name fs
  unfolding scan const_step any_const
  scan-const name [] = refl
  scan-const name (f ∷ fs) = ground (arith, scan-const name fs)

  scan-read :
      (name : String) (fs : List (EnvFrame V))
      → scan (read_step name) (λ _. missing) fs tt ≡ first_entry name fs
  unfolding scan read_step first_entry
  scan-read name [] = refl
  scan-read name (f ∷ fs) = ground (arith, scan-read name fs)

  abbrev or_else : Option V → Option V → Option V
  or_else none w = w
  or_else (some v) w = some v

  scan-lookup :
      (name : String) (fs : List (EnvFrame V)) (const : Bool) (value : Option V)
      → scan (lookup_step name) (λ s. s) fs (const, value)
        ≡ (const || any_const name fs, or_else value (first_bound name fs))
  unfolding scan lookup_step any_const first_bound
  scan-lookup name [] const value = ground arith
  scan-lookup name (f ∷ fs) true none =
      ground (arith, scan-lookup name fs true (lookup name f.bindings))
  scan-lookup name (f ∷ fs) true (some v) = ground arith
  scan-lookup name (f ∷ fs) false none = ground (
    arith,
    scan-lookup name fs true (lookup name f.bindings),
    scan-lookup name fs false (lookup name f.bindings),
  )
  scan-lookup name (f ∷ fs) false (some v) =
      ground (arith, scan-lookup name fs true (some v), scan-lookup name fs false (some v))

  climb-scopes :
      {S R : Type 0} (body : EnvFrame V → S → S ⊎ R) (last : S → R) (env : Environment V) (s : S)
      → IsValid env
      → climb body last (length env.heap) env.heap env.current s
        ≡ some (scan body last (scopes env) s)
  climb-scopes body last env s valid =
      climb-eq-scan body last (length env.heap) env.heap env.current s valid.linked valid.allocated
        valid.allocated

  module _ (name : String) (env : Environment V) (valid : IsValid env) where
    pub get-eq : get name env ≡ some (first_bound name (scopes env))
    unfolding get
    get-eq =
        climb-scopes (get_step name) (λ _. none) env tt valid ∙ ap some (scan-get name (scopes env))

    pub is_const-eq : is_const name env ≡ some (any_const name (scopes env))
    unfolding is_const
    is_const-eq =
        climb-scopes (const_step name) (λ _. false) env tt valid
        ∙ ap some (scan-const name (scopes env))

    pub lookup_read-eq : lookup_read name env ≡ some (first_entry name (scopes env))
    unfolding lookup_read
    lookup_read-eq =
        climb-scopes (read_step name) (λ _. missing) env tt valid
        ∙ ap some (scan-read name (scopes env))

    pub lookup_both-eq :
        lookup_both name env ≡ some (any_const name (scopes env), first_bound name (scopes env))
    unfolding lookup_both
    lookup_both-eq =
        climb-scopes (lookup_step name) (λ s. s) env (false, none) valid
        ∙ ap some (scan-lookup name (scopes env) false none)
