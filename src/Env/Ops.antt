-- ===== src/Env/Ops.antt =====
-- The operations of crates/yps-interpreter/src/environment.rs on scope chains. Each returns the new
-- environment; `strong` stands for the reference counts at the moment of a call, by address.
use yoptascript_rs.Prelude.{
  ℕ, ◌*◌, ◌⊎◌, inl, inr, Bool, true, false, not, ◌&&◌, String, Option, none, some, List, [], ◌∷◌,
  ◌++◌, get_elem?, length, leb, ltb, if◌then◌else◌,
}
use yoptascript_rs.Prelude.Names.{lookup, insert, contains, add, remove}
use yoptascript_rs.Env.Frame.{
  EnvFrame, Lookup, found, in_tdz, missing, FrameRegistry, Environment, empty_frame, get_local,
  modify,
}
use yoptascript_rs.Env.Walk.{climb}

unfoldable pub retain : (ℕ → Bool) → List ℕ → List ℕ
retain keep [] = []
retain keep (a ∷ frames) = let rest = retain keep frames in if keep a then a ∷ rest else rest

abbrev pub at_least : ℕ → ℕ → ℕ
at_least low n = if ltb n low then low else n

unfoldable pub new_registry : FrameRegistry
new_registry = record { frames = []; prune_at = 1024 }

abbrev pub pruned : (ℕ → Bool) → List ℕ → FrameRegistry
pruned strong frames =
    let kept = retain strong frames in
    record { frames = kept; prune_at = at_least 1024 (length kept * 2) }

unfoldable pub register : (ℕ → Bool) → ℕ → FrameRegistry → FrameRegistry
unfolding retain
register strong a r =
    let frames = r.frames ++ a ∷ [] in
    if leb r.prune_at (length frames) then pruned strong frames else record r { frames = frames }

unfoldable pub prune_and_count : (ℕ → Bool) → FrameRegistry → FrameRegistry × ℕ
unfolding retain
prune_and_count strong r = (pruned strong r.frames, length (retain strong r.frames))

unfoldable pub live_frames : (ℕ → Bool) → FrameRegistry → List ℕ
unfolding retain
live_frames strong r = retain strong r.frames

module _ {V : Type 0} where
  unfoldable pub new : (ℕ → Bool) → Environment V
  unfolding register new_registry
  new strong = record {
    heap = empty_frame none ∷ [];
    current = 0;
    registry = register strong 0 new_registry;
  }

  -- A new frame becomes the current one.
  abbrev pub enter : (ℕ → Bool) → EnvFrame V → Environment V → Environment V
  enter strong f env =
      let a = length env.heap in
      record { heap = env.heap ++ f ∷ []; current = a; registry = register strong a env.registry }

  unfoldable pub push_scope : (ℕ → Bool) → Environment V → Environment V
  unfolding register
  push_scope strong env = enter strong (empty_frame (some env.current)) env

  abbrev pub current_frame : Environment V → Option (EnvFrame V)
  current_frame env = get_elem? env.heap env.current

  abbrev pub parent_of : Option (EnvFrame V) → Option ℕ
  parent_of none = none
  parent_of (some f) = f.parent

  unfoldable pub pop_scope : Environment V → Environment V
  pop_scope env = elim (parent_of (current_frame env)) [
    | none ↦ env
    | some p ↦ record env { current = p }
  ]

  unfoldable pub fork_current : (ℕ → Bool) → Environment V → Environment V
  unfolding register
  fork_current strong env = elim (current_frame env) [
    | none ↦ env
    | some f ↦ enter strong (record f { disposables = [] }) env
  ]

  unfoldable pub snapshot : Environment V → ℕ
  snapshot env = env.current

  unfoldable pub from_snapshot : ℕ → Environment V → Environment V
  from_snapshot a env = record env { current = a }

  abbrev pub defined : String → V → Bool → EnvFrame V → EnvFrame V
  defined name value is_const f = record f {
    constants = if is_const then add name f.constants else f.constants;
    tdz = remove name f.tdz;
    bindings = insert name value f.bindings;
  }

  unfoldable pub define : String → V → Bool → Environment V → Environment V
  define name value is_const env = record env {
    heap = modify env.heap env.current (defined name value is_const);
  }

  abbrev is_bound : String → EnvFrame V → Bool
  is_bound name f = elim (lookup name f.bindings) [ none ↦ false | some _ ↦ true ]

  unfoldable pub mark_names : List String → EnvFrame V → EnvFrame V
  mark_names [] f = f
  mark_names (name ∷ names) f =
      mark_names names (if is_bound name f then f else record f { tdz = add name f.tdz })

  unfoldable pub mark_tdz : List String → Environment V → Environment V
  unfolding mark_names
  mark_tdz names env = record env { heap = modify env.heap env.current (mark_names names) }

  unfoldable pub add_disposable : V → Bool → Environment V → Environment V
  add_disposable value is_await env = record env {
    heap =
        modify env.heap env.current
          (λ f. record f { disposables = f.disposables ++ (value, is_await) ∷ [] });
  }

  abbrev pub disposables_of : Option (EnvFrame V) → List (V × Bool)
  disposables_of none = []
  disposables_of (some f) = f.disposables

  unfoldable pub take_disposables : Environment V → Environment V × List (V × Bool)
  take_disposables env = (
    record env { heap = modify env.heap env.current (λ f. record f { disposables = [] }) },
    disposables_of (current_frame env),
  )

  -- The bodies of the loops, each run once on every frame of the chain.
  unfoldable pub read_step : String → EnvFrame V → Unit {0} → Unit {0} ⊎ Lookup V
  read_step name f s = elim (lookup name f.bindings) [
    | some v ↦ inr (found v)
    | none ↦ if contains f.tdz name then inr in_tdz else inl s
  ]

  -- With as many rounds as there are frames no loop below runs out (`climb-eq-scan`).
  unfoldable pub lookup_read : String → Environment V → Option (Lookup V)
  unfolding read_step climb
  lookup_read name env =
      climb (read_step name) (λ _. missing) (length env.heap) env.heap env.current tt

  unfoldable pub const_step : String → EnvFrame V → Unit {0} → Unit {0} ⊎ Bool
  const_step name f s = if contains f.constants name then inr true else inl s

  unfoldable pub is_const : String → Environment V → Option Bool
  unfolding const_step climb
  is_const name env = climb (const_step name) (λ _. false) (length env.heap) env.heap env.current tt

  unfoldable pub get_shallow : String → Environment V → Option V
  unfolding get_local
  get_shallow name env = elim (current_frame env) [ none ↦ none | some f ↦ get_local name f ]

  unfoldable pub get_step : String → EnvFrame V → Unit {0} → Unit {0} ⊎ Option V
  get_step name f s = elim (lookup name f.bindings) [ some v ↦ inr (some v) | none ↦ inl s ]

  unfoldable pub get : String → Environment V → Option (Option V)
  unfolding get_step climb
  get name env = climb (get_step name) (λ _. none) (length env.heap) env.heap env.current tt

  abbrev pub is_some : Option V → Bool
  is_some none = false
  is_some (some _) = true

  abbrev pub settled : Bool → Option V → (Bool × Option V) ⊎ (Bool × Option V)
  settled const value = if const && is_some value then inr (const, value) else inl (const, value)

  unfoldable pub lookup_step :
      String → EnvFrame V → Bool × Option V → (Bool × Option V) ⊎ (Bool × Option V)
  lookup_step name f (const, value) =
      settled (if not const && contains f.constants name then true else const)
        (elim value [ none ↦ lookup name f.bindings | some v ↦ some v ])

  unfoldable pub lookup_both : String → Environment V → Option (Bool × Option V)
  unfolding lookup_step climb
  lookup_both name env =
      climb (lookup_step name) (λ s. s) (length env.heap) env.heap env.current (false, none)
