-- ===== src/Env/Visible.antt =====
-- Declarations and hoisting: what a lookup of crates/yps-interpreter/src/environment.rs finds after
-- `define` and `mark_tdz` on the current scope.
use yoptascript_rs.Prelude.{
  ℕ, suc, ◌-◌, ◌≡◌, refl, ◌∙◌, ap, Bool, true, false, ◌||◌, ◌&&◌, String, Option, none, some, List,
  [], ◌∷◌, length, get_elem?, get_elem?_of_lt, arith, if◌then◌else◌,
}
use text.Mathlib.Text.{◌==◌ as str_eq}
use text.Mathlib.TextEquality.{eq_iff}
use yoptascript_rs.Prelude.Names.{
  lookup, add, contains, contains-add, contains-remove, lookup-insert,
}
use yoptascript_rs.Env.Frame.{EnvFrame, Environment, IsValid, modify, found, in_tdz}
use yoptascript_rs.Env.Walk.{chain}
use yoptascript_rs.Env.Ops.{
  define, mark_tdz, mark_names, lookup_read, is_const, get, get_shallow, current_frame, defined,
}
use yoptascript_rs.Env.Chain.{
  scopes, first_bound, any_const, first_entry, get-eq, is_const-eq, lookup_read-eq,
}
use yoptascript_rs.Env.Valid.{
  modify-IsValid, length-modify, get_elem?-modify, get_elem?-modify_ne, mark_names-KeepsParent,
}
use yoptascript_rs.Env.Laws.{chain-agree}
use yoptascript_rs.Env.Blocks.{SameParent, mark_names-SameParent}

module _ {V : Type 0} where
  abbrev pub above : ℕ → List (EnvFrame V) → Option ℕ → List (EnvFrame V)
  above n heap none = []
  above n heap (some p) = chain n heap p

  pub chain-cons :
      (n rounds : ℕ) (heap : List (EnvFrame V)) (a : ℕ) (f : EnvFrame V)
      → n ≡ suc rounds
      → get_elem? heap a ≡ some f
      → chain n heap a ≡ f ∷ above rounds heap f.parent
  unfolding chain
  chain-cons n rounds heap a f q e = ap (λ k. chain k heap a) q ∙ ground arith

  above-modify :
      (n : ℕ) (env : Environment V) (g : EnvFrame V → EnvFrame V) (f : EnvFrame V) (o : Option ℕ)
      → IsValid env
      → current_frame env ≡ some f
      → f.parent ≡ o
      → above n (modify env.heap env.current g) o ≡ above n env.heap o
  above-modify n env g f none valid e q = refl
  above-modify n env g f (some p) valid e q =
      chain-agree n env.heap (modify env.heap env.current g) env.current p valid.linked
        (λ b h. get_elem?-modify_ne env.heap env.current b g (λ same. omega arith))
        (valid.linked.older env.current p f e q)

  -- A change of the current frame changes the head of the chain alone.
  pub scopes-modify :
      (env : Environment V) (g : EnvFrame V → EnvFrame V)
      → SameParent g
      → IsValid env
      → (f : EnvFrame V) × (rest : List (EnvFrame V)) × (current_frame env ≡ some f)
        × (scopes env ≡ f ∷ rest)
        × (scopes (record env { heap = modify env.heap env.current g }) ≡ g f ∷ rest)
  scopes-modify env g same valid =
      let (f, e) = get_elem?_of_lt env.heap env.current valid.allocated in
      let rounds = length env.heap - 1 in
      let heap' = modify env.heap env.current g in
      let more : length env.heap ≡ suc rounds = omega (arith, valid.allocated) in
      let changed : get_elem? heap' env.current ≡ some (g f) =
        ground (arith, get_elem?-modify env.heap env.current env.current f g e) in
      (
        f,
        above rounds env.heap f.parent,
        e,
        chain-cons (length env.heap) rounds env.heap env.current f more e,
        chain-cons (length heap') rounds heap' env.current (g f)
              (length-modify env.heap env.current g ∙ more) changed
            ∙ ap (λ o. g f ∷ above rounds heap' o) (same f)
            ∙ ap (λ fs. g f ∷ fs) (above-modify rounds env g f f.parent valid e refl),
      )

  mark_names-bindings :
      (names : List String) (f : EnvFrame V) → (mark_names names f).bindings ≡ f.bindings
  unfolding mark_names
  mark_names-bindings [] f = refl
  mark_names-bindings (name ∷ names) f = ground (
    arith,
    mark_names-bindings names f,
    mark_names-bindings names (record f { tdz = add name f.tdz }),
  )

  mark_names-constants :
      (names : List String) (f : EnvFrame V) → (mark_names names f).constants ≡ f.constants
  unfolding mark_names
  mark_names-constants [] f = refl
  mark_names-constants (name ∷ names) f = ground (
    arith,
    mark_names-constants names f,
    mark_names-constants names (record f { tdz = add name f.tdz }),
  )

  abbrev pub is_free : String → EnvFrame V → Bool
  is_free name f = elim (lookup name f.bindings) [ none ↦ true | some _ ↦ false ]

  -- hoisting puts exactly the unbound names of the list into the dead zone
  mark_names-tdz :
      (names : List String) (f : EnvFrame V) (name : String)
      → contains (mark_names names f).tdz name
        ≡ ((contains names name && is_free name f) || contains f.tdz name)
  unfolding mark_names contains
  mark_names-tdz [] f name = refl
  mark_names-tdz (m ∷ names) f name = ground (
    arith,
    mark_names-tdz names f name,
    mark_names-tdz names (record f { tdz = add m f.tdz }) name,
    contains-add m name f.tdz,
    eq_iff m name,
  )

  define-found :
      (name : String) (v : V) (const : Bool) (env : Environment V)
      → IsValid env
      → lookup_read name (define name v const env) ≡ some (found v)
  unfolding define first_entry
  define-found name v const env valid =
      let set_up = defined name v const in
      let (f, rest, here, before, after) = scopes-modify env set_up (λ f. refl) valid in
      let valid' = modify-IsValid (λ _. true) env valid set_up (λ f p e. e) in
      let env' = record env { heap = modify env.heap env.current set_up } in
      rw (lookup_read-eq name env' valid', after)
        (ground (arith, lookup-insert name name v f.bindings, eq_iff name name))

  mark_tdz-IsValid :
      (names : List String) (env : Environment V) → IsValid env → IsValid (mark_tdz names env)
  unfolding mark_tdz
  mark_tdz-IsValid names env valid =
      modify-IsValid (λ _. true) env valid (mark_names names) (mark_names-KeepsParent names)

  -- After hoisting, a listed name that the scope does not bind yet is in the dead zone, whatever the
  -- scopes around it hold, until it is defined; of the names that the scope does not bind, one that
  -- is not listed is looked up as before. The scope has the bindings, constants and parent that it
  -- had, and any name `m`, bound or not, is in its dead zone exactly if it was there, or is listed
  -- and not bound.
  pub hoisted_reads :
      (names : List String) (env : Environment V) (name m : String) (v : V) (const : Bool)
      → IsValid env
      → get_shallow name env ≡ none
      → (lookup_read name (mark_tdz names env)
          ≡ (if contains names name then some in_tdz else lookup_read name env))
        × (lookup_read name (define name v const (mark_tdz names env)) ≡ some (found v))
        × (f : EnvFrame V) × (g : EnvFrame V) × (current_frame env ≡ some f)
        × (current_frame (mark_tdz names env) ≡ some g)
        × (g.bindings ≡ f.bindings)
        × (g.constants ≡ f.constants)
        × (g.parent ≡ f.parent)
        × (contains g.tdz m ≡ ((contains names m && is_free m f) || contains f.tdz m))
  unfolding get_shallow mark_tdz first_entry
  hoisted_reads names env name m v const valid unbound =
      let hoist = mark_names names in
      let (f, rest, here, before, after) =
        scopes-modify env hoist (mark_names-SameParent names) valid in
      let free : lookup name f.bindings ≡ none = ground arith in
      let still : lookup name (hoist f).bindings ≡ none =
        ap (lookup name) (mark_names-bindings names f) ∙ free in
      let valid' = mark_tdz-IsValid names env valid in
      (
        rw
            (
              lookup_read-eq name (mark_tdz names env) valid',
              lookup_read-eq name env valid,
              before,
              after,
            )
            (ground (arith, mark_names-tdz names f name, free)),
        define-found name v const (mark_tdz names env) valid',
        f,
        hoist f,
        here,
        ground (arith, get_elem?-modify env.heap env.current env.current f hoist here),
        mark_names-bindings names f,
        mark_names-constants names f,
        mark_names-SameParent names f,
        mark_names-tdz names f m,
      )

  -- After a definition the name stands for the value, constant if it was marked so and out of the
  -- dead zone, and every other name is looked up, and is read or is in the dead zone, as before.
  pub defined_reads :
      (name m : String) (v : V) (const : Bool) (env : Environment V)
      → IsValid env
      → (get m (define name v const env) ≡ (if str_eq name m then some (some v) else get m env))
        × (is_const m (define name v const env)
            ≡ (if const && str_eq name m then some true else is_const m env))
        × (lookup_read m (define name v const env)
            ≡ (if str_eq name m then some (found v) else lookup_read m env))
  unfolding define first_bound any_const first_entry
  defined_reads name m v const env valid =
      let set_up = defined name v const in
      let (f, rest, here, before, after) = scopes-modify env set_up (λ f. refl) valid in
      let valid' = modify-IsValid (λ _. true) env valid set_up (λ f p e. e) in
      let env' = record env { heap = modify env.heap env.current set_up } in
      (
        rw (get-eq m env' valid', get-eq m env valid, before, after)
            (ground (arith, lookup-insert name m v f.bindings)),
        rw (is_const-eq m env' valid', is_const-eq m env valid, before, after)
            (ground (arith, contains-add name m f.constants)),
        rw (lookup_read-eq m env' valid', lookup_read-eq m env valid, before, after)
            (ground (
              arith,
              lookup-insert name m v f.bindings,
              contains-remove name m f.tdz,
              eq_iff name m,
            )),
      )
