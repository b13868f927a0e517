-- ===== src/Env/Resolve.antt =====
-- Which frame of a scope chain a name stands for, and what `Environment::set` of
-- crates/yps-interpreter/src/environment.rs does to it.
use yoptascript_rs.Prelude.{
  ℕ, zero, suc, ◌<◌, ◌≡◌, refl, ◌∙◌, ap, inl, inr, Bool, true, false, String, Option, none, some,
  List, get_elem?, length, arith, Option-cases, ◌==◌, ◌&&◌, get_elem?_of_lt, if◌then◌else◌,
}
use yoptascript_rs.Prelude.Names.{lookup, lookup-insert}
use mathlib.Core.Path.{subst}
use text.Mathlib.Text.{◌==◌ as str_eq}
use text.Mathlib.TextEquality.{eq_iff}
use yoptascript_rs.Env.Frame.{EnvFrame, Environment, IsLinked, IsValid, modify, rebind}
use yoptascript_rs.Env.Walk.{chain}
use yoptascript_rs.Env.Chain.{first_bound, get-eq}
use yoptascript_rs.Env.Ops.{get, from_snapshot}
use yoptascript_rs.Env.Assign
use yoptascript_rs.Env.Assign.{set_from}
use yoptascript_rs.Env.Valid.{
  length-modify, get_elem?-modify, modify-IsLinked, KeepsParent, modify-none,
}

-- the two names stand for one slot
abbrev pub same_slot : String → Option ℕ → String → Option ℕ → Bool
same_slot name none m b = false
same_slot name (some o) m none = false
same_slot name (some o) m (some b) = (o == b) && (str_eq name m)

abbrev pub is_bound : Option ℕ → Bool
is_bound none = false
is_bound (some o) = true

module _ {V : Type 0} where
  -- the address of the innermost frame that binds `name`, seen from the frame at `a`
  unfoldable pub resolve : ℕ → String → List (EnvFrame V) → ℕ → Option ℕ
  resolve zero name heap a = none
  resolve (suc n) name heap a = elim (get_elem? heap a) [
    | none ↦ none
    | some f ↦ elim (lookup name f.bindings) [
      | some v ↦ some a
      | none ↦ elim f.parent [ none ↦ none | some p ↦ resolve n name heap p ]
    ]
  ]

  unfoldable pub slot : String → List (EnvFrame V) → Option ℕ → Option V
  slot name heap none = none
  slot name heap (some a) = elim (get_elem? heap a) [
    | none ↦ none
    | some f ↦ lookup name f.bindings
  ]

  -- a lookup reads the slot that the name resolves to
  first_bound-chain :
      (n : ℕ) (name : String) (heap : List (EnvFrame V)) (a : ℕ)
      → first_bound name (chain n heap a) ≡ slot name heap (resolve n name heap a)
  unfolding first_bound chain slot resolve
  first_bound-chain zero name heap a = refl
  first_bound-chain (suc n) name heap a = elim (Option-cases (get_elem? heap a)) [
    | inl no_frame ↦ ground arith
    | inr (f, e) ↦ elim (Option-cases f.parent) [
      | inl root ↦ ground arith
      | inr (p, q) ↦ ground (arith, first_bound-chain n name heap p)
    ]
  ]

  abbrev pub wrote_at : String → V → List (EnvFrame V) → Option ℕ → List (EnvFrame V) × Bool
  wrote_at name value heap none = (heap, false)
  wrote_at name value heap (some a) = (modify heap a (rebind name value), true)

  pub set_from-eq :
      (n : ℕ) (name : String) (value : V) (heap : List (EnvFrame V)) (a : ℕ)
      → IsLinked heap
      → a < n
      → a < length heap
      → set_from n name value heap a ≡ some (wrote_at name value heap (resolve n name heap a))
  unfolding set_from resolve
  set_from-eq zero name value heap a linked h k = elim h [ ]
  set_from-eq (suc n) name value heap a linked h k =
      let (f, e) = get_elem?_of_lt heap a k in
      elim (Option-cases f.parent) [
        | inl root ↦ ground arith
        | inr (p, q) ↦
            let above = linked.older a p f e q in
            ground (arith, set_from-eq n name value heap p linked (omega arith) (omega arith))
      ]

  abbrev bound_in : String → EnvFrame V → Option V
  bound_in name f = lookup name f.bindings

  -- A write to an existing slot changes no resolution.
  resolve-modify :
      (n : ℕ) (m name : String) (value : V) (heap : List (EnvFrame V)) (o a : ℕ) (f : EnvFrame V)
      (v : V)
      → get_elem? heap o ≡ some f
      → lookup name f.bindings ≡ some v
      → resolve n m (modify heap o (rebind name value)) a ≡ resolve n m heap a
  unfolding resolve rebind
  resolve-modify zero m name value heap o a f v e b = refl
  resolve-modify (suc n) m name value heap o a f v e b = elim (Option-cases (get_elem? heap a)) [
    | inl no_frame ↦ ground (arith, modify-none heap o a (rebind name value))
    | inr (g, c) ↦
        let there = get_elem?-modify heap o a g (rebind name value) c in
        elim (Option-cases g.parent) [
          | inl root ↦ ground (arith, lookup-insert name m value g.bindings, eq_iff name m)
          | inr (p, q) ↦ ground (
            arith,
            lookup-insert name m value g.bindings,
            eq_iff name m,
            resolve-modify n m name value heap o p f v e b,
          )
        ]
  ]

  slot-modify :
      (m name : String) (value : V) (heap : List (EnvFrame V)) (o b : ℕ) (f : EnvFrame V)
      → get_elem? heap b ≡ some f
      → slot m (modify heap o (rebind name value)) (some b)
        ≡ (if same_slot name (some o) m (some b) then some value else slot m heap (some b))
  unfolding slot rebind
  slot-modify m name value heap o b f e = ground (
    arith,
    get_elem?-modify heap o b f (rebind name value) e,
    lookup-insert name m value f.bindings,
  )

  -- the frame that a name resolves to binds it
  resolve-binds :
      (n : ℕ) (name : String) (heap : List (EnvFrame V)) (a o : ℕ)
      → resolve n name heap a ≡ some o
      → (f : EnvFrame V) × (v : V) × (get_elem? heap o ≡ some f) × (lookup name f.bindings ≡ some v)
  unfolding resolve
  resolve-binds zero name heap a o e = cc
  resolve-binds (suc n) name heap a o e = elim (Option-cases (get_elem? heap a)) [
    | inl no_frame ↦ absurd (ground arith)
    | inr (f, c) ↦ elim (Option-cases (lookup name f.bindings)) [
      | inl unbound ↦ elim (Option-cases f.parent) [
        | inl root ↦ absurd (ground arith)
        | inr (p, q) ↦ resolve-binds n name heap p o (ground arith)
      ]
      | inr (v, b) ↦ (f, v, ground arith, b)
    ]
  ]

  pub resolve-here :
      (n rounds : ℕ) (name : String) (heap : List (EnvFrame V)) (a : ℕ) (f : EnvFrame V) (v : V)
      → n ≡ suc rounds
      → get_elem? heap a ≡ some f
      → lookup name f.bindings ≡ some v
      → resolve n name heap a ≡ some a
  unfolding resolve
  resolve-here n rounds name heap a f v more e b =
      ap (λ k. resolve k name heap a) more ∙ ground arith

  abbrev pub owner : String → Environment V → Option ℕ
  owner name env = resolve (length env.heap) name env.heap env.current

  pub get_at :
      (m : String) (b : ℕ) (env : Environment V)
      → IsValid env
      → b < length env.heap
      → get m (from_snapshot b env) ≡ some (slot m env.heap (owner m (from_snapshot b env)))
  unfolding from_snapshot
  get_at m b env valid h =
      get-eq m (from_snapshot b env) (record { linked = valid.linked; allocated = h })
      ∙ ap some (first_bound-chain (length env.heap) m env.heap b)

  rebind-KeepsParent : (name : String) (value : V) → KeepsParent (rebind name value)
  unfolding rebind
  rebind-KeepsParent name value f p e = e

  abbrev pub assigned : String → V → Environment V → Environment V
  assigned name value env = record env { heap = (wrote_at name value env.heap (owner name env)).0 }

  pub set-eq :
      (name : String) (value : V) (env : Environment V)
      → IsValid env
      → Assign.set name value env ≡ some (assigned name value env, is_bound (owner name env))
  unfolding Assign.set
  set-eq name value env valid = ground (
    arith,
    set_from-eq (length env.heap) name value env.heap env.current valid.linked valid.allocated
        valid.allocated,
  )

  wrote-IsValid :
      (name : String) (value : V) (env : Environment V) (o : Option ℕ)
      → IsValid env
      → IsValid (record env { heap = (wrote_at name value env.heap o).0 })
  wrote-IsValid name value env none valid = valid
  wrote-IsValid name value env (some o) valid = record {
    linked =
        modify-IsLinked env.heap o (rebind name value) (rebind-KeepsParent name value) valid.linked;
    allocated = omega (arith, length-modify env.heap o (rebind name value), valid.allocated);
  }

  pub set-IsValid :
      (name : String) (value : V) (env env' : Environment V) (wrote : Bool)
      → IsValid env
      → Assign.set name value env ≡ some (env', wrote)
      → IsValid env'
  set-IsValid name value env env' wrote valid e =
      let same : assigned name value env ≡ env' = cc (set-eq name value env valid) in
      subst IsValid same (wrote-IsValid name value env (owner name env) valid)

  some-if :
      (test : Bool) (x y : Option V)
      → some (if test then x else y) ≡ (if test then some x else some y)
  some-if true x y = refl
  some-if false x y = refl

  -- what a slot holds after the write to the slot that `name` resolves to
  slot_after :
      (m name : String) (value : V) (heap : List (EnvFrame V)) (n a o : ℕ) (r : Option ℕ) (b : ℕ)
      → resolve n m heap b ≡ r
      → slot m (modify heap o (rebind name value)) r
        ≡ (if same_slot name (some o) m r then some value else slot m heap r)
  unfolding slot
  slot_after m name value heap n a o none b e = refl
  slot_after m name value heap n a o (some c) b e =
      let (f, v, here, bound) = resolve-binds n m heap b c e in
      slot-modify m name value heap o c f here

  pub read_back :
      (name : String) (value : V) (env : Environment V) (valid : IsValid env) (b : ℕ) (m : String)
      (o : Option ℕ)
      → owner name env ≡ o
      → b < length env.heap
      → get m (from_snapshot b (record env { heap = (wrote_at name value env.heap o).0 })) ≡ (
          if same_slot name o m (owner m (from_snapshot b env))
          then some (some value)
          else get m (from_snapshot b env))
  unfolding from_snapshot
  read_back name value env valid b m none e h = refl
  read_back name value env valid b m (some o) e h =
      let heap' = modify env.heap o (rebind name value) in
      let same_length = length-modify env.heap o (rebind name value) in
      let (f, v, here, bound) = resolve-binds (length env.heap) name env.heap env.current o e in
      let new_read =
        get_at m b (record env { heap = heap' }) (wrote-IsValid name value env (some o) valid)
          (rw same_length h) in
      let kept = resolve-modify (length env.heap) m name value env.heap o b f v here bound in
      let after =
        slot_after m name value env.heap (length env.heap) b o
          (resolve (length env.heap) m env.heap b) b refl in
      rw (new_read, get_at m b env valid h, same_length, kept, after) (some-if _ _ _)

  -- `set` returns and reports whether the name is bound. What any closure, with its scope at any
  -- frame, reads afterwards is the new value for the slot that was written and as before for every
  -- other.
  pub set-get :
      (name : String) (value : V) (env : Environment V)
      → IsValid env
      → (env' : Environment V) × (Assign.set name value env
          ≡ some (env', is_bound (owner name env)))
        × ((b : ℕ) (m : String)
            → b < length env.heap
            → get m (from_snapshot b env') ≡ (
                if same_slot name (owner name env) m (owner m (from_snapshot b env))
                then some (some value)
                else get m (from_snapshot b env)))
  set-get name value env valid = (
    assigned name value env,
    set-eq name value env valid,
    λ b m h. read_back name value env valid b m (owner name env) refl h,
  )
