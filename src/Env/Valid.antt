-- ===== src/Env/Valid.antt =====
-- Every operation of crates/yps-interpreter/src/environment.rs keeps the scope chains well formed.
use yoptascript_rs.Prelude.{
  ℕ, ◌+◌, ◌<◌, ◌≡◌, ◌≢◌, ◌∙◌, sym, inl, inr, Bool, String, none, some, List, [], ◌∷◌, ◌++◌,
  get_elem?, length, arith, Option-cases, Bool-cases, ◌==◌, get_elem?-append_left,
  get_elem?-append_end, get_elem?-set_self, get_elem?-set_ne, length-append, length-set,
  lt_of_get_elem?, get_elem?_of_lt, if◌then◌else◌,
}
use native.Mathlib.Decide.{dec_lt}
use yoptascript_rs.Prelude.Names.{add}
use yoptascript_rs.Env.Frame.{EnvFrame, Environment, IsLinked, IsValid, modify, empty_frame}
use yoptascript_rs.Env.Ops.{
  new, enter, push_scope, pop_scope, fork_current, from_snapshot, mark_names, current_frame,
  parent_of,
}

module _ {V : Type 0} where
  pub length-modify :
      (heap : List (EnvFrame V)) (a : ℕ) (g : EnvFrame V → EnvFrame V)
      → length (modify heap a g) ≡ length heap
  length-modify heap a g = elim (Option-cases (get_elem? heap a)) [
    | inl no_frame ↦ ground arith
    | inr (f, e) ↦ ground (arith, length-set heap a (g f))
  ]

  pub get_elem?-modify :
      (heap : List (EnvFrame V)) (a b : ℕ) (f : EnvFrame V) (g : EnvFrame V → EnvFrame V)
      → get_elem? heap b ≡ some f
      → get_elem? (modify heap a g) b ≡ some (if a == b then g f else f)
  get_elem?-modify heap a b f g e = elim (Bool-cases (a == b)) [
    | inl same ↦ ground (arith, lt_of_get_elem? heap b f e, get_elem?-set_self heap b (g f))
    | inr other ↦ elim (Option-cases (get_elem? heap a)) [
      | inl no_frame ↦ ground arith
      | inr (f', e') ↦ ground (arith, get_elem?-set_ne heap a b (g f'))
    ]
  ]

  pub get_elem?-modify_ne :
      (heap : List (EnvFrame V)) (a b : ℕ) (g : EnvFrame V → EnvFrame V)
      → a ≢ b
      → get_elem? (modify heap a g) b ≡ get_elem? heap b
  get_elem?-modify_ne heap a b g other = elim (Option-cases (get_elem? heap a)) [
    | inl no_frame ↦ ground arith
    | inr (f, e) ↦ ground (arith, get_elem?-set_ne heap a b (g f) other)
  ]

  pub modify-none :
      (heap : List (EnvFrame V)) (a b : ℕ) (g : EnvFrame V → EnvFrame V)
      → get_elem? heap b ≡ none
      → get_elem? (modify heap a g) b ≡ none
  modify-none heap a b g e = elim (Option-cases (get_elem? (modify heap a g) b)) [
    | inl no_frame ↦ no_frame
    | inr (f, e') ↦
        let (f₀, e₀) =
          get_elem?_of_lt heap b
            (omega (arith, lt_of_get_elem? (modify heap a g) b f e', length-modify heap a g)) in
        cc
  ]

  -- A change of a frame leaves it its parent, or none.
  abbrev pub KeepsParent : (EnvFrame V → EnvFrame V) → Type 0
  KeepsParent g = (f : EnvFrame V) (p : ℕ) → (g f).parent ≡ some p → f.parent ≡ some p

  pub modify-IsLinked :
      (heap : List (EnvFrame V)) (a : ℕ) (g : EnvFrame V → EnvFrame V)
      → KeepsParent g
      → IsLinked heap
      → IsLinked (modify heap a g)
  modify-IsLinked heap a g keeps linked = record {
    older = λ b p f e q. elim (Option-cases (get_elem? heap b)) [
      | inl no_frame ↦ absurd (cc (modify-none heap a b g no_frame))
      | inr (f₀, e₀) ↦
          let f≡ = get_elem?-modify heap a b f₀ g e₀ in
          elim (Bool-cases (a == b)) [
            | inl same ↦ linked.older b p f₀ e₀ (keeps f₀ p (ground arith))
            | inr other ↦ linked.older b p f₀ e₀ (ground arith)
          ]
    ];
  }

  pub append-IsLinked :
      (heap : List (EnvFrame V)) (f : EnvFrame V)
      → ((p : ℕ) → f.parent ≡ some p → p < length heap)
      → IsLinked heap
      → IsLinked (heap ++ f ∷ [])
  append-IsLinked heap f above linked = record {
    older = λ b p f' e q.
        let bound : b < length heap + 1 =
          omega (arith, lt_of_get_elem? (heap ++ f ∷ []) b f' e, length-append {0} heap (f ∷ [])) in
        elim (dec_lt b (length heap)) [
          | yes old ↦ linked.older b p f' (sym (get_elem?-append_left heap (f ∷ []) b old) ∙ e) q
          | no new_one ↦
              let at_end : b ≡ length heap = omega arith in
              ground (arith, get_elem?-append_end heap f, above p)
        ];
  }

  pub enter-IsValid :
      (strong : ℕ → Bool) (f : EnvFrame V) (env : Environment V)
      → IsValid env
      → ((p : ℕ) → f.parent ≡ some p → p < length env.heap)
      → IsValid (enter strong f env)
  enter-IsValid strong f env valid above = record {
    linked = append-IsLinked env.heap f above valid.linked;
    allocated = omega (arith, length-append {0} env.heap (f ∷ []));
  }

  module _ (strong : ℕ → Bool) (env : Environment V) (valid : IsValid env) where
    pub push_scope-IsValid : IsValid (push_scope strong env)
    unfolding push_scope
    push_scope-IsValid =
        enter-IsValid strong (empty_frame (some env.current)) env valid
          λ p e. ground (arith, valid.allocated)

    pub pop_scope-IsValid : IsValid (pop_scope env)
    unfolding pop_scope
    pop_scope-IsValid = elim (Option-cases (parent_of (current_frame env))) [
      | inl root ↦ rw (root, pop_scope) valid
      | inr (p, q) ↦
          rw (q, pop_scope)
            record {
              linked = valid.linked;
              allocated =
                  let (f, e) = get_elem?_of_lt env.heap env.current valid.allocated in
                  let above : p < env.current = valid.linked.older env.current p f e (rw e at q) in
                  omega (arith, valid.allocated);
            }
    ]

    pub fork_current-IsValid : IsValid (fork_current strong env)
    unfolding fork_current
    fork_current-IsValid = elim (Option-cases (get_elem? env.heap env.current)) [
      | inl no_frame ↦ rw (no_frame, fork_current) valid
      | inr (f, e) ↦
          rw (e, fork_current)
            (enter-IsValid strong (record f { disposables = [] }) env valid
              λ p q.
                let above : p < env.current = valid.linked.older env.current p f e q in
                omega (arith, valid.allocated))
    ]

    pub from_snapshot-IsValid : (a : ℕ) → a < length env.heap → IsValid (from_snapshot a env)
    unfolding from_snapshot
    from_snapshot-IsValid a h = record { linked = valid.linked; allocated = h }

    pub modify-IsValid :
        (g : EnvFrame V → EnvFrame V)
        → KeepsParent g
        → IsValid (record env { heap = modify env.heap env.current g })
    modify-IsValid g keeps = record {
      linked = modify-IsLinked env.heap env.current g keeps valid.linked;
      allocated = omega (arith, length-modify env.heap env.current g, valid.allocated);
    }

  pub mark_names-KeepsParent : (names : List String) → KeepsParent (mark_names {V = V} names)
  unfolding mark_names
  mark_names-KeepsParent [] f p e = e
  mark_names-KeepsParent (name ∷ names) f p e = ground (
    arith,
    mark_names-KeepsParent names f p,
    mark_names-KeepsParent names (record f { tdz = add name f.tdz }) p,
  )

  pub new-IsValid : (strong : ℕ → Bool) → IsValid (new {V = V} strong)
  unfolding new
  new-IsValid strong = record {
    linked = append-IsLinked [] (empty_frame none) (λ p e. cc) (record { older = λ a p f e q. cc });
    allocated = omega arith;
  }
