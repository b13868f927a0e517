-- ===== src/Env/Blocks.antt =====
-- Blocks: what happens in a scope of crates/yps-interpreter/src/environment.rs between
-- `push_scope` and `pop_scope`.
use yoptascript_rs.Prelude.{
  ℕ, suc, ◌<◌, ◌-◌, ◌≡◌, refl, ◌∙◌, ap, Bool, String, some, List, [], ◌∷◌, length, get_elem?, arith,
  get_elem?-append_left, get_elem?-append_end, length-append,
}
use yoptascript_rs.Prelude.Names.{add}
use yoptascript_rs.Env.Frame.{EnvFrame, Environment, IsValid, modify, empty_frame}
use yoptascript_rs.Env.Walk.{chain}
use yoptascript_rs.Env.Ops.{
  push_scope, pop_scope, define, mark_tdz, mark_names, add_disposable, current_frame, parent_of,
}
use yoptascript_rs.Env.Chain.{scopes}
use yoptascript_rs.Env.Valid.{length-modify, get_elem?-modify, get_elem?-modify_ne}
use yoptascript_rs.Env.Laws.{chain-fuel, chain-agree}

-- what the statements of a block do to its own scope
pub data Action (V : Type 0) : Type 0 where
  declares : String → V → Bool → Action V
  hoists : List String → Action V
  disposes : V → Bool → Action V

module _ {V : Type 0} where
  unfoldable pub act : Action V → Environment V → Environment V
  unfolding define mark_tdz add_disposable
  act (declares name v const) env = define name v const env
  act (hoists names) env = mark_tdz names env
  act (disposes v is_await) env = add_disposable v is_await env

  unfoldable pub act_all : List (Action V) → Environment V → Environment V
  unfolding act
  act_all [] env = env
  act_all (a ∷ actions) env = act_all actions (act a env)

  -- `inner` is `outer` with one more scope, in which it runs
  pub record IsBlockOf (outer inner : Environment V) : Type 0 where
    pub same : (b : ℕ) → b < length outer.heap → get_elem? inner.heap b ≡ get_elem? outer.heap b
    pub at_new : inner.current ≡ length outer.heap
    pub size : length outer.heap < length inner.heap
    pub own : EnvFrame V
    pub here : get_elem? inner.heap inner.current ≡ some own
    pub above : own.parent ≡ some outer.current

  push_scope-IsBlockOf :
      (strong : ℕ → Bool) (env : Environment V) → IsBlockOf env (push_scope strong env)
  unfolding push_scope
  push_scope-IsBlockOf strong env = record {
    same = λ b h. get_elem?-append_left env.heap _ b h;
    at_new = refl;
    size = omega (arith, length-append {0} env.heap (empty_frame (some env.current) ∷ []));
    own = empty_frame (some env.current);
    here = get_elem?-append_end env.heap _;
    above = refl;
  }

  abbrev pub SameParent : (EnvFrame V → EnvFrame V) → Type 0
  SameParent g = (f : EnvFrame V) → (g f).parent ≡ f.parent

  modify-IsBlockOf :
      (outer inner : Environment V) (g : EnvFrame V → EnvFrame V)
      → SameParent g
      → IsBlockOf outer inner
      → IsBlockOf outer (record inner { heap = modify inner.heap inner.current g })
  modify-IsBlockOf outer inner g keeps block = record {
    same = λ b h.
        get_elem?-modify_ne inner.heap inner.current b g (λ e. omega (arith, block.at_new))
        ∙ block.same b h;
    at_new = block.at_new;
    size = omega (arith, length-modify inner.heap inner.current g, block.size);
    own = g block.own;
    here =
        ground
          (arith, get_elem?-modify inner.heap inner.current inner.current block.own g block.here);
    above = keeps block.own ∙ block.above;
  }

  pub mark_names-SameParent : (names : List String) → SameParent (mark_names names)
  unfolding mark_names
  mark_names-SameParent [] f = refl
  mark_names-SameParent (name ∷ names) f = ground (
    arith,
    mark_names-SameParent names f,
    mark_names-SameParent names (record f { tdz = add name f.tdz }),
  )

  act-IsBlockOf :
      (a : Action V) (outer inner : Environment V)
      → IsBlockOf outer inner
      → IsBlockOf outer (act a inner)
  unfolding act
  act-IsBlockOf (declares name v const) outer inner = modify-IsBlockOf outer inner _ (λ f. refl)
  act-IsBlockOf (hoists names) outer inner =
      modify-IsBlockOf outer inner _ (mark_names-SameParent names)
  act-IsBlockOf (disposes v is_await) outer inner = modify-IsBlockOf outer inner _ (λ f. refl)

  act_all-IsBlockOf :
      (actions : List (Action V)) (outer inner : Environment V)
      → IsBlockOf outer inner
      → IsBlockOf outer (act_all actions inner)
  unfolding act_all
  act_all-IsBlockOf [] outer inner block = block
  act_all-IsBlockOf (a ∷ actions) outer inner block =
      act_all-IsBlockOf actions outer (act a inner) (act-IsBlockOf a outer inner block)

  -- The chain of the block is its own frame before the chain around it.
  chain_around :
      (outer inner : Environment V)
      → IsValid outer
      → IsBlockOf outer inner
      → (n : ℕ) → outer.current < n
      → chain n inner.heap outer.current ≡ scopes outer
  chain_around outer inner valid block n h =
      chain-agree n outer.heap inner.heap (length outer.heap) outer.current valid.linked block.same
        valid.allocated
      ∙ chain-fuel n (length outer.heap) outer.heap outer.current valid.linked h valid.allocated

  chain-cons :
      (n : ℕ) (heap : List (EnvFrame V)) (a p : ℕ) (f : EnvFrame V)
      → get_elem? heap a ≡ some f
      → f.parent ≡ some p
      → chain (suc n) heap a ≡ f ∷ chain n heap p
  unfolding chain
  chain-cons n heap a p f e q = ground arith

  pub scopes-block :
      (outer inner : Environment V) (valid : IsValid outer) (block : IsBlockOf outer inner)
      → scopes inner ≡ block.own ∷ scopes outer
  scopes-block outer inner valid block =
      let rounds = length inner.heap - 1 in
      let more : length inner.heap ≡ suc rounds = omega (arith, block.size) in
      rw more (
        chain-cons rounds inner.heap inner.current outer.current block.own block.here block.above
        ∙ ap (λ fs. block.own ∷ fs)
            (chain_around outer inner valid block rounds
              (omega (arith, valid.allocated, block.size))))

  pub block-IsBlockOf :
      (strong : ℕ → Bool) (actions : List (Action V)) (env : Environment V)
      → IsBlockOf env (act_all actions (push_scope strong env))
  block-IsBlockOf strong actions env =
      act_all-IsBlockOf actions env (push_scope strong env) (push_scope-IsBlockOf strong env)

  -- A block leaves the chain of scopes as it found it, whatever its statements declare, hoist or
  -- register in it.
  pub block_restores :
      (strong : ℕ → Bool) (actions : List (Action V)) (env : Environment V)
      → IsValid env
      → scopes (pop_scope (act_all actions (push_scope strong env))) ≡ scopes env
  unfolding pop_scope
  block_restores strong actions env valid =
      let inner = act_all actions (push_scope strong env) in
      let block = block-IsBlockOf strong actions env in
      let around : parent_of (current_frame inner) ≡ some env.current =
        ap parent_of block.here ∙ block.above in
      rw (around, pop_scope)
        (chain_around env inner valid block (length inner.heap)
          (omega (arith, block.size, valid.allocated)))
