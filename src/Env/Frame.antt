-- ===== src/Env/Frame.antt =====
-- The state of crates/yps-interpreter/src/environment.rs: scope frames that share their parents.
-- An `Rc<RefCell<EnvFrame>>` is an address: the frame's place in `heap`, which lists every frame
-- ever allocated. The values of the program are a parameter.
use yoptascript_rs.Prelude.{
  ℕ, ◌<◌, ◌≡◌, Bool, String, Option, none, some, List, [], get_elem?, set, length,
}
use yoptascript_rs.Prelude.Names.{lookup, insert}

pub record EnvFrame (V : Type 0) : Type 0 where
  pub bindings : List (String × V)
  pub constants : List String
  pub tdz : List String
  pub disposables : List (V × Bool)
  pub parent : Option ℕ

pub data Lookup (V : Type 0) : Type 0 where
  found : V → Lookup V
  in_tdz missing : Lookup V

-- The weak references, by address.
pub record FrameRegistry : Type 0 where
  pub frames : List ℕ
  pub prune_at : ℕ

pub record Environment (V : Type 0) : Type 0 where
  pub heap : List (EnvFrame V)
  pub current : ℕ
  pub registry : FrameRegistry

module _ {V : Type 0} where
  abbrev pub empty_frame : Option ℕ → EnvFrame V
  empty_frame p = record { bindings = []; constants = []; tdz = []; disposables = []; parent = p }

  unfoldable pub gc_clear : EnvFrame V → EnvFrame V
  gc_clear f = empty_frame none

  unfoldable pub rebind : String → V → EnvFrame V → EnvFrame V
  rebind name value f = record f { bindings = insert name value f.bindings }

  unfoldable pub get_local : String → EnvFrame V → Option V
  get_local name f = lookup name f.bindings

  -- `frame.borrow_mut()` through an address
  abbrev pub modify : List (EnvFrame V) → ℕ → (EnvFrame V → EnvFrame V) → List (EnvFrame V)
  modify heap a g = elim (get_elem? heap a) [ none ↦ heap | some f ↦ set heap a (g f) ]

  -- A frame is allocated after its parent, and the current frame exists.
  pub record IsLinked (heap : List (EnvFrame V)) : Type 0 where
    pub older : (a p : ℕ) (f : EnvFrame V) → get_elem? heap a ≡ some f → f.parent ≡ some p → p < a

  pub record IsValid (env : Environment V) : Type 0 where
    pub linked : IsLinked env.heap
    pub allocated : env.current < length env.heap
