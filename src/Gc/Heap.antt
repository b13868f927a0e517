-- ===== src/Gc/Heap.antt =====
-- The values of crates/yps-vm/src/value.rs and the shared cells behind them. An `Rc` is an address,
-- the cell's place in the heap. A float and a wide integer are kept as their bits, compiled
-- regular expressions, function prototypes and values of the host as handles.
use yoptascript_rs.Prelude.{ℕ, Bool, String, Option, List, map}

pub data CapKind : Type 0 where
  resolve reject : CapKind

pub data AggregateKind : Type 0 where
  all all_settled any race : AggregateKind

pub data AggregateRole : Type 0 where
  on_fulfill on_reject : AggregateRole

pub data Value : Type 0 where
  number big_int : ℕ → Value
  str : String → Value
  bool : Bool → Value
  null undefined : Value
  array object function : ℕ → Value
  builtin : String → Value
  bound_method : Value → String → Value
  class : ℕ → Value
  reg_exp : String → String → ℕ → ℕ → Value
  generator for_iter promise : ℕ → Value
  promise_capability : ℕ → CapKind → Value
  promise_then_handler : Value → Value → Value → Bool → Value
  async_resume : ℕ → ℕ → Bool → Value
  promise_finally_handler : Value → Value → Value
  promise_aggregate_handler : ℕ → ℕ → AggregateRole → Value
  host : ℕ → Value

pub record ObjMap : Type 0 where
  pub entries : List (String × Value)
  pub generation : ℕ
  pub frozen : Bool
  pub sealed : Bool
  pub extensible : Bool

pub data UpvalueState : Type 0 where
  opened : ℕ → UpvalueState
  closed : Value → UpvalueState

pub record Closure : Type 0 where
  pub proto : ℕ
  pub upvalues : List ℕ

pub record MethodTable : Type 0 where
  pub entries : List (String × ℕ)
  pub index : List (String × ℕ)

abbrev pub defs : MethodTable → List ℕ
defs t = map (λ e. e.1) t.entries

pub record ClassMembers : Type 0 where
  pub methods : MethodTable
  pub getters : MethodTable
  pub setters : MethodTable
  pub static_methods : MethodTable
  pub static_getters : MethodTable
  pub static_setters : MethodTable
  pub field_inits : List (String × Option ℕ × Option Value)

pub record ClassDef : Type 0 where
  pub name : String
  pub parent : Option ℕ
  pub constructor : Option ℕ
  pub members : ClassMembers
  pub static_fields : ObjMap

pub record CallFrame : Type 0 where
  pub closure : ℕ
  pub ip : ℕ
  pub base : ℕ
  pub owner : Option ℕ

pub record Handler : Type 0 where
  pub target : ℕ
  pub frame_len : ℕ
  pub stack_len : ℕ
  pub is_finally : Bool

pub data Delegate : Type 0 where
  to_generator : ℕ → Delegate
  to_values : List Value → ℕ → Delegate

pub record GenState : Type 0 where
  pub closure : ℕ
  pub owner : Option ℕ
  pub started : Bool
  pub completed : Bool
  pub stack : List Value
  pub frames : List CallFrame
  pub handlers : List Handler
  pub open_upvalues : List ℕ
  pub this : Value
  pub args : List Value
  pub delegate : Option Delegate

pub data ForIter : Type 0 where
  over_values : List Value → ℕ → ForIter
  over_generator : ℕ → ForIter

pub data PromiseState : Type 0 where
  pending : List Value → List Value → PromiseState
  fulfilled rejected : Value → PromiseState

pub record AggregateState : Type 0 where
  pub kind : AggregateKind
  pub remaining : ℕ
  pub results : List Value
  pub resolve : Value
  pub reject : Value
  pub settled : Bool

-- What an `Rc` can point to.
pub data Cell : Type 0 where
  array_cell : List Value → Cell
  object_cell : ObjMap → Cell
  upvalue_cell : UpvalueState → Cell
  closure_cell : Closure → Cell
  class_cell : ClassDef → Cell
  gen_cell : GenState → Cell
  for_iter_cell : ForIter → Cell
  promise_cell : PromiseState → Cell
  aggregate_cell : AggregateState → Cell

abbrev pub Heap : Type 0
Heap = List Cell
