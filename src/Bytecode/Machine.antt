-- ===== src/Bytecode/Machine.antt =====
-- The loop of crates/yps-vm/src/vm.rs on those instructions, in the one frame of a script: the stack
-- is kept with its top first, and its lowest values are the local variables. Handlers of errors are
-- left out, so an error ends the run.
use yoptascript_rs.Prelude.{
  ℕ, ◌-◌, ◌*◌, ◌/◌, ◌%◌, ◌^◌, ltb, ◌==◌, Bool, true, false, Option, none, some, List, [], ◌∷◌, ◌++◌,
  if◌then◌else◌, length,
}
use yoptascript_rs.Bytecode.Values.{
  Text, same_text, Order, compare_text, is_some_and, Floats, Value, two32, half32, to_int32,
  to_uint32, from_i32, to_number, to_ecma_string,
}
use yoptascript_rs.Bytecode.Result.{Result, ok, err}
use yoptascript_rs.Bytecode.Chunk.{Constant}

pub data VmError : Type 0 where
  undefined_variable constant_variable : Text → VmError
  not_a_container not_a_class not_callable : VmError

-- What ends a run: an error of the machine, or a panic of Rust, the pop of an empty stack or an index
-- that is out of range.
pub data Stop : Type 0 where
  failed : VmError → Stop
  panic : Stop

-- a missing value is a panic
abbrev pub expect : {A : Type 0} → Option A → Result Stop A
expect none = err panic
expect (some a) = ok a

-- the value `slot` places above the bottom of a stack
unfoldable pub from_bottom : {A : Type 0} → List A → ℕ → Option A
from_bottom [] slot = none
from_bottom (v ∷ s) slot =
    let below = from_bottom s slot in if length s == slot then some v else below

unfoldable pub set_from_bottom : {A : Type 0} → List A → ℕ → A → List A
set_from_bottom [] slot w = []
set_from_bottom (v ∷ s) slot w =
    let below = set_from_bottom s slot w in if length s == slot then w ∷ s else v ∷ below

-- `HashMap<String, (Value, bool)>`: the value of a global variable, and whether it is constant
abbrev pub Globals : Type 0 → Type 0
Globals F = List (Text × (Value F × Bool))

unfoldable pub global_get : {F : Type 0} → Text → Globals F → Option (Value F × Bool)
unfolding same_text
global_get name [] = none
global_get name (slot ∷ slots) =
    let later = global_get name slots in if same_text slot.0 name then some slot.1 else later

unfoldable pub global_put : {F : Type 0} → Text → Value F → Globals F → Globals F
unfolding same_text
global_put name v [] = []
global_put name v (slot ∷ slots) =
    let later = global_put name v slots in
    if same_text slot.0 name then (slot.0, (v, slot.1.1)) ∷ slots else slot ∷ later

-- the arm of `SetGlobal`
unfoldable pub global_set : {F : Type 0} → Text → Value F → Globals F → Result VmError (Globals F)
unfolding global_get global_put
global_set name v globals = elim (global_get name globals) [
  | none ↦ err (undefined_variable name)
  | some (old, true) ↦ err (constant_variable name)
  | some (old, false) ↦ ok (global_put name v globals)
]

pub record Machine (F : Type 0) : Type 0 where
  pub ip : ℕ
  pub stack : List (Value F)
  pub globals : Globals F

abbrev pub machine : {F : Type 0} → ℕ → List (Value F) → Globals F → Machine F
machine ip stack globals = record { ip = ip; stack = stack; globals = globals }

-- the places of `wrapping_shl`, of `wrapping_shr` on `i32` and of `wrapping_shr` on `u32`
unfoldable pub shl_bits : ℕ → ℕ → ℕ
shl_bits a s = (a * 2 ^ s) % two32

unfoldable pub shr_bits : ℕ → ℕ → ℕ
shr_bits a s = if ltb a half32 then a / 2 ^ s else two32 - 1 - (two32 - 1 - a) / 2 ^ s

unfoldable pub ushr_bits : ℕ → ℕ → ℕ
ushr_bits a s = a / 2 ^ s

-- What the machine finds under a name that no variable of the program has, of the builtins and the
-- namespaces.
abbrev pub Natives : Type 0 → Type 0
Natives F = Text → Option (Value F)

module _ {F : Type 0} (N : Floats F) where
  -- `coerce_primitive` leaves a primitive as it is
  unfoldable pub add_values : Value F → Value F → Value F
  unfolding to_ecma_string to_number
  add_values (Value.str a) b = Value.str (a ++ to_ecma_string N b)
  add_values a (Value.str b) = Value.str (to_ecma_string N a ++ b)
  add_values a b = Value.number (N.plus (to_number N a) (to_number N b))

  unfoldable pub numeric_bin : (F → F → F) → Value F → Value F → Value F
  unfolding to_number
  numeric_bin f a b = Value.number (f (to_number N a) (to_number N b))

  unfoldable pub int_bin : (ℕ → ℕ → ℕ) → Value F → Value F → Value F
  unfolding to_int32 to_number from_i32
  int_bin f a b =
      Value.number (from_i32 N (f (to_int32 N (to_number N a)) (to_int32 N (to_number N b))))

  unfoldable pub shift_bin : (ℕ → ℕ → ℕ) → Value F → Value F → Value F
  unfolding to_int32 to_uint32 to_number from_i32
  shift_bin f a b =
      Value.number (from_i32 N (f (to_int32 N (to_number N a)) (to_uint32 N (to_number N b) % 32)))

  -- the arm of `UShr`
  unfoldable pub ushr_bin : Value F → Value F → Value F
  unfolding to_uint32 to_number ushr_bits
  ushr_bin a b =
      Value.number
        (N.from_int (ushr_bits (to_uint32 N (to_number N a)) (to_uint32 N (to_number N b) % 32)))

  unfoldable pub compare : (Order → Bool) → Value F → Value F → Value F
  unfolding compare_text to_number
  compare p (Value.str x) (Value.str y) = Value.boolean (p (compare_text x y))
  compare p a b = Value.boolean (is_some_and p (N.partial_cmp (to_number N a) (to_number N b)))

  unfoldable pub bit_not_value : Value F → Value F
  unfolding to_int32 to_number from_i32
  bit_not_value a = Value.number (from_i32 N (two32 - 1 - to_int32 N (to_number N a)))

module _ {F : Type 0} where
  unfoldable pub is_nullish : Value F → Bool
  is_nullish Value.null = true
  is_nullish Value.undefined = true
  is_nullish v = false

  abbrev pub pop1 : (Value F → Value F) → Machine F → Result Stop (Machine F)
  pop1 f m = elim m.stack [ [] ↦ err panic | a ∷ s ↦ ok (record m { stack = f a ∷ s }) ]

  abbrev pub push : Value F → Machine F → Machine F
  push v m = record m { stack = v ∷ m.stack }

  abbrev pub goto : ℕ → Machine F → Machine F
  goto t m = record m { ip = t }

  -- a jump that leaves the value it looks at
  abbrev pub peek_jump : (Value F → Bool) → ℕ → Machine F → Result Stop (Machine F)
  peek_jump p t m = elim m.stack [ [] ↦ err panic | v ∷ s ↦ ok (if p v then goto t m else m) ]

  abbrev pub const_value : Constant F → Value F
  const_value (Constant.number n) = Value.number n
  const_value (Constant.str s) = Value.str s

  -- with the assertion of a debug build
  abbrev pub const_str : Constant F → Result Stop Text
  const_str (Constant.number n) = err panic
  const_str (Constant.str s) = ok s
