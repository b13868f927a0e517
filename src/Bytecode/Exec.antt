-- ===== src/Bytecode/Exec.antt =====
-- `exec_op` of crates/yps-vm/src/vm.rs on the instructions for expressions, and the loop around it.
use yoptascript_rs.Prelude.{
  ℕ, suc, ◌≡◌, true, false, not, Option, none, some, [], ◌∷◌, if◌then◌else◌, get_elem?,
}
use yoptascript_rs.Bytecode.Values.{
  Text, is_less, is_greater, Floats, Value, is_truthy, to_number, typeof_str, strict_eq,
  abstract_eq,
}
use yoptascript_rs.Bytecode.Result.{Result, ok, err, ◌>>=◌}
use yoptascript_rs.Bytecode.Chunk.{Op, Chunk}
use yoptascript_rs.Bytecode.Machine.{
  VmError, undefined_variable, not_a_container, not_a_class, not_callable, Stop, failed, panic,
  expect, from_bottom, set_from_bottom, global_get, global_set, Machine, shl_bits, shr_bits,
  Natives, add_values, numeric_bin, int_bin, shift_bin, ushr_bin, compare, is_nullish,
  bit_not_value, pop1, push, goto, peek_jump, const_value, const_str,
}

-- an error of an operation as an end of the run
abbrev pub lift : {A : Type 0} → Result VmError A → Result Stop A
lift (ok a) = ok a
lift (err e) = err (failed e)

module _ {F : Type 0} (N : Floats F) (natives : Natives F) (chunk : Chunk F) where
  -- the arm of `GetGlobal`
  unfoldable pub get_global : Text → Machine F → Result VmError (Machine F)
  unfolding global_get
  get_global name m = elim (global_get name m.globals) [
    | some slot ↦ ok (push slot.0 m)
    | none ↦ elim (natives name) [ some v ↦ ok (push v m) | none ↦ err (undefined_variable name) ]
  ]

  -- the arm of `SetGlobal`
  abbrev set_global : Text → Machine F → Result Stop (Machine F)
  set_global name m = elim m.stack [
    | [] ↦ err panic
    | v ∷ s ↦ lift (global_set name v m.globals) >>= λ globals. ok (record m { globals = globals })
  ]

  -- the arm of `JumpIfFalse`
  abbrev jump_if_false : ℕ → Machine F → Result Stop (Machine F)
  jump_if_false t m = elim m.stack [
    | [] ↦ err panic
    | v ∷ s ↦ ok (record m { stack = s; ip = if is_truthy N v then m.ip else t })
  ]

  -- The operators with two operands; the other instructions are `none`. `In` and `Instanceof` have an
  -- object, an array or a class on their right.
  unfoldable pub operate : Op → Value F → Value F → Option (Result Stop (Value F))
  unfolding add_values numeric_bin int_bin shift_bin ushr_bin shl_bits shr_bits is_less is_greater
      compare strict_eq abstract_eq
  operate Op.add a b = some (ok (add_values N a b))
  operate Op.sub a b = some (ok (numeric_bin N N.minus a b))
  operate Op.mul a b = some (ok (numeric_bin N N.times a b))
  operate Op.div a b = some (ok (numeric_bin N N.divide a b))
  operate Op.modulo a b = some (ok (numeric_bin N N.remainder a b))
  operate Op.pow a b = some (ok (numeric_bin N N.power a b))
  operate Op.bit_and a b = some (ok (int_bin N N.and_bits a b))
  operate Op.bit_or a b = some (ok (int_bin N N.or_bits a b))
  operate Op.bit_xor a b = some (ok (int_bin N N.xor_bits a b))
  operate Op.shl a b = some (ok (shift_bin N shl_bits a b))
  operate Op.shr a b = some (ok (shift_bin N shr_bits a b))
  operate Op.ushr a b = some (ok (ushr_bin N a b))
  operate Op.eq a b = some (ok (Value.boolean (abstract_eq N a b)))
  operate Op.ne a b = some (ok (Value.boolean (not (abstract_eq N a b))))
  operate Op.strict_eq a b = some (ok (Value.boolean (strict_eq N a b)))
  operate Op.strict_ne a b = some (ok (Value.boolean (not (strict_eq N a b))))
  operate Op.lt a b = some (ok (compare N is_less a b))
  operate Op.gt a b = some (ok (compare N is_greater a b))
  operate Op.le a b = some (ok (compare N (λ o. not (is_greater o)) a b))
  operate Op.ge a b = some (ok (compare N (λ o. not (is_less o)) a b))
  operate Op.is_in a b = some (err (failed not_a_container))
  operate Op.instanceof a b = some (err (failed not_a_class))
  operate op a b = none

  -- the instructions that are no operators with two operands
  unfoldable pub exec_plain : Op → Machine F → Result Stop (Machine F)
  unfolding is_truthy to_number typeof_str bit_not_value is_nullish get_global global_set
      from_bottom set_from_bottom
  exec_plain (Op.constant i) m =
      expect (get_elem? chunk.constants i) >>= λ c. ok (push (const_value c) m)
  exec_plain Op.null m = ok (push Value.null m)
  exec_plain Op.undefined m = ok (push Value.undefined m)
  exec_plain Op.op_true m = ok (push (Value.boolean true) m)
  exec_plain Op.op_false m = ok (push (Value.boolean false) m)
  exec_plain Op.pop m = elim m.stack [ [] ↦ err panic | v ∷ s ↦ ok (record m { stack = s }) ]
  exec_plain Op.dup m = elim m.stack [ [] ↦ err panic | v ∷ s ↦ ok (push v m) ]
  exec_plain Op.neg m = pop1 (λ a. Value.number (N.neg (to_number N a))) m
  exec_plain Op.pos m = pop1 (λ a. Value.number (to_number N a)) m
  exec_plain Op.not m = pop1 (λ a. Value.boolean (not (is_truthy N a))) m
  exec_plain Op.bit_not m = pop1 (bit_not_value N) m
  exec_plain Op.typeof m = pop1 (λ a. Value.str (typeof_str N a)) m
  exec_plain (Op.get_global i) m =
      expect (get_elem? chunk.constants i) >>= λ c. const_str c >>= λ name. lift (get_global name m)
  exec_plain (Op.set_global i) m =
      expect (get_elem? chunk.constants i) >>= λ c. const_str c >>= λ name. set_global name m
  exec_plain (Op.get_local slot) m = expect (from_bottom m.stack slot) >>= λ v. ok (push v m)
  exec_plain (Op.set_local slot) m = elim m.stack [
    | [] ↦ err panic
    | v ∷ s ↦ ok (record m { stack = set_from_bottom m.stack slot v })
  ]
  exec_plain (Op.jump t) m = ok (goto t m)
  exec_plain (Op.jump_if_false t) m = jump_if_false t m
  exec_plain (Op.jump_if_false_peek t) m = peek_jump (λ v. not (is_truthy N v)) t m
  exec_plain (Op.jump_if_true_peek t) m = peek_jump (is_truthy N) t m
  exec_plain (Op.jump_if_nullish_peek t) m = peek_jump (is_nullish) t m
  exec_plain (Op.jump_if_not_nullish_peek t) m = peek_jump (λ v. not (is_nullish v)) t m
  -- no primitive value can be called
  exec_plain (Op.call argc) m = err (failed not_callable)
  exec_plain op m = err panic

  unfoldable pub exec_op : Op → Machine F → Result Stop (Machine F)
  unfolding operate exec_plain
  exec_op op m = elim m.stack [
    | b ∷ a ∷ s ↦ elim (operate op a b) [
      | some r ↦ r >>= λ v. ok (record m { stack = v ∷ s })
      | none ↦ exec_plain op m
    ]
    | s ↦ exec_plain op m
  ]

  -- one round of `run_region`
  unfoldable pub step : Machine F → Result Stop (Machine F)
  unfolding exec_op
  step m = elim (get_elem? chunk.code m.ip) [
    | none ↦ err panic
    | some op ↦ exec_op op (record m { ip = suc m.ip })
  ]

  -- the rounds of `run_region` up to a machine, or up to an error
  pub data Run : Machine F → Result Stop (Machine F) → Type 0 where
    done : {m : Machine F} → Run m (ok m)
    more : {m n : Machine F} {r : Result Stop (Machine F)} → step m ≡ ok n → Run n r → Run m r
    stops : {m : Machine F} {e : Stop} → step m ≡ err e → Run m (err e)
