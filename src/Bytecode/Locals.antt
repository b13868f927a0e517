-- ===== src/Bytecode/Locals.antt =====
-- Variables: the local variables of a script in crates/yps-vm/src/compiler.rs, innermost first, and,
-- to describe what a program means, their values.
use yoptascript_rs.Prelude.{
  ℕ, ◌==◌, ◌%◌, ◌^◌, Bool, false, not, ◌&&◌, Option, none, some, List, [], ◌∷◌, if◌then◌else◌, map,
  length,
}
use yoptascript_rs.Bytecode.Values.{Text, same_text, Value}
use yoptascript_rs.Bytecode.Result.{Result, ok, err, ◌>>=◌}
use yoptascript_rs.Bytecode.Machine.{
  VmError, undefined_variable, constant_variable, Globals, global_get, global_set, Natives,
}

-- without the depth, which only the end of a scope reads, and whether a function captures it
pub record Local : Type 0 where
  pub name : Text
  pub is_const : Bool
  pub initialized : Bool

-- `THIS_LOCAL`
abbrev pub this_local : Text
this_local = 0 ∷ b't' ∷ b'h' ∷ b'i' ∷ b's' ∷ []

-- whether the local above `below` others has the name; the lowest is the script itself
unfoldable pub answers : Text → Local → ℕ → Bool
unfolding same_text
answers name local below =
    if below == 0 && not (same_text local.name this_local) then false else same_text local.name name

-- the slot of a variable, a `u32`, with its local
unfoldable pub resolve_local : List Local → Text → Option (ℕ × Local)
unfolding answers
resolve_local [] name = none
resolve_local (local ∷ locals) name =
    let below = resolve_local locals name in
    if answers name local (length locals) then some (length locals % 2 ^ 32, local) else below

abbrev pub Frame : Type 0 → Type 0
Frame F = List (Local × Value F)

-- the variables while a program runs
pub record Store (F : Type 0) : Type 0 where
  pub frame : Frame F
  pub globals : Globals F

module _ {F : Type 0} where
  abbrev pub values : Frame F → List (Value F)
  values = map (λ slot. slot.1)

  abbrev pub locals_of : Frame F → List Local
  locals_of = map (λ slot. slot.0)

  -- the innermost local variable with the name
  unfoldable pub find : Frame F → Text → Option (Local × Value F)
  unfolding answers
  find [] name = none
  find (slot ∷ frame) name =
      let below = find frame name in if answers name slot.0 (length frame) then some slot else below

  unfoldable pub replace : Frame F → Text → Value F → Frame F
  unfolding answers
  replace [] name v = []
  replace (slot ∷ frame) name v =
      let below = replace frame name v in
      if answers name slot.0 (length frame) then (slot.0, v) ∷ frame else slot ∷ below

  -- the value of a variable: a local one, a global one, or one that the machine brings
  unfoldable pub read : Natives F → Text → Store F → Result VmError (Value F)
  unfolding find global_get
  read natives name st = elim (find st.frame name) [
    | some slot ↦ ok slot.1
    | none ↦ elim (global_get name st.globals) [
      | some slot ↦ ok slot.0
      | none ↦ elim (natives name) [ none ↦ err (undefined_variable name) | some v ↦ ok v ]
    ]
  ]

  unfoldable pub write : Text → Value F → Store F → Result VmError (Store F)
  unfolding find replace global_set
  write name v st = elim (find st.frame name) [
    | some slot ↦
        if slot.0.is_const
        then err (constant_variable name)
        else ok (record st { frame = replace st.frame name v })
    | none ↦ global_set name v st.globals >>= λ globals. ok (record st { globals = globals })
  ]
