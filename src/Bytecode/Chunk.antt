-- ===== src/Bytecode/Chunk.antt =====
-- Instructions and chunks: crates/yps-vm/src/chunk.rs. The instructions are those that expressions on
-- primitive values are compiled to; a chunk has no positions in the text and no inline caches.
use yoptascript_rs.Prelude.{ℕ, Option, none, some, List, [], ◌∷◌, ◌++◌, get_elem?, set}
use yoptascript_rs.Bytecode.Values.{Text}

pub data Constant (F : Type 0) : Type 0 where
  number : F → Constant F
  str : Text → Constant F

pub data Op : Type 0 where
  constant : ℕ → Op
  null undefined op_true op_false pop dup : Op
  neg pos not bit_not typeof : Op
  add sub mul div modulo pow bit_and bit_or bit_xor shl shr ushr : Op
  eq ne strict_eq strict_ne lt gt le ge is_in instanceof : Op
  get_global set_global get_local set_local : ℕ → Op
  jump jump_if_false jump_if_false_peek jump_if_true_peek : ℕ → Op
  jump_if_nullish_peek jump_if_not_nullish_peek : ℕ → Op
  call : ℕ → Op

pub record Chunk (F : Type 0) : Type 0 where
  pub code : List Op
  pub constants : List (Constant F)

-- a jump with another target; no other instruction has one
unfoldable pub retarget : Op → ℕ → Option Op
retarget (Op.jump _) t = some (Op.jump t)
retarget (Op.jump_if_false _) t = some (Op.jump_if_false t)
retarget (Op.jump_if_false_peek _) t = some (Op.jump_if_false_peek t)
retarget (Op.jump_if_true_peek _) t = some (Op.jump_if_true_peek t)
retarget (Op.jump_if_nullish_peek _) t = some (Op.jump_if_nullish_peek t)
retarget (Op.jump_if_not_nullish_peek _) t = some (Op.jump_if_not_nullish_peek t)
retarget op t = none

module _ {F : Type 0} where
  -- the place of the instruction is the length of the code before
  abbrev pub push_op : Op → Chunk F → Chunk F
  push_op op c = record c { code = c.code ++ op ∷ [] }

  -- the index of the constant is the number of constants before, as a `u32`
  abbrev pub add_constant : Constant F → Chunk F → Chunk F
  add_constant v c = record c { constants = c.constants ++ v ∷ [] }

  -- `none` is the panic on an instruction that is no jump
  unfoldable pub patch_jump : ℕ → ℕ → Chunk F → Option (Chunk F)
  unfolding retarget
  patch_jump place target c = elim (get_elem? c.code place) [
    | none ↦ none
    | some op ↦ elim (retarget op target) [
      | none ↦ none
      | some patched ↦ some (record c { code = set c.code place patched })
    ]
  ]
