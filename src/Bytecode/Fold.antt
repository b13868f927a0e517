-- ===== src/Bytecode/Fold.antt =====
-- Constant folding of crates/yps-vm/src/compiler.rs.
use yoptascript_rs.Prelude.{
  ℕ, ◌%◌, ◌==◌, Bool, true, false, not, ◌&&◌, ◌||◌, Option, none, some, [], ◌∷◌, ◌++◌,
  if◌then◌else◌,
}
use yoptascript_rs.Syntax.Ops.{UnaryOp, BinaryOp}
use yoptascript_rs.Syntax.Tree.{Literal}
use yoptascript_rs.Bytecode.Values.{
  Text, same_text, compare_text, is_less, is_greater, Floats, eq_f64, lt_f64, gt_f64, le_f64,
  ge_f64, to_int32, to_uint32, from_i32,
}
use yoptascript_rs.Bytecode.Machine.{shl_bits, shr_bits, ushr_bits}
use yoptascript_rs.Bytecode.Tree.{Expr}

pub data FoldVal (F : Type 0) : Type 0 where
  num : F → FoldVal F
  str : Text → FoldVal F
  bool : Bool → FoldVal F

-- `?` on an option
abbrev pub and_then : {A B : Type 0} → Option A → (A → Option B) → Option B
and_then none f = none
and_then (some a) f = f a

-- `replace('_', "")`
unfoldable pub without_underscores : Text → Text
without_underscores [] = []
without_underscores (c ∷ cs) =
    let later = without_underscores cs in if c == b'_' then later else c ∷ later

module _ {F : Type 0} (N : Floats F) where
  unfoldable pub parse_number_literal : Text → F
  unfolding without_underscores
  parse_number_literal raw = N.string_to_number (without_underscores raw)

  unfoldable pub fold_val_to_number : FoldVal F → F
  fold_val_to_number (FoldVal.num n) = n
  fold_val_to_number (FoldVal.bool true) = N.from_int 1
  fold_val_to_number (FoldVal.bool false) = N.from_int 0
  fold_val_to_number (FoldVal.str s) = N.string_to_number s

  unfoldable pub fold_val_is_truthy : FoldVal F → Bool
  unfolding eq_f64
  fold_val_is_truthy (FoldVal.num n) = not (eq_f64 N n (N.from_int 0))
  fold_val_is_truthy (FoldVal.str []) = false
  fold_val_is_truthy (FoldVal.str (c ∷ cs)) = true
  fold_val_is_truthy (FoldVal.bool b) = b

  unfoldable pub fold_unary : UnaryOp → FoldVal F → Option (FoldVal F)
  unfolding fold_val_to_number fold_val_is_truthy
  fold_unary UnaryOp.minus v = some (FoldVal.num (N.neg (fold_val_to_number v)))
  fold_unary UnaryOp.plus v = some (FoldVal.num (fold_val_to_number v))
  fold_unary UnaryOp.not v = some (FoldVal.bool (not (fold_val_is_truthy v)))
  fold_unary op v = none

  abbrev bits : (ℕ → ℕ → ℕ) → F → F → FoldVal F
  bits f a b = FoldVal.num (from_i32 N (f (to_int32 N a) (to_int32 N b)))

  abbrev shifts : (ℕ → ℕ → ℕ) → F → F → FoldVal F
  shifts f a b = FoldVal.num (from_i32 N (f (to_int32 N a) (to_uint32 N b % 32)))

  -- the arms with two numbers
  unfoldable pub fold_numbers : BinaryOp → F → F → Option (FoldVal F)
  unfolding eq_f64 lt_f64 gt_f64 le_f64 ge_f64 to_int32 to_uint32 from_i32 shl_bits shr_bits
      ushr_bits
  fold_numbers BinaryOp.add a b = some (FoldVal.num (N.plus a b))
  fold_numbers BinaryOp.sub a b = some (FoldVal.num (N.minus a b))
  fold_numbers BinaryOp.mul a b = some (FoldVal.num (N.times a b))
  fold_numbers BinaryOp.div a b = some (FoldVal.num (N.divide a b))
  fold_numbers BinaryOp.modulo a b = some (FoldVal.num (N.remainder a b))
  fold_numbers BinaryOp.exp a b = some (FoldVal.num (N.power a b))
  fold_numbers BinaryOp.bit_and a b = some (bits N.and_bits a b)
  fold_numbers BinaryOp.bit_or a b = some (bits N.or_bits a b)
  fold_numbers BinaryOp.bit_xor a b = some (bits N.xor_bits a b)
  fold_numbers BinaryOp.left_shift a b = some (shifts shl_bits a b)
  fold_numbers BinaryOp.right_shift a b = some (shifts shr_bits a b)
  fold_numbers BinaryOp.unsigned_right_shift a b =
      some (FoldVal.num (N.from_int (ushr_bits (to_uint32 N a) (to_uint32 N b % 32))))
  fold_numbers BinaryOp.less a b = some (FoldVal.bool (lt_f64 N a b))
  fold_numbers BinaryOp.greater a b = some (FoldVal.bool (gt_f64 N a b))
  fold_numbers BinaryOp.less_or_equal a b = some (FoldVal.bool (le_f64 N a b))
  fold_numbers BinaryOp.greater_or_equal a b = some (FoldVal.bool (ge_f64 N a b))
  fold_numbers BinaryOp.equals a b = some (FoldVal.bool (eq_f64 N a b))
  fold_numbers BinaryOp.strict_equals a b = some (FoldVal.bool (eq_f64 N a b))
  fold_numbers BinaryOp.not_equals a b = some (FoldVal.bool (not (eq_f64 N a b)))
  fold_numbers BinaryOp.strict_not_equals a b = some (FoldVal.bool (not (eq_f64 N a b)))
  fold_numbers op a b = none

  -- the arms with two texts
  unfoldable pub fold_texts : BinaryOp → Text → Text → Option (FoldVal F)
  unfolding same_text compare_text is_less is_greater
  fold_texts BinaryOp.add a b = some (FoldVal.str (a ++ b))
  fold_texts BinaryOp.less a b = some (FoldVal.bool (is_less (compare_text a b)))
  fold_texts BinaryOp.greater a b = some (FoldVal.bool (is_greater (compare_text a b)))
  fold_texts BinaryOp.less_or_equal a b = some (FoldVal.bool (not (is_greater (compare_text a b))))
  fold_texts BinaryOp.greater_or_equal a b = some (FoldVal.bool (not (is_less (compare_text a b))))
  fold_texts BinaryOp.equals a b = some (FoldVal.bool (same_text a b))
  fold_texts BinaryOp.strict_equals a b = some (FoldVal.bool (same_text a b))
  fold_texts BinaryOp.not_equals a b = some (FoldVal.bool (not (same_text a b)))
  fold_texts BinaryOp.strict_not_equals a b = some (FoldVal.bool (not (same_text a b)))
  fold_texts op a b = none

  abbrev same_bool : Bool → Bool → Bool
  same_bool true b = b
  same_bool false b = not b

  -- the arms with two Booleans
  unfoldable pub fold_bools : BinaryOp → Bool → Bool → Option (FoldVal F)
  fold_bools BinaryOp.equals a b = some (FoldVal.bool (same_bool a b))
  fold_bools BinaryOp.strict_equals a b = some (FoldVal.bool (same_bool a b))
  fold_bools BinaryOp.not_equals a b = some (FoldVal.bool (not (same_bool a b)))
  fold_bools BinaryOp.strict_not_equals a b = some (FoldVal.bool (not (same_bool a b)))
  fold_bools BinaryOp.and a b = some (FoldVal.bool (a && b))
  fold_bools BinaryOp.or a b = some (FoldVal.bool (a || b))
  fold_bools op a b = none

  unfoldable pub fold_binary_op : BinaryOp → FoldVal F → FoldVal F → Option (FoldVal F)
  unfolding fold_numbers fold_texts fold_bools
  fold_binary_op op (FoldVal.num a) (FoldVal.num b) = fold_numbers op a b
  fold_binary_op op (FoldVal.str a) (FoldVal.str b) = fold_texts op a b
  fold_binary_op op (FoldVal.bool a) (FoldVal.bool b) = fold_bools op a b
  fold_binary_op op l r = none

  unfoldable pub fold_const : Expr → Option (FoldVal F)
  unfolding parse_number_literal fold_unary fold_binary_op
  fold_const (Expr.literal (Literal.number raw)) = some (FoldVal.num (parse_number_literal raw))
  fold_const (Expr.literal (Literal.string s)) = some (FoldVal.str s)
  fold_const (Expr.literal (Literal.boolean b)) = some (FoldVal.bool b)
  fold_const (Expr.grouping e) = fold_const e
  fold_const (Expr.unary op e) = and_then (fold_const e) (fold_unary op)
  fold_const (Expr.binary op l r) =
      and_then (fold_const l) (λ a. and_then (fold_const r) (λ b. fold_binary_op op a b))
  fold_const e = none
