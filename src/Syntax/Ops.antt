-- ===== src/Syntax/Ops.antt =====
-- Operators and their precedence: crates/yps-parser/src/ast/ops.rs and
-- crates/yps-parser/src/precedence.rs.
use yoptascript_rs.Prelude.{ℕ, Bool, true, false}

pub data UnaryOp : Type 0 where
  plus minus not bitwise_not typeof delete void : UnaryOp

pub data PostfixOp : Type 0 where
  increment decrement : PostfixOp

pub data BinaryOp : Type 0 where
  add sub mul div modulo exp assign plus_assign minus_assign mul_assign div_assign exp_assign equals
        strict_equals not_equals strict_not_equals less greater less_or_equal greater_or_equal and
        or nullish_coalescing nullish_assign and_assign or_assign pipeline instanceof is_in bit_and
        bit_or bit_xor left_shift right_shift unsigned_right_shift mod_assign bit_and_assign
        bit_or_assign bit_xor_assign shl_assign shr_assign ushr_assign :
      BinaryOp

abbrev pub ternary_precedence : ℕ
ternary_precedence = 2

abbrev pub unary_precedence : ℕ
unary_precedence = 16

abbrev pub assign_precedence : ℕ
assign_precedence = 1

abbrev pub postfix_precedence : ℕ
postfix_precedence = 13

abbrev pub call_precedence : ℕ
call_precedence = 14

unfoldable pub binary_precedence : BinaryOp → ℕ
binary_precedence add = 13
binary_precedence sub = 13
binary_precedence mul = 14
binary_precedence div = 14
binary_precedence modulo = 14
binary_precedence exp = 15
binary_precedence assign = 1
binary_precedence plus_assign = 1
binary_precedence minus_assign = 1
binary_precedence mul_assign = 1
binary_precedence div_assign = 1
binary_precedence exp_assign = 1
binary_precedence equals = 9
binary_precedence strict_equals = 9
binary_precedence not_equals = 9
binary_precedence strict_not_equals = 9
binary_precedence less = 10
binary_precedence greater = 10
binary_precedence less_or_equal = 10
binary_precedence greater_or_equal = 10
binary_precedence and = 5
binary_precedence or = 3
binary_precedence nullish_coalescing = 4
binary_precedence nullish_assign = 1
binary_precedence and_assign = 1
binary_precedence or_assign = 1
binary_precedence pipeline = 11
binary_precedence instanceof = 10
binary_precedence is_in = 10
binary_precedence bit_and = 8
binary_precedence bit_or = 6
binary_precedence bit_xor = 7
binary_precedence left_shift = 12
binary_precedence right_shift = 12
binary_precedence unsigned_right_shift = 12
binary_precedence mod_assign = 1
binary_precedence bit_and_assign = 1
binary_precedence bit_or_assign = 1
binary_precedence bit_xor_assign = 1
binary_precedence shl_assign = 1
binary_precedence shr_assign = 1
binary_precedence ushr_assign = 1

unfoldable pub binary_is_right_assoc : BinaryOp → Bool
binary_is_right_assoc add = false
binary_is_right_assoc sub = false
binary_is_right_assoc mul = false
binary_is_right_assoc div = false
binary_is_right_assoc modulo = false
binary_is_right_assoc exp = true
binary_is_right_assoc assign = true
binary_is_right_assoc plus_assign = true
binary_is_right_assoc minus_assign = true
binary_is_right_assoc mul_assign = true
binary_is_right_assoc div_assign = true
binary_is_right_assoc exp_assign = true
binary_is_right_assoc equals = false
binary_is_right_assoc strict_equals = false
binary_is_right_assoc not_equals = false
binary_is_right_assoc strict_not_equals = false
binary_is_right_assoc less = false
binary_is_right_assoc greater = false
binary_is_right_assoc less_or_equal = false
binary_is_right_assoc greater_or_equal = false
binary_is_right_assoc and = false
binary_is_right_assoc or = false
binary_is_right_assoc nullish_coalescing = false
binary_is_right_assoc nullish_assign = true
binary_is_right_assoc and_assign = true
binary_is_right_assoc or_assign = true
binary_is_right_assoc pipeline = false
binary_is_right_assoc instanceof = false
binary_is_right_assoc is_in = false
binary_is_right_assoc bit_and = false
binary_is_right_assoc bit_or = false
binary_is_right_assoc bit_xor = false
binary_is_right_assoc left_shift = false
binary_is_right_assoc right_shift = false
binary_is_right_assoc unsigned_right_shift = false
binary_is_right_assoc mod_assign = true
binary_is_right_assoc bit_and_assign = true
binary_is_right_assoc bit_or_assign = true
binary_is_right_assoc bit_xor_assign = true
binary_is_right_assoc shl_assign = true
binary_is_right_assoc shr_assign = true
binary_is_right_assoc ushr_assign = true
