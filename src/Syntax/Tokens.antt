-- ===== src/Syntax/Tokens.antt =====
-- Tokens: crates/yps-lexer/src/token.rs. A token carries the text it was read from. Left out are the
-- tokens that start functions, blocks, object literals, templates, regular expressions and
-- declarations, and the numbers whose text ends in `n`.
use yoptascript_rs.Prelude.{ℕ, List}

pub data KeywordKind : Type 0 where
  pravda lozh nol undefined this super new typeof delete void await yield yield_delegate instanceof
        is_in :
      KeywordKind

pub data OperatorKind : Type 0 where
  plus minus multiply exponent divide modulo assign plus_assign minus_assign mul_assign div_assign
        exponent_assign increment decrement equals strict_equals not_equals strict_not_equals less
        greater less_or_equal greater_or_equal and or not nullish_coalescing nullish_assign
        and_assign or_assign pipeline bit_and bit_or bit_xor bitwise_not left_shift right_shift
        unsigned_right_shift mod_assign bit_and_assign bit_or_assign bit_xor_assign shl_assign
        shr_assign ushr_assign :
      OperatorKind

pub data PunctuationKind : Type 0 where
  l_paren r_paren l_bracket r_bracket r_brace semicolon comma colon dot spread question
        optional_chain :
      PunctuationKind

pub data Token : Type 0 where
  identifier : List ℕ → Token
  private_identifier : List ℕ → Token
  number : List ℕ → Token
  string_literal : List ℕ → Token
  keyword : KeywordKind → Token
  operator : OperatorKind → Token
  punctuation : PunctuationKind → Token
  eof : Token

abbrev pub Tokens : Type 0
Tokens = List Token
