-- ===== src/Bytecode/Values.antt =====
-- The primitive values of crates/yps-vm/src/value.rs and what they are taken for. Integers of type
-- BigInt, objects, arrays and functions are left out. A text is the list of its code points.
use yoptascript_rs.Prelude.{
  ℕ, ◌-◌, ◌%◌, ◌^◌, ltb, ◌==◌, Bool, true, false, not, ◌&&◌, ◌||◌, Option, none, some, List, [],
  ◌∷◌, if◌then◌else◌,
}

abbrev pub Text : Type 0
Text = List ℕ

unfoldable pub same_text : Text → Text → Bool
same_text [] [] = true
same_text (c ∷ cs) (d ∷ ds) = c == d && same_text cs ds
same_text cs ds = false

-- `std::cmp::Ordering`
pub data Order : Type 0 where
  less equal greater : Order

-- `as_bytes().cmp`: the bytes of UTF-8 are ordered as the code points are
unfoldable pub compare_text : Text → Text → Order
compare_text [] [] = equal
compare_text [] (d ∷ ds) = less
compare_text (c ∷ cs) [] = greater
compare_text (c ∷ cs) (d ∷ ds) =
    let later = compare_text cs ds in if c == d then later else if ltb c d then less else greater

-- The type `f64` with its operations, the bit operators of Rust's integers, and the readings between
-- numbers and texts, `string_to_number` and `number_to_string`.
pub record Floats (F : Type 0) : Type 0 where
  pub neg : F → F
  pub plus : F → F → F
  pub minus : F → F → F
  pub times : F → F → F
  pub divide : F → F → F
  pub remainder : F → F → F
  pub power : F → F → F
  pub partial_cmp : F → F → Option Order
  pub from_int : ℕ → F
  pub as_int : F → ℕ
  pub nan : F
  pub is_finite : F → Bool
  pub trunc : F → F
  pub rem_euclid : F → F → F
  pub and_bits : ℕ → ℕ → ℕ
  pub or_bits : ℕ → ℕ → ℕ
  pub xor_bits : ℕ → ℕ → ℕ
  pub string_to_number : Text → F
  pub number_to_string : F → Text

pub data Value (F : Type 0) : Type 0 where
  number : F → Value F
  str : Text → Value F
  boolean : Bool → Value F
  null undefined : Value F

abbrev pub two32 : ℕ
two32 = 2 ^ 32

abbrev pub half32 : ℕ
half32 = 2 ^ 31

unfoldable pub is_less : Order → Bool
is_less less = true
is_less o = false

unfoldable pub is_greater : Order → Bool
is_greater greater = true
is_greater o = false

unfoldable pub is_equal : Order → Bool
is_equal equal = true
is_equal o = false

-- `Option::is_some_and`
abbrev pub is_some_and : (Order → Bool) → Option Order → Bool
is_some_and p none = false
is_some_and p (some o) = p o

module _ {F : Type 0} (N : Floats F) where
  -- `==` of `f64`
  unfoldable pub eq_f64 : F → F → Bool
  eq_f64 a b = is_some_and is_equal (N.partial_cmp a b)

  -- `<`, `>`, `<=` and `>=` of `f64`, which are false on what has no order
  unfoldable pub lt_f64 : F → F → Bool
  lt_f64 a b = is_some_and is_less (N.partial_cmp a b)

  unfoldable pub gt_f64 : F → F → Bool
  gt_f64 a b = is_some_and is_greater (N.partial_cmp a b)

  unfoldable pub le_f64 : F → F → Bool
  le_f64 a b = is_some_and (λ o. not (is_greater o)) (N.partial_cmp a b)

  unfoldable pub ge_f64 : F → F → Bool
  ge_f64 a b = is_some_and (λ o. not (is_less o)) (N.partial_cmp a b)

  -- an `i32` is kept as its 32 bits
  unfoldable pub to_int32 : F → ℕ
  unfolding eq_f64 ge_f64
  to_int32 n =
      if not (N.is_finite n) || eq_f64 n (N.from_int 0)
      then 0
      else let modulo = N.rem_euclid (N.trunc n) (N.from_int two32) in
        if ge_f64 modulo (N.from_int half32)
        then (two32 - N.as_int (N.minus (N.from_int two32) modulo)) % two32
        else N.as_int modulo % two32

  unfoldable pub to_uint32 : F → ℕ
  unfolding to_int32
  to_uint32 n = to_int32 n

  -- `f64::from` on an `i32`
  unfoldable pub from_i32 : ℕ → F
  from_i32 n = if ltb n half32 then N.from_int n else N.neg (N.from_int (two32 - n))

  unfoldable pub is_truthy : Value F → Bool
  unfolding eq_f64
  is_truthy (number n) = not (eq_f64 n (N.from_int 0))
  is_truthy (str []) = false
  is_truthy (str (c ∷ cs)) = true
  is_truthy (boolean b) = b
  is_truthy v = false

  unfoldable pub to_number : Value F → F
  to_number (number n) = n
  to_number (str s) = N.string_to_number s
  to_number (boolean true) = N.from_int 1
  to_number (boolean false) = N.from_int 0
  to_number null = N.from_int 0
  to_number undefined = N.nan

  unfoldable pub to_ecma_string : Value F → Text
  to_ecma_string (number n) = N.number_to_string n
  to_ecma_string (str s) = s
  to_ecma_string (boolean true) = b't' ∷ b'r' ∷ b'u' ∷ b'e' ∷ []
  to_ecma_string (boolean false) = b'f' ∷ b'a' ∷ b'l' ∷ b's' ∷ b'e' ∷ []
  to_ecma_string null = b'n' ∷ b'u' ∷ b'l' ∷ b'l' ∷ []
  to_ecma_string undefined = b'u' ∷ b'n' ∷ b'd' ∷ b'e' ∷ b'f' ∷ b'i' ∷ b'n' ∷ b'e' ∷ b'd' ∷ []

  -- "число", "строка", "булево", "объект" and "неопределено"
  unfoldable pub typeof_str : Value F → Text
  typeof_str (number n) = 1095 ∷ 1080 ∷ 1089 ∷ 1083 ∷ 1086 ∷ []
  typeof_str (str s) = 1089 ∷ 1090 ∷ 1088 ∷ 1086 ∷ 1082 ∷ 1072 ∷ []
  typeof_str (boolean b) = 1073 ∷ 1091 ∷ 1083 ∷ 1077 ∷ 1074 ∷ 1086 ∷ []
  typeof_str null = 1086 ∷ 1073 ∷ 1098 ∷ 1077 ∷ 1082 ∷ 1090 ∷ []
  typeof_str undefined =
      1085 ∷ 1077 ∷ 1086 ∷ 1087 ∷ 1088 ∷ 1077 ∷ 1076 ∷ 1077 ∷ 1083 ∷ 1077 ∷ 1085 ∷ 1086 ∷ []

  unfoldable pub strict_eq : Value F → Value F → Bool
  unfolding eq_f64 same_text
  strict_eq (number x) (number y) = eq_f64 x y
  strict_eq (str x) (str y) = same_text x y
  strict_eq (boolean true) (boolean b) = b
  strict_eq (boolean false) (boolean b) = not b
  strict_eq null null = true
  strict_eq undefined undefined = true
  strict_eq a b = false

  -- `abstract_eq` with a number on the left
  unfoldable pub number_eq : F → Value F → Bool
  unfolding eq_f64 to_number
  number_eq x (number y) = eq_f64 x y
  number_eq x (str y) = eq_f64 x (N.string_to_number y)
  number_eq x (boolean b) = eq_f64 x (to_number (boolean b))
  number_eq x b = false

  unfoldable pub abstract_eq : Value F → Value F → Bool
  unfolding eq_f64 strict_eq to_number number_eq
  abstract_eq null null = true
  abstract_eq null undefined = true
  abstract_eq undefined null = true
  abstract_eq undefined undefined = true
  abstract_eq (number x) b = number_eq x b
  abstract_eq (str x) (str y) = strict_eq (str x) (str y)
  abstract_eq (str x) (number y) = eq_f64 (N.string_to_number x) y
  abstract_eq (str x) (boolean b) = eq_f64 (N.string_to_number x) (to_number (boolean b))
  abstract_eq (boolean a) (boolean b) = strict_eq (boolean a) (boolean b)
  abstract_eq (boolean a) b = number_eq (to_number (boolean a)) b
  abstract_eq a b = false
