-- ===== src/Positions/Text.antt =====
-- Lengths and fronts of a text, for crates/yps-lsp/src/position.rs.
use Prim.Native.Nat.{◌-◌}
use yoptascript_rs.Prelude.{
  ℕ, zero, suc, ◌+◌, ◌<◌, ◌≤◌, ◌≡◌, refl, ap, true, List, [], ◌∷◌, ◌++◌, arith,
}
use yoptascript_rs.Positions.Convert.{
  len_utf8, len_utf16, bytes, units, is_char_boundary, boundary_below, take_bytes, drop_bytes, walk,
}

pub len_utf8_pos : (c : ℕ) → 0 < len_utf8 c
unfolding len_utf8
len_utf8_pos c = ground arith

pub len_utf16_pos : (c : ℕ) → 0 < len_utf16 c
unfolding len_utf16
len_utf16_pos c = ground arith

pub bytes-append : (xs ys : List ℕ) → bytes (xs ++ ys) ≡ bytes xs + bytes ys
unfolding bytes
bytes-append [] ys = omega arith
bytes-append (c ∷ xs) ys = omega (arith, bytes-append xs ys)

pub units-append : (xs ys : List ℕ) → units (xs ++ ys) ≡ units xs + units ys
unfolding units
units-append [] ys = omega arith
units-append (c ∷ xs) ys = omega (arith, units-append xs ys)

pub drop_bytes-append : (xs ys : List ℕ) → drop_bytes (bytes xs) (xs ++ ys) ≡ ys
unfolding drop_bytes bytes
drop_bytes-append [] [] = refl
drop_bytes-append [] (c ∷ ys) = ground (arith, len_utf8_pos c)
drop_bytes-append (c ∷ xs) ys =
    let rest : (len_utf8 c + bytes xs) - len_utf8 c ≡ bytes xs = omega arith in
    ground (arith, drop_bytes-append xs ys)

pub walk-append : (r s : List ℕ) (idx : ℕ) → walk (units r) idx (r ++ s) ≡ idx + bytes r
unfolding walk units bytes
walk-append [] [] idx = omega arith
walk-append [] (c ∷ s) idx = omega arith
walk-append (c ∷ r) s idx =
    let left : (len_utf16 c + units r) - len_utf16 c ≡ units r = omega arith in
    ground (arith, len_utf16_pos c, walk-append r s (idx + len_utf8 c))

-- a boundary cuts the text there
pub take_bytes-drop_bytes : (n : ℕ) (src : List ℕ) → take_bytes n src ++ drop_bytes n src ≡ src
unfolding take_bytes drop_bytes
take_bytes-drop_bytes n [] = refl
take_bytes-drop_bytes n (c ∷ cs) = ground (arith, take_bytes-drop_bytes (n - len_utf8 c) cs)

pub bytes-take_bytes :
    (src : List ℕ) (n : ℕ) → is_char_boundary src n ≡ true → bytes (take_bytes n src) ≡ n
unfolding is_char_boundary take_bytes bytes
bytes-take_bytes [] zero e = refl
bytes-take_bytes [] (suc n) e = ground arith
bytes-take_bytes (c ∷ cs) zero e = ground (arith, len_utf8_pos c)
bytes-take_bytes (c ∷ cs) (suc n) e = ground (arith, bytes-take_bytes cs (suc n - len_utf8 c))

pub boundary-bytes : (src : List ℕ) (n : ℕ) → is_char_boundary src n ≡ true → n ≤ bytes src
boundary-bytes src n e =
    let parts = bytes-append (take_bytes n src) (drop_bytes n src) in
    let same = ap bytes (take_bytes-drop_bytes n src) in
    let front = bytes-take_bytes src n e in omega arith

pub boundary_below-boundary :
    (src : List ℕ) (n : ℕ) → is_char_boundary src (boundary_below src n) ≡ true
unfolding boundary_below is_char_boundary
boundary_below-boundary [] zero = refl
boundary_below-boundary (c ∷ cs) zero = refl
boundary_below-boundary src (suc n) = ground (arith, boundary_below-boundary src n)
