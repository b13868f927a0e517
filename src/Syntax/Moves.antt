-- ===== src/Syntax/Moves.antt =====
-- What it means that a parser of crates/yps-parser/src/parser/expr.rs moves on.
use yoptascript_rs.Prelude.{
  ℕ, ◌≤◌, ◌<◌, ◌≡◌, refl, Bool, true, false, [], ◌∷◌, if◌then◌else◌, arith, length,
}
use yoptascript_rs.Syntax.Tokens.{PunctuationKind, Tokens, identifier, punctuation}
use yoptascript_rs.Syntax.Parse.{
  expected, out_of_fuel, same_punct, Result, ok, err, ◌>>=◌, Prec, advance, is_punct, expect_punct,
  parse_identifier,
}

-- an error of the source, or fewer than `n` tokens left
abbrev pub Moves {ℓ} : {A : Type ℓ} → ℕ → Result (A × Tokens) → Type 0
Moves n (ok (a, rest)) = length rest < n
Moves n (err out_of_fuel) = ⊥
Moves n (err e) = Unit

pub Moves-bind {ℓ κ} :
    {A : Type ℓ} {B : Type κ} (k n : ℕ) (m : Result (A × Tokens))
    (f : A × Tokens → Result (B × Tokens))
    → Moves k m
    → ((a : A) (rest : Tokens) → length rest < k → Moves n (f (a, rest)))
    → Moves n (m >>= f)
Moves-bind k n (ok (a, rest)) f h g = g a rest h
Moves-bind k n (err out_of_fuel) f h g = h
Moves-bind k n (err e) f h g = tt

pub Moves-mono {ℓ} :
    {A : Type ℓ} (k n : ℕ) (m : Result (A × Tokens)) → k ≤ n → Moves k m → Moves n m
Moves-mono k n (ok (a, rest)) le h = omega arith
Moves-mono k n (err out_of_fuel) le h = h
Moves-mono k n (err e) le h = tt

pub Moves-if {ℓ} :
    {A : Type ℓ} (n : ℕ) (b : Bool) (x y : Result (A × Tokens))
    → (b ≡ true → Moves n x)
    → (b ≡ false → Moves n y)
    → Moves n (if b then x else y)
Moves-if n true x y hx hy = hx refl
Moves-if n false x y hx hy = hy refl

pub advance-le : (ts : Tokens) → length (advance ts) ≤ length ts
advance-le [] = omega arith
advance-le (identifier name ∷ ts) = omega arith
advance-le (t ∷ ts) = omega arith

pub expect_if-Moves :
    {B : Type 0} (b : Bool) (kind : PunctuationKind) (ts : Tokens) (n : ℕ)
    (f : Tokens → Result (B × Tokens))
    → Moves n (f ts)
    → Moves n ((if b then ok ts else err (expected kind)) >>= f)
expect_if-Moves true kind ts n f h = h
expect_if-Moves false kind ts n f h = tt

pub expect_punct-Moves :
    {B : Type 0} (kind : PunctuationKind) (ts : Tokens) (n : ℕ) (f : Tokens → Result (B × Tokens))
    → ((left : Tokens) → length left < length ts → Moves n (f left))
    → Moves n (expect_punct kind ts >>= f)
unfolding expect_punct is_punct
expect_punct-Moves kind [] n f g = tt
expect_punct-Moves kind (punctuation k ∷ ts) n f g =
    expect_if-Moves (same_punct k kind) kind ts n f (g ts (omega arith))
expect_punct-Moves kind (t ∷ ts) n f g = tt

pub parse_identifier-Moves : (ts : Tokens) → Moves (length ts) (parse_identifier ts)
unfolding parse_identifier
parse_identifier-Moves [] = tt
parse_identifier-Moves (identifier name ∷ ts) = omega arith
parse_identifier-Moves (t ∷ ts) = tt

abbrev pub Moving : Prec → Type 0
Moving prec = (m : ℕ) (ts : Tokens) → Moves (length ts) (prec m ts)
