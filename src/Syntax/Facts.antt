-- ===== src/Syntax/Facts.antt =====
-- What the induction over expressions carries: readings of a print by crates/yps-parser/src/parser/expr.rs
-- as a head, as an operand, as a whole and as a path.
use mathlib.Core.Path.{subst}
use yoptascript_rs.Prelude.{
  ℕ, zero, suc, ◌*◌, ◌≤◌, ◌<◌, ltb, ◌≡◌, refl, sym, true, false, ◌∷◌, ◌++◌, arith, Bool-cases, inl,
  inr,
}
use yoptascript_rs.Syntax.Tokens.{PunctuationKind, Tokens, punctuation}
use yoptascript_rs.Syntax.Tree.{Expr}
use yoptascript_rs.Syntax.Parse.{current}
use yoptascript_rs.Syntax.Print.{wrapped}
use yoptascript_rs.Syntax.Shape.{tight, is_path, is_yield, height, size, grouped}
use yoptascript_rs.Syntax.Follow.{follows}
use yoptascript_rs.Syntax.Begin.{Begins, Begins-append}
use yoptascript_rs.Syntax.Reads.{
  PrefixReads, ChainReads, ExprReads, chain_of_prefix, expr_of_chain, primary_of_wrapped,
  prefix_of_wrapped,
}
use yoptascript_rs.Syntax.Operate.{PathReads, path_of_primary}

-- `printed` and `built` are the print of `e` and what is read of it, by the level around it.
pub record Facts (limit : ℕ) (e : Expr) (printed : ℕ → Tokens) (built : ℕ → Expr) : Type 0 where
  pub prefix :
      (d p : ℕ) (rest : Tokens)
      → 13 ≤ p
      → p ≤ 14
      → tight p e ≡ true
      → 2 * height e ≤ d
      → size e < limit
      → PrefixReads limit d (built p) (printed p ++ rest) rest (size e)
  pub chain :
      (d m p : ℕ) (rest : Tokens)
      → m ≤ p
      → p ≤ 16
      → follows p (current rest) ≡ true
      → (is_yield e ≡ true → 2 ≤ p)
      → 2 * height e ≤ d
      → size e < limit
      → ChainReads limit d m (built p) (printed p ++ rest) rest (size e)
  pub expr :
      (d : ℕ) (rest : Tokens)
      → follows 0 (current rest) ≡ true
      → 2 * height e < d
      → size e < limit
      → ExprReads limit d (built 0) (printed 0 ++ rest) rest
  pub path :
      (d : ℕ) (rest : Tokens)
      → is_path e ≡ true
      → 2 * height e ≤ d
      → size e < limit
      → PathReads limit d (built 14) (printed 14 ++ rest) rest

pub weaken :
    (limit d m j k : ℕ) (e : Expr) (ts rest : Tokens)
    → j ≤ k
    → ChainReads limit d m e ts rest j
    → ChainReads limit d m e ts rest k
weaken limit d m j k e ts rest le (n, bound, reads) = (n, omega arith, reads)

pub weaken_prefix :
    (limit d j k : ℕ) (e : Expr) (ts rest : Tokens)
    → j ≤ k
    → PrefixReads limit d e ts rest j
    → PrefixReads limit d e ts rest k
weaken_prefix limit d j k e ts rest le (n, bound, reads) = (n, omega arith, reads)

expr_of_head :
    (limit d k : ℕ) (e : Expr) (ts rest : Tokens)
    → ((d' : ℕ) → d ≡ suc d' → PrefixReads limit d' e ts rest k)
    → 0 < d
    → k < limit
    → follows 0 (current rest) ≡ true
    → Begins ts
    → ExprReads limit d e ts rest
expr_of_head limit zero k e ts rest head pos h f b = elim pos [ ]
expr_of_head limit (suc d) k e ts rest head pos h f b =
    expr_of_chain limit d 0 e ts rest (chain_of_prefix limit d 0 0 k e ts rest (head d refl) h f)
      (omega arith) f b

-- an expression that is printed alike at every level
pub plain-Facts :
    (limit : ℕ) (e : Expr) (printed : ℕ → Tokens) (built : ℕ → Expr)
    → Begins (printed 0)
    → ((d p : ℕ) (rest : Tokens)
        → 2 * height e ≤ d
        → size e < limit
        → PrefixReads limit d (built p) (printed p ++ rest) rest (size e))
    → ((d : ℕ) (rest : Tokens)
        → is_path e ≡ true
        → 2 * height e ≤ d
        → size e < limit
        → PathReads limit d (built 14) (printed 14 ++ rest) rest)
    → Facts limit e printed built
plain-Facts limit e printed built b head path = record {
  prefix = λ d p rest lo hi t h s. head d p rest h s;
  chain = λ d m p rest lo hi f y h s.
      weaken limit d m 0 (size e) (built p) (printed p ++ rest) rest (omega arith) (
        chain_of_prefix limit d m p (size e) (built p) (printed p ++ rest) rest (head d p rest h s)
          s f);
  expr = λ d rest f h s.
      expr_of_head limit d (size e) (built 0) (printed 0 ++ rest) rest
        (λ d' same. head d' 0 rest (omega arith) s) (omega arith) s f
        (Begins-append (printed 0) rest b);
  path = path;
}

-- an expression that stands in parentheses at the levels above `q`
module _ (limit : ℕ) (e : Expr) (q : ℕ) (body : Tokens) (built : Expr)
    (whole : (d : ℕ) (rest : Tokens)
      → follows 0 (current rest) ≡ true
      → 2 * height e ≤ d
      → size e < limit
      → ExprReads limit d built (body ++ rest) rest) where
  wrapped_prefix :
      (d p : ℕ) (rest : Tokens)
      → ltb q p ≡ true
      → 2 * height e ≤ d
      → size e < limit
      → PrefixReads limit d (grouped (ltb q p) built) (wrapped (ltb q p) body ++ rest) rest 0
  unfolding follows
  wrapped_prefix d p rest w h s =
      subst (λ b. PrefixReads limit d (grouped b built) (wrapped b body ++ rest) rest 0) (sym w)
        (prefix_of_wrapped limit d built body rest
          (whole d (punctuation PunctuationKind.r_paren ∷ rest) refl h s))

  pub wrapped-Facts :
      ((d m p : ℕ) (rest : Tokens)
        → m ≤ p
        → p ≤ q
        → p ≤ 16
        → follows p (current rest) ≡ true
        → (is_yield e ≡ true → 2 ≤ p)
        → 2 * height e ≤ d
        → size e < limit
        → ChainReads limit d m built (body ++ rest) rest (size e))
      → ((d p : ℕ) (rest : Tokens)
          → 13 ≤ p
          → p ≤ 14
          → p ≤ q
          → tight p e ≡ true
          → 2 * height e ≤ d
          → size e < limit
          → PrefixReads limit d built (body ++ rest) rest (size e))
      → (is_path e ≡ true → q < 14)
      → Facts limit e (λ p. wrapped (ltb q p) body) (λ p. grouped (ltb q p) built)
  unfolding follows wrapped
  wrapped-Facts bare head low = record {
    prefix = λ d p rest lo hi t h s. elim (Bool-cases (ltb q p)) [
      | inl w ↦
          weaken_prefix limit d 0 (size e) _ _ rest (omega arith) (wrapped_prefix d p rest w h s)
      | inr w ↦
          subst (λ b. PrefixReads limit d (grouped b built) (wrapped b body ++ rest) rest (size e))
            (sym w) (head d p rest lo hi (ground arith) t h s)
    ];
    chain = λ d m p rest lo hi f y h s. elim (Bool-cases (ltb q p)) [
      | inl w ↦
          weaken limit d m 0 (size e) _ _ rest (omega arith)
            (chain_of_prefix limit d m p 0 _ _ rest (wrapped_prefix d p rest w h s) (omega arith) f)
      | inr w ↦
          subst (λ b. ChainReads limit d m (grouped b built) (wrapped b body ++ rest) rest (size e))
            (sym w) (bare d m p rest lo (ground arith) hi f y h s)
    ];
    expr = λ d rest f h s.
        subst (λ b. ExprReads limit d (grouped b built) (wrapped b body ++ rest) rest)
          (sym (let none_below : ltb q 0 ≡ false = ground arith in none_below))
          (whole d rest f (omega arith) s);
    path = λ d rest is h s.
        subst (λ b. PathReads limit d (grouped b built) (wrapped b body ++ rest) rest)
          (sym (let above : ltb q 14 ≡ true = ground (arith, low is) in above))
          (path_of_primary limit d (Expr.grouping built) (wrapped true body ++ rest) rest (
            primary_of_wrapped limit d built body rest
              (whole d (punctuation PunctuationKind.r_paren ∷ rest) refl h s)));
  }

-- what reads as an operand, with a level to spare, reads as a whole
pub whole_of_bare :
    (limit : ℕ) (e : Expr) (body : Tokens) (built : Expr)
    → 0 < height e
    → Begins body
    → ((d m p : ℕ) (rest : Tokens)
        → m ≤ p
        → p ≤ 0
        → follows p (current rest) ≡ true
        → 2 * height e ≤ suc d
        → size e < limit
        → ChainReads limit d m built (body ++ rest) rest (size e))
    → (d : ℕ) (rest : Tokens) → follows 0 (current rest) ≡ true
    → 2 * height e ≤ d
    → size e < limit
    → ExprReads limit d built (body ++ rest) rest
whole_of_bare limit e body built pos b bare zero rest f h s = absurd (omega arith)
whole_of_bare limit e body built pos b bare (suc d) rest f h s =
    expr_of_chain limit d (size e) built (body ++ rest) rest
      (bare d 0 0 rest (omega arith) (omega arith) f h s) s f (Begins-append body rest b)
