-- ===== src/Syntax/Follow.antt =====
-- Which tokens end an operand: the loops of crates/yps-parser/src/parser/expr.rs against the levels that
-- the printer of crates/yps-fmt/src/printer.rs writes operands at.
use yoptascript_rs.Prelude.{
  ℕ, ◌+◌, ◌≤◌, ltb, ◌==◌, ◌≡◌, refl, sym, ap, ◌∙◌, Bool, true, false, not, ◌&&◌, ◌||◌, Option, none,
  some, [], ◌∷◌, if◌then◌else◌, arith, Bool-cases, inl, inr,
}
use yoptascript_rs.Syntax.Ops.{BinaryOp, binary_precedence, binary_is_right_assoc}
use yoptascript_rs.Syntax.Tokens.{
  KeywordKind, OperatorKind, PunctuationKind, Token, Tokens, keyword, operator, punctuation,
}
use yoptascript_rs.Syntax.Tree.{Expr}
use yoptascript_rs.Syntax.Parse.{
  Prec, current, is_punct, try_parse_binary_op, is_yield_argument_start,
}
use yoptascript_rs.Syntax.Print.{binary_token, left_prec, right_prec}
use yoptascript_rs.Syntax.Climb.{prefix_step, chain_step, parse_binary}

-- The loop at `min_precedence` ends in front of `t`.
unfoldable pub stops : ℕ → Token → Bool
unfolding try_parse_binary_op binary_precedence is_punct is_yield_argument_start
stops min_precedence t = elim (try_parse_binary_op t) [
  | some op ↦ ltb (binary_precedence op) min_precedence
  | none ↦
      if is_punct PunctuationKind.question t
      then ltb 2 min_precedence
      else not (is_yield_argument_start t)
]

-- An operand printed at `p` ends in front of `t`.
unfoldable pub follows : ℕ → Token → Bool
unfolding try_parse_binary_op binary_precedence binary_is_right_assoc is_punct
    is_yield_argument_start
follows p t = elim (try_parse_binary_op t) [
  | some op ↦
      ltb (binary_precedence op) p || binary_precedence op == p && not (binary_is_right_assoc op)
  | none ↦ if is_punct PunctuationKind.question t then ltb 2 p else not (is_yield_argument_start t)
]

-- the two tests, by the operator that was read
abbrev stops_op : ℕ → Token → Option BinaryOp → Bool
stops_op m t (some op) = ltb (binary_precedence op) m
stops_op m t none =
    if is_punct PunctuationKind.question t then ltb 2 m else not (is_yield_argument_start t)

abbrev follows_op : ℕ → Token → Option BinaryOp → Bool
follows_op p t (some op) =
    ltb (binary_precedence op) p || binary_precedence op == p && not (binary_is_right_assoc op)
follows_op p t none =
    if is_punct PunctuationKind.question t then ltb 2 p else not (is_yield_argument_start t)

stops-op : (m : ℕ) (t : Token) → stops m t ≡ stops_op m t (try_parse_binary_op t)
unfolding stops
stops-op m t = ground arith

follows-op : (p : ℕ) (t : Token) → follows p t ≡ follows_op p t (try_parse_binary_op t)
unfolding follows
follows-op p t = ground arith

-- the associativity of a level
level_right : ℕ → Bool
level_right n = n == 1 || n == 15

right_assoc-level : (op : BinaryOp) → binary_is_right_assoc op ≡ level_right (binary_precedence op)
unfolding binary_is_right_assoc binary_precedence level_right
right_assoc-level BinaryOp.add = refl
right_assoc-level op = refl

follows_op_mono :
    (p q : ℕ) (t : Token) (r : Option BinaryOp)
    → p ≤ q
    → follows_op p t r ≡ true
    → follows_op q t r ≡ true
follows_op_mono p q t (some op) h e = ground arith
follows_op_mono p q t none h e = ground arith

pub follows_mono : (p q : ℕ) (t : Token) → p ≤ q → follows p t ≡ true → follows q t ≡ true
follows_mono p q t h e =
    follows-op q t ∙ follows_op_mono p q t (try_parse_binary_op t) h (sym (follows-op p t) ∙ e)

ltb-right :
    (a b p : ℕ) (ra rb : Bool)
    → p ≤ b
    → (ltb a p || a == p && not ra) ≡ true
    → (a ≡ b → ra ≡ rb)
    → ltb a (if rb then b else b + 1) ≡ true
ltb-right a b p true true h e same = ground arith
ltb-right a b p true false h e same = ground arith
ltb-right a b p false false h e same = ground arith
ltb-right a b p false true h e same = elim (Bool-cases (a == b)) [
  | inl equal ↦ cc (same (ground arith))
  | inr other ↦ ground arith
]

stops_op-right :
    (p : ℕ) (op : BinaryOp) (t : Token) (r : Option BinaryOp)
    → p ≤ binary_precedence op
    → follows_op p t r ≡ true
    → stops_op (right_prec op) t r ≡ true
unfolding right_prec
stops_op-right p op t (some other) h e =
    ltb-right (binary_precedence other) (binary_precedence op) p (binary_is_right_assoc other)
      (binary_is_right_assoc op) h e
      (λ same. right_assoc-level other ∙ ap level_right same ∙ sym (right_assoc-level op))
stops_op-right p op t none h e = ground arith

pub stops-right :
    (p : ℕ) (op : BinaryOp) (t : Token)
    → p ≤ binary_precedence op
    → follows p t ≡ true
    → stops (right_prec op) t ≡ true
stops-right p op t h e =
    stops-op (right_prec op) t
    ∙ stops_op-right p op t (try_parse_binary_op t) h (sym (follows-op p t) ∙ e)

-- the else branch of a conditional: an operator behind it is an assignment
stops_op-else :
    (p : ℕ) (t : Token) (r : Option BinaryOp)
    → p ≤ 2
    → follows_op p t r ≡ true
    → stops_op 2 t r ≡ true
unfolding binary_precedence binary_is_right_assoc
stops_op-else p t (some BinaryOp.add) h e = ground arith
stops_op-else p t (some op) h e = ground arith
stops_op-else p t none h e = ground arith

pub stops-else : (p : ℕ) (t : Token) → p ≤ 2 → follows p t ≡ true → stops 2 t ≡ true
stops-else p t h e =
    stops-op 2 t ∙ stops_op-else p t (try_parse_binary_op t) h (sym (follows-op p t) ∙ e)

-- at the end of an operand for any level a loop ends at every level
stops_op-closer :
    (m : ℕ) (t : Token) (r : Option BinaryOp) → follows_op 0 t r ≡ true → stops_op m t r ≡ true
unfolding binary_precedence binary_is_right_assoc
stops_op-closer m t (some BinaryOp.add) e = ground arith
stops_op-closer m t (some op) e = ground arith
stops_op-closer m t none e = ground arith

pub stops-closer : (m : ℕ) (t : Token) → follows 0 t ≡ true → stops m t ≡ true
stops-closer m t e =
    stops-op m t ∙ stops_op-closer m t (try_parse_binary_op t) (sym (follows-op 0 t) ∙ e)

stops_op-follows :
    (m : ℕ) (t : Token) (r : Option BinaryOp) → stops_op m t r ≡ true → follows_op m t r ≡ true
stops_op-follows m t (some op) e = ground arith
stops_op-follows m t none e = ground arith

pub stops-follows : (m : ℕ) (t : Token) → stops m t ≡ true → follows m t ≡ true
stops-follows m t e =
    follows-op m t ∙ stops_op-follows m t (try_parse_binary_op t) (sym (stops-op m t) ∙ e)

-- nothing that a `yield` takes as its argument ends an operand for any level
follows_op-end :
    (t : Token) (r : Option BinaryOp) → follows_op 0 t r ≡ true → is_yield_argument_start t ≡ false
unfolding binary_precedence
follows_op-end t (some BinaryOp.add) e = ground arith
follows_op-end t (some op) e = ground arith
follows_op-end t none e = ground arith

pub follows-end : (t : Token) → follows 0 t ≡ true → is_yield_argument_start t ≡ false
follows-end t e = follows_op-end t (try_parse_binary_op t) (sym (follows-op 0 t) ∙ e)

-- every operator ends a prefix operation's operand
stops_op-unary :
    (p : ℕ) (t : Token) (r : Option BinaryOp)
    → follows_op p t r ≡ true
    → p ≤ 16
    → stops_op 16 t r ≡ true
unfolding binary_is_right_assoc binary_precedence
stops_op-unary p t (some BinaryOp.add) e h = refl
stops_op-unary p t (some op) e h = refl
stops_op-unary p t none e h = ground arith

pub stops-unary : (p : ℕ) (t : Token) → follows p t ≡ true → p ≤ 16 → stops 16 t ≡ true
stops-unary p t e h =
    stops-op 16 t ∙ stops_op-unary p t (try_parse_binary_op t) (sym (follows-op p t) ∙ e) h

try_parse_binary_op-token : (op : BinaryOp) → try_parse_binary_op (binary_token op) ≡ some op
unfolding try_parse_binary_op binary_token
try_parse_binary_op-token BinaryOp.add = refl
try_parse_binary_op-token op = refl

question-binary_token :
    (op : BinaryOp) → is_punct PunctuationKind.question (binary_token op) ≡ false
unfolding is_punct binary_token
question-binary_token BinaryOp.add = refl
question-binary_token op = refl

pub follows-left : (op : BinaryOp) → follows (left_prec op) (binary_token op) ≡ true
unfolding left_prec
follows-left op =
    follows-op (left_prec op) (binary_token op)
    ∙ ap (follows_op (left_prec op) (binary_token op)) (try_parse_binary_op-token op)
    ∙ ground arith

-- a loop breaks where it stops
pub chain_step-stops :
    (prec : Prec) (m : ℕ) (lhs : Expr) (ts : Tokens)
    → stops m (current ts) ≡ true
    → chain_step prec m lhs ts ≡ none
unfolding chain_step stops
chain_step-stops prec m lhs [] e = refl
chain_step-stops prec m lhs (operator kind ∷ ts) e = ground arith
chain_step-stops prec m lhs (punctuation PunctuationKind.question ∷ ts) e = ground arith
chain_step-stops prec m lhs (punctuation kind ∷ ts) e = refl
chain_step-stops prec m lhs (keyword KeywordKind.instanceof ∷ ts) e = ground arith
chain_step-stops prec m lhs (keyword KeywordKind.is_in ∷ ts) e = ground arith
chain_step-stops prec m lhs (t ∷ ts) e = refl

pub chain_step-binary :
    (prec : Prec) (m : ℕ) (lhs : Expr) (op : BinaryOp) (ts : Tokens)
    → m ≤ binary_precedence op
    → chain_step prec m lhs (binary_token op ∷ ts)
      ≡ some (parse_binary prec op lhs (binary_token op ∷ ts))
unfolding chain_step
chain_step-binary prec m lhs op ts h =
    ground (arith, question-binary_token op, try_parse_binary_op-token op)

pub prefix_step-follows :
    (prec : Prec) (p : ℕ) (e : Expr) (ts : Tokens)
    → follows p (current ts) ≡ true
    → prefix_step prec e ts ≡ none
unfolding prefix_step follows
prefix_step-follows prec p e [] h = refl
prefix_step-follows prec p e (operator OperatorKind.plus ∷ ts) h = refl
prefix_step-follows prec p e (operator kind ∷ ts) h = ground arith
prefix_step-follows prec p e (punctuation PunctuationKind.l_paren ∷ ts) h = ground arith
prefix_step-follows prec p e (punctuation kind ∷ ts) h = ground arith
prefix_step-follows prec p e (t ∷ ts) h = ground arith

pub binary_precedence_pos : (op : BinaryOp) → 1 ≤ binary_precedence op
unfolding binary_precedence
binary_precedence_pos BinaryOp.add = omega arith
binary_precedence_pos op = omega arith
