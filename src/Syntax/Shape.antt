-- ===== src/Syntax/Shape.antt =====
-- What the printer of crates/yps-fmt/src/printer.rs keeps of an expression, and the expressions whose
-- print says what they are.
use yoptascript_rs.Prelude.{
  ℕ, suc, ◌+◌, ltb, leb, ◌==◌, ◌≡◌, refl, arith, Bool, true, false, not, ◌&&◌, List, [], ◌∷◌,
  if◌then◌else◌,
}
use yoptascript_rs.Syntax.Ops.{
  UnaryOp, ternary_precedence, unary_precedence, assign_precedence, postfix_precedence,
  call_precedence, binary_precedence,
}
use yoptascript_rs.Syntax.Tree.{Expr, Exprs, nil, cons}
use yoptascript_rs.Syntax.Tokens.{OperatorKind, operator, Tokens}
use yoptascript_rs.Syntax.Print.{
  left_prec, right_prec, unary_token, unary_op_needs_space, beside_minus, beside_plus, beside,
  print_unary, print_expr,
}

-- the expression with none of its parentheses
unfoldable mutual
  pub ungroup : Expr → Expr
  ungroup (Expr.grouping e) = ungroup e
  ungroup (Expr.identifier name) = Expr.identifier name
  ungroup (Expr.literal value) = Expr.literal value
  ungroup (Expr.array elements) = Expr.array (ungroup_all elements)
  ungroup (Expr.unary op e) = Expr.unary op (ungroup e)
  ungroup (Expr.binary op lhs rhs) = Expr.binary op (ungroup lhs) (ungroup rhs)
  ungroup (Expr.postfix op e) = Expr.postfix op (ungroup e)
  ungroup (Expr.call callee args) = Expr.call (ungroup callee) (ungroup_all args)
  ungroup (Expr.index object key) = Expr.index (ungroup object) (ungroup key)
  ungroup (Expr.member object name) = Expr.member (ungroup object) name
  ungroup (Expr.optional_member object name) = Expr.optional_member (ungroup object) name
  ungroup (Expr.optional_index object key) = Expr.optional_index (ungroup object) (ungroup key)
  ungroup (Expr.optional_call callee args) = Expr.optional_call (ungroup callee) (ungroup_all args)
  ungroup (Expr.conditional c t e) = Expr.conditional (ungroup c) (ungroup t) (ungroup e)
  ungroup (Expr.spread e) = Expr.spread (ungroup e)
  ungroup Expr.this = Expr.this
  ungroup Expr.super = Expr.super
  ungroup (Expr.new callee args) = Expr.new (ungroup callee) (ungroup_all args)
  ungroup (Expr.yield delegate e) = Expr.yield delegate (ungroup e)
  ungroup (Expr.yield_nothing delegate) = Expr.yield_nothing delegate
  ungroup (Expr.await e) = Expr.await (ungroup e)

  pub ungroup_all : Exprs → Exprs
  ungroup_all nil = nil
  ungroup_all (cons e es) = cons (ungroup e) (ungroup_all es)

abbrev pub grouped : Bool → Expr → Expr
grouped false e = e
grouped true e = Expr.grouping e

-- the expression with just the parentheses that are printed where `parent_prec` stands around it
unfoldable mutual
  unfolding left_prec right_prec binary_precedence

  pub regroup : Expr → ℕ → Expr
  regroup (Expr.grouping e) p = regroup e p
  regroup (Expr.identifier name) p = Expr.identifier name
  regroup (Expr.literal value) p = Expr.literal value
  regroup (Expr.array elements) p = Expr.array (regroup_all elements)
  regroup (Expr.unary op e) p =
      grouped (ltb unary_precedence p) (Expr.unary op (regroup e unary_precedence))
  regroup (Expr.binary op lhs rhs) p =
      grouped (ltb (binary_precedence op) p)
        (Expr.binary op (regroup lhs (left_prec op)) (regroup rhs (right_prec op)))
  regroup (Expr.postfix op e) p =
      grouped (ltb postfix_precedence p) (Expr.postfix op (regroup e postfix_precedence))
  regroup (Expr.call callee args) p = Expr.call (regroup callee call_precedence) (regroup_all args)
  regroup (Expr.index object key) p = Expr.index (regroup object call_precedence) (regroup key 0)
  regroup (Expr.member object name) p = Expr.member (regroup object call_precedence) name
  regroup (Expr.optional_member object name) p =
      Expr.optional_member (regroup object call_precedence) name
  regroup (Expr.optional_index object key) p =
      Expr.optional_index (regroup object call_precedence) (regroup key 0)
  regroup (Expr.optional_call callee args) p =
      Expr.optional_call (regroup callee call_precedence) (regroup_all args)
  regroup (Expr.conditional c t e) p = grouped (ltb ternary_precedence p) (
      Expr.conditional (regroup c (ternary_precedence + 1)) (regroup t 0)
        (regroup e ternary_precedence))
  regroup (Expr.spread e) p = Expr.spread (regroup e 0)
  regroup Expr.this p = Expr.this
  regroup Expr.super p = Expr.super
  regroup (Expr.new callee args) p =
      grouped (ltb call_precedence p) (Expr.new (regroup callee call_precedence) (regroup_all args))
  regroup (Expr.yield delegate e) p =
      grouped (ltb assign_precedence p) (Expr.yield delegate (regroup e 0))
  regroup (Expr.yield_nothing delegate) p =
      grouped (ltb assign_precedence p) (Expr.yield_nothing delegate)
  regroup (Expr.await e) p =
      grouped (ltb unary_precedence p) (Expr.await (regroup e unary_precedence))

  pub regroup_all : Exprs → Exprs
  regroup_all nil = nil
  regroup_all (cons e es) = cons (regroup e 0) (regroup_all es)

-- The print at `p`, 13 or 14, is one head with accesses behind it.
unfoldable pub tight : ℕ → Expr → Bool
unfolding binary_precedence
tight p (Expr.grouping e) = tight p e
tight p (Expr.unary op e) = false
tight p (Expr.await e) = false
tight p (Expr.spread e) = false
tight p (Expr.binary op lhs rhs) = ltb (binary_precedence op) p
tight p e = true

-- what `new` takes in front of its arguments
unfoldable pub is_path : Expr → Bool
unfolding binary_precedence
is_path (Expr.grouping e) = is_path e
is_path (Expr.member object name) = is_path object
is_path (Expr.binary op lhs rhs) = ltb (binary_precedence op) call_precedence
is_path (Expr.unary op e) = false
is_path (Expr.await e) = false
is_path (Expr.spread e) = false
is_path (Expr.call callee args) = false
is_path (Expr.index object key) = false
is_path (Expr.optional_member object name) = false
is_path (Expr.optional_index object key) = false
is_path (Expr.optional_call callee args) = false
is_path (Expr.new callee args) = false
is_path e = true

unfoldable pub is_yield : Expr → Bool
is_yield (Expr.grouping e) = is_yield e
is_yield (Expr.yield delegate e) = true
is_yield (Expr.yield_nothing delegate) = true
is_yield e = false

-- a name of no private member
unfoldable pub is_public : List ℕ → Bool
is_public [] = true
is_public (c ∷ cs) = not (c == b'#')

-- whether what follows a prefix operator does not begin with its sign
unfoldable pub apart : UnaryOp → Tokens → Bool
apart UnaryOp.minus (operator OperatorKind.minus ∷ ts) = false
apart UnaryOp.minus (operator OperatorKind.decrement ∷ ts) = false
apart UnaryOp.plus (operator OperatorKind.plus ∷ ts) = false
apart UnaryOp.plus (operator OperatorKind.increment ∷ ts) = false
apart op ts = true

pub print_unary-apart :
    (op : UnaryOp) (ts : Tokens) → apart op ts ≡ true → print_unary op ts ≡ unary_token op ∷ ts
unfolding apart print_unary unary_op_needs_space beside beside_minus beside_plus unary_token
print_unary-apart UnaryOp.minus ts h = ground arith
print_unary-apart UnaryOp.plus ts h = ground arith
print_unary-apart op ts h = refl

-- A prefix `-` has no operand whose print begins with `-` or `--`, and so for `+`, since the printer
-- writes no space between. An operand in front of `++`, `--`, an access or arguments is no operation that binds looser than that
-- and is printed without parentheses; `new` has a path; a `yield` stands in no place where the parser
-- wants an operand and the printer writes no parentheses; a spread stands in a list (`in_list`).
unfoldable mutual
  unfolding apart print_expr tight is_path is_yield is_public right_prec

  pub IsPrintable : Bool → Expr → Type 0
  IsPrintable in_list (Expr.grouping e) = IsPrintable false e
  IsPrintable in_list (Expr.identifier name) = is_public name ≡ true
  IsPrintable in_list (Expr.literal value) = Unit
  IsPrintable in_list (Expr.array elements) = ArePrintable elements
  IsPrintable in_list (Expr.unary op e) =
      IsPrintable false e × (apart op (print_expr e unary_precedence) ≡ true)
  IsPrintable in_list (Expr.binary op lhs rhs) =
      IsPrintable false lhs
      × IsPrintable false rhs
      × (is_yield rhs && leb (right_prec op) assign_precedence ≡ false)
  IsPrintable in_list (Expr.postfix op e) =
      IsPrintable false e × (tight postfix_precedence e ≡ true)
  IsPrintable in_list (Expr.call callee args) =
      IsPrintable false callee × (tight call_precedence callee ≡ true) × ArePrintable args
  IsPrintable in_list (Expr.index object key) =
      IsPrintable false object × (tight call_precedence object ≡ true) × IsPrintable false key
  IsPrintable in_list (Expr.member object name) =
      IsPrintable false object × (tight call_precedence object ≡ true)
  IsPrintable in_list (Expr.optional_member object name) =
      IsPrintable false object × (tight call_precedence object ≡ true) × (is_public name ≡ true)
  IsPrintable in_list (Expr.optional_index object key) =
      IsPrintable false object × (tight call_precedence object ≡ true) × IsPrintable false key
  IsPrintable in_list (Expr.optional_call callee args) =
      IsPrintable false callee × (tight call_precedence callee ≡ true) × ArePrintable args
  IsPrintable in_list (Expr.conditional c t e) =
      IsPrintable false c × IsPrintable false t × IsPrintable false e × (is_yield t ≡ false)
  IsPrintable in_list (Expr.spread e) = (in_list ≡ true) × IsPrintable false e
  IsPrintable in_list Expr.this = Unit
  IsPrintable in_list Expr.super = Unit
  IsPrintable in_list (Expr.new callee args) =
      IsPrintable false callee × (is_path callee ≡ true) × ArePrintable args
  IsPrintable in_list (Expr.yield delegate e) = IsPrintable false e
  IsPrintable in_list (Expr.yield_nothing delegate) = delegate ≡ false
  IsPrintable in_list (Expr.await e) = IsPrintable false e

  pub ArePrintable : Exprs → Type 0
  ArePrintable nil = Unit
  ArePrintable (cons e es) = IsPrintable true e × ArePrintable es

abbrev pub max : ℕ → ℕ → ℕ
max a b = if ltb a b then b else a

-- how deep operations are nested, parentheses aside
unfoldable mutual
  pub height : Expr → ℕ
  height (Expr.grouping e) = height e
  height (Expr.identifier name) = 0
  height (Expr.literal value) = 0
  height (Expr.array elements) = suc (height_all elements)
  height (Expr.unary op e) = suc (height e)
  height (Expr.binary op lhs rhs) = suc (max (height lhs) (height rhs))
  height (Expr.postfix op e) = suc (height e)
  height (Expr.call callee args) = suc (max (height callee) (height_all args))
  height (Expr.index object key) = suc (max (height object) (height key))
  height (Expr.member object name) = suc (height object)
  height (Expr.optional_member object name) = suc (height object)
  height (Expr.optional_index object key) = suc (max (height object) (height key))
  height (Expr.optional_call callee args) = suc (max (height callee) (height_all args))
  height (Expr.conditional c t e) = suc (max (height c) (max (height t) (height e)))
  height (Expr.spread e) = suc (height e)
  height Expr.this = 0
  height Expr.super = 0
  height (Expr.new callee args) = suc (max (height callee) (height_all args))
  height (Expr.yield delegate e) = suc (height e)
  height (Expr.yield_nothing delegate) = 1
  height (Expr.await e) = suc (height e)

  pub height_all : Exprs → ℕ
  height_all nil = 0
  height_all (cons e es) = max (height e) (height_all es)

-- the number of nodes
unfoldable mutual
  pub size : Expr → ℕ
  size (Expr.grouping e) = size e
  size (Expr.identifier name) = 0
  size (Expr.literal value) = 0
  size (Expr.array elements) = suc (size_all elements)
  size (Expr.unary op e) = suc (size e)
  size (Expr.binary op lhs rhs) = suc (size lhs + size rhs)
  size (Expr.postfix op e) = suc (size e)
  size (Expr.call callee args) = suc (size callee + size_all args)
  size (Expr.index object key) = suc (size object + size key)
  size (Expr.member object name) = suc (size object)
  size (Expr.optional_member object name) = suc (size object)
  size (Expr.optional_index object key) = suc (size object + size key)
  size (Expr.optional_call callee args) = suc (size callee + size_all args)
  size (Expr.conditional c t e) = suc (size c + (size t + size e))
  size (Expr.spread e) = suc (size e)
  size Expr.this = 0
  size Expr.super = 0
  size (Expr.new callee args) = suc (size callee + size_all args)
  size (Expr.yield delegate e) = suc (size e)
  size (Expr.yield_nothing delegate) = 1
  size (Expr.await e) = suc (size e)

  pub size_all : Exprs → ℕ
  size_all nil = 0
  size_all (cons e es) = size e + size_all es
