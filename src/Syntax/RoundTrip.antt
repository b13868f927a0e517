-- ===== src/Syntax/RoundTrip.antt =====
-- What the formatter prints of an expression is read back by the parser: `print_expr` of
-- crates/yps-fmt/src/printer.rs and `parse_expr` of crates/yps-parser/src/parser/expr.rs.
use yoptascript_rs.Prelude.{
  ℕ, suc, ◌+◌, ◌*◌, ◌≤◌, ◌<◌, ◌≡◌, refl, ap, Bool, true, false, [], ◌∷◌, ◌++◌, arith,
}
use yoptascript_rs.Syntax.Ops.{PostfixOp}
use yoptascript_rs.Syntax.Tokens.{KeywordKind, PunctuationKind, Tokens, keyword, punctuation}
use yoptascript_rs.Syntax.Tree.{Expr, Exprs, nil, cons}
use yoptascript_rs.Syntax.Parse.{is_punct, ok, parse_argument, ◌>>=◌}
use yoptascript_rs.Syntax.Print.{yield_token, postfix_token, print_expr, print_items, wrapped}
use yoptascript_rs.Syntax.Shape.{
  is_yield, height, height_all, size, size_all, regroup, regroup_all, IsPrintable, ArePrintable,
  tight, is_path,
}
use yoptascript_rs.Syntax.Begin.{print_expr-Begins}
use yoptascript_rs.Syntax.Reads.{chain_of_prefix}
use yoptascript_rs.Syntax.Items.{AllRead, ItemReads, closing}
use yoptascript_rs.Syntax.Access.{postfix_reads}
use yoptascript_rs.Syntax.Operate.{new_reads}
use yoptascript_rs.Syntax.Yields.{
  print_expr-Opens, is_yield_argument_start-Opens, closing-Opens, spread-Opens, yield_reads,
  yield_nothing_reads,
}
use yoptascript_rs.Syntax.Facts.{weaken, weaken_prefix, wrapped-Facts, whole_of_bare}
use yoptascript_rs.Syntax.Operands.{
  Reads, unary_facts, await_facts, binary_facts, conditional_facts,
}
use yoptascript_rs.Syntax.Chains.{
  ArgsRead, identifier_facts, literal_facts, this_facts, super_facts, array_facts, call_facts,
  optional_call_facts, index_facts, optional_index_facts, member_facts, optional_member_facts,
}

postfix_facts :
    (limit : ℕ) (op : PostfixOp) (e : Expr)
    → IsPrintable false (Expr.postfix op e)
    → Reads limit e
    → Reads limit (Expr.postfix op e)
unfolding print_expr regroup IsPrintable is_yield is_path height size wrapped
postfix_facts limit op e h reads =
    let body = print_expr e 13 ++ postfix_token op ∷ [] in
    let built = Expr.postfix op (regroup e 13) in
    let head = λ (d : ℕ) (rest : Tokens) (hd : 2 * height e ≤ d) (s : suc (size e) < limit).
      postfix_reads limit d (size e) (regroup e 13) (print_expr e 13)
        (λ behind. reads.prefix d 13 behind (omega arith) (omega arith) h.1 hd (omega arith))
        (omega arith) op rest in
    wrapped-Facts limit (Expr.postfix op e) 13 body built
      (whole_of_bare limit (Expr.postfix op e) body built (omega arith)
        (print_expr-Begins (Expr.postfix op e) 0 h (λ y. cc))
        (λ d m p rest le lo f hd s. weaken limit d m 0 (suc (size e)) _ _ rest (omega arith) (
          chain_of_prefix limit d m p (suc (size e)) built (body ++ rest) rest
            (head d rest (omega arith) s) s f)))
      (λ d m p rest le q lo f y hd s. weaken limit d m 0 (suc (size e)) _ _ rest (omega arith) (
        chain_of_prefix limit d m p (suc (size e)) built (body ++ rest) rest
          (head d rest (omega arith) s) s f))
      (λ d p rest lo hi q t hd s. head d rest (omega arith) s) (λ is. omega arith)

new_facts :
    (limit : ℕ) (e : Expr) (args : Exprs)
    → IsPrintable false (Expr.new e args)
    → Reads limit e
    → ArgsRead limit args
    → Reads limit (Expr.new e args)
unfolding print_expr regroup IsPrintable is_yield is_path height size wrapped
new_facts limit e args h reads read =
    let body = keyword KeywordKind.new ∷ (print_expr e 14 ++ wrapped true (print_items args)) in
    let built = Expr.new (regroup e 14) (regroup_all args) in
    let head =
      λ (d : ℕ) (rest : Tokens) (hd : 2 * height e ≤ d) (ha : 2 * height_all args < d)
          (s : suc (size e + size_all args) < limit).
        new_reads limit d (regroup e 14) args (print_expr e 14) rest
          (λ behind. reads.path d behind h.1 hd (omega arith)) (read d ha (omega arith)) in
    wrapped-Facts limit (Expr.new e args) 14 body built
      (whole_of_bare limit (Expr.new e args) body built (omega arith)
        (print_expr-Begins (Expr.new e args) 0 h (λ y. cc))
        (λ d m p rest le lo f hd s.
          weaken limit d m 0 (suc (size e + size_all args)) _ _ rest (omega arith) (
            chain_of_prefix limit d m p 0 built (body ++ rest) rest
              (head d rest (ground arith) (ground arith) s) (omega arith) f)))
      (λ d m p rest le q lo f y hd s.
        weaken limit d m 0 (suc (size e + size_all args)) _ _ rest (omega arith) (
          chain_of_prefix limit d m p 0 built (body ++ rest) rest
            (head d rest (ground arith) (ground arith) s) (omega arith) f))
      (λ d p rest lo hi q t hd s.
        weaken_prefix limit d 0 (suc (size e + size_all args)) built (body ++ rest) rest
          (omega arith) (head d rest (ground arith) (ground arith) s))
      (λ is. cc)

yield_facts :
    (limit : ℕ) (delegate : Bool) (e : Expr)
    → IsPrintable false e
    → Reads limit e
    → Reads limit (Expr.yield delegate e)
unfolding print_expr regroup is_yield height size
yield_facts limit delegate e h reads =
    wrapped-Facts limit (Expr.yield delegate e) 1 (yield_token delegate ∷ print_expr e 0)
      (Expr.yield delegate (regroup e 0))
      (λ d rest f hd s.
        yield_reads limit d delegate (regroup e 0) (print_expr e 0) rest
          (is_yield_argument_start-Opens (print_expr e 0) rest (print_expr-Opens e h))
          (reads.expr d rest f (omega arith) (omega arith)))
      (λ d m p rest le q lo f y hd s. absurd (let two = y refl in omega arith))
      (λ d p rest lo hi q t hd s. absurd (omega arith)) (λ is. omega arith)

yield_nothing_facts : (limit : ℕ) → Reads limit (Expr.yield_nothing false)
unfolding print_expr regroup is_yield height size
yield_nothing_facts limit =
    wrapped-Facts limit (Expr.yield_nothing false) 1 (yield_token false ∷ [])
      (Expr.yield_nothing false) (λ d rest f hd s. yield_nothing_reads limit d rest f)
      (λ d m p rest le q lo f y hd s. absurd (let two = y refl in omega arith))
      (λ d p rest lo hi q t hd s. absurd (omega arith)) (λ is. omega arith)

item_reads :
    (limit : ℕ) (e : Expr)
    → IsPrintable false e
    → Reads limit e
    → (d : ℕ) → 2 * height e < d
    → size e < limit
    → ItemReads limit d e
unfolding parse_argument
item_reads limit e h reads d hd s rest =
    let open_ = print_expr-Opens e h in
    (
      closing-Opens (print_expr e 0) rest open_,
      λ f.
          let item = reads.expr d rest f hd s in
          let spread = spread-Opens (print_expr e 0) rest open_ in ground (arith, item, spread),
    )

spread-closing : (b : Bool) → is_punct (closing b) (punctuation PunctuationKind.spread) ≡ false
unfolding is_punct
spread-closing true = refl
spread-closing false = refl

spread-Reads :
    (limit : ℕ) (e : Expr)
    → Reads limit e
    → (d : ℕ) → 2 * height (Expr.spread e) < d
    → size (Expr.spread e) < limit
    → ItemReads limit d (Expr.spread e)
unfolding parse_argument print_expr regroup height size
spread-Reads limit e reads d hd s rest = (
  λ b. spread-closing b,
  λ f.
      ap (λ r. r >>= λ (inner, left). ok (Expr.spread inner, left))
        (reads.expr d rest f (omega arith) (omega arith)),
)

grouping_facts : (limit : ℕ) (e : Expr) → Reads limit e → Reads limit (Expr.grouping e)
unfolding print_expr regroup is_yield is_path tight height size
grouping_facts limit e reads = record {
  prefix = reads.prefix;
  chain = reads.chain;
  expr = reads.expr;
  path = reads.path;
}

mutual
  unfolding IsPrintable AllRead height size print_expr regroup is_yield is_path tight

  -- every printable expression is read off its print
  pub expr_facts : (limit : ℕ) (e : Expr) → IsPrintable false e → Reads limit e
  expr_facts limit (Expr.grouping e) h = grouping_facts limit e (expr_facts limit e h)
  expr_facts limit (Expr.identifier name) h = identifier_facts limit name h
  expr_facts limit (Expr.literal value) h = literal_facts limit value
  expr_facts limit (Expr.array elements) h =
      array_facts limit elements h (items_read limit elements h)
  expr_facts limit (Expr.unary op e) h = unary_facts limit op e h (expr_facts limit e h.0)
  expr_facts limit (Expr.binary op l r) h =
      binary_facts limit op l r h (expr_facts limit l h.0) (expr_facts limit r h.1)
  expr_facts limit (Expr.postfix op e) h = postfix_facts limit op e h (expr_facts limit e h.0)
  expr_facts limit (Expr.call e args) h =
      call_facts limit e (expr_facts limit e h.0) h.1 args h (items_read limit args h.2)
  expr_facts limit (Expr.index e key) h =
      index_facts limit e (expr_facts limit e h.0) h.1 key h (expr_facts limit key h.2)
  expr_facts limit (Expr.member e name) h = member_facts limit e (expr_facts limit e h.0) h.1 name h
  expr_facts limit (Expr.optional_member e name) h =
      optional_member_facts limit e (expr_facts limit e h.0) h.1 name h
  expr_facts limit (Expr.optional_index e key) h =
      optional_index_facts limit e (expr_facts limit e h.0) h.1 key h (expr_facts limit key h.2)
  expr_facts limit (Expr.optional_call e args) h =
      optional_call_facts limit e (expr_facts limit e h.0) h.1 args h (items_read limit args h.2)
  expr_facts limit (Expr.conditional c t e) h =
      conditional_facts limit c t e h (expr_facts limit c h.0) (expr_facts limit t h.1)
        (expr_facts limit e h.2)
  expr_facts limit (Expr.spread e) h = cc
  expr_facts limit Expr.this h = this_facts limit
  expr_facts limit Expr.super h = super_facts limit
  expr_facts limit (Expr.new e args) h =
      new_facts limit e args h (expr_facts limit e h.0) (items_read limit args h.2)
  expr_facts limit (Expr.yield delegate e) h = yield_facts limit delegate e h (expr_facts limit e h)
  expr_facts limit (Expr.yield_nothing true) h = cc
  expr_facts limit (Expr.yield_nothing false) h = yield_nothing_facts limit
  expr_facts limit (Expr.await e) h = await_facts limit e h (expr_facts limit e h)

  items_read : (limit : ℕ) (es : Exprs) → ArePrintable es → ArgsRead limit es
  items_read limit nil h d hd s = tt
  items_read limit (cons (Expr.spread e) es) h d hd s = (
    spread-Reads limit e (expr_facts limit e h.0.1) d (ground arith) (omega arith),
    items_read limit es h.1 d (ground arith) (omega arith),
  )
  items_read limit (cons e es) h d hd s = (
    item_reads limit e h.0 (expr_facts limit e h.0) d (ground arith) (omega arith),
    items_read limit es h.1 d (ground arith) (omega arith),
  )
