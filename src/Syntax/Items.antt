-- ===== src/Syntax/Items.antt =====
-- Lists of expressions in brackets: `parse_arguments` of crates/yps-parser/src/parser/expr.rs on what
-- `print_delimited` of crates/yps-fmt/src/printer.rs writes.
use mathlib.Core.List.{append_assoc}
use yoptascript_rs.Prelude.{
  ℕ, zero, suc, ◌≤◌, ◌<◌, ◌≡◌, refl, ap, ◌∙◌, Bool, true, false, ◌∷◌, ◌++◌, arith, length,
  length-append,
}
use yoptascript_rs.Syntax.Tokens.{PunctuationKind, Tokens, punctuation}
use yoptascript_rs.Syntax.Tree.{Expr, Exprs, nil, cons}
use yoptascript_rs.Syntax.Parse.{
  ok, Prec, current, advance, is_punct, expect_punct, parse_argument, arguments_loop,
  parse_arguments,
}
use yoptascript_rs.Syntax.Print.{print_expr, print_items, print_more}
use yoptascript_rs.Syntax.Shape.{regroup, regroup_all}
use yoptascript_rs.Syntax.Follow.{follows}
use yoptascript_rs.Syntax.Reads.{at_depth}

-- `]` or `)`
abbrev pub closing : Bool → PunctuationKind
closing true = PunctuationKind.r_bracket
closing false = PunctuationKind.r_paren

abbrev pub ItemReads : ℕ → ℕ → Expr → Type 0
ItemReads limit d e =
    (rest : Tokens)
    → ((b : Bool) → is_punct (closing b) (current (print_expr e 0 ++ rest)) ≡ false)
      × (follows 0 (current rest) ≡ true
          → parse_argument (at_depth limit d) (print_expr e 0 ++ rest) ≡ ok (regroup e 0, rest))

unfoldable pub AllRead : ℕ → ℕ → Exprs → Type 0
AllRead limit d nil = Unit
AllRead limit d (cons e es) = ItemReads limit d e × AllRead limit d es

unfoldable pub count : Exprs → ℕ
count nil = 0
count (cons e es) = suc (count es)

count-le-print_more : (es : Exprs) (rest : Tokens) → count es ≤ length (print_more es ++ rest)
unfolding count print_expr
count-le-print_more nil rest = omega arith
count-le-print_more (cons e es) rest =
    let more = count-le-print_more es rest in
    let apart = ap length (append_assoc (print_expr e 0) (print_more es) rest) in
    let total = length-append (print_expr e 0) (print_more es ++ rest) in omega arith

arguments_loop-step :
    (f : ℕ) (prec : Prec) (ts rest left : Tokens) (e : Expr) (es : Exprs)
    → parse_argument prec ts ≡ ok (e, rest)
    → is_punct PunctuationKind.comma (current rest) ≡ true
    → arguments_loop f prec (advance rest) ≡ ok (es, left)
    → arguments_loop (suc f) prec ts ≡ ok (cons e es, left)
unfolding arguments_loop
arguments_loop-step f prec ts rest left e es reads comma later = ground (arith, reads, comma, later)

arguments_loop-reads :
    (limit d f : ℕ) (b : Bool) (e : Expr) (es : Exprs) (rest : Tokens)
    → ItemReads limit d e
    → AllRead limit d es
    → count es < f
    → arguments_loop f
        (at_depth limit d)
        (print_expr e 0 ++ (print_more es ++ punctuation (closing b) ∷ rest))
      ≡ ok (cons (regroup e 0) (regroup_all es), punctuation (closing b) ∷ rest)
unfolding arguments_loop print_expr regroup AllRead count follows
arguments_loop-reads limit d zero b e es rest he hs h = elim h [ ]
arguments_loop-reads limit d (suc f) true e nil rest he hs h =
    let reads = (he (punctuation PunctuationKind.r_bracket ∷ rest)).1 refl in ground (arith, reads)
arguments_loop-reads limit d (suc f) false e nil rest he hs h =
    let reads = (he (punctuation PunctuationKind.r_paren ∷ rest)).1 refl in ground (arith, reads)
arguments_loop-reads limit d (suc f) b e (cons e' es) rest he (h', hs) h =
    let more = print_more (cons e' es) ++ punctuation (closing b) ∷ rest in
    let reads = (he more).1 refl in
    let later = arguments_loop-reads limit d f b e' es rest h' hs (omega arith) in
    arguments_loop-step f (at_depth limit d) (print_expr e 0 ++ more) more
      (punctuation (closing b) ∷ rest) (regroup e 0) (regroup_all (cons e' es)) reads refl
      (ap (arguments_loop f (at_depth limit d))
          (append_assoc (print_expr e' 0) (print_more es) (punctuation (closing b) ∷ rest))
        ∙ later)

parse_arguments-some :
    (prec : Prec) (b : Bool) (ts rest : Tokens) (args : Exprs)
    → is_punct (closing b) (current ts) ≡ false
    → arguments_loop (suc (length ts)) prec ts ≡ ok (args, punctuation (closing b) ∷ rest)
    → parse_arguments prec (closing b) ts ≡ ok (args, rest)
unfolding parse_arguments expect_punct
parse_arguments-some prec true ts rest args other reads = ground (arith, other, reads)
parse_arguments-some prec false ts rest args other reads = ground (arith, other, reads)

-- what is printed between brackets is read up to the closing one, and over it
pub parse_arguments-reads :
    (limit d : ℕ) (b : Bool) (es : Exprs) (rest : Tokens)
    → AllRead limit d es
    → parse_arguments
        (at_depth limit d)
        (closing b)
        (print_items es ++ punctuation (closing b) ∷ rest)
      ≡ ok (regroup_all es, rest)
unfolding parse_arguments expect_punct print_expr regroup AllRead
parse_arguments-reads limit d true nil rest h = refl
parse_arguments-reads limit d false nil rest h = refl
parse_arguments-reads limit d b (cons e es) rest (he, hs) =
    let behind = print_more es ++ punctuation (closing b) ∷ rest in
    let whole = append_assoc (print_expr e 0) (print_more es) (punctuation (closing b) ∷ rest) in
    let fuel = count-le-print_more es (punctuation (closing b) ∷ rest) in
    let total = length-append (print_expr e 0) behind in
    ap (parse_arguments (at_depth limit d) (closing b)) whole
    ∙ parse_arguments-some (at_depth limit d) b (print_expr e 0 ++ behind) rest
        (cons (regroup e 0) (regroup_all es)) ((he behind).0 b)
        (arguments_loop-reads limit d (suc (length (print_expr e 0 ++ behind))) b e es rest he hs
          (omega arith))
