-- ===== src/Syntax/Operands.antt =====
-- Operations whose operands read, read: the levels of crates/yps-fmt/src/printer.rs against those of
-- crates/yps-parser/src/parser/expr.rs.
use yoptascript_rs.Prelude.{
  ℕ, zero, suc, ◌*◌, ◌≤◌, ◌<◌, ◌≡◌, refl, ap, ◌∙◌, true, false, ◌∷◌, ◌++◌, arith,
}
use yoptascript_rs.Syntax.Ops.{UnaryOp, BinaryOp, binary_precedence}
use yoptascript_rs.Syntax.Tokens.{KeywordKind, PunctuationKind, Tokens, keyword, punctuation}
use yoptascript_rs.Syntax.Tree.{Expr}
use yoptascript_rs.Syntax.Parse.{current, ok}
use yoptascript_rs.Syntax.Print.{
  print_unary, unary_token, binary_token, left_prec, right_prec, print_expr, wrapped,
}
use yoptascript_rs.Syntax.Shape.{
  print_unary-apart, is_yield, height, size, regroup, IsPrintable, tight, is_path,
}
use yoptascript_rs.Syntax.Follow.{
  stops, follows, follows_mono, stops-right, stops-else, stops-follows, stops-unary, follows-left,
}
use yoptascript_rs.Syntax.Begin.{Begins-append, print_expr-Begins, left_prec-le}
use yoptascript_rs.Syntax.Reads.{at_depth, ChainReads, chain_of_prefix, prec_of_chain}
use yoptascript_rs.Syntax.Operate.{unary_reads, await_reads, binary_reads, conditional_reads}
use yoptascript_rs.Syntax.Facts.{Facts, weaken, wrapped-Facts, whole_of_bare}

abbrev pub Reads : ℕ → Expr → Type 0
Reads limit e = Facts limit e (print_expr e) (regroup e)

operand-Reads :
    (limit : ℕ) (e : Expr) (d m p : ℕ) (rest : Tokens)
    → Reads limit e
    → m ≤ p
    → p ≤ 16
    → follows p (current rest) ≡ true
    → stops m (current rest) ≡ true
    → (is_yield e ≡ true → 2 ≤ p)
    → 2 * height e < d
    → size e < limit
    → at_depth limit d m (print_expr e p ++ rest) ≡ ok (regroup e p, rest)
operand-Reads limit e zero m p rest reads le lo f st y h s = elim h [ ]
operand-Reads limit e (suc d) m p rest reads le lo f st y h s =
    prec_of_chain limit d m (size e) (regroup e p) (print_expr e p ++ rest) rest
      (reads.chain d m p rest le lo f y (omega arith) s) s st

unary_operand :
    (limit : ℕ) (e : Expr) (d p : ℕ) (rest : Tokens)
    → Reads limit e
    → p ≤ 16
    → follows p (current rest) ≡ true
    → 2 * height e < d
    → size e < limit
    → at_depth limit d 16 (print_expr e 16 ++ rest) ≡ ok (regroup e 16, rest)
unary_operand limit e d p rest reads le f h s =
    operand-Reads limit e d 16 16 rest reads (omega arith) (omega arith)
      (follows_mono p 16 (current rest) le f) (stops-unary p (current rest) f le) (λ _. omega arith)
      h s

unary_bare :
    (limit : ℕ) (op : UnaryOp) (e : Expr)
    → Reads limit e
    → (d m p : ℕ) (rest : Tokens) → p ≤ 16
    → follows p (current rest) ≡ true
    → 2 * height (Expr.unary op e) ≤ suc d
    → size (Expr.unary op e) < limit
    → ChainReads limit d m
        (Expr.unary op (regroup e 16))
        ((unary_token op ∷ print_expr e 16) ++ rest)
        rest
        (size (Expr.unary op e))
unfolding height size
unary_bare limit op e reads d m p rest le f h s =
    weaken limit d m 0 (size (Expr.unary op e)) _ _ rest (omega arith) (
      chain_of_prefix limit d m p 0 _ _ rest
        (unary_reads limit d op (regroup e 16) (print_expr e 16) rest
          (unary_operand limit e d p rest reads le f (omega arith) (omega arith)))
        (omega arith) f)

pub unary_facts :
    (limit : ℕ) (op : UnaryOp) (e : Expr)
    → IsPrintable false (Expr.unary op e)
    → Reads limit e
    → Reads limit (Expr.unary op e)
unfolding print_expr regroup IsPrintable tight is_path is_yield height size wrapped
unary_facts limit op e h reads =
    let print = print_unary op (print_expr e 16) in
    let bare : (d m p : ℕ) (rest : Tokens)
        → p ≤ 16
        → follows p (current rest) ≡ true
        → 2 * height (Expr.unary op e) ≤ suc d
        → size (Expr.unary op e) < limit
        → ChainReads limit d m (Expr.unary op (regroup e 16)) (print ++ rest) rest
            (size (Expr.unary op e)) =
      rw (print_unary-apart op (print_expr e 16) h.1) (unary_bare limit op e reads) in
    wrapped-Facts limit (Expr.unary op e) 16 print (Expr.unary op (regroup e 16))
      (whole_of_bare limit (Expr.unary op e) print (Expr.unary op (regroup e 16)) (omega arith)
        (print_expr-Begins (Expr.unary op e) 0 h (λ y. cc))
        (λ d m p rest le lo f hd s. bare d m p rest (omega arith) f hd s))
      (λ d m p rest le q lo f y hd s. bare d m p rest lo f (omega arith) s)
      (λ d p rest lo hi q t hd s. cc) (λ is. cc)

await_bare :
    (limit : ℕ) (e : Expr)
    → Reads limit e
    → (d m p : ℕ) (rest : Tokens) → p ≤ 16
    → follows p (current rest) ≡ true
    → 2 * height (Expr.await e) ≤ suc d
    → size (Expr.await e) < limit
    → ChainReads limit d m
        (Expr.await (regroup e 16))
        ((keyword KeywordKind.await ∷ print_expr e 16) ++ rest)
        rest
        (size (Expr.await e))
unfolding height size
await_bare limit e reads d m p rest le f h s =
    weaken limit d m 0 (size (Expr.await e)) _ _ rest (omega arith) (
      chain_of_prefix limit d m p 0 _ _ rest
        (await_reads limit d (regroup e 16) (print_expr e 16) rest
          (unary_operand limit e d p rest reads le f (omega arith) (omega arith)))
        (omega arith) f)

pub await_facts :
    (limit : ℕ) (e : Expr) → IsPrintable false e → Reads limit e → Reads limit (Expr.await e)
unfolding print_expr regroup IsPrintable tight is_path is_yield height size wrapped
await_facts limit e h reads =
    wrapped-Facts limit (Expr.await e) 16 (keyword KeywordKind.await ∷ print_expr e 16)
      (Expr.await (regroup e 16))
      (whole_of_bare limit (Expr.await e) (keyword KeywordKind.await ∷ print_expr e 16)
        (Expr.await (regroup e 16)) (omega arith) (print_expr-Begins (Expr.await e) 0 h (λ y. cc))
        (λ d m p rest le lo f hd s. await_bare limit e reads d m p rest (omega arith) f hd s))
      (λ d m p rest le q lo f y hd s. await_bare limit e reads d m p rest lo f (omega arith) s)
      (λ d p rest lo hi q t hd s. cc) (λ is. cc)

prec_levels :
    (op : BinaryOp)
    → (binary_precedence op ≤ left_prec op)
      × (left_prec op ≤ 16)
      × (right_prec op ≤ 16)
      × (binary_precedence op ≤ right_prec op)
unfolding left_prec right_prec binary_precedence
prec_levels BinaryOp.add = omega arith
prec_levels op = omega arith

binary_bare :
    (limit : ℕ) (op : BinaryOp) (l r : Expr)
    → IsPrintable false (Expr.binary op l r)
    → Reads limit l
    → Reads limit r
    → (d m p : ℕ) (rest : Tokens) → m ≤ p
    → p ≤ binary_precedence op
    → follows p (current rest) ≡ true
    → 2 * height (Expr.binary op l r) ≤ suc d
    → size (Expr.binary op l r) < limit
    → ChainReads limit d m
        (Expr.binary op (regroup l (left_prec op)) (regroup r (right_prec op)))
        ((print_expr l (left_prec op) ++ binary_token op ∷ print_expr r (right_prec op)) ++ rest)
        rest
        (size (Expr.binary op l r))
unfolding height size IsPrintable
binary_bare limit op l r h left right d m p rest le q f hd s =
    let levels = prec_levels op in
    let stop = stops-right p op (current rest) q f in
    weaken limit d m (suc (size l)) (size (Expr.binary op l r)) _ _ rest (omega arith) (
      binary_reads limit d m (size l) op _ _ (print_expr l (left_prec op))
        (print_expr r (right_prec op)) rest
        (λ behind same.
          left.chain d m (left_prec op) behind (omega arith) (omega arith)
            (ap (λ b. follows (left_prec op) (current b)) same ∙ follows-left op)
            (λ y. left_prec-le op) (ground arith) (omega arith))
        (omega arith) (omega arith)
        (operand-Reads limit r d (right_prec op) (right_prec op) rest right (omega arith)
          (omega arith) (stops-follows (right_prec op) (current rest) stop) stop (λ y. ground arith)
          (ground arith) (omega arith)))

pub binary_facts :
    (limit : ℕ) (op : BinaryOp) (l r : Expr)
    → IsPrintable false (Expr.binary op l r)
    → Reads limit l
    → Reads limit r
    → Reads limit (Expr.binary op l r)
unfolding print_expr regroup IsPrintable tight is_path is_yield height size wrapped
binary_facts limit op l r h left right =
    let body = print_expr l (left_prec op) ++ binary_token op ∷ print_expr r (right_prec op) in
    let built = Expr.binary op (regroup l (left_prec op)) (regroup r (right_prec op)) in
    wrapped-Facts limit (Expr.binary op l r) (binary_precedence op) body built
      (whole_of_bare limit (Expr.binary op l r) body built (omega arith)
        (Begins-append (print_expr l (left_prec op)) _
          (print_expr-Begins l (left_prec op) h.0 (λ _. left_prec-le op)))
        (λ d m p rest le lo f hd s.
          binary_bare limit op l r h left right d m p rest le (omega arith) f hd s))
      (λ d m p rest le q lo f y hd s.
        binary_bare limit op l r h left right d m p rest le q f (omega arith) s)
      (λ d p rest lo hi q t hd s. absurd (ground arith)) (λ is. ground arith)

conditional_bare :
    (limit : ℕ) (c t e : Expr)
    → IsPrintable false (Expr.conditional c t e)
    → Reads limit c
    → Reads limit t
    → Reads limit e
    → (d m p : ℕ) (rest : Tokens) → m ≤ p
    → p ≤ 2
    → follows p (current rest) ≡ true
    → 2 * height (Expr.conditional c t e) ≤ suc d
    → size (Expr.conditional c t e) < limit
    → ChainReads limit d m
        (Expr.conditional (regroup c 3) (regroup t 0) (regroup e 2))
        ((print_expr c 3
            ++ punctuation PunctuationKind.question
              ∷ (print_expr t 0 ++ punctuation PunctuationKind.colon ∷ print_expr e 2))
          ++ rest)
        rest
        (size (Expr.conditional c t e))
unfolding height size IsPrintable follows stops
conditional_bare limit c t e h cond yes_ no_ d m p rest le q f hd s =
    let behind_colon = punctuation PunctuationKind.colon ∷ (print_expr e 2 ++ rest) in
    let stop = stops-else p (current rest) q f in
    weaken limit d m (suc (size c)) (size (Expr.conditional c t e)) _ _ rest (omega arith) (
      conditional_reads limit d m (size c) _ _ _ (print_expr c 3) (print_expr t 0) (print_expr e 2)
        rest
        (λ behind same.
          cond.chain d m 3 behind (omega arith) (omega arith) (ap (λ b. follows 3 (current b)) same)
            (λ y. omega arith) (ground arith) (omega arith))
        (omega arith) (omega arith)
        (operand-Reads limit t d 0 0 behind_colon yes_ (omega arith) (omega arith) refl refl
          (λ y. cc) (ground arith) (omega arith))
        (operand-Reads limit e d 2 2 rest no_ (omega arith) (omega arith)
          (stops-follows 2 (current rest) stop) stop (λ y. omega arith) (ground arith)
          (omega arith)))

pub conditional_facts :
    (limit : ℕ) (c t e : Expr)
    → IsPrintable false (Expr.conditional c t e)
    → Reads limit c
    → Reads limit t
    → Reads limit e
    → Reads limit (Expr.conditional c t e)
unfolding print_expr regroup tight is_path is_yield height size wrapped
conditional_facts limit c t e h cond yes_ no_ =
    let body =
      print_expr c 3
      ++ punctuation PunctuationKind.question
        ∷ (print_expr t 0 ++ punctuation PunctuationKind.colon ∷ print_expr e 2) in
    let built = Expr.conditional (regroup c 3) (regroup t 0) (regroup e 2) in
    wrapped-Facts limit (Expr.conditional c t e) 2 body built
      (whole_of_bare limit (Expr.conditional c t e) body built (omega arith)
        (print_expr-Begins (Expr.conditional c t e) 0 h (λ y. cc))
        (λ d m p rest le lo f hd s.
          conditional_bare limit c t e h cond yes_ no_ d m p rest le (omega arith) f hd s))
      (λ d m p rest le q lo f y hd s.
        conditional_bare limit c t e h cond yes_ no_ d m p rest le q f (omega arith) s)
      (λ d p rest lo hi q t hd s. absurd (omega arith)) (λ is. omega arith)
