-- ===== src/Syntax/Operate.antt =====
-- Operations read off their print: `parse_head` and the loop of
-- `parse_expression_with_precedence_inner` of crates/yps-parser/src/parser/expr.rs.
use mathlib.Core.List.{append_assoc}
use yoptascript_rs.Prelude.{
  ℕ, zero, suc, ◌+◌, ◌-◌, ◌≤◌, ◌<◌, ◌≡◌, refl, ap, ◌∙◌, true, false, some, List, inl, inr, [], ◌∷◌,
  ◌++◌, arith, length,
}
use yoptascript_rs.Syntax.Ops.{UnaryOp, BinaryOp, binary_precedence}
use yoptascript_rs.Syntax.Tokens.{KeywordKind, PunctuationKind, Tokens, keyword, punctuation}
use yoptascript_rs.Syntax.Tree.{Expr, Exprs}
use yoptascript_rs.Syntax.Parse.{
  ok, ◌>>=◌, Prec, advance, expect_punct, parse_primary, parse_arguments,
}
use yoptascript_rs.Syntax.Climb.{
  parse_new_expr, new_members, parse_head, prefix_loop, parse_prefix, chain_step, chain_loop,
  parse_inner, parse_binary, parse_conditional, next_prec,
}
use yoptascript_rs.Syntax.Print.{
  name_token, unary_token, binary_token, right_prec, wrapped, print_items,
}
use yoptascript_rs.Syntax.Shape.{regroup_all}
use yoptascript_rs.Syntax.Follow.{chain_step-binary}
use yoptascript_rs.Syntax.Reads.{at_depth, PrefixReads, ChainReads, PrimaryReads}
use yoptascript_rs.Syntax.Items.{AllRead, parse_arguments-reads}
use yoptascript_rs.Syntax.Access.{name_token-cases}

parse_head-unary :
    (prec : Prec) (op : UnaryOp) (ts : Tokens)
    → parse_head prec (unary_token op ∷ ts)
      ≡ (prec 16 ts >>= λ (e, rest). ok (Expr.unary op e, rest))
unfolding parse_head unary_token
parse_head-unary prec UnaryOp.plus ts = refl
parse_head-unary prec op ts = refl

pub unary_reads :
    (limit d : ℕ) (op : UnaryOp) (e : Expr) (inner rest : Tokens)
    → at_depth limit d 16 (inner ++ rest) ≡ ok (e, rest)
    → PrefixReads limit d (Expr.unary op e) ((unary_token op ∷ inner) ++ rest) rest 0
unfolding parse_prefix
unary_reads limit d op e inner rest reads = (
  limit,
  omega arith,
  ap (λ r. r >>= λ (head, left). prefix_loop limit (at_depth limit d) head left)
      (parse_head-unary (at_depth limit d) op (inner ++ rest)
        ∙ ap (λ r. r >>= λ (operand, left). ok (Expr.unary op operand, left)) reads),
)

pub await_reads :
    (limit d : ℕ) (e : Expr) (inner rest : Tokens)
    → at_depth limit d 16 (inner ++ rest) ≡ ok (e, rest)
    → PrefixReads limit d (Expr.await e) ((keyword KeywordKind.await ∷ inner) ++ rest) rest 0
unfolding parse_prefix parse_head
await_reads limit d e inner rest reads = (
  limit,
  omega arith,
  ap (λ r. r >>= λ (head, left). prefix_loop limit (at_depth limit d) head left)
      (ap (λ r. r >>= λ (operand, left). ok (Expr.await operand, left)) reads),
)

chain_loop-step :
    (n m : ℕ) (prec : Prec) (e e' : Expr) (mid rest : Tokens)
    → 0 < n
    → chain_step prec m e mid ≡ some (ok (e', rest))
    → (n' : ℕ) × (n ≡ suc n') × (chain_loop n prec m e mid ≡ chain_loop n' prec m e' rest)
unfolding chain_loop
chain_loop-step zero m prec e e' mid rest h s = elim h [ ]
chain_loop-step (suc n) m prec e e' mid rest h s = (n, refl, ground (arith, s))

-- one more operation behind what is read
chain_extend :
    (limit d m k : ℕ) (e e' : Expr) (ts mid rest : Tokens)
    → ChainReads limit d m e ts mid k
    → k < limit
    → chain_step (at_depth limit d) m e mid ≡ some (ok (e', rest))
    → ChainReads limit d m e' ts rest (suc k)
chain_extend limit d m k e e' ts mid rest (n, bound, reads) h s =
    let (n', more, later) = chain_loop-step n m (at_depth limit d) e e' mid rest (omega arith) s in
    (n', omega arith, reads ∙ later)

chain_cast :
    (limit d m k : ℕ) (e : Expr) (ts ts' rest : Tokens)
    → ts ≡ ts'
    → ChainReads limit d m e ts' rest k
    → ChainReads limit d m e ts rest k
chain_cast limit d m k e ts ts' rest same (n, bound, reads) =
    (n, bound, ap (parse_inner limit (at_depth limit d) m) same ∙ reads)

advance-binary_token : (op : BinaryOp) (ts : Tokens) → advance (binary_token op ∷ ts) ≡ ts
unfolding binary_token
advance-binary_token BinaryOp.add ts = refl
advance-binary_token op ts = refl

parse_binary-reads :
    (prec : Prec) (op : BinaryOp) (l r : Expr) (ts rest : Tokens)
    → prec (right_prec op) ts ≡ ok (r, rest)
    → parse_binary prec op l (binary_token op ∷ ts) ≡ ok (Expr.binary op l r, rest)
unfolding parse_binary right_prec
parse_binary-reads prec op l r ts rest reads =
    ap (λ t. prec (next_prec op) t >>= λ (rhs, left). ok (Expr.binary op l rhs, left))
      (advance-binary_token op ts)
    ∙ ap (λ x. x >>= λ (rhs, left). ok (Expr.binary op l rhs, left)) reads

pub binary_reads :
    (limit d m k : ℕ) (op : BinaryOp) (l r : Expr) (pl pr rest : Tokens)
    → ((behind : Tokens)
        → behind ≡ binary_token op ∷ (pr ++ rest)
        → ChainReads limit d m l (pl ++ behind) behind k)
    → k < limit
    → m ≤ binary_precedence op
    → at_depth limit d (right_prec op) (pr ++ rest) ≡ ok (r, rest)
    → ChainReads limit d m (Expr.binary op l r) ((pl ++ binary_token op ∷ pr) ++ rest) rest (suc k)
binary_reads limit d m k op l r pl pr rest lhs small above rhs =
    let behind = binary_token op ∷ (pr ++ rest) in
    chain_cast limit d m (suc k) (Expr.binary op l r) _ (pl ++ behind) rest
      (append_assoc pl (binary_token op ∷ pr) rest)
      (chain_extend limit d m k l _ _ behind rest (lhs behind refl) small (
        chain_step-binary (at_depth limit d) m l op (pr ++ rest) above
        ∙ ap some (parse_binary-reads (at_depth limit d) op l r (pr ++ rest) rest rhs)))

pub conditional_reads :
    (limit d m k : ℕ) (c t e : Expr) (pc pt pe rest : Tokens)
    → ((behind : Tokens)
        → behind
          ≡ punctuation PunctuationKind.question
            ∷ (pt ++ punctuation PunctuationKind.colon ∷ (pe ++ rest))
        → ChainReads limit d m c (pc ++ behind) behind k)
    → k < limit
    → m ≤ 2
    → at_depth limit d 0 (pt ++ punctuation PunctuationKind.colon ∷ (pe ++ rest))
      ≡ ok (t, punctuation PunctuationKind.colon ∷ (pe ++ rest))
    → at_depth limit d 2 (pe ++ rest) ≡ ok (e, rest)
    → ChainReads limit d m
        (Expr.conditional c t e)
        ((pc
            ++ punctuation PunctuationKind.question
              ∷ (pt ++ punctuation PunctuationKind.colon ∷ pe))
          ++ rest)
        rest
        (suc k)
unfolding chain_step parse_conditional expect_punct
conditional_reads limit d m k c t e pc pt pe rest condition small above then_reads else_reads =
    let behind =
      punctuation PunctuationKind.question
      ∷ (pt ++ punctuation PunctuationKind.colon ∷ (pe ++ rest)) in
    let whole =
      append_assoc pc
        (punctuation PunctuationKind.question ∷ (pt ++ punctuation PunctuationKind.colon ∷ pe)) rest
      ∙ ap (λ ts. pc ++ punctuation PunctuationKind.question ∷ ts)
          (append_assoc pt (punctuation PunctuationKind.colon ∷ pe) rest) in
    chain_cast limit d m (suc k) (Expr.conditional c t e) _ (pc ++ behind) rest whole (
      chain_extend limit d m k c _ _ behind rest (condition behind refl) small
        (ground (arith, then_reads, else_reads)))

-- a path of members is read up to `rest`
abbrev pub PathReads : ℕ → ℕ → Expr → Tokens → Tokens → Type 0
PathReads limit d e ts rest =
    (base : Expr) × (mid : Tokens) × (k : ℕ) × (parse_primary (at_depth limit d) ts
      ≡ ok (base, mid))
    × ((f g : ℕ) → g ≡ k + f → new_members g base mid ≡ new_members f e rest)
    × (k + length rest ≤ length mid)

pub path_of_primary :
    (limit d : ℕ) (e : Expr) (ts rest : Tokens)
    → PrimaryReads limit d e ts rest
    → PathReads limit d e ts rest
path_of_primary limit d e ts rest reads =
    (e, rest, 0, reads, λ f g h. ap (λ n. new_members n e rest) (omega arith), omega arith)

new_members-step :
    (f : ℕ) (e : Expr) (name : List ℕ) (rest : Tokens)
    → new_members (suc f) e (punctuation PunctuationKind.dot ∷ name_token name ∷ rest)
      ≡ new_members f (Expr.member e name) rest
unfolding new_members
new_members-step f e name rest = elim (name_token-cases name) [
  | inl plain ↦ ap (λ t. new_members (suc f) e (punctuation PunctuationKind.dot ∷ t ∷ rest)) plain
  | inr hidden ↦ ap (λ t. new_members (suc f) e (punctuation PunctuationKind.dot ∷ t ∷ rest)) hidden
]

pub path_member :
    (limit d : ℕ) (e : Expr) (name : List ℕ) (ts rest : Tokens)
    → PathReads limit d e ts (punctuation PunctuationKind.dot ∷ name_token name ∷ rest)
    → PathReads limit d (Expr.member e name) ts rest
path_member limit d e name ts rest (base, mid, k, reads, members, bound) = (
  base,
  mid,
  suc k,
  reads,
  λ f g h. members (suc f) g (omega arith) ∙ new_members-step f e name rest,
  omega arith,
)

new_members-ends :
    (f : ℕ) (e : Expr) (ts : Tokens)
    → 0 < f
    → new_members f e (punctuation PunctuationKind.l_paren ∷ ts)
      ≡ ok (e, punctuation PunctuationKind.l_paren ∷ ts)
unfolding new_members
new_members-ends zero e ts h = elim h [ ]
new_members-ends (suc f) e ts h = refl

parse_new_expr-reads :
    (prec : Prec) (base callee : Expr) (args : Exprs) (ts mid behind rest : Tokens)
    → parse_primary prec ts ≡ ok (base, mid)
    → new_members (suc (length mid)) base mid
      ≡ ok (callee, punctuation PunctuationKind.l_paren ∷ behind)
    → parse_arguments prec PunctuationKind.r_paren behind ≡ ok (args, rest)
    → parse_new_expr prec (keyword KeywordKind.new ∷ ts) ≡ ok (Expr.new callee args, rest)
unfolding parse_new_expr
parse_new_expr-reads prec base callee args ts mid behind rest primary members arguments =
    ground (arith, primary, members, arguments)

pub new_reads :
    (limit d : ℕ) (e : Expr) (args : Exprs) (path rest : Tokens)
    → ((behind : Tokens) → PathReads limit d e (path ++ behind) behind)
    → AllRead limit d args
    → PrefixReads limit d
        (Expr.new e (regroup_all args))
        ((keyword KeywordKind.new ∷ (path ++ wrapped true (print_items args))) ++ rest)
        rest
        0
unfolding parse_prefix parse_head parse_new_expr wrapped
new_reads limit d e args path rest callee h =
    let inner = print_items args ++ punctuation PunctuationKind.r_paren ∷ rest in
    let behind = punctuation PunctuationKind.l_paren ∷ inner in
    let whole =
      append_assoc path (wrapped true (print_items args)) rest
      ∙ ap (λ t. path ++ punctuation PunctuationKind.l_paren ∷ t)
          (append_assoc (print_items args) (punctuation PunctuationKind.r_paren ∷ []) rest) in
    let (base, mid, k, reads, members, bound) = callee behind in
    let fuel = suc (length mid) - k in
    (
      limit,
      omega arith,
      ap (λ r. r >>= λ (head, left). prefix_loop limit (at_depth limit d) head left)
          (ap (λ t. parse_new_expr (at_depth limit d) (keyword KeywordKind.new ∷ t)) whole
            ∙ parse_new_expr-reads (at_depth limit d) base e (regroup_all args) (path ++ behind) mid
                inner rest reads
                (members fuel (suc (length mid)) (omega arith)
                  ∙ new_members-ends fuel e inner (omega arith))
                (parse_arguments-reads limit d false args rest h)),
    )
