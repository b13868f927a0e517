-- ===== src/Syntax/Quoted.antt =====
-- What is quoted reads back: string literals of crates/yps-fmt/src/printer.rs and
-- crates/yps-parser/src/parser/literals.rs.
use yoptascript_rs.Prelude.{ℕ, ◌≡◌, ◌≢◌, refl, ap, ◌∙◌, List, [], ◌∷◌, ◌++◌, arith}
use yoptascript_rs.Syntax.Quote.{
  unescape_char, unescape_string, drop_last, strip_delimiters, quote_char, quote_chars, quote_mark,
  quote_string,
}

drop_last-append : (cs : List ℕ) (q : ℕ) → drop_last (cs ++ q ∷ []) ≡ cs
unfolding drop_last
drop_last-append [] q = refl
drop_last-append (c ∷ []) q = refl
drop_last-append (c ∷ d ∷ cs) q = ap (c ∷◌) (drop_last-append (d ∷ cs) q)

unescape_string-plain :
    (c : ℕ) (cs : List ℕ) → c ≢ 92 → unescape_string (c ∷ cs) ≡ c ∷ unescape_string cs
unfolding unescape_string
unescape_string-plain c [] h = refl
unescape_string-plain c (d ∷ cs) h = ground arith

unescape_string-escaped :
    (d : ℕ) (cs : List ℕ) → unescape_string (92 ∷ d ∷ cs) ≡ unescape_char d (unescape_string cs)
unfolding unescape_string
unescape_string-escaped d cs = refl

unescape_string-quote_char :
    (quote ch : ℕ) (rest : List ℕ)
    → unescape_string (quote_char quote ch rest) ≡ ch ∷ unescape_string rest
unfolding quote_char unescape_char
unescape_string-quote_char quote ch rest = ground (
  arith,
  unescape_string-plain ch rest,
  unescape_string-escaped b'n' rest,
  unescape_string-escaped b't' rest,
  unescape_string-escaped b'r' rest,
  unescape_string-escaped b'0' rest,
  unescape_string-escaped 92 rest,
  unescape_string-escaped 39 rest,
  unescape_string-escaped 34 rest,
)

unescape_string-quote_chars :
    (quote : ℕ) (value : List ℕ) → unescape_string (quote_chars quote value) ≡ value
unfolding quote_chars unescape_string
unescape_string-quote_chars quote [] = refl
unescape_string-quote_chars quote (ch ∷ value) =
    unescape_string-quote_char quote ch (quote_chars quote value)
    ∙ ap (ch ∷◌) (unescape_string-quote_chars quote value)

-- A string that the formatter quotes is the string that the parser reads from the literal.
pub unescape_string-quote_string :
    (value : List ℕ) → unescape_string (strip_delimiters (quote_string value)) ≡ value
unfolding quote_string strip_delimiters
unescape_string-quote_string value =
    ap unescape_string (drop_last-append (quote_chars (quote_mark value) value) (quote_mark value))
    ∙ unescape_string-quote_chars (quote_mark value) value
