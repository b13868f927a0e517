-- ===== src/Syntax/Quote.antt =====
-- String literals: `quote_string` of crates/yps-fmt/src/printer.rs, `unescape_string` and
-- `strip_delimiters` of crates/yps-parser/src/parser/literals.rs. A text is the list of its code
-- points.
use yoptascript_rs.Prelude.{
  ℕ, Bool, false, not, ◌&&◌, ◌||◌, ◌==◌, List, [], ◌∷◌, ◌++◌, if◌then◌else◌,
}

unfoldable pub contains : ℕ → List ℕ → Bool
contains ch [] = false
contains ch (c ∷ cs) = c == ch || contains ch cs

-- the character behind a backslash, in front of what is already unescaped
unfoldable pub unescape_char : ℕ → List ℕ → List ℕ
unescape_char ch rest =
    if ch == b'n'
    then 10 ∷ rest
    else if ch == b't'
    then 9 ∷ rest
    else if ch == b'r'
    then 13 ∷ rest
    else if ch == b'0'
    then 0 ∷ rest
    else if ch == 92 || ch == 39 || ch == 34 || ch == 96 || ch == 36
    then ch ∷ rest
    else 92 ∷ ch ∷ rest

unfoldable pub unescape_string : List ℕ → List ℕ
unfolding unescape_char
unescape_string [] = []
unescape_string (c ∷ []) = c ∷ []
unescape_string (c ∷ d ∷ cs) =
    let escaped = unescape_char d (unescape_string cs) in
    let plain = c ∷ unescape_string (d ∷ cs) in if c == 92 then escaped else plain

unfoldable pub drop_last : List ℕ → List ℕ
drop_last [] = []
drop_last (c ∷ []) = []
drop_last (c ∷ d ∷ cs) = c ∷ drop_last (d ∷ cs)

-- `strip_delimiters(raw, 1)`
unfoldable pub strip_delimiters : List ℕ → List ℕ
unfolding drop_last
strip_delimiters [] = []
strip_delimiters (c ∷ cs) = drop_last cs

unfoldable pub quote_char : ℕ → ℕ → List ℕ → List ℕ
quote_char quote ch rest =
    if ch == 10
    then 92 ∷ b'n' ∷ rest
    else if ch == 9
    then 92 ∷ b't' ∷ rest
    else if ch == 13
    then 92 ∷ b'r' ∷ rest
    else if ch == 0
    then 92 ∷ b'0' ∷ rest
    else if ch == 92
    then 92 ∷ 92 ∷ rest
    else if ch == 39 && quote == 39
    then 92 ∷ 39 ∷ rest
    else if ch == 34 && quote == 34
    then 92 ∷ 34 ∷ rest
    else ch ∷ rest

unfoldable pub quote_chars : ℕ → List ℕ → List ℕ
unfolding quote_char
quote_chars quote [] = []
quote_chars quote (ch ∷ value) = quote_char quote ch (quote_chars quote value)

unfoldable pub quote_mark : List ℕ → ℕ
unfolding contains
quote_mark value = if contains 34 value && not (contains 39 value) then 39 else 34

unfoldable pub quote_string : List ℕ → List ℕ
unfolding quote_mark quote_chars
quote_string value =
    quote_mark value ∷ (quote_chars (quote_mark value) value ++ quote_mark value ∷ [])
