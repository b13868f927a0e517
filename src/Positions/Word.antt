-- ===== src/Positions/Word.antt =====
-- The word at an offset and the receiver before a dot: `word_at` and `member_receiver` of
-- crates/yps-lsp/src/position.rs. `alphanumeric` is `char::is_alphanumeric`.
use yoptascript_rs.Prelude.{
  ℕ, ◌+◌, Bool, true, ◌&&◌, ◌||◌, ◌==◌, leb, Option, none, some, List, [], ◌∷◌, if◌then◌else◌,
}
use yoptascript_rs.Positions.Convert.{len_utf8, clamp_to_boundary, take_bytes, drop_bytes}

unfoldable pub is_ident_char : (ℕ → Bool) → ℕ → Bool
is_ident_char alphanumeric c = alphanumeric c || c == 95

-- `char_indices().rev()` of a text that starts at `i`, before the indices in `behind`
unfoldable pub indices_back : ℕ → List (ℕ × ℕ) → List ℕ → List (ℕ × ℕ)
unfolding len_utf8
indices_back i behind [] = behind
indices_back i behind (c ∷ cs) = indices_back (i + len_utf8 c) ((i, c) ∷ behind) cs

-- `take_while(..).last().map_or(boundary, ..)`
unfoldable pub run_start : (ℕ → Bool) → ℕ → List (ℕ × ℕ) → ℕ
unfolding is_ident_char
run_start alphanumeric boundary [] = boundary
run_start alphanumeric boundary ((i, c) ∷ before) =
    let longer = run_start alphanumeric i before in
    if is_ident_char alphanumeric c then longer else boundary

unfoldable pub ident_start : (ℕ → Bool) → List ℕ → ℕ → ℕ
unfolding run_start indices_back take_bytes
ident_start alphanumeric src boundary =
    run_start alphanumeric boundary (indices_back 0 [] (take_bytes boundary src))

-- where the run that starts a text at `clamped` ends
unfoldable pub run_end : (ℕ → Bool) → ℕ → List ℕ → ℕ
unfolding is_ident_char len_utf8
run_end alphanumeric clamped [] = clamped
run_end alphanumeric clamped (c ∷ cs) =
    let longer = run_end alphanumeric (clamped + len_utf8 c) cs in
    if is_ident_char alphanumeric c then longer else clamped

unfoldable pub word_at : (ℕ → Bool) → List ℕ → ℕ → List ℕ
unfolding clamp_to_boundary ident_start run_end take_bytes drop_bytes
word_at alphanumeric src byte_pos =
    let clamped = clamp_to_boundary src byte_pos in
    let start = ident_start alphanumeric src clamped in
    let end = run_end alphanumeric clamped (drop_bytes clamped src) in
    drop_bytes start (take_bytes end src)

unfoldable pub all_digits : List ℕ → Bool
all_digits [] = true
all_digits (c ∷ cs) = (leb 48 c && leb c 57) && all_digits cs

abbrev pub named : List ℕ → Option (List ℕ)
named [] = some []
named (c ∷ cs) = if all_digits (c ∷ cs) then none else some (c ∷ cs)

-- what stands before the dot at the end, `before` the dot and the characters in front of it
unfoldable pub receiver_before : (ℕ → Bool) → List ℕ → List (ℕ × ℕ) → Option (List ℕ)
unfolding ident_start take_bytes drop_bytes all_digits
receiver_before alphanumeric src [] = none
receiver_before alphanumeric src ((recv_end, dot_char) ∷ before) =
    if dot_char == 46
    then named (drop_bytes (ident_start alphanumeric src recv_end) (take_bytes recv_end src))
    else none

unfoldable pub member_receiver : (ℕ → Bool) → List ℕ → ℕ → Option (List ℕ)
unfolding clamp_to_boundary ident_start indices_back take_bytes receiver_before
member_receiver alphanumeric src byte_pos =
    let member_start = ident_start alphanumeric src (clamp_to_boundary src byte_pos) in
    receiver_before alphanumeric src (indices_back 0 [] (take_bytes member_start src))
