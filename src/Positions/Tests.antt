-- ===== src/Positions/Tests.antt =====
-- Positions on concrete texts: crates/yps-lsp/src/position.rs.
use yoptascript_rs.Prelude.{ℕ, ◌≤◌, ◌≡◌, refl, List, [], ◌∷◌, arith, true}
use yoptascript_rs.Positions.Convert.{
  clamp_to_boundary, byte_to_pos, pos_to_byte, is_char_boundary, units,
}
use yoptascript_rs.Prelude.{Bool, ◌&&◌, ◌||◌, leb, some, ◌++◌}
use yoptascript_rs.Positions.Convert.{bytes, span_to_range}
use yoptascript_rs.Positions.Word.{word_at, member_receiver, is_ident_char, all_digits}
use yoptascript_rs.Positions.Runs.{all_ident, ends_ident, starts_ident, word_at-run}
use yoptascript_rs.Positions.Receiver.{member_receiver-dot, is_number}
use yoptascript_rs.Positions.RoundTrip.{pos_to_byte-byte_to_pos}
use yoptascript_rs.Positions.Clamp.{clamp_to_boundary-greatest}

-- `a`, a newline, a character of two bytes, one of four bytes and two units, `b`, a newline, `c`
abbrev two_lines : List ℕ
two_lines = 97 ∷ 10 ∷ 1078 ∷ 128512 ∷ 98 ∷ 10 ∷ 99 ∷ []

byte_to_pos_test : byte_to_pos two_lines 8 ≡ record { line = 1; character = 3 }
unfolding byte_to_pos
byte_to_pos_test = refl

-- the offset stands inside a character
clamp_test : clamp_to_boundary two_lines 6 ≡ 4
unfolding clamp_to_boundary
clamp_test = refl

-- a position past the end of its line leads into the next one
pos_to_byte_past_end : pos_to_byte two_lines (record { line = 0; character = 3 }) ≡ 4
unfolding pos_to_byte
pos_to_byte_past_end = refl

pos_to_byte-byte_to_pos_example :
    pos_to_byte two_lines (byte_to_pos two_lines 6) ≡ clamp_to_boundary two_lines 6
unfolding units
pos_to_byte-byte_to_pos_example = pos_to_byte-byte_to_pos two_lines 6 (omega arith)

clamp_to_boundary-greatest_example :
    (is_char_boundary two_lines (clamp_to_boundary two_lines 6) ≡ true)
    × (clamp_to_boundary two_lines 6 ≤ 6)
    × ((k : ℕ) → is_char_boundary two_lines k ≡ true → k ≤ 6 → k ≤ clamp_to_boundary two_lines 6)
clamp_to_boundary-greatest_example = clamp_to_boundary-greatest two_lines 6

-- the letters of ASCII and its digits
abbrev ascii : ℕ → Bool
ascii c = leb 48 c && leb c 57 || leb 65 c && leb c 90 || leb 97 c && leb c 122

word_at-run_example :
    word_at ascii (((40 ∷ []) ++ (97 ∷ 98 ∷ [])) ++ ((99 ∷ []) ++ (41 ∷ []))) 3 ≡ 97 ∷ 98 ∷ 99 ∷ []
unfolding bytes ends_ident all_ident starts_ident
word_at-run_example =
    word_at-run ascii (40 ∷ []) (97 ∷ 98 ∷ []) (99 ∷ []) (41 ∷ []) refl refl refl refl

member_receiver-dot_example :
    member_receiver ascii (40 ∷ 97 ∷ 98 ∷ 46 ∷ 99 ∷ 41 ∷ []) 5 ≡ some (97 ∷ 98 ∷ [])
unfolding bytes ends_ident all_ident is_ident_char all_digits is_number
member_receiver-dot_example =
    member_receiver-dot ascii (40 ∷ []) (97 ∷ 98 ∷ []) (99 ∷ []) (41 ∷ []) refl refl refl refl

span_to_range_test : span_to_range two_lines (0, 8) ≡ record {
  start = record { line = 0; character = 0 };
  end = record { line = 1; character = 3 };
}
unfolding span_to_range
span_to_range_test = refl
