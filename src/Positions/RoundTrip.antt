-- ===== src/Positions/RoundTrip.antt =====
-- From an offset to a position and back: crates/yps-lsp/src/position.rs.
use mathlib.Core.List.{append_assoc}
use yoptascript_rs.Prelude.{
  ℕ, suc, ◌+◌, ◌%◌, ◌^◌, ◌<◌, ◌≤◌, ◌≡◌, refl, sym, ap, ◌∙◌, inl, inr, true, ◌==◌, ltb, Option, none,
  some, List, [], ◌∷◌, ◌++◌, if◌then◌else◌, arith, Bool-cases,
}
use yoptascript_rs.Positions.Convert.{
  newline, len_utf8, bytes, units, newlines, is_char_boundary, clamp_to_boundary, take_bytes,
  drop_bytes, last_line, byte_to_pos, find_line, start_of, walk, pos_to_byte,
}
use yoptascript_rs.Positions.Text.{
  len_utf16_pos, bytes-append, units-append, drop_bytes-append, walk-append, take_bytes-drop_bytes,
  bytes-take_bytes, boundary_below-boundary,
}

-- a text is its lines but the last, with their newlines, and the last
unfoldable lines_before : List ℕ → List ℕ
unfolding newlines
lines_before [] = []
lines_before (c ∷ cs) =
    let later = lines_before cs in
    if newlines cs == 0 then (if c == newline then c ∷ [] else []) else c ∷ later

lines_before-last_line : (p : List ℕ) → lines_before p ++ last_line p ≡ p
unfolding lines_before last_line
lines_before-last_line [] = refl
lines_before-last_line (c ∷ cs) = ground (arith, lines_before-last_line cs)

newlines-lines_before : (p : List ℕ) → newlines (lines_before p) ≡ newlines p
unfolding lines_before newlines
newlines-lines_before [] = refl
newlines-lines_before (c ∷ cs) = ground (arith, newlines-lines_before cs)

-- the line after the newlines of `p` starts behind the lines before
find_line-lines_before :
    (p s : List ℕ) (line i target : ℕ)
    → 0 < newlines p
    → target ≡ line + newlines p
    → target < 2 ^ 32
    → (find_line target line i (lines_before p ++ s)).1 ≡ some (i + bytes (lines_before p))
unfolding find_line lines_before newlines bytes
find_line-lines_before [] s line i target h e short = elim h [ ]
find_line-lines_before (c ∷ cs) s line i target h e short = elim (Bool-cases (newlines cs == 0)) [
  | inl last ↦ elim (Bool-cases (c == newline)) [
    | inl at ↦
        let no_wrap : suc line % 2 ^ 32 ≡ suc line = ground arith in
        let none_after : newlines cs ≡ 0 = ground arith in
        let next : suc line ≡ target = ground arith in
        let sum : i + (len_utf8 c + 0) ≡ i + len_utf8 c = omega arith in ground arith
    | inr off ↦ ground arith
  ]
  | inr more ↦ elim (Bool-cases (c == newline)) [
    | inl at ↦
        let no_wrap : suc line % 2 ^ 32 ≡ suc line = ground arith in
        let target_is : target ≡ suc line + newlines cs = ground arith in
        let some_after : 0 < newlines cs = ground arith in
        let later =
          find_line-lines_before cs s (suc line) (i + len_utf8 c) target some_after target_is
            short in
        let sum : (i + len_utf8 c) + bytes (lines_before cs)
            ≡ i + (len_utf8 c + bytes (lines_before cs)) =
          omega arith in
        ground (arith, later)
    | inr off ↦
        let target_is : target ≡ line + newlines cs = ground arith in
        let some_after : 0 < newlines cs = ground arith in
        let later =
          find_line-lines_before cs s line (i + len_utf8 c) target some_after target_is short in
        let sum : (i + len_utf8 c) + bytes (lines_before cs)
            ≡ i + (len_utf8 c + bytes (lines_before cs)) =
          omega arith in
        ground (arith, later)
  ]
]

-- the first line starts at 0
find_line-start : (s : List ℕ) → start_of 0 s (find_line 0 0 0 s) ≡ 0
unfolding find_line
find_line-start [] = refl
find_line-start (c ∷ cs) = refl

lines_before-none : (p : List ℕ) → newlines p ≡ 0 → bytes (lines_before p) ≡ 0
unfolding lines_before newlines bytes
lines_before-none [] e = refl
lines_before-none (c ∷ cs) e = ground arith

newlines-units : (p : List ℕ) → newlines p ≤ units p
unfolding newlines units
newlines-units [] = omega arith
newlines-units (c ∷ cs) = ground (arith, newlines-units cs, len_utf16_pos c)

start_of-some :
    (target : ℕ) (src : List ℕ) (found : ℕ × Option ℕ) (k : ℕ)
    → found.1 ≡ some k
    → start_of target src found ≡ k
start_of-some target src (line, some start) k e = cc
start_of-some target src (line, none) k e = cc

lines_before-rest : (p s : List ℕ) → lines_before p ++ (last_line p ++ s) ≡ p ++ s
lines_before-rest p s =
    sym (append_assoc (lines_before p) (last_line p) s) ∙ ap (◌++ s) (lines_before-last_line p)

-- The start found for the line of a text's front `p` is where the last line of `p` starts.
start_of-lines_before :
    (p s : List ℕ)
    → newlines p < 2 ^ 32
    → start_of (newlines p) (p ++ s) (find_line (newlines p) 0 0 (p ++ s)) ≡ bytes (lines_before p)
start_of-lines_before p s short = elim (Bool-cases (newlines p == 0)) [
  | inl first ↦
      let zero_is : newlines p ≡ 0 = ground arith in
      ap (λ t. start_of t (p ++ s) (find_line t 0 0 (p ++ s))) zero_is
      ∙ find_line-start (p ++ s)
      ∙ sym (lines_before-none p zero_is)
  | inr later ↦
      let some_before : 0 < newlines p = ground arith in
      let found =
        find_line-lines_before p (last_line p ++ s) 0 0 (newlines p) some_before (omega arith)
          short in
      let from_zero : 0 + bytes (lines_before p) ≡ bytes (lines_before p) = omega arith in
      start_of-some (newlines p) (p ++ s) (find_line (newlines p) 0 0 (p ++ s))
        (bytes (lines_before p))
        (ap (λ t. (find_line (newlines p) 0 0 t).1) (sym (lines_before-rest p s))
          ∙ found
          ∙ ap some from_zero)
]

-- from the start of the last line of `p`, its units lead to the end of `p`
walk-last_line :
    (p s : List ℕ)
    → walk
        (units (last_line p))
        (bytes (lines_before p))
        (drop_bytes (bytes (lines_before p)) (p ++ s))
      ≡ bytes p
walk-last_line p s =
    ap (walk (units (last_line p)) (bytes (lines_before p))) (
      ap (drop_bytes (bytes (lines_before p))) (sym (lines_before-rest p s))
      ∙ drop_bytes-append (lines_before p) (last_line p ++ s))
    ∙ walk-append (last_line p) s (bytes (lines_before p))
    ∙ sym (bytes-append (lines_before p) (last_line p))
    ∙ ap bytes (lines_before-last_line p)

-- The position of the end of a front of a text leads back to that end.
pos_to_byte-front :
    (p s : List ℕ)
    → newlines p < 2 ^ 32
    → pos_to_byte (p ++ s) (record { line = newlines p; character = units (last_line p) }) ≡ bytes p
unfolding pos_to_byte
pos_to_byte-front p s short =
    ap (λ n. walk (units (last_line p)) n (drop_bytes n (p ++ s))) (start_of-lines_before p s short)
    ∙ walk-last_line p s

units-last_line : (p : List ℕ) → units (last_line p) ≤ units p
units-last_line p =
    let parts = units-append (lines_before p) (last_line p) in
    let same = ap units (lines_before-last_line p) in omega arith

units-take_bytes : (n : ℕ) (src : List ℕ) → units (take_bytes n src) ≤ units src
units-take_bytes n src =
    let parts = units-append (take_bytes n src) (drop_bytes n src) in
    let same = ap units (take_bytes-drop_bytes n src) in omega arith

clamp_to_boundary-boundary :
    (src : List ℕ) (offset : ℕ) → is_char_boundary src (clamp_to_boundary src offset) ≡ true
unfolding clamp_to_boundary
clamp_to_boundary-boundary src offset =
    boundary_below-boundary src (if ltb offset (bytes src) then offset else bytes src)

-- The position `byte_to_pos` gives for an offset leads `pos_to_byte` back to that offset, moved
-- down to a character's boundary, in every text of fewer than 2 ^ 32 units of UTF-16.
pub pos_to_byte-byte_to_pos :
    (src : List ℕ) (offset : ℕ)
    → units src < 2 ^ 32
    → pos_to_byte src (byte_to_pos src offset) ≡ clamp_to_boundary src offset
unfolding byte_to_pos
pos_to_byte-byte_to_pos src offset h =
    let n = clamp_to_boundary src offset in
    let p = take_bytes n src in
    let few_lines = newlines-units p in
    let few_units = units-last_line p in
    let fewer = units-take_bytes n src in
    let line_fits : newlines p % 2 ^ 32 ≡ newlines p = omega arith in
    let character_fits : units (last_line p) % 2 ^ 32 ≡ units (last_line p) = omega arith in
    ap (λ l. pos_to_byte src (record { line = l; character = units (last_line p) % 2 ^ 32 }))
      line_fits
    ∙ ap (λ u. pos_to_byte src (record { line = newlines p; character = u })) character_fits
    ∙ ap (λ t. pos_to_byte t (record { line = newlines p; character = units (last_line p) }))
        (sym (take_bytes-drop_bytes n src))
    ∙ pos_to_byte-front p (drop_bytes n src) (omega arith)
    ∙ bytes-take_bytes src n (clamp_to_boundary-boundary src offset)
