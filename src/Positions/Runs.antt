-- ===== src/Positions/Runs.antt =====
-- Words and receivers found around an offset: crates/yps-lsp/src/position.rs.
use Prim.Native.Nat.{◌-◌}
use mathlib.Core.List.{append_assoc}
use yoptascript_rs.Prelude.{
  ℕ, zero, suc, ◌+◌, ◌≡◌, refl, sym, ap, ◌∙◌, Bool, true, false, ◌&&◌, List, [], ◌∷◌, ◌++◌, arith,
}
use yoptascript_rs.Positions.Convert.{
  len_utf8, bytes, is_char_boundary, clamp_to_boundary, take_bytes, drop_bytes,
}
use yoptascript_rs.Positions.Text.{len_utf8_pos, bytes-append, drop_bytes-append}
use yoptascript_rs.Positions.Clamp.{clamp_to_boundary-greatest}
use yoptascript_rs.Positions.Word.{
  is_ident_char, indices_back, run_start, ident_start, run_end, word_at,
}

pub take_bytes-append : (xs ys : List ℕ) → take_bytes (bytes xs) (xs ++ ys) ≡ xs
unfolding take_bytes bytes
take_bytes-append [] [] = refl
take_bytes-append [] (c ∷ ys) = ground (arith, len_utf8_pos c)
take_bytes-append (c ∷ xs) ys =
    let rest : (len_utf8 c + bytes xs) - len_utf8 c ≡ bytes xs = omega arith in
    ground (arith, take_bytes-append xs ys)

boundary-cons :
    (c : ℕ) (cs : List ℕ) (m k : ℕ)
    → m ≡ len_utf8 c + k
    → is_char_boundary cs k ≡ true
    → is_char_boundary (c ∷ cs) m ≡ true
unfolding is_char_boundary
boundary-cons c cs zero k e h = refl
boundary-cons c cs (suc n) k e h = let rest : suc n - len_utf8 c ≡ k = omega arith in ground arith

boundary-append : (xs ys : List ℕ) → is_char_boundary (xs ++ ys) (bytes xs) ≡ true
unfolding is_char_boundary bytes
boundary-append [] [] = refl
boundary-append [] (c ∷ ys) = refl
boundary-append (c ∷ xs) ys =
    boundary-cons c (xs ++ ys) (len_utf8 c + bytes xs) (bytes xs) refl (boundary-append xs ys)

pub clamp_to_boundary-append : (xs ys : List ℕ) → clamp_to_boundary (xs ++ ys) (bytes xs) ≡ bytes xs
clamp_to_boundary-append xs ys =
    let greatest = clamp_to_boundary-greatest (xs ++ ys) (bytes xs) in
    let below = greatest.1 in
    let above = greatest.2 (bytes xs) (boundary-append xs ys) (omega arith) in omega arith

-- all characters are of identifiers
unfoldable pub all_ident : (ℕ → Bool) → List ℕ → Bool
unfolding is_ident_char
all_ident alphanumeric [] = true
all_ident alphanumeric (c ∷ cs) = is_ident_char alphanumeric c && all_ident alphanumeric cs

-- the first character is of an identifier
unfoldable pub starts_ident : (ℕ → Bool) → List ℕ → Bool
unfolding is_ident_char
starts_ident alphanumeric [] = false
starts_ident alphanumeric (c ∷ cs) = is_ident_char alphanumeric c

-- the last character is of an identifier
unfoldable pub ends_ident : (ℕ → Bool) → List ℕ → Bool
unfolding is_ident_char
ends_ident alphanumeric [] = false
ends_ident alphanumeric (c ∷ []) = is_ident_char alphanumeric c
ends_ident alphanumeric (c ∷ d ∷ cs) = ends_ident alphanumeric (d ∷ cs)

pub indices_back-append :
    (i : ℕ) (behind : List (ℕ × ℕ)) (xs ys : List ℕ)
    → indices_back i behind (xs ++ ys) ≡ indices_back (i + bytes xs) (indices_back i behind xs) ys
unfolding indices_back bytes
indices_back-append i behind [] ys = ap (λ j. indices_back j behind ys) (omega arith)
indices_back-append i behind (c ∷ xs) ys =
    indices_back-append (i + len_utf8 c) ((i, c) ∷ behind) xs ys
    ∙ ap (λ j. indices_back j (indices_back (i + len_utf8 c) ((i, c) ∷ behind) xs) ys) (omega arith)

run_start-ident :
    (alphanumeric : ℕ → Bool) (i : ℕ) (behind : List (ℕ × ℕ)) (w : List ℕ)
    → all_ident alphanumeric w ≡ true
    → run_start alphanumeric (i + bytes w) (indices_back i behind w)
      ≡ run_start alphanumeric i behind
unfolding run_start indices_back bytes all_ident
run_start-ident alphanumeric i behind [] h = ap (λ j. run_start alphanumeric j behind) (omega arith)
run_start-ident alphanumeric i behind (c ∷ w) h =
    let sum : (i + len_utf8 c) + bytes w ≡ i + (len_utf8 c + bytes w) = omega arith in
    let later = run_start-ident alphanumeric (i + len_utf8 c) ((i, c) ∷ behind) w in ground arith

run_start-plain :
    (alphanumeric : ℕ → Bool) (i n : ℕ) (behind : List (ℕ × ℕ)) (c : ℕ) (a : List ℕ)
    → ends_ident alphanumeric (c ∷ a) ≡ false
    → run_start alphanumeric n (indices_back i behind (c ∷ a)) ≡ n
unfolding run_start indices_back ends_ident
run_start-plain alphanumeric i n behind c [] h = ground arith
run_start-plain alphanumeric i n behind c (d ∷ a) h =
    run_start-plain alphanumeric (i + len_utf8 c) n ((i, c) ∷ behind) d a h

run_end-ident :
    (alphanumeric : ℕ → Bool) (n : ℕ) (w b : List ℕ)
    → all_ident alphanumeric w ≡ true
    → starts_ident alphanumeric b ≡ false
    → run_end alphanumeric n (w ++ b) ≡ n + bytes w
unfolding run_end all_ident starts_ident bytes
run_end-ident alphanumeric n [] [] h e = omega arith
run_end-ident alphanumeric n [] (c ∷ b) h e = ground arith
run_end-ident alphanumeric n (c ∷ w) b h e =
    let later = run_end-ident alphanumeric (n + len_utf8 c) w b in ground arith

run_start-front :
    (alphanumeric : ℕ → Bool) (a : List ℕ)
    → ends_ident alphanumeric a ≡ false
    → run_start alphanumeric (0 + bytes a) (indices_back 0 [] a) ≡ bytes a
unfolding run_start indices_back
run_start-front alphanumeric [] h = omega arith
run_start-front alphanumeric (c ∷ a) h =
    run_start-plain alphanumeric 0 (0 + bytes (c ∷ a)) [] c a h ∙ omega arith

-- At the end of a run of characters of identifiers that follows none, `ident_start` gives the start
-- of the run.
pub ident_start-run :
    (alphanumeric : ℕ → Bool) (a w s : List ℕ)
    → ends_ident alphanumeric a ≡ false
    → all_ident alphanumeric w ≡ true
    → ident_start alphanumeric ((a ++ w) ++ s) (bytes (a ++ w)) ≡ bytes a
unfolding ident_start
ident_start-run alphanumeric a w s h e =
    ap (λ t. run_start alphanumeric (bytes (a ++ w)) (indices_back 0 [] t))
      (take_bytes-append (a ++ w) s)
    ∙ ap (run_start alphanumeric (bytes (a ++ w))) (indices_back-append 0 [] a w)
    ∙ ap (λ n. run_start alphanumeric n (indices_back (0 + bytes a) (indices_back 0 [] a) w))
        (let sum = bytes-append a w in omega arith)
    ∙ run_start-ident alphanumeric (0 + bytes a) (indices_back 0 [] a) w e
    ∙ run_start-front alphanumeric a h

-- Where a run of characters of identifiers `w ++ u` stands in a text, with no such character in
-- front of it and none behind it, `word_at` at an offset between `w` and `u` gives that run.
pub word_at-run :
    (alphanumeric : ℕ → Bool) (a w u b : List ℕ)
    → ends_ident alphanumeric a ≡ false
    → all_ident alphanumeric w ≡ true
    → all_ident alphanumeric u ≡ true
    → starts_ident alphanumeric b ≡ false
    → word_at alphanumeric ((a ++ w) ++ (u ++ b)) (bytes (a ++ w)) ≡ w ++ u
unfolding word_at
word_at-run alphanumeric a w u b ha hw hu hb =
    let src = (a ++ w) ++ (u ++ b) in
    let clamped = clamp_to_boundary-append (a ++ w) (u ++ b) in
    let start = ident_start-run alphanumeric a w (u ++ b) ha hw in
    let rest = drop_bytes-append (a ++ w) (u ++ b) in
    let end = run_end-ident alphanumeric (bytes (a ++ w)) u b hu hb in
    let sum = bytes-append (a ++ w) u in
    let front : take_bytes (bytes ((a ++ w) ++ u)) src ≡ (a ++ w) ++ u =
      ap (take_bytes (bytes ((a ++ w) ++ u))) (sym (append_assoc (a ++ w) u b))
      ∙ take_bytes-append ((a ++ w) ++ u) b in
    let word : drop_bytes (bytes a) ((a ++ w) ++ u) ≡ w ++ u =
      ap (drop_bytes (bytes a)) (append_assoc a w u) ∙ drop_bytes-append a (w ++ u) in
    ap
      (λ n.
        drop_bytes (ident_start alphanumeric src n)
          (take_bytes (run_end alphanumeric n (drop_bytes n src)) src))
      clamped
    ∙ ap
        (λ n. drop_bytes n (
          take_bytes (run_end alphanumeric (bytes (a ++ w)) (drop_bytes (bytes (a ++ w)) src)) src))
        start
    ∙ ap (λ t. drop_bytes (bytes a) (take_bytes (run_end alphanumeric (bytes (a ++ w)) t) src)) rest
    ∙ ap (λ n. drop_bytes (bytes a) (take_bytes n src)) (end ∙ sym sum)
    ∙ ap (drop_bytes (bytes a)) front
    ∙ word
