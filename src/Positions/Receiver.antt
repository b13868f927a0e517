-- ===== src/Positions/Receiver.antt =====
-- The receiver in front of a dot: `member_receiver` of crates/yps-lsp/src/position.rs.
use mathlib.Core.List.{append_assoc}
use yoptascript_rs.Prelude.{
  ℕ, ◌+◌, ◌≡◌, refl, ap, ◌∙◌, Bool, true, false, ◌&&◌, ltb, none, some, List, [], ◌∷◌, ◌++◌, arith,
  if◌then◌else◌,
}
use yoptascript_rs.Positions.Convert.{bytes, take_bytes, drop_bytes}
use yoptascript_rs.Positions.Text.{drop_bytes-append}
use yoptascript_rs.Positions.Word.{
  all_digits, is_ident_char, indices_back, ident_start, named, receiver_before, member_receiver,
}
use yoptascript_rs.Positions.Runs.{
  take_bytes-append, clamp_to_boundary-append, indices_back-append, ident_start-run, all_ident,
  ends_ident,
}

ends_ident-last :
    (alphanumeric : ℕ → Bool) (xs : List ℕ) (c : ℕ)
    → ends_ident alphanumeric (xs ++ (c ∷ [])) ≡ is_ident_char alphanumeric c
unfolding ends_ident
ends_ident-last alphanumeric [] c = refl
ends_ident-last alphanumeric (x ∷ []) c = refl
ends_ident-last alphanumeric (x ∷ y ∷ xs) c = ends_ident-last alphanumeric (y ∷ xs) c

-- a number: at least one character, and every character a digit
unfoldable pub is_number : List ℕ → Bool
is_number [] = false
is_number (c ∷ []) = ltb 47 c && ltb c 58
is_number (c ∷ d ∷ cs) = (ltb 47 c && ltb c 58) && is_number (d ∷ cs)

named-number : (r : List ℕ) → named r ≡ (if is_number r then none else some r)
unfolding all_digits is_number
named-number [] = refl
named-number (c ∷ []) = ground arith
named-number (c ∷ d ∷ cs) = ground (arith, named-number (d ∷ cs))

-- Where the run `r` stands in front of a dot, with no character of an identifier in front of it, and
-- the dot is no such character, `member_receiver` at any offset in the run behind the dot (`w` is what
-- of that run is in front of the offset) gives `r`, or nothing if `r` is a number: it has characters
-- and all are digits.
pub member_receiver-dot :
    (alphanumeric : ℕ → Bool) (a r w b : List ℕ)
    → is_ident_char alphanumeric 46 ≡ false
    → ends_ident alphanumeric a ≡ false
    → all_ident alphanumeric r ≡ true
    → all_ident alphanumeric w ≡ true
    → member_receiver alphanumeric
        ((((a ++ r) ++ (46 ∷ [])) ++ w) ++ b)
        (bytes (((a ++ r) ++ (46 ∷ [])) ++ w))
      ≡ (if is_number r then none else some r)
unfolding member_receiver receiver_before indices_back
member_receiver-dot alphanumeric a r w b hdot ha hr hw =
    let p = (a ++ r) ++ (46 ∷ []) in
    let src = (p ++ w) ++ b in
    let rest = (46 ∷ []) ++ (w ++ b) in
    let clamped = clamp_to_boundary-append (p ++ w) b in
    let start =
      ident_start-run alphanumeric p w b (ends_ident-last alphanumeric (a ++ r) 46 ∙ hdot) hw in
    let front : take_bytes (bytes p) src ≡ p =
      ap (take_bytes (bytes p)) (append_assoc p w b) ∙ take_bytes-append p (w ++ b) in
    let split : src ≡ (a ++ r) ++ rest =
      append_assoc p w b ∙ append_assoc (a ++ r) (46 ∷ []) (w ++ b) in
    let from_zero : 0 + bytes (a ++ r) ≡ bytes (a ++ r) = omega arith in
    ap
      (λ n.
        receiver_before alphanumeric src
          (indices_back 0 [] (take_bytes (ident_start alphanumeric src n) src)))
      clamped
    ∙ ap (λ n. receiver_before alphanumeric src (indices_back 0 [] (take_bytes n src))) start
    ∙ ap (λ t. receiver_before alphanumeric src (indices_back 0 [] t)) front
    ∙ ap (receiver_before alphanumeric src) (indices_back-append 0 [] (a ++ r) (46 ∷ []))
    ∙ ap (λ n. named (drop_bytes (ident_start alphanumeric src n) (take_bytes n src))) from_zero
    ∙ ap
        (λ t. named (
          drop_bytes (ident_start alphanumeric t (bytes (a ++ r))) (take_bytes (bytes (a ++ r)) t)))
        split
    ∙ ap (λ n. named (drop_bytes n (take_bytes (bytes (a ++ r)) ((a ++ r) ++ rest))))
        (ident_start-run alphanumeric a r rest ha hr)
    ∙ ap (λ t. named (drop_bytes (bytes a) t)) (take_bytes-append (a ++ r) rest)
    ∙ ap named (drop_bytes-append a r)
    ∙ named-number r
