-- ===== src/Bytecode/Patches.antt =====
-- `patch_jump` of crates/yps-vm/src/chunk.rs on code that has the jump at a place.
use yoptascript_rs.Prelude.{ℕ, ◌≡◌, refl, ap, some, List, [], ◌∷◌, ◌++◌, length, get_elem?, set}
use yoptascript_rs.Bytecode.Result.{ok}
use yoptascript_rs.Bytecode.Chunk.{Op, Chunk, retarget, patch_jump}
use yoptascript_rs.Bytecode.Compile.{patch_here}

pub get_elem?-middle :
    {A : Type 0} (xs ys : List A) (y : A) → get_elem? (xs ++ y ∷ ys) (length xs) ≡ some y
get_elem?-middle [] ys y = refl
get_elem?-middle (x ∷ xs) ys y = get_elem?-middle xs ys y

set-middle :
    {A : Type 0} (xs ys : List A) (y z : A) → set (xs ++ y ∷ ys) (length xs) z ≡ xs ++ z ∷ ys
set-middle [] ys y z = refl
set-middle (x ∷ xs) ys y z = ap (λ r. x ∷ r) (set-middle xs ys y z)

patch_jump-middle :
    {F : Type 0} (c : Chunk F) (place t : ℕ) (before after : List Op) (old patched : Op)
    → c.code ≡ before ++ old ∷ after
    → place ≡ length before
    → retarget old t ≡ some patched
    → patch_jump place t c ≡ some (record c { code = before ++ patched ∷ after })
unfolding patch_jump
patch_jump-middle c place t before after old patched code start patches =
    let here : get_elem? c.code place ≡ some old =
      rw (code, start) (get_elem?-middle before after old) in
    let there : set c.code place patched ≡ before ++ patched ∷ after =
      rw (code, start) (set-middle before after old patched) in
    rw (here, patches, there, patch_jump) refl

-- a patch replaces the jump at its place
pub patch_here-middle :
    {F : Type 0} (c : Chunk F) (place : ℕ) (before after : List Op) (old patched : Op)
    → c.code ≡ before ++ old ∷ after
    → place ≡ length before
    → retarget old (length c.code) ≡ some patched
    → patch_here place c ≡ ok (record c { code = before ++ patched ∷ after })
unfolding patch_here
patch_here-middle c place before after old patched code start patches =
    rw
      (
        patch_jump-middle c place (length c.code) before after old patched code start patches,
        patch_here,
      )
      refl
