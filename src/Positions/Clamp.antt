-- ===== src/Positions/Clamp.antt =====
-- The boundary that an offset is moved to: `clamp_to_boundary` of crates/yps-lsp/src/position.rs.
use yoptascript_rs.Prelude.{ℕ, zero, suc, ◌≤◌, ◌≡◌, true, ltb, List, if◌then◌else◌, arith}
use yoptascript_rs.Positions.Convert.{bytes, is_char_boundary, boundary_below, clamp_to_boundary}
use yoptascript_rs.Positions.Text.{boundary_below-boundary, boundary-bytes}

boundary_below-below : (src : List ℕ) (n : ℕ) → boundary_below src n ≤ n
unfolding boundary_below
boundary_below-below src zero = omega arith
boundary_below-below src (suc n) = ground (arith, boundary_below-below src n)

boundary_below-above :
    (src : List ℕ) (n k : ℕ) → is_char_boundary src k ≡ true → k ≤ n → k ≤ boundary_below src n
unfolding boundary_below
boundary_below-above src zero k e h = h
boundary_below-above src (suc n) k e h = ground (arith, boundary_below-above src n k e)

-- The offset that `clamp_to_boundary` gives is a boundary of the text, is not behind the given one,
-- and is the greatest such: no boundary of the text up to the given offset is behind it.
pub clamp_to_boundary-greatest :
    (src : List ℕ) (offset : ℕ)
    → (is_char_boundary src (clamp_to_boundary src offset) ≡ true)
      × (clamp_to_boundary src offset ≤ offset)
      × ((k : ℕ) → is_char_boundary src k ≡ true → k ≤ offset → k ≤ clamp_to_boundary src offset)
unfolding clamp_to_boundary
clamp_to_boundary-greatest src offset = (
  boundary_below-boundary src (if ltb offset (bytes src) then offset else bytes src),
  (let below = boundary_below-below src (if ltb offset (bytes src) then offset else bytes src) in
      ground arith),
  (λ k e h.
      let fits = boundary-bytes src k e in
      boundary_below-above src (if ltb offset (bytes src) then offset else bytes src) k e
        (ground arith)),
)
