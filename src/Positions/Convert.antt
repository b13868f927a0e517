-- ===== src/Positions/Convert.antt =====
-- `byte_to_pos` and `pos_to_byte` of crates/yps-lsp/src/position.rs. A source text is the list of
-- its code points; a byte offset into it is a number.
use Prim.Native.Nat.{◌-◌}
use yoptascript_rs.Prelude.{
  ℕ, zero, suc, ◌+◌, ◌%◌, ◌^◌, Bool, true, false, ◌&&◌, ◌==◌, ltb, leb, Option, none, some, List,
  [], ◌∷◌, if◌then◌else◌,
}

pub record Position : Type 0 where
  pub line : ℕ
  pub character : ℕ

abbrev pub newline : ℕ
newline = 10

unfoldable pub len_utf8 : ℕ → ℕ
len_utf8 c = if ltb c 128 then 1 else if ltb c 2048 then 2 else if ltb c 65536 then 3 else 4

unfoldable pub len_utf16 : ℕ → ℕ
len_utf16 c = if ltb c 65536 then 1 else 2

-- `str::len`
unfoldable pub bytes : List ℕ → ℕ
unfolding len_utf8
bytes [] = 0
bytes (c ∷ cs) = len_utf8 c + bytes cs

-- `encode_utf16().count()`
unfoldable pub units : List ℕ → ℕ
unfolding len_utf16
units [] = 0
units (c ∷ cs) = len_utf16 c + units cs

-- `bytes().filter(|&b| b == b'\n').count()`
unfoldable pub newlines : List ℕ → ℕ
newlines [] = 0
newlines (c ∷ cs) = if c == newline then suc (newlines cs) else newlines cs

unfoldable pub is_char_boundary : List ℕ → ℕ → Bool
unfolding len_utf8
is_char_boundary cs zero = true
is_char_boundary [] (suc n) = false
is_char_boundary (c ∷ cs) (suc n) =
    let later = is_char_boundary cs (suc n - len_utf8 c) in
    if leb (len_utf8 c) (suc n) then later else false

-- the greatest boundary up to `raw`
unfoldable pub boundary_below : List ℕ → ℕ → ℕ
unfolding is_char_boundary
boundary_below src zero = zero
boundary_below src (suc n) =
    let lower = boundary_below src n in if is_char_boundary src (suc n) then suc n else lower

unfoldable pub clamp_to_boundary : List ℕ → ℕ → ℕ
unfolding boundary_below bytes
clamp_to_boundary src byte_pos =
    boundary_below src (if ltb byte_pos (bytes src) then byte_pos else bytes src)

-- `&src[..n]` and `&src[n..]`, at a boundary
unfoldable pub take_bytes : ℕ → List ℕ → List ℕ
unfolding len_utf8
take_bytes n [] = []
take_bytes n (c ∷ cs) =
    let later = take_bytes (n - len_utf8 c) cs in if leb (len_utf8 c) n then c ∷ later else []

unfoldable pub drop_bytes : ℕ → List ℕ → List ℕ
unfolding len_utf8
drop_bytes n [] = []
drop_bytes n (c ∷ cs) =
    let later = drop_bytes (n - len_utf8 c) cs in if leb (len_utf8 c) n then later else c ∷ cs

-- what is behind the last newline, `&prefix[line_start..]`
unfoldable pub last_line : List ℕ → List ℕ
unfolding newlines
last_line [] = []
last_line (c ∷ cs) =
    let later = last_line cs in
    if newlines cs == 0 then (if c == newline then cs else c ∷ cs) else later

unfoldable pub byte_to_pos : List ℕ → ℕ → Position
unfolding clamp_to_boundary take_bytes newlines last_line units
byte_to_pos src offset =
    let prefix = take_bytes (clamp_to_boundary src offset) src in
    record { line = newlines prefix % 2 ^ 32; character = units (last_line prefix) % 2 ^ 32 }

-- The first loop of `pos_to_byte`: the line that was reached, and where the wanted one starts if it
-- was.
unfoldable pub find_line : ℕ → ℕ → ℕ → List ℕ → ℕ × Option ℕ
unfolding len_utf8
find_line target line i [] = (line, none)
find_line target line i (c ∷ cs) =
    let below = if c == newline then suc line % 2 ^ 32 else line in
    let later = find_line target below (i + len_utf8 c) cs in
    if line == target
    then (line, some i)
    else (if below == target then (below, some (i + len_utf8 c)) else later)

abbrev pub start_of : ℕ → List ℕ → ℕ × Option ℕ → ℕ
start_of target src (line, some start) = start
start_of target src (line, none) = if ltb 0 target && ltb line target then bytes src else 0

-- the second loop
unfoldable pub walk : ℕ → ℕ → List ℕ → ℕ
unfolding len_utf8 len_utf16
walk chars_left idx [] = idx
walk chars_left idx (c ∷ cs) =
    let later = walk (chars_left - len_utf16 c) (idx + len_utf8 c) cs in
    if chars_left == 0 then idx else later

unfoldable pub pos_to_byte : List ℕ → Position → ℕ
unfolding find_line walk drop_bytes bytes
pos_to_byte src pos =
    let line_start = start_of pos.line src (find_line pos.line 0 0 src) in
    walk pos.character line_start (drop_bytes line_start src)

pub record Range : Type 0 where
  pub start : Position
  pub end : Position

unfoldable pub span_to_range : List ℕ → ℕ × ℕ → Range
unfolding byte_to_pos
span_to_range src (start, end) = record { start = byte_to_pos src start; end = byte_to_pos src end }
