-- ===== src/Env/Registry.antt =====
-- The registry of weak frame references in crates/yps-interpreter/src/environment.rs, which the
-- collector asks for the frames that are still alive.
use yoptascript_rs.Prelude.{
  ℕ, ◌*◌, ◌<◌, ◌≤◌, ◌≡◌, ◌⊎◌, refl, Bool, true, List, [], ◌∷◌, ◌++◌, length, arith, Bool-cases, leb,
  inl, inr,
}
use yoptascript_rs.Env.Frame.{FrameRegistry}
use yoptascript_rs.Env.Ops.{retain, register, live_frames, prune_and_count, new_registry, pruned}

retain-retain :
    (p q : ℕ → Bool) (xs : List ℕ)
    → ((x : ℕ) → p x ≡ true → q x ≡ true)
    → retain p (retain q xs) ≡ retain p xs
unfolding retain
retain-retain p q [] h = refl
retain-retain p q (x ∷ xs) h = ground (arith, retain-retain p q xs h, h x)

length-retain-le : (p : ℕ → Bool) (xs : List ℕ) → length (retain p xs) ≤ length xs
unfolding retain
length-retain-le p [] = omega arith
length-retain-le p (x ∷ xs) = ground (arith, length-retain-le p xs)

-- Pruning is not observed: while the dead stay dead, the live frames are those that were ever
-- registered, in order, whether or not a registration or a count pruned the list.
pub prune_unobserved :
    (strong strong' : ℕ → Bool) (a : ℕ) (r : FrameRegistry)
    → ((x : ℕ) → strong' x ≡ true → strong x ≡ true)
    → (live_frames strong' (register strong a r) ≡ retain strong' (r.frames ++ a ∷ []))
      × (live_frames strong' (prune_and_count strong r).0 ≡ live_frames strong' r)
      × ((prune_and_count strong r).1 ≡ length (live_frames strong r))
unfolding live_frames register prune_and_count
prune_unobserved strong strong' a r h =
    let frames = r.frames ++ a ∷ [] in
    (
      ground (arith, retain-retain strong' strong frames h),
      retain-retain strong' strong r.frames h,
      refl,
    )

abbrev pub IsBounded : FrameRegistry → Type 0
IsBounded r = length r.frames < r.prune_at

pruned-IsBounded : (strong : ℕ → Bool) (xs : List ℕ) → IsBounded (pruned strong xs)
pruned-IsBounded strong xs = ground arith

-- the mark that a pruning sets: twice the frames it kept, or 1024 if that is more
abbrev pub IsMarked : FrameRegistry → Type 0
IsMarked r =
    ((r.prune_at ≡ 1024) × (length r.frames * 2 ≤ 1024))
    ⊎ ((r.prune_at ≡ length r.frames * 2) × (1024 ≤ length r.frames * 2))

pruned-IsMarked : (strong : ℕ → Bool) (xs : List ℕ) → IsMarked (pruned strong xs)
pruned-IsMarked strong xs = ground arith

-- If the list is shorter than the mark at which it is pruned, it stays so when a frame is
-- registered, and when the frames are counted. A registration leaves the mark as it is, or prunes,
-- as a count does; a pruning leaves the mark at twice the frames that it kept, or at 1024 if that
-- is more. A new registry is empty, below a mark of 1024.
pub register-IsBounded :
    (strong : ℕ → Bool) (a : ℕ) (r : FrameRegistry)
    → IsBounded r
    → IsBounded (register strong a r)
      × (((register strong a r).prune_at ≡ r.prune_at) ⊎ IsMarked (register strong a r))
      × IsBounded (prune_and_count strong r).0
      × IsMarked (prune_and_count strong r).0
      × IsBounded new_registry
      × IsMarked new_registry
unfolding register prune_and_count new_registry
register-IsBounded strong a r h = (
  elim (Bool-cases (leb r.prune_at (length (r.frames ++ a ∷ [])))) [
    | inl full ↦ rw full (pruned-IsBounded strong (r.frames ++ a ∷ []))
    | inr room ↦ rw room (ground arith)
  ],
  elim (Bool-cases (leb r.prune_at (length (r.frames ++ a ∷ [])))) [
    | inl full ↦ rw full (inr (pruned-IsMarked strong (r.frames ++ a ∷ [])))
    | inr room ↦ rw room (inl refl)
  ],
  pruned-IsBounded strong r.frames,
  pruned-IsMarked strong r.frames,
  omega arith,
  inl (refl, omega arith),
)
