-- ===== src/Research/Splits/Termination.antt =====
-- The loop of `split` ends by itself, before its fuel does.
use investment_research_engi.Base.{
  ℕ, zero, suc, ◌+◌, ◌*◌, ◌≤◌, ◌<◌, ◌≡◌, refl, true, List, [], ◌∷◌, arith, ap,
}
use native.Mathlib.Nat.{mul-suc}
use investment_research_engi.Research.Splits.{
  PurgedWalkForwardConfig, splits_from, split, earliest, latest, is_last, enough, split_of,
  next_split,
}

le_times : (a s : ℕ) → 0 < s → a ≤ a * s
le_times a zero h = absurd (omega arith)
le_times a (suc s) h = omega (arith, mul-suc a s)

-- A fold past the last day breaks the loop.
late-is_last :
    (c : PurgedWalkForwardConfig) (first last : ℕ) (frame : List ℕ) (fold : ℕ)
    → 0 < c.step_days
    → enough c last ≤ fold
    → is_last c first last frame fold ≡ true
late-is_last c first last frame fold positive late =
    ground (arith, le_times fold c.step_days positive)

late-nothing :
    (c : PurgedWalkForwardConfig) (first last : ℕ) (frame : List ℕ) (fuel fold : ℕ)
    → 0 < c.step_days
    → enough c last ≤ fold
    → splits_from c first last frame fuel fold ≡ []
unfolding splits_from
late-nothing c first last frame zero fold positive late = refl
late-nothing c first last frame (suc fuel) fold positive late =
    rw (late-is_last c first last frame fold positive late)

splits_from-enough :
    (c : PurgedWalkForwardConfig) (first last : ℕ) (frame : List ℕ) (fuel extra fold : ℕ)
    → 0 < c.step_days
    → enough c last ≤ fold + fuel
    → splits_from c first last frame (fuel + extra) fold ≡ splits_from c first last frame fuel fold
unfolding splits_from
splits_from-enough c first last frame zero extra fold positive late =
    let none_added : 0 + extra ≡ extra = omega arith in
    rw none_added (late-nothing c first last frame extra fold positive (omega arith))
splits_from-enough c first last frame (suc fuel) extra fold positive late =
    let one_more : suc fuel + extra ≡ suc (fuel + extra) = omega arith in
    rw one_more (
      ap (λ rest. next_split (is_last c first last frame fold) (split_of c first frame fold) rest)
        (splits_from-enough c first last frame fuel extra (suc fold) positive (omega arith)))

-- The fuel of `split` is enough: where the step is positive, the loop with any more fuel gives the same
-- splits, since it has broken by then.
pub split-enough :
    (c : PurgedWalkForwardConfig) (t : ℕ) (ts : List ℕ) (extra : ℕ)
    → 0 < c.step_days
    → splits_from c (earliest t ts) (latest t ts) (t ∷ ts) (enough c (latest t ts) + extra) 0
      ≡ split c (t ∷ ts)
unfolding split
split-enough c t ts extra positive =
    splits_from-enough c (earliest t ts) (latest t ts) (t ∷ ts) (enough c (latest t ts)) extra 0
      positive (omega arith)
