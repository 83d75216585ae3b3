-- ===== src/Research/Splits/Separation.antt =====
-- Training, validation and test rows are apart.
use investment_research_engi.Base.{
  ℕ, zero, suc, ◌+◌, ◌*◌, ◌≤◌, ◌<◌, ◌≡◌, refl, Bool, true, ◌&&◌, List, [], ◌∷◌, ltb, arith, all,
}
use investment_research_engi.Research.Policy.{day}
use investment_research_engi.Research.Splits.{
  PurgedWalkForwardConfig, PurgedWalkForwardSplit, between, split_of, splits_from, split, earliest,
  latest, enough, windows_of,
}

-- Each row of one frame is more than a gap before each row of another.
abbrev pub precedes : ℕ → List ℕ → List ℕ → Bool
precedes gap xs ys = all (λ x. all (λ y. ltb (x + gap) y) ys) xs

abbrev pub is_purged : ℕ → PurgedWalkForwardSplit → Bool
is_purged gap s = precedes gap s.train s.validation && precedes gap s.validation s.test

row-precedes :
    (gap t start end : ℕ) (ys : List ℕ)
    → t + gap < start
    → all (λ y. ltb (t + gap) y) (between start end ys) ≡ true
row-precedes gap t start end [] h = refl
row-precedes gap t start end (y ∷ ys) h = ground (arith, row-precedes gap t start end ys)

between-precedes :
    (gap a b c d : ℕ) (xs ys : List ℕ)
    → b + gap ≤ c
    → precedes gap (between a b xs) (between c d ys) ≡ true
between-precedes gap a b c d [] ys h = refl
between-precedes gap a b c d (x ∷ xs) ys h =
    ground (arith, row-precedes gap x c d ys, between-precedes gap a b c d xs ys)

split_of-is_purged :
    (c : PurgedWalkForwardConfig) (first : ℕ) (frame : List ℕ) (fold : ℕ)
    → is_purged (c.purge_days * day) (split_of c first frame fold) ≡ true
split_of-is_purged c first frame fold =
    let w = windows_of c first fold in
    ground (
      arith,
      between-precedes (c.purge_days * day) w.train_start w.train_end w.validation_start
          w.validation_end frame frame,
      between-precedes (c.purge_days * day) w.validation_start w.validation_end w.test_start
          w.test_end frame frame,
    )

splits_from-is_purged :
    (c : PurgedWalkForwardConfig) (first last : ℕ) (frame : List ℕ) (fuel fold : ℕ)
    → all (is_purged (c.purge_days * day)) (splits_from c first last frame fuel fold) ≡ true
unfolding splits_from
splits_from-is_purged c first last frame zero fold = refl
splits_from-is_purged c first last frame (suc fuel) fold = ground (
  arith,
  split_of-is_purged c first frame fold,
  splits_from-is_purged c first last frame fuel (suc fold),
)

-- In every split, each training row is more than the purge gap before each validation row, and each
-- validation row more than that gap before each test row.
pub split-is_purged :
    (c : PurgedWalkForwardConfig) (frame : List ℕ)
    → all (is_purged (c.purge_days * day)) (split c frame) ≡ true
unfolding split
split-is_purged c [] = refl
split-is_purged c (t ∷ ts) =
    splits_from-is_purged c (earliest t ts) (latest t ts) (t ∷ ts) (enough c (latest t ts)) 0
