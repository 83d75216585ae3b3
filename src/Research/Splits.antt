-- ===== src/Research/Splits.antt =====
-- src/investment/crypto/ml/split.py: purged walk-forward splits. A row is its `as_of`, the column that
-- the splitter reads; a frame is a list of rows. The loop runs on fuel, one unit for each fold.
pub mod Separation
pub mod Termination
use investment_research_engi.Base.{
  ℕ, zero, suc, ◌+◌, ◌-◌, ◌*◌, ◌/◌, min, max, Bool, true, false, if◌then◌else◌, ◌&&◌, ◌||◌, not,
  List, [], ◌∷◌, leb, ltb, ◌==◌, keep,
}
use investment_research_engi.Base.Result.{Result, ok, err, ◌>>=◌, ◌>>◌, raise_if}
use investment_research_engi.Research.Policy.{day}

pub data WalkForwardMode : Type 0 where
  rolling expanding : WalkForwardMode

pub record PurgedWalkForwardConfig : Type 0 where
  pub train_days : ℕ
  pub validation_days : ℕ
  pub test_days : ℕ
  pub step_days : ℕ
  pub purge_days : ℕ
  pub mode : WalkForwardMode

pub data SplitError : Type 0 where
  duration_not_positive : SplitError

-- `PurgedWalkForwardConfig.__post_init__`
unfoldable pub validate_durations :
    PurgedWalkForwardConfig → Result SplitError PurgedWalkForwardConfig
validate_durations c = do
  raise_if
      (min c.train_days (min c.validation_days (min c.test_days (min c.step_days c.purge_days)))
        == 0)
      SplitError.duration_not_positive
  ok c

pub record PurgedWalkForwardSplit : Type 0 where
  pub fold : ℕ
  pub train : List ℕ
  pub validation : List ℕ
  pub test : List ℕ

-- The boundaries of a fold.
pub record Windows : Type 0 where
  pub train_start : ℕ
  pub train_end : ℕ
  pub validation_start : ℕ
  pub validation_end : ℕ
  pub test_start : ℕ
  pub test_end : ℕ

abbrev train_start_of : WalkForwardMode → ℕ → ℕ → ℕ
train_start_of WalkForwardMode.expanding first offset = first
train_start_of WalkForwardMode.rolling first offset = first + offset

abbrev pub windows_of : PurgedWalkForwardConfig → ℕ → ℕ → Windows
windows_of c first fold =
    let offset = fold * c.step_days * day in
    let train_end = first + c.train_days * day + offset in
    let validation_start = train_end + c.purge_days * day in
    let validation_end = validation_start + c.validation_days * day in
    let test_start = validation_end + c.purge_days * day in
    record {
      train_start = train_start_of c.mode first offset;
      train_end = train_end;
      validation_start = validation_start;
      validation_end = validation_end;
      test_start = test_start;
      test_end = test_start + c.test_days * day;
    }

abbrev pub between : ℕ → ℕ → List ℕ → List ℕ
between start end = keep (λ t. leb start t && ltb t end)

abbrev pub split_of : PurgedWalkForwardConfig → ℕ → List ℕ → ℕ → PurgedWalkForwardSplit
split_of c first frame fold =
    let w = windows_of c first fold in
    record {
      fold = fold;
      train = between w.train_start w.train_end frame;
      validation = between w.validation_start w.validation_end frame;
      test = between w.test_start w.test_end frame;
    }

abbrev is_empty_frame : List ℕ → Bool
is_empty_frame [] = true
is_empty_frame (_ ∷ _) = false

abbrev has_empty : PurgedWalkForwardSplit → Bool
has_empty s = is_empty_frame s.train || is_empty_frame s.validation || is_empty_frame s.test

-- The two tests that break the loop.
abbrev pub is_last : PurgedWalkForwardConfig → ℕ → ℕ → List ℕ → ℕ → Bool
is_last c first last frame fold =
    ltb (last + day) (windows_of c first fold).test_end || has_empty (split_of c first frame fold)

abbrev pub next_split :
    Bool → PurgedWalkForwardSplit → List PurgedWalkForwardSplit → List PurgedWalkForwardSplit
next_split true s rest = []
next_split false s rest = s ∷ rest

-- `while True`
unfoldable pub splits_from :
    PurgedWalkForwardConfig → ℕ → ℕ → List ℕ → ℕ → ℕ → List PurgedWalkForwardSplit
splits_from c first last frame zero fold = []
splits_from c first last frame (suc fuel) fold =
    next_split (is_last c first last frame fold) (split_of c first frame fold)
      (splits_from c first last frame fuel (suc fold))

unfoldable pub earliest : ℕ → List ℕ → ℕ
earliest t [] = t
earliest t (x ∷ xs) = earliest (min t x) xs

unfoldable pub latest : ℕ → List ℕ → ℕ
latest t [] = t
latest t (x ∷ xs) = latest (max t x) xs

-- More folds than end by a time.
abbrev pub enough : PurgedWalkForwardConfig → ℕ → ℕ
enough c last = suc ((last + day) / day)

-- `split`
unfoldable pub split : PurgedWalkForwardConfig → List ℕ → List PurgedWalkForwardSplit
unfolding splits_from earliest latest
split c [] = []
split c (t ∷ ts) =
    let last = latest t ts in splits_from c (earliest t ts) last (t ∷ ts) (enough c last) 0
