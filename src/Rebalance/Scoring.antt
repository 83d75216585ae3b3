-- ===== src/Rebalance/Scoring.antt =====
-- The scores of candidates in src/investment/crypto/application/dynamic_paper_rebalance.py:
-- `_score_assessments`, `_with_score_evidence`, `_expected_relative_returns` and `_percentile_ranks`.
use investment_research_engi.Base.{
  ℕ, ◌≡◌, arith, ◌+◌, ◌-◌, String, Bool, Option, none, some, List, [], ◌∷◌, ◌&&◌, if◌then◌else◌,
  str_eq, length, is_some,
}
use investment_research_engi.Base.Dict.{Dict, lookup, insert}
use investment_research_engi.Base.Result.{Result, ok, err, ◌>>=◌, >>=-returns}
use investment_research_engi.Base.Sorting.{sort_by}
use investment_research_engi.Decimal.{integer}
use investment_research_engi.Rebalance.Floats.{Floats, zero_f, min_f, max_f, eq_f, key_before}
use investment_research_engi.Rebalance.Policy.{DynamicUniversePolicy, round_trip_cost_hurdle, point}
use investment_research_engi.Rebalance.Candidates.{CandidateAssessment, most_liquid}
use investment_research_engi.Rebalance.Gates.{RebalanceError}
use investment_research_engi.Rebalance.Guards.{is_uncalibrated}

abbrev or_raise {ℓ} : {A : Type ℓ} → Option A → RebalanceError → Result RebalanceError A
or_raise none e = err e
or_raise (some a) e = ok a

unfoldable pub traverse {ℓ κ} :
    {A : Type ℓ} {B : Type κ}
    → (A → Result RebalanceError B)
    → List A
    → Result RebalanceError (List B)
traverse f [] = ok []
traverse f (x ∷ xs) = do y ← f x; ys ← traverse f xs; ok (y ∷ ys)

pub traverse-cons {ℓ κ} :
    {A : Type ℓ} {B : Type κ} (f : A → Result RebalanceError B) (x : A) (xs : List A) (out : List B)
    → traverse f (x ∷ xs) ≡ ok out
    → (y : B) × (ys : List B) × (f x ≡ ok y) × (traverse f xs ≡ ok ys) × (out ≡ y ∷ ys)
unfolding traverse
traverse-cons f x xs out h =
    let (y, first, h₁) = >>=-returns (f x) _ h in
    let (ys, rest, h₂) = >>=-returns (traverse f xs) _ h₁ in (y, ys, first, rest, ground arith)

module _ (fs : Floats) where
  open fs use {Float, lt_f, add_f, sub_f, mul_f, div_f, of_decimal, quotient}

  abbrev one_f : Float
  one_f = of_decimal (integer 1)

  -- Runs of equal values, in a list that is sorted by value.
  abbrev join : Float × String → List (List (Float × String)) → List (List (Float × String))
  join x [] = (x ∷ []) ∷ []
  join x ([] ∷ gs) = (x ∷ []) ∷ gs
  join x ((y ∷ ys) ∷ gs) = if eq_f fs x.0 y.0 then (x ∷ y ∷ ys) ∷ gs else (x ∷ []) ∷ (y ∷ ys) ∷ gs

  unfoldable pub runs_of : List (Float × String) → List (List (Float × String))
  runs_of [] = []
  runs_of (x ∷ xs) = join x (runs_of xs)

  abbrev rank_run : Float → List (Float × String) → Dict Float → Dict Float
  rank_run rank [] ranks = ranks
  rank_run rank (x ∷ xs) ranks = rank_run rank xs (insert x.1 rank ranks)

  -- The outer loop from index `start`, of a list whose last index is `last`.
  abbrev rank_runs : ℕ → ℕ → List (List (Float × String)) → Dict Float → Dict Float
  rank_runs start last [] ranks = ranks
  rank_runs start last (g ∷ gs) ranks =
      let average_index = quotient (start + (start + length g) - 1) 2 in
      rank_runs (start + length g) last gs
        (rank_run (div_f average_index (of_decimal (integer last))) g ranks)

  abbrev ranks_among : List (Float × String) → Dict Float
  ranks_among (x ∷ []) = (x.1, of_decimal (point 5 1)) ∷ []
  ranks_among ordered = rank_runs 0 (length ordered - 1) (runs_of ordered) []

  abbrev field_values :
      (CandidateAssessment fs → Option Float)
      → List (CandidateAssessment fs)
      → List (Float × String)
  field_values field [] = []
  field_values field (x ∷ xs) = with_value (field x) x.pair (field_values field xs)
    where
      with_value : Option Float → String → List (Float × String) → List (Float × String)
      with_value none pair rest = rest
      with_value (some v) pair rest = (v, pair) ∷ rest

  -- `_percentile_ranks`, of values that are all there.
  unfoldable pub percentile_ranks :
      (CandidateAssessment fs → Option Float) → List (CandidateAssessment fs) → Dict Float
  unfolding runs_of sort_by
  percentile_ranks field values = ranks_among (sort_by (key_before fs) (field_values field values))

  module _ (policy : DynamicUniversePolicy fs) where
    -- `_expected_relative_returns`
    unfoldable pub expected_relative_returns :
        Float → Result RebalanceError (Option Float × Option Float)
    expected_relative_returns score =
        if is_uncalibrated fs policy
        then ok (none, none)
        else if str_eq policy.expected_return_calibration_mode "SCORE_LINEAR"
        then ok (
          some (
              add_f policy.expected_return_1h_intercept
                (mul_f policy.expected_return_1h_score_slope score)),
          some (
              add_f policy.expected_return_4h_intercept
                (mul_f policy.expected_return_4h_score_slope score)),
        )
        else err RebalanceError.unsupported_calibration

    -- The score after the penalty, and the penalty.
    abbrev excess_of : Float → Float → Float
    excess_of raw threshold = min_f fs one_f (div_f (sub_f raw threshold) (sub_f one_f threshold))

    abbrev penalized : Float → Option Float → Float × Float
    penalized raw none = (raw, zero_f fs)
    penalized raw (some threshold) =
        let excess = excess_of raw threshold in
        let penalty = mul_f policy.extreme_score_maximum_penalty (mul_f excess excess) in
        if lt_f threshold raw
        then (max_f fs (zero_f fs) (sub_f raw penalty), penalty)
        else (raw, zero_f fs)

    abbrev fee_adjusted : Option Float × Option Float → Option Float
    fee_adjusted (some expected_1h, some expected_4h) =
        some (sub_f (min_f fs expected_1h expected_4h) (round_trip_cost_hurdle fs policy))
    fee_adjusted _ = none

    -- `_with_score_evidence`
    unfoldable pub with_score_evidence :
        CandidateAssessment fs → Option Float → Result RebalanceError (CandidateAssessment fs)
    unfolding expected_relative_returns round_trip_cost_hurdle
    with_score_evidence item none =
        ok (record item { score = none; raw_score = none; score_penalty = none })
    with_score_evidence item (some raw) = do
      let (score, penalty) = penalized raw policy.extreme_score_penalty_threshold
      returns ← expected_relative_returns score
      ok (record item {
        score = some score;
        raw_score = some raw;
        score_penalty = some penalty;
        expected_relative_return_1h = returns.0;
        expected_relative_return_4h = returns.1;
        fee_adjusted_expected_return = fee_adjusted returns;
      })

    abbrev is_measured : CandidateAssessment fs → Bool
    is_measured item =
        item.eligible
        && is_some item.momentum_1h
        && is_some item.momentum_4h
        && is_some item.momentum_24h
        && is_some item.volatility

    -- `weight * (1 - ranks[pair])`
    abbrev weighted : Float → Dict Float → String → Result RebalanceError Float
    weighted weight ranks pair =
        or_raise (lookup pair ranks) RebalanceError.missing_rank >>= λ rank.
        ok (mul_f weight (sub_f one_f rank))

    abbrev raw_score_in :
        List (CandidateAssessment fs) → CandidateAssessment fs → Result RebalanceError Float
    raw_score_in liquid item = do
      a ←
          weighted policy.momentum_1h_weight (percentile_ranks (λ x. x.momentum_1h) liquid)
            item.pair
      b ←
          weighted policy.momentum_4h_weight (percentile_ranks (λ x. x.momentum_4h) liquid)
            item.pair
      c ←
          weighted policy.momentum_24h_weight (percentile_ranks (λ x. x.momentum_24h) liquid)
            item.pair
      d ← weighted policy.volatility_weight (percentile_ranks (λ x. x.volatility) liquid) item.pair
      ok (add_f (add_f (add_f a b) c) d)

    abbrev raw_scores_of :
        List (CandidateAssessment fs)
        → List (CandidateAssessment fs)
        → Dict Float
        → Result RebalanceError (Dict Float)
    raw_scores_of liquid [] scores = ok scores
    raw_scores_of liquid (x ∷ xs) scores =
        raw_score_in liquid x >>= λ score. raw_scores_of liquid xs (insert x.pair score scores)

    abbrev rank_scored :
        List (CandidateAssessment fs)
        → List (CandidateAssessment fs)
        → Result RebalanceError (List (CandidateAssessment fs))
    rank_scored [] assessments = ok assessments
    rank_scored (x ∷ xs) assessments = do
      scores ← raw_scores_of (x ∷ xs) (x ∷ xs) []
      traverse (λ item. with_score_evidence item (lookup item.pair scores)) assessments

    -- `_score_assessments`
    unfoldable pub score_assessments :
        List (CandidateAssessment fs) → Result RebalanceError (List (CandidateAssessment fs))
    unfolding traverse percentile_ranks with_score_evidence lookup
    score_assessments assessments =
        if str_eq policy.scoring_method "RAW_MOMENTUM"
        then traverse (λ item. with_score_evidence item item.score) assessments
        else if str_eq policy.scoring_method "CALM_PULLBACK_RANK"
        then rank_scored (most_liquid fs policy.maximum_candidates is_measured assessments)
            assessments
        else err RebalanceError.unsupported_scoring_method
