-- ===== src/Rebalance/Candidates.antt =====
-- The values of src/investment/crypto/application/dynamic_paper_rebalance.py that a selection reads and
-- makes, and the orders of its sorts. A pair is its symbol.
use investment_research_engi.Base.{
  ℕ, suc, String, Bool, Option, none, some, List, [], ◌∷◌, ◌&&◌, ◌||◌, keep, take, str_eq, any,
}
use investment_research_engi.Base.Dict.{Dict, lookup, insert}
use investment_research_engi.Base.Order.{str_lt}
use investment_research_engi.Base.Sorting.{sort_by}
use investment_research_engi.Decimal.{Decimal, ◌-d◌, lt_d, eq_d, zero_d}
use investment_research_engi.Rebalance.Floats.{Floats, zero_f, negate, key_before}

-- `pair in pairs`, and `counts.get(pair, 0)`.
abbrev pub is_in : String → List String → Bool
is_in pair pairs = any (λ p. str_eq p pair) pairs

abbrev pub or_default {ℓ} : {A : Type ℓ} → Option A → A → A
or_default none a = a
or_default (some b) a = b

abbrev pub count_of : Dict ℕ → String → ℕ
count_of counts pair = or_default (lookup pair counts) 0

module _ (fs : Floats) where
  open fs use {Float}

  pub record CandidateAssessment : Type 0 where
    pub pair : String
    pub eligible : Bool
    pub reason : String
    pub score : Option Float
    pub average_quote_volume : Option Decimal
    pub latest_price : Option Decimal
    pub momentum_1h : Option Float
    pub momentum_4h : Option Float
    pub momentum_24h : Option Float
    pub volatility : Option Float
    pub reference_at : Option ℕ
    pub raw_score : Option Float
    pub score_penalty : Option Float
    pub expected_relative_return_1h : Option Float
    pub expected_relative_return_4h : Option Float
    pub fee_adjusted_expected_return : Option Float
    pub decision_reasons : List String
    -- in microseconds
    pub reference_age : Option ℕ
    pub candidate_confirmation_count : ℕ
    pub entry_signal_eligible : Bool
    pub entry_eligible_confirmation_count : ℕ

  pub record SelectedAsset : Type 0 where
    pub pair : String
    pub score : Float
    pub target_weight : Decimal
    pub reason : String

  pub record SelectionVariantResult : Type 0 where
    pub variant_id : String
    pub selected : List SelectedAsset

  -- `item.score or 0`
  abbrev pub score_or_zero : CandidateAssessment → Float
  score_or_zero item = or_default item.score (zero_f fs)

  abbrev volume_key : CandidateAssessment → Decimal
  volume_key item = zero_d -d or_default item.average_quote_volume zero_d

  -- `key=lambda item: (-(item.average_quote_volume or Decimal("0")), item.pair)`
  unfoldable pub more_liquid : CandidateAssessment → CandidateAssessment → Bool
  more_liquid a b =
      lt_d (volume_key a) (volume_key b)
      || (eq_d (volume_key a) (volume_key b) && str_lt a.pair b.pair)

  -- `key=lambda item: (-float(item.score or 0), item.pair)`
  unfoldable pub better : CandidateAssessment → CandidateAssessment → Bool
  better a b =
      key_before fs (negate fs (score_or_zero a), a.pair) (negate fs (score_or_zero b), b.pair)

  -- `key=lambda item: (float(item.score or 0), item.pair)`
  unfoldable pub weaker : CandidateAssessment → CandidateAssessment → Bool
  weaker a b = key_before fs (score_or_zero a, a.pair) (score_or_zero b, b.pair)

  -- The `maximum` most liquid of those that pass a test.
  abbrev pub most_liquid :
      ℕ → (CandidateAssessment → Bool) → List CandidateAssessment → List CandidateAssessment
  most_liquid maximum p assessments = take maximum (sort_by more_liquid (keep p assessments))

  -- `scored`: the candidates of a selection, the best score first.
  unfoldable pub scored : ℕ → List CandidateAssessment → List CandidateAssessment
  unfolding sort_by
  scored maximum assessments =
      sort_by better (most_liquid maximum (λ item. item.eligible) assessments)

  -- `{item.pair: rank for rank, item in enumerate(scored, start=1)}`
  unfoldable pub ranks_from : ℕ → List CandidateAssessment → Dict ℕ → Dict ℕ
  ranks_from rank [] ranks = ranks
  ranks_from rank (x ∷ xs) ranks = ranks_from (suc rank) xs (insert x.pair rank ranks)
