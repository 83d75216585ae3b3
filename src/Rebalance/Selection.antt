-- ===== src/Rebalance/Selection.antt =====
-- `_select_detailed` of src/investment/crypto/application/dynamic_paper_rebalance.py: which assets the
-- portfolio is to hold.
pub mod Evidence
pub mod Rounds
pub mod Outcome
pub mod Rights
pub mod Keys
pub mod Gated
use investment_research_engi.Base.{
  ℕ, zero, suc, ◌-◌, String, Bool, true, false, Option, none, some, List, [], ◌∷◌, ◌++◌, ◌&&◌, ◌||◌,
  not, if◌then◌else◌, str_eq, length, any, keep, take, map, ltb, leb, is_some,
}
use investment_research_engi.Base.Dict.{Dict, lookup, insert}
use investment_research_engi.Base.Order.{str_lt}
use investment_research_engi.Base.Result.{Result, ok, err, ◌>>=◌}
use investment_research_engi.Base.Sorting.{sort_by}
use investment_research_engi.Decimal.{Decimal, ◌*d◌, ◌/d◌, lt_d, integer}
use investment_research_engi.Rebalance.Floats.{Floats, le_f}
use investment_research_engi.Rebalance.Policy.{DynamicUniversePolicy, effective_entry_score_hurdle}
use investment_research_engi.Rebalance.Candidates.{
  CandidateAssessment, SelectedAsset, is_in, or_default, count_of, score_or_zero, better, weaker,
  scored, ranks_from,
}
use investment_research_engi.Rebalance.Gates.{RebalanceError}
use investment_research_engi.Rebalance.Guards.{
  entry_guard_reason, hold_guard_reason, entry_volatility_cap, fee_adjusted_entry_return_passes,
  expected_hold_return_passes, fee_adjusted_replacement_passes, is_uncalibrated,
}

module _ (fs : Floats) where
  open fs use {Float, lt_f, add_f}

  -- The arguments of a selection beside the assessments. A set is the list of its members.
  pub record Situation : Type 0 where
    pub held_pairs : List String
    pub previous_scores : Dict Float
    pub recent_exits : List String
    pub expired : List String
    pub confirmation_counts : Option (Dict ℕ)
    pub concentration_blocked : List String
    pub rolling_loss_blocked : List String
    pub entry_block_reason : Option String

  -- `evidence`, or the KeyError of an append to a pair that it does not have.
  abbrev pub Evidence : Type 0
  Evidence = Result RebalanceError (Dict (List String))

  -- The variables of the loop over the entrants.
  pub record Round : Type 0 where
    pub ranked : List (CandidateAssessment fs)
    pub replacement_blocked : Bool
    pub replacement_return_blocked : Bool
    pub evidence : Evidence

  -- `item.score is not None and item.score > hurdle`
  abbrev pub is_above : Option Float → Float → Bool
  is_above none hurdle = false
  is_above (some score) hurdle = lt_f hurdle score

  -- `ranks[item.pair] <= self.policy.maximum_hold_rank`: a missing rank has raised before.
  abbrev pub is_within : ℕ → Option ℕ → Bool
  is_within limit none = false
  is_within limit (some rank) = leb rank limit

  -- `min(ranked, key=…)` and `ranked.remove(…)`: the first of the weakest, and the others.
  unfoldable pub extract :
      CandidateAssessment fs
      → List (CandidateAssessment fs)
      → CandidateAssessment fs × List (CandidateAssessment fs)
  extract x [] = (x, [])
  extract x (y ∷ ys) =
      let (weakest, rest) = extract y ys in
      if weaker fs weakest x then (weakest, x ∷ rest) else (x, y ∷ ys)

  -- `evidence[pair].append(reason)`
  abbrev appended : String → String → Dict (List String) → Option (List String) → Evidence
  appended pair reason evidence none = err RebalanceError.missing_evidence
  appended pair reason evidence (some reasons) =
      ok (insert pair (reasons ++ (reason ∷ [])) evidence)

  abbrev pub note : String → String → Evidence → Evidence
  note pair reason (err e) = err e
  note pair reason (ok evidence) = appended pair reason evidence (lookup pair evidence)

  abbrev pub note_when : Bool → String → String → Evidence → Evidence
  note_when true pair reason evidence = note pair reason evidence
  note_when false pair reason evidence = evidence

  module _ (policy : DynamicUniversePolicy fs) (s : Situation) where
    abbrev pub hurdle : Float
    hurdle = effective_entry_score_hurdle fs policy

    abbrev pub is_held : CandidateAssessment fs → Bool
    is_held item = is_in item.pair s.held_pairs

    abbrev passed_before : Option Float → ℕ
    passed_before score = if is_above score hurdle then 1 else 0

    -- A pair with no previous score has minus infinity.
    abbrev prior_count_in : Option (Dict ℕ) → String → ℕ
    prior_count_in none pair = passed_before (lookup pair s.previous_scores)
    prior_count_in (some counts) pair = count_of counts pair

    abbrev pub prior_count : CandidateAssessment fs → ℕ
    prior_count item = prior_count_in s.confirmation_counts item.pair

    -- The test of `retained`.
    unfoldable pub is_retained : Dict ℕ → CandidateAssessment fs → Bool
    is_retained ranks item =
        is_held item
        && not (is_in item.pair s.expired)
        && is_above item.score policy.exit_score_hurdle
        && is_within policy.maximum_hold_rank (lookup item.pair ranks)
        && not (is_some (hold_guard_reason fs policy item))
        && expected_hold_return_passes fs policy item

    abbrev pub is_confirmed : CandidateAssessment fs → Bool
    is_confirmed item =
        leb policy.required_entry_confirmations 1
        || leb (policy.required_entry_confirmations - 1) (prior_count item)

    -- The test of `entrants`.
    unfoldable pub is_entrant : Option Float → CandidateAssessment fs → Bool
    is_entrant cap item =
        not (is_held item)
        && not (is_in item.pair s.recent_exits)
        && not (is_in item.pair s.concentration_blocked)
        && not (is_in item.pair s.rolling_loss_blocked)
        && not (is_some s.entry_block_reason)
        && is_above item.score hurdle
        && not (is_some (entry_guard_reason fs policy item cap))
        && fee_adjusted_entry_return_passes fs policy item
        && is_confirmed item

    -- `score_passes`
    abbrev pub outscores : CandidateAssessment fs → CandidateAssessment fs → Bool
    outscores entrant weakest =
        le_f fs (add_f (score_or_zero fs weakest) policy.minimum_replacement_score_advantage)
          (score_or_zero fs entrant)

    abbrev pub settled :
        CandidateAssessment fs
        → CandidateAssessment fs × List (CandidateAssessment fs)
        → Bool
        → Bool
        → Round
        → Round
    settled entrant (weakest, rest) true true round = record round {
      ranked = rest ++ (entrant ∷ []);
      evidence =
          note weakest.pair "REPLACED_BY_STRONGER_FEE_ADJUSTED_CANDIDATE"
            (note entrant.pair "REPLACEMENT_FEE_ADJUSTED_ADVANTAGE_CONFIRMED" round.evidence);
    }
    settled entrant (weakest, rest) score_passes return_passes round = record round {
      replacement_blocked = round.replacement_blocked || not score_passes;
      replacement_return_blocked = round.replacement_return_blocked || not return_passes;
      evidence =
          note_when (not return_passes) entrant.pair "REPLACEMENT_FEE_ADJUSTED_RETURN_INSUFFICIENT"
            (note_when (not score_passes) entrant.pair "REPLACEMENT_SCORE_ADVANTAGE_INSUFFICIENT"
              round.evidence);
    }

    abbrev pub challenge :
        CandidateAssessment fs
        → CandidateAssessment fs × List (CandidateAssessment fs)
        → Round
        → Round
    challenge entrant (weakest, rest) round =
        settled entrant (weakest, rest) (outscores entrant weakest)
          (fee_adjusted_replacement_passes fs policy entrant weakest) round

    -- `min` of nothing raises: there is room for no position at all.
    abbrev pub replace_in :
        CandidateAssessment fs → List (CandidateAssessment fs) → Round → Result RebalanceError Round
    replace_in entrant [] round = err RebalanceError.no_positions
    replace_in entrant (x ∷ xs) round = ok (challenge entrant (extract x xs) round)

    -- One pass of the loop over the entrants.
    unfoldable pub compete : CandidateAssessment fs → Round → Result RebalanceError Round
    unfolding extract
    compete entrant round =
        if ltb (length round.ranked) policy.maximum_positions
        then ok (record round { ranked = round.ranked ++ (entrant ∷ []) })
        else replace_in entrant round.ranked round

    unfoldable pub compete_all : List (CandidateAssessment fs) → Round → Result RebalanceError Round
    unfolding compete
    compete_all [] round = ok round
    compete_all (e ∷ es) round = do next ← compete e round; compete_all es next

    abbrev pub retained_of : List (CandidateAssessment fs) → List (CandidateAssessment fs)
    retained_of items = keep (is_retained (ranks_from fs 1 items [])) items

    -- `ranked` before the loop.
    abbrev pub first_ranked : List (CandidateAssessment fs) → List (CandidateAssessment fs)
    first_ranked items = take policy.maximum_positions (sort_by (better fs) (retained_of items))

    abbrev pub entrants_of : List (CandidateAssessment fs) → List (CandidateAssessment fs)
    entrants_of items = keep (is_entrant (entry_volatility_cap fs policy items)) items

    abbrev pub first_round : List (CandidateAssessment fs) → Dict (List String) → Round
    first_round items evidence = record {
      ranked = first_ranked items;
      replacement_blocked = false;
      replacement_return_blocked = false;
      evidence = ok evidence;
    }

    abbrev reason_of : CandidateAssessment fs → String
    reason_of item =
        if is_held item
        then if is_uncalibrated fs policy
          then "HELD_WITHIN_EXIT_HYSTERESIS"
          else "HELD_WITH_POSITIVE_EXPECTED_RELATIVE_RETURN"
        else if is_uncalibrated fs policy
        then "ENTRY_CONFIRMED_ABOVE_COST_HURDLE"
        else "ENTRY_CONFIRMED_ABOVE_FEE_ADJUSTED_HURDLE"

    abbrev pub selected_at : Decimal → CandidateAssessment fs → SelectedAsset fs
    selected_at weight item = record {
      pair = item.pair;
      score = score_or_zero fs item;
      target_weight = weight;
      reason = reason_of item;
    }

    abbrev or_division_error : Option Decimal → Result RebalanceError Decimal
    or_division_error none = err RebalanceError.division_by_zero
    or_division_error (some d) = ok d

    abbrev lesser : Decimal → Decimal → Decimal
    lesser a b = if lt_d b a then b else a

    -- `total_invested / Decimal(len(ranked))`
    abbrev pub weight_of : ℕ → Option Decimal
    weight_of n =
        lesser policy.invested_fraction (policy.maximum_asset_weight *d integer n) /d integer n

    -- The selected assets of what the loop leaves.
    unfoldable pub weigh :
        List (CandidateAssessment fs) → Result RebalanceError (List (SelectedAsset fs))
    weigh [] = ok []
    weigh (x ∷ xs) = do
      weight ← or_division_error (weight_of (length (x ∷ xs)))
      ok (map (selected_at weight) (x ∷ xs))

    -- The selection among the scored items, with the round that the loop ends in.
    unfoldable pub select_among :
        List (CandidateAssessment fs)
        → Dict (List String)
        → Result RebalanceError (List (SelectedAsset fs) × Round)
    unfolding compete_all weigh sort_by ranks_from
    select_among items evidence = do
      round ← compete_all (entrants_of items) (first_round items evidence)
      selected ← weigh (sort_by (better fs) round.ranked)
      ok (selected, round)
