-- ===== src/Rebalance/Variants.antt =====
-- `_entry_signal_eligibility` and `_selection_variants` of
-- src/investment/crypto/application/dynamic_paper_rebalance.py: what other rules would have selected.
use investment_research_engi.Base.{
  ◌*◌, ◌≡◌, ap, ◌∙◌, String, Bool, true, Option, none, some, List, [], ◌∷◌, ◌&&◌, not,
  if◌then◌else◌, str_eq, keep, map, is_some, arith,
}
use investment_research_engi.Base.Result.{Result, ok, ◌>>=◌}
use investment_research_engi.Rebalance.Floats.{Floats}
use investment_research_engi.Rebalance.Policy.{
  DynamicUniversePolicy, effective_entry_score_hurdle, point, below_zero, hour, literal,
}
use investment_research_engi.Rebalance.Policy.Versions.{v2_6}
use investment_research_engi.Rebalance.Candidates.{
  CandidateAssessment, SelectionVariantResult, scored,
}
use investment_research_engi.Rebalance.Gates.{
  RebalanceError, Overlay, raw_derivatives_entry_block_reason, crowding_entry_block_reason,
  derivatives_entry_block_reason,
}
use investment_research_engi.Rebalance.Guards.{
  entry_guard_reason, entry_volatility_cap, fee_adjusted_entry_return_passes,
}
use investment_research_engi.Rebalance.Scoring.{with_score_evidence, traverse, traverse-cons}
use investment_research_engi.Rebalance.Selection.{Situation, is_above}
use investment_research_engi.Rebalance.Selection.Evidence.{Selection, select_detailed}

module _ (fs : Floats) (policy : DynamicUniversePolicy fs) where
  open fs use {Float}

  abbrev signals : Option Float → CandidateAssessment fs → Bool
  signals cap item =
      is_above fs item.score (effective_entry_score_hurdle fs policy)
      && not (is_some (entry_guard_reason fs policy item cap))
      && fee_adjusted_entry_return_passes fs policy item

  abbrev signals_in : Option String → List (CandidateAssessment fs) → List String
  signals_in (some reason) items = []
  signals_in none items =
      map (λ x. x.pair) (keep (signals (entry_volatility_cap fs policy items)) items)

  -- `_entry_signal_eligibility`
  unfoldable pub entry_signal_eligibility :
      List (CandidateAssessment fs) → Option String → List String
  unfolding scored
  entry_signal_eligibility assessments reason =
      signals_in reason (scored fs policy.maximum_candidates assessments)

  -- The situation under another block reason.
  abbrev pub under_reason : Situation fs → Option String → Situation fs
  under_reason s reason = record s { entry_block_reason = reason }

  unfoldable pub variant :
      DynamicUniversePolicy fs
      → Situation fs
      → List (CandidateAssessment fs)
      → String × Option String
      → Result RebalanceError (SelectionVariantResult fs)
  unfolding select_detailed
  variant rules s assessments (variant_id, reason) =
      select_detailed fs rules (under_reason s reason) assessments >>= λ out.
      ok (record { variant_id = variant_id; selected = out.selected })

  -- The rules of version 2.5 as a control of version 2.6.
  abbrev control_of_2_6 : DynamicUniversePolicy fs
  control_of_2_6 = record policy {
    minimum_entry_momentum_4h = some (literal fs (point 0 0));
    maximum_entry_momentum_4h = some (literal fs (point 15 3));
    maximum_entry_volatility = some (literal fs (point 12 3));
    maximum_entry_volatility_quantile = some (literal fs (point 8 1));
    maximum_holding_period = some (4 * hour);
    extreme_score_penalty_threshold = some (literal fs (point 8 1));
    extreme_score_maximum_penalty = literal fs (point 25 2);
    derivatives_overlay_mode = "SHADOW";
    derivatives_minimum_funding_rate = none;
    derivatives_minimum_basis_input_rate = none;
    derivatives_minimum_global_long_short_ratio = none;
  }

  abbrev control_of_2_5 : DynamicUniversePolicy fs
  control_of_2_5 = record policy { minimum_entry_momentum_4h = some (literal fs (below_zero 3 2)) }

  abbrev rescored : CandidateAssessment fs → Result RebalanceError (CandidateAssessment fs)
  rescored item =
      if is_some item.raw_score
      then with_score_evidence fs control_of_2_6 item item.raw_score
      else ok item

  abbrev only :
      Result RebalanceError (SelectionVariantResult fs)
      → Result RebalanceError (List (SelectionVariantResult fs))
  only result = result >>= λ r. ok (r ∷ [])

  abbrev control_variant :
      String
      → DynamicUniversePolicy fs
      → Situation fs
      → Option (Overlay fs)
      → List (CandidateAssessment fs)
      → Result RebalanceError (List (SelectionVariantResult fs))
  control_variant variant_id rules s overlay assessments =
      only
        (variant rules s assessments (variant_id, derivatives_entry_block_reason fs rules overlay))

  -- `variant_reasons`
  abbrev pub reasons_of_2_7 : Option (Overlay fs) → List (String × Option String)
  reasons_of_2_7 overlay =
      ("v2.7a-momentum-only", none)
      ∷ ("v2.7b-raw-derivatives", raw_derivatives_entry_block_reason fs policy overlay)
      ∷ ("v2.7c-crowding-only", crowding_entry_block_reason fs policy overlay)
      ∷ ("v2.7d-production-gates", derivatives_entry_block_reason fs policy overlay)
      ∷ []

  -- `_selection_variants`
  unfoldable pub selection_variants :
      Situation fs
      → List (CandidateAssessment fs)
      → Option (Overlay fs)
      → Result RebalanceError (List (SelectionVariantResult fs))
  unfolding traverse variant with_score_evidence derivatives_entry_block_reason
  selection_variants s assessments overlay =
      if str_eq policy.strategy_version "dynamic-intraday-v2.7-accuracy-v1"
      then traverse (variant policy s assessments) (reasons_of_2_7 overlay)
      else if str_eq policy.strategy_version "dynamic-intraday-v2.5"
      then control_variant "v2.4-rule-control" control_of_2_5 s overlay assessments
      else if str_eq policy.strategy_version "dynamic-intraday-v2.6"
      then (traverse rescored assessments >>= λ items.
          control_variant "v2.5-rule-control" control_of_2_6 s overlay items)
      else if str_eq policy.strategy_version "dynamic-intraday-v2.7"
      then control_variant "v2.6-rule-control" (v2_6 fs) s overlay assessments
      else ok []

  nothing_left :
      {B : Type 0} (f : String × Option String → Result RebalanceError B) (out : List B)
      → traverse f [] ≡ ok out
      → out ≡ []
  unfolding traverse
  nothing_left f out h = ground arith

  variant_lem :
      (s : Situation fs) (assessments : List (CandidateAssessment fs)) (out : Selection fs)
      (made : SelectionVariantResult fs) (variant_id : String) (reason : Option String)
      → variant policy s assessments (variant_id, reason) ≡ ok made
      → select_detailed fs policy (under_reason s reason) assessments ≡ ok out
      → made ≡ record { variant_id = variant_id; selected = out.selected }
  unfolding variant
  variant_lem s assessments out made variant_id reason h k = let h' = rw k at h in ground arith

  -- The variant with the production gates is the selection under the reason of the production gates.
  pub selection_variants-production :
      (s : Situation fs) (assessments : List (CandidateAssessment fs))
      (overlay : Option (Overlay fs)) (variants : List (SelectionVariantResult fs))
      (out : Selection fs)
      → str_eq policy.strategy_version "dynamic-intraday-v2.7-accuracy-v1" ≡ true
      → selection_variants s assessments overlay ≡ ok variants
      → select_detailed fs policy
          (under_reason s (derivatives_entry_block_reason fs policy overlay))
          assessments
        ≡ ok out
      → (a b c : SelectionVariantResult fs) × (variants
          ≡ a
            ∷ b
            ∷ c
            ∷ record { variant_id = "v2.7d-production-gates"; selected = out.selected }
            ∷ [])
  unfolding selection_variants
  selection_variants-production s assessments overlay variants out version h k =
      let f = variant policy s assessments in
      let h' : traverse f (reasons_of_2_7 overlay) ≡ ok variants = rw version at h in
      let raw : String × Option String =
        ("v2.7b-raw-derivatives", raw_derivatives_entry_block_reason fs policy overlay) in
      let crowding : String × Option String =
        ("v2.7c-crowding-only", crowding_entry_block_reason fs policy overlay) in
      let gates : String × Option String =
        ("v2.7d-production-gates", derivatives_entry_block_reason fs policy overlay) in
      let (a, as', _, h₁, one) =
        traverse-cons f ("v2.7a-momentum-only", none) (raw ∷ crowding ∷ gates ∷ []) variants h' in
      let (b, bs, _, h₂, two) = traverse-cons f raw (crowding ∷ gates ∷ []) as' h₁ in
      let (c, cs, _, h₃, three) = traverse-cons f crowding (gates ∷ []) bs h₂ in
      let (d, ds, last, h₄, four) = traverse-cons f gates [] cs h₃ in
      let empty = nothing_left f ds h₄ in
      let same = variant_lem s assessments out d gates.0 gates.1 last k in
      (
        a,
        b,
        c,
        one
            ∙ ap (λ l. a ∷ l) two
            ∙ ap (λ l. a ∷ b ∷ l) three
            ∙ ap (λ l. a ∷ b ∷ c ∷ l) four
            ∙ ap (λ l. a ∷ b ∷ c ∷ d ∷ l) empty
            ∙ ap (λ v. a ∷ b ∷ c ∷ v ∷ []) same,
      )
