-- ===== src/Rebalance/Selection/Evidence.antt =====
-- `_select_detailed` of src/investment/crypto/application/dynamic_paper_rebalance.py: the reasons beside a
-- selection, for each candidate and in all.
use investment_research_engi.Base.{
  ℕ, ◌-◌, String, Bool, true, false, Option, none, some, List, [], ◌∷◌, ◌++◌, ◌&&◌, not,
  if◌then◌else◌, any, ltb,
}
use investment_research_engi.Base.Dict.{Dict, lookup, insert}
use investment_research_engi.Base.Order.{str_lt}
use investment_research_engi.Base.Result.{Result, ok, err, ◌>>=◌}
use investment_research_engi.Base.Sorting.{sort_by}
use investment_research_engi.Derivatives.Overlay.{unique_after}
use investment_research_engi.Rebalance.Floats.{Floats}
use investment_research_engi.Rebalance.Policy.{DynamicUniversePolicy}
use investment_research_engi.Rebalance.Candidates.{
  CandidateAssessment, SelectedAsset, is_in, scored, ranks_from,
}
use investment_research_engi.Rebalance.Gates.{RebalanceError}
use investment_research_engi.Rebalance.Guards.{
  entry_guard_reason, hold_guard_reason, entry_volatility_cap, fee_adjusted_entry_return_passes,
  expected_hold_return_passes,
}
use investment_research_engi.Rebalance.Selection.{
  Evidence, is_within, Situation, Round, is_above, hurdle, is_held, prior_count, note, select_among,
}

-- `tuple(dict.fromkeys(reasons))`
abbrev pub distinct : List String → List String
distinct reasons = unique_after [] reasons

abbrev pub when : Bool → String → List String
when true reason = reason ∷ []
when false reason = []

abbrev pub given : Option String → List String
given none = []
given (some reason) = reason ∷ []

abbrev is_listed : List String → Bool
is_listed [] = false
is_listed (_ ∷ _) = true

module _ (fs : Floats) where
  -- What `_select_detailed` returns.
  pub record Selection : Type 0 where
    pub selected : List (SelectedAsset fs)
    pub reasons : List String
    pub candidate_reasons : Dict (List String)

  module _ (policy : DynamicUniversePolicy fs) (s : Situation fs) where
    abbrev held_evidence : Dict ℕ → CandidateAssessment fs → List String
    held_evidence ranks item =
        when (is_in item.pair s.expired) "HOLD_EXITED_BY_MAXIMUM_HOLDING_PERIOD"
        ++ (when (not (is_above fs item.score policy.exit_score_hurdle))
              "HOLD_SCORE_BELOW_EXIT_HURDLE"
            ++ (when (not (is_within fs policy.maximum_hold_rank (lookup item.pair ranks)))
                  "HOLD_RANK_BELOW_LIMIT"
                ++ (given (hold_guard_reason fs policy item)
                    ++ when (not (expected_hold_return_passes fs policy item))
                        "HOLD_EXPECTED_RELATIVE_RETURN_INSUFFICIENT")))

    abbrev entry_evidence : Option fs.Float → CandidateAssessment fs → List String
    entry_evidence cap item =
        when (is_in item.pair s.recent_exits) "NEW_ENTRY_BLOCKED_BY_REENTRY_COOLDOWN"
        ++ (when (not (is_above fs item.score (hurdle fs policy s))) "NEW_ENTRY_SCORE_BELOW_HURDLE"
            ++ (given (entry_guard_reason fs policy item cap)
                ++ (when (not (fee_adjusted_entry_return_passes fs policy item))
                      "NEW_ENTRY_FEE_ADJUSTED_RETURN_INSUFFICIENT"
                    ++ (when (is_in item.pair s.concentration_blocked)
                          "NEW_ENTRY_BLOCKED_BY_SELECTION_CONCENTRATION"
                        ++ (when (is_in item.pair s.rolling_loss_blocked)
                              "NEW_ENTRY_BLOCKED_BY_ROLLING_ASSET_LOSS"
                            ++ (given s.entry_block_reason
                                ++ when
                                    (ltb (prior_count fs policy s item)
                                      (policy.required_entry_confirmations - 1))
                                    "NEW_ENTRY_WAITING_FOR_CONFIRMATIONS"))))))

    abbrev pub evidence_of : Dict ℕ → Option fs.Float → CandidateAssessment fs → List String
    evidence_of ranks cap item =
        if is_held fs policy s item then held_evidence ranks item else entry_evidence cap item

    abbrev pub note_all : String → List String → Evidence fs → Evidence fs
    note_all pair [] evidence = evidence
    note_all pair (r ∷ rs) evidence = note_all pair rs (note fs pair r evidence)

    -- `ranks[item.pair]` of a held pair raises where there is no rank.
    abbrev pub if_ranked : Bool → Option ℕ → Evidence fs → Evidence fs
    if_ranked true none evidence = err RebalanceError.missing_rank
    if_ranked _ rank evidence = evidence

    abbrev pub empty_evidence :
        List (CandidateAssessment fs) → Dict (List String) → Dict (List String)
    empty_evidence [] evidence = evidence
    empty_evidence (x ∷ xs) evidence = empty_evidence xs (insert x.pair [] evidence)

    abbrev pub collect :
        Dict ℕ → Option fs.Float → List (CandidateAssessment fs) → Evidence fs → Evidence fs
    collect ranks cap [] evidence = evidence
    collect ranks cap (x ∷ xs) evidence = collect ranks cap xs (
        note_all x.pair (evidence_of ranks cap x)
          (if_ranked (is_held fs policy s x) (lookup x.pair ranks) evidence))

    -- `evidence` before the loop over the entrants.
    unfoldable pub first_evidence :
        List (CandidateAssessment fs) → List (CandidateAssessment fs) → Evidence fs
    unfolding ranks_from
    first_evidence assessments items =
        collect (ranks_from fs 1 items []) (entry_volatility_cap fs policy items) items
          (ok (empty_evidence assessments []))

    abbrev guard_reason : Option fs.Float → CandidateAssessment fs → List String
    guard_reason cap item =
        if is_held fs policy s item
        then given (hold_guard_reason fs policy item)
        else given (entry_guard_reason fs policy item cap)

    abbrev guard_reasons : Option fs.Float → List (CandidateAssessment fs) → List String
    guard_reasons cap [] = []
    guard_reasons cap (x ∷ xs) = guard_reason cap x ++ guard_reasons cap xs

    abbrev cooldown_blocked : List (CandidateAssessment fs) → Bool
    cooldown_blocked =
        any (λ item. is_in item.pair s.recent_exits && is_above fs item.score (hurdle fs policy s))

    abbrev pub frozen : Dict (List String) → Dict (List String)
    frozen [] = []
    frozen ((pair, reasons) ∷ rest) =
        let others = frozen rest in
        if is_listed reasons then (pair, distinct reasons) ∷ others else others

    abbrev fee_blocked : Dict (List String) → Bool
    fee_blocked = any (λ e. is_in "NEW_ENTRY_FEE_ADJUSTED_RETURN_INSUFFICIENT" e.1)

    -- `reasons`
    unfoldable pub reasons_of :
        List (CandidateAssessment fs) → Round fs → Dict (List String) → List String
    unfolding sort_by
    reasons_of items round evidence = distinct (
        sort_by str_lt (distinct (guard_reasons (entry_volatility_cap fs policy items) items))
        ++ (when (is_listed s.expired) "HOLD_EXITED_BY_MAXIMUM_HOLDING_PERIOD"
            ++ (when (cooldown_blocked items) "NEW_ENTRY_BLOCKED_BY_REENTRY_COOLDOWN"
                ++ (when round.replacement_blocked "REPLACEMENT_SCORE_ADVANTAGE_INSUFFICIENT"
                    ++ (when round.replacement_return_blocked
                          "REPLACEMENT_FEE_ADJUSTED_RETURN_INSUFFICIENT"
                        ++ (when (is_listed s.concentration_blocked)
                              "NEW_ENTRY_BLOCKED_BY_SELECTION_CONCENTRATION"
                            ++ (when (is_listed s.rolling_loss_blocked)
                                  "NEW_ENTRY_BLOCKED_BY_ROLLING_ASSET_LOSS"
                                ++ (given s.entry_block_reason
                                    ++ when (fee_blocked evidence)
                                        "NEW_ENTRY_FEE_ADJUSTED_RETURN_INSUFFICIENT"))))))))

    -- `_select_detailed`
    unfoldable pub select_detailed :
        List (CandidateAssessment fs) → Result RebalanceError (Selection)
    unfolding scored select_among
    select_detailed assessments = do
      let items = scored fs policy.maximum_candidates assessments
      first ← first_evidence assessments items
      result ← select_among fs policy s items first
      evidence ← result.1.evidence
      ok (record {
        selected = result.0;
        reasons = reasons_of items result.1 evidence;
        candidate_reasons = frozen evidence;
      })
