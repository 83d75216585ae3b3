-- ===== src/Rebalance/Reasons.antt =====
-- `_decision_reasons` of src/investment/crypto/application/dynamic_paper_rebalance.py.
use investment_research_engi.Base.{
  ℕ, ◌-◌, ◌≡◌, refl, String, Bool, true, false, List, [], ◌∷◌, ◌++◌, ◌&&◌, not, if◌then◌else◌, any,
  all, ltb,
}
use investment_research_engi.Base.Dict.{Dict}
use investment_research_engi.Derivatives.Overlay.{unique_after}
use investment_research_engi.Rebalance.Floats.{Floats}
use investment_research_engi.Rebalance.Policy.{DynamicUniversePolicy, effective_entry_score_hurdle}
use investment_research_engi.Rebalance.Candidates.{
  CandidateAssessment, SelectedAsset, is_in, count_of,
}
use investment_research_engi.Rebalance.Selection.{is_above}
use investment_research_engi.Rebalance.Selection.Evidence.{distinct, when}

abbrev pub is_empty_list {ℓ} : {A : Type ℓ} → List A → Bool
is_empty_list [] = true
is_empty_list (_ ∷ _) = false

abbrev or_default_reason : List String → List String
or_default_reason [] = "NO_ACTION_REQUIRED" ∷ []
or_default_reason (r ∷ rs) = r ∷ rs

module _ (fs : Floats) (policy : DynamicUniversePolicy fs) (held_pairs : List String)
    (counts : Dict ℕ) where
  abbrev is_waiting : CandidateAssessment fs → Bool
  is_waiting item =
      item.eligible
      && not (is_in item.pair held_pairs)
      && is_above fs item.score (effective_entry_score_hurdle fs policy)
      && ltb (count_of counts item.pair) (policy.required_entry_confirmations - 1)

  abbrev all_held : List (SelectedAsset fs) → Bool
  all_held selected = not (is_empty_list selected) && all (λ a. is_in a.pair held_pairs) selected

  -- The reasons where no order is planned.
  abbrev quiet_reasons :
      List (CandidateAssessment fs)
      → List (SelectedAsset fs)
      → List String
      → List String
      → List String
      → List String
  quiet_reasons assessments selected violations selection_reasons turnover_reasons =
      selection_reasons
      ++ (turnover_reasons
          ++ (when (not (is_empty_list violations)) "NEW_BUYS_BLOCKED_BY_DAILY_RISK_BUDGET"
              ++ (when (all_held selected) "HELD_ASSETS_REMAIN_WITHIN_EXIT_HYSTERESIS"
                  ++ (when (all_held selected) "TARGET_WEIGHT_CHANGES_BELOW_REBALANCE_THRESHOLD"
                      ++ (when (any is_waiting assessments)
                            "NEW_ENTRY_WAITING_FOR_SECOND_CONFIRMATION"
                          ++ when (is_empty_list selected)
                              "NO_ASSET_PASSED_ENTRY_OR_HOLD_RULES")))))

  -- `_decision_reasons`, with counts of confirmations and whether there are plans.
  unfoldable pub decision_reasons :
      Bool
      → List (CandidateAssessment fs)
      → List (SelectedAsset fs)
      → List String
      → List String
      → List String
      → List String
  decision_reasons has_plans assessments selected violations selection_reasons turnover_reasons =
      if has_plans
      then distinct (turnover_reasons ++ ("ORDERS_CREATED_FOR_TARGET_WEIGHT_CHANGES" ∷ []))
      else distinct (
          or_default_reason
            (quiet_reasons assessments selected violations selection_reasons turnover_reasons))

distinct-some : (x : String) (xs : List String) → is_empty_list (distinct (x ∷ xs)) ≡ false
unfolding unique_after
distinct-some x xs = refl

append-some : (xs : List String) (x : String) → is_empty_list (distinct (xs ++ (x ∷ []))) ≡ false
append-some [] x = distinct-some x []
append-some (y ∷ ys) x = distinct-some y (ys ++ (x ∷ []))

default-some : (xs : List String) → is_empty_list (distinct (or_default_reason xs)) ≡ false
default-some [] = distinct-some "NO_ACTION_REQUIRED" []
default-some (x ∷ xs) = distinct-some x xs

module _ (fs : Floats) (policy : DynamicUniversePolicy fs) (held_pairs : List String)
    (counts : Dict ℕ) where
  -- A decision always has a reason.
  pub decision_reasons-some :
      (has_plans : Bool) (assessments : List (CandidateAssessment fs))
      (selected : List (SelectedAsset fs))
      (violations selection_reasons turnover_reasons : List String)
      → is_empty_list (
          decision_reasons fs policy held_pairs counts has_plans assessments selected violations
            selection_reasons turnover_reasons)
        ≡ false
  unfolding decision_reasons
  decision_reasons-some true assessments selected violations selection_reasons turnover_reasons =
      append-some turnover_reasons "ORDERS_CREATED_FOR_TARGET_WEIGHT_CHANGES"
  decision_reasons-some false assessments selected violations selection_reasons turnover_reasons =
      default-some (
        quiet_reasons fs policy held_pairs counts assessments selected violations selection_reasons
          turnover_reasons)
