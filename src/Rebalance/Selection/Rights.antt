-- ===== src/Rebalance/Selection/Rights.antt =====
-- `_select_detailed`: by which right an asset is selected, and what a block of new entries does.
use investment_research_engi.Base.{
  ℕ, ◌≡◌, refl, String, Bool, true, not, ◌||◌, ◌&&◌, ◌-◌, leb, List, [], ◌∷◌, Option, arith, any,
  keep, All, All-map, All-take, All-keep, All-of_map, Bool-cases, inl, inr, str_eq, str_eq_refl,
  is_some, if◌then◌else◌,
}
use investment_research_engi.Base.Dict.{Dict, lookup}
use investment_research_engi.Base.Result.{ok}
use investment_research_engi.Base.Sorting.{sort_by, All-sort_by}
use investment_research_engi.Rebalance.Floats.{Floats}
use investment_research_engi.Rebalance.Policy.{DynamicUniversePolicy}
use investment_research_engi.Rebalance.Candidates.{CandidateAssessment, better, ranks_from, is_in}
use investment_research_engi.Rebalance.Guards.{
  entry_volatility_cap, is_under, is_over, is_uncalibrated, reaches, absent_or_reaches,
  conservative_return, hold_guard_reason, entry_guard_reason, expected_hold_return_passes,
  fee_adjusted_entry_return_passes,
}
use investment_research_engi.Rebalance.Selection.{
  is_above, is_within, hurdle, prior_count, Situation, retained_of, entrants_of, first_round,
  is_retained, is_entrant, selected_at,
}
use investment_research_engi.Rebalance.Selection.Evidence.{Selection, select_detailed}
use investment_research_engi.Rebalance.Selection.Rounds.{compete_all-All}
use investment_research_engi.Rebalance.Selection.Outcome.{
  items_of, Ended, select_detailed-Ended, weighed_as,
}

module _ {ℓ} {A : Type ℓ} (name : A → String) (r : A → Bool) where
  -- Among the elements is one of this name that passes.
  abbrev pub has_passing : String → List A → Bool
  has_passing n = any (λ y. str_eq (name y) n && r y)

  All-found :
      (p : A → Bool)
      → ((x : A) → p x ≡ true → r x ≡ true)
      → (xs : List A) → All (λ x. has_passing (name x) xs ≡ true) (keep p xs)
  All-found p f [] = tt
  All-found p f (x ∷ xs) =
      let rest =
        All-map (λ z. has_passing (name z) xs ≡ true) (λ z. has_passing (name z) (x ∷ xs) ≡ true)
          (λ z h. ground arith) (keep p xs) (All-found p f xs) in
      elim (Bool-cases (p x)) [
        | inl h ↦ rw h (ground (arith, f x h, str_eq_refl (name x)), rest)
        | inr h ↦ rw h rest
      ]

module _ (fs : Floats) (policy : DynamicUniversePolicy fs) (s : Situation fs) where
  -- What lets the portfolio hold on to a candidate: its time is not over, its score is above the hurdle
  -- and its rank within the limit, no guard on its momentum or volatility speaks against it, and its
  -- expected return, if it is calibrated and known, reaches the minimum.
  abbrev pub may_stay : List (CandidateAssessment fs) → CandidateAssessment fs → Bool
  may_stay items x =
      is_in x.pair s.held_pairs
      && not (is_in x.pair s.expired)
      && is_above fs x.score policy.exit_score_hurdle
      && is_within fs policy.maximum_hold_rank (lookup x.pair (ranks_from fs 1 items []))
      && not (is_under fs policy.minimum_hold_momentum_1h x.momentum_1h)
      && not (is_under fs policy.minimum_hold_momentum_24h x.momentum_24h)
      && not (is_over fs policy.maximum_hold_volatility x.volatility)
      && (is_uncalibrated fs policy
          || absent_or_reaches fs policy (conservative_return fs policy x)
              policy.minimum_expected_hold_return)

  -- No limit on the momentum or the volatility of an entry is broken.
  abbrev is_unguarded : List (CandidateAssessment fs) → CandidateAssessment fs → Bool
  is_unguarded items x =
      not (is_under fs policy.minimum_entry_momentum_1h x.momentum_1h)
      && not (is_over fs policy.maximum_entry_momentum_1h x.momentum_1h)
      && not (is_under fs policy.minimum_entry_momentum_4h x.momentum_4h)
      && not (is_over fs policy.maximum_entry_momentum_4h x.momentum_4h)
      && not (is_under fs policy.minimum_entry_momentum_24h x.momentum_24h)
      && not (is_over fs policy.maximum_entry_momentum_24h x.momentum_24h)
      && not (is_over fs (entry_volatility_cap fs policy items) x.volatility)

  -- What lets a candidate in: it is not held, not just sold and not blocked, its score is above the
  -- hurdle, no guard on its momentum or volatility speaks against it, its return after fees reaches the
  -- minimum, unless returns are not calibrated, and it is confirmed often enough.
  abbrev pub may_enter : List (CandidateAssessment fs) → CandidateAssessment fs → Bool
  may_enter items x =
      not (is_in x.pair s.held_pairs)
      && not (is_in x.pair s.recent_exits)
      && not (is_in x.pair s.concentration_blocked)
      && not (is_in x.pair s.rolling_loss_blocked)
      && not (is_some s.entry_block_reason)
      && is_above fs x.score (hurdle fs policy s)
      && is_unguarded items x
      && (is_uncalibrated fs policy
          || reaches fs policy x.fee_adjusted_expected_return
              policy.minimum_fee_adjusted_entry_return)
      && (leb policy.required_entry_confirmations 1
          || leb (policy.required_entry_confirmations - 1) (prior_count fs policy s x))

  abbrev pub is_rightful : List (CandidateAssessment fs) → CandidateAssessment fs → Bool
  is_rightful items x = may_stay items x || may_enter items x

  pub is_retained-may_stay :
      (items : List (CandidateAssessment fs)) (x : CandidateAssessment fs)
      → is_retained fs policy s (ranks_from fs 1 items []) x ≡ may_stay items x
  unfolding is_retained hold_guard_reason expected_hold_return_passes
  is_retained-may_stay items x = ground arith

  guard_lem :
      (items : List (CandidateAssessment fs)) (x : CandidateAssessment fs)
      → not (is_some (entry_guard_reason fs policy x (entry_volatility_cap fs policy items)))
        ≡ is_unguarded items x
  unfolding entry_guard_reason
  guard_lem items x = ground arith

  entry_return_lem :
      (x : CandidateAssessment fs)
      → fee_adjusted_entry_return_passes fs policy x ≡ (
          is_uncalibrated fs policy
          || reaches fs policy x.fee_adjusted_expected_return
              policy.minimum_fee_adjusted_entry_return)
  unfolding fee_adjusted_entry_return_passes
  entry_return_lem x = ground arith

  is_entrant-may_enter :
      (items : List (CandidateAssessment fs)) (x : CandidateAssessment fs)
      → is_entrant fs policy s (entry_volatility_cap fs policy items) x ≡ may_enter items x
  unfolding is_entrant
  is_entrant-may_enter items x = rw (guard_lem items x, entry_return_lem x) refl

  -- What holds of the pairs of the retained candidates and of the entrants holds of those selected.
  All-selected {κ} :
      (Q : String → Type κ) (assessments : List (CandidateAssessment fs)) (out : Selection fs)
      → Ended fs policy s assessments out
      → All (λ x. Q x.pair) (retained_of fs policy s (items_of fs policy s assessments))
      → All (λ x. Q x.pair) (entrants_of fs policy s (items_of fs policy s assessments))
      → All (λ a. Q a.pair) out.selected
  All-selected Q assessments out ended h k =
      let P : CandidateAssessment fs → Type κ = λ x. Q x.pair in
      let items = items_of fs policy s assessments in
      let sorted = All-sort_by (better fs) P (retained_of fs policy s items) h in
      let first =
        All-take P policy.maximum_positions (sort_by (better fs) (retained_of fs policy s items))
          sorted in
      let last =
        compete_all-All fs policy s P (entrants_of fs policy s items)
          (first_round fs policy s items ended.first) ended.round ended.played k first in
      let ranked = sort_by (better fs) ended.round.ranked in
      let all = All-sort_by (better fs) P ended.round.ranked last in
      let (weight, same, _) = weighed_as fs policy s ranked out.selected ended.weighed in
      rw same (All-of_map (selected_at fs policy s weight) (λ a. Q a.pair) ranked all)

  -- Every selected asset is among the scored candidates one that `may_stay`, or one that `may_enter`.
  pub select_detailed-rightful :
      (assessments : List (CandidateAssessment fs)) (out : Selection fs)
      → select_detailed fs policy s assessments ≡ ok out
      → let items = items_of fs policy s assessments in
        All (λ a. has_passing (λ x. x.pair) (is_rightful items) a.pair items ≡ true) out.selected
  select_detailed-rightful assessments out h =
      let items = items_of fs policy s assessments in
      let name : CandidateAssessment fs → String = λ x. x.pair in
      All-selected (λ n. has_passing name (is_rightful items) n items ≡ true) assessments out
        (select_detailed-Ended fs policy s assessments out h)
        (All-found name (is_rightful items) (is_retained fs policy s (ranks_from fs 1 items []))
          (λ x h. ground (arith, is_retained-may_stay items x)) items)
        (All-found name (is_rightful items)
          (is_entrant fs policy s (entry_volatility_cap fs policy items))
          (λ x h. ground (arith, is_entrant-may_enter items x)) items)

  -- What a pair must be for a place in the portfolio, whatever the numbers say.
  abbrev pub is_admissible : String → Bool
  is_admissible pair =
      if is_in pair s.held_pairs
      then not (is_in pair s.expired)
      else not (is_in pair s.recent_exits)
        && not (is_in pair s.concentration_blocked)
        && not (is_in pair s.rolling_loss_blocked)
        && not (is_some s.entry_block_reason)

  retained-admissible :
      (ranks : Dict ℕ) (x : CandidateAssessment fs)
      → is_retained fs policy s ranks x ≡ true
      → is_admissible x.pair ≡ true
  unfolding is_retained
  retained-admissible ranks x h = ground arith

  entrant-admissible :
      (cap : Option fs.Float) (x : CandidateAssessment fs)
      → is_entrant fs policy s cap x ≡ true
      → is_admissible x.pair ≡ true
  unfolding is_entrant
  entrant-admissible cap x h = ground arith

  -- No selected asset is an expired holding, and none that is not held yet was sold within the cooldown,
  -- is blocked for its concentration or its losses, or comes in while new entries are blocked.
  pub select_detailed-admissible :
      (assessments : List (CandidateAssessment fs)) (out : Selection fs)
      → select_detailed fs policy s assessments ≡ ok out
      → All (λ a. is_admissible a.pair ≡ true) out.selected
  select_detailed-admissible assessments out h =
      let items = items_of fs policy s assessments in
      let ranks = ranks_from fs 1 items [] in
      let cap = entry_volatility_cap fs policy items in
      let Fine : CandidateAssessment fs → Type 0 = λ x. is_admissible x.pair ≡ true in
      All-selected (λ pair. is_admissible pair ≡ true) assessments out
        (select_detailed-Ended fs policy s assessments out h)
        (All-keep (is_retained fs policy s ranks) Fine (retained-admissible ranks) items)
        (All-keep (is_entrant fs policy s cap) Fine (entrant-admissible cap) items)
