-- ===== src/Rebalance/Selection/Outcome.antt =====
-- `_select_detailed`: how many assets it selects, with what weights, and by which right.
use investment_research_engi.Base.{
  subst, ◌≤◌, ◌≡◌, ◌∙◌, ap, String, List, [], ◌∷◌, map, some, arith, length, All, All-constant,
  length-map, All-of_map, length-take, Option-cases, inl, inr,
}
use investment_research_engi.Base.Dict.{Dict}
use investment_research_engi.Base.Result.{ok, ◌>>=◌, >>=-returns}
use investment_research_engi.Base.Sorting.{sort_by, length-sort_by}
use investment_research_engi.Decimal.{Decimal, zero_d}
use investment_research_engi.Rebalance.Floats.{Floats}
use investment_research_engi.Rebalance.Policy.{DynamicUniversePolicy}
use investment_research_engi.Rebalance.Candidates.{
  CandidateAssessment, SelectedAsset, better, scored,
}
use investment_research_engi.Rebalance.Selection.{
  Situation, Round, compete_all, retained_of, entrants_of, first_round, selected_at, weight_of,
  weigh, select_among,
}
use investment_research_engi.Rebalance.Selection.Evidence.{
  Selection, first_evidence, select_detailed,
}
use investment_research_engi.Rebalance.Selection.Rounds.{compete_all-length}

module _ (fs : Floats) (policy : DynamicUniversePolicy fs) (s : Situation fs) where
  abbrev pub items_of : List (CandidateAssessment fs) → List (CandidateAssessment fs)
  items_of assessments = scored fs policy.maximum_candidates assessments

  -- The round in which a selection ends.
  pub record Ended (assessments : List (CandidateAssessment fs)) (out : Selection fs) : Type 0 where
    pub first : Dict (List String)
    pub collected : first_evidence fs policy s assessments (items_of assessments) ≡ ok first
    pub round : Round fs
    pub played :
        compete_all fs policy s
          (entrants_of fs policy s (items_of assessments))
          (first_round fs policy s (items_of assessments) first)
        ≡ ok round
    pub weighed : weigh fs policy s (sort_by (better fs) round.ranked) ≡ ok out.selected

  select_among-returns :
      (items : List (CandidateAssessment fs)) (evidence : Dict (List String))
      (selected : List (SelectedAsset fs)) (round : Round fs)
      → select_among fs policy s items evidence ≡ ok (selected, round)
      → (compete_all fs policy s
            (entrants_of fs policy s items)
            (first_round fs policy s items evidence)
          ≡ ok round)
        × (weigh fs policy s (sort_by (better fs) round.ranked) ≡ ok selected)
  unfolding select_among
  select_among-returns items evidence selected round h =
      let (mid, played, rest) =
        >>=-returns
          (compete_all fs policy s (entrants_of fs policy s items)
            (first_round fs policy s items evidence))
          (λ r. weigh fs policy s (sort_by (better fs) r.ranked) >>= λ selected'. ok (selected', r))
          h in
      let (selected', weighed, one) =
        >>=-returns (weigh fs policy s (sort_by (better fs) mid.ranked))
          (λ selected'. ok (selected', mid)) rest in
      let same : mid ≡ round = ground arith in
      let same' : selected' ≡ selected = ground arith in
      (
        played ∙ ap ok same,
        subst (λ r. weigh fs policy s (sort_by (better fs) r.ranked) ≡ ok selected) same
            (weighed ∙ ap ok same'),
      )

  pub select_detailed-Ended :
      (assessments : List (CandidateAssessment fs)) (out : Selection fs)
      → select_detailed fs policy s assessments ≡ ok out
      → Ended assessments out
  unfolding select_detailed
  select_detailed-Ended assessments out h =
      let items = items_of assessments in
      let (first, collected, h₁) = >>=-returns (first_evidence fs policy s assessments items) _ h in
      let (mid, among, h₂) = >>=-returns (select_among fs policy s items first) _ h₁ in
      let (evidence, _, one) = >>=-returns mid.1.evidence _ h₂ in
      let (played, weighed) = select_among-returns items first mid.0 mid.1 among in
      let same : mid.0 ≡ out.selected = ground arith in
      record {
        first = first;
        collected = collected;
        round = mid.1;
        played = played;
        weighed = weighed ∙ ap ok same;
      }

  pub weighed_as :
      (xs : List (CandidateAssessment fs)) (selected : List (SelectedAsset fs))
      → weigh fs policy s xs ≡ ok selected
      → (weight : Decimal) × (selected ≡ map (selected_at fs policy s weight) xs)
        × All (λ x. weight_of fs policy s (length xs) ≡ some weight) xs
  unfolding weigh
  weighed_as [] selected h = (zero_d, ground arith, tt)
  weighed_as (x ∷ xs) selected h =
      let weights = weight_of fs policy s (length (x ∷ xs)) in
      elim (Option-cases weights) [
        | inl missing ↦ absurd (ground arith)
        | inr (weight, there) ↦ (weight, ground arith, All-constant there (x ∷ xs))
      ]

  -- A selection has at most as many assets as the policy has positions, and they all have the weight
  -- that `weight_of` makes for that number.
  pub select_detailed-bounded :
      (assessments : List (CandidateAssessment fs)) (out : Selection fs)
      → select_detailed fs policy s assessments ≡ ok out
      → (length out.selected ≤ policy.maximum_positions)
        × All (λ a. weight_of fs policy s (length out.selected) ≡ some a.target_weight) out.selected
  select_detailed-bounded assessments out h =
      let ended = select_detailed-Ended assessments out h in
      let items = items_of assessments in
      let first =
        length-take policy.maximum_positions
          (sort_by (better fs) (retained_of fs policy s items)) in
      let bound =
        (compete_all-length fs policy s (entrants_of fs policy s items)
          (first_round fs policy s items ended.first) ended.round ended.played first).0 in
      let ranked = sort_by (better fs) ended.round.ranked in
      let (weight, same, weights) = weighed_as ranked out.selected ended.weighed in
      let sizes : length out.selected ≡ length ranked =
        rw same (length-map (selected_at fs policy s weight) ranked) in
      (
        rw sizes (rw (length-sort_by (better fs) ended.round.ranked) bound),
        rw sizes (rw same (All-of_map (selected_at fs policy s weight) _ ranked weights)),
      )
