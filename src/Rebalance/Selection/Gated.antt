-- ===== src/Rebalance/Selection/Gated.antt =====
-- A block of new entries (`_derivatives_entry_block_reason`) and the holdings, and that a selection
-- returns.
use investment_research_engi.Base.{
  ◌≤◌, ◌<◌, ◌≡◌, refl, ◌∙◌, ap, sym, String, Bool, true, false, not, List, [], ◌∷◌, map, Option,
  none, some, arith, length, any, All, All-map, keep-nothing, any-map, take-all, subst, keep,
  Bool-cases, inl, inr, str_eq, ltb, ◌++◌, if◌then◌else◌,
}
use investment_research_engi.Base.Result.{ok}
use investment_research_engi.Base.Sorting.{sort_by, length-sort_by, any-sort_by}
use investment_research_engi.Decimal.{lt_d, ◌*d◌, integer}
use investment_research_engi.Decimal.Sign.{/d-returns}
use investment_research_engi.Rebalance.Floats.{Floats}
use investment_research_engi.Rebalance.Policy.{DynamicUniversePolicy}
use investment_research_engi.Rebalance.Candidates.{
  CandidateAssessment, SelectedAsset, better, is_in,
}
use investment_research_engi.Rebalance.Guards.{entry_volatility_cap}
use investment_research_engi.Rebalance.Gates.{
  Overlay, gate_modes, derivatives_entry_block_reason, is_available,
}
use investment_research_engi.Rebalance.Selection.{
  Situation, Round, compete, compete_all, retained_of, entrants_of, first_round, is_entrant,
  select_among, selected_at, weigh, replace_in, challenge, extract,
}
use investment_research_engi.Rebalance.Selection.Evidence.{
  reasons_of, frozen, Selection, select_detailed,
}
use investment_research_engi.Rebalance.Selection.Outcome.{
  items_of, select_detailed-Ended, weighed_as,
}
use investment_research_engi.Rebalance.Selection.Keys.{
  any_self, first_evidence-Covers, ended-Covers,
}
use investment_research_engi.Rebalance.Selection.Rights.{
  may_stay, is_retained-may_stay, is_admissible, select_detailed-admissible,
}

module _ (fs : Floats) (policy : DynamicUniversePolicy fs) (s : Situation fs) where
  no_entrant :
      {reason : String} (cap : Option fs.Float) (x : CandidateAssessment fs)
      → s.entry_block_reason ≡ some reason
      → is_entrant fs policy s cap x ≡ false
  unfolding is_entrant
  no_entrant cap x h = ground arith

  keeps_retained :
      (assessments : List (CandidateAssessment fs)) (out : Selection fs) {reason : String}
      → select_detailed fs policy s assessments ≡ ok out
      → s.entry_block_reason ≡ some reason
      → length (retained_of fs policy s (items_of fs policy s assessments))
        ≤ policy.maximum_positions
      → All
          (λ x. any (λ a. str_eq a.pair x.pair) out.selected ≡ true)
          (retained_of fs policy s (items_of fs policy s assessments))
  unfolding compete_all
  keeps_retained assessments out h blocked few =
      let ended = select_detailed-Ended fs policy s assessments out h in
      let items = items_of fs policy s assessments in
      let retained = retained_of fs policy s items in
      let none_enters =
        keep-nothing (is_entrant fs policy s (entry_volatility_cap fs policy items))
          (λ x. no_entrant (entry_volatility_cap fs policy items) x blocked) items in
      let one : first_round fs policy s items ended.first ≡ ended.round =
        let played = rw none_enters at ended.played in ground arith in
      let whole =
        take-all policy.maximum_positions (sort_by (better fs) retained)
          (rw (length-sort_by (better fs) retained) few) in
      let same : ended.round.ranked ≡ sort_by (better fs) retained =
        ap (λ r. r.ranked) (sym one) ∙ whole in
      let ranked = sort_by (better fs) ended.round.ranked in
      let (weight, as', _) = weighed_as fs policy s ranked out.selected ended.weighed in
      All-map (λ x. any (λ y. str_eq y.pair x.pair) retained ≡ true)
        (λ x. any (λ a. str_eq a.pair x.pair) out.selected ≡ true)
        (λ x held. rw as' (
          any-map (selected_at fs policy s weight) (λ a. str_eq a.pair x.pair) ranked
          ∙ any-sort_by (better fs) (λ y. str_eq y.pair x.pair) ended.round.ranked
          ∙ ap (any (λ y. str_eq y.pair x.pair)) same
          ∙ any-sort_by (better fs) (λ y. str_eq y.pair x.pair) retained
          ∙ held))
        retained (any_self fs retained)

  keep-same :
      {p q : CandidateAssessment fs → Bool}
      → ((x : CandidateAssessment fs) → p x ≡ q x)
      → (xs : List (CandidateAssessment fs)) → keep p xs ≡ keep q xs
  keep-same h [] = refl
  keep-same h (x ∷ xs) = rw (h x, keep-same h xs) refl

  -- While new entries are blocked, the portfolio keeps each scored candidate that `may_stay`, if it has
  -- the places for them: a block sells nothing.
  pub select_detailed-keeps :
      (assessments : List (CandidateAssessment fs)) (out : Selection fs) {reason : String}
      → select_detailed fs policy s assessments ≡ ok out
      → s.entry_block_reason ≡ some reason
      → let items = items_of fs policy s assessments in
        let staying = keep (may_stay fs policy s items) items in
        length staying ≤ policy.maximum_positions
        → All (λ x. any (λ a. str_eq a.pair x.pair) out.selected ≡ true) staying
  select_detailed-keeps assessments out h blocked few =
      let items = items_of fs policy s assessments in
      let same : retained_of fs policy s items ≡ keep (may_stay fs policy s items) items =
        keep-same (is_retained-may_stay fs policy s items) items in
      subst (All (λ x. any (λ a. str_eq a.pair x.pair) out.selected ≡ true)) same
        (keeps_retained assessments out h blocked (rw same few))

  replace-returns :
      (e : CandidateAssessment fs) (xs : List (CandidateAssessment fs)) (r : Round fs)
      → 0 < length xs
      → (r' : Round fs) × (replace_in fs policy s e xs r ≡ ok r')
  replace-returns e [] r h = absurd (omega arith)
  replace-returns e (x ∷ xs) r h = (challenge fs policy s e (extract fs x xs) r, refl)

  compete-returns :
      (e : CandidateAssessment fs) (r : Round fs)
      → 0 < policy.maximum_positions
      → (r' : Round fs) × (compete fs policy s e r ≡ ok r')
  unfolding compete
  compete-returns e r room = elim (Bool-cases (ltb (length r.ranked) policy.maximum_positions)) [
    | inl free ↦ (record r { ranked = r.ranked ++ (e ∷ []) }, rw free refl)
    | inr full ↦ rw full (replace-returns e r.ranked r (ground arith))
  ]

  compete_all-returns :
      (es : List (CandidateAssessment fs)) (r : Round fs)
      → 0 < policy.maximum_positions
      → (r' : Round fs) × (compete_all fs policy s es r ≡ ok r')
  unfolding compete_all
  compete_all-returns [] r room = (r, refl)
  compete_all-returns (e ∷ es) r room =
      let (next, first) = compete-returns e r room in rw first (compete_all-returns es next room)

  weigh-returns :
      (xs : List (CandidateAssessment fs))
      → (selected : List (SelectedAsset fs)) × (weigh fs policy s xs ≡ ok selected)
  unfolding weigh
  weigh-returns [] = ([], refl)
  weigh-returns (x ∷ xs) =
      let n = length (x ∷ xs) in
      let most = policy.maximum_asset_weight *d integer n in
      let total = if lt_d most policy.invested_fraction then most else policy.invested_fraction in
      let (weight, there) = /d-returns total (integer n) (ground arith) in
      (map (selected_at fs policy s weight) (x ∷ xs), rw there refl)

  -- A policy with a place for a position always gets a selection: no rank is missing, none of the lists
  -- of reasons, and no weight divides by zero.
  pub select_detailed-returns :
      (assessments : List (CandidateAssessment fs))
      → 0 < policy.maximum_positions
      → (out : Selection fs) × (select_detailed fs policy s assessments ≡ ok out)
  unfolding select_detailed select_among
  select_detailed-returns assessments room =
      let items = items_of fs policy s assessments in
      let first = first_evidence-Covers fs policy s assessments in
      let (round, played) =
        compete_all-returns (entrants_of fs policy s items)
          (first_round fs policy s items first.table) room in
      let last = ended-Covers fs policy s assessments first.table round first.there played in
      let (selected, weighed) = weigh-returns (sort_by (better fs) round.ranked) in
      (
        record {
          selected = selected;
          reasons = reasons_of fs policy s items round last.table;
          candidate_reasons = frozen fs policy s last.table;
        },
        rw first.there (rw played (rw weighed (rw last.there refl))),
      )

  abbrev pub is_shut : Option (Overlay fs) → Bool
  is_shut none = true
  is_shut (some o) = not (is_available o.decision.availability)

  -- Under a derivatives gate, an overlay that is absent, missing, stale or incomplete lets no new asset
  -- in: whatever is selected is held already.
  pub select_detailed-fails_closed :
      (overlay : Option (Overlay fs)) (assessments : List (CandidateAssessment fs))
      (out : Selection fs)
      → is_in policy.derivatives_overlay_mode gate_modes ≡ true
      → is_shut overlay ≡ true
      → s.entry_block_reason ≡ derivatives_entry_block_reason fs policy overlay
      → select_detailed fs policy s assessments ≡ ok out
      → All (λ a. is_in a.pair s.held_pairs ≡ true) out.selected
  unfolding derivatives_entry_block_reason
  select_detailed-fails_closed overlay assessments out gated shut reason h =
      All-map (λ a. is_admissible fs policy s a.pair ≡ true) (λ a. is_in a.pair s.held_pairs ≡ true)
        (λ a fine. ground arith) out.selected
        (select_detailed-admissible fs policy s assessments out h)
