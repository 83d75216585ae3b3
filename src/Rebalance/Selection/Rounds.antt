-- ===== src/Rebalance/Selection/Rounds.antt =====
-- The loop over the entrants, `_select_detailed`: what it keeps.
use investment_research_engi.Base.{
  subst, ◌≤◌, ◌≡◌, refl, Bool, true, false, List, [], ◌∷◌, ◌++◌, arith, length, All, All-append,
  length-append, Bool-cases, inl, inr, ltb,
}
use investment_research_engi.Base.Result.{ok, >>=-returns}
use investment_research_engi.Rebalance.Floats.{Floats}
use investment_research_engi.Rebalance.Policy.{DynamicUniversePolicy}
use investment_research_engi.Rebalance.Candidates.{CandidateAssessment, weaker}
use investment_research_engi.Rebalance.Guards.{fee_adjusted_replacement_passes}
use investment_research_engi.Rebalance.Selection.{
  Situation, Round, extract, compete, compete_all, challenge, replace_in, settled, outscores,
}

module _ (fs : Floats) where
  length-extract :
      (x : CandidateAssessment fs) (xs : List (CandidateAssessment fs))
      → length (extract fs x xs).1 ≡ length xs
  unfolding extract
  length-extract x [] = refl
  length-extract x (y ∷ ys) = ground (arith, length-extract y ys)

  module _ {κ} (P : CandidateAssessment fs → Type κ) where
    pub All-extract :
        (x : CandidateAssessment fs) (xs : List (CandidateAssessment fs))
        → P x
        → All P xs
        → P (extract fs x xs).0 × All P (extract fs x xs).1
    unfolding extract
    All-extract x [] h k = (h, tt)
    All-extract x (y ∷ ys) h k =
        let later = All-extract y ys k.0 k.1 in
        elim (Bool-cases (weaker fs (extract fs y ys).0 x)) [
          | inl first ↦ rw first (later.0, (h, later.1))
          | inr not_first ↦ rw not_first (h, k)
        ]

  module _ (policy : DynamicUniversePolicy fs) (s : Situation fs) where
    length-challenge :
        (e x : CandidateAssessment fs) (xs : List (CandidateAssessment fs)) (r : Round fs)
        → r.ranked ≡ x ∷ xs
        → length (challenge fs policy s e (extract fs x xs) r).ranked ≡ length r.ranked
    length-challenge e x xs r same =
        ground (arith, length-extract x xs, length-append (extract fs x xs).1 (e ∷ []))

    replace-length :
        (e : CandidateAssessment fs) (xs : List (CandidateAssessment fs)) (r r' : Round fs)
        → r.ranked ≡ xs
        → replace_in fs policy s e xs r ≡ ok r'
        → length r'.ranked ≡ length r.ranked
    replace-length e [] r r' same h = absurd (ground arith)
    replace-length e (x ∷ xs) r r' same h = ground (arith, length-challenge e x xs r same)

    compete-length :
        (e : CandidateAssessment fs) (r r' : Round fs)
        → compete fs policy s e r ≡ ok r'
        → length r.ranked ≤ policy.maximum_positions
        → (length r'.ranked ≤ policy.maximum_positions) × (length r.ranked ≤ length r'.ranked)
    unfolding compete
    compete-length e r r' h fits =
        elim (Bool-cases (ltb (length r.ranked) policy.maximum_positions)) [
          | inl room ↦ ground (arith, length-append r.ranked (e ∷ []))
          | inr full ↦
              let replaced : replace_in fs policy s e r.ranked r ≡ ok r' = rw full at h in
              ground (arith, replace-length e r.ranked r r' refl replaced)
        ]

    -- The loop exceeds no bound and loses no place.
    pub compete_all-length :
        (es : List (CandidateAssessment fs)) (r r' : Round fs)
        → compete_all fs policy s es r ≡ ok r'
        → length r.ranked ≤ policy.maximum_positions
        → (length r'.ranked ≤ policy.maximum_positions) × (length r.ranked ≤ length r'.ranked)
    unfolding compete_all
    compete_all-length [] r r' h fits = ground arith
    compete_all-length (e ∷ es) r r' h fits =
        let (next, first, rest) =
          >>=-returns (compete fs policy s e r) (λ t. compete_all fs policy s es t) h in
        let step = compete-length e r next first fits in
        let later = compete_all-length es next r' rest step.0 in omega arith

    module _ {κ} (P : CandidateAssessment fs → Type κ) where
      settled-All :
          (e w : CandidateAssessment fs) (rest : List (CandidateAssessment fs)) (b c : Bool)
          (r : Round fs)
          → P e
          → All P r.ranked
          → All P rest
          → All P (settled fs policy s e (w, rest) b c r).ranked
      settled-All e w rest true true r h k all = All-append P rest (e ∷ []) all (h, tt)
      settled-All e w rest true false r h k all = k
      settled-All e w rest false c r h k all = k

      replace-All :
          (e : CandidateAssessment fs) (xs : List (CandidateAssessment fs)) (r r' : Round fs)
          → r.ranked ≡ xs
          → replace_in fs policy s e xs r ≡ ok r'
          → P e
          → All P xs
          → All P r.ranked
          → All P r'.ranked
      replace-All e [] r r' same h k all kept = absurd (ground arith)
      replace-All e (x ∷ xs) r r' same h k all kept =
          let (w, rest) = extract fs x xs in
          let fair = (All-extract P x xs all.0 all.1).1 in
          let one : challenge fs policy s e (w, rest) r ≡ r' = ground arith in
          subst (λ t. All P t.ranked) one
            (settled-All e w rest (outscores fs policy s e w)
              (fee_adjusted_replacement_passes fs policy e w) r k kept fair)

      pub compete-All :
          (e : CandidateAssessment fs) (r r' : Round fs)
          → compete fs policy s e r ≡ ok r'
          → P e
          → All P r.ranked
          → All P r'.ranked
      unfolding compete
      compete-All e r r' h k all =
          elim (Bool-cases (ltb (length r.ranked) policy.maximum_positions)) [
            | inl room ↦
                let one : record r { ranked = r.ranked ++ (e ∷ []) } ≡ r' = ground arith in
                subst (λ t. All P t.ranked) one (All-append P r.ranked (e ∷ []) all (k, tt))
            | inr full ↦
                let replaced : replace_in fs policy s e r.ranked r ≡ ok r' = rw full at h in
                replace-All e r.ranked r r' refl replaced k all all
          ]

      -- What holds of the first places and of the entrants holds of the last places.
      pub compete_all-All :
          (es : List (CandidateAssessment fs)) (r r' : Round fs)
          → compete_all fs policy s es r ≡ ok r'
          → All P es
          → All P r.ranked
          → All P r'.ranked
      unfolding compete_all
      compete_all-All [] r r' h k all =
          let one : r ≡ r' = ground arith in subst (λ t. All P t.ranked) one all
      compete_all-All (e ∷ es) r r' h k all =
          let (next, first, rest) =
            >>=-returns (compete fs policy s e r) (λ t. compete_all fs policy s es t) h in
          compete_all-All es next r' rest k.1 (compete-All e r next first k.0 all)
