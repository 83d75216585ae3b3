-- ===== src/Rebalance/Selection/Keys.antt =====
-- `_select_detailed` looks up no rank and no list of reasons that is not there.
use investment_research_engi.Base.{
  ℕ, suc, ◌≡◌, refl, String, Bool, true, false, Option, none, some, List, [], ◌∷◌, ◌++◌, arith, any,
  All, All-map, All-take, keep, Bool-cases, Option-cases, inl, inr, str_eq, str_eq_refl, str_eq_iff,
  is_some, ltb, length, subst,
}
use investment_research_engi.Base.Dict.{Dict, lookup, insert, lookup-insert}
use investment_research_engi.Base.Result.{ok, >>=-returns}
use investment_research_engi.Base.Sorting.{sort_by, All-sort_by}
use investment_research_engi.Rebalance.Floats.{Floats}
use investment_research_engi.Rebalance.Policy.{DynamicUniversePolicy}
use investment_research_engi.Rebalance.Candidates.{
  CandidateAssessment, better, more_liquid, scored, ranks_from,
}
use investment_research_engi.Rebalance.Guards.{
  entry_volatility_cap, fee_adjusted_replacement_passes,
}
use investment_research_engi.Rebalance.Selection.{
  Evidence, Situation, Round, note, extract, compete, compete_all, challenge, replace_in, settled,
  outscores, is_held, entrants_of, first_round, retained_of,
}
use investment_research_engi.Rebalance.Selection.Evidence.{
  if_ranked, note_all, empty_evidence, evidence_of, collect, first_evidence,
}
use investment_research_engi.Rebalance.Selection.Rounds.{All-extract, compete-All}

module _ {ℓ} {V : Type ℓ} where
  abbrev pub has_key : String → Dict V → Bool
  has_key k d = is_some (lookup k d)

  has_key-insert :
      (k j : String) (v : V) (d : Dict V) → has_key k d ≡ true → has_key k (insert j v d) ≡ true
  has_key-insert k j v d h = ground (arith, lookup-insert j k v d)

  has_key-own : (k : String) (v : V) (d : Dict V) → has_key k (insert k v d) ≡ true
  has_key-own k v d = ground (arith, lookup-insert k k v d, str_eq_refl k)

module _ (fs : Floats) where
  -- Every scored candidate has a rank.
  ranks_from-keeps :
      (n : ℕ) (xs : List (CandidateAssessment fs)) (d : Dict ℕ) (k : String)
      → has_key k d ≡ true
      → has_key k (ranks_from fs n xs d) ≡ true
  unfolding ranks_from
  ranks_from-keeps n [] d k h = h
  ranks_from-keeps n (x ∷ xs) d k h =
      ranks_from-keeps (suc n) xs (insert x.pair n d) k (has_key-insert k x.pair n d h)

  ranks_from-All :
      (n : ℕ) (xs : List (CandidateAssessment fs)) (d : Dict ℕ)
      → All (λ x. has_key x.pair (ranks_from fs n xs d) ≡ true) xs
  unfolding ranks_from
  ranks_from-All n [] d = tt
  ranks_from-All n (x ∷ xs) d = (
    ranks_from-keeps (suc n) xs (insert x.pair n d) x.pair (has_key-own x.pair n d),
    ranks_from-All (suc n) xs (insert x.pair n d),
  )

  -- The evidence has a list for each of some pairs.
  pub record Covers (listed : String → Bool) (e : Evidence fs) : Type 0 where
    pub table : Dict (List String)
    pub there : e ≡ ok table
    pub keys : (k : String) → listed k ≡ true → has_key k table ≡ true

  module _ (listed : String → Bool) where
    abbrev Known : CandidateAssessment fs → Type 0
    Known x = listed x.pair ≡ true

    note-Covers :
        (pair reason : String) (e : Evidence fs)
        → listed pair ≡ true
        → Covers listed e
        → Covers listed (note fs pair reason e)
    note-Covers pair reason e known c = elim (Option-cases (lookup pair c.table)) [
      | inl missing ↦ let there = c.keys pair known in absurd (ground arith)
      | inr (reasons, found) ↦ record {
        table = insert pair (reasons ++ (reason ∷ [])) c.table;
        there = rw (c.there, found) refl;
        keys = λ k h. has_key-insert k pair _ c.table (c.keys k h);
      }
    ]

    module _ (policy : DynamicUniversePolicy fs) (s : Situation fs) where
      note_all-Covers :
          (pair : String) (reasons : List String) (e : Evidence fs)
          → listed pair ≡ true
          → Covers listed e
          → Covers listed (note_all fs policy s pair reasons e)
      note_all-Covers pair [] e known c = c
      note_all-Covers pair (r ∷ rs) e known c =
          note_all-Covers pair rs (note fs pair r e) known (note-Covers pair r e known c)

      if_ranked-Covers :
          (held : Bool) (rank : Option ℕ) (e : Evidence fs)
          → is_some rank ≡ true
          → Covers listed e
          → Covers listed (if_ranked fs policy s held rank e)
      if_ranked-Covers held none e there c = absurd (ground arith)
      if_ranked-Covers true (some n) e there c = c
      if_ranked-Covers false (some n) e there c = c

      collect-Covers :
          (ranks : Dict ℕ) (cap : Option fs.Float) (xs : List (CandidateAssessment fs))
          (e : Evidence fs)
          → All Known xs
          → All (λ x. has_key x.pair ranks ≡ true) xs
          → Covers listed e
          → Covers listed (collect fs policy s ranks cap xs e)
      collect-Covers ranks cap [] e known ranked c = c
      collect-Covers ranks cap (x ∷ xs) e known ranked c =
          collect-Covers ranks cap xs _ known.1 ranked.1 (
            note_all-Covers x.pair (evidence_of fs policy s ranks cap x) _ known.0
              (if_ranked-Covers (is_held fs policy s x) (lookup x.pair ranks) e ranked.0 c))

      settled-Covers :
          (e w : CandidateAssessment fs) (rest : List (CandidateAssessment fs)) (b c : Bool)
          (r : Round fs)
          → Known e
          → Known w
          → Covers listed r.evidence
          → Covers listed (settled fs policy s e (w, rest) b c r).evidence
      settled-Covers e w rest true true r known weak covers =
          note-Covers w.pair _ _ weak (note-Covers e.pair _ r.evidence known covers)
      settled-Covers e w rest true false r known weak covers =
          note-Covers e.pair _ r.evidence known covers
      settled-Covers e w rest false true r known weak covers =
          note-Covers e.pair _ r.evidence known covers
      settled-Covers e w rest false false r known weak covers =
          note-Covers e.pair _ _ known (note-Covers e.pair _ r.evidence known covers)

      replace-Covers :
          (e : CandidateAssessment fs) (xs : List (CandidateAssessment fs)) (r r' : Round fs)
          → replace_in fs policy s e xs r ≡ ok r'
          → Known e
          → All Known xs
          → Covers listed r.evidence
          → Covers listed r'.evidence
      replace-Covers e [] r r' h known all covers = absurd (ground arith)
      replace-Covers e (x ∷ xs) r r' h known all covers =
          let (w, rest) = extract fs x xs in
          let one : challenge fs policy s e (w, rest) r ≡ r' = ground arith in
          subst (λ t. Covers listed t.evidence) one
            (settled-Covers e w rest (outscores fs policy s e w)
              (fee_adjusted_replacement_passes fs policy e w) r known
              (All-extract fs Known x xs all.0 all.1).0 covers)

      compete-Covers :
          (e : CandidateAssessment fs) (r r' : Round fs)
          → compete fs policy s e r ≡ ok r'
          → Known e
          → All Known r.ranked
          → Covers listed r.evidence
          → Covers listed r'.evidence
      unfolding compete
      compete-Covers e r r' h known all covers =
          elim (Bool-cases (ltb (length r.ranked) policy.maximum_positions)) [
            | inl room ↦
                let one : record r { ranked = r.ranked ++ (e ∷ []) } ≡ r' = ground arith in
                subst (λ t. Covers listed t.evidence) one covers
            | inr full ↦
                let replaced : replace_in fs policy s e r.ranked r ≡ ok r' = rw full at h in
                replace-Covers e r.ranked r r' replaced known all covers
          ]

      -- The loop over the entrants appends to lists that are there.
      pub compete_all-Covers :
          (es : List (CandidateAssessment fs)) (r r' : Round fs)
          → compete_all fs policy s es r ≡ ok r'
          → All Known es
          → All Known r.ranked
          → Covers listed r.evidence
          → Covers listed r'.evidence
      unfolding compete_all
      compete_all-Covers [] r r' h known all covers =
          let one : r ≡ r' = ground arith in subst (λ t. Covers listed t.evidence) one covers
      compete_all-Covers (e ∷ es) r r' h known all covers =
          let (next, first, rest) =
            >>=-returns (compete fs policy s e r) (λ t. compete_all fs policy s es t) h in
          compete_all-Covers es next r' rest known.1
            (compete-All fs policy s Known e r next first known.0 all)
            (compete-Covers e r next first known.0 all covers)

  pub any_self :
      (xs : List (CandidateAssessment fs)) → All (λ x. any (λ y. str_eq y.pair x.pair) xs ≡ true) xs
  any_self [] = tt
  any_self (x ∷ xs) = (
    ground (arith, str_eq_refl x.pair),
    All-map (λ z. any (λ y. str_eq y.pair z.pair) xs ≡ true)
        (λ z. any (λ y. str_eq y.pair z.pair) (x ∷ xs) ≡ true) (λ z h. ground arith) xs
        (any_self xs),
  )

  All-kept :
      (P : CandidateAssessment fs → Type 0) (p : CandidateAssessment fs → Bool)
      (xs : List (CandidateAssessment fs))
      → All P xs
      → All P (keep p xs)
  All-kept P p [] h = tt
  All-kept P p (x ∷ xs) h = elim (Bool-cases (p x)) [
    | inl yes' ↦ rw yes' (h.0, All-kept P p xs h.1)
    | inr no' ↦ rw no' (All-kept P p xs h.1)
  ]

  scored-All :
      (P : CandidateAssessment fs → Type 0) (n : ℕ) (xs : List (CandidateAssessment fs))
      → All P xs
      → All P (scored fs n xs)
  unfolding scored
  scored-All P n xs h =
      All-sort_by (better fs) P _ (
        All-take P n _ (All-sort_by (more_liquid fs) P _ (All-kept P (λ item. item.eligible) xs h)))

  module _ (policy : DynamicUniversePolicy fs) (s : Situation fs) where
    empty_evidence-keeps :
        (xs : List (CandidateAssessment fs)) (d : Dict (List String)) (k : String)
        → has_key k d ≡ true
        → has_key k (empty_evidence fs policy s xs d) ≡ true
    empty_evidence-keeps [] d k h = h
    empty_evidence-keeps (x ∷ xs) d k h =
        empty_evidence-keeps xs (insert x.pair [] d) k (has_key-insert k x.pair [] d h)

    empty_evidence-all :
        (xs : List (CandidateAssessment fs)) (d : Dict (List String)) (k : String)
        → any (λ y. str_eq y.pair k) xs ≡ true
        → has_key k (empty_evidence fs policy s xs d) ≡ true
    empty_evidence-all [] d k h = absurd (ground arith)
    empty_evidence-all (x ∷ xs) d k h = elim (Bool-cases (str_eq x.pair k)) [
      | inl here ↦
          let same : x.pair ≡ k = ground (arith, str_eq_iff x.pair k) in
          empty_evidence-keeps xs (insert x.pair [] d) k
            (subst (λ j. has_key j (insert x.pair [] d) ≡ true) same (has_key-own x.pair [] d))
      | inr further ↦ empty_evidence-all xs (insert x.pair [] d) k (ground arith)
    ]

    module _ (assessments : List (CandidateAssessment fs)) where
      abbrev pub is_assessed : String → Bool
      is_assessed k = any (λ y. str_eq y.pair k) assessments

      abbrev items : List (CandidateAssessment fs)
      items = scored fs policy.maximum_candidates assessments

      items-assessed : All (λ x. is_assessed x.pair ≡ true) items
      items-assessed =
          scored-All (λ x. is_assessed x.pair ≡ true) policy.maximum_candidates assessments
            (any_self assessments)

      pub first_evidence-Covers : Covers is_assessed (first_evidence fs policy s assessments items)
      unfolding first_evidence
      first_evidence-Covers =
          collect-Covers is_assessed policy s (ranks_from fs 1 items [])
            (entry_volatility_cap fs policy items) items
            (ok (empty_evidence fs policy s assessments [])) items-assessed
            (ranks_from-All 1 items [])
            (record {
              table = empty_evidence fs policy s assessments [];
              there = refl;
              keys = empty_evidence-all assessments [];
            })

      -- However the loop over the entrants ends, its evidence is there.
      pub ended-Covers :
          (first : Dict (List String)) (r : Round fs)
          → first_evidence fs policy s assessments items ≡ ok first
          → compete_all fs policy s
              (entrants_of fs policy s items)
              (first_round fs policy s items first)
            ≡ ok r
          → Covers is_assessed r.evidence
      ended-Covers first r collected played =
          compete_all-Covers is_assessed policy s (entrants_of fs policy s items)
            (first_round fs policy s items first) r played
            (All-kept (λ x. is_assessed x.pair ≡ true) _ items items-assessed)
            (All-take (λ x. is_assessed x.pair ≡ true) policy.maximum_positions
              (sort_by (better fs) (retained_of fs policy s items))
              (All-sort_by (better fs) (λ x. is_assessed x.pair ≡ true) _
                (All-kept (λ x. is_assessed x.pair ≡ true) _ items items-assessed)))
            (subst (Covers is_assessed) collected first_evidence-Covers)
