-- ===== src/Rebalance/History/Confirmations.antt =====
-- The counts of confirmations are the lengths of unbroken runs.
use investment_research_engi.Base.{
  ℕ, suc, ◌+◌, ◌-◌, ◌≤◌, ◌≡◌, refl, ◌∙◌, ap, sym, String, Bool, true, ◌&&◌, not, none, some, List,
  [], ◌∷◌, arith, keep, map, length, length-take, length-map, leb, if◌then◌else◌, str_eq,
  str_eq_refl, str_eq_iff, Bool-cases, inl, inr,
}
use investment_research_engi.Base.Dict.{Dict, lookup, insert, lookup-insert}
use investment_research_engi.Base.Result.{ok}
use investment_research_engi.Derivatives.Overlay.{unique_after}
use investment_research_engi.Rebalance.Floats.{Floats}
use investment_research_engi.Rebalance.Policy.{DynamicUniversePolicy}
use investment_research_engi.Rebalance.Candidates.{is_in, count_of}
use investment_research_engi.Rebalance.Decisions.{
  StoredAssessment, Decision, Books, list_rebalance_decisions,
}
use investment_research_engi.Rebalance.History.{
  bump, count_all, passing_pairs, recent_own, prior_counts,
}

-- How many of the sets, from the first on, a pair is in without a gap.
abbrev pub streak : String → List (List String) → ℕ
streak pair [] = 0
streak pair (passing ∷ later) =
    let rest = streak pair later in if is_in pair passing then suc rest else 0

abbrev is_distinct : List String → Bool
is_distinct [] = true
is_distinct (x ∷ xs) = not (is_in x xs) && is_distinct xs

is_in-keep :
    (pair : String) (p : String → Bool) (xs : List String)
    → is_in pair (keep p xs) ≡ (p pair && is_in pair xs)
is_in-keep pair p [] = ground arith
is_in-keep pair p (x ∷ xs) = ground (arith, str_eq_iff x pair, is_in-keep pair p xs)

keep-distinct :
    (p : String → Bool) (xs : List String) → is_distinct xs ≡ true → is_distinct (keep p xs) ≡ true
keep-distinct p [] h = refl
keep-distinct p (x ∷ xs) h = ground (arith, is_in-keep x p xs, keep-distinct p xs)

unique-is_in :
    (seen xs : List String) (pair : String)
    → is_in pair (unique_after seen xs) ≡ (not (is_in pair seen) && is_in pair xs)
unfolding unique_after
unique-is_in seen [] pair = ground arith
unique-is_in seen (x ∷ xs) pair = ground (arith, str_eq_iff x pair, unique-is_in (x ∷ seen) xs pair)

unique-distinct : (seen xs : List String) → is_distinct (unique_after seen xs) ≡ true
unfolding unique_after
unique-distinct seen [] = refl
unique-distinct seen (x ∷ xs) =
    ground (arith, str_eq_refl x, unique-is_in (x ∷ seen) xs x, unique-distinct (x ∷ seen) xs)

count-insert :
    (p pair : String) (n : ℕ) (counts : Dict ℕ)
    → count_of (insert p n counts) pair ≡ (if str_eq p pair then n else count_of counts pair)
count-insert p pair n counts = ground (arith, lookup-insert p pair n counts)

count-bump :
    (still : List String) (counts : Dict ℕ) (pair : String)
    → is_distinct still ≡ true
    → count_of (bump still counts) pair ≡ count_of counts pair + (if is_in pair still then 1 else 0)
unfolding bump
count-bump [] counts pair h = ground arith
count-bump (p ∷ ps) counts pair h = ground (
  arith,
  str_eq_iff p pair,
  count-insert p pair (count_of counts p + 1) counts,
  count-bump ps (insert p (count_of counts p + 1) counts) pair,
)

count_all-some :
    (still : List String) (counts : Dict ℕ) (records : List (List String)) (pair : String)
    → is_distinct still ≡ true
    → count_of (count_all (some still) counts records) pair
      ≡ count_of counts pair + (if is_in pair still then streak pair records else 0)
unfolding count_all
count_all-some still counts [] pair h = ground arith
count_all-some still counts (passing ∷ later) pair h =
    let both = keep (λ p. is_in p passing) still in
    let fine = keep-distinct (λ p. is_in p passing) still h in
    ground (
      arith,
      is_in-keep pair (λ p. is_in p passing) still,
      count-bump both counts pair fine,
      count_all-some both (bump both counts) later pair fine,
    )

count_all-none :
    (passing : List String) (later : List (List String)) (pair : String)
    → is_distinct passing ≡ true
    → count_of (count_all none [] (passing ∷ later)) pair ≡ streak pair (passing ∷ later)
unfolding count_all lookup
count_all-none passing later pair h =
    ground
      (arith, count-bump passing [] pair h, count_all-some passing (bump passing []) later pair h)

streak-length :
    (pair : String) (records : List (List String)) → streak pair records ≤ length records
streak-length pair [] = omega arith
streak-length pair (passing ∷ later) = ground (arith, streak-length pair later)

module _ (fs : Floats) (policy : DynamicUniversePolicy fs) where
  abbrev pub records_of : (StoredAssessment fs → Bool) → List (Decision fs) → List (List String)
  records_of test decisions = map (passing_pairs fs policy test) (recent_own fs policy decisions)

  count_all-streak :
      (test : StoredAssessment fs → Bool) (decisions : List (Decision fs)) (pair : String)
      → count_of (count_all none [] (map (passing_pairs fs policy test) decisions)) pair
        ≡ streak pair (map (passing_pairs fs policy test) decisions)
  unfolding count_all lookup
  count_all-streak test [] pair = refl
  count_all-streak test (d ∷ ds) pair =
      count_all-none (passing_pairs fs policy test d) (map (passing_pairs fs policy test) ds) pair
        (unique-distinct [] (map (λ a. a.pair) (keep test d.assessments)))

  alone_lem :
      (test : StoredAssessment fs → Bool) (decisions : List (Decision fs)) (counts : Dict ℕ)
      (pair : String)
      → policy.required_entry_confirmations - 1 ≡ 0
      → counts ≡ []
      → count_of counts pair ≡ streak pair (records_of test decisions)
  unfolding lookup
  alone_lem test decisions counts pair h same = rw h (rw same refl)

  -- The count of a pair is the number of the version's latest decisions, without a gap, in which it
  -- passed, and never more than the prior confirmations that an entry requires.
  pub prior_counts-streak :
      (test : StoredAssessment fs → Bool) (portfolio_id : String) (books : Books fs)
      (decisions : List (Decision fs)) (counts : Dict ℕ) (pair : String)
      → list_rebalance_decisions fs portfolio_id 100 books ≡ ok decisions
      → prior_counts fs policy test portfolio_id books ≡ ok counts
      → (count_of counts pair ≡ streak pair (records_of test decisions))
        × (count_of counts pair ≤ policy.required_entry_confirmations - 1)
  unfolding prior_counts
  prior_counts-streak test portfolio_id books decisions counts pair h k =
      let recent = recent_own fs policy decisions in
      let bound = streak-length pair (records_of test decisions) in
      let sizes = length-map (passing_pairs fs policy test) recent in
      let few =
        length-take (policy.required_entry_confirmations - 1)
          (keep (λ d. str_eq d.strategy_version policy.strategy_version) decisions) in
      let same : count_of counts pair ≡ streak pair (records_of test decisions) =
        elim (Bool-cases (leb policy.required_entry_confirmations 1)) [
          | inl alone ↦ alone_lem test decisions counts pair (ground arith) (ground arith)
          | inr several ↦
              let one : count_all none [] (records_of test decisions) ≡ counts =
                let k' = rw several at k in let k'' = rw h at k' in ground arith in
              ap (λ c. count_of c pair) (sym one) ∙ count_all-streak test recent pair
        ] in
      (same, ground arith)
