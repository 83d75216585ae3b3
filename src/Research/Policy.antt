-- ===== src/Research/Policy.antt =====
-- src/investment/crypto/research/{candidate,validation}.py: the periods of a validation and the
-- comparison of a challenger with the champion. Floats are a parameter: only their comparisons matter.
use investment_research_engi.Base.{
  ℕ, ◌+◌, ◌*◌, ◌≡◌, ◌≤◌, ◌↔◌, String, Bool, true, false, Option, none, some, if◌then◌else◌, not,
  List, [], ◌∷◌, ◌++◌, leb, arith,
}
use investment_research_engi.Research.Domain.{ResearchPeriod, ValidationMethod, CandidateEvaluation}

-- `float` with the comparisons that the policy makes.
pub record Floats : Type 1 where
  pub Float : Type 0
  pub zero_f : Float
  pub lt_f : Float → Float → Bool
  pub le_f : Float → Float → Bool

abbrev pub day : ℕ
day = 86_400_000_000

-- `HoldoutValidation.validate_periods` and `WalkForwardValidation.validate_periods`
unfoldable pub validation_checks :
    ValidationMethod → ℕ → ResearchPeriod → ResearchPeriod → List String
validation_checks ValidationMethod.holdout purge_days train validation =
    if leb train.end validation.start then [] else "TRAIN_OVERLAPS_VALIDATION" ∷ []
validation_checks ValidationMethod.walk_forward purge_days train validation =
    if leb (train.end + purge_days * day) validation.start then [] else "PURGE_GAP_VIOLATION" ∷ []

abbrev pub gap : ValidationMethod → ℕ → ℕ
gap ValidationMethod.holdout purge_days = 0
gap ValidationMethod.walk_forward purge_days = purge_days * day

-- A validation has no findings exactly if it starts after the training ends, and after the purge gap
-- where the method is walk-forward.
pub validation_checks-disjoint :
    (m : ValidationMethod) (purge_days : ℕ) (train validation : ResearchPeriod)
    → (validation_checks m purge_days train validation ≡ [])
      ↔ (train.end + gap m purge_days ≤ validation.start)
unfolding validation_checks
validation_checks-disjoint ValidationMethod.holdout purge_days train validation =
    ((λ h. ground arith), (λ h. ground arith))
validation_checks-disjoint ValidationMethod.walk_forward purge_days train validation =
    ((λ h. ground arith), (λ h. ground arith))

module _ (fs : Floats) where
  open fs use {Float, zero_f, lt_f, le_f}

  -- The fields of `PerformanceMetrics` that the policy reads.
  pub record PerformanceMetrics : Type 0 where
    pub sharpe_ratio : Option Float
    pub maximum_drawdown : Float
    pub fee_adjusted_return : Float

  abbrev pub sharpe_below : Option Float → Option Float → Bool
  sharpe_below none challenger = false
  sharpe_below (some champion) none = true
  sharpe_below (some champion) (some challenger) = lt_f challenger champion

  abbrev reason : Bool → String → List String
  reason true text = text ∷ []
  reason false text = []

  abbrev is_nil : List String → Bool
  is_nil [] = true
  is_nil (_ ∷ _) = false

  abbrev reasons_of : PerformanceMetrics → PerformanceMetrics → Bool → List String
  reasons_of champion challenger successful =
      reason (not successful) "VALIDATION_FAILED"
      ++ (reason (sharpe_below champion.sharpe_ratio challenger.sharpe_ratio)
            "SHARPE_BELOW_CHAMPION"
          ++ (reason (lt_f challenger.maximum_drawdown champion.maximum_drawdown)
                "DRAWDOWN_WORSE_THAN_CHAMPION"
              ++ reason (le_f challenger.fee_adjusted_return zero_f)
                  "FEE_ADJUSTED_RETURN_NOT_POSITIVE"))

  -- `ConservativeCandidateEvaluationPolicy.evaluate`
  unfoldable pub evaluate :
      String → PerformanceMetrics → PerformanceMetrics → Bool → CandidateEvaluation
  evaluate version champion challenger successful = record {
    passed = is_nil (reasons_of champion challenger successful);
    policy_version = version;
    reasons = reasons_of champion challenger successful;
  }

  -- A challenger passes exactly if the validation succeeded, its Sharpe ratio is there and not below the
  -- champion's where the champion has one, its drawdown is not worse, and its return after fees is
  -- positive.
  pub evaluate-passes :
      (version : String) (champion challenger : PerformanceMetrics) (successful : Bool)
      → ((evaluate version champion challenger successful).passed ≡ true) ↔ (
          (successful ≡ true)
          × (sharpe_below champion.sharpe_ratio challenger.sharpe_ratio ≡ false)
          × (lt_f challenger.maximum_drawdown champion.maximum_drawdown ≡ false)
          × (le_f challenger.fee_adjusted_return zero_f ≡ false))
  unfolding evaluate
  evaluate-passes version champion challenger successful =
      ((λ h. ground arith), (λ h. ground arith))
