-- ===== src/Research/Service/Promotion.antt =====
-- What `CryptoResearchLifecycleService.promote` does to the files.
use investment_research_engi.Base.{
  ℕ, String, true, false, some, ◌≡◌, refl, if◌then◌else◌, List, [], ◌∷◌, str_eq, str_eq_iff,
  str_eq_refl, arith, length, ◌≤◌, ◌&&◌,
}
use investment_research_engi.Base.Dict.{Dict, lookup, lookup-insert}
use investment_research_engi.Base.Result.{ok, err}
use investment_research_engi.Research.Domain.{
  Experiment, ExperimentStatus, StrategyVersion, VersionStatus, with_status, transition,
}
use investment_research_engi.Research.Repository.{
  Files, FileError, is_active, actives, only, active_strategy,
}
use investment_research_engi.Research.Service.Monad.{ServiceError}
use investment_research_engi.Research.Service.{promote}

-- `promote` that raises has written no file.
pub promote-atomic :
    (id approver : String) (stripped : String → String) (now : ℕ) (s s' : Files) {e : ServiceError}
    → promote id approver stripped now s ≡ (err e, s')
    → s' ≡ s
unfolding promote transition
promote-atomic id approver stripped now s s' h = ground arith

-- A `promote` that returns had a CANDIDATE experiment; it stores the experiment as PROMOTED with its
-- approver. The version that the experiment names as its base is RETIRED and then its candidate version
-- is ACTIVE; every version under another id keeps its file, whatever its status.
pub promote-moves :
    (id approver : String) (stripped : String → String) (now : ℕ) (s s' : Files) {e e' : Experiment}
    {champion challenger : StrategyVersion} {b c : String} (v : String)
    → lookup id s.experiments ≡ some e
    → e.base_strategy_version ≡ some b
    → e.candidate_strategy_version ≡ some c
    → lookup b s.strategies ≡ some champion
    → lookup c s.strategies ≡ some challenger
    → promote id approver stripped now s ≡ (ok e', s')
    → (e.status ≡ ExperimentStatus.candidate)
      × (e'.status ≡ ExperimentStatus.promoted)
      × (e'.approved_by ≡ some (stripped approver))
      × (lookup e.experiment_id s'.experiments ≡ some e')
      × (lookup v s'.strategies ≡ (
          if str_eq challenger.version_id v
          then some (with_status VersionStatus.active challenger)
          else if str_eq champion.version_id v
          then some (with_status VersionStatus.retired champion)
          else lookup v s.strategies))
unfolding promote transition
promote-moves id approver stripped now s s' v fe fb fc hb hc h =
    grind (arith, lookup-insert, str_eq_refl)

one_active :
    (name k : String) (d : Dict StrategyVersion) (w : StrategyVersion)
    → lookup k d ≡ some w
    → (str_eq w.strategy_name name && is_active w.status) ≡ true
    → 1 ≤ length (actives name d)
unfolding lookup
one_active name k [] w h t = absurd (ground arith)
one_active name k ((i, v) ∷ d) w h t = ground (arith, one_active name k d w)

two_active :
    (name k j : String) (d : Dict StrategyVersion) (w u : StrategyVersion)
    → str_eq k j ≡ false
    → lookup k d ≡ some w
    → lookup j d ≡ some u
    → (str_eq w.strategy_name name && is_active w.status) ≡ true
    → (str_eq u.strategy_name name && is_active u.status) ≡ true
    → 2 ≤ length (actives name d)
unfolding lookup
two_active name k j [] w u apart h₁ h₂ t₁ t₂ = absurd (ground arith)
two_active name k j ((i, v) ∷ d) w u apart h₁ h₂ t₁ t₂ = ground (
  arith,
  str_eq_iff i k,
  str_eq_iff i j,
  str_eq_iff k j,
  one_active name k d w,
  one_active name j d u,
  two_active name k j d w u apart,
)

only-two : (vs : List StrategyVersion) → 2 ≤ length vs → only vs ≡ err FileError.no_single_active
only-two [] h = refl
only-two (v ∷ []) h = absurd (omega arith)
only-two (_ ∷ _ ∷ _) h = refl

-- Where a version under a third id is ACTIVE for the candidate's strategy (it was promoted before, by
-- an experiment with the same base), `promote` does not see it: once it returns, `active_strategy`
-- of that strategy raises.
pub promote-two_champions :
    (id approver : String) (stripped : String → String) (now : ℕ) (s s' : Files) {e e' : Experiment}
    {champion challenger third : StrategyVersion} {b c : String} (v : String)
    → lookup id s.experiments ≡ some e
    → e.base_strategy_version ≡ some b
    → e.candidate_strategy_version ≡ some c
    → lookup b s.strategies ≡ some champion
    → lookup c s.strategies ≡ some challenger
    → promote id approver stripped now s ≡ (ok e', s')
    → lookup v s.strategies ≡ some third
    → third.status ≡ VersionStatus.active
    → third.strategy_name ≡ challenger.strategy_name
    → str_eq challenger.version_id v ≡ false
    → str_eq champion.version_id v ≡ false
    → active_strategy challenger.strategy_name s' ≡ err FileError.no_single_active
unfolding active_strategy
promote-two_champions id approver stripped now s s' {challenger = challenger} {third = third} v fe
      fb fc hb hc h hv active named apart other =
    let at_v = promote-moves id approver stripped now s s' v fe fb fc hb hc h in
    let at_c = promote-moves id approver stripped now s s' challenger.version_id fe fb fc hb hc h in
    let r = str_eq_refl challenger.version_id in
    let r' = str_eq_refl challenger.strategy_name in
    let k : lookup challenger.version_id s'.strategies
        ≡ some (with_status VersionStatus.active challenger) =
      ground arith in
    let j : lookup v s'.strategies ≡ some third = ground arith in
    only-two _ (
      two_active challenger.strategy_name challenger.version_id v s'.strategies
        (with_status VersionStatus.active challenger) third apart k j (ground arith) (ground arith))
