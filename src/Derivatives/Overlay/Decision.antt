-- ===== src/Derivatives/Overlay/Decision.antt =====
-- What an overlay of `known_at` rests on.
use investment_research_engi.Base.{
  ℕ, ◌+◌, ◌≤◌, max, ◌≡◌, ap, sym, ◌∙◌, Bool, true, false, Option, none, some, arith,
}
use investment_research_engi.Base.Result.{Result, ok, err}
use investment_research_engi.Derivatives.Store.{
  StoreError, Store, SqueezeState, DerivativesSnapshot, SqueezeSignal, CrowdingSignal,
  observation_known_at,
}
use investment_research_engi.Derivatives.Context.{
  DerivativesOverlayRecommendation, BtcDerivativesDecisionOverlay, validate_overlay, time_after,
}
use investment_research_engi.Derivatives.Overlay.{
  judge, overlay_of, missing_overlay, Query, known_at, look_up, overlay_after, overlay_from,
  crowding_for,
}

abbrev pub is_ignited : SqueezeState → Bool
is_ignited SqueezeState.ignition = true
is_ignited SqueezeState.active = true
is_ignited _ = false

-- An observation that a query may confirm a risk by.
pub record IsConfirming (q : Query) (o : BtcDerivativesDecisionOverlay) : Type 0 where
  pub signal_time : ℕ
  pub snapshot_time : ℕ
  pub observed_state : SqueezeState
  pub signalled : o.signal_as_of ≡ some signal_time
  pub available : o.snapshot_available_at ≡ some snapshot_time
  pub in_state : o.state ≡ some observed_state
  pub known_signal : signal_time ≤ q.as_of
  pub known_snapshot : snapshot_time ≤ q.as_of
  pub fresh : q.as_of ≤ max snapshot_time signal_time + q.maximum_age
  pub ignited : is_ignited observed_state ≡ true

-- An overlay that passes its checks is not younger than the decision.
record Timed (o o' : BtcDerivativesDecisionOverlay) : Type 0 where
  same : o ≡ o'
  signal : time_after o.decision_as_of o.signal_as_of ≡ false
  snapshot : time_after o.decision_as_of o.snapshot_available_at ≡ false

validate_overlay-Timed :
    (o o' : BtcDerivativesDecisionOverlay) → validate_overlay o ≡ ok o' → Timed o o'
unfolding validate_overlay
validate_overlay-Timed o o' h = record {
  same = ground arith;
  signal = ground arith;
  snapshot = ground arith;
}

judge-confirms :
    (cutoff maximum_age : ℕ) (d : DerivativesSnapshot) (s : SqueezeSignal)
    → (judge cutoff maximum_age d s).recommendation
      ≡ DerivativesOverlayRecommendation.confirm_risk_on
    → (cutoff ≤ max d.available_at s.key.as_of + maximum_age) × (is_ignited s.state ≡ true)
judge-confirms cutoff maximum_age d s h = ground arith

overlay_from-confirms :
    (q : Query) (observation : Option (DerivativesSnapshot × SqueezeSignal))
    (crowding : Option CrowdingSignal) {o : BtcDerivativesDecisionOverlay}
    → overlay_from q observation crowding ≡ ok o
    → o.recommendation ≡ DerivativesOverlayRecommendation.confirm_risk_on
    → IsConfirming q o
overlay_from-confirms q none crowding {o} h confirmed =
    let v = validate_overlay-Timed (missing_overlay q.as_of q.symbol q.feature_version) o h in
    let unknown = ap (λ x. x.recommendation) v.same in absurd (ground arith)
overlay_from-confirms q (some (d, s)) crowding {o} h confirmed =
    let j = judge q.as_of q.maximum_age d s in
    let made = overlay_of q.as_of d s j crowding q.crowding_maximum_age in
    let v = validate_overlay-Timed made o h in
    let (fresh, ignited) =
      judge-confirms q.as_of q.maximum_age d s (ap (λ x. x.recommendation) v.same ∙ confirmed) in
    record {
      signal_time = s.key.as_of;
      snapshot_time = d.available_at;
      observed_state = s.state;
      signalled = sym (ap (λ x. x.signal_as_of) v.same);
      available = sym (ap (λ x. x.snapshot_available_at) v.same);
      in_state = sym (ap (λ x. x.state) v.same);
      known_signal = let t = v.signal in ground arith;
      known_snapshot = let t = v.snapshot in ground arith;
      fresh = fresh;
      ignited = ignited;
    }

overlay_after-confirms :
    (q : Query) (crowding : Option CrowdingSignal)
    (found : Result StoreError (Option (DerivativesSnapshot × SqueezeSignal)))
    {o : BtcDerivativesDecisionOverlay}
    → overlay_after q crowding found ≡ ok o
    → o.recommendation ≡ DerivativesOverlayRecommendation.confirm_risk_on
    → IsConfirming q o
overlay_after-confirms q crowding (err e) h confirmed = absurd (ground arith)
overlay_after-confirms q crowding (ok found) h confirmed =
    overlay_from-confirms q found crowding h confirmed

known_at-looks_up :
    (store : Store) (q : Query) {o : BtcDerivativesDecisionOverlay}
    → known_at store q ≡ ok o
    → look_up store q ≡ ok o
unfolding known_at
known_at-looks_up store q h = ground arith

-- Risk-on is confirmed only by an observation that was known at the time of the decision, snapshot and
-- signal, that is no older than the maximum age, and whose state is IGNITION or ACTIVE.
pub known_at-confirms :
    (store : Store) (q : Query) {o : BtcDerivativesDecisionOverlay}
    → known_at store q ≡ ok o
    → o.recommendation ≡ DerivativesOverlayRecommendation.confirm_risk_on
    → IsConfirming q o
unfolding look_up
known_at-confirms store q h confirmed =
    overlay_after-confirms q (crowding_for store q)
      (observation_known_at store q.symbol q.as_of q.feature_version) (known_at-looks_up store q h)
      confirmed
