-- ===== src/Derivatives/Overlay/Totality.antt =====
-- The checks of the overlay's constructor never stop `known_at`.
use investment_research_engi.Base.{
  ℕ, String, ◌≡◌, refl, Bool, true, false, Option, none, some, List, [], ◌∷◌, ◌&&◌, not, all,
  str_eq, str_eq_iff, leb, arith, ◌==◌,
}
use investment_research_engi.Base.Int.{neg_part, ◌-ℤ◌}
use investment_research_engi.Base.Result.{Result, ok, err}
use investment_research_engi.Derivatives.Store.{
  Store, DerivativesSnapshot, SqueezeSignal, CrowdingSignal, key_of, crowding_key_of, newest_known,
  is_compatible, find_snapshot, matched, observation_known_at, crowding_known_at, with_snapshot,
  crowding_with,
}
use investment_research_engi.Derivatives.Context.{
  OverlayError, BtcDerivativesDecisionOverlay, validate_overlay, is_unpaired, is_blank,
}
use investment_research_engi.Derivatives.Overlay.{
  Query, known_at, look_up, overlay_from, crowding_for, crowding_by, second, unique_after, since,
  effective_at, is_misconfigured,
}
use investment_research_engi.Derivatives.Overlay.Lookahead.{has_unique_ids, fits, newest-fits}

abbrev pub is_returned : Result OverlayError BtcDerivativesDecisionOverlay → Bool
is_returned (ok _) = true
is_returned (err _) = false

-- Each signal has a rate of its basis input with a source, or neither: `SqueezeSignal.__post_init__`.
abbrev is_paired : SqueezeSignal → Bool
is_paired s = not (is_unpaired s.basis_input_rate s.basis_input_source)

abbrev pub has_paired_rates : Store → Bool
has_paired_rates store = all is_paired store.signals

-- The rows are those of the symbol, no younger than the decision, and whole.
abbrev is_timely : ℕ → String → Option (DerivativesSnapshot × SqueezeSignal) → Bool
is_timely cutoff symbol none = true
is_timely cutoff symbol (some (d, s)) =
    leb d.available_at cutoff && leb s.key.as_of cutoff && str_eq d.symbol symbol && is_paired s

abbrev is_whole : Option SqueezeSignal → Bool
is_whole none = true
is_whole (some s) = is_paired s

newest_known-whole :
    (symbol : String) (cutoff : ℕ) (version : String) (ds : List DerivativesSnapshot)
    (rows : List SqueezeSignal)
    → all is_paired rows ≡ true
    → is_whole (newest_known key_of symbol cutoff version ds rows) ≡ true
unfolding newest_known
newest_known-whole symbol cutoff version ds [] h = refl
newest_known-whole symbol cutoff version ds (r ∷ rows) h =
    ground (arith, newest_known-whole symbol cutoff version ds rows)

-- A time that has come leaves an age that is not negative.
since-nonneg : (now time : ℕ) → leb time now ≡ true → (neg_part (since now time) == 0) ≡ true
unfolding ◌-ℤ◌
since-nonneg now time h = ground arith

abbrev is_timely_crowding : ℕ → Option CrowdingSignal → Bool
is_timely_crowding cutoff none = true
is_timely_crowding cutoff (some s) = leb s.key.as_of cutoff

overlay_from-returns :
    (q : Query) (observation : Option (DerivativesSnapshot × SqueezeSignal))
    (crowding : Option CrowdingSignal)
    → is_blank q.symbol ≡ false
    → is_timely q.as_of q.symbol observation ≡ true
    → is_timely_crowding q.as_of crowding ≡ true
    → is_returned (overlay_from q observation crowding) ≡ true
unfolding validate_overlay unique_after
overlay_from-returns q none crowding named h k = ground arith
overlay_from-returns q (some (d, s)) none named h k =
    ground (arith, str_eq_iff d.symbol q.symbol, since-nonneg q.as_of (effective_at d s))
overlay_from-returns q (some (d, s)) (some c) named h k = ground (
  arith,
  str_eq_iff d.symbol q.symbol,
  since-nonneg q.as_of (effective_at d s),
  since-nonneg q.as_of c.key.as_of,
)

matched-timely :
    (cutoff : ℕ) (symbol version : String) (ds : List DerivativesSnapshot) (s : SqueezeSignal)
    (found : Option DerivativesSnapshot)
    {observation : Option (DerivativesSnapshot × SqueezeSignal)}
    → find_snapshot s.key.snapshot_id ds ≡ found
    → is_compatible symbol cutoff version ds s.key ≡ true
    → is_paired s ≡ true
    → matched s found ≡ ok observation
    → is_timely cutoff symbol observation ≡ true
matched-timely cutoff symbol version ds s none same h whole k = ground arith
matched-timely cutoff symbol version ds s (some d) same h whole k = ground (
  arith,
  str_eq_iff d.symbol s.key.symbol,
  str_eq_iff s.key.symbol symbol,
  str_eq_iff d.symbol symbol,
)

with_snapshot-timely :
    (cutoff : ℕ) (symbol version : String) (ds : List DerivativesSnapshot)
    (found : Option SqueezeSignal) (unique : has_unique_ids ds ≡ true)
    {observation : Option (DerivativesSnapshot × SqueezeSignal)}
    → fits key_of cutoff symbol version ds unique found ≡ true
    → is_whole found ≡ true
    → with_snapshot found ds ≡ ok observation
    → is_timely cutoff symbol observation ≡ true
with_snapshot-timely cutoff symbol version ds none unique h whole k = ground arith
with_snapshot-timely cutoff symbol version ds (some s) unique h whole k =
    matched-timely cutoff symbol version ds s (find_snapshot s.key.snapshot_id ds) refl h whole k

crowding_with-timely :
    (cutoff : ℕ) (symbol version : String) (ds : List DerivativesSnapshot)
    (found : Option CrowdingSignal) (unique : has_unique_ids ds ≡ true)
    → fits crowding_key_of cutoff symbol version ds unique found ≡ true
    → is_timely_crowding cutoff (second (crowding_with found ds)) ≡ true
crowding_with-timely cutoff symbol version ds none unique h = refl
crowding_with-timely cutoff symbol version ds (some s) unique h = ground arith

crowding_by-timely :
    (store : Store) (q : Query) (version : Option String)
    → has_unique_ids store.snapshots ≡ true
    → is_timely_crowding q.as_of (crowding_by store q version) ≡ true
unfolding crowding_known_at
crowding_by-timely store q none unique = refl
crowding_by-timely store q (some version) unique =
    crowding_with-timely q.as_of q.symbol version store.snapshots _ unique
      (newest-fits crowding_key_of q.as_of q.symbol version store.snapshots unique store.crowding)

-- A query with a symbol, a version, a positive maximum age and, where it asks for crowding, a version and
-- a positive age for that, returns an overlay whenever the store finds its observation, or none, without
-- a mismatch, if each signal of the store has a basis input rate and its source, or neither.
pub known_at-returns :
    (store : Store) (q : Query) {observation : Option (DerivativesSnapshot × SqueezeSignal)}
    → has_unique_ids store.snapshots ≡ true
    → has_paired_rates store ≡ true
    → is_blank q.symbol ≡ false
    → is_blank q.feature_version ≡ false
    → (q.maximum_age == 0) ≡ false
    → is_misconfigured q.crowding_feature_version q.crowding_maximum_age ≡ false
    → observation_known_at store q.symbol q.as_of q.feature_version ≡ ok observation
    → is_returned (known_at store q) ≡ true
unfolding known_at look_up observation_known_at
known_at-returns store q {observation} unique whole symbolic named aged crowded found =
    let timely =
      with_snapshot-timely q.as_of q.symbol q.feature_version store.snapshots _ unique
        (newest-fits key_of q.as_of q.symbol q.feature_version store.snapshots unique store.signals)
        (newest_known-whole q.symbol q.as_of q.feature_version store.snapshots store.signals whole)
        found in
    let settled =
      overlay_from-returns q observation (crowding_for store q) symbolic timely
        (crowding_by-timely store q q.crowding_feature_version unique) in
    ground arith
