-- ===== src/Rebalance/Universe.antt =====
-- src/investment/crypto/domain/universe.py: the markets that were known at a time. An asset is its
-- symbol.
use investment_research_engi.Base.{
  ℕ, ◌≡◌, String, Bool, true, false, Option, none, some, List, [], ◌∷◌, ◌&&◌, ◌||◌, not, arith, any,
  all, keep, map, str_eq, leb, ltb, ◌==◌, Bool-cases, inl, inr,
}
use investment_research_engi.Base.Result.{Result, ok, ◌>>◌, raise_if}
use investment_research_engi.Ledger.Orders.{TradingPair}
use investment_research_engi.Ledger.Exchange.{symbol_of}

pub record UniverseMember : Type 0 where
  pub pair : TradingPair
  pub warning : Bool
  pub observed_at : ℕ

pub record UniverseSnapshot : Type 0 where
  pub observed_at : ℕ
  pub members : List UniverseMember

pub data UniverseError : Type 0 where
  duplicate_pairs mismatched_times not_ordered : UniverseError

abbrev has_duplicates : List String → Bool
has_duplicates [] = false
has_duplicates (x ∷ xs) = any (λ y. str_eq y x) xs || has_duplicates xs

-- `UniverseSnapshot.__post_init__`
unfoldable pub validate_snapshot : UniverseSnapshot → Result UniverseError UniverseSnapshot
validate_snapshot s = do
  raise_if (has_duplicates (map (λ m. symbol_of m.pair) s.members)) UniverseError.duplicate_pairs
  raise_if (any (λ m. not (m.observed_at == s.observed_at)) s.members)
      UniverseError.mismatched_times
  ok s

-- `any(left.observed_at >= right.observed_at for left, right in zip(snapshots, snapshots[1:]))`
abbrev is_disordered : List UniverseSnapshot → Bool
is_disordered [] = false
is_disordered (x ∷ []) = false
is_disordered (x ∷ y ∷ rest) = leb y.observed_at x.observed_at || is_disordered (y ∷ rest)

-- `UniverseHistory.__post_init__`
unfoldable pub validate_history :
    List UniverseSnapshot → Result UniverseError (List UniverseSnapshot)
validate_history snapshots = do
  raise_if (is_disordered snapshots) UniverseError.not_ordered
  ok snapshots

abbrev last_of : List UniverseSnapshot → Option UniverseSnapshot
last_of [] = none
last_of (x ∷ []) = some x
last_of (x ∷ y ∷ rest) = last_of (y ∷ rest)

-- `UniverseHistory.known_at`
unfoldable pub known_at : List UniverseSnapshot → ℕ → Option UniverseSnapshot
known_at snapshots as_of = last_of (keep (λ s. leb s.observed_at as_of) snapshots)

-- The latest of the known snapshots, by comparing times.
abbrev is_latest : List UniverseSnapshot → ℕ → UniverseSnapshot → Bool
is_latest snapshots as_of s =
    leb s.observed_at as_of
    && all (λ t. ltb as_of t.observed_at || leb t.observed_at s.observed_at) snapshots

later_unknown :
    (x : UniverseSnapshot) (rest : List UniverseSnapshot) (as_of : ℕ)
    → is_disordered (x ∷ rest) ≡ false
    → leb x.observed_at as_of ≡ false
    → keep (λ s. leb s.observed_at as_of) (x ∷ rest) ≡ []
later_unknown x [] as_of h late = ground arith
later_unknown x (y ∷ rest) as_of h late =
    let next = later_unknown y rest as_of (ground arith) (ground arith) in ground arith

later_all :
    (x : UniverseSnapshot) (rest : List UniverseSnapshot) (as_of n : ℕ)
    → is_disordered (x ∷ rest) ≡ false
    → leb x.observed_at as_of ≡ false
    → all (λ t. ltb as_of t.observed_at || leb t.observed_at n) (x ∷ rest) ≡ true
later_all x [] as_of n h late = ground arith
later_all x (y ∷ rest) as_of n h late =
    let next = later_all y rest as_of n (ground arith) (ground arith) in ground arith

latest_lem :
    (x : UniverseSnapshot) (rest : List UniverseSnapshot) (as_of : ℕ) (s : UniverseSnapshot)
    → is_disordered (x ∷ rest) ≡ false
    → known_at (x ∷ rest) as_of ≡ some s
    → is_latest (x ∷ rest) as_of s ≡ true
unfolding known_at
latest_lem x [] as_of s h k = ground arith
latest_lem x (y ∷ rest) as_of s h k = elim (Bool-cases (leb y.observed_at as_of)) [
  | inl known ↦
      let same : known_at (y ∷ rest) as_of ≡ some s = ground arith in
      let next = latest_lem y rest as_of s (ground arith) same in ground arith
  | inr unknown ↦
      let nothing = later_unknown y rest as_of (ground arith) unknown in
      let others = later_all y rest as_of s.observed_at (ground arith) unknown in
      let k' = rw nothing at k in ground arith
]

-- A snapshot that a validated history gives was observed by the time asked for, and no snapshot that was
-- observed by then is later.
pub known_at-latest :
    (snapshots history : List UniverseSnapshot) (as_of : ℕ) (s : UniverseSnapshot)
    → validate_history snapshots ≡ ok history
    → known_at history as_of ≡ some s
    → is_latest history as_of s ≡ true
unfolding validate_history known_at
known_at-latest snapshots [] as_of s h k = absurd (ground arith)
known_at-latest snapshots (x ∷ rest) as_of s h k = latest_lem x rest as_of s (ground arith) k
