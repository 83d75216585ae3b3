-- ===== src/Market/Liquidity/Selection.antt =====
-- The choice among the ranked pairs: the first ones, with BTC in the last place where it is missing.
use investment_research_engi.Base.{
  ℕ, str_eq, any, ◌≡◌, ◌≤◌, refl, ap, suc, true, false, Option, none, some, List, [], ◌∷◌, take,
  arith, length, All, All-take, length-take, if◌then◌else◌, inl, inr, Bool-cases, subst,
}
use investment_research_engi.Ledger.Orders.{TradingPair}
use investment_research_engi.Market.Liquidity.{
  PointInTimeLiquidityUniverse, select, with_btc, replace_last, first_btc, pair_eq,
}

pub same_some {ℓ} : {A : Type ℓ} {a b : A} → some a ≡ some b → a ≡ b
same_some h = cc

-- `first_btc` finds a pair of the list, and putting it last keeps the length.
module _ {ℓ} (P : TradingPair → Type ℓ) where
  first_btc-All :
      (ps : List TradingPair) (btc : TradingPair) → All P ps → first_btc ps ≡ some btc → P btc
  first_btc-All [] btc h k = absurd (ground arith)
  first_btc-All (p ∷ ps) btc h k = elim (Bool-cases (str_eq p.base "BTC")) [
    | inl here ↦ subst P (same_some (rw here at k)) h.0
    | inr further ↦ first_btc-All ps btc h.1 (rw further at k)
  ]

  replace_last-All :
      (btc : TradingPair) (ps : List TradingPair) → P btc → All P ps → All P (replace_last btc ps)
  replace_last-All btc [] new h = (new, tt)
  replace_last-All btc (p ∷ []) new h = (new, tt)
  replace_last-All btc (p ∷ q ∷ ps) new h = (h.0, replace_last-All btc (q ∷ ps) new h.1)

  with_btc-All :
      (found : Option TradingPair) (ps : List TradingPair)
      → ((btc : TradingPair) → found ≡ some btc → P btc)
      → All P ps
      → All P (with_btc found ps)
  with_btc-All none ps new h = h
  with_btc-All (some btc) ps new h =
      elim (any (pair_eq btc) ps) as (λ t. All P (if t then ps else replace_last btc ps)) [
        | true ↦ h
        | false ↦ replace_last-All btc ps (new btc refl) h
      ]

  pub select-All :
      (u : PointInTimeLiquidityUniverse) (ranked : List TradingPair)
      → All P ranked
      → All P (select u ranked)
  unfolding select
  select-All u ranked h =
      let kept = All-take P u.maximum_assets ranked h in
      elim u.require_btc
        as (λ t. All P (
          if t
          then with_btc (first_btc ranked) (take u.maximum_assets ranked)
          else take u.maximum_assets ranked)) [
            | true ↦ with_btc-All (first_btc ranked) _ (λ btc. first_btc-All ranked btc h) kept
            | false ↦ kept
          ]

length-replace_last :
    (btc p : TradingPair) (ps : List TradingPair)
    → length (replace_last btc (p ∷ ps)) ≡ length (p ∷ ps)
length-replace_last btc p [] = refl
length-replace_last btc p (q ∷ ps) = ap suc (length-replace_last btc q ps)

replace_last-bounded :
    (btc : TradingPair) (ps : List TradingPair) (n : ℕ)
    → 1 ≤ n
    → length ps ≤ n
    → length (replace_last btc ps) ≤ n
replace_last-bounded btc [] n positive h = positive
replace_last-bounded btc (p ∷ ps) n positive h = rw (length-replace_last btc p ps) h

with_btc-bounded :
    (found : Option TradingPair) (ps : List TradingPair) (n : ℕ)
    → 1 ≤ n
    → length ps ≤ n
    → length (with_btc found ps) ≤ n
with_btc-bounded none ps n positive h = h
with_btc-bounded (some btc) ps n positive h =
    ground (arith, replace_last-bounded btc ps n positive h)

pub select-bounded :
    (u : PointInTimeLiquidityUniverse) (ranked : List TradingPair)
    → 1 ≤ u.maximum_assets
    → length (select u ranked) ≤ u.maximum_assets
unfolding select
select-bounded u ranked positive =
    let short = length-take u.maximum_assets ranked in
    ground (arith, short, with_btc-bounded (first_btc ranked) _ u.maximum_assets positive short)
