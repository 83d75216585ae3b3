-- ===== src/Rebalance/History/Holdings.antt =====
-- `_expired_holdings`: what makes a holding expire.
use investment_research_engi.Base.{
  ℕ, ◌+◌, ◌≡◌, refl, sym, ◌∙◌, ◌⊎◌, inl, inr, String, Bool, true, ◌&&◌, some, List, [], ◌∷◌, arith,
  any, All, All-keep, str_eq, leb, Option-cases,
}
use investment_research_engi.Base.Dict.{lookup, lookup-insert, lookup-erase}
use investment_research_engi.Base.Result.{ok}
use investment_research_engi.Base.Sorting.{sort_by, any-sort_by}
use investment_research_engi.Ledger.Orders.{OrderSide, side_eq}
use investment_research_engi.Ledger.Tables.{PaperExecutionRecord}
use investment_research_engi.Ledger.Accounting.{list_executions}
use investment_research_engi.Ledger.Exchange.{symbol_of}
use investment_research_engi.Rebalance.Floats.{Floats}
use investment_research_engi.Rebalance.Policy.{DynamicUniversePolicy}
use investment_research_engi.Rebalance.Decisions.{Books}
use investment_research_engi.Rebalance.History.{
  Replay, replay, replay_one, no_replay, earlier, is_due, expired_holdings, expired_after,
}

-- A purchase of the pair, a holding period ago or more.
abbrev pub is_old_purchase : String → ℕ → ℕ → PaperExecutionRecord → Bool
is_old_purchase pair period as_of e =
    side_eq e.side OrderSide.buy
    && str_eq (symbol_of e.pair) pair
    && leb (e.executed_at + period) as_of

module _ (pair : String) (period as_of : ℕ) where
  one-opened :
      (side : OrderSide) (e : PaperExecutionRecord) (r : Replay) (t : ℕ)
      → e.side ≡ side
      → lookup pair (replay_one side e r).opened_at ≡ some t
      → leb (t + period) as_of ≡ true
      → (is_old_purchase pair period as_of e ≡ true) ⊎ (lookup pair r.opened_at ≡ some t)
  unfolding replay
  one-opened OrderSide.buy e r t same h due =
      ground (arith, lookup-insert (symbol_of e.pair) pair e.executed_at r.opened_at)
  one-opened OrderSide.sell e r t same h due =
      ground (arith, lookup-erase (symbol_of e.pair) pair r.opened_at)

  replay-opened :
      (es : List PaperExecutionRecord) (r : Replay) (t : ℕ)
      → lookup pair (replay es r).opened_at ≡ some t
      → leb (t + period) as_of ≡ true
      → (any (is_old_purchase pair period as_of) es ≡ true) ⊎ (lookup pair r.opened_at ≡ some t)
  unfolding replay
  replay-opened [] r t h due = inr h
  replay-opened (e ∷ es) r t h due = elim (replay-opened es (replay_one e.side e r) t h due) [
    | inl later ↦ inl (ground arith)
    | inr now ↦ elim (one-opened e.side e r t refl now due) [
      | inl bought ↦ inl (ground arith)
      | inr before ↦ inr before
    ]
  ]

  due-bought :
      (es : List PaperExecutionRecord)
      → is_due as_of period (lookup pair (replay (sort_by earlier es) no_replay).opened_at) ≡ true
      → any (is_old_purchase pair period as_of) es ≡ true
  unfolding lookup
  due-bought es h =
      elim (Option-cases (lookup pair (replay (sort_by earlier es) no_replay).opened_at)) [
        | inl never ↦ absurd (ground arith)
        | inr (t, opened) ↦
            elim (replay-opened (sort_by earlier es) no_replay t opened (ground arith)) [
              | inl bought ↦
                  sym (any-sort_by earlier (is_old_purchase pair period as_of) es) ∙ bought
              | inr before ↦ absurd (ground arith)
            ]
      ]

module _ (fs : Floats) (policy : DynamicUniversePolicy fs) where
  -- A holding expires only if the ledger has a purchase of it that is a holding period old or more,
  -- among the executions that it lists.
  pub expired_holdings-bought :
      (portfolio_id : String) (held : List String) (as_of period : ℕ) (books : Books fs)
      (executions : List PaperExecutionRecord) (out : List String)
      → policy.maximum_holding_period ≡ some period
      → list_executions portfolio_id 10_000 books.ledger ≡ ok executions
      → expired_holdings fs policy portfolio_id held as_of books ≡ ok out
      → All (λ pair. any (is_old_purchase pair period as_of) executions ≡ true) out
  unfolding expired_holdings
  expired_holdings-bought portfolio_id [] as_of period books executions out timed listed h =
      let one : [] ≡ out = let h' = rw timed at h in ground arith in rw (sym one) tt
  expired_holdings-bought portfolio_id (p ∷ ps) as_of period books executions out timed listed h =
      let one : expired_after fs policy (p ∷ ps) as_of period executions ≡ out =
        let h' = rw timed at h in let h'' = rw listed at h' in ground arith in
      rw (sym one) (
        All-keep
          (λ pair.
            is_due as_of period
              (lookup pair (replay (sort_by earlier executions) no_replay).opened_at))
          (λ pair. any (is_old_purchase pair period as_of) executions ≡ true)
          (λ pair due. due-bought pair period as_of executions due) (p ∷ ps))
