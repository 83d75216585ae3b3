-- ===== src/Rebalance/Decisions/Storing.antt =====
-- What is saved is listed, once.
use investment_research_engi.Base.{
  ℕ, ◌≤◌, ◌<◌, ◌≡◌, refl, ◌∙◌, ap, String, Bool, ◌||◌, List, ◌∷◌, arith, length, any, keep,
  take-all, str_eq, ◌==◌, Bool-cases, inl, inr, if◌then◌else◌, sym, str_eq_refl,
}
use investment_research_engi.Base.Result.{ok, raise_if, >>=-returns}
use investment_research_engi.Base.Sorting.{sort_by, length-sort_by, any-sort_by}
use investment_research_engi.Ledger.Accounting.{LedgerError, get}
use investment_research_engi.Rebalance.Floats.{Floats}
use investment_research_engi.Rebalance.Decisions.{
  Decision, Books, save_rebalance_decision, list_rebalance_decisions, later,
}

module _ (fs : Floats) where
  abbrev pub own : String → List (Decision fs) → List (Decision fs)
  own portfolio_id = keep (λ d. str_eq d.portfolio_id portfolio_id)

  abbrev pub is_saved : String → List (Decision fs) → Bool
  is_saved id = any (λ e. str_eq e.decision_id id)

  listed_lem :
      (portfolio_id : String) (limit : ℕ) (books : Books fs) {out : List (Decision fs)}
      → list_rebalance_decisions fs portfolio_id limit books ≡ ok out
      → length (own portfolio_id books.decisions) ≤ limit
      → out ≡ sort_by (later fs) (own portfolio_id books.decisions)
  unfolding list_rebalance_decisions
  listed_lem portfolio_id limit books h few =
      let rows = own portfolio_id books.decisions in
      let (_, _, h₁) = >>=-returns (raise_if (limit == 0) LedgerError.limit_not_positive) _ h in
      let (_, _, h₂) = >>=-returns (get portfolio_id books.ledger) _ h₁ in
      let whole =
        take-all limit (sort_by (later fs) rows) (rw (length-sort_by (later fs) rows) few) in
      ground arith

  -- Saving and listing: a decision that is saved under a new id is listed for its portfolio, together
  -- with those listed before and with nothing else, as long as the limit has room for them all; a second
  -- decision under the same id is ignored.
  pub list-save :
      (d : Decision fs) (limit : ℕ) (books : Books fs) (before after : List (Decision fs))
      (p : Decision fs → Bool)
      → list_rebalance_decisions fs d.portfolio_id limit books ≡ ok before
      → list_rebalance_decisions fs d.portfolio_id limit (save_rebalance_decision fs d books)
        ≡ ok after
      → length (own d.portfolio_id books.decisions) < limit
      → let known = is_saved d.decision_id books.decisions in
        any p after ≡ (if known then any p before else p d || any p before)
  unfolding save_rebalance_decision
  list-save d limit books before after p h k room =
      let rows = own d.portfolio_id books.decisions in
      let listed = listed_lem d.portfolio_id limit books h (omega arith) in
      elim (Bool-cases (is_saved d.decision_id books.decisions)) [
        | inl known ↦
            let again = listed_lem d.portfolio_id limit books (rw known at k) (omega arith) in
            rw known (ap (any p) (again ∙ sym listed))
        | inr new ↦
            let books' = record books { decisions = d ∷ books.decisions } in
            let added : own d.portfolio_id books'.decisions ≡ d ∷ rows =
              rw (str_eq_refl d.portfolio_id) refl in
            let both =
              listed_lem d.portfolio_id limit books' (rw new at k)
                (rw added (omega (arith, room))) in
            rw new (
              ap (any p) both
              ∙ any-sort_by (later fs) p (own d.portfolio_id books'.decisions)
              ∙ ap (any p) added
              ∙ ap (λ b. p d || b) (sym (ap (any p) listed ∙ any-sort_by (later fs) p rows)))
      ]
