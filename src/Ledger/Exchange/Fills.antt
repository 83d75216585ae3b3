-- ===== src/Ledger/Exchange/Fills.antt =====
-- An intent is filled once, in full.
use investment_research_engi.Base.{ℕ, String, ◌≡◌, refl, Option, none, some, arith, str_eq_refl}
use investment_research_engi.Base.Dict.{lookup, lookup-insert}
use investment_research_engi.Base.Result.{Result, ok, err}
use investment_research_engi.Decimal.{Decimal}
use investment_research_engi.Ledger.Orders.{ApprovedOrder, ExecutionReport, DomainError}
use investment_research_engi.Ledger.Exchange.{
  Gateway, submit, symbol_of, remember, price_and_fill, submit_new,
}

remember-stores :
    (id : String) (g : Gateway) (v : Result DomainError ExecutionReport) (r : ExecutionReport)
    → (remember id g v).0 ≡ ok r
    → lookup id (remember id g v).1.reports ≡ some r
remember-stores id g (ok r') r h =
    rw (lookup-insert id id r' g.reports, str_eq_refl id) (ground arith)
remember-stores id g (err e) r h = absurd (ground arith)

price_and_fill-stores :
    (g : Gateway) (o : ApprovedOrder) (now : ℕ) (price : Option Decimal) (r : ExecutionReport)
    → (price_and_fill g o now price).0 ≡ ok r
    → lookup o.intent.intent_id (price_and_fill g o now price).1.reports ≡ some r
price_and_fill-stores g o now none r h = absurd (ground arith)
price_and_fill-stores g o now (some reference) r h = remember-stores o.intent.intent_id g _ r h

submit_new-stores :
    (g : Gateway) (o : ApprovedOrder) (now : ℕ) (known : Option ExecutionReport)
    (r : ExecutionReport)
    → lookup o.intent.intent_id g.reports ≡ known
    → (submit_new g o now known).0 ≡ ok r
    → lookup o.intent.intent_id (submit_new g o now known).1.reports ≡ some r
submit_new-stores g o now (some r') r found h = ground arith
submit_new-stores g o now none r found h =
    price_and_fill-stores g o now (lookup (symbol_of o.intent.pair) g.prices) r h

submit-stores :
    (g : Gateway) (o : ApprovedOrder) (now : ℕ) (r : ExecutionReport)
    → (submit g o now).0 ≡ ok r
    → lookup o.intent.intent_id (submit g o now).1.reports ≡ some r
unfolding submit
submit-stores g o now r h = submit_new-stores g o now (lookup o.intent.intent_id g.reports) r refl h

submit-known :
    (g : Gateway) (o : ApprovedOrder) (now : ℕ) (r : ExecutionReport)
    → lookup o.intent.intent_id g.reports ≡ some r
    → submit g o now ≡ (ok r, g)
unfolding submit
submit-known g o now r h = rw h

-- Whatever the clock and the prices: once an intent has a report, every order for that intent gets the
-- same report, and the gateway does not change.
pub submit-once :
    (g : Gateway) (o o' : ApprovedOrder) (now now' : ℕ) (r : ExecutionReport)
    → (submit g o now).0 ≡ ok r
    → o'.intent.intent_id ≡ o.intent.intent_id
    → submit (submit g o now).1 o' now' ≡ (ok r, (submit g o now).1)
submit-once g o o' now now' r h same =
    submit-known (submit g o now).1 o' now' r (rw same (submit-stores g o now r h))
