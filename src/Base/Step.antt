-- ===== src/Base/Step.antt =====
-- A method that may raise: it takes the state and gives back its result with the state that it
-- leaves. What was written before a raise stays written.
use mathlib.Core.Bool.{Bool, true, false}
use mathlib.Core.Path.{◌≡◌}
use native.Mathlib.Omega.{arith}
use mathlib.Core.Logic.{inl, inr}
use investment_research_engi.Base.Result.{Result, ok, err, Result-cases}

abbrev pub Step : Type 0 → Type 0 → Type 0 → Type 0
Step S E A = S → Result E A × S

module _ {S E : Type 0} where
  infixl 5 ◌>>=◌ ◌>>◌
  abbrev pub ◌>>=◌ : {A B : Type 0} → Step S E A → (A → Step S E B) → Step S E B
  ◌>>=◌ step next s = let (r, s') = step s in elim r [ ok a ↦ next a s' | err e ↦ (err e, s') ]

  abbrev pub ◌>>◌ : {B : Type 0} → Step S E (Unit {0}) → Step S E B → Step S E B
  step >> next = step >>= λ _. next

  abbrev pub modify : (S → S) → Step S E (Unit {0})
  modify f s = (ok tt, f s)

  -- `if c: raise e`
  abbrev pub raise_when : Bool → E → Step S E (Unit {0})
  raise_when true e s = (err e, s)
  raise_when false e s = (ok tt, s)

  module _ {A : Type 0} where
    abbrev pub pure : A → Step S E A
    pure a s = (ok a, s)

    abbrev pub raise : E → Step S E A
    raise e s = (err e, s)

    abbrev pub gets : (S → A) → Step S E A
    gets f s = (ok (f s), s)

  -- Both steps of a bind that returns have returned, one after the other.
  pub bound_returns :
      {A B : Type 0} (step : Step S E A) (next : A → Step S E B) (s s' : S) {out : B}
      → (step >>= next) s ≡ (ok out, s')
      → (mid : A) × (t : S) × (step s ≡ (ok mid, t)) × (next mid t ≡ (ok out, s'))
  bound_returns step next s s' h = elim (Result-cases (step s).0) [
    | inl (mid, same) ↦ (mid, (step s).1, ground arith, ground arith)
    | inr (e, same) ↦ absurd (ground arith)
  ]
