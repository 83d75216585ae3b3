-- ===== src/Base/Order.antt =====
-- Dicts listed by key, the latest first: `sorted(paths, reverse=True)`.
use Prim.Native.Nat.{Ordering, suc}
use Prim.Native.String.{String, compare}
use mathlib.Core.Path.{◌≡◌, refl, ap, ◌∙◌}
use mathlib.Core.Bool.{Bool, true, false, ◌||◌}
use mathlib.Core.Option.{some}
use mathlib.Core.List.{[], ◌∷◌}
use native.Mathlib.Omega.{arith}
use investment_research_engi.Base.Tests.{if◌then◌else◌}
use investment_research_engi.Base.Lists.{length, any}
use investment_research_engi.Base.Dict.{Dict, lookup}

abbrev is_before : Ordering → Bool
is_before Ordering.lt = true
is_before _ = false

unfoldable pub str_lt : String → String → Bool
str_lt s t = is_before (compare s t)

module _ {ℓ} {V : Type ℓ} where
  unfoldable pub place : String × V → Dict V → Dict V
  place e [] = e ∷ []
  place e (x ∷ d) = let rest = place e d in if str_lt e.0 x.0 then x ∷ rest else e ∷ x ∷ d

  unfoldable pub sort_latest : Dict V → Dict V
  unfolding place
  sort_latest [] = []
  sort_latest (e ∷ d) = place e (sort_latest d)

module _ {ℓ} {V : Type ℓ} (p : String × V → Bool) where
  any-place : (e : String × V) (d : Dict V) → any p (place e d) ≡ p e || any p d
  unfolding place
  any-place e [] = refl
  any-place e (x ∷ d) = ground (arith, any-place e d)

  -- Sorting neither adds nor loses an entry.
  pub any-sort_latest : (d : Dict V) → any p (sort_latest d) ≡ any p d
  unfolding sort_latest
  any-sort_latest [] = refl
  any-sort_latest (e ∷ d) = rw (any-place e (sort_latest d)) (rw (any-sort_latest d))

module _ {ℓ} {V : Type ℓ} where
  length-place : (e : String × V) (d : Dict V) → length (place e d) ≡ suc (length d)
  unfolding place
  length-place e [] = refl
  length-place e (x ∷ d) = ground (arith, length-place e d)

  pub length-sort_latest : (d : Dict V) → length (sort_latest d) ≡ length d
  unfolding sort_latest
  length-sort_latest [] = refl
  length-sort_latest (e ∷ d) = length-place e (sort_latest d) ∙ ap suc (length-sort_latest d)

  -- An entry that is found by its key is met by a search through all entries.
  pub any-lookup :
      (p : V → Bool) (k : String) (v : V) (d : Dict V)
      → lookup k d ≡ some v
      → p v ≡ true
      → any (λ e. p e.1) d ≡ true
  unfolding lookup
  any-lookup p k v [] h q = cc
  any-lookup p k v ((j, w) ∷ d) h q = ground (arith, any-lookup p k v d)
