-- ===== src/Base/Sorting.antt =====
-- Python's `sorted` with a key: a stable sort, of which only the order that it makes is used.
use Prim.Native.Nat.{suc}
use mathlib.Core.Path.{◌≡◌, refl, ap, ◌∙◌}
use mathlib.Core.Bool.{Bool, true, false, ◌||◌}
use mathlib.Core.List.{List, [], ◌∷◌}
use native.Mathlib.Omega.{arith}
use investment_research_engi.Base.Tests.{if◌then◌else◌}
use investment_research_engi.Base.Lists.{length, any, All}

module _ {ℓ} {A : Type ℓ} (before : A → A → Bool) where
  unfoldable pub place : A → List A → List A
  place e [] = e ∷ []
  place e (x ∷ xs) = let rest = place e xs in if before x e then x ∷ rest else e ∷ x ∷ xs

  unfoldable pub sort_by : List A → List A
  unfolding place
  sort_by [] = []
  sort_by (x ∷ xs) = place x (sort_by xs)

module _ {ℓ} {A : Type ℓ} (before : A → A → Bool) where
  length-place : (e : A) (xs : List A) → length (place before e xs) ≡ suc (length xs)
  unfolding place
  length-place e [] = refl
  length-place e (x ∷ xs) = ground (arith, length-place e xs)

  pub length-sort_by : (xs : List A) → length (sort_by before xs) ≡ length xs
  unfolding sort_by
  length-sort_by [] = refl
  length-sort_by (x ∷ xs) = length-place x (sort_by before xs) ∙ ap suc (length-sort_by xs)

  any-place : (p : A → Bool) (e : A) (xs : List A) → any p (place before e xs) ≡ p e || any p xs
  unfolding place
  any-place p e [] = refl
  any-place p e (x ∷ xs) = ground (arith, any-place p e xs)

  -- Sorting neither adds nor loses an element.
  pub any-sort_by : (p : A → Bool) (xs : List A) → any p (sort_by before xs) ≡ any p xs
  unfolding sort_by
  any-sort_by p [] = refl
  any-sort_by p (x ∷ xs) = rw (any-place p x (sort_by before xs)) (rw (any-sort_by p xs))

  All-place {κ} :
      (P : A → Type κ) (e : A) (xs : List A) → P e → All P xs → All P (place before e xs)
  unfolding place
  All-place P e [] h k = (h, tt)
  All-place P e (x ∷ xs) h k =
      elim (before x e) as (λ b. All P (if b then x ∷ place before e xs else e ∷ x ∷ xs)) [
        | true ↦ (k.0, All-place P e xs h k.1)
        | false ↦ (h, k)
      ]

  pub All-sort_by {κ} : (P : A → Type κ) (xs : List A) → All P xs → All P (sort_by before xs)
  unfolding sort_by
  All-sort_by P [] h = tt
  All-sort_by P (x ∷ xs) h = All-place P x (sort_by before xs) h.0 (All-sort_by P xs h.1)
