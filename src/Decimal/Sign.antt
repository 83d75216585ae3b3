-- ===== src/Decimal/Sign.antt =====
-- The signs of results survive the rounding.
use investment_research_engi.Base.{
  zero, suc, ◌<◌, ◌^◌, ◌*◌, ℕ, ◌≡◌, refl, true, false, some, none, inl, inr, ◌⊎◌, arith,
  Option-cases,
}
use investment_research_engi.Base.Int.{ℤ, pos, negsuc, neg_part, pos_part, ◌+ℤ◌, ◌-ℤ◌, ◌≤ℤ◌}
use native.Mathlib.Nat.{pow-suc}
use investment_research_engi.Decimal.{
  Decimal, zero_d, scale, fix, align, common, ◌+d◌, ◌-d◌, ◌*d◌, ◌/d◌, lt_d, le_d, product, nonzero,
}

abbrev pub IsNonneg : Decimal → Type 0
IsNonneg d = neg_part d.coefficient ≡ 0

pub fix-IsNonneg : (c e : ℤ) → neg_part c ≡ 0 → IsNonneg (fix c e)
unfolding fix
fix-IsNonneg (pos n) e h = ground arith
fix-IsNonneg (negsuc n) e h = absurd (omega arith)

align-nonneg : (d : Decimal) (e : ℤ) → IsNonneg d → neg_part (align d e) ≡ 0
unfolding align
align-nonneg d e h = ground arith

pub +d-IsNonneg : (a b : Decimal) → IsNonneg a → IsNonneg b → IsNonneg (a +d b)
unfolding ◌+d◌
+d-IsNonneg a b h k =
    let e = common a b in
    fix-IsNonneg (align a e +ℤ align b e) e (ground (arith, align-nonneg a e h, align-nonneg b e k))

ordered_lem : (a b : Decimal) → le_d b a ≡ true → align b (common a b) ≤ℤ align a (common a b)
unfolding lt_d
ordered_lem a b h = ground arith

-ℤ-nonneg : (x y : ℤ) → y ≤ℤ x → neg_part (x -ℤ y) ≡ 0
unfolding ◌-ℤ◌
-ℤ-nonneg x y h = ground arith

-- A difference is not negative where the comparison says so.
pub -d-IsNonneg : (a b : Decimal) → le_d b a ≡ true → IsNonneg (a -d b)
unfolding ◌-d◌
-d-IsNonneg a b h =
    let e = common a b in
    let ordered = ordered_lem a b h in
    fix-IsNonneg (align a e -ℤ align b e) e (-ℤ-nonneg (align a e) (align b e) ordered)

product-nonneg : (a b : ℤ) → neg_part a ≡ 0 → neg_part b ≡ 0 → neg_part (product a b) ≡ 0
product-nonneg (pos n) (pos m) h k = ground arith
product-nonneg (pos n) (negsuc m) h k = absurd (omega arith)
product-nonneg (negsuc n) b h k = absurd (omega arith)

pub *d-IsNonneg : (a b : Decimal) → IsNonneg a → IsNonneg b → IsNonneg (a *d b)
unfolding ◌*d◌
*d-IsNonneg a b h k =
    fix-IsNonneg (product a.coefficient b.coefficient) (a.exponent +ℤ b.exponent)
      (product-nonneg a.coefficient b.coefficient h k)

pub /d-IsNonneg :
    (a b : Decimal) {c : Decimal} → IsNonneg a → IsNonneg b → a /d b ≡ some c → IsNonneg c
unfolding ◌/d◌
/d-IsNonneg a b h k e = ground arith

pow-pos : (k : ℕ) → 0 < 10 ^ k
pow-pos zero = omega arith
pow-pos (suc k) = rw pow-suc (omega (arith, pow-pos k))

product-pos : (n t : ℕ) → 0 < t → 0 < suc n * t
product-pos n t h = grind arith

scale-negative :
    (n k : ℕ) → (pos_part (scale (negsuc n) k) ≡ 0) × (0 < neg_part (scale (negsuc n) k))
scale-negative n k = let positive = product-pos n (10 ^ k) (pow-pos k) in ground arith

align-negative :
    (c e : ℤ) (n : ℕ)
    → (pos_part (align (record { coefficient = negsuc n; exponent = c }) e) ≡ 0)
      × (0 < neg_part (align (record { coefficient = negsuc n; exponent = c }) e))
unfolding align
align-negative c e n = scale-negative n (pos_part (c -ℤ e))

align-zero : (e : ℤ) → align zero_d e ≡ pos 0
unfolding align
align-zero e = ground arith

sign-cases : (c : ℤ) → (neg_part c ≡ 0) ⊎ ((n : ℕ) × (c ≡ negsuc n))
sign-cases (pos n) = inl refl
sign-cases (negsuc n) = inr (n, refl)

-- A negative number is below zero, and zero is not below it.
lt-negative :
    (c : ℤ) (n : ℕ)
    → let d : Decimal = record { coefficient = negsuc n; exponent = c } in
      (lt_d d zero_d ≡ true) × (lt_d zero_d d ≡ false)
unfolding lt_d
lt-negative c n =
    let d : Decimal = record { coefficient = negsuc n; exponent = c } in
    ground (
      arith,
      align-negative c (common d zero_d) n,
      align-negative c (common zero_d d) n,
      align-zero (common d zero_d),
      align-zero (common zero_d d),
    )

-- What a comparison with zero says of a sign.
pub nonneg-not_lt : (d : Decimal) → lt_d d zero_d ≡ false → IsNonneg d
nonneg-not_lt d h = elim (sign-cases d.coefficient) [
  | inl fine ↦ fine
  | inr (n, negative) ↦ ground (arith, lt-negative d.exponent n)
]

pub nonneg-lt : (d : Decimal) → lt_d zero_d d ≡ true → IsNonneg d
nonneg-lt d h = elim (sign-cases d.coefficient) [
  | inl fine ↦ fine
  | inr (n, negative) ↦ ground (arith, lt-negative d.exponent n)
]

divides_lem : (a b : Decimal) → nonzero b ≡ true → a /d b ≡ none → ⊥
unfolding ◌/d◌
divides_lem a b h missing = ground arith

-- A division by another number than zero returns.
pub /d-returns : (a b : Decimal) → nonzero b ≡ true → (c : Decimal) × (a /d b ≡ some c)
/d-returns a b h = elim (Option-cases (a /d b)) [
  | inl missing ↦ absurd (divides_lem a b h missing)
  | inr found ↦ found
]
