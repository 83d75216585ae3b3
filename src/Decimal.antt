-- ===== src/Decimal.antt =====
-- Python's `decimal.Decimal` under its default context, as far as the program uses it: finite numbers
-- `coefficient * 10 ^ exponent`, each operation exact and then rounded half to even to 28 digits.
-- The bounds of the exponent are not modelled, nor are the digits that a zero keeps, which no
-- comparison sees.
pub mod Sign
use investment_research_engi.Base.{
  ℕ, zero, suc, ◌+◌, ◌-◌, ◌*◌, ◌/◌, ◌%◌, ◌^◌, Bool, true, false, Option, none, some, ltb, leb, ◌==◌,
  if◌then◌else◌, not, ◌&&◌,
}
use investment_research_engi.Base.Int.{ℤ, pos, negsuc, pos_part, neg_part, sub_ℕ, ◌+ℤ◌, ◌-ℤ◌, ltb_ℤ}

pub record Decimal : Type 0 where
  pub coefficient : ℤ
  pub exponent : ℤ

-- The context's precision.
abbrev pub precision : ℕ
precision = 28

-- The number of decimal digits; the number itself is fuel enough.
unfoldable pub digit_count : ℕ → ℕ → ℕ
digit_count zero n = 1
digit_count (suc fuel) n = elim (ltb n 10) [ true ↦ 1 | false ↦ suc (digit_count fuel (n / 10)) ]

-- `n / 10 ^ k` to the nearest, a half to the even neighbour.
unfoldable pub round_half_even : ℕ → ℕ → ℕ
round_half_even k n =
    let q = n / 10 ^ k in
    let r = n % 10 ^ k in
    if ltb (2 * r) (10 ^ k)
    then q
    else if ltb (10 ^ k) (2 * r)
    then q + 1
    else if q % 2 == 0
    then q
    else q + 1

-- The digits beyond the precision.
unfoldable pub excess : ℕ → ℕ
unfolding digit_count
excess n = digit_count n n - precision

-- A sign put back on a magnitude.
abbrev pub signed : ℤ → ℕ → ℤ
signed (pos _) n = pos n
signed (negsuc _) n = sub_ℕ 0 n

-- `_fix`: the rounding of an exact result. A carry to 29 digits keeps its last zero: the number is the
-- same.
unfoldable pub fix : ℤ → ℤ → Decimal
unfolding excess round_half_even ◌+ℤ◌
fix c e =
    let k = excess (pos_part c + neg_part c) in
    if k == 0 then record { coefficient = c; exponent = e } else record {
      coefficient = signed c (round_half_even k (pos_part c + neg_part c));
      exponent = e +ℤ pos k;
    }

abbrev pub scale : ℤ → ℕ → ℤ
scale c k = sub_ℕ (pos_part c * 10 ^ k) (neg_part c * 10 ^ k)

abbrev pub min_ℤ : ℤ → ℤ → ℤ
min_ℤ a b = if ltb_ℤ b a then b else a

-- The coefficient at a lower exponent.
unfoldable pub align : Decimal → ℤ → ℤ
unfolding ◌-ℤ◌
align d e = scale d.coefficient (pos_part (d.exponent -ℤ e))

abbrev pub common : Decimal → Decimal → ℤ
common a b = min_ℤ a.exponent b.exponent

abbrev pub integer : ℕ → Decimal
integer n = record { coefficient = pos n; exponent = pos 0 }

infixl 65 ◌+d◌ ◌-d◌
infixl 70 ◌*d◌ ◌/d◌
unfoldable pub ◌+d◌ : Decimal → Decimal → Decimal
unfolding align fix
a +d b = let e = common a b in fix (align a e +ℤ align b e) e

unfoldable pub ◌-d◌ : Decimal → Decimal → Decimal
unfolding align fix
a -d b = let e = common a b in fix (align a e -ℤ align b e) e

abbrev pub product : ℤ → ℤ → ℤ
product a b =
    sub_ℕ (pos_part a * pos_part b + neg_part a * neg_part b)
      (pos_part a * neg_part b + neg_part a * pos_part b)

unfoldable pub ◌*d◌ : Decimal → Decimal → Decimal
unfolding fix ◌+ℤ◌
a *d b = fix (product a.coefficient b.coefficient) (a.exponent +ℤ b.exponent)

abbrev pub magnitude : ℤ → ℕ
magnitude c = pos_part c + neg_part c

abbrev same_sign : ℤ → ℤ → Bool
same_sign (pos _) (pos _) = true
same_sign (negsuc _) (negsuc _) = true
same_sign _ _ = false

-- A quotient with a remainder ends in a digit that no rounding takes for a half.
abbrev sticky : ℕ → ℕ → ℕ
sticky q r = if r == 0 then q else if q % 5 == 0 then q + 1 else q

-- `a / b`, to one digit more than the precision and then rounded; `none` is the error of a division
-- by zero. The dividend is shifted so that the quotient has that many digits.
unfoldable pub ◌/d◌ : Decimal → Decimal → Option Decimal
unfolding fix digit_count ◌+ℤ◌ ◌-ℤ◌
a /d b =
    let n = magnitude a.coefficient in
    let m = magnitude b.coefficient in
    let shift = pos (digit_count m m + precision + 1) -ℤ pos (digit_count n n) in
    let n' = n * 10 ^ pos_part shift in
    let m' = m * 10 ^ neg_part shift in
    let q = sticky (n' / m') (n' % m') in
    if m == 0
    then none
    else some (
        fix (if same_sign a.coefficient b.coefficient then pos q else sub_ℕ 0 q)
          (a.exponent -ℤ b.exponent -ℤ shift))

-- `a < b`, `a <= b`, and the truth value of `a`.
unfoldable pub lt_d : Decimal → Decimal → Bool
unfolding align
lt_d a b = let e = common a b in ltb_ℤ (align a e) (align b e)

abbrev pub le_d : Decimal → Decimal → Bool
le_d a b = not (lt_d b a)

abbrev pub eq_d : Decimal → Decimal → Bool
eq_d a b = not (lt_d a b) && not (lt_d b a)

abbrev pub nonzero : Decimal → Bool
nonzero a = not (magnitude a.coefficient == 0)

unfoldable pub abs_d : Decimal → Decimal
abs_d a = record a { coefficient = pos (magnitude a.coefficient) }

abbrev pub zero_d : Decimal
zero_d = integer 0

abbrev pub one_d : Decimal
one_d = integer 1
