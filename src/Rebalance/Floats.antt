-- ===== src/Rebalance/Floats.antt =====
-- `float` and the functions of numpy that the rebalance cycle calls, as a parameter. NaN is left out:
-- the program makes no use of it, and a sort of keys with NaN has no one answer.
use investment_research_engi.Base.{ℕ, Bool, List, ◌&&◌, ◌||◌, not, if◌then◌else◌, String}
use investment_research_engi.Base.Int.{ℤ}
use investment_research_engi.Base.Order.{str_lt}
use investment_research_engi.Decimal.{Decimal, zero_d}

pub record Floats : Type 1 where
  pub Float : Type 0
  pub lt_f : Float → Float → Bool
  pub add_f : Float → Float → Float
  pub sub_f : Float → Float → Float
  pub mul_f : Float → Float → Float
  pub div_f : Float → Float → Float
  -- `float(d)`, which is also how a literal reads
  pub of_decimal : Decimal → Float
  -- `a / b` of two `int`s, and `int(x)`
  pub quotient : ℕ → ℕ → Float
  pub truncate : Float → ℤ
  -- `np.std(np.diff(np.log(closes)), ddof=1)`
  pub log_return_deviation : List Float → Float

module _ (fs : Floats) where
  open fs use {Float, lt_f, sub_f, of_decimal}

  abbrev pub zero_f : Float
  zero_f = of_decimal zero_d

  abbrev pub le_f : Float → Float → Bool
  le_f a b = not (lt_f b a)

  abbrev pub eq_f : Float → Float → Bool
  eq_f a b = not (lt_f a b) && not (lt_f b a)

  abbrev pub negate : Float → Float
  negate a = sub_f zero_f a

  -- `min` and `max` of two values keep the first of two equal ones.
  abbrev pub min_f : Float → Float → Float
  min_f a b = if lt_f b a then b else a

  abbrev pub max_f : Float → Float → Float
  max_f a b = if lt_f a b then b else a

  -- Pairs `(x, name)` compare by `x` first.
  abbrev pub key_before : Float × String → Float × String → Bool
  key_before k j = lt_f k.0 j.0 || (eq_f k.0 j.0 && str_lt k.1 j.1)
