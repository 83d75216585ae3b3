-- ===== src/Base/Chars.antt =====
-- Python's text methods, on the code points of a text.
use Prim.Native.Nat.{ℕ, zero, suc, ◌+◌, ◌-◌, ◌/◌, ◌%◌}
use Prim.Native.Char.{code}
use Prim.Native.String.{String}
use mathlib.Core.Bool.{Bool, true, false, ◌&&◌, ◌||◌}
use mathlib.Core.List.{List, [], ◌∷◌, ◌++◌, reverse, map}
use investment_research_engi.Base.Tests.{ltb, leb, ◌==◌, if◌then◌else◌}
use investment_research_engi.Base.Lists.{length}

abbrev pub codes : String → List ℕ
codes String.[] = []
codes (String.◌∷◌ c s) = code c ∷ codes s

-- `str.isspace` of one character.
unfoldable pub is_space : ℕ → Bool
is_space c =
    (leb 9 c && leb c 13)
    || (leb 28 c && leb c 32)
    || c == 0x85
    || c == 0xa0
    || c == 0x1680
    || (leb 0x2000 c && leb c 0x200a)
    || c == 0x2028
    || c == 0x2029
    || c == 0x202f
    || c == 0x205f
    || c == 0x3000

-- `s.lstrip()`
unfoldable pub strip_left : List ℕ → List ℕ
unfolding is_space
strip_left [] = []
strip_left (c ∷ cs) = let rest = strip_left cs in if is_space c then rest else c ∷ cs

-- `s.strip()`
unfoldable pub strip : List ℕ → List ℕ
unfolding strip_left
strip cs = reverse (strip_left (reverse (strip_left cs)))

-- `len(s.split())`: the words, each begun by a character after white space.
unfoldable pub count_words : Bool → List ℕ → ℕ
unfolding is_space
count_words inside [] = 0
count_words inside (c ∷ cs) =
    let rest = count_words (if is_space c then false else true) cs in
    if is_space c then rest else if inside then rest else suc rest

unfoldable pub starts_with : List ℕ → List ℕ → Bool
starts_with [] cs = true
starts_with (p ∷ ps) [] = false
starts_with (p ∷ ps) (c ∷ cs) = p == c && starts_with ps cs

-- `pattern in s`
unfoldable pub contains : List ℕ → List ℕ → Bool
unfolding starts_with
contains p [] = starts_with p []
contains p (c ∷ cs) = starts_with p (c ∷ cs) || contains p cs

-- `cs.replace(pattern, new)` for a pattern that is not empty; the number counts the characters of a
-- match that are still to be dropped.
unfoldable pub replace : List ℕ → List ℕ → ℕ → List ℕ → List ℕ
unfolding starts_with
replace p new skip [] = []
replace p new (suc skip) (c ∷ cs) = replace p new skip cs
replace p new zero (c ∷ cs) =
    let matched = new ++ replace p new (length p - 1) cs in
    let other = c ∷ replace p new 0 cs in if starts_with p (c ∷ cs) then matched else other

-- `s.upper()` on ASCII.
abbrev pub to_upper : ℕ → ℕ
to_upper c = if leb b'a' c && leb c b'z' then c - 32 else c

abbrev pub upper : List ℕ → List ℕ
upper = map to_upper

-- `str(n)` of a natural number; one more than the number is fuel enough for its digits.
unfoldable pub decimal_from : ℕ → ℕ → List ℕ → List ℕ
decimal_from zero n digits = digits
decimal_from (suc fuel) n digits =
    let digits' = (b'0' + n % 10) ∷ digits in
    let rest = decimal_from fuel (n / 10) digits' in if ltb n 10 then digits' else rest

unfoldable pub decimal : ℕ → List ℕ
unfolding decimal_from
decimal n = decimal_from (n + 1) n []
