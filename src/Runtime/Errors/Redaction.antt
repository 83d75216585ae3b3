-- ===== src/Runtime/Errors/Redaction.antt =====
-- What a failed job reports of its exception never shows the word that introduces a credential.
use investment_research_engi.Base.{
  ℕ, zero, suc, ◌≡◌, refl, Bool, true, false, arith, List, [], ◌∷◌, ◌++◌, ◌||◌, take, ◌==◌,
  Bool-cases, inl, inr,
}
use investment_research_engi.Base.Chars.{codes, contains, replace, starts_with}
use investment_research_engi.Runtime.Errors.{Exception, classify_error, secret, redacted, or_else}

-- No bracket, which every redaction begins with.
abbrev has_bracket : List ℕ → Bool
has_bracket [] = false
has_bracket (c ∷ cs) = c == b'[' || has_bracket cs

abbrev redact : ℕ → List ℕ → List ℕ
redact = replace secret redacted

redact-matched :
    (c : ℕ) (cs : List ℕ)
    → starts_with secret (c ∷ cs) ≡ true
    → redact 0 (c ∷ cs) ≡ redacted ++ redact 12 cs
unfolding replace
redact-matched c cs h = rw h

redact-other :
    (c : ℕ) (cs : List ℕ)
    → starts_with secret (c ∷ cs) ≡ false
    → redact 0 (c ∷ cs) ≡ c ∷ redact 0 cs
unfolding replace
redact-other c cs h = rw h

-- A start of the output without a bracket is a start of the input.
starts_with-redact :
    (q cs : List ℕ)
    → has_bracket q ≡ false
    → starts_with q (redact 0 cs) ≡ true
    → starts_with q cs ≡ true
unfolding starts_with
starts_with-redact [] cs plain h = refl
starts_with-redact (x ∷ q) [] plain h = unfold replace in h
starts_with-redact (x ∷ q) (c ∷ cs) plain h = elim (Bool-cases (starts_with secret (c ∷ cs))) [
  | inl matched ↦ let h' = rw (redact-matched c cs matched) at h in ground arith
  | inr other ↦
      let h' = rw (redact-other c cs other) at h in ground (arith, starts_with-redact q cs)
]

-- A redaction, and what follows it, begin no occurrence.
contains-redacted : (cs : List ℕ) → contains secret (redacted ++ cs) ≡ contains secret cs
unfolding contains
contains-redacted cs = refl

redact-skip : (k c : ℕ) (cs : List ℕ) → redact (suc k) (c ∷ cs) ≡ redact k cs
unfolding replace
redact-skip k c cs = refl

contains-nil : (skip : ℕ) → contains secret (redact skip []) ≡ false
unfolding contains replace
contains-nil skip = refl

contains-other :
    (c : ℕ) (cs : List ℕ)
    → starts_with secret (c ∷ cs) ≡ false
    → contains secret (redact 0 cs) ≡ false
    → contains secret (redact 0 (c ∷ cs)) ≡ false
unfolding contains
contains-other c cs other rest =
    let kept = redact-other c cs other in
    let absent : starts_with secret (redact 0 (c ∷ cs)) ≡ false =
      elim (Bool-cases (starts_with secret (redact 0 (c ∷ cs)))) [
        | inl present ↦ absurd (clash (starts_with-redact secret (c ∷ cs) refl present) other)
        | inr absent ↦ absent
      ] in
    rw kept (rw (rw kept at absent, rest))
  where
    clash : {b : Bool} → b ≡ true → b ≡ false → ⊥
    clash yes' no' = cc

contains-redact : (skip : ℕ) (cs : List ℕ) → contains secret (redact skip cs) ≡ false
contains-redact skip [] = contains-nil skip
contains-redact (suc skip) (c ∷ cs) = rw (redact-skip skip c cs) (contains-redact skip cs)
contains-redact zero (c ∷ cs) = elim (Bool-cases (starts_with secret (c ∷ cs))) [
  | inl matched ↦ rw (redact-matched c cs matched, contains-redacted) (contains-redact 12 cs)
  | inr other ↦ contains-other c cs other (contains-redact 0 cs)
]

starts_with-take :
    (q : List ℕ) (n : ℕ) (cs : List ℕ) → starts_with q (take n cs) ≡ true → starts_with q cs ≡ true
unfolding starts_with
starts_with-take [] n cs h = refl
starts_with-take (x ∷ q) zero cs h = cc
starts_with-take (x ∷ q) (suc n) [] h = h
starts_with-take (x ∷ q) (suc n) (c ∷ cs) h = ground (arith, starts_with-take q n cs)

contains-take :
    (x : ℕ) (q : List ℕ) (n : ℕ) (cs : List ℕ)
    → contains (x ∷ q) cs ≡ false
    → contains (x ∷ q) (take n cs) ≡ false
unfolding contains
contains-take x q zero cs h = refl
contains-take x q (suc n) [] h = h
contains-take x q (suc n) (c ∷ cs) h =
    ground (arith, contains-take x q n cs, starts_with-take (x ∷ q) (suc n) (c ∷ cs))

or_else-plain :
    (cs : List ℕ)
    → contains secret cs ≡ false
    → contains secret (or_else cs (codes "job execution failed")) ≡ false
unfolding contains
or_else-plain [] h = refl
or_else-plain (c ∷ cs) h = h

-- The message that is stored and published of any exception does not contain "Authorization".
pub classify_error-redacts : (x : Exception) → contains secret (classify_error x).message ≡ false
unfolding classify_error
classify_error-redacts x = or_else-plain (take 500 (redact 0 x.message)) (
    contains-take b'A' (codes "uthorization") 500 (redact 0 x.message)
      (contains-redact 0 x.message))
