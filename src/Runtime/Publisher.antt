-- ===== src/Runtime/Publisher.antt =====
-- `HttpEngineEventPublisher.publish` and its `EventRetryPolicy` (src/investment/runtime): a bounded
-- number of posts, with a pause after each failure but the last.
use investment_research_engi.Base.{
  ℕ, suc, zero, ◌+◌, ◌≤◌, ◌<◌, ◌≡◌, Bool, true, false, arith, List, [], ◌∷◌, if◌then◌else◌, length,
  take, ◌||◌,
}

-- The pauses that were made, the number of posts, and whether the last post got through. A false
-- `delivered` is the `RuntimeError` that `publish` raises.
pub record Delivery : Type 0 where
  pub delivered : Bool
  pub posts : ℕ
  pub pauses : List ℕ

abbrev after_pause : ℕ → Delivery → Delivery
after_pause delay d = record d { posts = suc d.posts; pauses = delay ∷ d.pauses }

-- The loop over `range(len(delays) + 1)`; `answers n` tells whether the n-th post succeeds.
unfoldable pub deliver : (ℕ → Bool) → ℕ → List ℕ → Delivery
deliver answers attempt [] = record { delivered = answers attempt; posts = 1; pauses = [] }
deliver answers attempt (delay ∷ delays) =
    let rest = deliver answers (suc attempt) delays in
    if answers attempt
    then record { delivered = true; posts = 1; pauses = [] }
    else after_pause delay rest

-- The first attempt that succeeds, within a number of attempts.
abbrev pub some_answer : (ℕ → Bool) → ℕ → ℕ → Bool
some_answer answers attempt zero = false
some_answer answers attempt (suc n) = answers attempt || some_answer answers (suc attempt) n

-- An event is delivered exactly if one of the posts succeeds that the policy allows: one more than
-- its delays. At least one post and no more than those are made; the pauses are the first delays, one
-- fewer than the posts.
pub deliver-bounded :
    (answers : ℕ → Bool) (attempt : ℕ) (delays : List ℕ)
    → let d = deliver answers attempt delays in
      (d.delivered ≡ some_answer answers attempt (length delays + 1))
      × (0 < d.posts)
      × (d.posts ≤ length delays + 1)
      × (d.posts ≡ length d.pauses + 1)
      × (d.pauses ≡ take (length d.pauses) delays)
unfolding deliver
deliver-bounded answers attempt [] = ground arith
deliver-bounded answers attempt (delay ∷ delays) =
    ground (arith, deliver-bounded answers (suc attempt) delays)
