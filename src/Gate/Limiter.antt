-- ===== src/Gate/Limiter.antt =====
-- internal/gate/context.go: the rate limiter with its sliding window. Times are nanoseconds, and
-- the clock does not run backwards (Go's monotonic clock).
pub mod Windows
pub mod Agree
pub mod History
mod Tests
use tool_mesh.Prelude.{
  ℕ, suc, ◌+◌, ◌≤◌, ◌<◌, String, Bool, true, false, ◌||◌, not, Option, none, some, List, [], ◌∷◌,
  ◌++◌, ltb, length, filter, if◌then◌else◌,
}
use tool_mesh.Prelude.Int.{ℤ, pos, ltb_ℤ}
use tool_mesh.Prelude.Dict.{lookup, insert, keep}

-- time.Hour
abbrev pub hour : ℕ
hour = 3600000000000

-- windows[user]: the times of the user's requests, oldest first.
pub record RateLimiter : Type 0 where
  pub windows : List (String × List ℕ)

abbrev pub new_rate_limiter : RateLimiter
new_rate_limiter = record { windows = [] }

abbrev pub or_empty : Option (List ℕ) → List ℕ
or_empty none = []
or_empty (some w) = w

unfoldable pub window_of : RateLimiter → String → List ℕ
window_of rl user_id = or_empty (lookup user_id rl.windows)

-- t.After(now - hour)
abbrev pub recent : ℕ → ℕ → Bool
recent now t = ltb now (t + hour)

-- Check: true if the user has exceeded the limit. It prunes the user's window.
unfoldable pub check : RateLimiter → ℕ → String → ℤ → Bool × RateLimiter
unfolding window_of
check rl now user_id limit =
    let pruned = filter (recent now) (window_of rl user_id) in
    (ltb_ℤ limit (pos (length pruned)), record rl { windows = insert user_id pruned rl.windows })

-- w[len(w)-1].Before(now - hour), and true for the empty window
unfoldable pub stale : ℕ → List ℕ → Bool
stale now [] = true
stale now (t ∷ []) = ltb (t + hour) now
stale now (t ∷ u ∷ w) = stale now (u ∷ w)

-- The removal of stale users from a table of more than 1000.
pub evict_stale : ℕ → List (String × List ℕ) → List (String × List ℕ)
unfolding stale
evict_stale now windows =
    if ltb 1000 (length windows) then keep (λ _ w. not (stale now w)) windows else windows

-- Record
unfoldable pub record_request : RateLimiter → ℕ → String → RateLimiter
unfolding window_of evict_stale
record_request rl now user_id = record rl {
  windows = evict_stale now (insert user_id (window_of rl user_id ++ now ∷ []) rl.windows);
}
