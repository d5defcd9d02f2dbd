-- ===== src/Gate/Limiter/History.antt =====
-- internal/gate/context.go: the rate limiter against the full history of requests.
use tool_mesh.Prelude.{ℕ, ◌≤◌, String, List, [], ◌∷◌, ◌++◌, ◌≡◌, refl, arith, ap, ◌∙◌}
use mathlib.Core.List.{append-nil, append_assoc}
use tool_mesh.Prelude.Int.{ℤ, pos, ltb_ℤ}
use tool_mesh.Prelude.Dict.{lookup}
use tool_mesh.Gate.Limiter.{RateLimiter, new_rate_limiter, window_of, check, record_request}
use tool_mesh.Gate.Limiter.Windows.{count_recent, Rising-mono}
use tool_mesh.Gate.Limiter.Agree.{History, times_of, Agrees, check-Agrees, record-Agrees}

-- The calls of the limiter, each with its time.
pub data Call : Type 0 where
  records : String → Call
  checks : String → ℤ → Call

unfoldable pub step : RateLimiter → ℕ × Call → RateLimiter
step rl (now, records u) = record_request rl now u
step rl (now, checks u limit) = (check rl now u limit).1

unfoldable pub run : RateLimiter → List (ℕ × Call) → RateLimiter
unfolding step
run rl [] = rl
run rl (c ∷ cs) = run (step rl c) cs

-- The requests that a sequence of calls records.
abbrev pub history : List (ℕ × Call) → History
history [] = []
history ((now, records u) ∷ cs) = (u, now) ∷ history cs
history ((now, checks u limit) ∷ cs) = history cs

-- The clock does not run backwards over the calls: no call is before `from` or after `until`.
abbrev pub InOrder : ℕ → List (ℕ × Call) → ℕ → Type 0
InOrder from [] until = from ≤ until
InOrder from ((now, c) ∷ cs) until = (from ≤ now) × InOrder now cs until

Agrees-mono :
    (log : History) (now later : ℕ) (rl : RateLimiter)
    → now ≤ later
    → Agrees log now rl
    → Agrees log later rl
Agrees-mono log now later rl h a = record {
  is_map = a.is_map;
  rising = λ u. Rising-mono now later (window_of rl u) h (a.rising u);
  counts = λ u t k. a.counts u t (omega arith);
}

new-Agrees : Agrees [] 0 new_rate_limiter
unfolding window_of lookup
new-Agrees = record { is_map = tt; rising = λ u. tt; counts = λ u t k. refl }

check-count :
    (rl : RateLimiter) (now : ℕ) (u : String) (limit : ℤ)
    → (check rl now u limit).0 ≡ ltb_ℤ limit (pos (count_recent now (window_of rl u)))
unfolding check
check-count rl now u limit = refl

run-Agrees :
    (log : History) (rl : RateLimiter) (from until : ℕ) (cs : List (ℕ × Call))
    → Agrees log from rl
    → InOrder from cs until
    → Agrees (log ++ history cs) until (run rl cs)
unfolding run
run-Agrees log rl from until [] a o = rw append-nil (Agrees-mono log from until rl o a)
run-Agrees log rl from until ((now, records u) ∷ cs) a o = rw append_assoc at (
    run-Agrees (log ++ (u, now) ∷ []) (record_request rl now u) now until cs
      (record-Agrees log from now rl u o.0 a) o.1)
run-Agrees log rl from until ((now, checks u limit) ∷ cs) a o =
    run-Agrees log (check rl now u limit).1 now until cs
      (check-Agrees log from now rl u limit o.0 a) o.1

-- After any calls in the order of the clock, `check` says that a user exceeded the limit exactly
-- when the user made more requests than the limit in the last hour of the whole history: pruning
-- and the removal of stale users lose nothing.
pub check-history :
    (cs : List (ℕ × Call)) (now : ℕ) (u : String) (limit : ℤ)
    → InOrder 0 cs now
    → (check (run new_rate_limiter cs) now u limit).0
      ≡ ltb_ℤ limit (pos (count_recent now (times_of u (history cs))))
check-history cs now u limit o =
    check-count (run new_rate_limiter cs) now u limit
    ∙ ap (λ n. ltb_ℤ limit (pos n))
        ((run-Agrees [] new_rate_limiter 0 now cs new-Agrees o).counts u now (omega arith))
