-- ===== src/Gate/Limiter/Tests.antt =====
-- internal/gate/context.go, on a short history.
use tool_mesh.Prelude.{List, [], ◌∷◌, ◌≡◌, arith}
use tool_mesh.Prelude.Int.{pos, ltb_ℤ}
use tool_mesh.Gate.Limiter.{check, new_rate_limiter}
use tool_mesh.Gate.Limiter.Windows.{count_recent}
use tool_mesh.Gate.Limiter.Agree.{times_of}
use tool_mesh.Gate.Limiter.History.{Call, records, checks, run, history, InOrder, check-history}
use tool_mesh.Prelude.{ℕ}

abbrev calls : List (ℕ × Call)
calls = (10, records "a") ∷ (20, records "b") ∷ (30, records "a") ∷ (30, checks "a" (pos 1)) ∷ []

calls-InOrder : InOrder 0 calls 3600000000020
calls-InOrder = omega arith

-- The request at 10 is more than an hour old.
check-history_example :
    (check (run new_rate_limiter calls) 3600000000020 "a" (pos 1)).0
    ≡ ltb_ℤ (pos 1) (pos (count_recent 3600000000020 (times_of "a" (history calls))))
check-history_example = check-history calls 3600000000020 "a" (pos 1) calls-InOrder
