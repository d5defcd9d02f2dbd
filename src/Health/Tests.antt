-- ===== src/Health/Tests.antt =====
-- internal/health/monitor.go, on a backend that fails twice.
use tool_mesh.Prelude.{false, none, some, List, [], ◌∷◌, ◌≡◌, refl, ℕ}
use tool_mesh.Prelude.Int.{pos}
use tool_mesh.Prelude.Dict.{lookup}
use tool_mesh.Health.{HealthResult, Policy, degraded, failing, report}
use tool_mesh.Health.History.{Step, watch, result, run, history, watched, state_of}
use tool_mesh.Health.Reported.{entry, worst, report-history}

abbrev twice : Policy
twice = record { degrade_after = pos 2; warn_before = 10 }

abbrev failed_at : ℕ → HealthResult
failed_at t = record { passed = false; reason = "401"; checked_at = t; auth_expires_at = none }

abbrev steps : List Step
steps =
    result "net" (failed_at 20)
    ∷ watch (("net", twice) ∷ [])
    ∷ result "net" (failed_at 10)
    ∷ result "other" (failed_at 9)
    ∷ watch (("net", twice) ∷ [])
    ∷ []

-- A reload does not reset the streak of failures.
net_degraded : (report (run steps) 30).status ≡ degraded
unfolding report run
net_degraded = refl

net_entry :
    lookup "net" (report (run steps) 30).backends
    ≡ some (record {
      status = degraded;
      reason = failing (some 10) 2 "401";
      checked_at = 20;
      failing_since = some 10;
      auth_expires_at = none;
    })
unfolding lookup report run
net_entry = refl

report-history_example :
    (lookup "net" (report (run steps) 30).backends
      ≡ entry (watched steps "net") 30 (state_of (history steps "net")))
    × ((report (run steps) 30).status ≡ worst (report (run steps) 30).backends)
report-history_example = report-history steps 30 "net"
