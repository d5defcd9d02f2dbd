-- ===== src/Throttle/Tests.antt =====
-- internal/auth/loginthrottle.go, on one account and one address.
use tool_mesh.Prelude.{
  ℕ, ◌≤◌, String, true, false, none, List, [], ◌∷◌, ◌==◌, if◌then◌else◌, ◌≡◌, refl, arith,
}
use tool_mesh.Prelude.Dict.{lookup, IsMap}
use tool_mesh.Throttle.{Counter, user, ip, Counters, new_counters, acquire, release}
use tool_mesh.Throttle.Counts.{count_at}
use tool_mesh.Throttle.Limit.{Distinct, Positive, Outcome, acquire-Outcome}
use tool_mesh.Throttle.Refund.{Released, release-Released, cancel-acquire}
use tool_mesh.Throttle.Bound.{Step, attempts, hands_back, run, WellRun, HasLimits, run-count_at}

abbrev account : Counter
account = record { scope = user; key = "u:alice"; limit = 2 }

abbrev address : Counter
address = record { scope = ip; key = "a:10.0.0.1"; limit = 3 }

abbrev both : List Counter
both = account ∷ address ∷ []

-- A table of two entries at most, where another key stands already.
abbrev crowded : Counters
crowded = record {
  entries = ("u:bob", record { count = 1; unshared = 1; limit = 2; expires = 90 }) ∷ [];
  max_entries = 2;
  last_warning = none;
}

both-Distinct : Distinct both
both-Distinct = (refl, (refl, tt))

both-Positive : Positive both
both-Positive = omega arith

crowded-IsMap : IsMap crowded.entries
unfolding lookup
crowded-IsMap = (refl, tt)

acquire-Outcome_example :
    Outcome both 10 crowded.entries
      (acquire both 60 10 crowded).0
      (acquire both 60 10 crowded).1.entries
acquire-Outcome_example =
    acquire-Outcome both 60 10 crowded (omega arith) both-Distinct both-Positive crowded-IsMap

release-Released_example :
    Released true both "u:alice"
      (count_at "u:alice" 10 crowded.entries)
      (count_at "u:alice" 10 (release both false true 10 crowded.entries))
release-Released_example =
    release-Released both false true 10 crowded.entries "u:alice" both-Distinct

crowded-allowed : (acquire both 60 10 crowded).0 ≡ none
unfolding acquire
crowded-allowed = refl

cancel-acquire_example :
    count_at "u:alice" 10 (release both false false 10 (acquire both 60 10 crowded).1.entries)
    ≡ count_at "u:alice" 10 crowded.entries
cancel-acquire_example =
    cancel-acquire both 60 10 crowded false "u:alice" (omega arith) both-Distinct both-Positive
      crowded-IsMap crowded-allowed refl

abbrev limits : String → ℕ
limits k = if k == "u:alice" then 2 else 3

abbrev steps : List (ℕ × Step)
steps = (10, attempts both) ∷ (11, attempts both) ∷ (12, hands_back both false false) ∷ []

fine : Distinct both × Positive both × HasLimits 60 limits both
fine = (both-Distinct, both-Positive, (refl, (refl, tt)))

steps-WellRun : WellRun 60 limits 0 steps 20
steps-WellRun = (omega arith, fine, (omega arith, fine, (omega arith, fine, omega arith)))

run-count_at_example :
    count_at "u:alice" 20 (run 60 steps (new_counters 2)).entries ≤ limits "u:alice"
run-count_at_example = run-count_at 60 limits 2 20 steps "u:alice" (omega arith) steps-WellRun

-- Making room drops the other account's counter.
room_test : count_at "u:bob" 10 (acquire both 60 10 crowded).1.entries ≡ 0
unfolding acquire count_at lookup
room_test = refl
