-- ===== src/Health.antt =====
-- internal/health: what is remembered of the checks of backends, and the report on them.
pub mod History
pub mod Reported
pub mod Tests
use tool_mesh.Prelude.{
  ℕ, zero, suc, ◌+◌, ◌-◌, String, Bool, true, false, not, ◌&&◌, ◌||◌, Option, none, some, List, [],
  ◌∷◌, ◌==◌, if◌then◌else◌, leb, eqb, is_some, any,
}
use tool_mesh.Prelude.Int.{ℤ, pos, negsuc}
use tool_mesh.Prelude.Dict.{lookup, insert, keep}

-- backend.HealthResult; `none` is the zero time, an expiry that is not known.
pub record HealthResult : Type 0 where
  pub passed : Bool
  pub reason : String
  pub checked_at : ℕ
  pub auth_expires_at : Option ℕ

-- Policy, without the interval of the polls.
pub record Policy : Type 0 where
  pub degrade_after : ℤ
  pub warn_before : ℕ

-- Policy.degradeAfter
abbrev floor_one : ℤ → ℕ
floor_one (pos zero) = 1
floor_one (pos (suc n)) = suc n
floor_one (negsuc n) = 1

-- state, without the status that only the logs compare.
pub record State : Type 0 where
  pub last : HealthResult
  pub failures : ℕ
  pub failing_since : Option ℕ

pub record Monitor : Type 0 where
  pub policies : List (String × Policy)
  pub states : List (String × State)

abbrev pub new_monitor : Monitor
new_monitor = record { policies = []; states = [] }

unfoldable pub policies_of :
    List (String × Policy) → List (String × Policy) → List (String × Policy)
unfolding insert
policies_of ps [] = ps
policies_of ps ((name, p) ∷ targets) = policies_of (insert name p ps) targets

-- Monitor.Replace; the checks that it starts are observations of later steps.
unfoldable pub replace : List (String × Policy) → Monitor → Monitor
unfolding policies_of keep lookup
replace targets m =
    let ps = policies_of [] targets in
    record { policies = ps; states = keep (λ name st. is_some (lookup name ps)) m.states }

abbrev next_state : HealthResult → ℕ → Option ℕ → State
next_state r failures since =
    if r.passed then record { last = r; failures = 0; failing_since = none } else record {
      last = r;
      failures = suc failures;
      failing_since = if eqb failures 0 then some r.checked_at else since;
    }

-- A result for a backend that may have a state.
abbrev pub observed : HealthResult → Option State → State
observed r none = next_state r 0 none
observed r (some st) = next_state r st.failures st.failing_since

-- Monitor.Observe
unfoldable pub observe : String → HealthResult → Monitor → Monitor
unfolding lookup insert
observe name r m =
    if is_some (lookup name m.policies)
    then record m { states = insert name (observed r (lookup name m.states)) m.states }
    else m

pub data Status : Type 0 where
  all_well warning degraded : Status

pub data Reason : Type 0 where
  nothing : Reason
  -- since when, how often, and the last reason
  failing : Option ℕ → ℕ → String → Reason
  -- whether the credential has expired, and the reason of a failed last check
  credential : Bool → Option String → Reason

pub record BackendStatus : Type 0 where
  pub status : Status
  pub reason : Reason
  pub checked_at : ℕ
  pub failing_since : Option ℕ
  pub auth_expires_at : Option ℕ

abbrev fine : State → BackendStatus
fine st = record {
  status = all_well;
  reason = nothing;
  checked_at = st.last.checked_at;
  failing_since = none;
  auth_expires_at = st.last.auth_expires_at;
}

-- The second case of evaluate: an expiry that is known and near, or past.
abbrev near_expiry : State → Policy → ℕ → Option ℕ → BackendStatus
near_expiry st p now none = fine st
near_expiry st p now (some expiry) =
    if leb (expiry - p.warn_before) now
    then record (fine st) {
      status = warning;
      reason =
          credential (leb expiry now) (if eqb st.failures 0 then none else some st.last.reason);
    }
    else fine st

unfoldable pub evaluate : State → Policy → ℕ → BackendStatus
evaluate st p now =
    if leb (floor_one p.degrade_after) st.failures
    then record (fine st) {
      status = degraded;
      reason = failing st.failing_since st.failures st.last.reason;
      failing_since = st.failing_since;
    }
    else near_expiry st p now st.last.auth_expires_at

pub record Report : Type 0 where
  pub status : Status
  pub backends : List (String × BackendStatus)

abbrev pub is_ok : Status → Bool
is_ok all_well = true
is_ok warning = false
is_ok degraded = false

abbrev pub is_degraded : Status → Bool
is_degraded all_well = false
is_degraded warning = false
is_degraded degraded = true

-- m.policies[name], the zero policy where there is none.
abbrev pub policy_or_zero : Option Policy → Policy
policy_or_zero none = record { degrade_after = pos 0; warn_before = 0 }
policy_or_zero (some p) = p

-- The body of the loop of Report.
abbrev add_backend : Report → String → BackendStatus → Report
add_backend rep name bs = if is_ok bs.status then rep else record {
  status = if is_degraded bs.status || is_ok rep.status then bs.status else rep.status;
  backends = (name, bs) ∷ rep.backends;
}

unfoldable pub report_states : List (String × Policy) → ℕ → List (String × State) → Report → Report
unfolding evaluate lookup
report_states ps now [] rep = rep
report_states ps now ((name, st) ∷ states) rep =
    report_states ps now states
      (add_backend rep name (evaluate st (policy_or_zero (lookup name ps)) now))

-- Monitor.Report
unfoldable pub report : Monitor → ℕ → Report
unfolding report_states
report m now = report_states m.policies now m.states (record { status = all_well; backends = [] })
