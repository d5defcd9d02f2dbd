-- ===== src/Grants.antt =====
-- internal/grants/grants.go: requests for a kit and the grants that follow from them.
pub mod Store
pub mod Service
mod Tests
use tool_mesh.Prelude.{ℕ, String, Bool, Option, List, ◌==◌, ◌&&◌, if◌then◌else◌}
use tool_mesh.Prelude.Int.{ℤ}

pub data State : Type 0 where
  pending active : State

-- Part of a kit: scopes of its grants and names of its tools.
pub record Part : Type 0 where
  pub grants : List String
  pub tools : List String

pub record EntryCoverage : Type 0 where
  pub entry : String
  pub tool : Bool
  pub access : String
  pub tools : ℕ
  pub new : ℕ

-- Times and durations are nanoseconds.
pub record Grant : Type 0 where
  pub id : String
  pub state : State
  pub kit : String
  pub user_id : String
  pub caller_id : String
  pub caller_name : String
  pub company_id : String
  pub grant_key : String
  pub reason : String
  pub ttl : ℤ
  pub requested_at : ℕ
  pub nonce : String
  pub coverage : List EntryCoverage
  pub approved_by : String
  pub approved_at : ℕ
  pub approved_with : String
  pub part : Option Part
  pub expires_at : ℕ

pub record Subject : Type 0 where
  pub user_id : String
  pub binding : String

-- Grant.Subject
abbrev pub subject : Grant → Subject
subject g = record {
  user_id = g.user_id;
  binding = if g.grant_key == "" then g.caller_id else g.grant_key;
}

-- `==` on two subjects.
unfoldable pub same_subject : Subject → Subject → Bool
same_subject a b = a.user_id == b.user_id && a.binding == b.binding
