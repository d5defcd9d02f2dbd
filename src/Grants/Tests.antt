-- ===== src/Grants/Tests.antt =====
-- internal/grants, on one request that is approved in part.
use tool_mesh.Prelude.{
  ℕ, ◌<◌, String, true, false, none, some, List, [], ◌∷◌, ◌≡◌, ◌↔◌, inr, refl, In, any,
}
use tool_mesh.Prelude.Int.{pos}
use tool_mesh.Prelude.Dict.{lookup, IsMap}
use tool_mesh.Authz.Kit.{Kit, KitPart}
use tool_mesh.Grants.{pending, active, Grant, Subject, subject, same_subject}
use tool_mesh.Grants.Store.{Store, new_memory_store, get, take, for_subject}
use tool_mesh.Grants.Store.Expiry.{Holds, for_subject-In, get_take-live}
use tool_mesh.Grants.Store.Once.{Op, puts, adds, gets, stores, run, take-once}
use tool_mesh.Grants.Store.Pending.{Bounded, pending-Bounded}
use tool_mesh.Grants.Service.{Approver, Approval, held_kits}
use tool_mesh.Grants.Service.Approve.{Clock, Reply, approve}
use tool_mesh.Grants.Service.Approved.{Granted, approve-Granted}

abbrev oncall : Kit
oncall = record {
  name = "oncall";
  description = "Logs and restarts";
  warning = "";
  grants = "graylog:read" ∷ [];
  tools = "docker_restart" ∷ [];
  ttl_default = pos 0;
  ttl_max = pos 1000;
}

abbrev catalog : List Kit
catalog = oncall ∷ []

abbrev bob : Approver
bob = record { name = "bob"; key_sha256 = "00"; kits = "oncall" ∷ [] }

abbrev request : Grant
request = record {
  id = "r1";
  state = pending;
  kit = "oncall";
  user_id = "alice";
  caller_id = "claude";
  caller_name = "";
  company_id = "acme";
  grant_key = "";
  reason = "incident";
  ttl = pos 5000;
  requested_at = 1;
  nonce = "n";
  coverage = [];
  approved_by = "";
  approved_at = 0;
  approved_with = "";
  part = none;
  expires_at = 100;
}

abbrev waiting : Store
waiting = record { pending_by_id = ("r1", request) ∷ []; active_by_id = [] }

abbrev noon : Clock
noon n = 20

abbrev logs_only : Approval
logs_only = record { ttl = pos 0; grants = "graylog:read" ∷ []; tools = [] }

-- The duration asked for is cut to the kit's maximum.
abbrev logs_granted : Grant
logs_granted = record request {
  state = active;
  ttl = pos 1000;
  part = some (record { grants = "graylog:read" ∷ []; tools = [] });
  approved_by = "bob";
  approved_at = 20;
  approved_with = "key";
  expires_at = 1020;
}

abbrev approved : Reply × Store
approved = approve catalog (bob ∷ []) noon "bob" "r1" logs_only "key" waiting

approved-granted : (approved.0.grant ≡ some logs_granted) × (approved.0.error ≡ none)
unfolding approve
approved-granted = (refl, refl)

waiting-IsMap : IsMap waiting.pending_by_id × IsMap waiting.active_by_id
unfolding lookup
waiting-IsMap = ((refl, tt), tt)

approve-Granted_example :
    Granted catalog (bob ∷ []) noon "bob" "r1" logs_only "key" waiting logs_granted
approve-Granted_example =
    approve-Granted catalog (bob ∷ []) noon "bob" "r1" logs_only "key" waiting logs_granted
      waiting-IsMap.0 approved-granted.0 approved-granted.1

abbrev held_at : ℕ → List String × List KitPart
held_at now = (held_kits catalog now "alice" "claude" approved.1).0

abbrev alice : Subject
alice = record { user_id = "alice"; binding = "claude" }

abbrev others : List Op
others = puts 30 logs_granted ∷ adds 31 (record request { id = "r2" }) 5 ∷ gets 32 pending "r1" ∷ []

others-elsewhere : any (stores pending "r1") others ≡ false
others-elsewhere = refl

take-once_example :
    ((take 40 pending "r1" (run others (take 20 pending "r1" waiting).1)).0 ≡ none)
    × ((get 40 pending "r1" (run others (take 20 pending "r1" waiting).1)).0 ≡ none)
take-once_example = take-once 20 pending "r1" waiting others 40 others-elsewhere

abbrev requests : List Op
requests = adds 1 request 1 ∷ adds 2 (record request { id = "r2"; kit = "dev" }) 1 ∷ others

pending-Bounded_example : Bounded 5 (run requests new_memory_store).pending_by_id
pending-Bounded_example = pending-Bounded 5 requests refl

for_subject-In_example : In request (for_subject 50 pending alice waiting).0 ↔ (
    Holds request waiting.pending_by_id
    × (50 < request.expires_at)
    × (same_subject (subject request) alice ≡ true))
for_subject-In_example = for_subject-In 50 pending alice waiting request

waiting-taken : (take 50 pending "r1" waiting).0 ≡ some request
unfolding take
waiting-taken = refl

get_take-live_example : 50 < request.expires_at
get_take-live_example = get_take-live 50 pending "r1" waiting request (inr waiting-taken)

-- Before the end of the grant the caller holds its part, afterwards nothing.
held_test :
    (held_at 1019 ≡ ([], record { kit = "oncall"; grants = "graylog:read" ∷ []; tools = [] } ∷ []))
    × (held_at 1020 ≡ ([], []))
unfolding held_kits approve
held_test = (refl, refl)
