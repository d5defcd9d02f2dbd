-- ===== src/Grants/Service/Tests.antt =====
-- internal/grants/service.go, on one request.
use Prim.Native.String.{count}
use tool_mesh.Prelude.{
  ℕ, ◌≤◌, String, true, false, Option, none, some, [], ◌∷◌, Result, ok, ◌==◌, if◌then◌else◌, ltb,
  eqb, ◌≡◌, ◌↔◌, ◌*◌, refl, arith,
}
use tool_mesh.Prelude.Int.{ℤ, pos}
use tool_mesh.Base.{UserContext}
use tool_mesh.Authz.Kit.{Kit}
use tool_mesh.Grants.{Subject, pending}
use tool_mesh.Grants.Store.{Store, new_memory_store}
use tool_mesh.Grants.Service.{Approver}
use tool_mesh.Grants.Service.Holding.{Current}
use tool_mesh.Grants.Service.Text.{
  Unicode, clean_reason, clean_reason_plain, all_chars, is_plain, max_reason_len,
}
use tool_mesh.Grants.Service.Request.{RequestInput, RequestResult, RequestError, request}
use tool_mesh.Grants.Service.Requested.{Asked, request-Asked, request-Current}

abbrev ascii : Unicode
ascii = record { is_control = λ c. ltb c 32; is_format = λ c. eqb c 0x200B }

abbrev durations : String → Option ℤ
durations s = if s == "4h" then some (pos 14400000000000) else none

abbrev oncall : Kit
oncall = record {
  name = "oncall";
  description = "Logs";
  warning = "";
  grants = "graylog" ∷ [];
  tools = [];
  ttl_default = pos 0;
  ttl_max = pos 7200000000000;
}

abbrev bob : Approver
bob = record { name = "bob"; key_sha256 = "00"; kits = [] }

abbrev alice : UserContext
alice = record {
  user_id = "alice";
  company_id = "acme";
  roles = [];
  plan = "pro";
  authenticated = true;
  caller_id = "claude";
  caller_name = "Claude";
  caller_class = "";
  grant_key = "key-1";
}

abbrev input : RequestInput
input = record { kit = " oncall "; reason = "incident\n 42 "; ttl = "4h"; coverage = [] }

cleaned : clean_reason ascii "incident\n 42 " ≡ ok "incident 42"
unfolding clean_reason
cleaned = refl

clean_reason_plain_example :
    (all_chars (is_plain ascii) "incident 42" ≡ true)
    × (count "incident 42" ≤ max_reason_len)
    × (("incident 42" == "") ≡ false)
clean_reason_plain_example =
    clean_reason_plain ascii "incident\n 42 " "incident 42" (refl, refl) cleaned

abbrev clock : ℕ → ℕ
clock n = 10 * n

abbrev outcome : Result RequestError RequestResult × Store
outcome =
    request (oncall ∷ []) (bob ∷ []) ascii durations clock (some alice) input "r1" "n1"
      new_memory_store

-- The four hours are cut to two.
abbrev asked : RequestResult
asked = record {
  grant = record {
    id = "r1";
    state = pending;
    kit = "oncall";
    user_id = "alice";
    caller_id = "claude";
    caller_name = "Claude";
    company_id = "acme";
    grant_key = "key-1";
    reason = "incident 42";
    ttl = pos 7200000000000;
    requested_at = 20;
    nonce = "n1";
    coverage = [];
    approved_by = "";
    approved_at = 0;
    approved_with = "";
    part = none;
    expires_at = 1800000000020;
  };
  is_existing = false;
  capped = true;
  held_until = 0;
}

outcome-asked : outcome.0 ≡ ok asked
unfolding request
outcome-asked = refl

request-Asked_example :
    Asked (oncall ∷ []) (bob ∷ []) ascii durations clock alice input "r1" asked.grant outcome.1
request-Asked_example =
    request-Asked (oncall ∷ []) (bob ∷ []) ascii durations clock alice input "r1" "n1"
      new_memory_store asked outcome-asked refl

abbrev who : Subject
who = record { user_id = "alice"; binding = "key-1" }

request-Current_example :
    Current (oncall ∷ []) 50 who outcome.1 asked.grant
    ↔ Current (oncall ∷ []) 50 who new_memory_store asked.grant
request-Current_example =
    request-Current (oncall ∷ []) (bob ∷ []) ascii durations clock alice input "r1" "n1"
      new_memory_store 50 who asked.grant (omega arith)
