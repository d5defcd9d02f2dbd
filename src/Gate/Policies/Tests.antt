-- ===== src/Gate/Policies/Tests.antt =====
-- internal/gate/gate.go, on two policies: one that blocks deletions and one that redacts results.
use mathlib.Core.List.{Memᴰ}
use tool_mesh.Prelude.{
  String, Bool, true, false, Option, none, some, List, [], ◌∷◌, ◌==◌, if◌then◌else◌, ◌≡◌, refl,
}
use tool_mesh.Base.{UserContext, Phase, pre, post, items, text_block, ToolResult}
use tool_mesh.Gate.{GateContext}
use tool_mesh.Gate.Limiter.{new_rate_limiter}
use tool_mesh.Gate.Policies.{
  Policy, Engine, throws, returns, shared_of, evaluate, recorded, params_snapshot, content_snapshot,
}
use tool_mesh.Gate.Policies.Effects.{SameFrame}
use tool_mesh.Gate.Policies.Kits.{Refuses, kit_replaces_gate, enforced_policy_stops, evaluate-post}

abbrev dave : UserContext
dave = record {
  user_id = "dave";
  company_id = "acme";
  roles = [];
  plan = "pro";
  authenticated = true;
  caller_id = "claude";
  caller_name = "";
  caller_class = "trusted";
  grant_key = "";
}

-- A source is "block", which throws, "redact", which writes one text, or any other, which changes
-- nothing.
abbrev scripts : Engine
scripts source limited ctx =
    if source == "block"
    then throws "deletion is blocked"
    else if source == "redact"
    then returns (params_snapshot ctx.params) (items (text_block "***" ∷ []))
    else returns (params_snapshot ctx.params) (content_snapshot ctx.response)

abbrev policy : String → Bool → Policy
policy source enforced = record { name = source; source = source; enforce_with_kit = enforced }

abbrev call : Phase → Option ToolResult → Bool → GateContext
call phase response covered = record {
  user = dave;
  tool = "graylog_delete";
  tool_access = "dangerous";
  params = none;
  phase = phase;
  response = response;
  kits = "oncall" ∷ [];
  kit_covered = covered;
  preflight = false;
}

abbrev yielding : List Policy
yielding = policy "block" false ∷ policy "log" false ∷ []

abbrev covered_call : GateContext
covered_call = call pre none true

kit_replaces_gate_example :
    ((evaluate scripts yielding new_rate_limiter 5 covered_call).0.allowed ≡ true)
    × ((evaluate scripts yielding new_rate_limiter 5 covered_call).0.modifications ≡ [])
    × ((evaluate scripts yielding new_rate_limiter 5 covered_call).2 ≡ shared_of covered_call)
kit_replaces_gate_example =
    kit_replaces_gate scripts new_rate_limiter 5 covered_call yielding refl refl refl

abbrev enforced : List Policy
enforced = policy "log" true ∷ policy "block" true ∷ []

block-Refuses :
    Refuses scripts (recorded new_rate_limiter 5 covered_call) 5 covered_call (policy "block" true)
block-Refuses s = ("deletion is blocked", refl)

enforced_policy_stops_example :
    (evaluate scripts enforced new_rate_limiter 5 covered_call).0.allowed ≡ false
enforced_policy_stops_example =
    enforced_policy_stops scripts new_rate_limiter 5 covered_call enforced (policy "block" true)
      (Memᴰ.tail (Memᴰ.head refl)) refl block-Refuses

abbrev answer : ToolResult
answer = record { content = text_block "secret" ∷ []; is_error = false; metadata = none }

abbrev answered_call : GateContext
answered_call = call post (some answer) true

abbrev redacting : List Policy
redacting = policy "redact" false ∷ []

redacting-allowed : (evaluate scripts redacting new_rate_limiter 5 answered_call).0.allowed ≡ true
unfolding evaluate
redacting-allowed = refl

evaluate-post_example :
    ((evaluate scripts redacting new_rate_limiter 5 answered_call).0.skipped ≡ [])
    × ((evaluate scripts redacting new_rate_limiter 5 answered_call).2.params
        ≡ answered_call.params)
    × SameFrame answered_call.response
        (evaluate scripts redacting new_rate_limiter 5 answered_call).2.response
evaluate-post_example =
    evaluate-post scripts new_rate_limiter 5 answered_call redacting redacting-allowed refl

-- After the call no policy is skipped, and the redaction replaces the content.
redact_test :
    (evaluate scripts (policy "redact" false ∷ []) new_rate_limiter 5 answered_call).2.response
    ≡ some (record answer { content = text_block "***" ∷ [] })
unfolding evaluate
redact_test = refl
