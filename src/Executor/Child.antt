-- ===== src/Executor/Child.antt =====
-- internal/executor/executor.go: CheckChild, the checks of a call that a composite makes inside.
use tool_mesh.Prelude.{
  String, false, not, Option, none, some, List, Result, ok, err, ◌==◌, ◌≡◌, refl,
}
use tool_mesh.Base.{UserContext, Params, pre}
use tool_mesh.Authz.Request
use tool_mesh.Authz.Request.{Authorizer, Answer}
use tool_mesh.Gate.{GateContext}
use tool_mesh.Gate.Policies.{Shared}
use tool_mesh.Gate.Pipeline.{Evaluator, PipelineError, Outcome, evaluate_pre}
use tool_mesh.Executor.{
  Executor, Held, kit_names, held_kits, kits_of, authz_request, lookup_tool_access, applied_kit,
}
use tool_mesh.Executor.Pipeline.{Moment, ExecuteToolRequest, new_call}
use tool_mesh.Executor.Pipeline.Reach.{reach, reached, authorized, answered, pre_params, gated}

pub data ChildError : Type 0 where
  no_user_context not_authorized : ChildError
  check_failed : String → ChildError
  gate_rejected : PipelineError → ChildError

abbrev pub child_context : UserContext → String → String → Params → Held → String → GateContext
child_context uc tool access params holding kit = record {
  user = uc;
  tool = tool;
  tool_access = access;
  params = params;
  phase = pre;
  response = none;
  kits = kit_names holding.kits holding.parts;
  kit_covered = not (kit == "");
  preflight = false;
}

-- The error or nil, the child's parameters as the gate leaves them, and the gate's state.
abbrev pub ChildReply : Type 0 → Type 0
ChildReply W = Option ChildError × Params × W

unfoldable pub pre_error : Result PipelineError Outcome → Option ChildError
pre_error (ok out) = none
pre_error (err x) = some (gate_rejected x)

module _ {W : Type 0} (e : Executor W) where
  unfoldable pub child_gate :
      Option (List (Evaluator W))
      → UserContext
      → String
      → String
      → Params
      → Held
      → String
      → W
      → ChildReply W
  unfolding pre_error
  child_gate none uc tool access params holding kit g = (none, params, g)
  child_gate (some evs) uc tool access params holding kit g =
      let (reply, g', shared) =
        evaluate_pre evs g (child_context uc tool access params holding kit) in
      (pre_error reply, shared.params, g')

  unfoldable pub child_answer :
      UserContext → String → String → Params → Held → W → Answer → ChildReply W
  unfolding child_gate authz_request
  child_answer uc tool access params holding g (Request.failed x) =
      (some (check_failed x), params, g)
  child_answer uc tool access params holding g Request.denied = (some not_authorized, params, g)
  child_answer uc tool access params holding g Request.allowed =
      child_gate e.gate uc tool access params holding
        (applied_kit (kits_of e) (authz_request e uc tool access holding)) g

  unfoldable pub child_authz :
      Option Authorizer → UserContext → String → String → Params → Held → W → ChildReply W
  unfolding child_answer
  child_authz none uc tool access params holding g =
      child_gate e.gate uc tool access params holding "" g
  child_authz (some a) uc tool access params holding g =
      child_answer uc tool access params holding g
        (a.check (authz_request e uc tool access holding))

  -- Executor.CheckChild
  unfoldable pub check_child : Option UserContext → String → Params → W → ChildReply W
  unfolding child_authz held_kits lookup_tool_access
  check_child none tool params g = (some no_user_context, params, g)
  check_child (some uc) tool params g =
      child_authz e.authorizer uc tool (lookup_tool_access e tool) params (held_kits e uc) g

-- The parameters that a child call goes on with: none where CheckChild returned an error.
unfoldable pub admitted : {W : Type 0} → ChildReply W → Option Params
admitted (none, params, g) = some params
admitted (some x, params, g) = none

abbrev pub request_of : String → Params → ExecuteToolRequest
request_of tool params = record { tool_name = tool; params = params }

module _ {W : Type 0} (e : Executor W) (moment : Moment) (uc : UserContext) (tool : String)
    (params : Params) where
  gate_agrees :
      (reply : Result PipelineError Outcome) (s : Shared) (g : W)
      → admitted (pre_error reply, s.params, g) ≡ gated reply s
  unfolding admitted pre_error gated
  gate_agrees (ok out) s g = refl
  gate_agrees (err x) s g = refl

  child_gate-pre_params :
      (gate : Option (List (Evaluator W))) (kit : String) (g : W)
      → admitted
          (child_gate e gate uc tool (lookup_tool_access e tool) params (held_kits e uc) kit g)
        ≡ pre_params gate (record (new_call e moment uc (request_of tool params)) { kit = kit }) g
  unfolding child_gate pre_params admitted new_call
  child_gate-pre_params none kit g = refl
  child_gate-pre_params (some evs) kit g =
      let (reply, g', shared) =
        evaluate_pre evs g
          (child_context uc tool (lookup_tool_access e tool) params (held_kits e uc) kit) in
      gate_agrees reply shared g'

  child_answer-reached :
      (answer : Answer) (g : W)
      → admitted
          (child_answer e uc tool (lookup_tool_access e tool) params (held_kits e uc) g answer)
        ≡ reached e g (answered answer (kits_of e) (new_call e moment uc (request_of tool params)))
  unfolding child_answer reached answered admitted new_call
  child_answer-reached (Request.failed x) g = refl
  child_answer-reached Request.denied g = refl
  child_answer-reached Request.allowed g = child_gate-pre_params e.gate _ g

  child_authz-reached :
      (authorizer : Option Authorizer) (g : W)
      → admitted
          (child_authz e authorizer uc tool (lookup_tool_access e tool) params (held_kits e uc) g)
        ≡ reached e g
            (authorized authorizer (kits_of e) (new_call e moment uc (request_of tool params)))
  unfolding child_authz reached authorized new_call
  child_authz-reached none g = child_gate-pre_params e.gate "" g
  child_authz-reached (some a) g = child_answer-reached (a.check _) g

  -- A call inside a composite passes CheckChild exactly when the same tool called directly, by the
  -- same caller with the same parameters, would reach the backend, and with the same parameters:
  -- no tool can be reached through a composite that the caller could not call.
  pub check_child-reach :
      (g : W)
      → admitted (check_child e (some uc) tool params g)
        ≡ reach e g (new_call e moment uc (request_of tool params))
  unfolding check_child reach
  check_child-reach g = child_authz-reached e.authorizer g
