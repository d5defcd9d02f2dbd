-- ===== src/Executor/Pipeline.antt =====
-- internal/executor/executor.go: ExecuteTool, one function for each step.
mod Entry
pub mod Reach
pub mod Audit
pub mod Once
unfoldable pub use Entry.*
use Prim.Native.String.{◌++◌ as append}
use tool_mesh.Prelude.{
  ℕ, String, Bool, true, false, not, Option, none, some, List, [], ◌∷◌, ◌++◌, Result, ok, err, ◌==◌,
  if◌then◌else◌,
}
use tool_mesh.Prelude.Text.{trim_suffix}
use tool_mesh.Prelude.Dict.{insert}
use tool_mesh.Base.{
  UserContext, Value, str, num, text_block, Fields, Params, ToolResult, Phase, pre, post, Status,
  success, error, denied, AuditEntry, PolicyModification,
}
use tool_mesh.Authz.Kit.{Kit}
use tool_mesh.Authz.Request.{Request, Authorizer, Answer}
use tool_mesh.Authz.Request
use tool_mesh.Gate.{GateContext}
use tool_mesh.Gate.Policies.{Shared}
use tool_mesh.Gate.Pipeline.{Evaluator, PipelineError, Outcome, evaluate_pre, evaluate_post}
use tool_mesh.Executor.{
  Executor, World, Event, executed, recorded, emit, Held, Credentials, split_tool_prefix, kit_names,
  held_names, held_kits, kits_of, authz_request, lookup_tool_access, injected_credentials,
  applied_kit, join,
}
use tool_mesh.Executor.Redaction.{entry_params}
use tool_mesh.Executor.Remedy.{denial_remedy, gate_remedy, error_text}

module _ {W : Type 0} (e : Executor W) where
  -- recordAudit
  abbrev pub exit : Call → AuditEntry → Params → Status → Reply → World W → Reply × World W
  exit c entry live status reply w = (reply, emit w (recorded (close_entry c entry live status)))

  -- Step 6.
  unfoldable pub conclude : Call → AuditEntry → Params → ToolResult → World W → Reply × World W
  unfolding stamp close_entry
  conclude c entry live result w = exit c entry live (result_status result) (ok (stamp c result)) w

  -- Step 5, the gate after the call: what follows its answer, and its run.
  unfoldable pub post_reply :
      Call
      → AuditEntry
      → Params
      → ToolResult
      → Shared
      → World W
      → Result PipelineError Outcome
      → Reply × World W
  unfolding conclude error_text
  post_reply c entry live result shared w (err x) =
      exit c entry live denied
        (ok (text_result (append "Gate rejected (post-execution): " (error_text x)))) w
  post_reply c entry live result shared w (ok out) =
      conclude c (add_modifications entry out) live (or_result shared.response result) w

  unfoldable pub run_post :
      Option (List (Evaluator W))
      → Call
      → AuditEntry
      → Params
      → ToolResult
      → World W
      → Reply × World W
  unfolding post_reply
  run_post none c entry live result w = conclude c entry live result w
  run_post (some evs) c entry live result w =
      let (reply, g, shared) =
        evaluate_post evs w.gate_state (gate_context c post live (some result)) in
      post_reply c entry live result shared (record w { gate_state = g }) reply

  -- Step 4, the backend; the credentials of step 2 go with the call.
  unfoldable pub backend_reply :
      Call → AuditEntry → Params → World W → Result String ToolResult → Reply × World W
  unfolding run_post
  backend_reply c entry live w (err x) = exit c entry live error (err (backend_failed x)) w
  backend_reply c entry live w (ok result) = run_post e.gate c entry live result w

  unfoldable pub run_backend : Call → AuditEntry → Params → World W → Reply × World W
  unfolding backend_reply injected_credentials
  run_backend c entry live w =
      let creds = injected_credentials e c.user c.request.tool_name in
      backend_reply c entry live (emit w (executed c.request.tool_name live creds))
        (e.backend.execute c.request.tool_name live creds)

  -- Step 3, the gate before the call: what follows its answer, and its run.
  unfoldable pub pre_reply :
      List (Evaluator W)
      → Call
      → AuditEntry
      → Shared
      → World W
      → Result PipelineError Outcome
      → Reply × World W
  unfolding run_backend gate_remedy
  pre_reply evs c entry shared w (err x) =
      let (kits, remedy, g) = gate_remedy e c.user evs c.authz_req shared.params w.gate_state in
      exit c (add_metadata_if kits entry "remedy_kits") shared.params denied
        (ok (text_result (refusal_message x remedy))) (record w { gate_state = g })
  pre_reply evs c entry shared w (ok out) =
      run_backend c (add_metadata_if out.skipped (add_modifications entry out) "gate_skipped")
        shared.params w

  unfoldable pub run_pre :
      Option (List (Evaluator W)) → Call → AuditEntry → World W → Reply × World W
  unfolding pre_reply
  run_pre none c entry w = run_backend c entry c.request.params w
  run_pre (some evs) c entry w =
      let (reply, g, shared) =
        evaluate_pre evs w.gate_state (gate_context c pre c.request.params none) in
      pre_reply evs c entry shared (record w { gate_state = g }) reply

  -- Step 1, the authorization: what follows the answer, and the check.
  unfoldable pub authz_reply : Authorizer → Call → AuditEntry → World W → Answer → Reply × World W
  unfolding run_pre denial_remedy
  authz_reply a c entry w (Request.failed x) =
      exit c entry c.request.params error (err (authz_failed x)) w
  authz_reply a c entry w Request.denied =
      let (kits, remedy, g) = denial_remedy e c.user a c.authz_req c.request.params w.gate_state in
      exit c (add_metadata_if kits entry "remedy_kits") c.request.params denied
        (ok (text_result (denial_message c remedy))) (record w { gate_state = g })
  authz_reply a c entry w Request.allowed =
      let c' : Call = record c { kit = applied_kit (kits_of e) c.authz_req } in
      run_pre e.gate c' (with_applied_kit c' entry) w

  unfoldable pub run_authz : Option Authorizer → Call → World W → Reply × World W
  unfolding authz_reply new_entry held_names
  run_authz none c w = run_pre e.gate c (new_entry c) w
  run_authz (some a) c w = authz_reply a c (with_held_kits c (new_entry c)) w (a.check c.authz_req)

  -- What ExecuteTool computes before step 1.
  unfoldable pub new_call : Moment → UserContext → ExecuteToolRequest → Call
  unfolding lookup_tool_access held_kits authz_request
  new_call moment uc req =
      let access = lookup_tool_access e req.tool_name in
      let holding = held_kits e uc in
      record {
        moment = moment;
        user = uc;
        request = req;
        access = access;
        holding = holding;
        authz_req = authz_request e uc req.tool_name access holding;
        kit = "";
      }

  -- ExecuteTool; `none` is a context without a user.
  unfoldable pub execute_tool :
      Moment → Option UserContext → ExecuteToolRequest → World W → Reply × World W
  unfolding run_authz new_call
  execute_tool moment none req w = (err no_user_context, w)
  execute_tool moment (some uc) req w = run_authz e.authorizer (new_call moment uc req) w
