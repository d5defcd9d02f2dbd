-- ===== src/Executor/Pipeline/Entry.antt =====
-- internal/executor/executor.go: what ExecuteTool has at hand in its steps, and the audit entry.
use Prim.Native.String.{◌++◌ as append}
use tool_mesh.Prelude.{
  ℕ, String, Bool, true, false, not, Option, none, some, List, [], ◌∷◌, ◌++◌, Result, ◌==◌,
  if◌then◌else◌,
}
use tool_mesh.Prelude.Text.{trim_suffix}
use tool_mesh.Prelude.Dict.{insert}
use tool_mesh.Base.{
  UserContext, str, num, text_block, Fields, Params, ToolResult, Phase, Status, success, error,
  AuditEntry,
}
use tool_mesh.Authz.Request.{Request}
use tool_mesh.Gate.{GateContext}
use tool_mesh.Gate.Pipeline.{PipelineError, Outcome}
use tool_mesh.Executor.{Held, split_tool_prefix, kit_names, held_names, join}
use tool_mesh.Executor.Redaction.{entry_params}
use tool_mesh.Executor.Remedy.{error_text}

pub record ExecuteToolRequest : Type 0 where
  pub tool_name : String
  pub params : Params

pub data Failure : Type 0 where
  no_user_context : Failure
  authz_failed backend_failed : String → Failure

-- The values that time.Now and uuid.New give in one call.
pub record Moment : Type 0 where
  pub trace_id : String
  pub latency_ms : ℕ

-- What ExecuteTool has computed before its first step, and `kit`, which step 1 sets.
pub record Call : Type 0 where
  pub moment : Moment
  pub user : UserContext
  pub request : ExecuteToolRequest
  pub access : String
  pub holding : Held
  pub authz_req : Request
  pub kit : String

abbrev pub text_result : String → ToolResult
text_result msg = record { content = text_block msg ∷ []; is_error = true; metadata = none }

-- addMetadata
abbrev pub add_metadata : AuditEntry → String → String → AuditEntry
add_metadata entry key value = record entry { metadata = insert key value entry.metadata }

abbrev pub is_nil {ℓ} : {A : Type ℓ} → List A → Bool
is_nil [] = true
is_nil (x ∷ xs) = false

abbrev pub add_metadata_if : List String → AuditEntry → String → AuditEntry
add_metadata_if values entry key =
    if is_nil values then entry else add_metadata entry key (join "," values)

abbrev map_or_new : Params → Fields
map_or_new none = []
map_or_new (some m) = m

-- The metadata that ExecuteTool adds to a result.
unfoldable pub stamp : Call → ToolResult → ToolResult
stamp c r = record r {
  metadata = some (
      insert "traceId" (str c.moment.trace_id) (
        insert "user" (str c.user.user_id)
          (insert "latencyMs" (num c.moment.latency_ms) (map_or_new r.metadata))));
}

-- The entry as it stands before the first step; its status and parameters are set at each exit.
unfoldable pub new_entry : Call → AuditEntry
unfolding split_tool_prefix
new_entry c = record {
  user_id = c.user.user_id;
  company_id = c.user.company_id;
  caller_id = c.user.caller_id;
  caller_name = c.user.caller_name;
  caller_class = c.user.caller_class;
  tool = c.request.tool_name;
  tool_access = c.access;
  backend = (split_tool_prefix c.request.tool_name).0;
  params = none;
  status = error;
  metadata = [];
  modifications = [];
}

-- The entry as an exit records it: `live` is the call's map of parameters at that time.
unfoldable pub close_entry : Call → AuditEntry → Params → Status → AuditEntry
unfolding entry_params
close_entry c entry live status = record entry {
  params = entry_params c.request.params live;
  status = status;
}

abbrev pub result_status : ToolResult → Status
result_status r = if r.is_error then error else success

abbrev pub add_modifications : AuditEntry → Outcome → AuditEntry
add_modifications entry out = record entry {
  modifications = entry.modifications ++ out.modifications;
}

abbrev pub or_result : Option ToolResult → ToolResult → ToolResult
or_result none r = r
or_result (some r') r = r'

abbrev pub gate_context : Call → Phase → Params → Option ToolResult → GateContext
gate_context c phase live response = record {
  user = c.user;
  tool = c.request.tool_name;
  tool_access = c.access;
  params = live;
  phase = phase;
  response = response;
  kits = kit_names c.holding.kits c.holding.parts;
  kit_covered = not (c.kit == "");
  preflight = false;
}

abbrev pub Reply : Type 0
Reply = Result Failure ToolResult

-- The message of a refusal before the call.
abbrev pub refusal_message : PipelineError → String → String
refusal_message x remedy =
    let msg = append "Gate rejected (pre-execution): " (error_text x) in
    if remedy == "" then msg else append (trim_suffix b'.' msg) (append "." remedy)

abbrev pub with_held_kits : Call → AuditEntry → AuditEntry
with_held_kits c entry =
    if is_nil c.holding.kits
    then if is_nil c.holding.parts
      then entry
      else add_metadata entry "held_kits" (held_names c.holding)
    else add_metadata entry "held_kits" (held_names c.holding)

abbrev pub with_applied_kit : Call → AuditEntry → AuditEntry
with_applied_kit c entry = if c.kit == "" then entry else add_metadata entry "kit_applied" c.kit

abbrev pub denial_message : Call → String → String
denial_message c remedy = append "User " (
    append c.user.user_id (
      append " is not authorized to execute tool "
        (append c.request.tool_name (append "." remedy))))
