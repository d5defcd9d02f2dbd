-- ===== src/Executor/Tests.antt =====
-- internal/executor, with one backend, an authorizer, a kit and one gate evaluator.
use mathlib.Core.List.{Memᴰ}
use tool_mesh.Prelude.{
  ℕ, String, true, false, Option, none, some, List, [], ◌∷◌, ◌==◌, if◌then◌else◌, ◌≡◌, ◌≢◌, refl,
  filter, ok, contains, inr, ◌⊎◌, ◌↔◌,
}
use tool_mesh.Prelude.Int.{pos}
use tool_mesh.Base.{UserContext, Params, ToolDescriptor, str, text_block}
use tool_mesh.Authz.Kit.{Kit}
use tool_mesh.Authz.Request.{Request, Answer, allowed, denied, Authorizer}
use tool_mesh.Gate.Policies.{shared_of}
use tool_mesh.Gate.Pipeline.{Evaluator, evaluate_pre}
use tool_mesh.Executor.{
  Executor, World, Backend, find_kit, applied_kit, held_kits, lookup_tool_access,
}
use tool_mesh.Executor.Applied.{Covered, applied_kit_iff}
use tool_mesh.Executor.Pipeline.{Moment, ExecuteToolRequest, new_call}
use tool_mesh.Executor.Pipeline.Reach.{reach}
use tool_mesh.Executor.Child.{check_child, admitted, request_of, check_child-reach}
use tool_mesh.Executor.Filter.{
  Agrees, filter_authorized_tools, callable, filter_authorized_tools-callable,
}

abbrev alice : UserContext
alice = record {
  user_id = "alice";
  company_id = "acme";
  roles = "ops" ∷ [];
  plan = "pro";
  authenticated = true;
  caller_id = "claude";
  caller_name = "Claude";
  caller_class = "trusted";
  grant_key = "";
}

abbrev oncall : Kit
oncall = record {
  name = "oncall";
  description = "Logs";
  warning = "";
  grants = "graylog:*" ∷ [];
  tools = [];
  ttl_default = pos 0;
  ttl_max = pos 0;
}

-- The steady rights are the reading tools; a held kit opens the rest of its backend.
abbrev check_request : Request → Answer
check_request r =
    if r.access == "read" then allowed else if contains r.kits "oncall" then allowed else denied

abbrev engine : Authorizer
engine = record { check = check_request; check_batch = none; kits = some (oncall ∷ []) }

abbrev search : ToolDescriptor
search = record { name = "graylog_search"; access = "read" }

abbrev delete : ToolDescriptor
delete = record { name = "graylog_delete"; access = "dangerous" }

abbrev find_tool : String → Option ToolDescriptor
find_tool name =
    if name == "graylog_search"
    then some search
    else if name == "graylog_delete"
    then some delete
    else none

abbrev backend : Backend
backend = record {
  execute = λ tool params creds.
      ok (record { content = text_block "done" ∷ []; is_error = false; metadata = none });
  lookup_tool = some find_tool;
  resolve_backend_name = some (λ tool. some "graylog");
}

-- It counts its calls and lets them pass.
abbrev counter : Evaluator ℕ
counter = record {
  name = "counter";
  evaluate = λ n ctx. (
    ok (record {
      allowed = true;
      modified = none;
      reason = "";
      policy = "";
      modifications = [];
      skipped = [];
    }),
    1,
    shared_of ctx,
  );
}

abbrev mesh : Executor ℕ
mesh = record {
  authorizer = some engine;
  creds = none;
  backend = backend;
  gate = some (counter ∷ []);
  kit_holder = some (λ user binding. ("oncall" ∷ [], []));
}

abbrev moment : Moment
moment = record { trace_id = "t-1"; latency_ms = 12 }

abbrev start : World ℕ
start = record { gate_state = 0; events = [] }

abbrev query : Params
query = some (("query", str "level:3") ∷ [])

abbrev deletion : ExecuteToolRequest
deletion = request_of "graylog_delete" query

check_child-reach_example :
    admitted (check_child mesh (some alice) "graylog_delete" query 0)
    ≡ reach mesh 0 (new_call mesh moment alice (request_of "graylog_delete" query))
check_child-reach_example = check_child-reach mesh moment alice "graylog_delete" query 0

engine-Agrees : Agrees engine
engine-Agrees batch h = cc h

abbrev tools : List ToolDescriptor
tools = search ∷ delete ∷ []

tools-classified :
    (t : ToolDescriptor)
    → Memᴰ t tools
    → (t.access ≡ "") ⊎ (t.access ≡ lookup_tool_access mesh t.name)
unfolding lookup_tool_access
tools-classified t (Memᴰ.head e) = inr (rw e refl)
tools-classified t (Memᴰ.tail (Memᴰ.head e)) = inr (rw e refl)
tools-classified t (Memᴰ.tail (Memᴰ.tail m)) = elim m [ ]

filter_authorized_tools-callable_example :
    filter_authorized_tools mesh (some alice) tools
    ≡ some (filter (callable mesh moment alice query) tools)
filter_authorized_tools-callable_example =
    filter_authorized_tools-callable mesh moment alice query engine tools refl engine-Agrees
      tools-classified

abbrev asked : Request
asked = record {
  user_id = "alice";
  company_id = "acme";
  plan = "pro";
  roles = [];
  kits = "oncall" ∷ [];
  kit_parts = [];
  tool = "graylog_delete";
  backend = "graylog";
  access = "dangerous";
}

unnamed : find_kit (oncall ∷ []) "" ≡ none
unfolding find_kit
unnamed = refl

applied_kit_iff_example : (applied_kit (oncall ∷ []) asked ≢ "") ↔ Covered (oncall ∷ []) asked
applied_kit_iff_example = applied_kit_iff (oncall ∷ []) asked unnamed

-- The held kit lets the deletion through, with the parameters as they came.
reach_test : reach mesh 0 (new_call mesh moment alice deletion) ≡ some query
unfolding reach new_call held_kits lookup_tool_access contains evaluate_pre
reach_test = refl
