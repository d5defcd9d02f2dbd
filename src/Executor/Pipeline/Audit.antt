-- ===== src/Executor/Pipeline/Audit.antt =====
-- internal/executor/executor.go: what every exit of ExecuteTool records.
use mathlib.Core.List.{append_assoc}
use tool_mesh.Prelude.{
  String, false, Option, none, some, List, [], ◌∷◌, ◌++◌, Result, ok, err, ◌≡◌, refl, arith, ap,
  ◌∙◌, ◌↔◌,
}
use tool_mesh.Base.{pre, post, Params, ToolResult, Status, success, error, denied, AuditEntry}
use tool_mesh.Gate.Policies.{Shared}
use tool_mesh.Gate.Pipeline.{Evaluator, PipelineError, Outcome, evaluate_pre, evaluate_post}
use tool_mesh.Executor.{Executor, World, Event, executed, recorded, emit, injected_credentials}
use tool_mesh.Executor.Redaction.{entry_params}
use tool_mesh.Executor.Pipeline.{
  text_result, Call, Reply, Failure, exit, conclude, post_reply, run_post, backend_reply,
  run_backend, pre_reply, run_pre, close_entry, stamp, result_status, backend_failed,
  add_metadata_if, add_modifications, or_result, gate_context,
}
use tool_mesh.Executor.Remedy.{gate_remedy}
use tool_mesh.Executor.Pipeline.Reach.{call_event, call_events, gated, pre_params}

-- The call was answered with a result that is no error.
abbrev pub Succeeded : Reply → Type 0
Succeeded (ok r) = r.is_error ≡ false
Succeeded (err f) = ⊥

-- A failure of the executor stands in the entry as an error.
abbrev pub FailedAs : Status → Reply → Type 0
FailedAs status (ok r) = Unit
FailedAs status (err f) = status ≡ error

-- The caller's name and the tool's, as they stand in the entry.
pub record IsOf (c : Call) (entry : AuditEntry) : Type 0 where
  pub tool : entry.tool ≡ c.request.tool_name
  pub user : entry.user_id ≡ c.user.user_id
  pub caller : entry.caller_id ≡ c.user.caller_id

-- From `w` the call did `called` and then recorded one entry, as its last event.
pub record Exits {W : Type 0} (c : Call) (w : World W) (called : List Event) (out : Reply × World W)
    : Type 0 where
  pub entry : AuditEntry
  pub events : out.1.events ≡ w.events ++ (called ++ recorded entry ∷ [])
  pub is_of : IsOf c entry
  pub live : Params
  pub params : entry.params ≡ entry_params c.request.params live
  pub status : (entry.status ≡ success) ↔ Succeeded out.0
  pub failed : FailedAs entry.status out.0

abbrev pub WellClosed : Status → Reply → Type 0
WellClosed status reply = ((status ≡ success) ↔ Succeeded reply) × FailedAs status reply

module _ {W : Type 0} where
  -- The state of the gate is no event.
  pub Exits-from :
      (c : Call) (w w' : World W) (called : List Event) (out : Reply × World W)
      → w'.events ≡ w.events
      → Exits c w' called out
      → Exits c w called out
  Exits-from c w w' called out same v = record {
    entry = v.entry;
    events = v.events ∙ ap (λ es. es ++ (called ++ recorded v.entry ∷ [])) same;
    is_of = v.is_of;
    live = v.live;
    params = v.params;
    status = v.status;
    failed = v.failed;
  }

  pub Exits-emit :
      (c : Call) (w : World W) (ev : Event) (out : Reply × World W)
      → Exits c (emit w ev) [] out
      → Exits c w (ev ∷ []) out
  Exits-emit c w ev out v = record {
    entry = v.entry;
    events = v.events ∙ append_assoc w.events (ev ∷ []) (recorded v.entry ∷ []);
    is_of = v.is_of;
    live = v.live;
    params = v.params;
    status = v.status;
    failed = v.failed;
  }

pub add_metadata_if-IsOf :
    (c : Call) (values : List String) (entry : AuditEntry) (key : String)
    → IsOf c entry
    → IsOf c (add_metadata_if values entry key)
add_metadata_if-IsOf c [] entry key o = o
add_metadata_if-IsOf c (v ∷ vs) entry key o = record {
  tool = o.tool;
  user = o.user;
  caller = o.caller;
}

module _ {W : Type 0} (e : Executor W) where
  pub exit-Exits :
      (c : Call) (entry : AuditEntry) (live : Params) (status : Status) (reply : Reply)
      (w : World W)
      → IsOf c entry
      → WellClosed status reply
      → Exits c w [] (exit e c entry live status reply w)
  unfolding close_entry
  exit-Exits c entry live status reply w o (s, f) = record {
    entry = close_entry c entry live status;
    events = refl;
    is_of = record { tool = o.tool; user = o.user; caller = o.caller };
    live = live;
    params = refl;
    status = s;
    failed = f;
  }

  closed_answer : (r : ToolResult) → WellClosed (result_status r) (ok r)
  closed_answer r = (ground arith, tt)

  pub closed_failure : (f : Failure) → WellClosed error (err f)
  closed_failure f = ((λ h. cc h, λ b. absurd b), refl)

  pub denial-Exits :
      (c : Call) (entry : AuditEntry) (live : Params) (msg : String) (w : World W)
      → IsOf c entry
      → Exits c w [] (exit e c entry live denied (ok (text_result msg)) w)
  denial-Exits c entry live msg w o =
      exit-Exits c entry live denied (ok (text_result msg)) w o (ground arith, tt)

  conclude-Exits :
      (c : Call) (entry : AuditEntry) (live : Params) (r : ToolResult) (w : World W)
      → IsOf c entry
      → Exits c w [] (conclude e c entry live r w)
  unfolding conclude stamp
  conclude-Exits c entry live r w o =
      exit-Exits c entry live (result_status r) (ok (stamp c r)) w o (closed_answer (stamp c r))

  post_reply-Exits :
      (c : Call) (entry : AuditEntry) (live : Params) (r : ToolResult) (s : Shared) (w : World W)
      (reply : Result PipelineError Outcome)
      → IsOf c entry
      → Exits c w [] (post_reply e c entry live r s w reply)
  unfolding post_reply
  post_reply-Exits c entry live r s w (err x) o = denial-Exits c entry live _ w o
  post_reply-Exits c entry live r s w (ok out) o =
      conclude-Exits c (add_modifications entry out) live (or_result s.response r) w
        (record { tool = o.tool; user = o.user; caller = o.caller })

  run_post-Exits :
      (gate : Option (List (Evaluator W))) (c : Call) (entry : AuditEntry) (live : Params)
      (r : ToolResult) (w : World W)
      → IsOf c entry
      → Exits c w [] (run_post e gate c entry live r w)
  unfolding run_post
  run_post-Exits none c entry live r w o = conclude-Exits c entry live r w o
  run_post-Exits (some evs) c entry live r w o =
      let (reply, g, s) = evaluate_post evs w.gate_state (gate_context c post live (some r)) in
      Exits-from c w (record w { gate_state = g }) [] _ refl
        (post_reply-Exits c entry live r s (record w { gate_state = g }) reply o)

  backend_reply-Exits :
      (c : Call) (entry : AuditEntry) (live : Params) (w : World W) (r : Result String ToolResult)
      → IsOf c entry
      → Exits c w [] (backend_reply e c entry live w r)
  unfolding backend_reply
  backend_reply-Exits c entry live w (err x) o =
      exit-Exits c entry live error (err (backend_failed x)) w o (closed_failure (backend_failed x))
  backend_reply-Exits c entry live w (ok r) o = run_post-Exits e.gate c entry live r w o

  run_backend-Exits :
      (c : Call) (entry : AuditEntry) (live : Params) (w : World W)
      → IsOf c entry
      → Exits c w (call_event e c live ∷ []) (run_backend e c entry live w)
  unfolding run_backend call_event
  run_backend-Exits c entry live w o =
      let creds = injected_credentials e c.user c.request.tool_name in
      Exits-emit c w (executed c.request.tool_name live creds) _ (
        backend_reply-Exits c entry live (emit w (executed c.request.tool_name live creds))
          (e.backend.execute c.request.tool_name live creds) o)

  pre_reply-Exits :
      (evs : List (Evaluator W)) (c : Call) (entry : AuditEntry) (s : Shared) (w : World W)
      (reply : Result PipelineError Outcome)
      → IsOf c entry
      → Exits c w (call_events e c (gated reply s)) (pre_reply e evs c entry s w reply)
  unfolding pre_reply call_events gated
  pre_reply-Exits evs c entry s w (err x) o =
      let (kits, remedy, g) = gate_remedy e c.user evs c.authz_req s.params w.gate_state in
      Exits-from c w (record w { gate_state = g }) [] _ refl
        (denial-Exits c (add_metadata_if kits entry "remedy_kits") s.params _ _
          (add_metadata_if-IsOf c kits entry "remedy_kits" o))
  pre_reply-Exits evs c entry s w (ok out) o = run_backend-Exits c _ s.params w (
      add_metadata_if-IsOf c out.skipped (add_modifications entry out) "gate_skipped"
        (record { tool = o.tool; user = o.user; caller = o.caller }))

  pub run_pre-Exits :
      (gate : Option (List (Evaluator W))) (c : Call) (entry : AuditEntry) (w : World W)
      → IsOf c entry
      → Exits c w (call_events e c (pre_params gate c w.gate_state)) (run_pre e gate c entry w)
  unfolding run_pre pre_params call_events
  run_pre-Exits none c entry w o = run_backend-Exits c entry c.request.params w o
  run_pre-Exits (some evs) c entry w o =
      let (reply, g, s) =
        evaluate_pre evs w.gate_state (gate_context c pre c.request.params none) in
      Exits-from c w (record w { gate_state = g }) _ _ refl
        (pre_reply-Exits evs c entry s (record w { gate_state = g }) reply o)
