-- ===== src/Executor/Pipeline/Reach.antt =====
-- internal/executor/executor.go: which calls reach the backend, read off the checks alone.
use tool_mesh.Prelude.{Option, none, some, List, [], ◌∷◌, Result, ok, err}
use tool_mesh.Base.{Params, pre}
use tool_mesh.Authz.Request.{Authorizer, Answer, allowed, denied, failed}
use tool_mesh.Gate.Policies.{Shared}
use tool_mesh.Gate.Pipeline.{Evaluator, PipelineError, Outcome, evaluate_pre}
use tool_mesh.Executor.{Executor, Event, executed, injected_credentials, applied_kit, kits_of}
use tool_mesh.Authz.Kit.{Kit}
use tool_mesh.Executor.Pipeline.{Call, gate_context}

-- The parameters that a passing gate leaves.
unfoldable pub gated : Result PipelineError Outcome → Shared → Option Params
gated (ok out) s = some s.params
gated (err x) s = none

-- The call as step 1 leaves it, if the authorizer lets it pass.
unfoldable pub answered : Answer → List Kit → Call → Option Call
answered allowed kits c = some (record c { kit = applied_kit kits c.authz_req })
answered denied kits c = none
answered (failed x) kits c = none

unfoldable pub authorized : Option Authorizer → List Kit → Call → Option Call
unfolding answered
authorized none kits c = some c
authorized (some a) kits c = answered (a.check c.authz_req) kits c

module _ {W : Type 0} where
  -- The parameters that the gate before the call lets through, if it does.
  unfoldable pub pre_params : Option (List (Evaluator W)) → Call → W → Option Params
  unfolding gated
  pre_params none c g = some c.request.params
  pre_params (some evs) c g =
      let (reply, _, s) = evaluate_pre evs g (gate_context c pre c.request.params none) in
      gated reply s

  -- The call of the backend: the tool, the parameters that passed the gate, and the credentials of
  -- the tool's backend for this caller.
  unfoldable pub call_event : Executor W → Call → Params → Event
  call_event e c live =
      executed c.request.tool_name live (injected_credentials e c.user c.request.tool_name)

  unfoldable pub call_events : Executor W → Call → Option Params → List Event
  unfolding call_event
  call_events e c none = []
  call_events e c (some live) = call_event e c live ∷ []

  -- What reaches the backend of a call: nothing, or the parameters that the gate let through.
  unfoldable pub reached : Executor W → W → Option Call → Option Params
  unfolding pre_params
  reached e g none = none
  reached e g (some c) = pre_params e.gate c g

  unfoldable pub reach : Executor W → W → Call → Option Params
  unfolding reached authorized
  reach e g c = reached e g (authorized e.authorizer (kits_of e) c)
