-- ===== src/Gate/Pipeline.antt =====
-- internal/gate/pipeline.go and registry.go: the chain of evaluators.
use tool_mesh.Prelude.{
  String, Bool, true, false, Option, none, some, List, [], ◌∷◌, ◌++◌, Result, ok, err,
  if◌then◌else◌,
}
use tool_mesh.Base.{pre, post, PolicyModification, ToolResult}
use tool_mesh.Gate.{GateContext, EvalResult}
use tool_mesh.Gate.Policies.{Shared, shared_of, with_shared}

-- An evaluator of the pipeline. `W` is the state of the evaluators, such as the rate limiter.
pub record Evaluator (W : Type 0) : Type 0 where
  pub name : String
  pub evaluate : W → GateContext → Result String EvalResult × W × Shared

pub record Outcome : Type 0 where
  pub modifications : List PolicyModification
  pub skipped : List String

pub data PipelineError : Type 0 where
  -- The evaluator's name and its error.
  failed : String → String → PipelineError
  -- Rejection: the evaluator, its policy and its reason.
  rejected : String → String → String → PipelineError

-- `result.Modified` replaces the response in the pipeline's own context. The response that the
-- caller handed in is written to only as long as it has not been replaced.
abbrev pub replace : Option ToolResult → GateContext → GateContext
replace none ctx = ctx
replace (some r) ctx = record ctx { response = some r }

abbrev pub is_replaced : Option ToolResult → Bool → Bool
is_replaced none replaced = replaced
is_replaced (some r) replaced = true

-- What the caller sees of the shared values after one evaluator.
abbrev pub seen : Bool → Shared → Shared → Shared
seen replaced old new = record {
  params = new.params;
  response = if replaced then old.response else new.response;
}

module _ {W : Type 0} where
  -- The loop of Pipeline.evaluate.
  unfoldable pub run_evaluators :
      List (Evaluator W)
      → Outcome
      → Bool
      → W
      → GateContext
      → Shared
      → Result PipelineError Outcome × W × Shared
  run_evaluators [] out replaced w ctx shared = (ok out, w, shared)
  run_evaluators (ev ∷ evs) out replaced w ctx shared =
      let (reply, w', written) = ev.evaluate w ctx in
      let shared' = seen replaced shared written in
      elim reply [
        | err e ↦ (err (failed ev.name e), w', shared')
        | ok result ↦ elim result.allowed [
          | false ↦ (err (rejected ev.name result.policy result.reason), w', shared')
          | true ↦
              run_evaluators evs
                (record {
                  modifications = out.modifications ++ result.modifications;
                  skipped = out.skipped ++ result.skipped;
                })
                (is_replaced result.modified replaced) w'
                (replace result.modified (with_shared ctx written)) shared'
        ]
      ]

  -- Pipeline.evaluate
  unfoldable pub evaluate :
      List (Evaluator W) → W → GateContext → Result PipelineError Outcome × W × Shared
  unfolding run_evaluators
  evaluate evs w ctx =
      run_evaluators evs (record { modifications = []; skipped = [] }) false w ctx (shared_of ctx)

  unfoldable pub evaluate_pre :
      List (Evaluator W) → W → GateContext → Result PipelineError Outcome × W × Shared
  unfolding evaluate
  evaluate_pre evs w ctx = evaluate evs w (record ctx { phase = pre })

  unfoldable pub evaluate_post :
      List (Evaluator W) → W → GateContext → Result PipelineError Outcome × W × Shared
  unfolding evaluate
  evaluate_post evs w ctx = evaluate evs w (record ctx { phase = post })
