-- ===== src/Executor/Remedy.antt =====
-- internal/executor/rights.go: the kits that would let a refused call pass, and the text that names
-- them.
use Prim.Native.String.{◌++◌ as append}
use tool_mesh.Prelude.{
  String, Bool, true, false, not, ◌&&◌, Option, none, some, List, [], ◌∷◌, ◌++◌, Result, ok, err,
  ◌==◌, if◌then◌else◌, map, is_some,
}
use tool_mesh.Base.{UserContext, Params, pre}
use tool_mesh.Authz.Kit.{Kit, covers}
use tool_mesh.Authz.Request.{Request, Authorizer, Answer, allowed, denied, failed}
use tool_mesh.Gate.{GateContext}
use tool_mesh.Gate.Pipeline.{Evaluator, PipelineError, rejected, Outcome, evaluate_pre}
use tool_mesh.Gate.Pipeline
use tool_mesh.Executor.{Executor, kits_of, kit_names, find_kit, applied_kit, join}

-- The text of an error of the pipeline.
unfoldable pub error_text : PipelineError → String
error_text (Pipeline.failed name e) = append "evaluator " (append name (append ": " e))
error_text (rejected name policy reason) =
    append "evaluator " (append name (append " rejected: " reason))

-- The refusal that gatePreflight returns, "" when the call would pass.
abbrev pub refusal_text : Result PipelineError Outcome → String
refusal_text (ok out) = ""
refusal_text (err (Pipeline.failed name e)) = error_text (Pipeline.failed name e)
refusal_text (err (rejected name policy reason)) = reason

abbrev pub or_empty_map : Params → Params
or_empty_map none = some []
or_empty_map (some m) = some m

-- withKit
abbrev pub with_kit : Request → String → Request
with_kit req kit = record req { kits = req.kits ++ kit ∷ [] }

abbrev pub is_allowed : Answer → Bool
is_allowed allowed = true
is_allowed denied = false
is_allowed (failed e) = false

abbrev first_or_false : List Bool → Bool
first_or_false [] = false
first_or_false (b ∷ bs) = b

-- Executor.checkAll, with an authorizer.
unfoldable pub check_all : Authorizer → List Request → List Bool
check_all a reqs = elim a.check_batch [
  | none ↦ map (λ r. is_allowed (a.check r)) reqs
  | some batch ↦ batch reqs
]

-- `assess` for the one denied request of denialRemedy: the kits that cover the tool and with which
-- the check allows it.
unfoldable pub assess_denied : Authorizer → Request → List Kit → List String
unfolding check_all
assess_denied a req [] = []
assess_denied a req (k ∷ ks) =
    let rest = assess_denied a req ks in
    if covers k req.tool req.backend req.access
      && first_or_false (check_all a (with_kit req k.name ∷ []))
    then k.name ∷ rest
    else rest

module _ {W : Type 0} (e : Executor W) (uc : UserContext) where
  -- The gate context of a preflight.
  abbrev pub preflight_context : Request → Params → GateContext
  preflight_context req params = record {
    user = uc;
    tool = req.tool;
    tool_access = req.access;
    params = or_empty_map params;
    phase = pre;
    response = none;
    kits = kit_names req.kits req.kit_parts;
    kit_covered = not (applied_kit (kits_of e) req == "");
    preflight = true;
  }

  -- Executor.gatePreflight, in a gate.
  unfoldable pub gate_preflight : List (Evaluator W) → Request → Params → W → String × W
  gate_preflight evs req params w =
      let (reply, w', _) = evaluate_pre evs w (preflight_context req params) in
      (refusal_text reply, w')

  -- The loop of Executor.liftingKits.
  unfoldable pub lifting_kits :
      List (Evaluator W) → Request → Params → List Kit → W → List String × W
  unfolding gate_preflight
  lifting_kits evs req params [] w = ([], w)
  lifting_kits evs req params (k ∷ ks) w = elim (covers k req.tool req.backend req.access) [
    | false ↦ lifting_kits evs req params ks w
    | true ↦
        let (refusal, w') = gate_preflight evs (with_kit req k.name) params w in
        let (rest, w'') = lifting_kits evs req params ks w' in
        (if refusal == "" then k.name ∷ rest else rest, w'')
  ]

  -- The loop of Executor.denialRemedy over the kits that `assess` found.
  unfoldable pub passing_kits :
      Option (List (Evaluator W)) → Request → Params → List String → W → List String × W
  unfolding gate_preflight
  passing_kits gate req params [] w = ([], w)
  passing_kits none req params (name ∷ names) w = (name ∷ names, w)
  passing_kits (some evs) req params (name ∷ names) w =
      let (refusal, w') = gate_preflight evs (with_kit req name) params w in
      let (rest, w'') = passing_kits (some evs) req params names w' in
      (if refusal == "" then name ∷ rest else rest, w'')

  abbrev description_of : Option Kit → String
  description_of none = ""
  description_of (some k) = k.description

  -- `%q (%s)`; a kit's name is a slug, so quoting it adds the quotes only.
  abbrev named : String → String
  named name =
      append "\""
        (append name (append "\" (" (append (description_of (find_kit (kits_of e) name)) ")")))

  abbrev subject : List String → String
  subject [] = ""
  subject (name ∷ []) = append "The kit " (append (named name) " covers")
  subject (name ∷ more) =
      append "The kits " (append (join ", " (map (λ n. named n) (name ∷ more))) " cover")

  -- Executor.remedyText
  unfoldable pub remedy_text : List String → String
  unfolding join find_kit
  remedy_text [] = ""
  remedy_text (name ∷ names) = append " " (
      append (subject (name ∷ names)) (
        if is_some e.kit_holder
        then " it. Check first with tell_me_my_rights({tools: [...]}) which other tools your task needs, then ask once with request_grant({kit, reason}) for a kit that covers all of them, rather than for this one tool."
        else " it. Ask for a kit rather than for this one tool, and check first with tell_me_my_rights({tools: [...]}) which other tools your task needs, so that one request covers all of them."))

  -- Executor.denialRemedy
  unfoldable pub denial_remedy : Authorizer → Request → Params → W → List String × String × W
  unfolding assess_denied passing_kits remedy_text
  denial_remedy a req params w =
      let (kits, w') = passing_kits e.gate req params (assess_denied a req (kits_of e)) w in
      (kits, remedy_text kits, w')

  abbrev no_kit_lifts : List Kit → String
  no_kit_lifts [] = ""
  no_kit_lifts (k ∷ ks) = " No kit lifts this policy."

  -- Executor.gateRemedy
  unfoldable pub gate_remedy : List (Evaluator W) → Request → Params → W → List String × String × W
  unfolding lifting_kits remedy_text
  gate_remedy evs req params w =
      let (kits, w') = lifting_kits evs req params (kits_of e) w in
      (kits, elim kits [ [] ↦ no_kit_lifts (kits_of e) | k ∷ ks ↦ remedy_text (k ∷ ks) ], w')
