-- ===== src/Gate/Policies.antt =====
-- internal/gate/gate.go: the run of the JavaScript policies. What a script does is a parameter:
-- goja is not part of the repository.
pub mod Laws
pub mod Effects
pub mod Kits
mod Tests
use Prim.Native.String.{◌++◌ as append}
use tool_mesh.Prelude.{
  ℕ, String, Bool, true, false, ◌&&◌, not, Option, none, some, List, [], ◌∷◌, ◌++◌, Result, ok, err,
  if◌then◌else◌,
}
use tool_mesh.Prelude.Int.{ℤ}
use tool_mesh.Base.{
  Value, Fields, Params, ToolResult, Phase, pre, post, Target, params, response_content, Snapshot,
  null, fields, items, scalar, PolicyModification, snapshot_eq,
}
use tool_mesh.Gate.{GateContext, EvalResult}
use tool_mesh.Gate.Limiter.{RateLimiter, check, record_request}

pub record Policy : Type 0 where
  pub name : String
  pub source : String
  pub enforce_with_kit : Bool

-- A script throws, or ends with what ctx.params and ctx.response.content then hold.
pub data Js : Type 0 where
  throws : String → Js
  returns : Snapshot → Snapshot → Js

-- What a source does, given rateLimitExceeded and the context. A script that goes on past the
-- timeout throws.
abbrev pub Engine : Type 0
Engine = String → (ℤ → Bool) → GateContext → Js

-- What an evaluation may write to: the map of parameters and the response of the caller.
pub record Shared : Type 0 where
  pub params : Params
  pub response : Option ToolResult

abbrev pub shared_of : GateContext → Shared
shared_of ctx = record { params = ctx.params; response = ctx.response }

abbrev pub with_shared : GateContext → Shared → GateContext
with_shared ctx s = record ctx { params = s.params; response = s.response }

abbrev pub params_snapshot : Params → Snapshot
params_snapshot none = null
params_snapshot (some m) = fields m

-- snapshotResponseContent
abbrev pub content_snapshot : Option ToolResult → Snapshot
content_snapshot none = null
content_snapshot (some r) = items r.content

abbrev pub is_pre : Phase → Bool
is_pre pre = true
is_pre post = false

-- The content goes back to the live response when the script left a list there.
abbrev pub write_content : Option ToolResult → Snapshot → Option ToolResult
write_content (some r) (items vs) = some (record r { content = vs })
write_content response _ = response

-- The parameters go back to the live map, which must not be nil, when the script left a map.
abbrev pub write_params : Params → Snapshot → Params
write_params (some m) (fields n) = some n
write_params live _ = live

abbrev pub difference : String → Phase → Target → Snapshot → Snapshot → List PolicyModification
difference name phase target before after =
    if snapshot_eq before after
    then []
    else record { policy = name; phase = phase; target = target; before = before; after = after }
      ∷ []

-- The part of evalPolicy behind the run of the script.
unfoldable pub finish : Policy → GateContext → Js → Result String (List PolicyModification) × Shared
finish p ctx (throws e) = (err e, shared_of ctx)
finish p ctx (returns ps cs) = (
  ok (
      (if is_pre ctx.phase
        then difference p.name ctx.phase params (params_snapshot ctx.params) ps
        else [])
      ++ difference p.name ctx.phase response_content (content_snapshot ctx.response) cs),
  record {
    params = if is_pre ctx.phase then write_params ctx.params ps else ctx.params;
    response = write_content ctx.response cs;
  },
)

-- A policy yields to a kit that covers the call, before the call only.
unfoldable pub skips : GateContext → Policy → Bool
skips ctx p = ctx.kit_covered && is_pre ctx.phase && not p.enforce_with_kit

abbrev pub reject : Policy → String → EvalResult
reject p e = record {
  allowed = false;
  modified = none;
  reason = append "policy " (append p.name (append ": " e));
  policy = p.name;
  modifications = [];
  skipped = [];
}

-- The limiter once the call is recorded; a preflight is no call.
unfoldable pub recorded : RateLimiter → ℕ → GateContext → RateLimiter
recorded rl now ctx = if ctx.preflight then rl else record_request rl now ctx.user.user_id

module _ (engine : Engine) where
  -- Gate.evalPolicy. rateLimitExceeded reads the limiter; that it prunes the user's window has no
  -- effect on any later answer (Limiter.History).
  unfoldable pub eval_policy :
      RateLimiter → ℕ → Policy → GateContext → Result String (List PolicyModification) × Shared
  unfolding finish
  eval_policy rl now p ctx =
      finish p ctx (engine p.source (λ limit. (check rl now ctx.user.user_id limit).0) ctx)

  -- The loop of Gate.Evaluate.
  unfoldable pub run_policies :
      RateLimiter
      → ℕ
      → List Policy
      → List PolicyModification
      → List String
      → GateContext
      → EvalResult × Shared
  unfolding eval_policy skips
  run_policies rl now [] mods skipped ctx = (
    record {
      allowed = true;
      modified = none;
      reason = "";
      policy = "";
      modifications = mods;
      skipped = skipped;
    },
    shared_of ctx,
  )
  run_policies rl now (p ∷ ps) mods skipped ctx = elim (skips ctx p) [
    | true ↦ run_policies rl now ps mods (skipped ++ p.name ∷ []) ctx
    | false ↦
        let (reply, shared) = eval_policy rl now p ctx in
        elim reply [
          | ok more ↦ run_policies rl now ps (mods ++ more) skipped (with_shared ctx shared)
          | err e ↦ (reject p e, shared)
        ]
  ]

  -- Gate.Evaluate
  unfoldable pub evaluate :
      List Policy → RateLimiter → ℕ → GateContext → EvalResult × RateLimiter × Shared
  unfolding run_policies recorded
  evaluate policies rl now ctx =
      let rl' = recorded rl now ctx in
      let (result, shared) = run_policies rl' now policies [] [] ctx in (result, rl', shared)
