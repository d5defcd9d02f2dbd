-- ===== src/Gate.antt =====
-- internal/gate: the policies that check a call before it runs and filter its result.
pub mod Limiter
pub mod Policies
pub mod ToolRefs
pub mod Pipeline
use tool_mesh.Prelude.{String, Bool, Option, List}
use tool_mesh.Base.{UserContext, Params, ToolResult, Phase, PolicyModification}

-- gate.GateContext. `params` and `response` are shared with the caller: what a policy writes to
-- them comes back in the context that an evaluation returns.
pub record GateContext : Type 0 where
  pub user : UserContext
  pub tool : String
  pub tool_access : String
  pub params : Params
  pub phase : Phase
  pub response : Option ToolResult
  pub kits : List String
  pub kit_covered : Bool
  pub preflight : Bool

-- gate.EvalResult
pub record EvalResult : Type 0 where
  pub allowed : Bool
  pub modified : Option ToolResult
  pub reason : String
  pub policy : String
  pub modifications : List PolicyModification
  pub skipped : List String
