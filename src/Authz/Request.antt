-- ===== src/Authz/Request.antt =====
-- internal/authz/authz.go: the question that the executor asks, and who answers it.
use tool_mesh.Prelude.{String, Bool, Option, List}
use tool_mesh.Authz.Kit.{Kit, KitPart}

pub record Request : Type 0 where
  pub user_id : String
  pub company_id : String
  pub plan : String
  pub roles : List String
  pub kits : List String
  pub kit_parts : List KitPart
  pub tool : String
  pub backend : String
  pub access : String

-- What Authorizer.Check answers; `failed` is an error, where no decision was reached.
pub data Answer : Type 0 where
  allowed denied : Answer
  failed : String → Answer

-- An engine, as it answers during one call. `check_batch` is there for a BatchChecker, `kits` for
-- a KitCatalog.
pub record Authorizer : Type 0 where
  pub check : Request → Answer
  pub check_batch : Option (List Request → List Bool)
  pub kits : Option (List Kit)
