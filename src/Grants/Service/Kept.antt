-- ===== src/Grants/Service/Kept.antt =====
-- internal/grants/service.go: an approved kit is held until its grant ends.
use tool_mesh.Prelude.{some, ◌≡◌}
use tool_mesh.Prelude.Dict.{lookup, IsMap}
use tool_mesh.Authz.Kit.{Kit}
use tool_mesh.Grants.{Grant}
use tool_mesh.Grants.Store.{Store}

-- The map of active grants is a map and holds `g`.
abbrev Keeps : Grant → Store → Type 0
Keeps g s = IsMap s.active_by_id × (lookup g.id s.active_by_id ≡ some g)
