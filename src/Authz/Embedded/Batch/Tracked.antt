-- ===== src/Authz/Embedded/Batch/Tracked.antt =====
-- internal/authz/embedded.go: after an apply the engine knows every tool that the rules name.
use tool_mesh.Prelude.{String, Bool, true, ◌&&◌}
use tool_mesh.Authz.Kit.{Kit}
use tool_mesh.Authz.Kit
use tool_mesh.Authz.Request.{Request}
use tool_mesh.Authz.Tuples.{same_object, TupleKey, named}
use tool_mesh.Authz.Embedded.{Embedded}
use tool_mesh.Authz.Rules.{Rules}

-- A stored tuple is about the tool.
abbrev about : String → TupleKey → Bool
about tool t = same_object t.object (named "tool" tool) && true
