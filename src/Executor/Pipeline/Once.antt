-- ===== src/Executor/Pipeline/Once.antt =====
-- internal/executor/executor.go: one audit entry for each call, and when the backend is called.
use tool_mesh.Authz.Request
use tool_mesh.Executor.{Executor}
