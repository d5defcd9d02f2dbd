-- ===== src/Backend.antt =====
-- internal/backend: CompositeBackend, which routes a call to the backend that its name begins with.
pub mod Composite
pub mod Promoted
pub mod Tests
