-- ===== src/Backend/Promoted/Names.antt =====
-- internal/backend/composite.go: what is promised of the names of promoted tools.
use tool_mesh.Prelude.{String, Bool, true, false, List, [], ◌∷◌, ◌==◌, any, In, ◌≡◌}
use tool_mesh.Backend.Composite.{Composite, Promotion}
use tool_mesh.Backend.Promoted.{is_reserved, promoted_tools, resolve_alias}

abbrev has_name : String → Promotion → Bool
has_name name p = p.descriptor.name == name

-- No name stands twice.
abbrev pub DistinctNames : List Promotion → Type 0
DistinctNames [] = Unit
DistinctNames (p ∷ ps) = (any (has_name p.descriptor.name) ps ≡ false) × DistinctNames ps

-- What is promised of the tools that are advertised under a name of their own.
pub record Advertised (c : Composite) : Type 0 where
  pub distinct : DistinctNames (promoted_tools c)
  pub routed :
      (p : Promotion) → In p (promoted_tools c) → resolve_alias c p.descriptor.name ≡ p.canonical
  pub unreserved :
      (p : Promotion)
      → In p (promoted_tools c)
      → is_reserved p.descriptor.name ≡ true
      → p.descriptor.name ≡ p.canonical
