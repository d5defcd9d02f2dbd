-- ===== src/Backend/Promoted.antt =====
-- internal/backend/composite.go and reserved.go: the tools that are advertised under bare names.
pub mod Names
use mathlib.Core.Bool.{false≢true}
use tool_mesh.Prelude.{
  ℕ, suc, String, Bool, true, false, not, ◌&&◌, ◌||◌, Option, none, some, List, [], ◌∷◌, ◌++◌, ◌==◌,
  eq_iff, eq_refl, if◌then◌else◌, ltb, any, contains, In, any-In, ◌≡◌, refl, sym, ap, ◌∙◌, arith,
  Bool-cases, inl, inr, subst, apart,
}
use tool_mesh.Backend.Composite.{ToolBackend, Composite, Promotion}

-- reservedClientToolNames
abbrev reserved_client_tool_names : List String
reserved_client_tool_names = "web_search" ∷ "code_interpreter" ∷ "file_search" ∷ "computer_use" ∷ []

-- IsReservedClientToolName
unfoldable pub is_reserved : String → Bool
unfolding contains
is_reserved name = contains reserved_client_tool_names name

abbrev promotions_of : Option (List Promotion) → List Promotion
promotions_of none = []
promotions_of (some ps) = ps

unfoldable pub collect_named : List (String × ToolBackend) → List Promotion
collect_named [] = []
collect_named ((name, b) ∷ bs) = promotions_of b.promoted_tools ++ collect_named bs

unfoldable pub collect : List ToolBackend → List Promotion
collect [] = []
collect (b ∷ bs) = promotions_of b.promoted_tools ++ collect bs

-- `all` of PromotedTools
unfoldable pub all_promotions : Composite → List Promotion
unfolding collect_named collect
all_promotions c = collect_named c.backends ++ collect c.passthroughs

-- bareCounts[name]
unfoldable pub bare_count : List Promotion → String → ℕ
bare_count [] name = 0
bare_count (p ∷ ps) name =
    let rest = bare_count ps name in if p.descriptor.name == name then suc rest else rest

abbrev pub canonical_form : Promotion → Promotion
canonical_form p = record p { descriptor = record p.descriptor { name = p.canonical } }

-- The switch of PromotedTools; the warning is a log.
unfoldable pub settled : List Promotion → Promotion → Promotion
unfolding bare_count is_reserved
settled all p =
    if ltb 1 (bare_count all p.descriptor.name) || is_reserved p.descriptor.name
    then canonical_form p
    else p

-- The loop that resolves the names; `seen` are those that are taken.
unfoldable pub resolve_names : List Promotion → List String → List Promotion → List Promotion
unfolding settled contains
resolve_names all seen [] = []
resolve_names all seen (p ∷ ps) =
    let q = settled all p in
    if contains seen q.descriptor.name
    then resolve_names all seen ps
    else q ∷ resolve_names all (q.descriptor.name ∷ seen) ps

-- CompositeBackend.PromotedTools
unfoldable pub promoted_tools : Composite → List Promotion
unfolding all_promotions resolve_names
promoted_tools c = resolve_names (all_promotions c) [] (all_promotions c)

unfoldable pub alias_in : List Promotion → String → String
alias_in [] name = name
alias_in (p ∷ ps) name =
    if p.descriptor.name == name && not (p.descriptor.name == p.canonical)
    then p.canonical
    else alias_in ps name

-- CompositeBackend.ResolveAlias
unfoldable pub resolve_alias : Composite → String → String
unfolding promoted_tools alias_in
resolve_alias c name = alias_in (promoted_tools c) name
