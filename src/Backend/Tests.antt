-- ===== src/Backend/Tests.antt =====
-- internal/backend/composite.go, on two backends where the name of one begins that of the other.
use tool_mesh.Prelude.{
  String, true, false, none, some, List, [], ◌∷◌, ok, ◌==◌, eq_iff, ◌≡◌, refl, inl, inr, Bool-cases,
  subst,
}
use tool_mesh.Prelude.Dict.{lookup, IsMap}
use tool_mesh.Base.{str}
use tool_mesh.Backend.Composite.{
  ToolBackend, Composite, Promotion, execute, lookup_tool, resolve_backend_name,
}
use tool_mesh.Backend.Composite.Routed.{Routed, SameMap, execute-SameMap}
use tool_mesh.Backend.Promoted.{resolve_alias}

abbrev quoted : String → String
quoted s = s

abbrev answering : String → List Promotion → ToolBackend
answering text promoted = record {
  execute = λ tool params.
      ok (record { content = str text ∷ str tool ∷ []; is_error = false; metadata = none });
  list_tools = ok (record { name = "query"; access = "read" } ∷ []);
  is_healthy = true;
  lookup_tool = some (λ tool. some (record { name = tool; access = "read" }));
  backend_summaries = none;
  promoted_tools = some promoted;
}

abbrev promotes : String → String → Promotion
promotes bare canonical = record {
  descriptor = record { name = bare; access = "read" };
  canonical = canonical;
}

abbrev net : ToolBackend
net = answering "net" (promotes "query" "net_query" ∷ promotes "web_search" "net_web_search" ∷ [])

abbrev net_raw : ToolBackend
net_raw =
    answering "net_raw" (promotes "query" "net_raw_query" ∷ promotes "ping" "net_raw_ping" ∷ [])

abbrev both : Composite
both = record { backends = ("net", net) ∷ ("net_raw", net_raw) ∷ []; passthroughs = [] }

abbrev turned : Composite
turned = record { backends = ("net_raw", net_raw) ∷ ("net", net) ∷ []; passthroughs = [] }

raw_query : resolve_backend_name both "net_raw_query" ≡ some "net_raw"
unfolding resolve_backend_name
raw_query = refl

not_reserved : resolve_alias both "ping" ≡ "net_raw_ping"
unfolding resolve_alias
not_reserved = refl

both-IsMap : IsMap both.backends
unfolding lookup
both-IsMap = (refl, (refl, tt))

turned-IsMap : IsMap turned.backends
unfolding lookup
turned-IsMap = (refl, (refl, tt))

both-SameMap : SameMap both.backends turned.backends
unfolding lookup
both-SameMap name = elim (Bool-cases ("net" == name)) [
  | inl same ↦
      subst (λ n. lookup n both.backends ≡ lookup n turned.backends) ((eq_iff "net" name).0 same)
        refl
  | inr other ↦ rw other refl
]

execute-SameMap_example :
    (execute quoted both "net_raw_query" none ≡ execute quoted turned "net_raw_query" none)
    × (lookup_tool both "net_raw_query" ≡ lookup_tool turned "net_raw_query")
    × (resolve_backend_name both "net_raw_query" ≡ resolve_backend_name turned "net_raw_query")
execute-SameMap_example =
    execute-SameMap quoted both turned "net_raw_query" none both-IsMap turned-IsMap both-SameMap
      refl
