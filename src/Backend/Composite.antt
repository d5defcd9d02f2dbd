-- ===== src/Backend/Composite.antt =====
-- internal/backend/composite.go: the routing of calls. A backend is what it answers during one call;
-- the optional interfaces of Go are options.
pub mod Longest
pub mod Routed
use Prim.Native.String.{◌++◌ as append, len}
use text.Mathlib.Text.{starts_with}
use tool_mesh.Prelude.{
  ℕ, String, Bool, true, false, not, ◌&&◌, ◌||◌, Option, none, some, List, [], ◌∷◌, ◌++◌, Result,
  ok, err, ◌==◌, if◌then◌else◌, ltb, map, any,
}
use tool_mesh.Prelude.Text.{trim_prefix, contains_text}
use tool_mesh.Prelude.Dict.{lookup, insert}
use tool_mesh.Base.{ToolDescriptor, ToolResult, Params}

pub record Promotion : Type 0 where
  pub descriptor : ToolDescriptor
  pub canonical : String

-- ToolBackend, with ToolMetadataLookup, BackendSummarizer (the names alone) and ToolPromoter.
pub record ToolBackend : Type 0 where
  pub execute : String → Params → Result String ToolResult
  pub list_tools : Result String (List ToolDescriptor)
  pub is_healthy : Bool
  pub lookup_tool : Option (String → Option ToolDescriptor)
  pub backend_summaries : Option (List String)
  pub promoted_tools : Option (List Promotion)

-- compositeState
pub record Composite : Type 0 where
  pub backends : List (String × ToolBackend)
  pub passthroughs : List ToolBackend

-- prefixMatch: `backend` is there where isNamed is true.
pub record PrefixMatch : Type 0 where
  pub name : String
  pub backend : Option ToolBackend
  pub length : ℕ

abbrev pub prefix_of : String → String
prefix_of name = append name "_"

abbrev pub is_longer : ℕ → Option PrefixMatch → Bool
is_longer n none = true
is_longer n (some m) = ltb m.length n

-- The body of both loops of longestPrefix.
unfoldable pub try_prefix :
    String → String → Option ToolBackend → Option PrefixMatch → Option PrefixMatch
try_prefix tool name backend best =
    if starts_with tool (prefix_of name) && is_longer (len (prefix_of name)) best
    then some (record { name = name; backend = backend; length = len (prefix_of name) })
    else best

unfoldable pub try_named :
    String → List (String × ToolBackend) → Option PrefixMatch → Option PrefixMatch
unfolding try_prefix
try_named tool [] best = best
try_named tool ((name, b) ∷ bs) best = try_named tool bs (try_prefix tool name (some b) best)

unfoldable pub try_summaries : String → List String → Option PrefixMatch → Option PrefixMatch
unfolding try_prefix
try_summaries tool [] best = best
try_summaries tool (name ∷ names) best =
    try_summaries tool names (if name == "" then best else try_prefix tool name none best)

abbrev pub names_of : Option (List String) → List String
names_of none = []
names_of (some names) = names

unfoldable pub summaries : List ToolBackend → List String
summaries [] = []
summaries (b ∷ bs) = names_of b.backend_summaries ++ summaries bs

-- CompositeBackend.longestPrefix
unfoldable pub longest_prefix : String → Composite → Option PrefixMatch
unfolding try_named try_summaries summaries
longest_prefix tool c =
    try_summaries tool (summaries c.passthroughs) (try_named tool c.backends none)

abbrev no_backend : (String → String) → String → String
no_backend quote tool = append "no backend found for tool " (quote tool)

-- What a passthrough answered, before those that are not asked yet.
abbrev after_passthrough :
    Result String ToolResult → Result String ToolResult → Result String ToolResult
after_passthrough (ok r) rest = ok r
after_passthrough (err e) rest = if contains_text e "no backend found" then rest else err e

-- The loop over the passthroughs in Execute; `quote` is strconv.Quote.
unfoldable pub execute_passthroughs :
    (String → String) → List ToolBackend → String → Params → Result String ToolResult
unfolding contains_text
execute_passthroughs quote [] tool params = err (no_backend quote tool)
execute_passthroughs quote (b ∷ bs) tool params =
    after_passthrough (b.execute tool params) (execute_passthroughs quote bs tool params)

-- The named backend that owns the call, with its name there.
abbrev pub named_target : Option PrefixMatch → Option (String × ToolBackend)
named_target none = none
named_target (some m) = elim m.backend [ none ↦ none | some b ↦ some (m.name, b) ]

abbrev pub execute_at :
    (String → String)
    → Option (String × ToolBackend)
    → List ToolBackend
    → String
    → Params
    → Result String ToolResult
execute_at quote none others tool params = execute_passthroughs quote others tool params
execute_at quote (some (name, b)) others tool params =
    b.execute (trim_prefix tool (prefix_of name)) params

-- CompositeBackend.Execute
unfoldable pub execute : (String → String) → Composite → String → Params → Result String ToolResult
unfolding longest_prefix execute_passthroughs
execute quote c tool params =
    execute_at quote (named_target (longest_prefix tool c)) c.passthroughs tool params

abbrev pub asked : Option (String → Option ToolDescriptor) → String → Option ToolDescriptor
asked none tool = none
asked (some f) tool = f tool

-- The public name is given back.
abbrev pub renamed : String → Option ToolDescriptor → Option ToolDescriptor
renamed tool none = none
renamed tool (some d) = some (record d { name = tool })

abbrev or_else : Option ToolDescriptor → Option ToolDescriptor → Option ToolDescriptor
or_else none rest = rest
or_else (some d) rest = some d

unfoldable pub lookup_passthroughs : List ToolBackend → String → Option ToolDescriptor
lookup_passthroughs [] tool = none
lookup_passthroughs (b ∷ bs) tool = or_else (asked b.lookup_tool tool) (lookup_passthroughs bs tool)

abbrev pub lookup_at :
    Option (String × ToolBackend) → List ToolBackend → String → Option ToolDescriptor
lookup_at none others tool = lookup_passthroughs others tool
lookup_at (some (name, b)) others tool =
    renamed tool (asked b.lookup_tool (trim_prefix tool (prefix_of name)))

-- CompositeBackend.LookupTool
unfoldable pub lookup_tool : Composite → String → Option ToolDescriptor
unfolding longest_prefix lookup_passthroughs
lookup_tool c tool = lookup_at (named_target (longest_prefix tool c)) c.passthroughs tool

abbrev pub name_of : Option PrefixMatch → Option String
name_of none = none
name_of (some m) = if m.name == "" then none else some m.name

-- CompositeBackend.ResolveBackendName
unfoldable pub resolve_backend_name : Composite → String → Option String
unfolding longest_prefix
resolve_backend_name c tool = name_of (longest_prefix tool c)

-- CompositeBackend.AddNamed and AddPassthrough; the state is replaced as a whole.
unfoldable pub add_named : String → ToolBackend → Composite → Composite
unfolding insert
add_named name b c = record c { backends = insert name b c.backends }

abbrev pub add_passthrough : ToolBackend → Composite → Composite
add_passthrough b c = record c { passthroughs = c.passthroughs ++ b ∷ [] }

-- The descriptor of a tool of a named backend, under its public name.
abbrev public_name : String → ToolDescriptor → ToolDescriptor
public_name name t = record t { name = append (prefix_of name) t.name }

abbrev listed : Result String (List ToolDescriptor) → List ToolDescriptor
listed (ok ts) = ts
listed (err e) = []

unfoldable list_named : List (String × ToolBackend) → List ToolDescriptor
list_named [] = []
list_named ((name, b) ∷ bs) = map (public_name name) (listed b.list_tools) ++ list_named bs

unfoldable list_passthroughs : List ToolBackend → List ToolDescriptor
list_passthroughs [] = []
list_passthroughs (b ∷ bs) = listed b.list_tools ++ list_passthroughs bs

-- CompositeBackend.ListTools: a backend that fails is left out.
unfoldable pub list_tools : Composite → List ToolDescriptor
unfolding list_named list_passthroughs
list_tools c = list_named c.backends ++ list_passthroughs c.passthroughs

-- CompositeBackend.Healthy
abbrev pub is_healthy : Composite → Bool
is_healthy c = any (λ (n, b). b.is_healthy) c.backends || any (λ b. b.is_healthy) c.passthroughs
