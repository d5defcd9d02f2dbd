-- ===== src/Executor.antt =====
-- internal/executor: the pipeline that every tool call runs through. What the executor calls is in
-- the record `Executor`; `W` is the state of the gate's evaluators.
pub mod Redaction
pub mod Applied
pub mod Remedy
pub mod Pipeline
pub mod Child
pub mod Filter
mod Tests
use Prim.Native.String.{◌++◌ as append}
use tool_mesh.Prelude.{
  String, Bool, true, false, not, ◌||◌, Option, none, some, List, [], ◌∷◌, ◌++◌, Result, ok, err,
  ◌==◌, if◌then◌else◌, contains, map,
}
use tool_mesh.Prelude.Text.{cut}
use tool_mesh.Base.{UserContext, grant_binding, Params, ToolResult, ToolDescriptor, AuditEntry}
use tool_mesh.Authz.Kit.{Kit, KitPart, covers, part_covers}
use tool_mesh.Authz.Request.{Request, Authorizer, allowed, denied, failed, Answer}
use tool_mesh.Gate.Pipeline.{Evaluator}

abbrev pub Credentials : Type 0
Credentials = List (String × String)

-- credentials.TenantInfo, as the executor fills it.
pub record Tenant : Type 0 where
  pub company_id : String
  pub user_id : String
  pub caller_id : String
  pub caller_class : String

-- A credential store, asked by backend prefix: the executor asks for the names that start with the
-- prefix in capitals and an underscore, and for that prefix with API_KEY behind it.
pub record CredentialStore : Type 0 where
  -- PrefixLister, if the store implements it.
  pub list_by_prefix : Option (String → Tenant → Result String Credentials)
  pub get : String → Tenant → Result String String
  pub api_key_name : String → String

pub record Backend : Type 0 where
  pub execute : String → Params → Credentials → Result String ToolResult
  -- ToolMetadataLookup and backendResolver, if the backend implements them.
  pub lookup_tool : Option (String → Option ToolDescriptor)
  pub resolve_backend_name : Option (String → Option String)

pub record Executor (W : Type 0) : Type 0 where
  pub authorizer : Option Authorizer
  pub creds : Option CredentialStore
  pub backend : Backend
  pub gate : Option (List (Evaluator W))
  -- HeldKits, by user and binding.
  pub kit_holder : Option (String → String → List String × List KitPart)

-- What a caller holds of kits at the time of a check.
pub record Held : Type 0 where
  pub kits : List String
  pub parts : List KitPart

-- What the executor does to the outside, in order.
pub data Event : Type 0 where
  executed : String → Params → Credentials → Event
  recorded : AuditEntry → Event

pub record World (W : Type 0) : Type 0 where
  pub gate_state : W
  pub events : List Event

abbrev pub emit : {W : Type 0} → World W → Event → World W
emit w e = record w { events = w.events ++ e ∷ [] }

-- splitToolPrefix
unfoldable pub split_tool_prefix : String → String × String
unfolding cut
split_tool_prefix tool =
    let (before, after) = cut b'_' tool in
    elim after [
      | none ↦ ("", tool)
      | some rest ↦ if before == "" then ("", tool) else (before, rest)
    ]

-- kitNames
unfoldable pub kit_names : List String → List KitPart → List String
kit_names kits [] = kits
kit_names kits (p ∷ parts) =
    kit_names (if contains kits p.kit then kits else kits ++ p.kit ∷ []) parts

-- strings.Join with a separator
unfoldable pub join : String → List String → String
join sep [] = ""
join sep (s ∷ []) = s
join sep (s ∷ t ∷ ts) = append s (append sep (join sep (t ∷ ts)))

-- held.names
unfoldable pub held_names : Held → String
unfolding join
held_names h = join "," (h.kits ++ map (λ (p : KitPart). append p.kit " (part)") h.parts)

abbrev pub nothing_held : Held
nothing_held = record { kits = []; parts = [] }

abbrev pub kits_of_authorizer : Option Authorizer → List Kit
kits_of_authorizer none = []
kits_of_authorizer (some a) = elim a.kits [ none ↦ [] | some kits ↦ kits ]

pub find_kit : List Kit → String → Option Kit
find_kit [] name = none
find_kit (k ∷ ks) name = if k.name == name then some k else find_kit ks name

abbrev covers_call : Option Kit → Request → Bool
covers_call none req = false
covers_call (some k) req = covers k req.tool req.backend req.access

abbrev part_covers_call : Option Kit → KitPart → Request → Bool
part_covers_call none p req = false
part_covers_call (some k) p req = part_covers k p req.tool req.backend req.access

applied_part : List Kit → Request → List KitPart → String
applied_part kits req [] = ""
applied_part kits req (p ∷ ps) =
    if part_covers_call (find_kit kits p.kit) p req then p.kit else applied_part kits req ps

applied_whole : List Kit → Request → List String → String
unfolding applied_part
applied_whole kits req [] = applied_part kits req req.kit_parts
applied_whole kits req (name ∷ names) =
    if covers_call (find_kit kits name) req then name else applied_whole kits req names

-- Executor.appliedKit, over the kits of the authorizer.
unfoldable pub applied_kit : List Kit → Request → String
unfolding applied_whole find_kit
applied_kit kits req = applied_whole kits req req.kits

module _ {W : Type 0} (e : Executor W) where
  -- Executor.Kits
  abbrev pub kits_of : List Kit
  kits_of = kits_of_authorizer e.authorizer

  abbrev ask_holder : Option (String → String → List String × List KitPart) → UserContext → Held
  ask_holder none uc = nothing_held
  ask_holder (some holder) uc =
      let (kits, parts) = holder uc.user_id (grant_binding uc) in
      record { kits = kits; parts = parts }

  -- Executor.heldKits
  unfoldable pub held_kits : UserContext → Held
  held_kits uc = elim e.authorizer [
    | none ↦ nothing_held
    | some a ↦ if uc.authenticated then ask_holder e.kit_holder uc else nothing_held
  ]

  abbrev backend_name : String → String
  backend_name tool = elim e.backend.resolve_backend_name [
    | none ↦ ""
    | some resolve ↦ elim (resolve tool) [ none ↦ "" | some name ↦ name ]
  ]

  -- Executor.authzRequest
  unfoldable pub authz_request : UserContext → String → String → Held → Request
  authz_request uc tool access h = record {
    user_id = uc.user_id;
    company_id = uc.company_id;
    plan = uc.plan;
    roles = uc.roles;
    kits = h.kits;
    kit_parts = h.parts;
    tool = tool;
    backend = backend_name tool;
    access = access;
  }

  -- Executor.lookupToolAccess
  unfoldable pub lookup_tool_access : String → String
  lookup_tool_access tool = elim e.backend.lookup_tool [
    | none ↦ ""
    | some find ↦ elim (find tool) [ none ↦ "" | some desc ↦ desc.access ]
  ]

  -- Executor.resolveCredentials, in a store: an empty or failed listing falls back to the one key.
  unfoldable pub resolve_credentials : CredentialStore → String → Tenant → Credentials
  resolve_credentials store prefix tenant =
      let fallback : Credentials = elim (store.get prefix tenant) [
        | err e ↦ []
        | ok cred ↦ (store.api_key_name prefix, cred) ∷ []
      ] in
      elim store.list_by_prefix [
        | none ↦ fallback
        | some list ↦ elim (list prefix tenant) [
          | err e ↦ fallback
          | ok creds ↦ elim creds [ [] ↦ fallback | c ∷ cs ↦ c ∷ cs ]
        ]
      ]

  -- The credentials of step 2 of ExecuteTool.
  unfoldable pub injected_credentials : UserContext → String → Credentials
  unfolding split_tool_prefix resolve_credentials
  injected_credentials uc tool = elim e.creds [
    | none ↦ []
    | some store ↦
        let prefix = (split_tool_prefix tool).0 in
        if prefix == ""
        then []
        else resolve_credentials store prefix (record {
          company_id = uc.company_id;
          user_id = uc.user_id;
          caller_id = uc.caller_id;
          caller_class = uc.caller_class;
        })
  ]
