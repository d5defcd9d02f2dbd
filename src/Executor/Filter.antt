-- ===== src/Executor/Filter.antt =====
-- internal/executor/executor.go and rights.go: FilterAuthorizedTools, the tools that a caller sees.
use mathlib.Core.List.{Memᴰ}
use tool_mesh.Prelude.{
  String, Bool, Option, none, some, List, [], ◌∷◌, ◌==◌, ◌≡◌, refl, if◌then◌else◌, map, filter, ap,
  sym, Option-cases, inl, inr, ◌⊎◌, eq_iff, is_some, ◌∙◌, arith,
}
use tool_mesh.Base.{UserContext, ToolDescriptor}
use tool_mesh.Authz.Request.{Request, Authorizer, Answer, allowed, denied, failed}
use tool_mesh.Executor.{Executor, Held, held_kits, authz_request, lookup_tool_access}
use tool_mesh.Executor.Remedy.{check_all, is_allowed}
use tool_mesh.Executor.Pipeline.{Moment, new_call}
use tool_mesh.Executor.Pipeline.Reach.{authorized, answered}
use tool_mesh.Executor.Child.{request_of}
use tool_mesh.Base.{Params}
use tool_mesh.Authz.Kit.{Kit}
use tool_mesh.Executor.Pipeline.{Call}
use tool_mesh.Executor.{kits_of}

-- The loop of FilterAuthorizedTools; `none` is the panic on an answer that is too short.
unfoldable pub keep_allowed : List ToolDescriptor → List Bool → Option (List ToolDescriptor)
keep_allowed [] bs = some []
keep_allowed (t ∷ ts) [] = none
keep_allowed (t ∷ ts) (b ∷ bs) =
    let rest = keep_allowed ts bs in
    elim rest [ none ↦ none | some kept ↦ some (if b then t ∷ kept else kept) ]

module _ {W : Type 0} (e : Executor W) where
  abbrev pub tool_request : UserContext → Held → ToolDescriptor → Request
  tool_request uc h t =
      authz_request e uc t.name (if t.access == "" then lookup_tool_access e t.name else t.access) h

  -- Executor.authzRequests
  unfoldable pub authz_requests : UserContext → List ToolDescriptor → List Request
  unfolding authz_request held_kits lookup_tool_access
  authz_requests uc tools = map (tool_request uc (held_kits e uc)) tools

  unfoldable pub filter_by :
      Option Authorizer → Option UserContext → List ToolDescriptor → Option (List ToolDescriptor)
  unfolding keep_allowed check_all authz_requests
  filter_by none uc tools = some tools
  filter_by (some a) none tools = some []
  filter_by (some a) (some uc) tools = keep_allowed tools (check_all a (authz_requests uc tools))

  -- Executor.FilterAuthorizedTools
  unfoldable pub filter_authorized_tools :
      Option UserContext → List ToolDescriptor → Option (List ToolDescriptor)
  unfolding filter_by
  filter_authorized_tools = filter_by e.authorizer

-- What BatchChecker documents: the answers are those of Check, one for each request.
abbrev pub Agrees : Authorizer → Type 0
Agrees a =
    (batch : List Request → List Bool)
    → a.check_batch ≡ some batch
    → (reqs : List Request) → batch reqs ≡ map (λ r. is_allowed (a.check r)) reqs

check_all-map :
    (a : Authorizer)
    → Agrees a
    → (reqs : List Request) → check_all a reqs ≡ map (λ r. is_allowed (a.check r)) reqs
unfolding check_all
check_all-map a h reqs = elim (Option-cases a.check_batch) [
  | inl no_batch ↦ rw no_batch refl
  | inr (batch, b) ↦ rw b (h batch b reqs)
]

keep_allowed-filter :
    (q : Request → Bool) (r : ToolDescriptor → Request) (ts : List ToolDescriptor)
    → keep_allowed ts (map q (map r ts)) ≡ some (filter (λ t. q (r t)) ts)
unfolding keep_allowed
keep_allowed-filter q r [] = refl
keep_allowed-filter q r (t ∷ ts) = rw (keep_allowed-filter q r ts) refl

filter-ext :
    (f g : ToolDescriptor → Bool) (ts : List ToolDescriptor)
    → ((t : ToolDescriptor) → Memᴰ t ts → f t ≡ g t)
    → filter f ts ≡ filter g ts
filter-ext f g [] h = refl
filter-ext f g (t ∷ ts) h =
    ground (arith, h t (Memᴰ.head refl), filter-ext f g ts (λ u m. h u (Memᴰ.tail m)))

answered-is_allowed :
    (answer : Answer) (kits : List Kit) (c : Call)
    → is_some (answered answer kits c) ≡ is_allowed answer
unfolding answered
answered-is_allowed allowed kits c = refl
answered-is_allowed denied kits c = refl
answered-is_allowed (failed x) kits c = refl

authorized-is_allowed :
    (authorizer : Option Authorizer) (a : Authorizer) (kits : List Kit) (c : Call)
    → authorizer ≡ some a
    → is_some (authorized authorizer kits c) ≡ is_allowed (a.check c.authz_req)
unfolding authorized
authorized-is_allowed authorizer a kits c h =
    rw h (answered-is_allowed (a.check c.authz_req) kits c)

classified :
    (declared found : String)
    → (declared ≡ "") ⊎ (declared ≡ found)
    → (if declared == "" then found else declared) ≡ found
classified declared found h = ground (arith, eq_iff declared "")

module _ {W : Type 0} (e : Executor W) (moment : Moment) (uc : UserContext) (params : Params) where
  -- Step 1 of ExecuteTool lets a call of the tool pass.
  abbrev pub callable : ToolDescriptor → Bool
  callable t =
      is_some
        (authorized e.authorizer (kits_of e) (new_call e moment uc (request_of t.name params)))

  check-callable :
      (a : Authorizer) (t : ToolDescriptor)
      → e.authorizer ≡ some a
      → (t.access ≡ "") ⊎ (t.access ≡ lookup_tool_access e t.name)
      → is_allowed (a.check (tool_request e uc (held_kits e uc) t)) ≡ callable t
  unfolding authorized new_call
  check-callable a t h access =
      ap (λ found. is_allowed (a.check (authz_request e uc t.name found (held_kits e uc))))
        (classified t.access (lookup_tool_access e t.name) access)
      ∙ sym (authorized-is_allowed e.authorizer a (kits_of e) _ h)

  -- Where the backend lists a tool with the access that it looks up, or with none, and CheckBatch
  -- answers what Check does, the tools that a caller is shown are those, in their order, whose call
  -- step 1 of ExecuteTool lets pass.
  pub filter_authorized_tools-callable :
      (a : Authorizer) (tools : List ToolDescriptor)
      → e.authorizer ≡ some a
      → Agrees a
      → ((t : ToolDescriptor)
          → Memᴰ t tools
          → (t.access ≡ "") ⊎ (t.access ≡ lookup_tool_access e t.name))
      → filter_authorized_tools e (some uc) tools ≡ some (filter callable tools)
  unfolding filter_authorized_tools filter_by authz_requests
  filter_authorized_tools-callable a tools h agrees access =
      let holding = held_kits e uc in
      let asked = check_all-map a agrees (authz_requests e uc tools) in
      ap (λ x. filter_by e x (some uc) tools) h
      ∙ (ap (keep_allowed tools) asked
          ∙ keep_allowed-filter (λ r. is_allowed (a.check r)) (tool_request e uc holding) tools
          ∙ ap some (filter-ext _ callable tools (λ t m. check-callable a t h (access t m))))
