-- ===== src/Grants/Service/Request.antt =====
-- internal/grants/service.go: a caller's request for a kit. The id and the nonce are what the random
-- generator gives; time.ParseDuration is a parameter.
use tool_mesh.Prelude.{
  ℕ, ◌+◌, String, Bool, true, false, not, ◌&&◌, ◌||◌, Option, none, some, List, [], ◌∷◌, Result, ok,
  err, ◌==◌, if◌then◌else◌, ltb, ◌>>=◌,
}
use tool_mesh.Prelude.Int.{ℤ, pos, leb_ℤ}
use tool_mesh.Prelude.Text.{trim_space}
use tool_mesh.Base.{UserContext, grant_binding}
use tool_mesh.Authz.Kit.{Kit}
use tool_mesh.Grants.{pending, active, Grant, EntryCoverage, Subject}
use tool_mesh.Grants.Store.{Store, Added, added, over_limit, already, add_pending, for_subject}
use tool_mesh.Grants.Service.{kit_named, kit_ttl, Approver}
use tool_mesh.Grants.Service.Text.{Unicode, clean_text, truncate_runes, clean_reason, ReasonError}

-- RequestTTL, 30 minutes; MaxPending; MaxCallerNameLen.
abbrev pub request_ttl : ℕ
request_ttl = 1800000000000

abbrev pub max_pending : ℕ
max_pending = 5

abbrev pub max_caller_name_len : ℕ
max_caller_name_len = 128

pub record RequestInput : Type 0 where
  pub kit : String
  pub reason : String
  pub ttl : String
  pub coverage : List EntryCoverage

-- RequestResult, for a request that is not refused; `held_until` is zero when the caller holds none.
pub record RequestResult : Type 0 where
  pub grant : Grant
  pub is_existing : Bool
  pub capped : Bool
  pub held_until : ℕ

pub data RequestError : Type 0 where
  not_authenticated no_kit_named no_such_kit no_approver bad_ttl too_many : RequestError
  bad_reason : ReasonError → RequestError

-- ParseTTL behind the parse: `none` is a text that is no duration.
abbrev positive_ttl : Option ℤ → Result RequestError ℤ
positive_ttl none = err bad_ttl
positive_ttl (some d) = if leb_ℤ d (pos 0) then err bad_ttl else ok d

-- ParseTTL
unfoldable pub parse_ttl : (String → Option ℤ) → String → Result RequestError ℤ
unfolding trim_space
parse_ttl parse_duration s =
    if trim_space s == "" then ok (pos 0) else positive_ttl (parse_duration (trim_space s))

abbrev as_reason : Result ReasonError String → Result RequestError String
as_reason (ok r) = ok r
as_reason (err e) = err (bad_reason e)

abbrev has_approvers : List Approver → Bool
has_approvers [] = false
has_approvers (a ∷ more) = true

-- The kit, the reason, the duration and whether it was capped.
pub record Checked : Type 0 where
  pub kit : Kit
  pub reason : String
  pub ttl : ℤ
  pub capped : Bool

unfoldable pub checked : Kit → String → ℤ → Checked
unfolding kit_ttl
checked k reason asked =
    let (ttl, capped) = kit_ttl k asked in
    record { kit = k; reason = reason; ttl = ttl; capped = capped }

-- HeldUntil: the latest end of the caller's grants of the kit.
unfoldable pub latest_held : String → List Grant → ℕ → ℕ
latest_held kit [] latest = latest
latest_held kit (g ∷ gs) latest =
    latest_held kit gs (if g.kit == kit && ltb latest g.expires_at then g.expires_at else latest)

module _ (kits : List Kit) (approvers : List Approver) (u : Unicode)
    (parse_duration : String → Option ℤ) where
  unfoldable pub check_texts : RequestInput → Option Kit → Result RequestError Checked
  unfolding parse_ttl clean_reason checked
  check_texts input none = err no_such_kit
  check_texts input (some k) = if not (has_approvers approvers) then err no_approver else do
    reason ← as_reason (clean_reason u input.reason)
    asked ← parse_ttl parse_duration input.ttl
    ok (checked k reason asked)

  -- The checks of `request` before the store.
  unfoldable pub check_request : UserContext → RequestInput → Result RequestError Checked
  unfolding check_texts kit_named trim_space
  check_request uc input =
      if not uc.authenticated || uc.user_id == ""
      then err not_authenticated
      else if trim_space input.kit == ""
      then err no_kit_named
      else check_texts input (kit_named kits (trim_space input.kit))

  -- The request as it is stored.
  unfoldable pub requested : UserContext → RequestInput → Checked → String → String → ℕ → Grant
  unfolding truncate_runes clean_text
  requested uc input c id nonce now = record {
    id = id;
    state = pending;
    kit = c.kit.name;
    user_id = uc.user_id;
    caller_id = uc.caller_id;
    caller_name = truncate_runes (clean_text u uc.caller_name) max_caller_name_len;
    company_id = uc.company_id;
    grant_key = uc.grant_key;
    reason = c.reason;
    ttl = c.ttl;
    requested_at = now;
    nonce = nonce;
    coverage = input.coverage;
    approved_by = "";
    approved_at = 0;
    approved_with = "";
    part = none;
    expires_at = now + request_ttl;
  }

  abbrev pub request_answer : Grant → Bool → ℕ → Added → Result RequestError RequestResult
  request_answer g capped held over_limit = err too_many
  request_answer g capped held (already p) =
      ok (record { grant = p; is_existing = true; capped = false; held_until = held })
  request_answer g capped held added =
      ok (record { grant = g; is_existing = false; capped = capped; held_until = held })

  unfoldable pub store_request :
      (ℕ → ℕ)
      → UserContext
      → RequestInput
      → String
      → String
      → Store
      → Result RequestError Checked
      → Result RequestError RequestResult × Store
  unfolding for_subject latest_held requested add_pending grant_binding
  store_request clock uc input id nonce s (err e) = (err e, s)
  store_request clock uc input id nonce s (ok c) =
      let who : Subject = record { user_id = uc.user_id; binding = grant_binding uc } in
      let (mine, s1) = for_subject (clock 1) active who s in
      let g = requested uc input c id nonce (clock 2) in
      let (answer, s2) = add_pending (clock 3) g max_pending s1 in
      (request_answer g c.capped (latest_held c.kit.name mine 0) answer, s2)

  -- Service.request; `none` is a context without a user.
  unfoldable pub request :
      (ℕ → ℕ)
      → Option UserContext
      → RequestInput
      → String
      → String
      → Store
      → Result RequestError RequestResult × Store
  unfolding store_request check_request
  request clock none input id nonce s = (err not_authenticated, s)
  request clock (some uc) input id nonce s =
      store_request clock uc input id nonce s (check_request uc input)
