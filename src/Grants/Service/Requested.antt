-- ===== src/Grants/Service/Requested.antt =====
-- internal/grants/service.go: what a request is, and that it grants nothing.
use tool_mesh.Prelude.{
  ℕ, ◌+◌, ◌≤◌, ◌<◌, String, Bool, true, false, Option, some, List, Result, ok, err, ◌==◌, ◌≡◌, refl,
  arith, sym, ap, ◌∙◌, Option-cases, inl, inr, ◌⊎◌, ◌↔◌, subst,
}
use tool_mesh.Prelude.Int.{ℤ, pos, ◌≤ℤ◌, ◌<ℤ◌}
use tool_mesh.Prelude.Text.{trim_space}
use tool_mesh.Prelude.Dict.{lookup, lookup-insert_self}
use tool_mesh.Base.{UserContext, grant_binding}
use tool_mesh.Authz.Kit.{Kit}
use tool_mesh.Grants.{pending, active, Grant, Subject, subject}
use tool_mesh.Grants.Store.{
  Store, Added, added, over_limit, already, add_pending, add_found, Found, existing, counted, scan,
  for_subject, pruned,
}
use tool_mesh.Grants.Store.Expiry.{Holds, Holds-keep}
use tool_mesh.Grants.Service.{kit_named, kit_max_ttl, Approver}
use tool_mesh.Grants.Service.Approved.{kit_ttl-bounds}
use tool_mesh.Grants.Service.Holding.{Current}
use tool_mesh.Grants.Service.Text.{Unicode, clean_reason}
use tool_mesh.Grants.Service.Request.{
  RequestInput, RequestResult, RequestError, Checked, request_ttl, parse_ttl, check_texts,
  check_request, requested, max_pending, request_answer, store_request, request, checked,
}

Result-cases {ℓ κ} :
    {E : Type κ} {A : Type ℓ} (r : Result E A) → ((a : A) × (r ≡ ok a)) ⊎ ((e : E) × (r ≡ err e))
Result-cases (ok a) = inl (a, refl)
Result-cases (err e) = inr (e, refl)

module _ (kits : List Kit) (approvers : List Approver) (u : Unicode)
    (parse_duration : String → Option ℤ) where
  -- What the checks of a request establish.
  record Passed (uc : UserContext) (input : RequestInput) (c : Checked) : Type 0 where
    authenticated : uc.authenticated ≡ true
    named : (uc.user_id == "") ≡ false
    defined : kit_named kits (trim_space input.kit) ≡ some c.kit
    reason : clean_reason u input.reason ≡ ok c.reason
    positive : pos 0 <ℤ c.ttl
    within : c.ttl ≤ℤ kit_max_ttl c.kit

  check_texts-Passed :
      (input : RequestInput) (k : Kit) (c : Checked)
      → check_texts kits approvers u parse_duration input (some k) ≡ ok c
      → (c.kit ≡ k)
        × (clean_reason u input.reason ≡ ok c.reason)
        × (pos 0 <ℤ c.ttl)
        × (c.ttl ≤ℤ kit_max_ttl k)
  unfolding check_texts checked
  check_texts-Passed input k c h = elim (Result-cases (clean_reason u input.reason)) [
    | inr (e, bad) ↦ ground (arith, h, bad)
    | inl (r, good) ↦ elim (Result-cases (parse_ttl parse_duration input.ttl)) [
      | inr (e, bad) ↦ ground (arith, h, good, bad)
      | inl (asked, fine) ↦ ground (arith, h, good, fine, kit_ttl-bounds k asked)
    ]
  ]

  check_request-Passed :
      (uc : UserContext) (input : RequestInput) (c : Checked)
      → check_request kits approvers u parse_duration uc input ≡ ok c
      → Passed uc input c
  unfolding check_request check_texts
  check_request-Passed uc input c h = elim (Option-cases (kit_named kits (trim_space input.kit))) [
    | inl missing ↦ ground (arith, h, missing)
    | inr (k, found) ↦
        let texts : check_texts kits approvers u parse_duration input (some k) ≡ ok c =
          ground (arith, h, found) in
        let (same, reason, positive, within) = check_texts-Passed input k c texts in
        record {
          authenticated = ground (arith, h);
          named = ground (arith, h);
          defined = found ∙ ap some (sym same);
          reason = reason;
          positive = positive;
          within = subst (λ (x : Kit). c.ttl ≤ℤ kit_max_ttl x) (sym same) within;
        }
  ]

  -- A new request: whom and what it is for, how long, and that it waits in the store.
  pub record Asked (clock : ℕ → ℕ) (uc : UserContext) (input : RequestInput) (id : String)
      (g : Grant) (after : Store) : Type 0 where
    pub authenticated : uc.authenticated ≡ true
    pub k : Kit
    pub defined : kit_named kits (trim_space input.kit) ≡ some k
    pub kit : g.kit ≡ k.name
    pub user_id : (subject g).user_id ≡ uc.user_id
    pub binding : (subject g).binding ≡ grant_binding uc
    pub reason : clean_reason u input.reason ≡ ok g.reason
    pub positive : pos 0 <ℤ g.ttl
    pub within : g.ttl ≤ℤ kit_max_ttl k
    pub lapses : g.expires_at ≡ clock 2 + request_ttl
    pub waits : lookup id after.pending_by_id ≡ some g

  add_found-added :
      (found : Found) (g : Grant) (limit : ℕ) (t : List (String × Grant))
      → (add_found found g limit t).0 ≡ added
      → lookup g.id (add_found found g limit t).1 ≡ some g
  add_found-added (existing p) g limit t h = cc h
  add_found-added (counted n) g limit t h = ground (arith, h, lookup-insert_self g.id g t)

  answer-new :
      (g : Grant) (capped : Bool) (held : ℕ) (answer : Added) (res : RequestResult)
      → request_answer kits approvers u parse_duration g capped held answer ≡ ok res
      → res.is_existing ≡ false
      → (answer ≡ added) × (res.grant ≡ g)
  answer-new g capped held over_limit res h n = cc h
  answer-new g capped held (already p) res h n = ground (arith, h, n)
  answer-new g capped held added res h n = ground (arith, h)

  requested-Asked :
      (clock : ℕ → ℕ) (uc : UserContext) (input : RequestInput) (id nonce : String) (c : Checked)
      (after : Store)
      → Passed uc input c
      → let g = requested kits approvers u parse_duration uc input c id nonce (clock 2) in
        lookup id after.pending_by_id ≡ some g → Asked clock uc input id g after
  unfolding requested grant_binding
  requested-Asked clock uc input id nonce c after v waits = record {
    authenticated = v.authenticated;
    k = c.kit;
    defined = v.defined;
    kit = refl;
    user_id = refl;
    binding = refl;
    reason = v.reason;
    positive = v.positive;
    within = v.within;
    lapses = refl;
    waits = waits;
  }

  store_request-Asked :
      (clock : ℕ → ℕ) (uc : UserContext) (input : RequestInput) (id nonce : String) (s : Store)
      (checks : Result RequestError Checked) (res : RequestResult)
      → check_request kits approvers u parse_duration uc input ≡ checks
      → (store_request kits approvers u parse_duration clock uc input id nonce s checks).0 ≡ ok res
      → res.is_existing ≡ false
      → Asked clock uc input id res.grant
          (store_request kits approvers u parse_duration clock uc input id nonce s checks).1
  unfolding store_request add_pending requested
  store_request-Asked clock uc input id nonce s (err e) res v h n = cc h
  store_request-Asked clock uc input id nonce s (ok c) res v h n =
      let who : Subject = record { user_id = uc.user_id; binding = grant_binding uc } in
      let s1 = (for_subject (clock 1) active who s).1 in
      let g = requested kits approvers u parse_duration uc input c id nonce (clock 2) in
      let t = pruned (clock 3) pending s1 in
      let found = scan (subject g) g.kit 0 t in
      let after =
        (store_request kits approvers u parse_duration clock uc input id nonce s (ok c)).1 in
      let (is_added, same) = answer-new g c.capped _ (add_found found g max_pending t).0 res h n in
      subst (λ x. Asked clock uc input id x after) (sym same)
        (requested-Asked clock uc input id nonce c after (check_request-Passed uc input c v)
          (add_found-added found g max_pending t is_added))

  -- A request that is accepted as a new one comes from an authenticated caller and is for a kit that
  -- is defined and for this caller; its reason is the cleaned one, its duration is positive and
  -- within the kit's maximum; and it waits in the store under its id, for 30 minutes.
  pub request-Asked :
      (clock : ℕ → ℕ) (uc : UserContext) (input : RequestInput) (id nonce : String) (s : Store)
      (res : RequestResult)
      → (request kits approvers u parse_duration clock (some uc) input id nonce s).0 ≡ ok res
      → res.is_existing ≡ false
      → Asked clock uc input id res.grant
          (request kits approvers u parse_duration clock (some uc) input id nonce s).1
  unfolding request
  request-Asked clock uc input id nonce s res h n =
      store_request-Asked clock uc input id nonce s
        (check_request kits approvers u parse_duration uc input) res refl h n

  abbrev SameActive : (ℕ → ℕ) → Store → Store → Type 0
  SameActive clock s after =
      (after.active_by_id ≡ s.active_by_id) ⊎ (after.active_by_id ≡ pruned (clock 1) active s)

  store_request-SameActive :
      (clock : ℕ → ℕ) (uc : UserContext) (input : RequestInput) (id nonce : String) (s : Store)
      (checks : Result RequestError Checked)
      → SameActive clock s
          (store_request kits approvers u parse_duration clock uc input id nonce s checks).1
  unfolding store_request add_pending for_subject
  store_request-SameActive clock uc input id nonce s (err e) = inl refl
  store_request-SameActive clock uc input id nonce s (ok c) = inr refl

  Holds-SameActive :
      (clock : ℕ → ℕ) (now : ℕ) (s after : Store) (g : Grant)
      → clock 1 ≤ now
      → now < g.expires_at
      → SameActive clock s after
      → Holds g after.active_by_id ↔ Holds g s.active_by_id
  unfolding pruned
  Holds-SameActive clock now s after g past in_time (inl same) = rw same (λ h. h, λ h. h)
  Holds-SameActive clock now s after g past in_time (inr same) =
      let kept = Holds-keep (clock 1) g s.active_by_id in
      rw same (λ h. (kept.0 h).0, λ h. kept.1 (h, omega arith))

  -- A request grants nothing and takes nothing: whatever its outcome, the grants that count for any
  -- caller, from its reading of the active grants on, are the same as before it.
  pub request-Current :
      (clock : ℕ → ℕ) (uc : UserContext) (input : RequestInput) (id nonce : String) (s : Store)
      (now : ℕ) (who : Subject) (g : Grant)
      → clock 1 ≤ now
      → Current kits now who
          (request kits approvers u parse_duration clock (some uc) input id nonce s).1
          g
        ↔ Current kits now who s g
  unfolding request
  request-Current clock uc input id nonce s now who g past =
      let after = (request kits approvers u parse_duration clock (some uc) input id nonce s).1 in
      let same =
        store_request-SameActive clock uc input id nonce s
          (check_request kits approvers u parse_duration uc input) in
      (
        λ c. record {
          stored = (Holds-SameActive clock now s after g past c.in_time same).0 c.stored;
          in_time = c.in_time;
          same_caller = c.same_caller;
          defined = c.defined;
        },
        λ c. record {
          stored = (Holds-SameActive clock now s after g past c.in_time same).1 c.stored;
          in_time = c.in_time;
          same_caller = c.same_caller;
          defined = c.defined;
        },
      )
