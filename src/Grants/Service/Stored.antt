-- ===== src/Grants/Service/Stored.antt =====
-- internal/grants/service.go: how an approval leaves the store.
use tool_mesh.Prelude.{
  String, Option, none, some, List, Result, ok, err, ◌≡◌, refl, inl, inr, Bool-cases,
}
use tool_mesh.Prelude.Int.{ℤ}
use tool_mesh.Authz.Kit.{Kit}
use tool_mesh.Grants.{pending, active, Part, Grant}
use tool_mesh.Grants.Store.{Store, get, take}
use tool_mesh.Grants.Service.{
  Approver, Approval, GrantError, kit_named, check_scope, resolve_approval,
}
use tool_mesh.Grants.Service.Approve.{
  Clock, Reply, granted, store_grant, approve_taken, approve_resolved, approve_kit, approve_found,
  approve, part_as,
}

-- An outcome with no error is that of `store_grant` for an active grant, on a store with the same
-- active grants.
pub record Stored (clock : Clock) (s : Store) (out : Reply × Store) : Type 0 where
  pub g : Grant
  pub s1 : Store
  pub is_active : g.state ≡ active
  pub same : s1.active_by_id ≡ s.active_by_id
  pub stored : out ≡ store_grant clock g s1

abbrev pub Storing : Clock → Store → Reply × Store → Type 0
Storing clock s out = out.0.error ≡ none → Stored clock s out

module _ (kits : List Kit) (approvers : List Approver) (clock : Clock) (approver id : String)
    (a : Approval) (how : String) where
  taken-Storing :
      (ttl : ℤ) (p : Option Part) (s : Store) (taken : Option Grant)
      → Storing clock s (approve_taken clock approver how ttl p s taken)
  unfolding approve_taken
  taken-Storing ttl p s none = λ f. cc f
  taken-Storing ttl p s (some req) = λ f. record {
    g = granted req approver how ttl p (clock 3);
    s1 = s;
    is_active = refl;
    same = refl;
    stored = refl;
  }

  resolved-Storing :
      (k : Kit) (req : Grant) (s : Store) (r : Result GrantError (ℤ × Option Part))
      → Storing clock s (approve_resolved clock approver id how k req s r)
  unfolding approve_resolved take
  resolved-Storing k req s (err x) = λ f. cc f
  resolved-Storing k req s (ok (ttl, p)) = λ f.
      let (taken, s1) = take (clock 2) pending id s in
      let v = taken-Storing ttl (part_as how k p) s1 taken f in
      record { g = v.g; s1 = v.s1; is_active = v.is_active; same = v.same; stored = v.stored }

  kit-Storing :
      (req : Grant) (s : Store) (k : Option Kit)
      → Storing clock s (approve_kit kits approvers clock approver id a how req s k)
  unfolding approve_kit
  kit-Storing req s none = λ f. cc f
  kit-Storing req s (some k) = elim (Bool-cases (check_scope approvers approver k.name)) [
    | inl scope ↦ rw scope (resolved-Storing k req s (resolve_approval k req a))
    | inr refused ↦ rw refused (λ f. cc f)
  ]

  found-Storing :
      (s : Store) (found : Option Grant)
      → Storing clock s (approve_found kits approvers clock approver id a how s found)
  unfolding approve_found
  found-Storing s none = λ f. cc f
  found-Storing s (some req) = kit-Storing req s (kit_named kits req.kit)

  pub approve-Stored :
      (s : Store) → Storing clock s (approve kits approvers clock approver id a how s)
  unfolding approve get
  approve-Stored s f =
      let (found, s1) = get (clock 1) pending id s in
      let v = found-Storing s1 found f in
      record { g = v.g; s1 = v.s1; is_active = v.is_active; same = v.same; stored = v.stored }
