-- ===== src/Grants/Service/Approved.antt =====
-- internal/grants/service.go: what an approval grants.
use tool_mesh.Prelude.{
  ℕ, ◌+◌, ◌<◌, String, true, ◌&&◌, Option, none, some, List, Result, ok, err, ◌==◌, eq_iff, ◌≡◌,
  refl, arith, ap, ◌⊎◌, inl, inr, Bool-cases, subst,
}
use tool_mesh.Prelude.Dict.{lookup, keep, IsMap, keep-lookup, keep-IsMap}
use tool_mesh.Prelude.Int.{ℤ, pos, pos_part, ◌+ℤ◌, ◌≤ℤ◌, ◌<ℤ◌}
use mathlib.Core.Option.{some_inj}
use tool_mesh.Authz.Kit.{Kit, KitPart, Error, part, is_whole, is_empty}
use tool_mesh.Grants.{pending, Part, Grant, subject}
use tool_mesh.Grants.Store.{Store, get, take, pruned, is_live}
use tool_mesh.Grants.Service.{
  Approver, GrantError, Approval, resolve_approval, check_scope, kit_named, kit_part, kit_max_ttl,
  kit_ttl, part_of,
}
use tool_mesh.Grants.Service.Approve.{
  approved_with_key, Clock, Reply, add_time, part_as, store_grant, approve_taken, approve_resolved,
  approve_kit, approve_found, approve,
}

-- A duration that `kit_ttl` gives is positive and within the kit's maximum.
pub kit_ttl-bounds :
    (k : Kit) (d : ℤ) → (pos 0 <ℤ (kit_ttl k d).0) × ((kit_ttl k d).0 ≤ℤ kit_max_ttl k)
unfolding kit_ttl
kit_ttl-bounds k d = ground arith

-- The entries that an approval resolves to.
abbrev pub Resolved : Kit → Approval → Option Part → Type 0
Resolved k a p =
    ((p ≡ none) × ((is_empty a.grants && is_empty a.tools) ≡ true))
    ⊎ ((q : KitPart) × (part k a.grants a.tools ≡ ok q) × (p ≡ some (part_of q)))

Result-cases :
    (r : Result Error KitPart) → ((q : KitPart) × (r ≡ ok q)) ⊎ ((x : Error) × (r ≡ err x))
Result-cases (ok q) = inl (q, refl)
Result-cases (err x) = inr (x, refl)

resolve_approval-bounds :
    (k : Kit) (req : Grant) (a : Approval) (ttl : ℤ) (p : Option Part)
    → resolve_approval k req a ≡ ok (ttl, p)
    → (pos 0 <ℤ ttl) × (ttl ≤ℤ kit_max_ttl k) × Resolved k a p
unfolding resolve_approval
resolve_approval-bounds k req a ttl p h = elim (Result-cases (part k a.grants a.tools)) [
  | inl (q, e) ↦ ground (arith, kit_ttl-bounds k req.ttl, kit_ttl-bounds k a.ttl, e)
  | inr (x, e) ↦ ground (arith, kit_ttl-bounds k req.ttl, kit_ttl-bounds k a.ttl, e)
]

-- The entries that a grant holds: with a key, all entries of the kit are the whole kit.
abbrev pub Entries : Kit → Approval → String → Option Part → Type 0
Entries k a how p =
    ((p ≡ none) × ((is_empty a.grants && is_empty a.tools) ≡ true))
    ⊎ ((q : KitPart) × (part k a.grants a.tools ≡ ok q)
        × ((p ≡ some (part_of q))
            ⊎ ((p ≡ none)
                × (how ≡ approved_with_key)
                × (is_whole k (kit_part (part_of q) k.name) ≡ true))))

part_as-Entries :
    (how : String) (k : Kit) (a : Approval) (p : Option Part)
    → Resolved k a p
    → Entries k a how (part_as how k p)
unfolding part_as
part_as-Entries how k a none h = ground arith
part_as-Entries how k a (some p) (inl (e, named)) = cc e
part_as-Entries how k a (some p) (inr (q, e, same)) =
    elim (Bool-cases (how == approved_with_key && is_whole k (kit_part p k.name))) [
      | inl whole ↦ ground (arith, eq_iff how approved_with_key)
      | inr partly ↦ rw partly (inr (q, e, inl same))
    ]

-- What the approval of the request `id` gives: the grant `g`.
pub record Granted (kits : List Kit) (approvers : List Approver) (clock : Clock)
    (approver id : String) (a : Approval) (how : String) (s : Store) (g : Grant) : Type 0 where
  pub req : Grant
  pub waiting : lookup id s.pending_by_id ≡ some req
  pub in_time : clock 2 < req.expires_at
  pub k : Kit
  pub defined : kit_named kits req.kit ≡ some k
  pub in_scope : check_scope approvers approver k.name ≡ true
  pub same_caller : subject g ≡ subject req
  pub same_kit : g.kit ≡ req.kit
  pub same_id : g.id ≡ req.id
  pub by : g.approved_by ≡ approver
  pub positive : pos 0 <ℤ g.ttl
  pub within : g.ttl ≤ℤ kit_max_ttl k
  pub ends : g.expires_at ≡ clock 3 + pos_part g.ttl
  pub entries : Entries k a how g.part

-- Grants that come with no error.
abbrev pub Granting : (Reply × Store) → (Grant → Type 0) → Type 0
Granting out P = (g : Grant) → out.0.grant ≡ some g → out.0.error ≡ none → P g

add_time_pos : (now : ℕ) (d : ℤ) → pos 0 <ℤ d → add_time now d ≡ now + pos_part d
unfolding add_time ◌+ℤ◌
add_time_pos now d h = ground arith

module _ (kits : List Kit) (approvers : List Approver) (clock : Clock) (approver id : String)
    (a : Approval) (how : String) (s : Store) where
  abbrev Fine : Grant → Type 0
  Fine = Granted kits approvers clock approver id a how s

  -- The map of pending requests behind Get.
  abbrev seen : Store
  seen = (get (clock 1) pending id s).1

  taken_same :
      (req taken : Grant)
      → IsMap s.pending_by_id
      → (get (clock 1) pending id s).0 ≡ some req
      → (take (clock 2) pending id seen).0 ≡ some taken
      → (lookup id s.pending_by_id ≡ some req) × (taken ≡ req) × (clock 2 < req.expires_at)
  unfolding get take pruned
  taken_same req taken m e f =
      let (there, live) = keep-lookup (is_live (clock 1)) id req s.pending_by_id m e in
      let (still, later) =
        keep-lookup (is_live (clock 2)) id taken (keep (is_live (clock 1)) s.pending_by_id)
          (keep-IsMap (is_live (clock 1)) s.pending_by_id m) f in
      (there, ground arith, ground arith)

  approve_taken-Granted :
      (req : Grant) (k : Kit) (ttl : ℤ) (p : Option Part) (s1 : Store) (taken : Option Grant)
      → IsMap s.pending_by_id
      → (get (clock 1) pending id s).0 ≡ some req
      → kit_named kits req.kit ≡ some k
      → check_scope approvers approver k.name ≡ true
      → resolve_approval k req a ≡ ok (ttl, p)
      → (take (clock 2) pending id seen).0 ≡ taken
      → Granting (approve_taken clock approver how ttl (part_as how k p) s1 taken) Fine
  unfolding approve_taken store_grant
  approve_taken-Granted req k ttl p s1 none m e kit scope r t g h f = cc h
  approve_taken-Granted req k ttl p s1 (some taken) m e kit scope r t g h f =
      let (waiting, same, in_time) = taken_same req taken m e t in
      let (positive, within, entries) = resolve_approval-bounds k req a ttl p r in
      subst Fine (some_inj.0 h) (record {
        req = req;
        waiting = waiting;
        in_time = in_time;
        k = k;
        defined = kit;
        in_scope = scope;
        same_caller = ap subject same;
        same_kit = ap (λ (x : Grant). x.kit) same;
        same_id = ap (λ (x : Grant). x.id) same;
        by = refl;
        positive = positive;
        within = within;
        ends = add_time_pos (clock 3) ttl positive;
        entries = part_as-Entries how k a p entries;
      })

  approve_resolved-Granted :
      (req : Grant) (k : Kit) (r : Result GrantError (ℤ × Option Part))
      → IsMap s.pending_by_id
      → (get (clock 1) pending id s).0 ≡ some req
      → kit_named kits req.kit ≡ some k
      → check_scope approvers approver k.name ≡ true
      → resolve_approval k req a ≡ r
      → Granting (approve_resolved clock approver id how k req seen r) Fine
  unfolding approve_resolved
  approve_resolved-Granted req k (err x) m e kit scope r = λ g h f. cc f
  approve_resolved-Granted req k (ok (ttl, p)) m e kit scope r =
      approve_taken-Granted req k ttl p (take (clock 2) pending id seen).1
        (take (clock 2) pending id seen).0 m e kit scope r refl

  approve_kit-Granted :
      (req : Grant) (kit : Option Kit)
      → IsMap s.pending_by_id
      → (get (clock 1) pending id s).0 ≡ some req
      → kit_named kits req.kit ≡ kit
      → Granting (approve_kit kits approvers clock approver id a how req seen kit) Fine
  unfolding approve_kit
  approve_kit-Granted req none m e kit = λ g h f. cc f
  approve_kit-Granted req (some k) m e kit =
      elim (Bool-cases (check_scope approvers approver k.name)) [
        | inl scope ↦
            rw scope (approve_resolved-Granted req k (resolve_approval k req a) m e kit scope refl)
        | inr refused ↦ rw refused (λ g h f. cc f)
      ]

  approve_found-Granted :
      (found : Option Grant)
      → IsMap s.pending_by_id
      → (get (clock 1) pending id s).0 ≡ found
      → Granting (approve_found kits approvers clock approver id a how seen found) Fine
  unfolding approve_found
  approve_found-Granted none m e = λ g h f. cc h
  approve_found-Granted (some req) m e = approve_kit-Granted req (kit_named kits req.kit) m e refl

  -- A grant that an approval gives, where the store's map of requests is a map, comes from a
  -- request that waited under the id and had not lapsed. It is for the same caller and the same
  -- kit, which is defined and in the approver's scope; it lasts for a positive time within the
  -- kit's maximum, from the approval on; and it holds the whole kit, or the entries that the
  -- approver named, each of which the kit lists.
  pub approve-Granted :
      (g : Grant)
      → IsMap s.pending_by_id
      → (approve kits approvers clock approver id a how s).0.grant ≡ some g
      → (approve kits approvers clock approver id a how s).0.error ≡ none
      → Granted kits approvers clock approver id a how s g
  unfolding approve
  approve-Granted g m = approve_found-Granted (get (clock 1) pending id s).0 m refl g
