-- ===== src/Grants/Service/Approve.antt =====
-- internal/grants/service.go: approve, deny and revoke, over the store in memory.
use tool_mesh.Prelude.{
  ℕ, suc, String, not, ◌&&◌, Option, none, some, List, [], ◌∷◌, Result, ok, err, ◌==◌,
  if◌then◌else◌,
}
use tool_mesh.Prelude.Int.{ℤ, pos, pos_part, ◌+ℤ◌}
use tool_mesh.Authz.Kit.{Kit}
use tool_mesh.Grants.{State, pending, active, Part, Grant, subject}
use tool_mesh.Grants.Store.{Store, get, take, put, for_subject}
use tool_mesh.Authz.Kit.{is_whole}
use tool_mesh.Grants.Service.{
  Approver, GrantError, not_found, kit_undefined, forbidden, Approval, resolve_approval,
  check_scope, kit_named, kit_part,
}

-- ApprovedWithKey
abbrev pub approved_with_key : String
approved_with_key = "key"

-- The readings of the clocks in one call, in their order.
abbrev pub Clock : Type 0
Clock = ℕ → ℕ

-- A Go pair of a grant and an error: an error may come with the request it is about.
pub record Reply : Type 0 where
  pub grant : Option Grant
  pub error : Option GrantError

abbrev pub fails : Option Grant → GrantError → Reply
fails g e = record { grant = g; error = some e }

-- now.Add, for a sum that is not before the clock's zero.
unfoldable pub add_time : ℕ → ℤ → ℕ
unfolding ◌+ℤ◌
add_time now d = pos_part (pos now +ℤ d)

-- With a key, naming every entry is the whole kit.
unfoldable pub part_as : String → Kit → Option Part → Option Part
unfolding is_whole
part_as how k none = none
part_as how k (some p) =
    if how == approved_with_key && is_whole k (kit_part p k.name) then none else some p

abbrev pub granted : Grant → String → String → ℤ → Option Part → ℕ → Grant
unfolding add_time
granted req approver how ttl part now = record req {
  state = active;
  ttl = ttl;
  part = part;
  approved_by = approver;
  approved_with = how;
  approved_at = now;
  expires_at = add_time now ttl;
}

-- The removal of the grants that a new one replaces; `n` counts the readings of the clock.
unfoldable pub replace_held : Clock → ℕ → Grant → List Grant → Store → Store
unfolding take
replace_held clock n g [] s = s
replace_held clock n g (old ∷ more) s =
    if old.kit == g.kit && not (old.id == g.id)
    then replace_held clock (suc n) g more (take (clock n) active old.id s).1
    else replace_held clock n g more s

-- The end of `approve`, behind Take.
unfoldable pub store_grant : Clock → Grant → Store → Reply × Store
unfolding for_subject put replace_held
store_grant clock g s =
    let (held, s1) = for_subject (clock 4) active (subject g) s in
    (record { grant = some g; error = none }, replace_held clock 6 g held (put (clock 5) g s1))

unfoldable pub approve_taken :
    Clock → String → String → ℤ → Option Part → Store → Option Grant → Reply × Store
unfolding store_grant granted
approve_taken clock approver how ttl part s none = (fails none not_found, s)
approve_taken clock approver how ttl part s (some req) =
    store_grant clock (granted req approver how ttl part (clock 3)) s

unfoldable pub approve_resolved :
    Clock
    → String
    → String
    → String
    → Kit
    → Grant
    → Store
    → Result GrantError (ℤ × Option Part)
    → Reply × Store
unfolding approve_taken take part_as
approve_resolved clock approver id how k req s (err x) = (fails (some req) x, s)
approve_resolved clock approver id how k req s (ok (ttl, part)) =
    let (taken, s1) = take (clock 2) pending id s in
    approve_taken clock approver how ttl (part_as how k part) s1 taken

module _ (kits : List Kit) (approvers : List Approver) where
  unfoldable pub approve_kit :
      Clock → String → String → Approval → String → Grant → Store → Option Kit → Reply × Store
  unfolding approve_resolved check_scope resolve_approval
  approve_kit clock approver id a how req s none = (fails (some req) kit_undefined, s)
  approve_kit clock approver id a how req s (some k) =
      if check_scope approvers approver k.name
      then approve_resolved clock approver id how k req s (resolve_approval k req a)
      else (fails (some req) forbidden, s)

  unfoldable pub approve_found :
      Clock → String → String → Approval → String → Store → Option Grant → Reply × Store
  unfolding approve_kit kit_named
  approve_found clock approver id a how s none = (fails none not_found, s)
  approve_found clock approver id a how s (some req) =
      approve_kit clock approver id a how req s (kit_named kits req.kit)

  -- Service.approve; the first reading is the start that the audit entry holds.
  unfoldable pub approve : Clock → String → String → Approval → String → Store → Reply × Store
  unfolding approve_found get
  approve clock approver id a how s =
      let (found, s1) = get (clock 1) pending id s in approve_found clock approver id a how s1 found

-- Service.end: the removal that Deny and Revoke are.
unfoldable pub end_grant : Clock → State → String → Store → Reply × Store
unfolding take
end_grant clock st id s =
    let (taken, s1) = take (clock 1) st id s in
    (
      elim taken [ none ↦ fails none not_found | some g ↦ record { grant = some g; error = none } ],
      s1,
    )

-- Service.Deny
unfoldable pub deny : Clock → String → Store → Reply × Store
unfolding end_grant
deny clock id s = end_grant clock pending id s

-- Service.Revoke
unfoldable pub revoke : Clock → String → Store → Reply × Store
unfolding end_grant
revoke clock id s = end_grant clock active id s

-- Service.Lookup
unfoldable pub lookup_grant : Clock → String → Store → Option Grant × Store
unfolding get
lookup_grant clock id s =
    let (found, s1) = get (clock 0) pending id s in
    elim found [ some g ↦ (some g, s1) | none ↦ get (clock 1) active id s1 ]
