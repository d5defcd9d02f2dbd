-- ===== src/Grants/Service.antt =====
-- internal/grants/service.go: durations, the approvers' scopes and the kits that callers hold.
pub mod Approve
pub mod Approved
pub mod Holding
pub mod Text
pub mod Request
pub mod Requested
mod Tests
pub mod Stored
pub mod Kept
use tool_mesh.Prelude.{
  ℕ, String, Bool, true, false, not, ◌&&◌, ◌||◌, Option, none, some, List, [], ◌∷◌, ◌++◌, Result,
  ok, err, ◌==◌, if◌then◌else◌, contains, is_some,
}
use tool_mesh.Prelude.Int.{ℤ, pos, ltb_ℤ, leb_ℤ}
use tool_mesh.Authz.Kit.{Kit, KitPart, Error, part, is_whole, is_empty}
use tool_mesh.Grants.{State, active, Part, Grant, Subject}
use tool_mesh.Grants.Store.{Store, for_subject}

-- time.Hour: DefaultTTL
abbrev pub default_ttl : ℤ
default_ttl = pos 3600000000000

-- MaxTTL: authz.KitTTLLimit, 24 hours.
abbrev pub max_ttl : ℤ
max_ttl = pos 86400000000000

-- What authz.Approver holds that the service reads.
pub record Approver : Type 0 where
  pub name : String
  pub key_sha256 : String
  pub kits : List String

-- What an approval may fail with; texts are left out.
pub data GrantError : Type 0 where
  not_found : GrantError
  kit_undefined negative_ttl ttl_over_max : GrantError
  bad_part : Error → GrantError
  forbidden : GrantError

-- kitMaxTTL
abbrev pub kit_max_ttl : Kit → ℤ
kit_max_ttl k = if ltb_ℤ (pos 0) k.ttl_max then k.ttl_max else max_ttl

abbrev min_ℤ : ℤ → ℤ → ℤ
min_ℤ a b = if ltb_ℤ b a then b else a

-- kitTTL
unfoldable pub kit_ttl : Kit → ℤ → ℤ × Bool
kit_ttl k d =
    if leb_ℤ d (pos 0)
    then (
      min_ℤ (if leb_ℤ k.ttl_default (pos 0) then default_ttl else k.ttl_default) (kit_max_ttl k),
      false,
    )
    else if ltb_ℤ (kit_max_ttl k) d
    then (kit_max_ttl k, true)
    else (d, false)

-- What an approver decides.
pub record Approval : Type 0 where
  pub ttl : ℤ
  pub grants : List String
  pub tools : List String

abbrev part_of : KitPart → Part
part_of p = record { grants = p.grants; tools = p.tools }

-- Part.kitPart
abbrev pub kit_part : Part → String → KitPart
kit_part p kit = record { kit = kit; grants = p.grants; tools = p.tools }

abbrev resolved_part : ℤ → Result Error KitPart → Result GrantError (ℤ × Option Part)
resolved_part ttl (err x) = err (bad_part x)
resolved_part ttl (ok p) = ok (ttl, some (part_of p))

is_zero : ℤ → Bool
is_zero d = leb_ℤ d (pos 0) && leb_ℤ (pos 0) d

-- resolveApproval
unfoldable pub resolve_approval : Kit → Grant → Approval → Result GrantError (ℤ × Option Part)
unfolding kit_ttl part is_zero
resolve_approval k req a =
    let asked = if is_zero a.ttl then req.ttl else a.ttl in
    let (ttl, over) = kit_ttl k asked in
    if ltb_ℤ a.ttl (pos 0)
    then err negative_ttl
    else if over && ltb_ℤ req.ttl a.ttl
    then err ttl_over_max
    else if is_empty a.grants && is_empty a.tools
    then ok (ttl, none)
    else resolved_part ttl (part k a.grants a.tools)

-- Approver.MayApprove
unfoldable pub may_approve : Approver → String → Bool
may_approve a kit = is_empty a.kits || contains a.kits kit

-- Service.checkScope, over the approvers of the registry: true for no error.
unfoldable pub check_scope : List Approver → String → String → Bool
unfolding may_approve
check_scope [] approver kit = true
check_scope (a ∷ more) approver kit =
    if a.name == approver && not (may_approve a kit) then false else check_scope more approver kit

-- Service.kit
unfoldable pub kit_named : List Kit → String → Option Kit
kit_named [] name = none
kit_named (k ∷ ks) name = if k.name == name then some k else kit_named ks name

-- The zero value of authz.Kit.
abbrev no_kit : Kit
no_kit = record {
  name = "";
  description = "";
  warning = "";
  grants = [];
  tools = [];
  ttl_default = pos 0;
  ttl_max = pos 0;
}

abbrev pub or_no_kit : Option Kit → Kit
or_no_kit none = no_kit
or_no_kit (some k) = k

-- The part of a grant, as HeldKits lists it.
abbrev pub own_part : Grant → List KitPart
own_part g = elim g.part [ none ↦ [] | some p ↦ kit_part p g.kit ∷ [] ]

module _ (kits : List Kit) where
  -- Service.IsWhole
  unfoldable pub covers_whole_kit : Grant → Bool
  unfolding kit_named is_whole
  covers_whole_kit g = elim g.part [
    | none ↦ true
    | some p ↦ is_whole (or_no_kit (kit_named kits g.kit)) (kit_part p g.kit)
  ]

  keep_defined : List Grant → List Grant
  unfolding kit_named
  keep_defined [] = []
  keep_defined (g ∷ gs) =
      let rest = keep_defined gs in if is_some (kit_named kits g.kit) then g ∷ rest else rest

  -- Service.activeFor
  unfoldable pub active_for : ℕ → Subject → Store → List Grant × Store
  unfolding keep_defined for_subject
  active_for now who s = let (gs, s') = for_subject now active who s in (keep_defined gs, s')

  -- The loop of HeldKits. A grant that is not of its whole kit has a part.
  unfoldable pub held_of : List Grant → List String → List KitPart → List String × List KitPart
  unfolding covers_whole_kit contains
  held_of [] whole parts = (whole, parts)
  held_of (g ∷ gs) whole parts =
      if covers_whole_kit g
      then held_of gs (if contains whole g.kit then whole else whole ++ g.kit ∷ []) parts
      else held_of gs whole (parts ++ own_part g)

  -- Service.HeldKits
  unfoldable pub held_kits : ℕ → String → String → Store → (List String × List KitPart) × Store
  unfolding active_for held_of
  held_kits now user_id binding s =
      if user_id == ""
      then (([], []), s)
      else (let (gs, s') = active_for now (record { user_id = user_id; binding = binding }) s in
          (held_of gs [] [], s'))
