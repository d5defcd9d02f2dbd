-- ===== src/Authz/Rules.antt =====
-- internal/authz: what a set of rules allows a caller, said of the rules alone, and the tuples that
-- the engine stores for them.
pub mod Caller
pub mod Subjects
pub mod Objects
pub mod Related
pub mod Decides
pub mod Validate
use tool_mesh.Prelude.{
  String, Bool, true, false, not, ◌&&◌, ◌||◌, Option, none, some, List, [], ◌∷◌, ◌++◌, ◌==◌,
  if◌then◌else◌, any, contains,
}
use tool_mesh.Authz.Kit.{Kit, KitPart, covers, part_covers}
use tool_mesh.Authz.Request.{Request}
use tool_mesh.Authz.Tuples.{Rule, TupleKey, rule_tuples, kit_tuples, executor, blocked}
use tool_mesh.Authz.Embedded.{kit_of}

-- The part of a policy that is stored.
pub record Rules : Type 0 where
  pub grants : List Rule
  pub denies : List Rule
  pub kits : List Kit

unfoldable pub concat_map : {A : Type 0} → (A → List TupleKey) → List A → List TupleKey
concat_map f [] = []
concat_map f (x ∷ xs) = f x ++ concat_map f xs

-- The `desired` tuples of apply.
unfoldable pub desired : Rules → List TupleKey
unfolding concat_map rule_tuples kit_tuples
desired r =
    concat_map (rule_tuples executor) r.grants
    ++ concat_map (rule_tuples blocked) r.denies
    ++ concat_map kit_tuples r.kits

-- The caller is whom the rule names.
unfoldable pub concerns : Rule → Request → Bool
unfolding contains
concerns g req =
    if not (g.user == "")
    then g.user == req.user_id
    else if not (g.role == "")
    then contains req.roles g.role
    else if not (g.plan == "")
    then g.plan == req.plan
    else if not (g.company == "")
    then g.company == req.company_id
    else true

-- The tool is one of those that the rule names.
unfoldable pub targets : Rule → Request → Bool
unfolding contains
targets g req =
    g.all_tools
    || contains g.tools req.tool
    || not (req.backend == "") && contains g.backends req.backend
    || not (req.access == "") && contains g.access req.access

unfoldable pub kit_applies : Request → Kit → Bool
unfolding covers contains
kit_applies req k =
    not (k.name == "") && contains req.kits k.name && covers k req.tool req.backend req.access

abbrev pub covers_by : Option Kit → KitPart → Request → Bool
covers_by none p req = false
covers_by (some k) p req = part_covers k p req.tool req.backend req.access

unfoldable pub part_applies : List Kit → Request → KitPart → Bool
unfolding part_covers kit_of
part_applies kits req p = covers_by (kit_of kits p.kit) p req

-- Some grant, kit or part of a kit lets the caller execute the tool, and no deny blocks it.
unfoldable pub allows : Rules → Request → Bool
unfolding concerns targets kit_applies part_applies
allows r req =
    (any (λ g. concerns g req && targets g req) r.grants
      || any (kit_applies req) r.kits
      || any (part_applies r.kits req) req.kit_parts)
    && not (any (λ g. concerns g req && targets g req) r.denies)
