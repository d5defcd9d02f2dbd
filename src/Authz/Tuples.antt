-- ===== src/Authz/Tuples.antt =====
-- internal/authz: the tuples that the engine stores for grants, denies and kits (grants.go, kits.go).
-- The code writes an object as one text, kind:id, and a userset as kind:id#relation; here the parts
-- stand side by side. No id holds a colon or a number sign (Escape/Safe), so no two are written the
-- same.
pub mod Names
use Prim.Native.String.{◌++◌ as append}
use tool_mesh.Prelude.{
  String, Bool, true, false, not, ◌&&◌, ◌||◌, List, [], ◌∷◌, ◌++◌, Result, ok, err, ◌==◌,
  if◌then◌else◌, map, any, contains, ◌>>=◌,
}
use tool_mesh.Prelude.Text.{trim_space}
use tool_mesh.Authz.Kit.{Kit, KitPart, KitScope, parse_kit_scope}
use tool_mesh.Authz.Kit
use tool_mesh.Authz.Escape.{escape_id}

pub record Object : Type 0 where
  pub kind : String
  pub id : String

abbrev pub same_object : Object → Object → Bool
same_object o p = o.kind == p.kind && o.id == p.id

-- An object, or with a relation the set of those who have it to the object.
pub record Subject : Type 0 where
  pub object : Object
  pub relation : String

abbrev pub same_subject : Subject → Subject → Bool
same_subject s t = same_object s.object t.object && s.relation == t.relation

pub record TupleKey : Type 0 where
  pub user : Subject
  pub relation : String
  pub object : Object

abbrev pub same_tuple : TupleKey → TupleKey → Bool
same_tuple s t =
    same_subject s.user t.user && s.relation == t.relation && same_object s.object t.object

abbrev pub executor : String
executor = "executor"

abbrev pub blocked : String
blocked = "blocked"

-- objInstance
abbrev pub obj_instance : Object
obj_instance = record { kind = "instance"; id = "toolmesh" }

-- kind + ":" + escapeID(name)
abbrev pub named : String → String → Object
named kind name = record { kind = kind; id = escape_id name }

unfoldable pub backend_access_id : String → String → String
unfolding escape_id
backend_access_id backend access =
    escape_id (append (escape_id backend) (append ":" (escape_id access)))

abbrev pub backend_access : String → String → Object
backend_access backend access = record {
  kind = "backend_access";
  id = backend_access_id backend access;
}

-- kitScope.object
unfoldable pub scope_object : KitScope → Object
unfolding backend_access_id escape_id
scope_object s =
    if s.backend == "" && s.access == ""
    then obj_instance
    else if s.access == ""
    then named "backend" s.backend
    else if s.backend == ""
    then named "access_class" s.access
    else backend_access s.backend s.access

abbrev pub objects_of_scope : Result Kit.Error KitScope → List Object
objects_of_scope (ok s) = scope_object s ∷ []
objects_of_scope (err e) = []

-- The objects of the scopes `grants`, where `listed` are those that count.
unfoldable pub scope_objects : (String → Bool) → List String → List Object
unfolding scope_object parse_kit_scope
scope_objects listed [] = []
scope_objects listed (g ∷ gs) =
    let rest = scope_objects listed gs in
    if listed g then objects_of_scope (parse_kit_scope g) ++ rest else rest

unfoldable pub tool_objects : (String → Bool) → List String → List Object
unfolding escape_id
tool_objects listed [] = []
tool_objects listed (t ∷ ts) =
    let rest = tool_objects listed ts in if listed t then named "tool" t ∷ rest else rest

-- Kit.partObjects
unfoldable pub part_objects : Kit → KitPart → List Object
unfolding scope_objects tool_objects contains
part_objects k p =
    scope_objects (contains k.grants) p.grants ++ tool_objects (contains k.tools) p.tools

-- Kit.holder
unfoldable pub holder : Kit → Subject
unfolding escape_id
holder k = record { object = named "kit" k.name; relation = "holder" }

abbrev pub executor_of : Subject → Object → TupleKey
executor_of user o = record { user = user; relation = executor; object = o }

-- Kit.tuples
unfoldable pub kit_tuples : Kit → List TupleKey
unfolding holder scope_objects tool_objects
kit_tuples k =
    map (executor_of (holder k))
      (scope_objects (λ g. true) k.grants ++ tool_objects (λ t. true) k.tools)

-- Grant of grants.go: in a list of denies the same record blocks.
pub record Rule : Type 0 where
  pub user : String
  pub role : String
  pub plan : String
  pub company : String
  pub everyone : Bool
  pub all_tools : Bool
  pub backends : List String
  pub tools : List String
  pub access : List String

abbrev pub just : Object → Subject
just o = record { object = o; relation = "" }

-- Grant.subject
unfoldable pub rule_subject : Rule → Subject
unfolding escape_id
rule_subject g =
    if not (g.user == "")
    then just (named "user" g.user)
    else if not (g.role == "")
    then record { object = named "role" g.role; relation = "assignee" }
    else if not (g.plan == "")
    then record { object = named "plan" g.plan; relation = "subscriber" }
    else if not (g.company == "")
    then record { object = named "company" g.company; relation = "member" }
    else just (record { kind = "user"; id = "*" })

-- The objects that Grant.tuples adds.
unfoldable pub rule_objects : Rule → List Object
unfolding escape_id
rule_objects g =
    (if g.all_tools then obj_instance ∷ [] else [])
    ++ map (named "backend") g.backends
    ++ map (named "tool") g.tools
    ++ map (named "access_class") g.access

-- Grant.tuples
unfoldable pub rule_tuples : String → Rule → List TupleKey
unfolding rule_subject rule_objects
rule_tuples relation g =
    map (λ o. record { user = rule_subject g; relation = relation; object = o }) (rule_objects g)
