-- ===== src/Authz/Embedded.antt =====
-- internal/authz/embedded.go: the engine inside the process. How OpenFGA decides a check from the
-- tuples is a parameter, `Engine`; `Evaluates` says that it decides as the model does.
pub mod Apply
pub mod Applied
pub mod InSync
pub mod Batch
pub mod Tests
use tool_mesh.Prelude.{
  ℕ, String, Bool, true, false, not, ◌&&◌, ◌||◌, Option, none, some, List, [], ◌∷◌, ◌++◌, Result,
  ok, err, ◌==◌, if◌then◌else◌, map, contains, length, ltb,
}
use tool_mesh.Authz.Kit.{Kit, KitPart}
use tool_mesh.Authz.Request.{Request, Answer, allowed, denied, failed}
use tool_mesh.Authz.Escape.{escape_id}
use tool_mesh.Authz.Tuples.{
  Object, same_object, Subject, TupleKey, executor, obj_instance, named, backend_access,
  backend_access_id, part_objects, just,
}

-- The stored tuples and the contextual ones, the user and the tool, to whether it is allowed.
abbrev pub Engine : Type 0
Engine = List TupleKey → Subject → Object → Result String Bool

pub record Embedded : Type 0 where
  pub stored : List TupleKey
  pub tool_grants : List Object
  pub kits : List Kit

abbrev pub max_contextual_tuples : ℕ
max_contextual_tuples = 100

-- The texts that are not empty, each once, in the order of their first places; `seen` are those before.
unfoldable pub distinct : List String → List String → List String
unfolding contains
distinct seen [] = []
distinct seen (r ∷ rs) =
    if r == "" || contains seen r then distinct seen rs else r ∷ distinct (r ∷ seen) rs

unfoldable pub contains_object : List Object → Object → Bool
contains_object [] o = false
contains_object (p ∷ ps) o = same_object p o || contains_object ps o

unfoldable pub distinct_objects : List Object → List Object → List Object
unfolding contains_object
distinct_objects seen [] = []
distinct_objects seen (o ∷ os) =
    if contains_object seen o then distinct_objects seen os else o ∷ distinct_objects (o ∷ seen) os

abbrev pub tuple : Object → String → Object → TupleKey
tuple user relation object = record { user = just user; relation = relation; object = object }

abbrev pub when : Bool → TupleKey → List TupleKey
when b t = if b then t ∷ [] else []

-- slices.IndexFunc on the kits
unfoldable pub kit_of : List Kit → String → Option Kit
kit_of [] name = none
kit_of (k ∷ ks) name = if k.name == name then some k else kit_of ks name

abbrev pub objects_of_kit : Option Kit → KitPart → List Object
objects_of_kit none p = []
objects_of_kit (some k) p = part_objects k p

unfoldable pub parts_objects : List Kit → List KitPart → List Object
unfolding kit_of part_objects
parts_objects kits [] = []
parts_objects kits (p ∷ ps) = objects_of_kit (kit_of kits p.kit) p ++ parts_objects kits ps

-- The place of the tool, as contextual tuples.
unfoldable pub structure_tuples : Request → Object → List TupleKey
unfolding backend_access_id escape_id
structure_tuples req tool =
    tuple obj_instance "instance" tool
      ∷ when (not (req.backend == "")) (tuple (named "backend" req.backend) "backend" tool)
    ++ when (not (req.access == "")) (tuple (named "access_class" req.access) "access_class" tool)
    ++ when (not (req.backend == "") && not (req.access == ""))
        (tuple (backend_access req.backend req.access) "backend_access" tool)

-- Who the caller is and which kits it holds.
unfoldable pub identity_tuples : Request → Object → List TupleKey
unfolding distinct escape_id
identity_tuples req user =
    when (not (req.company_id == "")) (tuple user "member" (named "company" req.company_id))
    ++ when (not (req.plan == "")) (tuple user "subscriber" (named "plan" req.plan))
    ++ map (λ r. tuple user "assignee" (named "role" r)) (distinct [] req.roles)
    ++ map (λ k. tuple user "holder" (named "kit" k)) (distinct [] req.kits)

-- ctxTuples
unfoldable pub context_tuples : List Kit → Request → List TupleKey
unfolding structure_tuples identity_tuples parts_objects distinct_objects escape_id
context_tuples kits req =
    let user = named "user" req.user_id in
    structure_tuples req (named "tool" req.tool)
    ++ identity_tuples req user
    ++ map (tuple user executor) (distinct_objects [] (parts_objects kits req.kit_parts))

abbrev pub as_answer : Result String Bool → Answer
as_answer (ok true) = allowed
as_answer (ok false) = denied
as_answer (err e) = failed e

-- Embedded.Check
unfoldable pub check : Engine → Embedded → Request → Answer
unfolding context_tuples escape_id
check engine e req =
    if req.user_id == "" || req.tool == ""
    then denied
    else let context = context_tuples e.kits req in
      if ltb max_contextual_tuples (length context)
      then failed "too many contextual tuples"
      else as_answer
          (engine (e.stored ++ context) (just (named "user" req.user_id)) (named "tool" req.tool))
