-- ===== src/Authz/Model.antt =====
-- internal/authz/model.fga: what the authorization model lets a user execute, given a set of tuples.
pub mod Monotone
use tool_mesh.Prelude.{String, Bool, true, false, not, ◌&&◌, ◌||◌, List, [], ◌∷◌, ◌==◌, any}
use tool_mesh.Authz.Tuples.{
  Object, same_object, Subject, same_subject, TupleKey, executor, blocked, just,
}

-- user:*
abbrev pub everyone : Subject
everyone = just (record { kind = "user"; id = "*" })

-- member of a company, assignee of a role, subscriber of a plan, holder of a kit
abbrev pub is_group : String → Bool
is_group r = r == "member" || r == "assignee" || r == "subscriber" || r == "holder"

module _ (tuples : List TupleKey) where
  -- The user has the relation to the object of the userset.
  unfoldable pub in_group : Subject → Subject → Bool
  in_group u s =
      any
        (λ t.
          is_group t.relation
          && same_subject t.user u
          && same_object s.object t.object
          && s.relation == t.relation)
        tuples

  -- subscriber of a plan: [user, company#member]
  unfoldable pub in_plan : Subject → Subject → Bool
  unfolding in_group
  in_plan u s =
      any
        (λ t.
          t.relation == "subscriber"
          && same_object s.object t.object
          && s.relation == "subscriber"
          && t.user.relation == "member"
          && in_group u t.user)
        tuples

  -- The user is the subject or is among those that it stands for.
  unfoldable pub includes : Subject → Subject → Bool
  unfolding in_group in_plan
  includes u s = same_subject s u || same_subject s everyone || in_group u s || in_plan u s

  -- executor, or blocked, of one object.
  unfoldable pub related : String → Subject → Object → Bool
  unfolding includes
  related relation u o =
      any (λ t. t.relation == relation && same_object t.object o && includes u t.user) tuples

  -- `relation from via`
  unfoldable pub related_from : String → String → Subject → Object → Bool
  unfolding related
  related_from via relation u tool =
      any (λ t. t.relation == via && same_object t.object tool && related relation u t.user.object)
        tuples

  unfoldable pub may_execute : Subject → Object → Bool
  unfolding related related_from
  may_execute u tool =
      related executor u tool
      || related_from "instance" executor u tool
      || related_from "backend" executor u tool
      || related_from "access_class" executor u tool
      || related_from "backend_access" executor u tool

  unfoldable pub is_blocked : Subject → Object → Bool
  unfolding related related_from
  is_blocked u tool =
      related blocked u tool
      || related_from "instance" blocked u tool
      || related_from "backend" blocked u tool
      || related_from "access_class" blocked u tool

  unfoldable pub can_execute : Subject → Object → Bool
  unfolding may_execute is_blocked
  can_execute u tool = may_execute u tool && not (is_blocked u tool)
