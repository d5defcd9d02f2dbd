-- ===== src/Authz/Rules/Related.antt =====
-- internal/authz: who is executor of an object, and who is blocked, by the stored and the contextual tuples.
use tool_mesh.Prelude.{
  String, Bool, true, not, ◌&&◌, ◌||◌, List, [], ◌∷◌, ◌==◌, eq_iff, eq_refl, any, contains, ◌≡◌,
  refl, ap, ◌∙◌, arith, any-ext, any_none,
}
use tool_mesh.Authz.Kit.{Kit}
use tool_mesh.Authz.Request.{Request}
use tool_mesh.Authz.Tuples.{
  Object, same_object, Subject, TupleKey, Rule, rule_subject, rule_objects, rule_tuples, kit_tuples,
  holder, executor, blocked, named, just,
}
use tool_mesh.Authz.Model.{includes, related}
use tool_mesh.Authz.Embedded.{
  contains_object, distinct_objects, distinct, parts_objects, context_tuples, tuple,
}
use tool_mesh.Authz.Rules.{Rules, desired, concat_map, concerns}
use tool_mesh.Authz.Rules.Caller.{
  Split, any-desired, any-rule_tuples, any-kit_tuples, any-context_tuples, any-structure_tuples,
  any-identity_tuples, kit_objects, part_list, user_of, tool_of, includes-match, same_subject_refl,
}
use tool_mesh.Authz.Rules.Subjects.{subject_match, subject_match-concerns, subject_match-holder}

pub any_object :
    (os : List Object) (o : Object) (c : Bool)
    → any (λ x. same_object x o && c) os ≡ (c && contains_object os o)
unfolding contains_object
any_object [] o c = ground arith
any_object (x ∷ os) o c = ground (arith, any_object os o c)

same_object_eq : (x o : Object) → same_object x o ≡ true → x ≡ o
same_object_eq x o h =
    let kinds : x.kind ≡ o.kind = ground (arith, h, eq_iff x.kind o.kind) in
    let ids : x.id ≡ o.id = ground (arith, h, eq_iff x.id o.id) in
    λ i. record { kind = kinds i; id = ids i }

contains_object-same :
    (seen : List Object) (x o : Object)
    → same_object x o ≡ true
    → contains_object seen x ≡ contains_object seen o
contains_object-same seen x o h = ap (contains_object seen) (same_object_eq x o h)

contains_object-distinct_objects :
    (seen os : List Object) (o : Object)
    → contains_object (distinct_objects seen os) o
      ≡ (contains_object os o && not (contains_object seen o))
unfolding contains_object distinct_objects
contains_object-distinct_objects seen [] o = refl
contains_object-distinct_objects seen (x ∷ os) o = ground (
  arith,
  contains_object-distinct_objects seen os o,
  contains_object-distinct_objects (x ∷ seen) os o,
  contains_object-same seen x o,
)

-- The caller holds the kit.
abbrev pub holds : Request → Kit → Bool
holds req k = not (k.name == "") && contains req.kits k.name

abbrev pub caller_of : Request → Subject
caller_of req = just (user_of req)

-- What of an object a rule, a kit or a part of a kit grants.
abbrev pub rule_grants : Rules → Request → Object → Bool
rule_grants r req o = any (λ g. concerns g req && contains_object (rule_objects g) o) r.grants

abbrev pub kit_grants : Rules → Request → Object → Bool
kit_grants r req o = any (λ k. holds req k && contains_object (kit_objects k) o) r.kits

abbrev pub part_grants : Rules → Request → Object → Bool
part_grants r req o = contains_object (parts_objects r.kits req.kit_parts) o

module _ (tuples : List TupleKey) (r : Rules) (req : Request)
    (split : Split tuples (desired r) (context_tuples r.kits req)) where
  includes-subject : (s : Subject) → includes tuples (caller_of req) s ≡ subject_match req s
  includes-subject s = includes-match tuples r req split s

  any_rule :
      (relation : String) (o : Object) (gs : List Rule)
      → any
          (λ t.
            t.relation == relation
            && same_object t.object o
            && includes tuples (caller_of req) t.user)
          (concat_map (rule_tuples relation) gs)
        ≡ any (λ g. concerns g req && contains_object (rule_objects g) o) gs
  any_rule relation o gs =
      any-rule_tuples _ relation gs
      ∙ any-ext _ (λ g. concerns g req && contains_object (rule_objects g) o) gs
          λ g.
            any-ext _ (λ x. same_object x o && concerns g req) (rule_objects g)
              (λ x. ground (
                arith,
                eq_refl relation,
                includes-subject (rule_subject g) ∙ subject_match-concerns req g,
              ))
            ∙ any_object (rule_objects g) o (concerns g req)

  any_kit :
      (o : Object)
      → any
          (λ t.
            t.relation == executor
            && same_object t.object o
            && includes tuples (caller_of req) t.user)
          (concat_map kit_tuples r.kits)
        ≡ any (λ k. holds req k && contains_object (kit_objects k) o) r.kits
  any_kit o =
      any-kit_tuples _ r.kits
      ∙ any-ext _ (λ k. holds req k && contains_object (kit_objects k) o) r.kits
          λ k.
            any-ext _ (λ x. same_object x o && holds req k) (kit_objects k)
              (λ x. ground (arith, includes-subject (holder k) ∙ subject_match-holder req k))
            ∙ any_object (kit_objects k) o (holds req k)

  any_part :
      (o : Object)
      → any
          (λ x. same_object x o && includes tuples (caller_of req) (just (user_of req)))
          (part_list r.kits req)
        ≡ part_grants r req o
  unfolding contains_object
  any_part o =
      any_object (part_list r.kits req) o (includes tuples (caller_of req) (just (user_of req)))
      ∙ ground (
        arith,
        contains_object-distinct_objects [] (parts_objects r.kits req.kit_parts) o,
        includes-subject (just (user_of req)),
        same_subject_refl (just (user_of req)),
      )

  pub related-executor :
      (o : Object)
      → related tuples executor (caller_of req) o
        ≡ (rule_grants r req o || kit_grants r req o || part_grants r req o)
  unfolding related
  related-executor o =
      let p : TupleKey → Bool = λ t.
        t.relation == executor
        && same_object t.object o
        && includes tuples (caller_of req) t.user in
      split p
      ∙ ground (
        arith,
        any-desired p r,
        any_rule executor o r.grants,
        any-rule_tuples p blocked r.denies
            ∙ any_none _ r.denies (λ g. any_none _ (rule_objects g) (λ x. refl)),
        any_kit o,
        any-context_tuples p r.kits req,
        any-structure_tuples p req (tool_of req),
        any-identity_tuples p req (user_of req),
        any_none (λ x. p (tuple (user_of req) "assignee" (named "role" x))) (distinct [] req.roles)
            (λ x. refl),
        any_none (λ x. p (tuple (user_of req) "holder" (named "kit" x))) (distinct [] req.kits)
            (λ x. refl),
        any_part o,
      )

  pub related-blocked :
      (o : Object)
      → related tuples blocked (caller_of req) o
        ≡ any (λ g. concerns g req && contains_object (rule_objects g) o) r.denies
  unfolding related
  related-blocked o =
      let p : TupleKey → Bool = λ t.
        t.relation == blocked && same_object t.object o && includes tuples (caller_of req) t.user in
      split p
      ∙ ground (
        arith,
        any-desired p r,
        any_rule blocked o r.denies,
        any-rule_tuples p executor r.grants
            ∙ any_none _ r.grants (λ g. any_none _ (rule_objects g) (λ x. refl)),
        any-kit_tuples p r.kits ∙ any_none _ r.kits (λ k. any_none _ (kit_objects k) (λ x. refl)),
        any-context_tuples p r.kits req,
        any-structure_tuples p req (tool_of req),
        any-identity_tuples p req (user_of req),
        any_none (λ x. p (tuple (user_of req) "assignee" (named "role" x))) (distinct [] req.roles)
            (λ x. refl),
        any_none (λ x. p (tuple (user_of req) "holder" (named "kit" x))) (distinct [] req.kits)
            (λ x. refl),
        any_none (λ x. p (tuple (user_of req) executor x)) (part_list r.kits req) (λ x. refl),
      )
