-- ===== src/Authz/Rules/Decides.antt =====
-- internal/authz: the model's decision on the stored and the contextual tuples is what the rules say.
use tool_mesh.Prelude.{
  String, Bool, true, false, not, ◌&&◌, ◌||◌, List, [], ◌==◌, eq_refl, any, ◌≡◌, refl, ap, ◌∙◌,
  arith, any-ext, any_none,
}
use tool_mesh.Authz.Request.{Request}
use tool_mesh.Authz.Tuples.{
  Object, same_object, TupleKey, Rule, rule_objects, executor, blocked, obj_instance, named,
  backend_access,
}
use tool_mesh.Authz.Model.{related, related_from, may_execute, is_blocked, can_execute}
use tool_mesh.Authz.Embedded.{contains_object, distinct, structure_tuples, context_tuples, tuple}
use tool_mesh.Authz.Rules.{Rules, desired, concerns, targets, kit_applies, part_applies, allows}
use tool_mesh.Authz.Rules.Caller.{
  Split, any-context_tuples, any-structure_tuples, any-identity_tuples, desired-none, kit_objects,
  part_list, user_of, tool_of,
}
use tool_mesh.Authz.Rules.Objects.{
  reached, rule_objects-pair, rule_objects-targets, kit_objects-covers, parts_objects-applies,
  reached-any, reached_or,
}
use tool_mesh.Authz.Rules.Related.{
  holds, caller_of, rule_grants, kit_grants, part_grants, related-executor, related-blocked,
}

module _ (tuples : List TupleKey) (r : Rules) (req : Request)
    (split : Split tuples (desired r) (context_tuples r.kits req)) where
  -- A relation that only the place of the tool uses.
  abbrev is_place : String → Bool
  is_place via =
      not (executor == via)
      && not (blocked == via)
      && not ("member" == via)
      && not ("subscriber" == via)
      && not ("assignee" == via)
      && not ("holder" == via)

  related_from-structure :
      (via relation : String) (tool : Object)
      → is_place via ≡ true
      → related_from tuples via relation (caller_of req) tool
        ≡ any
            (λ t.
              t.relation == via
              && same_object t.object tool
              && related tuples relation (caller_of req) t.user.object)
            (structure_tuples req (tool_of req))
  unfolding related_from
  related_from-structure via relation tool h =
      let p : TupleKey → Bool = λ t.
        t.relation == via
        && same_object t.object tool
        && related tuples relation (caller_of req) t.user.object in
      split p
      ∙ ground (
        arith,
        desired-none p r (λ u o. ground (arith, h)) (λ u o. ground (arith, h)),
        any-context_tuples p r.kits req,
        any-identity_tuples p req (user_of req),
        any_none (λ x. p (tuple (user_of req) "assignee" (named "role" x))) (distinct [] req.roles)
            (λ x. ground (arith, h)),
        any_none (λ x. p (tuple (user_of req) "holder" (named "kit" x))) (distinct [] req.kits)
            (λ x. ground (arith, h)),
        any_none (λ x. p (tuple (user_of req) executor x)) (part_list r.kits req)
            (λ x. ground (arith, h)),
      )

  same_tool : same_object (tool_of req) (tool_of req) ≡ true
  same_tool = ground (arith, eq_refl (tool_of req).kind, eq_refl (tool_of req).id)

  -- What `relation from via` reads.
  related_from-place :
      (via relation : String)
      → is_place via ≡ true
      → related_from tuples via relation (caller_of req) (tool_of req) ≡ (
          "instance" == via && related tuples relation (caller_of req) obj_instance
          || not (req.backend == "")
            && "backend" == via
            && related tuples relation (caller_of req) (named "backend" req.backend)
          || not (req.access == "")
            && "access_class" == via
            && related tuples relation (caller_of req) (named "access_class" req.access)
          || not (req.backend == "")
            && not (req.access == "")
            && "backend_access" == via
            && related tuples relation (caller_of req) (backend_access req.backend req.access))
  related_from-place via relation h =
      let p : TupleKey → Bool = λ t.
        t.relation == via
        && same_object t.object (tool_of req)
        && related tuples relation (caller_of req) t.user.object in
      related_from-structure via relation (tool_of req) h
      ∙ any-structure_tuples p req (tool_of req)
      ∙ ground (arith, same_tool)

  may_execute-reached :
      may_execute tuples (caller_of req) (tool_of req)
      ≡ reached req (related tuples executor (caller_of req))
  unfolding may_execute
  may_execute-reached = ground (
    arith,
    related_from-place "instance" executor refl,
    related_from-place "backend" executor refl,
    related_from-place "access_class" executor refl,
    related_from-place "backend_access" executor refl,
  )

  related-pair :
      (b a : String) → related tuples blocked (caller_of req) (backend_access b a) ≡ false
  related-pair b a =
      related-blocked tuples r req split (backend_access b a)
      ∙ any_none _ r.denies (λ g. ground (arith, rule_objects-pair g b a))

  is_blocked-reached :
      is_blocked tuples (caller_of req) (tool_of req)
      ≡ reached req (related tuples blocked (caller_of req))
  unfolding is_blocked
  is_blocked-reached = ground (
    arith,
    related_from-place "instance" blocked refl,
    related_from-place "backend" blocked refl,
    related_from-place "access_class" blocked refl,
    related-pair req.backend req.access,
  )

  rules_reached :
      (gs : List Rule)
      → reached req (λ o. any (λ g. concerns g req && contains_object (rule_objects g) o) gs)
        ≡ any (λ g. concerns g req && targets g req) gs
  rules_reached gs =
      reached-any req (λ g. concerns g req) (λ g. contains_object (rule_objects g)) gs
      ∙ any-ext _ _ gs (λ g. ap (λ b. concerns g req && b) (rule_objects-targets g req))

  kits_reached : reached req (kit_grants r req) ≡ any (kit_applies req) r.kits
  unfolding kit_applies
  kits_reached =
      reached-any req (holds req) (λ k. contains_object (kit_objects k)) r.kits
      ∙ any-ext _ _ r.kits (λ k. ap (λ b. holds req k && b) (kit_objects-covers req k))

  executor-reached : reached req (related tuples executor (caller_of req)) ≡ (
      any (λ g. concerns g req && targets g req) r.grants
      || any (kit_applies req) r.kits
      || any (part_applies r.kits req) req.kit_parts)
  executor-reached =
      (λ i. reached req (λ o. related-executor tuples r req split o i))
      ∙ reached_or req (rule_grants r req) (kit_grants r req) (part_grants r req)
      ∙ (λ i.
          rules_reached r.grants i
          || kits_reached i
          || parts_objects-applies req r.kits req.kit_parts i)

  -- The model allows exactly what the rules allow.
  pub can_execute-allows : can_execute tuples (caller_of req) (tool_of req) ≡ allows r req
  unfolding can_execute allows
  can_execute-allows = ground (
    arith,
    may_execute-reached,
    executor-reached,
    is_blocked-reached,
    (λ i. reached req (λ o. related-blocked tuples r req split o i)) ∙ rules_reached r.denies,
  )
