-- ===== src/Authz/Rules/Caller.antt =====
-- internal/authz: whom a stored subject includes, in a check of one caller.
use tool_mesh.Prelude.{
  String, Bool, true, false, not, ◌&&◌, ◌||◌, List, [], ◌∷◌, ◌++◌, ◌==◌, eq_iff, eq_refl, any, map,
  contains, ◌≡◌, refl, ap, ◌∙◌, arith, any-append, any-map, any-ext, any_none,
}
use tool_mesh.Authz.Kit.{Kit}
use tool_mesh.Authz.Request.{Request}
use tool_mesh.Authz.Escape.{escape_id}
use tool_mesh.Authz.Tuples.{
  Object, same_object, Subject, same_subject, TupleKey, Rule, rule_subject, rule_objects,
  rule_tuples, kit_tuples, executor, blocked, named, just, holder, scope_objects, tool_objects,
  executor_of, obj_instance, backend_access,
}
use tool_mesh.Authz.Model.{everyone, is_group, in_group, in_plan, includes}
use tool_mesh.Authz.Embedded.{
  distinct, structure_tuples, identity_tuples, context_tuples, distinct_objects, parts_objects,
  tuple, when,
}
use tool_mesh.Authz.Rules.{Rules, concat_map, desired}

-- The tuples of a check: those of the rules and those of the context.
abbrev pub Split : List TupleKey → List TupleKey → List TupleKey → Type 0
Split tuples stored context = (p : TupleKey → Bool) → any p tuples ≡ (any p stored || any p context)

pub any-concat_map :
    {A : Type 0} (p : TupleKey → Bool) (f : A → List TupleKey) (xs : List A)
    → any p (concat_map f xs) ≡ any (λ x. any p (f x)) xs
unfolding concat_map
any-concat_map p f [] = refl
any-concat_map p f (x ∷ xs) =
    ground (arith, any-append p (f x) (concat_map f xs), any-concat_map p f xs)

pub any-rule_tuples :
    (p : TupleKey → Bool) (relation : String) (gs : List Rule)
    → any p (concat_map (rule_tuples relation) gs)
      ≡ any
          (λ g.
            any
              (λ o. p (record { user = rule_subject g; relation = relation; object = o }))
              (rule_objects g))
          gs
unfolding rule_tuples
any-rule_tuples p relation gs =
    any-concat_map p (rule_tuples relation) gs ∙ any-ext _ _ gs (λ g. any-map p _ (rule_objects g))

abbrev pub kit_objects : Kit → List Object
kit_objects k = scope_objects (λ g. true) k.grants ++ tool_objects (λ t. true) k.tools

pub any-kit_tuples :
    (p : TupleKey → Bool) (ks : List Kit)
    → any p (concat_map kit_tuples ks)
      ≡ any (λ k. any (λ o. p (executor_of (holder k) o)) (kit_objects k)) ks
unfolding kit_tuples
any-kit_tuples p ks =
    any-concat_map p kit_tuples ks ∙ any-ext _ _ ks (λ k. any-map p _ (kit_objects k))

pub any-desired :
    (p : TupleKey → Bool) (r : Rules)
    → any p (desired r) ≡ (
        any p (concat_map (rule_tuples executor) r.grants)
        || any p (concat_map (rule_tuples blocked) r.denies)
        || any p (concat_map kit_tuples r.kits))
unfolding desired
any-desired p r =
    let grants = concat_map (rule_tuples executor) r.grants in
    let denies = concat_map (rule_tuples blocked) r.denies in
    let kits = concat_map kit_tuples r.kits in
    ground (arith, any-append p (grants ++ denies) kits, any-append p grants denies)

-- Nothing that is stored passes a test of other relations than those of rules.
pub desired-none :
    (p : TupleKey → Bool) (r : Rules)
    → ((u : Subject) (o : Object)
        → p (record { user = u; relation = executor; object = o }) ≡ false)
    → ((u : Subject) (o : Object) → p (record { user = u; relation = blocked; object = o }) ≡ false)
    → any p (desired r) ≡ false
desired-none p r grants denies = ground (
  arith,
  any-desired p r,
  any-rule_tuples p executor r.grants
      ∙ any_none _ r.grants (λ g. any_none _ (rule_objects g) (grants (rule_subject g))),
  any-rule_tuples p blocked r.denies
      ∙ any_none _ r.denies (λ g. any_none _ (rule_objects g) (denies (rule_subject g))),
  any-kit_tuples p r.kits ∙ any_none _ r.kits (λ k. any_none _ (kit_objects k) (grants (holder k))),
)

any-when : (p : TupleKey → Bool) (b : Bool) (t : TupleKey) → any p (when b t) ≡ (b && p t)
any-when p b t = ground arith

abbrev pub user_of : Request → Object
user_of req = named "user" req.user_id

abbrev pub tool_of : Request → Object
tool_of req = named "tool" req.tool

pub any-structure_tuples :
    (p : TupleKey → Bool) (req : Request) (tool : Object)
    → any p (structure_tuples req tool) ≡ (
        p (tuple obj_instance "instance" tool)
        || not (req.backend == "") && p (tuple (named "backend" req.backend) "backend" tool)
        || not (req.access == "") && p (tuple (named "access_class" req.access) "access_class" tool)
        || not (req.backend == "")
          && not (req.access == "")
          && p (tuple (backend_access req.backend req.access) "backend_access" tool))
unfolding structure_tuples
any-structure_tuples p req tool = ground arith

pub any-identity_tuples :
    (p : TupleKey → Bool) (req : Request) (user : Object)
    → any p (identity_tuples req user) ≡ (
        not (req.company_id == "") && p (tuple user "member" (named "company" req.company_id))
        || not (req.plan == "") && p (tuple user "subscriber" (named "plan" req.plan))
        || any (λ r. p (tuple user "assignee" (named "role" r))) (distinct [] req.roles)
        || any (λ k. p (tuple user "holder" (named "kit" k))) (distinct [] req.kits))
unfolding identity_tuples
any-identity_tuples p req user =
    let roles = map (λ r. tuple user "assignee" (named "role" r)) (distinct [] req.roles) in
    let kits = map (λ k. tuple user "holder" (named "kit" k)) (distinct [] req.kits) in
    ground (
      arith,
      any-append p roles kits,
      any-map p (λ r. tuple user "assignee" (named "role" r)) (distinct [] req.roles),
      any-map p (λ k. tuple user "holder" (named "kit" k)) (distinct [] req.kits),
    )

abbrev pub part_list : List Kit → Request → List Object
part_list kits req = distinct_objects [] (parts_objects kits req.kit_parts)

pub any-context_tuples :
    (p : TupleKey → Bool) (kits : List Kit) (req : Request)
    → any p (context_tuples kits req) ≡ (
        any p (structure_tuples req (tool_of req))
        || any p (identity_tuples req (user_of req))
        || any (λ o. p (tuple (user_of req) executor o)) (part_list kits req))
unfolding context_tuples
any-context_tuples p kits req =
    let structure = structure_tuples req (tool_of req) in
    let identity = identity_tuples req (user_of req) in
    let parts = map (tuple (user_of req) executor) (part_list kits req) in
    ground (
      arith,
      any-append p (structure ++ identity) parts,
      any-append p structure identity,
      any-map p (tuple (user_of req) executor) (part_list kits req),
    )

pub same_subject_refl : (s : Subject) → same_subject s s ≡ true
same_subject_refl s = ground (arith, eq_refl s.object.kind, eq_refl s.object.id, eq_refl s.relation)

-- The caller has this relation to the object, as authentication established it.
unfoldable pub group_match : Request → Subject → Bool
unfolding distinct escape_id
group_match req s =
    not (req.company_id == "")
      && same_object s.object (named "company" req.company_id)
      && s.relation == "member"
    || not (req.plan == "")
      && same_object s.object (named "plan" req.plan)
      && s.relation == "subscriber"
    || any (λ r. same_object s.object (named "role" r) && s.relation == "assignee")
        (distinct [] req.roles)
    || any (λ k. same_object s.object (named "kit" k) && s.relation == "holder")
        (distinct [] req.kits)

module _ (tuples : List TupleKey) (r : Rules) (req : Request)
    (split : Split tuples (desired r) (context_tuples r.kits req)) where
  abbrev caller : Subject
  caller = just (user_of req)

  in_group-match : (s : Subject) → in_group tuples caller s ≡ group_match req s
  unfolding in_group group_match
  in_group-match s =
      let p : TupleKey → Bool = λ t.
        is_group t.relation
        && same_subject t.user caller
        && same_object s.object t.object
        && s.relation == t.relation in
      let me = same_subject_refl caller in
      split p
      ∙ ap (λ b. b || any p (context_tuples r.kits req))
          (desired-none p r (λ u o. refl) (λ u o. refl))
      ∙ any-context_tuples p r.kits req
      ∙ ground (
        arith,
        me,
        any-structure_tuples p req (tool_of req),
        any-identity_tuples p req (user_of req),
        any_none (λ o. p (tuple (user_of req) executor o)) (part_list r.kits req) (λ o. refl),
        any-ext (λ x. p (tuple (user_of req) "assignee" (named "role" x)))
            (λ x. same_object s.object (named "role" x) && s.relation == "assignee")
            (distinct [] req.roles) (λ x. ground (arith, me)),
        any-ext (λ x. p (tuple (user_of req) "holder" (named "kit" x)))
            (λ x. same_object s.object (named "kit" x) && s.relation == "holder")
            (distinct [] req.kits) (λ x. ground (arith, me)),
      )

  in_plan-false : (s : Subject) → in_plan tuples caller s ≡ false
  unfolding in_plan
  in_plan-false s =
      let p : TupleKey → Bool = λ t.
        t.relation == "subscriber"
        && same_object s.object t.object
        && s.relation == "subscriber"
        && t.user.relation == "member"
        && in_group tuples caller t.user in
      split p
      ∙ ap (λ b. b || any p (context_tuples r.kits req))
          (desired-none p r (λ u o. refl) (λ u o. refl))
      ∙ any-context_tuples p r.kits req
      ∙ ground (
        arith,
        any-structure_tuples p req (tool_of req),
        any-identity_tuples p req (user_of req),
        any_none (λ o. p (tuple (user_of req) executor o)) (part_list r.kits req) (λ o. refl),
        any_none (λ x. p (tuple (user_of req) "assignee" (named "role" x))) (distinct [] req.roles)
            (λ x. refl),
        any_none (λ x. p (tuple (user_of req) "holder" (named "kit" x))) (distinct [] req.kits)
            (λ x. refl),
      )

  pub includes-match :
      (s : Subject)
      → includes tuples caller s
        ≡ (same_subject s caller || same_subject s everyone || group_match req s)
  unfolding includes
  includes-match s = ground (arith, in_group-match s, in_plan-false s)

pub contains-distinct :
    (seen xs : List String) (a : String)
    → contains (distinct seen xs) a ≡ (contains xs a && not (a == "") && not (contains seen a))
unfolding contains distinct
contains-distinct seen [] a = refl
contains-distinct seen (x ∷ xs) a =
    ground (
      arith,
      contains-distinct seen xs a,
      contains-distinct (x ∷ seen) xs a,
      eq_iff x a,
      eq_iff x "",
    )
