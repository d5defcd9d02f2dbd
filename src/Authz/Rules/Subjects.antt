-- ===== src/Authz/Rules/Subjects.antt =====
-- internal/authz: the stored subject of a rule or a kit includes the callers that it is about.
use tool_mesh.Prelude.{
  String, Bool, false, not, ◌&&◌, ◌||◌, List, [], ◌==◌, eq_iff, eq_refl, any, contains, ◌≡◌, refl,
  ◌∙◌, arith, Bool-cases, inl, inr, any-ext, any_none,
}
use tool_mesh.Authz.Kit.{Kit}
use tool_mesh.Authz.Request.{Request}
use tool_mesh.Authz.Tuples.{
  same_object, Subject, same_subject, Rule, rule_subject, named, just, holder,
}
use tool_mesh.Authz.Tuples.Names.{same_id, not_star}
use tool_mesh.Authz.Model.{everyone}
use tool_mesh.Authz.Embedded.{distinct}
use tool_mesh.Authz.Rules.{concerns}
use tool_mesh.Authz.Rules.Caller.{user_of, group_match, contains-distinct}

abbrev pub subject_match : Request → Subject → Bool
subject_match req s =
    same_subject s (just (user_of req)) || same_subject s everyone || group_match req s

same_named : (kind a b : String) → same_object (named kind a) (named kind b) ≡ (a == b)
same_named kind a b = ground (arith, eq_refl kind, same_id a b)

any_named :
    (kind a : String) (xs : List String)
    → any (λ x. same_object (named kind a) (named kind x)) xs ≡ contains xs a
unfolding contains
any_named kind a xs =
    any-ext _ (λ x. x == a) xs (λ x. ground (arith, same_named kind a x, eq_iff a x, eq_iff x a))

any_held :
    (kind relation a : String) (xs : List String)
    → any (λ x. same_object (named kind a) (named kind x) && relation == relation) (distinct [] xs)
      ≡ (contains xs a && not (a == ""))
unfolding contains
any_held kind relation a xs =
    any-ext _ (λ x. same_object (named kind a) (named kind x)) (distinct [] xs)
      (λ x. ground (arith, eq_refl relation))
    ∙ any_named kind a (distinct [] xs)
    ∙ contains-distinct [] xs a
    ∙ ground arith

-- No role of the caller makes a subject of another kind match, nor does a kit.
no_other :
    (kind relation : String) (s : Subject) (xs : List String)
    → (s.relation == relation && s.object.kind == kind) ≡ false
    → any (λ x. same_object s.object (named kind x) && s.relation == relation) xs ≡ false
no_other kind relation s xs h =
    any_none (λ x. same_object s.object (named kind x) && s.relation == relation) xs
      (λ x. ground (arith, h))

pub subject_match-user :
    (req : Request) (a : String) → subject_match req (just (named "user" a)) ≡ (a == req.user_id)
unfolding group_match
subject_match-user req a = ground (
  arith,
  same_named "user" a req.user_id,
  not_star a,
  no_other "role" "assignee" (just (named "user" a)) (distinct [] req.roles) refl,
  no_other "kit" "holder" (just (named "user" a)) (distinct [] req.kits) refl,
)

abbrev group : String → String → String → Subject
group kind name relation = record { object = named kind name; relation = relation }

subject_match-role :
    (req : Request) (a : String)
    → (a == "") ≡ false
    → subject_match req (group "role" a "assignee") ≡ contains req.roles a
unfolding group_match
subject_match-role req a h = ground (
  arith,
  any_held "role" "assignee" a req.roles,
  h,
  no_other "kit" "holder" (group "role" a "assignee") (distinct [] req.kits) refl,
)

pub subject_match-holder :
    (req : Request) (k : Kit)
    → subject_match req (holder k) ≡ (not (k.name == "") && contains req.kits k.name)
unfolding group_match holder
subject_match-holder req k = ground (
  arith,
  any_held "kit" "holder" k.name req.kits,
  no_other "role" "assignee" (group "kit" k.name "holder") (distinct [] req.roles) refl,
)

subject_match-plan :
    (req : Request) (a : String)
    → (a == "") ≡ false
    → subject_match req (group "plan" a "subscriber") ≡ (a == req.plan)
unfolding group_match
subject_match-plan req a h = ground (
  arith,
  h,
  same_named "plan" a req.plan,
  eq_iff a req.plan,
  no_other "role" "assignee" (group "plan" a "subscriber") (distinct [] req.roles) refl,
  no_other "kit" "holder" (group "plan" a "subscriber") (distinct [] req.kits) refl,
)

subject_match-company :
    (req : Request) (a : String)
    → (a == "") ≡ false
    → subject_match req (group "company" a "member") ≡ (a == req.company_id)
unfolding group_match
subject_match-company req a h = ground (
  arith,
  h,
  same_named "company" a req.company_id,
  eq_iff a req.company_id,
  no_other "role" "assignee" (group "company" a "member") (distinct [] req.roles) refl,
  no_other "kit" "holder" (group "company" a "member") (distinct [] req.kits) refl,
)

pub subject_match-concerns :
    (req : Request) (g : Rule) → subject_match req (rule_subject g) ≡ concerns g req
unfolding rule_subject concerns
subject_match-concerns req g = elim (Bool-cases (g.user == "")) [
  | inr user ↦ rw user (subject_match-user req g.user)
  | inl no_user ↦ elim (Bool-cases (g.role == "")) [
    | inr role ↦ rw (no_user, role) (subject_match-role req g.role role)
    | inl no_role ↦ elim (Bool-cases (g.plan == "")) [
      | inr plan ↦ rw (no_user, no_role, plan) (subject_match-plan req g.plan plan)
      | inl no_plan ↦ elim (Bool-cases (g.company == "")) [
        | inr company ↦
            rw (no_user, no_role, no_plan, company) (subject_match-company req g.company company)
        | inl no_company ↦ rw (no_user, no_role, no_plan, no_company) (ground arith)
      ]
    ]
  ]
]
