-- ===== src/Authz/Embedded/Applied.antt =====
-- internal/authz/embedded.go: what a check answers while rules are applied, and after.
use tool_mesh.Prelude.{
  Bool, true, List, ◌++◌, ok, any-In, ◌≡◌, inl, inr, refl, sym, ap, ◌∙◌, Bool-cases, subst,
}
use mathlib.Core.Bool.{false≢true}
use tool_mesh.Authz.Request.{Request}
use tool_mesh.Authz.Tuples.{Object, Subject, TupleKey, just}
use tool_mesh.Authz.Model.{can_execute}
use tool_mesh.Authz.Model.Monotone.{NoContext, is_contextual}
use tool_mesh.Authz.Embedded.{Engine, Embedded, context_tuples}
use tool_mesh.Authz.Embedded.Apply.{Server, Run, change, sort_kits}
use tool_mesh.Authz.Embedded.Apply.Safe.{RefusesNoRule, Safe, cleared-Going, change-cleared}
use tool_mesh.Authz.Rules.{Rules, desired, allows}
use tool_mesh.Authz.Rules.Caller.{desired-none, user_of, tool_of}

pub desired-NoContext : (r : Rules) → NoContext (desired r)
desired-NoContext r t i = elim (Bool-cases (is_contextual t.relation)) [
  | inl contextual ↦ absurd (
      false≢true (
        sym (desired-none (λ x. is_contextual x.relation) r (λ u o. refl) (λ u o. refl))
        ∙ (any-In (λ (x : TupleKey). is_contextual x.relation) (desired r)).1 (t, i, contextual)))
  | inr other ↦ other
]

-- What an apply that finishes leaves.
pub stored-NoContext :
    (srv : Server) (old : List TupleKey) (r : Rules)
    → RefusesNoRule srv
    → NoContext old
    → (change srv old (desired r)).finished ≡ true
    → NoContext (change srv old (desired r)).stored
stored-NoContext srv old r refuses known done =
    let new = desired r in
    let c = change-cleared srv old new in
    let fin = sym (ap (λ (x : Run). x.finished) c) ∙ done in
    let stage = ((cleared-Going srv old new refuses).0 fin).0 in
    subst (λ (x : Run). NoContext x.stored) (sym c)
      λ t j. elim (stage.source t j) [
        | inl was ↦ known t was
        | inr wanted ↦ desired-NoContext r t wanted
      ]

-- The engine decides as the model does.
abbrev pub Evaluates : Engine → Type 0
Evaluates engine =
    (tuples : List TupleKey) (u : Subject) (tool : Object)
    → engine tuples u tool ≡ ok (can_execute tuples u tool)

-- The engine holds these rules: its checks are decided as on their tuples.
pub record InSync (e : Embedded) (r : Rules) : Type 0 where
  pub kits : e.kits ≡ r.kits
  pub decides :
      (req : Request)
      → can_execute (e.stored ++ context_tuples e.kits req) (just (user_of req)) (tool_of req)
        ≡ allows r req

abbrev pub Sorted : Rules → Rules
Sorted r = record r { kits = sort_kits r.kits }
