-- ===== src/Authz/Embedded/InSync.antt =====
-- internal/authz/embedded.go: after an apply, checks answer what the new rules say.
use tool_mesh.Prelude.{
  Bool, true, false, ◌||◌, none, List, [], ◌∷◌, ◌++◌, Result, ok, err, ◌==◌, if◌then◌else◌, ltb,
  length, any, any-append, ◌≡◌, refl, ap, ◌∙◌, arith, ◌≤◌,
}
use tool_mesh.Authz.Kit.{Kit}
use tool_mesh.Authz.Kit.Laws.{Bool-iff}
use tool_mesh.Authz.Request.{Request, Answer, allowed, denied}
use tool_mesh.Authz.Tuples.{TupleKey, just, kit_tuples}
use tool_mesh.Authz.Model.{can_execute}
use tool_mesh.Authz.Model.Monotone.{NoContext, can_execute_mono}
use tool_mesh.Authz.Embedded.{
  Engine, Embedded, context_tuples, check, max_contextual_tuples, as_answer,
}
use tool_mesh.Authz.Embedded.Apply.{
  Server, ApplyError, apply, apply_if, apply_checked, ended, check_all, change, insert_kit,
  sort_kits,
}
use tool_mesh.Authz.Embedded.Apply.Safe.{RefusesNoRule}
use tool_mesh.Authz.Embedded.Apply.Done.{change-exact}
use tool_mesh.Authz.Embedded.Applied.{
  desired-NoContext, Evaluates, InSync, Sorted, stored-NoContext,
}
use tool_mesh.Authz.Rules.{Rules, desired, allows}
use tool_mesh.Authz.Rules.Caller.{Split, any-desired, any-concat_map, user_of, tool_of}
use tool_mesh.Authz.Rules.Decides.{can_execute-allows}

any-insert_kit :
    (p : Kit → Bool) (k : Kit) (ks : List Kit) → any p (insert_kit k ks) ≡ (p k || any p ks)
unfolding insert_kit
any-insert_kit p k [] = refl
any-insert_kit p k (x ∷ ks) = ground (arith, any-insert_kit p k ks)

any-sort_kits : (p : Kit → Bool) (ks : List Kit) → any p (sort_kits ks) ≡ any p ks
unfolding sort_kits
any-sort_kits p [] = refl
any-sort_kits p (k ∷ ks) = ground (arith, any-insert_kit p k (sort_kits ks), any-sort_kits p ks)

-- The order of the kits does not matter.
pub any-Sorted : (p : TupleKey → Bool) (r : Rules) → any p (desired r) ≡ any p (desired (Sorted r))
any-Sorted p r = ground (
  arith,
  any-desired p r,
  any-desired p (Sorted r),
  any-concat_map p kit_tuples r.kits,
  any-concat_map p kit_tuples (sort_kits r.kits),
  any-sort_kits (λ k. any p (kit_tuples k)) r.kits,
)

desired-Split :
    (r : Rules) (context : List TupleKey)
    → Split (desired r ++ context) (desired (Sorted r)) context
desired-Split r context p =
    any-append p (desired r) context ∙ ap (λ b. b || any p context) (any-Sorted p r)

ended-InSync :
    (srv : Server) (e : Embedded) (r : Rules) (fin : Bool)
    → RefusesNoRule srv
    → NoContext e.stored
    → (change srv e.stored (desired r)).finished ≡ fin
    → (ended (change srv e.stored (desired r)) e r fin).0 ≡ none
    → InSync (ended (change srv e.stored (desired r)) e r fin).1 (Sorted r)
ended-InSync srv e r false refuses known fin success = cc success
ended-InSync srv e r true refuses known fin success = record {
  kits = refl;
  decides = λ req.
      let stored = (change srv e.stored (desired r)).stored in
      let context = context_tuples (sort_kits r.kits) req in
      let (down, up) = change-exact srv e.stored (desired r) refuses fin in
      let known_s = stored-NoContext srv e.stored r refuses known fin in
      let known_d = desired-NoContext r in
      Bool-iff
        (can_execute_mono context stored (desired r) known_s known_d down (just (user_of req))
          (tool_of req))
        (can_execute_mono context (desired r) stored known_d known_s up (just (user_of req))
          (tool_of req))
      ∙ can_execute-allows (desired r ++ context) (Sorted r) req (desired-Split r context);
}

apply_if-InSync :
    (checked : Result ApplyError (Unit {0})) (srv : Server) (e : Embedded) (r : Rules)
    → RefusesNoRule srv
    → NoContext e.stored
    → (apply_if checked srv e r).0 ≡ none
    → InSync (apply_if checked srv e r).1 (Sorted r)
unfolding apply_checked
apply_if-InSync (err x) srv e r refuses known success = cc success
apply_if-InSync (ok u) srv e r refuses known success =
    ended-InSync srv e r (change srv e.stored (desired r)).finished refuses known refl success

-- An apply without an error leaves the engine in step with the new rules.
pub apply-InSync :
    (srv : Server) (e : Embedded) (r : Rules)
    → RefusesNoRule srv
    → NoContext e.stored
    → (apply srv e r).0 ≡ none
    → InSync (apply srv e r).1 (Sorted r)
unfolding apply
apply-InSync srv e r = apply_if-InSync (check_all r) srv e r

abbrev pub decided : Bool → Answer
decided b = if b then allowed else denied

as_answer-decided : (b : Bool) → as_answer (ok b) ≡ decided b
as_answer-decided true = refl
as_answer-decided false = refl

pub check-decided :
    (engine : Engine) (e : Embedded) (r : Rules) (req : Request)
    → Evaluates engine
    → InSync e r
    → (req.user_id == "") ≡ false
    → (req.tool == "") ≡ false
    → length (context_tuples e.kits req) ≤ max_contextual_tuples
    → check engine e req ≡ decided (allows r req)
unfolding check
check-decided engine e r req evaluates sync user tool few =
    let context = context_tuples e.kits req in
    let small : ltb max_contextual_tuples (length context) ≡ false = ground (arith, few) in
    rw (user, tool, small)
      (ap as_answer (evaluates (e.stored ++ context) (just (user_of req)) (tool_of req))
        ∙ as_answer-decided (can_execute (e.stored ++ context) (just (user_of req)) (tool_of req))
        ∙ ap decided (sync.decides req))
