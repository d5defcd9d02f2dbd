-- ===== src/Gate/Policies/Laws.antt =====
-- internal/gate/gate.go: which policies run, which are skipped, and which decide.
use mathlib.Core.List.{append-nil, append_assoc}
use mathlib.Core.Bool.{false≢true}
use tool_mesh.Prelude.{
  subst, ℕ, String, true, false, List, [], ◌∷◌, ◌++◌, Result, ok, err, ◌≡◌, refl, ap, sym, ◌∙◌,
  Bool-cases, inl, inr, ◌⊎◌, filter, map,
}
use tool_mesh.Base.{post, PolicyModification}
use tool_mesh.Gate.{GateContext, EvalResult}
use tool_mesh.Gate.Limiter.{RateLimiter}
use tool_mesh.Gate.Policies.{
  Policy, Engine, Shared, shared_of, with_shared, eval_policy, skips, run_policies,
}
use tool_mesh.Gate.Policies.Effects.{
  finish-untouched, finish-frame, finish-err, SameFrame, SameFrame-refl, SameFrame-trans,
  append-eq-nil,
}

abbrev pub Reply : Type 0
Reply = Result String (List PolicyModification) × Shared

pub Reply-cases :
    (r : Reply)
    → ((m : List PolicyModification) × (s : Shared) × (r ≡ (ok m, s)))
      ⊎ ((e : String) × (s : Shared) × (r ≡ (err e, s)))
Reply-cases (ok m, s) = inl (m, s, refl)
Reply-cases (err e, s) = inr (e, s, refl)

module _ (engine : Engine) (rl : RateLimiter) (now : ℕ) where
  pub run-skip :
      (p : Policy) (ps : List Policy) (mods : List PolicyModification) (skipped : List String)
      (ctx : GateContext)
      → skips ctx p ≡ true
      → run_policies engine rl now (p ∷ ps) mods skipped ctx
        ≡ run_policies engine rl now ps mods (skipped ++ p.name ∷ []) ctx
  unfolding run_policies
  run-skip p ps mods skipped ctx h = rw (h, run_policies)

  pub run-pass :
      (p : Policy) (ps : List Policy) (mods more : List PolicyModification) (skipped : List String)
      (ctx : GateContext) (s : Shared)
      → skips ctx p ≡ false
      → eval_policy engine rl now p ctx ≡ (ok more, s)
      → run_policies engine rl now (p ∷ ps) mods skipped ctx
        ≡ run_policies engine rl now ps (mods ++ more) skipped (with_shared ctx s)
  unfolding run_policies
  run-pass p ps mods more skipped ctx s h e =
      rw (h, run_policies, ap (λ (r : Reply). r.0) e)
        (ap (λ x. run_policies engine rl now ps (mods ++ more) skipped (with_shared ctx x))
          (ap (λ (r : Reply). r.1) e))

  pub run-refuse :
      (p : Policy) (ps : List Policy) (mods : List PolicyModification) (skipped : List String)
      (ctx : GateContext) (e : String) (s : Shared)
      → skips ctx p ≡ false
      → eval_policy engine rl now p ctx ≡ (err e, s)
      → ((run_policies engine rl now (p ∷ ps) mods skipped ctx).0.allowed ≡ false)
        × ((run_policies engine rl now (p ∷ ps) mods skipped ctx).0.policy ≡ p.name)
        × ((run_policies engine rl now (p ∷ ps) mods skipped ctx).1 ≡ s)
  unfolding run_policies
  run-refuse p ps mods skipped ctx e s h k =
      rw (h, run_policies, ap (λ (r : Reply). r.0) k) (refl, refl, ap (λ (r : Reply). r.1) k)

  -- What one run reports and leaves, by induction over the policies.
  pub record Summary (ps : List Policy) (mods : List PolicyModification) (skipped : List String)
      (ctx : GateContext) (out : EvalResult × Shared) : Type 0 where
    pub names :
        out.0.allowed ≡ true → out.0.skipped ≡ skipped ++ map (λ p. p.name) (filter (skips ctx) ps)
    pub untouched :
        out.0.allowed ≡ true → out.0.modifications ≡ [] → (mods ≡ []) × (out.1 ≡ shared_of ctx)
    pub frame : SameFrame ctx.response out.1.response
    pub late : ctx.phase ≡ post → out.1.params ≡ ctx.params

  Summary-skip :
      (p : Policy) (ps : List Policy) (mods : List PolicyModification) (skipped : List String)
      (ctx : GateContext) (out : EvalResult × Shared)
      → skips ctx p ≡ true
      → Summary ps mods (skipped ++ p.name ∷ []) ctx out
      → Summary (p ∷ ps) mods skipped ctx out
  Summary-skip p ps mods skipped ctx out skip v = record {
    names = λ h. rw skip (v.names h ∙ append_assoc skipped (p.name ∷ []) _);
    untouched = v.untouched;
    frame = v.frame;
    late = v.late;
  }

  Summary-pass :
      (p : Policy) (ps : List Policy) (mods more : List PolicyModification) (skipped : List String)
      (ctx : GateContext) (s : Shared) (out : EvalResult × Shared)
      → skips ctx p ≡ false
      → eval_policy engine rl now p ctx ≡ (ok more, s)
      → Summary ps (mods ++ more) skipped (with_shared ctx s) out
      → Summary (p ∷ ps) mods skipped ctx out
  unfolding eval_policy skips
  Summary-pass p ps mods more skipped ctx s out runs e v = record {
    names = λ h. rw runs (v.names h);
    untouched = λ h k.
        let (none_yet, same) = v.untouched h k in
        let (no_mods, no_more) = append-eq-nil mods more none_yet in
        (
          no_mods,
          same
              ∙ finish-untouched p ctx _ s
                  (e ∙ ap (λ (m : List PolicyModification). ans m) no_more),
        );
    frame =
        SameFrame-trans ctx.response s.response out.1.response
          (subst (λ (r : Reply). SameFrame ctx.response r.1.response) e (finish-frame p ctx _).0)
          v.frame;
    late = λ h.
        v.late h ∙ subst (λ (r : Reply). r.1.params ≡ ctx.params) e ((finish-frame p ctx _).1 h);
  }
    where
      ans : List PolicyModification → Reply
      ans m = (ok m, s)

  Summary-refuse :
      (p : Policy) (ps : List Policy) (mods : List PolicyModification) (skipped : List String)
      (ctx : GateContext) (e : String) (s : Shared) (out : EvalResult × Shared)
      → eval_policy engine rl now p ctx ≡ (err e, s)
      → out.0.allowed ≡ false
      → out.1 ≡ s
      → Summary (p ∷ ps) mods skipped ctx out
  unfolding eval_policy
  Summary-refuse p ps mods skipped ctx e s out k refused left =
      let same : out.1 ≡ shared_of ctx = left ∙ finish-err p ctx _ e s k in
      record {
        names = λ h. absurd (false≢true (sym refused ∙ h));
        untouched = λ h. absurd (false≢true (sym refused ∙ h));
        frame =
            subst (λ (x : Shared). SameFrame ctx.response x.response) (sym same)
              (SameFrame-refl ctx.response);
        late = λ h. ap (λ (x : Shared). x.params) same;
      }

  pub run-Summary :
      (ps : List Policy) (mods : List PolicyModification) (skipped : List String)
      (ctx : GateContext)
      → Summary ps mods skipped ctx (run_policies engine rl now ps mods skipped ctx)
  unfolding run_policies
  run-Summary [] mods skipped ctx = record {
    names = λ h. sym (append-nil skipped);
    untouched = λ h k. (k, refl);
    frame = SameFrame-refl ctx.response;
    late = λ h. refl;
  }
  run-Summary (p ∷ ps) mods skipped ctx = elim (Bool-cases (skips ctx p)) [
    | inl skip ↦
        subst (Summary (p ∷ ps) mods skipped ctx) (sym (run-skip p ps mods skipped ctx skip)) (
          Summary-skip p ps mods skipped ctx _ skip
            (run-Summary ps mods (skipped ++ p.name ∷ []) ctx))
    | inr runs ↦ elim (Reply-cases (eval_policy engine rl now p ctx)) [
      | inl (more, s, e) ↦
          subst (Summary (p ∷ ps) mods skipped ctx)
            (sym (run-pass p ps mods more skipped ctx s runs e))
            (Summary-pass p ps mods more skipped ctx s _ runs e
              (run-Summary ps (mods ++ more) skipped (with_shared ctx s)))
      | inr (e, s, k) ↦
          let (refused, _, left) = run-refuse p ps mods skipped ctx e s runs k in
          Summary-refuse p ps mods skipped ctx e s _ k refused left
    ]
  ]
