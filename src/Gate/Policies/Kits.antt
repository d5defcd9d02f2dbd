-- ===== src/Gate/Policies/Kits.antt =====
-- internal/gate/gate.go: what a kit that covers the call does to the gate, and what a run changes.
use mathlib.Core.List.{Memᴰ}
use tool_mesh.Prelude.{
  ℕ, String, true, false, not, List, [], ◌∷◌, ◌++◌, err, ◌≡◌, refl, arith, ap, ◌∙◌, Bool-cases, inl,
  inr, filter, map, subst, all,
}
use tool_mesh.Base.{pre, post, PolicyModification}
use tool_mesh.Gate.{GateContext}
use tool_mesh.Gate.Limiter.{RateLimiter, check}
use tool_mesh.Gate.Policies.{
  Policy, throws, Engine, Shared, shared_of, with_shared, eval_policy, skips, run_policies,
  evaluate, recorded,
}
use tool_mesh.Gate.Policies.Effects.{SameFrame}
use tool_mesh.Gate.Policies.Laws.{Reply-cases, run-skip, run-pass, run-refuse, run-Summary}

skips-enforced : (ctx : GateContext) (p : Policy) → p.enforce_with_kit ≡ true → skips ctx p ≡ false
unfolding skips
skips-enforced ctx p h = ground arith

module _ (engine : Engine) (rl : RateLimiter) (now : ℕ) (ctx : GateContext) where
  -- The script of `p` throws in this call, whatever other policies wrote before.
  abbrev pub Refuses : Policy → Type 0
  Refuses p =
      (s : Shared)
      → (e : String) × (engine p.source (λ limit. (check rl now ctx.user.user_id limit).0)
            (with_shared ctx s)
          ≡ throws e)

  eval_refused :
      (p : Policy) (s : Shared)
      → Refuses p
      → (e : String) × (eval_policy engine rl now p (with_shared ctx s) ≡ (err e, s))
  unfolding eval_policy
  eval_refused p s refuses = let (e, h) = refuses s in (e, rw h)

  run_refused :
      (p : Policy) (ps : List Policy) (mods : List PolicyModification) (skipped : List String)
      (s : Shared)
      → Memᴰ p ps
      → p.enforce_with_kit ≡ true
      → Refuses p
      → (run_policies engine rl now ps mods skipped (with_shared ctx s)).0.allowed ≡ false
  run_refused p [] mods skipped s m enforced refuses = elim m [ ]
  run_refused p (q ∷ ps) mods skipped s (Memᴰ.head same) enforced refuses =
      let (e, h) = eval_refused q s (subst Refuses same refuses) in
      (run-refuse engine rl now q ps mods skipped (with_shared ctx s) e s
        (skips-enforced (with_shared ctx s) q
          (subst (λ (r : Policy). r.enforce_with_kit ≡ true) same enforced))
        h).0
  run_refused p (q ∷ ps) mods skipped s (Memᴰ.tail m) enforced refuses =
      elim (Bool-cases (skips (with_shared ctx s) q)) [
        | inl skip ↦
            rw (run-skip engine rl now q ps mods skipped (with_shared ctx s) skip)
              (run_refused p ps mods (skipped ++ q.name ∷ []) s m enforced refuses)
        | inr runs ↦ elim (Reply-cases (eval_policy engine rl now q (with_shared ctx s))) [
          | inl (more, s', e) ↦
              rw (run-pass engine rl now q ps mods more skipped (with_shared ctx s) s' runs e)
                (run_refused p ps (mods ++ more) skipped s' m enforced refuses)
          | inr (e, s', k) ↦
              (run-refuse engine rl now q ps mods skipped (with_shared ctx s) e s' runs k).0
        ]
      ]

none_late : (ctx : GateContext) (ps : List Policy) → ctx.phase ≡ post → filter (skips ctx) ps ≡ []
unfolding skips
none_late ctx [] late = refl
none_late ctx (p ∷ ps) late = ground (arith, none_late ctx ps late)

run_all_skipped :
    (engine : Engine) (rl : RateLimiter) (now : ℕ) (ctx : GateContext) (ps : List Policy)
    (mods : List PolicyModification) (skipped : List String)
    → all (skips ctx) ps ≡ true
    → ((run_policies engine rl now ps mods skipped ctx).0.allowed ≡ true)
      × ((run_policies engine rl now ps mods skipped ctx).0.modifications ≡ mods)
      × ((run_policies engine rl now ps mods skipped ctx).1 ≡ shared_of ctx)
unfolding run_policies
run_all_skipped engine rl now ctx [] mods skipped h = (refl, refl, refl)
run_all_skipped engine rl now ctx (p ∷ ps) mods skipped h =
    rw (run-skip engine rl now p ps mods skipped ctx (ground arith))
      (run_all_skipped engine rl now ctx ps mods (skipped ++ p.name ∷ []) (ground arith))

all_yield :
    (ctx : GateContext) (ps : List Policy)
    → ctx.kit_covered ≡ true
    → ctx.phase ≡ pre
    → all (λ p. not p.enforce_with_kit) ps ≡ true
    → all (skips ctx) ps ≡ true
unfolding skips
all_yield ctx [] covered early h = refl
all_yield ctx (p ∷ ps) covered early h = ground (arith, all_yield ctx ps covered early)

module _ (engine : Engine) (rl : RateLimiter) (now : ℕ) (ctx : GateContext) where
  -- Before a call that a kit covers, policies none of which declares enforce-with-kit allow the
  -- call, report no modification and change nothing, whatever their scripts would do.
  pub kit_replaces_gate :
      (policies : List Policy)
      → ctx.kit_covered ≡ true
      → ctx.phase ≡ pre
      → all (λ p. not p.enforce_with_kit) policies ≡ true
      → ((evaluate engine policies rl now ctx).0.allowed ≡ true)
        × ((evaluate engine policies rl now ctx).0.modifications ≡ [])
        × ((evaluate engine policies rl now ctx).2 ≡ shared_of ctx)
  unfolding evaluate
  kit_replaces_gate policies covered early yields =
      run_all_skipped engine (recorded rl now ctx) now ctx policies [] []
        (all_yield ctx policies covered early yields)

  -- A policy that declares enforce-with-kit and whose script throws in this call stops the call,
  -- whatever kits the caller holds, wherever the policy stands and whatever the others wrote.
  pub enforced_policy_stops :
      (policies : List Policy) (p : Policy)
      → Memᴰ p policies
      → p.enforce_with_kit ≡ true
      → Refuses engine (recorded rl now ctx) now ctx p
      → (evaluate engine policies rl now ctx).0.allowed ≡ false
  unfolding evaluate
  enforced_policy_stops policies p m enforced refuses =
      run_refused engine (recorded rl now ctx) now ctx p policies [] [] (shared_of ctx) m enforced
        refuses

  -- After the call, an evaluation that allows the result skips no policy, whatever kits the caller
  -- holds, and leaves the parameters as they are, and of the response the error flag and the
  -- metadata.
  pub evaluate-post :
      (policies : List Policy)
      → (evaluate engine policies rl now ctx).0.allowed ≡ true
      → ctx.phase ≡ post
      → ((evaluate engine policies rl now ctx).0.skipped ≡ [])
        × ((evaluate engine policies rl now ctx).2.params ≡ ctx.params)
        × SameFrame ctx.response (evaluate engine policies rl now ctx).2.response
  unfolding evaluate
  evaluate-post policies h late =
      let v = run-Summary engine (recorded rl now ctx) now policies [] [] ctx in
      (v.names h ∙ ap (map (λ p. p.name)) (none_late ctx policies late), v.late late, v.frame)

  -- Whatever the policies do, and also when one refuses, the response keeps its error flag and its
  -- metadata: only its content may change.
  pub evaluate-frame :
      (policies : List Policy)
      → SameFrame ctx.response (evaluate engine policies rl now ctx).2.response
  unfolding evaluate
  evaluate-frame policies = (run-Summary engine (recorded rl now ctx) now policies [] [] ctx).frame
