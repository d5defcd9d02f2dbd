-- ===== src/Gate/Policies/Effects.antt =====
-- internal/gate/gate.go: what a policy may change, and what the modifications say of it.
use tool_mesh.Prelude.{
  String, Option, none, some, List, [], ◌∷◌, ◌++◌, Result, ok, err, if◌then◌else◌, ◌≡◌, refl, arith,
  ap, sym, ◌∙◌, Bool-cases, inl, inr,
}
use tool_mesh.Base.{
  Params, ToolResult, Phase, post, Target, response_content, params, Snapshot, items,
  PolicyModification, snapshot_eq_sound,
}
use tool_mesh.Gate.{GateContext}
use tool_mesh.Gate.Policies.{
  Policy, Js, throws, returns, Shared, shared_of, finish, params_snapshot, content_snapshot,
  write_params, write_content, difference, is_pre,
}

difference-nil :
    (name : String) (phase : Phase) (target : Target) (before after : Snapshot)
    → difference name phase target before after ≡ []
    → before ≡ after
difference-nil name phase target before after h = ground (arith, snapshot_eq_sound before after)

pub append-eq-nil {ℓ} : {A : Type ℓ} (xs ys : List A) → xs ++ ys ≡ [] → (xs ≡ []) × (ys ≡ [])
append-eq-nil [] ys h = (refl, h)
append-eq-nil (x ∷ xs) ys h = cc

write_params_self : (live : Params) → write_params live (params_snapshot live) ≡ live
write_params_self none = refl
write_params_self (some m) = refl

write_content_self : (live : Option ToolResult) → write_content live (content_snapshot live) ≡ live
write_content_self none = refl
write_content_self (some r) = refl

params_mods : Policy → GateContext → Snapshot → List PolicyModification
params_mods p ctx ps =
    if is_pre ctx.phase
    then difference p.name ctx.phase params (params_snapshot ctx.params) ps
    else []

params_after : GateContext → Snapshot → Params
params_after ctx ps = if is_pre ctx.phase then write_params ctx.params ps else ctx.params

params-untouched :
    (p : Policy) (ctx : GateContext) (ps : Snapshot)
    → params_mods p ctx ps ≡ []
    → params_after ctx ps ≡ ctx.params
unfolding params_mods params_after
params-untouched p ctx ps h = elim (Bool-cases (is_pre ctx.phase)) [
  | inl before ↦ rw before (
      ap (write_params ctx.params) (
        sym (difference-nil p.name ctx.phase params (params_snapshot ctx.params) ps (ground arith)))
      ∙ write_params_self ctx.params)
  | inr after ↦ rw after
]

content-untouched :
    (p : Policy) (ctx : GateContext) (cs : Snapshot)
    → difference p.name ctx.phase response_content (content_snapshot ctx.response) cs ≡ []
    → write_content ctx.response cs ≡ ctx.response
content-untouched p ctx cs h =
    ap (write_content ctx.response)
      (sym (difference-nil p.name ctx.phase response_content (content_snapshot ctx.response) cs h))
    ∙ write_content_self ctx.response

ok-inj :
    {m n : List PolicyModification} {s t : Shared}
    → ◌≡◌ {A = Result String (List PolicyModification) × Shared} (ok m, s) (ok n, t)
    → (m ≡ n) × (s ≡ t)
ok-inj h = ground arith

-- A policy that ran and reports no modification wrote nothing.
pub finish-untouched :
    (p : Policy) (ctx : GateContext) (js : Js) (s : Shared)
    → finish p ctx js ≡ (ok [], s)
    → s ≡ shared_of ctx
unfolding finish params_mods params_after
finish-untouched p ctx (throws e) s h = ground arith
finish-untouched p ctx (returns ps cs) s h =
    let (mods, same) = ok-inj h in
    let (no_params, no_content) = append-eq-nil (params_mods p ctx ps) _ mods in
    sym same ∙ λ i. record {
      params = params-untouched p ctx ps no_params i;
      response = content-untouched p ctx cs no_content i;
    }

-- The flags and the metadata of a response are never touched, and parameters only before the call.
abbrev pub SameFrame : Option ToolResult → Option ToolResult → Type 0
SameFrame none none = Unit
SameFrame (some r) (some r') = (r'.is_error ≡ r.is_error) × (r'.metadata ≡ r.metadata)
SameFrame _ _ = ⊥

pub SameFrame-refl : (r : Option ToolResult) → SameFrame r r
SameFrame-refl none = tt
SameFrame-refl (some r) = (refl, refl)

pub SameFrame-trans : (r s t : Option ToolResult) → SameFrame r s → SameFrame s t → SameFrame r t
SameFrame-trans none none none h k = tt
SameFrame-trans (some r) (some s) (some t) h k = (k.0 ∙ h.0, k.1 ∙ h.1)
SameFrame-trans none none (some t) h k = k
SameFrame-trans none (some s) t h k = absurd h
SameFrame-trans (some r) none t h k = absurd h
SameFrame-trans (some r) (some s) none h k = absurd k

write_content-SameFrame : (r : Option ToolResult) (cs : Snapshot) → SameFrame r (write_content r cs)
write_content-SameFrame none cs = tt
write_content-SameFrame (some r) (items vs) = (refl, refl)
write_content-SameFrame (some r) _ = (refl, refl)

pub finish-frame :
    (p : Policy) (ctx : GateContext) (js : Js)
    → SameFrame ctx.response (finish p ctx js).1.response
      × (ctx.phase ≡ post → (finish p ctx js).1.params ≡ ctx.params)
unfolding finish
finish-frame p ctx (throws e) = (SameFrame-refl ctx.response, λ h. refl)
finish-frame p ctx (returns ps cs) = (write_content-SameFrame ctx.response cs, λ h. rw h)

-- A policy that throws writes nothing.
pub finish-err :
    (p : Policy) (ctx : GateContext) (js : Js) (e : String) (s : Shared)
    → finish p ctx js ≡ (err e, s)
    → s ≡ shared_of ctx
unfolding finish
finish-err p ctx (throws e') e s h = ground arith
finish-err p ctx (returns ps cs) e s h =
    cc (ap (λ (r : Result String (List PolicyModification) × Shared). r.0) h)
