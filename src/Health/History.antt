-- ===== src/Health/History.antt =====
-- internal/health/monitor.go: what is kept of a backend as a function of the results that came in.
use tool_mesh.Prelude.{
  ℕ, suc, String, Bool, true, false, ◌&&◌, Option, none, some, List, [], ◌∷◌, ◌==◌, eq_iff,
  if◌then◌else◌, eqb, is_some, ◌≡◌, refl, sym, ap, ◌∙◌, Bool-cases, Option-cases, inl, inr,
}
use tool_mesh.Prelude.Dict.{
  lookup, keep, IsMap, lookup-insert, insert-IsMap, lookup-keep, lookup-keep-none, keep-IsMap,
}
use tool_mesh.Health.{
  HealthResult, Policy, State, Monitor, new_monitor, policies_of, replace, observed, observe,
}

-- A new set of targets, or the result of a check, of whatever cause.
pub data Step : Type 0 where
  watch : List (String × Policy) → Step
  result : String → HealthResult → Step

-- The last step first.
unfoldable pub run : List Step → Monitor
unfolding replace observe
run [] = new_monitor
run (watch targets ∷ steps) = replace targets (run steps)
run (result name r ∷ steps) = observe name r (run steps)

unfoldable pub watched : List Step → String → Option Policy
unfolding lookup policies_of
watched [] name = none
watched (watch targets ∷ steps) name = lookup name (policies_of [] targets)
watched (result n r ∷ steps) name = watched steps name

-- The results of a backend since it is watched without a break, the last first.
unfoldable pub history : List Step → String → List HealthResult
unfolding watched lookup policies_of
history [] name = []
history (watch targets ∷ steps) name =
    if is_some (lookup name (policies_of [] targets)) then history steps name else []
history (result n r ∷ steps) name =
    let before = history steps name in
    if n == name && is_some (watched steps name) then r ∷ before else before

-- How many checks have failed since the last that passed.
unfoldable pub streak : List HealthResult → ℕ
streak [] = 0
streak (r ∷ rs) = let before = streak rs in if r.passed then 0 else suc before

-- When the first of these was made.
unfoldable pub since : List HealthResult → Option ℕ
unfolding streak
since [] = none
since (r ∷ rs) =
    let before = since rs in
    if r.passed then none else if eqb (streak rs) 0 then some r.checked_at else before

unfoldable pub state_of : List HealthResult → Option State
unfolding streak since
state_of [] = none
state_of (r ∷ rs) =
    some (record { last = r; failures = streak (r ∷ rs); failing_since = since (r ∷ rs) })

if_and : {A : Type 0} (b : Bool) (x y : A) → (if b then x else y) ≡ (if b && true then x else y)
if_and true x y = refl
if_and false x y = refl

if_none : {A : Type 0} (b : Bool) (x y : A) → y ≡ (if b && false then x else y)
if_none true x y = refl
if_none false x y = refl

if_same : {A : Type 0} (b : Bool) (o : Option A) → o ≡ none → (if b then o else none) ≡ none
if_same true o h = h
if_same false o h = refl

observed-state_of :
    (r : HealthResult) (rs : List HealthResult)
    → some (observed r (state_of rs)) ≡ state_of (r ∷ rs)
unfolding state_of streak since
observed-state_of r [] = elim (Bool-cases r.passed) [
  | inl ok_ ↦ rw ok_ refl
  | inr bad ↦ rw bad refl
]
observed-state_of r (q ∷ rs) = elim (Bool-cases r.passed) [
  | inl ok_ ↦ rw ok_ refl
  | inr bad ↦ rw bad refl
]

observe-policies :
    (n : String) (r : HealthResult) (m : Monitor) → (observe n r m).policies ≡ m.policies
unfolding observe
observe-policies n r m = elim (Bool-cases (is_some (lookup n m.policies))) [
  | inl there ↦ rw there refl
  | inr gone ↦ rw gone refl
]

pub policies-watched :
    (steps : List Step) (name : String) → lookup name (run steps).policies ≡ watched steps name
unfolding run watched lookup replace
policies-watched [] name = refl
policies-watched (watch targets ∷ steps) name = refl
policies-watched (result n r ∷ steps) name =
    ap (lookup name) (observe-policies n r (run steps)) ∙ policies-watched steps name

observe-IsMap :
    (n : String) (r : HealthResult) (m : Monitor) → IsMap m.states → IsMap (observe n r m).states
unfolding observe
observe-IsMap n r m h = elim (Bool-cases (is_some (lookup n m.policies))) [
  | inl there ↦ rw there (insert-IsMap n (observed r (lookup n m.states)) m.states h)
  | inr gone ↦ rw gone h
]

pub run-IsMap : (steps : List Step) → IsMap (run steps).states
unfolding run replace
run-IsMap [] = tt
run-IsMap (watch targets ∷ steps) = keep-IsMap _ (run steps).states (run-IsMap steps)
run-IsMap (result n r ∷ steps) = observe-IsMap n r (run steps) (run-IsMap steps)

lookup-observe :
    (n : String) (r : HealthResult) (m : Monitor) (name : String)
    → lookup name (observe n r m).states ≡ (
        if n == name && is_some (lookup n m.policies)
        then some (observed r (lookup n m.states))
        else lookup name m.states)
unfolding observe
lookup-observe n r m name = elim (Bool-cases (is_some (lookup n m.policies))) [
  | inl there ↦ rw there (
      lookup-insert n name (observed r (lookup n m.states)) m.states
      ∙ if_and (n == name) (some (observed r (lookup n m.states))) (lookup name m.states))
  | inr gone ↦
      rw gone (if_none (n == name) (some (observed r (lookup n m.states))) (lookup name m.states))
]

lookup-kept :
    (ps : List (String × Policy)) (states : List (String × State)) (name : String)
    → IsMap states
    → lookup name (keep (λ n st. is_some (lookup n ps)) states)
      ≡ (if is_some (lookup name ps) then lookup name states else none)
lookup-kept ps states name h = elim (Option-cases (lookup name states)) [
  | inl gone ↦
      lookup-keep-none (λ n st. is_some (lookup n ps)) name states gone
      ∙ sym (if_same (is_some (lookup name ps)) (lookup name states) gone)
  | inr (st, there) ↦
      lookup-keep (λ n st. is_some (lookup n ps)) name st states h there
      ∙ ap (λ o. if is_some (lookup name ps) then o else none) (sym there)
]

state_of_if :
    (b : Bool) (rs : List HealthResult)
    → (if b then state_of rs else none) ≡ state_of (if b then rs else [])
unfolding state_of
state_of_if true rs = refl
state_of_if false rs = refl

recorded :
    (b : Bool) (r : HealthResult) (rs : List HealthResult)
    → (if b then some (observed r (state_of rs)) else state_of rs)
      ≡ state_of (if b then r ∷ rs else rs)
recorded true r rs = observed-state_of r rs
recorded false r rs = refl

-- What the monitor keeps of a backend is what its history says.
pub run-history :
    (steps : List Step) (name : String)
    → lookup name (run steps).states ≡ state_of (history steps name)
unfolding run history replace state_of
run-history [] name = refl
run-history (watch targets ∷ steps) name =
    let ps = policies_of [] targets in
    lookup-kept ps (run steps).states name (run-IsMap steps)
    ∙ ap (λ o. if is_some (lookup name ps) then o else none) (run-history steps name)
    ∙ state_of_if (is_some (lookup name ps)) (history steps name)
run-history (result n r ∷ steps) name =
    lookup-observe n r (run steps) name ∙ elim (Bool-cases (n == name)) [
      | inr other ↦ rw other (run-history steps name)
      | inl same ↦
          let here = (eq_iff n name).0 same in
          let policies = policies-watched steps n ∙ ap (watched steps) here in
          let states = run-history steps n ∙ ap (λ x. state_of (history steps x)) here in
          rw same (
            (λ i.
              if is_some (policies i)
              then some (observed r (states i))
              else run-history steps name i)
            ∙ recorded (is_some (watched steps name)) r (history steps name))
    ]
