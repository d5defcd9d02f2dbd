-- ===== src/Health/Reported.antt =====
-- internal/health/monitor.go: the report as a function of the results that came in.
use mathlib.Core.Path.{ap₂}
use mathlib.Core.Bool.{false≢true}
use tool_mesh.Prelude.{
  ℕ, String, false, ◌||◌, Option, none, some, List, [], ◌∷◌, ◌==◌, eq_iff, if◌then◌else◌, any, ◌≡◌,
  refl, sym, ap, ◌∙◌, Bool-cases, inl, inr,
}
use tool_mesh.Prelude.Dict.{lookup, IsMap}
use tool_mesh.Health.{
  Policy, State, Status, all_well, warning, degraded, BackendStatus, evaluate, Report, is_ok,
  is_degraded, policy_or_zero, add_backend, report_states, report,
}
use tool_mesh.Health.History.{
  Step, run, watched, history, state_of, policies-watched, run-IsMap, run-history,
}

abbrev or_entry : Option BackendStatus → Option BackendStatus → Option BackendStatus
or_entry none later = later
or_entry (some bs) later = some bs

or_none : (o : Option BackendStatus) → or_entry o none ≡ o
or_none none = refl
or_none (some bs) = refl

-- A backend stands in the report unless all is well.
abbrev pub unless_ok : BackendStatus → Option BackendStatus
unless_ok bs = if is_ok bs.status then none else some bs

abbrev pub entry : Option Policy → ℕ → Option State → Option BackendStatus
entry p now none = none
entry p now (some st) = unless_ok (evaluate st (policy_or_zero p) now)

lookup-add_backend :
    (rep : Report) (n name : String) (bs : BackendStatus)
    → lookup name (add_backend rep n bs).backends
      ≡ or_entry (if n == name then unless_ok bs else none) (lookup name rep.backends)
unfolding lookup
lookup-add_backend rep n name bs = elim (Bool-cases (is_ok bs.status)) [
  | inl well ↦ elim (Bool-cases (n == name)) [
    | inl same ↦ rw (well, same) refl
    | inr other ↦ rw (well, other) refl
  ]
  | inr ill ↦ elim (Bool-cases (n == name)) [
    | inl same ↦ rw (ill, same) refl
    | inr other ↦ rw (ill, other) refl
  ]
]

module _ (ps : List (String × Policy)) (now : ℕ) where
  lookup-report_states :
      (states : List (String × State)) (rep : Report) (name : String)
      → IsMap states
      → lookup name (report_states ps now states rep).backends
        ≡ or_entry (entry (lookup name ps) now (lookup name states)) (lookup name rep.backends)
  unfolding report_states lookup
  lookup-report_states [] rep name h = refl
  lookup-report_states ((n, st) ∷ states) rep name (new, h) =
      let bs = evaluate st (policy_or_zero (lookup n ps)) now in
      lookup-report_states states (add_backend rep n bs) name h
      ∙ ap (or_entry (entry (lookup name ps) now (lookup name states)))
          (lookup-add_backend rep n name bs)
      ∙ elim (Bool-cases (n == name)) [
        | inr other ↦ rw other refl
        | inl same ↦
            let here = (eq_iff n name).0 same in
            let gone = sym (ap (λ x. lookup x states) here) ∙ new in
            rw same (λ i. or_entry (entry (lookup name ps) now (gone i)) (
              or_entry (unless_ok (evaluate st (policy_or_zero (lookup (here i) ps)) now))
                (lookup name rep.backends)))
      ]

-- degraded if some entry is; all is well only without entries.
unfoldable pub worst : List (String × BackendStatus) → Status
worst [] = all_well
worst ((name, bs) ∷ entries) =
    if is_degraded bs.status || any (λ (n, x). is_degraded x.status) entries
    then degraded
    else warning

worst_later :
    (s : Status) (entries : List (String × BackendStatus))
    → is_ok s ≡ false
    → (if is_degraded s || is_ok (worst entries) then s else worst entries) ≡ (
        if is_degraded s || any (λ (n, x). is_degraded x.status) entries then degraded else warning)
unfolding worst
worst_later all_well entries h = absurd (false≢true (sym h))
worst_later degraded entries h = refl
worst_later warning [] h = refl
worst_later warning ((n, x) ∷ entries) h =
    elim (Bool-cases (is_degraded x.status || any (λ (n, x). is_degraded x.status) entries)) [
      | inl bad ↦ rw bad refl
      | inr better ↦ rw better refl
    ]

add_backend-worst :
    (rep : Report) (name : String) (bs : BackendStatus)
    → rep.status ≡ worst rep.backends
    → (add_backend rep name bs).status ≡ worst (add_backend rep name bs).backends
unfolding worst
add_backend-worst rep name bs h = elim (Bool-cases (is_ok bs.status)) [
  | inl well ↦ rw well h
  | inr ill ↦ rw ill (
      ap (λ s. if is_degraded bs.status || is_ok s then bs.status else s) h
      ∙ worst_later bs.status rep.backends ill)
]

report_states-worst :
    (ps : List (String × Policy)) (now : ℕ) (states : List (String × State)) (rep : Report)
    → rep.status ≡ worst rep.backends
    → (report_states ps now states rep).status ≡ worst (report_states ps now states rep).backends
unfolding report_states
report_states-worst ps now [] rep h = h
report_states-worst ps now ((n, st) ∷ states) rep h =
    let bs = evaluate st (policy_or_zero (lookup n ps)) now in
    report_states-worst ps now states (add_backend rep n bs) (add_backend-worst rep n bs h)

-- After any steps, a report lists a backend exactly as its policy and the results since it is
-- watched make it, if not all is well; its status is degraded where one of these is, warning where
-- none is but some are listed, and well where none is listed.
pub report-history :
    (steps : List Step) (now : ℕ) (name : String)
    → (lookup name (report (run steps) now).backends
        ≡ entry (watched steps name) now (state_of (history steps name)))
      × ((report (run steps) now).status ≡ worst (report (run steps) now).backends)
unfolding report lookup worst
report-history steps now name =
    let m = run steps in
    (
      lookup-report_states m.policies now m.states (record { status = all_well; backends = [] })
            name (run-IsMap steps)
          ∙ or_none (entry (lookup name m.policies) now (lookup name m.states))
          ∙ ap₂ (λ p st. entry p now st) (policies-watched steps name) (run-history steps name),
      report_states-worst m.policies now m.states (record { status = all_well; backends = [] })
          refl,
    )
