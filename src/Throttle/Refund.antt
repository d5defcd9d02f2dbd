-- ===== src/Throttle/Refund.antt =====
-- internal/auth/loginthrottle.go: what an attempt hands back.
use tool_mesh.Prelude.{
  ℕ, ◌-◌, ◌<◌, String, Bool, true, false, not, ◌&&◌, none, List, [], ◌∷◌, ◌==◌, eq_iff,
  if◌then◌else◌, ◌≡◌, refl, arith, ap, ◌∙◌, ◌⊎◌, inl, inr, Bool-cases, Option-cases, subst, In,
}
use tool_mesh.Prelude.Dict.{lookup, IsMap, lookup-insert, lookup-remove, insert-IsMap, remove-IsMap}
use tool_mesh.Throttle.{
  Counter, Table, Counters, live, is_kept, acquire, is_ip, release, release_one, refunded,
}
use tool_mesh.Throttle.Counts.{count_at}
use tool_mesh.Throttle.Limit.{Distinct, Positive, Outcome, acquire-Outcome}

-- What is left of a count: nothing of an account's after a success, and one less otherwise.
abbrev pub left : Bool → Counter → ℕ → ℕ
left clear_account c n = if clear_account && not (is_ip c.scope) then 0 else n - 1

release_one-count_at :
    (shared clear : Bool) (now : ℕ) (c : Counter) (asked : String) (t : Table)
    → count_at asked now (release_one shared clear now c t)
      ≡ (if c.key == asked then left clear c (count_at asked now t) else count_at asked now t)
unfolding release_one count_at live
release_one-count_at shared clear now c asked t = elim (Option-cases (lookup c.key t)) [
  | inl missing ↦ ground (arith, missing, eq_iff c.key asked, lookup-remove c.key asked t)
  | inr (e, there) ↦ ground (
    arith,
    there,
    eq_iff c.key asked,
    lookup-remove c.key asked t,
    lookup-insert c.key asked (refunded shared e) t,
  )
]

-- What handing back does to the count of one key.
abbrev pub Released : Bool → List Counter → String → ℕ → ℕ → Type 0
Released clear cs k before after =
    ((c : Counter) × In c cs × (c.key ≡ k) × (after ≡ left clear c before))
    ⊎ ((is_kept cs k ≡ false) × (after ≡ before))

release-other :
    (cs : List Counter) (shared clear : Bool) (now : ℕ) (asked : String) (t : Table)
    → is_kept cs asked ≡ false
    → count_at asked now (release cs shared clear now t) ≡ count_at asked now t
unfolding release
release-other [] shared clear now asked t k = refl
release-other (c ∷ cs) shared clear now asked t k = ground (
  arith,
  release_one-count_at shared clear now c asked t,
  release-other cs shared clear now asked (release_one shared clear now c t),
)

-- Success and Cancel change the counts of the attempt's own keys only. Each of them counts one less,
-- and never less than nothing; with a success the counters of the account, alone and with the
-- address, count nothing, and the counter of the address gets back the one slot only.
pub release-Released :
    (cs : List Counter) (shared clear : Bool) (now : ℕ) (t : Table) (k : String)
    → Distinct cs
    → Released clear cs k (count_at k now t) (count_at k now (release cs shared clear now t))
unfolding release
release-Released [] shared clear now t k d = inr (refl, refl)
release-Released (c ∷ cs) shared clear now t k d =
    let t' = release_one shared clear now c t in
    let one = release_one-count_at shared clear now c k t in
    elim (Bool-cases (c.key == k)) [
      | inl same ↦
          let key : c.key ≡ k = (eq_iff c.key k).0 same in
          let done =
            release-other cs shared clear now k t' (subst (λ x. is_kept cs x ≡ false) key d.0) in
          inl (c, inl refl, key, ground (arith, one, done))
      | inr other ↦
          let before : count_at k now t' ≡ count_at k now t = ground (arith, one) in
          elim (release-Released cs shared clear now t' k d.1) [
            | inl (x, there, key, h) ↦ inl (x, inr there, key, h ∙ ap (left clear x) before)
            | inr (outside, h) ↦ inr (ground arith, h ∙ before)
          ]
    ]

release_one-IsMap :
    (shared clear : Bool) (now : ℕ) (c : Counter) (t : Table)
    → IsMap t
    → IsMap (release_one shared clear now c t)
unfolding release_one live
release_one-IsMap shared clear now c t m = elim (Option-cases (lookup c.key t)) [
  | inl missing ↦ ground (arith, missing, remove-IsMap c.key t m)
  | inr (e, there) ↦
      ground (arith, there, remove-IsMap c.key t m, insert-IsMap c.key (refunded shared e) t m)
]

pub release-IsMap :
    (cs : List Counter) (shared clear : Bool) (now : ℕ) (t : Table)
    → IsMap t
    → IsMap (release cs shared clear now t)
unfolding release
release-IsMap [] shared clear now t m = m
release-IsMap (c ∷ cs) shared clear now t m =
    release-IsMap cs shared clear now (release_one shared clear now c t)
      (release_one-IsMap shared clear now c t m)

In-is_kept : (c : Counter) (cs : List Counter) → In c cs → is_kept cs c.key ≡ true
In-is_kept c [] i = absurd i
In-is_kept c (d ∷ ds) i = ground (arith, eq_iff d.key c.key, In-is_kept c ds)

-- An attempt that was let through and is handed back by Cancel at the same time leaves no trace: each
-- of its counters counts what it counted before.
pub cancel-acquire :
    (cs : List Counter) (window now : ℕ) (l : Counters) (shared : Bool) (k : String)
    → 0 < window
    → Distinct cs
    → Positive cs
    → IsMap l.entries
    → (acquire cs window now l).0 ≡ none
    → is_kept cs k ≡ true
    → count_at k now (release cs shared false now (acquire cs window now l).1.entries)
      ≡ count_at k now l.entries
cancel-acquire cs window now l shared k w d p m allowed kept =
    let after = (acquire cs window now l).1.entries in
    let outcome : Outcome cs now l.entries none after =
      subst (λ o. Outcome cs now l.entries o after) allowed
        (acquire-Outcome cs window now l w d p m) in
    elim (release-Released cs shared false now after k d) [
      | inl (c, there, key, h) ↦ ground (arith, h, outcome.1 k)
      | inr (outside, h) ↦ ground arith
    ]
