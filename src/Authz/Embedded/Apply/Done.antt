-- ===== src/Authz/Embedded/Apply/Done.antt =====
-- internal/authz/embedded.go: an apply that finishes leaves the new rules in effect.
use tool_mesh.Prelude.{
  Bool, true, false, List, eq_iff, In, ◌≡◌, inl, inr, sym, ap, ◌∙◌, Bool-cases, subst,
}
use mathlib.Core.Bool.{false≢true}
use tool_mesh.Authz.Tuples.{TupleKey, executor, blocked}
use tool_mesh.Authz.Model.Monotone.{Within}
use tool_mesh.Authz.Embedded.Apply.{
  Server, Run, contains_tuple, write_tuples, delete_all, is_deny, is_grant, change,
}
use tool_mesh.Authz.Embedded.Apply.Sets.{contains_tuple-In}
use tool_mesh.Authz.Embedded.Apply.Runs.{
  write_tuples-keeps, write_tuples-all, delete_all-Kept, delete_all-left, pick_run,
}
use tool_mesh.Authz.Embedded.Apply.Safe.{
  RefusesNoRule, chunked, chunked-In, old_In, left_wanted, executor_is_grant, denied, revoked,
  granted, cleared, drop_grants, granted-Going, cleared-Going, change-cleared, all-Seen,
}

module _ (srv : Server) (old new : List TupleKey) where
  -- A wanted tuple outlasts a deletion.
  keep_wanted :
      (pick : TupleKey → Bool) (r : Run) (t : TupleKey)
      → In t new
      → In t r.stored
      → In t (delete_all srv (chunked srv old new pick new old) r).stored
  keep_wanted pick r t wanted i =
      (delete_all-Kept srv (λ s. In t s) (λ s. Unit) (λ x. contains_tuple new x ≡ false) (λ s j. tt)
        (λ s s' less j. elim (less.left t j) [
          | inl stays ↦ stays
          | inr unwanted ↦ absurd (false≢true (sym unwanted ∙ (contains_tuple-In new t).1 wanted))
        ])
        (chunked srv old new pick new old) r
        (λ x j. ((chunked-In srv old new pick new old x).0 j).1) (i, all-Seen r.seen)).0

  revoked-In : (t : TupleKey) → In t new → In t old → In t (revoked srv old new).stored
  revoked-In t wanted i =
      let before = denied srv old new in
      pick_run (λ r. In t r.stored) before.finished (drop_grants srv old new before) before
        (λ done. keep_wanted (is_grant srv) before t wanted (old_In srv old new t i))
        (λ stopped. old_In srv old new t i)

  abbrev Full : Run → Type 0
  Full r = (t : TupleKey) → t.relation ≡ executor → In t new → In t r.stored

  granted-Full : (granted srv old new).finished ≡ true → Full (granted srv old new)
  granted-Full =
      let before = revoked srv old new in
      let cs = chunked srv old new (is_grant srv) old new in
      pick_run (λ r. r.finished ≡ true → Full r) before.finished (write_tuples srv cs before) before
        (λ done fin t e wanted. elim (Bool-cases (contains_tuple old t)) [
          | inl there ↦
              write_tuples-keeps srv cs before t
                (revoked-In t wanted ((contains_tuple-In old t).0 there))
          | inr missing ↦ write_tuples-all srv cs before t fin (
              (chunked-In srv old new (is_grant srv) old new t).1
                (wanted, missing, executor_is_grant t e))
        ])
        (λ stopped fin. absurd (false≢true (sym stopped ∙ fin)))

  module _ (refuses : RefusesNoRule srv) where
    cleared-Within : (cleared srv old new).finished ≡ true → Within new (cleared srv old new).stored
    cleared-Within =
        let before = granted srv old new in
        let cs = chunked srv old new (is_deny srv) new old in
        let next = delete_all srv cs before in
        pick_run (λ r. r.finished ≡ true → Within new r.stored) before.finished next before
          (λ done fin. record {
            grants = λ t e wanted.
                keep_wanted (is_deny srv) before t wanted (granted-Full done t e wanted);
            denies = λ t e i.
                let (j, _) = delete_all-left srv cs before t i in
                elim (((granted-Going srv old new refuses).0 done).0.source t j) [
                  | inl was ↦
                      left_wanted srv old new refuses (is_deny srv) before t (inr e)
                        ((eq_iff t.relation blocked).1 e) was i
                  | inr wanted ↦ wanted
                ];
          })
          (λ stopped fin. absurd (false≢true (sym stopped ∙ fin)))

    -- At the end of an apply that finishes, the stored grants and denies are those of the new rules.
    pub change-exact :
        (change srv old new).finished ≡ true
        → Within (change srv old new).stored new × Within new (change srv old new).stored
    change-exact done =
        let c = change-cleared srv old new in
        let fin = sym (ap (λ (r : Run). r.finished) c) ∙ done in
        (
          subst (λ (r : Run). Within r.stored new) (sym c)
              ((cleared-Going srv old new refuses).0 fin).0.within,
          subst (λ (r : Run). Within new r.stored) (sym c) (cleared-Within fin),
        )
