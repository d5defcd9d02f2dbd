-- ===== src/Authz/Embedded/Apply/Safe.antt =====
-- internal/authz/embedded.go: no state on the way of apply allows more than the old or the new rules.
use tool_mesh.Prelude.{
  Bool, true, false, not, List, [], ◌∷◌, ◌++◌, ◌==◌, eq_iff, filter, In, In-append, ◌≡◌, ◌≢◌, ◌⊎◌,
  inl, inr, ◌↔◌, refl, sym, ap, ◌∙◌, Bool-cases,
}
use mathlib.Core.Bool.{false≢true}
use tool_mesh.Authz.Tuples.{TupleKey, executor, blocked}
use tool_mesh.Authz.Model.Monotone.{Within}
use tool_mesh.Authz.Embedded.Apply.{
  Server, Run, difference, contains_tuple, write_tuples, delete_all, then_run, is_deny, is_grant,
  in_chunks, start, change, sort_tuples, write_chunk,
}
use tool_mesh.Authz.Embedded.Apply.Sets.{
  InSome, filter-In, difference-In, contains_tuple-In, sort_tuples-In, chunks-InSome,
}
use tool_mesh.Authz.Embedded.Apply.Runs.{
  Seen, Kept, Less, write_tuples-Kept, write_tuples-keeps, write_tuples-all, delete_all-Kept,
  delete_all-left, pick_run,
}

-- Tuples that are refused one by one are no rules: a newer model wrote them, and this one cannot read
-- them.
abbrev pub RefusesNoRule : Server → Type 0
RefusesNoRule srv =
    (t : TupleKey) → (t.relation ≡ executor) ⊎ (t.relation ≡ blocked) → srv.accepts_one t ≡ true

executor≢blocked : executor ≢ blocked
executor≢blocked e = false≢true ((eq_iff executor blocked).1 e)

pub all-Seen : (ss : List (List TupleKey)) → Seen (λ s. Unit) ss
all-Seen [] = tt
all-Seen (s ∷ ss) = (tt, all-Seen ss)

pub executor_is_grant : (t : TupleKey) → t.relation ≡ executor → not (t.relation == blocked) ≡ true
executor_is_grant t e = ap (λ r. not (r == blocked)) e

module _ (srv : Server) (old new : List TupleKey) where
  -- What one of the four steps is given: the missing tuples of a kind, in chunks.
  abbrev pub chunked : (TupleKey → Bool) → List TupleKey → List TupleKey → List (List TupleKey)
  chunked pick there ts = in_chunks srv (filter pick (sort_tuples (difference there ts)))

  pub chunked-In :
      (pick : TupleKey → Bool) (there ts : List TupleKey) (t : TupleKey)
      → InSome t (chunked pick there ts)
        ↔ (In t ts × (contains_tuple there t ≡ false) × (pick t ≡ true))
  chunked-In pick there ts t =
      let c = chunks-InSome write_chunk [] (filter pick (sort_tuples (difference there ts))) t in
      let f = filter-In pick (sort_tuples (difference there ts)) t in
      let s = sort_tuples-In (difference there ts) t in
      let m = difference-In there ts t in
      (
        λ i. elim (c.0 i) [
          | inl none ↦ absurd none
          | inr j ↦
              let (k, picked) = f.0 j in let (l, missing) = m.0 (s.0 k) in (l, missing, picked)
        ],
        λ (i, missing, picked). c.1 (inr (f.1 (s.1 (m.1 (i, missing)), picked))),
      )

  -- No more than the old rules, or than the new ones; nothing else is stored.
  pub record Safe (s : List TupleKey) : Type 0 where
    pub source : (t : TupleKey) → In t s → In t old ⊎ In t new
    pub within : Within s old ⊎ Within s new

  pub record Stage (x s : List TupleKey) : Type 0 where
    pub source : (t : TupleKey) → In t s → In t old ⊎ In t new
    pub within : Within s x

  abbrev DenyOf : List TupleKey → TupleKey → Type 0
  DenyOf ts t = In t ts × (t.relation ≡ blocked)

  add_denies :
      (c s : List TupleKey)
      → ((t : TupleKey) → In t c → DenyOf new t)
      → Stage old s
      → Stage old (c ++ s)
  add_denies c s all stage = record {
    source =
        λ t i. elim ((In-append t c s).0 i) [ inl j ↦ inr (all t j).0 | inr j ↦ stage.source t j ];
    within = record {
      grants = λ t e i. elim ((In-append t c s).0 i) [
        | inl j ↦ absurd (executor≢blocked (sym e ∙ (all t j).1))
        | inr j ↦ stage.within.grants t e j
      ];
      denies = λ t e i. (In-append t c s).1 (inr (stage.within.denies t e i));
    };
  }

  add_grants :
      (c s : List TupleKey)
      → ((t : TupleKey) → In t c → In t new)
      → Stage new s
      → Stage new (c ++ s)
  add_grants c s all stage = record {
    source =
        λ t i. elim ((In-append t c s).0 i) [ inl j ↦ inr (all t j) | inr j ↦ stage.source t j ];
    within = record {
      grants = λ t e i. elim ((In-append t c s).0 i) [
        | inl j ↦ all t j
        | inr j ↦ stage.within.grants t e j
      ];
      denies = λ t e i. (In-append t c s).1 (inr (stage.within.denies t e i));
    };
  }

  -- Deletions of tuples that are not denies of `x`.
  drop_others :
      (x : List TupleKey) (Q : TupleKey → Type 0)
      → ((t : TupleKey) → Q t → t.relation ≡ blocked → In t x → ⊥)
      → (s s' : List TupleKey) → Less Q s s'
      → Stage x s
      → Stage x s'
  drop_others x Q never s s' less stage = record {
    source = λ t i. stage.source t (less.among t i);
    within = record {
      grants = λ t e i. stage.within.grants t e (less.among t i);
      denies = λ t e i. elim (less.left t (stage.within.denies t e i)) [
        | inl j ↦ j
        | inr q ↦ absurd (never t q e i)
      ];
    };
  }

  abbrev pub denied : Run
  denied = write_tuples srv (chunked (is_deny srv) old new) (start srv old)

  abbrev pub revoked : Run
  revoked = then_run srv denied (delete_all srv (chunked (is_grant srv) new old))

  abbrev pub granted : Run
  granted = then_run srv revoked (write_tuples srv (chunked (is_grant srv) old new))

  abbrev pub cleared : Run
  cleared = then_run srv granted (delete_all srv (chunked (is_deny srv) new old))

  pub change-cleared : change srv old new ≡ cleared
  unfolding change
  change-cleared = refl

  old-Safe : (s : List TupleKey) → Stage old s → Safe s
  old-Safe s stage = record { source = stage.source; within = inl stage.within }

  new-Safe : (s : List TupleKey) → Stage new s → Safe s
  new-Safe s stage = record { source = stage.source; within = inr stage.within }

  is_deny-blocked : (t : TupleKey) → is_deny srv t ≡ true → t.relation ≡ blocked
  is_deny-blocked t h = (eq_iff t.relation blocked).0 h

  old-Stage : Stage old old
  old-Stage = record {
    source = λ t i. inl i;
    within = record { grants = λ t e i. i; denies = λ t e i. i };
  }

  denied-Kept : Kept (Stage old) Safe denied
  denied-Kept =
      write_tuples-Kept srv (Stage old) Safe (DenyOf new) (chunked (is_deny srv) old new)
        (start srv old) old-Safe add_denies
        (λ t i.
          let (j, missing, deny) = (chunked-In (is_deny srv) old new t).0 i in
          (j, is_deny-blocked t deny))
        (old-Stage, (old-Safe old old-Stage, tt))

  is_grant-not_blocked : (t : TupleKey) → is_grant srv t ≡ true → t.relation ≡ blocked → ⊥
  is_grant-not_blocked t h e = false≢true (sym (ap not ((eq_iff t.relation blocked).1 e)) ∙ h)

  delete_grants-Kept :
      (r : Run)
      → Kept (Stage old) Safe r
      → Kept (Stage old) Safe (delete_all srv (chunked (is_grant srv) new old) r)
  delete_grants-Kept r kept =
      delete_all-Kept srv (Stage old) Safe (λ t. is_grant srv t ≡ true) old-Safe
        (drop_others old (λ t. is_grant srv t ≡ true) (λ t q e i. is_grant-not_blocked t q e))
        (chunked (is_grant srv) new old) r (λ t i. ((chunked-In (is_grant srv) new old t).0 i).2)
        kept

  pub old_In : (t : TupleKey) → In t old → In t denied.stored
  old_In t i = write_tuples-keeps srv (chunked (is_deny srv) old new) (start srv old) t i

  -- Once the new denies are written, all are there.
  denied-denies :
      denied.finished ≡ true → (t : TupleKey) → t.relation ≡ blocked → In t new → In t denied.stored
  denied-denies done t e i = elim (Bool-cases (contains_tuple old t)) [
    | inl there ↦ old_In t ((contains_tuple-In old t).0 there)
    | inr missing ↦
        write_tuples-all srv (chunked (is_deny srv) old new) (start srv old) t done
          ((chunked-In (is_deny srv) old new t).1 (i, missing, (eq_iff t.relation blocked).1 e))
  ]

  abbrev pub drop_grants : Run → Run
  drop_grants r = delete_all srv (chunked (is_grant srv) new old) r

  -- A deny outlasts the removal of grants.
  drop_grants-deny :
      (r : Run) (t : TupleKey) → t.relation ≡ blocked → In t r.stored → In t (drop_grants r).stored
  drop_grants-deny r t e i =
      (delete_all-Kept srv (λ s. In t s) (λ s. Unit) (λ x. is_grant srv x ≡ true) (λ s j. tt)
        (λ s s' less j. elim (less.left t j) [
          | inl stays ↦ stays
          | inr grant ↦ absurd (is_grant-not_blocked t grant e)
        ])
        (chunked (is_grant srv) new old) r (λ x j. ((chunked-In (is_grant srv) new old x).0 j).2)
        (i, all-Seen r.seen)).0

  module _ (refuses : RefusesNoRule srv) where
    -- What a deletion leaves of the old rules that are not wanted.
    pub left_wanted :
        (pick : TupleKey → Bool) (r : Run) (t : TupleKey)
        → (t.relation ≡ executor) ⊎ (t.relation ≡ blocked)
        → pick t ≡ true
        → In t old
        → In t (delete_all srv (chunked pick new old) r).stored
        → In t new
    left_wanted pick r t rule picked was i = elim (Bool-cases (contains_tuple new t)) [
      | inl wanted ↦ (contains_tuple-In new t).0 wanted
      | inr unwanted ↦
          let refused =
            (delete_all-left srv (chunked pick new old) r t i).1
              ((chunked-In pick new old t).1 (was, unwanted, picked)) in
          absurd (false≢true (sym refused ∙ refuses t rule))
    ]

    -- Once the grants that are not wanted are gone, the store is within the new rules.
    drop_grants-Stage : denied.finished ≡ true → Kept (Stage new) Safe (drop_grants denied)
    drop_grants-Stage done =
        let (stage, seen) = delete_grants-Kept denied denied-Kept in
        (
          record {
            source = stage.source;
            within = record {
              grants = λ t e i.
                  left_wanted (is_grant srv) denied t (inl e) (executor_is_grant t e)
                    (stage.within.grants t e i) i;
              denies = λ t e i. drop_grants-deny denied t e (denied-denies done t e i);
            };
          },
          seen,
        )

    -- After a step that finished the store is within the new rules, and no state was unsafe.
    abbrev Going : Run → Type 0
    Going r = (r.finished ≡ true → Kept (Stage new) Safe r) × Seen Safe r.seen

    going : (r : Run) → Kept (Stage new) Safe r → Going r
    going r kept = (λ done. kept, kept.1)

    revoked-Going : Going revoked
    revoked-Going =
        pick_run Going denied.finished (drop_grants denied) denied
          (λ done. going (drop_grants denied) (drop_grants-Stage done))
          (λ stopped. (λ done. absurd (false≢true (sym stopped ∙ done)), denied-Kept.1))

    pub granted-Going : Going granted
    granted-Going =
        let cs = chunked (is_grant srv) old new in
        pick_run Going revoked.finished (write_tuples srv cs revoked) revoked
          (λ done. going (write_tuples srv cs revoked) (
            write_tuples-Kept srv (Stage new) Safe (λ t. In t new) cs revoked new-Safe add_grants
              (λ t i. ((chunked-In (is_grant srv) old new t).0 i).0) (revoked-Going.0 done)))
          (λ stopped. (λ done. absurd (false≢true (sym stopped ∙ done)), revoked-Going.1))

    pub cleared-Going : Going cleared
    cleared-Going =
        let cs = chunked (is_deny srv) new old in
        let Q : TupleKey → Type 0 = λ t. contains_tuple new t ≡ false in
        pick_run Going granted.finished (delete_all srv cs granted) granted
          (λ done. going (delete_all srv cs granted) (
            delete_all-Kept srv (Stage new) Safe Q new-Safe
              (drop_others new Q (λ t q e i. false≢true (sym q ∙ (contains_tuple-In new t).1 i))) cs
              granted (λ t i. ((chunked-In (is_deny srv) new old t).0 i).1) (granted-Going.0 done)))
          (λ stopped. (λ done. absurd (false≢true (sym stopped ∙ done)), granted-Going.1))
