-- ===== src/Authz/Embedded/Apply/Runs.antt =====
-- internal/authz/embedded.go: what the steps of apply keep, and what they have done at their end.
use tool_mesh.Prelude.{
  suc, Bool, true, false, not, List, [], ◌∷◌, ◌++◌, if◌then◌else◌, filter, In, In-append, length,
  ◌≡◌, ◌⊎◌, inl, inr, refl, sym, ap, ◌∙◌, arith, Bool-cases, subst,
}
use mathlib.Core.Bool.{false≢true}
use tool_mesh.Authz.Tuples.{TupleKey, same_tuple}
use tool_mesh.Authz.Embedded.Apply.{
  Server, Run, to, missing_from, contains_tuple, write_tuples, delete_each, delete_tuples,
  delete_all,
}
use tool_mesh.Authz.Embedded.Apply.Sets.{
  InSome, filter-In, missing_from-In, contains_tuple-In, same_tuple_refl, same_tuple_eq,
}

abbrev pub Seen : (List TupleKey → Type 0) → List (List TupleKey) → Type 0
Seen P [] = Unit
Seen P (s ∷ ss) = P s × Seen P ss

-- The present content of the store satisfies `P`, and every one on the way `R`.
abbrev pub Kept : (List TupleKey → Type 0) → (List TupleKey → Type 0) → Run → Type 0
Kept P R r = P r.stored × Seen R r.seen

-- `s'` is `s` without some tuples of `Q`.
pub record Less (Q : TupleKey → Type 0) (s s' : List TupleKey) : Type 0 where
  pub among : (t : TupleKey) → In t s' → In t s
  pub left : (t : TupleKey) → In t s → In t s' ⊎ Q t

module _ (srv : Server) where
  pub write_tuples-Kept :
      (P R : List TupleKey → Type 0) (Q : TupleKey → Type 0) (cs : List (List TupleKey)) (r : Run)
      → ((s : List TupleKey) → P s → R s)
      → ((c s : List TupleKey) → ((t : TupleKey) → In t c → Q t) → P s → P (c ++ s))
      → ((t : TupleKey) → InSome t cs → Q t)
      → Kept P R r
      → Kept P R (write_tuples srv cs r)
  unfolding write_tuples
  write_tuples-Kept P R Q [] r imp add all kept = kept
  write_tuples-Kept P R Q (c ∷ cs) r imp add all (now, before) =
      elim (Bool-cases (srv.accepts r.requests)) [
        | inl took ↦
            let next = add c r.stored (λ t i. all t (inl i)) now in
            rw took (
              write_tuples-Kept P R Q cs (to r (c ++ r.stored) (length c)) imp add
                (λ t i. all t (inr i)) (next, (imp _ next, before)))
        | inr lost ↦ rw lost (now, before)
      ]

  -- What was stored stays, and at the end all are.
  pub write_tuples-keeps :
      (cs : List (List TupleKey)) (r : Run) (t : TupleKey)
      → In t r.stored
      → In t (write_tuples srv cs r).stored
  unfolding write_tuples
  write_tuples-keeps [] r t i = i
  write_tuples-keeps (c ∷ cs) r t i = elim (Bool-cases (srv.accepts r.requests)) [
    | inl took ↦ rw took (
        write_tuples-keeps cs (to r (c ++ r.stored) (length c)) t
          ((In-append t c r.stored).1 (inr i)))
    | inr lost ↦ rw lost i
  ]

  pub write_tuples-all :
      (cs : List (List TupleKey)) (r : Run) (t : TupleKey)
      → (write_tuples srv cs r).finished ≡ true
      → InSome t cs
      → In t (write_tuples srv cs r).stored
  unfolding write_tuples
  write_tuples-all [] r t done i = absurd i
  write_tuples-all (c ∷ cs) r t done i = elim (Bool-cases (srv.accepts r.requests)) [
    | inl took ↦
        let next = to r (c ++ r.stored) (length c) in
        rw took (elim i [
          | inl here ↦ write_tuples-keeps cs next t ((In-append t c r.stored).1 (inl here))
          | inr there ↦ write_tuples-all cs next t (rw took at done) there
        ])
    | inr lost ↦ absurd (false≢true (rw lost at done))
  ]

  module _ (P R : List TupleKey → Type 0) (Q : TupleKey → Type 0)
      (imp : (s : List TupleKey) → P s → R s)
      (sub : (s s' : List TupleKey) → Less Q s s' → P s → P s') where
    without-Less :
        (t : TupleKey) (s : List TupleKey) → Q t → Less Q s (filter (λ x. not (same_tuple x t)) s)
    without-Less t s q =
        let f = filter-In (λ x. not (same_tuple x t)) s in
        record {
          among = λ x i. ((f x).0 i).0;
          left = λ x i. elim (Bool-cases (same_tuple x t)) [
            | inl same ↦ inr (subst Q (sym (same_tuple_eq x t same)) q)
            | inr other ↦ inl ((f x).1 (i, ground (arith, other)))
          ];
        }

    missing_from-Less :
        (c s : List TupleKey) → ((t : TupleKey) → In t c → Q t) → Less Q s (missing_from c s)
    missing_from-Less c s all = record {
      among = λ x i. ((missing_from-In c s x).0 i).0;
      left = λ x i. elim (Bool-cases (contains_tuple c x)) [
        | inl listed ↦ inr (all x ((contains_tuple-In c x).0 listed))
        | inr other ↦ inl ((missing_from-In c s x).1 (i, other))
      ];
    }

    delete_each-Kept :
        (ts : List TupleKey) (r : Run)
        → ((t : TupleKey) → In t ts → Q t)
        → Kept P R r
        → Kept P R (delete_each srv ts r)
    unfolding delete_each
    delete_each-Kept [] r all kept = kept
    delete_each-Kept (t ∷ ts) r all (now, before) = elim (Bool-cases (srv.accepts_one t)) [
      | inl took ↦
          let s = filter (λ x. not (same_tuple x t)) r.stored in
          let next = sub r.stored s (without-Less t r.stored (all t (inl refl))) now in
          rw took
            (delete_each-Kept ts (to r s 1) (λ x i. all x (inr i)) (next, (imp _ next, before)))
      | inr lost ↦ rw lost (
          delete_each-Kept ts (record r { requests = suc r.requests }) (λ x i. all x (inr i))
            (now, before))
    ]

    delete_tuples-Kept :
        (c : List TupleKey) (r : Run)
        → ((t : TupleKey) → In t c → Q t)
        → Kept P R r
        → Kept P R (delete_tuples srv c r)
    unfolding delete_tuples
    delete_tuples-Kept c r all (now, before) = elim (Bool-cases (srv.accepts r.requests)) [
      | inl took ↦
          let next =
            sub r.stored (missing_from c r.stored) (missing_from-Less c r.stored all) now in
          rw took (next, (imp _ next, before))
      | inr lost ↦
          rw lost (delete_each-Kept c (record r { requests = suc r.requests }) all (now, before))
    ]

    pub delete_all-Kept :
        (cs : List (List TupleKey)) (r : Run)
        → ((t : TupleKey) → InSome t cs → Q t)
        → Kept P R r
        → Kept P R (delete_all srv cs r)
    unfolding delete_all
    delete_all-Kept [] r all kept = kept
    delete_all-Kept (c ∷ cs) r all kept =
        delete_all-Kept cs (delete_tuples srv c r) (λ t i. all t (inr i))
          (delete_tuples-Kept c r (λ t i. all t (inl i)) kept)

  -- What is left of a list is what the server refuses to delete.
  delete_each-left :
      (ts : List TupleKey) (r : Run) (t : TupleKey)
      → In t (delete_each srv ts r).stored
      → In t r.stored × (In t ts → srv.accepts_one t ≡ false)
  unfolding delete_each
  delete_each-left [] r t i = (i, λ none. absurd none)
  delete_each-left (x ∷ ts) r t i = elim (Bool-cases (srv.accepts_one x)) [
    | inl took ↦
        let s = filter (λ y. not (same_tuple y x)) r.stored in
        let (there, refuses) = delete_each-left ts (to r s 1) t (rw took at i) in
        let (stored, other) = (filter-In (λ y. not (same_tuple y x)) r.stored t).0 there in
        (
          stored,
          λ j. elim j [
            | inl same ↦
                let equal = ap (λ y. same_tuple y x) same ∙ same_tuple_refl x in
                absurd (false≢true (sym (ap not equal) ∙ other))
            | inr more ↦ refuses more
          ],
        )
    | inr lost ↦
        let (there, refuses) =
          delete_each-left ts (record r { requests = suc r.requests }) t (rw lost at i) in
        (there, λ j. elim j [ inl same ↦ ap srv.accepts_one same ∙ lost | inr more ↦ refuses more ])
  ]

  delete_tuples-left :
      (c : List TupleKey) (r : Run) (t : TupleKey)
      → In t (delete_tuples srv c r).stored
      → In t r.stored × (In t c → srv.accepts_one t ≡ false)
  unfolding delete_tuples
  delete_tuples-left c r t i = elim (Bool-cases (srv.accepts r.requests)) [
    | inl took ↦
        let (stored, other) = (missing_from-In c r.stored t).0 (rw took at i) in
        (stored, λ j. absurd (false≢true (sym other ∙ (contains_tuple-In c t).1 j)))
    | inr lost ↦ delete_each-left c (record r { requests = suc r.requests }) t (rw lost at i)
  ]

  pub delete_all-left :
      (cs : List (List TupleKey)) (r : Run) (t : TupleKey)
      → In t (delete_all srv cs r).stored
      → In t r.stored × (InSome t cs → srv.accepts_one t ≡ false)
  unfolding delete_all
  delete_all-left [] r t i = (i, λ none. absurd none)
  delete_all-left (c ∷ cs) r t i =
      let (there, later) = delete_all-left cs (delete_tuples srv c r) t i in
      let (stored, here) = delete_tuples-left c r t there in
      (stored, λ j. elim j [ inl now ↦ here now | inr more ↦ later more ])

  delete_each-finished :
      (ts : List TupleKey) (r : Run) → (delete_each srv ts r).finished ≡ r.finished
  unfolding delete_each
  delete_each-finished [] r = refl
  delete_each-finished (t ∷ ts) r = elim (Bool-cases (srv.accepts_one t)) [
    | inl took ↦
        rw took (delete_each-finished ts (to r (filter (λ x. not (same_tuple x t)) r.stored) 1))
    | inr lost ↦ rw lost (delete_each-finished ts (record r { requests = suc r.requests }))
  ]

  delete_tuples-finished :
      (c : List TupleKey) (r : Run) → (delete_tuples srv c r).finished ≡ r.finished
  unfolding delete_tuples
  delete_tuples-finished c r = elim (Bool-cases (srv.accepts r.requests)) [
    | inl took ↦ rw took refl
    | inr lost ↦ rw lost (delete_each-finished c (record r { requests = suc r.requests }))
  ]

  -- A deletion never stops apply.
  pub delete_all-finished :
      (cs : List (List TupleKey)) (r : Run) → (delete_all srv cs r).finished ≡ r.finished
  unfolding delete_all
  delete_all-finished [] r = refl
  delete_all-finished (c ∷ cs) r =
      delete_all-finished cs (delete_tuples srv c r) ∙ delete_tuples-finished c r

-- A step of apply that is taken, or not.
pub pick_run :
    (P : Run → Type 0) (b : Bool) (x y : Run)
    → (b ≡ true → P x)
    → (b ≡ false → P y)
    → P (if b then x else y)
pick_run P true x y h k = h refl
pick_run P false x y h k = k refl
