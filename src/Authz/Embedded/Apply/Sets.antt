-- ===== src/Authz/Embedded/Apply/Sets.antt =====
-- internal/authz/embedded.go: the lists of apply as sets of tuples.
use mathlib.Core.Bool.{false≢true}
use tool_mesh.Prelude.{
  ℕ, zero, suc, Bool, true, false, not, List, [], ◌∷◌, ◌++◌, eq_iff, eq_refl, filter, In, any-In,
  In-append, ◌≡◌, ◌⊎◌, inl, inr, ◌↔◌, sym, ap, ◌∙◌, arith, Bool-cases, subst,
}
use tool_mesh.Authz.Tuples.{TupleKey, same_tuple}
use tool_mesh.Authz.Embedded.Apply.{
  contains_tuple, missing_from, distinct_tuples, difference, insert_tuple, sort_tuples, chunks,
}

pub same_tuple_eq : (s t : TupleKey) → same_tuple s t ≡ true → s ≡ t
same_tuple_eq s t h =
    let kind : s.user.object.kind ≡ t.user.object.kind =
      ground (arith, h, eq_iff s.user.object.kind t.user.object.kind) in
    let id : s.user.object.id ≡ t.user.object.id =
      ground (arith, h, eq_iff s.user.object.id t.user.object.id) in
    let of : s.user.relation ≡ t.user.relation =
      ground (arith, h, eq_iff s.user.relation t.user.relation) in
    let relation : s.relation ≡ t.relation = ground (arith, h, eq_iff s.relation t.relation) in
    let kind' : s.object.kind ≡ t.object.kind =
      ground (arith, h, eq_iff s.object.kind t.object.kind) in
    let id' : s.object.id ≡ t.object.id = ground (arith, h, eq_iff s.object.id t.object.id) in
    λ i. record {
      user = record { object = record { kind = kind i; id = id i }; relation = of i };
      relation = relation i;
      object = record { kind = kind' i; id = id' i };
    }

pub same_tuple_refl : (t : TupleKey) → same_tuple t t ≡ true
same_tuple_refl t = ground (
  arith,
  eq_refl t.user.object.kind,
  eq_refl t.user.object.id,
  eq_refl t.user.relation,
  eq_refl t.relation,
  eq_refl t.object.kind,
  eq_refl t.object.id,
)

pub contains_tuple-In : (ts : List TupleKey) (t : TupleKey) → (contains_tuple ts t ≡ true) ↔ In t ts
contains_tuple-In ts t = (
  λ h.
      let (x, i, same) = (any-In (λ x. same_tuple x t) ts).0 h in
      subst (λ y. In y ts) (same_tuple_eq x t same) i,
  λ i. (any-In (λ x. same_tuple x t) ts).1 (t, i, same_tuple_refl t),
)

pub filter-In :
    (p : TupleKey → Bool) (ts : List TupleKey) (t : TupleKey)
    → In t (filter p ts) ↔ (In t ts × (p t ≡ true))
filter-In p [] t = (λ i. absurd i, λ i. absurd i.0)
filter-In p (x ∷ ts) t =
    let rest = filter-In p ts t in
    elim (Bool-cases (p x)) [
      | inl keep ↦ rw keep (
        λ i. elim i [
          | inl same ↦ (inl same, ap p same ∙ keep)
          | inr there ↦ (inr (rest.0 there).0, (rest.0 there).1)
        ],
        λ (i, hit). elim i [ inl same ↦ inl same | inr there ↦ inr (rest.1 (there, hit)) ],
      )
      | inr drop ↦ rw drop (
        λ i. (inr (rest.0 i).0, (rest.0 i).1),
        λ (i, hit). elim i [
          | inl same ↦ absurd (false≢true (sym drop ∙ sym (ap p same) ∙ hit))
          | inr there ↦ rest.1 (there, hit)
        ],
      )
    ]

pub missing_from-In :
    (there ts : List TupleKey) (t : TupleKey)
    → In t (missing_from there ts) ↔ (In t ts × (contains_tuple there t ≡ false))
missing_from-In there ts t =
    let f = filter-In (λ x. not (contains_tuple there x)) ts t in
    (λ i. ((f.0 i).0, ground (arith, (f.0 i).1)), λ i. f.1 (i.0, ground (arith, i.1)))

distinct_tuples-In : (ts : List TupleKey) (t : TupleKey) → In t (distinct_tuples ts) ↔ In t ts
unfolding distinct_tuples
distinct_tuples-In [] t = (λ i. i, λ i. i)
distinct_tuples-In (x ∷ ts) t =
    let rest = distinct_tuples-In ts t in
    elim (Bool-cases (contains_tuple ts x)) [
      | inl again ↦ rw again (
        λ i. inr (rest.0 i),
        λ i. elim i [
          | inl same ↦ rest.1 (subst (λ y. In y ts) (sym same) ((contains_tuple-In ts x).0 again))
          | inr there ↦ rest.1 there
        ],
      )
      | inr first ↦ rw first (
        λ i. elim i [ inl same ↦ inl same | inr there ↦ inr (rest.0 there) ],
        λ i. elim i [ inl same ↦ inl same | inr there ↦ inr (rest.1 there) ],
      )
    ]

pub difference-In :
    (there ts : List TupleKey) (t : TupleKey)
    → In t (difference there ts) ↔ (In t ts × (contains_tuple there t ≡ false))
difference-In there ts t =
    let d = distinct_tuples-In (missing_from there ts) t in
    let m = missing_from-In there ts t in (λ i. m.0 (d.0 i), λ i. d.1 (m.1 i))

insert_tuple-In :
    (x t : TupleKey) (ts : List TupleKey) → In t (insert_tuple x ts) ↔ ((t ≡ x) ⊎ In t ts)
unfolding insert_tuple
insert_tuple-In x t [] = ground arith
insert_tuple-In x t (y ∷ ts) = ground (arith, insert_tuple-In x t ts)

pub sort_tuples-In : (ts : List TupleKey) (t : TupleKey) → In t (sort_tuples ts) ↔ In t ts
unfolding sort_tuples
sort_tuples-In [] t = ground arith
sort_tuples-In (x ∷ ts) t =
    ground (arith, insert_tuple-In x t (sort_tuples ts), sort_tuples-In ts t)

-- In one of the chunks.
abbrev pub InSome : TupleKey → List (List TupleKey) → Type 0
InSome t [] = ⊥
InSome t (c ∷ cs) = In t c ⊎ InSome t cs

pub chunks-InSome :
    (room : ℕ) (taken ts : List TupleKey) (t : TupleKey)
    → InSome t (chunks room taken ts) ↔ (In t taken ⊎ In t ts)
unfolding chunks
chunks-InSome room [] [] t = ground arith
chunks-InSome room (x ∷ taken) [] t = ground arith
chunks-InSome zero taken (y ∷ ts) t = ground (arith, chunks-InSome 99 (y ∷ []) ts t)
chunks-InSome (suc room) taken (y ∷ ts) t =
    ground (arith, chunks-InSome room (taken ++ y ∷ []) ts t, In-append t taken (y ∷ []))
