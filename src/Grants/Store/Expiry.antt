-- ===== src/Grants/Store/Expiry.antt =====
-- internal/grants/store.go: nothing that has expired comes back, and a grant is taken once.
use tool_mesh.Prelude.{
  ℕ, ◌<◌, String, Bool, true, some, List, [], ◌∷◌, ◌≡◌, arith, inl, inr, ◌⊎◌, ◌↔◌, In,
}
use tool_mesh.Prelude.Dict.{lookup, keep}
use tool_mesh.Grants.{State, Grant, Subject, subject, same_subject}
use tool_mesh.Grants.Store.{
  Table, Store, table, is_live, pruned, get, take, for_subject, sort_grants, insert_grant,
  grants_of,
}

-- A grant stands in a map.
abbrev pub Holds : Grant → Table → Type 0
Holds x [] = ⊥
Holds x ((id, g) ∷ t) = (x ≡ g) ⊎ Holds x t

pub Holds-keep :
    (now : ℕ) (x : Grant) (t : Table)
    → Holds x (keep (is_live now) t) ↔ (Holds x t × (now < x.expires_at))
unfolding keep
Holds-keep now x [] = ground arith
Holds-keep now x ((id, g) ∷ t) = ground (arith, Holds-keep now x t)

In-insert_grant : (x g : Grant) (hs : List Grant) → In x (insert_grant g hs) ↔ In x (g ∷ hs)
unfolding insert_grant
In-insert_grant x g [] = ground arith
In-insert_grant x g (h ∷ hs) = ground (arith, In-insert_grant x g hs)

In-sort_grants : (x : Grant) (gs : List Grant) → In x (sort_grants gs) ↔ In x gs
unfolding sort_grants
In-sort_grants x [] = ground arith
In-sort_grants x (g ∷ gs) =
    ground (arith, In-sort_grants x gs, In-insert_grant x g (sort_grants gs))

In-grants_of :
    (p : Grant → Bool) (x : Grant) (t : Table) → In x (grants_of p t) ↔ (Holds x t × (p x ≡ true))
unfolding grants_of
In-grants_of p x [] = ground arith
In-grants_of p x ((id, g) ∷ t) = ground (arith, In-grants_of p x t)

-- The grants that ForSubject returns are exactly those in the state's map that are the subject's
-- and have not expired.
pub for_subject-In :
    (now : ℕ) (st : State) (who : Subject) (s : Store) (x : Grant)
    → In x (for_subject now st who s).0
      ↔ (Holds x (table st s) × (now < x.expires_at) × (same_subject (subject x) who ≡ true))
unfolding for_subject pruned
for_subject-In now st who s x = ground (
  arith,
  In-sort_grants x (grants_of (λ g. same_subject (subject g) who) (pruned now st s)),
  In-grants_of (λ g. same_subject (subject g) who) x (pruned now st s),
  Holds-keep now x (table st s),
)

lookup-keep-live :
    (now : ℕ) (id : String) (g : Grant) (t : Table)
    → lookup id (keep (is_live now) t) ≡ some g
    → now < g.expires_at
unfolding lookup keep
lookup-keep-live now id g [] h = cc
lookup-keep-live now id g ((j, w) ∷ t) h = ground (arith, lookup-keep-live now id g t)

-- What Get or Take returns has not expired.
pub get_take-live :
    (now : ℕ) (st : State) (id : String) (s : Store) (g : Grant)
    → ((get now st id s).0 ≡ some g) ⊎ ((take now st id s).0 ≡ some g)
    → now < g.expires_at
unfolding get take pruned
get_take-live now st id s g h = elim h [
  | inl got ↦ lookup-keep-live now id g (table st s) got
  | inr taken ↦ lookup-keep-live now id g (table st s) taken
]
