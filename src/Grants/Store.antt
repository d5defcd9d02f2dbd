-- ===== src/Grants/Store.antt =====
-- internal/grants/store.go: the store in process memory. A lock makes each operation one step; `now`
-- is what its clock gives.
pub mod Expiry
pub mod Once
pub mod Pending
use Prim.Native.Nat.{Ordering}
use Prim.Native.String.{compare}
use tool_mesh.Prelude.{
  ℕ, suc, String, Bool, true, false, ◌&&◌, ◌||◌, Option, none, some, List, [], ◌∷◌, Result, ok, err,
  ◌==◌, if◌then◌else◌, ltb, leb, eqb, not,
}
use tool_mesh.Prelude.Dict.{lookup, insert, remove, keep}
use tool_mesh.Grants.{State, pending, active, Grant, Subject, subject, same_subject}

-- One of the maps of byState, by id.
abbrev pub Table : Type 0
Table = List (String × Grant)

-- MemoryStore; a state that has no map yet has the empty one.
pub record Store : Type 0 where
  pub pending_by_id : Table
  pub active_by_id : Table

-- NewMemoryStore
abbrev pub new_memory_store : Store
new_memory_store = record { pending_by_id = []; active_by_id = [] }

abbrev pub table : State → Store → Table
table pending s = s.pending_by_id
table active s = s.active_by_id

abbrev pub with_table : State → Table → Store → Store
with_table pending t s = record s { pending_by_id = t }
with_table active t s = record s { active_by_id = t }

-- now.Before(g.ExpiresAt)
abbrev pub is_live : ℕ → String → Grant → Bool
is_live now id g = ltb now g.expires_at

-- The map that `prune` leaves and returns.
unfoldable pub pruned : ℕ → State → Store → Table
unfolding keep
pruned now st s = keep (is_live now) (table st s)

-- MemoryStore.Put
unfoldable pub put : ℕ → Grant → Store → Store
unfolding pruned insert
put now g s = with_table g.state (insert g.id g (pruned now g.state s)) s

-- What the loop of AddPending finds: a request for the same kit, or the number of the subject's
-- requests. A Go map is walked in no fixed order; with one request for a kit at most (`OnePerKit`)
-- the order makes no difference.
pub data Found : Type 0 where
  existing : Grant → Found
  counted : ℕ → Found

unfoldable pub scan : Subject → String → ℕ → Table → Found
unfolding same_subject
scan who kit n [] = counted n
scan who kit n ((id, p) ∷ t) =
    if not (same_subject (subject p) who)
    then scan who kit n t
    else if p.kit == kit
    then existing p
    else scan who kit (suc n) t

pub data Added : Type 0 where
  added over_limit : Added
  already : Grant → Added

abbrev pub add_found : Found → Grant → ℕ → Table → Added × Table
add_found (existing p) g limit t = (already p, t)
add_found (counted n) g limit t = if leb limit n then (over_limit, t) else (added, insert g.id g t)

-- MemoryStore.AddPending
unfoldable pub add_pending : ℕ → Grant → ℕ → Store → Added × Store
unfolding pruned scan insert
add_pending now g limit s =
    let t = pruned now pending s in
    let (answer, t') = add_found (scan (subject g) g.kit 0 t) g limit t in
    (answer, with_table pending t' s)

-- MemoryStore.Get; `none` is ErrNotFound.
unfoldable pub get : ℕ → State → String → Store → Option Grant × Store
unfolding pruned lookup
get now st id s = let t = pruned now st s in (lookup id t, with_table st t s)

-- MemoryStore.Take; removing an id that is not there changes nothing.
unfoldable pub take : ℕ → State → String → Store → Option Grant × Store
unfolding pruned lookup remove
take now st id s = let t = pruned now st s in (lookup id t, with_table st (remove id t) s)

-- The order of sortGrants: `a` comes after `b`.
after : Grant → Grant → Bool
after a b =
    ltb b.requested_at a.requested_at
    || (eqb a.requested_at b.requested_at
        && elim (compare a.id b.id) [ Ordering.gt ↦ true | _ ↦ false ])

pub insert_grant : Grant → List Grant → List Grant
unfolding after
insert_grant g [] = g ∷ []
insert_grant g (h ∷ hs) = if after g h then h ∷ insert_grant g hs else g ∷ h ∷ hs

pub sort_grants : List Grant → List Grant
unfolding insert_grant
sort_grants [] = []
sort_grants (g ∷ gs) = insert_grant g (sort_grants gs)

pub grants_of : (Grant → Bool) → Table → List Grant
grants_of p [] = []
grants_of p ((id, g) ∷ t) = let rest = grants_of p t in if p g then g ∷ rest else rest

-- MemoryStore.ForSubject
unfoldable pub for_subject : ℕ → State → Subject → Store → List Grant × Store
unfolding pruned sort_grants grants_of same_subject
for_subject now st who s =
    let t = pruned now st s in
    (sort_grants (grants_of (λ g. same_subject (subject g) who) t), with_table st t s)

-- MemoryStore.List
unfoldable pub list : ℕ → State → Store → List Grant × Store
unfolding pruned sort_grants grants_of
list now st s =
    let t = pruned now st s in (sort_grants (grants_of (λ g. true) t), with_table st t s)
