-- ===== src/Grants/Store/Pending.antt =====
-- internal/grants/store.go: the limits that AddPending keeps.
use tool_mesh.Prelude.{
  ℕ, suc, ◌+◌, ◌≤◌, String, Bool, true, false, ◌&&◌, List, [], ◌∷◌, ◌==◌, eq_iff, ◌≡◌, refl, arith,
  leb, if◌then◌else◌, inl, inr, Bool-cases, ap, ◌∙◌, all, ◌↔◌,
}
use tool_mesh.Prelude.Dict.{insert, remove, keep}
use tool_mesh.Grants.{State, pending, active, Grant, Subject, subject, same_subject}
use tool_mesh.Grants.Store.{
  Table, Store, with_table, is_live, pruned, put, add_pending, get, take, for_subject, list, scan,
  Found, existing, counted, add_found, new_memory_store,
}
use tool_mesh.Grants.Store.Once.{Op, puts, adds, gets, takes, selects, lists, step, run}

-- The number of grants in a map that pass a test.
unfoldable pub count : (Grant → Bool) → Table → ℕ
count p [] = 0
count p ((id, g) ∷ t) = let rest = count p t in if p g then suc rest else rest

abbrev pub is_of : Subject → Grant → Bool
is_of who g = same_subject (subject g) who

abbrev pub is_for : Subject → String → Grant → Bool
is_for who kit g = same_subject (subject g) who && g.kit == kit

count-keep : (p : Grant → Bool) (now : ℕ) (t : Table) → count p (keep (is_live now) t) ≤ count p t
unfolding count keep
count-keep p now [] = omega arith
count-keep p now ((id, g) ∷ t) = ground (arith, count-keep p now t)

count-remove : (p : Grant → Bool) (id : String) (t : Table) → count p (remove id t) ≤ count p t
unfolding count remove
count-remove p id [] = omega arith
count-remove p id ((j, g) ∷ t) = ground (arith, count-remove p id t)

count-insert :
    (p : Grant → Bool) (id : String) (g : Grant) (t : Table)
    → (count p (insert id g t) ≤ suc (count p t))
      × (p g ≡ false → count p (insert id g t) ≤ count p t)
unfolding count insert
count-insert p id g [] = ground arith
count-insert p id g ((j, h) ∷ t) = ground (arith, count-insert p id g t)

scan-counted :
    (who : Subject) (kit : String) (n m : ℕ) (t : Table)
    → scan who kit n t ≡ counted m
    → (m ≡ n + count (is_of who) t) × (count (is_for who kit) t ≡ 0)
unfolding count scan
scan-counted who kit n m [] h = ground arith
scan-counted who kit n m ((id, g) ∷ t) h =
    ground (arith, scan-counted who kit n m t, scan-counted who kit (suc n) m t)

-- Each subject has `limit` requests at most, and one at most for a kit.
pub record Bounded (limit : ℕ) (t : Table) : Type 0 where
  pub requests : (who : Subject) → count (is_of who) t ≤ limit
  pub per_kit : (who : Subject) (kit : String) → count (is_for who kit) t ≤ 1

pub same_subject_iff : (a b : Subject) → (same_subject a b ≡ true) ↔ (a ≡ b)
unfolding same_subject
same_subject_iff a b = ground (arith, eq_iff a.user_id b.user_id, eq_iff a.binding b.binding)

is_for-same :
    (g : Grant) (who : Subject) (kit : String)
    → is_for who kit g ≡ true
    → (who ≡ subject g) × (kit ≡ g.kit)
is_for-same g who kit h = ground (arith, same_subject_iff (subject g) who, eq_iff g.kit kit)

Bounded-keep : (limit now : ℕ) (t : Table) → Bounded limit t → Bounded limit (keep (is_live now) t)
Bounded-keep limit now t b = record {
  requests = λ who. omega (arith, count-keep (is_of who) now t, b.requests who);
  per_kit = λ who kit. omega (arith, count-keep (is_for who kit) now t, b.per_kit who kit);
}

Bounded-remove :
    (limit : ℕ) (id : String) (t : Table) → Bounded limit t → Bounded limit (remove id t)
Bounded-remove limit id t b = record {
  requests = λ who. omega (arith, count-remove (is_of who) id t, b.requests who);
  per_kit = λ who kit. omega (arith, count-remove (is_for who kit) id t, b.per_kit who kit);
}

insert-requests :
    (limit : ℕ) (g : Grant) (t : Table) (who : Subject)
    → Bounded limit t
    → suc (count (is_of (subject g)) t) ≤ limit
    → count (is_of who) (insert g.id g t) ≤ limit
insert-requests limit g t who b room =
    ground
      (arith, count-insert (is_of who) g.id g t, b.requests who, same_subject_iff (subject g) who)

insert-per_kit :
    (limit : ℕ) (g : Grant) (t : Table) (who : Subject) (kit : String)
    → Bounded limit t
    → count (is_for (subject g) g.kit) t ≡ 0
    → count (is_for who kit) (insert g.id g t) ≤ 1
insert-per_kit limit g t who kit b fresh = elim (Bool-cases (is_for who kit g)) [
  | inl same ↦
      let (same_who, same_kit) = is_for-same g who kit same in
      let none_yet : count (is_for who kit) t ≡ 0 =
        ap (λ w. count (is_for w kit) t) same_who
        ∙ (ap (λ k. count (is_for (subject g) k) t) same_kit ∙ fresh) in
      omega (arith, count-insert (is_for who kit) g.id g t, none_yet)
  | inr differs ↦
      let (_, fewer) = count-insert (is_for who kit) g.id g t in
      omega (arith, fewer differs, b.per_kit who kit)
]

add_found-Bounded :
    (limit asked : ℕ) (g : Grant) (t : Table) (found : Found)
    → asked ≤ limit
    → scan (subject g) g.kit 0 t ≡ found
    → Bounded limit t
    → Bounded limit (add_found found g asked t).1
add_found-Bounded limit asked g t (existing p) h e b = b
add_found-Bounded limit asked g t (counted n) h e b =
    let (size, fresh) = scan-counted (subject g) g.kit 0 n t e in
    elim (Bool-cases (leb asked n)) [
      | inl full ↦ rw full b
      | inr room ↦ rw room (record {
        requests = λ who. insert-requests limit g t who b (ground arith);
        per_kit = λ who kit. insert-per_kit limit g t who kit b fresh;
      })
    ]

-- What the service does with the store: pending requests come in by AddPending only, with a limit
-- of at most `limit`.
abbrev pub is_active : State → Bool
is_active pending = false
is_active active = true

abbrev pub obeys : ℕ → Op → Bool
obeys limit (puts now g) = is_active g.state
obeys limit (adds now g asked) = leb asked limit
obeys limit _ = true

with_table-Bounded :
    (limit : ℕ) (st : State) (t : Table) (s : Store)
    → Bounded limit s.pending_by_id
    → (is_active st ≡ false → Bounded limit t)
    → Bounded limit (with_table st t s).pending_by_id
with_table-Bounded limit pending t s b h = h refl
with_table-Bounded limit active t s b h = b

pruned-Bounded :
    (limit now : ℕ) (st : State) (s : Store)
    → Bounded limit s.pending_by_id
    → is_active st ≡ false
    → Bounded limit (pruned now st s)
unfolding pruned
pruned-Bounded limit now pending s b h = Bounded-keep limit now s.pending_by_id b
pruned-Bounded limit now active s b h = cc

step-Bounded :
    (limit : ℕ) (op : Op) (s : Store)
    → obeys limit op ≡ true
    → Bounded limit s.pending_by_id
    → Bounded limit (step op s).pending_by_id
unfolding step put add_pending get take for_subject list
step-Bounded limit (puts now g) s o b =
    with_table-Bounded limit g.state _ s b (λ early. ground arith)
step-Bounded limit (adds now g asked) s o b =
    add_found-Bounded limit asked g (pruned now pending s) _ (ground arith) refl
      (pruned-Bounded limit now pending s b refl)
step-Bounded limit (gets now st id) s o b =
    with_table-Bounded limit st _ s b (pruned-Bounded limit now st s b)
step-Bounded limit (takes now st id) s o b =
    with_table-Bounded limit st _ s b
      λ early. Bounded-remove limit id (pruned now st s) (pruned-Bounded limit now st s b early)
step-Bounded limit (selects now st who) s o b =
    with_table-Bounded limit st _ s b (pruned-Bounded limit now st s b)
step-Bounded limit (lists now st) s o b =
    with_table-Bounded limit st _ s b (pruned-Bounded limit now st s b)

run-Bounded :
    (limit : ℕ) (ops : List Op) (s : Store)
    → all (obeys limit) ops ≡ true
    → Bounded limit s.pending_by_id
    → Bounded limit (run ops s).pending_by_id
unfolding run
run-Bounded limit [] s o b = b
run-Bounded limit (op ∷ ops) s o b =
    run-Bounded limit ops (step op s) (ground arith) (step-Bounded limit op s (ground arith) b)

new-Bounded : (limit : ℕ) → Bounded limit new_memory_store.pending_by_id
unfolding count
new-Bounded limit = record { requests = λ who. omega arith; per_kit = λ who kit. omega arith }

-- After any operations from the empty store where pending requests come in by AddPending with a
-- limit of at most `limit`, in whatever order of the callers, no subject has more than `limit`
-- pending requests, and none has two for one kit.
pub pending-Bounded :
    (limit : ℕ) (ops : List Op)
    → all (obeys limit) ops ≡ true
    → Bounded limit (run ops new_memory_store).pending_by_id
pending-Bounded limit ops o = run-Bounded limit ops new_memory_store o (new-Bounded limit)
