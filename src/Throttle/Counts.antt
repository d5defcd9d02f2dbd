-- ===== src/Throttle/Counts.antt =====
-- internal/auth/loginthrottle.go: what each operation does to the count of a key.
use tool_mesh.Prelude.{
  ℕ, zero, suc, ◌+◌, ◌-◌, ◌/◌, ◌<◌, max, String, Bool, true, false, not, Option, none, some, List,
  [], ◌∷◌, ◌==◌, eq_iff, if◌then◌else◌, ltb, leb, length, ◌≡◌, refl, arith, sym, ◌∙◌, ◌⊎◌, inl, inr,
  Bool-cases, Option-cases, subst,
}
use tool_mesh.Prelude.Dict.{
  lookup, keep, IsMap, lookup-remove, remove-IsMap, keep-IsMap, lookup-keep, lookup-keep-none,
}
use tool_mesh.Throttle.{
  Counter, Entry, Table, live, find_exhausted, count_missing, drop, drop_live, make_room, is_kept,
  droppable,
}

-- What an entry counts at a time: nothing once its window is over.
abbrev pub counted : ℕ → Option Entry → ℕ
counted now none = 0
counted now (some e) = if ltb now e.expires then e.count else 0

-- The failures that the table counts for a key.
unfoldable pub count_at : String → ℕ → Table → ℕ
count_at key now t = counted now (lookup key t)

pub live-count_at :
    (key asked : String) (now : ℕ) (t : Table)
    → count_at asked now (live key now t).1 ≡ count_at asked now t
unfolding live count_at
live-count_at key asked now t = elim (Option-cases (lookup key t)) [
  | inl missing ↦ rw missing refl
  | inr (e, there) ↦ ground (arith, there, lookup-remove key asked t, eq_iff key asked)
]

pub live-IsMap : (key : String) (now : ℕ) (t : Table) → IsMap t → IsMap (live key now t).1
unfolding live
live-IsMap key now t m = elim (Option-cases (lookup key t)) [
  | inl missing ↦ rw missing m
  | inr (e, there) ↦ ground (arith, there, remove-IsMap key t m)
]

pub find_exhausted-count_at :
    (cs : List Counter) (asked : String) (now : ℕ) (t : Table)
    → count_at asked now (find_exhausted cs now t).1 ≡ count_at asked now t
unfolding find_exhausted
find_exhausted-count_at [] asked now t = refl
find_exhausted-count_at (c ∷ cs) asked now t = ground (
  arith,
  live-count_at c.key asked now t,
  find_exhausted-count_at cs asked now (live c.key now t).1,
)

pub find_exhausted-IsMap :
    (cs : List Counter) (now : ℕ) (t : Table) → IsMap t → IsMap (find_exhausted cs now t).1
unfolding find_exhausted
find_exhausted-IsMap [] now t m = m
find_exhausted-IsMap (c ∷ cs) now t m =
    ground (arith, live-IsMap c.key now t m, find_exhausted-IsMap cs now (live c.key now t).1)

-- The window of an entry is not over.
abbrev pub Fresh : ℕ → Option Entry → Type 0
Fresh now none = Unit
Fresh now (some e) = now < e.expires

live-Fresh :
    (key asked : String) (now : ℕ) (t : Table)
    → (key == asked ≡ true) ⊎ Fresh now (lookup asked t)
    → Fresh now (lookup asked (live key now t).1)
unfolding live
live-Fresh key asked now t h = elim (Option-cases (lookup key t)) [
  | inl missing ↦ rw missing (ground (arith, missing, eq_iff key asked))
  | inr (e, there) ↦ ground (arith, there, lookup-remove key asked t, eq_iff key asked)
]

pub count_missing-count_at :
    (cs : List Counter) (asked : String) (now : ℕ) (t : Table)
    → count_at asked now (count_missing cs now t).1 ≡ count_at asked now t
unfolding count_missing
count_missing-count_at [] asked now t = refl
count_missing-count_at (c ∷ cs) asked now t = ground (
  arith,
  live-count_at c.key asked now t,
  count_missing-count_at cs asked now (live c.key now t).1,
)

pub count_missing-IsMap :
    (cs : List Counter) (now : ℕ) (t : Table) → IsMap t → IsMap (count_missing cs now t).1
unfolding count_missing
count_missing-IsMap [] now t m = m
count_missing-IsMap (c ∷ cs) now t m =
    count_missing-IsMap cs now (live c.key now t).1 (live-IsMap c.key now t m)

count_missing-stays_Fresh :
    (cs : List Counter) (asked : String) (now : ℕ) (t : Table)
    → Fresh now (lookup asked t)
    → Fresh now (lookup asked (count_missing cs now t).1)
unfolding count_missing
count_missing-stays_Fresh [] asked now t f = f
count_missing-stays_Fresh (c ∷ cs) asked now t f =
    count_missing-stays_Fresh cs asked now (live c.key now t).1
      (live-Fresh c.key asked now t (inr f))

pub count_missing-Fresh :
    (cs : List Counter) (asked : String) (now : ℕ) (t : Table)
    → is_kept cs asked ≡ true
    → Fresh now (lookup asked (count_missing cs now t).1)
unfolding count_missing
count_missing-Fresh [] asked now t k = cc k
count_missing-Fresh (c ∷ cs) asked now t k = elim (Bool-cases (c.key == asked)) [
  | inl same ↦
      count_missing-stays_Fresh cs asked now (live c.key now t).1
        (live-Fresh c.key asked now t (inl same))
  | inr other ↦ count_missing-Fresh cs asked now (live c.key now t).1 (rw other at k)
]

drop-missing :
    (p : String → Entry → Bool) (n : ℕ) (asked : String) (t : Table)
    → lookup asked t ≡ none
    → lookup asked (drop p n t).0 ≡ none
unfolding drop lookup
drop-missing p n asked [] h = refl
drop-missing p zero asked ((k, e) ∷ t) h = h
drop-missing p (suc n) asked ((k, e) ∷ t) h =
    ground (arith, drop-missing p n asked t, drop-missing p (suc n) asked t)

pub drop-IsMap : (p : String → Entry → Bool) (n : ℕ) (t : Table) → IsMap t → IsMap (drop p n t).0
unfolding drop
drop-IsMap p n [] m = tt
drop-IsMap p zero ((k, e) ∷ t) m = m
drop-IsMap p (suc n) ((k, e) ∷ t) m =
    ground (arith, drop-IsMap p n t m.1, drop-IsMap p (suc n) t m.1, drop-missing p (suc n) k t m.0)

-- What a table lost, it lost by the test.
abbrev Dropped : (String → Entry → Bool) → String → Option Entry → Option Entry → Type 0
Dropped p asked old new =
    (new ≡ old) ⊎ ((new ≡ none) × (e : Entry) × (old ≡ some e) × (p asked e ≡ true))

drop-lookup :
    (p : String → Entry → Bool) (n : ℕ) (asked : String) (t : Table)
    → IsMap t
    → Dropped p asked (lookup asked t) (lookup asked (drop p n t).0)
unfolding drop lookup
drop-lookup p n asked [] m = inl refl
drop-lookup p zero asked ((k, e) ∷ t) m = inl refl
drop-lookup p (suc n) asked ((k, e) ∷ t) m = elim (Bool-cases (p k e)) [
  | inl hit ↦ elim (Bool-cases (k == asked)) [
    | inl same ↦
        let key : k ≡ asked = (eq_iff k asked).0 same in
        rw (hit, drop, lookup, same)
          (inr (
            drop-missing p n asked t (subst (λ x. lookup x t ≡ none) key m.0),
            e,
            refl,
            subst (λ x. p x e ≡ true) key hit,
          ))
    | inr other ↦ rw (hit, drop, lookup, other) (drop-lookup p n asked t m.1)
  ]
  | inr stays ↦ elim (Bool-cases (k == asked)) [
    | inl same ↦ rw (stays, drop, lookup, same) (inl refl)
    | inr other ↦ rw (stays, drop, lookup, other) (drop-lookup p (suc n) asked t m.1)
  ]
]

-- What make_room lost: entries whose window is over, and entries that the attempt does not charge.
abbrev pub Lost : List Counter → ℕ → String → Option Entry → Option Entry → Type 0
Lost cs now asked old new =
    (new ≡ old) ⊎ ((new ≡ none) × ((is_kept cs asked ≡ false) ⊎ (counted now old ≡ 0)))

Lost-trans :
    (cs : List Counter) (now : ℕ) (asked : String) (a b c : Option Entry)
    → Lost cs now asked a b
    → Lost cs now asked b c
    → Lost cs now asked a c
Lost-trans cs now asked a b c h k = ground arith

Dropped-Lost :
    (p : String → Entry → Bool) (cs : List Counter) (now : ℕ) (asked : String)
    (old new : Option Entry)
    → ((e : Entry) → p asked e ≡ true → is_kept cs asked ≡ false)
    → Dropped p asked old new
    → Lost cs now asked old new
Dropped-Lost p cs now asked old new f (inl same) = inl same
Dropped-Lost p cs now asked old new f (inr (gone, e, there, hit)) = inr (gone, inl (f e hit))

drop_live-Lost :
    (max_entries : ℕ) (cs : List Counter) (need now : ℕ) (asked : String) (t : Table)
    → IsMap t
    → IsMap (drop_live max_entries cs need t).0
      × Lost cs now asked (lookup asked t) (lookup asked (drop_live max_entries cs need t).0)
unfolding drop_live
drop_live-Lost max_entries cs need now asked t m =
    let first = droppable cs in
    let n = max (max_entries / 10) need in
    let t1 = (drop first n t).0 in
    let second = λ (k : String) (e : Entry). not (is_kept cs k) in
    let more = (length t1 + need) - max_entries in
    let m1 = drop-IsMap first n t m in
    (
      drop-IsMap second more t1 m1,
      Lost-trans cs now asked (lookup asked t) (lookup asked t1)
          (lookup asked (drop second more t1).0)
          (Dropped-Lost first cs now asked (lookup asked t) (lookup asked t1) (λ e h. ground arith)
            (drop-lookup first n asked t m))
          (Dropped-Lost second cs now asked (lookup asked t1) (lookup asked (drop second more t1).0)
            (λ e h. ground arith) (drop-lookup second more asked t1 m1)),
    )

keep-Lost :
    (cs : List Counter) (now : ℕ) (asked : String) (t : Table)
    → IsMap t
    → Lost cs now asked
        (lookup asked t)
        (lookup asked (keep (λ k (e : Entry). ltb now e.expires) t))
keep-Lost cs now asked t m = elim (Option-cases (lookup asked t)) [
  | inl missing ↦
      inl (lookup-keep-none (λ k (e : Entry). ltb now e.expires) asked t missing ∙ sym missing)
  | inr (e, there) ↦
      ground (arith, there, lookup-keep (λ k (e : Entry). ltb now e.expires) asked e t m there)
]

pub make_room-Lost :
    (max_entries need : ℕ) (cs : List Counter) (now : ℕ) (asked : String) (t : Table)
    → IsMap t
    → IsMap (make_room max_entries need cs now t).0
      × Lost cs now asked (lookup asked t) (lookup asked (make_room max_entries need cs now t).0)
unfolding make_room
make_room-Lost max_entries need cs now asked t m =
    let t1 = keep (λ k (e : Entry). ltb now e.expires) t in
    let m1 = keep-IsMap (λ k (e : Entry). ltb now e.expires) t m in
    let first = keep-Lost cs now asked t m in
    elim (Bool-cases (leb (length t + need) max_entries)) [
      | inl fits ↦ rw fits (m, inl refl)
      | inr full ↦ elim (Bool-cases (leb (length t1 + need) max_entries)) [
        | inl fits ↦ rw (full, fits) (m1, first)
        | inr crowded ↦
            let (m2, second) = drop_live-Lost max_entries cs need now asked t1 m1 in
            rw (full, crowded)
              (m2, Lost-trans cs now asked (lookup asked t) (lookup asked t1) _ first second)
      ]
    ]
