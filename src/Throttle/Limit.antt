-- ===== src/Throttle/Limit.antt =====
-- internal/auth/loginthrottle.go: an attempt is charged to all its counters or to none, and no
-- counter passes its limit.
use tool_mesh.Prelude.{
  ℕ, suc, ◌≤◌, ◌<◌, String, Bool, true, false, Option, none, some, List, [], ◌∷◌, ◌==◌, eq_iff,
  if◌then◌else◌, ltb, ◌≡◌, refl, arith, sym, ◌⊎◌, inl, inr, Bool-cases, Option-cases, subst, In,
}
use tool_mesh.Prelude.Dict.{lookup, insert, IsMap, lookup-insert}
use tool_mesh.Throttle.{
  Counter, Entry, Table, Counters, live, find_exhausted, count_missing, make_room, charge_all,
  is_kept, is_exhausted, charge, acquire, acquire_found, charged,
}
use tool_mesh.Throttle.Counts.{
  count_at, counted, Fresh, Lost, live-count_at, find_exhausted-count_at, find_exhausted-IsMap,
  count_missing-count_at, count_missing-IsMap, count_missing-Fresh, make_room-Lost,
}

-- The counters of one attempt have different keys.
abbrev pub Distinct : List Counter → Type 0
Distinct [] = Unit
Distinct (c ∷ cs) = (is_kept cs c.key ≡ false) × Distinct cs

abbrev AllFresh : List Counter → ℕ → Table → Type 0
AllFresh [] now t = Unit
AllFresh (c ∷ cs) now t = Fresh now (lookup c.key t) × AllFresh cs now t

charged-count_at :
    (c : Counter) (window now : ℕ) (unshared : Bool) (asked : String) (t : Table)
    → 0 < window
    → Fresh now (lookup c.key t)
    → count_at asked now (insert c.key (charged c window now unshared (lookup c.key t)) t)
      ≡ (if c.key == asked then suc (count_at asked now t) else count_at asked now t)
unfolding count_at
charged-count_at c window now unshared asked t w f = elim (Option-cases (lookup c.key t)) [
  | inl missing ↦ ground (
    arith,
    missing,
    eq_iff c.key asked,
    lookup-insert c.key asked (charged c window now unshared none) t,
  )
  | inr (e, there) ↦ ground (
    arith,
    there,
    eq_iff c.key asked,
    lookup-insert c.key asked (charged c window now unshared (some e)) t,
  )
]

AllFresh-insert :
    (cs : List Counter) (now : ℕ) (key : String) (e : Entry) (t : Table)
    → is_kept cs key ≡ false
    → AllFresh cs now t
    → AllFresh cs now (insert key e t)
AllFresh-insert [] now key e t k f = tt
AllFresh-insert (c ∷ cs) now key e t k f = ground (
  arith,
  lookup-insert key c.key e t,
  eq_iff key c.key,
  eq_iff c.key key,
  AllFresh-insert cs now key e t,
)

charge_all-count_at :
    (cs : List Counter) (window now : ℕ) (unshared : Bool) (asked : String) (t : Table)
    → 0 < window
    → Distinct cs
    → AllFresh cs now t
    → count_at asked now (charge_all cs window now unshared t)
      ≡ (if is_kept cs asked then suc (count_at asked now t) else count_at asked now t)
unfolding charge_all
charge_all-count_at [] window now unshared asked t w d f = refl
charge_all-count_at (c ∷ cs) window now unshared asked t w d f =
    let e = charged c window now unshared (lookup c.key t) in
    let one = charged-count_at c window now unshared asked t w f.0 in
    let rest =
      charge_all-count_at cs window now unshared asked (insert c.key e t) w d.1
        (AllFresh-insert cs now c.key e t d.0 f.1) in
    ground (arith, one, rest, d.0, eq_iff c.key asked)

AllFresh-of :
    (cs ds : List Counter) (now : ℕ) (t : Table)
    → ((k : String) → is_kept cs k ≡ true → Fresh now (lookup k t))
    → ((k : String) → is_kept ds k ≡ true → is_kept cs k ≡ true)
    → AllFresh ds now t
AllFresh-of cs [] now t f sub = tt
AllFresh-of cs (d ∷ ds) now t f sub = (
  f d.key (sub d.key (ground (arith, eq_iff d.key d.key))),
  AllFresh-of cs ds now t f (λ k h. sub k (ground arith)),
)

Lost-Fresh :
    (cs : List Counter) (now : ℕ) (k : String) (a b : Option Entry)
    → Lost cs now k a b
    → Fresh now a
    → Fresh now b
Lost-Fresh cs now k a b l f = ground arith

Lost-counted :
    (cs : List Counter) (now : ℕ) (k : String) (a b : Option Entry)
    → Lost cs now k a b
    → (counted now b ≤ counted now a) × ((is_kept cs k ≡ false) ⊎ (counted now b ≡ counted now a))
Lost-counted cs now k a b l = ground arith

-- What a charge does to the count of one key: one more for a key that it charges, and no more for
-- any other.
abbrev pub Charged : List Counter → String → ℕ → ℕ → Type 0
Charged cs k before after =
    ((is_kept cs k ≡ true) × (after ≡ suc before)) ⊎ ((is_kept cs k ≡ false) × (after ≤ before))

charge-Charged :
    (cs : List Counter) (window now : ℕ) (unshared : Bool) (l : Counters) (k : String)
    → 0 < window
    → Distinct cs
    → IsMap l.entries
    → Charged cs k
        (count_at k now l.entries)
        (count_at k now (charge cs window now unshared l).1.entries)
unfolding charge count_at
charge-Charged cs window now unshared l k w d m =
    let (missing, t) = count_missing cs now l.entries in
    let m1 = count_missing-IsMap cs now l.entries m in
    let t' = (make_room l.max_entries missing cs now t).0 in
    let lost = λ (j : String). (make_room-Lost l.max_entries missing cs now j t m1).1 in
    let fresh : (j : String) → is_kept cs j ≡ true → Fresh now (lookup j t') = λ j h.
      Lost-Fresh cs now j (lookup j t) (lookup j t') (lost j)
        (count_missing-Fresh cs j now l.entries h) in
    let total =
      charge_all-count_at cs window now unshared k t' w d
        (AllFresh-of cs cs now t' fresh (λ j h. h)) in
    ground (
      arith,
      total,
      Lost-counted cs now k (lookup k t) (lookup k t') (lost k),
      count_missing-count_at cs k now l.entries,
    )

-- The counters that an attempt has: a limit of zero disables a counter.
abbrev pub Positive : List Counter → Type 0
Positive [] = Unit
Positive (c ∷ cs) = (0 < c.limit) × Positive cs

abbrev pub AllBelow : List Counter → ℕ → Table → Type 0
AllBelow [] now t = Unit
AllBelow (c ∷ cs) now t = (count_at c.key now t < c.limit) × AllBelow cs now t

-- What `live` finds counts as the table does.
live-counted :
    (key : String) (now : ℕ) (t : Table)
    → (counted now (live key now t).0 ≡ count_at key now t)
      × (((live key now t).0 ≡ none)
          ⊎ ((e : Entry) × ((live key now t).0 ≡ some e) × (now < e.expires)))
unfolding live count_at
live-counted key now t = elim (Option-cases (lookup key t)) [
  | inl missing ↦ rw missing (refl, inl refl)
  | inr (e, there) ↦ elim (Bool-cases (ltb now e.expires)) [
    | inl in_time ↦ rw (there, in_time) (rw in_time refl, inr (e, refl, ground arith))
    | inr over ↦ rw (there, over) (refl, inl refl)
  ]
]

is_exhausted_iff :
    (c : Counter) (now : ℕ) (t : Table)
    → 0 < c.limit
    → ((is_exhausted c (live c.key now t).0 ≡ true) × (c.limit ≤ count_at c.key now t))
      ⊎ ((is_exhausted c (live c.key now t).0 ≡ false) × (count_at c.key now t < c.limit))
is_exhausted_iff c now t positive =
    let (count, kind) = live-counted c.key now t in
    elim kind [
      | inl nothing ↦ ground (arith, nothing, count)
      | inr (e, found, in_time) ↦ ground (arith, found, count, in_time)
    ]

AllBelow-same :
    (cs : List Counter) (now : ℕ) (t u : Table)
    → ((k : String) → count_at k now t ≡ count_at k now u)
    → AllBelow cs now t
    → AllBelow cs now u
AllBelow-same [] now t u same b = tt
AllBelow-same (c ∷ cs) now t u same b =
    (ground (arith, same c.key), AllBelow-same cs now t u same b.1)

-- The counter that blocks, or all below their limits.
abbrev pub Found : List Counter → ℕ → Table → Option Counter → Type 0
Found cs now t (some c) = In c cs × (c.limit ≤ count_at c.key now t)
Found cs now t none = AllBelow cs now t

Found-cons :
    (c : Counter) (cs : List Counter) (now : ℕ) (t u : Table) (found : Option Counter)
    → ((k : String) → count_at k now u ≡ count_at k now t)
    → count_at c.key now t < c.limit
    → Found cs now u found
    → Found (c ∷ cs) now t found
Found-cons c cs now t u none same below f = (below, AllBelow-same cs now u t same f)
Found-cons c cs now t u (some d) same below f = (inr f.0, ground (arith, same d.key))

find_exhausted-Found :
    (cs : List Counter) (now : ℕ) (t : Table)
    → Positive cs
    → Found cs now t (find_exhausted cs now t).0
unfolding find_exhausted
find_exhausted-Found [] now t p = tt
find_exhausted-Found (c ∷ cs) now t p =
    let t' = (live c.key now t).1 in
    let rest = find_exhausted-Found cs now t' p.1 in
    elim (is_exhausted_iff c now t p.0) [
      | inl (hit, full) ↦ rw hit (inl refl, full)
      | inr (miss, below) ↦ rw miss (
          Found-cons c cs now t t' (find_exhausted cs now t').0 (λ k. live-count_at c.key k now t)
            below rest)
    ]

-- The outcome of an attempt, for the count of each key.
abbrev pub Outcome : List Counter → ℕ → Table → Option Counter → Table → Type 0
Outcome cs now before (some c) after =
    In c cs
    × (c.limit ≤ count_at c.key now before)
    × ((k : String) → count_at k now after ≡ count_at k now before)
Outcome cs now before none after =
    AllBelow cs now before
    × ((k : String) → Charged cs k (count_at k now before) (count_at k now after))

acquire_found-Outcome :
    (cs : List Counter) (window now : ℕ) (l : Counters) (t : Table) (found : Option Counter)
    → 0 < window
    → Distinct cs
    → IsMap t
    → ((k : String) → count_at k now t ≡ count_at k now l.entries)
    → Found cs now l.entries found
    → Outcome cs now l.entries found
        (acquire_found cs window now (record l { entries = t }) found).1.entries
unfolding acquire_found
acquire_found-Outcome cs window now l t (some c) w d m same f = (f.0, f.1, same)
acquire_found-Outcome cs window now l t none w d m same f = (
  f,
  λ k. ground (arith, same k, charge-Charged cs window now true (record l { entries = t }) k w d m),
)

acquire_found-blocked :
    (cs : List Counter) (window now : ℕ) (l : Counters) (found : Option Counter)
    → (acquire_found cs window now l found).0 ≡ found
unfolding acquire_found
acquire_found-blocked cs window now l none = refl
acquire_found-blocked cs window now l (some c) = refl

-- An attempt with counters of different keys and positive limits, in a positive window, is either
-- blocked, by one of its counters that has reached its limit, and then no count changes; or it is
-- let through, all its counters were below their limits, each of them counts one more, and no other
-- key counts more than before, also where the full table drops counters.
pub acquire-Outcome :
    (cs : List Counter) (window now : ℕ) (l : Counters)
    → 0 < window
    → Distinct cs
    → Positive cs
    → IsMap l.entries
    → Outcome cs now l.entries (acquire cs window now l).0 (acquire cs window now l).1.entries
unfolding acquire
acquire-Outcome cs window now l w d p m =
    let (found, t) = find_exhausted cs now l.entries in
    subst
      (λ o.
        Outcome cs now l.entries o
          (acquire_found cs window now (record l { entries = t }) found).1.entries)
      (sym (acquire_found-blocked cs window now (record l { entries = t }) found))
      (acquire_found-Outcome cs window now l t found w d (find_exhausted-IsMap cs now l.entries m)
        (λ k. find_exhausted-count_at cs k now l.entries) (find_exhausted-Found cs now l.entries p))
