-- ===== src/Throttle.antt =====
-- internal/auth/loginthrottle.go: the counters of failed logins in process memory. A lock makes each
-- operation one step.
pub mod Counts
pub mod Limit
pub mod Refund
pub mod Bound
mod Tests
use tool_mesh.Prelude.{
  ℕ, zero, suc, ◌+◌, ◌-◌, ◌/◌, max, String, Bool, true, false, not, ◌&&◌, Option, none, some, List,
  [], ◌∷◌, ◌==◌, if◌then◌else◌, ltb, leb, length, any, eqb,
}
use tool_mesh.Prelude.Dict.{lookup, insert, remove, keep}

pub data Scope : Type 0 where
  user_ip user ip : Scope

-- loginCounter
pub record Counter : Type 0 where
  pub scope : Scope
  pub key : String
  pub limit : ℕ

-- localLoginCounter
pub record Entry : Type 0 where
  pub count : ℕ
  pub unshared : ℕ
  pub limit : ℕ
  pub expires : ℕ

abbrev pub Table : Type 0
Table = List (String × Entry)

-- localLoginCounters; `none` is the zero time.
pub record Counters : Type 0 where
  pub entries : Table
  pub max_entries : ℕ
  pub last_warning : Option ℕ

-- newLocalLoginCounters
abbrev pub new_counters : ℕ → Counters
new_counters max_entries = record { entries = []; max_entries = max_entries; last_warning = none }

abbrev live_entry : String → ℕ → Table → Option Entry → Option Entry × Table
live_entry key now t none = (none, t)
live_entry key now t (some e) = if ltb now e.expires then (some e, t) else (none, remove key t)

-- live: an entry whose window is over is dropped.
unfoldable pub live : String → ℕ → Table → Option Entry × Table
unfolding lookup remove
live key now t = live_entry key now t (lookup key t)

abbrev is_unshared : Option Entry → Bool
is_unshared none = false
is_unshared (some e) = ltb 0 e.unshared

-- The loop of holdsUnshared.
unfoldable pub holds_unshared : List Counter → ℕ → Table → Bool × Table
unfolding live
holds_unshared [] now t = (false, t)
holds_unshared (c ∷ cs) now t =
    let (found, t') = live c.key now t in
    let rest = holds_unshared cs now t' in if is_unshared found then (true, t') else rest

abbrev pub is_exhausted : Counter → Option Entry → Bool
is_exhausted c none = false
is_exhausted c (some e) = leb c.limit e.count

-- The loop of acquire: the first exhausted counter.
unfoldable pub find_exhausted : List Counter → ℕ → Table → Option Counter × Table
unfolding live
find_exhausted [] now t = (none, t)
find_exhausted (c ∷ cs) now t =
    let (found, t') = live c.key now t in
    let rest = find_exhausted cs now t' in if is_exhausted c found then (some c, t') else rest

abbrev one_if_missing : Option Entry → ℕ
one_if_missing none = 1
one_if_missing (some e) = 0

-- The first loop of charge.
unfoldable pub count_missing : List Counter → ℕ → Table → ℕ × Table
unfolding live
count_missing [] now t = (0, t)
count_missing (c ∷ cs) now t =
    let (found, t') = live c.key now t in
    let (missing, t'') = count_missing cs now t' in (one_if_missing found + missing, t'')

-- The removal of the first `n` entries that pass a test, and their number.
unfoldable pub drop : (String → Entry → Bool) → ℕ → Table → Table × ℕ
drop p n [] = ([], 0)
drop p zero ((k, e) ∷ t) = ((k, e) ∷ t, 0)
drop p (suc n) ((k, e) ∷ t) = elim (p k e) [
  | true ↦ let (rest, dropped) = drop p n t in (rest, suc dropped)
  | false ↦ let (rest, dropped) = drop p (suc n) t in ((k, e) ∷ rest, dropped)
]

-- `kept` of makeRoom
abbrev pub is_kept : List Counter → String → Bool
is_kept cs key = any (λ c. c.key == key) cs

abbrev droppable : List Counter → String → Entry → Bool
droppable cs k e = ltb e.count e.limit && not (is_kept cs k)

-- The two loops over live counters in makeRoom: a batch of counters that are not exhausted, then as
-- many as are still too many.
unfoldable pub drop_live : ℕ → List Counter → ℕ → Table → Table × ℕ
unfolding drop
drop_live max_entries cs need t =
    let (t1, first) = drop (droppable cs) (max (max_entries / 10) need) t in
    let (t2, second) = drop (λ k e. not (is_kept cs k)) ((length t1 + need) - max_entries) t1 in
    (t2, first + second)

-- makeRoom
unfoldable pub make_room : ℕ → ℕ → List Counter → ℕ → Table → Table × ℕ
unfolding keep drop_live
make_room max_entries need cs now t =
    let t1 = keep (λ k (e : Entry). ltb now e.expires) t in
    if leb (length t + need) max_entries
    then (t, 0)
    else if leb (length t1 + need) max_entries
    then (t1, 0)
    else drop_live max_entries cs need t1

abbrev charged : Counter → ℕ → ℕ → Bool → Option Entry → Entry
charged c window now unshared none = record {
  count = 1;
  unshared = if unshared then 1 else 0;
  limit = c.limit;
  expires = now + window;
}
charged c window now unshared (some e) = record e {
  count = suc e.count;
  unshared = if unshared then suc e.unshared else e.unshared;
  limit = c.limit;
}

-- The second loop of charge.
unfoldable pub charge_all : List Counter → ℕ → ℕ → Bool → Table → Table
unfolding lookup insert
charge_all [] window now unshared t = t
charge_all (c ∷ cs) window now unshared t =
    charge_all cs window now unshared
      (insert c.key (charged c window now unshared (lookup c.key t)) t)

abbrev too_early : Option ℕ → ℕ → Bool
too_early none now = false
too_early (some last) now = ltb now (last + 60000000000)

-- reportable, and the time of the last warning behind it.
unfoldable pub reportable : ℕ → ℕ → Option ℕ → ℕ × Option ℕ
reportable dropped now last =
    if eqb dropped 0
    then (0, last)
    else if too_early last now
    then (0, last)
    else (dropped, some now)

-- charge
unfoldable pub charge : List Counter → ℕ → ℕ → Bool → Counters → ℕ × Counters
unfolding count_missing make_room charge_all reportable
charge cs window now unshared l =
    let (missing, t) = count_missing cs now l.entries in
    let (t', dropped) = make_room l.max_entries missing cs now t in
    let (evicted, last) = reportable dropped now l.last_warning in
    (evicted, record l { entries = charge_all cs window now unshared t'; last_warning = last })

unfoldable pub acquire_found :
    List Counter → ℕ → ℕ → Counters → Option Counter → Option Counter × Counters
unfolding charge
acquire_found cs window now l (some c) = (some c, l)
acquire_found cs window now l none = (none, (charge cs window now true l).1)

-- acquire: the counter that blocks the attempt, if there is one; its remaining lifetime is left out.
unfoldable pub acquire : List Counter → ℕ → ℕ → Counters → Option Counter × Counters
unfolding find_exhausted acquire_found
acquire cs window now l =
    let (blocked, t) = find_exhausted cs now l.entries in
    acquire_found cs window now (record l { entries = t }) blocked

-- mirrorCharge
unfoldable pub mirror_charge : List Counter → ℕ → ℕ → Counters → ℕ × Counters
unfolding charge
mirror_charge cs window now l = charge cs window now false l

abbrev pub is_ip : Scope → Bool
is_ip ip = true
is_ip _ = false

abbrev pub refunded : Bool → Entry → Entry
refunded shared e = record e {
  count = e.count - 1;
  unshared = if not shared && ltb 0 e.unshared then e.unshared - 1 else e.unshared;
}

abbrev pub release_entry : Bool → String → Option Entry → Table → Table
unfolding insert remove
release_entry shared key none t = t
release_entry shared key (some e) t =
    if leb e.count 1 then remove key t else insert key (refunded shared e) t

-- The body of the loop of release.
unfoldable pub release_one : Bool → Bool → ℕ → Counter → Table → Table
unfolding live remove insert release_entry
release_one shared clear_account now c t =
    let (found, t') = live c.key now t in
    if clear_account && not (is_ip c.scope)
    then remove c.key t
    else release_entry shared c.key found t'

-- release
unfoldable pub release : List Counter → Bool → Bool → ℕ → Table → Table
unfolding release_one
release [] shared clear_account now t = t
release (c ∷ cs) shared clear_account now t =
    release cs shared clear_account now (release_one shared clear_account now c t)

abbrev room_for : ℕ → Counter → ℕ → Table → Option Entry → Table × ℕ
room_for max_entries c now t none = make_room max_entries 1 (c ∷ []) now t
room_for max_entries c now t (some e) = (t, 0)

-- exhaust
unfoldable pub exhaust : Counter → ℕ → ℕ → Counters → ℕ × Counters
unfolding live make_room insert reportable
exhaust c remaining now l =
    let (found, t) = live c.key now l.entries in
    let (t', dropped) = room_for l.max_entries c now t found in
    let (evicted, last) = reportable dropped now l.last_warning in
    if is_unshared found then (0, record l { entries = t }) else (
      evicted,
      record l {
        entries =
            insert c.key
              (record { count = c.limit; unshared = 0; limit = c.limit; expires = now + remaining })
              t';
        last_warning = last;
      },
    )
