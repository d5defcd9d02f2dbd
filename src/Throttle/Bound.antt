-- ===== src/Throttle/Bound.antt =====
-- internal/auth/loginthrottle.go: over any sequence of attempts no key passes its limit.
use tool_mesh.Prelude.{
  ℕ, ◌≤◌, ◌<◌, String, Bool, true, Option, none, some, List, [], ◌∷◌, eq_iff, ◌≡◌, arith, inl, inr,
  Option-cases,
}
use tool_mesh.Prelude.Dict.{lookup, insert, IsMap, insert-IsMap}
use tool_mesh.Throttle.{
  Counter, Table, Counters, new_counters, find_exhausted, count_missing, charge_all, is_kept,
  charge, acquire, acquire_found, charged, release,
}
use tool_mesh.Throttle.Counts.{count_at, count_missing-IsMap, make_room-Lost, find_exhausted-IsMap}
use tool_mesh.Throttle.Limit.{Distinct, Positive, AllBelow, Outcome, acquire-Outcome}
use tool_mesh.Throttle.Refund.{Released, release-Released, release-IsMap}

charge_all-IsMap :
    (cs : List Counter) (window now : ℕ) (unshared : Bool) (t : Table)
    → IsMap t
    → IsMap (charge_all cs window now unshared t)
unfolding charge_all
charge_all-IsMap [] window now unshared t m = m
charge_all-IsMap (c ∷ cs) window now unshared t m =
    let e = charged c window now unshared (lookup c.key t) in
    charge_all-IsMap cs window now unshared (insert c.key e t) (insert-IsMap c.key e t m)

charge-IsMap :
    (cs : List Counter) (window now : ℕ) (unshared : Bool) (l : Counters)
    → IsMap l.entries
    → IsMap (charge cs window now unshared l).1.entries
unfolding charge
charge-IsMap cs window now unshared l m =
    let (missing, t) = count_missing cs now l.entries in
    charge_all-IsMap cs window now unshared _
      (make_room-Lost l.max_entries missing cs now "" t (count_missing-IsMap cs now l.entries m)).0

acquire_found-IsMap :
    (cs : List Counter) (window now : ℕ) (l : Counters) (found : Option Counter)
    → IsMap l.entries
    → IsMap (acquire_found cs window now l found).1.entries
unfolding acquire_found
acquire_found-IsMap cs window now l none m = charge-IsMap cs window now true l m
acquire_found-IsMap cs window now l (some c) m = m

acquire-IsMap :
    (cs : List Counter) (window now : ℕ) (l : Counters)
    → IsMap l.entries
    → IsMap (acquire cs window now l).1.entries
unfolding acquire
acquire-IsMap cs window now l m =
    let (found, t) = find_exhausted cs now l.entries in
    acquire_found-IsMap cs window now (record l { entries = t }) found
      (find_exhausted-IsMap cs now l.entries m)

-- One operation on the table: an attempt, or the handing back of one, with `shared` and whether the
-- account is cleared.
pub data Step : Type 0 where
  attempts : List Counter → Step
  hands_back : List Counter → Bool → Bool → Step

module _ (window : ℕ) where
  unfoldable pub step : ℕ → Step → Counters → Counters
  unfolding acquire release
  step now (attempts cs) l = (acquire cs window now l).1
  step now (hands_back cs shared clear) l = record l {
    entries = release cs shared clear now l.entries;
  }

  unfoldable pub run : List (ℕ × Step) → Counters → Counters
  unfolding step
  run [] l = l
  run ((now, s) ∷ ss) l = run ss (step now s l)

  -- The counters of a step have different keys, and each the positive limit of its key.
  abbrev pub HasLimits : (String → ℕ) → List Counter → Type 0
  HasLimits lim [] = Unit
  HasLimits lim (c ∷ cs) = (c.limit ≡ lim c.key) × HasLimits lim cs

  abbrev pub counters_of : Step → List Counter
  counters_of (attempts cs) = cs
  counters_of (hands_back cs shared clear) = cs

  -- The clock does not run backwards, and each step has such counters.
  abbrev pub WellRun : (String → ℕ) → ℕ → List (ℕ × Step) → ℕ → Type 0
  WellRun lim from [] until = from ≤ until
  WellRun lim from ((now, s) ∷ ss) until =
      (from ≤ now)
      × (Distinct (counters_of s) × Positive (counters_of s) × HasLimits lim (counters_of s))
      × WellRun lim now ss until

  record Within (lim : String → ℕ) (now : ℕ) (l : Counters) : Type 0 where
    is_map : IsMap l.entries
    counts : (k : String) → count_at k now l.entries ≤ lim k

  count_at-later :
      (k : String) (now later : ℕ) (t : Table) → now ≤ later → count_at k later t ≤ count_at k now t
  unfolding count_at
  count_at-later k now later t h = elim (Option-cases (lookup k t)) [
    | inl missing ↦ rw missing (omega arith)
    | inr (e, there) ↦ rw there (ground arith)
  ]

  Within-later :
      (lim : String → ℕ) (now later : ℕ) (l : Counters)
      → now ≤ later
      → Within lim now l
      → Within lim later l
  Within-later lim now later l h v = record {
    is_map = v.is_map;
    counts = λ k. omega (arith, count_at-later k now later l.entries h, v.counts k);
  }

  below-kept :
      (lim : String → ℕ) (cs : List Counter) (now : ℕ) (t : Table) (k : String)
      → HasLimits lim cs
      → AllBelow cs now t
      → is_kept cs k ≡ true
      → count_at k now t < lim k
  below-kept lim [] now t k h b i = cc i
  below-kept lim (c ∷ cs) now t k h b i =
      ground (arith, eq_iff c.key k, below-kept lim cs now t k h.1 b.1)

  Outcome-counts :
      (lim : String → ℕ) (cs : List Counter) (now : ℕ) (t u : Table) (found : Option Counter)
      (k : String)
      → HasLimits lim cs
      → count_at k now t ≤ lim k
      → Outcome cs now t found u
      → count_at k now u ≤ lim k
  Outcome-counts lim cs now t u (some c) k h within o = omega (arith, o.2 k, within)
  Outcome-counts lim cs now t u none k h within o =
      ground (arith, o.1 k, below-kept lim cs now t k h o.0)

  Released-counts :
      (clear : Bool) (cs : List Counter) (k : String) (before after : ℕ)
      → Released clear cs k before after
      → after ≤ before
  Released-counts clear cs k before after (inl (c, there, key, h)) = ground (arith, h)
  Released-counts clear cs k before after (inr (outside, h)) = omega (arith, h)

  step-Within :
      (lim : String → ℕ) (now : ℕ) (s : Step) (l : Counters)
      → 0 < window
      → Distinct (counters_of s)
      → Positive (counters_of s)
      → HasLimits lim (counters_of s)
      → Within lim now l
      → Within lim now (step now s l)
  unfolding step
  step-Within lim now (attempts cs) l w d p h v = record {
    is_map = acquire-IsMap cs window now l v.is_map;
    counts = λ k.
        Outcome-counts lim cs now l.entries (acquire cs window now l).1.entries
          (acquire cs window now l).0 k h (v.counts k)
          (acquire-Outcome cs window now l w d p v.is_map);
  }
  step-Within lim now (hands_back cs shared clear) l w d p h v = record {
    is_map = release-IsMap cs shared clear now l.entries v.is_map;
    counts = λ k. omega (
      arith,
      v.counts k,
      Released-counts clear cs k (count_at k now l.entries)
          (count_at k now (release cs shared clear now l.entries))
          (release-Released cs shared clear now l.entries k d),
    );
  }

  run-Within :
      (lim : String → ℕ) (from until : ℕ) (ss : List (ℕ × Step)) (l : Counters)
      → 0 < window
      → WellRun lim from ss until
      → Within lim from l
      → Within lim until (run ss l)
  unfolding run
  run-Within lim from until [] l w h v = Within-later lim from until l h v
  run-Within lim from until ((now, s) ∷ ss) l w (rises, (d, p, limits), more) v =
      run-Within lim now until ss (step now s l) w more
        (step-Within lim now s l w d p limits (Within-later lim from now l rises v))

  -- Over any sequence of attempts and of slots handed back, in the order of the clock and decided in
  -- process memory, where each key has one positive limit, the table never counts more failures for
  -- a key than its limit, whatever it drops to make room.
  pub run-count_at :
      (lim : String → ℕ) (max_entries until : ℕ) (ss : List (ℕ × Step)) (k : String)
      → 0 < window
      → WellRun lim 0 ss until
      → count_at k until (run ss (new_counters max_entries)).entries ≤ lim k
  unfolding count_at lookup
  run-count_at lim max_entries until ss k w h =
      (run-Within lim 0 until ss (new_counters max_entries) w h
          (record { is_map = tt; counts = λ j. omega arith })).counts
        k
