-- ===== src/Gate/Limiter/Agree.antt =====
-- internal/gate/context.go: what the rate limiter keeps of the history of requests.
use tool_mesh.Prelude.{
  ℕ, ◌≤◌, String, true, not, List, [], ◌∷◌, ◌++◌, ltb, length, filter, if◌then◌else◌, ◌≡◌, arith,
  ◌==◌, eq_iff, Bool-cases, Option-cases, inl, inr, ◌⊎◌, sym, ◌∙◌,
}
use tool_mesh.Prelude.Int.{ℤ}
use tool_mesh.Prelude.Dict.{
  lookup, insert, keep, IsMap, insert-IsMap, keep-IsMap, lookup-insert, lookup-keep,
  lookup-keep-none,
}
use tool_mesh.Gate.Limiter.{
  RateLimiter, or_empty, window_of, recent, check, stale, record_request, evict_stale,
}
use tool_mesh.Gate.Limiter.Windows.{
  count_recent, count_recent-append, count_recent-filter, count_recent-stale, Rising, Rising-append,
  Rising-mono, Rising-filter,
}

-- All requests that were recorded, oldest first.
abbrev pub History : Type 0
History = List (String × ℕ)

abbrev pub times_of : String → History → List ℕ
times_of u [] = []
times_of u ((v, t) ∷ log) = let rest = times_of u log in if v == u then t ∷ rest else rest

times_of-append :
    (u v : String) (t : ℕ) (log : History)
    → times_of u (log ++ (v, t) ∷ [])
      ≡ (if v == u then times_of u log ++ t ∷ [] else times_of u log)
times_of-append u v t [] = ground arith
times_of-append u v t ((w, s) ∷ log) = ground (arith, times_of-append u v t log)

-- From `now` on the limiter answers as the history does.
pub record Agrees (log : History) (now : ℕ) (rl : RateLimiter) : Type 0 where
  pub is_map : IsMap rl.windows
  pub rising : (u : String) → Rising now (window_of rl u)
  pub counts :
      (u : String) (later : ℕ)
      → now ≤ later
      → count_recent later (window_of rl u) ≡ count_recent later (times_of u log)

-- The limiter that `check` leaves, and the one that `record_request` leaves, read user by user.
window_of-check :
    (rl : RateLimiter) (now : ℕ) (v u : String) (limit : ℤ)
    → window_of (check rl now v limit).1 u
      ≡ (if v == u then filter (recent now) (window_of rl v) else window_of rl u)
unfolding check window_of
window_of-check rl now v u limit =
    ground
      (arith, lookup-insert v u (filter (recent now) (or_empty (lookup v rl.windows))) rl.windows)

check-IsMap :
    (rl : RateLimiter) (now : ℕ) (v : String) (limit : ℤ)
    → IsMap rl.windows
    → IsMap (check rl now v limit).1.windows
unfolding check
check-IsMap rl now v limit m = insert-IsMap v _ rl.windows m

pub check-Agrees :
    (log : History) (now later : ℕ) (rl : RateLimiter) (v : String) (limit : ℤ)
    → now ≤ later
    → Agrees log now rl
    → Agrees log later (check rl later v limit).1
check-Agrees log now later rl v limit h a = record {
  is_map = check-IsMap rl later v limit a.is_map;
  rising = λ u. rw (window_of-check rl later v u limit) (
      ground (
        arith,
        eq_iff v u,
        Rising-filter later later (window_of rl v)
            (Rising-mono now later (window_of rl v) h (a.rising v)),
        Rising-mono now later (window_of rl u) h (a.rising u),
      ));
  counts = λ u t k. rw (window_of-check rl later v u limit) (
      ground (
        arith,
        eq_iff v u,
        count_recent-filter later t (window_of rl v) k,
        a.counts u t,
        a.counts v t,
      ));
}

-- The window of `u` once the request of `v` is added.
abbrev window_with : RateLimiter → ℕ → String → String → List ℕ
window_with rl now v u = if v == u then window_of rl v ++ now ∷ [] else window_of rl u

window_of-insert :
    (rl : RateLimiter) (v u : String) (w : List ℕ)
    → or_empty (lookup u (insert v w rl.windows)) ≡ (if v == u then w else window_of rl u)
unfolding window_of
window_of-insert rl v u w = ground (arith, lookup-insert v u w rl.windows)

-- Removing the stale users leaves a user's window, or empties one that was stale.
window_of-keep :
    (now : ℕ) (u : String) (m : List (String × List ℕ))
    → IsMap m
    → (or_empty (lookup u (keep (λ _ w. not (stale now w)) m)) ≡ or_empty (lookup u m))
      ⊎ ((stale now (or_empty (lookup u m)) ≡ true)
          × (or_empty (lookup u (keep (λ _ w. not (stale now w)) m)) ≡ []))
unfolding stale
window_of-keep now u m h = elim (Option-cases (lookup u m)) [
  | inl missing ↦ inl (rw (missing, lookup-keep-none (λ _ w. not (stale now w)) u m missing))
  | inr (w, found) ↦ elim (Bool-cases (stale now w)) [
    | inl old ↦
        inr (rw found old, rw (lookup-keep (λ _ w. not (stale now w)) u w m h found) (rw old))
    | inr fresh ↦ inl (rw (found, lookup-keep (λ _ w. not (stale now w)) u w m h found) (rw fresh))
  ]
]

window_of-evict :
    (now : ℕ) (u : String) (m : List (String × List ℕ))
    → IsMap m
    → (or_empty (lookup u (evict_stale now m)) ≡ or_empty (lookup u m))
      ⊎ ((stale now (or_empty (lookup u m)) ≡ true)
          × (or_empty (lookup u (evict_stale now m)) ≡ []))
unfolding evict_stale
window_of-evict now u m h = elim (Bool-cases (ltb 1000 (length m))) [
  | inl full ↦ rw full (window_of-keep now u m h)
  | inr room ↦ inl (rw room)
]

evict-IsMap : (now : ℕ) (m : List (String × List ℕ)) → IsMap m → IsMap (evict_stale now m)
unfolding evict_stale
evict-IsMap now m h = ground (arith, keep-IsMap (λ _ w. not (stale now w)) m h)

record-IsMap :
    (rl : RateLimiter) (now : ℕ) (v : String)
    → IsMap rl.windows
    → IsMap (record_request rl now v).windows
unfolding record_request
record-IsMap rl now v m = evict-IsMap now _ (insert-IsMap v _ rl.windows m)

window_of-record :
    (rl : RateLimiter) (now : ℕ) (v u : String)
    → IsMap rl.windows
    → (window_of (record_request rl now v) u ≡ window_with rl now v u)
      ⊎ ((stale now (window_with rl now v u) ≡ true) × (window_of (record_request rl now v) u ≡ []))
unfolding record_request window_of
window_of-record rl now v u m =
    rw (← window_of-insert rl v u (window_of rl v ++ now ∷ []))
      (window_of-evict now u _ (insert-IsMap v _ rl.windows m))

-- A request of `v` at `now`, seen by one user.
window_with-Rising :
    (rl : RateLimiter) (now : ℕ) (v u : String)
    → ((w : String) → Rising now (window_of rl w))
    → Rising now (window_with rl now v u)
window_with-Rising rl now v u r = ground (arith, Rising-append now (window_of rl v) (r v), r u)

window_with-counts :
    (log : History) (rl : RateLimiter) (now later : ℕ) (v u : String)
    → ((w : String) → count_recent later (window_of rl w) ≡ count_recent later (times_of w log))
    → count_recent later (window_with rl now v u)
      ≡ count_recent later (times_of u (log ++ (v, now) ∷ []))
window_with-counts log rl now later v u c = rw (times_of-append u v now log) (
    ground (
      arith,
      eq_iff v u,
      c v,
      c u,
      count_recent-append later now (window_of rl v),
      count_recent-append later now (times_of u log),
    ))

pub record-Agrees :
    (log : History) (now later : ℕ) (rl : RateLimiter) (v : String)
    → now ≤ later
    → Agrees log now rl
    → Agrees (log ++ (v, later) ∷ []) later (record_request rl later v)
record-Agrees log now later rl v h a = record {
  is_map = record-IsMap rl later v a.is_map;
  rising = λ u. elim (window_of-record rl later v u a.is_map) [
    | inl same ↦ rw same (window_with-Rising rl later v u rising')
    | inr (_, gone) ↦ rw gone tt
  ];
  counts = λ u t k.
      let c = window_with-counts log rl later t v u (λ w. a.counts w t (omega arith)) in
      elim (window_of-record rl later v u a.is_map) [
        | inl same ↦ rw same c
        | inr (old, gone) ↦ rw gone (
            sym (
              count_recent-stale later t later (window_with rl later v u)
                (window_with-Rising rl later v u rising') old k)
            ∙ c)
      ];
}
  where
    rising' : (w : String) → Rising later (window_of rl w)
    rising' w = Rising-mono now later (window_of rl w) h (a.rising w)
