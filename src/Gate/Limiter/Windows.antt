-- ===== src/Gate/Limiter/Windows.antt =====
-- internal/gate/context.go: windows of times that rise.
use tool_mesh.Prelude.{
  ℕ, ◌+◌, ◌≤◌, true, false, List, [], ◌∷◌, ◌++◌, length, filter, if◌then◌else◌, ◌≡◌, refl, arith,
}
use tool_mesh.Gate.Limiter.{recent, stale}

-- How many of the times lie in the hour before `now`.
abbrev pub count_recent : ℕ → List ℕ → ℕ
count_recent now w = length (filter (recent now) w)

pub count_recent-append :
    (now t : ℕ) (w : List ℕ)
    → count_recent now (w ++ t ∷ []) ≡ count_recent now w + (if recent now t then 1 else 0)
count_recent-append now t [] = ground arith
count_recent-append now t (u ∷ w) = ground (arith, count_recent-append now t w)

-- What has left the window at one time stays out of it later.
pub count_recent-filter :
    (now later : ℕ) (w : List ℕ)
    → now ≤ later
    → count_recent later (filter (recent now) w) ≡ count_recent later w
count_recent-filter now later [] h = refl
count_recent-filter now later (t ∷ w) h = ground (arith, count_recent-filter now later w h)

abbrev pub AllGe : ℕ → List ℕ → Type 0
AllGe b [] = Unit
AllGe b (t ∷ w) = (b ≤ t) × AllGe b w

-- The times of a window rise up to `b`.
abbrev pub Rising : ℕ → List ℕ → Type 0
Rising b [] = Unit
Rising b (t ∷ w) = (t ≤ b) × AllGe t w × Rising b w

-- In a rising window that is stale, no time is recent from then on.
head-recent-stale :
    (now later t : ℕ) (w : List ℕ)
    → AllGe t w
    → stale now (t ∷ w) ≡ true
    → now ≤ later
    → recent later t ≡ false
unfolding stale
head-recent-stale now later t [] r s h = ground arith
head-recent-stale now later t (u ∷ []) r s h = ground arith
head-recent-stale now later t (u ∷ v ∷ w) r s h = head-recent-stale now later t (v ∷ w) r.1 s h

pub count_recent-stale :
    (now later b : ℕ) (w : List ℕ)
    → Rising b w
    → stale now w ≡ true
    → now ≤ later
    → count_recent later w ≡ 0
unfolding stale
count_recent-stale now later b [] r s h = refl
count_recent-stale now later b (t ∷ []) r s h =
    ground (arith, head-recent-stale now later t [] r.1 s h)
count_recent-stale now later b (t ∷ u ∷ w) r s h = ground (
  arith,
  head-recent-stale now later t (u ∷ w) r.1 s h,
  count_recent-stale now later b (u ∷ w) r.2 s h,
)

AllGe-append : (b now : ℕ) (w : List ℕ) → b ≤ now → AllGe b w → AllGe b (w ++ now ∷ [])
AllGe-append b now [] h a = (h, tt)
AllGe-append b now (t ∷ w) h a = (a.0, AllGe-append b now w h a.1)

pub Rising-append : (now : ℕ) (w : List ℕ) → Rising now w → Rising now (w ++ now ∷ [])
Rising-append now [] r = (omega arith, tt, tt)
Rising-append now (t ∷ w) r = (r.0, AllGe-append t now w r.0 r.1, Rising-append now w r.2)

pub Rising-mono : (b c : ℕ) (w : List ℕ) → b ≤ c → Rising b w → Rising c w
Rising-mono b c [] h r = tt
Rising-mono b c (t ∷ w) h r = (omega arith, r.1, Rising-mono b c w h r.2)

AllGe-filter : (b now : ℕ) (w : List ℕ) → AllGe b w → AllGe b (filter (recent now) w)
AllGe-filter b now [] a = tt
AllGe-filter b now (t ∷ w) a = ground (arith, AllGe-filter b now w a.1)

pub Rising-filter : (b now : ℕ) (w : List ℕ) → Rising b w → Rising b (filter (recent now) w)
Rising-filter b now [] r = tt
Rising-filter b now (t ∷ w) r = ground (arith, AllGe-filter t now w r.1, Rising-filter b now w r.2)
