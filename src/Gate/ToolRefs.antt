-- ===== src/Gate/ToolRefs.antt =====
-- internal/gate/toolrefs.go: the registered tools that a name in a policy may have meant.
pub mod Distance
pub mod Close
pub mod Tests
use Prim.Native.Nat.{Ordering}
use Prim.Native.Char.{code}
use Prim.Native.String.{compare, len, [], ◌∷◌}
use text.Mathlib.Text.{starts_with}
use tool_mesh.Prelude.{
  ℕ, zero, suc, ◌+◌, ◌-◌, min, String, Bool, true, false, not, ◌||◌, List, [], ◌∷◌, ◌++◌, ◌==◌,
  if◌then◌else◌, leb, eqb, ltb, map,
}
use tool_mesh.Authz.Escape.{utf8}

-- The bytes of a Go string.
unfoldable pub bytes : String → List ℕ
unfolding utf8
bytes [] = []
bytes (c ∷ s) = utf8 (code c) ++ bytes s

-- A row of the table: its first cell, and the others.
abbrev pub Row : Type 0
Row = ℕ × List ℕ

abbrev pub cost : ℕ → ℕ → ℕ
cost c d = if eqb c d then 0 else 1

-- The inner loop: `left` is curr[j-1], `diagonal` is prev[j-1], and `up` is prev[j].
unfoldable pub next_cells : ℕ → List ℕ → ℕ → ℕ → List ℕ → List ℕ
next_cells c [] left diagonal row = []
next_cells c (d ∷ ds) left diagonal [] = []
next_cells c (d ∷ ds) left diagonal (up ∷ row) =
    let cell = min (up + 1) (min (left + 1) (diagonal + cost c d)) in
    cell ∷ next_cells c ds cell up row

-- The outer loop, from `i` on.
unfoldable pub rows : ℕ → List ℕ → List ℕ → Row → Row
unfolding next_cells
rows i [] b prev = prev
rows i (c ∷ a) b (diagonal, row) = rows (suc i) a b (i, next_cells c b i diagonal row)

-- prev[j] = j
unfoldable pub first_cells : ℕ → List ℕ → List ℕ
first_cells n [] = []
first_cells n (d ∷ ds) = n ∷ first_cells (suc n) ds

unfoldable pub last_cell : ℕ → List ℕ → ℕ
last_cell n [] = n
last_cell n (m ∷ ms) = last_cell m ms

unfoldable pub table : List ℕ → List ℕ → ℕ
unfolding rows first_cells last_cell
table a b = let (first, row) = rows 1 a b (0, first_cells 1 b) in last_cell first row

unfoldable pub levenshtein : String → String → ℕ
unfolding table bytes
levenshtein a b = if a == b then 0 else table (bytes a) (bytes b)

abbrev pub max_edit_distance : ℕ
max_edit_distance = 3

pub record Scored : Type 0 where
  pub name : String
  pub score : ℕ

-- The body of the loop of closeMatches, before the candidates of the others.
unfoldable pub add_candidate : String → String → List Scored → List Scored
unfolding levenshtein
add_candidate literal t rest =
    if starts_with t literal || starts_with literal t
    then record { name = t; score = (len t - len literal) + (len literal - len t) } ∷ rest
    else let d = levenshtein literal t in
      if leb d max_edit_distance then record { name = t; score = 100 + d } ∷ rest else rest

unfoldable pub candidates : String → List String → List Scored
unfolding add_candidate
candidates literal [] = []
candidates literal (t ∷ ts) = add_candidate literal t (candidates literal ts)

abbrev is_gt : Ordering → Bool
is_gt Ordering.gt = true
is_gt Ordering.eq = false
is_gt Ordering.lt = false

-- The smaller score first, and of one score the smaller name.
abbrev precedes : Scored → Scored → Bool
precedes a b =
    if eqb a.score b.score then not (is_gt (compare a.name b.name)) else ltb a.score b.score

unfoldable pub insert_scored : Scored → List Scored → List Scored
insert_scored c [] = c ∷ []
insert_scored c (x ∷ xs) =
    let rest = insert_scored c xs in if precedes c x then c ∷ x ∷ xs else x ∷ rest

-- sort.Slice
unfoldable pub sort_scored : List Scored → List Scored
unfolding insert_scored
sort_scored [] = []
sort_scored (c ∷ cs) = insert_scored c (sort_scored cs)

unfoldable pub first : ℕ → List Scored → List Scored
first zero cs = []
first (suc n) [] = []
first (suc n) (c ∷ cs) = c ∷ first n cs

unfoldable pub close_matches : String → List String → ℕ → List String
unfolding candidates sort_scored first
close_matches literal tools limit =
    map (λ c. c.name) (first limit (sort_scored (candidates literal tools)))
