-- ===== src/Backend/Composite/Longest.antt =====
-- internal/backend/composite.go: which backend the longest prefix is of.
use Prim.Native.String.{len}
use text.Mathlib.Text.{starts_with}
use text.Mathlib.TextLemmas.{append_cancel_right}
use text.Mathlib.TextEquality.{starts_with_iff}
use mathlib.Core.Option.{some-injective}
use mathlib.Core.Path.{ap₂}
use tool_mesh.Prelude.{
  ℕ, String, Bool, true, false, ◌&&◌, Option, none, some, List, [], ◌∷◌, ◌==◌, eq_iff, eq_refl, ltb,
  In, is_some, ◌≤◌, ◌≡◌, refl, sym, ap, ◌∙◌, arith, Bool-cases, inl, inr, ◌⊎◌, subst,
}
use tool_mesh.Prelude.Decimal.{append_same}
use tool_mesh.Prelude.Dict.{lookup, IsMap}
use tool_mesh.Backend.Composite.{
  ToolBackend, Composite, PrefixMatch, prefix_of, is_longer, try_prefix, try_named, try_summaries,
  summaries, longest_prefix,
}

abbrev pub size : String → ℕ
size name = len (prefix_of name)

abbrev pub hits : String → String → Bool
hits tool name = starts_with tool (prefix_of name)

abbrev pub found : String → Option ToolBackend → PrefixMatch
found name b = record { name = name; backend = b; length = size name }

-- Two names of one length that a text begins with are the same.
pub hits_same :
    (tool m n : String) → hits tool m ≡ true → hits tool n ≡ true → size m ≡ size n → m ≡ n
hits_same tool m n hm hn same =
    let (s, begins_m) = (starts_with_iff tool (prefix_of m)).0 hm in
    let (t, begins_n) = (starts_with_iff tool (prefix_of n)).0 hn in
    append_cancel_right m n "_"
      (append_same (prefix_of m) (prefix_of n) s t same (begins_m ∙ sym begins_n)).0

-- At least as long as a match there is.
abbrev pub AtLeast : ℕ → Option PrefixMatch → Type 0
AtLeast n o = (m : PrefixMatch) × (o ≡ some m) × (n ≤ m.length)

try_prefix-keeps :
    (tool name : String) (b : Option ToolBackend) (best : Option PrefixMatch) (n : ℕ)
    → AtLeast n best
    → AtLeast n (try_prefix tool name b best)
unfolding try_prefix
try_prefix-keeps tool name b best n (m, is_m, long) =
    elim (Bool-cases (hits tool name && is_longer (size name) best)) [
      | inl better ↦
          rw better
            (found name b, refl, ground (arith, long, better, ap (is_longer (size name)) is_m))
      | inr worse ↦ rw worse (m, is_m, long)
    ]

try_prefix-long :
    (tool name : String) (b : Option ToolBackend) (best : Option PrefixMatch)
    → hits tool name ≡ true
    → AtLeast (size name) (try_prefix tool name b best)
unfolding try_prefix
try_prefix-long tool name b none hit = rw hit (found name b, refl, omega arith)
try_prefix-long tool name b (some m) hit = elim (Bool-cases (ltb m.length (size name))) [
  | inl better ↦ rw (hit, better) (found name b, refl, omega arith)
  | inr worse ↦ rw (hit, worse) (m, refl, ground (arith, worse))
]

try_named-keeps :
    (tool : String) (bs : List (String × ToolBackend)) (best : Option PrefixMatch) (n : ℕ)
    → AtLeast n best
    → AtLeast n (try_named tool bs best)
unfolding try_named
try_named-keeps tool [] best n long = long
try_named-keeps tool ((name, b) ∷ bs) best n long =
    try_named-keeps tool bs (try_prefix tool name (some b) best) n
      (try_prefix-keeps tool name (some b) best n long)

-- A registered name that the call begins with is no longer than the match.
pub try_named-long :
    (tool name : String) (b : ToolBackend) (bs : List (String × ToolBackend))
    (best : Option PrefixMatch)
    → lookup name bs ≡ some b
    → hits tool name ≡ true
    → AtLeast (size name) (try_named tool bs best)
unfolding try_named lookup
try_named-long tool name b [] best known hit = cc known
try_named-long tool name b ((other, c) ∷ bs) best known hit = elim (Bool-cases (other == name)) [
  | inl same ↦
      let here = (eq_iff other name).0 same in
      try_named-keeps tool bs (try_prefix tool other (some c) best) (size name) (
        subst (λ n. AtLeast (size n) (try_prefix tool other (some c) best)) here
          (try_prefix-long tool other (some c) best (ap (hits tool) here ∙ hit)))
  | inr later ↦
      try_named-long tool name b bs (try_prefix tool other (some c) best) (rw later at known) hit
]

-- Where a match comes from.
abbrev pub From : String → List (String × ToolBackend) → PrefixMatch → Type 0
From tool bs m =
    (b : ToolBackend) × (m ≡ found m.name (some b))
    × (lookup m.name bs ≡ some b)
    × (hits tool m.name ≡ true)

From-later :
    (tool name : String) (c : ToolBackend) (bs : List (String × ToolBackend)) (m : PrefixMatch)
    → lookup name bs ≡ none
    → From tool bs m
    → From tool ((name, c) ∷ bs) m
unfolding lookup
From-later tool name c bs m new (b, is_m, known, hit) = elim (Bool-cases (name == m.name)) [
  | inl same ↦ absurd (cc (sym new ∙ ap (λ n. lookup n bs) ((eq_iff name m.name).0 same) ∙ known))
  | inr other ↦ (b, is_m, rw other known, hit)
]

pub try_named-From :
    (tool : String) (bs : List (String × ToolBackend)) (best : Option PrefixMatch) (m : PrefixMatch)
    → IsMap bs
    → try_named tool bs best ≡ some m
    → (best ≡ some m) ⊎ From tool bs m
unfolding try_named try_prefix lookup
try_named-From tool [] best m map_ e = inl e
try_named-From tool ((name, b) ∷ bs) best m (new, rest) e =
    elim (try_named-From tool bs (try_prefix tool name (some b) best) m rest e) [
      | inr later ↦ inr (From-later tool name b bs m new later)
      | inl here ↦ elim (Bool-cases (hits tool name && is_longer (size name) best)) [
        | inl better ↦
            let is_m : found name (some b) ≡ m = some-injective _ _ (rw better at here) in
            inr (
              subst (From tool ((name, b) ∷ bs)) is_m
                (b, refl, rw (eq_refl name) refl, ground (arith, better)))
        | inr worse ↦ inl (rw worse at here)
      ]
    ]

-- What the passthroughs advertise changes nothing if none of it is longer.
try_summaries-short :
    (tool : String) (names : List String) (m : PrefixMatch)
    → ((n : String) → In n names → hits tool n ≡ true → size n ≤ m.length)
    → try_summaries tool names (some m) ≡ some m
unfolding try_summaries try_prefix
try_summaries-short tool [] m short = refl
try_summaries-short tool (name ∷ names) m short =
    let rest = try_summaries-short tool names m (λ n i. short n (inr i)) in
    elim (Bool-cases (name == "")) [
      | inl empty ↦ rw empty rest
      | inr named ↦ elim (Bool-cases (hits tool name)) [
        | inr miss ↦ rw (named, miss) rest
        | inl hit ↦
            let worse : ltb m.length (size name) ≡ false =
              ground (arith, short name (inl refl) hit) in
            rw (named, hit, worse) rest
      ]
    ]

-- The name is registered for the backend, the call begins with it, and no other name that is
-- registered or advertised and that the call begins with is longer.
pub record Owns (c : Composite) (name : String) (b : ToolBackend) (tool : String) : Type 0 where
  pub registered : lookup name c.backends ≡ some b
  pub begins : hits tool name ≡ true
  pub longest :
      (n : String)
      → (is_some (lookup n c.backends) ≡ true) ⊎ In n (summaries c.passthroughs)
      → hits tool n ≡ true
      → size n ≤ size name

pub longest_prefix-Owns :
    (c : Composite) (name : String) (b : ToolBackend) (tool : String)
    → IsMap c.backends
    → Owns c name b tool
    → longest_prefix tool c ≡ some (found name (some b))
unfolding longest_prefix
longest_prefix-Owns c name b tool map_ owns =
    let (m, is_m, long) = try_named-long tool name b c.backends none owns.registered owns.begins in
    elim (try_named-From tool c.backends none m map_ is_m) [
      | inl none_is ↦ cc none_is
      | inr (b', shape, known, hit) ↦
          let size_m : m.length ≡ size m.name = ap (λ (x : PrefixMatch). x.length) shape in
          let short = owns.longest m.name (inl (ap is_some known)) hit in
          let same =
            hits_same tool m.name name hit owns.begins (omega (arith, long, short, size_m)) in
          let b_same : b' ≡ b =
            some-injective _ _ (sym known ∙ ap (λ n. lookup n c.backends) same ∙ owns.registered) in
          let target : m ≡ found name (some b) =
            shape ∙ ap₂ (λ n x. found n (some x)) same b_same in
          ap (try_summaries tool (summaries c.passthroughs)) (is_m ∙ ap some target)
          ∙ try_summaries-short tool (summaries c.passthroughs) (found name (some b))
              (λ n i. owns.longest n (inr i))
    ]
