-- ===== src/Backend/Composite/Routed.antt =====
-- internal/backend/composite.go: where a call goes, is looked up and is reported to go.
use Prim.Native.String.{◌++◌ as append}
use mathlib.Core.Option.{some-injective}
use mathlib.Core.Path.{ap₂}
use tool_mesh.Prelude.{
  String, none, some, List, ◌==◌, if◌then◌else◌, ◌≤◌, ◌≡◌, sym, ap, ◌∙◌, arith, Option-cases, inl,
  inr, subst,
}
use tool_mesh.Prelude.Dict.{lookup, IsMap}
use tool_mesh.Base.{Params}
use tool_mesh.Backend.Composite.{
  ToolBackend, Composite, PrefixMatch, try_named, try_summaries, summaries, longest_prefix,
  named_target, execute, execute_at, lookup_tool, lookup_at, resolve_backend_name, name_of, asked,
  renamed,
}
use tool_mesh.Backend.Composite.Longest.{
  found, hits_same, From, AtLeast, try_named-long, try_named-From,
}

-- What a call of a tool of a backend comes to: the backend's own answer to the rest of the name.
pub record Routed (quote : String → String) (c : Composite) (name : String) (b : ToolBackend)
    (tool rest : String) (params : Params) : Type 0 where
  pub executed : execute quote c tool params ≡ b.execute rest params
  pub looked_up : lookup_tool c tool ≡ renamed tool (asked b.lookup_tool rest)
  pub resolved : resolve_backend_name c tool ≡ (if name == "" then none else some name)

-- Two walks of one map of backends.
abbrev pub SameMap : List (String × ToolBackend) → List (String × ToolBackend) → Type 0
SameMap bs cs = (name : String) → lookup name bs ≡ lookup name cs

module _ (tool : String) (bs cs : List (String × ToolBackend)) (map_b : IsMap bs) (map_c : IsMap cs)
    (same : SameMap bs cs) where
  no_more :
      (m : PrefixMatch)
      → try_named tool cs none ≡ some m
      → AtLeast m.length (try_named tool bs none)
  no_more m e = elim (try_named-From tool cs none m map_c e) [
    | inl none_is ↦ cc none_is
    | inr (b, shape, known, hit) ↦
        subst (λ n. AtLeast n (try_named tool bs none))
          (sym (ap (λ (x : PrefixMatch). x.length) shape))
          (try_named-long tool m.name b bs none (same m.name ∙ known) hit)
  ]

match_same :
    (tool : String) (bs cs : List (String × ToolBackend)) (m n : PrefixMatch)
    → SameMap bs cs
    → From tool bs m
    → From tool cs n
    → m.length ≡ n.length
    → m ≡ n
match_same tool bs cs m n same (b, shape_m, known_m, hit_m) (c, shape_n, known_n, hit_n) long =
    let size_m = ap (λ (x : PrefixMatch). x.length) shape_m in
    let size_n = ap (λ (x : PrefixMatch). x.length) shape_n in
    let names = hits_same tool m.name n.name hit_m hit_n (sym size_m ∙ long ∙ size_n) in
    let backends : b ≡ c =
      some-injective _ _ (sym known_m ∙ ap (λ x. lookup x bs) names ∙ same n.name ∙ known_n) in
    shape_m ∙ ap₂ (λ x y. found x (some y)) names backends ∙ sym shape_n

try_named-same :
    (tool : String) (bs cs : List (String × ToolBackend))
    → IsMap bs
    → IsMap cs
    → SameMap bs cs
    → try_named tool bs none ≡ try_named tool cs none
try_named-same tool bs cs map_b map_c same = elim (Option-cases (try_named tool bs none)) [
  | inl none_b ↦ elim (Option-cases (try_named tool cs none)) [
    | inl none_c ↦ none_b ∙ sym none_c
    | inr (n, is_n) ↦
        let (m, is_m, long) = no_more tool bs cs map_b map_c same n is_n in cc (none_b, is_m)
  ]
  | inr (m, is_m) ↦
      let (n, is_n, long_n) = no_more tool cs bs map_c map_b (λ x. sym (same x)) m is_m in
      let (m', is_m', long_m) = no_more tool bs cs map_b map_c same n is_n in
      let again : m' ≡ m = some-injective _ _ (sym is_m' ∙ is_m) in
      let long = subst (λ (x : PrefixMatch). n.length ≤ x.length) again long_m in
      elim (try_named-From tool bs none m map_b is_m) [
        | inl none_is ↦ cc none_is
        | inr from_m ↦ elim (try_named-From tool cs none n map_c is_n) [
          | inl none_is ↦ cc none_is
          | inr from_n ↦
              is_m
              ∙ ap some (match_same tool bs cs m n same from_m from_n (omega (arith, long, long_n)))
              ∙ sym is_n
        ]
      ]
]

-- Go walks a map in no fixed order. Two walks of one map of backends execute each call alike.
pub execute-SameMap :
    (quote : String → String) (c d : Composite) (tool : String) (params : Params)
    → IsMap c.backends
    → IsMap d.backends
    → SameMap c.backends d.backends
    → c.passthroughs ≡ d.passthroughs
    → (execute quote c tool params ≡ execute quote d tool params)
      × (lookup_tool c tool ≡ lookup_tool d tool)
      × (resolve_backend_name c tool ≡ resolve_backend_name d tool)
unfolding execute lookup_tool resolve_backend_name longest_prefix
execute-SameMap quote c d tool params map_c map_d same others =
    let match_ : longest_prefix tool c ≡ longest_prefix tool d =
      ap₂ (λ m p. try_summaries tool (summaries p) m)
        (try_named-same tool c.backends d.backends map_c map_d same) others in
    (
      ap₂ (λ m p. execute_at quote (named_target m) p tool params) match_ others,
      ap₂ (λ m p. lookup_at (named_target m) p tool) match_ others,
      ap name_of match_,
    )
