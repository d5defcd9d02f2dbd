-- ===== src/Gate/ToolRefs/Close.antt =====
-- internal/gate/toolrefs.go: which names are suggested.
use text.Mathlib.Text.{starts_with}
use tool_mesh.Prelude.{
  ℕ, zero, suc, ◌≤◌, String, true, ◌||◌, List, [], ◌∷◌, leb, length, map, In, ◌≡◌, refl, sym, arith,
  Bool-cases, inl, inr, ◌⊎◌, subst,
}
use tool_mesh.Gate.ToolRefs.{
  bytes, levenshtein, max_edit_distance, Scored, precedes, add_candidate, candidates, insert_scored,
  sort_scored, first, close_matches,
}
use tool_mesh.Gate.ToolRefs.Distance.{edit, onto, levenshtein-edit}

-- One text begins with the other, or at most three letters must be changed.
abbrev pub IsClose : String → String → Type 0
IsClose literal t =
    (starts_with t literal || starts_with literal t ≡ true)
    ⊎ (edit (onto (bytes literal) []) (onto (bytes t) []) ≤ max_edit_distance)

abbrev AllNames : (String → Type 0) → List Scored → Type 0
AllNames P [] = Unit
AllNames P (c ∷ cs) = P c.name × AllNames P cs

module _ (P : String → Type 0) where
  insert_scored-AllNames :
      (c : Scored) (cs : List Scored) → P c.name → AllNames P cs → AllNames P (insert_scored c cs)
  unfolding insert_scored
  insert_scored-AllNames c [] here all = (here, tt)
  insert_scored-AllNames c (x ∷ cs) here (at_x, all) = elim (Bool-cases (precedes c x)) [
    | inl before ↦ rw before (here, (at_x, all))
    | inr behind ↦ rw behind (at_x, insert_scored-AllNames c cs here all)
  ]

  sort_scored-AllNames : (cs : List Scored) → AllNames P cs → AllNames P (sort_scored cs)
  unfolding sort_scored
  sort_scored-AllNames [] all = tt
  sort_scored-AllNames (c ∷ cs) (here, all) =
      insert_scored-AllNames c (sort_scored cs) here (sort_scored-AllNames cs all)

  first-AllNames : (n : ℕ) (cs : List Scored) → AllNames P cs → AllNames P (first n cs)
  unfolding first
  first-AllNames zero cs all = tt
  first-AllNames (suc n) [] all = tt
  first-AllNames (suc n) (c ∷ cs) (here, all) = (here, first-AllNames n cs all)

  AllNames-In :
      (cs : List Scored) (name : String) → AllNames P cs → In name (map (λ c. c.name) cs) → P name
  AllNames-In [] name all i = absurd i
  AllNames-In (c ∷ cs) name (here, all) i = elim i [
    | inl same ↦ subst P (sym same) here
    | inr there ↦ AllNames-In cs name all there
  ]

length-first : (n : ℕ) (cs : List Scored) → length (map (λ c. c.name) (first n cs)) ≤ n
unfolding first
length-first zero cs = omega arith
length-first (suc n) [] = omega arith
length-first (suc n) (c ∷ cs) = omega (arith, length-first n cs)

candidates-AllNames :
    (literal : String) (tools ts : List String)
    → ((n : String) → In n ts → In n tools)
    → AllNames (λ n. In n tools × IsClose literal n) (candidates literal ts)
unfolding candidates add_candidate
candidates-AllNames literal tools [] known = tt
candidates-AllNames literal tools (t ∷ ts) known =
    let rest = candidates-AllNames literal tools ts (λ n i. known n (inr i)) in
    elim (Bool-cases (starts_with t literal || starts_with literal t)) [
      | inl related ↦ rw related ((known t (inl refl), inl related), rest)
      | inr apart ↦ elim (Bool-cases (leb (levenshtein literal t) max_edit_distance)) [
        | inl near ↦
            rw (apart, near)
              (
                (
                  known t (inl refl),
                  inr (
                      subst (λ n. n ≤ max_edit_distance) (levenshtein-edit literal t)
                        (ground (arith, near))),
                ),
                rest,
              )
        | inr far ↦ rw (apart, far) rest
      ]
    ]

-- No more names are suggested than the limit, and each is that of a registered tool, where one of the
-- name and the literal begins with the other or their edit distance is at most three.
pub close_matches-IsClose :
    (literal : String) (tools : List String) (limit : ℕ) (name : String)
    → In name (close_matches literal tools limit)
    → (length (close_matches literal tools limit) ≤ limit) × In name tools × IsClose literal name
unfolding close_matches
close_matches-IsClose literal tools limit name i =
    let sorted = sort_scored (candidates literal tools) in
    let good =
      AllNames-In (λ n. In n tools × IsClose literal n) (first limit sorted) name
        (first-AllNames _ limit sorted (
          sort_scored-AllNames _ (candidates literal tools)
            (candidates-AllNames literal tools tools (λ n j. j))))
        i in
    (length-first limit sorted, good.0, good.1)
