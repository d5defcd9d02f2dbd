-- ===== src/Gate/ToolRefs/Distance.antt =====
-- internal/gate/toolrefs.go: the table of levenshtein against the recursive edit distance.
use tool_mesh.Prelude.{
  ℕ, suc, ◌+◌, min, String, List, [], ◌∷◌, ◌==◌, eq_iff, length, ◌≡◌, refl, sym, ap, ◌∙◌, arith,
  Bool-cases, inl, inr,
}
use tool_mesh.Gate.ToolRefs.{
  bytes, Row, cost, next_cells, rows, first_cells, last_cell, table, levenshtein,
}

-- The distance of the texts c ∷ a and b from that of a and each text.
unfoldable pub edit_more : (List ℕ → ℕ) → ℕ → ℕ → List ℕ → ℕ
edit_more f c n [] = n
edit_more f c n (d ∷ b) = min (f (d ∷ b) + 1) (min (edit_more f c n b + 1) (f b + cost c d))

-- How many letters must be put in, left out or replaced; the last letters stand first.
unfoldable pub edit : List ℕ → List ℕ → ℕ
unfolding edit_more
edit [] b = length b
edit (c ∷ a) b = edit_more (edit a) c (suc (length a)) b

unfoldable pub onto : List ℕ → List ℕ → List ℕ
onto [] b = b
onto (c ∷ a) b = onto a (c ∷ b)

-- The cells of a row, where `b` is behind.
unfoldable pub cells : (List ℕ → ℕ) → List ℕ → List ℕ → List ℕ
cells f b [] = []
cells f b (d ∷ ds) = f (d ∷ b) ∷ cells f (d ∷ b) ds

next_cells-cells :
    (f : List ℕ → ℕ) (c n : ℕ) (b ds : List ℕ)
    → next_cells c ds (edit_more f c n b) (f b) (cells f b ds) ≡ cells (edit_more f c n) b ds
unfolding next_cells cells edit_more
next_cells-cells f c n b [] = refl
next_cells-cells f c n b (d ∷ ds) =
    ap (λ r. edit_more f c n (d ∷ b) ∷ r) (next_cells-cells f c n (d ∷ b) ds)

first_cells-cells : (b ds : List ℕ) → first_cells (suc (length b)) ds ≡ cells length b ds
unfolding first_cells cells
first_cells-cells b [] = refl
first_cells-cells b (d ∷ ds) = ap (λ r. suc (length b) ∷ r) (first_cells-cells (d ∷ b) ds)

rows-cells :
    (done a b : List ℕ)
    → rows (suc (length done)) a b (edit done [], cells (edit done) [] b)
      ≡ (edit (onto a done) [], cells (edit (onto a done)) [] b)
unfolding rows edit onto edit_more
rows-cells done [] b = refl
rows-cells done (c ∷ a) b =
    ap (λ r. rows (suc (suc (length done))) a b (suc (length done), r))
      (next_cells-cells (edit done) c (suc (length done)) [] b)
    ∙ rows-cells (c ∷ done) a b

last_cell-cells : (f : List ℕ → ℕ) (b ds : List ℕ) → last_cell (f b) (cells f b ds) ≡ f (onto ds b)
unfolding last_cell cells onto
last_cell-cells f b [] = refl
last_cell-cells f b (d ∷ ds) = last_cell-cells f (d ∷ b) ds

table-edit : (a b : List ℕ) → table a b ≡ edit (onto a []) (onto b [])
unfolding table edit
table-edit a b =
    ap (λ r. last_of (rows 1 a b (0, r))) (first_cells-cells [] b)
    ∙ ap last_of (rows-cells [] a b)
    ∙ last_cell-cells (edit (onto a [])) [] b
  where
    last_of : Row → ℕ
    last_of (first, row) = last_cell first row

edit-same : (a : List ℕ) → edit a a ≡ 0
unfolding edit edit_more
edit-same [] = refl
edit-same (c ∷ a) = ground (arith, edit-same a)

-- levenshtein is the edit distance of the bytes of the texts, read from their ends.
pub levenshtein-edit :
    (a b : String) → levenshtein a b ≡ edit (onto (bytes a) []) (onto (bytes b) [])
unfolding levenshtein
levenshtein-edit a b = elim (Bool-cases (a == b)) [
  | inl same ↦ rw same (
      sym (edit-same (onto (bytes b) []))
      ∙ ap (λ x. edit (onto (bytes x) []) (onto (bytes b) [])) (sym ((eq_iff a b).0 same)))
  | inr other ↦ rw other (table-edit (bytes a) (bytes b))
]
