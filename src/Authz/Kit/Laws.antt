-- ===== src/Authz/Kit/Laws.antt =====
-- Membership through sorting and compacting, and quantifiers over the entries of a kit.
use tool_mesh.Prelude.{
  String, Bool, true, ◌||◌, List, [], ◌∷◌, ◌==◌, eq_iff, any, all, contains, ◌≡◌, refl, arith, none,
  Bool-cases, inl, inr, sym, ◌∙◌,
}
use tool_mesh.Authz.Kit.{insert_sorted, sorted, compact, first_missing}

contains-insert_sorted :
    (a s : String) (xs : List String) → contains (insert_sorted s xs) a ≡ (s == a || contains xs a)
unfolding contains insert_sorted
contains-insert_sorted a s [] = refl
contains-insert_sorted a s (x ∷ xs) = ground (arith, contains-insert_sorted a s xs)

pub contains-sorted : (a : String) (xs : List String) → contains (sorted xs) a ≡ contains xs a
unfolding contains sorted
contains-sorted a [] = refl
contains-sorted a (x ∷ xs) =
    ground (arith, contains-insert_sorted a x (sorted xs), contains-sorted a xs)

pub contains-compact : (a : String) (xs : List String) → contains (compact xs) a ≡ contains xs a
unfolding contains compact
contains-compact a [] = refl
contains-compact a (x ∷ []) = refl
contains-compact a (x ∷ y ∷ xs) =
    ground (arith, contains-compact a (y ∷ xs), eq_iff x y, eq_iff y a, eq_iff x a)

-- Every entry of a list that has none missing is listed.
pub first_missing-contains :
    (listed xs : List String) (a : String)
    → first_missing listed xs ≡ none
    → contains xs a ≡ true
    → contains listed a ≡ true
unfolding contains first_missing
first_missing-contains listed [] a h k = ground arith
first_missing-contains listed (x ∷ xs) a h k =
    ground (arith, first_missing-contains listed xs a, eq_iff x a)

module _ {ℓ} {A : Type ℓ} where
  -- A test that implies another holds of fewer elements.
  pub any_mono :
      (p q : A → Bool) (xs : List A)
      → ((a : A) → p a ≡ true → q a ≡ true)
      → any p xs ≡ true
      → any q xs ≡ true
  any_mono p q [] h k = k
  any_mono p q (x ∷ xs) h k = ground (arith, h x, any_mono p q xs h)

-- An element that passes makes `any` pass.
pub any_of_contains :
    (q : String → Bool) (xs : List String) (a : String)
    → contains xs a ≡ true
    → q a ≡ true
    → any q xs ≡ true
unfolding contains
any_of_contains q [] a h k = ground arith
any_of_contains q (x ∷ xs) a h k = ground (arith, eq_iff x a, any_of_contains q xs a)

-- Where all pass, a listed one does.
pub all-contains :
    (q : String → Bool) (xs : List String) (a : String)
    → all q xs ≡ true
    → contains xs a ≡ true
    → q a ≡ true
unfolding contains
all-contains q [] a h k = ground arith
all-contains q (x ∷ xs) a h k = ground (arith, eq_iff x a, all-contains q xs a)

-- An element that passes: `any` is decided by the elements that a list contains.
pub any_elim :
    (q : String → Bool) (xs : List String)
    → any q xs ≡ true
    → (a : String) × (contains xs a ≡ true) × (q a ≡ true)
unfolding contains
any_elim q [] h = ground arith
any_elim q (x ∷ xs) h = elim (Bool-cases (q x)) [
  | inl here ↦ (x, ground (arith, eq_iff x x), here)
  | inr there ↦ let (a, listed, passes) = any_elim q xs (ground arith) in (a, ground arith, passes)
]

pub Bool-iff : {a b : Bool} → (a ≡ true → b ≡ true) → (b ≡ true → a ≡ true) → a ≡ b
Bool-iff {a} {b} f g = ground arith

-- Two lists that contain the same texts.
pub any_same :
    (q : String → Bool) (xs ys : List String)
    → ((a : String) → contains xs a ≡ contains ys a)
    → any q xs ≡ any q ys
any_same q xs ys same =
    Bool-iff (λ h. let (a, l, p) = any_elim q xs h in any_of_contains q ys a (sym (same a) ∙ l) p)
      (λ h. let (a, l, p) = any_elim q ys h in any_of_contains q xs a (same a ∙ l) p)
