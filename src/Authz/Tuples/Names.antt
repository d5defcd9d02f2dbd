-- ===== src/Authz/Tuples/Names.antt =====
-- internal/authz: objects are the same exactly where their names are.
use Prim.Native.String.{String, [], ◌∷◌, ◌++◌ as append}
use text.Mathlib.TextLemmas.{nil-append, cons-append}
use mathlib.Core.Path.{ap₂}
use tool_mesh.Prelude.{
  true, false, ◌&&◌, ◌==◌, eq_iff, ◌≡◌, refl, sym, ap, ◌∙◌, arith, Bool-cases, inl, inr,
}
use mathlib.Core.Bool.{false≢true}
use tool_mesh.Prelude.Text.{has_char}
use tool_mesh.Authz.Kit.Laws.{Bool-iff}
use tool_mesh.Authz.Escape.{escape_id, is_escaped}
use tool_mesh.Authz.Escape.Injective.{escape_id-injective}
use tool_mesh.Authz.Escape.Safe.{escape_id-safe, append-split}
use tool_mesh.Authz.Tuples.{backend_access_id}

pub same_id : (a b : String) → (escape_id a == escape_id b) ≡ (a == b)
same_id a b =
    Bool-iff
      (λ h. (eq_iff a b).1 (escape_id-injective a b ((eq_iff (escape_id a) (escape_id b)).0 h)))
      (λ h. (eq_iff (escape_id a) (escape_id b)).1 (ap escape_id ((eq_iff a b).0 h)))

colon : is_escaped b':' ≡ true
unfolding is_escaped
colon = refl

star : is_escaped b'*' ≡ true
unfolding is_escaped
star = refl

has_star : has_char b'*' "*" ≡ true
unfolding has_char
has_star = refl

-- No name is written as the star of user:*.
pub not_star : (a : String) → (escape_id a == "*") ≡ false
not_star a = elim (Bool-cases (escape_id a == "*")) [
  | inl same ↦ absurd (
      false≢true (
        sym (escape_id-safe b'*' a star refl)
        ∙ ap (has_char b'*') ((eq_iff (escape_id a) "*").0 same)
        ∙ has_star))
  | inr other ↦ other
]

after_colon : (s : String) → append ":" s ≡ ":" ∷ s
after_colon s = cons-append ":" [] s ∙ ap (λ (x : String). ":" ∷ x) (nil-append s)

pair_text : String → String → String
pair_text a b = append (escape_id a) (append ":" (escape_id b))

pair_text-injective : (a b c d : String) → pair_text a b ≡ pair_text c d → (a ≡ c) × (b ≡ d)
unfolding pair_text
pair_text-injective a b c d h =
    let left = ap (append (escape_id a)) (after_colon (escape_id b)) in
    let right = ap (append (escape_id c)) (after_colon (escape_id d)) in
    let (first, second) =
      append-split ":" (escape_id a) (escape_id c) (escape_id b) (escape_id d)
        (escape_id-safe b':' a colon refl) (escape_id-safe b':' c colon refl)
        (sym left ∙ h ∙ right) in
    (escape_id-injective a c first, escape_id-injective b d second)

backend_access_id-injective :
    (a b c d : String) → backend_access_id a b ≡ backend_access_id c d → (a ≡ c) × (b ≡ d)
unfolding backend_access_id pair_text
backend_access_id-injective a b c d h =
    pair_text-injective a b c d (escape_id-injective (pair_text a b) (pair_text c d) h)

pub same_backend_access :
    (a b c d : String) → (backend_access_id a b == backend_access_id c d) ≡ (a == c && b == d)
same_backend_access a b c d =
    Bool-iff
      (λ h.
        let (x, y) =
          backend_access_id-injective a b c d
            ((eq_iff (backend_access_id a b) (backend_access_id c d)).0 h) in
        ground (arith, (eq_iff a c).1 x, (eq_iff b d).1 y))
      (λ h.
        let x : a ≡ c = ground (arith, h, eq_iff a c) in
        let y : b ≡ d = ground (arith, h, eq_iff b d) in
        (eq_iff (backend_access_id a b) (backend_access_id c d)).1 (ap₂ backend_access_id x y))
