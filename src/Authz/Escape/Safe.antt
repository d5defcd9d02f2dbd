-- ===== src/Authz/Escape/Safe.antt =====
-- internal/authz/authz.go: what no id contains.
use Prim.Native.Char.{Char, code}
use Prim.Native.String.{String, [], ◌∷◌, ◌++◌ as append}
use text.Mathlib.TextLemmas.{head-eq_of_cons-eq, tail-eq_of_cons-eq, nil-append, cons-append}
use mathlib.Core.Bool.{false≢true}
use tool_mesh.Prelude.{
  ℕ, ◌/◌, ◌%◌, ◌<◌, true, false, List, [], ◌∷◌, eqb, ◌≡◌, refl, sym, ap, ◌∙◌, arith, Bool-cases,
  inl, inr,
}
use tool_mesh.Prelude.Text.{is_space, has_char}
use tool_mesh.Authz.Escape.{utf8, hex_digit, is_escaped, percent, escape_char, escape_id}
use tool_mesh.Authz.Escape.Injective.{code-hex_digit, AreBytes, AreBytes-utf8, is_escaped-lt}

-- A hexadecimal digit is not encoded.
hex_digit_plain : (k x : ℕ) → x < 16 → is_escaped k ≡ true → eqb (code (hex_digit x)) k ≡ false
unfolding is_escaped is_space
hex_digit_plain k x h e = ground (arith, h, e, code-hex_digit x h)

has_char-percent :
    (k : ℕ) (ys : List ℕ) (s : String)
    → is_escaped k ≡ true
    → eqb k b'%' ≡ false
    → AreBytes ys
    → has_char k s ≡ false
    → has_char k (percent ys s) ≡ false
unfolding percent has_char
has_char-percent k [] s e p bytes h = h
has_char-percent k (b ∷ ys) s e p (b0, bytes) h = ground (
  arith,
  p,
  hex_digit_plain k (b / 16) (omega arith) e,
  hex_digit_plain k (b % 16) (omega arith) e,
  has_char-percent k ys s e p bytes h,
)

differs : (c k : ℕ) → is_escaped c ≡ false → is_escaped k ≡ true → eqb c k ≡ false
differs c k h e = elim (Bool-cases (eqb c k)) [
  | inl same ↦
      let equal : c ≡ k = ground (arith, same) in
      absurd (false≢true (sym h ∙ ap is_escaped equal ∙ e))
  | inr other ↦ other
]

has_char-escape_char :
    (k : ℕ) (c : Char) (s : String)
    → is_escaped k ≡ true
    → eqb k b'%' ≡ false
    → has_char k s ≡ false
    → has_char k (escape_char c s) ≡ false
unfolding escape_char has_char
has_char-escape_char k c s e p h = elim (Bool-cases (is_escaped (code c))) [
  | inl coded ↦ rw coded (
      has_char-percent k (utf8 (code c)) s e p
        (AreBytes-utf8 (code c) (is_escaped-lt (code c) coded)) h)
  | inr plain ↦ rw plain (ground (arith, h, differs (code c) k plain e))
]

-- No character that is encoded stands in an id, apart from the `%` of an encoding: no colon, no
-- number sign, no star, no space and no control character.
pub escape_id-safe :
    (k : ℕ) (s : String)
    → is_escaped k ≡ true
    → eqb k b'%' ≡ false
    → has_char k (escape_id s) ≡ false
unfolding escape_id has_char
escape_id-safe k [] e p = refl
escape_id-safe k (c ∷ s) e p = has_char-escape_char k c (escape_id s) e p (escape_id-safe k s e p)

-- Two names with a character between that the first has not.
pub append-split :
    (k : Char) (a b s t : String)
    → has_char (code k) a ≡ false
    → has_char (code k) b ≡ false
    → append a (k ∷ s) ≡ append b (k ∷ t)
    → (a ≡ b) × (s ≡ t)
unfolding has_char
append-split k [] [] s t ha hb e =
    (refl, tail-eq_of_cons-eq (sym (nil-append (k ∷ s)) ∙ e ∙ nil-append (k ∷ t)))
append-split k [] (d ∷ b) s t ha hb e =
    let same = head-eq_of_cons-eq (sym (nil-append (k ∷ s)) ∙ e ∙ cons-append d b (k ∷ t)) in
    absurd (ground (arith, hb, ap code same))
append-split k (c ∷ a) [] s t ha hb e =
    let same = head-eq_of_cons-eq (sym (cons-append c a (k ∷ s)) ∙ e ∙ nil-append (k ∷ t)) in
    absurd (ground (arith, ha, ap code same))
append-split k (c ∷ a) (d ∷ b) s t ha hb e =
    let cons = sym (cons-append c a (k ∷ s)) ∙ e ∙ cons-append d b (k ∷ t) in
    let same = head-eq_of_cons-eq cons in
    let (more, rest) =
      append-split k a b s t (ground (arith, ha)) (ground (arith, hb)) (tail-eq_of_cons-eq cons) in
    (cc, rest)
