-- ===== src/Authz/Escape/Injective.antt =====
-- internal/authz/authz.go: distinct names have distinct ids.
use Prim.Native.Char.{Char, code}
use Prim.Native.String.{String, [], ◌∷◌}
use text.Mathlib.TextLemmas.{head-eq_of_cons-eq, tail-eq_of_cons-eq, cons≢nil}
use text.Mathlib.TextEquality.{Char-path}
use mathlib.Core.Bool.{false≢true}
use tool_mesh.Prelude.{
  ◌≢◌, ℕ, zero, suc, ◌+◌, ◌/◌, ◌%◌, ◌<◌, Bool, true, false, ◌&&◌, List, [], ◌∷◌, if◌then◌else◌, ltb,
  eqb, ◌≡◌, refl, sym, ap, ◌∙◌, arith, subst, Bool-cases, inl, inr, length,
}
use tool_mesh.Prelude.Text.{is_space}
use tool_mesh.Authz.Escape.{utf8, nth_char, hex_digit, is_escaped, percent, escape_char, escape_id}

hex_table : ℕ → Bool
unfolding nth_char
hex_table zero = true
hex_table (suc n) = eqb (code (hex_digit n)) (if ltb n 10 then 48 + n else 55 + n) && hex_table n

hex_table_sound :
    (n x : ℕ)
    → hex_table n ≡ true
    → x < n
    → code (hex_digit x) ≡ (if ltb x 10 then 48 + x else 55 + x)
unfolding hex_table
hex_table_sound zero x h lt = absurd (omega arith)
hex_table_sound (suc n) x h lt = ground (arith, hex_table_sound n x)

hex_table_holds : hex_table 16 ≡ true
unfolding hex_table
hex_table_holds = refl

pub code-hex_digit : (x : ℕ) → x < 16 → code (hex_digit x) ≡ (if ltb x 10 then 48 + x else 55 + x)
code-hex_digit x = hex_table_sound 16 x hex_table_holds

hex_digit-inj : (x y : ℕ) → x < 16 → y < 16 → hex_digit x ≡ hex_digit y → x ≡ y
hex_digit-inj x y hx hy e = ground (arith, ap code e, code-hex_digit x hx, code-hex_digit y hy)

percent-cons :
    (a b : ℕ) (xs ys : List ℕ) (s t : String)
    → a < 256
    → b < 256
    → percent (a ∷ xs) s ≡ percent (b ∷ ys) t
    → (a ≡ b) × (percent xs s ≡ percent ys t)
unfolding percent
percent-cons a b xs ys s t ha hb e =
    let e1 = tail-eq_of_cons-eq e in
    let e2 = tail-eq_of_cons-eq e1 in
    let hi = hex_digit-inj (a / 16) (b / 16) (omega arith) (omega arith) (head-eq_of_cons-eq e1) in
    let lo = hex_digit-inj (a % 16) (b % 16) (omega arith) (omega arith) (head-eq_of_cons-eq e2) in
    (omega arith, tail-eq_of_cons-eq e2)

abbrev pub AreBytes : List ℕ → Type 0
AreBytes [] = Unit
AreBytes (b ∷ ys) = (b < 256) × AreBytes ys

percent-same :
    (xs ys : List ℕ) (s t : String)
    → AreBytes xs
    → AreBytes ys
    → length xs ≡ length ys
    → percent xs s ≡ percent ys t
    → (xs ≡ ys) × (s ≡ t)
unfolding percent
percent-same [] [] s t ha hb n e = (refl, e)
percent-same [] (b ∷ ys) s t ha hb n e = absurd (omega arith)
percent-same (a ∷ xs) [] s t ha hb n e = absurd (omega arith)
percent-same (a ∷ xs) (b ∷ ys) s t (a0, ha) (b0, hb) n e =
    let (same, rest) = percent-cons a b xs ys s t a0 b0 e in
    let (more, ends) = percent-same xs ys s t ha hb (omega arith) rest in (cc, ends)

-- Every character that is encoded has at most three bytes.
pub is_escaped-lt : (c : ℕ) → is_escaped c ≡ true → c < 0x10000
unfolding is_escaped is_space
is_escaped-lt c h = ground (arith, h)

pub AreBytes-utf8 : (c : ℕ) → c < 0x10000 → AreBytes (utf8 c)
unfolding utf8
AreBytes-utf8 c h = ground (arith, h)

utf8-inj : (c d : ℕ) → c < 0x10000 → d < 0x10000 → utf8 c ≡ utf8 d → c ≡ d
unfolding utf8
utf8-inj c d h k e = ground (arith, h, k, e)

-- How many bytes there are is read off the first.
first : List ℕ → ℕ
first [] = 0
first (b ∷ ys) = b

others : List ℕ → List ℕ
others [] = []
others (b ∷ ys) = ys

utf8-cons : (c : ℕ) → utf8 c ≡ first (utf8 c) ∷ others (utf8 c)
unfolding utf8 first others
utf8-cons c = ground arith

first-lt : (c : ℕ) → c < 0x10000 → first (utf8 c) < 256
unfolding utf8 first
first-lt c h = ground (arith, h)

length-utf8 :
    (c d : ℕ)
    → c < 0x10000
    → d < 0x10000
    → first (utf8 c) ≡ first (utf8 d)
    → length (utf8 c) ≡ length (utf8 d)
unfolding utf8 first
length-utf8 c d h k e = ground (arith, h, k, e)

percent-utf8 :
    (c d : ℕ) (s t : String)
    → c < 0x10000
    → d < 0x10000
    → percent (utf8 c) s ≡ percent (utf8 d) t
    → (c ≡ d) × (s ≡ t)
percent-utf8 c d s t h k e =
    let lead =
      percent-cons (first (utf8 c)) (first (utf8 d)) (others (utf8 c)) (others (utf8 d)) s t
        (first-lt c h) (first-lt d k)
        (subst (λ (x : List ℕ). percent x s ≡ percent (first (utf8 d) ∷ others (utf8 d)) t)
          (utf8-cons c)
          (subst (λ (x : List ℕ). percent (utf8 c) s ≡ percent x t) (utf8-cons d) e)) in
    let (same, rest) =
      percent-same (utf8 c) (utf8 d) s t (AreBytes-utf8 c h) (AreBytes-utf8 d k)
        (length-utf8 c d h k lead.0) e in
    (utf8-inj c d h k same, rest)

-- An id begins with `%` exactly where the character is encoded.
is_escaped_percent : is_escaped b'%' ≡ true
unfolding is_escaped is_space
is_escaped_percent = refl

not_percent :
    (d : Char) (ys : List ℕ) (s t : String) (b : ℕ)
    → is_escaped (code d) ≡ false
    → percent (b ∷ ys) s ≢ d ∷ t
unfolding percent
not_percent d ys s t b h e =
    let same = ap code (head-eq_of_cons-eq e) in
    false≢true (sym h ∙ ap is_escaped (sym same) ∙ is_escaped_percent)

percent-utf8-ne_nil : (c : ℕ) (s : String) → percent (utf8 c) s ≢ []
unfolding percent
percent-utf8-ne_nil c s e = cons≢nil (subst (λ (x : List ℕ). percent x s ≡ []) (utf8-cons c) e)

escape_char-ne_nil : (c : Char) (s : String) → escape_char c s ≢ []
unfolding escape_char
escape_char-ne_nil c s = elim (Bool-cases (is_escaped (code c))) [
  | inl coded ↦ rw coded (percent-utf8-ne_nil (code c) s)
  | inr plain ↦ rw plain cons≢nil
]

percent-ne_plain :
    (c : ℕ) (d : Char) (s t : String) → is_escaped (code d) ≡ false → percent (utf8 c) s ≢ d ∷ t
percent-ne_plain c d s t h e =
    not_percent d (others (utf8 c)) s t (first (utf8 c)) h
      (subst (λ (x : List ℕ). percent x s ≡ d ∷ t) (utf8-cons c) e)

escape_char-injective :
    (c d : Char) (s t : String) → escape_char c s ≡ escape_char d t → (c ≡ d) × (s ≡ t)
unfolding escape_char
escape_char-injective c d s t e = elim (Bool-cases (is_escaped (code c))) [
  | inl c_coded ↦ elim (Bool-cases (is_escaped (code d))) [
    | inl d_coded ↦
        let (same, rest) =
          percent-utf8 (code c) (code d) s t (is_escaped-lt (code c) c_coded)
            (is_escaped-lt (code d) d_coded) (rw (c_coded, d_coded) at e) in
        (Char-path c d same, rest)
    | inr d_plain ↦ absurd (percent-ne_plain (code c) d s t d_plain (rw (c_coded, d_plain) at e))
  ]
  | inr c_plain ↦ elim (Bool-cases (is_escaped (code d))) [
    | inl d_coded ↦
        absurd (percent-ne_plain (code d) c t s c_plain (sym (rw (c_plain, d_coded) at e)))
    | inr d_plain ↦
        let same = rw (c_plain, d_plain) at e in (head-eq_of_cons-eq same, tail-eq_of_cons-eq same)
  ]
]

-- Distinct names have distinct ids.
pub escape_id-injective : (s t : String) → escape_id s ≡ escape_id t → s ≡ t
unfolding escape_id
escape_id-injective [] [] e = refl
escape_id-injective [] (d ∷ t) e = absurd (escape_char-ne_nil d (escape_id t) (sym e))
escape_id-injective (c ∷ s) [] e = absurd (escape_char-ne_nil c (escape_id s) e)
escape_id-injective (c ∷ s) (d ∷ t) e =
    let (same, rest) = escape_char-injective c d (escape_id s) (escape_id t) e in
    let more = escape_id-injective s t rest in cc
