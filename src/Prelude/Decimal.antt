-- ===== src/Prelude/Decimal.antt =====
-- strconv.Itoa on numbers that are not negative, and texts with their length before them.
use Prim.Native.Char.{Char, code, nul}
use Prim.Native.Nat.{ℕ, zero, suc, ◌+◌, ◌-◌, ◌*◌, ◌/◌, ◌%◌, ◌≤◌, ◌<◌}
use Prim.Native.String.{String, [], ◌∷◌, ◌++◌ as append, len, slice}
use mathlib.Core.Path.{◌≡◌, refl, sym, ap, ◌∙◌}
use mathlib.Core.Bool.{Bool, true, false, ◌&&◌}
use mathlib.Core.List.{[], ◌∷◌}
use native.Mathlib.Omega.{arith}
use text.Mathlib.TextLemmas.{append_cancel_left}
use text.Mathlib.TextPositions.{slice-append_left}
use tool_mesh.Prelude.Tests.{ltb, eqb, if◌then◌else◌, Bool-cases}
use mathlib.Core.Logic.{inl, inr}
use tool_mesh.Prelude.Text.{has_char}

nth : String → ℕ → Char
nth [] n = nul
nth (c ∷ s) zero = c
nth (c ∷ s) (suc n) = nth s n

digit : ℕ → Char
unfolding nth
digit n = nth "0123456789" n

-- The digits of `n` before `rest`, where the fuel is at least `n`.
unfoldable pub emit_digits : ℕ → ℕ → String → String
unfolding digit
emit_digits zero n rest = digit (n % 10) ∷ rest
emit_digits (suc fuel) n rest =
    let more = emit_digits fuel (n / 10) (digit (n % 10) ∷ rest) in
    if ltb n 10 then digit (n % 10) ∷ rest else more

unfoldable pub itoa : ℕ → String
unfolding emit_digits
itoa n = emit_digits n n []

table : ℕ → Bool
unfolding digit
table zero = true
table (suc n) = eqb (code (digit n)) (48 + n) && table n

table_sound : (n x : ℕ) → table n ≡ true → x < n → code (digit x) ≡ 48 + x
unfolding table
table_sound zero x h lt = absurd (omega arith)
table_sound (suc n) x h lt = ground (arith, table_sound n x)

table_holds : table 10 ≡ true
unfolding table
table_holds = refl

code-digit : (x : ℕ) → x < 10 → code (digit x) ≡ 48 + x
code-digit x = table_sound 10 x table_holds

read : ℕ → String → ℕ
read n [] = n
read n (c ∷ s) = read (n * 10 + (code c - 48)) s

read-emit_digits :
    (fuel n : ℕ) (rest : String) → n ≤ fuel → read 0 (emit_digits fuel n rest) ≡ read n rest
unfolding read emit_digits
read-emit_digits zero n rest h =
    ap (λ x. read x rest) (omega (arith, code-digit (n % 10) (omega arith)))
read-emit_digits (suc fuel) n rest h =
    let here = code-digit (n % 10) (omega arith) in
    elim (Bool-cases (ltb n 10)) [
      | inl small ↦ rw small (ap (λ x. read x rest) (ground (arith, small, here)))
      | inr large ↦ rw large (
          read-emit_digits fuel (n / 10) (digit (n % 10) ∷ rest) (ground (arith, large))
          ∙ ap (λ x. read x rest) (omega (arith, here)))
    ]

pub itoa-injective : (m n : ℕ) → itoa m ≡ itoa n → m ≡ n
unfolding itoa read
itoa-injective m n e =
    sym (read-emit_digits m m [] (omega arith))
    ∙ ap (read 0) e
    ∙ read-emit_digits n n [] (omega arith)

has_colon-emit_digits :
    (fuel n : ℕ) (rest : String) → has_char b':' (emit_digits fuel n rest) ≡ has_char b':' rest
unfolding emit_digits has_char
has_colon-emit_digits zero n rest = ground (arith, code-digit (n % 10) (omega arith))
has_colon-emit_digits (suc fuel) n rest = ground (
  arith,
  code-digit (n % 10) (omega arith),
  has_colon-emit_digits fuel (n / 10) (digit (n % 10) ∷ rest),
)

pub has_colon-itoa : (n : ℕ) → has_char b':' (itoa n) ≡ false
unfolding itoa has_char
has_colon-itoa n = has_colon-emit_digits n n []

-- Texts of the same length in bytes, before others.
pub append_same : (p q s t : String) → len p ≡ len q → append p s ≡ append q t → (p ≡ q) × (s ≡ t)
append_same p q s t n e =
    let same : p ≡ q =
      sym (slice-append_left p s)
      ∙ ap (λ x. slice x 0 (len p)) e
      ∙ ap (slice (append q t) 0) n
      ∙ slice-append_left q t in
    (same, append_cancel_left p s t (e ∙ ap (λ x. append x t) (sym same)))
