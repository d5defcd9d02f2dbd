-- ===== src/Prelude/Text.antt =====
-- What the program uses of Go's `strings` package, over the code points of a text.
use Prim.Native.Char.{code}
use Prim.Native.Nat.{ℕ}
use Prim.Native.String.{String, [], ◌∷◌, ◌++◌ as append, len, slice}
use mathlib.Core.Bool.{Bool, true, false, not, ◌&&◌, ◌||◌}
use mathlib.Core.Option.{Option, none, some}
use mathlib.Core.Path.{◌≡◌, refl, ap, ◌∙◌}
use text.Mathlib.Text.{◌==◌, starts_with}
use text.Mathlib.TextPositions.{starts_with-append, slice-append_right, len-append}
use tool_mesh.Prelude.Tests.{leb, eqb, if◌then◌else◌}

-- unicode.IsSpace
unfoldable pub is_space : ℕ → Bool
is_space c =
    (leb 9 c && leb c 13)
    || eqb c 32
    || eqb c 0x85
    || eqb c 0xA0
    || eqb c 0x1680
    || (leb 0x2000 c && leb c 0x200A)
    || eqb c 0x2028
    || eqb c 0x2029
    || eqb c 0x202F
    || eqb c 0x205F
    || eqb c 0x3000

trim_left : String → String
trim_left [] = []
trim_left (c ∷ s) = let rest = trim_left s in if is_space (code c) then rest else c ∷ s

trim_right : String → String
trim_right [] = []
trim_right (c ∷ s) =
    let rest = trim_right s in if is_space (code c) && rest == "" then [] else c ∷ rest

-- strings.TrimSpace
unfoldable pub trim_space : String → String
unfolding is_space trim_left trim_right
trim_space s = trim_right (trim_left s)

-- strings.Cut at a separator of one character: what stands before it, and what behind it, if the
-- separator is there.
unfoldable pub cut : ℕ → String → String × Option String
cut sep [] = ([], none)
cut sep (c ∷ s) =
    let (before, after) = cut sep s in
    if eqb (code c) sep then ([], some s) else (c ∷ before, after)

-- strings.Contains of one character.
unfoldable pub has_char : ℕ → String → Bool
has_char sep [] = false
has_char sep (c ∷ s) = eqb (code c) sep || has_char sep s

trim_space_test : trim_space " a b\t" == "a b" && trim_space "  " == "" ≡ true
unfolding trim_space
trim_space_test = refl

-- strings.TrimSuffix of one character.
unfoldable pub trim_suffix : ℕ → String → String
trim_suffix sep [] = []
trim_suffix sep (c ∷ s) =
    let rest = trim_suffix sep s in if s == "" && eqb (code c) sep then [] else c ∷ rest

-- strings.TrimPrefix
abbrev pub trim_prefix : String → String → String
trim_prefix s p = if starts_with s p then slice s (len p) (len s) else s

-- strings.Contains
unfoldable pub contains_text : String → String → Bool
contains_text [] p = p == ""
contains_text (c ∷ s) p = starts_with (c ∷ s) p || contains_text s p

pub trim_prefix-append : (p s : String) → trim_prefix (append p s) p ≡ s
trim_prefix-append p s =
    rw (starts_with-append p s)
      (ap (slice (append p s) (len p)) (len-append p s) ∙ slice-append_right p s)

contains_text_test :
    contains_text "a no backend found" "no backend" && not (contains_text "no back" "no backend")
    ≡ true
unfolding contains_text
contains_text_test = refl
