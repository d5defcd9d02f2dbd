-- ===== src/Authz/Escape.antt =====
-- internal/authz/authz.go: escapeID, the ids of the authorization engine.
pub mod Injective
pub mod Safe
use Prim.Native.Char.{Char, code, nul}
use Prim.Native.String.{String, [], ◌∷◌}
use tool_mesh.Prelude.{
  ℕ, zero, suc, ◌+◌, ◌/◌, ◌%◌, Bool, true, false, ◌||◌, ◌&&◌, List, [], ◌∷◌, if◌then◌else◌, ltb,
  leb, eqb, ◌≡◌, refl,
}
use tool_mesh.Prelude.Text.{is_space}

-- []byte(string(r))
unfoldable pub utf8 : ℕ → List ℕ
utf8 c =
    if ltb c 0x80
    then c ∷ []
    else if ltb c 0x800
    then (0xC0 + c / 64) ∷ (0x80 + c % 64) ∷ []
    else if ltb c 0x10000
    then (0xE0 + c / 4096) ∷ (0x80 + c / 64 % 64) ∷ (0x80 + c % 64) ∷ []
    else (0xF0 + c / 262144) ∷ (0x80 + c / 4096 % 64) ∷ (0x80 + c / 64 % 64) ∷ (0x80 + c % 64) ∷ []

-- The character at an index of a text; there is one at each index that the code uses.
unfoldable pub nth_char : String → ℕ → Char
nth_char [] n = nul
nth_char (c ∷ s) zero = c
nth_char (c ∷ s) (suc n) = nth_char s n

-- "0123456789ABCDEF"[n]
abbrev pub hex_digit : ℕ → Char
hex_digit n = nth_char "0123456789ABCDEF" n

-- unicode.IsControl: the general category Cc.
abbrev pub is_control : ℕ → Bool
is_control c = leb c 31 || (leb 127 c && leb c 159)

-- The characters that are encoded.
unfoldable pub is_escaped : ℕ → Bool
unfolding is_space
is_escaped c = eqb c b'%' || eqb c b':' || eqb c b'#' || eqb c b'*' || is_space c || is_control c

-- The inner loop: `%` and two digits for each byte.
unfoldable pub percent : List ℕ → String → String
unfolding nth_char
percent [] rest = rest
percent (b ∷ bs) rest = "%" ∷ hex_digit (b / 16) ∷ hex_digit (b % 16) ∷ percent bs rest

-- The body of the loop, before what the rest of the text gives.
unfoldable pub escape_char : Char → String → String
unfolding utf8 percent is_escaped
escape_char c rest = if is_escaped (code c) then percent (utf8 (code c)) rest else c ∷ rest

unfoldable pub escape_id : String → String
unfolding escape_char
escape_id [] = []
escape_id (c ∷ s) = escape_char c (escape_id s)

escape_test : escape_id "a b:ü%" ≡ "a%20b%3Aü%25"
unfolding escape_id
escape_test = refl
