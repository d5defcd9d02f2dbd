-- ===== src/Grants/Service/Text.antt =====
-- internal/grants/service.go: the cleaning of texts that a caller chose. The tables of Go's package
-- unicode are parameters.
use Prim.Native.Char.{code}
use Prim.Native.String.{String, [], ◌∷◌, count}
use tool_mesh.Prelude.{
  ℕ, zero, suc, ◌≤◌, Bool, true, false, not, ◌&&◌, ◌||◌, ◌==◌, if◌then◌else◌, leb, ltb, eqb, ◌≡◌,
  refl, arith, Result, ok, err,
}
use tool_mesh.Prelude.Text.{is_space}

-- unicode.IsControl and membership in the category of format characters.
pub record Unicode : Type 0 where
  pub is_control : ℕ → Bool
  pub is_format : ℕ → Bool

-- What cleanText drops; 0xFFFD is utf8.RuneError.
abbrev pub is_dropped : Unicode → ℕ → Bool
is_dropped u c = u.is_control c || u.is_format c || eqb c 0xFFFD

-- strings.Map in cleanText.
unfoldable pub map_chars : Unicode → String → String
map_chars u [] = []
map_chars u (c ∷ s) =
    let rest = map_chars u s in
    if eqb (code c) 10 || eqb (code c) 9
    then " " ∷ rest
    else if is_dropped u (code c)
    then rest
    else c ∷ rest

-- strings.Join(strings.Fields(s), " "): `started` says that a word came before, and `gap` that space
-- came since.
unfoldable pub join_fields : Bool → Bool → String → String
unfolding is_space
join_fields started gap [] = []
join_fields started gap (c ∷ s) = elim (is_space (code c)) [
  | true ↦ join_fields started true s
  | false ↦
      let rest = join_fields true false s in if started && gap then " " ∷ c ∷ rest else c ∷ rest
]

-- cleanText
unfoldable pub clean_text : Unicode → String → String
unfolding map_chars join_fields
clean_text u s = join_fields false false (map_chars u s)

take_chars : ℕ → String → String
take_chars zero s = []
take_chars (suc n) [] = []
take_chars (suc n) (c ∷ s) = c ∷ take_chars n s

-- truncateRunes
unfoldable pub truncate_runes : String → ℕ → String
unfolding take_chars
truncate_runes s n = if leb (count s) n then s else take_chars n s

-- MaxReasonLen
abbrev pub max_reason_len : ℕ
max_reason_len = 500

pub data ReasonError : Type 0 where
  missing too_long : ReasonError

-- The checks of cleanReason.
unfoldable pub check_reason : String → Result ReasonError String
check_reason r =
    if r == "" then err missing else if ltb max_reason_len (count r) then err too_long else ok r

-- cleanReason
unfoldable pub clean_reason : Unicode → String → Result ReasonError String
unfolding clean_text check_reason
clean_reason u r = check_reason (clean_text u r)

abbrev pub all_chars : (ℕ → Bool) → String → Bool
all_chars p [] = true
all_chars p (c ∷ s) = p (code c) && all_chars p s

-- No line break, tab, control or format character.
abbrev pub is_plain : Unicode → ℕ → Bool
is_plain u c = not (is_dropped u c) && not (eqb c 10) && not (eqb c 9)

-- The tables know the space as neither a control nor a format character.
abbrev pub SpaceIsPlain : Unicode → Type 0
SpaceIsPlain u = (u.is_control 32 ≡ false) × (u.is_format 32 ≡ false)

map_chars_plain :
    (u : Unicode) (s : String) → SpaceIsPlain u → all_chars (is_plain u) (map_chars u s) ≡ true
unfolding map_chars
map_chars_plain u [] h = refl
map_chars_plain u (c ∷ s) h = ground (arith, map_chars_plain u s h)

join_fields_plain :
    (u : Unicode) (started gap : Bool) (s : String)
    → SpaceIsPlain u
    → all_chars (is_plain u) s ≡ true
    → all_chars (is_plain u) (join_fields started gap s) ≡ true
unfolding join_fields
join_fields_plain u started gap [] h p = refl
join_fields_plain u started gap (c ∷ s) h p =
    ground (arith, join_fields_plain u started true s h, join_fields_plain u true false s h)

-- Where the tables know the space as neither, a reason that cleanReason accepts is not empty, has at
-- most 500 characters, and no line break, tab, control or format character is among them.
pub clean_reason_plain :
    (u : Unicode) (text r : String)
    → SpaceIsPlain u
    → clean_reason u text ≡ ok r
    → (all_chars (is_plain u) r ≡ true) × (count r ≤ max_reason_len) × ((r == "") ≡ false)
unfolding clean_reason clean_text check_reason
clean_reason_plain u text r h e =
    let cleaned = join_fields false false (map_chars u text) in
    let plain = join_fields_plain u false false (map_chars u text) h (map_chars_plain u text h) in
    ground (arith, plain, e)
