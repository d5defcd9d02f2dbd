-- ===== src/Authz/Kit/Validate.antt =====
-- internal/authz/kits.go: which kits a config file may define.
use Prim.Native.Char.{code}
use Prim.Native.String.{String, count}
use tool_mesh.Prelude.{
  ℕ, Bool, true, false, ◌&&◌, ◌||◌, Option, none, some, List, [], ◌∷◌, Result, ok, err, ◌==◌, not,
  if◌then◌else◌, contains, ◌>>=◌, leb, eqb, ◌≡◌, arith, map, eq_iff, ◌⊎◌, ◌≢◌, refl,
}
use tool_mesh.Prelude.Text.{trim_space}
use tool_mesh.Prelude.Int.{pos, ltb_ℤ, ◌≤ℤ◌}
use tool_mesh.Authz.Kit.{
  Kit, KitScope, Error, parse_kit_scope, bad_name, no_description, covers_nothing, empty_tool,
  negative_ttl, default_over_max, default_over_limit, defined_twice, is_empty,
}

-- KitTTLLimit, 24 hours in nanoseconds.
abbrev pub kit_ttl_limit : ℕ
kit_ttl_limit = 86400000000000

is_alnum : ℕ → Bool
is_alnum c = (leb b'A' c && leb c b'Z') || (leb b'a' c && leb c b'z') || (leb b'0' c && leb c b'9')

is_slug_char : ℕ → Bool
is_slug_char c = is_alnum c || eqb c b'.' || eqb c b'_' || eqb c b'-'

all_slug : String → Bool
all_slug String.[] = true
all_slug (String.◌∷◌ c s) = is_slug_char (code c) && all_slug s

-- kitNamePattern
unfoldable pub matches_name : String → Bool
unfolding is_alnum is_slug_char all_slug
matches_name String.[] = false
matches_name (String.◌∷◌ c s) = is_alnum (code c) && all_slug s && leb (count s) 63

scopes_error : List String → Option Error
scopes_error [] = none
scopes_error (g ∷ gs) = elim (parse_kit_scope g) [ ok s ↦ scopes_error gs | err e ↦ some e ]

abbrev has_blank : List String → Bool
has_blank [] = false
has_blank (t ∷ ts) = trim_space t == "" || has_blank ts

-- The checks of the durations at the end of `Validate`.
check_durations : Kit → Result Error (Unit {0})
check_durations k =
    if ltb_ℤ k.ttl_default (pos 0) || ltb_ℤ k.ttl_max (pos 0)
    then err negative_ttl
    else if ltb_ℤ (pos 0) k.ttl_default && ltb_ℤ (pos 0) k.ttl_max && ltb_ℤ k.ttl_max k.ttl_default
    then err default_over_max
    else if not (ltb_ℤ (pos 0) k.ttl_max) && ltb_ℤ (pos kit_ttl_limit) k.ttl_default
    then err default_over_limit
    else ok tt

-- The checks of the entries and the durations, behind those of the name and the description.
check_entries : Kit → Option Error → Result Error (Unit {0})
unfolding check_durations
check_entries k (some e) = err e
check_entries k none = if has_blank k.tools then err empty_tool else check_durations k

-- Kit.Validate
unfoldable pub validate : Kit → Result Error (Unit {0})
unfolding matches_name scopes_error check_entries
validate k =
    if not (matches_name k.name)
    then err bad_name
    else if trim_space k.description == ""
    then err no_description
    else if is_empty k.grants && is_empty k.tools
    then err covers_nothing
    else check_entries k (scopes_error k.grants)

check_kits : List String → List Kit → Result Error (Unit {0})
check_kits seen [] = ok tt
check_kits seen (k ∷ ks) = do
  _ ← validate k
  if contains seen k.name then err defined_twice else check_kits (k.name ∷ seen) ks

unfoldable pub validate_kits : List Kit → Result Error (Unit {0})
unfolding check_kits
validate_kits kits = check_kits [] kits

-- The scope parses.
abbrev pub Parses : String → Type 0
Parses g = (s : KitScope) × (parse_kit_scope g ≡ ok s)

abbrev pub AllParse : List String → Type 0
AllParse [] = Unit
AllParse (g ∷ gs) = Parses g × AllParse gs

-- What a kit that passed the checks is like.
pub record IsValid (k : Kit) : Type 0 where
  pub named : matches_name k.name ≡ true
  pub described : (trim_space k.description == "") ≡ false
  pub nonempty : (is_empty k.grants && is_empty k.tools) ≡ false
  pub scopes : AllParse k.grants
  pub tools_named : has_blank k.tools ≡ false
  pub default_nonneg : pos 0 ≤ℤ k.ttl_default
  pub max_nonneg : pos 0 ≤ℤ k.ttl_max
  pub default_le_max : (k.ttl_max ≡ pos 0) ⊎ (k.ttl_default ≤ℤ k.ttl_max)
  pub default_le_limit : (k.ttl_max ≢ pos 0) ⊎ (k.ttl_default ≤ℤ pos kit_ttl_limit)

scopes_error-AllParse : (gs : List String) → scopes_error gs ≡ none → AllParse gs
unfolding scopes_error
scopes_error-AllParse [] h = tt
scopes_error-AllParse (g ∷ gs) h = ground (arith, scopes_error-AllParse gs)

check_durations-bounds :
    (k : Kit)
    → check_durations k ≡ ok tt
    → (pos 0 ≤ℤ k.ttl_default)
      × (pos 0 ≤ℤ k.ttl_max)
      × ((k.ttl_max ≡ pos 0) ⊎ (k.ttl_default ≤ℤ k.ttl_max))
      × ((k.ttl_max ≢ pos 0) ⊎ (k.ttl_default ≤ℤ pos kit_ttl_limit))
unfolding check_durations
check_durations-bounds k h = ground arith

-- A kit that `validate` accepts has a name of the pattern, a description, at least one entry,
-- scopes that parse, tools with names, and a default duration within its maximum, or within the
-- limit for a kit without one.
pub validate-IsValid : (k : Kit) → validate k ≡ ok tt → IsValid k
unfolding validate check_entries
validate-IsValid k h =
    let (default_nonneg, max_nonneg, within, limited) = check_durations-bounds k (ground arith) in
    record {
      named = ground arith;
      described = ground arith;
      nonempty = ground arith;
      scopes = scopes_error-AllParse k.grants (ground arith);
      tools_named = ground arith;
      default_nonneg = default_nonneg;
      max_nonneg = max_nonneg;
      default_le_max = within;
      default_le_limit = limited;
    }

-- Each name differs from the names behind it.
abbrev pub DistinctNames : List Kit → Type 0
DistinctNames [] = Unit
DistinctNames (k ∷ ks) = (contains (map (λ k. k.name) ks) k.name ≡ false) × DistinctNames ks

abbrev pub AllValid : List Kit → Type 0
AllValid [] = Unit
AllValid (k ∷ ks) = IsValid k × AllValid ks

abbrev names : List Kit → List String
names = map λ k. k.name

check_kits-fresh :
    (a : String) (seen : List String) (ks : List Kit)
    → check_kits seen ks ≡ ok tt
    → contains seen a ≡ true
    → contains (names ks) a ≡ false
unfolding check_kits contains
check_kits-fresh a seen [] h l = refl
check_kits-fresh a seen (k ∷ ks) h l =
    ground (arith, check_kits-fresh a (k.name ∷ seen) ks, eq_iff k.name a, eq_iff a k.name)

check_kits_sound :
    (seen : List String) (ks : List Kit)
    → check_kits seen ks ≡ ok tt
    → AllValid ks × DistinctNames ks
unfolding check_kits contains
check_kits_sound seen [] h = (tt, tt)
check_kits_sound seen (k ∷ ks) h =
    let v = check_kits_sound (k.name ∷ seen) ks (ground arith) in
    (
      (validate-IsValid k (ground arith), v.0),
      (
        check_kits-fresh k.name (k.name ∷ seen) ks (ground arith)
            (ground (arith, eq_iff k.name k.name)),
        v.1,
      ),
    )

-- A list of kits that `validate_kits` accepts has valid kits only, no two of the same name.
pub validate_kits_sound :
    (kits : List Kit) → validate_kits kits ≡ ok tt → AllValid kits × DistinctNames kits
unfolding validate_kits
validate_kits_sound kits h = check_kits_sound [] kits h
