-- ===== src/Authz/Kit.antt =====
-- internal/authz/kits.go: kits, parts of kits and the scopes that they cover.
pub mod Validate
pub mod Laws
pub mod Parts
mod Tests
use Prim.Native.Nat.{Ordering}
use Prim.Native.String.{compare}
use tool_mesh.Prelude.{
  ℕ, String, Bool, true, false, ◌&&◌, ◌||◌, Option, none, some, List, [], ◌∷◌, Result, ok, err,
  ◌==◌, if◌then◌else◌, any, all, contains, ◌>>=◌, not,
}
use tool_mesh.Prelude.Text.{trim_space, cut, has_char}
use tool_mesh.Prelude.Int.{ℤ}

pub record Kit : Type 0 where
  pub name : String
  pub description : String
  pub warning : String
  pub grants : List String
  pub tools : List String
  -- nanoseconds; zero means not set
  pub ttl_default : ℤ
  pub ttl_max : ℤ

pub record KitPart : Type 0 where
  pub kit : String
  pub grants : List String
  pub tools : List String

-- The errors of this file, without their texts.
pub data Error : Type 0 where
  no_entries : Error
  no_such_grant no_such_tool : String → Error
  no_backend no_access many_colons : Error
  bad_name no_description covers_nothing empty_tool negative_ttl default_over_max : Error
  default_over_limit defined_twice : Error

abbrev pub scope_any : String
scope_any = "*"

-- An empty field matches any value.
pub record KitScope : Type 0 where
  pub backend : String
  pub access : String

-- The part of `parseKitScope` behind the cut.
parse_fields : String → String → Bool → Result Error KitScope
parse_fields b a has_access =
    if b == ""
    then err no_backend
    else if has_access && a == ""
    then err no_access
    else if has_char b':' a
    then err many_colons
    else ok (record {
      backend = if b == scope_any then "" else b;
      access = if a == scope_any then "" else a;
    })

-- `a, hasAccess` of strings.Cut
abbrev after_cut : Option String → String × Bool
after_cut none = ("", false)
after_cut (some a) = (a, true)

unfoldable pub parse_kit_scope : String → Result Error KitScope
unfolding parse_fields cut trim_space has_char
parse_kit_scope s =
    let (b, rest) = cut b':' (trim_space s) in
    let (a, has_access) = after_cut rest in parse_fields (trim_space b) (trim_space a) has_access

unfoldable pub scope_covers_fields : KitScope → String → String → Bool
scope_covers_fields s backend access =
    if not (s.backend == "") && not (s.backend == backend)
    then false
    else if not (s.access == "") && not (s.access == access)
    then false
    else true

abbrev pub covered_by : Result Error KitScope → String → String → Bool
covered_by (ok s) backend access = scope_covers_fields s backend access
covered_by (err e) backend access = false

-- ScopeCovers: a malformed scope covers nothing.
unfoldable pub scope_covers : String → String → String → Bool
unfolding parse_kit_scope scope_covers_fields
scope_covers scope backend access = covered_by (parse_kit_scope scope) backend access

-- Kit.Covers
unfoldable pub covers : Kit → String → String → String → Bool
unfolding contains
covers k tool backend access =
    contains k.tools tool || any (λ g. scope_covers g backend access) k.grants

-- Kit.PartCovers
unfoldable pub part_covers : Kit → KitPart → String → String → String → Bool
unfolding contains
part_covers k p tool backend access =
    any (λ g. contains k.grants g && scope_covers g backend access) p.grants
    || any (λ t. t == tool && contains k.tools t) p.tools

-- Kit.IsWhole
unfoldable pub is_whole : Kit → KitPart → Bool
unfolding contains
is_whole k p = all (contains p.grants) k.grants && all (contains p.tools) k.tools

pub insert_sorted : String → List String → List String
insert_sorted s [] = s ∷ []
insert_sorted s (x ∷ xs) = elim (compare s x) [
  | Ordering.gt ↦ x ∷ insert_sorted s xs
  | _ ↦ s ∷ x ∷ xs
]

-- slices.Sorted
unfoldable pub sorted : List String → List String
sorted [] = []
sorted (x ∷ xs) = insert_sorted x (sorted xs)

-- slices.Compact: of neighbours that are equal the first stays.
unfoldable pub compact : List String → List String
compact [] = []
compact (x ∷ []) = x ∷ []
compact (x ∷ y ∷ xs) = let rest = compact (y ∷ xs) in if x == y then rest else x ∷ rest

-- The first entry that is not listed.
pub first_missing : List String → List String → Option String
first_missing listed [] = none
first_missing listed (x ∷ xs) = if contains listed x then first_missing listed xs else some x

abbrev pub is_empty : List String → Bool
is_empty [] = true
is_empty (x ∷ xs) = false

abbrev check_listed : Option String → (String → Error) → Result Error (Unit {0})
check_listed none e = ok tt
check_listed (some x) e = err (e x)

-- Kit.Part
unfoldable pub part : Kit → List String → List String → Result Error KitPart
unfolding sorted insert_sorted compact first_missing contains
part k grants tools = if is_empty grants && is_empty tools then err no_entries else do
  _ ← check_listed (first_missing k.grants grants) no_such_grant
  _ ← check_listed (first_missing k.tools tools) no_such_tool
  ok (record { kit = k.name; grants = compact (sorted grants); tools = compact (sorted tools) })
