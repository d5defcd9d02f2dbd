-- ===== src/Executor/Redaction.antt =====
-- internal/executor/executor.go: the parameters that an audit entry holds.
use Prim.Native.Char.{code}
use tool_mesh.Prelude.{
  ℕ, String, Bool, true, false, ◌&&◌, none, some, List, [], ◌∷◌, eq_iff, leb, eqb, any, ◌+◌,
  if◌then◌else◌, ◌≡◌, refl, arith,
}
use mathlib.Core.Option
use tool_mesh.Prelude.Dict.{lookup}
use tool_mesh.Base.{Value, str, Fields, Params}

-- unicode.ToLower of a code point, as far as it can give an ASCII letter: the capital letters, the
-- dotted capital I and the Kelvin sign. What it does to any other code point stays outside ASCII.
abbrev to_lower : ℕ → ℕ
to_lower c =
    if leb b'A' c && leb c b'Z'
    then c + 32
    else if eqb c 0x130
    then b'i'
    else if eqb c 0x212A
    then b'k'
    else c

-- strings.ToLower(k) == name, for an ASCII name.
unfoldable pub lower_is : String → String → Bool
lower_is String.[] String.[] = true
lower_is (String.◌∷◌ c s) (String.◌∷◌ d t) = eqb (to_lower (code c)) (code d) && lower_is s t
lower_is _ _ = false

abbrev pub sensitive_param_names : List String
sensitive_param_names =
    "password" ∷ "secret" ∷ "token" ∷ "api_key" ∷ "apikey" ∷ "access_token" ∷ "refresh_token"
    ∷ "authorization" ∷ "credential" ∷ "private_key" ∷ []

unfoldable pub is_sensitive : String → Bool
unfolding lower_is
is_sensitive k = any (lower_is k) sensitive_param_names

abbrev pub redacted : Value
redacted = str "[REDACTED]"

unfoldable pub sanitize : Fields → Fields
unfolding is_sensitive
sanitize [] = []
sanitize ((k, v) ∷ m) = (k, if is_sensitive k then redacted else v) ∷ sanitize m

-- `entry.Params = sanitizeParams(req.Params)`. For an empty map `sanitizeParams` returns the map
-- itself, so the entry then shares it with the call, and shows what a policy writes to it later:
-- `live` is the call's map at the time of recording.
unfoldable pub entry_params : Params → Params → Params
unfolding sanitize
entry_params none live = none
entry_params (some []) live = live
entry_params (some (p ∷ m)) live = some (sanitize (p ∷ m))

pub lookup-sanitize :
    (k : String) (m : Fields)
    → lookup k (sanitize m)
      ≡ (if is_sensitive k then Option.map (λ (v : Value). redacted) (lookup k m) else lookup k m)
unfolding lookup sanitize
lookup-sanitize k [] = ground arith
lookup-sanitize k ((j, v) ∷ m) = ground (arith, eq_iff j k, lookup-sanitize k m)

lower_test : (is_sensitive "API_Key" ≡ true) × (is_sensitive "apiKeys" ≡ false)
unfolding is_sensitive
lower_test = (refl, refl)
