-- ===== src/Authz/Embedded/Batch.antt =====
-- internal/authz/embedded.go: CheckBatch, which answers requests that agree with one check.
pub mod Keys
pub mod Agree
pub mod Answers
pub mod Tracked
use Prim.Native.String.{◌++◌ as append, len}
use tool_mesh.Prelude.{
  ℕ, String, Bool, true, false, not, Option, none, some, List, [], ◌∷◌, ◌++◌, ◌==◌, if◌then◌else◌,
  map, length,
}
use tool_mesh.Prelude.Decimal.{itoa}
use tool_mesh.Prelude.Dict.{lookup, insert}
use tool_mesh.Authz.Kit.{KitPart, sorted, compact}
use tool_mesh.Authz.Request.{Request, Answer, allowed, denied, failed}
use tool_mesh.Authz.Escape.{escape_id}
use tool_mesh.Authz.Tuples.{named}
use tool_mesh.Authz.Embedded.{Engine, Embedded, contains_object, check}

-- strconv.FormatBool
abbrev pub format_bool : Bool → String
format_bool true = "true"
format_bool false = "false"

unfoldable pub part_texts : List KitPart → List String
unfolding itoa
part_texts [] = []
part_texts (p ∷ ps) =
    p.kit
    ∷ itoa (length p.grants)
    ∷ itoa (length p.tools)
    ∷ (p.grants ++ (p.tools ++ part_texts ps))

-- slices.Compact(slices.Sorted(…))
abbrev pub as_set : List String → List String
as_set xs = compact (sorted xs)

-- `parts` of equivalenceKey
unfoldable pub key_texts : Request → List String
unfolding part_texts sorted compact itoa
key_texts r =
    let roles = as_set r.roles in
    let kits = as_set r.kits in
    r.user_id
    ∷ r.company_id
    ∷ r.plan
    ∷ r.backend
    ∷ r.access
    ∷ format_bool (r.tool == "")
    ∷ itoa (length roles)
    ∷ (roles ++ (itoa (length kits) ∷ (kits ++ part_texts r.kit_parts)))

-- Each text with its length in bytes before it.
unfoldable pub with_lengths : List String → String
unfolding itoa
with_lengths [] = ""
with_lengths (p ∷ ps) = append (itoa (len p)) (append ":" (append p (with_lengths ps)))

unfoldable pub equivalence_key : Request → String
unfolding key_texts with_lengths
equivalence_key r = with_lengths (key_texts r)

-- The key under which an answer may be shared; "" where the tool may have rules of its own.
unfoldable pub share_key : Embedded → Request → String
unfolding contains_object escape_id equivalence_key
share_key e r =
    if contains_object e.tool_grants (named "tool" r.tool) then "" else equivalence_key r

abbrev pub Decided : Type 0
Decided = List (String × Bool)

-- What is known under a key.
abbrev pub known : Decided → String → Option Bool
known decided key = if key == "" then none else lookup key decided

abbrev pub remember : Decided → String → Answer → Decided
remember decided key allowed = if key == "" then decided else insert key true decided
remember decided key denied = if key == "" then decided else insert key false decided
remember decided key (failed e) = decided

abbrev pub said : Answer → Bool
said allowed = true
said denied = false
said (failed e) = false

-- A known answer before those of the rest, or the fresh answers.
abbrev pub use_known : Option Bool → List Bool → List Bool → List Bool
use_known none fresh rest = fresh
use_known (some b) fresh rest = b ∷ rest

-- The loop of CheckBatch; the errors are left out, as the caller only logs them.
unfoldable pub batch_loop : Engine → Embedded → List Request → Decided → List Bool
unfolding share_key check lookup insert
batch_loop engine e [] decided = []
batch_loop engine e (r ∷ rs) decided =
    let key = share_key e r in
    let answer = check engine e r in
    let fresh = said answer ∷ batch_loop engine e rs (remember decided key answer) in
    let rest = batch_loop engine e rs decided in use_known (known decided key) fresh rest

-- Embedded.CheckBatch
unfoldable pub check_batch : Engine → Embedded → List Request → List Bool
unfolding batch_loop
check_batch engine e reqs = batch_loop engine e reqs []
