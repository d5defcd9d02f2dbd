-- ===== src/Authz/Rules/Validate.antt =====
-- internal/authz/grants.go: the check of a grant or a deny.
use tool_mesh.Prelude.{
  ℕ, ◌+◌, String, Bool, not, ◌&&◌, ◌||◌, List, [], ◌∷◌, Result, ok, err, ◌==◌, if◌then◌else◌, eqb,
  ◌>>=◌, any,
}
use tool_mesh.Prelude.Text.{trim_space}
use tool_mesh.Authz.Kit.{is_empty}
use tool_mesh.Authz.Tuples.{Rule}

pub data RuleError : Type 0 where
  not_one_subject no_target empty_name : RuleError

abbrev one_if : Bool → ℕ
one_if b = if b then 1 else 0

abbrev subjects : Rule → ℕ
subjects g =
    one_if (not (g.user == ""))
    + one_if (not (g.role == ""))
    + one_if (not (g.plan == ""))
    + one_if (not (g.company == ""))
    + one_if g.everyone

abbrev has_blank : List String → Bool
has_blank names = any (λ n. trim_space n == "") names

-- Grant.Validate
unfoldable pub validate_rule : Rule → Result RuleError (Unit {0})
unfolding trim_space
validate_rule g =
    if not (eqb (subjects g) 1)
    then err not_one_subject
    else if not g.all_tools && is_empty g.backends && is_empty g.tools && is_empty g.access
    then err no_target
    else if has_blank g.backends || has_blank g.tools || has_blank g.access
    then err empty_name
    else ok tt

unfoldable pub validate_rules : List Rule → Result RuleError (Unit {0})
unfolding validate_rule
validate_rules [] = ok tt
validate_rules (g ∷ gs) = do _ ← validate_rule g; validate_rules gs
