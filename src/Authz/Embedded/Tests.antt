-- ===== src/Authz/Embedded/Tests.antt =====
-- internal/authz: a policy of one grant, one deny and one kit, applied to an empty engine.
use tool_mesh.Prelude.{ℕ, String, true, false, List, [], ◌∷◌, ok, ◌≡◌, refl}
use tool_mesh.Prelude.Int.{pos}
use tool_mesh.Authz.Kit.{Kit}
use tool_mesh.Authz.Kit.Validate.{validate, validate_kits}
use tool_mesh.Authz.Request.{Request, allowed, denied}
use tool_mesh.Authz.Escape.{escape_id}
use tool_mesh.Authz.Tuples.{TupleKey, Rule}
use tool_mesh.Authz.Model.{can_execute}
use tool_mesh.Authz.Embedded.{Engine, Embedded, check, context_tuples}
use tool_mesh.Authz.Embedded.Apply.{Server, apply}
use tool_mesh.Authz.Embedded.Batch.{equivalence_key}
use tool_mesh.Authz.Embedded.Batch.Keys.{SameButTool, equivalence_key-SameButTool}
use tool_mesh.Authz.Rules.Validate.{validate_rules}
use tool_mesh.Authz.Rules.{Rules}

abbrev by_the_model : Engine
by_the_model tuples u tool = ok (can_execute tuples u tool)

abbrev willing : Server
willing = record { accepts = λ n. true; accepts_one = λ t. true }

abbrev empty : Embedded
empty = record { stored = []; tool_grants = []; kits = [] }

abbrev no_rule : Rule
no_rule = record {
  user = "";
  role = "";
  plan = "";
  company = "";
  everyone = false;
  all_tools = false;
  backends = [];
  tools = [];
  access = [];
}

abbrev oncall : Kit
oncall = record {
  name = "oncall";
  description = "Restarts";
  warning = "";
  grants = "netbox:write" ∷ [];
  tools = [];
  ttl_default = pos 0;
  ttl_max = pos 0;
}

abbrev policy : Rules
policy = record {
  grants = record no_rule { role = "ops"; backends = "graylog" ∷ [] } ∷ [];
  denies = record no_rule { user = "eve"; tools = "graylog_delete" ∷ [] } ∷ [];
  kits = oncall ∷ [];
}

abbrev asks : String → String → String → String → Request
asks user tool backend access = record {
  user_id = user;
  company_id = "";
  plan = "";
  roles = "ops" ∷ [];
  kits = [];
  kit_parts = [];
  tool = tool;
  backend = backend;
  access = access;
}

abbrev applied : Embedded
applied = (apply willing empty policy).1

abbrev eve_deletes : Request
eve_deletes = asks "eve" "graylog_delete" "graylog" "write"

abbrev eve_searches : Request
eve_searches = asks "eve" "graylog_search" "graylog" "read"

abbrev eve_reads : Request
eve_reads = asks "eve" "graylog_read" "graylog" "read"

abbrev with_oncall : Request
with_oncall = record (asks "ann" "netbox_add" "netbox" "write") { kits = "oncall" ∷ [] }

escapes : escape_id "a:b c" ≡ "a%3Ab%20c"
unfolding escape_id
escapes = refl

denied_to_eve : check by_the_model applied eve_deletes ≡ denied
unfolding check can_execute apply validate_kits validate validate_rules
denied_to_eve = refl

allowed_to_eve : check by_the_model applied eve_searches ≡ allowed
unfolding check can_execute apply validate_kits validate validate_rules
allowed_to_eve = refl

allowed_by_kit : check by_the_model applied with_oncall ≡ allowed
unfolding check can_execute apply validate_kits validate validate_rules
allowed_by_kit = refl

shared_key : equivalence_key eve_searches ≡ equivalence_key eve_reads
unfolding equivalence_key
shared_key = refl

abbrev colon : ℕ
colon = b':'

abbrev odd_name : String
odd_name = "a:b c"

equivalence_key-SameButTool_example : SameButTool eve_searches eve_reads
equivalence_key-SameButTool_example = equivalence_key-SameButTool eve_searches eve_reads shared_key

abbrev ann_context : List TupleKey
ann_context = context_tuples (oncall ∷ []) with_oncall
