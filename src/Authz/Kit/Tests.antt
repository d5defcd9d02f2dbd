-- ===== src/Authz/Kit/Tests.antt =====
-- internal/authz/kits.go, on the kit of an on-call engineer.
use tool_mesh.Prelude.{true, false, ◌||◌, [], ◌∷◌, ok, ◌≡◌, refl, any, contains}
use tool_mesh.Prelude.Int.{pos}
use tool_mesh.Authz.Kit.{
  Kit, KitPart, covers, part_covers, is_whole, part, scope_covers, parse_kit_scope,
}
use tool_mesh.Prelude.Text.{trim_space}
use tool_mesh.Authz.Kit.Parts.{part_covers-part, part_covers_later, part_covers_of_is_whole}
use tool_mesh.Authz.Kit.Validate.{
  validate, validate_kits, validate_kits_sound, AllValid, DistinctNames,
}

abbrev oncall : Kit
oncall = record {
  name = "oncall";
  description = "Logs and restarts";
  warning = "";
  grants = "graylog:read" ∷ "netbox:*" ∷ [];
  tools = "docker_restart" ∷ [];
  ttl_default = pos 0;
  ttl_max = pos 7200000000000;
}

abbrev logs_only : KitPart
logs_only = record { kit = "oncall"; grants = "graylog:read" ∷ []; tools = [] }

abbrev all_of_it : KitPart
all_of_it = record {
  kit = "oncall";
  grants = "netbox:*" ∷ "graylog:read" ∷ [];
  tools = "docker_restart" ∷ [];
}

abbrev wider : Kit
wider = record oncall { grants = "graylog:*" ∷ "graylog:read" ∷ [] }

logs_only-part : part oncall ("graylog:read" ∷ "graylog:read" ∷ []) [] ≡ ok logs_only
unfolding part
logs_only-part = refl

part_covers-part_example :
    (logs_only.kit ≡ oncall.name)
    × (part_covers oncall logs_only "graylog_search" "graylog" "read" ≡ (
        any (λ g. scope_covers g "graylog" "read") ("graylog:read" ∷ "graylog:read" ∷ [])
        || contains [] "graylog_search"))
part_covers-part_example =
    part_covers-part oncall ("graylog:read" ∷ "graylog:read" ∷ []) [] logs_only "graylog_search"
      "graylog" "read" logs_only-part

wider-part_covers : part_covers wider logs_only "graylog_search" "graylog" "read" ≡ true
unfolding part_covers scope_covers
wider-part_covers = refl

part_covers_later_example : covers oncall "graylog_search" "graylog" "read" ≡ true
part_covers_later_example =
    part_covers_later oncall wider ("graylog:read" ∷ "graylog:read" ∷ []) [] logs_only
      "graylog_search" "graylog" "read" logs_only-part wider-part_covers

all_of_it-is_whole : is_whole oncall all_of_it ≡ true
unfolding is_whole
all_of_it-is_whole = refl

part_covers_of_is_whole_example :
    part_covers oncall all_of_it "docker_restart" "docker" "admin"
    ≡ covers oncall "docker_restart" "docker" "admin"
part_covers_of_is_whole_example =
    part_covers_of_is_whole oncall all_of_it "docker_restart" "docker" "admin" all_of_it-is_whole

kits-valid : validate_kits (oncall ∷ record oncall { name = "dev-2" } ∷ []) ≡ ok tt
unfolding validate_kits validate trim_space parse_kit_scope contains
kits-valid = refl

validate_kits_sound_example :
    AllValid (oncall ∷ record oncall { name = "dev-2" } ∷ [])
    × DistinctNames (oncall ∷ record oncall { name = "dev-2" } ∷ [])
validate_kits_sound_example =
    validate_kits_sound (oncall ∷ record oncall { name = "dev-2" } ∷ []) kits-valid

-- The prefix of a backend's name is no wildcard, and a scope without access covers all of it.
scopes_test :
    (scope_covers "graylog" "graylog" "delete" ≡ true)
    × (scope_covers "gray" "graylog" "read" ≡ false)
    × (scope_covers "*:read" "netbox" "read" ≡ true)
    × (scope_covers "a:b:c" "a" "b" ≡ false)
unfolding scope_covers
scopes_test = (refl, refl, refl, refl)
