-- ===== src/Gate/ToolRefs/Tests.antt =====
-- internal/gate/toolrefs.go, on a name that lacks its end and one with a wrong letter.
use tool_mesh.Prelude.{String, List, [], ◌∷◌, ◌≡◌, refl, In, inl, length, ◌≤◌}
use tool_mesh.Gate.ToolRefs.{levenshtein, close_matches}
use tool_mesh.Gate.ToolRefs.Close.{IsClose, close_matches-IsClose}

abbrev registered : List String
registered = "gitlab_create_merge_request" ∷ "gitlab_create_marge" ∷ "netbox_add" ∷ []

kitten : levenshtein "kitten" "sitting" ≡ 3
unfolding levenshtein
kitten = refl

suggested :
    close_matches "gitlab_create_merge" registered 3
    ≡ "gitlab_create_merge_request" ∷ "gitlab_create_marge" ∷ []
unfolding close_matches
suggested = refl

first_suggested :
    In "gitlab_create_merge_request" (close_matches "gitlab_create_merge" registered 3)
unfolding close_matches
first_suggested = inl refl

close_matches-IsClose_example :
    (length (close_matches "gitlab_create_merge" registered 3) ≤ 3)
    × In "gitlab_create_merge_request" registered
    × IsClose "gitlab_create_merge" "gitlab_create_merge_request"
close_matches-IsClose_example =
    close_matches-IsClose "gitlab_create_merge" registered 3 "gitlab_create_merge_request"
      first_suggested
