-- ===== src/Fake/Tables.antt =====
-- The composite literals of the resource tables in fake/v1xx_resources.go. No table gives short
-- names, so the field has Go's zero value, nil.
use kube_client.Prelude.{String, Bool, List, [], ◌∷◌}
use kube_client.Api.{ApiResource, ApiResourceList}

abbrev pub api_resource : String → String → List String → String → String → Bool → ApiResource
api_resource kind name verbs group version namespaced = record {
  kind = kind;
  name = name;
  short_names = [];
  verbs = verbs;
  group = group;
  version = version;
  namespaced = namespaced;
}

abbrev pub api_resource_list : String → List ApiResource → ApiResourceList
api_resource_list group_version api_resources = record {
  group_version = group_version;
  api_resources = api_resources;
}

-- The lists of verbs that the tables write out.
abbrev pub full_verbs : List String
full_verbs =
    "create" ∷ "delete" ∷ "deletecollection" ∷ "get" ∷ "list" ∷ "patch" ∷ "update" ∷ "watch" ∷ []

abbrev pub reordered_verbs : List String
reordered_verbs =
    "delete" ∷ "deletecollection" ∷ "get" ∷ "list" ∷ "patch" ∷ "create" ∷ "update" ∷ "watch" ∷ []

abbrev pub single_verbs : List String
single_verbs = "create" ∷ "delete" ∷ "get" ∷ "list" ∷ "patch" ∷ "update" ∷ "watch" ∷ []

abbrev pub read_verbs : List String
read_verbs = "get" ∷ "list" ∷ []

abbrev pub create_verbs : List String
create_verbs = "create" ∷ []
