-- ===== src/Fake/Resources/WellFormed.antt =====
-- fake/resources.go and the tables: each resource is filed under its own group and version.
use Prim.Native.String.{◌++◌ as ◌<>◌}
use kube_client.Prelude.{
  String, Bool, true, false, ◌&&◌, not, some, List, ◌≡◌, ◌≢◌, refl, sym, ap, ◌∙◌, str_eq,
  if◌then◌else◌, all, All, All-of-all, arith, eq_iff, Bool-cases, inl, inr,
}
use kube_client.Api.{ApiResource, ApiResourceList, Schema, has_no_slash, parse_or_zero}
use kube_client.Fake.Resources.{ClusterVersion, cluster_resources}
use kube_client.Fake.Resources.V116
use kube_client.Fake.Resources.V117
use kube_client.Fake.Resources.V118
use kube_client.Fake.Resources.V119
use kube_client.Fake.Resources.V120
use kube_client.Fake.Resources.V121
use kube_client.Fake.Resources.V122
use kube_client.Fake.Resources.V123
use kube_client.Fake.Resources.V124
use kube_client.Fake.Resources.V125
use kube_client.Fake.Resources.V126
use kube_client.Fake.Resources.V127
use kube_client.Fake.Resources.V128
use kube_client.Fake.Resources.V129
use kube_client.Fake.Resources.V130
use kube_client.Fake.Resources.V131
use kube_client.Fake.Resources.V132
use kube_client.Fake.Resources.V133
use kube_client.Fake.Resources.V134
use kube_client.Fake.Resources.V135
use kube_client.Fake.Resources.V136

-- The text of a group and a version, as `GroupVersion` fields of a list hold it.
abbrev pub api_version_of : String → String → String
api_version_of g v = if str_eq g "" then v else g <> ("/" <> v)

abbrev pub is_plain : String → String → Bool
is_plain g v = has_no_slash g && (has_no_slash v && not (str_eq v ""))

-- The resource carries the group and version of the list that it stands in.
abbrev pub is_filed : String → ApiResource → Bool
is_filed group_version r =
    is_plain r.group r.version && str_eq group_version (api_version_of r.group r.version)

abbrev pub is_filed_list : ApiResourceList → Bool
is_filed_list l = all (is_filed l.group_version) l.api_resources

abbrev pub is_filed_table : List ApiResourceList → Bool
is_filed_table = all is_filed_list

record IsFiledTable (t : List ApiResourceList) : Type 0 where
  check : is_filed_table t ≡ true

filed_if :
    (b : Bool) {t u : List ApiResourceList}
    → IsFiledTable t
    → IsFiledTable u
    → IsFiledTable (if b then t else u)
filed_if true h k = h
filed_if false h k = k

filed_v116 : IsFiledTable V116.resources
unfolding V116.resources
filed_v116 = record { check = refl }

filed_v117 : IsFiledTable V117.resources
unfolding V117.resources
filed_v117 = record { check = refl }

filed_v118 : IsFiledTable V118.resources
unfolding V118.resources
filed_v118 = record { check = refl }

filed_v119 : IsFiledTable V119.resources
unfolding V119.resources
filed_v119 = record { check = refl }

filed_v120 : IsFiledTable V120.resources
unfolding V120.resources
filed_v120 = record { check = refl }

filed_v121 : IsFiledTable V121.resources
unfolding V121.resources
filed_v121 = record { check = refl }

filed_v122 : IsFiledTable V122.resources
unfolding V122.resources
filed_v122 = record { check = refl }

filed_v123 : IsFiledTable V123.resources
unfolding V123.resources
filed_v123 = record { check = refl }

filed_v124 : IsFiledTable V124.resources
unfolding V124.resources
filed_v124 = record { check = refl }

filed_v125 : IsFiledTable V125.resources
unfolding V125.resources
filed_v125 = record { check = refl }

filed_v126 : IsFiledTable V126.resources
unfolding V126.resources
filed_v126 = record { check = refl }

filed_v127 : IsFiledTable V127.resources
unfolding V127.resources
filed_v127 = record { check = refl }

filed_v128 : IsFiledTable V128.resources
unfolding V128.resources
filed_v128 = record { check = refl }

filed_v129 : IsFiledTable V129.resources
unfolding V129.resources
filed_v129 = record { check = refl }

filed_v130 : IsFiledTable V130.resources
unfolding V130.resources
filed_v130 = record { check = refl }

filed_v131 : IsFiledTable V131.resources
unfolding V131.resources
filed_v131 = record { check = refl }

filed_v132 : IsFiledTable V132.resources
unfolding V132.resources
filed_v132 = record { check = refl }

filed_v133 : IsFiledTable V133.resources
unfolding V133.resources
filed_v133 = record { check = refl }

filed_v134 : IsFiledTable V134.resources
unfolding V134.resources
filed_v134 = record { check = refl }

filed_v135 : IsFiledTable V135.resources
unfolding V135.resources
filed_v135 = record { check = refl }

filed_v136 : IsFiledTable V136.resources
unfolding V136.resources
filed_v136 = record { check = refl }

filed : (ver : ClusterVersion) → IsFiledTable (cluster_resources ver)
unfolding cluster_resources
filed ver = filed_if (str_eq ver "v1.16.0") filed_v116 (
    filed_if (str_eq ver "v1.17.0") filed_v117 (
      filed_if (str_eq ver "v1.18.0") filed_v118 (
        filed_if (str_eq ver "v1.19.0") filed_v119 (
          filed_if (str_eq ver "v1.20.0") filed_v120 (
            filed_if (str_eq ver "v1.21.0") filed_v121 (
              filed_if (str_eq ver "v1.22.0") filed_v122 (
                filed_if (str_eq ver "v1.23.0") filed_v123 (
                  filed_if (str_eq ver "v1.24.0") filed_v124 (
                    filed_if (str_eq ver "v1.25.0") filed_v125 (
                      filed_if (str_eq ver "v1.26.0") filed_v126 (
                        filed_if (str_eq ver "v1.27.0") filed_v127 (
                          filed_if (str_eq ver "v1.28.0") filed_v128 (
                            filed_if (str_eq ver "v1.29.0") filed_v129 (
                              filed_if (str_eq ver "v1.30.0") filed_v130 (
                                filed_if (str_eq ver "v1.31.0") filed_v131 (
                                  filed_if (str_eq ver "v1.32.0") filed_v132 (
                                    filed_if (str_eq ver "v1.33.0") filed_v133 (
                                      filed_if (str_eq ver "v1.34.0") filed_v134 (
                                        filed_if (str_eq ver "v1.35.0") filed_v135 (
                                          filed_if (str_eq ver "v1.36.0") filed_v136
                                            (record { check = refl })))))))))))))))))))))

both : (a b : Bool) → (a && b) ≡ true → (a ≡ true) × (b ≡ true)
both a b h = ground arith

module _ (schema : Schema) where
  pub parse-api_version_of :
      (g v : String)
      → is_plain g v ≡ true
      → schema.parse (api_version_of g v) ≡ some (record { group = g; version = v })
  parse-api_version_of g v h =
      let (g_plain, rest) = both (has_no_slash g) (has_no_slash v && not (str_eq v "")) h in
      let (v_plain, some_v) = both (has_no_slash v) (not (str_eq v "")) rest in
      let v_named : v ≢ "" = ground (arith, eq_iff v "", some_v) in
      elim (Bool-cases (str_eq g "")) [
        | inl core ↦ rw core (
            schema.parse-core v v_plain v_named
            ∙ ap (λ x. some (record { group = x; version = v })) (sym ((eq_iff g "").0 core)))
        | inr named ↦ rw named (schema.parse-slash g v g_plain v_plain v_named)
      ]

  -- `ParseGroupVersion` on a list's group version gives the resource's own group and version.
  abbrev pub IsFiled : String → ApiResource → Type 0
  IsFiled group_version r =
      parse_or_zero schema group_version ≡ record { group = r.group; version = r.version }

  pub is_filed→IsFiled :
      (group_version : String) (r : ApiResource)
      → is_filed group_version r ≡ true
      → IsFiled group_version r
  unfolding parse_or_zero
  is_filed→IsFiled group_version r h =
      let (plain, same) =
        both (is_plain r.group r.version) (str_eq group_version (api_version_of r.group r.version))
          h in
      rw ((eq_iff group_version _).0 same, parse-api_version_of r.group r.version plain)

  -- In the table of every version, each resource carries the group and the version that its list's
  -- `GroupVersion` parses to.
  pub cluster_resources-IsFiled :
      (ver : ClusterVersion)
      → All (λ l. All (IsFiled l.group_version) l.api_resources) (cluster_resources ver)
  cluster_resources-IsFiled ver =
      All-of-all _ is_filed_list
        (λ l h.
          All-of-all _ (is_filed l.group_version) (is_filed→IsFiled l.group_version) l.api_resources
            h)
        (cluster_resources ver) (filed ver).check
