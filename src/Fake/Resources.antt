-- ===== src/Fake/Resources.antt =====
-- fake/resources.go: the supported versions and their tables.
pub mod V116
pub mod V117
pub mod V118
pub mod V119
pub mod V120
pub mod V121
pub mod V122
pub mod V123
pub mod V124
pub mod V125
pub mod V126
pub mod V127
pub mod V128
pub mod V129
pub mod V130
pub mod V131
pub mod V132
pub mod V133
pub mod V134
pub mod V135
pub mod V136
pub mod WellFormed
use Prim.Native.String.{len, slice}
use kube_client.Prelude.{ℕ, String, Option, none, some, List, [], ◌∷◌, str_eq, leb, if◌then◌else◌}
use kube_client.Api.{ApiResourceList}
use V116
use V117
use V118
use V119
use V120
use V121
use V122
use V123
use V124
use V125
use V126
use V127
use V128
use V129
use V130
use V131
use V132
use V133
use V134
use V135
use V136

-- `type ClusterVersion string`
abbrev pub ClusterVersion : Type 0
ClusterVersion = String

abbrev pub cluster_version_v116 : ClusterVersion
cluster_version_v116 = "v1.16.0"

abbrev pub cluster_version_v117 : ClusterVersion
cluster_version_v117 = "v1.17.0"

abbrev pub cluster_version_v118 : ClusterVersion
cluster_version_v118 = "v1.18.0"

abbrev pub cluster_version_v119 : ClusterVersion
cluster_version_v119 = "v1.19.0"

abbrev pub cluster_version_v120 : ClusterVersion
cluster_version_v120 = "v1.20.0"

abbrev pub cluster_version_v121 : ClusterVersion
cluster_version_v121 = "v1.21.0"

abbrev pub cluster_version_v122 : ClusterVersion
cluster_version_v122 = "v1.22.0"

abbrev pub cluster_version_v123 : ClusterVersion
cluster_version_v123 = "v1.23.0"

abbrev pub cluster_version_v124 : ClusterVersion
cluster_version_v124 = "v1.24.0"

abbrev pub cluster_version_v125 : ClusterVersion
cluster_version_v125 = "v1.25.0"

abbrev pub cluster_version_v126 : ClusterVersion
cluster_version_v126 = "v1.26.0"

abbrev pub cluster_version_v127 : ClusterVersion
cluster_version_v127 = "v1.27.0"

abbrev pub cluster_version_v128 : ClusterVersion
cluster_version_v128 = "v1.28.0"

abbrev pub cluster_version_v129 : ClusterVersion
cluster_version_v129 = "v1.29.0"

abbrev pub cluster_version_v130 : ClusterVersion
cluster_version_v130 = "v1.30.0"

abbrev pub cluster_version_v131 : ClusterVersion
cluster_version_v131 = "v1.31.0"

abbrev pub cluster_version_v132 : ClusterVersion
cluster_version_v132 = "v1.32.0"

abbrev pub cluster_version_v133 : ClusterVersion
cluster_version_v133 = "v1.33.0"

abbrev pub cluster_version_v134 : ClusterVersion
cluster_version_v134 = "v1.34.0"

abbrev pub cluster_version_v135 : ClusterVersion
cluster_version_v135 = "v1.35.0"

abbrev pub cluster_version_v136 : ClusterVersion
cluster_version_v136 = "v1.36.0"

-- The `switch` of `ClusterResources`; nil for any other version.
unfoldable pub cluster_resources : ClusterVersion → List ApiResourceList
unfolding V116.resources V117.resources V118.resources V119.resources V120.resources V121.resources
    V122.resources V123.resources V124.resources V125.resources V126.resources V127.resources
    V128.resources V129.resources V130.resources V131.resources V132.resources V133.resources
    V134.resources V135.resources V136.resources
cluster_resources version =
    if str_eq version cluster_version_v116
    then V116.resources
    else if str_eq version cluster_version_v117
    then V117.resources
    else if str_eq version cluster_version_v118
    then V118.resources
    else if str_eq version cluster_version_v119
    then V119.resources
    else if str_eq version cluster_version_v120
    then V120.resources
    else if str_eq version cluster_version_v121
    then V121.resources
    else if str_eq version cluster_version_v122
    then V122.resources
    else if str_eq version cluster_version_v123
    then V123.resources
    else if str_eq version cluster_version_v124
    then V124.resources
    else if str_eq version cluster_version_v125
    then V125.resources
    else if str_eq version cluster_version_v126
    then V126.resources
    else if str_eq version cluster_version_v127
    then V127.resources
    else if str_eq version cluster_version_v128
    then V128.resources
    else if str_eq version cluster_version_v129
    then V129.resources
    else if str_eq version cluster_version_v130
    then V130.resources
    else if str_eq version cluster_version_v131
    then V131.resources
    else if str_eq version cluster_version_v132
    then V132.resources
    else if str_eq version cluster_version_v133
    then V133.resources
    else if str_eq version cluster_version_v134
    then V134.resources
    else if str_eq version cluster_version_v135
    then V135.resources
    else if str_eq version cluster_version_v136
    then V136.resources
    else []

-- `s[a:b]` on a Go string; `none` is the panic of a bound past the end.
unfoldable pub slice_bytes : String → ℕ → ℕ → Option String
slice_bytes s a b = if leb b (len s) then some (slice s a b) else none

unfoldable pub major : ClusterVersion → Option String
unfolding slice_bytes
major cv = slice_bytes cv 1 2

unfoldable pub minor : ClusterVersion → Option String
unfolding slice_bytes
minor cv = slice_bytes cv 3 5
