-- ===== src/Fake/Resources/V123.antt =====
-- fake/v123_resources.go: the resources of a v1.23 cluster, one definition to a group version.
use kube_client.Prelude.{List, [], ◌∷◌, true, false}
use kube_client.Api.{ApiResourceList}
use kube_client.Fake.Tables.{
  api_resource_list, api_resource, create_verbs, full_verbs, read_verbs, single_verbs,
}

unfoldable pub core_v1 : ApiResourceList
core_v1 = api_resource_list "v1" (
    api_resource "Binding" "bindings" create_verbs "" "v1" true
    ∷ api_resource "ComponentStatus" "componentstatuses" read_verbs "" "v1" false
    ∷ api_resource "ConfigMap" "configmaps" full_verbs "" "v1" true
    ∷ api_resource "Endpoints" "endpoints" full_verbs "" "v1" true
    ∷ api_resource "Event" "events" full_verbs "" "v1" true
    ∷ api_resource "LimitRange" "limitranges" full_verbs "" "v1" true
    ∷ api_resource "Namespace" "namespaces" single_verbs "" "v1" false
    ∷ api_resource "Node" "nodes" full_verbs "" "v1" false
    ∷ api_resource "PersistentVolumeClaim" "persistentvolumeclaims" full_verbs "" "v1" true
    ∷ api_resource "PersistentVolume" "persistentvolumes" full_verbs "" "v1" false
    ∷ api_resource "Pod" "pods" full_verbs "" "v1" true
    ∷ api_resource "PodTemplate" "podtemplates" full_verbs "" "v1" true
    ∷ api_resource "ReplicationController" "replicationcontrollers" full_verbs "" "v1" true
    ∷ api_resource "ResourceQuota" "resourcequotas" full_verbs "" "v1" true
    ∷ api_resource "Secret" "secrets" full_verbs "" "v1" true
    ∷ api_resource "ServiceAccount" "serviceaccounts" full_verbs "" "v1" true
    ∷ api_resource "Service" "services" full_verbs "" "v1" true
    ∷ [])

unfoldable pub apiregistration_k8s_io_v1 : ApiResourceList
apiregistration_k8s_io_v1 =
    api_resource_list "apiregistration.k8s.io/v1"
      (api_resource "APIService" "apiservices" full_verbs "apiregistration.k8s.io" "v1" false ∷ [])

unfoldable pub apps_v1 : ApiResourceList
apps_v1 = api_resource_list "apps/v1" (
    api_resource "ControllerRevision" "controllerrevisions" full_verbs "apps" "v1" true
    ∷ api_resource "DaemonSet" "daemonsets" full_verbs "apps" "v1" true
    ∷ api_resource "Deployment" "deployments" full_verbs "apps" "v1" true
    ∷ api_resource "ReplicaSet" "replicasets" full_verbs "apps" "v1" true
    ∷ api_resource "StatefulSet" "statefulsets" full_verbs "apps" "v1" true
    ∷ [])

unfoldable pub events_k8s_io_v1 : ApiResourceList
events_k8s_io_v1 =
    api_resource_list "events.k8s.io/v1"
      (api_resource "Event" "events" full_verbs "events.k8s.io" "v1" true ∷ [])

unfoldable pub events_k8s_io_v1beta1 : ApiResourceList
events_k8s_io_v1beta1 =
    api_resource_list "events.k8s.io/v1beta1"
      (api_resource "Event" "events" full_verbs "events.k8s.io" "v1beta1" true ∷ [])

unfoldable pub authentication_k8s_io_v1 : ApiResourceList
authentication_k8s_io_v1 =
    api_resource_list "authentication.k8s.io/v1" (
      api_resource "TokenReview" "tokenreviews" create_verbs "authentication.k8s.io" "v1" false
      ∷ [])

unfoldable pub authorization_k8s_io_v1 : ApiResourceList
authorization_k8s_io_v1 = api_resource_list "authorization.k8s.io/v1" (
    api_resource "LocalSubjectAccessReview" "localsubjectaccessreviews" create_verbs
      "authorization.k8s.io" "v1" true
    ∷ api_resource "SelfSubjectAccessReview" "selfsubjectaccessreviews" create_verbs
        "authorization.k8s.io" "v1" false
    ∷ api_resource "SelfSubjectRulesReview" "selfsubjectrulesreviews" create_verbs
        "authorization.k8s.io" "v1" false
    ∷ api_resource "SubjectAccessReview" "subjectaccessreviews" create_verbs "authorization.k8s.io"
        "v1" false
    ∷ [])

unfoldable pub autoscaling_v2 : ApiResourceList
autoscaling_v2 = api_resource_list "autoscaling/v2" (
    api_resource "HorizontalPodAutoscaler" "horizontalpodautoscalers" full_verbs "autoscaling" "v2"
      true
    ∷ [])

unfoldable pub autoscaling_v1 : ApiResourceList
autoscaling_v1 = api_resource_list "autoscaling/v1" (
    api_resource "HorizontalPodAutoscaler" "horizontalpodautoscalers" full_verbs "autoscaling" "v1"
      true
    ∷ [])

unfoldable pub autoscaling_v2beta1 : ApiResourceList
autoscaling_v2beta1 = api_resource_list "autoscaling/v2beta1" (
    api_resource "HorizontalPodAutoscaler" "horizontalpodautoscalers" full_verbs "autoscaling"
      "v2beta1" true
    ∷ [])

unfoldable pub autoscaling_v2beta2 : ApiResourceList
autoscaling_v2beta2 = api_resource_list "autoscaling/v2beta2" (
    api_resource "HorizontalPodAutoscaler" "horizontalpodautoscalers" full_verbs "autoscaling"
      "v2beta2" true
    ∷ [])

unfoldable pub batch_v1 : ApiResourceList
batch_v1 = api_resource_list "batch/v1" (
    api_resource "CronJob" "cronjobs" full_verbs "batch" "v1" true
    ∷ api_resource "Job" "jobs" full_verbs "batch" "v1" true
    ∷ [])

unfoldable pub batch_v1beta1 : ApiResourceList
batch_v1beta1 =
    api_resource_list "batch/v1beta1"
      (api_resource "CronJob" "cronjobs" full_verbs "batch" "v1beta1" true ∷ [])

unfoldable pub certificates_k8s_io_v1 : ApiResourceList
certificates_k8s_io_v1 = api_resource_list "certificates.k8s.io/v1" (
    api_resource "CertificateSigningRequest" "certificatesigningrequests" full_verbs
      "certificates.k8s.io" "v1" false
    ∷ [])

unfoldable pub networking_k8s_io_v1 : ApiResourceList
networking_k8s_io_v1 = api_resource_list "networking.k8s.io/v1" (
    api_resource "IngressClass" "ingressclasses" full_verbs "networking.k8s.io" "v1" false
    ∷ api_resource "Ingress" "ingresses" full_verbs "networking.k8s.io" "v1" true
    ∷ api_resource "NetworkPolicy" "networkpolicies" full_verbs "networking.k8s.io" "v1" true
    ∷ [])

unfoldable pub policy_v1 : ApiResourceList
policy_v1 =
    api_resource_list "policy/v1"
      (api_resource "PodDisruptionBudget" "poddisruptionbudgets" full_verbs "policy" "v1" true ∷ [])

unfoldable pub policy_v1beta1 : ApiResourceList
policy_v1beta1 = api_resource_list "policy/v1beta1" (
    api_resource "PodDisruptionBudget" "poddisruptionbudgets" full_verbs "policy" "v1beta1" true
    ∷ api_resource "PodSecurityPolicy" "podsecuritypolicies" full_verbs "policy" "v1beta1" false
    ∷ [])

unfoldable pub rbac_authorization_k8s_io_v1 : ApiResourceList
rbac_authorization_k8s_io_v1 = api_resource_list "rbac.authorization.k8s.io/v1" (
    api_resource "ClusterRoleBinding" "clusterrolebindings" full_verbs "rbac.authorization.k8s.io"
      "v1" false
    ∷ api_resource "ClusterRole" "clusterroles" full_verbs "rbac.authorization.k8s.io" "v1" false
    ∷ api_resource "RoleBinding" "rolebindings" full_verbs "rbac.authorization.k8s.io" "v1" true
    ∷ api_resource "Role" "roles" full_verbs "rbac.authorization.k8s.io" "v1" true
    ∷ [])

unfoldable pub storage_k8s_io_v1 : ApiResourceList
storage_k8s_io_v1 = api_resource_list "storage.k8s.io/v1" (
    api_resource "CSIDriver" "csidrivers" full_verbs "storage.k8s.io" "v1" false
    ∷ api_resource "CSINode" "csinodes" full_verbs "storage.k8s.io" "v1" false
    ∷ api_resource "StorageClass" "storageclasses" full_verbs "storage.k8s.io" "v1" false
    ∷ api_resource "VolumeAttachment" "volumeattachments" full_verbs "storage.k8s.io" "v1" false
    ∷ [])

unfoldable pub storage_k8s_io_v1beta1 : ApiResourceList
storage_k8s_io_v1beta1 = api_resource_list "storage.k8s.io/v1beta1" (
    api_resource "CSIStorageCapacity" "csistoragecapacities" full_verbs "storage.k8s.io" "v1beta1"
      true
    ∷ [])

unfoldable pub admissionregistration_k8s_io_v1 : ApiResourceList
admissionregistration_k8s_io_v1 = api_resource_list "admissionregistration.k8s.io/v1" (
    api_resource "MutatingWebhookConfiguration" "mutatingwebhookconfigurations" full_verbs
      "admissionregistration.k8s.io" "v1" false
    ∷ api_resource "ValidatingWebhookConfiguration" "validatingwebhookconfigurations" full_verbs
        "admissionregistration.k8s.io" "v1" false
    ∷ [])

unfoldable pub apiextensions_k8s_io_v1 : ApiResourceList
apiextensions_k8s_io_v1 = api_resource_list "apiextensions.k8s.io/v1" (
    api_resource "CustomResourceDefinition" "customresourcedefinitions" full_verbs
      "apiextensions.k8s.io" "v1" false
    ∷ [])

unfoldable pub scheduling_k8s_io_v1 : ApiResourceList
scheduling_k8s_io_v1 =
    api_resource_list "scheduling.k8s.io/v1" (
      api_resource "PriorityClass" "priorityclasses" full_verbs "scheduling.k8s.io" "v1" false ∷ [])

unfoldable pub coordination_k8s_io_v1 : ApiResourceList
coordination_k8s_io_v1 =
    api_resource_list "coordination.k8s.io/v1"
      (api_resource "Lease" "leases" full_verbs "coordination.k8s.io" "v1" true ∷ [])

unfoldable pub node_k8s_io_v1 : ApiResourceList
node_k8s_io_v1 =
    api_resource_list "node.k8s.io/v1"
      (api_resource "RuntimeClass" "runtimeclasses" full_verbs "node.k8s.io" "v1" false ∷ [])

unfoldable pub node_k8s_io_v1beta1 : ApiResourceList
node_k8s_io_v1beta1 =
    api_resource_list "node.k8s.io/v1beta1"
      (api_resource "RuntimeClass" "runtimeclasses" full_verbs "node.k8s.io" "v1beta1" false ∷ [])

unfoldable pub discovery_k8s_io_v1 : ApiResourceList
discovery_k8s_io_v1 =
    api_resource_list "discovery.k8s.io/v1"
      (api_resource "EndpointSlice" "endpointslices" full_verbs "discovery.k8s.io" "v1" true ∷ [])

unfoldable pub discovery_k8s_io_v1beta1 : ApiResourceList
discovery_k8s_io_v1beta1 = api_resource_list "discovery.k8s.io/v1beta1" (
    api_resource "EndpointSlice" "endpointslices" full_verbs "discovery.k8s.io" "v1beta1" true ∷ [])

unfoldable pub flowcontrol_apiserver_k8s_io_v1beta2 : ApiResourceList
flowcontrol_apiserver_k8s_io_v1beta2 = api_resource_list "flowcontrol.apiserver.k8s.io/v1beta2" (
    api_resource "FlowSchema" "flowschemas" full_verbs "flowcontrol.apiserver.k8s.io" "v1beta2"
      false
    ∷ api_resource "PriorityLevelConfiguration" "prioritylevelconfigurations" full_verbs
        "flowcontrol.apiserver.k8s.io" "v1beta2" false
    ∷ [])

unfoldable pub flowcontrol_apiserver_k8s_io_v1beta1 : ApiResourceList
flowcontrol_apiserver_k8s_io_v1beta1 = api_resource_list "flowcontrol.apiserver.k8s.io/v1beta1" (
    api_resource "FlowSchema" "flowschemas" full_verbs "flowcontrol.apiserver.k8s.io" "v1beta1"
      false
    ∷ api_resource "PriorityLevelConfiguration" "prioritylevelconfigurations" full_verbs
        "flowcontrol.apiserver.k8s.io" "v1beta1" false
    ∷ [])

unfoldable pub resources : List ApiResourceList
unfolding core_v1 apiregistration_k8s_io_v1 apps_v1 events_k8s_io_v1 events_k8s_io_v1beta1
    authentication_k8s_io_v1 authorization_k8s_io_v1 autoscaling_v2 autoscaling_v1
    autoscaling_v2beta1 autoscaling_v2beta2 batch_v1 batch_v1beta1 certificates_k8s_io_v1
    networking_k8s_io_v1 policy_v1 policy_v1beta1 rbac_authorization_k8s_io_v1 storage_k8s_io_v1
    storage_k8s_io_v1beta1 admissionregistration_k8s_io_v1 apiextensions_k8s_io_v1
    scheduling_k8s_io_v1 coordination_k8s_io_v1 node_k8s_io_v1 node_k8s_io_v1beta1
    discovery_k8s_io_v1 discovery_k8s_io_v1beta1 flowcontrol_apiserver_k8s_io_v1beta2
    flowcontrol_apiserver_k8s_io_v1beta1
resources =
    core_v1 ∷ apiregistration_k8s_io_v1 ∷ apps_v1 ∷ events_k8s_io_v1 ∷ events_k8s_io_v1beta1
    ∷ authentication_k8s_io_v1 ∷ authorization_k8s_io_v1 ∷ autoscaling_v2 ∷ autoscaling_v1
    ∷ autoscaling_v2beta1 ∷ autoscaling_v2beta2 ∷ batch_v1 ∷ batch_v1beta1 ∷ certificates_k8s_io_v1
    ∷ networking_k8s_io_v1 ∷ policy_v1 ∷ policy_v1beta1 ∷ rbac_authorization_k8s_io_v1
    ∷ storage_k8s_io_v1 ∷ storage_k8s_io_v1beta1 ∷ admissionregistration_k8s_io_v1
    ∷ apiextensions_k8s_io_v1 ∷ scheduling_k8s_io_v1 ∷ coordination_k8s_io_v1 ∷ node_k8s_io_v1
    ∷ node_k8s_io_v1beta1 ∷ discovery_k8s_io_v1 ∷ discovery_k8s_io_v1beta1
    ∷ flowcontrol_apiserver_k8s_io_v1beta2 ∷ flowcontrol_apiserver_k8s_io_v1beta1 ∷ []
