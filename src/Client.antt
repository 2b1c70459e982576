-- ===== src/Client.antt =====
-- pkg/client/client.go: the Client, over the API server that it talks to. `B` stands for the parts
-- of an object that the client passes on unread, `S` for a state of the server that it does not see.
pub mod Metadata
pub mod Apply
pub mod Delete
pub mod Wait
pub mod Ready
pub mod Rollout
pub mod Memory
mod Tests
use cluster_monitoring_opera.Base.{ℕ, String, Bool, List, Error, M}
use cluster_monitoring_opera.Base.Dict.{Dict}

abbrev pub Labels : Type 0
Labels = Dict String String

pub record ObjectMeta : Type 0 where
  pub namespace : String
  pub name : String
  pub resource_version : String
  pub annotations : Labels
  pub labels : Labels

pub record Resource (B : Type 0) : Type 0 where
  pub meta : ObjectMeta
  pub body : B

-- `Data` of a Secret or a ConfigMap.
abbrev pub Contents : Type 0
Contents = Dict String String

pub record DeploymentBody (B : Type 0) : Type 0 where
  pub spec : B
  pub generation : ℕ
  pub observed_generation : ℕ
  pub replicas : ℕ
  pub updated_replicas : ℕ
  pub unavailable_replicas : ℕ

pub record DaemonSetBody (B : Type 0) : Type 0 where
  pub spec : B
  pub generation : ℕ
  pub observed_generation : ℕ
  pub desired_number_scheduled : ℕ
  pub updated_number_scheduled : ℕ
  pub number_unavailable : ℕ

pub record StatefulSetBody (B : Type 0) : Type 0 where
  pub spec : B
  pub generation : ℕ
  pub observed_generation : ℕ
  pub replicas : ℕ
  pub updated_replicas : ℕ
  pub ready_replicas : ℕ

-- A Prometheus, Alertmanager or ThanosRuler. The code reads the replicas behind a pointer that it
-- does not test.
pub record ReplicatedBody (B : Type 0) : Type 0 where
  pub spec : B
  pub replicas : ℕ

pub record ReplicaStatus : Type 0 where
  pub updated_replicas : ℕ
  pub available_replicas : ℕ

pub record ServiceBody (B : Type 0) : Type 0 where
  pub type : String
  pub cluster_ip : String
  pub rest : B

pub record BindingBody (B : Type 0) : Type 0 where
  pub role_ref : B
  pub subjects : B

pub record ApiServiceBody (B : Type 0) : Type 0 where
  pub ca_bundle : String
  pub rest : B

pub record IngressCondition : Type 0 where
  pub type : String
  pub status : String

pub record RouteBody : Type 0 where
  pub host : String
  pub path : String
  -- `Spec.TLS`, with its `Termination`, where it is set.
  pub tls_termination : List String
  -- `Status.Ingress`, with the conditions of each.
  pub ingress : List (List IngressCondition)

pub record CrdCondition : Type 0 where
  pub type : String
  pub status : String
  pub reason : String

-- The calls of one kind of object. A cluster-wide kind has the namespace "".
pub record Endpoint (S B : Type 0) : Type 0 where
  pub get : String → String → M S (Resource B)
  pub create : Resource B → M S (Resource B)
  pub update : Resource B → M S (Resource B)
  pub delete : String → String → M S (Unit {0})
  -- By namespace and label selector.
  pub list : String → String → M S (List (Resource B))

-- The libraries that the client calls, and its clientsets.
pub record Client (S B : Type 0) : Type 1 where
  pub version : String
  pub namespace : String
  pub user_workload_namespace : String
  pub namespace_selector : String
  -- `apierrors.IsNotFound`
  pub is_not_found : Error → Bool
  -- `mergo.Merge(&required, existing)` on maps of texts.
  pub merge : Labels → Labels → Labels
  -- `reflect.DeepEqual`
  pub same : B → B → Bool
  -- `wait.Poll` and `wait.PollImmediate` at an interval and a timeout in seconds, over the variables
  -- that the condition captures.
  pub poll : (L : Type 0) → ℕ → ℕ → M (S × L) Bool → M (S × L) (Unit {0})
  pub poll_immediate : (L : Type 0) → ℕ → ℕ → M (S × L) Bool → M (S × L) (Unit {0})
  -- `PrometheusStatus`, `AlertmanagerStatus` and `ThanosRulerStatus` of prometheus-operator.
  pub prometheus_status : Resource (ReplicatedBody B) → M S ReplicaStatus
  pub alertmanager_status : Resource (ReplicatedBody B) → M S ReplicaStatus
  pub thanos_ruler_status : Resource (ReplicatedBody B) → M S ReplicaStatus
  -- The pods of a Prometheus and of a ThanosRuler, by namespace and name of the object.
  pub prometheus_pods : String → String → M S (List String)
  pub thanos_ruler_pods : String → String → M S (List String)
  -- The conditions of a CustomResourceDefinition.
  pub crd_conditions : String → M S (List CrdCondition)
  pub validating_webhooks : Endpoint S B
  pub security_context_constraints : Endpoint S B
  pub prometheuses : Endpoint S (ReplicatedBody B)
  pub alertmanagers : Endpoint S (ReplicatedBody B)
  pub thanos_rulers : Endpoint S (ReplicatedBody B)
  pub prometheus_rules : Endpoint S B
  pub service_monitors : Endpoint S B
  pub deployments : Endpoint S (DeploymentBody B)
  pub daemon_sets : Endpoint S (DaemonSetBody B)
  pub stateful_sets : Endpoint S (StatefulSetBody B)
  pub secrets : Endpoint S Contents
  pub config_maps : Endpoint S Contents
  pub services : Endpoint S (ServiceBody B)
  pub service_accounts : Endpoint S B
  pub namespaces : Endpoint S B
  pub roles : Endpoint S B
  pub cluster_roles : Endpoint S B
  pub role_bindings : Endpoint S (BindingBody B)
  pub cluster_role_bindings : Endpoint S (BindingBody B)
  pub routes : Endpoint S RouteBody
  pub api_services : Endpoint S (ApiServiceBody B)
