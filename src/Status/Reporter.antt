-- ===== src/Status/Reporter.antt =====
-- pkg/client/status_reporter.go: the StatusReporter, over a ClusterOperator client, a clock and a
-- state `S` of the API server that the code does not see.
pub mod Lookups
pub mod Written
pub mod Calls
use cluster_monitoring_opera.Base.{
  ℕ, String, ◌<>◌, Bool, true, false, not, List, [], ◌∷◌, ◌==◌, string_eq, if◌then◌else◌, Error,
  Result, ok, err, M, pure, fail, attempt, ◌>>=◌,
}
use cluster_monitoring_opera.Status.Conditions.{
  available, progressing, degraded, upgradeable, condition_true, condition_false, Condition,
  Conditions, OperandVersion, ObjectReference, ClusterOperatorStatus, new_conditions, set_condition,
  entries,
}
use cluster_monitoring_opera.Words.{to_pascal_case}

pub record ClusterOperator : Type 0 where
  pub api_version : String
  pub kind : String
  pub name : String
  pub status : ClusterOperatorStatus

pub record StatusReporter (S : Type 0) : Type 0 where
  pub get : String → M S ClusterOperator
  pub create : ClusterOperator → M S ClusterOperator
  pub update_status : ClusterOperator → M S ClusterOperator
  -- What a failed `create` returns beside its error.
  pub unset : ClusterOperator
  pub is_not_found : Error → Bool
  -- The text of an error under `%v`.
  pub error_text : Error → String
  pub now : M S ℕ
  pub cluster_operator_name : String
  pub namespace : String
  pub user_workload_namespace : String
  pub version : String

abbrev named : String → String → ObjectReference
named resource name = record { group = ""; resource = resource; name = name }

abbrev monitoring_crs : String → ObjectReference
monitoring_crs resource = record { group = "monitoring.coreos.com"; resource = resource; name = "" }

-- `relatedObjects`
unfoldable pub related_objects : String → String → List ObjectReference
related_objects namespace user_workload_namespace =
    named "namespaces" namespace
    ∷ named "namespaces" user_workload_namespace
    ∷ monitoring_crs "servicemonitors"
    ∷ monitoring_crs "podmonitors"
    ∷ monitoring_crs "prometheusrules"
    ∷ monitoring_crs "alertmanagers"
    ∷ monitoring_crs "prometheuses"
    ∷ monitoring_crs "thanosrulers"
    ∷ monitoring_crs "alertmanagerconfigs"
    ∷ []

-- The status that `SetDone` writes over an old one.
unfoldable pub done_status : String → ℕ → ClusterOperatorStatus → ClusterOperatorStatus
done_status version time old =
    let c = new_conditions old version time in
    let c =
      set_condition c available condition_true "Successfully rolled out the stack." "RollOutDone"
        time in
    let c = set_condition c progressing condition_false "" "" time in
    let c = set_condition c degraded condition_false "" "" time in
    let c = set_condition c upgradeable condition_true "" "" time in
    record old {
      conditions = entries c;
      versions =
          if not (version == "") then record { name = "operator"; version = version } ∷ [] else [];
    }

-- The status that `SetInProgress` writes over an old one.
unfoldable pub in_progress_status :
    String → List ObjectReference → ℕ → ClusterOperatorStatus → ClusterOperatorStatus
in_progress_status version objects time old =
    let c = new_conditions old version time in
    let c =
      set_condition c progressing condition_true "Rolling out the stack." "RollOutInProgress"
        time in
    let c =
      set_condition c upgradeable condition_true
        "Rollout of the monitoring stack is in progress. Please wait until it finishes."
        "RollOutInProgress" time in
    record old { conditions = entries c; related_objects = objects }

-- The status that `SetFailed` writes over an old one.
unfoldable pub failed_status :
    String → String → String → ℕ → ClusterOperatorStatus → ClusterOperatorStatus
failed_status version status_err reason time old =
    let c = new_conditions old version time in
    let c = set_condition c available condition_false "" "" time in
    let c = set_condition c progressing condition_false "" "" time in
    let c =
      set_condition c degraded condition_true ("Failed to rollout the stack. Error: " <> status_err)
        reason time in
    let c =
      set_condition c upgradeable condition_true
        "Rollout of the monitoring stack failed and is degraded. Please investigate the degraded status error."
        reason time in
    record old { conditions = entries c }

module _ {S : Type 0} (r : StatusReporter S) where
  open r use {
    get, create, update_status, unset, is_not_found, error_text, now, cluster_operator_name,
    namespace, user_workload_namespace, version,
  }

  unfoldable pub new_cluster_operator : M S ClusterOperator
  new_cluster_operator = do
    time ← now
    let status : ClusterOperatorStatus = record {
      conditions = [];
      versions = [];
      related_objects = related_objects namespace user_workload_namespace;
    }
    pure (record {
      api_version = "config.openshift.io/v1";
      kind = "ClusterOperator";
      name = cluster_operator_name;
      status = record status { conditions = entries (new_conditions status version time) };
    })

  -- An error that says "not found" is passed over, also from `Create`.
  abbrev pub created : Result ClusterOperator → M S ClusterOperator
  created (ok co) = pure co
  created (err e) = if is_not_found e then pure unset else fail e

  abbrev pub or_create : Result ClusterOperator → M S ClusterOperator
  or_create (ok co) = pure co
  or_create (err e) =
      if is_not_found e
      then (do co ← new_cluster_operator; made ← attempt (create co); created made)
      else fail e

  -- The first lines of the three setters.
  unfoldable pub get_or_create : M S ClusterOperator
  get_or_create = do found ← attempt (get cluster_operator_name); or_create found

  unfoldable pub set_done : M S (Unit {0})
  set_done = do
    co ← get_or_create
    time ← now
    updated ← update_status (record co { status = done_status version time co.status })
    pure tt

  unfoldable pub set_in_progress : M S (Unit {0})
  set_in_progress = do
    co ← get_or_create
    time ← now
    let objects = related_objects namespace user_workload_namespace
    updated ←
        update_status (record co { status = in_progress_status version objects time co.status })
    pure tt

  unfoldable pub set_failed : Error → String → M S (Unit {0})
  set_failed status_err reason = do
    co ← get_or_create
    time ← now
    updated ← update_status (record co {
      status = failed_status version (error_text status_err) (to_pascal_case reason) time co.status;
    })
    pure tt
