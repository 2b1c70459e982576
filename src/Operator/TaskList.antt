-- ===== src/Operator/TaskList.antt =====
-- The fifteen tasks that `sync` of pkg/operator/operator.go gives to the task runner.

pub mod Laws
use cluster_monitoring_opera.Base.{String, Bool, Option, List, [], ◌∷◌, map, Result, M, ◌>>=◌}
use cluster_monitoring_opera.Client.{Client}
use cluster_monitoring_opera.Config.{Config}
use cluster_monitoring_opera.Config.Settings.{is_user_workload_enabled}
use cluster_monitoring_opera.Manifests.Rotation.{Crypto}
use cluster_monitoring_opera.Tasks.{TaskSpec}
use cluster_monitoring_opera.Tasks.Secrets.{Datasource, present}
use cluster_monitoring_opera.Tasks.PrometheusOperator.{
  PrometheusOperatorFactory, run_prometheus_operator,
}
use cluster_monitoring_opera.Tasks.PrometheusOperatorUserWorkload.{
  PrometheusOperatorUserWorkloadFactory, run_prometheus_operator_user_workload,
}
use cluster_monitoring_opera.Tasks.ClusterMonitoringOperator.{
  ClusterMonitoringOperatorFactory, run_cluster_monitoring_operator,
}
use cluster_monitoring_opera.Tasks.Grafana.{GrafanaFactory, run_grafana}
use cluster_monitoring_opera.Tasks.Prometheus.{PrometheusFactory, run_prometheus}
use cluster_monitoring_opera.Tasks.PrometheusUserWorkload.{
  PrometheusUserWorkloadFactory, run_prometheus_user_workload,
}
use cluster_monitoring_opera.Tasks.Alertmanager.{AlertmanagerFactory, run_alertmanager}
use cluster_monitoring_opera.Tasks.NodeExporter.{NodeExporterFactory, run_node_exporter}
use cluster_monitoring_opera.Tasks.KubeStateMetrics.{
  KubeStateMetricsFactory, run_kube_state_metrics,
}
use cluster_monitoring_opera.Tasks.OpenShiftStateMetrics.{
  OpenShiftStateMetricsFactory, run_open_shift_state_metrics,
}
use cluster_monitoring_opera.Tasks.PrometheusAdapter.{
  PrometheusAdapterFactory, run_prometheus_adapter,
}
use cluster_monitoring_opera.Tasks.Telemeter.{TelemeterFactory, run_telemeter_client}
use cluster_monitoring_opera.Tasks.ConfigSharing.{ConfigSharingFactory, run_config_sharing}
use cluster_monitoring_opera.Tasks.ThanosQuerier.{ThanosQuerierFactory, run_thanos_querier}
use cluster_monitoring_opera.Tasks.ThanosRulerUserWorkload.{
  ThanosRulerUserWorkloadFactory, run_thanos_ruler_user_workload,
}

-- The methods of the factory, by the task that calls them.
pub record Factory (B : Type 0) : Type 0 where
  pub prometheus_operator : PrometheusOperatorFactory B
  pub prometheus_operator_user_workload : PrometheusOperatorUserWorkloadFactory B
  pub cluster_monitoring_operator : ClusterMonitoringOperatorFactory B
  pub grafana : GrafanaFactory B
  pub prometheus : PrometheusFactory B
  pub prometheus_user_workload : PrometheusUserWorkloadFactory B
  pub alertmanager : AlertmanagerFactory B
  pub node_exporter : NodeExporterFactory B
  pub kube_state_metrics : KubeStateMetricsFactory B
  pub open_shift_state_metrics : OpenShiftStateMetricsFactory B
  pub prometheus_adapter : PrometheusAdapterFactory B
  pub telemeter : TelemeterFactory B
  pub config_sharing : ConfigSharingFactory
  pub thanos_querier : ThanosQuerierFactory B
  pub thanos_ruler : ThanosRulerUserWorkloadFactory B

-- The libraries that the tasks call.
pub record Libraries (S X K : Type 0) : Type 0 where
  pub crypto : Crypto S X K
  pub unmarshal : String → Result (List (Option Datasource))
  pub group_selectors : List String → Result String

-- The names of the tasks.
pub data TaskName : Type 0 where
  prometheus_operator : TaskName
  prometheus_operator_user_workload : TaskName
  cluster_monitoring_operator : TaskName
  grafana : TaskName
  prometheus : TaskName
  prometheus_user_workload : TaskName
  alertmanager : TaskName
  node_exporter : TaskName
  kube_state_metrics : TaskName
  open_shift_state_metrics : TaskName
  prometheus_adapter : TaskName
  telemeter : TaskName
  config_sharing : TaskName
  thanos_querier : TaskName
  thanos_ruler : TaskName

unfoldable pub task_name : TaskName → String
task_name prometheus_operator = "Updating Prometheus Operator"
task_name prometheus_operator_user_workload = "Updating user workload Prometheus Operator"
task_name cluster_monitoring_operator = "Updating Cluster Monitoring Operator"
task_name grafana = "Updating Grafana"
task_name prometheus = "Updating Prometheus-k8s"
task_name prometheus_user_workload = "Updating Prometheus-user-workload"
task_name alertmanager = "Updating Alertmanager"
task_name node_exporter = "Updating node-exporter"
task_name kube_state_metrics = "Updating kube-state-metrics"
task_name open_shift_state_metrics = "Updating openshift-state-metrics"
task_name prometheus_adapter = "Updating prometheus-adapter"
task_name telemeter = "Updating Telemeter client"
task_name config_sharing = "Updating configuration sharing"
task_name thanos_querier = "Updating Thanos Querier"
task_name thanos_ruler = "Updating User Workload Thanos Ruler"

-- The order of the list.
abbrev pub task_names : List TaskName
task_names =
    prometheus_operator ∷ prometheus_operator_user_workload ∷ cluster_monitoring_operator ∷ grafana
    ∷ prometheus ∷ prometheus_user_workload ∷ alertmanager ∷ node_exporter ∷ kube_state_metrics
    ∷ open_shift_state_metrics ∷ prometheus_adapter ∷ telemeter ∷ config_sharing ∷ thanos_querier
    ∷ thanos_ruler ∷ []

module _ {S B X K : Type 0} (c : Client S B) (namespace : String) (libs : Libraries S X K)
    (f : Factory B) (config : Config B) where
  -- What the task of the telemeter client reads of the configuration, in which `SetTelemetryMatches`
  -- has followed the same pointers.
  abbrev pub run_telemeter : M S (Unit {0})
  run_telemeter = do
    cmc ← present config.cluster_monitoring
    p ← present cmc.prometheus_k8s_config
    run_telemeter_client c f.telemeter libs.group_selectors p.telemetry_matches
        cmc.telemeter_client_config config.remote_write

  abbrev pub run_user_workload_operator : M S (Unit {0})
  run_user_workload_operator = do
    enabled ← present (is_user_workload_enabled config)
    run_prometheus_operator_user_workload c f.prometheus_operator_user_workload enabled

  -- `Run` of each task.
  unfoldable pub task_run : TaskName → M S (Unit {0})
  task_run prometheus_operator = run_prometheus_operator c f.prometheus_operator
  task_run prometheus_operator_user_workload = run_user_workload_operator
  task_run cluster_monitoring_operator =
      run_cluster_monitoring_operator c f.cluster_monitoring_operator libs.crypto
  task_run grafana = run_grafana c f.grafana
  task_run prometheus = run_prometheus c f.prometheus libs.unmarshal config
  task_run prometheus_user_workload =
      run_prometheus_user_workload c f.prometheus_user_workload (is_user_workload_enabled config)
  task_run alertmanager = run_alertmanager c f.alertmanager
  task_run node_exporter = run_node_exporter c f.node_exporter
  task_run kube_state_metrics = run_kube_state_metrics c f.kube_state_metrics
  task_run open_shift_state_metrics = run_open_shift_state_metrics c f.open_shift_state_metrics
  task_run prometheus_adapter = run_prometheus_adapter c f.prometheus_adapter namespace
  task_run telemeter = run_telemeter
  task_run config_sharing = run_config_sharing c f.config_sharing
  task_run thanos_querier = run_thanos_querier c f.thanos_querier libs.unmarshal config
  task_run thanos_ruler =
      run_thanos_ruler_user_workload c f.thanos_ruler (is_user_workload_enabled config)

  abbrev pub task_spec : TaskName → TaskSpec S
  task_spec n = record { name = task_name n; task = task_run n }

  abbrev pub task_list : List (TaskSpec S)
  task_list = map task_spec task_names
