-- ===== src/Status/Tests.antt =====
-- The theorems on the status at concrete statuses, with a reporter that keeps one ClusterOperator.
use cluster_monitoring_opera.Base.{
  String, Bool, false, Option, none, some, [], ◌∷◌, ◌==◌, string_eq, if◌then◌else◌, ◌≡◌, refl, ap,
  arith, Error, Result, ok, err, status, M,
}
use cluster_monitoring_opera.Status.Conditions.{
  available, progressing, degraded, upgradeable, condition_true, condition_false,
  ClusterOperatorStatus, type_eq, status_eq, condition_of, first_version,
}
use cluster_monitoring_opera.Status.Reporter.{
  ClusterOperator, StatusReporter, set_done, set_in_progress, set_failed, get_or_create,
  new_cluster_operator,
}
use cluster_monitoring_opera.Status.Reporter.Written.{reported, message_of}
use cluster_monitoring_opera.Status.Reporter.Calls.{
  IsLawful, Finds, set_done-Finds, set_failed-Finds, set_done-set_in_progress,
}

-- A server that keeps one ClusterOperator, if any; the clock stands still.
abbrev Server : Type 0
Server = Option ClusterOperator

abbrev not_found : Error
not_found = status 404 "NotFound"

abbrev is_not_found : Error → Bool
is_not_found (status code reason) = reason == "NotFound"
is_not_found _ = false

abbrev get : Server → String → Result ClusterOperator
get none name = err not_found
get (some co) name = if co.name == name then ok co else err not_found

abbrev keep : ClusterOperator → M Server ClusterOperator
keep co s = (ok co, some co)

abbrev empty : ClusterOperatorStatus
empty = record { conditions = []; versions = []; related_objects = [] }

abbrev reporter : StatusReporter Server
reporter = record {
  get = λ name s. (get s name, s);
  create = keep;
  update_status = keep;
  unset = record { api_version = ""; kind = ""; name = ""; status = empty };
  is_not_found = is_not_found;
  error_text = λ e. "some error";
  now = λ s. (ok 7, s);
  cluster_operator_name = "monitoring";
  namespace = "openshift-monitoring";
  user_workload_namespace = "openshift-user-workload-monitoring";
  version = "4.8";
}

get_own : (co : ClusterOperator) → get (some co) co.name ≡ ok co
get_own co = ground arith

get_named : (n : String) (co : ClusterOperator) (s : Server) → get s n ≡ ok co → co.name ≡ n
get_named n co none h = cc
get_named n co (some co') h = ground arith

reporter-IsLawful : IsLawful reporter
reporter-IsLawful = record {
  get-update = λ co co' s s' h.
      let e : some co ≡ s' = ap (λ x. x.1) h in rw (← e) (ap (λ r. (r, some co)) (get_own co));
  get_name = λ n co s s' h. get_named n co s (ap (λ x. x.0) h);
  create_name = λ co co' s s' h. let e : co ≡ co' = cc in rw e refl;
  create_finds = λ co e s s' h. cc;
}

ran_done : set_done reporter none ≡ (ok tt, (set_done reporter none).1)
unfolding set_done get_or_create new_cluster_operator string_eq
ran_done = refl

set_done-Finds_example :
    Finds reporter reporter-IsLawful
      (λ st.
        (reported st available ≡ some condition_true)
        × (reported st progressing ≡ some condition_false)
        × (reported st degraded ≡ some condition_false)
        × (reported st upgradeable ≡ some condition_true)
        × (first_version st.versions ≡ "4.8"))
      (set_done reporter none).1
set_done-Finds_example =
    set_done-Finds reporter reporter-IsLawful none (set_done reporter none).1 ran_done

rollout_failed : Error
rollout_failed = status 500 "InternalError"

ran_failed :
    set_failed reporter rollout_failed "waiting for grafana" none
    ≡ (ok tt, (set_failed reporter rollout_failed "waiting for grafana" none).1)
unfolding set_failed get_or_create new_cluster_operator string_eq
ran_failed = refl

set_failed-Finds_example :
    Finds reporter reporter-IsLawful
      (λ st.
        (reported st available ≡ some condition_false)
        × (reported st progressing ≡ some condition_false)
        × (reported st degraded ≡ some condition_true)
        × (message_of st degraded ≡ some "Failed to rollout the stack. Error: some error")
        × (reported st upgradeable ≡ some condition_true))
      (set_failed reporter rollout_failed "waiting for grafana" none).1
set_failed-Finds_example =
    set_failed-Finds reporter reporter-IsLawful rollout_failed "waiting for grafana" none
      (set_failed reporter rollout_failed "waiting for grafana" none).1 ran_failed

abbrev after_done : Server
after_done = (set_done reporter none).1

ran_again : set_in_progress reporter after_done ≡ (ok tt, (set_in_progress reporter after_done).1)
unfolding set_in_progress set_done get_or_create new_cluster_operator string_eq
ran_again = refl

set_done-set_in_progress_example :
    Finds reporter reporter-IsLawful
      (λ st.
        (reported st available ≡ some condition_true)
        × (reported st progressing ≡ some condition_false)
        × (reported st degraded ≡ some condition_false))
      (set_in_progress reporter after_done).1
set_done-set_in_progress_example =
    set_done-set_in_progress reporter reporter-IsLawful none after_done
      (set_in_progress reporter after_done).1 ran_done ran_again

-- A status that an older version wrote while it was failing.
abbrev failing : ClusterOperatorStatus
failing = record {
  conditions =
      condition_of degraded condition_true "disk full" "SyncFailed" 3
      ∷ condition_of available condition_false "" "" 3
      ∷ [];
  versions = record { name = "operator"; version = "4.7" } ∷ [];
  related_objects = [];
}
