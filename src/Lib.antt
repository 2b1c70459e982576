-- ===== src/Lib.antt =====
-- A model of the cluster monitoring operator of OpenShift, in the parts that decide: the worker that
-- syncs, the configuration that it loads, the task runner, the client of the API server, the
-- report on the ClusterOperator, the certificates that are rotated, and the objects that are named by
-- their content.
--
-- How the parts interact. `Run` starts the informers and the worker (Operator/Running). A change of a
-- watched object (Operator/Watches) puts the key of the operator's ConfigMap into the work queue
-- (Operator/Events). The worker takes it and calls `sync` (Operator/Sync), which loads a
-- configuration (Operator/Loads, Config), sets it to progressing, lets the task runner run the tasks
-- of that configuration (Tasks), and reports done or failed (Status). The tasks call the client
-- (Client), which creates, updates and deletes the objects and waits for them.
--
-- The files and the code, with paths from the root of the repository:
--   * Base: names of the libraries, Boolean tests, association lists (Base/Dict) for Go's maps, lists,
--     and Base/Monad for calls that change a state and return a Go result. An `Error` is one of the
--     values that the code makes or tests.
--   * Status/Conditions: pkg/client/condition.go (`newConditions`, `setCondition`, `entries`).
--   * Status/Reporter: pkg/client/status_reporter.go (`SetDone`, `SetInProgress`, `SetFailed`,
--     `newClusterOperator`, `relatedObjects`). The status that each setter writes is a function of the
--     old one, `done_status`, `in_progress_status`, `failed_status`; `set_done`, `set_in_progress` and
--     `set_failed` are the calls around it.
--   * Words: pkg/strings/strings.go (`ToPascalCase`).
--   * Client, with Metadata, Apply, Delete, Wait, Ready and Rollout: pkg/client/client.go. The function
--     `CreateOrUpdateConfigMap` is `create_or_update_config_map`, and so on. An `Endpoint` holds the
--     calls of one kind of object over an abstract state of the API server.
--   * Config, with Defaults, Settings and Loading: pkg/manifests/config.go.
--   * Operator, with Watches, Events, Running, Loads, Sync and TaskList: pkg/operator/operator.go.
--     The informers of `New` are a table in Watches; the goroutines of `Run` are a sequence of
--     signals in Running; TaskList has the fifteen tasks of `sync`.
--   * Tasks: pkg/tasks/tasks.go, and the tasks themselves: Tasks/CaBundle for helpers.go, Tasks/Secrets
--     for what several tasks do with secrets and lists, and a module for each task, as
--     Tasks/ThanosRulerUserWorkload for thanos_ruler_user_workload.go. `Run` of a task is
--     `run_grafana`, and so on; a long task is split into parts that keep the order of its calls.
--   * Manifests: pkg/manifests, in Numbers (the hash and the digits of Go's standard library), Hashing
--     (`HashSecret`, `HashTrustedCA`, `PrometheusAdapterSecret` of manifests.go), Reader
--     (errmapreader.go), Prometheus (the rules, the etcd secret and the remote writes of
--     manifests.go), Image (image.go), Assets (assets.go) and Rotation (tls.go).
--   * Promqlgen: pkg/promqlgen/promqlgen.go.
--   * Entry: cmd/operator/main.go, the flag of the images and `Main`.
--   * Texts: `strings.Split` and `strings.Join`, for Manifests/Image, Promqlgen and Entry.
--
-- What stands for code that is not in the repository: the API server with its client sets, the clock,
-- the informer's store, the work queue, mergo, reflect.DeepEqual, wait.Poll, errgroup, the YAML and
-- JSON decoders, the parser of metric selectors, the libraries of certificates, the file system and the
-- status functions of prometheus-operator are arguments of the definitions. A task takes the methods of
-- the factory as a record of results. What
-- a theorem asks of them is a record of laws: `IsLawful`, `IsStore`, `KeepsNames` and `IsGone` of the
-- API server, `IsMergo`, `IsPoll`, `IsPollImmediate` and `IsGroup`, and
-- `Works` of the libraries of certificates. Client/Memory and Tasks/Sequential
-- have instances that obey them, and the tests run the theorems on these.
--
-- Nil pointers. A pointer of the configuration is an Option. A function that would dereference nil
-- returns `none`, or fails as a call, while its Go error is a value of its result; so a panic is not
-- taken for an error that the code handles.
--
-- Panics. In a call, a panic is one of the errors `nil_dereference`, `index_out_of_range` and `nil_map`,
-- and `is_panic` knows it below the texts of its callers. A panic ends the process: `run_task` does not
-- make a task's error of it, `RunAll` and `sync` end with it and report nothing, and so does `Run`.
--
-- Bounds. Loops go over lists, and the polls are a parameter, which `IsPoll` takes to be rounds of the
-- condition that end with a success, an error or the timeout. The digits of a hash are found by at
-- most 64 divisions, more than a number below 2 ^ 64 needs in any base. A hash is taken modulo 2 ^ 64
-- at every step, and a difference of times is cut to what an int64 holds. The
-- numbers that the client compares are natural numbers; Go's int32 and int64 fields hold no others here.
-- Durations of polls are whole seconds, times of certificates nanoseconds since 1970.
--
-- Not modelled. The maps of Go have no order: a model fixes one, and theorems speak of look-ups. Two
-- tasks do not interleave: the run of a task is one call. A worker's turn and an event's delivery are
-- steps that nothing interrupts. The resync of informers, the metrics and logging are left out, as are
-- the other methods of the factory in pkg/manifests/manifests.go, which read an asset and set its
-- fields, and the passwords of pkg/manifests/password.go, which are random bytes of a library. Case
-- and digits in Words are those of ASCII. A `%q` of a name or a flag is taken to add quotes only.
pub mod Base
pub mod Client
pub mod Config
pub mod Entry
pub mod Manifests
pub mod Operator
pub mod Promqlgen
pub mod Status
pub mod Tasks
pub mod Texts
pub mod Words
