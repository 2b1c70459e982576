-- ===== src/Operator/Sync/Returns.antt =====
-- `sync` returns, unless a task panics.
use cluster_monitoring_opera.Base.{
  String, Bool, true, false, Option, some, List, ◌≡◌, refl, Error, Result, ok, err, attempt, ◌>>=◌,
}
use cluster_monitoring_opera.Base.Dict.{Dict}
use cluster_monitoring_opera.Config.{Config}
use cluster_monitoring_opera.Config.Settings.{
  images_of, set_images, set_telemetry_matches, set_remote_write, receiver,
}
use cluster_monitoring_opera.Config.Loading.{deref}
use cluster_monitoring_opera.Status.Reporter.{set_failed, set_in_progress, set_done}
use cluster_monitoring_opera.Operator.{Operator}
use cluster_monitoring_opera.Operator.Loads.{config}
use cluster_monitoring_opera.Operator.Loads.Total.{
  HasDefaults, deref-Gives, change_cmc-HasDefaults, change_telemeter-HasDefaults,
}
use cluster_monitoring_opera.Base.{
  Some, M, ◌⊎◌, inl, inr, ap, ◌∙◌, then_run, GivesAt, >>=-GivesAt, Gives, pure-Gives, attempt-Gives,
  >>=-Gives,
}
use cluster_monitoring_opera.Operator.Loads.Returns.{IsReady, NotNullAfter, config-GivesAt}
use cluster_monitoring_opera.Tasks.Runner.{IsGroup, Panicked, run_all-panics}
use cluster_monitoring_opera.Operator.Sync.Reports.{Loaded}
use cluster_monitoring_opera.Operator.Sync.{
  failed_task_reason, with_settings, run_tasks, report_failed, by_tasks, by_config, sync,
}

module _ {B : Type 0} where
  set_images-HasDefaults :
      (images : Dict String String) (c : Config B)
      → HasDefaults c
      → (c' : Config B) × (set_images images c ≡ some c') × HasDefaults c'
  unfolding set_images
  set_images-HasDefaults images c d =
      let (old, e) = d.images_set in
      (
        record c { images = some (images_of images) },
        rw e refl,
        record {
          images_set = (images_of images, refl);
          cmc = d.cmc;
          cmc_set = d.cmc_set;
          all_set = d.all_set;
        },
      )

  set_telemetry_matches-HasDefaults :
      (matches : List String) (c : Config B)
      → HasDefaults c
      → (c' : Config B) × (set_telemetry_matches matches c ≡ some c') × HasDefaults c'
  unfolding set_telemetry_matches
  set_telemetry_matches-HasDefaults matches c =
      change_cmc-HasDefaults _ c λ cmc ((p, p_set), e, h, t, u).
        let new = record p { telemetry_matches = matches } in
        (record cmc { prometheus_k8s_config = some new }, rw p_set refl, ((new, refl), e, h, t, u))

  set_remote_write-HasDefaults :
      (rw : Bool) (c : Config B)
      → HasDefaults c
      → (c' : Config B) × (set_remote_write rw c ≡ some c') × HasDefaults c'
  unfolding set_remote_write
  set_remote_write-HasDefaults b c d = go b
    where
      kept : (b : Bool) → HasDefaults (record c { remote_write = b })
      kept b = record {
        images_set = d.images_set;
        cmc = d.cmc;
        cmc_set = d.cmc_set;
        all_set = d.all_set;
      }

      go : (b : Bool) → (c' : Config B) × (set_remote_write b c ≡ some c') × HasDefaults c'
      go true = change_telemeter-HasDefaults receiver (record c { remote_write = true }) (kept true)
      go false = (record c { remote_write = false }, refl, kept false)

module _ {S B : Type 0} (o : Operator S B) where
  deref_set :
      (x : Option (Config B))
      → ((c' : Config B) × (x ≡ some c') × HasDefaults c')
      → Gives {S = S} (deref x) HasDefaults
  deref_set x (c', e, d) = deref-Gives _ x c' e d

  with_settings-Gives : (c : Config B) → HasDefaults c → Gives (with_settings o c) HasDefaults
  unfolding with_settings
  with_settings-Gives c d =
      >>=-Gives (deref (set_images o.images c)) _ _ _
        (deref_set _ (set_images-HasDefaults o.images c d))
        λ c d.
          >>=-Gives (deref (set_telemetry_matches o.telemetry_matches c)) _ _ _
            (deref_set _ (set_telemetry_matches-HasDefaults o.telemetry_matches c d))
            λ c d. deref_set _ (set_remote_write-HasDefaults o.remote_write c d)

  report_failed-Gives :
      (e : Error) (reason : String) → Gives (report_failed o e reason) (λ _. Unit {0})
  report_failed-Gives e reason =
      >>=-Gives (attempt (set_failed o.reporter e reason)) _ _ _ (attempt-Gives _)
        λ _ _. pure-Gives _ (err e) tt

  by_tasks-Gives : (r : String × Result (Unit {0})) → Gives (by_tasks o r) (λ _. Unit {0})
  by_tasks-Gives (name, err e) = report_failed-Gives e (failed_task_reason name)
  by_tasks-Gives (name, ok _) =
      >>=-Gives (attempt (set_done o.reporter)) _ _ _ (attempt-Gives _)
        λ _ _. pure-Gives _ (ok tt) tt

  -- A call returns from a state, or panics with an error that has the property.
  abbrev ReturnsOr : {A : Type 0} → M S A → (Error → Type 0) → S → Type 0
  ReturnsOr {A} m P s =
      GivesAt m (λ _. Unit {0}) s ⊎ ((e : Error) × (t : S) × (m s ≡ (err e, t)) × P e)

  >>=-ReturnsOr :
      {A C : Type 0}
      → (m : M S A) (f : A → M S C) (P : Error → Type 0) (a : A) (s t : S) → m s ≡ (ok a, t)
      → ReturnsOr (f a) P t
      → ReturnsOr (m >>= f) P s
  >>=-ReturnsOr m f P a s t p (inl g) = inl (>>=-GivesAt m f _ a s t p g)
  >>=-ReturnsOr {A} m f P a s t p (inr (e, u, q, x)) =
      inr (e, u, ap (λ (r : Result A × S). then_run f r.0 r.1) p ∙ q, x)

  module _ (is_group : IsGroup o.group) where
    -- A task of the loaded configuration has panicked.
    abbrev pub TaskPanicked : String → S → Error → Type 0
    TaskPanicked key s e =
        (c : Config B) × Loaded o key s c × Some (Panicked o.group is_group e) (o.tasks c)

    run_tasks-ReturnsOr :
        (c : Config B) (s : S)
        → ReturnsOr
            (run_tasks o c >>= by_tasks o)
            (λ e. Some (Panicked o.group is_group e) (o.tasks c))
            s
    run_tasks-ReturnsOr c s = go (run_tasks o c s).0 (run_tasks o c s).1 refl
      where
        go :
            (r : Result (String × Result (Unit {0}))) (t : S)
            → run_tasks o c s ≡ (r, t)
            → ReturnsOr
                (run_tasks o c >>= by_tasks o)
                (λ e. Some (Panicked o.group is_group e) (o.tasks c))
                s
        go (ok r) t p =
            inl (>>=-GivesAt (run_tasks o c) (by_tasks o) _ r s t p (by_tasks-Gives r t))
        go (err e) t p = inr (
          e,
          t,
          ap (λ (r : Result (String × Result (Unit {0})) × S). then_run (by_tasks o) r.0 r.1) p,
          run_all-panics o.group is_group (o.tasks c) e s t p,
        )

    by_config-ReturnsOr :
        (r : Result (Config B)) (key : String) (s t : S)
        → IsReady r
        → config o key s ≡ (ok r, t)
        → ReturnsOr (by_config o r) (TaskPanicked key s) t
    by_config-ReturnsOr (err e) key s t d p = inl (report_failed-Gives e "InvalidConfiguration" t)
    by_config-ReturnsOr (ok c) key s t d p =
        let (c', u, q, _) = with_settings-Gives c d t in
        let v : S = (set_in_progress o.reporter u).1 in
        >>=-ReturnsOr (with_settings o c) _ (TaskPanicked key s) c' t u q (
          >>=-ReturnsOr (attempt (set_in_progress o.reporter)) (λ _. run_tasks o c' >>= by_tasks o)
            (TaskPanicked key s) (set_in_progress o.reporter u).0 u v refl
            (elim (run_tasks-ReturnsOr c' v) [
              | inl g ↦ inl g
              | inr (e, w, x, h) ↦ inr (e, w, x, (c', (c, t, u, p, q), h))
            ]))

    -- Where the user's ConfigMap, as `Config` finds it, holds nothing that is decoded to null, and with
    -- an error group that panics only where a function does: `sync` returns, or one of the tasks of its
    -- configuration has panicked. `sync` itself never follows a nil pointer.
    pub sync-ReturnsOr :
        (key : String) (s : S)
        → NotNullAfter o key s
        → GivesAt (sync o key) (λ _. Unit {0}) s
          ⊎ ((e : Error) × (t : S) × (sync o key s ≡ (err e, t)) × TaskPanicked key s e)
    unfolding sync
    sync-ReturnsOr key s h =
        let (r, t, p, d) = config-GivesAt o key s h in
        >>=-ReturnsOr (config o key) (by_config o) (TaskPanicked key s) r s t p
          (by_config-ReturnsOr r key s t d p)
