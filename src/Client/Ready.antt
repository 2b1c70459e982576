-- ===== src/Client/Ready.antt =====
-- The functions of pkg/client/client.go that read the cluster, and those that wait for an object to
-- be there, or to be gone.
use cluster_monitoring_opera.Base.{
  ◌*◌, String, ◌<>◌, Bool, true, false, ◌&&◌, ◌||◌, not, Option, none, some, List, [], ◌∷◌, map,
  length, ◌==◌, string_eq, nat_eq, if◌then◌else◌, Error, Result, ok, err, message, format, wrap,
  or_wrap, M, pure, fail, wrapped, attempt, ignore, ◌>>=◌, ◌>>◌,
}
use cluster_monitoring_opera.Base.Dict.{values}
use cluster_monitoring_opera.Client.{
  Resource, Contents, RouteBody, IngressCondition, ReplicatedBody, CrdCondition, Client,
}
use cluster_monitoring_opera.Client.Wait.{
  lift, with_last_error, deployment_create_timeout, full_name, wait_for,
}

pub record Url : Type 0 where
  pub scheme : String
  pub host : String
  pub path : String

-- `newRoute.Spec.TLS != nil && newRoute.Spec.TLS.Termination != ""`
abbrev pub has_tls : List String → Bool
has_tls [] = false
has_tls (termination ∷ _) = not (termination == "")

-- The loop over the values of a secret, in any order.
abbrev pub has_empty : List String → Bool
has_empty [] = false
has_empty (v ∷ vs) = v == "" || has_empty vs

-- The loop over the conditions of the first ingress.
abbrev pub is_admitted : List IngressCondition → Bool
is_admitted [] = false
is_admitted (c ∷ cs) = c.type == "Admitted" && c.status == "True" || is_admitted cs

module _ {S B : Type 0} (c : Client S B) where
  unfoldable pub get_route_url : Resource RouteBody → M S Url
  get_route_url r = do
    new_route ← wrapped "getting Route object failed" (c.routes.get r.meta.namespace r.meta.name)
    pure (record {
      scheme = if has_tls new_route.body.tls_termination then "https" else "http";
      host = new_route.body.host;
      path = new_route.body.path;
    })

  unfoldable pub namespaces_to_monitor : M S (List String)
  namespaces_to_monitor = do
    items ← wrapped "listing namespaces failed" (c.namespaces.list "" c.namespace_selector)
    pure (map (λ o. o.meta.name) items)

  unfoldable pub assure_prometheus_operator_crs_exist : M S (Unit {0})
  assure_prometheus_operator_crs_exist s =
      let condition : M (S × Unit {0}) Bool = do
        lift (ignore (c.prometheuses.list c.namespace ""))
        lift (ignore (c.alertmanagers.list c.namespace ""))
        lift (ignore (c.service_monitors.list c.namespace ""))
        pure true
      in let (r, (s', _)) = c.poll (Unit {0}) 1 (5 * 60) condition (s, tt) in (r, s')

  -- What the condition of `WaitForSecret` captures: `result` and `lastErr`.
  abbrev pub Seen : Type 0
  Seen = Option (Resource Contents) × Option Error

  abbrev pub look_at_secret : Result (Resource Contents) → M (S × Seen) Bool
  look_at_secret (err e) (s, (result, last)) =
      if c.is_not_found e then (ok false, (s, (result, some e))) else (err e, (s, (result, last)))
  look_at_secret (ok secret) (s, (_, last)) =
      if has_empty (values secret.body)
      then (ok false, (s, (some secret, some (message "secret contains no data"))))
      else (ok true, (s, (some secret, last)))

  unfoldable pub secret_filled : Resource Contents → M (S × Seen) Bool
  secret_filled secret = do
    found ← lift (attempt (c.secrets.get secret.meta.namespace secret.meta.name))
    look_at_secret found

  abbrev pub return : {A : Type 0} → A → Result (Unit {0}) → Result A
  return a (ok _) = ok a
  return a (err e) = err e

  unfoldable pub wait_for_secret : Resource Contents → M S (Option (Resource Contents))
  unfolding secret_filled
  wait_for_secret secret s =
      let (r, (s', (result, last))) =
        c.poll Seen 1 (5 * 60) (secret_filled secret) (s, (none, none)) in
      (
        return result
            (or_wrap ("waiting for secret " <> full_name secret) (with_last_error last r)),
        s',
      )

  -- What the condition of `WaitForRouteReady` captures: `host` and `lastErr`.
  abbrev pub look_at_ingress :
      RouteBody → List (List IngressCondition) → M (S × (String × Option Error)) Bool
  look_at_ingress route [] (s, (host, _)) =
      (ok false, (s, (host, some (message "no status available"))))
  look_at_ingress route (conditions ∷ _) (s, (host, last)) =
      if is_admitted conditions
      then (ok true, (s, (route.host, last)))
      else (ok false, (s, (host, some (message "route is not yet Admitted"))))

  unfoldable pub route_admitted : Resource RouteBody → M (S × (String × Option Error)) Bool
  route_admitted r = do
    new_route ← lift (c.routes.get r.meta.namespace r.meta.name)
    look_at_ingress new_route.body new_route.body.ingress

  unfoldable pub wait_for_route_ready : Resource RouteBody → M S String
  unfolding route_admitted
  wait_for_route_ready r s =
      let (p, (s', (host, last))) =
        c.poll (String × Option Error) 1 deployment_create_timeout (route_admitted r)
          (s, ("", none)) in
      (return host (or_wrap ("waiting for route " <> full_name r) (with_last_error last p)), s')

  -- `lastErr` says how many pods there are, on every round.
  unfoldable pub pods_gone :
      (String → String → M S (List String))
      → Resource (ReplicatedBody B)
      → M (S × Option Error) Bool
  pods_gone pods o = do
    items ←
        lift (wrapped "retrieving pods during polling failed" (pods o.meta.namespace o.meta.name))
    λ (s, _).
        (ok (length items == 0), (s, some (format "%d pods still present" (length items ∷ []))))

  abbrev pub unless_failed : String → Result (Unit {0}) → M S (Unit {0})
  unless_failed text (ok _) = pure tt
  unless_failed text (err e) = if c.is_not_found e then pure tt else fail (wrap e text)

  unfoldable pub delete_prometheus : Resource (ReplicatedBody B) → M S (Unit {0})
  unfolding wait_for pods_gone
  delete_prometheus p = do
    deleted ← attempt (c.prometheuses.delete p.meta.namespace p.meta.name)
    unless_failed "deleting Prometheus object failed" deleted
    wait_for c ("waiting for Prometheus " <> full_name p <> " deletion") 10 (10 * 60)
        (pods_gone c.prometheus_pods p)

  unfoldable pub delete_thanos_ruler : Resource (ReplicatedBody B) → M S (Unit {0})
  unfolding wait_for pods_gone
  delete_thanos_ruler tr = do
    deleted ← attempt (c.thanos_rulers.delete tr.meta.namespace tr.meta.name)
    unless_failed "deleting Thanos Ruler object failed" deleted
    wait_for c ("waiting for Thanos Ruler " <> full_name tr <> " deletion") 10 (10 * 60)
        (pods_gone c.thanos_ruler_pods tr)

  -- The loop of `CRDReady` over the conditions.
  unfoldable pub crd_established : String → List CrdCondition → M S Bool
  crd_established name [] = pure false
  crd_established name (cond ∷ conds) =
      let rest = crd_established name conds in
      if cond.type == "Established"
      then (if cond.status == "True" then pure true else rest)
      else if cond.type == "NamesAccepted"
      then (if cond.status == "False"
          then fail (message ("CRD naming conflict (" <> name <> "): " <> cond.reason))
          else rest)
      else rest

  unfoldable pub crd_ready : String → M S Bool
  unfolding crd_established
  crd_ready name = do conditions ← c.crd_conditions name; crd_established name conditions

  unfoldable pub wait_for_crd_ready : String → M S (Unit {0})
  unfolding crd_ready
  wait_for_crd_ready name s =
      let (r, (s', _)) = c.poll (Unit {0}) 5 (5 * 60) (lift (crd_ready name)) (s, tt) in (r, s')
