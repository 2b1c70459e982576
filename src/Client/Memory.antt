-- ===== src/Client/Memory.antt =====
-- An API server in memory, which meets what the theorems on pkg/client/client.go assume of one, and
-- a client that talks to it.
use cluster_monitoring_opera.Base.{
  String, Bool, false, ◌&&◌, Option, none, some, or_else, List, [], ◌∷◌, ◌==◌, ==_refl, string_eq,
  if◌then◌else◌, ◌≡◌, refl, ap, arith, Error, Result, ok, err, status, message, M, fail,
}
use cluster_monitoring_opera.Base.Dict
use cluster_monitoring_opera.Client.{Labels, Resource, Endpoint, Client}
use cluster_monitoring_opera.Client.Metadata.{IsMergo, is_empty}
use cluster_monitoring_opera.Client.Apply.Laws.{Agrees, IsStore}
use cluster_monitoring_opera.Client.Delete.Laws.{IsGone}
use cluster_monitoring_opera.Client.Wait.Polling.{rounds}
use cluster_monitoring_opera.Client.Rollout.Laws.{KeepsNames}

abbrev pub not_found : Error
not_found = status 404 "NotFound"

abbrev pub is_not_found : Error → Bool
is_not_found (status code reason) = reason == "NotFound"
is_not_found _ = false

module _ {B : Type 0} where
  abbrev is_named : String → String → Resource B → Bool
  is_named namespace name o = o.meta.namespace == namespace && o.meta.name == name

  unfoldable pub find : String → String → List (Resource B) → Option (Resource B)
  find namespace name [] = none
  find namespace name (o ∷ s) = if is_named namespace name o then some o else find namespace name s

  unfoldable pub put : Resource B → List (Resource B) → List (Resource B)
  put o [] = o ∷ []
  put o (p ∷ s) = if is_named o.meta.namespace o.meta.name p then o ∷ s else p ∷ put o s

  unfoldable pub remove : String → String → List (Resource B) → List (Resource B)
  remove namespace name [] = []
  remove namespace name (o ∷ s) =
      let rest = remove namespace name s in if is_named namespace name o then rest else o ∷ rest

  find-put :
      (o : Resource B) (s : List (Resource B))
      → find o.meta.namespace o.meta.name (put o s) ≡ some o
  unfolding find put
  find-put o [] = ground (arith, ==_refl o.meta.namespace, ==_refl o.meta.name)
  find-put o (_ ∷ s) = ground (arith, find-put o s, ==_refl o.meta.namespace, ==_refl o.meta.name)

  find-remove :
      (namespace name namespace' name' : String) (s : List (Resource B))
      → find namespace' name' (remove namespace name s)
        ≡ (if namespace == namespace' && name == name' then none else find namespace' name' s)
  unfolding find remove
  find-remove namespace name namespace' name' [] = ground arith
  find-remove namespace name namespace' name' (_ ∷ s) =
      ground (arith, find-remove namespace name namespace' name' s)

  abbrev found_or_error : Option (Resource B) → Result (Resource B)
  found_or_error none = err not_found
  found_or_error (some o) = ok o

  abbrev create_at : Option (Resource B) → Resource B → M (List (Resource B)) (Resource B)
  create_at none o s = (ok o, put o s)
  create_at (some _) o s = (err (status 409 "AlreadyExists"), s)

  abbrev update_at : Option (Resource B) → Resource B → M (List (Resource B)) (Resource B)
  update_at none o s = (err not_found, s)
  update_at (some _) o s = (ok o, put o s)

  abbrev delete_at : Option (Resource B) → String → String → M (List (Resource B)) (Unit {0})
  delete_at none namespace name s = (err not_found, s)
  delete_at (some _) namespace name s = (ok tt, remove namespace name s)

  abbrev pub list_store : Endpoint (List (Resource B)) B
  list_store = record {
    get = λ namespace name s. (found_or_error (find namespace name s), s);
    create = λ o s. create_at (find o.meta.namespace o.meta.name s) o s;
    update = λ o s. update_at (find o.meta.namespace o.meta.name s) o s;
    delete = λ namespace name s. delete_at (find namespace name s) namespace name s;
    list = λ namespace selector s. (ok s, s);
  }

  create_at-put :
      (old : Option (Resource B)) (o o' : Resource B) (s s' : List (Resource B))
      → create_at old o s ≡ (ok o', s')
      → (o' ≡ o) × (s' ≡ put o s)
  create_at-put none o o' s s' h = (cc, cc)
  create_at-put (some _) o o' s s' h = cc

  update_at-put :
      (old : Option (Resource B)) (o o' : Resource B) (s s' : List (Resource B))
      → update_at old o s ≡ (ok o', s')
      → (o' ≡ o) × (s' ≡ put o s)
  update_at-put none o o' s s' h = cc
  update_at-put (some _) o o' s s' h = (cc, cc)

  stored :
      (o o' : Resource B) (s s' : List (Resource B))
      → (o' ≡ o) × (s' ≡ put o s)
      → (list_store.get o.meta.namespace o.meta.name s' ≡ (ok o', s')) × Agrees o o'
  stored o o' s s' (e, p) = (
    rw (p, e) (ap (λ x. (found_or_error x, put o s)) (find-put o s)),
    rw e (record { body = refl; labels = refl; annotations = refl; namespace = refl; name = refl }),
  )

  pub list_store-IsStore : IsStore {B = B} list_store
  list_store-IsStore = record {
    get-create = λ o o' s s' h. stored o o' s s' (create_at-put _ o o' s s' h);
    get-update = λ o o' s s' h. stored o o' s s' (update_at-put _ o o' s s' h);
  }

  pub list_store-KeepsNames : KeepsNames {A = B} list_store
  list_store-KeepsNames = record {
    create_names = λ o o' s s' h. let e = (create_at-put _ o o' s s' h).0 in rw e (refl, refl);
    update_names = λ o o' s s' h. let e = (update_at-put _ o o' s s' h).0 in rw e (refl, refl);
  }

  abbrev pub Gone : String → String → List (Resource B) → Type 0
  Gone namespace name s = find namespace name s ≡ none

  delete_at-Gone :
      (old : Option (Resource B)) (namespace name : String) (r : Result (Unit {0}))
      (s s' : List (Resource B))
      → find namespace name s ≡ old
      → delete_at old namespace name s ≡ (r, s')
      → Gone namespace name s' × ((ns n : String) → Gone ns n s → Gone ns n s')
  delete_at-Gone none namespace name r s s' e h =
      let same : s ≡ s' = ap (λ x. x.1) h in (rw same at e, λ ns n g. rw same at g)
  delete_at-Gone (some _) namespace name r s s' e h =
      let same : remove namespace name s ≡ s' = ap (λ x. x.1) h in
      (
        rw (← same) (ground (arith, find-remove namespace name namespace name s)),
        λ ns n g. rw (← same) (ground (arith, find-remove namespace name ns n s)),
      )

  pub list_store-IsGone : IsGone {A = B} is_not_found list_store Gone
  list_store-IsGone = record {
    deleted = λ ns n s s' h. (delete_at-Gone _ ns n (ok tt) s s' refl h).0;
    missing = λ ns n e s s' h _. (delete_at-Gone _ ns n (err e) s s' refl h).0;
    stays = λ ns n ns' n' r s s' h g. (delete_at-Gone _ ns n r s s' refl h).1 ns' n' g;
  }

-- A merge of maps as mergo makes it.
unfoldable pub merge_maps : Labels → Labels → Labels
merge_maps dst [] = dst
merge_maps dst ((k, v) ∷ src) =
    let m = merge_maps dst src in if is_empty (Dict.lookup k dst) then Dict.insert k v m else m

lookup-merge_maps :
    (k : String) (dst src : Labels)
    → Dict.lookup k (merge_maps dst src) ≡ (
        if is_empty (Dict.lookup k dst)
        then or_else (Dict.lookup k src) (Dict.lookup k dst)
        else Dict.lookup k dst)
unfolding merge_maps or_else Dict.lookup
lookup-merge_maps k dst [] = ground arith
lookup-merge_maps k dst ((j, v) ∷ src) =
    ground (arith, lookup-merge_maps k dst src, Dict.lookup-insert j k v (merge_maps dst src))

pub merge_maps-IsMergo : IsMergo merge_maps
merge_maps-IsMergo = record { lookup-merge = lookup-merge_maps }

abbrev refusing : {S B : Type 0} → Endpoint S B
refusing = record {
  get = λ namespace name. fail (message "refused");
  create = λ o. fail (message "refused");
  update = λ o. fail (message "refused");
  delete = λ namespace name. fail (message "refused");
  list = λ namespace selector. fail (message "refused");
}

-- A client whose calls are all refused, but for those of the kinds that a test sets. A poll makes
-- five rounds.
abbrev pub sample_client : (S : Type 0) → Client S String
sample_client S = record {
  version = "4.8";
  namespace = "openshift-monitoring";
  user_workload_namespace = "openshift-user-workload-monitoring";
  namespace_selector = "openshift.io/cluster-monitoring=true";
  is_not_found = is_not_found;
  merge = merge_maps;
  same = ◌==◌;
  poll = λ L interval seconds condition. rounds 5 condition;
  poll_immediate = λ L interval seconds condition. rounds 5 condition;
  prometheus_status = λ o. fail (message "refused");
  alertmanager_status = λ o. fail (message "refused");
  thanos_ruler_status = λ o. fail (message "refused");
  prometheus_pods = λ namespace name. fail (message "refused");
  thanos_ruler_pods = λ namespace name. fail (message "refused");
  crd_conditions = λ name. fail (message "refused");
  validating_webhooks = refusing;
  security_context_constraints = refusing;
  prometheuses = refusing;
  alertmanagers = refusing;
  thanos_rulers = refusing;
  prometheus_rules = refusing;
  service_monitors = refusing;
  deployments = refusing;
  daemon_sets = refusing;
  stateful_sets = refusing;
  secrets = refusing;
  config_maps = refusing;
  services = refusing;
  service_accounts = refusing;
  namespaces = refusing;
  roles = refusing;
  cluster_roles = refusing;
  role_bindings = refusing;
  cluster_role_bindings = refusing;
  routes = refusing;
  api_services = refusing;
}
