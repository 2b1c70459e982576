-- ===== src/Tasks/CaBundle.antt =====
-- pkg/tasks/helpers.go: `syncTrustedCABundle`, which waits for the bundle that the cluster injects into
-- a ConfigMap, and keeps a copy under a name that holds its hash.
pub mod Synced
mod Tests
use cluster_monitoring_opera.Base.{
  ℕ, ◌*◌, String, ◌<>◌, Bool, true, false, Option, none, some, List, ◌==◌, string_eq, if◌then◌else◌,
  Error, Result, ok, err, timeout, message, wrap, nil_dereference, or_wrap, M, pure, give, wrapped,
  ◌>>=◌, ◌>>◌,
}
use cluster_monitoring_opera.Base.Dict
use cluster_monitoring_opera.Client.{Resource, Contents, Client}
use cluster_monitoring_opera.Client.Apply.{
  create_if_not_exist_config_map, create_or_update_config_map,
}
use cluster_monitoring_opera.Client.Delete.{delete_hashed_config_map}
use cluster_monitoring_opera.Client.Wait.{full_name}

abbrev pub trusted_ca_bundle_key : String
trusted_ca_bundle_key = "ca-bundle.crt"

-- `lastCM` and `lastErr`, which the condition captures.
abbrev pub Polled : Type 0
Polled = Option (Resource Contents) × Option Error

-- `err = errors.Errorf("%v: %v", err, lastErr)` on a timeout.
abbrev pub with_last : Option Error → Result (Unit {0}) → Result (Unit {0})
with_last (some e) (err timeout) = err (wrap e "timed out waiting for the condition")
with_last _ r = r

-- The ConfigMap that was read last; a poll that ends well has read one.
abbrev pub last_read : Option (Resource Contents) → Result (Unit {0}) → Result (Resource Contents)
last_read _ (err e) = err e
last_read none (ok _) = err nil_dereference
last_read (some cm) (ok _) = ok cm

-- `hashedCM.Labels["monitoring.openshift.io/hash"]`
abbrev pub hash_of : Resource Contents → String
hash_of cm = elim (Dict.lookup "monitoring.openshift.io/hash" cm.meta.labels) [
  | none ↦ ""
  | some h ↦ h
]

module _ {S B : Type 0} (c : Client S B) where
  abbrev pub by_value :
      Resource Contents → Option Error → S → Option String → Result Bool × (S × Polled)
  by_value cm last s none = (ok false, (s, (some cm, some (message "key missing"))))
  by_value cm last s (some v) =
      if v == ""
      then (ok false, (s, (some cm, some (message "empty value"))))
      else (ok true, (s, (some cm, last)))

  abbrev pub by_read : Option Error → Result (Resource Contents) → S → Result Bool × (S × Polled)
  by_read last (err e) s =
      (ok false, (s, (none, some (wrap e "retrieving ConfigMap object failed"))))
  by_read last (ok cm) s = by_value cm last s (Dict.lookup trusted_ca_bundle_key cm.body)

  -- The condition of the poll.
  abbrev pub bundle_ready : Resource Contents → M (S × Polled) Bool
  bundle_ready ca (s, (_, last)) =
      let (r, s') = c.config_maps.get ca.meta.namespace ca.meta.name s in by_read last r s'

  unfoldable pub wait_for_bundle : Resource Contents → M S (Resource Contents)
  wait_for_bundle ca s =
      let (r, (s', (cm, last))) =
        c.poll_immediate Polled 5 (5 * 60) (bundle_ready ca) (s, (none, none)) in
      (
        last_read cm (
            or_wrap
              ("waiting for config map key \"ca-bundle.crt\" in "
                <> full_name ca
                <> " ConfigMap object failed")
              (with_last last r)),
        s',
      )

  -- The copy under its hash, and then the end of the older copies.
  unfoldable pub apply_and_clean : String → String → Resource Contents → M S (Resource Contents)
  apply_and_clean prefix namespace hashed = do
    wrapped "reconciling trusted CA bundle ConfigMap failed" (create_or_update_config_map c hashed)
    wrapped "deleting old trusted CA bundle configmaps failed"
        (delete_hashed_config_map c namespace prefix (hash_of hashed))
    pure hashed

  -- `caBundleSyncer`: `HashTrustedCA` of the factory, and the prefix.
  module _ (hash : Resource Contents → String → Result (Resource Contents)) (prefix : String) where
    unfoldable pub sync_trusted_ca_bundle : Resource Contents → M S (Resource Contents)
    unfolding wait_for_bundle apply_and_clean
    sync_trusted_ca_bundle trusted_ca = do
      ca ←
          wrapped " creating root trusted CA bundle ConfigMap failed"
            (create_if_not_exist_config_map c trusted_ca)
      last_cm ← wait_for_bundle ca
      hashed ← wrapped "hashing trusted CA bundle failed" (give (hash last_cm prefix))
      apply_and_clean prefix ca.meta.namespace hashed
