-- ===== src/Manifests/Hashing.antt =====
-- pkg/manifests/manifests.go: `HashTrustedCA`, `HashSecret` and `PrometheusAdapterSecret`, which name
-- an object by a hash of its content.
pub mod Laws
use cluster_monitoring_opera.Base.{
  ℕ, String, ◌<>◌, Bool, Option, none, some, List, [], ◌∷◌, ◌==◌, string_eq, if◌then◌else◌, Error,
  Result, ok, err, message, wrap,
}
use cluster_monitoring_opera.Base.Dict
use cluster_monitoring_opera.Client.{ObjectMeta, Resource, Contents}
use cluster_monitoring_opera.Manifests.Numbers.{offset_64, write, format_uint}
use cluster_monitoring_opera.Manifests.Reader.{Reader, new_reader, value}
use cluster_monitoring_opera.Tasks.CaBundle.{trusted_ca_bundle_key}

-- `strconv.FormatUint(h.Sum64(), 32)`
abbrev pub hash_text : ℕ → String
hash_text h = format_uint h 32

-- The metadata of an object that is named by its content: its labels hold the prefix and the hash.
abbrev pub hashed_meta : String → String → String → String → ObjectMeta
hashed_meta namespace name label hash = record {
  namespace = namespace;
  name = name;
  resource_version = "";
  annotations = [];
  labels = ("monitoring.openshift.io/name", label) ∷ ("monitoring.openshift.io/hash", hash) ∷ [];
}

-- The loop of `HashSecret` over keys and values, of which it takes pairs.
unfoldable pub write_pairs : List String → ℕ → Contents → ℕ × Contents
write_pairs [] h m = (h, m)
write_pairs (_ ∷ []) h m = (h, m)
write_pairs (k ∷ v ∷ rest) h m = write_pairs rest (write h v) (Dict.insert k v m)

abbrev pub hashed_secret : Resource Contents → ℕ × Contents → Resource Contents
hashed_secret secret (h, m) = record {
  meta =
      hashed_meta secret.meta.namespace (secret.meta.name <> "-" <> hash_text h) secret.meta.name
        (hash_text h);
  body = m;
}

-- Writing to the hash never fails.
unfoldable pub hash_secret : Resource Contents → List String → Result (Resource Contents)
unfolding write_pairs
hash_secret secret args = ok (hashed_secret secret (write_pairs args offset_64 []))

abbrev pub hashed_bundle : String → Resource Contents → String → String → Resource Contents
hashed_bundle namespace cm prefix ca_bundle =
    let hash = hash_text (write offset_64 ca_bundle) in
    record {
      meta =
          hashed_meta (if cm.meta.namespace == "" then namespace else cm.meta.namespace)
            (prefix <> "-trusted-ca-bundle-" <> hash) prefix hash;
      body = (trusted_ca_bundle_key, ca_bundle) ∷ [];
    }

-- `HashTrustedCA`, with the namespace of the factory.
unfoldable pub hash_trusted_ca : String → Resource Contents → String → Result (Resource Contents)
hash_trusted_ca namespace cm prefix = elim (Dict.lookup trusted_ca_bundle_key cm.body) [
  | none ↦ err (message "CA bundle key \"ca-bundle.crt\" missing")
  | some ca_bundle ↦
      if ca_bundle == ""
      then err (message "CA bundle key \"ca-bundle.crt\" empty")
      else ok (hashed_bundle namespace cm prefix ca_bundle)
]

-- `for k, v := range entries { data[k] = v }`
unfoldable pub add_entries : Contents → Contents → Contents
add_entries [] m = m
add_entries ((k, v) ∷ entries) m = add_entries entries (Dict.insert k v m)

abbrev pub adapter_secret : String → String → String → String → String → Resource Contents
adapter_secret namespace client_ca requestheader_client_ca tls_ca tls_key =
    let hash =
      hash_text (write offset_64 (client_ca <> requestheader_client_ca <> tls_ca <> tls_key)) in
    record {
      meta = hashed_meta namespace ("prometheus-adapter-" <> hash) "prometheus-adapter" hash;
      body =
          ("client-ca-file", client_ca)
          ∷ ("requestheader-client-ca-file", requestheader_client_ca)
          ∷ ("tls.crt", tls_ca)
          ∷ ("tls.key", tls_key)
          ∷ [];
    }

abbrev pub or_missing : Option Error → Resource Contents → Result (Resource Contents)
or_missing none s = ok s
or_missing (some e) s =
    err (wrap e "value not found in extension api server authentication configmap")

-- `PrometheusAdapterSecret`, with the namespace of the factory.
unfoldable pub prometheus_adapter_secret :
    String → Resource Contents → Resource Contents → Result (Resource Contents)
unfolding add_entries value
prometheus_adapter_secret namespace tls_secret api_auth_configmap =
    let m = add_entries api_auth_configmap.body (add_entries tls_secret.body []) in
    let (client_ca, r) = value "client-ca-file" (new_reader m) in
    let (requestheader_client_ca, r) = value "requestheader-client-ca-file" r in
    let (tls_ca, r) = value "tls.crt" r in
    let (tls_key, r) = value "tls.key" r in
    or_missing r.err (adapter_secret namespace client_ca requestheader_client_ca tls_ca tls_key)
