-- ===== src/Tasks/Secrets.antt =====
-- What the tasks of Prometheus and Thanos in pkg/tasks do with secrets and lists of objects: reading
-- a secret that was waited for, the password of the Grafana datasource, and the loops over items.
use cluster_monitoring_opera.Base.{
  String, ◌<>◌, Option, none, some, List, [], ◌∷◌, Result, ok, err, Error, nil_dereference,
  index_out_of_range, nil_map, wrap, string_eq, M, pure, fail, give, wrapped, ◌>>=◌, ◌>>◌,
}
use cluster_monitoring_opera.Base.Dict
use cluster_monitoring_opera.Client.{Resource, Contents}

-- `*GrafanaDatasource`, with the field that the tasks read.
pub record Datasource : Type 0 where
  pub basic_auth_password : String

-- A pointer that is read: a panic where it is nil.
abbrev pub present : {S A : Type 0} → Option A → M S A
present none = fail nil_dereference
present (some a) = pure a

-- What a call ends with where its error is wrapped and its panic is not.
abbrev pub wrap_error : String → Error → Error
wrap_error text nil_dereference = nil_dereference
wrap_error text index_out_of_range = index_out_of_range
wrap_error text nil_map = nil_map
wrap_error text e = wrap e text

abbrev pub wrap_unless_panic : {A : Type 0} → String → Result A → Result A
wrap_unless_panic text (ok a) = ok a
wrap_unless_panic text (err e) = err (wrap_error text e)

-- The value of a Go pair whose error is dropped: nil on an error.
abbrev pub value_of : {A : Type 0} → Result A → Option A
value_of (ok a) = some a
value_of (err _) = none

-- `string(s.Data[key])`
abbrev pub data_at : String → Resource Contents → String
data_at key s = elim (Dict.lookup key s.body) [ none ↦ "" | some v ↦ v ]

-- The arguments of `HashSecret` at the server's side of GRPC, and at the client's.
abbrev pub server_data : Resource Contents → List String
server_data grpc_tls =
    "ca.crt"
    ∷ data_at "ca.crt" grpc_tls
    ∷ "server.crt"
    ∷ data_at "prometheus-server.crt" grpc_tls
    ∷ "server.key"
    ∷ data_at "prometheus-server.key" grpc_tls
    ∷ []

abbrev pub client_data : Resource Contents → List String
client_data grpc_tls =
    "ca.crt"
    ∷ data_at "ca.crt" grpc_tls
    ∷ "client.crt"
    ∷ data_at "thanos-querier-client.crt" grpc_tls
    ∷ "client.key"
    ∷ data_at "thanos-querier-client.key" grpc_tls
    ∷ []

-- `d.Datasources[0].BasicAuthPassword`
abbrev pub first_password : List (Option Datasource) → Result String
first_password [] = err index_out_of_range
first_password (none ∷ _) = err nil_dereference
first_password (some d ∷ _) = ok d.basic_auth_password

module _ {S : Type 0} where
  -- The JSON decoder gives the datasources.
  unfoldable pub basic_auth_password :
      (String → Result (List (Option Datasource))) → Option (Resource Contents) → M S String
  basic_auth_password unmarshal gs = do
    gs ← present gs
    datasources ←
        wrapped "unmarshalling grafana datasource failed"
          (give (unmarshal (data_at "prometheus.yaml" gs)))
    give (first_password datasources)

  -- `for _, o := range list.Items`, with the text `what "name" failed` on an error. A name holds no
  -- character that `%q` escapes.
  unfoldable pub for_items :
      {A : Type 0} → String → (Resource A → M S (Unit {0})) → List (Resource A) → M S (Unit {0})
  for_items what call [] = pure tt
  for_items what call (o ∷ os) =
      wrapped (what <> " \"" <> o.meta.name <> "\" failed") (call o) >> for_items what call os
