-- ===== src/Manifests/Rotation.antt =====
-- pkg/manifests/tls.go: the rotation of the certificates for GRPC. Times and durations are in
-- nanoseconds, times since the beginning of 1970.
pub mod Issued
pub mod Laws
pub mod Returns
use Prim.Native.Nat.{◌^◌, min}
use cluster_monitoring_opera.Base.{
  ℕ, ◌+◌, ◌-◌, ◌*◌, ◌/◌, String, ◌<>◌, Bool, true, false, ◌||◌, not, Option, none, some, List, [],
  ◌∷◌, ltb, string_eq, if◌then◌else◌, Error, Result, ok, err, nil_map, index_out_of_range, wrap, M,
  pure, fail, give, wrapped, attempt, ◌>>=◌, ◌>>◌,
}
use cluster_monitoring_opera.Base.Dict
use cluster_monitoring_opera.Client.{ObjectMeta, Resource, Contents}
use cluster_monitoring_opera.Manifests.Numbers.{format_uint}
use cluster_monitoring_opera.Tasks.Secrets.{wrap_unless_panic}

-- `x509.Certificate`, with the fields that the code reads and sets; `X` stands for the others.
pub record Certificate (X : Type 0) : Type 0 where
  pub not_before : ℕ
  pub not_after : ℕ
  pub serial_number : ℕ
  pub rest : X

-- `crypto.TLSCertificateConfig`, also as the `Config` of a `crypto.CA`.
pub record CertificateConfig (X K : Type 0) : Type 0 where
  pub certs : List (Certificate X)
  pub key : K

-- The calls of library-go's crypto, of crypto/x509, and the clock.
pub record Crypto (S X K : Type 0) : Type 0 where
  pub now : M S ℕ
  pub default_certificate_lifetime_in_days : ℕ
  pub get_ca_from_bytes : String → String → Result (CertificateConfig X K)
  pub make_self_signed_ca_config : String → ℕ → M S (CertificateConfig X K)
  -- A certificate by a template and its parent, the public key of the template, and a private key.
  pub create_certificate : Certificate X → Certificate X → K → M S String
  pub parse_certificates : String → Result (List (Certificate X))
  pub get_pem_bytes : CertificateConfig X K → Result (String × String)
  pub make_client_certificate : CertificateConfig X K → String → ℕ → M S (CertificateConfig X K)
  pub make_server_cert : CertificateConfig X K → List String → ℕ → M S (CertificateConfig X K)

abbrev pub second : ℕ
second = 1000000000

abbrev pub day : ℕ
day = 24 * 3600 * second

-- `notAfter.Add(-(notAfter.Sub(notBefore) / 5))`. A difference is cut to what an int64 holds.
abbrev pub latest_time : ℕ → ℕ → ℕ
latest_time not_before not_after =
    if ltb not_after not_before
    then not_after + min (not_before - not_after) (2 ^ 63) / 5
    else not_after - min (not_after - not_before) (2 ^ 63 - 1) / 5

unfoldable pub needs_new_cert : ℕ → ℕ → ℕ → Bool
needs_new_cert not_before not_after now = ltb (latest_time not_before not_after) now

abbrev pub forced_rotate : String
forced_rotate = "monitoring.openshift.io/grpc-tls-forced-rotate"

abbrev pub has_key : String → Contents → Bool
has_key key m = elim (Dict.lookup key m) [ none ↦ false | some _ ↦ true ]

-- The data of a secret, where a nil map has no entries.
abbrev pub entries_of : Option Contents → Contents
entries_of none = []
entries_of (some m) = m

-- The deletion of the annotation that forces a rotation.
abbrev pub unforced : Resource (Option Contents) → Resource (Option Contents)
unforced s = record s {
  meta = record s.meta { annotations = Dict.erase forced_rotate s.meta.annotations };
}

module _ {S X K : Type 0} (cr : Crypto S X K) where
  -- `curCA.Config.Certs[0]`
  abbrev pub first_cert : {A : Type 0} → List A → M S A
  first_cert [] = fail index_out_of_range
  first_cert (cert ∷ _) = pure cert

  unfoldable pub create_certificate : Certificate X → Certificate X → K → M S (Certificate X)
  create_certificate template parent priv = do
    raw_cert ← wrapped "error creating certificate" (cr.create_certificate template parent priv)
    parsed_certs ← wrapped "error parsing certificate" (give (cr.parse_certificates raw_cert))
    first_cert parsed_certs

  -- The CA of the secret where there is one that can be read, and whether it is to be replaced.
  abbrev pub by_age : CertificateConfig X K → ℕ → M S (Option (CertificateConfig X K) × Bool)
  by_age ca now = do
    cert ← first_cert ca.certs
    pure (some ca, needs_new_cert cert.not_before cert.not_after now)

  abbrev pub by_ca : Result (CertificateConfig X K) → M S (Option (CertificateConfig X K) × Bool)
  by_ca (err _) = pure (none, true)
  by_ca (ok ca) = do now ← cr.now; by_age ca now

  unfoldable pub current_ca :
      Option String → Option String → M S (Option (CertificateConfig X K) × Bool)
  unfolding needs_new_cert
  current_ca (some crt) (some key) = by_ca (cr.get_ca_from_bytes crt key)
  current_ca _ _ = pure (none, true)

  -- The new certificate with the key of the CA before.
  abbrev pub with_key : K → Result (Certificate X) → M S (CertificateConfig X K)
  with_key key created = do
    new_ca_cert ← give (wrap_unless_panic "error rotating CA" created)
    pure (record { certs = new_ca_cert ∷ []; key = key })

  -- A CA of a new key, or a new certificate for the key of the one before.
  unfoldable pub new_ca : Option (CertificateConfig X K) → M S (CertificateConfig X K)
  unfolding create_certificate
  new_ca none = do
    now ← cr.now
    wrapped "error generating self signed CA" (
        cr.make_self_signed_ca_config
          ("openshift-cluster-monitoring@" <> format_uint (now / second) 10)
          cr.default_certificate_lifetime_in_days)
  new_ca (some cur_ca) = do
    cert ← first_cert cur_ca.certs
    now ← cr.now
    let template : Certificate X = record cert {
      not_before = now - second;
      not_after = now + cr.default_certificate_lifetime_in_days * day;
      serial_number = cert.serial_number + 1;
    }
    created ← attempt (create_certificate template template cur_ca.key)
    with_key cur_ca.key created

  -- `s.Data[crt], s.Data[key] = …`: a panic where the map is nil.
  unfoldable pub set_pair :
      String
      → String
      → String × String
      → Resource (Option Contents)
      → M S (Resource (Option Contents))
  set_pair crt key (crt_bytes, key_bytes) s = elim s.body [
    | none ↦ fail nil_map
    | some m ↦
        pure (record s { body = some (Dict.insert key key_bytes (Dict.insert crt crt_bytes m)) })
  ]

  -- The new CA and the certificates that it issues.
  unfoldable pub issue_certificates :
      CertificateConfig X K → Resource (Option Contents) → M S (Resource (Option Contents))
  unfolding set_pair
  issue_certificates ca s = do
    pem ← wrapped "error getting PEM bytes from CA" (give (cr.get_pem_bytes ca))
    s ← set_pair "ca.crt" "ca.key" pem s
    cfg ← wrapped "error making client certificate" (
        cr.make_client_certificate ca "thanos-querier"
          (cr.default_certificate_lifetime_in_days * day))
    pem ←
        wrapped "error getting PEM bytes for thanos querier client certificate"
          (give (cr.get_pem_bytes cfg))
    s ← set_pair "thanos-querier-client.crt" "thanos-querier-client.key" pem s
    cfg ←
        wrapped "error making server certificate"
          (cr.make_server_cert ca ("prometheus-grpc" ∷ []) cr.default_certificate_lifetime_in_days)
    pem ←
        wrapped "error getting PEM bytes for prometheus-k8s server certificate"
          (give (cr.get_pem_bytes cfg))
    set_pair "prometheus-server.crt" "prometheus-server.key" pem s

  -- What is left to do by whether the CA is to be replaced.
  unfoldable pub rotate_if :
      Bool
      → Option (CertificateConfig X K)
      → Resource (Option Contents)
      → M S (Resource (Option Contents))
  unfolding new_ca issue_certificates
  rotate_if false cur_ca s = pure s
  rotate_if true cur_ca s = do ca ← new_ca cur_ca; issue_certificates ca s

  -- `RotateGRPCSecret`, which returns the secret that it has changed.
  unfoldable pub rotate_grpc_secret : Resource (Option Contents) → M S (Resource (Option Contents))
  unfolding current_ca rotate_if
  rotate_grpc_secret s = do
    let m : Contents = entries_of s.body
    (cur_ca, rotate) ← current_ca (Dict.lookup "ca.crt" m) (Dict.lookup "ca.key" m)
    let forced : Bool = has_key forced_rotate s.meta.annotations
    rotate_if (rotate || forced) cur_ca (if forced then unforced s else s)
