-- ===== src/Manifests/Tests.antt =====
-- The theorems on manifests at concrete secrets, images and files.
use cluster_monitoring_opera.Base.{
  nil_map, err, ℕ, ◌+◌, ◌-◌, ◌*◌, ◌<◌, ◌≤◌, String, ◌<>◌, true, false, Option, none, some, List, [],
  ◌∷◌, string_eq, ◌≡◌, refl, ◌⊎◌, arith, ok, pure,
}
use cluster_monitoring_opera.Base.Dict
use cluster_monitoring_opera.Base.Dict.{Dict, NodupKeys}
use cluster_monitoring_opera.Client.{ObjectMeta, Resource, Contents}
use cluster_monitoring_opera.Tasks.CaBundle.{hash_of}
use cluster_monitoring_opera.Texts.{char_eq}
use cluster_monitoring_opera.Manifests.Numbers.{
  write, offset_64, format_uint, digits_onto, digit_text,
}
use cluster_monitoring_opera.Manifests.Hashing.{hash_secret}
use cluster_monitoring_opera.Manifests.Hashing.Laws.{
  values_text, arguments, Outcome, hash_secret-reads, prometheus_adapter_secret-Copies,
}
use cluster_monitoring_opera.Manifests.Image.{Image, image_from_string, image_string}
use cluster_monitoring_opera.Manifests.Image.Laws.{image_from_string-image_string}
use cluster_monitoring_opera.Texts.{split, join, all_but_last, last_part}
use cluster_monitoring_opera.Manifests.Rotation.{
  Certificate, CertificateConfig, Crypto, needs_new_cert, rotate_grpc_secret, day,
}
use cluster_monitoring_opera.Manifests.Rotation.Laws.{Rotated, needs_new_cert-bounds}
use cluster_monitoring_opera.Manifests.Rotation.Returns.{
  rotate_grpc_secret_nil, Works, rotate_grpc_secret-Gives,
}

empty_hash : format_uint (write offset_64 "") 32 ≡ "cnskssi2248p5"
unfolding format_uint write digits_onto digit_text
empty_hash = refl

a_hash : write offset_64 "a" ≡ 12638153115695167422
unfolding write
a_hash = refl

abbrev grpc_arguments : List String
grpc_arguments = "ca.crt" ∷ "CA" ∷ "client.key" ∷ "KEY" ∷ []

abbrev meta : ObjectMeta
meta = record {
  namespace = "openshift-monitoring";
  name = "grpc-tls";
  resource_version = "";
  annotations = [];
  labels = [];
}

abbrev holding : Contents → Resource Contents
holding entries = record { meta = meta; body = entries }

abbrev pair : Contents
pair = ("ca.crt", "CA") ∷ ("client.key", "KEY") ∷ []

pair_nodup : NodupKeys pair
unfolding Dict.lookup string_eq
pair_nodup = (refl, (refl, tt))

hash_secret-reads_example :
    (t : Resource Contents) × (hash_secret (holding []) (arguments pair) ≡ ok t)
    × ((k : String) → Dict.lookup k t.body ≡ Dict.lookup k pair)
    × (hash_of t ≡ format_uint (write offset_64 (values_text (arguments pair))) 32)
    × (t.meta.name ≡ "grpc-tls" <> "-" <> hash_of t)
hash_secret-reads_example = hash_secret-reads (holding []) pair pair_nodup

abbrev tls_entries : Contents
tls_entries = ("tls.crt", "CRT") ∷ ("tls.key", "KEY") ∷ []

abbrev auth_entries : Contents
auth_entries = ("client-ca-file", "A") ∷ ("requestheader-client-ca-file", "B") ∷ []

tls_nodup : NodupKeys tls_entries
unfolding Dict.lookup string_eq
tls_nodup = (refl, (refl, tt))

auth_nodup : NodupKeys auth_entries
unfolding Dict.lookup string_eq
auth_nodup = (refl, (refl, tt))

prometheus_adapter_secret-Copies_example :
    Outcome "openshift-monitoring" (holding tls_entries) (holding auth_entries)
prometheus_adapter_secret-Copies_example =
    prometheus_adapter_secret-Copies "openshift-monitoring" (holding tls_entries)
      (holding auth_entries) tls_nodup auth_nodup

abbrev grafana_image : Image
grafana_image = record { repo = "registry:5000/grafana"; tag = "v6" }

read_grafana_image : image_from_string "registry:5000/grafana:v6" ≡ ok grafana_image
unfolding image_from_string split join all_but_last last_part char_eq
read_grafana_image = refl

image_from_string-image_string_example :
    (image_string grafana_image ≡ "registry:5000/grafana:v6")
    × (image_from_string (image_string grafana_image) ≡ ok grafana_image)
unfolding char_eq
image_from_string-image_string_example =
    image_from_string-image_string "registry:5000/grafana:v6" grafana_image grafana_image
      read_grafana_image (refl, (refl, tt))

needs_new_cert-bounds_example :
    (needs_new_cert 0 (10 * day) (9 * day) ≡ true) × (4 * (10 * day - 0) < 5 * (9 * day - 0))
    ⊎ (needs_new_cert 0 (10 * day) (9 * day) ≡ false)
      × (9 * day ≤ 10 * day)
      × (5 * (9 * day - 0) ≤ 4 * (10 * day - 0) + 4)
needs_new_cert-bounds_example =
    needs_new_cert-bounds 0 (10 * day) (9 * day) (omega arith) (omega arith)

-- Libraries that make certificates, over a clock that ticks at each look.
abbrev certificate : Certificate String
certificate = record { not_before = 0; not_after = 10 * day; serial_number = 1; rest = "cert" }

abbrev certificates : CertificateConfig String String
certificates = record { certs = certificate ∷ []; key = "key" }

abbrev libraries : Crypto ℕ String String
libraries = record {
  now = λ s. (ok s, s + 1);
  default_certificate_lifetime_in_days = 730;
  get_ca_from_bytes = λ crt key. ok certificates;
  make_self_signed_ca_config = λ name days. pure certificates;
  create_certificate = λ template parent priv. pure "raw";
  parse_certificates = λ raw. ok (certificate ∷ []);
  get_pem_bytes = λ cfg. ok ("crt", "key");
  make_client_certificate = λ ca name lifetime. pure certificates;
  make_server_cert = λ ca names days. pure certificates;
}

libraries-Works : Works libraries
libraries-Works = record {
  now = λ s. (s, s + 1, refl, tt);
  self_signed = λ name days s. (certificates, s, refl, tt);
  create = λ template parent priv s. ("raw", s, refl, (certificate, [], refl));
  pem = λ cfg. (("crt", "key"), refl);
  client = λ ca name lifetime s. (certificates, s, refl, tt);
  server = λ ca names days s. (certificates, s, refl, tt);
  read = λ crt key ca e. (certificate, [], cc);
}

abbrev made : Resource (Option Contents)
made = record { meta = meta; body = some [] }

rotate_grpc_secret-Gives_example :
    (s : Resource (Option Contents)) × (t : ℕ) × (rotate_grpc_secret libraries made 7 ≡ (ok s, t))
    × Rotated libraries made s
rotate_grpc_secret-Gives_example =
    rotate_grpc_secret-Gives libraries libraries-Works made ([], refl) 7

rotate_grpc_secret_nil_example :
    (t : ℕ) × (rotate_grpc_secret libraries (record { meta = meta; body = none }) 7
      ≡ (err nil_map, t))
rotate_grpc_secret_nil_example = rotate_grpc_secret_nil libraries libraries-Works meta 7
