-- ===== src/Entry/Tests.antt =====
-- The flag of the images and the process at concrete flags.
use cluster_monitoring_opera.Base.{
  ℕ, ◌+◌, String, false, [], ◌∷◌, string_eq, ◌≡◌, refl, All, ok, err,
}
use cluster_monitoring_opera.Base.Dict
use cluster_monitoring_opera.Base.Dict.{NodupKeys}
use cluster_monitoring_opera.Texts.{char_eq, split}
use cluster_monitoring_opera.Entry.{
  ImagesFlag, Flags, Process, images_string, set, set_pairs, set_pair, main, check_flags,
  start_operator, malformed,
}
use cluster_monitoring_opera.Entry.Laws.{IsPlainEntry, set-images_string, RanToEnd, main-RanToEnd}

abbrev some_images : ImagesFlag
some_images = ("g", ":") ∷ ("p", "2") ∷ []

some_images_plain : All IsPlainEntry some_images
unfolding char_eq
some_images_plain = (
  (((refl, tt), (refl, tt)), ((refl, tt), (refl, tt))),
  ((((refl, tt), (refl, tt)), ((refl, tt), (refl, tt))), tt),
)

some_images_nodup : NodupKeys some_images
unfolding Dict.lookup string_eq
some_images_nodup = (refl, (refl, tt))

set-images_string_example :
    (m : ImagesFlag) × (set (images_string some_images) [] ≡ (ok tt, m))
    × ((name : String) → Dict.lookup name m ≡ Dict.lookup name some_images)
set-images_string_example =
    set-images_string ("g", ":") (("p", "2") ∷ []) some_images_plain some_images_nodup

-- The flag of no images is empty, and an empty value is malformed.
set_empty : set "" some_images ≡ (err (malformed ""), some_images)
unfolding set set_pairs set_pair split char_eq
set_empty = refl

abbrev flags : Flags
flags = record {
  namespace = "openshift-monitoring";
  namespace_user_workload = "openshift-user-workload-monitoring";
  namespace_selector = "openshift.io/cluster-monitoring=true";
  config_map_name = "cluster-monitoring-config";
  kubeconfig_path = "";
  apiserver = "";
  release_version = "4.8";
  telemetry_config_file = "metrics.yaml";
  remote_write = false;
  assets_path = "/assets";
  images = some_images;
}

-- Every call succeeds, and the state counts them.
abbrev process : Process ℕ (Unit {0}) (Unit {0})
process = record {
  open_file = λ path s. (ok tt, s + 1);
  decode_matches = λ s. (ok [], s + 1);
  close = λ s. (ok tt, s + 1);
  is_missing = λ path s. (false, s + 1);
  build_config_from_flags = λ apiserver kubeconfig s. (ok tt, s + 1);
  new = λ config arguments s. (ok tt, s + 1);
  run = λ o s. (ok tt, s + 1);
}

ran : main process flags 0 ≡ (ok 0, 7)
unfolding main check_flags start_operator string_eq
ran = refl

main-RanToEnd_example : RanToEnd process flags 7
main-RanToEnd_example = main-RanToEnd process flags 0 7 ran
